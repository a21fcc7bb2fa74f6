-- ===== src/Client/Threads.antt =====
-- client/client.c, `main`: the two threads of the client over one session, and its start and end.
-- A step is what a thread does from one return of `select` to its next call, and the steps of the
-- two may follow each other in any order.
pub mod End
use tcp_chat_server_c.Base.{
  Bool, List, Option, [], eq_int, false, if◌then◌else◌, is_neg, negsuc, none, not, some, true, ℕ, ℤ,
  ◌&&◌, ◌++◌, ◌∷◌,
}
use tcp_chat_server_c.CString.{Bytes}
use tcp_chat_server_c.Arguments.{parse_client_args}
use tcp_chat_server_c.Client.{Session}
use tcp_chat_server_c.Client.Commands.{FileSystem}
use tcp_chat_server_c.Client.Input.{InputTurn, InputWake, on_wake, reads_on, stops}
use tcp_chat_server_c.Client.Login.{LoginEnd, login_done, login_to_server}
use tcp_chat_server_c.Client.Messages.{MessageTurn, Shown, SocketWake, hangs_up, listens, on_socket}

-- What `socket`, `inet_pton`, `connect` and `pthread_create` return, and `getcwd`.
pub record Start : Type 0 where
  pub socket : ℤ
  pub address_good : Bool
  pub connects : Bool
  pub cwd : Option Bytes
  pub thread : Bool

pub record ClientState : Type 0 where
  pub session : Session
  pub input_ended : Bool
  pub messages_ended : Bool
  pub shown : List Shown

pub data ClientEvent : Type 0 where
  input_event : InputWake → ClientEvent
  socket_event : SocketWake → ClientEvent

-- The test of the loop follows each turn.
input_moved : ClientState → InputTurn → ClientState
input_moved st (reads_on s) = record st { session = s; input_ended = not s.client_running }
input_moved st (stops s) = record st { session = s; input_ended = true }

messages_moved : ClientState → MessageTurn → ClientState
messages_moved st (listens none s) = record st {
  session = s;
  messages_ended = not s.client_running;
}
messages_moved st (listens (some shown) s) = record st {
  session = s;
  messages_ended = not s.client_running;
  shown = st.shown ++ shown ∷ [];
}
messages_moved st (hangs_up s) = record st { session = s; messages_ended = true }

unfoldable pub client_step : FileSystem → ClientState → ClientEvent → ClientState
unfolding input_moved messages_moved
client_step fs st (input_event wake) =
    if st.input_ended then st else input_moved st (on_wake fs st.session wake)
client_step fs st (socket_event wake) =
    if st.messages_ended then st else messages_moved st (on_socket st.session wake)

unfoldable pub run_client : FileSystem → ClientState → List ClientEvent → ClientState
run_client fs st [] = st
run_client fs st (e ∷ events) = run_client fs (client_step fs st e) events

-- The socket that is closed, if there is one, and the session without it.
unfoldable pub cleanup_client : Session → Option ℤ × Session
cleanup_client s =
    if eq_int s.client_socket (negsuc 0)
    then (none, s)
    else (some s.client_socket, record s { client_socket = negsuc 0 })

-- Whether the client is connected; the socket is closed again where it is not.
unfoldable pub connect_to_server : Start → Session → Bool × Session
connect_to_server start s =
    if is_neg start.socket
    then (false, record s { client_socket = start.socket })
    else if not start.address_good
    then (false, record s { client_socket = negsuc 0 })
    else if not start.connects
    then (false, record s { client_socket = negsuc 0 })
    else (true, record s { client_socket = start.socket })

-- `main` has returned, with its status and the socket that `cleanup_client` has closed, or its
-- threads run.
pub data ClientRun : Type 0 where
  main_returns : ℕ → Option ℤ → Session → ClientRun
  main_waits : ClientState → ClientRun

-- `cleanup_client(); return status;`
main_cleaned : ℕ → Option ℤ × Session → ClientRun
main_cleaned exit_code (closed_socket, s) = main_returns exit_code closed_socket s

-- After `pthread_join`, which waits for the receiving thread.
unfoldable pub join_threads : ClientState → ClientRun
unfolding main_cleaned cleanup_client
join_threads st =
    if st.input_ended && st.messages_ended
    then main_cleaned 0 (cleanup_client st.session)
    else main_waits st

threads_started : FileSystem → Start → List ClientEvent → LoginEnd × Session → ClientRun
unfolding join_threads
threads_started fs start events (login_done, s) =
    if not start.thread
    then main_cleaned 1 (cleanup_client s)
    else join_threads (
        run_client fs
          (record { session = s; input_ended = false; messages_ended = false; shown = [] }) events)
threads_started fs start events (_, s) = main_cleaned 1 (cleanup_client s)

client_connected : FileSystem → Start → List ClientEvent → Bool × Session → ClientRun
unfolding threads_started
client_connected fs start events (false, s) = main_returns 1 none s
client_connected fs start events (true, s) =
    threads_started fs start events (login_to_server start.cwd s)

-- `main` up to the steps of its threads that are given. `overflow` stands for what `atoi` gives for
-- a number that an `int` does not hold.
unfoldable pub client_main :
    (Bytes → ℤ) → FileSystem → Start → Session → List ClientEvent → List Bytes → ClientRun
unfolding client_connected
client_main overflow fs start s events argv = elim (parse_client_args overflow argv) [
  | none ↦ main_returns 1 none s
  | some params ↦ client_connected fs start events (connect_to_server start s)
]
