-- ===== src/Server/Connection.antt =====
-- How a connection begins and ends: `handle_client_login`, and `cleanup_client_connection` with the
-- removal that follows it in `handle_client`.
pub mod Safe
pub mod Rounds
pub mod Username
pub mod Directory
pub mod Welcome
pub mod Race
use mathlib.Core.Option
use tcp_chat_server_c.Base.{
  Bool, List, Option, [], eq_int, if◌then◌else◌, is_some, leb_zero, length, ltb, map, negsuc, none,
  not, some, ℕ, ℤ, ◌&&◌, ◌++◌, ◌∷◌,
}
use tcp_chat_server_c.CString.{Bytes, all_alnum, cstr, is_blank_or_newline, is_empty, trim_end}
use tcp_chat_server_c.Wire.{Net, closed, receive_message}
use tcp_chat_server_c.Clients.{
  Arrival, Client, ClientList, add_client, find_client_by_socket, find_client_by_username,
  remove_client,
}
use tcp_chat_server_c.Rooms.{Room, find_room}
use tcp_chat_server_c.Replies.{
  disconnected, invalid_username, login_success, server_error, username_taken,
}
use tcp_chat_server_c.Server.{World, notify, respond, take_out, update_room}

-- The exit status is 0 for a name of 1 to 16 letters and digits.
unfoldable pub validate_username : Bytes → Bool
validate_username name = not (is_empty name) && not (ltb 16 (length name)) && all_alnum name

-- A round of the login loop ends the loop with -1 or 0, or goes on.
pub data Login : Type 0 where
  lost logged_in again : World → Login

-- A received message as a C string, without the spaces, tabs and newlines that end it. Those at its
-- start stay, and its first byte is never cut.
unfoldable pub clean_login : Bytes → Bytes
clean_login buffer = trim_end is_blank_or_newline (cstr buffer)

-- What `malloc` and `time` return in a round.
pub record Round : Type 0 where
  pub fresh : Option ℕ
  pub now : ℕ

admitted : World → ℤ → Option Client × ClientList → Login
admitted w fd (none, clients) = again (respond (record w { clients = clients }) fd server_error)
admitted w fd (some c, clients) =
    logged_in (respond (record w { clients = clients }) fd login_success)

unfoldable pub login_checked : World → Arrival → Round → Bytes → Login
unfolding admitted
login_checked w a round username =
    if not (validate_username username)
    then again (respond w a.socket_fd invalid_username)
    else if is_some (find_client_by_username w.clients.nodes username)
    then again (respond w a.socket_fd username_taken)
    else admitted w a.socket_fd (add_client w.clients round.fresh round.now (some username) a)

login_path : World → Arrival → Round → Bytes → ℤ × Bytes × Net → Login
unfolding login_checked
login_path w a round username (code, path, net) =
    if leb_zero code
    then lost (record w { net = net })
    else login_checked (record w { net = net }) (record a { file_path = some (clean_login path) })
        round (clean_login username)

login_name : World → Arrival → Round → ℤ × Bytes × Net → Login
unfolding login_path
login_name w a round (code, username, net) =
    if leb_zero code
    then lost (record w { net = net })
    else login_path (record w { net = net }) a round username (receive_message net a.socket_fd 1024)

unfoldable pub login_round : World → Arrival → Round → Login
unfolding login_name
login_round w a round = login_name w a round (receive_message w.net a.socket_fd 1024)

-- `while (1) { ... }`, for the rounds that are given: the loop waits for its peer after them.
unfoldable pub handle_client_login : World → Arrival → List Round → Login
handle_client_login w a [] = again w
handle_client_login w a (round ∷ rounds) = elim (login_round w a round) [
  | again w' ↦ handle_client_login w' a rounds
  | lost w' ↦ lost w'
  | logged_in w' ↦ logged_in w'
]

tell_room : World → Client → ℕ → Option Room → Option World
tell_room w c now none = some w
tell_room w c now (some r) =
    notify (update_room w c.current_room_name (take_out (some now) c.address)) none
      (disconnected c.username) (take_out (some now) c.address r).clients

leave_for_good : World → ℕ → Option Client → Option World
unfolding tell_room
leave_for_good w now none = some w
leave_for_good w now (some c) =
    if is_empty c.current_room_name
    then some w
    else tell_room w c now (find_room w.rooms.nodes c.current_room_name)

close_socket : ℤ → World → World
close_socket fd w = record w { closed = w.closed ++ fd ∷ [] }

unfoldable pub cleanup_client_connection : World → ℤ → ℕ → Option World
unfolding leave_for_good close_socket
cleanup_client_connection w fd now =
    if eq_int fd (negsuc 0)
    then some w
    else Option.map (close_socket fd)
        (leave_for_good w now (find_client_by_socket w.clients.nodes fd))

forget_client : ℤ → World → World
forget_client fd w = record w { clients = (remove_client w.clients fd).1 }

-- The end of `handle_client`, after the message loop.
unfoldable pub disconnect : World → ℤ → ℕ → Option World
unfolding forget_client
disconnect w fd now = Option.map (forget_client fd) (cleanup_client_connection w fd now)
