-- ===== src/Examples/Sessions.antt =====
-- The theorems about whole connections, at the states of `Worlds` and at the start of the server.
use tcp_chat_server_c.Base.{[], eq_int, none, pos, refl, some, ◌∷◌, ◌≢◌}
use tcp_chat_server_c.CString.{Bytes}
use tcp_chat_server_c.Wire.Examples.{net_of}
use tcp_chat_server_c.Search.{find_first}
use tcp_chat_server_c.Clients.{Arrival, init_clients}
use tcp_chat_server_c.Server.Connection.{Round, disconnect, login_round}
use tcp_chat_server_c.Server.Dispatch.{
  client_message_loop, interrupted, message_turn, readable, timed_out,
}
use tcp_chat_server_c.Safety.{IsSafe, IsValid}
use tcp_chat_server_c.Server.Connection.Safe.{disconnect-IsSafe}
use tcp_chat_server_c.Server.Connection.Rounds.{Fresh, login_round-Valid, world_of}
use tcp_chat_server_c.Server.Dispatch.Safe.{IsSafeTurn, client_message_loop-IsSafe}
use tcp_chat_server_c.Server.Session.{
  Reach, Reach-IsValid, Reach-no_fault, here, log_in, next, started, started-IsValid,
}
use tcp_chat_server_c.Examples.Worlds.{at_noon, hall, hall-IsValid}

-- A login: the name and the path, each in its frame.
abbrev greeting : Bytes
greeting = 0 ∷ 0 ∷ 0 ∷ 3 ∷ b'a' ∷ b'n' ∷ b'n' ∷ 0 ∷ 0 ∷ 0 ∷ 4 ∷ b'/' ∷ b't' ∷ b'm' ∷ b'p' ∷ []

abbrev visitor : Arrival
visitor = record {
  socket_fd = pos 4;
  thread_id = 1;
  client_ip = none;
  client_port = 5000;
  file_path = none;
}

abbrev first : Round
first = record { fresh = some 1; now = 0 }

start_Fresh : Fresh (started (net_of greeting)) first
unfolding started find_first init_clients
start_Fresh address e = refl

after_login :
    Reach
      (started (net_of greeting))
      (world_of (login_round (started (net_of greeting)) visitor first))
after_login = next here (log_in (started (net_of greeting)) visitor first start_Fresh)

Reach-IsValid_example : IsValid (world_of (login_round (started (net_of greeting)) visitor first))
Reach-IsValid_example = Reach-IsValid (net_of greeting) after_login

Reach-no_fault_example :
    (message_turn
        (world_of (login_round (started (net_of greeting)) visitor first))
        (pos 4)
        (readable at_noon)
      ≢ none)
    × (disconnect (world_of (login_round (started (net_of greeting)) visitor first)) (pos 4) 60
        ≢ none)
unfolding eq_int
Reach-no_fault_example =
    Reach-no_fault (net_of greeting) after_login (pos 4) (readable at_noon) 60 refl

client_message_loop-IsSafe_example :
    IsSafeTurn (client_message_loop hall (pos 4) (interrupted ∷ readable at_noon ∷ timed_out ∷ []))
client_message_loop-IsSafe_example =
    client_message_loop-IsSafe hall (pos 4) (interrupted ∷ readable at_noon ∷ timed_out ∷ [])
      hall-IsValid

disconnect-IsSafe_example : IsSafe (disconnect hall (pos 4) 60)
unfolding eq_int
disconnect-IsSafe_example = disconnect-IsSafe hall (pos 4) 60 refl hall-IsValid

login_round-Valid_example :
    IsValid (world_of (login_round (started (net_of greeting)) visitor first))
login_round-Valid_example =
    login_round-Valid (started (net_of greeting)) visitor first start_Fresh
      (started-IsValid (net_of greeting))
