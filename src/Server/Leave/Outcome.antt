-- ===== src/Server/Leave/Outcome.antt =====
-- What `handle_leave_command` does to a client that is in a room, by its own field.
use tcp_chat_server_c.Base.{some, ℕ, ◌≡◌}
use tcp_chat_server_c.Clients.{Client, client_at}
use tcp_chat_server_c.Server.{World, forget_room}
use tcp_chat_server_c.Safety.{Unseated}

-- The client is in no slot and its own fields are cleared; the number of rooms is still `rooms`, so
-- that a room is kept when its last client has left it.
pub record Departed (rooms : ℕ) (c : Client) (w' : World) : Type 0 where
  pub out : Unseated c.address w'.rooms.nodes
  pub field : client_at c.address w'.clients.nodes ≡ some (forget_room c)
  pub kept : w'.rooms.total_room_count ≡ rooms
