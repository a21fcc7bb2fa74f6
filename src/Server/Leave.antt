-- ===== src/Server/Leave.antt =====
-- `handle_leave_command`.
pub mod Safe
pub mod Outcome
use mathlib.Core.Option
use tcp_chat_server_c.Base.{Option, if◌then◌else◌, map, none, some, ℕ, ℤ}
use tcp_chat_server_c.CString.{is_empty}
use tcp_chat_server_c.Clients.{Client, find_client_by_socket}
use tcp_chat_server_c.Rooms.{Room, find_room, occupies}
use tcp_chat_server_c.Replies.{
  leave_success, left_room, not_in_room, not_registered, room_gone, unidentified_client,
}
use tcp_chat_server_c.Server.{
  Resources, World, forget_room, notify, respond, take_out, update_client, update_room,
}

-- The room as the client leaves it is told, then the client's own fields are cleared.
leave_registered : World → ℤ → Client → Room → Option World
leave_registered w fd c r =
    Option.map
      (λ (w' : World).
        respond (update_client w' c.address forget_room) fd (leave_success r.room_name))
      (notify w none (left_room c.username) r.clients)

leave_room : World → ℤ → Client → ℕ → Option Room → Option World
unfolding leave_registered
leave_room w fd c now none = some (respond (update_client w c.address forget_room) fd room_gone)
leave_room w fd c now (some r) =
    if occupies c.address r.clients
    then leave_registered (update_room w c.current_room_name (take_out (some now) c.address)) fd c
        (take_out (some now) c.address r)
    else some (respond (update_client w c.address forget_room) fd not_registered)

leave_client : World → ℤ → Client → ℕ → Option World
unfolding leave_room
leave_client w fd c now =
    if is_empty c.current_room_name
    then some (respond w fd not_in_room)
    else leave_room w fd c now (find_room w.rooms.nodes c.current_room_name)

unfoldable pub handle_leave_command : World → ℤ → Resources → Option World
unfolding leave_client
handle_leave_command w fd res = elim (find_client_by_socket w.clients.nodes fd) [
  | none ↦ some (respond w fd unidentified_client)
  | some c ↦ leave_client w fd c res.now
]
