-- ===== src/Server/Broadcast.antt =====
-- `handle_broadcast_command`.
pub mod Safe
pub mod Recipients
pub mod Outcome
use mathlib.Core.Option
use tcp_chat_server_c.Base.{Bool, Option, if◌then◌else◌, map, none, some, ℕ, ℤ, ◌+◌, ◌==◌, ◌||◌}
use tcp_chat_server_c.CString.{
  Bytes, is_blank, is_blank_or_newline, is_empty, skip, trim_end, truncate,
}
use tcp_chat_server_c.Clients.{Client, find_client_by_socket}
use tcp_chat_server_c.Rooms.{Room, find_room}
use tcp_chat_server_c.Replies.{
  Reply, broadcast, broadcast_empty, broadcast_outside, broadcast_partial, broadcast_room_gone,
  broadcast_success, render, unidentified_sender, usage_broadcast,
}
use tcp_chat_server_c.Server.{
  Delivery, Resources, World, deliver, forget_room, respond, update_client, update_room,
}

unfoldable pub is_cut : ℕ → Bool
is_cut c = is_blank_or_newline c || c == b'\r'

unfoldable pub clean_message : Bytes → Bytes
unfolding is_cut
clean_message message = trim_end is_cut (skip is_blank (truncate 1024 message))

-- `total_messages_sent++; last_activity = time(NULL);`
unfoldable pub count_message : ℕ → Room → Room
count_message now r = record r {
  total_messages_sent = r.total_messages_sent + 1;
  last_activity = now;
}

confirmation : Delivery → Bytes → Reply
confirmation d room =
    if d.messages_sent == d.total_recipients
    then broadcast_success d.total_recipients room
    else broadcast_partial d.messages_sent d.total_recipients room

after_delivery : World → ℤ → Client → ℕ → Room → Delivery → World
unfolding confirmation
after_delivery w fd sender now r d =
    respond (update_room (record w { net = d.net }) sender.current_room_name (count_message now)) fd
      (confirmation d r.room_name)

broadcast_text : World → ℤ → Client → ℕ → Room → Bytes → Option World
unfolding after_delivery
broadcast_text w fd sender now r start =
    if is_empty start
    then some (respond w fd broadcast_empty)
    else Option.map (after_delivery w fd sender now r) (
        deliver w.clients.nodes (some sender.address)
          (render (broadcast sender.username r.room_name start)) r.clients
          (record { messages_sent = 0; total_recipients = 0; net = w.net }))

broadcast_in : World → ℤ → Client → ℕ → Bytes → Option Room → Option World
unfolding broadcast_text
broadcast_in w fd sender now message none =
    some (respond (update_client w sender.address forget_room) fd broadcast_room_gone)
broadcast_in w fd sender now message (some r) =
    broadcast_text w fd sender now r (clean_message message)

broadcast_from : World → ℤ → Client → ℕ → Bytes → Option World
unfolding broadcast_in
broadcast_from w fd sender now message =
    if is_empty sender.current_room_name
    then some (respond w fd broadcast_outside)
    else broadcast_in w fd sender now message (find_room w.rooms.nodes sender.current_room_name)

unfoldable pub handle_broadcast_command : World → ℤ → Bytes → Resources → Option World
unfolding broadcast_from
handle_broadcast_command w fd message res =
    if is_empty message
    then some (respond w fd usage_broadcast)
    else elim (find_client_by_socket w.clients.nodes fd) [
      | none ↦ some (respond w fd unidentified_sender)
      | some sender ↦ broadcast_from w fd sender res.now message
    ]
