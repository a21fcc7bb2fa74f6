-- ===== src/Server/Broadcast/Safe.antt =====
-- `handle_broadcast_command`, its pointers and the invariant.
use tcp_chat_server_c.Base.{
  Bool-cases, List, Option, Option-cases, inl, inr, none, refl, some, ℕ, ℤ, ◌≡◌,
}
use tcp_chat_server_c.CString.{Bytes, is_empty}
use tcp_chat_server_c.Search.Laws.{All-update_first}
use tcp_chat_server_c.Clients.{Client, ClientList, client_at, find_client_by_socket}
use tcp_chat_server_c.Rooms.{Room, RoomList, find_room, has_name, write_room}
use tcp_chat_server_c.Rooms.Laws.{IsRoom}
use tcp_chat_server_c.Replies.{
  broadcast, broadcast_empty, broadcast_outside, broadcast_room_gone, render, unidentified_sender,
  usage_broadcast,
}
use tcp_chat_server_c.Server.{Resources, World, forget_room, respond, update_client, update_room}
use tcp_chat_server_c.Server.Broadcast.{
  after_delivery, broadcast_from, broadcast_in, broadcast_text, clean_message, count_message,
  handle_broadcast_command,
}
use tcp_chat_server_c.Safety.{IsSafe, IsValid, Seated, Valid, client_at-found}
use tcp_chat_server_c.Safety.Delivery.{deliver_total}
use tcp_chat_server_c.Safety.Rooms.{find_room-Live, gone-Unseated, written, written-IsRooms}
use tcp_chat_server_c.Safety.Seats.{forget_room-Keeps, rewritten-Valid}

count_message-IsRoom : (now : ℕ) (r : Room) → IsRoom r → IsRoom (count_message now r)
unfolding count_message
count_message-IsRoom now r v = record {
  slots = v.slots;
  counted = v.counted;
  once = v.once;
  named = v.named;
}

count_message-Seated :
    (nodes : List Client) (now : ℕ) (r : Room) → Seated nodes r → Seated nodes (count_message now r)
unfolding count_message
count_message-Seated nodes now r s = s

pub name-count_message : (now : ℕ) (r : Room) → (count_message now r).room_name ≡ r.room_name
unfolding count_message
name-count_message now r = refl

count_message-Valid :
    (cl : ClientList) (rl : RoomList) (name : Bytes) (now : ℕ)
    → Valid cl rl
    → Valid cl (written rl name (count_message now))
unfolding write_room
count_message-Valid cl rl name now v = record {
  clients = v.clients;
  rooms =
      written-IsRooms rl name (count_message now) (name-count_message now)
        (count_message-IsRoom now) v.rooms;
  seats =
      All-update_first (Seated cl.nodes) (has_name name) (count_message now)
        (count_message-Seated cl.nodes now) rl.nodes v.seats;
}

module _ (w : World) (v : IsValid w) (fd : ℤ) (sender : Client) (now : ℕ) (message : Bytes)
    (at : client_at sender.address w.clients.nodes ≡ some sender) where
  broadcast_text-IsSafe :
      (r : Room) (start : Bytes)
      → find_room w.rooms.nodes sender.current_room_name ≡ some r
      → IsSafe (broadcast_text w fd sender now r start)
  unfolding broadcast_text after_delivery respond update_room
  broadcast_text-IsSafe r start e = elim (Bool-cases (is_empty start)) [
    | inl nothing ↦ rw nothing (respond w fd broadcast_empty, refl, v)
    | inr text ↦
        let (d, same) =
          deliver_total w.clients.nodes (some sender.address)
            (render (broadcast sender.username r.room_name start)) r.clients
            (record { messages_sent = 0; total_recipients = 0; net = w.net })
            (find_room-Live w.clients w.rooms sender.current_room_name r v e) in
        (
          after_delivery w fd sender now r d,
          rw (text, same),
          count_message-Valid w.clients w.rooms sender.current_room_name now v,
        )
  ]

  broadcast_in-IsSafe :
      (o : Option Room)
      → find_room w.rooms.nodes sender.current_room_name ≡ o
      → IsSafe (broadcast_in w fd sender now message o)
  unfolding broadcast_in respond update_client
  broadcast_in-IsSafe none e = (
    respond (update_client w sender.address forget_room) fd broadcast_room_gone,
    refl,
    rewritten-Valid w.clients w.rooms sender.address forget_room forget_room-Keeps v
        (gone-Unseated w.clients w.rooms v sender at e),
  )
  broadcast_in-IsSafe (some r) e = broadcast_text-IsSafe r (clean_message message) e

  broadcast_from-IsSafe : IsSafe (broadcast_from w fd sender now message)
  unfolding broadcast_from respond
  broadcast_from-IsSafe = elim (Bool-cases (is_empty sender.current_room_name)) [
    | inl outside ↦ rw outside (respond w fd broadcast_outside, refl, v)
    | inr inside ↦
        rw inside (broadcast_in-IsSafe (find_room w.rooms.nodes sender.current_room_name) refl)
  ]

-- From a state where the invariant holds, `handle_broadcast_command` ends without reading a
-- dangling pointer, on every branch, and the invariant holds again.
pub handle_broadcast_command-IsSafe :
    (w : World) (fd : ℤ) (message : Bytes) (res : Resources)
    → IsValid w
    → IsSafe (handle_broadcast_command w fd message res)
unfolding handle_broadcast_command respond
handle_broadcast_command-IsSafe w fd message res v = elim (Bool-cases (is_empty message)) [
  | inl nothing ↦ rw nothing (respond w fd usage_broadcast, refl, v)
  | inr text ↦ rw text (elim (Option-cases (find_client_by_socket w.clients.nodes fd)) [
    | inl none' ↦ rw none' (respond w fd unidentified_sender, refl, v)
    | inr (c, e) ↦ rw e (
        broadcast_from-IsSafe w v fd c res.now message
          (client_at-found w.clients.nodes fd c v.clients.addresses e))
  ])
]
