-- ===== src/Server/Join/Full.antt =====
-- What `handle_join_command` does if the room is full.
use tcp_chat_server_c.Base.{arith, leb, some, true, ℤ, ◌∙◌, ◌≡◌, ◌≤◌}
use tcp_chat_server_c.CString.{Bytes}
use tcp_chat_server_c.Clients.{Client, client_at}
use tcp_chat_server_c.Rooms.{Room, find_room, max_clients_per_room}
use tcp_chat_server_c.Replies.{room_full}
use tcp_chat_server_c.Server.{Resources, World, respond}
use tcp_chat_server_c.Server.Join.{
  clean_room_name, enter_room, find_or_add_room, handle_join_command, join_room, leave_old_room,
}
use tcp_chat_server_c.Safety.{IsValid, Unseated, client_at-found}
use tcp_chat_server_c.Server.Join.Safe.{leave_old_room-Unseated}
use tcp_chat_server_c.Server.Join.Outcome.{Asks, Asks-ne, find-leave_old_room, handle_join-eq}

-- A registered client that asks, by a good name, for another room that is full loses its place: it
-- is taken out of the room that it was in and is in no room afterwards, while the registry of
-- clients is as before, so that its own field still names the old room.
pub handle_join_command-full :
    (w : World) (fd : ℤ) (room_name : Bytes) (res : Resources) (c : Client) (r : Room)
    → IsValid w
    → Asks w fd room_name c
    → find_room w.rooms.nodes (clean_room_name room_name) ≡ some r
    → max_clients_per_room ≤ r.client_count
    → (w' : World) × (handle_join_command w fd room_name res ≡ some w')
      × Unseated c.address w'.rooms.nodes
      × (w'.clients ≡ w.clients)
unfolding join_room find_or_add_room enter_room respond
handle_join_command-full w fd room_name res c r v a e full =
    let at : client_at c.address w.clients.nodes ≡ some c =
      client_at-found w.clients.nodes fd c v.clients.addresses a.known in
    let (v', out, same) = leave_old_room-Unseated w v c at in
    let e' : find_room (leave_old_room w c).rooms.nodes start ≡ some r =
      find-leave_old_room w c start (Asks-ne w fd room_name c a) ∙ e in
    let full' : leb max_clients_per_room r.client_count ≡ true = ground arith in
    (
      respond (leave_old_room w c) fd (room_full start),
      handle_join-eq w fd room_name res c a ∙ rw (e', find_or_add_room, full'),
      out,
      same,
    )
  where
    start : Bytes
    start = clean_room_name room_name
