-- ===== src/Server/Join/Safe.antt =====
-- `handle_join_command`, its pointers and the invariant.
use tcp_chat_server_c.Base.{
  Bool-cases, Option, Option-cases, [], arith, false, inl, inr, leb, length, ltb, none, not, refl,
  some, true, ℕ, ℤ, ◌&&◌, ◌==◌, ◌≡◌, ◌≢◌, ◌≤◌,
}
use tcp_chat_server_c.CString.{Bytes, all_alnum, eq_bytes, is_empty}
use tcp_chat_server_c.CString.Laws.{eq_bytes_iff}
use tcp_chat_server_c.Wire.{Net}
use tcp_chat_server_c.Search.Laws.{All-both, All-map}
use tcp_chat_server_c.Clients.{Client, client_at, find_client_by_socket}
use tcp_chat_server_c.Rooms.{
  Room, RoomList, find_room, max_clients_per_room, max_room_name_length, occupies, occupy,
}
use tcp_chat_server_c.Rooms.Laws.{IsRoom, remove_room-All}
use tcp_chat_server_c.Replies.{
  already_in_room, join_success, joined, no_slots, room_create_failed, room_full, room_name_empty,
  room_name_format, room_name_too_long, unidentified_client, usage_join,
}
use tcp_chat_server_c.Server.{Resources, World, respond, take_out, update_client, update_room}
use tcp_chat_server_c.Server.Join.{
  announce, clean_room_name, enter_room, find_or_add_room, handle_join_command, join_checked,
  join_room, leave_found_room, leave_old_room, put_in, remove_if_empty, seat,
}
use tcp_chat_server_c.Safety.{
  IsSafe, IsValid, Seated, Unseated, client_at-found, is_empty_false→ne, is_empty→nil,
}
use tcp_chat_server_c.Safety.Delivery.{notify_total}
use tcp_chat_server_c.Safety.Rooms.{
  elsewhere, find_room-Live, find_room-written, gone-Unseated, take_out-Unseated, take_out-Valid,
}
use tcp_chat_server_c.Safety.Seats.{name-put_in, put_in-Valid}
use tcp_chat_server_c.Safety.Registry.{Target, find_or_add_room-Target, remove_room-Valid}

module _ (w : World) (v : IsValid w) (c : Client)
    (at : client_at c.address w.clients.nodes ≡ some c) where
  -- A client whose field names no room sits in none.
  pub outside-Unseated : is_empty c.current_room_name ≡ true → Unseated c.address w.rooms.nodes
  outside-Unseated e =
      All-map (λ (r : Room). IsRoom r × Seated w.clients.nodes r)
        (λ r. occupies c.address r.clients ≡ false)
        (λ r s. elsewhere w.clients w.rooms v c at r (other r s.0.named) s.1) w.rooms.nodes
        (All-both IsRoom (Seated w.clients.nodes) w.rooms.nodes v.rooms.rooms v.seats)
    where
      other : (r : Room) → r.room_name ≢ [] → eq_bytes r.room_name c.current_room_name ≡ false
      other r ne =
          ground (
            arith,
            eq_bytes_iff r.room_name c.current_room_name,
            is_empty→nil c.current_room_name e,
          )

  remove_if_empty-Valid :
      (w' : World) (r : Room)
      → IsValid w'
      → Unseated c.address w'.rooms.nodes
      → IsValid (remove_if_empty w' r)
        × Unseated c.address (remove_if_empty w' r).rooms.nodes
        × ((remove_if_empty w' r).clients ≡ w'.clients)
  unfolding remove_if_empty
  remove_if_empty-Valid w' r v' out = elim (Bool-cases (r.client_count == 0)) [
    | inr some' ↦ rw some' (v', out, refl)
    | inl none' ↦ rw none' (
      remove_room-Valid w'.clients w'.rooms r.room_name v',
      remove_room-All (λ (r : Room). occupies c.address r.clients ≡ false) w'.rooms r.room_name out,
      refl,
    )
  ]

  leave_found-Valid :
      (o : Option Room)
      → find_room w.rooms.nodes c.current_room_name ≡ o
      → IsValid (leave_found_room w c o)
        × Unseated c.address (leave_found_room w c o).rooms.nodes
        × ((leave_found_room w c o).clients ≡ w.clients)
  unfolding leave_found_room update_room
  leave_found-Valid none e = (v, gone-Unseated w.clients w.rooms v c at e, refl)
  leave_found-Valid (some r) e =
      remove_if_empty-Valid (update_room w c.current_room_name (take_out none c.address))
        (take_out none c.address r) (take_out-Valid w.clients w.rooms v c at none)
        (take_out-Unseated w.clients w.rooms v c at none)

  -- After the first half of the handler the client sits in no room, and the registry of clients is
  -- as it was.
  pub leave_old_room-Unseated :
      IsValid (leave_old_room w c)
      × Unseated c.address (leave_old_room w c).rooms.nodes
      × ((leave_old_room w c).clients ≡ w.clients)
  unfolding leave_old_room
  leave_old_room-Unseated = elim (Bool-cases (is_empty c.current_room_name)) [
    | inl outside ↦ rw outside (v, outside-Unseated outside, refl)
    | inr inside ↦ rw inside (leave_found-Valid (find_room w.rooms.nodes c.current_room_name) refl)
  ]

module _ (fd : ℤ) (c : Client) (start : Bytes) (now : ℕ)
    (short : length start ≤ max_room_name_length) where
  -- The replies and notifications are sent, and nothing else changes.
  pub announce_total :
      (w : World) (r : Room)
      → IsValid w
      → find_room w.rooms.nodes start ≡ some r
      → (net : Net) × (announce w fd c start r ≡ some (record w { net = net }))
  unfolding announce respond
  announce_total w r v e =
      notify_total (respond w fd (join_success start r.client_count)) (some c.address)
        (joined c.username) r.clients (find_room-Live w.clients w.rooms start r v e)

  -- The world in which the client sits in the room, before the replies.
  pub seat-IsValid :
      (w : World) (r : Room)
      → IsValid w
      → client_at c.address w.clients.nodes ≡ some c
      → Unseated c.address w.rooms.nodes
      → find_room w.rooms.nodes start ≡ some r
      → IsValid (seat w start now c)
        × (find_room (seat w start now c).rooms.nodes start ≡ some (put_in now c.address r))
  unfolding seat update_room update_client
  seat-IsValid w r v at out e = (
    put_in-Valid w.clients w.rooms c start _ now v at out short,
    find_room-written w.rooms start (put_in now c.address) (name-put_in now c.address) r e,
  )

  enter_room-IsSafe :
      (w : World)
      → IsValid w
      → client_at c.address w.clients.nodes ≡ some c
      → Unseated c.address w.rooms.nodes
      → (o : Option Room) → ((r : Room) → o ≡ some r → find_room w.rooms.nodes start ≡ some r)
      → IsSafe (enter_room w fd c start now o)
  unfolding enter_room respond seat update_room update_client
  enter_room-IsSafe w v at out none f = (respond w fd room_create_failed, refl, v)
  enter_room-IsSafe w v at out (some r) f =
      elim (Bool-cases (leb max_clients_per_room r.client_count)) [
        | inl full ↦ rw full (respond w fd (room_full start), refl, v)
        | inr open' ↦ rw open' (elim (Option-cases (occupy c.address r.clients)) [
          | inl none' ↦ rw none' (respond w fd no_slots, refl, v)
          | inr (slots, e) ↦ rw e (
              let (v', e') = seat-IsValid w r v at out (f r refl) in
              let (net, same) =
                announce_total (seat w start now c) (put_in now c.address r) v' e' in
              (record (seat w start now c) { net = net }, same, v'))
        ])
      ]

module _ (fd : ℤ) (c : Client) (start : Bytes) (res : Resources) where
  join_room-IsSafe :
      length start ≤ max_room_name_length
      → start ≢ []
      → (w : World) → IsValid w
      → client_at c.address w.clients.nodes ≡ some c
      → Unseated c.address w.rooms.nodes
      → IsSafe (join_room w fd c start res)
  unfolding join_room
  join_room-IsSafe short ne w v at out =
      enter_room-IsSafe fd c start res.now short (record w { rooms = t.1 }) target.valid at
        target.out t.0 target.found
    where
      t : Option Room × RoomList
      t = find_or_add_room w.rooms res.room res.now start

      target : Target w.clients c.address start t
      target =
          find_or_add_room-Target w.clients c.address start ne short res.room res.now w.rooms v out

  join_checked-IsSafe :
      (w : World)
      → IsValid w
      → client_at c.address w.clients.nodes ≡ some c
      → IsSafe (join_checked w fd c start res)
  unfolding join_checked respond
  join_checked-IsSafe w v at = elim (Bool-cases (is_empty start)) [
    | inl empty' ↦ rw empty' (respond w fd room_name_empty, refl, v)
    | inr some' ↦ rw some' (elim (Bool-cases (ltb max_room_name_length (length start))) [
      | inl long ↦ rw long (respond w fd room_name_too_long, refl, v)
      | inr short ↦ rw short (elim (Bool-cases (all_alnum start)) [
        | inr bad ↦ rw bad (respond w fd room_name_format, refl, v)
        | inl good ↦
            rw good
              (elim (Bool-cases
                (not (is_empty c.current_room_name) && eq_bytes c.current_room_name start)) [
                  | inl here ↦ rw here (respond w fd (already_in_room start), refl, v)
                  | inr away ↦ rw away (
                      let (v', out, same) = leave_old_room-Unseated w v c at in
                      join_room-IsSafe (ground arith) (is_empty_false→ne start some')
                        (leave_old_room w c) v' (rw same at) out)
                ])
      ])
    ])
  ]

-- From a state where the invariant holds, `handle_join_command` ends without reading a dangling
-- pointer, on every branch, and the invariant holds again.
pub handle_join_command-IsSafe :
    (w : World) (fd : ℤ) (room_name : Bytes) (res : Resources)
    → IsValid w
    → IsSafe (handle_join_command w fd room_name res)
unfolding handle_join_command respond
handle_join_command-IsSafe w fd room_name res v = elim (Bool-cases (is_empty room_name)) [
  | inl empty' ↦ rw empty' (respond w fd usage_join, refl, v)
  | inr some' ↦ rw some' (elim (Option-cases (find_client_by_socket w.clients.nodes fd)) [
    | inl none' ↦ rw none' (respond w fd unidentified_client, refl, v)
    | inr (c, e) ↦ rw e (
        join_checked-IsSafe fd c (clean_room_name room_name) res w v
          (client_at-found w.clients.nodes fd c v.clients.addresses e))
  ])
]
