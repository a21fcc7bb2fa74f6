-- ===== src/Server/Join/Outcome.antt =====
-- What `handle_join_command` does to the client's place.
use tcp_chat_server_c.Base.{
  Bool-cases, List, Option, [], ap, arith, false, inl, inr, leb, length, ltb, none, not, refl, some,
  sym, true, ℕ, ℤ, ◌&&◌, ◌+◌, ◌<◌, ◌==◌, ◌∙◌, ◌≡◌, ◌≢◌, ◌≤◌, ◌⊎◌,
}
use tcp_chat_server_c.CString.{
  Bytes, all_alnum, eq_bytes, is_blank, is_blank_or_newline, is_empty, skip, truncate,
}
use tcp_chat_server_c.CString.Laws.{eq_bytes_iff, length-truncate}
use tcp_chat_server_c.CString.Trim.{length-skip, length-trim_end}
use tcp_chat_server_c.Wire.{Net}
use tcp_chat_server_c.Search.Laws.{All-find}
use tcp_chat_server_c.Clients.{Client, client_at, find_client_by_socket}
use tcp_chat_server_c.Rooms.{
  Room, RoomList, Slot, allocated, find_room, get_room_index, has_name, max_clients_per_room,
  max_room_name_length, new_room, occupies, occupy, write_room,
}
use tcp_chat_server_c.Rooms.Slots.{occupies-occupy, occupy_total}
use tcp_chat_server_c.Rooms.Laws.{
  IsRoom, add_room-allocated, find_room-name, find_room-remove_room, find_room-write_room,
}
use tcp_chat_server_c.Server.{Resources, World, take_out, update_client, update_room}
use tcp_chat_server_c.Server.Join.{
  clean_room_name, enter_room, find_or_add_room, handle_join_command, join_checked, join_room,
  leave_found_room, leave_old_room, put_in, remove_if_empty, seat, set_room,
}
use tcp_chat_server_c.Safety.{IsValid, Unseated, client_at-found, is_empty_false→ne}
use tcp_chat_server_c.Safety.Rooms.{find_room-written, name-take_out, written}
use tcp_chat_server_c.Safety.Seats.{client_at-written, name-put_in, name-set_room, set_room-Keeps}
use tcp_chat_server_c.Safety.Registry.{find_or_add_room-Target}
use tcp_chat_server_c.Server.Join.Safe.{announce_total, leave_old_room-Unseated, seat-IsValid}

-- The name that is searched for, as it is cut and trimmed, has at most 32 bytes, whatever the
-- command says.
pub length-clean_room_name : (name : Bytes) → length (clean_room_name name) ≤ max_room_name_length
unfolding clean_room_name
length-clean_room_name name = omega (
  arith,
  length-trim_end is_blank_or_newline (skip is_blank (truncate (max_room_name_length + 1) name)),
  length-skip is_blank (truncate (max_room_name_length + 1) name),
  length-truncate max_room_name_length name,
)

-- A registered client that asks for another room by a good name: 1 to 32 letters and digits.
pub record Asks (w : World) (fd : ℤ) (room_name : Bytes) (c : Client) : Type 0 where
  pub some_name : is_empty room_name ≡ false
  pub known : find_client_by_socket w.clients.nodes fd ≡ some c
  pub cleaned : is_empty (clean_room_name room_name) ≡ false
  pub format : all_alnum (clean_room_name room_name) ≡ true
  pub other :
      (not (is_empty c.current_room_name)
        && eq_bytes c.current_room_name (clean_room_name room_name))
      ≡ false

pub handle_join-eq :
    (w : World) (fd : ℤ) (room_name : Bytes) (res : Resources) (c : Client)
    → Asks w fd room_name c
    → handle_join_command w fd room_name res
      ≡ join_room (leave_old_room w c) fd c (clean_room_name room_name) res
unfolding handle_join_command join_checked
handle_join-eq w fd room_name res c a =
    rw (a.some_name, a.known, a.cleaned, short, a.format, a.other)
  where
    short : ltb max_room_name_length (length (clean_room_name room_name)) ≡ false
    short = ground (arith, length-clean_room_name room_name)

abbrev placed : World → Bytes → ℕ → Client → World
placed w start now c = update_room w start (put_in now c.address)

-- After a successful join.
pub record Joined (w' : World) (c : Client) (name : Bytes) : Type 0 where
  pub room : Room
  pub found : find_room w'.rooms.nodes name ≡ some room
  pub inside : occupies c.address room.clients ≡ true
  pub client : Client
  pub registered : client_at c.address w'.clients.nodes ≡ some client
  pub field : client.current_room_name ≡ name

-- Leaving the old room leaves a room of another name as it is.
module _ (w : World) (c : Client) (name : Bytes)
    (ne : eq_bytes c.current_room_name name ≡ false) where
  find-leave_found :
      (o : Option Room)
      → find_room w.rooms.nodes c.current_room_name ≡ o
      → find_room (leave_found_room w c o).rooms.nodes name ≡ find_room w.rooms.nodes name
  unfolding leave_found_room remove_if_empty update_room
  find-leave_found none e = refl
  find-leave_found (some r) e = elim (Bool-cases ((take_out none c.address r).client_count == 0)) [
    | inr some' ↦ rw some' write
    | inl none' ↦ rw none' (
        find_room-remove_room (written w.rooms c.current_room_name (take_out none c.address))
          (take_out none c.address r).room_name name
          (ap (λ t. eq_bytes t name)
              (name-take_out none c.address r
                ∙ find_room-name w.rooms.nodes c.current_room_name r e)
            ∙ ne)
        ∙ write)
  ]
    where
      write :
          find_room (write_room c.current_room_name (take_out none c.address) w.rooms.nodes) name
          ≡ find_room w.rooms.nodes name
      write =
          find_room-write_room w.rooms.nodes c.current_room_name name (take_out none c.address)
            (name-take_out none c.address) ne

  pub find-leave_old_room :
      find_room (leave_old_room w c).rooms.nodes name ≡ find_room w.rooms.nodes name
  unfolding leave_old_room
  find-leave_old_room = elim (Bool-cases (is_empty c.current_room_name)) [
    | inl outside ↦ rw outside
    | inr inside ↦ rw inside (find-leave_found (find_room w.rooms.nodes c.current_room_name) refl)
  ]

module _ (fd : ℤ) (c : Client) (start : Bytes) (now : ℕ)
    (short : length start ≤ max_room_name_length) (w : World) (v : IsValid w)
    (at : client_at c.address w.clients.nodes ≡ some c) where
  seat-Joined :
      (r : Room) (slots : List Slot) (net : Net)
      → find_room w.rooms.nodes start ≡ some r
      → occupy c.address r.clients ≡ some slots
      → Joined (record (seat w start now c) { net = net }) c start
  unfolding seat update_room update_client put_in
  seat-Joined r slots net e e' = record {
    room = put_in now c.address r;
    found = find_room-written w.rooms start (put_in now c.address) (name-put_in now c.address) r e;
    inside = rw (e', put_in) (occupies-occupy c.address r.clients slots e');
    client = set_room start (get_room_index (placed w start now c).rooms.nodes start) c;
    registered =
        client_at-written w.clients.nodes c.address
          (set_room start (get_room_index (placed w start now c).rooms.nodes start))
          (set_room-Keeps start (get_room_index (placed w start now c).rooms.nodes start)) c at;
    field = name-set_room start (get_room_index (placed w start now c).rooms.nodes start) c short;
  }

  enter_room-Joined :
      (r : Room)
      → find_room w.rooms.nodes start ≡ some r
      → r.client_count < max_clients_per_room
      → Unseated c.address w.rooms.nodes
      → (w' : World) × (enter_room w fd c start now (some r) ≡ some w') × Joined w' c start
  unfolding enter_room find_room
  enter_room-Joined r e free out =
      let ok : IsRoom r = All-find IsRoom (has_name start) w.rooms.nodes r v.rooms.rooms e in
      let open' : leb max_clients_per_room r.client_count ≡ false = ground arith in
      let (slots, place) = occupy_total c.address r.clients (omega (arith, ok.slots, ok.counted)) in
      let (v', e') = seat-IsValid fd c start now short w r v at out e in
      let (net, same) =
        announce_total fd c start now short (seat w start now c) (put_in now c.address r) v' e' in
      (
        record (seat w start now c) { net = net },
        rw (open', place) same,
        seat-Joined r slots net e place,
      )

-- There is room: the room exists and is not full, or it does not exist and can be made.
abbrev pub HasRoom : RoomList → Bytes → Resources → Type 0
HasRoom rl name res =
    ((r : Room) × (find_room rl.nodes name ≡ some r) × (r.client_count < max_clients_per_room))
    ⊎ ((find_room rl.nodes name ≡ none) × (res.room ≡ allocated))

target_room :
    (rl : RoomList) (res : Resources) (name : Bytes)
    → HasRoom rl name res
    → (r : Room) × ((find_or_add_room rl res.room res.now name).0 ≡ some r)
      × (r.client_count < max_clients_per_room)
unfolding find_or_add_room new_room
target_room rl res name (inl (r, e, free)) = (r, rw (e, find_or_add_room), free)
target_room rl res name (inr (e, how)) = (
  new_room res.now name,
  rw (e, find_or_add_room, how) (add_room-allocated rl res.now name e),
  omega arith,
)

join_room-Joined :
    (fd : ℤ) (c : Client) (start : Bytes) (res : Resources)
    → length start ≤ max_room_name_length
    → start ≢ []
    → (w : World) → IsValid w
    → client_at c.address w.clients.nodes ≡ some c
    → Unseated c.address w.rooms.nodes
    → HasRoom w.rooms start res
    → (w' : World) × (join_room w fd c start res ≡ some w') × Joined w' c start
unfolding join_room
join_room-Joined fd c start res short ne w v at out has =
    let (r, e, free) = target_room w.rooms res start has in
    let t =
      find_or_add_room-Target w.clients c.address start ne short res.room res.now w.rooms v out in
    let (w', e', j) =
      enter_room-Joined fd c start res.now short
        (record w { rooms = (find_or_add_room w.rooms res.room res.now start).1 }) t.valid at r
        (t.found r e) free t.out in
    (w', rw e e', j)

pub Asks-ne :
    (w : World) (fd : ℤ) (room_name : Bytes) (c : Client)
    → Asks w fd room_name c
    → eq_bytes c.current_room_name (clean_room_name room_name) ≡ false
Asks-ne w fd room_name c a =
    elim (Bool-cases (eq_bytes c.current_room_name (clean_room_name room_name))) [
      | inr ne ↦ ne
      | inl same ↦
          let e : c.current_room_name ≡ clean_room_name room_name = (eq_bytes_iff _ _).0 same in
          let full : is_empty c.current_room_name ≡ false = ap is_empty e ∙ a.cleaned in
          let clash : true ≡ false = sym (rw (full, same)) ∙ a.other in cc
    ]

-- In a state where the invariant holds, a registered client that asks for another room by a good
-- name, where there is room for it, is in that room afterwards: the room is in the list under that
-- name, the client is in one of its slots, and the client's own field names it.
pub handle_join_command-Joined :
    (w : World) (fd : ℤ) (room_name : Bytes) (res : Resources) (c : Client)
    → IsValid w
    → Asks w fd room_name c
    → HasRoom w.rooms (clean_room_name room_name) res
    → (w' : World) × (handle_join_command w fd room_name res ≡ some w')
      × Joined w' c (clean_room_name room_name)
handle_join_command-Joined w fd room_name res c v a has =
    let at : client_at c.address w.clients.nodes ≡ some c =
      client_at-found w.clients.nodes fd c v.clients.addresses a.known in
    let (v', out, same) = leave_old_room-Unseated w v c at in
    let (w', e, done') =
      join_room-Joined fd c start res (length-clean_room_name room_name)
        (is_empty_false→ne start a.cleaned) (leave_old_room w c) v' (rw same at) out has' in
    (w', handle_join-eq w fd room_name res c a ∙ e, done')
  where
    start : Bytes
    start = clean_room_name room_name

    has' : HasRoom (leave_old_room w c).rooms start res
    has' = rw (find-leave_old_room w c start (Asks-ne w fd room_name c a)) has
