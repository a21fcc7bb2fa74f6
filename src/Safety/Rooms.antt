-- ===== src/Safety/Rooms.antt =====
-- Taking a client out of its room, and the invariant.
use tcp_chat_server_c.Base.{
  Bool-cases, List, Option, ap, arith, false, false≢true, inl, inr, none, some, some_inj, subst,
  sym, ℕ, ◌∙◌, ◌≡◌,
}
use tcp_chat_server_c.CString.{Bytes, eq_bytes, keep}
use tcp_chat_server_c.CString.Laws.{eq_bytes_iff, eq_bytes_refl, eq→eq_bytes}
use tcp_chat_server_c.Search.Laws.{
  All-both, All-find, All-update_first, length-update_first, update_first-same,
}
use tcp_chat_server_c.Search.Keyed.{All-find_none, All-update, Distinct-update, find-update_first}
use tcp_chat_server_c.Clients.{Client, ClientList, client_at}
use tcp_chat_server_c.Rooms.{Room, RoomList, find_room, has_name, occupies, write_room}
use tcp_chat_server_c.Rooms.Slots.{
  EachSeat, EachSeat-at, EachSeat-vacate, SeatsOnce-vacate, length-vacate, occupies-vacate,
  taken-vacate,
}
use tcp_chat_server_c.Rooms.Laws.{IsRoom, IsRooms}
use tcp_chat_server_c.Server.{take_out}
use tcp_chat_server_c.Safety.{Seat, Seated, Unseated, Valid}
use tcp_chat_server_c.Safety.Delivery.{Live, Seated-Live}

pub name-take_out : (t : Option ℕ) (a : ℕ) (r : Room) → (take_out t a r).room_name ≡ r.room_name
unfolding take_out
name-take_out t a r = ground arith

-- The counts of a room agree with its slots after a client has been taken out.
take_out-IsRoom : (t : Option ℕ) (a : ℕ) (r : Room) → IsRoom r → IsRoom (take_out t a r)
unfolding take_out
take_out-IsRoom t a r v = elim (Bool-cases (occupies a r.clients)) [
  | inr out ↦ rw out v
  | inl here ↦ rw here (record {
    slots = length-vacate a r.clients ∙ v.slots;
    counted = omega (arith, v.counted, taken-vacate a r.clients here);
    once = SeatsOnce-vacate a r.clients v.once;
    named = v.named;
  })
]

take_out-out :
    (t : Option ℕ) (a : ℕ) (r : Room) → IsRoom r → occupies a (take_out t a r).clients ≡ false
unfolding take_out
take_out-out t a r v = elim (Bool-cases (occupies a r.clients)) [
  | inr out ↦ rw (out, out)
  | inl here ↦ rw here (occupies-vacate a r.clients v.once)
]

take_out-EachSeat :
    (P : ℕ → Type 0) (t : Option ℕ) (a : ℕ) (r : Room)
    → EachSeat P r.clients
    → EachSeat P (take_out t a r).clients
unfolding take_out
take_out-EachSeat P t a r s = elim (Bool-cases (occupies a r.clients)) [
  | inr out ↦ rw out s
  | inl here ↦ rw here (EachSeat-vacate P a r.clients s)
]

take_out-Seated :
    (nodes : List Client) (t : Option ℕ) (a : ℕ) (r : Room)
    → Seated nodes r
    → Seated nodes (take_out t a r)
take_out-Seated nodes t a r s =
    rw (name-take_out t a r) (take_out-EachSeat (Seat nodes r.room_name) t a r s)

-- The list of rooms with one room written.
abbrev pub written : RoomList → Bytes → (Room → Room) → RoomList
written rl name f = record rl { nodes = write_room name f rl.nodes }

-- A write that keeps the name and the counts of a room keeps the registry well formed.
pub written-IsRooms :
    (rl : RoomList) (name : Bytes) (f : Room → Room)
    → ((r : Room) → (f r).room_name ≡ r.room_name)
    → ((r : Room) → IsRoom r → IsRoom (f r))
    → IsRooms rl
    → IsRooms (written rl name f)
unfolding write_room
written-IsRooms rl name f same keep v = record {
  names =
      Distinct-update (λ (r : Room). r.room_name) eq_bytes eq_bytes_iff (has_name name) f same
        rl.nodes v.names;
  rooms = All-update_first IsRoom (has_name name) f keep rl.nodes v.rooms;
  total = v.total ∙ sym (length-update_first (has_name name) f rl.nodes);
}

-- The written room is found under its name.
pub find_room-written :
    (rl : RoomList) (name : Bytes) (f : Room → Room)
    → ((r : Room) → (f r).room_name ≡ r.room_name)
    → (r : Room) → find_room rl.nodes name ≡ some r
    → find_room (written rl name f).nodes name ≡ some (f r)
unfolding find_room write_room
find_room-written rl name f same r e =
    find-update_first (λ (r : Room). r.room_name) eq_bytes eq_bytes_iff name name f same rl.nodes
    ∙ rw (eq_bytes_refl name, e)

-- The slots of a room that is found point to clients.
pub find_room-Live :
    (cl : ClientList) (rl : RoomList) (name : Bytes) (r : Room)
    → Valid cl rl
    → find_room rl.nodes name ≡ some r
    → EachSeat (Live cl.nodes) r.clients
unfolding find_room
find_room-Live cl rl name r v e =
    Seated-Live cl.nodes r.room_name r.clients
      (All-find (Seated cl.nodes) (has_name name) rl.nodes r v.seats e)

module _ (cl : ClientList) (rl : RoomList) (v : Valid cl rl) (c : Client)
    (at : client_at c.address cl.nodes ≡ some c) where
  -- A room of another name does not hold the client.
  pub elsewhere :
      (r : Room)
      → eq_bytes r.room_name c.current_room_name ≡ false
      → Seated cl.nodes r
      → occupies c.address r.clients ≡ false
  elsewhere r ne s = elim (Bool-cases (occupies c.address r.clients)) [
    | inr out ↦ out
    | inl here ↦
        let (c', at', name) = EachSeat-at (Seat cl.nodes r.room_name) c.address r.clients here s in
        let same : c ≡ c' = some_inj c c' (sym at ∙ at') in
        absurd (
          false≢true (
            sym ne
            ∙ eq→eq_bytes r.room_name c.current_room_name
                (sym name ∙ sym (ap (λ (x : Client). x.current_room_name) same))))
  ]

  -- If the client's room is not in the list, no room holds the client.
  pub gone-Unseated : find_room rl.nodes c.current_room_name ≡ none → Unseated c.address rl.nodes
  unfolding find_room
  gone-Unseated e =
      All-find_none (λ (r : Room). r.room_name) eq_bytes eq_bytes_iff (Seated cl.nodes)
        (λ r. occupies c.address r.clients ≡ false) c.current_room_name elsewhere rl.nodes e v.seats

  -- After the client has been taken out of the room that its own field names, no room holds it.
  pub take_out-Unseated :
      (t : Option ℕ)
      → Unseated c.address (write_room c.current_room_name (take_out t c.address) rl.nodes)
  unfolding write_room
  take_out-Unseated t =
      All-update (λ (r : Room). r.room_name) eq_bytes eq_bytes_iff
        (λ (r : Room). IsRoom r × Seated cl.nodes r) (λ r. occupies c.address r.clients ≡ false)
        c.current_room_name (take_out t c.address) (λ r e s. take_out-out t c.address r s.0)
        (λ r ne s. elsewhere r ne s.1) rl.nodes v.rooms.names
        (All-both IsRoom (Seated cl.nodes) rl.nodes v.rooms.rooms v.seats)

  pub take_out-Valid :
      (t : Option ℕ) → Valid cl (written rl c.current_room_name (take_out t c.address))
  unfolding write_room
  take_out-Valid t = record {
    clients = v.clients;
    rooms =
        written-IsRooms rl c.current_room_name (take_out t c.address) (name-take_out t c.address)
          (take_out-IsRoom t c.address) v.rooms;
    seats =
        All-update_first (Seated cl.nodes) (has_name c.current_room_name) (take_out t c.address)
          (take_out-Seated cl.nodes t c.address) rl.nodes v.seats;
  }

  -- If the client's room does not hold it, no room does.
  pub unregistered-Unseated :
      (r : Room)
      → find_room rl.nodes c.current_room_name ≡ some r
      → occupies c.address r.clients ≡ false
      → Unseated c.address rl.nodes
  unfolding find_room write_room take_out
  unregistered-Unseated r e out =
      subst (λ t. Unseated c.address t)
        (update_first-same (has_name c.current_room_name) (take_out none c.address) rl.nodes r e
          (rw out))
        (take_out-Unseated none)
