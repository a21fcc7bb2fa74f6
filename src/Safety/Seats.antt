-- ===== src/Safety/Seats.antt =====
-- Writes to a client that sits nowhere, and its move into a room, and the invariant.
use tcp_chat_server_c.Base.{
  ==_iff, List, Option-cases, arith, false, inl, inr, length, refl, some, sym, true, ℕ, ℤ, ◌+◌,
  ◌==◌, ◌∙◌, ◌≡◌, ◌≤◌,
}
use tcp_chat_server_c.CString.{Bytes, eq_bytes}
use tcp_chat_server_c.CString.Laws.{eq_bytes_iff, truncate-short}
use tcp_chat_server_c.Search.Laws.{All-both, All-map, All-update_first, length-update_first}
use tcp_chat_server_c.Search.Keyed.{All-update, Distinct-update, find-update_first}
use tcp_chat_server_c.Clients.{Client, ClientList, client_at, has_address, write_client}
use tcp_chat_server_c.Clients.Laws.{IsClients}
use tcp_chat_server_c.Rooms.{
  Room, RoomList, Slot, has_name, max_room_name_length, occupies, occupy, write_room,
}
use tcp_chat_server_c.Rooms.Slots.{
  EachSeat, EachSeat-occupy, EachSeat-other, SeatsOnce-occupy, length-occupy, taken-occupy,
}
use tcp_chat_server_c.Rooms.Laws.{IsRoom}
use tcp_chat_server_c.Server.{forget_room}
use tcp_chat_server_c.Server.Join.{put_in, set_room}
use tcp_chat_server_c.Safety.{Seat, Seated, Unseated, Valid}
use tcp_chat_server_c.Safety.Rooms.{written}

-- A write that leaves the key fields of a client alone.
pub record Keeps (f : Client → Client) : Type 0 where
  pub address : (c : Client) → (f c).address ≡ c.address
  pub username : (c : Client) → (f c).username ≡ c.username
  pub active : (c : Client) → (f c).is_active ≡ c.is_active

pub forget_room-Keeps : Keeps forget_room
unfolding forget_room
forget_room-Keeps = record { address = λ c. refl; username = λ c. refl; active = λ c. refl }

pub set_room-Keeps : (name : Bytes) (index : ℤ) → Keeps (set_room name index)
unfolding set_room
set_room-Keeps name index = record { address = λ c. refl; username = λ c. refl; active = λ c. refl }

-- The registry with one client written.
abbrev pub rewritten : ClientList → ℕ → (Client → Client) → ClientList
rewritten cl a f = record cl { nodes = write_client a f cl.nodes }

pub rewritten-IsClients :
    (cl : ClientList) (a : ℕ) (f : Client → Client)
    → Keeps f
    → IsClients cl
    → IsClients (rewritten cl a f)
rewritten-IsClients cl a f k v = record {
  addresses =
      Distinct-update (λ (c : Client). c.address) ◌==◌ ==_iff (has_address a) f k.address cl.nodes
        v.addresses;
  usernames =
      Distinct-update (λ (c : Client). c.username) eq_bytes eq_bytes_iff (has_address a) f
        k.username cl.nodes v.usernames;
  active =
      All-update_first (λ c. c.is_active ≡ true) (has_address a) f (λ c h. k.active c ∙ h) cl.nodes
        v.active;
  count = v.count ∙ sym (length-update_first (has_address a) f cl.nodes);
}

module _ (nodes : List Client) (a : ℕ) (f : Client → Client) (k : Keeps f) where
  -- The other clients are as they were.
  client_at-other :
      (b : ℕ) → (b == a) ≡ false → client_at b (write_client a f nodes) ≡ client_at b nodes
  client_at-other b ne =
      find-update_first (λ (c : Client). c.address) ◌==◌ ==_iff a b f k.address nodes ∙ ground arith

  pub client_at-written :
      (c : Client) → client_at a nodes ≡ some c → client_at a (write_client a f nodes) ≡ some (f c)
  client_at-written c e =
      find-update_first (λ (c : Client). c.address) ◌==◌ ==_iff a a f k.address nodes
      ∙ rw e (ground arith)

  pub Seat-other :
      (name : Bytes) (ss : List Slot)
      → occupies a ss ≡ false
      → EachSeat (Seat nodes name) ss
      → EachSeat (Seat (write_client a f nodes) name) ss
  Seat-other name ss out s =
      EachSeat-other (Seat nodes name) (Seat (write_client a f nodes) name) a
        (λ b ne s. (s.0, client_at-other b ne ∙ s.1, s.2)) ss out s

-- A client that sits nowhere can be written.
pub rewritten-Valid :
    (cl : ClientList) (rl : RoomList) (a : ℕ) (f : Client → Client)
    → Keeps f
    → Valid cl rl
    → Unseated a rl.nodes
    → Valid (rewritten cl a f) rl
rewritten-Valid cl rl a f k v out = record {
  clients = rewritten-IsClients cl a f k v.clients;
  rooms = v.rooms;
  seats =
      All-map (λ (r : Room). (occupies a r.clients ≡ false) × Seated cl.nodes r)
        (Seated (write_client a f cl.nodes))
        (λ r s. Seat-other cl.nodes a f k r.room_name r.clients s.0 s.1) rl.nodes
        (All-both (λ (r : Room). occupies a r.clients ≡ false) (Seated cl.nodes) rl.nodes out
          v.seats);
}

-- Filling the first free slot keeps the counts of a room right, if the client has no slot there.
put_in-IsRoom :
    (now a : ℕ) (r : Room) → IsRoom r → occupies a r.clients ≡ false → IsRoom (put_in now a r)
unfolding put_in
put_in-IsRoom now a r v out = elim (Option-cases (occupy a r.clients)) [
  | inl full ↦ rw (full, put_in) v
  | inr (slots, e) ↦
      rw (e, put_in)
        (record {
          slots = length-occupy a r.clients slots e ∙ v.slots;
          counted = omega (arith, v.counted, taken-occupy a r.clients slots e);
          once = SeatsOnce-occupy a r.clients slots e out v.once;
          named = v.named;
        })
]

pub name-put_in : (now a : ℕ) (r : Room) → (put_in now a r).room_name ≡ r.room_name
unfolding put_in
name-put_in now a r = ground arith

put_in-EachSeat :
    (P : ℕ → Type 0) (now a : ℕ) (r : Room)
    → P a
    → EachSeat P r.clients
    → EachSeat P (put_in now a r).clients
unfolding put_in
put_in-EachSeat P now a r p s = elim (Option-cases (occupy a r.clients)) [
  | inl full ↦ rw (full, put_in) s
  | inr (slots, e) ↦ rw (e, put_in) (EachSeat-occupy a P p r.clients slots e s)
]

pub name-set_room :
    (name : Bytes) (index : ℤ) (c : Client)
    → length name ≤ max_room_name_length
    → (set_room name index c).current_room_name ≡ name
unfolding set_room
name-set_room name index c short = truncate-short (max_room_name_length + 1) name (omega arith)

-- The client is put into the room, and its own field is set to the name of the room, which fits.
pub put_in-Valid :
    (cl : ClientList) (rl : RoomList) (c : Client) (name : Bytes) (index : ℤ) (now : ℕ)
    → Valid cl rl
    → client_at c.address cl.nodes ≡ some c
    → Unseated c.address rl.nodes
    → length name ≤ max_room_name_length
    → Valid (rewritten cl c.address (set_room name index)) (written rl name (put_in now c.address))
unfolding write_room
put_in-Valid cl rl c name index now v at out short = record {
  clients =
      rewritten-IsClients cl c.address (set_room name index) (set_room-Keeps name index) v.clients;
  rooms = record {
    names =
        Distinct-update (λ (r : Room). r.room_name) eq_bytes eq_bytes_iff (has_name name)
          (put_in now c.address) (name-put_in now c.address) rl.nodes v.rooms.names;
    rooms =
        All-update (λ (r : Room). r.room_name) eq_bytes eq_bytes_iff
          (λ (r : Room). IsRoom r × (occupies c.address r.clients ≡ false)) IsRoom name
          (put_in now c.address) (λ r e s. put_in-IsRoom now c.address r s.0 s.1) (λ r ne s. s.0)
          rl.nodes v.rooms.names
          (All-both IsRoom (λ r. occupies c.address r.clients ≡ false) rl.nodes v.rooms.rooms out);
    total =
        v.rooms.total ∙ sym (length-update_first (has_name name) (put_in now c.address) rl.nodes);
  };
  seats =
      All-update (λ (r : Room). r.room_name) eq_bytes eq_bytes_iff
        (λ (r : Room). (occupies c.address r.clients ≡ false) × Seated cl.nodes r) (Seated nodes')
        name (put_in now c.address) here
        (λ r ne s. Seat-other cl.nodes c.address f k r.room_name r.clients s.0 s.1) rl.nodes
        v.rooms.names
        (All-both (λ r. occupies c.address r.clients ≡ false) (Seated cl.nodes) rl.nodes out
          v.seats);
}
  where
    f : Client → Client
    f = set_room name index

    k : Keeps f
    k = set_room-Keeps name index

    nodes' : List Client
    nodes' = write_client c.address f cl.nodes

    here :
        (r : Room)
        → r.room_name ≡ name
        → (occupies c.address r.clients ≡ false) × Seated cl.nodes r
        → Seated nodes' (put_in now c.address r)
    here r e s = rw (name-put_in now c.address r) (
        put_in-EachSeat (Seat nodes' r.room_name) now c.address r
          (
            f c,
            client_at-written cl.nodes c.address f k c at,
            name-set_room name index c short ∙ sym e,
          )
          (Seat-other cl.nodes c.address f k r.room_name r.clients s.0 s.1))
