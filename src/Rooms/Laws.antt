-- ===== src/Rooms/Laws.antt =====
-- The invariant of the registry of rooms: its names and its counts.
use tcp_chat_server_c.Base.{
  Bool, Bool-cases, List, Option, Option-cases, [], ap, arith, false, inl, inr, length, ltb, none,
  refl, replicate, some, suc, sym, zero, ℕ, ◌+◌, ◌∙◌, ◌∷◌, ◌≡◌, ◌≢◌, ◌≤◌, ◌⊎◌,
}
use tcp_chat_server_c.CString.{Bytes, eq_bytes}
use tcp_chat_server_c.CString.Laws.{eq_bytes_iff, eq_bytes_refl, truncate-short}
use tcp_chat_server_c.Search.{All, find_first, unlink_first}
use tcp_chat_server_c.Search.Laws.{All-unlink, find_first-unlink_some, length-unlink_first}
use tcp_chat_server_c.Search.Keyed.{
  Distinct, Distinct-unlink, find-unlink_other, find-update_first, find_first-key,
}
use tcp_chat_server_c.Rooms.{
  Allocation, Room, RoomList, add_room, add_unless_found, after_unlink, allocated, find_room,
  has_name, init_rooms, link_room, max_clients_per_room, max_room_name_length, new_room, no_memory,
  no_mutex, occupies, remove_found, remove_room, write_room,
}
use tcp_chat_server_c.Rooms.Slots.{EachSeat, SeatsOnce, taken}

-- The counts of a room agree with its slots.
pub record IsRoom (r : Room) : Type 0 where
  pub slots : length r.clients ≡ max_clients_per_room
  pub counted : r.client_count ≡ taken r.clients
  pub once : SeatsOnce r.clients
  pub named : r.room_name ≢ []

-- The names are distinct, every room is well formed, and the total is the number of rooms.
pub record IsRooms (l : RoomList) : Type 0 where
  pub names : Distinct (λ (r : Room). r.room_name) eq_bytes eq_bytes_iff l.nodes
  pub rooms : All IsRoom l.nodes
  pub total : l.total_room_count ≡ length l.nodes

pub init_rooms-IsRooms : IsRooms init_rooms
unfolding init_rooms
init_rooms-IsRooms = record { names = tt; rooms = tt; total = refl }

taken-replicate : (n : ℕ) → taken (replicate n none) ≡ 0
taken-replicate zero = refl
taken-replicate (suc n) = taken-replicate n

occupies-replicate : (a n : ℕ) → occupies a (replicate n none) ≡ false
unfolding occupies
occupies-replicate a zero = refl
occupies-replicate a (suc n) = occupies-replicate a n

-- A new room has all its slots free.
pub new_room-IsRoom :
    (now : ℕ) (name : Bytes)
    → name ≢ []
    → length name ≤ max_room_name_length
    → IsRoom (new_room now name)
unfolding new_room
new_room-IsRoom now name ne short = record {
  slots = refl;
  counted = refl;
  once = tt;
  named = λ e. ne (sym (truncate-short (max_room_name_length + 1) name (omega arith)) ∙ e);
}

pub name-new_room :
    (now : ℕ) (name : Bytes)
    → length name ≤ max_room_name_length
    → (new_room now name).room_name ≡ name
unfolding new_room
name-new_room now name short = truncate-short (max_room_name_length + 1) name (omega arith)

pub find_room-name :
    (nodes : List Room) (name : Bytes) (r : Room)
    → find_room nodes name ≡ some r
    → r.room_name ≡ name
unfolding find_room
find_room-name nodes name r e =
    find_first-key (λ (r : Room). r.room_name) eq_bytes eq_bytes_iff name nodes r e

add_unless_found-IsRooms :
    (l : RoomList) (how : Allocation) (now : ℕ) (name : Bytes)
    → name ≢ []
    → length name ≤ max_room_name_length
    → IsRooms l
    → (found : Option Room) → find_room l.nodes name ≡ found
    → IsRooms (add_unless_found l how now name found).1
unfolding add_unless_found link_room find_room
add_unless_found-IsRooms l how now name ne short v (some r) e = v
add_unless_found-IsRooms l no_memory now name ne short v none e = v
add_unless_found-IsRooms l no_mutex now name ne short v none e = v
add_unless_found-IsRooms l allocated now name ne short v none e = record {
  names = (rw (name-new_room now name short) e, v.names);
  rooms = (new_room-IsRoom now name ne short, v.rooms);
  total = omega (arith, v.total);
}

-- `add_room` keeps the registry well formed. The name is not empty and fits the array.
pub add_room-IsRooms :
    (l : RoomList) (how : Allocation) (now : ℕ) (name : Bytes)
    → name ≢ []
    → length name ≤ max_room_name_length
    → IsRooms l
    → IsRooms (add_room l how now name).1
unfolding add_room
add_room-IsRooms l how now name ne short v =
    add_unless_found-IsRooms l how now name ne short v (find_room l.nodes name) refl

after_unlink-IsRooms :
    (l : RoomList) (p : Room → Bool) (o : Option (List Room))
    → IsRooms l
    → unlink_first p l.nodes ≡ o
    → IsRooms (after_unlink l o).1
unfolding after_unlink
after_unlink-IsRooms l p none v e = v
after_unlink-IsRooms l p (some nodes) v e = record {
  names =
      Distinct-unlink (λ (r : Room). r.room_name) eq_bytes eq_bytes_iff p l.nodes nodes v.names e;
  rooms = All-unlink IsRoom p l.nodes nodes v.rooms e;
  total = omega (arith, v.total, length-unlink_first p l.nodes nodes e);
}

remove_found-IsRooms :
    (l : RoomList) (name : Bytes) (found : Option Room)
    → IsRooms l
    → IsRooms (remove_found l name found).1
unfolding remove_found
remove_found-IsRooms l name none v = v
remove_found-IsRooms l name (some r) v = elim (Bool-cases (ltb 0 r.client_count)) [
  | inl busy ↦ rw busy v
  | inr idle ↦ rw idle (after_unlink-IsRooms l (has_name name) _ v refl)
]

-- `remove_room` keeps the registry well formed, on every branch.
pub remove_room-IsRooms : (l : RoomList) (name : Bytes) → IsRooms l → IsRooms (remove_room l name).1
unfolding remove_room
remove_room-IsRooms l name v = remove_found-IsRooms l name (find_room l.nodes name) v

module _ {κ} (P : Room → Type κ) where
  after_unlink-All :
      (rl : RoomList) (p : Room → Bool) (o : Option (List Room))
      → unlink_first p rl.nodes ≡ o
      → All P rl.nodes
      → All P (after_unlink rl o).1.nodes
  unfolding after_unlink
  after_unlink-All rl p none e a = a
  after_unlink-All rl p (some nodes) e a = All-unlink P p rl.nodes nodes a e

  remove_found-All :
      (rl : RoomList) (name : Bytes) (o : Option Room)
      → All P rl.nodes
      → All P (remove_found rl name o).1.nodes
  unfolding remove_found
  remove_found-All rl name none a = a
  remove_found-All rl name (some r) a = elim (Bool-cases (ltb 0 r.client_count)) [
    | inl busy ↦ rw busy a
    | inr idle ↦ rw idle (after_unlink-All rl (has_name name) _ refl a)
  ]

  pub remove_room-All :
      (rl : RoomList) (name : Bytes) → All P rl.nodes → All P (remove_room rl name).1.nodes
  unfolding remove_room
  remove_room-All rl name a = remove_found-All rl name (find_room rl.nodes name) a

-- `add_room` of a new name fails and changes nothing, or links a new room at the head.
pub add_room_cases :
    (l : RoomList) (how : Allocation) (now : ℕ) (name : Bytes)
    → find_room l.nodes name ≡ none
    → (add_room l how now name ≡ (none, l))
      ⊎ (add_room l how now name ≡ (
        some (new_room now name),
        record { nodes = new_room now name ∷ l.nodes; total_room_count = l.total_room_count + 1 },
      ))
unfolding add_room link_room
add_room_cases l no_memory now name e = inl (rw (e, add_room))
add_room_cases l no_mutex now name e = inl (rw (e, add_room))
add_room_cases l allocated now name e = inr (rw (e, add_room))

EachSeat-replicate : (P : ℕ → Type 0) (n : ℕ) → EachSeat P (replicate n none)
EachSeat-replicate P zero = tt
EachSeat-replicate P (suc n) = EachSeat-replicate P n

pub new_room-EachSeat :
    (P : ℕ → Type 0) (now : ℕ) (name : Bytes) → EachSeat P (new_room now name).clients
unfolding new_room
new_room-EachSeat P now name = EachSeat-replicate P max_clients_per_room

pub occupies-new_room : (a now : ℕ) (name : Bytes) → occupies a (new_room now name).clients ≡ false
unfolding new_room
occupies-new_room a now name = occupies-replicate a max_clients_per_room

pub find_room-new :
    (now : ℕ) (name : Bytes) (nodes : List Room)
    → length name ≤ max_room_name_length
    → find_room (new_room now name ∷ nodes) name ≡ some (new_room now name)
unfolding find_room find_first
find_room-new now name nodes short = rw (name-new_room now name short, eq_bytes_refl name)

-- Removing a room leaves the rooms of other names as they are.
pub find_room-remove_room :
    (l : RoomList) (name other : Bytes)
    → eq_bytes name other ≡ false
    → find_room (remove_room l name).1.nodes other ≡ find_room l.nodes other
unfolding remove_room find_room
find_room-remove_room l name other ne = elim (Option-cases (find_first (has_name name) l.nodes)) [
  | inl e ↦ rw (e, remove_found)
  | inr (r, e) ↦
      rw (e, remove_found)
        (elim (Bool-cases (ltb 0 r.client_count)) [
          | inl busy ↦ rw busy
          | inr idle ↦
              let (nodes, e') = find_first-unlink_some (has_name name) l.nodes r e in
              rw (idle, e', after_unlink)
                (find-unlink_other (λ (r : Room). r.room_name) eq_bytes eq_bytes_iff (has_name name)
                  r other l.nodes nodes e
                  (ap (λ t. eq_bytes t other) (find_room-name l.nodes name r e) ∙ ne) e')
        ])
]

-- A write to a room leaves the rooms of other names as they are.
pub find_room-write_room :
    (nodes : List Room) (name other : Bytes) (f : Room → Room)
    → ((r : Room) → (f r).room_name ≡ r.room_name)
    → eq_bytes name other ≡ false
    → find_room (write_room name f nodes) other ≡ find_room nodes other
unfolding find_room write_room
find_room-write_room nodes name other f same ne =
    find-update_first (λ (r : Room). r.room_name) eq_bytes eq_bytes_iff name other f same nodes
    ∙ rw ne

pub add_room-allocated :
    (l : RoomList) (now : ℕ) (name : Bytes)
    → find_room l.nodes name ≡ none
    → (add_room l allocated now name).0 ≡ some (new_room now name)
unfolding add_room
add_room-allocated l now name e = rw (e, add_room)
