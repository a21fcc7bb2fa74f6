-- ===== src/Rooms/Changes.antt =====
-- What `add_room` and `remove_room` of server/dynamic_room.c do to the registry, on every branch.
use tcp_chat_server_c.Base.{
  Bool-cases, List, Option, Option-cases, [], ap, arith, failure, inl, inr, length, ltb, none, refl,
  some, subst, success, sym, true, ℕ, ℤ, ◌+◌, ◌-◌, ◌<◌, ◌∙◌, ◌∷◌, ◌≡◌, ◌≢◌, ◌≤◌, ◌⊎◌,
}
use tcp_chat_server_c.CString.{Bytes, eq_bytes}
use tcp_chat_server_c.CString.Laws.{eq_bytes_iff}
use tcp_chat_server_c.Search.{find_first, unlink_first}
use tcp_chat_server_c.Search.Laws.{
  All-find, find_first-unlink_some, length-unlink_first, unlink_first_cases,
}
use tcp_chat_server_c.Search.Keyed.{Distinct}
use tcp_chat_server_c.Rooms.{
  Allocation, Room, RoomList, add_new_room, add_room, add_unless_found, after_unlink, allocated,
  find_room, has_name, link_room, max_room_name_length, new_room, no_memory, no_mutex, remove_found,
  remove_room,
}
use tcp_chat_server_c.Rooms.Slots.{taken}
use tcp_chat_server_c.Rooms.Laws.{
  IsRoom, IsRooms, add_room-IsRooms, find_room-new, find_room-remove_room, name-new_room,
  new_room-IsRoom, remove_room-IsRooms,
}

-- A new, empty room of that name is in the registry, beside those that were there.
pub record Created (l : RoomList) (name : Bytes) (r : Option Room × RoomList) : Type 0 where
  pub room : Room
  pub returned : r.0 ≡ some room
  pub named : room.room_name ≡ name
  pub empty : taken room.clients ≡ 0
  pub formed : IsRoom room
  pub linked : find_room r.1.nodes name ≡ some room
  pub others :
      (other : Bytes)
      → (eq_bytes name other ≡ true) ⊎ (find_room r.1.nodes other ≡ find_room l.nodes other)
  pub total : r.1.total_room_count ≡ l.total_room_count + 1

pub data AddsRoom (l : RoomList) (how : Allocation) (name : Bytes) (r : Option Room × RoomList)
    : Type 0 where
  already_there :
      (x : Room) → find_room l.nodes name ≡ some x → r ≡ (some x, l) → AddsRoom l how name r
  not_allocated :
      find_room l.nodes name ≡ none → how ≢ allocated → r ≡ (none, l) → AddsRoom l how name r
  created :
      find_room l.nodes name ≡ none → how ≡ allocated → Created l name r → AddsRoom l how name r

find_room-link :
    (now : ℕ) (name : Bytes) (nodes : List Room) (other : Bytes)
    → length name ≤ max_room_name_length
    → (eq_bytes name other ≡ true)
      ⊎ (find_room (new_room now name ∷ nodes) other ≡ find_room nodes other)
unfolding find_room find_first
find_room-link now name nodes other short = elim (Bool-cases (eq_bytes name other)) [
  | inl same ↦ inl same
  | inr differ ↦ inr (rw (name-new_room now name short, differ) refl)
]

add_new_room-Adds :
    (l : RoomList) (how : Allocation) (now : ℕ) (name : Bytes)
    → name ≢ []
    → length name ≤ max_room_name_length
    → find_room l.nodes name ≡ none
    → AddsRoom l how name (add_new_room l how now name)
unfolding add_new_room link_room
add_new_room-Adds l no_memory now name ne short e = not_allocated e (λ h. cc) refl
add_new_room-Adds l no_mutex now name ne short e = not_allocated e (λ h. cc) refl
add_new_room-Adds l allocated now name ne short e = created e refl (record {
  room = new_room now name;
  returned = refl;
  named = name-new_room now name short;
  empty = sym (new_room-IsRoom now name ne short).counted ∙ unfold new_room in refl;
  formed = new_room-IsRoom now name ne short;
  linked = find_room-new now name l.nodes short;
  others = λ other. find_room-link now name l.nodes other short;
  total = refl;
})

-- `add_room` on every branch: if the registry has a room of that name, it returns that room and
-- changes nothing; if there is none and `malloc` or the mutex fails, it returns none and changes
-- nothing; if there is none and the allocation succeeds, it returns a new well-formed room of that
-- name with all slots free, which is then the one found under the name, while every other name is
-- looked up as before and the total is one more. The registry stays well formed. The name is not
-- empty and fits the array.
pub add_room-AddsRoom :
    (l : RoomList) (how : Allocation) (now : ℕ) (name : Bytes)
    → name ≢ []
    → length name ≤ max_room_name_length
    → IsRooms l
    → AddsRoom l how name (add_room l how now name) × IsRooms (add_room l how now name).1
unfolding add_room
add_room-AddsRoom l how now name ne short v = (
  elim (Option-cases (find_room l.nodes name)) [
    | inl e ↦ rw (e, add_unless_found) (add_new_room-Adds l how now name ne short e)
    | inr (x, e) ↦ rw (e, add_unless_found) (already_there x e refl)
  ],
  add_room-IsRooms l how now name ne short v,
)

-- The room of that name is gone, and the others are as they were.
pub record Removed (l : RoomList) (name : Bytes) (r : ℤ × RoomList) : Type 0 where
  pub code : r.0 ≡ success
  pub gone : find_room r.1.nodes name ≡ none
  pub others :
      (other : Bytes)
      → (eq_bytes name other ≡ true) ⊎ (find_room r.1.nodes other ≡ find_room l.nodes other)
  pub total : l.total_room_count ≡ r.1.total_room_count + 1

pub data RemovesRoom (l : RoomList) (name : Bytes) (r : ℤ × RoomList) : Type 0 where
  not_there : find_room l.nodes name ≡ none → r ≡ (failure, l) → RemovesRoom l name r
  occupied :
      (x : Room)
      → find_room l.nodes name ≡ some x
      → 0 < taken x.clients
      → r ≡ (failure, l)
      → RemovesRoom l name r
  removed :
      (x : Room)
      → find_room l.nodes name ≡ some x
      → taken x.clients ≡ 0
      → Removed l name r
      → RemovesRoom l name r

unlink_first-gone :
    (name : Bytes) (xs ys : List Room)
    → Distinct (λ (r : Room). r.room_name) eq_bytes eq_bytes_iff xs
    → unlink_first (has_name name) xs ≡ some ys
    → find_room ys name ≡ none
unfolding find_room find_first
unlink_first-gone name [] ys d e = unfold unlink_first in cc
unlink_first-gone name (x ∷ xs) ys d e = elim (unlink_first_cases (has_name name) x xs ys e) [
  | inl (hit, e') ↦ rw (e', sym ((eq_bytes_iff x.room_name name).0 hit)) d.0
  | inr (zs, miss, e', e'') ↦ rw e'' (rw miss (unlink_first-gone name xs zs d.1 e'))
]

remove_found-Removed :
    (l : RoomList) (name : Bytes) (x : Room)
    → IsRooms l
    → find_room l.nodes name ≡ some x
    → remove_room l name ≡ remove_found l name (some x)
    → RemovesRoom l name (remove_found l name (some x))
unfolding remove_found after_unlink
remove_found-Removed l name x v e same = elim (Bool-cases (ltb 0 x.client_count)) [
  | inl busy ↦ rw busy (occupied x e (subst (λ n. 0 < n) counted (ground arith)) refl)
  | inr idle ↦
      let (nodes, u) = find_first-unlink_some (has_name name) l.nodes x (unfold find_room in e) in
      let result : remove_room l name
          ≡ (success, record { nodes = nodes; total_room_count = l.total_room_count - 1 }) =
        rw (same, idle, u) refl in
      rw (idle, u)
        (removed x e (sym counted ∙ ground arith) (record {
          code = refl;
          gone = unlink_first-gone name l.nodes nodes v.names u;
          others = λ other. others nodes result other;
          total = omega (arith, v.total, length-unlink_first (has_name name) l.nodes nodes u);
        }))
]
  where
    counted : x.client_count ≡ taken x.clients
    counted = (All-find IsRoom (has_name name) l.nodes x v.rooms (unfold find_room in e)).counted

    others :
        (nodes : List Room)
        → remove_room l name
          ≡ (success, record { nodes = nodes; total_room_count = l.total_room_count - 1 })
        → (other : Bytes)
        → (eq_bytes name other ≡ true) ⊎ (find_room nodes other ≡ find_room l.nodes other)
    others nodes h other = elim (Bool-cases (eq_bytes name other)) [
      | inl hit ↦ inl hit
      | inr differ ↦ inr (
          ap (λ (p : ℤ × RoomList). find_room p.1.nodes other) (sym h)
          ∙ find_room-remove_room l name other differ)
    ]

-- `remove_room` on every branch: where no room has that name, or the room has a client in one of
-- its slots, it returns -1 and changes nothing; where all slots of the room are free, it returns 0,
-- the name is no longer found, every other name is looked up as before, and the total is one less.
-- The registry stays well formed.
pub remove_room-RemovesRoom :
    (l : RoomList) (name : Bytes)
    → IsRooms l
    → RemovesRoom l name (remove_room l name) × IsRooms (remove_room l name).1
remove_room-RemovesRoom l name v = (
  elim (Option-cases (find_room l.nodes name)) [
    | inl e ↦
        subst (λ r. RemovesRoom l name r) (sym (branch none e))
          (not_there e (unfold remove_found in refl))
    | inr (x, e) ↦
        subst (λ r. RemovesRoom l name r) (sym (branch (some x) e))
          (remove_found-Removed l name x v e (branch (some x) e))
  ],
  remove_room-IsRooms l name v,
)
  where
    branch :
        (o : Option Room) → find_room l.nodes name ≡ o → remove_room l name ≡ remove_found l name o
    branch o e = unfold remove_room in ap (remove_found l name) e
