-- ===== src/Rooms.antt =====
-- server/dynamic_room.c: the registry of the rooms, and the slots of a room, which the handlers in
-- server/server_helper.c fill and clear under the room's mutex.
-- The address of a room is never stored, so a pointer to one is its place in the list: the first
-- node with its name. A room's `client_count` goes down only where a slot is cleared.
pub mod Slots
pub mod Laws
pub mod Changes
use tcp_chat_server_c.Base.{
  Bool, List, Option, [], failure, false, get_elem?, if◌then◌else◌, ltb, negsuc, none, pos,
  replicate, some, success, ℕ, ℤ, ◌+◌, ◌-◌, ◌==◌, ◌||◌, ◌∷◌,
}
use tcp_chat_server_c.CString.{Bytes, eq_bytes, truncate}
use tcp_chat_server_c.Search.{find_first, index_from, unlink_first, update_first}

-- A slot of `clients[]`: a client's address, or null.
abbrev pub Slot : Type 0
Slot = Option ℕ

abbrev pub max_clients_per_room : ℕ
max_clients_per_room = 15

abbrev pub max_room_name_length : ℕ
max_room_name_length = 32

-- `room_info_t`.
pub record Room : Type 0 where
  pub room_name : Bytes
  pub created_time : ℕ
  pub clients : List Slot
  pub client_count : ℕ
  pub total_messages_sent : ℕ
  pub last_activity : ℕ

-- `room_list_head` and `total_room_count`.
pub record RoomList : Type 0 where
  pub nodes : List Room
  pub total_room_count : ℕ

unfoldable pub init_rooms : RoomList
init_rooms = record { nodes = []; total_room_count = 0 }

unfoldable pub cleanup_rooms : RoomList → RoomList
unfolding init_rooms
cleanup_rooms l = init_rooms

abbrev pub has_name : Bytes → Room → Bool
has_name name r = eq_bytes r.room_name name

unfoldable pub find_room : List Room → Bytes → Option Room
find_room nodes name = find_first (has_name name) nodes

-- A write to the room that `find_room` returns.
unfoldable pub write_room : Bytes → (Room → Room) → List Room → List Room
write_room name f nodes = update_first (has_name name) f nodes

-- What `malloc` and `pthread_mutex_init` do for a new room.
pub data Allocation : Type 0 where
  no_memory no_mutex allocated : Allocation

unfoldable pub new_room : ℕ → Bytes → Room
new_room now name = record {
  room_name = truncate (max_room_name_length + 1) name;
  created_time = now;
  clients = replicate max_clients_per_room none;
  client_count = 0;
  total_messages_sent = 0;
  last_activity = now;
}

link_room : RoomList → Room → RoomList
link_room l r = record { nodes = r ∷ l.nodes; total_room_count = l.total_room_count + 1 }

add_new_room : RoomList → Allocation → ℕ → Bytes → Option Room × RoomList
unfolding new_room link_room
add_new_room l no_memory now name = (none, l)
add_new_room l no_mutex now name = (none, l)
add_new_room l allocated now name = (some (new_room now name), link_room l (new_room now name))

add_unless_found : RoomList → Allocation → ℕ → Bytes → Option Room → Option Room × RoomList
unfolding add_new_room
add_unless_found l how now name (some existing) = (some existing, l)
add_unless_found l how now name none = add_new_room l how now name

-- The room of that name, old or new.
unfoldable pub add_room : RoomList → Allocation → ℕ → Bytes → Option Room × RoomList
unfolding add_unless_found find_room
add_room l how now name = add_unless_found l how now name (find_room l.nodes name)

after_unlink : RoomList → Option (List Room) → ℤ × RoomList
after_unlink l none = (failure, l)
after_unlink l (some nodes) =
    (success, record { nodes = nodes; total_room_count = l.total_room_count - 1 })

remove_found : RoomList → Bytes → Option Room → ℤ × RoomList
unfolding after_unlink
remove_found l name none = (failure, l)
remove_found l name (some r) =
    if ltb 0 r.client_count
    then (failure, l)
    else after_unlink l (unlink_first (has_name name) l.nodes)

-- Fails for a room that is not there, and for one that is not empty.
unfoldable pub remove_room : RoomList → Bytes → ℤ × RoomList
unfolding remove_found find_room
remove_room l name = remove_found l name (find_room l.nodes name)

unfoldable pub get_room_by_index : List Room → ℤ → Option Room
get_room_by_index nodes (pos i) = get_elem? nodes i
get_room_by_index nodes (negsuc i) = none

index_or_fail : Option ℕ → ℤ
index_or_fail none = failure
index_or_fail (some i) = pos i

unfoldable pub get_room_index : List Room → Bytes → ℤ
unfolding index_or_fail
get_room_index nodes name = index_or_fail (index_from 0 (has_name name) nodes)

unfoldable pub count_rooms : RoomList → ℕ
count_rooms l = l.total_room_count

holds : ℕ → Slot → Bool
holds a none = false
holds a (some b) = b == a

-- `clients[i] == client` for some i.
unfoldable pub occupies : ℕ → List Slot → Bool
unfolding holds
occupies a [] = false
occupies a (s ∷ ss) = holds a s || occupies a ss

-- Clears the first slot that holds the client.
unfoldable pub vacate : ℕ → List Slot → List Slot
unfolding holds
vacate a [] = []
vacate a (s ∷ ss) = if holds a s then none ∷ ss else s ∷ vacate a ss

abbrev push_slot : Slot → Option (List Slot) → Option (List Slot)
push_slot s none = none
push_slot s (some ss) = some (s ∷ ss)

-- Puts the client in the first free slot, if there is one (`slot_found`).
unfoldable pub occupy : ℕ → List Slot → Option (List Slot)
occupy a [] = none
occupy a (none ∷ ss) = some (some a ∷ ss)
occupy a (some b ∷ ss) = push_slot (some b) (occupy a ss)
