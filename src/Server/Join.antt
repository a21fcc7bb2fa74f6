-- ===== src/Server/Join.antt =====
-- `handle_join_command`.
pub mod Safe
pub mod Outcome
pub mod Full
use tcp_chat_server_c.Base.{
  Option, if◌then◌else◌, leb, length, ltb, none, not, some, ℕ, ℤ, ◌&&◌, ◌+◌, ◌==◌,
}
use tcp_chat_server_c.CString.{
  Bytes, all_alnum, eq_bytes, is_blank, is_blank_or_newline, is_empty, skip, trim_end, truncate,
}
use tcp_chat_server_c.Clients.{Client, find_client_by_socket}
use tcp_chat_server_c.Rooms.{
  Allocation, Room, RoomList, add_room, find_room, get_room_index, max_clients_per_room,
  max_room_name_length, occupy, remove_room,
}
use tcp_chat_server_c.Replies.{
  already_in_room, join_success, joined, no_slots, room_create_failed, room_full, room_name_empty,
  room_name_format, room_name_too_long, unidentified_client, usage_join,
}
use tcp_chat_server_c.Server.{
  Resources, World, notify, respond, take_out, update_client, update_room,
}

-- The name as it is copied and trimmed.
unfoldable pub clean_room_name : Bytes → Bytes
clean_room_name room_name =
    trim_end is_blank_or_newline (skip is_blank (truncate (max_room_name_length + 1) room_name))

-- The room is removed if the client was its last.
remove_if_empty : World → Room → World
remove_if_empty w r =
    if r.client_count == 0 then record w { rooms = (remove_room w.rooms r.room_name).1 } else w

leave_found_room : World → Client → Option Room → World
unfolding remove_if_empty
leave_found_room w c none = w
leave_found_room w c (some r) =
    remove_if_empty (update_room w c.current_room_name (take_out none c.address))
      (take_out none c.address r)

-- Taking the client out of the room that it is in.
unfoldable pub leave_old_room : World → Client → World
unfolding leave_found_room
leave_old_room w c =
    if is_empty c.current_room_name
    then w
    else leave_found_room w c (find_room w.rooms.nodes c.current_room_name)

-- `find_room`, then `add_room`.
unfoldable pub find_or_add_room : RoomList → Allocation → ℕ → Bytes → Option Room × RoomList
find_or_add_room l how now name = elim (find_room l.nodes name) [
  | some r ↦ (some r, l)
  | none ↦ add_room l how now name
]

-- The client in the first free slot.
unfoldable pub put_in : ℕ → ℕ → Room → Room
put_in now a r = elim (occupy a r.clients) [
  | none ↦ r
  | some slots ↦ record r {
    clients = slots;
    client_count = r.client_count + 1;
    last_activity = now;
  }
]

-- Every other client of the room is told.
unfoldable pub announce : World → ℤ → Client → Bytes → Room → Option World
announce w fd c start r =
    notify (respond w fd (join_success start r.client_count)) (some c.address) (joined c.username)
      r.clients

-- `strncpy` into `current_room_name`, and the index of the room.
unfoldable pub set_room : Bytes → ℤ → Client → Client
set_room name index c = record c {
  current_room_name = truncate (max_room_name_length + 1) name;
  current_room_index = index;
}

unfoldable pub seat : World → Bytes → ℕ → Client → World
unfolding set_room
seat w start now c =
    let w' = update_room w start (put_in now c.address) in
    update_client w' c.address (set_room start (get_room_index w'.rooms.nodes start))

enter_room : World → ℤ → Client → Bytes → ℕ → Option Room → Option World
unfolding announce seat
enter_room w fd c start now none = some (respond w fd room_create_failed)
enter_room w fd c start now (some r) =
    if leb max_clients_per_room r.client_count
    then some (respond w fd (room_full start))
    else elim (occupy c.address r.clients) [
      | none ↦ some (respond w fd no_slots)
      | some slots ↦ announce (seat w start now c) fd c start (put_in now c.address r)
    ]

-- The second half of the handler: from the search for the room on.
unfoldable pub join_room : World → ℤ → Client → Bytes → Resources → Option World
unfolding enter_room
join_room w fd c start res =
    let (target, rooms) = find_or_add_room w.rooms res.room res.now start in
    enter_room (record w { rooms = rooms }) fd c start res.now target

-- The checks of the name, in the order of the code.
unfoldable pub join_checked : World → ℤ → Client → Bytes → Resources → Option World
join_checked w fd c start res =
    if is_empty start
    then some (respond w fd room_name_empty)
    else if ltb max_room_name_length (length start)
    then some (respond w fd room_name_too_long)
    else if not (all_alnum start)
    then some (respond w fd room_name_format)
    else if not (is_empty c.current_room_name) && eq_bytes c.current_room_name start
    then some (respond w fd (already_in_room start))
    else join_room (leave_old_room w c) fd c start res

unfoldable pub handle_join_command : World → ℤ → Bytes → Resources → Option World
unfolding join_checked
handle_join_command w fd room_name res =
    if is_empty room_name
    then some (respond w fd usage_join)
    else elim (find_client_by_socket w.clients.nodes fd) [
      | none ↦ some (respond w fd unidentified_client)
      | some c ↦ join_checked w fd c (clean_room_name room_name) res
    ]
