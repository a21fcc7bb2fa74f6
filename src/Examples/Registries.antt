-- ===== src/Examples/Registries.antt =====
-- The theorems about the registries, the queue and the messages, at concrete values.
use tcp_chat_server_c.Base.{
  [], arith, eq_int, length, none, pos, refl, some, success, true, ◌<◌, ◌↔◌, ◌∷◌, ◌≡◌, ◌≢◌, ◌≤◌,
}
use tcp_chat_server_c.CString.{eq_bytes}
use tcp_chat_server_c.Wire.{out_of_fuel, send_loop, send_message}
use tcp_chat_server_c.Wire.Sent.{Sent}
use tcp_chat_server_c.Wire.Send.{frame, send_loop-fuel}
use tcp_chat_server_c.Wire.Reliable.{send_message-Reliable}
use tcp_chat_server_c.Wire.Examples.{net_of}
use tcp_chat_server_c.Search.{All, find_first}
use tcp_chat_server_c.Clients.{Arrival, add_client, find_client_by_username}
use tcp_chat_server_c.Clients.Laws.{IsClients, add_client-IsClients}
use tcp_chat_server_c.Rooms.{add_room, allocated, max_room_name_length, remove_room}
use tcp_chat_server_c.Rooms.Laws.{IsRooms}
use tcp_chat_server_c.Rooms.Changes.{
  AddsRoom, RemovesRoom, add_room-AddsRoom, remove_room-RemovesRoom,
}
use tcp_chat_server_c.FileQueue.{
  FileQueue, Item, add_to_file_queue, init_file_queue, new_item, remove_from_file_queue,
}
use tcp_chat_server_c.FileQueue.View.{
  Refines, add_to_file_queue-Refines, init_file_queue-IsQueue, pull, push,
  remove_from_file_queue-Refines, view,
}
use tcp_chat_server_c.Server.Join.{clean_room_name}
use tcp_chat_server_c.Server.Connection.{validate_username}
use tcp_chat_server_c.Server.Join.Outcome.{length-clean_room_name}
use tcp_chat_server_c.Server.Connection.Username.{IsLetterOrDigit, validate_username_iff}
use tcp_chat_server_c.Examples.Worlds.{attic_name, hall, hall-IsValid, lobby_name, open_net}

abbrev a_file : Item
a_file = new_item (b'a' ∷ []) (b'b' ∷ []) (b'c' ∷ []) (some (1 ∷ [])) 1 0 (pos 4) (pos 5)

abbrev empty_queue : FileQueue
empty_queue = (init_file_queue true).1

abbrev one_file : FileQueue
one_file = (add_to_file_queue empty_queue a_file).1

add_to_file_queue-Refines_example :
    Refines (add_to_file_queue empty_queue a_file) (push (view empty_queue) a_file)
add_to_file_queue-Refines_example =
    add_to_file_queue-Refines empty_queue a_file (init_file_queue-IsQueue true)

remove_from_file_queue-Refines_example :
    Refines (remove_from_file_queue one_file (pos 0)) (pull (view one_file) (pos 0))
remove_from_file_queue-Refines_example =
    remove_from_file_queue-Refines one_file (pos 0)
      (add_to_file_queue-Refines empty_queue a_file (init_file_queue-IsQueue true)).ok

add_room-AddsRoom_example :
    AddsRoom hall.rooms allocated attic_name (add_room hall.rooms allocated 60 attic_name)
    × IsRooms (add_room hall.rooms allocated 60 attic_name).1
add_room-AddsRoom_example =
    add_room-AddsRoom hall.rooms allocated 60 attic_name (λ e. cc) (omega arith) hall-IsValid.rooms

remove_room-RemovesRoom_example :
    RemovesRoom hall.rooms lobby_name (remove_room hall.rooms lobby_name)
    × IsRooms (remove_room hall.rooms lobby_name).1
remove_room-RemovesRoom_example = remove_room-RemovesRoom hall.rooms lobby_name hall-IsValid.rooms

abbrev newcomer : Arrival
newcomer = record {
  socket_fd = pos 7;
  thread_id = 9;
  client_ip = none;
  client_port = 5000;
  file_path = none;
}

add_client-IsClients_example :
    IsClients (add_client hall.clients (some 4) 60 (some (b'd' ∷ b'a' ∷ b'n' ∷ [])) newcomer).1
unfolding find_first eq_bytes find_client_by_username
add_client-IsClients_example =
    add_client-IsClients hall.clients 4 60 (b'd' ∷ b'a' ∷ b'n' ∷ []) newcomer (omega arith) refl
      refl hall-IsValid.clients

length-clean_room_name_example : length (clean_room_name attic_name) ≤ max_room_name_length
length-clean_room_name_example = length-clean_room_name attic_name

send_loop-fuel_example : (send_loop 2 (net_of []) (pos 3) (1 ∷ 2 ∷ [])).0 ≢ out_of_fuel
send_loop-fuel_example = send_loop-fuel 2 (net_of []) (pos 3) (1 ∷ 2 ∷ []) (omega arith)

send_message-Reliable_example :
    ((send_message (open_net []) (pos 3) (1 ∷ [])).0 ≡ success)
    × Sent (open_net []) (send_message (open_net []) (pos 3) (1 ∷ [])).1 (pos 3) (frame (1 ∷ []))
unfolding eq_int
send_message-Reliable_example =
    send_message-Reliable (open_net []) (pos 3) (1 ∷ []) (λ n fd len. refl) refl

validate_username_iff_example :
    (validate_username (b'a' ∷ b'1' ∷ []) ≡ true)
    ↔ ((0 < 2) × (2 ≤ 16) × All IsLetterOrDigit (b'a' ∷ b'1' ∷ []))
validate_username_iff_example = validate_username_iff (b'a' ∷ b'1' ∷ [])
