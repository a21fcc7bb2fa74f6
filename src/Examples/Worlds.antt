-- ===== src/Examples/Worlds.antt =====
-- A server with two clients in a room and a third one in none.
use tcp_chat_server_c.Base.{[], false, none, pos, refl, replicate, some, true, ℕ, ℤ, ◌∷◌}
use tcp_chat_server_c.CString.{Bytes, eq_bytes}
use tcp_chat_server_c.Wire.{Net}
use tcp_chat_server_c.Wire.Examples.{hand_over}
use tcp_chat_server_c.Search.{find_first}
use tcp_chat_server_c.Clients.{Client}
use tcp_chat_server_c.Rooms.{Room, allocated, occupies}
use tcp_chat_server_c.FileQueue.{FileQueue}
use tcp_chat_server_c.Server.{Resources, World}
use tcp_chat_server_c.Safety.{IsValid}

-- A kernel that takes all that it is given and hands over the stream.
abbrev pub open_net : Bytes → Net
open_net stream = record {
  send_result = λ n fd len. pos len;
  recv_result = hand_over 100 stream;
  sends = 0;
  recvs = [];
  wire = [];
}

abbrev pub client : ℕ → Bytes → ℤ → Bytes → Client
client address name fd room = record {
  address = address;
  username = name;
  socket_fd = fd;
  thread_id = address;
  current_room_name = room;
  current_room_index = pos 0;
  client_ip = [];
  client_port = 5000;
  login_time = 0;
  current_file_path = [];
  is_active = true;
  is_uploading = false;
  is_downloading = false;
}

abbrev pub lobby_name : Bytes
lobby_name = b'h' ∷ b'a' ∷ b'l' ∷ b'l' ∷ []

abbrev pub attic_name : Bytes
attic_name = b't' ∷ b'o' ∷ b'p' ∷ []

abbrev pub ann : Client
ann = client 1 (b'a' ∷ b'n' ∷ b'n' ∷ []) (pos 4) lobby_name

abbrev pub bob : Client
bob = client 2 (b'b' ∷ b'o' ∷ b'b' ∷ []) (pos 5) lobby_name

abbrev pub cat : Client
cat = client 3 (b'c' ∷ b'a' ∷ b't' ∷ []) (pos 6) []

abbrev pub lobby : Room
lobby = record {
  room_name = lobby_name;
  created_time = 0;
  clients = some 1 ∷ some 2 ∷ replicate 13 none;
  client_count = 2;
  total_messages_sent = 0;
  last_activity = 0;
}

abbrev pub no_files : FileQueue
no_files = record { items = []; count = 0 }

abbrev pub hall : World
hall = record {
  clients = record { nodes = cat ∷ bob ∷ ann ∷ []; active_client_count = 3 };
  rooms = record { nodes = lobby ∷ []; total_room_count = 1 };
  queue = no_files;
  net = open_net [];
  closed = [];
}

abbrev pub at_noon : Resources
at_noon = record { now = 43200; room = allocated; args_memory = true; file_memory = true }

pub hall-IsValid : IsValid hall
unfolding eq_bytes occupies find_first
hall-IsValid = record {
  clients = record {
    addresses = (refl, (refl, (refl, tt)));
    usernames = (refl, (refl, (refl, tt)));
    active = (refl, (refl, (refl, tt)));
    count = refl;
  };
  rooms = record {
    names = (refl, tt);
    rooms =
        (record { slots = refl; counted = refl; once = (refl, (refl, tt)); named = λ e. cc }, tt);
    total = refl;
  };
  seats = (((ann, refl, refl), ((bob, refl, refl), tt)), tt);
}
