-- ===== src/Clients.antt =====
-- server/dynamic_client.c: the registry of the connected clients.
-- A node's address stands for the pointer to it: the registry owns its nodes, so a pointer is good
-- exactly as long as a node with that address is in the list. Every function holds
-- `client_list_mutex` throughout, and is one step. The next pointers are the order of the list.
-- `active_client_count` goes down only where a node is unlinked; the code does not test it there.
pub mod Laws
use tcp_chat_server_c.Base.{
  Bool, List, Option, [], eq_int, failure, false, if◌then◌else◌, is_neg, negsuc, none, some,
  success, true, ℕ, ℤ, ◌&&◌, ◌+◌, ◌-◌, ◌==◌, ◌∷◌,
}
use tcp_chat_server_c.CString.{Bytes, codes, eq_bytes, truncate}
use tcp_chat_server_c.Search.{find_first, unlink_first, update_first}

-- `client_info_t`. Strings are the contents of the fixed arrays.
pub record Client : Type 0 where
  pub address : ℕ
  pub username : Bytes
  pub socket_fd : ℤ
  pub thread_id : ℕ
  pub current_room_name : Bytes
  pub current_room_index : ℤ
  pub client_ip : Bytes
  pub client_port : ℕ
  pub login_time : ℕ
  pub current_file_path : Bytes
  pub is_active : Bool
  pub is_uploading : Bool
  pub is_downloading : Bool

-- `client_list_head` and `active_client_count`.
pub record ClientList : Type 0 where
  pub nodes : List Client
  pub active_client_count : ℕ

unfoldable pub init_clients : ClientList
init_clients = record { nodes = []; active_client_count = 0 }

open_sockets : List Client → List ℤ
open_sockets [] = []
open_sockets (c ∷ cs) =
    if is_neg c.socket_fd then open_sockets cs else c.socket_fd ∷ open_sockets cs

-- The sockets that are closed, and the registry afterwards.
unfoldable pub cleanup_clients : ClientList → List ℤ × ClientList
unfolding open_sockets init_clients
cleanup_clients l = (open_sockets l.nodes, init_clients)

-- sizeof of `username`, `client_ip` (INET_ADDRSTRLEN) and `current_file_path` (MAX_PATH_LENGTH).
abbrev pub username_size : ℕ
username_size = 17

abbrev client_ip_size : ℕ
client_ip_size = 16

abbrev file_path_size : ℕ
file_path_size = 1024

-- A null pointer is `none`.
copy_or : ℕ → Bytes → Option Bytes → Bytes
copy_or size default none = default
copy_or size default (some s) = truncate size s

-- The arguments of `add_client`, but for the username.
pub record Arrival : Type 0 where
  pub socket_fd : ℤ
  pub thread_id : ℕ
  pub client_ip : Option Bytes
  pub client_port : ℕ
  pub file_path : Option Bytes

unfoldable pub new_client : ℕ → ℕ → Bytes → Arrival → Client
unfolding copy_or
new_client address now username a = record {
  address = address;
  username = truncate username_size username;
  socket_fd = a.socket_fd;
  thread_id = a.thread_id;
  current_room_name = [];
  current_room_index = negsuc 0;
  client_ip = copy_or client_ip_size (codes "unknown") a.client_ip;
  client_port = a.client_port;
  login_time = now;
  current_file_path = copy_or file_path_size (codes ".") a.file_path;
  is_active = true;
  is_uploading = false;
  is_downloading = false;
}

unfoldable pub link_client : ClientList → Client → ClientList
link_client l c = record { nodes = c ∷ l.nodes; active_client_count = l.active_client_count + 1 }

-- `malloc` gives an address or nothing; `now` is `time(NULL)`. Returns the new node.
unfoldable pub add_client :
    ClientList → Option ℕ → ℕ → Option Bytes → Arrival → Option Client × ClientList
unfolding link_client new_client
add_client l fresh now none a = (none, l)
add_client l none now (some username) a = (none, l)
add_client l (some address) now (some username) a = if is_neg a.socket_fd then (none, l) else (
  some (new_client address now username a),
  link_client l (new_client address now username a),
)

after_unlink : ClientList → Option (List Client) → ℤ × ClientList
after_unlink l none = (failure, l)
after_unlink l (some nodes) =
    (success, record { nodes = nodes; active_client_count = l.active_client_count - 1 })

abbrev pub has_socket : ℤ → Client → Bool
has_socket fd c = eq_int c.socket_fd fd

abbrev pub has_username : Bytes → Client → Bool
has_username name c = eq_bytes c.username name

abbrev pub has_address : ℕ → Client → Bool
has_address a c = c.address == a

unfoldable pub remove_client : ClientList → ℤ → ℤ × ClientList
unfolding after_unlink
remove_client l fd = after_unlink l (unlink_first (has_socket fd) l.nodes)

unfoldable pub remove_client_by_username : ClientList → Option Bytes → ℤ × ClientList
unfolding after_unlink
remove_client_by_username l none = (failure, l)
remove_client_by_username l (some name) = after_unlink l (unlink_first (has_username name) l.nodes)

unfoldable pub find_client_by_username : List Client → Bytes → Option Client
find_client_by_username nodes name =
    find_first (λ (c : Client). c.is_active && has_username name c) nodes

unfoldable pub find_client_by_socket : List Client → ℤ → Option Client
find_client_by_socket nodes fd = find_first (has_socket fd) nodes

-- `pthread_equal` on thread ids, which are numbers here.
unfoldable pub find_client_by_thread : List Client → ℕ → Option Client
find_client_by_thread nodes thread_id = find_first (λ (c : Client). c.thread_id == thread_id) nodes

-- A read through a pointer: `none` if it dangles.
abbrev pub client_at : ℕ → List Client → Option Client
client_at a nodes = find_first (has_address a) nodes

-- A write through a pointer.
abbrev pub write_client : ℕ → (Client → Client) → List Client → List Client
write_client a f nodes = update_first (has_address a) f nodes

unfoldable pub count_clients : ClientList → ℕ
count_clients l = l.active_client_count
