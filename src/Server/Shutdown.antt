-- ===== src/Server/Shutdown.antt =====
-- server/server.c, `main`, and the end of the server in server/server_helper.c: `handle_sigint`,
-- `shutdown_all_clients` and `notify_file_transfer_shutdown`.
pub mod Mail
use tcp_chat_server_c.Base.{
  Bool, List, Option, [], eq_int, false, if◌then◌else◌, is_neg, ltb, negsuc, none, not, some, suc,
  zero, ℕ, ℤ, ◌&&◌, ◌++◌, ◌==◌, ◌||◌, ◌∷◌,
}
use tcp_chat_server_c.CString.{Bytes}
use tcp_chat_server_c.Wire.{Net, closed, send_message}
use tcp_chat_server_c.Clients.{Arrival, Client, cleanup_clients, count_clients}
use tcp_chat_server_c.Rooms.{cleanup_rooms}
use tcp_chat_server_c.Replies.{abort_download, abort_upload, render, server_shutdown}
use tcp_chat_server_c.FileQueue.{Item, abort_all_file_transfers, get_file_queue_count}
use tcp_chat_server_c.Server.{World}

-- `for (int i = 0; i < global_file_queue.count; i++) { ... }`
unfoldable pub abort_notices : ℕ → List Item → Net → Net
abort_notices zero items net = net
abort_notices (suc n) [] net = net
abort_notices (suc n) (it ∷ items) net =
    let (sent, net1) =
      send_message net it.sender_socket (render (abort_upload it.filename it.receiver_username)) in
    let (sent', net2) =
      send_message net1 it.receiver_socket
        (render (abort_download it.filename it.sender_username)) in
    abort_notices n items net2

unfoldable pub notify_file_transfer_shutdown : World → World
unfolding abort_notices
notify_file_transfer_shutdown w =
    if w.queue.count == 0
    then w
    else record w { net = abort_notices w.queue.count w.queue.items w.net }

-- `while (current) { if (current->is_active && current->socket_fd >= 0) ... }`
unfoldable pub shutdown_notices : List Client → Net → Net
shutdown_notices [] net = net
shutdown_notices (c ∷ cs) net = shutdown_notices cs (
    if c.is_active && not (is_neg c.socket_fd)
    then (send_message net c.socket_fd (render server_shutdown)).1
    else net)

abort_transfers : World → World
abort_transfers w = record w { queue = abort_all_file_transfers w.queue }

notify_clients : World → World
unfolding shutdown_notices
notify_clients w = record w { net = shutdown_notices w.clients.nodes w.net }

unfoldable pub shutdown_all_clients : World → World
unfolding notify_clients abort_transfers notify_file_transfer_shutdown
shutdown_all_clients w =
    if ltb 0 (get_file_queue_count w.queue)
    then notify_clients (abort_transfers (notify_file_transfer_shutdown w))
    else notify_clients w

unfoldable pub count_active_threads : World → ℕ
count_active_threads w = count_clients w.clients

-- The globals of `main` beside the shared state: `current_thread_data` is the socket of the
-- connection that is being set up.
pub record ServerState : Type 0 where
  pub world : World
  pub server_running : Bool
  pub server_socket : ℤ
  pub pending : Option ℤ

close_unless_none : ℤ → World → World
close_unless_none fd w = if is_neg fd then w else record w { closed = w.closed ++ fd ∷ [] }

unfoldable pub drop_pending : ServerState → ServerState
unfolding close_unless_none
drop_pending s = elim s.pending [
  | none ↦ s
  | some fd ↦ record s { pending = none; world = close_unless_none fd s.world }
]

-- `cleanup_file_queue(); cleanup_clients(); cleanup_rooms();`
unfoldable pub cleanup_all : World → World
unfolding cleanup_clients cleanup_rooms
cleanup_all w = record w {
  queue = abort_all_file_transfers w.queue;
  clients = (cleanup_clients w.clients).1;
  rooms = cleanup_rooms w.rooms;
  closed = w.closed ++ (cleanup_clients w.clients).0;
}

unfoldable pub cleanup_server : ServerState → ServerState
cleanup_server s = if eq_int s.server_socket (negsuc 0) then s else record s {
  world = record s.world { closed = s.world.closed ++ s.server_socket ∷ [] };
  server_socket = negsuc 0;
}

-- `others` is what the other threads do while the handler waits.
wait_for_clients : (World → World) → ServerState → ServerState
unfolding shutdown_all_clients
wait_for_clients others s =
    if ltb 0 (count_active_threads s.world) || ltb 0 (get_file_queue_count s.world.queue)
    then record s { world = others (shutdown_all_clients s.world) }
    else s

-- The state in which the handler calls `exit`.
unfoldable pub handle_sigint : (World → World) → ServerState → ServerState
unfolding cleanup_server cleanup_all wait_for_clients drop_pending
handle_sigint others s =
    let waited = wait_for_clients others (drop_pending (record s { server_running = false })) in
    cleanup_server (record waited { world = cleanup_all waited.world })

-- The end of `main`.
unfoldable pub finish_main : (World → World) → ServerState → ServerState
unfolding cleanup_server cleanup_all shutdown_all_clients
finish_main others s =
    let told =
      if ltb 0 (count_active_threads s.world)
      then record s { world = others (shutdown_all_clients s.world) }
      else s in
    cleanup_server (record told { world = cleanup_all told.world })

-- What a turn of the accept loop gets: from `malloc`, `accept`, `inet_ntop` and `pthread_create`.
pub record Connection : Type 0 where
  pub memory : Bool
  pub socket : ℤ
  pub ip : Bytes
  pub port : ℕ
  pub thread : Option ℕ

started_thread : ServerState → Connection → Option ℕ → Option Arrival × ServerState
unfolding close_unless_none
started_thread s c none = (
  none,
  record s { pending = none; world = record s.world { closed = s.world.closed ++ c.socket ∷ [] } },
)
started_thread s c (some thread_id) = (
  some (record {
    socket_fd = c.socket;
    thread_id = thread_id;
    client_ip = some c.ip;
    client_port = c.port;
    file_path = none;
  }),
  record s { pending = none },
)

-- A turn of `while (server_running) { ... }`, with what the new thread is given by
-- `setup_client_connection`.
unfoldable pub accept_turn : ServerState → Connection → Option Arrival × ServerState
unfolding started_thread
accept_turn s c =
    if not c.memory
    then (none, s)
    else if is_neg c.socket
    then (none, record s { pending = none })
    else started_thread s c c.thread
