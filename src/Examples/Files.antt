-- ===== src/Examples/Files.antt =====
-- The theorems about the client's transfers and the shutdown.
use tcp_chat_server_c.Base.{
  List, [], arith, eq_int, false, none, pos, refl, suc, true, zero, ℕ, ◌++◌, ◌∷◌, ◌≡◌,
}
use tcp_chat_server_c.CString.{Bytes, codes, decimal, decimal_onto, truncate}
use tcp_chat_server_c.Wire.{
  Net, Received, after_recv, after_round, after_send, bytes_to_send, cap_received, closed, got,
  htonl, message_len, ntohl, receive_message, recv, recv_loop, send, send_loop, send_message,
  sent_to,
}
use tcp_chat_server_c.Wire.Send.{frame}
use tcp_chat_server_c.Wire.Examples.{hand_over-Serves}
use tcp_chat_server_c.Replies.{render, server_shutdown}
use tcp_chat_server_c.FileQueue.{max_file_size}
use tcp_chat_server_c.FileQueue.View.{view}
use tcp_chat_server_c.FileTransfer.{
  bytes_at, chunk_size, receive_file_from_client, send_chunks, send_file_to_client,
}
use tcp_chat_server_c.FileTransfer.Upload.{Uploaded}
use tcp_chat_server_c.Server.{World}
use tcp_chat_server_c.Server.Shutdown.{shutdown_all_clients}
use tcp_chat_server_c.Server.Shutdown.Mail.{Told, abort_mail, shutdown_all_clients-Told}
use tcp_chat_server_c.Client.{Session}
use tcp_chat_server_c.Client.Commands.{get_file_size, validate_local_file}
use tcp_chat_server_c.Client.Input.{no_input}
use tcp_chat_server_c.Client.Upload.{
  OpenFile, after_read, announced, upload_chunks, upload_file_to_server, upload_sized, uploaded,
}
use tcp_chat_server_c.Client.Upload.Content.{
  Uploadable, at_end, block, receive_file_from_client-upload_file_to_server,
}
use tcp_chat_server_c.Client.Download.{Disk}
use tcp_chat_server_c.Client.Download.Parse.{Printable}
use tcp_chat_server_c.Client.Messages.{Files, receive_turn, socket_quiet, socket_ready}
use tcp_chat_server_c.Client.Messages.Delivery.{Fetched, receive_turn-send_file_to_client}
use tcp_chat_server_c.Client.Messages.Shutdown.{Stopped, receive_turn-server_shutdown}
use tcp_chat_server_c.Client.Threads.{
  ClientEvent, ClientState, input_event, run_client, socket_event,
}
use tcp_chat_server_c.Client.Threads.End.{run_client-Ends}
use tcp_chat_server_c.Examples.Worlds.{ann, bob, hall, open_net}
use tcp_chat_server_c.Examples.Transfers.{
  contents, open_net-Honest, upload-Serves, upload_after, upload_net,
}
use tcp_chat_server_c.Examples.Client.{all_good, talking}

-- A file of two bytes, in one `read`.
abbrev two_bytes : ℕ → Received
two_bytes zero = got contents
two_bytes (suc k) = closed

abbrev opened : OpenFile
opened = record { opens = true; stats = true; reads = two_bytes }

opened-Uploadable : Uploadable all_good opened (b'a' ∷ []) contents
unfolding validate_local_file get_file_size max_file_size
opened-Uploadable = record {
  good = refl;
  size = refl;
  small = omega arith;
  opens = refl;
  stats = refl;
  holds = block 7 (8 ∷ []) [] refl (omega arith) refl at_end;
}

receive_file_from_client-upload_file_to_server_example :
    Uploaded upload_after (pos 4) contents [] (receive_file_from_client true upload_net (pos 4))
unfolding upload_file_to_server upload_sized validate_local_file get_file_size max_file_size
    announced upload_chunks after_read uploaded send_loop send after_send after_round cap_received
    htonl sent_to recv eq_int
receive_file_from_client-upload_file_to_server_example =
    receive_file_from_client-upload_file_to_server all_good opened (open_net []) upload_net
      upload_after (pos 4) (pos 4) (b'a' ∷ []) contents opened-Uploadable refl refl refl
      upload-Serves

-- The server's stream to `ann`: the frame of "FILE_DOWNLOAD:a:2:b", the size and the data.
abbrev download_header : Bytes
download_header =
    b'F' ∷ b'I' ∷ b'L' ∷ b'E' ∷ b'_' ∷ b'D' ∷ b'O' ∷ b'W' ∷ b'N' ∷ b'L' ∷ b'O' ∷ b'A' ∷ b'D' ∷ b':'
    ∷ b'a' ∷ b':' ∷ b'2' ∷ b':' ∷ b'b' ∷ []

abbrev download_stream : Bytes
download_stream = (0 ∷ 0 ∷ 0 ∷ 19 ∷ []) ++ download_header ++ (0 ∷ 0 ∷ 0 ∷ 2 ∷ []) ++ contents

abbrev blank_disk : Disk
blank_disk = record { opens = true; write_result = λ k len. pos len; writes = 0; saved = [] }

abbrev at_home : Files
at_home = record { files = all_good; to_read = opened; to_write = blank_disk; patience = 4096 }

abbrev waiting : Session
waiting = talking [] download_stream

abbrev after_calls : Net
after_calls = record (open_net download_stream) {
  recvs = (pos 4, 4) ∷ (pos 4, 19) ∷ (pos 4, 4) ∷ [];
}

a_b-Printable : Printable (b'a' ∷ []) (b'b' ∷ []) 2
unfolding decimal decimal_onto
a_b-Printable = record {
  some_name = omega arith;
  name_no_colon = (refl, tt);
  some_sender = omega arith;
  sender_no_colon = (refl, tt);
  fits = omega arith;
  small = omega arith;
}

receive_turn-send_file_to_client_example :
    Fetched waiting (b'a' ∷ []) contents (receive_turn waiting (socket_ready at_home))
unfolding send_file_to_client send_chunks bytes_at chunk_size send_message send_loop send after_send
    after_round htonl message_len bytes_to_send eq_int sent_to frame render codes decimal
    decimal_onto truncate receive_message recv_loop recv after_recv cap_received ntohl
receive_turn-send_file_to_client_example =
    receive_turn-send_file_to_client at_home waiting (open_net []) after_calls (pos 5) (b'a' ∷ [])
      (b'b' ∷ []) contents open_net-Honest refl refl refl refl
      (hand_over-Serves 100 download_stream (pos 4) 29 [] download_stream (omega arith)
        (omega arith) refl)
      refl
      (hand_over-Serves 100 download_stream (pos 4) 2 after_calls.recvs contents (omega arith)
        (omega arith) refl)
      a_b-Printable (refl, tt) (refl, tt) (omega arith) refl
      (λ k len h. (len, refl, h, omega arith))

-- A server with a transfer from `ann` to `bob` in its queue.
abbrev closing : World
closing = record hall {
  queue = record {
    items =
        record {
          filename = b'a' ∷ [];
          sender_username = ann.username;
          receiver_username = bob.username;
          file_data = none;
          file_size = 2;
          created_time = 0;
          sender_socket = pos 4;
          receiver_socket = pos 5;
        }
        ∷ [];
    count = 1;
  };
}

shutdown_all_clients-Told_example : Told closing (shutdown_all_clients closing)
unfolding view abort_mail eq_int
shutdown_all_clients-Told_example =
    shutdown_all_clients-Told closing (λ n fd len. refl) (refl, (refl, tt))

abbrev told : Session
told = talking [] (frame (render server_shutdown))

receive_turn-server_shutdown_example : Stopped told at_home
unfolding frame render codes htonl message_len bytes_to_send eq_int
receive_turn-server_shutdown_example = receive_turn-server_shutdown at_home told [] refl refl (
    hand_over-Serves 100 (frame (render server_shutdown)) (pos 4) 63 []
      (frame (render server_shutdown) ++ []) (omega arith) (omega arith) refl)

-- The flag is cleared while both threads wait.
abbrev ending : ClientState
ending = record {
  session = record told { client_running = false };
  input_ended = false;
  messages_ended = false;
  shown = [];
}

abbrev last_steps : List ClientEvent
last_steps = socket_event socket_quiet ∷ input_event no_input ∷ []

run_client-Ends_example :
    ((run_client all_good ending last_steps).session.client_running ≡ false)
    × ((run_client all_good ending last_steps).input_ended ≡ true)
    × ((run_client all_good ending last_steps).messages_ended ≡ true)
run_client-Ends_example = run_client-Ends all_good ending last_steps refl refl refl
