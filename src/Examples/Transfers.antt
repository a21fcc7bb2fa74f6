-- ===== src/Examples/Transfers.antt =====
-- The theorems about file transfers, at a kernel that hands the size over in one piece and then the
-- data.
use tcp_chat_server_c.Base.{[], ap, arith, negsuc, pos, refl, true, ℕ, ℤ, ◌%◌, ◌++◌, ◌^◌, ◌∷◌}
use tcp_chat_server_c.CString.{Bytes}
use tcp_chat_server_c.Wire.{Net, cap_received, htonl, recv}
use tcp_chat_server_c.Wire.Send.{frame}
use tcp_chat_server_c.Wire.Receive.{Serves}
use tcp_chat_server_c.Wire.Examples.{hand_over, hand_over-Serves, net_of}
use tcp_chat_server_c.Replies.{file_download, render}
use tcp_chat_server_c.FileQueue.{init_file_queue, max_file_size}
use tcp_chat_server_c.FileQueue.View.{init_file_queue-IsQueue}
use tcp_chat_server_c.FileQueue.Cycle.{Restored}
use tcp_chat_server_c.FileTransfer.{receive_file_from_client, send_file_to_client}
use tcp_chat_server_c.FileTransfer.Upload.{Uploaded, receive_file_from_client-Uploaded}
use tcp_chat_server_c.FileTransfer.Limit.{Bounded, receive_file_from_client-Bounded}
use tcp_chat_server_c.FileTransfer.Puts.{Puts}
use tcp_chat_server_c.FileTransfer.Download.{Honest, send_file_to_client-Puts}
use tcp_chat_server_c.Server.{World}
use tcp_chat_server_c.Server.Sendfile.{handle_sendfile_command}
use tcp_chat_server_c.Server.Sendfile.Queue.{handle_sendfile_command-Restored}
use tcp_chat_server_c.Examples.Worlds.{ann, at_noon, hall, open_net}

abbrev four_bytes : Bytes
four_bytes = 0 ∷ 0 ∷ 0 ∷ 2 ∷ []

abbrev pub contents : Bytes
contents = 7 ∷ 8 ∷ []

abbrev pub upload : Bytes
upload = four_bytes ++ contents

abbrev pub upload_net : Net
upload_net = record (net_of []) { recv_result = hand_over 4 upload }

abbrev pub upload_after : Net
upload_after = record upload_net { recvs = (pos 4, 4) ∷ [] }

pub upload-Serves : Serves (hand_over 4 upload) (pos 4) ((pos 4, 4) ∷ []) contents
upload-Serves =
    hand_over-Serves 4 upload (pos 4) 2 ((pos 4, 4) ∷ []) contents (omega arith) (omega arith) refl

receive_file_from_client-Uploaded_example :
    Uploaded upload_after (pos 4) contents [] (receive_file_from_client true upload_net (pos 4))
unfolding recv cap_received htonl max_file_size
receive_file_from_client-Uploaded_example =
    receive_file_from_client-Uploaded upload_net upload_after (pos 4) contents [] refl (omega arith)
      upload-Serves

receive_file_from_client-Bounded_example :
    Bounded (receive_file_from_client true upload_net (pos 4))
receive_file_from_client-Bounded_example = receive_file_from_client-Bounded true upload_net (pos 4)

abbrev to_nat : ℤ → ℕ
to_nat (pos n) = n
to_nat (negsuc n) = 0

pub open_net-Honest : Honest (open_net [])
open_net-Honest k fd len n e = omega (arith, ap to_nat e)

send_file_to_client-Puts_example :
    Puts
      (open_net [])
      (pos 5)
      (frame (render (file_download ann.username 2 ann.username))
        ++ (htonl (2 % 2 ^ 32) ++ contents))
      (send_file_to_client (open_net []) (pos 5) ann.username ann.username contents)
send_file_to_client-Puts_example =
    send_file_to_client-Puts (open_net []) (pos 5) ann.username ann.username contents
      open_net-Honest

-- `ann` sends a file to `bob`: the upload comes after the request.
abbrev sending : World
sending = record hall {
  queue = (init_file_queue true).1;
  net = record (open_net []) { recv_result = hand_over 4 upload };
}

abbrev a_file_to_bob : Bytes
a_file_to_bob = b'a' ∷ b'.' ∷ b't' ∷ b'x' ∷ b't' ∷ b' ' ∷ b'b' ∷ b'o' ∷ b'b' ∷ []

handle_sendfile_command-Restored_example :
    Restored sending.queue (handle_sendfile_command sending (pos 4) a_file_to_bob at_noon).queue
handle_sendfile_command-Restored_example =
    handle_sendfile_command-Restored sending (pos 4) a_file_to_bob at_noon
      (init_file_queue-IsQueue true)
