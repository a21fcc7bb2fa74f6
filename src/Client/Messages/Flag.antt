-- ===== src/Client/Messages/Flag.antt =====
-- The receiving thread never sets `client_running` again.
use tcp_chat_server_c.Base.{Option, drop, leb_zero, none, refl, some}
use tcp_chat_server_c.CString.{Bytes, codes, cstr, split_at, starts_with}
use tcp_chat_server_c.Wire.{receive_message}
use tcp_chat_server_c.Client.{Session}
use tcp_chat_server_c.Client.Messages.{
  Files, MessageTurn, SocketWake, download_ended, hang_up_client, hangs_up, listens, on_message,
  on_received, on_socket, on_upload_request, socket_failed, socket_interrupted, socket_quiet,
  socket_ready, upload_ended,
}
use tcp_chat_server_c.Client.Input.Flag.{Cleared, Cleared-if}

abbrev pub heard_by : MessageTurn → Session
heard_by (listens shown s) = s
heard_by (hangs_up s) = s

on_upload_request-Cleared :
    (f : Files) (s : Session) (o : Option (Bytes × Bytes))
    → Cleared s
    → Cleared (heard_by (on_upload_request f s o))
unfolding on_upload_request upload_ended
on_upload_request-Cleared f s none h = h
on_upload_request-Cleared f s (some (filename, target)) h = h

on_message-Cleared :
    (f : Files) (s : Session) (text : Bytes) → Cleared s → Cleared (heard_by (on_message f s text))
unfolding on_message download_ended hang_up_client
on_message-Cleared f s text h =
    Cleared-if heard_by (starts_with (codes "FILE_UPLOAD_REQUEST:") text) _ _
      (on_upload_request-Cleared f s (split_at b':' (drop 20 text)) h)
      (Cleared-if heard_by (starts_with (codes "FILE_DOWNLOAD:") text) _ _ h (
        Cleared-if heard_by (starts_with (codes "FILE_TRANSFER_ABORT") text) _ _ h
          (Cleared-if heard_by (starts_with (codes "SERVER_SHUTDOWN") text) _ _ refl h)))

pub on_socket-Cleared :
    (s : Session) (wake : SocketWake) → Cleared s → Cleared (heard_by (on_socket s wake))
unfolding on_socket on_received hang_up_client
on_socket-Cleared s socket_interrupted h = h
on_socket-Cleared s socket_quiet h = h
on_socket-Cleared s socket_failed h = refl
on_socket-Cleared s (socket_ready f) h =
    let (code, buffer, net) = receive_message s.net s.client_socket 4096 in
    Cleared-if heard_by (leb_zero code) _ _ refl
      (on_message-Cleared f (record s { net = net }) (cstr buffer) h)
