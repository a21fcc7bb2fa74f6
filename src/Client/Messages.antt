-- ===== src/Client/Messages.antt =====
-- client/client.c, `receive_thread`: the messages of the server, one turn of its loop at a time.
pub mod Arrival
pub mod Delivery
pub mod Shutdown
pub mod Flag
use tcp_chat_server_c.Base.{
  Bool, List, Option, [], drop, false, if◌then◌else◌, leb_zero, none, some, ℕ, ℤ, ◌∷◌,
}
use tcp_chat_server_c.CString.{Bytes, codes, cstr, split_at, starts_with}
use tcp_chat_server_c.Wire.{Net, receive_message}
use tcp_chat_server_c.Client.{Session}
use tcp_chat_server_c.Client.Commands.{FileSystem}
use tcp_chat_server_c.Client.Upload.{OpenFile, upload_file_to_server}
use tcp_chat_server_c.Client.Download.{Disk, DownloadEnd, receive_file_from_server}

-- What `select` reports, and, where there is something to read, the files as the turn finds them:
-- those of `stat`, the one to upload, the one to write, and the bound on the calls of `write` for
-- one chunk.
pub record Files : Type 0 where
  pub files : FileSystem
  pub to_read : OpenFile
  pub to_write : Disk
  pub patience : ℕ

pub data SocketWake : Type 0 where
  socket_interrupted socket_quiet socket_failed : SocketWake
  socket_ready : Files → SocketWake

-- What the user is told, with the file that was saved.
pub data Shown : Type 0 where
  text_shown abort_shown : Bytes → Shown
  upload_shown : Bytes → Bool → Shown
  download_shown : DownloadEnd → Shown

-- The loop goes on, or has ended.
pub data MessageTurn : Type 0 where
  listens : Option Shown → Session → MessageTurn
  hangs_up : Session → MessageTurn

-- `client_running = 0; break;`
unfoldable pub hang_up_client : Session → MessageTurn
hang_up_client s = hangs_up (record s { client_running = false })

upload_ended : Session → Bytes → Bool × Net → MessageTurn
upload_ended s filename (ok, net) =
    listens (some (upload_shown filename ok)) (record s { net = net })

-- The name up to the colon; the target after it is only printed.
on_upload_request : Files → Session → Option (Bytes × Bytes) → MessageTurn
unfolding upload_ended
on_upload_request f s none = listens none s
on_upload_request f s (some (filename, target)) =
    upload_ended s filename (upload_file_to_server f.files f.to_read s.net s.client_socket filename)

unfoldable pub download_ended : Session → DownloadEnd × Net → MessageTurn
download_ended s (e, net) = listens (some (download_shown e)) (record s { net = net })

unfoldable pub on_message : Files → Session → Bytes → MessageTurn
unfolding on_upload_request download_ended hang_up_client
on_message f s text =
    if starts_with (codes "FILE_UPLOAD_REQUEST:") text
    then on_upload_request f s (split_at b':' (drop 20 text))
    else if starts_with (codes "FILE_DOWNLOAD:") text
    then download_ended s
        (receive_file_from_server f.patience f.to_write s.net s.client_socket text)
    else if starts_with (codes "FILE_TRANSFER_ABORT") text
    then listens (some (abort_shown text)) s
    else if starts_with (codes "SERVER_SHUTDOWN") text
    then hang_up_client s
    else listens (some (text_shown text)) s

unfoldable pub on_received : Files → Session → ℤ × Bytes × Net → MessageTurn
unfolding on_message
on_received f s (code, buffer, net) =
    if leb_zero code
    then hang_up_client (record s { net = net })
    else on_message f (record s { net = net }) (cstr buffer)

unfoldable pub on_socket : Session → SocketWake → MessageTurn
unfolding on_received
on_socket s socket_interrupted = listens none s
on_socket s socket_quiet = listens none s
on_socket s socket_failed = hang_up_client s
on_socket s (socket_ready f) = on_received f s (receive_message s.net s.client_socket 4096)

unfoldable pub receive_turn : Session → SocketWake → MessageTurn
unfolding on_socket
receive_turn s wake = if s.client_running then on_socket s wake else hangs_up s

-- `while (client_running) { ... }`, for the turns that are given, with what the user is told.
unfoldable pub receive_thread : Session → List SocketWake → List Shown × Session
receive_thread s [] = ([], s)
receive_thread s (wake ∷ wakes) = elim (receive_turn s wake) [
  | hangs_up s' ↦ ([], s')
  | listens none s' ↦ receive_thread s' wakes
  | listens (some shown) s' ↦ let (later, end) = receive_thread s' wakes in (shown ∷ later, end)
]
