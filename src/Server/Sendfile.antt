-- ===== src/Server/Sendfile.antt =====
-- `handle_sendfile_command`: the request to the sender's program, the upload into memory, the place
-- in the queue, and the download to the receiver.
pub mod Safe
pub mod Queue
use tcp_chat_server_c.Base.{
  Bool, Option, eq_int, false, if◌then◌else◌, length, negsuc, none, not, pos, some, success, true,
  ℕ, ℤ, ◌==◌, ◌||◌,
}
use tcp_chat_server_c.CString.{Bytes, eq_bytes, is_empty, skip, split_at, trim_end}
use tcp_chat_server_c.Wire.{Net, send_message}
use tcp_chat_server_c.Clients.{Client, find_client_by_socket, find_client_by_username}
use tcp_chat_server_c.Replies.{
  Reply, file_type, initiate_failed, queue_failed, queue_full, receive_failed, render,
  sendfile_empty, sendfile_self, server_memory, transfer_failed, transfer_success,
  unidentified_sender, upload_request, usage_sendfile, user_offline,
}
use tcp_chat_server_c.FileQueue.{
  FileQueue, add_to_file_queue, is_file_queue_full, new_item, remove_from_file_queue,
  validate_file_extension,
}
use tcp_chat_server_c.FileTransfer.{receive_file_from_client, send_file_to_client}
use tcp_chat_server_c.Server.{Resources, World, respond}

is_space : ℕ → Bool
is_space c = c == b' '

-- `remove_from_file_queue` frees the data and closes the gap, after the sender is told.
finish_transfer : World → ℤ → ℤ → Reply → World
finish_transfer w fd index reply =
    let w' = respond w fd reply in record w' { queue = (remove_from_file_queue w'.queue index).1 }

transferred : World → ℤ → ℤ → Bytes → Bytes → Bytes → Bool × Net → World
unfolding finish_transfer
transferred w fd index filename target file_data (true, net) =
    finish_transfer (record w { net = net }) fd index
      (transfer_success filename target (length file_data))
transferred w fd index filename target file_data (false, net) =
    finish_transfer (record w { net = net }) fd index (transfer_failed filename target)

-- After `add_to_file_queue`.
queued : World → ℤ → Client → Client → Bytes → Bytes → Bytes → ℤ × FileQueue → World
unfolding transferred
queued w fd sender receiver filename target file_data (negsuc n, queue) =
    respond (record w { queue = queue }) fd queue_failed
queued w fd sender receiver filename target file_data (pos index, queue) =
    transferred (record w { queue = queue }) fd (pos index) filename target file_data
      (send_file_to_client w.net receiver.socket_fd filename sender.username file_data)

-- After `receive_file_from_client`.
uploaded : World → ℤ → Client → Client → ℕ → Bytes → Bytes → Option Bytes × Net → World
unfolding queued
uploaded w fd sender receiver now filename target (none, net) =
    respond (record w { net = net }) fd receive_failed
uploaded w fd sender receiver now filename target (some file_data, net) =
    queued (record w { net = net }) fd sender receiver filename target file_data
      (add_to_file_queue w.queue (
        new_item filename sender.username receiver.username (some file_data) (length file_data) now
          sender.socket_fd receiver.socket_fd))

-- After the upload request.
requested : World → ℤ → Client → Client → Resources → Bytes → Bytes → ℤ × Net → World
unfolding uploaded
requested w fd sender receiver res filename target (code, net) =
    if eq_int code success
    then uploaded (record w { net = net }) fd sender receiver res.now filename target
        (receive_file_from_client res.file_memory net fd)
    else respond (record w { net = net }) fd initiate_failed

send_to : World → ℤ → Client → Resources → Bytes → Bytes → Option Client → World
unfolding requested
send_to w fd sender res filename target none = respond w fd (user_offline target)
send_to w fd sender res filename target (some receiver) =
    if not receiver.is_active
    then respond w fd (user_offline target)
    else if is_file_queue_full w.queue
    then respond w fd queue_full
    else requested w fd sender receiver res filename target
        (send_message w.net fd (render (upload_request filename target)))

sendfile_checked : World → ℤ → Client → Resources → Bytes → Bytes → World
unfolding send_to
sendfile_checked w fd sender res filename target =
    if is_empty filename || is_empty target
    then respond w fd sendfile_empty
    else if not (validate_file_extension filename)
    then respond w fd file_type
    else if eq_bytes sender.username target
    then respond w fd sendfile_self
    else send_to w fd sender res filename target (find_client_by_username w.clients.nodes target)

sendfile_from : World → ℤ → Client → Resources → Bytes → World
unfolding sendfile_checked is_space
sendfile_from w fd sender res args =
    if not res.args_memory then respond w fd server_memory else elim (split_at b' ' args) [
      | none ↦ respond w fd usage_sendfile
      | some (filename, target) ↦
          sendfile_checked w fd sender res (trim_end is_space filename)
            (trim_end is_space (skip is_space target))
    ]

unfoldable pub handle_sendfile_command : World → ℤ → Bytes → Resources → World
unfolding sendfile_from
handle_sendfile_command w fd args res =
    if is_empty args
    then respond w fd usage_sendfile
    else elim (find_client_by_socket w.clients.nodes fd) [
      | none ↦ respond w fd unidentified_sender
      | some sender ↦ sendfile_from w fd sender res args
    ]
