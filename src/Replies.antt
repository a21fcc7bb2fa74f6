-- ===== src/Replies.antt =====
-- The texts that the server sends, by the formats and buffer sizes of server/server_helper.c and
-- server/file_transfer.c.
use tcp_chat_server_c.Base.{[], ℕ, ◌++◌, ◌∷◌}
use tcp_chat_server_c.CString.{Bytes, codes, decimal, truncate}

pub data Reply : Type 0 where
  usage_join unidentified_client room_name_empty room_name_too_long room_name_format : Reply
  already_in_room : Bytes → Reply
  room_create_failed no_slots : Reply
  room_full : Bytes → Reply
  join_success : Bytes → ℕ → Reply
  joined : Bytes → Reply
  not_in_room room_gone not_registered : Reply
  left_room : Bytes → Reply
  leave_success : Bytes → Reply
  disconnected : Bytes → Reply
  usage_broadcast unidentified_sender broadcast_outside broadcast_room_gone broadcast_empty : Reply
  broadcast : Bytes → Bytes → Bytes → Reply
  broadcast_success : ℕ → Bytes → Reply
  broadcast_partial : ℕ → ℕ → Bytes → Reply
  usage_whisper whisper_empty whisper_self whisper_failed : Reply
  user_offline : Bytes → Reply
  whisper : Bytes → Bytes → Bytes → Reply
  whisper_sent : Bytes → Reply
  usage_sendfile server_memory sendfile_empty file_type sendfile_self queue_full : Reply
  upload_request : Bytes → Bytes → Reply
  initiate_failed receive_failed queue_failed : Reply
  transfer_success : Bytes → Bytes → ℕ → Reply
  transfer_failed : Bytes → Bytes → Reply
  file_download : Bytes → ℕ → Bytes → Reply
  empty_command : Reply
  unknown_command : Bytes → Reply
  invalid_username username_taken server_error login_success : Reply
  abort_upload abort_download : Bytes → Bytes → Reply
  server_shutdown : Reply

quoted : Bytes → Bytes
quoted s = codes "'" ++ s ++ codes "'"

-- The bytes of " → " in UTF-8.
arrow : Bytes
arrow = b' ' ∷ 0xe2 ∷ 0x86 ∷ 0x92 ∷ b' ' ∷ []

-- `snprintf` into a buffer of `size` bytes, or the literal itself.
unfoldable pub render : Reply → Bytes
unfolding quoted arrow
render usage_join = codes "ERROR Usage: /join <room_name>"
render unidentified_client = codes "ERROR Unable to identify client"
render room_name_empty = codes "ERROR Room name cannot be empty"
render room_name_too_long = truncate 128 (codes "ERROR Room name too long (max 32 characters)")
render room_name_format =
    codes "ERROR Room name must be alphanumeric only (no spaces or special characters)"
render (already_in_room room) = truncate 256 (codes "INFO You are already in room " ++ quoted room)
render room_create_failed = codes "ERROR Failed to create room"
render no_slots = codes "ERROR Room is full (no available slots)"
render (room_full room) =
    truncate 256 (codes "ERROR Room " ++ quoted room ++ codes " is full (15/15 clients)")
render (join_success room n) = truncate 256 (
    codes "JOIN_SUCCESS Joined room "
    ++ quoted room
    ++ codes " ("
    ++ decimal n
    ++ codes "/15 clients)")
render (joined user) = truncate 256 (codes "ROOM_NOTIFICATION " ++ user ++ codes " joined the room")
render not_in_room = codes "ERROR You are not in any room"
render room_gone = codes "ERROR Room no longer exists"
render not_registered = codes "ERROR You were not properly registered in the room"
render (left_room user) =
    truncate 256 (codes "ROOM_NOTIFICATION " ++ user ++ codes " left the room")
render (leave_success room) = truncate 256 (codes "LEAVE_SUCCESS Left room " ++ quoted room)
render (disconnected user) =
    truncate 256 (codes "ROOM_NOTIFICATION " ++ user ++ codes " disconnected")
render usage_broadcast = codes "ERROR Usage: /broadcast <message>"
render unidentified_sender = codes "ERROR Unable to identify sender"
render broadcast_outside = codes "ERROR You must join a room first to broadcast messages"
render broadcast_room_gone = codes "ERROR Room no longer exists. Please join a room first."
render broadcast_empty = codes "ERROR Broadcast message cannot be empty"
render (broadcast user room text) =
    truncate 1200 (codes "BROADCAST [" ++ user ++ codes "@" ++ room ++ codes "]: " ++ text)
render (broadcast_success total room) = truncate 256 (
    codes "BROADCAST_SUCCESS Message delivered to "
    ++ decimal total
    ++ codes " recipient(s) in room "
    ++ quoted room)
render (broadcast_partial sent total room) = truncate 256 (
    codes "BROADCAST_PARTIAL Message delivered to "
    ++ decimal sent
    ++ codes "/"
    ++ decimal total
    ++ codes " recipient(s) in room "
    ++ quoted room)
render usage_whisper = codes "ERROR Usage: /whisper <username> <message>"
render whisper_empty = codes "ERROR Message cannot be empty"
render whisper_self = codes "ERROR Cannot whisper to yourself"
render whisper_failed = codes "ERROR Failed to deliver whisper"
render (user_offline user) =
    truncate 256 (codes "ERROR User " ++ quoted user ++ codes " not found or offline")
render (whisper sender target text) =
    truncate 1024 (codes "WHISPER [" ++ sender ++ arrow ++ target ++ codes "]: " ++ text)
render (whisper_sent user) = truncate 256 (codes "WHISPER_SENT Whisper sent to " ++ user)
render usage_sendfile = codes "ERROR Usage: /sendfile <filename> <username>"
render server_memory = codes "ERROR Server memory error"
render sendfile_empty = codes "ERROR Filename and username cannot be empty"
render file_type = codes "ERROR Invalid file type. Allowed: .txt, .pdf, .jpg, .png"
render sendfile_self = codes "ERROR Cannot send file to yourself"
render queue_full = truncate 256 (codes "ERROR Upload queue is full (5/5). Please try again later.")
render (upload_request file user) =
    truncate 512 (codes "FILE_UPLOAD_REQUEST:" ++ file ++ codes ":" ++ user)
render initiate_failed = codes "ERROR Failed to initiate file transfer"
render receive_failed = codes "ERROR Failed to receive file data"
render queue_failed = codes "ERROR Failed to add to transfer queue"
render (transfer_success file user size) = truncate 512 (
    codes "FILE_TRANSFER_SUCCESS File "
    ++ quoted file
    ++ codes " sent successfully to "
    ++ user
    ++ codes " ("
    ++ decimal size
    ++ codes " bytes)")
render (transfer_failed file user) =
    truncate 512
      (codes "FILE_TRANSFER_FAILED Failed to send " ++ quoted file ++ codes " to " ++ user)
render (file_download file size sender) =
    truncate 512
      (codes "FILE_DOWNLOAD:" ++ file ++ codes ":" ++ decimal size ++ codes ":" ++ sender)
render empty_command = codes "ERROR Empty command"
render (unknown_command text) = truncate 256 (codes "ERROR Unknown command: " ++ text)
render invalid_username = codes "Invalid username format"
render username_taken = codes "Username already taken"
render server_error = codes "Server error"
render login_success = codes "LOGIN_SUCCESS"
render (abort_upload file user) = truncate 512 (
    codes "FILE_TRANSFER_ABORT Server shutting down - file transfer of "
    ++ quoted file
    ++ codes " to "
    ++ quoted user
    ++ codes " cancelled")
render (abort_download file user) = truncate 512 (
    codes "FILE_TRANSFER_ABORT Server shutting down - incoming file "
    ++ quoted file
    ++ codes " from "
    ++ quoted user
    ++ codes " cancelled")
render server_shutdown = codes "SERVER_SHUTDOWN Server is shutting down. Please disconnect."
