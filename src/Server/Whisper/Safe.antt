-- ===== src/Server/Whisper/Safe.antt =====
-- `handle_whisper_command` and the registries.
use tcp_chat_server_c.Base.{arith, ℤ, ◌≡◌}
use tcp_chat_server_c.CString.{Bytes}
use tcp_chat_server_c.Server.{World, respond}
use tcp_chat_server_c.Server.Whisper.{handle_whisper_command}

module _ (w : World) (fd : ℤ) (args : Bytes) where
  pub clients-handle_whisper_command : (handle_whisper_command w fd args).clients ≡ w.clients
  unfolding handle_whisper_command respond
  clients-handle_whisper_command = ground arith

  pub rooms-handle_whisper_command : (handle_whisper_command w fd args).rooms ≡ w.rooms
  unfolding handle_whisper_command respond
  rooms-handle_whisper_command = ground arith
