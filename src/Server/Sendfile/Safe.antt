-- ===== src/Server/Sendfile/Safe.antt =====
-- `handle_sendfile_command` and the registries.
use tcp_chat_server_c.Base.{arith, ℤ, ◌≡◌}
use tcp_chat_server_c.CString.{Bytes}
use tcp_chat_server_c.Server.{Resources, World, respond}
use tcp_chat_server_c.Server.Sendfile.{handle_sendfile_command}

module _ (w : World) (fd : ℤ) (args : Bytes) (res : Resources) where
  pub clients-handle_sendfile_command : (handle_sendfile_command w fd args res).clients ≡ w.clients
  unfolding handle_sendfile_command respond
  clients-handle_sendfile_command = ground arith

  pub rooms-handle_sendfile_command : (handle_sendfile_command w fd args res).rooms ≡ w.rooms
  unfolding handle_sendfile_command respond
  rooms-handle_sendfile_command = ground arith
