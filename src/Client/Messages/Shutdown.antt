-- ===== src/Client/Messages/Shutdown.antt =====
-- What the message of a server that shuts down does to the client's two threads.
use tcp_chat_server_c.Base.{Bool, arith, eq_int, false, negsuc, refl, true, ◌++◌, ◌∙◌, ◌≡◌}
use tcp_chat_server_c.CString.{Bytes, codes, starts_with}
use tcp_chat_server_c.Wire.{receive_message}
use tcp_chat_server_c.Wire.Send.{frame}
use tcp_chat_server_c.Wire.Receive.{Pending}
use tcp_chat_server_c.Wire.RoundTrip.{receive_message-Gets}
use tcp_chat_server_c.CString.Words.{is_nul, tested-Free}
use tcp_chat_server_c.Replies.{render, server_shutdown}
use tcp_chat_server_c.Client.{Session}
use tcp_chat_server_c.Client.Commands.{FileSystem}
use tcp_chat_server_c.Client.Input.{InputWake, input_turn, stops}
use tcp_chat_server_c.Client.Messages.{
  Files, hang_up_client, hangs_up, on_message, receive_turn, socket_ready,
}
use tcp_chat_server_c.Client.Messages.Arrival.{receive_turn-Gets}

pub record Stopped (s : Session) (f : Files) : Type 0 where
  pub after : Session
  pub turn : receive_turn s (socket_ready f) ≡ hangs_up after
  pub cleared : after.client_running ≡ false
  pub output : after.net.wire ≡ s.net.wire
  pub input :
      (fs : FileSystem) (shut_down : Bool) (wake : InputWake)
      → input_turn fs after shut_down wake ≡ stops after

-- The message that the server sends to its clients when it shuts down ends both loops of the
-- client: the receiving thread clears `client_running` and stops, without an answer, and the next
-- turn of the input loop stops as well, before it reads or sends anything. The client is running
-- and the message is the next one in the stream.
pub receive_turn-server_shutdown :
    (f : Files) (s : Session) (later : Bytes)
    → s.client_running ≡ true
    → eq_int s.client_socket (negsuc 0) ≡ false
    → Pending s.net s.client_socket (frame (render server_shutdown) ++ later)
    → Stopped s f
unfolding render codes
receive_turn-server_shutdown f s later running good p = record {
  after = record s { net = (receive_message s.net s.client_socket 4096).2; client_running = false };
  turn =
      receive_turn-Gets f s (render server_shutdown) later running good (omega arith) (omega arith)
        (tested-Free is_nul (render server_shutdown) refl) p
      ∙ unfold on_message starts_with hang_up_client in refl;
  cleared = refl;
  output =
      (receive_message-Gets s.client_socket 4096 (render server_shutdown) later (omega arith) s.net
        good (omega arith) (omega arith) p).output;
  input = λ fs shut_down wake. unfold input_turn in refl;
}
