-- ===== src/Client/Messages/Arrival.antt =====
-- What a turn of the receiving thread makes of a frame in the stream.
use tcp_chat_server_c.Base.{
  arith, eq_int, false, leb_zero, length, negsuc, pos, refl, true, ◌++◌, ◌<◌, ◌≡◌,
}
use tcp_chat_server_c.CString.{Bytes}
use tcp_chat_server_c.Wire.{receive_message}
use tcp_chat_server_c.Wire.Send.{frame}
use tcp_chat_server_c.Wire.Receive.{Pending}
use tcp_chat_server_c.Wire.RoundTrip.{Gets, receive_message-Gets}
use tcp_chat_server_c.CString.Words.{Free, cstr-Free, is_nul}
use tcp_chat_server_c.Client.{Session}
use tcp_chat_server_c.Client.Messages.{
  Files, on_message, on_received, on_socket, receive_turn, socket_ready,
}

-- A message of the server that the stream holds is acted on as it was sent.
pub receive_turn-Gets :
    (f : Files) (s : Session) (m later : Bytes)
    → s.client_running ≡ true
    → eq_int s.client_socket (negsuc 0) ≡ false
    → 0 < length m
    → length m < 4096
    → Free is_nul m
    → Pending s.net s.client_socket (frame m ++ later)
    → receive_turn s (socket_ready f)
      ≡ on_message f (record s { net = (receive_message s.net s.client_socket 4096).2 }) m
unfolding receive_turn on_socket on_received
receive_turn-Gets f s m later running good some_bytes short clean p =
    rw (running, g.code, positive, g.bytes, cstr-Free m clean) refl
  where
    g : Gets s.net s.client_socket m later (receive_message s.net s.client_socket 4096)
    g =
        receive_message-Gets s.client_socket 4096 m later short s.net good some_bytes
          (omega (arith, short)) p

    positive : leb_zero (pos (length m)) ≡ false
    positive = ground arith
