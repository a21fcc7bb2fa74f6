-- ===== src/Server/Broadcast/Outcome.antt =====
-- What `handle_broadcast_command` puts on the wire.
use tcp_chat_server_c.Base.{List, eq_int, false, length, some, ℕ, ℤ, ◌++◌, ◌∷◌, ◌≡◌}
use tcp_chat_server_c.CString.{Bytes, is_empty}
use tcp_chat_server_c.Wire.{sent_to}
use tcp_chat_server_c.Wire.Send.{frame}
use tcp_chat_server_c.Wire.Reliable.{Reliable}
use tcp_chat_server_c.Clients.{Client, find_client_by_socket}
use tcp_chat_server_c.Rooms.{Room, find_room}
use tcp_chat_server_c.Replies.{broadcast, broadcast_success, render}
use tcp_chat_server_c.Server.{Delivery, World}
use tcp_chat_server_c.Server.Broadcast.{clean_message, count_message}
use tcp_chat_server_c.Server.Broadcast.Recipients.{GoodSockets, copies, recipients, times}

unfoldable pub broadcast_render : Client → Room → Bytes → Bytes
broadcast_render sender r message =
    render (broadcast sender.username r.room_name (clean_message message))

-- The sockets of the room `r`, but for the sender's own slots.
abbrev pub audience : World → Client → Room → List ℤ
audience w sender r = recipients w.clients.nodes (some sender.address) r.clients

-- The sender, in a room that exists, sends a message that is not blank.
pub record Speaks (w : World) (fd : ℤ) (message : Bytes) (sender : Client) (r : Room) : Type 0 where
  pub known : find_client_by_socket w.clients.nodes fd ≡ some sender
  pub inside : is_empty sender.current_room_name ≡ false
  pub room : find_room w.rooms.nodes sender.current_room_name ≡ some r
  pub text : is_empty (clean_message message) ≡ false

pub record Delivered (w w' : World) (fd : ℤ) (to : List ℤ) (text : Bytes) (r : Room) (now : ℕ)
    : Type 0 where
  -- the other sockets take nothing
  pub others :
      (other : ℤ)
      → eq_int fd other ≡ false
      → times other to ≡ 0
      → sent_to other w'.net.wire ≡ sent_to other w.net.wire
  -- over a reliable kernel each recipient takes the text, once for each of its slots
  pub received :
      Reliable w.net
      → GoodSockets to
      → (other : ℤ) → eq_int fd other ≡ false
      → sent_to other w'.net.wire ≡ sent_to other w.net.wire ++ copies (times other to) (frame text)
  -- and the sender is told their number
  pub confirmed :
      Reliable w.net
      → GoodSockets (fd ∷ to)
      → sent_to fd w'.net.wire
        ≡ (sent_to fd w.net.wire ++ copies (times fd to) (frame text))
          ++ frame (render (broadcast_success (length to) r.room_name))
  -- and the room has one message more
  pub counted : find_room w'.rooms.nodes r.room_name ≡ some (count_message now r)

abbrev start : World → Delivery
start w = record { messages_sent = 0; total_recipients = 0; net = w.net }
