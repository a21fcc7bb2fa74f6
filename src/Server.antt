-- ===== src/Server.antt =====
-- server/server_helper.c: the state that the handler threads share, and what several handlers do.
-- A handler is one step here: it runs from its command to its last reply with no other thread in
-- between. `none` stands for a read through a pointer to a freed client.
pub mod Join
pub mod Leave
pub mod Broadcast
pub mod Whisper
pub mod Sendfile
pub mod Connection
pub mod Dispatch
pub mod Session
pub mod Shutdown
use mathlib.Core.Option
use tcp_chat_server_c.Base.{
  Bool, List, Option, [], eq_int, if◌then◌else◌, map, negsuc, none, not, some, success, true, ℕ, ℤ,
  ◌&&◌, ◌+◌, ◌-◌, ◌==◌, ◌∷◌,
}
use tcp_chat_server_c.CString.{Bytes}
use tcp_chat_server_c.Wire.{Net, send_message}
use tcp_chat_server_c.Clients.{Client, ClientList, client_at, write_client}
use tcp_chat_server_c.Rooms.{Allocation, Room, RoomList, Slot, occupies, vacate, write_room}
use tcp_chat_server_c.Replies.{Reply, render}
use tcp_chat_server_c.FileQueue.{FileQueue}

-- The globals of the server. `closed` records the sockets that were passed to `close`.
pub record World : Type 0 where
  pub clients : ClientList
  pub rooms : RoomList
  pub queue : FileQueue
  pub net : Net
  pub closed : List ℤ

-- What the environment gives a handler: the time, and whether its allocations succeed.
pub record Resources : Type 0 where
  pub now : ℕ
  pub room : Allocation
  pub args_memory : Bool
  pub file_memory : Bool

-- `send_message` with the result ignored.
unfoldable pub respond : World → ℤ → Reply → World
respond w fd reply = record w { net = (send_message w.net fd (render reply)).1 }

-- `clients[i] != client`, where a client is excepted.
unfoldable pub is_other : Option ℕ → ℕ → Bool
is_other none a = true
is_other (some b) a = not (a == b)

-- What a delivery loop has counted, and the state of the sockets.
pub record Delivery : Type 0 where
  pub messages_sent : ℕ
  pub total_recipients : ℕ
  pub net : Net

unfoldable pub count_delivery : ℤ × Net → Delivery → Delivery
count_delivery (code, net) d = record {
  messages_sent = if eq_int code success then d.messages_sent + 1 else d.messages_sent;
  total_recipients = d.total_recipients + 1;
  net = net;
}

-- One slot of the loop: the client that it points to is read, and gets the text if it is active and
-- not excepted.
unfoldable pub deliver_to : Option ℕ → Bytes → Client → Delivery → Delivery
unfolding count_delivery is_other
deliver_to except text c d =
    if c.is_active && is_other except c.address
    then count_delivery (send_message d.net c.socket_fd text) d
    else d

-- `for (i = 0; i < MAX_CLIENTS_PER_ROOM; i++) if (clients[i] && ...) send_message(...)`
unfoldable pub deliver : List Client → Option ℕ → Bytes → List Slot → Delivery → Option Delivery
unfolding deliver_to
deliver nodes except text [] d = some d
deliver nodes except text (none ∷ ss) d = deliver nodes except text ss d
deliver nodes except text (some a ∷ ss) d = elim (client_at a nodes) [
  | none ↦ none
  | some c ↦ deliver nodes except text ss (deliver_to except text c d)
]

-- The loops that send a notification do not count.
unfoldable pub notify : World → Option ℕ → Reply → List Slot → Option World
unfolding deliver
notify w except reply slots =
    Option.map (λ (d : Delivery). record w { net = d.net })
      (deliver w.clients.nodes except (render reply) slots
        (record { messages_sent = 0; total_recipients = 0; net = w.net }))

-- The time that is stored in `last_activity`, where the loop stores one.
stamp : Option ℕ → ℕ → ℕ
stamp none old = old
stamp (some now) old = now

-- The loop that takes a client out of the slots of a room.
unfoldable pub take_out : Option ℕ → ℕ → Room → Room
unfolding stamp
take_out time a r =
    if occupies a r.clients
    then record r {
      clients = vacate a r.clients;
      client_count = r.client_count - 1;
      last_activity = stamp time r.last_activity;
    }
    else r

-- A write to the node of a client, and to a room.
unfoldable pub update_client : World → ℕ → (Client → Client) → World
update_client w a f = record w {
  clients = record w.clients { nodes = write_client a f w.clients.nodes };
}

unfoldable pub update_room : World → Bytes → (Room → Room) → World
update_room w name f = record w {
  rooms = record w.rooms { nodes = write_room name f w.rooms.nodes };
}

-- `current_room_name[0] = '\0'; current_room_index = -1;`
unfoldable pub forget_room : Client → Client
forget_room c = record c { current_room_name = []; current_room_index = negsuc 0 }
