-- ===== src/Safety/Delivery.antt =====
-- The delivery loops and the invariant.
use tcp_chat_server_c.Base.{List, Option, [], none, refl, some, ℕ, ◌∷◌, ◌≡◌}
use tcp_chat_server_c.CString.{Bytes}
use tcp_chat_server_c.Wire.{Net}
use tcp_chat_server_c.Clients.{Client, client_at}
use tcp_chat_server_c.Rooms.{Slot}
use tcp_chat_server_c.Rooms.Slots.{EachSeat}
use tcp_chat_server_c.Replies.{Reply, render}
use tcp_chat_server_c.Server.{Delivery, World, deliver, deliver_to, notify}
use tcp_chat_server_c.Safety.{Seat}

abbrev pub Live : List Client → ℕ → Type 0
Live nodes a = (c : Client) × (client_at a nodes ≡ some c)

-- A loop over slots that point to registered clients reaches its end.
pub deliver_total :
    (nodes : List Client) (except : Option ℕ) (text : Bytes) (ss : List Slot) (d : Delivery)
    → EachSeat (Live nodes) ss
    → (d' : Delivery) × (deliver nodes except text ss d ≡ some d')
unfolding deliver
deliver_total nodes except text [] d s = (d, refl)
deliver_total nodes except text (none ∷ ss) d s = deliver_total nodes except text ss d s
deliver_total nodes except text (some a ∷ ss) d s =
    let (c, at) = s.0 in
    rw (at, deliver) (deliver_total nodes except text ss (deliver_to except text c d) s.1)

pub Seated-Live :
    (nodes : List Client) (name : Bytes) (ss : List Slot)
    → EachSeat (Seat nodes name) ss
    → EachSeat (Live nodes) ss
Seated-Live nodes name [] s = tt
Seated-Live nodes name (none ∷ ss) s = Seated-Live nodes name ss s
Seated-Live nodes name (some a ∷ ss) s = ((s.0.0, s.0.1), Seated-Live nodes name ss s.1)

-- A notification changes nothing but the state of the sockets.
pub notify_total :
    (w : World) (except : Option ℕ) (reply : Reply) (ss : List Slot)
    → EachSeat (Live w.clients.nodes) ss
    → (net : Net) × (notify w except reply ss ≡ some (record w { net = net }))
unfolding notify
notify_total w except reply ss s =
    let (d, e) =
      deliver_total w.clients.nodes except (render reply) ss
        (record { messages_sent = 0; total_recipients = 0; net = w.net }) s in
    (d.net, rw e)
