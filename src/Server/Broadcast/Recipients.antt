-- ===== src/Server/Broadcast/Recipients.antt =====
-- The delivery loop, against the list of the sockets that it should reach.
use tcp_chat_server_c.Base.{
  Bool-cases, List, Option, [], ap, append-nil, append_assoc, arith, eq_int, eq_int_iff, false,
  if◌then◌else◌, inl, inr, length, negsuc, none, refl, some, subst, suc, sym, zero, ℕ, ℤ, ◌&&◌,
  ◌++◌, ◌+◌, ◌∙◌, ◌∷◌, ◌≡◌,
}
use tcp_chat_server_c.CString.{Bytes}
use tcp_chat_server_c.Wire.{send_message, sent_to}
use tcp_chat_server_c.Wire.Send.{frame, send_message-Posts}
use tcp_chat_server_c.Wire.Reliable.{Reliable, Reliable-Sent, send_message-Reliable}
use tcp_chat_server_c.Clients.{Client, client_at}
use tcp_chat_server_c.Rooms.{Slot}
use tcp_chat_server_c.Rooms.Slots.{EachSeat}
use tcp_chat_server_c.Server.{Delivery, count_delivery, deliver, deliver_to, is_other}
use tcp_chat_server_c.Safety.Delivery.{Live}

-- The sockets of the active clients in the slots, but for the one that is excepted.
abbrev pub recipient : Option ℕ → Client → List ℤ → List ℤ
recipient except c rest =
    if c.is_active && is_other except c.address then c.socket_fd ∷ rest else rest

unfoldable pub recipients : List Client → Option ℕ → List Slot → List ℤ
recipients nodes except [] = []
recipients nodes except (none ∷ ss) = recipients nodes except ss
recipients nodes except (some a ∷ ss) = elim (client_at a nodes) [
  | none ↦ recipients nodes except ss
  | some c ↦ recipient except c (recipients nodes except ss)
]

-- One message to each of the sockets, in order.
unfoldable pub send_each : Bytes → List ℤ → Delivery → Delivery
send_each text [] d = d
send_each text (fd ∷ fds) d = send_each text fds (count_delivery (send_message d.net fd text) d)

-- The loop sends the text to those sockets, once for each slot, and does nothing else.
pub deliver-send_each :
    (nodes : List Client) (except : Option ℕ) (text : Bytes) (ss : List Slot) (d : Delivery)
    → EachSeat (Live nodes) ss
    → deliver nodes except text ss d ≡ some (send_each text (recipients nodes except ss) d)
unfolding deliver recipients send_each deliver_to
deliver-send_each nodes except text [] d s = refl
deliver-send_each nodes except text (none ∷ ss) d s = deliver-send_each nodes except text ss d s
deliver-send_each nodes except text (some a ∷ ss) d s =
    rw (s.0.1, deliver, recipients)
      (elim (Bool-cases (s.0.0.is_active && is_other except s.0.0.address)) [
        | inl gets ↦ rw gets (deliver-send_each nodes except text ss _ s.1)
        | inr skips ↦ rw skips (deliver-send_each nodes except text ss d s.1)
      ])

-- How many messages a socket is sent.
unfoldable pub times : ℤ → List ℤ → ℕ
times fd [] = 0
times fd (s ∷ fds) = if eq_int s fd then suc (times fd fds) else times fd fds

unfoldable pub copies : ℕ → Bytes → Bytes
copies zero m = []
copies (suc n) m = m ++ copies n m

-- A socket that is not in the list takes nothing, whatever the kernel does.
pub send_each-others :
    (text : Bytes) (fds : List ℤ) (d : Delivery) (fd : ℤ)
    → times fd fds ≡ 0
    → sent_to fd (send_each text fds d).net.wire ≡ sent_to fd d.net.wire
unfolding send_each times count_delivery
send_each-others text [] d fd h = refl
send_each-others text (s ∷ fds) d fd h = elim (Bool-cases (eq_int s fd)) [
  | inl same ↦ absurd (ground arith)
  | inr other ↦
      send_each-others text fds (count_delivery (send_message d.net s text) d) fd (ground arith)
      ∙ (send_message-Posts d.net s text).sent.others fd other
]

pub total-send_each :
    (text : Bytes) (fds : List ℤ) (d : Delivery)
    → (send_each text fds d).total_recipients ≡ d.total_recipients + length fds
unfolding send_each count_delivery
total-send_each text [] d = omega arith
total-send_each text (s ∷ fds) d =
    omega (arith, total-send_each text fds (count_delivery (send_message d.net s text) d))

abbrev pub GoodSockets : List ℤ → Type 0
GoodSockets [] = Unit
GoodSockets (fd ∷ fds) = (eq_int fd (negsuc 0) ≡ false) × GoodSockets fds

-- Over a reliable kernel each socket takes the frame as often as it is in the list, and all the
-- messages count as sent.
pub send_each-Reliable :
    (text : Bytes) (fds : List ℤ) (d : Delivery)
    → Reliable d.net
    → GoodSockets fds
    → ((fd : ℤ)
        → sent_to fd (send_each text fds d).net.wire
          ≡ sent_to fd d.net.wire ++ copies (times fd fds) (frame text))
      × ((send_each text fds d).messages_sent ≡ d.messages_sent + length fds)
      × Reliable (send_each text fds d).net
unfolding send_each times copies count_delivery eq_int
send_each-Reliable text [] d rel good =
    ((λ fd. sym (append-nil (sent_to fd d.net.wire))), omega arith, rel)
send_each-Reliable text (s ∷ fds) d rel good =
    let (code, sent) = send_message-Reliable d.net s text rel good.0 in
    let (wire, count, rel') =
      send_each-Reliable text fds (count_delivery (send_message d.net s text) d)
        (Reliable-Sent sent rel) good.1 in
    (
      (λ fd. elim (Bool-cases (eq_int s fd)) [
        | inl same ↦
            wire fd
            ∙ ap (λ t. t ++ copies (times fd fds) (frame text))
                (subst
                  (λ x.
                    sent_to x (send_message d.net s text).1.wire
                    ≡ sent_to x d.net.wire ++ frame text)
                  ((eq_int_iff s fd).0 same) sent.taken)
            ∙ append_assoc (sent_to fd d.net.wire) (frame text) (copies (times fd fds) (frame text))
            ∙ rw (same) refl
        | inr other ↦ wire fd ∙ rw (sent.others fd other, other) refl
      ]),
      count ∙ rw code (omega arith),
      rel',
    )
