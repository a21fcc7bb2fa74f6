-- ===== src/Wire/Examples.antt =====
-- Kernels at which the theorems about the wire are applied.
use tcp_chat_server_c.Base.{
  List, [], ap, arith, drop, eq_int, length, length-drop, length-take, min, pos, refl, suc, success,
  take, take-append-drop, zero, ℕ, ℤ, ◌++◌, ◌<◌, ◌∙◌, ◌∷◌, ◌≡◌, ◌≤◌,
}
use tcp_chat_server_c.CString.{Bytes}
use tcp_chat_server_c.Wire.{
  Net, Received, after_round, after_send, bytes_to_send, closed, got, htonl, message_len,
  receive_message, send, send_loop, send_message, sent_to,
}
use tcp_chat_server_c.Wire.Send.{Posts, frame, send_message-Posts}
use tcp_chat_server_c.Wire.Receive.{Serves, dry, more}
use tcp_chat_server_c.Wire.RoundTrip.{Gets, receive_message-Gets, receive_message-send_message}

-- Takes at most two bytes a call.
abbrev pub slow_send : ℕ → ℤ → ℕ → ℤ
slow_send n fd len = pos (min len 2)

-- What is left of a stream after the calls, where each hands over at most `most` bytes.
abbrev pub left_of : ℕ → Bytes → List (ℤ × ℕ) → Bytes
left_of most stream [] = stream
left_of most stream ((fd, n) ∷ calls) = drop (min n most) (left_of most stream calls)

abbrev hand : Bytes → Received
hand [] = closed
hand (c ∷ bs) = got (c ∷ bs)

abbrev pub hand_over : ℕ → Bytes → List (ℤ × ℕ) → ℤ → ℕ → Received
hand_over most stream calls fd n = hand (take (min n most) (left_of most stream calls))

abbrev pub net_of : Bytes → Net
net_of stream = record {
  send_result = slow_send;
  recv_result = hand_over 3 stream;
  sends = 0;
  recvs = [];
  wire = [];
}

hand-some : (n c : ℕ) (bs : Bytes) → 0 < n → hand (take n (c ∷ bs)) ≡ got (take n (c ∷ bs))
hand-some zero c bs h = elim h [ ]
hand-some (suc n) c bs h = refl

pub hand_over-Serves :
    (most : ℕ) (stream : Bytes) (fd : ℤ) (fuel : ℕ) (calls : List (ℤ × ℕ)) (bs : Bytes)
    → 0 < most
    → length bs ≤ fuel
    → left_of most stream calls ≡ bs
    → Serves (hand_over most stream) fd calls bs
hand_over-Serves most stream fd fuel calls [] some_bytes h e = dry
hand_over-Serves most stream fd zero calls (c ∷ bs) some_bytes h e = elim h [ ]
hand_over-Serves most stream fd (suc fuel) calls (c ∷ bs) some_bytes h e =
    more (λ n. take (min n most) (c ∷ bs)) (λ n. drop (min n most) (c ∷ bs))
      (λ n lt. ap (λ t. hand (take (min n most) t)) e ∙ hand-some (min n most) c bs (omega arith))
      (λ n lt. omega (arith, length-take {0} (min n most) (c ∷ bs)))
      (λ n lt. omega (arith, length-take {0} (min n most) (c ∷ bs)))
      (λ n lt. take-append-drop (min n most) (c ∷ bs))
      (λ n lt.
        hand_over-Serves most stream fd fuel ((fd, n) ∷ calls) (drop (min n most) (c ∷ bs))
          some_bytes (omega (arith, length-drop {0} (min n most) (c ∷ bs)))
          (ap (drop (min n most)) e))

abbrev hi : Bytes
hi = b'h' ∷ b'i' ∷ []

send_message-Posts_example : Posts (net_of []) (pos 3) hi (send_message (net_of []) (pos 3) hi)
send_message-Posts_example = send_message-Posts (net_of []) (pos 3) hi

send_message_run : send_message (net_of []) (pos 3) hi ≡ (
  success,
  record (net_of []) {
    sends = 3;
    wire = (pos 3, 0 ∷ 0 ∷ []) ∷ (pos 3, 0 ∷ 2 ∷ []) ∷ (pos 3, hi) ∷ [];
  },
)
unfolding send_message send_loop after_round after_send send htonl message_len bytes_to_send eq_int
send_message_run = refl

receive_message-Gets_example :
    Gets
      (net_of (0 ∷ 0 ∷ 0 ∷ 2 ∷ hi ++ 7 ∷ []))
      (pos 4)
      hi
      (7 ∷ [])
      (receive_message (net_of (0 ∷ 0 ∷ 0 ∷ 2 ∷ hi ++ 7 ∷ [])) (pos 4) 1024)
unfolding frame htonl message_len bytes_to_send eq_int
receive_message-Gets_example =
    receive_message-Gets (pos 4) 1024 hi (7 ∷ []) (omega arith)
      (net_of (0 ∷ 0 ∷ 0 ∷ 2 ∷ hi ++ 7 ∷ [])) refl (omega arith) (omega arith)
      (hand_over-Serves 3 (0 ∷ 0 ∷ 0 ∷ 2 ∷ hi ++ 7 ∷ []) (pos 4) 7 [] (frame hi ++ 7 ∷ [])
        (omega arith) (omega arith) refl)

receive_message-send_message_example :
    Gets (net_of (frame hi)) (pos 4) hi [] (receive_message (net_of (frame hi)) (pos 4) 1024)
unfolding send_message send_loop after_round after_send send htonl message_len bytes_to_send eq_int
    frame sent_to
receive_message-send_message_example =
    receive_message-send_message (net_of []) (net_of (frame hi)) (pos 3) (pos 4) 1024 hi refl refl
      (hand_over-Serves 3 (frame hi) (pos 4) 6 [] (frame hi) (omega arith) (omega arith) refl) refl
      (omega arith) (omega arith) (omega arith)
