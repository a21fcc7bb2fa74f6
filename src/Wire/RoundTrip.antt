-- ===== src/Wire/RoundTrip.antt =====
-- `receive_message` on what `send_message` has sent.
use tcp_chat_server_c.Base.{
  [], ap, append-nil, append_assoc, arith, eq_int, false, leb, length, ltb, negsuc, pos, refl,
  subst, success, sym, true, ℕ, ℤ, ◌%◌, ◌++◌, ◌<◌, ◌==◌, ◌^◌, ◌∙◌, ◌≡◌,
}
use tcp_chat_server_c.CString.{Bytes}
use tcp_chat_server_c.Wire.{
  Net, Outcome, body_status, broken, done, ended, header_status, htonl, ntohl, out_of_fuel,
  receive_body, receive_message, recv_loop, send_message, sent_to,
}
use tcp_chat_server_c.Wire.Send.{Posts, frame, send_message-Posts}
use tcp_chat_server_c.Wire.Receive.{Pending, Reads, recv_loop-Reads}

pub ntohl-htonl : (n : ℕ) → n < 2 ^ 32 → ntohl (htonl n) ≡ n
unfolding ntohl htonl
ntohl-htonl n h = omega arith

pub length-htonl : (n : ℕ) → length (htonl n) ≡ 4
unfolding htonl
length-htonl n = refl

-- A message of fewer than 2 ^ 31 bytes is framed by its length and sent whole.
pub frame-short : (m : Bytes) → length m < 2 ^ 31 → frame m ≡ htonl (length m) ++ m
unfolding frame
frame-short m h = rw (small, fits) refl
  where
    small : length m % 2 ^ 32 ≡ length m
    small = omega arith

    fits : ltb (length m) (2 ^ 31) ≡ true
    fits = ground arith

header_status-done :
    (fd : ℤ) (size : ℕ) (r : Outcome × Bytes × Net)
    → r.0 ≡ done
    → header_status fd size r ≡ receive_body fd size (ntohl r.1) r.2
unfolding header_status
header_status-done fd size (done, buf, net) e = refl
header_status-done fd size (ended, buf, net) e = cc
header_status-done fd size (broken, buf, net) e = cc
header_status-done fd size (out_of_fuel, buf, net) e = cc

body_status-done :
    (r : Outcome × Bytes × Net) → r.0 ≡ done → body_status r ≡ (pos (length r.1), r.1, r.2)
unfolding body_status
body_status-done (done, buf, net) e = refl
body_status-done (ended, buf, net) e = cc
body_status-done (broken, buf, net) e = cc
body_status-done (out_of_fuel, buf, net) e = cc

-- The call has returned the message `m` and left `later`, without sending.
pub record Gets (net : Net) (fd : ℤ) (m later : Bytes) (r : ℤ × Bytes × Net) : Type 0 where
  pub code : r.0 ≡ pos (length m)
  pub bytes : r.1 ≡ m
  pub left : Pending r.2 fd later
  pub output : r.2.wire ≡ net.wire

module _ (fd : ℤ) (size : ℕ) (m later : Bytes) (size_fits : length m < size) where
  receive_body-Gets :
      (net : Net)
      → 0 < length m
      → Pending net fd (m ++ later)
      → Gets net fd m later (receive_body fd size (length m) net)
  unfolding receive_body
  receive_body-Gets net some_bytes s =
      rw (nonzero, fits, body_status-done (recv_loop (length m) net fd (length m) []) r.ends)
        (record {
          code = ap (λ t. pos (length t)) r.bytes;
          bytes = r.bytes;
          left = r.left;
          output = r.output;
        })
    where
      r : Reads net fd m later (recv_loop (length m) net fd (length m) [])
      r = recv_loop-Reads (length m) net fd m later [] (omega arith) s

      nonzero : (length m == 0) ≡ false
      nonzero = ground arith

      fits : leb size (length m) ≡ false
      fits = ground arith

  -- A framed message that the kernel holds for a socket is received whole and alone, in whatever
  -- pieces it comes: `receive_message` returns its length, the buffer holds it, and what comes
  -- after it is left for the next call. The message is not empty and is shorter than the buffer
  -- and than 2 ^ 31 bytes.
  pub receive_message-Gets :
      (net : Net)
      → eq_int fd (negsuc 0) ≡ false
      → 0 < length m
      → length m < 2 ^ 31
      → Pending net fd (frame m ++ later)
      → Gets net fd m later (receive_message net fd size)
  unfolding receive_message
  receive_message-Gets net good some_bytes short s =
      rw
        (
          good,
          room,
          header_status-done fd size (recv_loop 4 net fd 4 []) r.ends,
          r.bytes,
          ntohl-htonl (length m) (omega arith),
        )
        (record { code = b.code; bytes = b.bytes; left = b.left; output = b.output ∙ r.output })
    where
      room : leb size 0 ≡ false
      room = ground arith

      r : Reads net fd (htonl (length m)) (m ++ later) (recv_loop 4 net fd 4 [])
      r =
          unfold htonl in
          recv_loop-Reads 4 net fd (htonl (length m)) (m ++ later) [] (omega arith) (
            subst (λ t. Pending net fd t)
              (ap (λ t. t ++ later) (frame-short m short) ∙ append_assoc (htonl (length m)) m later)
              s)

      b :
          Gets
            (recv_loop 4 net fd 4 []).2
            fd
            m
            later
            (receive_body fd size (length m) (recv_loop 4 net fd 4 []).2)
      b = receive_body-Gets (recv_loop 4 net fd 4 []).2 some_bytes r.left

-- A message that `send_message` reports as sent arrives: if a receiver's kernel hands over what
-- the sender's kernel took, in whatever pieces either moves the bytes, `receive_message` returns
-- the message. The socket had taken nothing before; the message is not empty, and shorter than
-- the receiver's buffer and than 2 ^ 31 bytes.
pub receive_message-send_message :
    (net receiver : Net) (fd end : ℤ) (size : ℕ) (m : Bytes)
    → sent_to fd net.wire ≡ []
    → (send_message net fd m).0 ≡ success
    → Pending receiver end (sent_to fd (send_message net fd m).1.wire)
    → eq_int end (negsuc 0) ≡ false
    → 0 < length m
    → length m < size
    → length m < 2 ^ 31
    → Gets receiver end m [] (receive_message receiver end size)
receive_message-send_message net receiver fd end size m fresh sent s good some_bytes fits short =
    receive_message-Gets end size m [] fits receiver good some_bytes short
      (subst (λ t. Pending receiver end t) (whole ∙ sym (append-nil (frame m))) s)
  where
    p : Posts net fd m (send_message net fd m)
    p = send_message-Posts net fd m

    whole : sent_to fd (send_message net fd m).1.wire ≡ frame m
    whole =
        p.sent.taken
        ∙ ap (λ t. t ++ p.part) fresh
        ∙ sym (append-nil p.part)
        ∙ ap (λ t. p.part ++ t) (sym (p.whole sent))
        ∙ p.split
