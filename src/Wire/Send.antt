-- ===== src/Wire/Send.antt =====
-- What `send_message` puts on the wire, whatever the kernel does.
use tcp_chat_server_c.Base.{
  Bool-cases, [], ap, append-nil, append_assoc, arith, drop, eq_int, failure, if◌then◌else◌, inl,
  inr, length, length-drop, ltb, negsuc, pos, refl, suc, success, sym, take, take-all,
  take-append-drop, zero, ℕ, ℤ, ◌%◌, ◌++◌, ◌^◌, ◌∙◌, ◌∷◌, ◌≡◌, ◌≢◌, ◌≤◌, ◌⊎◌,
}
use tcp_chat_server_c.CString.{Bytes}
use tcp_chat_server_c.Wire.{
  Net, Outcome, after_round, after_send, broken, bytes_to_send, done, htonl, message_len,
  out_of_fuel, send, send_data, send_loop, send_message, status,
}
use tcp_chat_server_c.Wire.Sent.{Sent, Sent-refl, Sent-trans, after_send-Sent, after_send-fail-Sent}

-- A prefix `p` of the bytes was taken; all of them, if the loop ended by its test; and it ended by
-- its test, or the kernel refused.
pub record Delivers (net : Net) (fd : ℤ) (buf : Bytes) (r : Outcome × Net) : Type 0 where
  pub part : Bytes
  pub rest : Bytes
  pub split : part ++ rest ≡ buf
  pub sent : Sent net r.1 fd part
  pub whole : r.0 ≡ done → rest ≡ []

pub nothing-Sent :
    {net net' : Net} (fd : ℤ) (buf : Bytes) (o : Outcome)
    → Sent net net' fd []
    → o ≢ done
    → Delivers net fd buf (o, net')
nothing-Sent fd buf o s ne = record {
  part = [];
  rest = buf;
  split = refl;
  sent = s;
  whole = λ e. absurd (ne e);
}

module _ (again : Net → ℤ → Bytes → Outcome × Net) (fd : ℤ)
    (ih : (net : Net) (buf : Bytes) → Delivers net fd buf (again net fd buf)) where
  round-Delivers :
      (net : Net) (buf : Bytes) (x : ℤ)
      → Delivers net fd buf (after_round again fd buf (after_send net fd buf x))
  unfolding after_round after_send
  round-Delivers net buf (pos zero) =
      nothing-Sent fd buf broken (after_send-Sent net fd buf zero) (λ e. cc)
  round-Delivers net buf (pos (suc n)) = record {
    part = take (suc n) buf ++ r.part;
    rest = r.rest;
    split =
        append_assoc (take (suc n) buf) r.part r.rest
        ∙ ap (λ t. take (suc n) buf ++ t) r.split
        ∙ take-append-drop (suc n) buf;
    sent = Sent-trans (after_send-Sent net fd buf (suc n)) r.sent;
    whole = r.whole;
  }
    where
      r :
          Delivers
            (after_send net fd buf (pos (suc n))).1
            fd
            (drop (suc n) buf)
            (again (after_send net fd buf (pos (suc n))).1 fd (drop (suc n) buf))
      r = ih (after_send net fd buf (pos (suc n))).1 (drop (suc n) buf)
  round-Delivers net buf (negsuc n) =
      nothing-Sent fd buf broken (after_send-fail-Sent net fd buf n) (λ e. cc)

pub send_loop-Delivers :
    (fuel : ℕ) (net : Net) (fd : ℤ) (buf : Bytes) → Delivers net fd buf (send_loop fuel net fd buf)
unfolding send_loop send
send_loop-Delivers fuel net fd [] = record {
  part = [];
  rest = [];
  split = refl;
  sent = Sent-refl net fd;
  whole = λ e. refl;
}
send_loop-Delivers zero net fd (c ∷ buf) =
    nothing-Sent fd (c ∷ buf) out_of_fuel (Sent-refl net fd) (λ e. cc)
send_loop-Delivers (suc fuel) net fd (c ∷ buf) =
    round-Delivers (send_loop fuel) fd (λ net' buf'. send_loop-Delivers fuel net' fd buf') net
      (c ∷ buf) (net.send_result net.sends fd (length (c ∷ buf)))

round-fuel :
    (fuel : ℕ) (fd : ℤ) (c : ℕ) (buf : Bytes)
    → ((net : Net) (rest : Bytes)
        → length rest ≤ fuel
        → (send_loop fuel net fd rest).0 ≢ out_of_fuel)
    → (r : ℤ × Net) → length buf ≤ fuel
    → (after_round (send_loop fuel) fd (c ∷ buf) r).0 ≢ out_of_fuel
unfolding after_round
round-fuel fuel fd c buf ih (pos zero, net) h e = cc
round-fuel fuel fd c buf ih (pos (suc n), net) h e =
    ih net (drop n buf) (omega (arith, length-drop {0} n buf)) e
round-fuel fuel fd c buf ih (negsuc n, net) h e = cc

-- As many rounds as bytes are enough for the loop over `send`, whatever the kernel does.
pub send_loop-fuel :
    (fuel : ℕ) (net : Net) (fd : ℤ) (buf : Bytes)
    → length buf ≤ fuel
    → (send_loop fuel net fd buf).0 ≢ out_of_fuel
unfolding send_loop
send_loop-fuel fuel net fd [] h e = cc
send_loop-fuel zero net fd (c ∷ buf) h e = elim h [ ]
send_loop-fuel (suc fuel) net fd (c ∷ buf) h e =
    round-fuel fuel fd c buf (λ net' rest le. send_loop-fuel fuel net' fd rest le)
      (send net fd (c ∷ buf)) (omega arith) e

-- A text of 2 ^ 31 bytes or more: of the length modulo 2 ^ 32, so many bytes, and none where an
-- `int` of 32 bits cannot hold it.
unfoldable pub oversized : Bytes → Bytes
oversized message =
    if ltb (length message % 2 ^ 32) (2 ^ 31) then take (length message % 2 ^ 32) message else []

-- A message on the wire: the length in four bytes, and the whole text where it is shorter than
-- 2 ^ 31 bytes.
unfoldable pub frame : Bytes → Bytes
frame message =
    htonl (length message % 2 ^ 32)
    ++ (if ltb (length message) (2 ^ 31) then message else oversized message)

-- The two pieces that the code sends are a frame.
frame-code : (m : Bytes) → frame m ≡ htonl (message_len m) ++ take (bytes_to_send m) m
unfolding frame oversized message_len bytes_to_send
frame-code m = elim (Bool-cases (ltb (length m) (2 ^ 31))) [
  | inl short ↦
      let small : length m % 2 ^ 32 ≡ length m = ground arith in
      rw (short, small, short)
        (ap (λ t. htonl (length m) ++ t) (sym (take-all (length m) m (omega arith))))
  | inr long ↦ rw long (elim (Bool-cases (ltb (length m % 2 ^ 32) (2 ^ 31))) [
    | inl fits ↦ rw fits refl
    | inr over ↦ rw over refl
  ])
]

-- The socket took a prefix `part` of the frame, and the code is 0 only if it took it all.
pub record Posts (net : Net) (fd : ℤ) (message : Bytes) (r : ℤ × Net) : Type 0 where
  pub part : Bytes
  pub rest : Bytes
  pub split : part ++ rest ≡ frame message
  pub sent : Sent net r.1 fd part
  pub whole : r.0 ≡ success → rest ≡ []
  pub code : (r.0 ≡ success) ⊎ (r.0 ≡ failure)

module _ (net : Net) (fd : ℤ) (message : Bytes) where
  data-Posts :
      (r : Outcome × Net)
      → Delivers net fd (htonl (message_len message)) r
      → (o : Outcome × Net) → Delivers r.1 fd (take (bytes_to_send message) message) o
      → r.0 ≡ done
      → Posts net fd message (status o)
  unfolding status
  data-Posts r header (done, net') body e = record {
    part = header.part ++ body.part;
    rest = [];
    split =
        append-nil (header.part ++ body.part)
        ∙ ap (λ t. header.part ++ t)
            (sym (append-nil body.part)
              ∙ ap (λ t. body.part ++ t) (sym (body.whole refl))
              ∙ body.split)
        ∙ ap (λ t. t ++ take (bytes_to_send message) message)
            (sym (append-nil header.part)
              ∙ ap (λ t. header.part ++ t) (sym (header.whole e))
              ∙ header.split)
        ∙ sym (frame-code message);
    sent = Sent-trans header.sent body.sent;
    whole = λ c. refl;
    code = inl refl;
  }
  data-Posts r header (_, net') body e = record {
    part = header.part ++ body.part;
    rest = body.rest;
    split =
        append_assoc header.part body.part body.rest
        ∙ ap (λ t. header.part ++ t) body.split
        ∙ ap (λ t. t ++ take (bytes_to_send message) message)
            (sym (append-nil header.part)
              ∙ ap (λ t. header.part ++ t) (sym (header.whole e))
              ∙ header.split)
        ∙ sym (frame-code message);
    sent = Sent-trans header.sent body.sent;
    whole = λ c. cc;
    code = inr refl;
  }

  send_data-Posts :
      (r : Outcome × Net)
      → Delivers net fd (htonl (message_len message)) r
      → Posts net fd message (send_data fd message r)
  unfolding send_data
  send_data-Posts (done, net') header =
      data-Posts (done, net') header _
        (send_loop-Delivers (length message) net' fd (take (bytes_to_send message) message)) refl
  send_data-Posts (_, net') header = record {
    part = header.part;
    rest = header.rest ++ take (bytes_to_send message) message;
    split =
        sym (append_assoc header.part header.rest (take (bytes_to_send message) message))
        ∙ ap (λ t. t ++ take (bytes_to_send message) message) header.split
        ∙ sym (frame-code message);
    sent = header.sent;
    whole = λ c. cc;
    code = inr refl;
  }

  -- Whatever the kernel does, `send_message` puts a prefix of the message's frame on the wire of its
  -- socket and nothing on another's, and all of the frame when it returns 0; otherwise it returns
  -- -1. The frame is the number of bytes of the text modulo 2 ^ 32, in four bytes with the highest
  -- first, and then the text: all of it where it is shorter than 2 ^ 31 bytes. Of a longer one it
  -- is the first bytes, as many as that remainder says, and none where the remainder is 2 ^ 31 or
  -- more.
  pub send_message-Posts : Posts net fd message (send_message net fd message)
  unfolding send_message
  send_message-Posts = elim (Bool-cases (eq_int fd (negsuc 0))) [
    | inl none' ↦ rw none' (record {
      part = [];
      rest = frame message;
      split = refl;
      sent = Sent-refl net fd;
      whole = λ c. cc;
      code = inr refl;
    })
    | inr fine ↦ rw fine (
        send_data-Posts (send_loop 4 net fd (htonl (message_len message)))
          (send_loop-Delivers 4 net fd (htonl (message_len message))))
  ]
