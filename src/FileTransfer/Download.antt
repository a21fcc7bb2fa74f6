-- ===== src/FileTransfer/Download.antt =====
-- The download of a file: its header, its size and its data on the receiver's socket.
use tcp_chat_server_c.Base.{
  Bool-cases, [], ap, append-nil, append_assoc, arith, drop, eq_int, eq_int_iff, inl, inr, length,
  length-take, negsuc, pos, refl, subst, suc, success, sym, take, take-all, take-append-drop,
  take-take, zero, ℕ, ℤ, ◌%◌, ◌++◌, ◌==◌, ◌^◌, ◌∙◌, ◌∷◌, ◌≡◌, ◌≤◌,
}
use tcp_chat_server_c.CString.{Bytes}
use tcp_chat_server_c.Wire.{
  Net, Outcome, after_round, after_send, broken, done, ended, htonl, out_of_fuel, send,
  send_message,
}
use tcp_chat_server_c.Wire.Sent.{Sent, Sent-refl, Sent-trans, after_send-Sent, after_send-fail-Sent}
use tcp_chat_server_c.Wire.Send.{Delivers, Posts, frame, nothing-Sent, send_message-Posts}
use tcp_chat_server_c.Wire.RoundTrip.{length-htonl}
use tcp_chat_server_c.Replies.{file_download, render}
use tcp_chat_server_c.FileTransfer.{
  bytes_at, chunk_size, chunks_sent, header_sent, send_chunks, send_file_to_client, size_sent,
}
use tcp_chat_server_c.FileTransfer.Upload.{chunk_size_bounds}
use tcp_chat_server_c.FileTransfer.Puts.{Puts, Puts-stop, Puts-then}

-- The kernel takes no more bytes than it is given.
abbrev pub Honest : Net → Type 0
Honest net = (k : ℕ) (fd : ℤ) (len n : ℕ) → net.send_result k fd len ≡ pos n → n ≤ len

Honest-Sent : {net net' : Net} {fd : ℤ} {p : Bytes} → Sent net net' fd p → Honest net → Honest net'
Honest-Sent s h k fd len n = rw s.kernel (h k fd len n)

module _ (again : Net → ℤ → Bytes → Outcome × Net) (fd : ℤ)
    (ih : (net : Net) (buf : Bytes) → Honest net → Delivers net fd buf (again net fd buf)) where
  chunk-Delivers :
      (net : Net) (buf : Bytes) (m : ℕ) (x : ℤ)
      → Honest net
      → ((n : ℕ) → x ≡ pos n → n ≤ m)
      → Delivers net fd buf (after_round again fd buf (after_send net fd (take m buf) x))
  unfolding after_round after_send
  chunk-Delivers net buf m (pos zero) honest le =
      nothing-Sent fd buf broken (after_send-Sent net fd (take m buf) zero) (λ e. cc)
  chunk-Delivers net buf m (pos (suc n)) honest le = record {
    part = take (suc n) (take m buf) ++ r.part;
    rest = r.rest;
    split =
        append_assoc (take (suc n) (take m buf)) r.part r.rest
        ∙ ap (λ t. take (suc n) (take m buf) ++ t) r.split
        ∙ ap (λ t. t ++ drop (suc n) buf) (take-take (suc n) m buf (le (suc n) refl))
        ∙ take-append-drop (suc n) buf;
    sent = Sent-trans (after_send-Sent net fd (take m buf) (suc n)) r.sent;
    whole = r.whole;
  }
    where
      after : Net
      after = (after_send net fd (take m buf) (pos (suc n))).1

      r : Delivers after fd (drop (suc n) buf) (again after fd (drop (suc n) buf))
      r =
          ih after (drop (suc n) buf)
            (Honest-Sent (after_send-Sent net fd (take m buf) (suc n)) honest)
  chunk-Delivers net buf m (negsuc n) honest le =
      nothing-Sent fd buf broken (after_send-fail-Sent net fd (take m buf) n) (λ e. cc)

-- Within the block the bytes are those of the data.
bytes_at-take : (n : ℕ) (s : Bytes) → n ≤ length s → bytes_at n s ≡ take n s
unfolding bytes_at
bytes_at-take zero s h = refl
bytes_at-take (suc n) [] h = elim h [ ]
bytes_at-take (suc n) (c ∷ s) h = ap (λ t. c ∷ t) (bytes_at-take n s (omega arith))

-- Over an honest kernel the chunks are a prefix of the data, and all of it if the loop ends by its
-- test.
send_chunks-Delivers :
    (fuel : ℕ) (net : Net) (fd : ℤ) (buf : Bytes)
    → Honest net
    → Delivers net fd buf (send_chunks fuel net fd buf)
unfolding send_chunks send
send_chunks-Delivers fuel net fd [] honest = record {
  part = [];
  rest = [];
  split = refl;
  sent = Sent-refl net fd;
  whole = λ e. refl;
}
send_chunks-Delivers zero net fd (c ∷ buf) honest =
    nothing-Sent fd (c ∷ buf) out_of_fuel (Sent-refl net fd) (λ e. cc)
send_chunks-Delivers (suc fuel) net fd (c ∷ buf) honest = rw inside (
    chunk-Delivers (send_chunks fuel) fd (λ net' buf'. send_chunks-Delivers fuel net' fd buf') net
      (c ∷ buf) (chunk_size (suc (length buf)))
      (net.send_result net.sends fd (length (take (chunk_size (suc (length buf))) (c ∷ buf))))
      honest
      (λ n e. omega (
        arith,
        honest net.sends fd (length (take (chunk_size (suc (length buf))) (c ∷ buf))) n e,
        length-take {0} (chunk_size (suc (length buf))) (c ∷ buf),
      )))
  where
    inside :
        bytes_at (chunk_size (suc (length buf))) (c ∷ buf)
        ≡ take (chunk_size (suc (length buf))) (c ∷ buf)
    inside =
        bytes_at-take (chunk_size (suc (length buf))) (c ∷ buf) (chunk_size_bounds (length buf)).1

chunks_sent-Puts :
    (net : Net) (fd : ℤ) (buf : Bytes) (r : Outcome × Net)
    → Delivers net fd buf r
    → Puts net fd buf (chunks_sent r)
unfolding chunks_sent
chunks_sent-Puts net fd buf (done, net') d = record {
  part = d.part;
  rest = d.rest;
  split = d.split;
  sent = d.sent;
  whole = λ e. d.whole refl;
}
chunks_sent-Puts net fd buf (ended, net') d = record {
  part = d.part;
  rest = d.rest;
  split = d.split;
  sent = d.sent;
  whole = λ e. cc;
}
chunks_sent-Puts net fd buf (broken, net') d = record {
  part = d.part;
  rest = d.rest;
  split = d.split;
  sent = d.sent;
  whole = λ e. cc;
}
chunks_sent-Puts net fd buf (out_of_fuel, net') d = record {
  part = d.part;
  rest = d.rest;
  split = d.split;
  sent = d.sent;
  whole = λ e. cc;
}

module _ (fd : ℤ) (contents : Bytes) where
  -- The call of `send` for the size, with its result `x`.
  size_sent-Puts :
      (net : Net) (size : Bytes) (x : ℤ)
      → length size ≡ 4
      → Honest net
      → Puts net fd (size ++ contents) (size_sent fd contents (after_send net fd size x))
  unfolding size_sent after_send eq_int
  size_sent-Puts net size (pos n) four honest = elim (Bool-cases (n == 4)) [
    | inl all ↦ rw all (
        Puts-then
          (subst (λ t. Sent net (after_send net fd size (pos n)).1 fd t)
            (take-all n size (ground arith)) (after_send-Sent net fd size n))
          (chunks_sent-Puts _ fd contents (send_chunks (length contents) _ fd contents) (
            send_chunks-Delivers (length contents) _ fd contents
              (Honest-Sent (after_send-Sent net fd size n) honest))))
    | inr some' ↦ rw some' (
        Puts-stop contents (take n size) (drop n size) (take-append-drop n size)
          (after_send-Sent net fd size n))
  ]
  size_sent-Puts net size (negsuc n) four honest =
      Puts-stop contents [] size refl (after_send-fail-Sent net fd size n)

  header_sent-Puts :
      (net : Net) (text : Bytes) (r : ℤ × Net)
      → Posts net fd text r
      → Honest net
      → Puts net fd
          (frame text ++ (htonl (length contents % 2 ^ 32) ++ contents))
          (header_sent fd contents r)
  unfolding header_sent send
  header_sent-Puts net text (code, net') p honest = elim (Bool-cases (eq_int code success)) [
    | inl good ↦
        let all : p.part ≡ frame text =
          sym (append-nil p.part)
          ∙ ap (λ t. p.part ++ t) (sym (p.whole ((eq_int_iff code success).0 good)))
          ∙ p.split in
        rw good (
          Puts-then (subst (λ t. Sent net net' fd t) all p.sent) (
            size_sent-Puts net' (htonl (length contents % 2 ^ 32)) _
              (length-htonl (length contents % 2 ^ 32)) (Honest-Sent p.sent honest)))
    | inr bad ↦ rw bad (Puts-stop _ p.part p.rest p.split p.sent)
  ]

-- Over a kernel that takes no more than it is given, `send_file_to_client` puts on its own socket
-- a prefix of the header's frame, the size in four bytes and the data, and nothing on another's;
-- and it puts all of that where it returns 0.
pub send_file_to_client-Puts :
    (net : Net) (fd : ℤ) (filename sender contents : Bytes)
    → Honest net
    → Puts net fd
        (frame (render (file_download filename (length contents) sender))
          ++ (htonl (length contents % 2 ^ 32) ++ contents))
        (send_file_to_client net fd filename sender contents)
unfolding send_file_to_client
send_file_to_client-Puts net fd filename sender contents honest =
    header_sent-Puts fd contents net (render (file_download filename (length contents) sender))
      (send_message net fd (render (file_download filename (length contents) sender)))
      (send_message-Posts net fd (render (file_download filename (length contents) sender))) honest
