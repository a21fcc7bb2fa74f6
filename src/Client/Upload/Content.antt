-- ===== src/Client/Upload/Content.antt =====
-- What an upload puts on the wire, and what the server makes of it.
use tcp_chat_server_c.Base.{
  Bool-cases, [], ap, append-nil, arith, drop, eq_int, false, inl, inr, length, length-append, ltb,
  negsuc, pos, refl, some, subst, suc, sym, take, take-all, take-append-drop, true, zero, ℕ, ℤ, ◌%◌,
  ◌++◌, ◌-◌, ◌==◌, ◌^◌, ◌∙◌, ◌∷◌, ◌≡◌, ◌≢◌, ◌≤◌,
}
use tcp_chat_server_c.CString.{Bytes}
use tcp_chat_server_c.Wire.{
  Net, Outcome, Received, after_send, cap_received, done, got, htonl, recv, send, sent_to,
}
use tcp_chat_server_c.Wire.Sent.{Sent, Sent-refl, after_send-Sent, after_send-fail-Sent}
use tcp_chat_server_c.Wire.Send.{Delivers, send_loop-Delivers}
use tcp_chat_server_c.Wire.Receive.{Pending}
use tcp_chat_server_c.Wire.RoundTrip.{length-htonl}
use tcp_chat_server_c.FileQueue.{max_file_size}
use tcp_chat_server_c.FileTransfer.{chunk_limit, receive_file_from_client}
use tcp_chat_server_c.FileTransfer.Upload.{Uploaded, receive_file_from_client-Uploaded}
use tcp_chat_server_c.FileTransfer.Puts.{Puts, Puts-fresh, Puts-stop, Puts-then}
use tcp_chat_server_c.Client.Commands.{FileSystem, get_file_size, validate_local_file}
use tcp_chat_server_c.Client.Upload.{
  OpenFile, after_read, announced, piece_sent, upload_chunks, upload_file_to_server, upload_sized,
  uploaded,
}

-- From its k-th call on `read` gives the bytes `bs`, in non-empty pieces of at most 4096.
pub data Holds (reads : ℕ → Received) : ℕ → Bytes → Type 0 where
  at_end : {k : ℕ} → Holds reads k []
  block :
      {k : ℕ} {bs : Bytes} (c : ℕ) (piece rest : Bytes)
      → reads k ≡ got (c ∷ piece)
      → length (c ∷ piece) ≤ chunk_limit
      → (c ∷ piece) ++ rest ≡ bs
      → Holds reads (suc k) rest
      → Holds reads k bs

-- A piece and then the rest of the file.
piece_sent-Puts :
    (net : Net) (fd : ℤ) (piece rest : Bytes) (onward : Net → Outcome × Net) (r : Outcome × Net)
    → Delivers net fd piece r
    → ((net' : Net) → Puts net' fd rest (uploaded (onward net')))
    → Puts net fd (piece ++ rest) (uploaded (piece_sent onward r))
unfolding piece_sent uploaded
piece_sent-Puts net fd piece rest onward (done, net') d ih =
    Puts-then
      (subst (λ t. Sent net net' fd t)
        (sym (append-nil d.part) ∙ ap (λ t. d.part ++ t) (sym (d.whole refl)) ∙ d.split) d.sent)
      (ih net')
piece_sent-Puts net fd piece rest onward (_, net') d ih =
    Puts-stop rest d.part d.rest d.split d.sent

record Block (reads : ℕ → Received) (k : ℕ) (bs : Bytes) : Type 0 where
  first : ℕ
  piece : Bytes
  rest : Bytes
  comes : reads k ≡ got (first ∷ piece)
  small : length (first ∷ piece) ≤ chunk_limit
  split : (first ∷ piece) ++ rest ≡ bs
  later : Holds reads (suc k) rest

next-Block :
    {reads : ℕ → Received} {k : ℕ} {bs : Bytes} → Holds reads k bs → bs ≢ [] → Block reads k bs
next-Block at_end ne = absurd (ne refl)
next-Block (block c piece rest comes small split later) ne = record {
  first = c;
  piece = piece;
  rest = rest;
  comes = comes;
  small = small;
  split = split;
  later = later;
}

cap_received-all : (n : ℕ) (bs : Bytes) → length bs ≤ n → cap_received n (got bs) ≡ got bs
unfolding cap_received
cap_received-all n bs h = ap got (take-all n bs h)

after_read-Puts :
    (onward : ℕ → Net → Outcome × Net) (net : Net) (fd : ℤ) (c : ℕ) (piece rest : Bytes)
    → ((net' : Net) → Puts net' fd rest (uploaded (onward (length rest) net')))
    → Puts net fd
        ((c ∷ piece) ++ rest)
        (uploaded (after_read onward net fd (length ((c ∷ piece) ++ rest)) (got (c ∷ piece))))
unfolding after_read
after_read-Puts onward net fd c piece rest ih = rw missing (
    piece_sent-Puts net fd (c ∷ piece) rest (onward (length rest)) _
      (send_loop-Delivers (length (c ∷ piece)) net fd (c ∷ piece)) ih)
  where
    missing : length ((c ∷ piece) ++ rest) - length (c ∷ piece) ≡ length rest
    missing = omega (arith, length-append {0} (c ∷ piece) rest)

-- The loop puts a prefix of the file on the wire, and all of it where it counts as a success.
upload_chunks-Puts :
    (reads : ℕ → Received) (fd : ℤ) (fuel k : ℕ) (net : Net) (bs : Bytes)
    → length bs ≤ fuel
    → Holds reads k bs
    → Puts net fd bs (uploaded (upload_chunks reads fd fuel k (length bs) net))
unfolding upload_chunks uploaded
upload_chunks-Puts reads fd fuel k net [] h s = record {
  part = [];
  rest = [];
  split = refl;
  sent = Sent-refl net fd;
  whole = λ e. refl;
}
upload_chunks-Puts reads fd zero k net (c ∷ bs) h s = elim h [ ]
upload_chunks-Puts reads fd (suc fuel) k net (c ∷ bs) h s =
    let b : Block reads k (c ∷ bs) = next-Block s (λ e. cc) in
    let fits : length b.rest ≤ fuel =
      omega (arith, length-append {0} (b.first ∷ b.piece) b.rest, ap length b.split) in
    rw (b.comes, cap_received-all chunk_limit (b.first ∷ b.piece) b.small)
      (subst
        (λ t. Puts net fd t (
          uploaded (
            after_read (upload_chunks reads fd fuel (suc k)) net fd (length t)
              (got (b.first ∷ b.piece)))))
        b.split
        (after_read-Puts (upload_chunks reads fd fuel (suc k)) net fd b.first b.piece b.rest
          (λ net'. upload_chunks-Puts reads fd fuel (suc k) net' b.rest fits b.later)))

-- The call of `send` for the size, with its result `x`.
announced-Puts :
    (reads : ℕ → Received) (fd : ℤ) (content : Bytes) (net : Net) (size : Bytes) (x : ℤ)
    → length size ≡ 4
    → Holds reads 0 content
    → Puts net fd (size ++ content) (announced reads fd (length content) (after_send net fd size x))
unfolding announced after_send eq_int
announced-Puts reads fd content net size (pos n) four s = elim (Bool-cases (n == 4)) [
  | inl all ↦ rw all (
      Puts-then
        (subst (λ t. Sent net (after_send net fd size (pos n)).1 fd t)
          (take-all n size (ground arith)) (after_send-Sent net fd size n))
        (upload_chunks-Puts reads fd (length content) 0 _ content (omega arith) s))
  | inr some' ↦ rw some' (
      Puts-stop content (take n size) (drop n size) (take-append-drop n size)
        (after_send-Sent net fd size n))
]
announced-Puts reads fd content net size (negsuc n) four s =
    Puts-stop content [] size refl (after_send-fail-Sent net fd size n)

-- A file that can be uploaded: it passes the check of its name, its size is the one that `stat`
-- gives, and it can be read.
pub record Uploadable (fs : FileSystem) (file : OpenFile) (filename content : Bytes) : Type 0 where
  pub good : validate_local_file fs filename ≡ true
  pub size : get_file_size fs filename ≡ some (length content)
  pub small : length content ≤ max_file_size
  pub opens : file.opens ≡ true
  pub stats : file.stats ≡ true
  pub holds : Holds file.reads 0 content

-- The upload of a file that stays as `stat` saw it puts on the socket a prefix of its size in four
-- bytes and its content, and nothing on another's; and it puts all of that where it returns 0.
pub upload_file_to_server-Puts :
    (fs : FileSystem) (file : OpenFile) (net : Net) (fd : ℤ) (filename content : Bytes)
    → Uploadable fs file filename content
    → Puts net fd
        (htonl (length content) ++ content)
        (upload_file_to_server fs file net fd filename)
unfolding upload_file_to_server upload_sized send
upload_file_to_server-Puts fs file net fd filename content u =
    rw (u.good, u.size, fits, u.opens, u.stats, modulo)
      (announced-Puts file.reads fd content net (htonl (length content)) _
        (length-htonl (length content)) u.holds)
  where
    fits : ltb max_file_size (length content) ≡ false
    fits = ground (arith, u.small)

    modulo : length content % 2 ^ 32 ≡ length content
    modulo = unfold max_file_size in omega (arith, u.small)

-- The server receives the file that the client has uploaded: where `upload_file_to_server` returns
-- 0, and the server's kernel hands over what the client's kernel took, the first four bytes in one
-- piece and the rest in whatever pieces, `receive_file_from_client` returns the content. The
-- client's socket had taken nothing before, and the server has memory for the file.
pub receive_file_from_client-upload_file_to_server :
    (fs : FileSystem) (file : OpenFile) (net server server' : Net) (fd end : ℤ)
    (filename content : Bytes)
    → Uploadable fs file filename content
    → sent_to fd net.wire ≡ []
    → (upload_file_to_server fs file net fd filename).0 ≡ true
    → recv server end 4
      ≡ (got (take 4 (sent_to fd (upload_file_to_server fs file net fd filename).1.wire)), server')
    → Pending server' end
        (drop 4 (sent_to fd (upload_file_to_server fs file net fd filename).1.wire))
    → Uploaded server' end content [] (receive_file_from_client true server end)
unfolding htonl
receive_file_from_client-upload_file_to_server fs file net server server' fd end filename content u
      fresh ok first rest =
    receive_file_from_client-Uploaded server server' end content []
      (first ∙ ap (λ t. (got (take 4 t), server')) whole) u.small
      (subst (λ t. Pending server' end t) (ap (λ t. drop 4 t) whole ∙ sym (append-nil content))
        rest)
  where
    whole :
        sent_to fd (upload_file_to_server fs file net fd filename).1.wire
        ≡ htonl (length content) ++ content
    whole =
        Puts-fresh net fd (htonl (length content) ++ content)
          (upload_file_to_server fs file net fd filename)
          (upload_file_to_server-Puts fs file net fd filename content u) fresh ok
