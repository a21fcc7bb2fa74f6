-- ===== src/Wire/Receive.antt =====
-- What `receive_message` makes of a byte stream that the kernel hands over in pieces of any size.
use tcp_chat_server_c.Base.{
  List, [], ap, append-nil, append_assoc, arith, drop, length, length-drop, refl, subst, suc, sym,
  take-all, zero, ℕ, ℤ, ◌++◌, ◌-◌, ◌<◌, ◌∙◌, ◌∷◌, ◌≡◌, ◌≢◌, ◌≤◌,
}
use tcp_chat_server_c.CString.{Bytes}
use tcp_chat_server_c.Wire.{
  Net, Outcome, Received, after_recv, cap_received, done, got, recv, recv_loop,
}

-- The kernel holds the bytes `bs` for the socket, after the calls `k`: a call that asks for
-- something gets a non-empty piece, no longer than asked for, until nothing is left.
pub data Serves (source : List (ℤ × ℕ) → ℤ → ℕ → Received) (fd : ℤ)
    : List (ℤ × ℕ) → Bytes → Type 0 where
  dry : {k : List (ℤ × ℕ)} → Serves source fd k []
  more :
      {k : List (ℤ × ℕ)} {bs : Bytes} (piece rest : ℕ → Bytes)
      → ((n : ℕ) → 0 < n → source k fd n ≡ got (piece n))
      → ((n : ℕ) → 0 < n → 0 < length (piece n))
      → ((n : ℕ) → 0 < n → length (piece n) ≤ n)
      → ((n : ℕ) → 0 < n → piece n ++ rest n ≡ bs)
      → ((n : ℕ) → 0 < n → Serves source fd ((fd, n) ∷ k) (rest n))
      → Serves source fd k bs

-- The net still serves `bs` to the socket.
abbrev pub Pending : Net → ℤ → Bytes → Type 0
Pending net fd bs = Serves net.recv_result fd net.recvs bs

-- The loop has read `want` and left `later`.
pub record Reads (net : Net) (fd : ℤ) (want later : Bytes) (r : Outcome × Bytes × Net)
    : Type 0 where
  pub ends : r.0 ≡ done
  pub bytes : r.1 ≡ want
  pub left : Pending r.2 fd later
  pub output : r.2.wire ≡ net.wire

pub record Piece (source : List (ℤ × ℕ) → ℤ → ℕ → Received) (fd : ℤ) (k : List (ℤ × ℕ)) (bs : Bytes)
    (n : ℕ) : Type 0 where
  pub piece : Bytes
  pub rest : Bytes
  pub comes : source k fd n ≡ got piece
  pub some_bytes : 0 < length piece
  pub no_more : length piece ≤ n
  pub split : piece ++ rest ≡ bs
  pub later : Serves source fd ((fd, n) ∷ k) rest

pub next-Piece :
    {source : List (ℤ × ℕ) → ℤ → ℕ → Received} {fd : ℤ} {k : List (ℤ × ℕ)} {bs : Bytes}
    → Serves source fd k bs
    → bs ≢ []
    → (n : ℕ) → 0 < n
    → Piece source fd k bs n
next-Piece dry ne n h = absurd (ne refl)
next-Piece (more piece rest comes some_bytes no_more split later) ne n h = record {
  piece = piece n;
  rest = rest n;
  comes = comes n h;
  some_bytes = some_bytes n h;
  no_more = no_more n h;
  split = split n h;
  later = later n h;
}

pub append-split :
    (p r w l : Bytes)
    → p ++ r ≡ w ++ l
    → length p ≤ length w
    → (p ++ drop (length p) w ≡ w) × (r ≡ drop (length p) w ++ l)
append-split [] r w l e h = (refl, e)
append-split (x ∷ p) r [] l e h = absurd (omega arith)
append-split (x ∷ p) r (y ∷ w) l e h = ground (arith, append-split p r w l)

after_recv-cons :
    (again : Net → ℤ → ℕ → Bytes → Outcome × Bytes × Net) (fd : ℤ) (want : ℕ) (buf bs : Bytes)
    (net : Net)
    → 0 < length bs
    → after_recv again fd want buf (got bs, net) ≡ again net fd (want - length bs) (buf ++ bs)
unfolding after_recv
after_recv-cons again fd want buf [] net h = elim h [ ]
after_recv-cons again fd want buf (c ∷ bs) net h = refl

pub recv-piece :
    (net : Net) (fd : ℤ) (n : ℕ) (piece : Bytes)
    → net.recv_result net.recvs fd n ≡ got piece
    → length piece ≤ n
    → recv net fd n ≡ (got piece, record net { recvs = (fd, n) ∷ net.recvs })
unfolding recv cap_received
recv-piece net fd n piece e h = ground (arith, take-all {0} n piece)

-- One round that asks for `cap` bytes, if the next round reads what is missing.
pub round-Reads :
    (again : Net → ℤ → ℕ → Bytes → Outcome × Bytes × Net) (net : Net) (fd : ℤ)
    (want later buf : Bytes) (cap : ℕ) (p : Piece net.recv_result fd net.recvs (want ++ later) cap)
    → cap ≤ length want
    → ((missing buf' : Bytes)
        → length missing < length want
        → Pending (record net { recvs = (fd, cap) ∷ net.recvs }) fd (missing ++ later)
        → Reads
            (record net { recvs = (fd, cap) ∷ net.recvs })
            fd
            (buf' ++ missing)
            later
            (again (record net { recvs = (fd, cap) ∷ net.recvs }) fd (length missing) buf'))
    → Reads net fd (buf ++ want) later (after_recv again fd (length want) buf (recv net fd cap))
round-Reads again net fd want later buf cap p le ih =
    rw
      (
        recv-piece net fd cap p.piece p.comes p.no_more,
        after_recv-cons again fd (length want) buf p.piece _ p.some_bytes,
        count,
        target,
      )
      (record { ends = rest.ends; bytes = rest.bytes; left = rest.left; output = rest.output })
  where
    inside : length p.piece ≤ length want
    inside = omega (arith, p.no_more, le)

    missing : Bytes
    missing = drop (length p.piece) want

    cut : (p.piece ++ missing ≡ want) × (p.rest ≡ missing ++ later)
    cut = append-split p.piece p.rest want later p.split inside

    count : length want - length p.piece ≡ length missing
    count = sym (length-drop {0} (length p.piece) want)

    target : buf ++ want ≡ (buf ++ p.piece) ++ missing
    target = ap (λ t. buf ++ t) (sym cut.0) ∙ sym (append_assoc buf p.piece missing)

    rest :
        Reads
          (record net { recvs = (fd, cap) ∷ net.recvs })
          fd
          ((buf ++ p.piece) ++ missing)
          later
          (again
            (record net { recvs = (fd, cap) ∷ net.recvs })
            fd
            (length missing)
            (buf ++ p.piece))
    rest =
        ih missing (buf ++ p.piece)
          (omega (arith, p.some_bytes, inside, length-drop {0} (length p.piece) want))
          (subst (λ t. Serves net.recv_result fd ((fd, cap) ∷ net.recvs) t) cut.1 p.later)

-- The loop reads what it wants and leaves the rest, in whatever pieces the bytes come.
pub recv_loop-Reads :
    (fuel : ℕ) (net : Net) (fd : ℤ) (want later buf : Bytes)
    → length want ≤ fuel
    → Pending net fd (want ++ later)
    → Reads net fd (buf ++ want) later (recv_loop fuel net fd (length want) buf)
unfolding recv_loop
recv_loop-Reads fuel net fd [] later buf h s = record {
  ends = refl;
  bytes = sym (append-nil buf);
  left = s;
  output = refl;
}
recv_loop-Reads zero net fd (c ∷ w) later buf h s = elim h [ ]
recv_loop-Reads (suc fuel) net fd (c ∷ w) later buf h s =
    round-Reads (recv_loop fuel) net fd (c ∷ w) later buf (suc (length w))
      (next-Piece s (λ e. cc) (suc (length w)) (omega arith)) (omega arith)
      (λ missing buf' lt p. recv_loop-Reads fuel _ fd missing later buf' (omega arith) p)
