-- ===== src/Client/Download/Loop.antt =====
-- The loops of a download: the pieces that come, and their writing.
use tcp_chat_server_c.Base.{
  [], ap, append-nil, append_assoc, arith, drop, length, length-drop, pos, refl, subst, suc, sym,
  take, take-append-drop, zero, ℕ, ℤ, ◌++◌, ◌+◌, ◌-◌, ◌<◌, ◌∙◌, ◌∷◌, ◌≡◌, ◌≤◌,
}
use tcp_chat_server_c.CString.{Bytes}
use tcp_chat_server_c.Wire.{Net, Outcome, done, got, recv}
use tcp_chat_server_c.Wire.Receive.{Pending, Piece, Serves, append-split, next-Piece, recv-piece}
use tcp_chat_server_c.FileTransfer.{chunk_limit, chunk_size}
use tcp_chat_server_c.FileTransfer.Upload.{chunk_size_bounds}
use tcp_chat_server_c.Client.Download.{
  Disk, after_write, chunk_received, chunk_written, download_chunks, write_loop,
}

-- `write` makes progress, and takes no more than it is given.
abbrev pub Steady : Disk → Type 0
Steady disk =
    (k len : ℕ) → 0 < len → (n : ℕ) × (disk.write_result k len ≡ pos n) × (0 < n) × (n ≤ len)

-- The piece has been appended to the file.
record Appends (disk : Disk) (piece : Bytes) (r : Outcome × Disk) : Type 0 where
  ends : r.0 ≡ done
  saved : r.1.saved ≡ disk.saved ++ piece
  kernel : r.1.write_result ≡ disk.write_result

after_write-Appends :
    (onward : Disk → Bytes → Outcome × Disk) (disk : Disk) (piece : Bytes) (n : ℕ) (x : ℤ)
    → x ≡ pos n
    → ((disk' : Disk)
        → disk'.write_result ≡ disk.write_result
        → Appends disk' (drop n piece) (onward disk' (drop n piece)))
    → Appends disk piece (after_write onward disk piece x)
unfolding after_write
after_write-Appends onward disk piece n x e ih =
    let r : Appends (record disk { writes = disk.writes + 1; saved = disk.saved ++ take n piece })
        (drop n piece)
        (onward (record disk { writes = disk.writes + 1; saved = disk.saved ++ take n piece })
          (drop n piece)) =
      ih _ refl in
    rw e (record {
      ends = r.ends;
      saved =
          r.saved
          ∙ append_assoc disk.saved (take n piece) (drop n piece)
          ∙ ap (λ t. disk.saved ++ t) (take-append-drop n piece);
      kernel = r.kernel;
    })

-- As many rounds as there are bytes are enough where `write` makes progress.
write_loop-Appends :
    (fuel : ℕ) (disk : Disk) (piece : Bytes)
    → length piece ≤ fuel
    → Steady disk
    → Appends disk piece (write_loop fuel disk piece)
unfolding write_loop
write_loop-Appends fuel disk [] h steady = record {
  ends = refl;
  saved = sym (append-nil disk.saved);
  kernel = refl;
}
write_loop-Appends zero disk (c ∷ piece) h steady = elim h [ ]
write_loop-Appends (suc fuel) disk (c ∷ piece) h steady =
    let (n, e, some_bytes, le) = steady disk.writes (length (c ∷ piece)) (omega arith) in
    after_write-Appends (write_loop fuel) disk (c ∷ piece) n _ e (λ disk' same.
      write_loop-Appends fuel disk' (drop n (c ∷ piece))
        (omega (arith, some_bytes, h, length-drop {0} n (c ∷ piece)))
        (subst
          (λ (f : ℕ → ℕ → ℤ).
            (k len : ℕ) → 0 < len → (n : ℕ) × (f k len ≡ pos n) × (0 < n) × (n ≤ len))
          (sym same) steady))

-- The loop has saved `want` and left `later`.
pub record Downloads (net : Net) (fd : ℤ) (disk : Disk) (want later : Bytes)
    (r : Outcome × Net × Disk) : Type 0 where
  pub ends : r.0 ≡ done
  pub saved : r.2.saved ≡ disk.saved ++ want
  pub left : Pending r.1 fd later
  pub output : r.1.wire ≡ net.wire

chunk_written-done :
    (onward : Disk → Outcome × Net × Disk) (net : Net) (r : Outcome × Disk)
    → r.0 ≡ done
    → chunk_written onward net r ≡ onward r.1
unfolding chunk_written
chunk_written-done onward net (done, disk) e = refl
chunk_written-done onward net (_, disk) e = absurd (cc e)

chunk_received-cons :
    (patience : ℕ) (onward : ℕ → Net → Disk → Outcome × Net × Disk) (remaining : ℕ) (disk : Disk)
    (bs : Bytes) (net : Net)
    → 0 < length bs
    → chunk_received patience onward remaining disk (got bs, net)
      ≡ chunk_written (onward (remaining - length bs) net) net (write_loop patience disk bs)
unfolding chunk_received
chunk_received-cons patience onward remaining disk [] net h = elim h [ ]
chunk_received-cons patience onward remaining disk (c ∷ bs) net h = refl

chunk_size_small : (n : ℕ) → (chunk_size n ≤ chunk_limit) × (chunk_size n ≤ n)
unfolding chunk_size
chunk_size_small n = ground arith

Steady-same : (a b : Disk) → b.write_result ≡ a.write_result → Steady a → Steady b
Steady-same a b e steady k len = rw e (steady k len)

module _ (patience : ℕ) (fd : ℤ) (enough : chunk_limit ≤ patience) where
  chunk-Downloads :
      (onward : ℕ → Net → Disk → Outcome × Net × Disk) (net : Net) (disk : Disk)
      (want later : Bytes)
      (p : Piece net.recv_result fd net.recvs (want ++ later) (chunk_size (length want)))
      → Steady disk
      → ((missing : Bytes) (disk' : Disk)
          → length missing < length want
          → Steady disk'
          → Pending
              (record net { recvs = (fd, chunk_size (length want)) ∷ net.recvs })
              fd
              (missing ++ later)
          → Downloads
              (record net { recvs = (fd, chunk_size (length want)) ∷ net.recvs })
              fd
              disk'
              missing
              later
              (onward
                (length missing)
                (record net { recvs = (fd, chunk_size (length want)) ∷ net.recvs })
                disk'))
      → Downloads net fd disk want later (
          chunk_received patience onward
            (length want)
            disk
            (recv net fd (chunk_size (length want))))
  chunk-Downloads onward net disk want later p steady ih =
      rw
        (
          recv-piece net fd (chunk_size (length want)) p.piece p.comes p.no_more,
          chunk_received-cons patience onward (length want) disk p.piece _ p.some_bytes,
          chunk_written-done (onward (length want - length p.piece) _) _
              (write_loop patience disk p.piece) w.ends,
          count,
        )
        (record {
          ends = rest.ends;
          saved =
              rest.saved
              ∙ ap (λ t. t ++ missing) w.saved
              ∙ append_assoc disk.saved p.piece missing
              ∙ ap (λ t. disk.saved ++ t) cut.0;
          left = rest.left;
          output = rest.output;
        })
    where
      inside : length p.piece ≤ length want
      inside = omega (arith, p.no_more, chunk_size_small (length want))

      missing : Bytes
      missing = drop (length p.piece) want

      cut : (p.piece ++ missing ≡ want) × (p.rest ≡ missing ++ later)
      cut = append-split p.piece p.rest want later p.split inside

      count : length want - length p.piece ≡ length missing
      count = sym (length-drop {0} (length p.piece) want)

      w : Appends disk p.piece (write_loop patience disk p.piece)
      w =
          write_loop-Appends patience disk p.piece
            (omega (arith, p.no_more, chunk_size_small (length want), enough)) steady

      rest :
          Downloads
            (record net { recvs = (fd, chunk_size (length want)) ∷ net.recvs })
            fd
            (write_loop patience disk p.piece).1
            missing
            later
            (onward
              (length missing)
              (record net { recvs = (fd, chunk_size (length want)) ∷ net.recvs })
              (write_loop patience disk p.piece).1)
      rest =
          ih missing (write_loop patience disk p.piece).1
            (omega (arith, p.some_bytes, inside, length-drop {0} (length p.piece) want))
            (Steady-same disk (write_loop patience disk p.piece).1 w.kernel steady)
            (subst (λ t. Serves net.recv_result fd ((fd, chunk_size (length want)) ∷ net.recvs) t)
              cut.1 p.later)

  -- The loop over the chunks saves what it wants and leaves the rest.
  pub download_chunks-Downloads :
      (fuel : ℕ) (net : Net) (disk : Disk) (want later : Bytes)
      → length want ≤ fuel
      → Steady disk
      → Pending net fd (want ++ later)
      → Downloads net fd disk want later (download_chunks patience fd fuel (length want) net disk)
  unfolding download_chunks
  download_chunks-Downloads fuel net disk [] later h steady s = record {
    ends = refl;
    saved = sym (append-nil disk.saved);
    left = s;
    output = refl;
  }
  download_chunks-Downloads zero net disk (c ∷ w) later h steady s = elim h [ ]
  download_chunks-Downloads (suc fuel) net disk (c ∷ w) later h steady s =
      chunk-Downloads (download_chunks patience fd fuel) net disk (c ∷ w) later
        (next-Piece s (λ e. cc) (chunk_size (suc (length w))) (chunk_size_bounds (length w)).0)
        steady
        (λ missing disk' lt steady' p.
          download_chunks-Downloads fuel _ disk' missing later (omega arith) steady' p)
