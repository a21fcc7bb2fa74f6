-- ===== src/FileTransfer/Upload.antt =====
-- The upload of a file, over a kernel that hands the stream over in pieces of any size.
use tcp_chat_server_c.Base.{
  Option, [], ap, append-nil, arith, leb, length, refl, some, suc, sym, true, zero, ℕ, ℤ, ◌++◌, ◌<◌,
  ◌∷◌, ◌≡◌, ◌≤◌,
}
use tcp_chat_server_c.CString.{Bytes}
use tcp_chat_server_c.Wire.{Net, Outcome, broken, done, ended, got, htonl, out_of_fuel, recv}
use tcp_chat_server_c.Wire.Receive.{Pending, Reads, next-Piece, round-Reads}
use tcp_chat_server_c.Wire.RoundTrip.{length-htonl, ntohl-htonl}
use tcp_chat_server_c.FileQueue.{max_file_size, validate_file_size_limit}
use tcp_chat_server_c.FileTransfer.{
  chunk_size, receive_chunks, receive_data, receive_file_from_client, receive_size, received_file,
}

pub chunk_size_bounds : (n : ℕ) → (0 < chunk_size (suc n)) × (chunk_size (suc n) ≤ suc n)
unfolding chunk_size
chunk_size_bounds n = ground arith

-- The loop over the chunks reads the data and leaves what follows it.
receive_chunks-Reads :
    (fuel : ℕ) (net : Net) (fd : ℤ) (want later buf : Bytes)
    → length want ≤ fuel
    → Pending net fd (want ++ later)
    → Reads net fd (buf ++ want) later (receive_chunks fuel net fd (length want) buf)
unfolding receive_chunks
receive_chunks-Reads fuel net fd [] later buf h s = record {
  ends = refl;
  bytes = sym (append-nil buf);
  left = s;
  output = refl;
}
receive_chunks-Reads zero net fd (c ∷ w) later buf h s = elim h [ ]
receive_chunks-Reads (suc fuel) net fd (c ∷ w) later buf h s =
    round-Reads (receive_chunks fuel) net fd (c ∷ w) later buf (chunk_size (suc (length w)))
      (next-Piece s (λ e. cc) (chunk_size (suc (length w))) (chunk_size_bounds (length w)).0)
      (chunk_size_bounds (length w)).1
      (λ missing buf' lt p. receive_chunks-Reads fuel _ fd missing later buf' (omega arith) p)

-- The file has been received, and `later` is left.
pub record Uploaded (net : Net) (fd : ℤ) (content later : Bytes) (r : Option Bytes × Net)
    : Type 0 where
  pub file : r.0 ≡ some content
  pub left : Pending r.1 fd later
  pub output : r.1.wire ≡ net.wire

received_file-Uploaded :
    (net : Net) (fd : ℤ) (content later : Bytes) (r : Outcome × Bytes × Net)
    → Reads net fd content later r
    → Uploaded net fd content later (received_file r)
unfolding received_file
received_file-Uploaded net fd content later (done, buf, net') s = record {
  file = ap some s.bytes;
  left = s.left;
  output = s.output;
}
received_file-Uploaded net fd content later (ended, buf, net') s = absurd (cc (s.ends))
received_file-Uploaded net fd content later (broken, buf, net') s = absurd (cc (s.ends))
received_file-Uploaded net fd content later (out_of_fuel, buf, net') s = absurd (cc (s.ends))

-- A file within the limit whose size the first call of `recv` gives in one piece, and whose data
-- the kernel hands over next in whatever pieces, is received whole if there is memory for it, and
-- what follows it in the stream is left.
pub receive_file_from_client-Uploaded :
    (net net' : Net) (fd : ℤ) (content later : Bytes)
    → recv net fd 4 ≡ (got (htonl (length content)), net')
    → length content ≤ max_file_size
    → Pending net' fd (content ++ later)
    → Uploaded net' fd content later (receive_file_from_client true net fd)
unfolding receive_file_from_client receive_size receive_data validate_file_size_limit max_file_size
receive_file_from_client-Uploaded net net' fd content later e small s =
    rw
      (
        e,
        receive_size,
        length-htonl (length content),
        ntohl-htonl (length content) (omega (arith, small)),
        fits,
      )
      (received_file-Uploaded net' fd content later
        (receive_chunks (length content) net' fd (length content) [])
        (receive_chunks-Reads (length content) net' fd content later [] (omega arith) s))
  where
    fits : leb (length content) max_file_size ≡ true
    fits = ground arith
