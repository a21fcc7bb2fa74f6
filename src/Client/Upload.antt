-- ===== src/Client/Upload.antt =====
-- client/client_helper.c, `upload_file_to_server`: the upload that the server asks for. The file is
-- a parameter: what `open`, `fstat` and the n-th `read` do.
pub mod Content
use tcp_chat_server_c.Base.{
  Bool, Option, [], eq_int, false, if◌then◌else◌, length, ltb, none, not, pos, some, suc, true,
  zero, ℕ, ℤ, ◌%◌, ◌-◌, ◌^◌, ◌∷◌,
}
use tcp_chat_server_c.CString.{Bytes}
use tcp_chat_server_c.Wire.{
  Net, Outcome, Received, broken, cap_received, closed, done, ended, failed, got, htonl,
  out_of_fuel, send, send_loop,
}
use tcp_chat_server_c.FileQueue.{max_file_size}
use tcp_chat_server_c.FileTransfer.{chunk_limit}
use tcp_chat_server_c.Client.Commands.{FileSystem, get_file_size, validate_local_file}

pub record OpenFile : Type 0 where
  pub opens : Bool
  pub stats : Bool
  pub reads : ℕ → Received

-- A piece of the file has been sent, or the connection was lost within it.
piece_sent : (Net → Outcome × Net) → Outcome × Net → Outcome × Net
piece_sent onward (done, net) = onward net
piece_sent onward (_, net) = (broken, net)

-- What `read` returned, with what is missing of the file; `onward` is the next round.
unfoldable pub after_read : (ℕ → Net → Outcome × Net) → Net → ℤ → ℕ → Received → Outcome × Net
unfolding piece_sent
after_read onward net fd remaining (got []) = (ended, net)
after_read onward net fd remaining (got (c ∷ bs)) =
    piece_sent (onward (remaining - length (c ∷ bs))) (send_loop (length (c ∷ bs)) net fd (c ∷ bs))
after_read onward net fd remaining closed = (ended, net)
after_read onward net fd remaining failed = (broken, net)

-- `while (total_sent < file_size) { ... }`; what is missing and the number of the `read` are the
-- arguments.
unfoldable pub upload_chunks : (ℕ → Received) → ℤ → ℕ → ℕ → ℕ → Net → Outcome × Net
unfolding after_read
upload_chunks reads fd fuel k zero net = (done, net)
upload_chunks reads fd zero k (suc remaining) net = (out_of_fuel, net)
upload_chunks reads fd (suc fuel) k (suc remaining) net =
    after_read (upload_chunks reads fd fuel (suc k)) net fd (suc remaining)
      (cap_received chunk_limit (reads k))

-- The end of the file ends the loop too.
unfoldable pub uploaded : Outcome × Net → Bool × Net
uploaded (done, net) = (true, net)
uploaded (ended, net) = (true, net)
uploaded (_, net) = (false, net)

-- One `send`, which must take all four bytes.
unfoldable pub announced : (ℕ → Received) → ℤ → ℕ → ℤ × Net → Bool × Net
unfolding uploaded
announced reads fd file_size (sent, net) =
    if eq_int sent (pos 4)
    then uploaded (upload_chunks reads fd file_size 0 file_size net)
    else (false, net)

unfoldable pub upload_sized : OpenFile → Net → ℤ → Option ℕ → Bool × Net
unfolding announced
upload_sized file net fd none = (false, net)
upload_sized file net fd (some file_size) =
    if ltb max_file_size file_size
    then (false, net)
    else if not file.opens
    then (false, net)
    else if not file.stats
    then (false, net)
    else announced file.reads fd file_size (send net fd (htonl (file_size % 2 ^ 32)))

-- Whether the function returns 0.
unfoldable pub upload_file_to_server : FileSystem → OpenFile → Net → ℤ → Bytes → Bool × Net
unfolding upload_sized
upload_file_to_server fs file net fd filename =
    if not (validate_local_file fs filename)
    then (false, net)
    else upload_sized file net fd (get_file_size fs filename)
