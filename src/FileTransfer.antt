-- ===== src/FileTransfer.antt =====
-- server/file_transfer.c, the transfer of a file over a socket: its size in four bytes, then its
-- data in chunks of at most 4096 bytes.
pub mod Upload
pub mod Limit
pub mod Puts
pub mod Download
use tcp_chat_server_c.Base.{
  Bool, Option, [], eq_int, false, if◌then◌else◌, length, ltb, none, not, pos, some, suc, success,
  true, zero, ℕ, ℤ, ◌%◌, ◌==◌, ◌^◌, ◌∷◌,
}
use tcp_chat_server_c.CString.{Bytes}
use tcp_chat_server_c.Wire.{
  Net, Outcome, Received, after_recv, after_round, done, got, htonl, ntohl, out_of_fuel, recv, send,
  send_message,
}
use tcp_chat_server_c.Replies.{file_download, render}
use tcp_chat_server_c.FileQueue.{validate_file_size_limit}

abbrev pub chunk_limit : ℕ
chunk_limit = 4096

-- `(remaining < CHUNK_SIZE) ? remaining : CHUNK_SIZE`
unfoldable pub chunk_size : ℕ → ℕ
chunk_size remaining = if ltb remaining chunk_limit then remaining else chunk_limit

-- `while (total_received < *file_size) { ... }`
unfoldable pub receive_chunks : ℕ → Net → ℤ → ℕ → Bytes → Outcome × Bytes × Net
unfolding after_recv
receive_chunks fuel net fd zero buf = (done, buf, net)
receive_chunks zero net fd (suc remaining) buf = (out_of_fuel, buf, net)
receive_chunks (suc fuel) net fd (suc remaining) buf =
    after_recv (receive_chunks fuel) fd (suc remaining) buf
      (recv net fd (chunk_size (suc remaining)))

received_file : Outcome × Bytes × Net → Option Bytes × Net
received_file (done, buf, net) = (some buf, net)
received_file (_, buf, net) = (none, net)

receive_data : Bool → ℤ → ℕ → Net → Option Bytes × Net
unfolding received_file
receive_data memory fd size net =
    if not (validate_file_size_limit size)
    then (none, net)
    else if not memory
    then (none, net)
    else received_file (receive_chunks size net fd size [])

receive_size : Bool → ℤ → Received × Net → Option Bytes × Net
unfolding receive_data
receive_size memory fd (got bs, net) =
    if length bs == 4 then receive_data memory fd (ntohl bs) net else (none, net)
receive_size memory fd (_, net) = (none, net)

-- The data, or nothing where the function returns -1. `memory` says whether `malloc` succeeds.
unfoldable pub receive_file_from_client : Bool → Net → ℤ → Option Bytes × Net
unfolding receive_size
receive_file_from_client memory net fd = receive_size memory fd (recv net fd 4)

-- The `n` bytes from a pointer into the data on. 256, which no byte is, stands for each byte that is
-- read past the end of the block.
unfoldable pub bytes_at : ℕ → Bytes → Bytes
bytes_at zero data_left = []
bytes_at (suc n) [] = 256 ∷ bytes_at n []
bytes_at (suc n) (c ∷ data_left) = c ∷ bytes_at n data_left

-- `while (total_sent < file_size) { ... }`; the bytes not yet sent are the argument.
unfoldable pub send_chunks : ℕ → Net → ℤ → Bytes → Outcome × Net
unfolding after_round
send_chunks fuel net fd [] = (done, net)
send_chunks zero net fd (c ∷ rest) = (out_of_fuel, net)
send_chunks (suc fuel) net fd (c ∷ rest) =
    after_round (send_chunks fuel) fd (c ∷ rest)
      (send net fd (bytes_at (chunk_size (length (c ∷ rest))) (c ∷ rest)))

chunks_sent : Outcome × Net → Bool × Net
chunks_sent (done, net) = (true, net)
chunks_sent (_, net) = (false, net)

size_sent : ℤ → Bytes → ℤ × Net → Bool × Net
unfolding chunks_sent
size_sent fd file_data (sent, net) =
    if eq_int sent (pos 4)
    then chunks_sent (send_chunks (length file_data) net fd file_data)
    else (false, net)

header_sent : ℤ → Bytes → ℤ × Net → Bool × Net
unfolding size_sent
header_sent fd file_data (code, net) =
    if eq_int code success
    then size_sent fd file_data (send net fd (htonl (length file_data % 2 ^ 32)))
    else (false, net)

-- Whether the function returns 0. The file's size is the length of its data.
unfoldable pub send_file_to_client : Net → ℤ → Bytes → Bytes → Bytes → Bool × Net
unfolding header_sent
send_file_to_client net fd filename sender file_data =
    header_sent fd file_data
      (send_message net fd (render (file_download filename (length file_data) sender)))
