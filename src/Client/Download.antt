-- ===== src/Client/Download.antt =====
-- client/client_helper.c, `receive_file_from_server`: a file that the server sends. The file that
-- is written is a parameter: whether `open` succeeds, and what the n-th `write` returns.
pub mod Parse
pub mod Loop
pub mod Content
use tcp_chat_server_c.Base.{
  Bool, Option, [], drop, if◌then◌else◌, length, negsuc, none, not, pos, some, suc, take, zero, ℕ,
  ℤ, ◌%◌, ◌++◌, ◌+◌, ◌-◌, ◌==◌, ◌^◌, ◌∷◌,
}
use tcp_chat_server_c.CString.{Bytes, codes, starts_with, strtok}
use tcp_chat_server_c.Wire.{
  Net, Outcome, Received, broken, closed, done, failed, got, ntohl, out_of_fuel, recv,
}
use tcp_chat_server_c.CString.Numbers.{atol}
use tcp_chat_server_c.FileTransfer.{chunk_size}

pub record Disk : Type 0 where
  pub opens : Bool
  -- by the number of the call and the length
  pub write_result : ℕ → ℕ → ℤ
  pub writes : ℕ
  pub saved : Bytes

-- What follows a call of `write`; `onward` is the next round.
unfoldable pub after_write : (Disk → Bytes → Outcome × Disk) → Disk → Bytes → ℤ → Outcome × Disk
after_write onward disk piece (pos n) =
    onward (record disk { writes = disk.writes + 1; saved = disk.saved ++ take n piece })
      (drop n piece)
after_write onward disk piece (negsuc n) = (broken, record disk { writes = disk.writes + 1 })

-- `while (total_written < received) { ... }`. A result of 0 repeats the call, so that the fuel is a
-- bound on the rounds that is given.
unfoldable pub write_loop : ℕ → Disk → Bytes → Outcome × Disk
unfolding after_write
write_loop fuel disk [] = (done, disk)
write_loop zero disk (c ∷ piece) = (out_of_fuel, disk)
write_loop (suc fuel) disk (c ∷ piece) =
    after_write (write_loop fuel) disk (c ∷ piece)
      (disk.write_result disk.writes (length (c ∷ piece)))

unfoldable pub chunk_written :
    (Disk → Outcome × Net × Disk) → Net → Outcome × Disk → Outcome × Net × Disk
chunk_written onward net (done, disk) = onward disk
chunk_written onward net (o, disk) = (o, net, disk)

unfoldable pub chunk_received :
    ℕ → (ℕ → Net → Disk → Outcome × Net × Disk) → ℕ → Disk → Received × Net → Outcome × Net × Disk
unfolding chunk_written
chunk_received patience onward remaining disk (got [], net) = (broken, net, disk)
chunk_received patience onward remaining disk (got (c ∷ bs), net) =
    chunk_written (onward (remaining - length (c ∷ bs)) net) net (write_loop patience disk (c ∷ bs))
chunk_received patience onward remaining disk (closed, net) = (broken, net, disk)
chunk_received patience onward remaining disk (failed, net) = (broken, net, disk)

-- `while (total_received < file_size) { ... }`; what is missing is the argument.
unfoldable pub download_chunks : ℕ → ℤ → ℕ → ℕ → Net → Disk → Outcome × Net × Disk
unfolding chunk_received
download_chunks patience fd fuel zero net disk = (done, net, disk)
download_chunks patience fd zero (suc remaining) net disk = (out_of_fuel, net, disk)
download_chunks patience fd (suc fuel) (suc remaining) net disk =
    chunk_received patience (download_chunks patience fd fuel) (suc remaining) disk
      (recv net fd (chunk_size (suc remaining)))

-- The file is there, with its name and contents; or the function has returned -1, and no file is
-- left that it has begun; or the bound on the rounds of the inner loop was too low.
pub data DownloadEnd : Type 0 where
  file_saved : Bytes → Bytes → DownloadEnd
  not_saved write_stuck : DownloadEnd

unfoldable pub finish_download : Bytes → Outcome × Net × Disk → DownloadEnd × Net
finish_download filename (done, net, disk) = (file_saved filename disk.saved, net)
finish_download filename (out_of_fuel, net, disk) = (write_stuck, net)
finish_download filename (_, net, disk) = (not_saved, net)

open_file : ℕ → Disk → ℤ → Bytes → ℕ → Net → DownloadEnd × Net
unfolding finish_download
open_file patience disk fd filename file_size net =
    if not disk.opens
    then (not_saved, net)
    else finish_download filename
        (download_chunks patience fd file_size file_size net (record disk { saved = [] }))

-- One `recv` with MSG_WAITALL, which must give all four bytes of the size.
confirm_size : ℕ → Disk → ℤ → Bytes → ℕ → Received × Net → DownloadEnd × Net
unfolding open_file
confirm_size patience disk fd filename file_size (got bs, net) =
    if not (length bs == 4)
    then (not_saved, net)
    else if not (ntohl bs == file_size)
    then (not_saved, net)
    else open_file patience disk fd filename file_size net
confirm_size patience disk fd filename file_size (_, net) = (not_saved, net)

abbrev pub is_colon : ℕ → Bool
is_colon c = c == b':'

-- A `long` as `size_t`.
unfoldable pub to_size : ℤ → ℕ
to_size (pos n) = n % 2 ^ 64
to_size (negsuc n) = 2 ^ 64 - 1 - n % 2 ^ 64

pub record Header : Type 0 where
  pub filename : Bytes
  pub file_size : ℕ
  pub sender : Bytes

header_sender : Bytes → Bytes → Option (Bytes × Bytes) → Option Header
unfolding to_size
header_sender filename size none = none
header_sender filename size (some (sender, rest)) =
    some (record { filename = filename; file_size = to_size (atol size); sender = sender })

header_size : Bytes → Option (Bytes × Bytes) → Option Header
unfolding header_sender
header_size filename none = none
header_size filename (some (size, rest)) = header_sender filename size (strtok is_colon rest)

header_filename : Option (Bytes × Bytes) → Option Header
unfolding header_size
header_filename none = none
header_filename (some (filename, rest)) = header_size filename (strtok is_colon rest)

-- The three tokens of the header.
unfoldable pub parse_header : Bytes → Option Header
unfolding header_filename
parse_header message =
    if starts_with (codes "FILE_DOWNLOAD:") message
    then header_filename (strtok is_colon (drop 14 message))
    else none

receive_announced : ℕ → Disk → Net → ℤ → Option Header → DownloadEnd × Net
unfolding confirm_size
receive_announced patience disk net fd none = (not_saved, net)
receive_announced patience disk net fd (some h) =
    confirm_size patience disk fd h.filename h.file_size (recv net fd 4)

unfoldable pub receive_file_from_server : ℕ → Disk → Net → ℤ → Bytes → DownloadEnd × Net
unfolding receive_announced
receive_file_from_server patience disk net fd message =
    receive_announced patience disk net fd (parse_header message)
