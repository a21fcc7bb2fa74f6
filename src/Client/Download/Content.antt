-- ===== src/Client/Download/Content.antt =====
-- The file that a download saves.
use tcp_chat_server_c.Base.{
  ==_iff, [], ap, arith, if◌then◌else◌, length, not, refl, subst, sym, true, ℕ, ℤ, ◌++◌, ◌∙◌, ◌≡◌,
  ◌≤◌,
}
use tcp_chat_server_c.CString.{Bytes}
use tcp_chat_server_c.Wire.{Net, Outcome, broken, done, ended, got, htonl, out_of_fuel, recv}
use tcp_chat_server_c.Wire.Receive.{Pending}
use tcp_chat_server_c.Wire.RoundTrip.{length-htonl, ntohl-htonl}
use tcp_chat_server_c.Replies.{file_download, render}
use tcp_chat_server_c.FileTransfer.{chunk_limit}
use tcp_chat_server_c.Client.Download.{
  Disk, DownloadEnd, confirm_size, download_chunks, file_saved, finish_download, not_saved,
  open_file, receive_announced, receive_file_from_server,
}
use tcp_chat_server_c.Client.Download.Parse.{Printable, parse_header-render}
use tcp_chat_server_c.Client.Download.Loop.{Downloads, Steady, download_chunks-Downloads}

-- The file has been saved under its name, and `later` is left.
pub record Saved (net : Net) (fd : ℤ) (filename content later : Bytes) (r : DownloadEnd × Net)
    : Type 0 where
  pub file : r.0 ≡ file_saved filename content
  pub left : Pending r.1 fd later
  pub output : r.1.wire ≡ net.wire

finish_download-Saved :
    (net : Net) (fd : ℤ) (disk : Disk) (filename content later : Bytes) (r : Outcome × Net × Disk)
    → disk.saved ≡ []
    → Downloads net fd disk content later r
    → Saved net fd filename content later (finish_download filename r)
unfolding finish_download
finish_download-Saved net fd disk filename content later (done, net', disk') e d = record {
  file = ap (file_saved filename) (d.saved ∙ ap (λ t. t ++ content) e);
  left = d.left;
  output = d.output;
}
finish_download-Saved net fd disk filename content later (ended, net', disk') e d =
    absurd (cc (d.ends))
finish_download-Saved net fd disk filename content later (broken, net', disk') e d =
    absurd (cc (d.ends))
finish_download-Saved net fd disk filename content later (out_of_fuel, net', disk') e d =
    absurd (cc (d.ends))

open_file-Saved :
    (patience : ℕ) (disk : Disk) (net : Net) (fd : ℤ) (filename content later : Bytes)
    → chunk_limit ≤ patience
    → disk.opens ≡ true
    → Steady disk
    → Pending net fd (content ++ later)
    → Saved net fd filename content later (open_file patience disk fd filename (length content) net)
unfolding open_file
open_file-Saved patience disk net fd filename content later enough opens steady s =
    subst (λ b. Saved net fd filename content later (if not b then (not_saved, net) else written))
      (sym opens)
      (finish_download-Saved net fd (record disk { saved = [] }) filename content later
        (download_chunks patience fd (length content) (length content) net
          (record disk { saved = [] }))
        refl
        (download_chunks-Downloads patience fd enough (length content) net
          (record disk { saved = [] }) content later (omega arith) steady s))
  where
    written : DownloadEnd × Net
    written = finish_download filename (
        download_chunks patience fd (length content) (length content) net
          (record disk { saved = [] }))

-- A file that the server announces with `FILE_DOWNLOAD:` is saved whole under the announced name:
-- the header is read back as it was printed, the four bytes of the size that `recv` waits for
-- confirm it, and the data comes in whatever pieces; what follows is left in the stream. The names
-- have no colon, the header fits in its buffer, `open` succeeds, `write` makes progress, and 4096
-- rounds are allowed for the writing of a chunk.
pub receive_file_from_server-Saved :
    (patience : ℕ) (disk : Disk) (net net' : Net) (fd : ℤ) (filename sender content later : Bytes)
    → chunk_limit ≤ patience
    → disk.opens ≡ true
    → Steady disk
    → Printable filename sender (length content)
    → recv net fd 4 ≡ (got (htonl (length content)), net')
    → Pending net' fd (content ++ later)
    → Saved net' fd filename content later (
        receive_file_from_server patience disk net fd
          (render (file_download filename (length content) sender)))
unfolding receive_file_from_server receive_announced confirm_size
receive_file_from_server-Saved patience disk net net' fd filename sender content later enough opens
      steady p e s =
    rw
      (
        parse_header-render filename sender (length content) p,
        e,
        length-htonl (length content),
        ntohl-htonl (length content) p.small,
        (==_iff (length content) (length content)).1 refl,
      )
      (open_file-Saved patience disk net' fd filename content later enough opens steady s)
