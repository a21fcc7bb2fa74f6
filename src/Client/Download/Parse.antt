-- ===== src/Client/Download/Parse.antt =====
-- The header of a download, as the server prints it and the client reads it.
use tcp_chat_server_c.Base.{
  ap, append_assoc, arith, length, length-append, pos, refl, some, ℕ, ◌++◌, ◌+◌, ◌<◌, ◌^◌, ◌∙◌, ◌∷◌,
  ◌≡◌,
}
use tcp_chat_server_c.CString.{Bytes, codes, decimal, starts_with, strtok, truncate}
use tcp_chat_server_c.CString.Laws.{truncate-short}
use tcp_chat_server_c.CString.Words.{Free, strtok-Free, strtok-append}
use tcp_chat_server_c.CString.Numbers.{atol, atol-decimal, decimal-Free, decimal-some}
use tcp_chat_server_c.Replies.{file_download, render}
use tcp_chat_server_c.Client.Download.{
  header_filename, header_sender, header_size, is_colon, parse_header, to_size,
}

-- A file name and a user name that the header can carry.
pub record Printable (filename sender : Bytes) (file_size : ℕ) : Type 0 where
  pub some_name : 0 < length filename
  pub name_no_colon : Free is_colon filename
  pub some_sender : 0 < length sender
  pub sender_no_colon : Free is_colon sender
  pub fits : length filename + length (decimal file_size) + length sender < 496
  pub small : file_size < 2 ^ 32

digits_no_colon : (n : ℕ) → Free is_colon (decimal n)
digits_no_colon n = decimal-Free is_colon (λ m. ground arith) n

append_assoc6 :
    (a f c d e s : Bytes) → a ++ f ++ c ++ d ++ e ++ s ≡ a ++ (f ++ (c ++ (d ++ (e ++ s))))
append_assoc6 a f c d e s =
    append_assoc (a ++ f ++ c ++ d) e s
    ∙ append_assoc (a ++ f ++ c) d (e ++ s)
    ∙ append_assoc (a ++ f) c (d ++ (e ++ s))
    ∙ append_assoc a f (c ++ (d ++ (e ++ s)))

-- The text is not cut.
pub header_whole :
    (filename sender : Bytes) (file_size : ℕ)
    → Printable filename sender file_size
    → render (file_download filename file_size sender)
      ≡ codes "FILE_DOWNLOAD:" ++ (filename ++ b':' ∷ (decimal file_size ++ b':' ∷ sender))
unfolding render codes
header_whole filename sender file_size p =
    ap (truncate 512) (
      append_assoc6 (codes "FILE_DOWNLOAD:") filename (codes ":") (decimal file_size) (codes ":")
        sender)
    ∙ truncate-short 512
        (codes "FILE_DOWNLOAD:" ++ (filename ++ b':' ∷ (decimal file_size ++ b':' ∷ sender)))
        (omega (
          arith,
          p.fits,
          length-append {0} filename (b':' ∷ (decimal file_size ++ b':' ∷ sender)),
          length-append {0} (decimal file_size) (b':' ∷ sender),
        ))

header_start :
    (text : Bytes)
    → parse_header (codes "FILE_DOWNLOAD:" ++ text) ≡ header_filename (strtok is_colon text)
unfolding parse_header codes starts_with
header_start text = refl

header_tokens :
    (filename size sender : Bytes)
    → 0 < length filename
    → Free is_colon filename
    → 0 < length size
    → Free is_colon size
    → 0 < length sender
    → Free is_colon sender
    → header_filename (strtok is_colon (filename ++ b':' ∷ (size ++ b':' ∷ sender)))
      ≡ some (record { filename = filename; file_size = to_size (atol size); sender = sender })
unfolding header_filename header_size header_sender
header_tokens filename size sender a f b g c h =
    ap header_filename (strtok-append is_colon filename b':' (size ++ b':' ∷ sender) a f refl)
    ∙ ap (header_size filename) (strtok-append is_colon size b':' sender b g refl)
    ∙ ap (header_sender filename size) (strtok-Free is_colon sender c h)

-- The header that the server prints is not cut, and the client reads from it what was printed.
pub parse_header-render :
    (filename sender : Bytes) (file_size : ℕ)
    → Printable filename sender file_size
    → parse_header (render (file_download filename file_size sender))
      ≡ some (record { filename = filename; file_size = file_size; sender = sender })
parse_header-render filename sender file_size p =
    ap parse_header (header_whole filename sender file_size p)
    ∙ header_start (filename ++ b':' ∷ (decimal file_size ++ b':' ∷ sender))
    ∙ header_tokens filename (decimal file_size) sender p.some_name p.name_no_colon
        (decimal-some file_size) (digits_no_colon file_size) p.some_sender p.sender_no_colon
    ∙ ap (λ n. some (record { filename = filename; file_size = n; sender = sender }))
        (ap to_size (atol-decimal file_size) ∙ same)
  where
    same : to_size (pos file_size) ≡ file_size
    same = unfold to_size in omega (arith, p.small)
