-- ===== src/Client/Messages/Delivery.antt =====
-- The server's `send_file_to_client` and the client that receives.
use tcp_chat_server_c.Base.{
  Bool, [], ap, append-nil, arith, drop, drop-append, eq_int, false, length, negsuc, refl, some,
  subst, sym, take, true, ℕ, ℤ, ◌%◌, ◌++◌, ◌<◌, ◌^◌, ◌∙◌, ◌∷◌, ◌≡◌, ◌≤◌,
}
use tcp_chat_server_c.CString.{Bytes, codes, decimal, starts_with}
use tcp_chat_server_c.CString.Laws.{length-truncate}
use tcp_chat_server_c.Wire.{Net, got, htonl, receive_message, recv, sent_to}
use tcp_chat_server_c.Wire.Send.{frame}
use tcp_chat_server_c.Wire.Receive.{Pending}
use tcp_chat_server_c.CString.Words.{Free, is_nul, tested-Free}
use tcp_chat_server_c.CString.Numbers.{decimal-Free}
use tcp_chat_server_c.Replies.{file_download, render}
use tcp_chat_server_c.FileTransfer.{chunk_limit, send_file_to_client}
use tcp_chat_server_c.FileTransfer.Puts.{Puts-fresh}
use tcp_chat_server_c.FileTransfer.Download.{Honest, send_file_to_client-Puts}
use tcp_chat_server_c.Client.{Session}
use tcp_chat_server_c.Client.Download.{DownloadEnd, file_saved, receive_file_from_server}
use tcp_chat_server_c.Client.Download.Parse.{Printable, header_whole}
use tcp_chat_server_c.Client.Download.Loop.{Steady}
use tcp_chat_server_c.Client.Download.Content.{Saved, receive_file_from_server-Saved}
use tcp_chat_server_c.Client.Messages.{
  Files, MessageTurn, download_ended, download_shown, listens, on_message, receive_turn,
  socket_ready,
}
use tcp_chat_server_c.Client.Messages.Arrival.{receive_turn-Gets}

Free-append : (p : ℕ → Bool) (s t : Bytes) → Free p s → Free p t → Free p (s ++ t)
Free-append p [] t f g = g
Free-append p (c ∷ s) t (f, fs) g = (f, Free-append p s t fs g)

header_clean :
    (filename size sender : Bytes)
    → Free is_nul filename
    → Free is_nul size
    → Free is_nul sender
    → Free is_nul (codes "FILE_DOWNLOAD:" ++ (filename ++ b':' ∷ (size ++ b':' ∷ sender)))
unfolding codes
header_clean filename size sender f g h =
    Free-append is_nul (codes "FILE_DOWNLOAD:") (filename ++ b':' ∷ (size ++ b':' ∷ sender))
      (tested-Free is_nul (codes "FILE_DOWNLOAD:") refl)
      (Free-append is_nul filename (b':' ∷ (size ++ b':' ∷ sender)) f
        (refl, Free-append is_nul size (b':' ∷ sender) g (refl, h)))

-- The header is taken for one.
on_message-header :
    (f : Files) (s : Session) (text : Bytes)
    → on_message f s (codes "FILE_DOWNLOAD:" ++ text)
      ≡ download_ended s (
          receive_file_from_server f.patience f.to_write s.net s.client_socket
            (codes "FILE_DOWNLOAD:" ++ text))
unfolding on_message codes starts_with
on_message-header f s text = refl

length-header :
    (filename sender : Bytes) (file_size : ℕ)
    → Printable filename sender file_size
    → (0 < length (render (file_download filename file_size sender)))
      × (length (render (file_download filename file_size sender)) < 512)
unfolding codes
length-header filename sender file_size p = (
  subst (λ t. 0 < length t) (sym (header_whole filename sender file_size p)) (omega arith),
  unfold render in
      omega (
        arith,
        length-truncate 511 (
            codes "FILE_DOWNLOAD:"
            ++ filename
            ++ codes ":"
            ++ decimal file_size
            ++ codes ":"
            ++ sender),
      ),
)

-- The file has been saved by the turn, and nothing is left in the stream.
pub record Fetched (s : Session) (filename content : Bytes) (t : MessageTurn) : Type 0 where
  pub net : Net
  pub turn :
      t ≡ listens (some (download_shown (file_saved filename content))) (record s { net = net })
  pub left : Pending net s.client_socket []

download_ended-Fetched :
    (s : Session) (net net' : Net) (filename content : Bytes) (r : DownloadEnd × Net)
    → Saved net' s.client_socket filename content [] r
    → Fetched s filename content (download_ended (record s { net = net }) r)
unfolding download_ended
download_ended-Fetched s net net' filename content (e, net2) d = record {
  net = net2;
  turn = ap (λ t. listens (some (download_shown t)) (record s { net = net2 })) d.file;
  left = d.left;
}

module _ (f : Files) (s : Session) (net net' : Net) (fd : ℤ) (filename sender content : Bytes) where
  abbrev header : Bytes
  header = render (file_download filename (length content) sender)

  abbrev stream : Bytes
  stream = sent_to fd (send_file_to_client net fd filename sender content).1.wire

  abbrev rest : Bytes
  rest = drop (length (frame header)) stream

  -- What the socket has taken, where the server reports success.
  stream-whole :
      Honest net
      → sent_to fd net.wire ≡ []
      → (send_file_to_client net fd filename sender content).0 ≡ true
      → length content < 2 ^ 32
      → stream ≡ frame header ++ (htonl (length content) ++ content)
  stream-whole honest fresh ok small =
      Puts-fresh net fd (frame header ++ (htonl (length content % 2 ^ 32) ++ content))
        (send_file_to_client net fd filename sender content)
        (send_file_to_client-Puts net fd filename sender content honest) fresh ok
      ∙ ap (λ n. frame header ++ (htonl n ++ content)) modulo
    where
      modulo : length content % 2 ^ 32 ≡ length content
      modulo = omega (arith, small)

  -- The turn takes the header for one.
  header-turn :
      s.client_running ≡ true
      → eq_int s.client_socket (negsuc 0) ≡ false
      → Pending s.net s.client_socket (frame header ++ (htonl (length content) ++ content))
      → Printable filename sender (length content)
      → Free is_nul filename
      → Free is_nul sender
      → receive_turn s (socket_ready f)
        ≡ download_ended
            (record s { net = (receive_message s.net s.client_socket 4096).2 })
            (receive_file_from_server f.patience f.to_write
              (receive_message s.net s.client_socket 4096).2
              s.client_socket
              header)
  header-turn running good pending printable clean_name clean_sender =
      receive_turn-Gets f s header (htonl (length content) ++ content) running good
        (length-header filename sender (length content) printable).0
        (omega (arith, (length-header filename sender (length content) printable).1)) clean pending
      ∙ subst
          (λ t.
            on_message f at t
            ≡ download_ended at
                (receive_file_from_server f.patience f.to_write at.net s.client_socket t))
          (sym (header_whole filename sender (length content) printable))
          (on_message-header f at (filename ++ b':' ∷ (decimal (length content) ++ b':' ∷ sender)))
    where
      at : Session
      at = record s { net = (receive_message s.net s.client_socket 4096).2 }

      clean : Free is_nul header
      clean =
          subst (λ t. Free is_nul t) (sym (header_whole filename sender (length content) printable))
            (header_clean filename (decimal (length content)) sender clean_name
              (decimal-Free is_nul (λ m. ground arith) (length content)) clean_sender)

  -- A file that the server reports as sent is on the client's disk after one turn of the receiving
  -- thread, whole and under its name, and nothing is left in the stream. The server's kernel takes
  -- no more than it is given, and its socket had taken nothing before; the client's kernel hands
  -- over what the server's took, in whatever pieces, but for the four bytes of the size, which come
  -- at once as MSG_WAITALL asks. The client is running, the names have neither a colon nor a NUL
  -- and fit in the header, the file can be opened, and `write` makes progress, with 4096 rounds
  -- allowed for a chunk.
  pub receive_turn-send_file_to_client :
      Honest net
      → sent_to fd net.wire ≡ []
      → (send_file_to_client net fd filename sender content).0 ≡ true
      → s.client_running ≡ true
      → eq_int s.client_socket (negsuc 0) ≡ false
      → Pending s.net s.client_socket stream
      → recv (receive_message s.net s.client_socket 4096).2 s.client_socket 4
        ≡ (got (take 4 rest), net')
      → Pending net' s.client_socket (drop 4 rest)
      → Printable filename sender (length content)
      → Free is_nul filename
      → Free is_nul sender
      → chunk_limit ≤ f.patience
      → f.to_write.opens ≡ true
      → Steady f.to_write
      → Fetched s filename content (receive_turn s (socket_ready f))
  unfolding htonl
  receive_turn-send_file_to_client honest fresh ok running good pending waits more' printable
        clean_name clean_sender enough opens steady =
      subst (λ t. Fetched s filename content t)
        (sym (
          header-turn running good (subst (λ t. Pending s.net s.client_socket t) whole pending)
            printable clean_name clean_sender))
        (download_ended-Fetched s _ net' filename content _ (
          receive_file_from_server-Saved f.patience f.to_write
            (receive_message s.net s.client_socket 4096).2 net' s.client_socket filename sender
            content [] enough opens steady printable
            (waits ∙ ap (λ t. (got (take 4 t), net')) rest_is)
            (subst (λ t. Pending net' s.client_socket t)
              (ap (λ t. drop 4 t) rest_is ∙ sym (append-nil content)) more')))
    where
      whole : stream ≡ frame header ++ (htonl (length content) ++ content)
      whole = stream-whole honest fresh ok printable.small

      rest_is : rest ≡ htonl (length content) ++ content
      rest_is =
          ap (λ t. drop (length (frame header)) t) whole
          ∙ drop-append (frame header) (htonl (length content) ++ content)
