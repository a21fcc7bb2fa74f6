-- ===== src/Client.antt =====
-- client/client_helper.c and client/client.c: the client program. It is two threads over one socket:
-- one reads the lines that the user types, the other the messages of the server.
pub mod Commands
pub mod Input
pub mod Login
pub mod Upload
pub mod Download
pub mod Messages
pub mod Threads
use tcp_chat_server_c.Base.{
  Bool, Option, [], if◌then◌else◌, none, some, suc, zero, ℕ, ℤ, ◌-◌, ◌==◌, ◌∷◌,
}
use tcp_chat_server_c.CString.{Bytes}
use tcp_chat_server_c.Wire.{Net}

-- The globals, with what is still to be read from `stdin`.
pub record Session : Type 0 where
  pub client_socket : ℤ
  pub client_running : Bool
  pub stdin : Bytes
  pub net : Net

-- The bytes up to the next newline, at most as many as are given, and what is left.
unfoldable pub take_line : ℕ → Bytes → Bytes × Bytes
take_line zero s = ([], s)
take_line (suc n) [] = ([], [])
take_line (suc n) (c ∷ s) =
    let (line, rest) = take_line n s in if c == b'\n' then (c ∷ [], s) else (c ∷ line, rest)

-- `fgets(buf, size, stdin)`; nothing at the end of the input. A read error is not modelled.
unfoldable pub fgets : ℕ → Bytes → Option (Bytes × Bytes)
unfolding take_line
fgets size [] = none
fgets size (c ∷ s) = some (take_line (size - 1) (c ∷ s))

-- `if (len > 0 && s[len - 1] == '\n') s[len - 1] = '\0';`
unfoldable pub chomp : Bytes → Bytes
chomp [] = []
chomp (c ∷ []) = if c == b'\n' then [] else c ∷ []
chomp (c ∷ d ∷ s) = c ∷ chomp (d ∷ s)
