-- ===== src/Arguments.antt =====
-- utils/utils.c, `parse_client_args` and `parse_server_args`: the command lines of the two programs.
-- `argv` is the list of its strings, and `argc` its length. What `atoi` gives for a number that an
-- `int` does not hold is a parameter of both, `overflow`.
pub mod Accepted
use tcp_chat_server_c.Base.{
  Bool, List, Option, [], if◌then◌else◌, ltb, negsuc, none, pos, some, true, ℕ, ℤ, ◌==◌, ◌||◌, ◌∷◌,
}
use tcp_chat_server_c.CString.{Bytes, truncate}
use tcp_chat_server_c.CString.Numbers.{atoi}

pub record ClientParameter : Type 0 where
  pub server_ip : Bytes
  pub port : ℤ

pub record ServerParameter : Type 0 where
  pub port : ℤ

-- `port <= 0 || port > 65535`
unfoldable pub bad_port : ℤ → Bool
bad_port (pos n) = n == 0 || ltb 65535 n
bad_port (negsuc n) = true

-- sizeof of `server_ip`.
abbrev pub server_ip_size : ℕ
server_ip_size = 64

-- The parameters, or nothing where the function returns -1.
unfoldable pub parse_client_args : (Bytes → ℤ) → List Bytes → Option ClientParameter
unfolding bad_port
parse_client_args overflow (program ∷ ip ∷ port ∷ []) =
    if bad_port (atoi overflow port)
    then none
    else some (record { server_ip = truncate server_ip_size ip; port = atoi overflow port })
parse_client_args overflow _ = none

unfoldable pub parse_server_args : (Bytes → ℤ) → List Bytes → Option ServerParameter
unfolding bad_port
parse_server_args overflow (program ∷ port ∷ []) =
    if bad_port (atoi overflow port) then none else some (record { port = atoi overflow port })
parse_server_args overflow _ = none
