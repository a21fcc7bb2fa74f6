-- ===== src/Client/Login.antt =====
-- client/client_helper.c, `login_to_server`: the loop that asks for a name until the server takes
-- one. `getcwd` is a parameter: the directory as a C string, or nothing where the call fails.
pub mod Ends
pub mod Accepted
use tcp_chat_server_c.Base.{
  Bool, Option, false, if◌then◌else◌, is_neg, leb_zero, length, none, some, suc, true, zero, ℕ, ℤ,
  ◌+◌,
}
use tcp_chat_server_c.CString.{Bytes, codes, cstr, eq_bytes, starts_with}
use tcp_chat_server_c.Wire.{Net, receive_message, send_message}
use tcp_chat_server_c.Client.{Session, chomp, fgets}

-- How the loop ends. The fuel is a bound on its rounds.
pub data LoginEnd : Type 0 where
  login_done login_failed login_stuck : LoginEnd

-- `response[bytes_received] = '\0'; if (strncmp(response, "LOGIN_SUCCESS", 13) == 0)`
abbrev pub accepts_login : Bytes → Bool
accepts_login response = starts_with (codes "LOGIN_SUCCESS") (cstr response)

-- The server's answer; `retry` is the next round.
next_login : (Session → LoginEnd × Session) → Session → Bool → LoginEnd × Session
next_login retry s true = (login_done, s)
next_login retry s false = retry s

unfoldable pub read_answer :
    (Session → LoginEnd × Session) → Session → ℤ × Bytes × Net → LoginEnd × Session
unfolding next_login
read_answer retry s (code, response, net) =
    if leb_zero code
    then (login_failed, record s { net = net })
    else next_login retry (record s { net = net }) (accepts_login response)

unfoldable pub working_directory : Option Bytes → Bytes
working_directory none = codes "."
working_directory (some cwd) = cwd

unfoldable pub path_sent : (Session → LoginEnd × Session) → Session → ℤ × Net → LoginEnd × Session
unfolding read_answer
path_sent retry s (code, net) =
    if is_neg code
    then (login_failed, record s { net = net })
    else read_answer retry (record s { net = net }) (receive_message net s.client_socket 128)

unfoldable pub name_sent :
    (Session → LoginEnd × Session) → Option Bytes → Session → ℤ × Net → LoginEnd × Session
unfolding path_sent
name_sent retry cwd s (code, net) =
    if is_neg code
    then (login_failed, record s { net = net })
    else path_sent retry (record s { net = net })
        (send_message net s.client_socket (working_directory cwd))

-- A line that was read; one that is the newline alone is not sent.
unfoldable pub try_name :
    (Session → LoginEnd × Session) → Option Bytes → Session → Bytes → Bool → LoginEnd × Session
unfolding name_sent
try_name retry cwd s username true = retry s
try_name retry cwd s username false =
    name_sent retry cwd s (send_message s.net s.client_socket (chomp username))

unfoldable pub read_name :
    (Session → LoginEnd × Session)
    → Option Bytes
    → Session
    → Option (Bytes × Bytes)
    → LoginEnd × Session
unfolding try_name
read_name retry cwd s none = (login_failed, s)
read_name retry cwd s (some (line, rest)) =
    try_name retry cwd (record s { stdin = rest }) (cstr line) (eq_bytes (cstr line) (codes "\n"))

unfoldable pub login_loop : ℕ → Option Bytes → Session → LoginEnd × Session
unfolding read_name
login_loop zero cwd s = (login_stuck, s)
login_loop (suc fuel) cwd s = read_name (login_loop fuel cwd) cwd s (fgets 17 s.stdin)

-- Every round reads at least one byte of `stdin`, and the loop ends where none is left.
unfoldable pub login_to_server : Option Bytes → Session → LoginEnd × Session
unfolding login_loop
login_to_server cwd s = login_loop (length s.stdin + 1) cwd s
