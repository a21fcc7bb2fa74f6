-- ===== src/Client/Login/Accepted.antt =====
-- A login of the client that the server accepts.
use tcp_chat_server_c.Base.{
  Bool, [], ap, append_assoc, arith, eq_int, false, leb_zero, length, negsuc, pos, refl, some,
  subst, suc, success, true, zero, ℕ, ℤ, ◌++◌, ◌+◌, ◌<◌, ◌==◌, ◌∙◌, ◌∷◌, ◌≡◌, ◌≤◌,
}
use tcp_chat_server_c.CString.{Bytes, all_alnum, codes, cstr, eq_bytes, is_alnum, starts_with}
use tcp_chat_server_c.Wire.{Net, receive_message, send_message, sent_to}
use tcp_chat_server_c.Wire.Sent.{Sent}
use tcp_chat_server_c.Wire.Send.{frame}
use tcp_chat_server_c.Wire.Receive.{Pending}
use tcp_chat_server_c.Wire.RoundTrip.{Gets, receive_message-Gets}
use tcp_chat_server_c.Wire.Reliable.{Reliable, Reliable-Sent, send_message-Reliable}
use tcp_chat_server_c.CString.Words.{Free, is_nul}
use tcp_chat_server_c.Replies.{login_success, render}
use tcp_chat_server_c.Server.Connection.{validate_username}
use tcp_chat_server_c.Server.Connection.Username.{username_rule}
use tcp_chat_server_c.Server.Connection.Welcome.{alnum-Free}
use tcp_chat_server_c.Client.{Session, chomp, fgets, take_line}
use tcp_chat_server_c.Client.Login.{
  LoginEnd, accepts_login, login_done, login_loop, login_to_server, name_sent, next_login,
  path_sent, read_answer, read_name, try_name, working_directory,
}

abbrev is_newline : ℕ → Bool
is_newline c = c == b'\n'

take_line-line :
    (n : ℕ) (name rest : Bytes)
    → Free is_newline name
    → length name < n
    → take_line n (name ++ b'\n' ∷ rest) ≡ (name ++ b'\n' ∷ [], rest)
unfolding take_line
take_line-line zero name rest f h = absurd (omega arith)
take_line-line (suc n) [] rest f h = refl
take_line-line (suc n) (c ∷ name) rest f h =
    rw (f.0, take_line-line n name rest f.1 (omega arith)) refl

fgets-line :
    (c : ℕ) (name rest : Bytes)
    → Free is_newline (c ∷ name)
    → length (c ∷ name) < 16
    → fgets 17 ((c ∷ name) ++ b'\n' ∷ rest) ≡ some ((c ∷ name) ++ b'\n' ∷ [], rest)
unfolding fgets
fgets-line c name rest f h = ap some (take_line-line 16 (c ∷ name) rest f h)

chomp-line : (name : Bytes) → Free is_newline name → chomp (name ++ b'\n' ∷ []) ≡ name
unfolding chomp
chomp-line [] f = refl
chomp-line (c ∷ []) f = refl
chomp-line (c ∷ d ∷ s) f = ap (λ t. c ∷ t) (chomp-line (d ∷ s) f.1)

cstr-line : (name : Bytes) → Free is_nul name → cstr (name ++ b'\n' ∷ []) ≡ name ++ b'\n' ∷ []
unfolding cstr
cstr-line [] f = refl
cstr-line (c ∷ s) f = rw f.0 (ap (λ t. c ∷ t) (cstr-line s f.1))

not_alone : (name : Bytes) → 0 < length name → eq_bytes (name ++ b'\n' ∷ []) (codes "\n") ≡ false
unfolding eq_bytes codes
not_alone [] h = elim h [ ]
not_alone (c ∷ []) h = ground arith
not_alone (c ∷ d ∷ s) h = ground arith

-- The client is logged in: it has sent the name and its directory, and read the answer.
pub record Admitted (s : Session) (name path rest later : Bytes) (r : LoginEnd × Session)
    : Type 0 where
  pub ends : r.0 ≡ login_done
  pub input : r.1.stdin ≡ rest
  pub sent :
      sent_to s.client_socket r.1.net.wire
      ≡ sent_to s.client_socket s.net.wire ++ (frame name ++ frame path)
  pub left : Pending r.1.net s.client_socket later

-- Sending leaves what the kernel holds.
Pending-Sent :
    {net net' : Net} {fd : ℤ} {q : Bytes} (end : ℤ) (bs : Bytes)
    → Sent net net' fd q
    → Pending net end bs
    → Pending net' end bs
Pending-Sent end bs s p = rw (s.source, s.input) p

login_success_short : (0 < length (render login_success)) × (length (render login_success) < 128)
unfolding render codes
login_success_short = (omega arith, omega arith)

accepts_login_success : accepts_login (render login_success) ≡ true
unfolding render codes starts_with cstr
accepts_login_success = refl

name_sent-Admitted :
    (retry : Session → LoginEnd × Session) (s : Session) (name path later : Bytes)
    → Reliable s.net
    → eq_int s.client_socket (negsuc 0) ≡ false
    → Pending s.net s.client_socket (frame (render login_success) ++ later)
    → Admitted s name path s.stdin later
        (name_sent retry (some path) s (send_message s.net s.client_socket name))
unfolding name_sent path_sent read_answer next_login working_directory
name_sent-Admitted retry s name path later rel good p =
    rw (a.0, b.0, g.code, came, g.bytes, accepts_login_success)
      (record {
        ends = refl;
        input = refl;
        sent =
            ap (sent_to s.client_socket) g.output
            ∙ b.1.taken
            ∙ ap (λ t. t ++ frame path) a.1.taken
            ∙ append_assoc (sent_to s.client_socket s.net.wire) (frame name) (frame path);
        left = g.left;
      })
  where
    net1 : Net
    net1 = (send_message s.net s.client_socket name).1

    net2 : Net
    net2 = (send_message net1 s.client_socket path).1

    a :
        ((send_message s.net s.client_socket name).0 ≡ success)
        × Sent s.net net1 s.client_socket (frame name)
    a = send_message-Reliable s.net s.client_socket name rel good

    b :
        ((send_message net1 s.client_socket path).0 ≡ success)
        × Sent net1 net2 s.client_socket (frame path)
    b = send_message-Reliable net1 s.client_socket path (Reliable-Sent a.1 rel) good

    g :
        Gets net2 s.client_socket
          (render login_success)
          later
          (receive_message net2 s.client_socket 128)
    g =
        receive_message-Gets s.client_socket 128 (render login_success) later login_success_short.1
          net2 good login_success_short.0 (omega (arith, login_success_short))
          (Pending-Sent s.client_socket (frame (render login_success) ++ later) b.1
            (Pending-Sent s.client_socket (frame (render login_success) ++ later) a.1 p))

    came : leb_zero (pos (length (render login_success))) ≡ false
    came = unfold render codes in refl

-- The first round.
login_loop-Admitted :
    (fuel : ℕ) (s : Session) (c : ℕ) (name path rest later : Bytes)
    → validate_username (c ∷ name) ≡ true
    → length (c ∷ name) < 16
    → s.stdin ≡ (c ∷ name) ++ b'\n' ∷ rest
    → Reliable s.net
    → eq_int s.client_socket (negsuc 0) ≡ false
    → Pending s.net s.client_socket (frame (render login_success) ++ later)
    → Admitted s (c ∷ name) path rest later (login_loop (suc fuel) (some path) s)
unfolding login_loop read_name try_name
login_loop-Admitted fuel s c name path rest later sound short e rel good p =
    rw
      (
        e,
        fgets-line c name rest lines short,
        cstr-line (c ∷ name) (alnum-Free is_nul not_nul (c ∷ name) rule.2),
        not_alone (c ∷ name) (omega arith),
        chomp-line (c ∷ name) lines,
      )
      (record { ends = m.ends; input = m.input; sent = m.sent; left = m.left })
  where
    rule : (0 < length (c ∷ name)) × (length (c ∷ name) ≤ 16) × (all_alnum (c ∷ name) ≡ true)
    rule = (username_rule (c ∷ name)).0 sound

    not_nul : (d : ℕ) → is_alnum d ≡ true → is_nul d ≡ false
    not_nul d h = unfold is_alnum in ground arith

    not_newline : (d : ℕ) → is_alnum d ≡ true → is_newline d ≡ false
    not_newline d h = unfold is_alnum in ground arith

    lines : Free is_newline (c ∷ name)
    lines = alnum-Free is_newline not_newline (c ∷ name) rule.2

    m :
        Admitted
          (record s { stdin = rest })
          (c ∷ name)
          path
          rest
          later
          (name_sent
            (login_loop fuel (some path))
            (some path)
            (record s { stdin = rest })
            (send_message s.net s.client_socket (c ∷ name)))
    m =
        name_sent-Admitted (login_loop fuel (some path)) (record s { stdin = rest }) (c ∷ name) path
          later rel good p

-- A user who types a good name and a newline is logged in if the server accepts the name: where the
-- next message in the stream is LOGIN_SUCCESS, `login_to_server` returns 0 in its first round, has
-- read that line and no more of `stdin`, has sent the name and the directory as two messages and
-- nothing else, and leaves what comes after the answer. The name has at most 15 bytes, the
-- directory is known, and the kernel takes all that it is given.
pub login_to_server-Admitted :
    (s : Session) (c : ℕ) (name path rest later : Bytes)
    → validate_username (c ∷ name) ≡ true
    → length (c ∷ name) < 16
    → s.stdin ≡ (c ∷ name) ++ b'\n' ∷ rest
    → Reliable s.net
    → eq_int s.client_socket (negsuc 0) ≡ false
    → Pending s.net s.client_socket (frame (render login_success) ++ later)
    → Admitted s (c ∷ name) path rest later (login_to_server (some path) s)
unfolding login_to_server
login_to_server-Admitted s c name path rest later sound short e rel good p =
    subst (λ k. Admitted s (c ∷ name) path rest later (login_loop k (some path) s)) one_more
      (login_loop-Admitted (length s.stdin) s c name path rest later sound short e rel good p)
  where
    one_more : suc (length s.stdin) ≡ length s.stdin + 1
    one_more = omega arith
