-- ===== src/Client/Login/Ends.antt =====
-- The client's login loop ends.
use tcp_chat_server_c.Base.{
  Bool, Bool-cases, Option, [], ap, arith, false, inl, inr, is_neg, leb_zero, length, none, refl,
  some, some_inj, subst, suc, true, zero, ℕ, ℤ, ◌+◌, ◌-◌, ◌<◌, ◌∷◌, ◌≡◌, ◌≢◌, ◌≤◌,
}
use tcp_chat_server_c.CString.{Bytes, codes, cstr, eq_bytes}
use tcp_chat_server_c.Wire.{Net, receive_message, send_message}
use tcp_chat_server_c.Client.{Session, chomp, fgets, take_line}
use tcp_chat_server_c.Client.Login.{
  LoginEnd, accepts_login, login_loop, login_stuck, login_to_server, name_sent, next_login,
  path_sent, read_answer, read_name, try_name, working_directory,
}

length-take_line : (n : ℕ) (s : Bytes) → length (take_line n s).1 ≤ length s
unfolding take_line
length-take_line zero s = omega arith
length-take_line (suc n) [] = omega arith
length-take_line (suc n) (c ∷ s) = ground (arith, length-take_line n s)

shorter-take_line :
    (n : ℕ) (c : ℕ) (s : Bytes) → length (take_line (suc n) (c ∷ s)).1 < suc (length s)
unfolding take_line
shorter-take_line n c s = ground (arith, length-take_line n s)

-- What `fgets` leaves is shorter than what was there.
length-fgets :
    (n : ℕ) (s line rest : Bytes)
    → fgets (suc (suc n)) s ≡ some (line, rest)
    → length rest < length s
unfolding fgets take_line
length-fgets n [] line rest e = absurd (cc e)
length-fgets n (c ∷ s) line rest e =
    subst (λ t. length t < suc (length s)) (ap (λ (p : Bytes × Bytes). p.1) (some_inj _ _ e))
      (rw less (shorter-take_line n c s))
  where
    less : suc (suc n) - 1 ≡ suc n
    less = omega arith

module _ (retry : Session → LoginEnd × Session) (m : ℕ)
    (ih : (s : Session) → length s.stdin < m → (retry s).0 ≢ login_stuck) where
  next_login-Ends :
      (s : Session) (b : Bool) → length s.stdin < m → (next_login retry s b).0 ≢ login_stuck
  unfolding next_login
  next_login-Ends s true h e = cc
  next_login-Ends s false h e = ih s h e

  read_answer-Ends :
      (s : Session) (r : ℤ × Bytes × Net)
      → length s.stdin < m
      → (read_answer retry s r).0 ≢ login_stuck
  unfolding read_answer
  read_answer-Ends s (code, response, net) h = elim (Bool-cases (leb_zero code)) [
    | inl gone ↦ rw gone (λ e. cc)
    | inr came ↦ rw came (next_login-Ends (record s { net = net }) (accepts_login response) h)
  ]

  path_sent-Ends :
      (s : Session) (r : ℤ × Net) → length s.stdin < m → (path_sent retry s r).0 ≢ login_stuck
  unfolding path_sent
  path_sent-Ends s (code, net) h = elim (Bool-cases (is_neg code)) [
    | inl gone ↦ rw gone (λ e. cc)
    | inr sent ↦
        rw sent
          (read_answer-Ends (record s { net = net }) (receive_message net s.client_socket 128) h)
  ]

  name_sent-Ends :
      (cwd : Option Bytes) (s : Session) (r : ℤ × Net)
      → length s.stdin < m
      → (name_sent retry cwd s r).0 ≢ login_stuck
  unfolding name_sent
  name_sent-Ends cwd s (code, net) h = elim (Bool-cases (is_neg code)) [
    | inl gone ↦ rw gone (λ e. cc)
    | inr sent ↦ rw sent (
        path_sent-Ends (record s { net = net })
          (send_message net s.client_socket (working_directory cwd)) h)
  ]

  try_name-Ends :
      (cwd : Option Bytes) (s : Session) (username : Bytes) (b : Bool)
      → length s.stdin < m
      → (try_name retry cwd s username b).0 ≢ login_stuck
  unfolding try_name
  try_name-Ends cwd s username true h = ih s h
  try_name-Ends cwd s username false h =
      name_sent-Ends cwd s (send_message s.net s.client_socket (chomp username)) h

  read_name-Ends :
      (cwd : Option Bytes) (s : Session) (o : Option (Bytes × Bytes))
      → ((line rest : Bytes) → o ≡ some (line, rest) → length rest < m)
      → (read_name retry cwd s o).0 ≢ login_stuck
  unfolding read_name
  read_name-Ends cwd s none h = λ e. cc
  read_name-Ends cwd s (some (line, rest)) h =
      try_name-Ends cwd (record s { stdin = rest }) (cstr line) (eq_bytes (cstr line) (codes "\n"))
        (h line rest refl)

login_loop-Ends :
    (fuel : ℕ) (cwd : Option Bytes) (s : Session)
    → length s.stdin < fuel
    → (login_loop fuel cwd s).0 ≢ login_stuck
unfolding login_loop
login_loop-Ends zero cwd s h = absurd (omega arith)
login_loop-Ends (suc fuel) cwd s h =
    read_name-Ends (login_loop fuel cwd) fuel (λ s' le. login_loop-Ends fuel cwd s' le) cwd s
      (fgets 17 s.stdin) (λ line rest e. omega (arith, length-fgets 15 s.stdin line rest e))

-- The login loop of the client ends, whatever the user types and whatever the server answers: as
-- many rounds as `stdin` has bytes, and one more, are enough, since each round reads one.
pub login_to_server-Ends :
    (cwd : Option Bytes) (s : Session) → (login_to_server cwd s).0 ≢ login_stuck
unfolding login_to_server
login_to_server-Ends cwd s = login_loop-Ends (length s.stdin + 1) cwd s (omega arith)
