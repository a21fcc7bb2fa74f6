-- ===== src/Client/Input/Flag.antt =====
-- The input loop never sets `client_running` again.
use tcp_chat_server_c.Base.{Bool, Option, false, if◌then◌else◌, none, not, refl, some, true, ◌≡◌}
use tcp_chat_server_c.CString.{Bytes, codes, cstr, is_empty, starts_with}
use tcp_chat_server_c.Client.{Session, chomp, fgets}
use tcp_chat_server_c.Client.Commands.{FileSystem, validate_command}
use tcp_chat_server_c.Client.Input.{
  InputWake, input_failed, input_ready, is_valid, no_input, on_accepted, on_command, on_line,
  on_read, on_wake, post, woken_early,
}
use tcp_chat_server_c.Client.Input.Safe.{session_of}

abbrev pub Cleared : Session → Type 0
Cleared s = s.client_running ≡ false

pub Cleared-if {ℓ} :
    {A : Type ℓ} (state : A → Session) (b : Bool) (x y : A)
    → Cleared (state x)
    → Cleared (state y)
    → Cleared (state (if b then x else y))
Cleared-if state true x y h k = h
Cleared-if state false x y h k = k

module _ (fs : FileSystem) where
  on_accepted-Cleared :
      (s : Session) (command : Bytes) → Cleared s → Cleared (session_of (on_accepted s command))
  unfolding on_accepted post
  on_accepted-Cleared s command h =
      Cleared-if session_of (starts_with (codes "/exit") command) _ _ refl
        (Cleared-if session_of (starts_with (codes "/help") command) _ _ h h)

  on_line-Cleared :
      (s : Session) (command : Bytes) → Cleared s → Cleared (session_of (on_line fs s command))
  unfolding on_line on_command
  on_line-Cleared s command h = Cleared-if session_of (is_empty command) _ _ h (
      Cleared-if session_of (starts_with (codes "/") command) _ _
        (Cleared-if session_of (is_valid (validate_command fs command)) _ _
          (on_accepted-Cleared s command h) h)
        h)

  on_read-Cleared :
      (s : Session) (o : Option (Bytes × Bytes)) → Cleared s → Cleared (session_of (on_read fs s o))
  unfolding on_read
  on_read-Cleared s none h = h
  on_read-Cleared s (some (command, rest)) h =
      on_line-Cleared (record s { stdin = rest }) (chomp (cstr command)) h

  pub on_wake-Cleared :
      (s : Session) (wake : InputWake) → Cleared s → Cleared (session_of (on_wake fs s wake))
  unfolding on_wake
  on_wake-Cleared s woken_early h = Cleared-if session_of (not s.client_running) _ _ h h
  on_wake-Cleared s no_input h = Cleared-if session_of (not s.client_running) _ _ h h
  on_wake-Cleared s input_failed h = h
  on_wake-Cleared s input_ready h = on_read-Cleared s (fgets 1024 s.stdin) h
