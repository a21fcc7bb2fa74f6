-- ===== src/Client/Input/Safe.antt =====
-- What the user's lines put on the wire.
use tcp_chat_server_c.Base.{
  Bool, Bool-cases, List, Option, [], false, if◌then◌else◌, inl, inr, none, not, refl, some, subst,
  sym, true, ℤ, ◌∙◌, ◌∷◌, ◌≡◌,
}
use tcp_chat_server_c.CString.{Bytes, codes, cstr, is_empty, starts_with}
use tcp_chat_server_c.Wire.{Net, send_message}
use tcp_chat_server_c.Client.{Session, chomp, fgets}
use tcp_chat_server_c.Client.Commands.{CommandResult, FileSystem, valid, validate_command}
use tcp_chat_server_c.Client.Input.{
  InputTurn, InputWake, input_failed, input_ready, input_turn, is_valid, no_input, on_accepted,
  on_command, on_line, on_read, on_wake, post, process_user_input, reads_on, stops, woken_early,
}

abbrev pub session_of : InputTurn → Session
session_of (reads_on s) = s
session_of (stops s) = s

-- Command lines that pass the check were sent, one after another, and nothing else.
pub data Sends (fs : FileSystem) (fd : ℤ) (net : Net) : Net → Type 0 where
  no_line : Sends fs fd net net
  then_line :
      {net' : Net} (command : Bytes)
      → Sends fs fd net net'
      → validate_command fs command ≡ valid
      → Sends fs fd net (send_message net' fd command).1

Sends-trans :
    {fs : FileSystem} {fd : ℤ} {a b c : Net} → Sends fs fd a b → Sends fs fd b c → Sends fs fd a c
Sends-trans s no_line = s
Sends-trans s (then_line command t h) = then_line command (Sends-trans s t) h

-- Between two states of the client.
pub record SendsLines (fs : FileSystem) (s s' : Session) : Type 0 where
  pub socket : s'.client_socket ≡ s.client_socket
  pub lines : Sends fs s.client_socket s.net s'.net

SendsLines-silent :
    {fs : FileSystem} {s s' : Session}
    → s'.client_socket ≡ s.client_socket
    → s'.net ≡ s.net
    → SendsLines fs s s'
SendsLines-silent {fs} {s} e n = record {
  socket = e;
  lines = subst (λ t. Sends fs s.client_socket s.net t) (sym n) no_line;
}

SendsLines-trans :
    {fs : FileSystem} {a b c : Session} → SendsLines fs a b → SendsLines fs b c → SendsLines fs a c
SendsLines-trans {fs} {a} {b} {c} s t = record {
  socket = t.socket ∙ s.socket;
  lines = Sends-trans s.lines (subst (λ fd. Sends fs fd b.net c.net) s.socket t.lines);
}

is_valid→eq : (r : CommandResult) → is_valid r ≡ true → r ≡ valid
unfolding is_valid
is_valid→eq valid h = refl
is_valid→eq _ h = cc

module _ (fs : FileSystem) (s : Session) where
  on_accepted-SendsLines :
      (command : Bytes)
      → validate_command fs command ≡ valid
      → SendsLines fs s (session_of (on_accepted s command))
  unfolding on_accepted post
  on_accepted-SendsLines command h = elim (Bool-cases (starts_with (codes "/exit") command)) [
    | inl e ↦ rw e (record { socket = refl; lines = then_line command no_line h })
    | inr e ↦ rw e (elim (Bool-cases (starts_with (codes "/help") command)) [
      | inl e' ↦ rw e' (SendsLines-silent refl refl)
      | inr e' ↦ rw e' (record { socket = refl; lines = then_line command no_line h })
    ])
  ]

  on_command-SendsLines : (command : Bytes) → SendsLines fs s (session_of (on_command fs s command))
  unfolding on_command
  on_command-SendsLines command = elim (Bool-cases (is_valid (validate_command fs command))) [
    | inl e ↦ rw e (on_accepted-SendsLines command (is_valid→eq _ e))
    | inr e ↦ rw e (SendsLines-silent refl refl)
  ]

  on_line-SendsLines : (command : Bytes) → SendsLines fs s (session_of (on_line fs s command))
  unfolding on_line
  on_line-SendsLines command = elim (Bool-cases (is_empty command)) [
    | inl e ↦ rw e (SendsLines-silent refl refl)
    | inr e ↦ rw e (elim (Bool-cases (starts_with (codes "/") command)) [
      | inl e' ↦ rw e' (on_command-SendsLines command)
      | inr e' ↦ rw e' (SendsLines-silent refl refl)
    ])
  ]

on_read-SendsLines :
    (fs : FileSystem) (s : Session) (o : Option (Bytes × Bytes))
    → SendsLines fs s (session_of (on_read fs s o))
unfolding on_read
on_read-SendsLines fs s none = SendsLines-silent refl refl
on_read-SendsLines fs s (some (command, rest)) =
    SendsLines-trans (SendsLines-silent refl refl)
      (on_line-SendsLines fs (record s { stdin = rest }) (chomp (cstr command)))

waits-SendsLines :
    (fs : FileSystem) (s : Session) (b : Bool)
    → SendsLines fs s (session_of (if b then stops s else reads_on s))
waits-SendsLines fs s true = SendsLines-silent refl refl
waits-SendsLines fs s false = SendsLines-silent refl refl

on_wake-SendsLines :
    (fs : FileSystem) (s : Session) (wake : InputWake)
    → SendsLines fs s (session_of (on_wake fs s wake))
unfolding on_wake
on_wake-SendsLines fs s woken_early = waits-SendsLines fs s (not s.client_running)
on_wake-SendsLines fs s no_input = waits-SendsLines fs s (not s.client_running)
on_wake-SendsLines fs s input_failed = SendsLines-silent refl refl
on_wake-SendsLines fs s input_ready = on_read-SendsLines fs s (fgets 1024 s.stdin)

input_turn-SendsLines :
    (fs : FileSystem) (s : Session) (shut_down : Bool) (wake : InputWake)
    → SendsLines fs s (session_of (input_turn fs s shut_down wake))
unfolding input_turn
input_turn-SendsLines fs s shut_down wake = elim (Bool-cases s.client_running) [
  | inl e ↦ rw e (
      SendsLines-trans (SendsLines-silent refl refl)
        (on_wake-SendsLines fs (record s { client_running = not shut_down }) wake))
  | inr e ↦ rw e (SendsLines-silent refl refl)
]

next_turns-SendsLines :
    (fs : FileSystem) (wakes : List (Bool × InputWake)) (s : Session) (t : InputTurn)
    → SendsLines fs s (session_of t)
    → ((s' : Session) → SendsLines fs s' (session_of (process_user_input fs s' wakes)))
    → SendsLines fs s
        (session_of (elim t [ stops s' ↦ stops s' | reads_on s' ↦ process_user_input fs s' wakes ]))
next_turns-SendsLines fs wakes s (stops s') h ih = h
next_turns-SendsLines fs wakes s (reads_on s') h ih = SendsLines-trans h (ih s')

-- Whatever the user types and however the waits end, all that the input loop sends are frames of
-- command lines that pass the check `validate_command`, on the client's own socket.
pub process_user_input-SendsLines :
    (fs : FileSystem) (wakes : List (Bool × InputWake)) (s : Session)
    → SendsLines fs s (session_of (process_user_input fs s wakes))
unfolding process_user_input
process_user_input-SendsLines fs [] s = SendsLines-silent refl refl
process_user_input-SendsLines fs ((shut_down, wake) ∷ wakes) s =
    next_turns-SendsLines fs wakes s (input_turn fs s shut_down wake)
      (input_turn-SendsLines fs s shut_down wake) (λ s'. process_user_input-SendsLines fs wakes s')
