-- ===== src/Client/Input.antt =====
-- client/client_helper.c, `process_user_input`: the lines that the user types, one turn of its loop
-- at a time. Between two turns the other thread may clear `client_running`.
pub mod Safe
pub mod Flag
use tcp_chat_server_c.Base.{
  Bool, List, Option, [], false, if◌then◌else◌, none, not, some, true, ◌∷◌,
}
use tcp_chat_server_c.CString.{Bytes, codes, cstr, is_empty, starts_with}
use tcp_chat_server_c.Wire.{send_message}
use tcp_chat_server_c.Client.{Session, chomp, fgets}
use tcp_chat_server_c.Client.Commands.{CommandResult, FileSystem, valid, validate_command}

-- What `select` reports.
pub data InputWake : Type 0 where
  woken_early no_input input_failed input_ready : InputWake

-- The loop goes on, or has ended.
pub data InputTurn : Type 0 where
  reads_on stops : Session → InputTurn

post : Session → Bytes → Session
post s line = record s { net = (send_message s.net s.client_socket line).1 }

-- A line that has been accepted.
on_accepted : Session → Bytes → InputTurn
unfolding post
on_accepted s line =
    if starts_with (codes "/exit") line
    then stops (record (post s line) { client_running = false })
    else if starts_with (codes "/help") line
    then reads_on s
    else reads_on (post s line)

is_valid : CommandResult → Bool
is_valid valid = true
is_valid _ = false

on_command : FileSystem → Session → Bytes → InputTurn
unfolding on_accepted is_valid
on_command fs s line =
    if is_valid (validate_command fs line) then on_accepted s line else reads_on s

on_line : FileSystem → Session → Bytes → InputTurn
unfolding on_command
on_line fs s line =
    if is_empty line
    then reads_on s
    else if starts_with (codes "/") line
    then on_command fs s line
    else reads_on s

on_read : FileSystem → Session → Option (Bytes × Bytes) → InputTurn
unfolding on_line
on_read fs s none = stops s
on_read fs s (some (line, rest)) = on_line fs (record s { stdin = rest }) (chomp (cstr line))

unfoldable pub on_wake : FileSystem → Session → InputWake → InputTurn
unfolding on_read
on_wake fs s woken_early = if not s.client_running then stops s else reads_on s
on_wake fs s no_input = if not s.client_running then stops s else reads_on s
on_wake fs s input_failed = stops s
on_wake fs s input_ready = on_read fs s (fgets 1024 s.stdin)

-- `shut_down` says that the other thread has cleared `client_running` when `select` returns.
unfoldable pub input_turn : FileSystem → Session → Bool → InputWake → InputTurn
unfolding on_wake
input_turn fs s shut_down wake =
    if s.client_running
    then on_wake fs (record s { client_running = not shut_down }) wake
    else stops s

-- `while (client_running) { ... }`, for the turns that are given.
unfoldable pub process_user_input : FileSystem → Session → List (Bool × InputWake) → InputTurn
process_user_input fs s [] = reads_on s
process_user_input fs s ((shut_down, wake) ∷ wakes) = elim (input_turn fs s shut_down wake) [
  | stops s' ↦ stops s'
  | reads_on s' ↦ process_user_input fs s' wakes
]
