-- ===== src/Server/Dispatch.antt =====
-- `process_client_command` and `client_message_loop`.
pub mod Safe
use mathlib.Core.Option
use tcp_chat_server_c.Base.{List, Option, [], drop, if◌then◌else◌, leb_zero, none, some, ℤ, ◌∷◌}
use tcp_chat_server_c.CString.{Bytes, codes, cstr, is_empty, starts_with}
use tcp_chat_server_c.Wire.{Net, receive_message}
use tcp_chat_server_c.Replies.{empty_command, unknown_command}
use tcp_chat_server_c.Server.{Resources, World, respond}
use tcp_chat_server_c.Server.Join.{handle_join_command}
use tcp_chat_server_c.Server.Leave.{handle_leave_command}
use tcp_chat_server_c.Server.Broadcast.{handle_broadcast_command}
use tcp_chat_server_c.Server.Whisper.{handle_whisper_command}
use tcp_chat_server_c.Server.Sendfile.{handle_sendfile_command}

-- `/exit` changes nothing here: the message loop ends on it.
unfoldable pub handle_exit_command : World → ℤ → World
handle_exit_command w fd = w

unfoldable pub process_client_command : World → ℤ → Bytes → Resources → Option World
unfolding handle_exit_command
process_client_command w fd command res =
    if is_empty command
    then some (respond w fd empty_command)
    else if starts_with (codes "/join ") command
    then handle_join_command w fd (drop 6 command) res
    else if starts_with (codes "/leave") command
    then handle_leave_command w fd res
    else if starts_with (codes "/broadcast ") command
    then handle_broadcast_command w fd (drop 11 command) res
    else if starts_with (codes "/whisper ") command
    then some (handle_whisper_command w fd (drop 9 command))
    else if starts_with (codes "/sendfile ") command
    then some (handle_sendfile_command w fd (drop 10 command) res)
    else if starts_with (codes "/exit") command
    then some (handle_exit_command w fd)
    else some (respond w fd (unknown_command command))

-- What `select` reports in a round of the message loop.
pub data Wake : Type 0 where
  interrupted timed_out select_failed : Wake
  readable : Resources → Wake

-- The loop goes on, or has ended.
pub data Turn : Type 0 where
  goes_on ends : World → Turn

after_command : Bytes → World → Turn
after_command command w = if starts_with (codes "/exit") command then ends w else goes_on w

on_message : World → ℤ → Resources → ℤ × Bytes × Net → Option Turn
unfolding after_command
on_message w fd res (code, buffer, net) =
    if leb_zero code
    then some (ends (record w { net = net }))
    else Option.map (after_command (cstr buffer))
        (process_client_command (record w { net = net }) fd (cstr buffer) res)

unfoldable pub message_turn : World → ℤ → Wake → Option Turn
unfolding on_message
message_turn w fd interrupted = some (goes_on w)
message_turn w fd timed_out = some (goes_on w)
message_turn w fd select_failed = some (ends w)
message_turn w fd (readable res) = on_message w fd res (receive_message w.net fd 4096)

-- `while (server_running) { ... }`, for the rounds that are given.
unfoldable pub client_message_loop : World → ℤ → List Wake → Option Turn
client_message_loop w fd [] = some (goes_on w)
client_message_loop w fd (wake ∷ wakes) = elim (message_turn w fd wake) [
  | none ↦ none
  | some (ends w') ↦ some (ends w')
  | some (goes_on w') ↦ client_message_loop w' fd wakes
]
