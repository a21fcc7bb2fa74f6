-- ===== src/Server/Whisper.antt =====
-- `handle_whisper_command`. The copy of the arguments, whose `malloc` the code does not check, is
-- taken to succeed.
pub mod Safe
pub mod Outcome
use tcp_chat_server_c.Base.{Option, if◌then◌else◌, is_neg, none, not, some, ℤ}
use tcp_chat_server_c.CString.{Bytes, eq_bytes, is_blank, is_empty, skip, split_at}
use tcp_chat_server_c.Wire.{Net, send_message}
use tcp_chat_server_c.Clients.{Client, find_client_by_socket, find_client_by_username}
use tcp_chat_server_c.Replies.{
  render, unidentified_sender, usage_whisper, user_offline, whisper, whisper_empty, whisper_failed,
  whisper_self, whisper_sent,
}
use tcp_chat_server_c.Server.{World, respond}

confirm_whisper : World → ℤ → Bytes → ℤ × Net → World
confirm_whisper w fd target (code, net) =
    if is_neg code
    then respond (record w { net = net }) fd whisper_failed
    else respond (record w { net = net }) fd (whisper_sent target)

whisper_to : World → ℤ → Client → Bytes → Bytes → Option Client → World
unfolding confirm_whisper
whisper_to w fd sender target_username message none = respond w fd (user_offline target_username)
whisper_to w fd sender target_username message (some target) =
    if not target.is_active
    then respond w fd (user_offline target_username)
    else confirm_whisper w fd target_username (
        send_message w.net target.socket_fd
          (render (whisper sender.username target.username message)))

whisper_checked : World → ℤ → Client → Bytes → Bytes → World
unfolding whisper_to
whisper_checked w fd sender target_username message =
    if is_empty message
    then respond w fd whisper_empty
    else if eq_bytes sender.username target_username
    then respond w fd whisper_self
    else whisper_to w fd sender target_username message
        (find_client_by_username w.clients.nodes target_username)

whisper_from : World → ℤ → Client → Bytes → World
unfolding whisper_checked
whisper_from w fd sender args = elim (split_at b' ' args) [
  | none ↦ respond w fd usage_whisper
  | some (target_username, rest) ↦ whisper_checked w fd sender target_username (skip is_blank rest)
]

unfoldable pub handle_whisper_command : World → ℤ → Bytes → World
unfolding whisper_from
handle_whisper_command w fd args =
    if is_empty args
    then respond w fd usage_whisper
    else elim (find_client_by_socket w.clients.nodes fd) [
      | none ↦ respond w fd unidentified_sender
      | some sender ↦ whisper_from w fd sender args
    ]
