-- ===== src/Server/Whisper/Outcome.antt =====
-- What `handle_whisper_command` puts on the wire.
use tcp_chat_server_c.Base.{
  Bool-cases, [], ap, eq_int, false, if◌then◌else◌, inl, inr, is_neg, none, refl, some, true, ℕ, ℤ,
  ◌++◌, ◌∙◌, ◌∷◌, ◌≡◌,
}
use tcp_chat_server_c.CString.{Bytes, eq_bytes, is_blank, is_empty, skip, split_at}
use tcp_chat_server_c.Wire.{Net, send_message, sent_to}
use tcp_chat_server_c.Wire.Send.{frame, send_message-Posts}
use tcp_chat_server_c.Wire.Reliable.{Reliable, Reliable-Sent, send_message-Reliable}
use tcp_chat_server_c.Clients.{Client, find_client_by_socket, find_client_by_username}
use tcp_chat_server_c.Replies.{Reply, render, whisper, whisper_failed, whisper_sent}
use tcp_chat_server_c.Server.{World, respond}
use tcp_chat_server_c.Server.Whisper.{
  confirm_whisper, handle_whisper_command, whisper_checked, whisper_from, whisper_to,
}
use tcp_chat_server_c.Server.Broadcast.Recipients.{GoodSockets}

-- A registered client writes to another one, who is there, a message that is not blank.
pub record Whispers (w : World) (fd : ℤ) (args name message : Bytes) (sender target : Client)
    : Type 0 where
  pub known : find_client_by_socket w.clients.nodes fd ≡ some sender
  pub rest : Bytes
  pub parts : split_at b' ' args ≡ some (name, rest)
  pub cleaned : skip is_blank rest ≡ message
  pub text : is_empty message ≡ false
  pub other : eq_bytes sender.username name ≡ false
  pub there : find_client_by_username w.clients.nodes name ≡ some target
  pub awake : target.is_active ≡ true

split_at-nil : (c : ℕ) → split_at c [] ≡ none
unfolding split_at
split_at-nil c = refl

handle_whisper-eq :
    (w : World) (fd : ℤ) (args name message : Bytes) (sender target : Client)
    → Whispers w fd args name message sender target
    → handle_whisper_command w fd args
      ≡ confirm_whisper w fd name (
          send_message w.net target.socket_fd
            (render (whisper sender.username target.username message)))
unfolding handle_whisper_command whisper_from whisper_checked whisper_to
handle_whisper-eq w fd [] name message sender target s = absurd (cc (split_at-nil b' ', s.parts))
handle_whisper-eq w fd (c ∷ args) name message sender target s =
    rw (s.known, whisper_from, s.parts, s.cleaned, s.text, s.other, s.there, s.awake) refl

abbrev answer : ℤ → Bytes → Reply
answer code name = if is_neg code then whisper_failed else whisper_sent name

net-confirm_whisper :
    (w : World) (fd : ℤ) (name : Bytes) (r : ℤ × Net)
    → (confirm_whisper w fd name r).net ≡ (send_message r.1 fd (render (answer r.0 name))).1
unfolding confirm_whisper respond
net-confirm_whisper w fd name (code, net) = elim (Bool-cases (is_neg code)) [
  | inl bad ↦ rw bad refl
  | inr good ↦ rw good refl
]

-- What a whisper from the socket `fd` to the client `target` leaves on the wire.
pub record Whispered (w w' : World) (fd : ℤ) (name : Bytes) (target : Client) (text : Bytes)
    : Type 0 where
  -- the other sockets take nothing, whatever the kernel does
  pub others :
      (other : ℤ)
      → eq_int fd other ≡ false
      → eq_int target.socket_fd other ≡ false
      → sent_to other w'.net.wire ≡ sent_to other w.net.wire
  -- over a reliable kernel the target takes the text, and the sender the confirmation
  pub received :
      Reliable w.net
      → GoodSockets (fd ∷ target.socket_fd ∷ [])
      → eq_int fd target.socket_fd ≡ false
      → eq_int target.socket_fd fd ≡ false
      → (sent_to target.socket_fd w'.net.wire ≡ sent_to target.socket_fd w.net.wire ++ frame text)
        × (sent_to fd w'.net.wire ≡ sent_to fd w.net.wire ++ frame (render (whisper_sent name)))

-- A registered client's whisper to another client reaches that client and the sender alone: no
-- other socket takes a byte, whatever the kernel does; and if the kernel takes all that it is given
-- and the two sockets are good and distinct, the target takes the message's frame and the sender
-- that of the confirmation.
pub handle_whisper_command-Whispered :
    (w : World) (fd : ℤ) (args name message : Bytes) (sender target : Client)
    → Whispers w fd args name message sender target
    → Whispered w
        (handle_whisper_command w fd args)
        fd
        name
        target
        (render (whisper sender.username target.username message))
handle_whisper_command-Whispered w fd args name message sender target s =
    let text : Bytes = render (whisper sender.username target.username message) in
    let r = send_message w.net target.socket_fd text in
    rw (handle_whisper-eq w fd args name message sender target s) (record {
      others = λ other ne ne'.
          ap (λ net. sent_to other net.wire) (net-confirm_whisper w fd name r)
          ∙ (send_message-Posts r.1 fd (render (answer r.0 name))).sent.others other ne
          ∙ (send_message-Posts w.net target.socket_fd text).sent.others other ne';
      received = λ rel good ne ne'.
          let (code, sent) = send_message-Reliable w.net target.socket_fd text rel good.1.0 in
          let (code', sent') =
            send_message-Reliable r.1 fd (render (answer r.0 name)) (Reliable-Sent sent rel)
              good.0 in
          let reply : answer r.0 name ≡ whisper_sent name = rw code refl in
          (
            ap (λ net. sent_to target.socket_fd net.wire) (net-confirm_whisper w fd name r)
                ∙ sent'.others target.socket_fd ne
                ∙ sent.taken,
            ap (λ net. sent_to fd net.wire) (net-confirm_whisper w fd name r)
                ∙ sent'.taken
                ∙ rw (sent.others fd ne', reply) refl,
          );
    })
