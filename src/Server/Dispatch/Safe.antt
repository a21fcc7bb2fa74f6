-- ===== src/Server/Dispatch/Safe.antt =====
-- The message loop, its pointers and the invariant.
use tcp_chat_server_c.Base.{
  Bool-cases, List, Option, [], drop, inl, inr, leb_zero, refl, some, ℤ, ◌∷◌, ◌≡◌,
}
use tcp_chat_server_c.CString.{Bytes, codes, cstr, is_empty, starts_with}
use tcp_chat_server_c.Wire.{Net, receive_message}
use tcp_chat_server_c.Replies.{Reply, empty_command, unknown_command}
use tcp_chat_server_c.Server.{Resources, World, respond}
use tcp_chat_server_c.Server.Dispatch.{
  Turn, Wake, after_command, client_message_loop, ends, goes_on, interrupted, message_turn,
  on_message, process_client_command, readable, select_failed, timed_out,
}
use tcp_chat_server_c.Safety.{IsSafe, IsSafe-if, IsSafe-same, IsValid}
use tcp_chat_server_c.Server.Join.Safe.{handle_join_command-IsSafe}
use tcp_chat_server_c.Server.Leave.Safe.{handle_leave_command-IsSafe}
use tcp_chat_server_c.Server.Broadcast.Safe.{handle_broadcast_command-IsSafe}
use tcp_chat_server_c.Server.Whisper.Safe.{
  clients-handle_whisper_command, rooms-handle_whisper_command,
}
use tcp_chat_server_c.Server.Sendfile.Safe.{
  clients-handle_sendfile_command, rooms-handle_sendfile_command,
}

module _ (w : World) (v : IsValid w) (fd : ℤ) where
  respond-IsSafe : (reply : Reply) → IsSafe (some (respond w fd reply))
  unfolding respond
  respond-IsSafe reply = (respond w fd reply, refl, v)

  -- From a state where the invariant holds, a command, whatever its text, is handled without
  -- reading a dangling pointer, and the invariant holds again.
  pub process_client_command-IsSafe :
      (command : Bytes) (res : Resources) → IsSafe (process_client_command w fd command res)
  unfolding process_client_command
  process_client_command-IsSafe command res =
      IsSafe-if (is_empty command) (respond-IsSafe empty_command) (
        IsSafe-if (starts_with (codes "/join ") command)
          (handle_join_command-IsSafe w fd (drop 6 command) res v)
          (IsSafe-if (starts_with (codes "/leave") command) (handle_leave_command-IsSafe w fd res v)
            (IsSafe-if (starts_with (codes "/broadcast ") command)
              (handle_broadcast_command-IsSafe w fd (drop 11 command) res v)
              (IsSafe-if (starts_with (codes "/whisper ") command)
                (IsSafe-same w _ (clients-handle_whisper_command w fd (drop 9 command))
                  (rooms-handle_whisper_command w fd (drop 9 command)) v)
                (IsSafe-if (starts_with (codes "/sendfile ") command)
                  (IsSafe-same w _ (clients-handle_sendfile_command w fd (drop 10 command) res)
                    (rooms-handle_sendfile_command w fd (drop 10 command) res) v)
                  (IsSafe-if (starts_with (codes "/exit") command) (w, refl, v)
                    (respond-IsSafe (unknown_command command))))))))

abbrev pub turn_world : Turn → World
turn_world (goes_on w) = w
turn_world (ends w) = w

abbrev pub IsSafeTurn : Option Turn → Type 0
IsSafeTurn r = (t : Turn) × (r ≡ some t) × IsValid (turn_world t)

after_command-IsValid :
    (command : Bytes) (w : World) → IsValid w → IsValid (turn_world (after_command command w))
unfolding after_command
after_command-IsValid command w v = elim (Bool-cases (starts_with (codes "/exit") command)) [
  | inl leaves ↦ rw leaves v
  | inr stays ↦ rw stays v
]

on_message-IsSafe :
    (w : World) (fd : ℤ) (res : Resources) (r : ℤ × Bytes × Net)
    → IsValid w
    → IsSafeTurn (on_message w fd res r)
unfolding on_message
on_message-IsSafe w fd res (code, buffer, net) v = elim (Bool-cases (leb_zero code)) [
  | inl gone ↦ rw gone (ends (record w { net = net }), refl, v)
  | inr here ↦
      let (w', e, v') =
        process_client_command-IsSafe (record w { net = net }) v fd (cstr buffer) res in
      (after_command (cstr buffer) w', rw (here, e), after_command-IsValid (cstr buffer) w' v')
]

-- A round of the message loop, whatever `select` and `recv` return, reads no dangling pointer and
-- keeps the invariant.
pub message_turn-IsSafe :
    (w : World) (fd : ℤ) (wake : Wake) → IsValid w → IsSafeTurn (message_turn w fd wake)
unfolding message_turn
message_turn-IsSafe w fd interrupted v = (goes_on w, refl, v)
message_turn-IsSafe w fd timed_out v = (goes_on w, refl, v)
message_turn-IsSafe w fd select_failed v = (ends w, refl, v)
message_turn-IsSafe w fd (readable res) v =
    on_message-IsSafe w fd res (receive_message w.net fd 4096) v

-- From a state where the invariant holds, any number of rounds of the message loop, whatever
-- `select` and `recv` return, read no dangling pointer, and the invariant holds again.
pub client_message_loop-IsSafe :
    (w : World) (fd : ℤ) (wakes : List Wake)
    → IsValid w
    → IsSafeTurn (client_message_loop w fd wakes)
unfolding client_message_loop
client_message_loop-IsSafe w fd [] v = (goes_on w, refl, v)
client_message_loop-IsSafe w fd (wake ∷ wakes) v =
    go (message_turn-IsSafe w fd wake v) (λ w' v'. client_message_loop-IsSafe w' fd wakes v')
  where
    go :
        IsSafeTurn (message_turn w fd wake)
        → ((w' : World) → IsValid w' → IsSafeTurn (client_message_loop w' fd wakes))
        → IsSafeTurn (client_message_loop w fd (wake ∷ wakes))
    go (ends w', e, v') again' = (ends w', rw (e, client_message_loop), v')
    go (goes_on w', e, v') again' = rw (e, client_message_loop) (again' w' v')
