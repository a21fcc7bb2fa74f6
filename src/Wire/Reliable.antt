-- ===== src/Wire/Reliable.antt =====
-- A kernel that takes all that it is given.
use tcp_chat_server_c.Base.{
  [], ap, append-nil, arith, drop, eq_int, false, length, length-take, negsuc, pos, refl, subst,
  suc, success, sym, take, zero, ℕ, ℤ, ◌++◌, ◌∙◌, ◌∷◌, ◌≡◌, ◌≤◌,
}
use tcp_chat_server_c.CString.{Bytes}
use tcp_chat_server_c.Wire.{
  Net, Outcome, after_round, after_send, broken, bytes_to_send, done, ended, htonl, message_len,
  out_of_fuel, send, send_data, send_loop, send_message, status,
}
use tcp_chat_server_c.Wire.Sent.{Sent}
use tcp_chat_server_c.Wire.Send.{Delivers, Posts, frame, send_loop-Delivers, send_message-Posts}

abbrev pub Reliable : Net → Type 0
Reliable net = (n : ℕ) (fd : ℤ) (len : ℕ) → net.send_result n fd len ≡ pos len

drop-length : (buf : Bytes) → drop (length buf) buf ≡ []
drop-length [] = refl
drop-length (c ∷ buf) = drop-length buf

send_loop-done :
    (fuel : ℕ) (net : Net) (fd : ℤ) (buf : Bytes)
    → Reliable net
    → length buf ≤ fuel
    → (send_loop fuel net fd buf).0 ≡ done
unfolding send_loop send after_send after_round
send_loop-done fuel net fd [] rel h = refl
send_loop-done zero net fd (c ∷ buf) rel h = elim h [ ]
send_loop-done (suc fuel) net fd (c ∷ buf) rel h =
    rw (rel net.sends fd (suc (length buf)), after_send, after_round, drop-length buf) refl

send_data-done :
    (fd : ℤ) (m : Bytes) (r : Outcome × Net)
    → r.0 ≡ done
    → Reliable r.1
    → (send_data fd m r).0 ≡ success
unfolding send_data status
send_data-done fd m (done, net) e rel =
    status-done (send_loop (length m) net fd (take (bytes_to_send m) m)) (
      send_loop-done (length m) net fd (take (bytes_to_send m) m) rel
        (omega (arith, length-take {0} (bytes_to_send m) m)))
  where
    status-done : (r : Outcome × Net) → r.0 ≡ done → (status r).0 ≡ success
    status-done (done, net) e = refl
    status-done (ended, net) e = cc
    status-done (broken, net) e = cc
    status-done (out_of_fuel, net) e = cc
send_data-done fd m (ended, net) e rel = cc
send_data-done fd m (broken, net) e rel = cc
send_data-done fd m (out_of_fuel, net) e rel = cc

pub Reliable-Sent :
    {net net' : Net} {fd : ℤ} {p : Bytes} → Sent net net' fd p → Reliable net → Reliable net'
Reliable-Sent s rel n fd len = rw s.kernel (rel n fd len)

-- Over a kernel that takes all that it is given, `send_message` to a socket that is not -1 returns
-- 0, and that socket alone takes the message's frame: the number of bytes of the text modulo 2 ^ 32
-- in four bytes, and then the whole text where it is shorter than 2 ^ 31 bytes; of a longer one the
-- first bytes, as many as that remainder says, and none where the remainder is 2 ^ 31 or more.
pub send_message-Reliable :
    (net : Net) (fd : ℤ) (m : Bytes)
    → Reliable net
    → eq_int fd (negsuc 0) ≡ false
    → ((send_message net fd m).0 ≡ success) × Sent net (send_message net fd m).1 fd (frame m)
send_message-Reliable net fd m rel good =
    (code, subst (λ t. Sent net (send_message net fd m).1 fd t) whole p.sent)
  where
    p : Posts net fd m (send_message net fd m)
    p = send_message-Posts net fd m

    header : Delivers net fd (htonl (message_len m)) (send_loop 4 net fd (htonl (message_len m)))
    header = send_loop-Delivers 4 net fd (htonl (message_len m))

    code : (send_message net fd m).0 ≡ success
    code =
        unfold send_message htonl in
        rw good (
          send_data-done fd m (send_loop 4 net fd (htonl (message_len m)))
            (send_loop-done 4 net fd (htonl (message_len m)) rel (omega arith))
            (Reliable-Sent header.sent rel))

    whole : p.part ≡ frame m
    whole = sym (append-nil p.part) ∙ ap (λ t. p.part ++ t) (sym (p.whole code)) ∙ p.split
