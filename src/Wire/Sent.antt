-- ===== src/Wire/Sent.antt =====
-- What a step of the program has put on the wire.
use tcp_chat_server_c.Base.{
  List, [], ap, append-nil, append_assoc, arith, eq_int, eq_int_iff, false, negsuc, pos, refl, sym,
  take, ℕ, ℤ, ◌++◌, ◌∙◌, ◌∷◌, ◌≡◌,
}
use tcp_chat_server_c.CString.{Bytes}
use tcp_chat_server_c.Wire.{Net, after_send, sent_to}

sent_to-append :
    (fd : ℤ) (v w : List (ℤ × Bytes)) → sent_to fd (v ++ w) ≡ sent_to fd v ++ sent_to fd w
unfolding sent_to
sent_to-append fd [] w = refl
sent_to-append fd ((to, bs) ∷ v) w =
    ground (arith, sent_to-append fd v w, append_assoc bs (sent_to fd v) (sent_to fd w))

-- Between two states the socket took the bytes `p`, the other sockets took nothing, and nothing was
-- received.
pub record Sent (net net' : Net) (fd : ℤ) (p : Bytes) : Type 0 where
  pub taken : sent_to fd net'.wire ≡ sent_to fd net.wire ++ p
  pub others :
      (other : ℤ) → eq_int fd other ≡ false → sent_to other net'.wire ≡ sent_to other net.wire
  pub input : net'.recvs ≡ net.recvs
  pub source : net'.recv_result ≡ net.recv_result
  pub kernel : net'.send_result ≡ net.send_result

pub Sent-refl : (net : Net) (fd : ℤ) → Sent net net fd []
Sent-refl net fd = record {
  taken = sym (append-nil (sent_to fd net.wire));
  others = λ other ne. refl;
  input = refl;
  source = refl;
  kernel = refl;
}

pub Sent-trans :
    {a b c : Net} {fd : ℤ} {p q : Bytes} → Sent a b fd p → Sent b c fd q → Sent a c fd (p ++ q)
Sent-trans {a} {b} {c} {fd} {p} {q} s t = record {
  taken = t.taken ∙ ap (λ w. w ++ q) s.taken ∙ append_assoc (sent_to fd a.wire) p q;
  others = λ other ne. t.others other ne ∙ s.others other ne;
  input = t.input ∙ s.input;
  source = t.source ∙ s.source;
  kernel = t.kernel ∙ s.kernel;
}

pub after_send-Sent :
    (net : Net) (fd : ℤ) (buf : Bytes) (n : ℕ)
    → Sent net (after_send net fd buf (pos n)).1 fd (take n buf)
unfolding after_send sent_to
after_send-Sent net fd buf n = record {
  taken =
      sent_to-append fd net.wire ((fd, take n buf) ∷ [])
      ∙ ground (arith, eq_int_iff fd fd, append-nil (take n buf));
  others = λ other ne.
      sent_to-append other net.wire ((fd, take n buf) ∷ [])
      ∙ ground (arith, append-nil (sent_to other net.wire));
  input = refl;
  source = refl;
  kernel = refl;
}

pub after_send-fail-Sent :
    (net : Net) (fd : ℤ) (buf : Bytes) (n : ℕ) → Sent net (after_send net fd buf (negsuc n)).1 fd []
unfolding after_send
after_send-fail-Sent net fd buf n = record {
  taken = sym (append-nil (sent_to fd net.wire));
  others = λ other ne. refl;
  input = refl;
  source = refl;
  kernel = refl;
}
