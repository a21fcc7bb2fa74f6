-- ===== src/FileTransfer/Puts.antt =====
-- What a transfer has put on a socket.
use tcp_chat_server_c.Base.{
  Bool, [], ap, append-nil, append_assoc, false, sym, true, ℤ, ◌++◌, ◌∙◌, ◌≡◌,
}
use tcp_chat_server_c.CString.{Bytes}
use tcp_chat_server_c.Wire.{Net, sent_to}
use tcp_chat_server_c.Wire.Sent.{Sent, Sent-trans}

-- A prefix of the bytes was taken, and all of them where the result is true.
pub record Puts (net : Net) (fd : ℤ) (bs : Bytes) (r : Bool × Net) : Type 0 where
  pub part : Bytes
  pub rest : Bytes
  pub split : part ++ rest ≡ bs
  pub sent : Sent net r.1 fd part
  pub whole : r.0 ≡ true → rest ≡ []

-- What follows a part that was taken whole.
pub Puts-then :
    {net net' : Net} {fd : ℤ} {p q : Bytes} {r : Bool × Net}
    → Sent net net' fd p
    → Puts net' fd q r
    → Puts net fd (p ++ q) r
Puts-then {p} s t = record {
  part = p ++ t.part;
  rest = t.rest;
  split = append_assoc p t.part t.rest ∙ ap (λ x. p ++ x) t.split;
  sent = Sent-trans s t.sent;
  whole = t.whole;
}

-- Nothing follows a part that was not.
pub Puts-stop :
    {net net' : Net} {fd : ℤ} {p : Bytes} (q part rest : Bytes)
    → part ++ rest ≡ p
    → Sent net net' fd part
    → Puts net fd (p ++ q) (false, net')
Puts-stop {p} q part rest e s = record {
  part = part;
  rest = rest ++ q;
  split = sym (append_assoc part rest q) ∙ ap (λ x. x ++ q) e;
  sent = s;
  whole = λ b. cc;
}

-- A socket that had taken nothing has all the bytes where the result is true.
pub Puts-fresh :
    (net : Net) (fd : ℤ) (bs : Bytes) (r : Bool × Net)
    → Puts net fd bs r
    → sent_to fd net.wire ≡ []
    → r.0 ≡ true
    → sent_to fd r.1.wire ≡ bs
Puts-fresh net fd bs r p fresh ok =
    p.sent.taken
    ∙ ap (λ t. t ++ p.part) fresh
    ∙ sym (append-nil p.part)
    ∙ ap (λ t. p.part ++ t) (sym (p.whole ok))
    ∙ p.split
