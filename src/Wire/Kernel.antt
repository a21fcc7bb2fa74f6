-- ===== src/Wire/Kernel.antt =====
-- Receiving leaves the sending side of the kernel as it is.
use tcp_chat_server_c.Base.{
  Bool-cases, [], eq_int, inl, inr, leb, length, negsuc, refl, suc, zero, ℕ, ℤ, ◌++◌, ◌-◌, ◌==◌,
  ◌||◌, ◌∙◌, ◌∷◌, ◌≡◌,
}
use tcp_chat_server_c.CString.{Bytes}
use tcp_chat_server_c.Wire.{
  Net, Outcome, Received, after_recv, body_status, closed, done, ended, failed, got, header_status,
  ntohl, receive_body, receive_message, recv, recv_loop,
}

abbrev SameSends : Net → Net → Type 0
SameSends net net' = net'.send_result ≡ net.send_result

after_recv-kernel :
    (again : Net → ℤ → ℕ → Bytes → Outcome × Bytes × Net) (fd : ℤ) (want : ℕ) (buf : Bytes)
    (r : Received × Net)
    → ((net : Net) (n : ℕ) (buf' : Bytes) → SameSends net (again net fd n buf').2)
    → SameSends r.1 (after_recv again fd want buf r).2
unfolding after_recv
after_recv-kernel again fd want buf (got [], net) ih = refl
after_recv-kernel again fd want buf (got (c ∷ bs), net) ih =
    ih net (want - length (c ∷ bs)) (buf ++ c ∷ bs)
after_recv-kernel again fd want buf (closed, net) ih = refl
after_recv-kernel again fd want buf (failed, net) ih = refl

recv_loop-kernel :
    (fuel : ℕ) (net : Net) (fd : ℤ) (want : ℕ) (buf : Bytes)
    → SameSends net (recv_loop fuel net fd want buf).2
unfolding recv_loop recv
recv_loop-kernel fuel net fd zero buf = refl
recv_loop-kernel zero net fd (suc want) buf = refl
recv_loop-kernel (suc fuel) net fd (suc want) buf =
    after_recv-kernel (recv_loop fuel) fd (suc want) buf (recv net fd (suc want))
      (λ net' n buf'. recv_loop-kernel fuel net' fd n buf')

body_status-kernel : (r : Outcome × Bytes × Net) → SameSends r.2 (body_status r).2
unfolding body_status
body_status-kernel (done, buf, net) = refl
body_status-kernel (_, buf, net) = refl

receive_body-kernel :
    (fd : ℤ) (size len : ℕ) (net : Net) → SameSends net (receive_body fd size len net).2
unfolding receive_body
receive_body-kernel fd size len net = elim (Bool-cases (len == 0)) [
  | inl e ↦ rw e refl
  | inr e ↦ rw e (elim (Bool-cases (leb size len)) [
    | inl large ↦ rw large refl
    | inr fits ↦
        rw fits
          (body_status-kernel (recv_loop len net fd len []) ∙ recv_loop-kernel len net fd len [])
  ])
]

header_status-kernel :
    (fd : ℤ) (size : ℕ) (r : Outcome × Bytes × Net) → SameSends r.2 (header_status fd size r).2
unfolding header_status
header_status-kernel fd size (done, buf, net) = receive_body-kernel fd size (ntohl buf) net
header_status-kernel fd size (ended, buf, net) = refl
header_status-kernel fd size (_, buf, net) = refl

-- `receive_message` does not change what later calls of `send` return.
pub receive_message-kernel :
    (net : Net) (fd : ℤ) (size : ℕ) → (receive_message net fd size).2.send_result ≡ net.send_result
unfolding receive_message
receive_message-kernel net fd size = elim (Bool-cases (eq_int fd (negsuc 0) || leb size 0)) [
  | inl bad ↦ rw bad refl
  | inr good ↦
      rw good
        (header_status-kernel fd size (recv_loop 4 net fd 4 []) ∙ recv_loop-kernel 4 net fd 4 [])
]
