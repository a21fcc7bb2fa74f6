-- ===== src/FileTransfer/Limit.antt =====
-- The limit on the size of an upload.
use tcp_chat_server_c.Base.{
  Bool, Bool-cases, Option, [], ap, arith, inl, inr, leb, length, length-append, length-take, none,
  refl, some, subst, suc, zero, ℕ, ℤ, ◌++◌, ◌+◌, ◌-◌, ◌==◌, ◌∷◌, ◌≡◌, ◌≤◌,
}
use tcp_chat_server_c.CString.{Bytes}
use tcp_chat_server_c.Wire.{
  Net, Outcome, Received, after_recv, broken, cap_received, closed, done, ended, failed, got, ntohl,
  out_of_fuel, recv,
}
use tcp_chat_server_c.FileQueue.{max_file_size, validate_file_size_limit}
use tcp_chat_server_c.FileTransfer.{
  chunk_size, receive_chunks, receive_data, receive_file_from_client, receive_size, received_file,
}
use tcp_chat_server_c.FileTransfer.Upload.{chunk_size_bounds}

-- The data, where there is one, is within the limit.
abbrev pub Bounded : Option Bytes × Net → Type 0
Bounded (none, net) = Unit
Bounded (some content, net) = length content ≤ max_file_size

round-length :
    (again : Net → ℤ → ℕ → Bytes → Outcome × Bytes × Net) (fd : ℤ) (want : ℕ) (buf : Bytes)
    (r : Received × Net)
    → ((bs : Bytes) → r.0 ≡ got bs → length bs ≤ want)
    → ((net : Net) (n : ℕ) (buf' : Bytes)
        → (again net fd n buf').0 ≡ done
        → length (again net fd n buf').1 ≡ length buf' + n)
    → (after_recv again fd want buf r).0 ≡ done
    → length (after_recv again fd want buf r).1 ≡ length buf + want
unfolding after_recv
round-length again fd want buf (got [], net) short ih e = absurd (cc e)
round-length again fd want buf (got (c ∷ bs), net) short ih e = omega (
  arith,
  ih net (want - length (c ∷ bs)) (buf ++ c ∷ bs) e,
  length-append {0} buf (c ∷ bs),
  short (c ∷ bs) refl,
)
round-length again fd want buf (closed, net) short ih e = absurd (cc e)
round-length again fd want buf (failed, net) short ih e = absurd (cc e)

abbrev size_of : Received → ℕ
size_of (got bs) = length bs
size_of closed = 0
size_of failed = 0

size_of-cap_received : (n : ℕ) (r : Received) → size_of (cap_received n r) ≤ n
unfolding cap_received
size_of-cap_received n (got bs) = omega (arith, length-take {0} n bs)
size_of-cap_received n closed = omega arith
size_of-cap_received n failed = omega arith

length-recv : (net : Net) (fd : ℤ) (n : ℕ) (bs : Bytes) → (recv net fd n).0 ≡ got bs → length bs ≤ n
unfolding recv
length-recv net fd n bs e =
    subst (λ t. t ≤ n) (ap size_of e) (size_of-cap_received n (net.recv_result net.recvs fd n))

-- The loop over the chunks ends by its test only when it has all the bytes that are missing.
length-receive_chunks :
    (fuel : ℕ) (net : Net) (fd : ℤ) (n : ℕ) (buf : Bytes)
    → (receive_chunks fuel net fd n buf).0 ≡ done
    → length (receive_chunks fuel net fd n buf).1 ≡ length buf + n
unfolding receive_chunks
length-receive_chunks fuel net fd zero buf e = omega arith
length-receive_chunks zero net fd (suc n) buf e = absurd (cc e)
length-receive_chunks (suc fuel) net fd (suc n) buf e =
    round-length (receive_chunks fuel) fd (suc n) buf (recv net fd (chunk_size (suc n)))
      (λ bs got'.
        omega (arith, length-recv net fd (chunk_size (suc n)) bs got', (chunk_size_bounds n).1))
      (λ net' m buf'. length-receive_chunks fuel net' fd m buf') e

received_file-Bounded :
    (n : ℕ) (r : Outcome × Bytes × Net)
    → n ≤ max_file_size
    → (r.0 ≡ done → length r.1 ≡ n)
    → Bounded (received_file r)
unfolding received_file
received_file-Bounded n (done, buf, net) h e = omega (arith, e refl)
received_file-Bounded n (ended, buf, net) h e = tt
received_file-Bounded n (broken, buf, net) h e = tt
received_file-Bounded n (out_of_fuel, buf, net) h e = tt

receive_data-Bounded :
    (memory : Bool) (fd : ℤ) (size : ℕ) (net : Net) → Bounded (receive_data memory fd size net)
unfolding receive_data validate_file_size_limit
receive_data-Bounded memory fd size net = elim (Bool-cases (leb size max_file_size)) [
  | inr large ↦ rw large tt
  | inl small ↦ rw small (elim (Bool-cases memory) [
    | inr none' ↦ rw none' tt
    | inl some' ↦ rw some' (
        received_file-Bounded size (receive_chunks size net fd size []) (ground arith)
          (λ e. omega (arith, length-receive_chunks size net fd size [] e)))
  ])
]

receive_size-Bounded :
    (memory : Bool) (fd : ℤ) (r : Received × Net) → Bounded (receive_size memory fd r)
unfolding receive_size
receive_size-Bounded memory fd (got bs, net) = elim (Bool-cases (length bs == 4)) [
  | inl whole ↦ rw whole (receive_data-Bounded memory fd (ntohl bs) net)
  | inr short ↦ rw short tt
]
receive_size-Bounded memory fd (closed, net) = tt
receive_size-Bounded memory fd (failed, net) = tt

-- Whatever the kernel hands over, a file that is accepted has at most 3 MB.
pub receive_file_from_client-Bounded :
    (memory : Bool) (net : Net) (fd : ℤ) → Bounded (receive_file_from_client memory net fd)
unfolding receive_file_from_client
receive_file_from_client-Bounded memory net fd = receive_size-Bounded memory fd (recv net fd 4)
