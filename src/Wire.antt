-- ===== src/Wire.antt =====
-- Messages on a socket: `send_message` and `receive_message` of server/server_helper.c, and those
-- of client/client_helper.c, which are the same code over a global socket.
-- The kernel is not part of the program: what the n-th `send` or `recv` returns is an arbitrary
-- function in the state, and the bytes that it accepted are recorded.
pub mod Sent
pub mod Send
pub mod Receive
pub mod RoundTrip
pub mod Reliable
pub mod Kernel
pub mod Examples
use tcp_chat_server_c.Base.{
  List, [], drop, eq_int, failure, if◌then◌else◌, leb, length, ltb, negsuc, pos, suc, success, take,
  zero, ℕ, ℤ, ◌%◌, ◌*◌, ◌++◌, ◌+◌, ◌-◌, ◌/◌, ◌==◌, ◌^◌, ◌||◌, ◌∷◌,
}
use tcp_chat_server_c.CString.{Bytes}

-- What `recv` returns: data (n > 0), 0, or a negative number.
pub data Received : Type 0 where
  got : Bytes → Received
  closed failed : Received

pub record Net : Type 0 where
  -- by the number of the call, the socket and the length
  pub send_result : ℕ → ℤ → ℕ → ℤ
  -- by the calls before, newest first, the socket and the length
  pub recv_result : List (ℤ × ℕ) → ℤ → ℕ → Received
  pub sends : ℕ
  pub recvs : List (ℤ × ℕ)
  -- what each socket took, oldest first
  pub wire : List (ℤ × Bytes)

-- Who took what so far, seen from one socket.
unfoldable pub sent_to : ℤ → List (ℤ × Bytes) → Bytes
sent_to fd [] = []
sent_to fd ((to, bs) ∷ w) = if eq_int to fd then bs ++ sent_to fd w else sent_to fd w

unfoldable pub after_send : Net → ℤ → Bytes → ℤ → ℤ × Net
after_send net fd buf (pos n) =
    (pos n, record net { sends = net.sends + 1; wire = net.wire ++ (fd, take n buf) ∷ [] })
after_send net fd buf (negsuc n) = (negsuc n, record net { sends = net.sends + 1 })

-- `send(fd, buf, length, 0)`.
unfoldable pub send : Net → ℤ → Bytes → ℤ × Net
unfolding after_send
send net fd buf = after_send net fd buf (net.send_result net.sends fd (length buf))

-- The kernel writes no more into the buffer than it was asked for.
unfoldable pub cap_received : ℕ → Received → Received
cap_received n (got bs) = got (take n bs)
cap_received n closed = closed
cap_received n failed = failed

-- `recv(fd, buf, n, 0)`.
unfoldable pub recv : Net → ℤ → ℕ → Received × Net
unfolding cap_received
recv net fd n =
    (cap_received n (net.recv_result net.recvs fd n), record net { recvs = (fd, n) ∷ net.recvs })

-- How a loop over `send` or `recv` ends. The fuel is a bound on the rounds.
pub data Outcome : Type 0 where
  done ended broken out_of_fuel : Outcome

-- What follows a call of `send` in the loop; `again` is the next round.
unfoldable pub after_round : (Net → ℤ → Bytes → Outcome × Net) → ℤ → Bytes → ℤ × Net → Outcome × Net
after_round again fd buf (pos zero, net) = (broken, net)
after_round again fd buf (pos (suc n), net) = again net fd (drop (suc n) buf)
after_round again fd buf (negsuc n, net) = (broken, net)

-- `while (total_sent < bytes_to_send) { ... }`; the bytes not yet sent are the argument.
unfoldable pub send_loop : ℕ → Net → ℤ → Bytes → Outcome × Net
unfolding after_round
send_loop fuel net fd [] = (done, net)
send_loop zero net fd (c ∷ buf) = (out_of_fuel, net)
send_loop (suc fuel) net fd (c ∷ buf) =
    after_round (send_loop fuel) fd (c ∷ buf) (send net fd (c ∷ buf))

-- `htonl`: the four bytes of a number below 2 ^ 32, the highest first.
unfoldable pub htonl : ℕ → Bytes
htonl n = (n / 2 ^ 24 % 256) ∷ (n / 2 ^ 16 % 256) ∷ (n / 2 ^ 8 % 256) ∷ (n % 256) ∷ []

unfoldable pub ntohl : Bytes → ℕ
ntohl (a ∷ b ∷ c ∷ d ∷ []) = a * 2 ^ 24 + b * 2 ^ 16 + c * 2 ^ 8 + d
ntohl _ = 0

-- `uint32_t message_len`, and the `int bytes_to_send` that it is copied to: a value from 2 ^ 31 on
-- becomes negative there, and the loop makes no round.
unfoldable pub message_len : Bytes → ℕ
message_len message = length message % 2 ^ 32

unfoldable pub bytes_to_send : Bytes → ℕ
unfolding message_len
bytes_to_send message = if ltb (message_len message) (2 ^ 31) then message_len message else 0

status : Outcome × Net → ℤ × Net
status (done, net) = (success, net)
status (_, net) = (failure, net)

send_data : ℤ → Bytes → Outcome × Net → ℤ × Net
unfolding status
send_data fd message (done, net) =
    status (send_loop (length message) net fd (take (bytes_to_send message) message))
send_data fd message (_, net) = (failure, net)

unfoldable pub send_message : Net → ℤ → Bytes → ℤ × Net
unfolding send_data
send_message net fd message =
    if eq_int fd (negsuc 0)
    then (failure, net)
    else send_data fd message (send_loop 4 net fd (htonl (message_len message)))

-- What follows a call of `recv` in the loop, with the bytes that are missing and those that came.
unfoldable pub after_recv :
    (Net → ℤ → ℕ → Bytes → Outcome × Bytes × Net)
    → ℤ
    → ℕ
    → Bytes
    → Received × Net
    → Outcome × Bytes × Net
after_recv again fd want buf (got [], net) = (ended, buf, net)
after_recv again fd want buf (got (c ∷ bs), net) =
    again net fd (want - length (c ∷ bs)) (buf ++ c ∷ bs)
after_recv again fd want buf (closed, net) = (ended, buf, net)
after_recv again fd want buf (failed, net) = (broken, buf, net)

-- `while (total_received < bytes_to_receive) { ... }`
unfoldable pub recv_loop : ℕ → Net → ℤ → ℕ → Bytes → Outcome × Bytes × Net
unfolding after_recv
recv_loop fuel net fd zero buf = (done, buf, net)
recv_loop zero net fd (suc want) buf = (out_of_fuel, buf, net)
recv_loop (suc fuel) net fd (suc want) buf =
    after_recv (recv_loop fuel) fd (suc want) buf (recv net fd (suc want))

-- The message has come, or the connection ended or broke within it.
body_status : Outcome × Bytes × Net → ℤ × Bytes × Net
body_status (done, buf, net) = (pos (length buf), buf, net)
body_status (_, buf, net) = (failure, [], net)

receive_body : ℤ → ℕ → ℕ → Net → ℤ × Bytes × Net
unfolding body_status
receive_body fd buffer_size len net =
    if len == 0
    then (pos 0, [], net)
    else if leb buffer_size len
    then (failure, [], net)
    else body_status (recv_loop len net fd len [])

header_status : ℤ → ℕ → Outcome × Bytes × Net → ℤ × Bytes × Net
unfolding receive_body
header_status fd buffer_size (done, buf, net) = receive_body fd buffer_size (ntohl buf) net
header_status fd buffer_size (ended, buf, net) = (pos 0, [], net)
header_status fd buffer_size (_, buf, net) = (failure, [], net)

-- The return value, and the bytes in the buffer before the NUL that ends them.
unfoldable pub receive_message : Net → ℤ → ℕ → ℤ × Bytes × Net
unfolding header_status
receive_message net fd buffer_size =
    if eq_int fd (negsuc 0) || leb buffer_size 0
    then (failure, [], net)
    else header_status fd buffer_size (recv_loop 4 net fd 4 [])
