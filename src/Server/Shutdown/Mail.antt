-- ===== src/Server/Shutdown/Mail.antt =====
-- What a shutdown sends, against the list of the messages that it should send.
use tcp_chat_server_c.Base.{
  Bool-cases, List, [], ap, append-nil, append_assoc, arith, eq_int, eq_int_iff, false,
  if◌then◌else◌, inl, inr, is_neg, ltb, negsuc, not, pos, refl, subst, suc, sym, take, zero, ℕ, ℤ,
  ◌&&◌, ◌++◌, ◌==◌, ◌∙◌, ◌∷◌, ◌≡◌,
}
use tcp_chat_server_c.CString.{Bytes}
use tcp_chat_server_c.Wire.{Net, send_message, sent_to}
use tcp_chat_server_c.Wire.Send.{frame}
use tcp_chat_server_c.Wire.Reliable.{Reliable, Reliable-Sent, send_message-Reliable}
use tcp_chat_server_c.Search.{All}
use tcp_chat_server_c.Clients.{Client, ClientList}
use tcp_chat_server_c.Replies.{abort_download, abort_upload, render, server_shutdown}
use tcp_chat_server_c.FileQueue.{Item, abort_all_file_transfers, get_file_queue_count}
use tcp_chat_server_c.FileQueue.View.{view}
use tcp_chat_server_c.Server.{World}
use tcp_chat_server_c.Server.Shutdown.{
  abort_notices, abort_transfers, notify_clients, notify_file_transfer_shutdown,
  shutdown_all_clients, shutdown_notices,
}

-- The messages, one after another, with the results ignored.
unfoldable pub post_all : List (ℤ × Bytes) → Net → Net
post_all [] net = net
post_all ((fd, text) ∷ mail) net = post_all mail (send_message net fd text).1

-- The frames of those for one socket.
unfoldable pub frames_for : ℤ → List (ℤ × Bytes) → Bytes
frames_for fd [] = []
frames_for fd ((to, text) ∷ mail) =
    if eq_int to fd then frame text ++ frames_for fd mail else frames_for fd mail

-- To the sender and to the receiver of each transfer that waits.
unfoldable pub abort_mail : List Item → List (ℤ × Bytes)
abort_mail [] = []
abort_mail (it ∷ items) =
    (it.sender_socket, render (abort_upload it.filename it.receiver_username))
    ∷ (it.receiver_socket, render (abort_download it.filename it.sender_username))
    ∷ abort_mail items

-- To every active client with a socket.
unfoldable pub shutdown_mail : List Client → List (ℤ × Bytes)
shutdown_mail [] = []
shutdown_mail (c ∷ cs) =
    if c.is_active && not (is_neg c.socket_fd)
    then (c.socket_fd, render server_shutdown) ∷ shutdown_mail cs
    else shutdown_mail cs

post_all-append :
    (a b : List (ℤ × Bytes)) (net : Net) → post_all (a ++ b) net ≡ post_all b (post_all a net)
unfolding post_all
post_all-append [] b net = refl
post_all-append ((fd, text) ∷ a) b net = post_all-append a b (send_message net fd text).1

abort_notices-post_all :
    (n : ℕ) (items : List Item) (net : Net)
    → abort_notices n items net ≡ post_all (abort_mail (take n items)) net
unfolding abort_notices post_all abort_mail
abort_notices-post_all zero items net = refl
abort_notices-post_all (suc n) [] net = refl
abort_notices-post_all (suc n) (it ∷ items) net = abort_notices-post_all n items _

shutdown_notices-post_all :
    (cs : List Client) (net : Net) → shutdown_notices cs net ≡ post_all (shutdown_mail cs) net
unfolding shutdown_notices shutdown_mail post_all
shutdown_notices-post_all [] net = refl
shutdown_notices-post_all (c ∷ cs) net =
    elim (Bool-cases (c.is_active && not (is_neg c.socket_fd))) [
      | inl told ↦ rw told (shutdown_notices-post_all cs _)
      | inr skipped ↦ rw skipped (shutdown_notices-post_all cs net)
    ]

abbrev pub GoodMail : List (ℤ × Bytes) → Type 0
GoodMail mail = All (λ (m : ℤ × Bytes). eq_int m.0 (negsuc 0) ≡ false) mail

-- Over a reliable kernel each socket takes the frames of its messages, in order.
post_all-Reliable :
    (mail : List (ℤ × Bytes)) (net : Net) (fd : ℤ)
    → Reliable net
    → GoodMail mail
    → sent_to fd (post_all mail net).wire ≡ sent_to fd net.wire ++ frames_for fd mail
unfolding post_all frames_for
post_all-Reliable [] net fd rel good = sym (append-nil (sent_to fd net.wire))
post_all-Reliable ((to, text) ∷ mail) net fd rel good =
    let (code, sent) = send_message-Reliable net to text rel good.0 in
    post_all-Reliable mail (send_message net to text).1 fd (Reliable-Sent sent rel) good.1
    ∙ elim (Bool-cases (eq_int to fd)) [
      | inl same ↦
          ap (λ t. t ++ frames_for fd mail)
            (subst
              (λ x. sent_to x (send_message net to text).1.wire ≡ sent_to x net.wire ++ frame text)
              ((eq_int_iff to fd).0 same) sent.taken)
          ∙ append_assoc (sent_to fd net.wire) (frame text) (frames_for fd mail)
          ∙ rw same refl
      | inr other ↦ rw (sent.others fd other, other) refl
    ]

shutdown_mail-Good : (cs : List Client) → GoodMail (shutdown_mail cs)
unfolding shutdown_mail
shutdown_mail-Good [] = tt
shutdown_mail-Good (c ∷ cs) = elim (Bool-cases (c.is_active && not (is_neg c.socket_fd))) [
  | inl told ↦ rw told (good c.socket_fd (ground arith), shutdown_mail-Good cs)
  | inr skipped ↦ rw skipped (shutdown_mail-Good cs)
]
  where
    good : (fd : ℤ) → is_neg fd ≡ false → eq_int fd (negsuc 0) ≡ false
    good (pos n) h = unfold eq_int in refl
    good (negsuc n) h = absurd (cc h)

GoodMail-append : (a b : List (ℤ × Bytes)) → GoodMail a → GoodMail b → GoodMail (a ++ b)
GoodMail-append [] b g h = h
GoodMail-append (m ∷ a) b (g, gs) h = (g, GoodMail-append a b gs h)

-- The transfers that wait, and the clients.
unfoldable pub all_mail : World → List (ℤ × Bytes)
all_mail w = abort_mail (view w.queue) ++ shutdown_mail w.clients.nodes

notify-net :
    (w : World) → (notify_file_transfer_shutdown w).net ≡ post_all (abort_mail (view w.queue)) w.net
unfolding notify_file_transfer_shutdown view
notify-net w = elim (Bool-cases (w.queue.count == 0)) [
  | inl none' ↦
      let zero' : w.queue.count ≡ 0 = ground arith in
      rw (none', zero') (unfold post_all abort_mail in refl)
  | inr some' ↦ rw some' (abort_notices-post_all w.queue.count w.queue.items w.net)
]

notify-same :
    (w : World)
    → ((notify_file_transfer_shutdown w).clients ≡ w.clients)
      × ((notify_file_transfer_shutdown w).rooms ≡ w.rooms)
      × ((notify_file_transfer_shutdown w).queue ≡ w.queue)
unfolding notify_file_transfer_shutdown
notify-same w = elim (Bool-cases (w.queue.count == 0)) [
  | inl none' ↦ rw none' (refl, refl, refl)
  | inr some' ↦ rw some' (refl, refl, refl)
]

notify-idle : (w : World) → w.queue.count ≡ 0 → (notify_file_transfer_shutdown w).net ≡ w.net
unfolding notify_file_transfer_shutdown
notify-idle w e = rw e refl

-- Everybody has been told, no transfer waits, and the registries are as they were.
pub record Told (w w' : World) : Type 0 where
  pub wire : (fd : ℤ) → sent_to fd w'.net.wire ≡ sent_to fd w.net.wire ++ frames_for fd (all_mail w)
  pub queue : get_file_queue_count w'.queue ≡ 0
  pub clients : w'.clients ≡ w.clients
  pub rooms : w'.rooms ≡ w.rooms

posted-wire :
    (w : World) (net : Net)
    → net ≡ shutdown_notices w.clients.nodes (notify_file_transfer_shutdown w).net
    → Reliable w.net
    → GoodMail (abort_mail (view w.queue))
    → (fd : ℤ) → sent_to fd net.wire ≡ sent_to fd w.net.wire ++ frames_for fd (all_mail w)
unfolding all_mail
posted-wire w net e rel good fd =
    ap (λ (n : Net). sent_to fd n.wire)
      (e
        ∙ shutdown_notices-post_all w.clients.nodes (notify_file_transfer_shutdown w).net
        ∙ ap (post_all (shutdown_mail w.clients.nodes)) (notify-net w)
        ∙ sym (post_all-append (abort_mail (view w.queue)) (shutdown_mail w.clients.nodes) w.net))
    ∙ post_all-Reliable (abort_mail (view w.queue) ++ shutdown_mail w.clients.nodes) w.net fd rel (
        GoodMail-append (abort_mail (view w.queue)) (shutdown_mail w.clients.nodes) good
          (shutdown_mail-Good w.clients.nodes))

-- Over a reliable kernel `shutdown_all_clients` sends each socket what it should get, in order, and
-- nothing else: the notice of each waiting transfer to its sender and to its receiver, and the
-- shutdown message to every active client with a socket. No transfer waits afterwards, and the
-- registries do not change. The sockets of the waiting transfers are not -1.
pub shutdown_all_clients-Told :
    (w : World)
    → Reliable w.net
    → GoodMail (abort_mail (view w.queue))
    → Told w (shutdown_all_clients w)
unfolding shutdown_all_clients notify_clients abort_transfers get_file_queue_count
    abort_all_file_transfers
shutdown_all_clients-Told w rel good = elim (Bool-cases (ltb 0 w.queue.count)) [
  | inl busy ↦ rw busy (record {
    wire =
        posted-wire w _
          (ap (λ (l : ClientList). shutdown_notices l.nodes (notify_file_transfer_shutdown w).net)
            (notify-same w).0)
          rel good;
    queue = refl;
    clients = (notify-same w).0;
    rooms = (notify-same w).1;
  })
  | inr idle ↦ rw idle (record {
    wire =
        posted-wire w _ (ap (shutdown_notices w.clients.nodes) (sym (notify-idle w (ground arith))))
          rel good;
    queue = ground arith;
    clients = refl;
    rooms = refl;
  })
]
