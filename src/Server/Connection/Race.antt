-- ===== src/Server/Connection/Race.antt =====
-- `handle_client_login` in the two steps that its locks leave: the check of the name, and
-- `add_client`. Other threads may run in between.
use tcp_chat_server_c.Base.{
  Bool, Bool-cases, List, ap, arith, false, inl, inr, is_neg, is_some, length, none, not, refl,
  some, sym, true, ℕ, ℤ, ◌&&◌, ◌++◌, ◌<◌, ◌∙◌, ◌∷◌, ◌≡◌,
}
use tcp_chat_server_c.CString.{Bytes, after, codes, eq_bytes, truncate}
use tcp_chat_server_c.CString.Laws.{eq_bytes_iff, eq_bytes_refl, truncate-short}
use tcp_chat_server_c.Wire.{sent_to}
use tcp_chat_server_c.Wire.Send.{frame}
use tcp_chat_server_c.Wire.Reliable.{Reliable, Reliable-Sent, send_message-Reliable}
use tcp_chat_server_c.Search.{find_first}
use tcp_chat_server_c.Search.Keyed.{Distinct}
use tcp_chat_server_c.Clients.{
  Arrival, Client, ClientList, add_client, find_client_by_username, link_client, new_client,
  username_size,
}
use tcp_chat_server_c.Clients.Laws.{IsClients}
use tcp_chat_server_c.Rooms.Slots.{taken}
use tcp_chat_server_c.Replies.{render}
use tcp_chat_server_c.Server.{World, respond}
use tcp_chat_server_c.Server.Connection.{
  Login, Round, admitted, logged_in, login_checked, validate_username,
}
use tcp_chat_server_c.Server.Connection.Username.{username_rule}
use tcp_chat_server_c.Server.Connection.Welcome.{not_minus_one}

-- After a step the socket has taken the message LOGIN_SUCCESS.
abbrev Told : World → ℤ → World → Type 0
Told w fd after = sent_to fd after.net.wire ≡ sent_to fd w.net.wire ++ frame (codes "LOGIN_SUCCESS")

-- `validate_username` and `find_client_by_username`, which has released the lock when it returns.
unfoldable pub name_check : World → Bytes → Bool
name_check w name =
    validate_username name && not (is_some (find_client_by_username w.clients.nodes name))

-- From `add_client` on.
unfoldable pub name_entry : World → Arrival → Round → Bytes → Login
unfolding admitted
name_entry w a round name =
    admitted w a.socket_fd (add_client w.clients round.fresh round.now (some name) a)

-- Run without a thread in between, the two steps are the round of the login loop.
login_checked-steps :
    (w : World) (a : Arrival) (round : Round) (name : Bytes)
    → name_check w name ≡ true
    → login_checked w a round name ≡ name_entry w a round name
unfolding login_checked name_check name_entry
login_checked-steps w a round name h = elim (Bool-cases (validate_username name)) [
  | inr bad ↦ absurd (cc (h, bad))
  | inl good ↦ rw good (elim (Bool-cases (is_some (find_client_by_username w.clients.nodes name))) [
    | inl taken ↦ absurd (ground arith)
    | inr free ↦ rw free refl
  ])
]

-- The entry of a good socket, where `malloc` gives a node.
entry-nodes :
    (w : World) (a : Arrival) (address now : ℕ) (name : Bytes)
    → Reliable w.net
    → is_neg a.socket_fd ≡ false
    → (w' : World) × (name_entry w a (record { fresh = some address; now = now }) name
        ≡ logged_in w')
      × (w'.clients.nodes ≡ new_client address now name a ∷ w.clients.nodes)
      × Told w a.socket_fd w'
      × Reliable w'.net
unfolding name_entry add_client respond link_client render
entry-nodes w a address now name rel good =
    let posted =
      (send_message-Reliable w.net a.socket_fd (codes "LOGIN_SUCCESS") rel
        (not_minus_one a.socket_fd good)).1 in
    rw good (_, refl, refl, posted.taken, Reliable-Sent posted rel)

-- A registry with a client of that name is not fit for another one.
same_name :
    (l : ClientList) (nodes : List Client) (m t n u : ℕ) (a b : Arrival) (name : Bytes)
    → l.nodes ≡ new_client n u name b ∷ new_client m t name a ∷ nodes
    → ¬ IsClients l
unfolding new_client find_first
same_name l nodes m t n u a b name e v =
    let h : Distinct (λ (c : Client). c.username) eq_bytes eq_bytes_iff l.nodes = v.usernames in
    let k : none
        ≡ find_first (λ (c : Client). eq_bytes c.username (truncate username_size name))
            (new_client m t name a ∷ nodes) =
      sym ((rw e at h).0) in
    absurd (cc (k, eq_bytes_refl (truncate username_size name)))

-- Two logins under one name: both are let in, the registry is broken, and a check between the two
-- entries would have refused the second.
pub record Collide (w : World) (a b : Arrival) (r r' : Round) (name : Bytes) : Type 0 where
  pub after_first : World
  pub after_second : World
  pub first_in : name_entry w a r name ≡ logged_in after_first
  pub second_in : name_entry after_first b r' name ≡ logged_in after_second
  pub first_told : Told w a.socket_fd after_first
  pub second_told : Told after_first b.socket_fd after_second
  pub broken_registry : ¬ IsClients after_second.clients
  pub refused_in_order : name_check after_first name ≡ false

found_again :
    (w : World) (nodes : List Client) (m t : ℕ) (a : Arrival) (name : Bytes)
    → length name < username_size
    → w.clients.nodes ≡ new_client m t name a ∷ nodes
    → name_check w name ≡ false
unfolding name_check find_client_by_username find_first new_client
found_again w nodes m t a name short e =
    rw (e, truncate-short username_size name short, eq_bytes_refl name) (ground arith)

-- The check of a name and the entry of the client are not one step: in every state, two clients
-- that ask for the same good and free name, and whose names are both checked before either is
-- entered, are both let in, each entry puts LOGIN_SUCCESS on its client's socket, and the registry then has two clients of that name and no
-- longer satisfies its invariant. Had the second name been checked after the first entry, it would
-- have been refused. `malloc` gives both nodes, and the kernel takes all that it is given.
pub name_entry-Collide :
    (w : World) (a b : Arrival) (m t n u : ℕ) (name : Bytes)
    → Reliable w.net
    → name_check w name ≡ true
    → is_neg a.socket_fd ≡ false
    → is_neg b.socket_fd ≡ false
    → Collide w a b (record { fresh = some m; now = t }) (record { fresh = some n; now = u }) name
name_entry-Collide w a b m t n u name rel checked good_a good_b =
    let (w1, e1, nodes1, told1, rel1) = entry-nodes w a m t name rel good_a in
    let (w2, e2, nodes2, told2, _) = entry-nodes w1 b n u name rel1 good_b in
    record {
      after_first = w1;
      after_second = w2;
      first_in = e1;
      second_in = e2;
      first_told = told1;
      second_told = told2;
      broken_registry =
          same_name w2.clients w.clients.nodes m t n u a b name
            (nodes2 ∙ ap (λ xs. new_client n u name b ∷ xs) nodes1);
      refused_in_order = found_again w1 w.clients.nodes m t a name short nodes1;
    }
  where
    sound : validate_username name ≡ true
    sound = unfold name_check in ground arith

    short : length name < username_size
    short = omega (arith, ((username_rule name).0 sound).1)
