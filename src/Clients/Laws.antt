-- ===== src/Clients/Laws.antt =====
-- The invariant of the registry of clients: its count, its addresses and its usernames.
use tcp_chat_server_c.Base.{
  ==_iff, Bool, Bool-cases, List, Option, Option-cases, [], arith, failure, inl, inr, is_neg,
  length, none, refl, some, success, sym, true, ℕ, ℤ, ◌-◌, ◌<◌, ◌==◌, ◌∙◌, ◌∷◌, ◌≡◌, ◌⊎◌,
}
use tcp_chat_server_c.CString.{Bytes, eq_bytes}
use tcp_chat_server_c.CString.Laws.{eq_bytes_iff, truncate-short}
use tcp_chat_server_c.Search.{All, find_first, unlink_first}
use tcp_chat_server_c.Search.Laws.{
  All-unlink, find_first-unlink_none, find_first-unlink_some, length-unlink_first,
}
use tcp_chat_server_c.Search.Keyed.{Distinct, Distinct-unlink}
use tcp_chat_server_c.Clients.{
  Arrival, Client, ClientList, add_client, after_unlink, client_at, find_client_by_socket,
  find_client_by_username, has_socket, has_username, init_clients, link_client, new_client,
  remove_client, username_size,
}

-- Addresses and usernames are distinct, every client is active, and the count is the number of
-- clients.
pub record IsClients (l : ClientList) : Type 0 where
  pub addresses : Distinct (λ (c : Client). c.address) ◌==◌ ==_iff l.nodes
  pub usernames : Distinct (λ (c : Client). c.username) eq_bytes eq_bytes_iff l.nodes
  pub active : All (λ c. c.is_active ≡ true) l.nodes
  pub count : l.active_client_count ≡ length l.nodes

pub init_clients-IsClients : IsClients init_clients
unfolding init_clients
init_clients-IsClients = record { addresses = tt; usernames = tt; active = tt; count = refl }

after_unlink-IsClients :
    (l : ClientList) (p : Client → Bool) (o : Option (List Client))
    → IsClients l
    → unlink_first p l.nodes ≡ o
    → IsClients (after_unlink l o).1
unfolding after_unlink
after_unlink-IsClients l p none v e = v
after_unlink-IsClients l p (some nodes) v e = record {
  addresses = Distinct-unlink (λ (c : Client). c.address) ◌==◌ ==_iff p l.nodes nodes v.addresses e;
  usernames =
      Distinct-unlink (λ (c : Client). c.username) eq_bytes eq_bytes_iff p l.nodes nodes v.usernames
        e;
  active = All-unlink (λ c. c.is_active ≡ true) p l.nodes nodes v.active e;
  count = omega (arith, v.count, length-unlink_first p l.nodes nodes e);
}

-- `remove_client` keeps the registry well formed, whether it finds a client or not.
pub remove_client-IsClients :
    (l : ClientList) (fd : ℤ) → IsClients l → IsClients (remove_client l fd).1
unfolding remove_client
remove_client-IsClients l fd v = after_unlink-IsClients l (has_socket fd) _ v refl

-- If all clients are active, no client is found by a name exactly if none has the name.
find_active-none :
    (nodes : List Client) (name : Bytes)
    → All (λ c. c.is_active ≡ true) nodes
    → find_client_by_username nodes name ≡ find_first (has_username name) nodes
unfolding find_client_by_username find_first
find_active-none [] name a = refl
find_active-none (c ∷ nodes) name a = ground (arith, find_active-none nodes name a.1)

-- A new client of a free name of at most 16 bytes, at a fresh address, keeps the registry well
-- formed, also where its socket is refused.
pub add_client-IsClients :
    (l : ClientList) (address now : ℕ) (name : Bytes) (a : Arrival)
    → length name < username_size
    → client_at address l.nodes ≡ none
    → find_client_by_username l.nodes name ≡ none
    → IsClients l
    → IsClients (add_client l (some address) now (some name) a).1
unfolding add_client new_client link_client
add_client-IsClients l address now name a short fresh free v =
    elim (Bool-cases (is_neg a.socket_fd)) [
      | inl bad ↦ rw bad v
      | inr good ↦ rw good (record {
        addresses = (fresh, v.addresses);
        usernames = (
          rw (truncate-short username_size name short)
              (sym (find_active-none l.nodes name v.active) ∙ free),
          v.usernames,
        );
        active = (refl, v.active);
        count = omega (arith, v.count);
      })
    ]

-- `remove_client` finds no client and changes nothing, or unlinks the first one with the socket.
pub remove_client_cases :
    (l : ClientList) (fd : ℤ)
    → ((find_client_by_socket l.nodes fd ≡ none) × (remove_client l fd ≡ (failure, l)))
      ⊎ ((c : Client) × (nodes : List Client) × (find_client_by_socket l.nodes fd ≡ some c)
          × (unlink_first (has_socket fd) l.nodes ≡ some nodes)
          × (remove_client l fd ≡ (
            success,
            record { nodes = nodes; active_client_count = l.active_client_count - 1 },
          )))
unfolding remove_client find_client_by_socket
remove_client_cases l fd = elim (Option-cases (find_first (has_socket fd) l.nodes)) [
  | inl e ↦ inl (e, rw (find_first-unlink_none (has_socket fd) l.nodes e, after_unlink))
  | inr (c, e) ↦
      let (nodes, e') = find_first-unlink_some (has_socket fd) l.nodes c e in
      inr (c, nodes, e, e', rw (e', after_unlink))
]

pub remove_client-missing :
    (l : ClientList) (fd : ℤ)
    → find_client_by_socket l.nodes fd ≡ none
    → remove_client l fd ≡ (failure, l)
remove_client-missing l fd h = elim (remove_client_cases l fd) [
  | inl (e, same) ↦ same
  | inr (c, nodes, f, e, same) ↦ cc
]
