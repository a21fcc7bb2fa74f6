-- ===== src/Server/Connection/Rounds.antt =====
-- A round of the login loop and the invariant.
use tcp_chat_server_c.Base.{
  Bool-cases, Option, ap, arith, false, inl, inr, is_neg, is_some, leb_zero, length, none, refl,
  some, sym, ℕ, ℤ, ◌<◌, ◌==◌, ◌∙◌, ◌∷◌, ◌≡◌,
}
use tcp_chat_server_c.CString.{Bytes}
use tcp_chat_server_c.Wire.{Net, receive_message}
use tcp_chat_server_c.Search.{find_first}
use tcp_chat_server_c.Search.Laws.{All-map}
use tcp_chat_server_c.Clients.{
  Arrival, Client, ClientList, add_client, client_at, find_client_by_username, link_client,
  new_client, username_size,
}
use tcp_chat_server_c.Clients.Laws.{IsClients, add_client-IsClients}
use tcp_chat_server_c.Rooms.Slots.{EachSeat-map}
use tcp_chat_server_c.Server.{World, respond}
use tcp_chat_server_c.Server.Connection.{
  Login, Round, admitted, again, clean_login, logged_in, login_checked, login_name, login_path,
  login_round, lost, validate_username,
}
use tcp_chat_server_c.Safety.{IsValid, Seat, Seated, Valid}

abbrev pub world_of : Login → World
world_of (lost w) = w
world_of (logged_in w) = w
world_of (again w) = w

-- `malloc` does not give a block that a client in the registry still uses.
abbrev pub Fresh : World → Round → Type 0
Fresh w round =
    (address : ℕ) → round.fresh ≡ some address → client_at address w.clients.nodes ≡ none

-- The registry after a successful login has one more client, who is in no room.
linked-Valid :
    (w : World) (clients : ClientList) (c : Client)
    → clients.nodes ≡ c ∷ w.clients.nodes
    → IsClients clients
    → IsValid w
    → client_at c.address w.clients.nodes ≡ none
    → Valid clients w.rooms
linked-Valid w clients c e ok v fresh = record {
  clients = ok;
  rooms = v.rooms;
  seats = rw e (
      All-map (Seated w.clients.nodes) (Seated (c ∷ w.clients.nodes))
        (λ r s.
          EachSeat-map (Seat w.clients.nodes r.room_name) (Seat (c ∷ w.clients.nodes) r.room_name)
            (λ b s. (s.0, still b s.0 s.1, s.2)) r.clients s)
        w.rooms.nodes v.seats);
}
  where
    still :
        (b : ℕ) (c' : Client)
        → client_at b w.clients.nodes ≡ some c'
        → client_at b (c ∷ w.clients.nodes) ≡ some c'
    still b c' h =
        unfold find_first in
        elim (Bool-cases (c.address == b)) [
          | inr other ↦ rw other h
          | inl same ↦
              let is : c.address ≡ b = ground arith in
              absurd (none≢some (sym fresh ∙ ap (λ t. client_at t w.clients.nodes) is ∙ h))
        ]
      where
        none≢some : none ≡ some c' → ⊥
        none≢some e = cc

admitted-Valid :
    (w : World) (fd : ℤ) (r : Option Client × ClientList)
    → Valid r.1 w.rooms
    → IsValid (world_of (admitted w fd r))
unfolding admitted respond
admitted-Valid w fd (none, clients) v = v
admitted-Valid w fd (some c, clients) v = v

-- The registry after `add_client`, called as the login does.
module _ (w : World) (v : IsValid w) (a : Arrival) (now : ℕ) (username : Bytes)
    (short : length username < username_size)
    (free : find_client_by_username w.clients.nodes username ≡ none) where
  add_client-Valid :
      (address : ℕ)
      → client_at address w.clients.nodes ≡ none
      → Valid (add_client w.clients (some address) now (some username) a).1 w.rooms
  unfolding add_client new_client link_client
  add_client-Valid address fresh = elim (Bool-cases (is_neg a.socket_fd)) [
    | inl bad ↦ rw bad v
    | inr good ↦
        let ok : IsClients (add_client w.clients (some address) now (some username) a).1 =
          add_client-IsClients w.clients address now username a short fresh free v.clients in
        rw good (linked-Valid w _ (new_client address now username a) refl (rw good at ok) v fresh)
  ]

add_fresh-Valid :
    (w : World)
    → IsValid w
    → (a : Arrival) (now : ℕ) (username : Bytes) → length username < username_size
    → find_client_by_username w.clients.nodes username ≡ none
    → (fresh : Option ℕ)
    → ((address : ℕ) → fresh ≡ some address → client_at address w.clients.nodes ≡ none)
    → Valid (add_client w.clients fresh now (some username) a).1 w.rooms
add_fresh-Valid w v a now username short free none f = unfold add_client in v
add_fresh-Valid w v a now username short free (some address) f =
    add_client-Valid w v a now username short free address (f address refl)

is_some-none : (o : Option Client) → is_some o ≡ false → o ≡ none
is_some-none none h = refl
is_some-none (some c) h = cc

login_checked-Valid :
    (w : World) (a : Arrival) (round : Round) (username : Bytes)
    → Fresh w round
    → IsValid w
    → IsValid (world_of (login_checked w a round username))
unfolding login_checked respond validate_username
login_checked-Valid w a round username fresh v = elim (Bool-cases (validate_username username)) [
  | inr bad ↦ rw bad v
  | inl good ↦
      rw good (elim (Bool-cases (is_some (find_client_by_username w.clients.nodes username))) [
        | inl taken' ↦ rw taken' v
        | inr free ↦ rw free (
            admitted-Valid w a.socket_fd
              (add_client w.clients round.fresh round.now (some username) a)
              (add_fresh-Valid w v a round.now username (ground arith)
                (is_some-none (find_client_by_username w.clients.nodes username) free) round.fresh
                fresh))
      ])
]

login_path-Valid :
    (w : World) (a : Arrival) (round : Round) (username : Bytes) (r : ℤ × Bytes × Net)
    → Fresh w round
    → IsValid w
    → IsValid (world_of (login_path w a round username r))
unfolding login_path
login_path-Valid w a round username (code, path, net) fresh v = elim (Bool-cases (leb_zero code)) [
  | inl gone ↦ rw gone v
  | inr here ↦ rw here (
      login_checked-Valid (record w { net = net })
        (record a { file_path = some (clean_login path) }) round (clean_login username) fresh v)
]

login_name-Valid :
    (w : World) (a : Arrival) (round : Round) (r : ℤ × Bytes × Net)
    → Fresh w round
    → IsValid w
    → IsValid (world_of (login_name w a round r))
unfolding login_name
login_name-Valid w a round (code, username, net) fresh v = elim (Bool-cases (leb_zero code)) [
  | inl gone ↦ rw gone v
  | inr here ↦ rw here (
      login_path-Valid (record w { net = net }) a round username
        (receive_message net a.socket_fd 1024) fresh v)
]

-- A round of the login loop keeps the invariant, however it ends. `malloc` gives no block that is
-- still in use.
pub login_round-Valid :
    (w : World) (a : Arrival) (round : Round)
    → Fresh w round
    → IsValid w
    → IsValid (world_of (login_round w a round))
unfolding login_round
login_round-Valid w a round fresh v =
    login_name-Valid w a round (receive_message w.net a.socket_fd 1024) fresh v
