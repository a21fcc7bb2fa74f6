-- ===== src/Server/Session.antt =====
-- The life of the server's shared state: rounds of the login loop, rounds of the message loop and
-- ends of connections, of any clients and in any order, each as one step.
use tcp_chat_server_c.Base.{
  [], eq_int, false, negsuc, none, some, some_inj, subst, sym, true, ℕ, ℤ, ◌∙◌, ◌≡◌, ◌≢◌,
}
use tcp_chat_server_c.Wire.{Net}
use tcp_chat_server_c.Clients.{Arrival, init_clients}
use tcp_chat_server_c.Clients.Laws.{init_clients-IsClients}
use tcp_chat_server_c.Rooms.{init_rooms}
use tcp_chat_server_c.Rooms.Laws.{init_rooms-IsRooms}
use tcp_chat_server_c.FileQueue.{init_file_queue}
use tcp_chat_server_c.Server.{World}
use tcp_chat_server_c.Server.Connection.{Round, disconnect, login_round}
use tcp_chat_server_c.Server.Dispatch.{Turn, Wake, message_turn}
use tcp_chat_server_c.Safety.{IsValid}
use tcp_chat_server_c.Server.Connection.Safe.{disconnect-IsSafe}
use tcp_chat_server_c.Server.Connection.Rounds.{Fresh, login_round-Valid, world_of}
use tcp_chat_server_c.Server.Dispatch.Safe.{message_turn-IsSafe, turn_world}

pub data Step : World → World → Type 0 where
  log_in :
      (w : World) (a : Arrival) (round : Round)
      → Fresh w round
      → Step w (world_of (login_round w a round))
  turn :
      (w : World) (fd : ℤ) (wake : Wake) (t : Turn)
      → message_turn w fd wake ≡ some t
      → Step w (turn_world t)
  hang_up :
      (w w' : World) (fd : ℤ) (now : ℕ)
      → eq_int fd (negsuc 0) ≡ false
      → disconnect w fd now ≡ some w'
      → Step w w'

pub data Reach (start : World) : World → Type 0 where
  here : Reach start start
  next : {w w' : World} → Reach start w → Step w w' → Reach start w'

-- The state after `init_clients`, `init_rooms` and `init_file_queue`.
unfoldable pub started : Net → World
unfolding init_clients init_rooms init_file_queue
started net = record {
  clients = init_clients;
  rooms = init_rooms;
  queue = (init_file_queue true).1;
  net = net;
  closed = [];
}

pub started-IsValid : (net : Net) → IsValid (started net)
unfolding started
started-IsValid net = record {
  clients = init_clients-IsClients;
  rooms = init_rooms-IsRooms;
  seats = unfold init_rooms init_clients in tt;
}

Step-IsValid : {w w' : World} → Step w w' → IsValid w → IsValid w'
Step-IsValid (log_in w a round fresh) v = login_round-Valid w a round fresh v
Step-IsValid (turn w fd wake t e) v =
    let (t', e', v') = message_turn-IsSafe w fd wake v in
    subst (λ t. IsValid (turn_world t)) (some_inj t' t (sym e' ∙ e)) v'
Step-IsValid (hang_up w w' fd now good e) v =
    let (w'', e', v') = disconnect-IsSafe w fd now good v in
    subst (λ t. IsValid t) (some_inj w'' w' (sym e' ∙ e)) v'

-- From the start of the server on, after any sequence of logins, commands and disconnections of any
-- clients, each run as one step, the invariant holds: the counts agree with the lists and the
-- slots, addresses, usernames and room names are distinct, and every slot points to a registered
-- client whose own field names that room.
pub Reach-IsValid : (net : Net) {w : World} → Reach (started net) w → IsValid w
Reach-IsValid net here = started-IsValid net
Reach-IsValid net (next r s) = Step-IsValid s (Reach-IsValid net r)

-- In every reachable state the next command and the end of any connection on a good socket are
-- carried out without a read through a dangling pointer.
pub Reach-no_fault :
    (net : Net) {w : World}
    → Reach (started net) w
    → (fd : ℤ) (wake : Wake) (now : ℕ) → eq_int fd (negsuc 0) ≡ false
    → (message_turn w fd wake ≢ none) × (disconnect w fd now ≢ none)
Reach-no_fault net {w} r fd wake now good =
    let v : IsValid w = Reach-IsValid net r in
    let (t, e, v') = message_turn-IsSafe w fd wake v in
    let (w', e', v'') = disconnect-IsSafe w fd now good v in ((λ h. cc), (λ h. cc))
