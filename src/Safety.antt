-- ===== src/Safety.antt =====
-- The invariant of the server's shared state: the two registries are well formed, and each slot of
-- a room points to a client in the registry whose own field names that room.
pub mod Rooms
pub mod Delivery
pub mod Seats
pub mod Registry
use tcp_chat_server_c.Base.{
  ==_iff, Bool, List, Option, [], false, if◌then◌else◌, refl, some, true, ℕ, ℤ, ◌==◌, ◌∷◌, ◌≡◌, ◌≢◌,
}
use tcp_chat_server_c.CString.{Bytes, eq_bytes, is_empty}
use tcp_chat_server_c.CString.Laws.{eq_bytes_iff}
use tcp_chat_server_c.Search.{All}
use tcp_chat_server_c.Search.Keyed.{Distinct, find_first-at_key}
use tcp_chat_server_c.Clients.{Client, ClientList, client_at, find_client_by_socket, has_socket}
use tcp_chat_server_c.Clients.Laws.{IsClients}
use tcp_chat_server_c.Rooms.{Room, RoomList, occupies}
use tcp_chat_server_c.Rooms.Slots.{EachSeat}
use tcp_chat_server_c.Rooms.Laws.{IsRooms}
use tcp_chat_server_c.Server.{World}

-- The pointer `a`, in a slot of the room `name`.
abbrev pub Seat : List Client → Bytes → ℕ → Type 0
Seat nodes name a = (c : Client) × (client_at a nodes ≡ some c) × (c.current_room_name ≡ name)

abbrev pub Seated : List Client → Room → Type 0
Seated nodes r = EachSeat (Seat nodes r.room_name) r.clients

-- The client is in no slot.
abbrev pub Unseated : ℕ → List Room → Type 0
Unseated a nodes = All (λ (r : Room). occupies a r.clients ≡ false) nodes

pub record Valid (cl : ClientList) (rl : RoomList) : Type 0 where
  pub clients : IsClients cl
  pub rooms : IsRooms rl
  pub seats : All (Seated cl.nodes) rl.nodes

abbrev pub IsValid : World → Type 0
IsValid w = Valid w.clients w.rooms

-- The handler has not read through a dangling pointer, and the invariant holds again.
abbrev pub IsSafe : Option World → Type 0
IsSafe r = (w : World) × (r ≡ some w) × IsValid w

-- The key of a client and of a room, with the comparisons.
abbrev pub DistinctRooms : List Room → Type 0
DistinctRooms = Distinct (λ (r : Room). r.room_name) eq_bytes eq_bytes_iff

abbrev pub DistinctClients : List Client → Type 0
DistinctClients = Distinct (λ (c : Client). c.address) ◌==◌ ==_iff

-- A client that a handler has found is the one at its address.
pub client_at-found :
    (nodes : List Client) (fd : ℤ) (c : Client)
    → DistinctClients nodes
    → find_client_by_socket nodes fd ≡ some c
    → client_at c.address nodes ≡ some c
unfolding find_client_by_socket
client_at-found nodes fd c d e =
    find_first-at_key (λ (c : Client). c.address) ◌==◌ ==_iff (has_socket fd) c nodes d e

pub is_empty→nil : (s : Bytes) → is_empty s ≡ true → s ≡ []
is_empty→nil [] h = refl
is_empty→nil (c ∷ s) h = cc

pub is_empty_false→ne : (s : Bytes) → is_empty s ≡ false → s ≢ []
is_empty_false→ne [] h e = cc
is_empty_false→ne (c ∷ s) h e = cc

pub IsSafe-if : (b : Bool) {x y : Option World} → IsSafe x → IsSafe y → IsSafe (if b then x else y)
IsSafe-if true s t = s
IsSafe-if false s t = t

-- A handler that leaves both registries alone.
pub IsSafe-same :
    (w w' : World) → w'.clients ≡ w.clients → w'.rooms ≡ w.rooms → IsValid w → IsSafe (some w')
IsSafe-same w w' e f v = (w', refl, rw (e, f) v)
