-- ===== src/Safety/Registry.antt =====
-- Rooms that come and go, and the invariant.
use tcp_chat_server_c.Base.{
  Option, Option-cases, [], inl, inr, length, none, some, subst, ℕ, ◌∙◌, ◌≡◌, ◌≢◌, ◌≤◌,
}
use tcp_chat_server_c.CString.{Bytes}
use tcp_chat_server_c.Clients.{ClientList}
use tcp_chat_server_c.Rooms.{
  Allocation, Room, RoomList, add_room, find_room, max_room_name_length, new_room, remove_room,
}
use tcp_chat_server_c.Rooms.Laws.{
  IsRooms, add_room-IsRooms, add_room_cases, find_room-new, new_room-EachSeat, occupies-new_room,
  remove_room-All, remove_room-IsRooms,
}
use tcp_chat_server_c.Server.Join.{find_or_add_room}
use tcp_chat_server_c.Safety.{Seat, Seated, Unseated, Valid}

-- What is left of a room after the last client has gone keeps the invariant.
pub remove_room-Valid :
    (cl : ClientList) (rl : RoomList) (name : Bytes)
    → Valid cl rl
    → Valid cl (remove_room rl name).1
remove_room-Valid cl rl name v = record {
  clients = v.clients;
  rooms = remove_room-IsRooms rl name v.rooms;
  seats = remove_room-All (Seated cl.nodes) rl name v.seats;
}

-- The room that the join handler goes on with, and the registry at that point.
pub record Target (cl : ClientList) (a : ℕ) (name : Bytes) (r : Option Room × RoomList)
    : Type 0 where
  pub valid : Valid cl r.1
  pub out : Unseated a r.1.nodes
  pub found : (target : Room) → r.0 ≡ some target → find_room r.1.nodes name ≡ some target

module _ (cl : ClientList) (a : ℕ) (name : Bytes) (ne : name ≢ [])
    (short : length name ≤ max_room_name_length) (how : Allocation) (now : ℕ) where
  added-Target :
      (rl : RoomList)
      → Valid cl rl
      → Unseated a rl.nodes
      → find_room rl.nodes name ≡ none
      → Target cl a name (add_room rl how now name)
  added-Target rl v out e = elim (add_room_cases rl how now name e) [
    | inl refused ↦ rw refused (record { valid = v; out = out; found = λ target same. cc })
    | inr done' ↦ rw done' (record {
      valid = record {
        clients = v.clients;
        rooms =
            subst (λ (t : Option Room × RoomList). IsRooms t.1) done'
              (add_room-IsRooms rl how now name ne short v.rooms);
        seats = (new_room-EachSeat (Seat cl.nodes (new_room now name).room_name) now name, v.seats);
      };
      out = (occupies-new_room a now name, out);
      found = λ target same. find_room-new now name rl.nodes short ∙ same;
    })
  ]

  pub find_or_add_room-Target :
      (rl : RoomList)
      → Valid cl rl
      → Unseated a rl.nodes
      → Target cl a name (find_or_add_room rl how now name)
  unfolding find_or_add_room
  find_or_add_room-Target rl v out = elim (Option-cases (find_room rl.nodes name)) [
    | inr (r, e) ↦
        rw (e, find_or_add_room) (record { valid = v; out = out; found = λ target same. e ∙ same })
    | inl e ↦ rw (e, find_or_add_room) (added-Target rl v out e)
  ]
