-- ===== src/Server/Leave/Safe.antt =====
-- `handle_leave_command`, its pointers and the invariant.
use tcp_chat_server_c.Base.{Bool-cases, Option, Option-cases, inl, inr, none, refl, some, ℕ, ℤ, ◌≡◌}
use tcp_chat_server_c.CString.{Bytes, is_empty}
use tcp_chat_server_c.Clients.{Client, client_at, find_client_by_socket}
use tcp_chat_server_c.Rooms.{Room, find_room, occupies}
use tcp_chat_server_c.Replies.{
  leave_success, left_room, not_in_room, not_registered, room_gone, unidentified_client,
}
use tcp_chat_server_c.Server.{
  Resources, World, forget_room, respond, take_out, update_client, update_room,
}
use tcp_chat_server_c.Server.Leave.{
  handle_leave_command, leave_client, leave_registered, leave_room,
}
use tcp_chat_server_c.Safety.{IsSafe, IsValid, Unseated, client_at-found}
use tcp_chat_server_c.Safety.Delivery.{notify_total}
use tcp_chat_server_c.Safety.Rooms.{
  find_room-Live, find_room-written, gone-Unseated, name-take_out, take_out-Unseated,
  take_out-Valid, unregistered-Unseated,
}
use tcp_chat_server_c.Safety.Seats.{forget_room-Keeps, rewritten-Valid}

module _ (fd : ℤ) (c : Client) where
  forgotten-Valid :
      (w : World)
      → IsValid w
      → Unseated c.address w.rooms.nodes
      → IsValid (update_client w c.address forget_room)
  unfolding update_client
  forgotten-Valid w v out =
      rewritten-Valid w.clients w.rooms c.address forget_room forget_room-Keeps v out

  leave_registered-IsSafe :
      (w : World) (r : Room) (name : Bytes)
      → IsValid w
      → Unseated c.address w.rooms.nodes
      → find_room w.rooms.nodes name ≡ some r
      → IsSafe (leave_registered w fd c r)
  unfolding leave_registered respond
  leave_registered-IsSafe w r name v out e =
      let (net, same) =
        notify_total w none (left_room c.username) r.clients
          (find_room-Live w.clients w.rooms name r v e) in
      let w' : World = record w { net = net } in
      (
        respond (update_client w' c.address forget_room) fd (leave_success r.room_name),
        rw same,
        forgotten-Valid w' v out,
      )

  leave_room-IsSafe :
      (w : World) (now : ℕ)
      → IsValid w
      → client_at c.address w.clients.nodes ≡ some c
      → (o : Option Room) → find_room w.rooms.nodes c.current_room_name ≡ o
      → IsSafe (leave_room w fd c now o)
  unfolding leave_room respond update_room
  leave_room-IsSafe w now v at none e = (
    respond (update_client w c.address forget_room) fd room_gone,
    refl,
    forgotten-Valid w v (gone-Unseated w.clients w.rooms v c at e),
  )
  leave_room-IsSafe w now v at (some r) e = elim (Bool-cases (occupies c.address r.clients)) [
    | inl here ↦ rw here (
        leave_registered-IsSafe (update_room w c.current_room_name (take_out (some now) c.address))
          (take_out (some now) c.address r) c.current_room_name
          (take_out-Valid w.clients w.rooms v c at (some now))
          (take_out-Unseated w.clients w.rooms v c at (some now))
          (find_room-written w.rooms c.current_room_name (take_out (some now) c.address)
            (name-take_out (some now) c.address) r e))
    | inr away ↦ rw away (
      respond (update_client w c.address forget_room) fd not_registered,
      refl,
      forgotten-Valid w v (unregistered-Unseated w.clients w.rooms v c at r e away),
    )
  ]

  leave_client-IsSafe :
      (w : World) (now : ℕ)
      → IsValid w
      → client_at c.address w.clients.nodes ≡ some c
      → IsSafe (leave_client w fd c now)
  unfolding leave_client respond
  leave_client-IsSafe w now v at = elim (Bool-cases (is_empty c.current_room_name)) [
    | inl outside ↦ rw outside (respond w fd not_in_room, refl, v)
    | inr inside ↦
        rw inside (leave_room-IsSafe w now v at (find_room w.rooms.nodes c.current_room_name) refl)
  ]

-- From a state where the invariant holds, `handle_leave_command` ends without reading a dangling
-- pointer, on every branch, and the invariant holds again.
pub handle_leave_command-IsSafe :
    (w : World) (fd : ℤ) (res : Resources) → IsValid w → IsSafe (handle_leave_command w fd res)
unfolding handle_leave_command respond
handle_leave_command-IsSafe w fd res v =
    elim (Option-cases (find_client_by_socket w.clients.nodes fd)) [
      | inl none' ↦ rw (none', handle_leave_command) (respond w fd unidentified_client, refl, v)
      | inr (c, e) ↦
          rw (e, handle_leave_command)
            (leave_client-IsSafe fd c w res.now v
              (client_at-found w.clients.nodes fd c v.clients.addresses e))
    ]
