-- ===== src/Server/Connection/Safe.antt =====
-- The end of a connection, its pointers and the invariant.
use tcp_chat_server_c.Base.{
  ==_iff, Bool-cases, Option, Option-cases, arith, eq_int, false, inl, inr, negsuc, none, refl,
  some, sym, ℕ, ℤ, ◌==◌, ◌∙◌, ◌≡◌,
}
use tcp_chat_server_c.CString.{is_empty}
use tcp_chat_server_c.Search.Laws.{All-both, All-map}
use tcp_chat_server_c.Search.Keyed.{find-unlink_other}
use tcp_chat_server_c.Clients.{Client, client_at, find_client_by_socket, has_socket}
use tcp_chat_server_c.Clients.Laws.{
  remove_client-IsClients, remove_client-missing, remove_client_cases,
}
use tcp_chat_server_c.Rooms.{Room, find_room, occupies}
use tcp_chat_server_c.Rooms.Slots.{EachSeat-other}
use tcp_chat_server_c.Replies.{disconnected}
use tcp_chat_server_c.Server.{World, take_out, update_room}
use tcp_chat_server_c.Server.Connection.{
  cleanup_client_connection, close_socket, disconnect, forget_client, leave_for_good, tell_room,
}
use tcp_chat_server_c.Safety.{IsSafe, IsValid, Seat, Seated, Unseated, client_at-found}
use tcp_chat_server_c.Safety.Delivery.{notify_total}
use tcp_chat_server_c.Safety.Rooms.{
  find_room-Live, find_room-written, gone-Unseated, name-take_out, take_out-Unseated,
  take_out-Valid,
}
use tcp_chat_server_c.Server.Join.Safe.{outside-Unseated}

module _ (w : World) (v : IsValid w) (now : ℕ) where
  -- The client's room is told, and the client is in no slot.
  record Left (c : Client) (r : Option World) : Type 0 where
    after : World
    done' : r ≡ some after
    valid : IsValid after
    clients : after.clients ≡ w.clients
    out : Unseated c.address after.rooms.nodes

  module _ (c : Client) (at : client_at c.address w.clients.nodes ≡ some c) where
    tell_room-Left :
        (o : Option Room)
        → find_room w.rooms.nodes c.current_room_name ≡ o
        → Left c (tell_room w c now o)
    unfolding tell_room update_room
    tell_room-Left none e = record {
      after = w;
      done' = refl;
      valid = v;
      clients = refl;
      out = gone-Unseated w.clients w.rooms v c at e;
    }
    tell_room-Left (some r) e =
        let w1 : World = update_room w c.current_room_name (take_out (some now) c.address) in
        let v1 : IsValid w1 = take_out-Valid w.clients w.rooms v c at (some now) in
        let found : find_room w1.rooms.nodes c.current_room_name
            ≡ some (take_out (some now) c.address r) =
          find_room-written w.rooms c.current_room_name (take_out (some now) c.address)
            (name-take_out (some now) c.address) r e in
        let (net, same) =
          notify_total w1 none (disconnected c.username) (take_out (some now) c.address r).clients (
            find_room-Live w1.clients w1.rooms c.current_room_name (take_out (some now) c.address r)
              v1 found) in
        record {
          after = record w1 { net = net };
          done' = same;
          valid = v1;
          clients = refl;
          out = take_out-Unseated w.clients w.rooms v c at (some now);
        }

    leave_for_good-Left : Left c (leave_for_good w now (some c))
    unfolding leave_for_good
    leave_for_good-Left = elim (Bool-cases (is_empty c.current_room_name)) [
      | inl outside ↦ rw outside (record {
        after = w;
        done' = refl;
        valid = v;
        clients = refl;
        out = outside-Unseated w v c at outside;
      })
      | inr inside ↦ rw inside (tell_room-Left (find_room w.rooms.nodes c.current_room_name) refl)
    ]

-- Removing a client that sits in no slot keeps the invariant.
forget_client-Valid :
    (w : World) (c : Client) (fd : ℤ)
    → IsValid w
    → Unseated c.address w.rooms.nodes
    → find_client_by_socket w.clients.nodes fd ≡ some c
    → IsValid (forget_client fd w)
unfolding forget_client find_client_by_socket
forget_client-Valid w c fd v out f = elim (remove_client_cases w.clients fd) [
  | inl (none', e) ↦ absurd (none≢some (sym none' ∙ f))
  | inr (c', nodes, f', e, e') ↦ record {
    clients = remove_client-IsClients w.clients fd v.clients;
    rooms = v.rooms;
    seats = rw e' (
        All-map (λ (r : Room). (occupies c.address r.clients ≡ false) × Seated w.clients.nodes r)
          (Seated nodes)
          (λ r s.
            EachSeat-other (Seat w.clients.nodes r.room_name) (Seat nodes r.room_name) c.address
              (λ b ne s. (
                s.0,
                find-unlink_other (λ (c : Client). c.address) ◌==◌ ==_iff (has_socket fd) c b
                      w.clients.nodes nodes f (ground arith) e
                    ∙ s.1,
                s.2,
              ))
              r.clients s.0 s.1)
          w.rooms.nodes
          (All-both (λ (r : Room). occupies c.address r.clients ≡ false) (Seated w.clients.nodes)
            w.rooms.nodes out v.seats));
  }
]
  where
    none≢some : none ≡ some c → ⊥
    none≢some e = cc

-- From a state where the invariant holds, the end of a connection on a good socket reads no
-- dangling pointer, and afterwards the invariant holds.
pub disconnect-IsSafe :
    (w : World) (fd : ℤ) (now : ℕ)
    → eq_int fd (negsuc 0) ≡ false
    → IsValid w
    → IsSafe (disconnect w fd now)
unfolding disconnect cleanup_client_connection leave_for_good close_socket
disconnect-IsSafe w fd now good v = elim (Option-cases (find_client_by_socket w.clients.nodes fd)) [
  | inl none' ↦ (forget_client fd (close_socket fd w), rw (good, none'), nothing none')
  | inr (c, e) ↦
      let l =
        leave_for_good-Left w v now c
          (client_at-found w.clients.nodes fd c v.clients.addresses e) in
      (
        forget_client fd (close_socket fd l.after),
        rw (good, e, l.done'),
        forget_client-Valid (close_socket fd l.after) c fd l.valid l.out (rw l.clients e),
      )
]
  where
    nothing :
        find_client_by_socket w.clients.nodes fd ≡ none
        → IsValid (forget_client fd (close_socket fd w))
    nothing none' =
        unfold forget_client close_socket in rw (remove_client-missing w.clients fd none') v
