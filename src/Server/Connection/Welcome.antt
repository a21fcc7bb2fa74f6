-- ===== src/Server/Connection/Welcome.antt =====
-- A login that succeeds: the two messages of the client and the new entry of the registry.
use tcp_chat_server_c.Base.{
  Bool, [], ap, arith, eq_int, false, is_neg, leb_zero, length, length-append, negsuc, none, pos,
  refl, some, true, ℕ, ℤ, ◌++◌, ◌<◌, ◌∙◌, ◌∷◌, ◌≡◌, ◌≤◌,
}
use tcp_chat_server_c.CString.{
  Bytes, all_alnum, cut_end, is_alnum, is_blank_or_newline, keep, trim_end,
}
use tcp_chat_server_c.CString.Laws.{truncate-short}
use tcp_chat_server_c.Wire.{Net, receive_message, sent_to}
use tcp_chat_server_c.Wire.Send.{frame}
use tcp_chat_server_c.Wire.Receive.{Pending}
use tcp_chat_server_c.Wire.RoundTrip.{Gets, receive_message-Gets}
use tcp_chat_server_c.Wire.Reliable.{Reliable, send_message-Reliable}
use tcp_chat_server_c.Wire.Kernel.{receive_message-kernel}
use tcp_chat_server_c.Search.{All}
use tcp_chat_server_c.CString.Words.{Free, cstr-Free, is_nul}
use tcp_chat_server_c.Clients.{
  Arrival, Client, add_client, find_client_by_username, link_client, new_client,
}
use tcp_chat_server_c.Replies.{login_success, render}
use tcp_chat_server_c.Server.{World, respond}
use tcp_chat_server_c.Server.Connection.{
  Login, admitted, clean_login, logged_in, login_checked, login_name, login_path, login_round,
  validate_username,
}
use tcp_chat_server_c.Server.Connection.Username.{username_rule}
use tcp_chat_server_c.Server.Connection.Directory.{EndsSolid, IsBlankByte, clean_login-blanks}

cut_end-Free : (p : ℕ → Bool) (s : Bytes) → Free p s → cut_end p s ≡ s
unfolding cut_end keep
cut_end-Free p [] f = refl
cut_end-Free p (c ∷ []) f = rw f.0 refl
cut_end-Free p (c ∷ d ∷ s) f = ap (keep p c) (cut_end-Free p (d ∷ s) f.1)

pub alnum-Free :
    (p : ℕ → Bool)
    → ((c : ℕ) → is_alnum c ≡ true → p c ≡ false)
    → (s : Bytes) → all_alnum s ≡ true
    → Free p s
unfolding all_alnum
alnum-Free p h [] e = tt
alnum-Free p h (c ∷ s) e = (h c (ground arith), alnum-Free p h s (ground arith))

-- A name of letters and digits is left as it is.
clean_login-alnum : (name : Bytes) → all_alnum name ≡ true → clean_login name ≡ name
unfolding clean_login
clean_login-alnum name e =
    ap (trim_end is_blank_or_newline) (cstr-Free name (alnum-Free is_nul not_nul name e))
    ∙ trimmed name (alnum-Free is_blank_or_newline not_blank name e)
  where
    not_nul : (c : ℕ) → is_alnum c ≡ true → is_nul c ≡ false
    not_nul c h = unfold is_alnum in ground arith

    not_blank : (c : ℕ) → is_alnum c ≡ true → is_blank_or_newline c ≡ false
    not_blank c h = unfold is_alnum is_blank_or_newline in ground arith

    trimmed : (s : Bytes) → Free is_blank_or_newline s → trim_end is_blank_or_newline s ≡ s
    trimmed [] f = unfold trim_end in refl
    trimmed (c ∷ s) f = unfold trim_end in ap (λ t. c ∷ t) (cut_end-Free is_blank_or_newline s f.1)

-- The client is registered under the name, with the path, and has been told so.
pub record Welcomed (w : World) (a : Arrival) (name dir : Bytes) (l : Login) : Type 0 where
  pub after : World
  pub turn : l ≡ logged_in after
  pub member : Client
  pub nodes : after.clients.nodes ≡ member ∷ w.clients.nodes
  pub named : member.username ≡ name
  pub socket : member.socket_fd ≡ a.socket_fd
  pub directory : member.current_file_path ≡ dir
  pub roomless : member.current_room_name ≡ []
  pub active : member.is_active ≡ true
  pub rooms : after.rooms ≡ w.rooms
  pub wire :
      sent_to a.socket_fd after.net.wire
      ≡ sent_to a.socket_fd w.net.wire ++ frame (render login_success)

pub not_minus_one : (fd : ℤ) → is_neg fd ≡ false → eq_int fd (negsuc 0) ≡ false
unfolding eq_int
not_minus_one (pos n) h = refl
not_minus_one (negsuc n) h = absurd (cc h)

-- The checks of a good and free name.
login_checked-Welcomed :
    (w : World) (a : Arrival) (address now : ℕ) (name path dir : Bytes)
    → clean_login path ≡ dir
    → length dir < 1024
    → validate_username name ≡ true
    → find_client_by_username w.clients.nodes name ≡ none
    → is_neg a.socket_fd ≡ false
    → Reliable w.net
    → Welcomed w a name dir (
        login_checked w
          (record a { file_path = some (clean_login path) })
          (record { fresh = some address; now = now })
          name)
unfolding login_checked admitted add_client respond
login_checked-Welcomed w a address now name path dir clean fits valid free good rel =
    rw (valid, free, good)
      (record {
        after = _;
        turn = refl;
        member = new_client address now name (record a { file_path = some (clean_login path) });
        nodes = unfold link_client in refl;
        named =
            unfold new_client in
            truncate-short 17 name (omega (arith, ((username_rule name).0 valid).1));
        socket = unfold new_client in refl;
        directory = unfold new_client in rw clean (truncate-short 1024 dir fits);
        roomless = unfold new_client in refl;
        active = unfold new_client in refl;
        rooms = refl;
        wire =
            (send_message-Reliable w.net a.socket_fd (render login_success) rel
              (not_minus_one a.socket_fd good)).1.taken;
      })

-- A new client with a good and free name is let in: where the stream of its socket holds the name
-- and a path as two messages, the round of the login loop registers it under that name, in no room,
-- with the directory `dir`, leaves the rooms and the other clients as they are, and answers
-- LOGIN_SUCCESS on its socket. The path is `dir` and then spaces, tabs and newlines (or none); `dir`
-- has a last byte, which is none of these; the path has no NUL and fewer than 1024 bytes. The kernel
-- takes all that it is given, and `malloc` gives a node.
pub login_round-Welcomed :
    (w : World) (a : Arrival) (address now : ℕ) (name dir blanks later : Bytes)
    → validate_username name ≡ true
    → find_client_by_username w.clients.nodes name ≡ none
    → is_neg a.socket_fd ≡ false
    → EndsSolid dir
    → All IsBlankByte blanks
    → Free is_nul (dir ++ blanks)
    → length (dir ++ blanks) < 1024
    → Pending w.net a.socket_fd (frame name ++ (frame (dir ++ blanks) ++ later))
    → Reliable w.net
    → Welcomed w a name dir (login_round w a (record { fresh = some address; now = now }))
unfolding login_round login_name login_path
login_round-Welcomed w a address now name dir blanks later valid free good solid blank whole
      short_path p rel =
    rw
      (
        first.code,
        positive name (rule.0),
        second.code,
        positive path some_path,
        first.bytes,
        second.bytes,
        clean_login-alnum name rule.2,
      )
      (record {
        after = v.after;
        turn = v.turn;
        member = v.member;
        nodes = v.nodes;
        named = v.named;
        socket = v.socket;
        directory = v.directory;
        roomless = v.roomless;
        active = v.active;
        rooms = v.rooms;
        wire =
            v.wire
            ∙ ap (λ t. sent_to a.socket_fd t ++ frame (render login_success))
                (second.output ∙ first.output);
      })
  where
    path : Bytes
    path = dir ++ blanks

    dir_bytes : 0 < length dir
    dir_bytes = rw solid.parts (omega (arith, length-append solid.start (solid.last_byte ∷ [])))

    some_path : 0 < length path
    some_path = omega (arith, dir_bytes, length-append dir blanks)

    rule : (0 < length name) × (length name ≤ 16) × (all_alnum name ≡ true)
    rule = (username_rule name).0 valid

    positive : (m : Bytes) → 0 < length m → leb_zero (pos (length m)) ≡ false
    positive m h = ground arith

    fd_good : eq_int a.socket_fd (negsuc 0) ≡ false
    fd_good = not_minus_one a.socket_fd good

    first :
        Gets w.net a.socket_fd name (frame path ++ later) (receive_message w.net a.socket_fd 1024)
    first =
        receive_message-Gets a.socket_fd 1024 name (frame path ++ later) (omega (arith, rule.1))
          w.net fd_good rule.0 (omega (arith, rule.1)) p

    net1 : Net
    net1 = (receive_message w.net a.socket_fd 1024).2

    second : Gets net1 a.socket_fd path later (receive_message net1 a.socket_fd 1024)
    second =
        receive_message-Gets a.socket_fd 1024 path later short_path net1 fd_good some_path
          (omega (arith, short_path)) first.left

    net2 : Net
    net2 = (receive_message net1 a.socket_fd 1024).2

    still : Reliable net2
    still n fd len =
        ap (λ (f : ℕ → ℤ → ℕ → ℤ). f n fd len)
          (receive_message-kernel net1 a.socket_fd 1024
            ∙ receive_message-kernel w.net a.socket_fd 1024)
        ∙ rel n fd len

    v :
        Welcomed
          (record w { net = net2 })
          a
          name
          dir
          (login_checked
            (record w { net = net2 })
            (record a { file_path = some (clean_login path) })
            (record { fresh = some address; now = now })
            name)
    v =
        login_checked-Welcomed (record w { net = net2 }) a address now name path dir
          (clean_login-blanks dir blanks solid blank whole)
          (omega (arith, short_path, length-append dir blanks)) valid free good still
