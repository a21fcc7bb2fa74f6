-- ===== src/Examples/Handlers.antt =====
-- The theorems about the command handlers, at the states of `Worlds` and `Crowd`.
use tcp_chat_server_c.Base.{[], arith, eq_int, inr, pos, refl, some, ◌∷◌, ◌≡◌}
use tcp_chat_server_c.CString.{
  Bytes, all_alnum, eq_bytes, is_alnum, is_blank, is_blank_or_newline, skip, split_at, trim_end,
  truncate,
}
use tcp_chat_server_c.Search.{find_first}
use tcp_chat_server_c.Clients.{find_client_by_socket, find_client_by_username}
use tcp_chat_server_c.Rooms.{find_room}
use tcp_chat_server_c.Replies.{render, whisper}
use tcp_chat_server_c.Server.{World, is_other}
use tcp_chat_server_c.Server.Join.{clean_room_name, handle_join_command}
use tcp_chat_server_c.Server.Whisper.{handle_whisper_command}
use tcp_chat_server_c.Safety.{IsSafe, Unseated}
use tcp_chat_server_c.Server.Join.Safe.{handle_join_command-IsSafe}
use tcp_chat_server_c.Server.Join.Outcome.{Asks, Joined, handle_join_command-Joined}
use tcp_chat_server_c.Server.Join.Full.{handle_join_command-full}
use tcp_chat_server_c.Server.Broadcast.Recipients.{recipients}
use tcp_chat_server_c.Server.Broadcast.Outcome.{audience}
use tcp_chat_server_c.Server.Whisper.Outcome.{Whispered, Whispers, handle_whisper_command-Whispered}
use tcp_chat_server_c.Examples.Worlds.{
  ann, at_noon, attic_name, bob, cat, hall, hall-IsValid, lobby,
}
use tcp_chat_server_c.Examples.Crowd.{full_house, full_house-IsValid, packed}

abbrev hello : Bytes
hello = b'h' ∷ b'i' ∷ []

abbrev bob_name : Bytes
bob_name = b'b' ∷ b'o' ∷ b'b' ∷ []

abbrev to_bob : Bytes
to_bob = b'b' ∷ b'o' ∷ b'b' ∷ b' ' ∷ b'h' ∷ b'i' ∷ []

-- The room's other client is the one that the message goes to.
audience_run : audience hall ann lobby ≡ pos 5 ∷ []
unfolding recipients is_other find_first
audience_run = refl

cat-Asks : Asks hall (pos 6) attic_name cat
unfolding eq_int find_client_by_socket find_first clean_room_name trim_end skip truncate all_alnum
    is_alnum is_blank is_blank_or_newline
cat-Asks = record { some_name = refl; known = refl; cleaned = refl; format = refl; other = refl }

handle_join_command-Joined_example :
    (w' : World) × (handle_join_command hall (pos 6) attic_name at_noon ≡ some w')
    × Joined w' cat (clean_room_name attic_name)
unfolding find_room eq_bytes find_first clean_room_name trim_end skip truncate is_blank
    is_blank_or_newline
handle_join_command-Joined_example =
    handle_join_command-Joined hall (pos 6) attic_name at_noon cat hall-IsValid cat-Asks
      (inr (refl, refl))

ann-Asks : Asks full_house (pos 4) (packed.room_name) ann
unfolding eq_int find_client_by_socket find_first clean_room_name trim_end skip truncate all_alnum
    is_alnum is_blank is_blank_or_newline eq_bytes
ann-Asks = record { some_name = refl; known = refl; cleaned = refl; format = refl; other = refl }

handle_join_command-full_example :
    (w' : World) × (handle_join_command full_house (pos 4) packed.room_name at_noon ≡ some w')
    × Unseated 1 w'.rooms.nodes
    × (w'.clients ≡ full_house.clients)
unfolding find_room eq_bytes find_first clean_room_name trim_end skip truncate is_blank
    is_blank_or_newline
handle_join_command-full_example =
    handle_join_command-full full_house (pos 4) packed.room_name at_noon ann packed
      full_house-IsValid ann-Asks refl (omega arith)

ann-Whispers : Whispers hall (pos 4) to_bob bob_name hello ann bob
unfolding eq_int find_client_by_socket find_first split_at skip is_blank eq_bytes
    find_client_by_username
ann-Whispers = record {
  known = refl;
  rest = hello;
  parts = refl;
  cleaned = refl;
  text = refl;
  other = refl;
  there = refl;
  awake = refl;
}

handle_whisper_command-Whispered_example :
    Whispered hall
      (handle_whisper_command hall (pos 4) to_bob)
      (pos 4)
      bob_name
      bob
      (render (whisper ann.username bob.username hello))
handle_whisper_command-Whispered_example =
    handle_whisper_command-Whispered hall (pos 4) to_bob bob_name hello ann bob ann-Whispers

handle_join_command-IsSafe_example :
    IsSafe (handle_join_command full_house (pos 4) packed.room_name at_noon)
handle_join_command-IsSafe_example =
    handle_join_command-IsSafe full_house (pos 4) packed.room_name at_noon full_house-IsValid
