-- ===== src/Examples/Logins.antt =====
-- The theorems about logins: `dan` joins the server of `Worlds`.
use tcp_chat_server_c.Base.{[], arith, eq_int, inl, inr, none, pos, refl, some, ◌++◌, ◌∷◌}
use tcp_chat_server_c.CString.{Bytes, all_alnum, codes, eq_bytes, is_alnum}
use tcp_chat_server_c.Wire.{bytes_to_send, htonl, message_len}
use tcp_chat_server_c.Wire.Send.{frame}
use tcp_chat_server_c.Wire.Examples.{hand_over-Serves}
use tcp_chat_server_c.Search.{find_first}
use tcp_chat_server_c.Clients.{Arrival, find_client_by_username}
use tcp_chat_server_c.Replies.{login_success, render}
use tcp_chat_server_c.Server.{World}
use tcp_chat_server_c.Server.Connection.{login_round, validate_username}
use tcp_chat_server_c.Server.Connection.Directory.{EndsSolid}
use tcp_chat_server_c.Server.Connection.Welcome.{Welcomed, login_round-Welcomed}
use tcp_chat_server_c.Server.Connection.Race.{Collide, name_check, name_entry-Collide}
use tcp_chat_server_c.Client.{Session}
use tcp_chat_server_c.Client.Login.{login_to_server}
use tcp_chat_server_c.Client.Login.Accepted.{Admitted, login_to_server-Admitted}
use tcp_chat_server_c.Examples.Worlds.{hall, open_net}
use tcp_chat_server_c.Examples.Client.{talking}

abbrev dan_tail : Bytes
dan_tail = b'a' ∷ b'n' ∷ []

abbrev dan_name : Bytes
dan_name = b'd' ∷ dan_tail

abbrev root_path : Bytes
root_path = b'/' ∷ []

-- Below, the path is sent with a newline.
abbrev newline : Bytes
newline = b'\n' ∷ []

root_path-EndsSolid : EndsSolid root_path
root_path-EndsSolid = record {
  start = [];
  last_byte = b'/';
  parts = refl;
  solid = λ h. elim h [
    | inl e ↦ omega arith
    | inr f ↦ elim f [ inl e ↦ omega arith | inr e ↦ omega arith ]
  ];
}

abbrev login_stream : Bytes
login_stream = frame dan_name ++ (frame (root_path ++ newline) ++ [])

abbrev lobby_door : World
lobby_door = record hall { net = open_net login_stream }

abbrev dan_arrives : Arrival
dan_arrives = record {
  socket_fd = pos 7;
  thread_id = 4;
  client_ip = none;
  client_port = 5001;
  file_path = none;
}

login_round-Welcomed_example :
    Welcomed lobby_door dan_arrives dan_name root_path
      (login_round lobby_door dan_arrives (record { fresh = some 4; now = 60 }))
unfolding validate_username all_alnum is_alnum find_client_by_username find_first eq_bytes frame
    htonl message_len bytes_to_send
login_round-Welcomed_example =
    login_round-Welcomed lobby_door dan_arrives 4 60 dan_name root_path newline [] refl refl refl
      root_path-EndsSolid (inr (inr refl), tt) (refl, (refl, tt)) (omega arith)
      (hand_over-Serves 100 login_stream (pos 7) 13 [] login_stream (omega arith) (omega arith)
        refl)
      (λ n fd len. refl)

-- The line "dan", and the server's answer in the stream.
abbrev dan_types : Session
dan_types = talking (dan_name ++ b'\n' ∷ []) (frame (render login_success) ++ [])

login_to_server-Admitted_example :
    Admitted dan_types dan_name root_path [] [] (login_to_server (some root_path) dan_types)
unfolding validate_username all_alnum is_alnum frame render codes htonl message_len bytes_to_send
    eq_int
login_to_server-Admitted_example =
    login_to_server-Admitted dan_types b'd' dan_tail root_path [] [] refl (omega arith) refl
      (λ n fd len. refl) refl
      (hand_over-Serves 100 (frame (render login_success) ++ []) (pos 4) 17 []
        (frame (render login_success) ++ []) (omega arith) (omega arith) refl)

-- A second `dan`, on the socket 8.
abbrev dan_again : Arrival
dan_again = record {
  socket_fd = pos 8;
  thread_id = 5;
  client_ip = none;
  client_port = 5002;
  file_path = none;
}

name_entry-Collide_example :
    Collide hall dan_arrives dan_again
      (record { fresh = some 4; now = 60 })
      (record { fresh = some 5; now = 60 })
      dan_name
unfolding name_check validate_username all_alnum is_alnum find_client_by_username find_first
    eq_bytes
name_entry-Collide_example =
    name_entry-Collide hall dan_arrives dan_again 4 60 5 60 dan_name (λ n fd len. refl) refl refl
      refl
