-- ===== src/Examples/Client.antt =====
-- The theorems about the client program, at a session of `ann` on the socket 4.
use tcp_chat_server_c.Base.{
  Bool, List, [], arith, false, length, min, none, pos, refl, some, take, true, ℕ, ◌↔◌, ◌∷◌, ◌≡◌,
  ◌≢◌,
}
use tcp_chat_server_c.CString.{
  Bytes, after, codes, cstr, eq_bytes, is_blank, skip, starts_with, strtok, truncate, until,
}
use tcp_chat_server_c.Wire.{send_message}
use tcp_chat_server_c.CString.Numbers.{
  atoi, atol, digits_value, fits_int, is_digit, is_space, signed_value,
}
use tcp_chat_server_c.Arguments.{bad_port, parse_server_args}
use tcp_chat_server_c.Arguments.Accepted.{ReadsPort, parse_args-ReadsPort}
use tcp_chat_server_c.Client.{Session, chomp, fgets, take_line}
use tcp_chat_server_c.Client.Commands.{
  FileInfo, FileSystem, check_args, check_join, count_command_args, extract_command_args,
  extract_loop, valid, validate_command,
}
use tcp_chat_server_c.Client.Commands.Words.{length-extract_command_args}
use tcp_chat_server_c.Client.Commands.Split.{Words}
use tcp_chat_server_c.Client.Commands.Grammar.{Accepts}
use tcp_chat_server_c.Client.Commands.Accepts.{validate_command_iff}
use tcp_chat_server_c.Client.Input.{
  InputWake, input_ready, input_turn, no_input, process_user_input, stops,
}
use tcp_chat_server_c.Client.Input.Safe.{SendsLines, process_user_input-SendsLines, session_of}
use tcp_chat_server_c.Client.Login.{login_stuck, login_to_server}
use tcp_chat_server_c.Client.Login.Ends.{login_to_server-Ends}
use tcp_chat_server_c.Examples.Worlds.{open_net}

abbrev a_file : FileInfo
a_file = record {
  exists = true;
  readable = true;
  stat = some (record { is_regular = true; size = 2 });
}

abbrev pub all_good : FileSystem
all_good = λ name. a_file

-- "/join hall", a line that is no command, and the end of the input.
abbrev typed : Bytes
typed = b'/' ∷ b'j' ∷ b'o' ∷ b'i' ∷ b'n' ∷ b' ' ∷ b'h' ∷ b'\n' ∷ b'h' ∷ b'i' ∷ b'\n' ∷ []

abbrev pub talking : Bytes → Bytes → Session
talking stdin stream = record {
  client_socket = pos 4;
  client_running = true;
  stdin = stdin;
  net = open_net stream;
}

abbrev three_waits : List (Bool × InputWake)
three_waits = (false, input_ready) ∷ (false, input_ready) ∷ (true, no_input) ∷ []

process_user_input-SendsLines_example :
    SendsLines all_good
      (talking typed [])
      (session_of (process_user_input all_good (talking typed []) three_waits))
process_user_input-SendsLines_example =
    process_user_input-SendsLines all_good three_waits (talking typed [])

-- The command has been sent, and the loop has ended.
process_user_input_run :
    process_user_input all_good (talking typed []) three_waits
    ≡ stops (record (talking [] []) {
      client_running = false;
      net =
          (send_message
            (open_net [])
            (pos 4)
            (b'/' ∷ b'j' ∷ b'o' ∷ b'i' ∷ b'n' ∷ b' ' ∷ b'h' ∷ [])).1;
    })
unfolding process_user_input input_turn fgets take_line chomp cstr starts_with codes
    validate_command extract_command_args extract_loop strtok skip until after is_blank truncate
    check_args eq_bytes check_join
process_user_input_run = refl

login_to_server-Ends_example : (login_to_server none (talking typed [])).0 ≢ login_stuck
login_to_server-Ends_example = login_to_server-Ends none (talking typed [])

abbrev sendfile_line : Bytes
sendfile_line =
    b's' ∷ b'e' ∷ b'n' ∷ b'd' ∷ b'f' ∷ b'i' ∷ b'l' ∷ b'e' ∷ b' ' ∷ b'a' ∷ b' ' ∷ b'b' ∷ b'o' ∷ b'b'
    ∷ []

length-extract_command_args_example :
    length (extract_command_args sendfile_line 10) ≡ min 10 (count_command_args sendfile_line)
length-extract_command_args_example = length-extract_command_args sendfile_line 10 (omega arith)

abbrev slash : ℕ
slash = b'/'

validate_command_iff_example : (validate_command all_good (slash ∷ sendfile_line) ≡ valid) ↔ (
    (slash ≡ slash)
    × (args : List Bytes) × Words 10 (take 1023 sendfile_line) args
    × Accepts all_good (slash ∷ sendfile_line) args)
validate_command_iff_example = validate_command_iff all_good slash sendfile_line

-- A port on the two command lines.
abbrev port_text : Bytes
port_text = b'8' ∷ b'0' ∷ []

parse_args-ReadsPort_example : ReadsPort (λ s. pos 80) [] [] 80
parse_args-ReadsPort_example = parse_args-ReadsPort (λ s. pos 80) [] [] 80 (omega arith)

parse_server_args_run :
    parse_server_args (λ s. pos 80) ([] ∷ port_text ∷ []) ≡ some (record { port = pos 80 })
unfolding parse_server_args atoi fits_int atol skip is_space signed_value digits_value is_digit
    bad_port
parse_server_args_run = refl
