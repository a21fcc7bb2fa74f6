-- ===== src/Client/Commands.antt =====
-- client/client_helper.c, the check of a command line before it is sent. The files are a parameter:
-- what `access` and `stat` say of a name, taken not to change within one check.
pub mod Words
pub mod Split
pub mod Grammar
pub mod Accepts
use mathlib.Core.Option
use tcp_chat_server_c.Base.{
  Bool, List, Option, [], drop, false, if◌then◌else◌, length, ltb, map, none, not, some, suc, zero,
  ℕ, ◌+◌, ◌==◌, ◌||◌, ◌∷◌,
}
use tcp_chat_server_c.CString.{
  Bytes, codes, eq_bytes, is_blank, is_empty, skip, strstr, strtok, truncate,
}
use tcp_chat_server_c.FileQueue.{max_file_size}

-- `command_result_t`.
pub data CommandResult : Type 0 where
  valid invalid_format missing_args too_many_args invalid_command empty_message : CommandResult

pub record Stat : Type 0 where
  pub is_regular : Bool
  pub size : ℕ

-- `access(name, F_OK)`, `access(name, R_OK)` and `stat(name)`, each with whether it succeeds.
pub record FileInfo : Type 0 where
  pub exists : Bool
  pub readable : Bool
  pub stat : Option Stat

abbrev pub FileSystem : Type 0
FileSystem = Bytes → FileInfo

-- `while (token != NULL && arg_count < max_args) { ... }`
unfoldable pub extract_loop : ℕ → Bytes → List Bytes
extract_loop zero s = []
extract_loop (suc n) s = elim (strtok is_blank s) [
  | none ↦ []
  | some (token, rest) ↦ truncate 256 token ∷ extract_loop n rest
]

-- The arguments; their number is the length of the list.
unfoldable pub extract_command_args : Bytes → ℕ → List Bytes
extract_command_args command max_args = extract_loop max_args (truncate 1024 command)

-- `for (ptr = command; *ptr != '\0'; ptr++) { ... }`
unfoldable pub count_words : Bool → ℕ → Bytes → ℕ
count_words in_word count [] = count
count_words in_word count (c ∷ s) =
    count_words (not (is_blank c)) (if is_blank c || in_word then count else count + 1) s

unfoldable pub count_command_args : Bytes → ℕ
unfolding count_words
count_command_args command = if is_empty command then 0 else count_words false 0 command

is_regular_file : Option Stat → Bool
is_regular_file none = false
is_regular_file (some st) = st.is_regular

unfoldable pub validate_local_file : FileSystem → Bytes → Bool
unfolding is_regular_file
validate_local_file fs filename =
    if is_empty filename
    then false
    else if not (fs filename).exists
    then false
    else if not (fs filename).readable
    then false
    else is_regular_file (fs filename).stat

unfoldable pub get_file_size : FileSystem → Bytes → Option ℕ
get_file_size fs filename = Option.map (λ (st : Stat). st.size) (fs filename).stat

-- `args[i]`, which is read only where it has been filled.
abbrev pub arg : List Bytes → ℕ → Bytes
arg [] i = []
arg (a ∷ as') zero = a
arg (a ∷ as') (suc i) = arg as' i

unfoldable pub check_alone : List Bytes → CommandResult
check_alone args = if length args == 1 then valid else too_many_args

unfoldable pub check_join : List Bytes → CommandResult
check_join args =
    if ltb (length args) 2
    then missing_args
    else if ltb 2 (length args)
    then too_many_args
    else if is_empty (arg args 1)
    then empty_message
    else valid

-- The text after the keyword, where it is found.
pub check_text : ℕ → Option Bytes → CommandResult
check_text skipped none = valid
check_text skipped (some found) = if is_empty (drop skipped found) then empty_message else valid

unfoldable pub check_broadcast : Bytes → List Bytes → CommandResult
unfolding check_text
check_broadcast command args =
    if ltb (length args) 2
    then missing_args
    else check_text 10 (strstr command (codes "broadcast "))

-- The text after the username, where it is found.
pub check_message : ℕ → Option Bytes → CommandResult
check_message skipped none = valid
check_message skipped (some found) =
    if is_empty (skip is_blank (drop skipped found)) then empty_message else valid

unfoldable pub check_whisper : Bytes → List Bytes → CommandResult
unfolding check_message
check_whisper command args =
    if ltb (length args) 3
    then missing_args
    else if is_empty (arg args 1)
    then empty_message
    else check_message (length (arg args 1)) (strstr command (arg args 1))

check_size : Option ℕ → CommandResult
check_size none = invalid_command
check_size (some size) = if ltb max_file_size size then invalid_command else valid

unfoldable pub check_sendfile : FileSystem → List Bytes → CommandResult
unfolding check_size
check_sendfile fs args =
    if ltb (length args) 3
    then missing_args
    else if ltb 3 (length args)
    then too_many_args
    else if is_empty (arg args 1)
    then empty_message
    else if is_empty (arg args 2)
    then empty_message
    else if not (validate_local_file fs (arg args 1))
    then invalid_command
    else check_size (get_file_size fs (arg args 1))

unfoldable pub check_args : FileSystem → Bytes → List Bytes → CommandResult
check_args fs command [] = invalid_command
check_args fs command (name ∷ args) =
    if eq_bytes name (codes "exit")
    then check_alone (name ∷ args)
    else if eq_bytes name (codes "help")
    then check_alone (name ∷ args)
    else if eq_bytes name (codes "leave")
    then check_alone (name ∷ args)
    else if eq_bytes name (codes "join")
    then check_join (name ∷ args)
    else if eq_bytes name (codes "broadcast")
    then check_broadcast command (name ∷ args)
    else if eq_bytes name (codes "whisper")
    then check_whisper command (name ∷ args)
    else if eq_bytes name (codes "sendfile")
    then check_sendfile fs (name ∷ args)
    else invalid_command

unfoldable pub validate_command : FileSystem → Bytes → CommandResult
validate_command fs [] = invalid_command
validate_command fs (c ∷ rest) =
    if c == b'/' then check_args fs (c ∷ rest) (extract_command_args rest 10) else invalid_format
