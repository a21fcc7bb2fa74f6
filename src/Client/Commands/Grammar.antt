-- ===== src/Client/Commands/Grammar.antt =====
-- The grammar of the command lines, and the checks of the single commands against it.
use mathlib.Core.Option
use tcp_chat_server_c.Base.{
  Bool-cases, List, Option, Option-cases, [], ap, arith, drop, drop-append, false, inl, inr, length,
  none, refl, some, true, ◌++◌, ◌<◌, ◌∙◌, ◌∷◌, ◌≡◌, ◌≤◌, ◌⊎◌,
}
use tcp_chat_server_c.CString.{Bytes, codes, is_blank, is_empty, skip, strstr}
use tcp_chat_server_c.Search.{All}
use tcp_chat_server_c.FileQueue.{max_file_size}
use tcp_chat_server_c.Client.Commands.{
  FileSystem, Stat, check_alone, check_broadcast, check_join, check_message, check_sendfile,
  check_size, check_text, check_whisper, get_file_size, is_regular_file, valid, validate_local_file,
}
use tcp_chat_server_c.Client.Commands.Split.{IsBlank, skip-solid, strstr-parts}

-- The file exists, can be read, is regular and within the limit.
pub record GoodFile (fs : FileSystem) (filename : Bytes) : Type 0 where
  pub there : (fs filename).exists ≡ true
  pub readable : (fs filename).readable ≡ true
  pub info : Stat
  pub stat : (fs filename).stat ≡ some info
  pub regular : info.is_regular ≡ true
  pub small : info.size ≤ max_file_size

-- Where the line holds "broadcast ", some byte follows its first occurrence.
abbrev pub BroadcastText : Bytes → Type 0
BroadcastText command =
    (strstr command (codes "broadcast ") ≡ none)
    ⊎ ((text : Bytes) × (0 < length text)
        × (strstr command (codes "broadcast ") ≡ some (codes "broadcast " ++ text)))

-- Where the line holds the username, a byte other than a space or a tab follows its first
-- occurrence.
abbrev pub WhisperText : Bytes → Bytes → Type 0
WhisperText command user =
    (strstr command user ≡ none)
    ⊎ ((text : Bytes) × (¬ All IsBlank text) × (strstr command user ≡ some (user ++ text)))

-- The seven command lines, by the words behind the slash.
pub data Accepts (fs : FileSystem) (command : Bytes) (args : List Bytes) : Type 0 where
  exit_line : args ≡ codes "exit" ∷ [] → Accepts fs command args
  help_line : args ≡ codes "help" ∷ [] → Accepts fs command args
  leave_line : args ≡ codes "leave" ∷ [] → Accepts fs command args
  join_line : (room : Bytes) → args ≡ codes "join" ∷ room ∷ [] → Accepts fs command args
  broadcast_line :
      (word : Bytes) (others : List Bytes)
      → args ≡ codes "broadcast" ∷ word ∷ others
      → BroadcastText command
      → Accepts fs command args
  whisper_line :
      (user word : Bytes) (others : List Bytes)
      → args ≡ codes "whisper" ∷ user ∷ word ∷ others
      → WhisperText command user
      → Accepts fs command args
  sendfile_line :
      (filename user : Bytes)
      → args ≡ codes "sendfile" ∷ filename ∷ user ∷ []
      → GoodFile fs filename
      → Accepts fs command args

check_text→text :
    (command : Bytes)
    → check_text 10 (strstr command (codes "broadcast ")) ≡ valid
    → BroadcastText command
unfolding check_text codes
check_text→text command h = elim (Option-cases (strstr command (codes "broadcast "))) [
  | inl e ↦ inl e
  | inr (found, e) ↦ elim (Bool-cases (is_empty (drop 10 found))) [
    | inl nothing ↦ absurd (cc (rw (e, check_text, nothing) at h))
    | inr some_text ↦ inr (
      drop 10 found,
      full (drop 10 found) some_text,
      e ∙ ap some (strstr-parts command (codes "broadcast ") found e),
    )
  ]
]
  where
    full : (s : Bytes) → is_empty s ≡ false → 0 < length s
    full [] e = absurd (cc e)
    full (c ∷ s) e = omega arith

pub text→check_text :
    (command : Bytes)
    → BroadcastText command
    → check_text 10 (strstr command (codes "broadcast ")) ≡ valid
unfolding check_text codes
text→check_text command (inl e) = rw (e, check_text) refl
text→check_text command (inr ([], h, e)) = elim h [ ]
text→check_text command (inr (c ∷ text, h, e)) = rw (e, check_text) refl

check_message→text :
    (command user : Bytes)
    → check_message (length user) (strstr command user) ≡ valid
    → WhisperText command user
unfolding check_message
check_message→text command user h = elim (Option-cases (strstr command user)) [
  | inl e ↦ inl e
  | inr (found, e) ↦ elim (Bool-cases (is_empty (skip is_blank (drop (length user) found)))) [
    | inl nothing ↦ absurd (cc (rw (e, check_message, nothing) at h))
    | inr some_text ↦ inr (
      drop (length user) found,
      (skip-solid (drop (length user) found)).1 some_text,
      e ∙ ap some (strstr-parts command user found e),
    )
  ]
]

pub text→check_message :
    (command user : Bytes)
    → WhisperText command user
    → check_message (length user) (strstr command user) ≡ valid
unfolding check_message
text→check_message command user (inl e) = rw (e, check_message) refl
text→check_message command user (inr (text, h, e)) =
    rw (e, check_message, drop-append user text, (skip-solid text).0 h) refl

pub check_alone-valid :
    (name : Bytes) (args : List Bytes) → check_alone (name ∷ args) ≡ valid → args ≡ []
unfolding check_alone
check_alone-valid name [] h = refl
check_alone-valid name (a ∷ args) h = ground arith

pub check_join-valid :
    (name : Bytes) (args : List Bytes)
    → check_join (name ∷ args) ≡ valid
    → (room : Bytes) × (args ≡ room ∷ [])
unfolding check_join
check_join-valid name [] h = ground arith
check_join-valid name (room ∷ []) h = (room, refl)
check_join-valid name (room ∷ a ∷ args) h = ground arith

pub check_broadcast-valid :
    (command name : Bytes) (args : List Bytes)
    → check_broadcast command (name ∷ args) ≡ valid
    → (word : Bytes) × (others : List Bytes) × (args ≡ word ∷ others) × BroadcastText command
unfolding check_broadcast
check_broadcast-valid command name [] h = ground arith
check_broadcast-valid command name (word ∷ others) h =
    (word, others, refl, check_text→text command (ground arith))

pub check_whisper-valid :
    (command name : Bytes) (args : List Bytes)
    → check_whisper command (name ∷ args) ≡ valid
    → (user word : Bytes) × (others : List Bytes) × (args ≡ user ∷ word ∷ others)
      × WhisperText command user
unfolding check_whisper
check_whisper-valid command name [] h = ground arith
check_whisper-valid command name (user ∷ []) h = ground arith
check_whisper-valid command name (user ∷ word ∷ others) h =
    (user, word, others, refl, check_message→text command user (ground arith))

check_size_cases :
    (o : Option Stat)
    → check_size (Option.map (λ (st : Stat). st.size) o) ≡ valid
    → (st : Stat) × (o ≡ some st) × (st.size ≤ max_file_size)
unfolding check_size
check_size_cases none h = cc
check_size_cases (some st) h = (st, refl, ground arith)

is_regular_file_cases :
    (o : Option Stat) (st : Stat) → o ≡ some st → is_regular_file o ≡ true → st.is_regular ≡ true
unfolding is_regular_file
is_regular_file_cases none st e h = cc
is_regular_file_cases (some st') st e h = ground arith

validate_local_file_cases :
    (fs : FileSystem) (filename : Bytes)
    → validate_local_file fs filename ≡ true
    → ((fs filename).exists ≡ true)
      × ((fs filename).readable ≡ true)
      × (is_regular_file (fs filename).stat ≡ true)
unfolding validate_local_file
validate_local_file_cases fs [] h = cc
validate_local_file_cases fs (c ∷ s) h = (ground arith, ground arith, ground arith)

check_file-valid :
    (fs : FileSystem) (filename : Bytes)
    → validate_local_file fs filename ≡ true
    → check_size (get_file_size fs filename) ≡ valid
    → GoodFile fs filename
unfolding get_file_size
check_file-valid fs filename v h =
    let (there, readable, regular) = validate_local_file_cases fs filename v in
    let (st, e, small) = check_size_cases (fs filename).stat h in
    record {
      there = there;
      readable = readable;
      info = st;
      stat = e;
      regular = is_regular_file_cases (fs filename).stat st e regular;
      small = small;
    }

pub check_sendfile-valid :
    (fs : FileSystem) (name : Bytes) (args : List Bytes)
    → check_sendfile fs (name ∷ args) ≡ valid
    → (filename user : Bytes) × (args ≡ filename ∷ user ∷ []) × GoodFile fs filename
unfolding check_sendfile
check_sendfile-valid fs name [] h = ground arith
check_sendfile-valid fs name (filename ∷ []) h = ground arith
check_sendfile-valid fs name (filename ∷ user ∷ a ∷ args) h = ground arith
check_sendfile-valid fs name (filename ∷ user ∷ []) h =
    (filename, user, refl, check_file-valid fs filename (ground arith) (ground arith))
