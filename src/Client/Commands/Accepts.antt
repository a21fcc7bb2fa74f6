-- ===== src/Client/Commands/Accepts.antt =====
-- `validate_command` against the grammar of the command lines.
use mathlib.Core.Option
use tcp_chat_server_c.Base.{
  ==_iff, Bool, Bool-cases, List, [], ap₂, arith, false, if◌then◌else◌, inl, inr, length, ltb, refl,
  subst, suc, take, true, zero, ℕ, ◌==◌, ◌↔◌, ◌∷◌, ◌≡◌,
}
use tcp_chat_server_c.CString.{Bytes, after, codes, eq_bytes, is_blank, is_empty, truncate}
use tcp_chat_server_c.CString.Laws.{eq_bytes→eq}
use tcp_chat_server_c.Search.{All}
use tcp_chat_server_c.CString.Words.{strtok_cases}
use tcp_chat_server_c.FileQueue.{max_file_size}
use tcp_chat_server_c.Client.Commands.{
  CommandResult, FileSystem, check_alone, check_args, check_broadcast, check_join, check_sendfile,
  check_size, check_whisper, extract_command_args, extract_loop, get_file_size, is_regular_file,
  valid, validate_command, validate_local_file,
}
use tcp_chat_server_c.Client.Commands.Split.{Words, Words-extract_loop, extract_loop-Words}
use tcp_chat_server_c.Client.Commands.Grammar.{
  Accepts, GoodFile, broadcast_line, check_alone-valid, check_broadcast-valid, check_join-valid,
  check_sendfile-valid, check_whisper-valid, exit_line, help_line, join_line, leave_line,
  sendfile_line, text→check_message, text→check_text, whisper_line,
}

if-valid :
    (b : Bool) (x y : CommandResult) {P : Type 0}
    → (b ≡ true → x ≡ valid → P)
    → (y ≡ valid → P)
    → (if b then x else y) ≡ valid
    → P
if-valid true x y yes' no' h = yes' refl h
if-valid false x y yes' no' h = no' h

named :
    (name word : Bytes) (args more' : List Bytes)
    → eq_bytes name word ≡ true
    → args ≡ more'
    → name ∷ args ≡ word ∷ more'
named name word args more' e f = ap₂ (λ a b. a ∷ b) (eq_bytes→eq name word e) f

-- What the check accepts is one of the seven command lines.
check_args-valid :
    (fs : FileSystem) (command : Bytes) (args : List Bytes)
    → check_args fs command args ≡ valid
    → Accepts fs command args
unfolding check_args
check_args-valid fs command [] h = cc
check_args-valid fs command (name ∷ args) h =
    if-valid _ _ _ (λ e h. exit_line (named name _ args _ e (check_alone-valid name args h)))
      (if-valid _ _ _ (λ e h. help_line (named name _ args _ e (check_alone-valid name args h)))
        (if-valid _ _ _ (λ e h. leave_line (named name _ args _ e (check_alone-valid name args h)))
          (if-valid _ _ _
            (λ e h.
              let (room, f) = check_join-valid name args h in
              join_line room (named name _ args _ e f))
            (if-valid _ _ _
              (λ e h.
                let (word, others, f, text) = check_broadcast-valid command name args h in
                broadcast_line word others (named name _ args _ e f) text)
              (if-valid _ _ _
                (λ e h.
                  let (user, word, others, f, text) = check_whisper-valid command name args h in
                  whisper_line user word others (named name _ args _ e f) text)
                (if-valid _ _ _
                  (λ e h.
                    let (filename, user, f, good) = check_sendfile-valid fs name args h in
                    sendfile_line filename user (named name _ args _ e f) good)
                  (λ h. absurd (cc h))))))))
      h

check_file-accepts :
    (fs : FileSystem) (filename : Bytes)
    → is_empty filename ≡ false
    → GoodFile fs filename
    → (validate_local_file fs filename ≡ true) × (check_size (get_file_size fs filename) ≡ valid)
unfolding validate_local_file get_file_size check_size is_regular_file
check_file-accepts fs filename solid g =
    let fits : ltb max_file_size g.info.size ≡ false = ground (arith, g.small) in
    (rw (solid, g.there, g.readable, g.stat) g.regular, rw (g.stat, Option.map, fits) refl)

-- Every one of those lines is accepted.
check_args-accepts :
    (fs : FileSystem) (command : Bytes) (args : List Bytes)
    → All (λ (t : Bytes). is_empty t ≡ false) args
    → Accepts fs command args
    → check_args fs command args ≡ valid
unfolding check_args check_alone check_join check_broadcast check_whisper check_sendfile eq_bytes
    codes
check_args-accepts fs command args solid (exit_line e) = rw e (refl)
check_args-accepts fs command args solid (help_line e) = rw e (refl)
check_args-accepts fs command args solid (leave_line e) = rw e (refl)
check_args-accepts fs command args solid (join_line room e) =
    let s = subst (All (λ (t : Bytes). is_empty t ≡ false)) e solid in rw e (rw s.1.0 (refl))
check_args-accepts fs command args solid (broadcast_line word others e text) =
    let enough : ltb (suc (suc (length others))) 2 ≡ false = ground arith in
    rw e (rw enough (text→check_text command text))
check_args-accepts fs command args solid (whisper_line user word others e text) =
    let s = subst (All (λ (t : Bytes). is_empty t ≡ false)) e solid in
    let enough : ltb (suc (suc (suc (length others)))) 3 ≡ false = ground arith in
    rw e (rw (enough, s.1.0) (text→check_message command user text))
check_args-accepts fs command args solid (sendfile_line filename user e good) =
    let s = subst (All (λ (t : Bytes). is_empty t ≡ false)) e solid in
    let (local, size) = check_file-accepts fs filename s.1.0 good in
    rw e (rw (s.1.0, s.1.1.0, local, size) refl)

tokens_solid : (n : ℕ) (s : Bytes) → All (λ (t : Bytes). is_empty t ≡ false) (extract_loop n s)
unfolding extract_loop truncate
tokens_solid zero s = tt
tokens_solid (suc n) s = elim (strtok_cases is_blank s) [
  | inl (nothing, e) ↦ rw (e, extract_loop) tt
  | inr (c, r, found, solid, e) ↦ rw (e, extract_loop) (refl, tokens_solid n (after is_blank r))
]

-- `validate_command` accepts a line exactly if it begins with `/` and the words after it, the first
-- ten in its next 1023 bytes, each cut to 255, are one of: `exit`, `help` or `leave` alone; `join`
-- and one word; `broadcast` and at least one word, where some byte follows the first "broadcast " in
-- the line, if there is one; `whisper`, a username and at least one word, where a byte that is not
-- blank follows the first occurrence of the username in the line, if there is one; `sendfile`, a
-- filename and one word, where the file exists, can be read, is regular and is within the limit.
-- Words are separated by spaces and tabs.
pub validate_command_iff :
    (fs : FileSystem) (c : ℕ) (rest : Bytes)
    → (validate_command fs (c ∷ rest) ≡ valid) ↔ (
        (c ≡ b'/')
        × (args : List Bytes) × Words 10 (take 1023 rest) args
        × Accepts fs (c ∷ rest) args)
unfolding validate_command extract_command_args truncate
validate_command_iff fs c rest = elim (Bool-cases (c == b'/')) [
  | inl slash ↦
      let e : c ≡ b'/' = (==_iff c b'/').0 slash in
      rw slash (
        (λ h. (
          e,
          extract_loop 10 (take 1023 rest),
          extract_loop-Words 10 (take 1023 rest),
          check_args-valid fs (c ∷ rest) (extract_loop 10 (take 1023 rest)) h,
        )),
        (λ h.
            let (_, args, words, a) = h in
            check_args-accepts fs (c ∷ rest) (extract_loop 10 (take 1023 rest))
              (tokens_solid 10 (take 1023 rest))
              (subst (Accepts fs (c ∷ rest)) (Words-extract_loop 10 (take 1023 rest) args words)
                a)),
      )
  | inr other ↦ rw other ((λ h. absurd (cc h)), (λ h. absurd (cc (other, (==_iff c b'/').1 h.0))))
]
