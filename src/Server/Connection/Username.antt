-- ===== src/Server/Connection/Username.antt =====
-- `validate_username` against the rule that it checks.
use tcp_chat_server_c.Base.{[], arith, length, refl, true, ℕ, ◌<◌, ◌↔◌, ◌∷◌, ◌≡◌, ◌≤◌, ◌⊎◌}
use tcp_chat_server_c.CString.{Bytes, all_alnum, is_alnum}
use tcp_chat_server_c.Search.{All}
use tcp_chat_server_c.Server.Connection.{validate_username}

pub username_rule :
    (name : Bytes)
    → (validate_username name ≡ true)
      ↔ ((0 < length name) × (length name ≤ 16) × (all_alnum name ≡ true))
unfolding validate_username
username_rule [] = ground arith
username_rule (c ∷ name) = ground arith

-- A byte of '0' to '9', 'A' to 'Z' or 'a' to 'z'.
abbrev pub IsLetterOrDigit : ℕ → Type 0
IsLetterOrDigit c = ((48 ≤ c) × (c ≤ 57)) ⊎ (((65 ≤ c) × (c ≤ 90)) ⊎ ((97 ≤ c) × (c ≤ 122)))

is_alnum_iff : (c : ℕ) → (is_alnum c ≡ true) ↔ IsLetterOrDigit c
unfolding is_alnum
is_alnum_iff c = ground arith

-- The scan reaches every byte.
all_alnum_iff : (s : Bytes) → (all_alnum s ≡ true) ↔ All IsLetterOrDigit s
unfolding all_alnum
all_alnum_iff [] = ((λ h. tt), (λ h. refl))
all_alnum_iff (c ∷ s) = (
  (λ h. ((is_alnum_iff c).0 (ground arith), (all_alnum_iff s).0 (ground arith))),
  (λ (h : IsLetterOrDigit c × All IsLetterOrDigit s).
      rw ((is_alnum_iff c).1 h.0, (all_alnum_iff s).1 h.1) refl),
)

-- `validate_username` takes a name exactly if it has 1 to 16 bytes and every one of them is from
-- '0' to '9' (48 to 57), from 'A' to 'Z' (65 to 90) or from 'a' to 'z' (97 to 122).
pub validate_username_iff :
    (name : Bytes)
    → (validate_username name ≡ true)
      ↔ ((0 < length name) × (length name ≤ 16) × All IsLetterOrDigit name)
validate_username_iff name = (
  (λ h.
      let (some_bytes, short, scanned) = (username_rule name).0 h in
      (some_bytes, short, (all_alnum_iff name).0 scanned)),
  (λ (h : (0 < length name) × (length name ≤ 16) × All IsLetterOrDigit name).
      (username_rule name).1 (h.0, h.1, (all_alnum_iff name).1 h.2)),
)
