-- ===== src/Server/Connection/Directory.antt =====
-- What `handle_client_login` of server/server_helper.c leaves of the path that a client sends.
use tcp_chat_server_c.Base.{
  Bool, Bool-cases, [], ap, append_assoc, arith, false, inl, inr, refl, sym, true, ℕ, ◌++◌, ◌↔◌,
  ◌∙◌, ◌∷◌, ◌≡◌, ◌⊎◌,
}
use tcp_chat_server_c.CString.{Bytes, cut_end, is_blank_or_newline, keep, trim_end}
use tcp_chat_server_c.Search.{All}
use tcp_chat_server_c.CString.Words.{Free, cstr-Free, is_nul}
use tcp_chat_server_c.Server.Connection.{clean_login}

-- The bytes that the loop over the end of the path cuts off.
abbrev pub IsBlankByte : ℕ → Type 0
IsBlankByte c = (c ≡ 32) ⊎ ((c ≡ 9) ⊎ (c ≡ 10))

-- Not empty, and the last byte is none of them.
pub record EndsSolid (s : Bytes) : Type 0 where
  pub start : Bytes
  pub last_byte : ℕ
  pub parts : s ≡ start ++ last_byte ∷ []
  pub solid : ¬ IsBlankByte last_byte

is_blank_or_newline_iff : (c : ℕ) → (is_blank_or_newline c ≡ true) ↔ IsBlankByte c
unfolding is_blank_or_newline
is_blank_or_newline_iff c = ground arith

solid_byte : (c : ℕ) → ¬ IsBlankByte c → is_blank_or_newline c ≡ false
solid_byte c h = elim (Bool-cases (is_blank_or_newline c)) [
  | inl blank ↦ absurd (h ((is_blank_or_newline_iff c).0 blank))
  | inr e ↦ e
]

cut_end-blanks : (blanks : Bytes) → All IsBlankByte blanks → cut_end is_blank_or_newline blanks ≡ []
unfolding cut_end keep
cut_end-blanks [] b = refl
cut_end-blanks (c ∷ s) (b, bs) =
    rw (cut_end-blanks s bs, keep, (is_blank_or_newline_iff c).1 b) refl

keep-append :
    (p : ℕ → Bool) (d : ℕ) (s : Bytes) (c : ℕ) → keep p d (s ++ c ∷ []) ≡ d ∷ (s ++ c ∷ [])
unfolding keep
keep-append p d [] c = refl
keep-append p d (x ∷ s) c = refl

module _ (c : ℕ) (blanks : Bytes) (sound : is_blank_or_newline c ≡ false)
    (b : All IsBlankByte blanks) where
  cut_end-append : (s : Bytes) → cut_end is_blank_or_newline (s ++ c ∷ blanks) ≡ s ++ c ∷ []
  unfolding cut_end keep
  cut_end-append [] = rw (cut_end-blanks blanks b, keep, sound) refl
  cut_end-append (d ∷ s) =
      ap (keep is_blank_or_newline d) (cut_end-append s) ∙ keep-append is_blank_or_newline d s c

  trim_end-append : (s : Bytes) → trim_end is_blank_or_newline (s ++ c ∷ blanks) ≡ s ++ c ∷ []
  unfolding trim_end
  trim_end-append [] = ap (λ t. c ∷ t) (cut_end-blanks blanks b)
  trim_end-append (d ∷ s) = ap (λ t. d ∷ t) (cut_end-append s)

-- The blanks at the end are cut, and no other byte.
pub clean_login-blanks :
    (dir blanks : Bytes)
    → EndsSolid dir
    → All IsBlankByte blanks
    → Free is_nul (dir ++ blanks)
    → clean_login (dir ++ blanks) ≡ dir
unfolding clean_login
clean_login-blanks dir blanks e b f =
    ap (trim_end is_blank_or_newline) (
      cstr-Free (dir ++ blanks) f
      ∙ ap (λ t. t ++ blanks) e.parts
      ∙ append_assoc e.start (e.last_byte ∷ []) blanks)
    ∙ trim_end-append e.last_byte blanks (solid_byte e.last_byte e.solid) b e.start
    ∙ sym e.parts
