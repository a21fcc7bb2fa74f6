-- ===== src/Client/Commands/Split.antt =====
-- The words of a command line, described without the scanner, and that `extract_command_args` of
-- client/client_helper.c finds them.
use tcp_chat_server_c.Base.{
  ==_iff, Bool-cases, List, [], ap, append-nil, ap₂, arith, drop, false, inl, inr, length, none,
  refl, some, some_inj, suc, sym, take, true, zero, ℕ, ◌++◌, ◌<◌, ◌↔◌, ◌∙◌, ◌∷◌, ◌≡◌, ◌⊎◌,
}
use tcp_chat_server_c.CString.{
  Bytes, after, is_blank, is_empty, skip, starts_with, strstr, strtok, truncate, until,
}
use tcp_chat_server_c.Search.{All}
use tcp_chat_server_c.Search.Laws.{All-map}
use tcp_chat_server_c.CString.Words.{strtok-Free, strtok-append, strtok_cases}
use tcp_chat_server_c.Client.Commands.{extract_loop}

-- A space or a tab.
abbrev pub IsBlank : ℕ → Type 0
IsBlank c = (c ≡ 32) ⊎ (c ≡ 9)

-- One or more bytes, none of them blank.
abbrev pub IsWord : Bytes → Type 0
IsWord w = (0 < length w) × All (λ c. ¬ IsBlank c) w

abbrev pub StartsBlank : Bytes → Type 0
StartsBlank [] = Unit
StartsBlank (c ∷ s) = IsBlank c

-- The first `n` words of the text, each cut to 255 bytes: the text is blank, or it is blanks, a word
-- that ends with the text or at a blank, and what follows that blank.
abbrev pub Words : ℕ → Bytes → List Bytes → Type 0
Words zero s ws = ws ≡ []
Words (suc n) s ws =
    (All IsBlank s × (ws ≡ []))
    ⊎ ((blanks w tail : Bytes) × (others : List Bytes) × (s ≡ blanks ++ (w ++ tail))
        × All IsBlank blanks
        × IsWord w
        × StartsBlank tail
        × (ws ≡ take 255 w ∷ others)
        × Words n (drop 1 tail) others)

is_blank_iff : (c : ℕ) → (is_blank c ≡ true) ↔ IsBlank c
unfolding is_blank
is_blank_iff c = ground arith

solid : (c : ℕ) → ¬ IsBlank c → is_blank c ≡ false
solid c h = elim (Bool-cases (is_blank c)) [ inl b ↦ absurd (h ((is_blank_iff c).0 b)) | inr e ↦ e ]

pub not-IsBlank : (c : ℕ) → is_blank c ≡ false → ¬ IsBlank c
not-IsBlank c e b = absurd (cc (e, (is_blank_iff c).1 b))

pub skip-blanks :
    (blanks s : Bytes) → All IsBlank blanks → skip is_blank (blanks ++ s) ≡ skip is_blank s
unfolding skip
skip-blanks [] s b = refl
skip-blanks (c ∷ blanks) s (b, bs) = rw ((is_blank_iff c).1 b) (skip-blanks blanks s bs)

-- What `skip` passes over, and what it stops at.
pub skip_parts :
    (s : Bytes)
    → (All IsBlank s × (skip is_blank s ≡ []))
      ⊎ ((blanks : Bytes) × (c : ℕ) × (r : Bytes) × (s ≡ blanks ++ c ∷ r)
          × All IsBlank blanks
          × (is_blank c ≡ false)
          × (skip is_blank s ≡ c ∷ r))
unfolding skip
skip_parts [] = inl (tt, refl)
skip_parts (c ∷ s) = elim (Bool-cases (is_blank c)) [
  | inr e ↦ inr ([], c, s, refl, tt, e, rw e refl)
  | inl b ↦ elim (skip_parts s) [
    | inl (all_blank, e) ↦ inl (((is_blank_iff c).0 b, all_blank), rw b e)
    | inr (blanks, d, r, e, all_blank, f, g) ↦
        inr (c ∷ blanks, d, r, ap (λ t. c ∷ t) e, ((is_blank_iff c).0 b, all_blank), f, rw b g)
  ]
]

-- The two parts of a text at its first blank.
until_parts :
    (s : Bytes)
    → (tail : Bytes) × (s ≡ until is_blank s ++ tail)
      × All (λ c. ¬ IsBlank c) (until is_blank s)
      × StartsBlank tail
      × (after is_blank s ≡ drop 1 tail)
unfolding until after
until_parts [] = ([], refl, tt, tt, refl)
until_parts (c ∷ s) = elim (Bool-cases (is_blank c)) [
  | inl b ↦ rw b (c ∷ s, refl, tt, (is_blank_iff c).0 b, refl)
  | inr e ↦
      let (tail, split, free, starts, rest) = until_parts s in
      rw e (tail, ap (λ t. c ∷ t) split, (not-IsBlank c e, free), starts, rest)
]

strtok-word :
    (w tail : Bytes)
    → IsWord w
    → StartsBlank tail
    → strtok is_blank (w ++ tail) ≡ some (w, drop 1 tail)
strtok-word w [] (some_bytes, f) starts =
    ap (strtok is_blank) (append-nil w)
    ∙ strtok-Free is_blank w some_bytes
        (All-map (λ c. ¬ IsBlank c) (λ c. is_blank c ≡ false) solid w f)
strtok-word w (d ∷ tail) (some_bytes, f) starts =
    strtok-append is_blank w d tail some_bytes
      (All-map (λ c. ¬ IsBlank c) (λ c. is_blank c ≡ false) solid w f) ((is_blank_iff d).1 starts)

strtok-blanks :
    (blanks s : Bytes) → All IsBlank blanks → strtok is_blank (blanks ++ s) ≡ strtok is_blank s
unfolding strtok
strtok-blanks blanks s b = rw (skip-blanks blanks s b) refl

skip-blank : (s : Bytes) → All IsBlank s → skip is_blank s ≡ []
unfolding skip
skip-blank [] b = refl
skip-blank (c ∷ s) (b, bs) = rw ((is_blank_iff c).1 b) (skip-blank s bs)

strtok-none : (s : Bytes) → All IsBlank s → strtok is_blank s ≡ none
strtok-none s b = elim (strtok_cases is_blank s) [
  | inl (nothing, e) ↦ e
  | inr (c, r, e, f, g) ↦ absurd (cc (e, skip-blank s b))
]

-- A text has one list of words: that of `extract_command_args`.
pub Words-extract_loop :
    (n : ℕ) (s : Bytes) (ws : List Bytes) → Words n s ws → ws ≡ extract_loop n s
unfolding extract_loop truncate
Words-extract_loop zero s ws e = e
Words-extract_loop (suc n) s ws (inl (b, e)) = rw (strtok-none s b, extract_loop) e
Words-extract_loop (suc n) s ws (inr (blanks, w, tail, others, split, b, word, starts, e, rest)) =
    let found : strtok is_blank s ≡ some (w, drop 1 tail) =
      ap (strtok is_blank) split
      ∙ strtok-blanks blanks (w ++ tail) b
      ∙ strtok-word w tail word starts in
    rw (found, extract_loop)
      (e ∙ ap (λ t. take 255 w ∷ t) (Words-extract_loop n (drop 1 tail) others rest))

-- What the scan finds are the words.
pub extract_loop-Words : (n : ℕ) (s : Bytes) → Words n s (extract_loop n s)
unfolding extract_loop truncate
extract_loop-Words zero s = refl
extract_loop-Words (suc n) s = elim (skip_parts s) [
  | inl (all_blank, e) ↦ rw (strtok-none s all_blank, extract_loop) (inl (all_blank, refl))
  | inr (blanks, c, r, split, all_blank, e, g) ↦
      let (tail, parts, free, starts, rest) = until_parts r in
      let word : IsWord (c ∷ until is_blank r) = (omega arith, (not-IsBlank c e, free)) in
      let whole : s ≡ blanks ++ (c ∷ until is_blank r ++ tail) =
        split ∙ ap (λ t. blanks ++ c ∷ t) parts in
      let found : strtok is_blank s ≡ some (c ∷ until is_blank r, drop 1 tail) =
        ap (strtok is_blank) whole
        ∙ strtok-blanks blanks (c ∷ until is_blank r ++ tail) all_blank
        ∙ strtok-word (c ∷ until is_blank r) tail word starts in
      rw (found, extract_loop)
        (inr (
          blanks,
          c ∷ until is_blank r,
          tail,
          extract_loop n (drop 1 tail),
          whole,
          all_blank,
          word,
          starts,
          refl,
          extract_loop-Words n (drop 1 tail),
        ))
]

starts_with-parts :
    (needle s : Bytes) → starts_with needle s ≡ true → s ≡ needle ++ drop (length needle) s
unfolding starts_with
starts_with-parts [] s h = refl
starts_with-parts (p ∷ ps) [] h = cc
starts_with-parts (p ∷ ps) (c ∷ s) h =
    ap₂ (λ a b. a ∷ b) (sym ((==_iff p c).0 (ground arith))) (starts_with-parts ps s (ground arith))

-- What `strstr` finds begins with what it looks for.
pub strstr-parts :
    (s needle found : Bytes)
    → strstr s needle ≡ some found
    → found ≡ needle ++ drop (length needle) found
unfolding strstr
strstr-parts [] needle found h = elim (Bool-cases (is_empty needle)) [
  | inl e ↦ starts_with-parts needle found (empty_start needle e)
  | inr e ↦ absurd (cc (h, e))
]
  where
    empty_start : (n : Bytes) → is_empty n ≡ true → starts_with n found ≡ true
    empty_start [] e = unfold starts_with in refl
    empty_start (c ∷ n) e = absurd (cc e)
strstr-parts (c ∷ s) needle found h = elim (Bool-cases (starts_with needle (c ∷ s))) [
  | inl e ↦
      let same : c ∷ s ≡ found = some_inj _ _ (rw e at h) in
      starts_with-parts needle found (ap (starts_with needle) (sym same) ∙ e)
  | inr e ↦ strstr-parts s needle found (rw e at h)
]

pub drop-append : (a b : Bytes) → drop (length a) (a ++ b) ≡ b
drop-append [] b = refl
drop-append (c ∷ a) b = drop-append a b

-- There is a byte that is not blank, and `skip` stops at the first one.
pub skip-solid : (s : Bytes) → (¬ All IsBlank s) ↔ (is_empty (skip is_blank s) ≡ false)
skip-solid s = (
  (λ h. elim (skip_parts s) [
    | inl (b, e) ↦ absurd (h b)
    | inr (blanks, c, r, split, b, f, g) ↦ rw g refl
  ]),
  (λ e b. absurd (cc (e, skip-blank s b))),
)
