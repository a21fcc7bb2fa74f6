-- ===== src/CString/Words.antt =====
-- The tokens of a text.
use tcp_chat_server_c.Base.{
  Bool, Bool-cases, [], ap, ap₂, arith, false, inl, inr, length, none, not, refl, some, true, ℕ,
  ◌&&◌, ◌++◌, ◌<◌, ◌==◌, ◌∷◌, ◌≡◌, ◌≤◌, ◌⊎◌,
}
use tcp_chat_server_c.CString.{Bytes, after, cstr, first_token, skip, strtok, until}
use tcp_chat_server_c.Search.{All}

-- What `skip` leaves begins with a byte that it does not skip.
pub skip_cases :
    (p : ℕ → Bool) (s : Bytes)
    → (skip p s ≡ []) ⊎ ((c : ℕ) × (r : Bytes) × (skip p s ≡ c ∷ r) × (p c ≡ false))
unfolding skip
skip_cases p [] = inl refl
skip_cases p (c ∷ s) = elim (Bool-cases (p c)) [
  | inl blank ↦ rw blank (skip_cases p s)
  | inr solid ↦ rw solid (inr (c, s, refl, solid))
]

-- There is no further token, or a token that is not empty.
pub strtok_cases :
    (p : ℕ → Bool) (s : Bytes)
    → ((skip p s ≡ []) × (strtok p s ≡ none))
      ⊎ ((c : ℕ) × (r : Bytes) × (skip p s ≡ c ∷ r)
          × (p c ≡ false)
          × (strtok p s ≡ some (c ∷ until p r, after p r)))
unfolding strtok
strtok_cases p s = elim (skip_cases p s) [
  | inl e ↦ inl (e, rw (e, first_token) refl)
  | inr (c, r, e, solid) ↦ inr (c, r, e, solid, rw (e, first_token, solid) refl)
]

pub length-after : (p : ℕ → Bool) (s : Bytes) → length (after p s) ≤ length s
unfolding after
length-after p [] = omega arith
length-after p (c ∷ s) = ground (arith, length-after p s)

-- The text has no byte that satisfies `p`.
abbrev pub Free : (ℕ → Bool) → Bytes → Type 0
Free p s = All (λ c. p c ≡ false) s

pub until-Free : (p : ℕ → Bool) (s : Bytes) → Free p s → (until p s ≡ s) × (after p s ≡ [])
unfolding until after
until-Free p [] f = (refl, refl)
until-Free p (c ∷ s) (f, fs) = rw f (ap (λ t. c ∷ t) (until-Free p s fs).0, (until-Free p s fs).1)

pub until-append :
    (p : ℕ → Bool) (s : Bytes) (d : ℕ) (t : Bytes)
    → Free p s
    → p d ≡ true
    → (until p (s ++ d ∷ t) ≡ s) × (after p (s ++ d ∷ t) ≡ t)
unfolding until after
until-append p [] d t f e = rw e (refl, refl)
until-append p (c ∷ s) d t (f, fs) e =
    rw f (ap (λ u. c ∷ u) (until-append p s d t fs e).0, (until-append p s d t fs e).1)

-- The token before a delimiter, and the last one.
pub strtok-append :
    (p : ℕ → Bool) (s : Bytes) (d : ℕ) (t : Bytes)
    → 0 < length s
    → Free p s
    → p d ≡ true
    → strtok p (s ++ d ∷ t) ≡ some (s, t)
unfolding strtok skip first_token
strtok-append p [] d t h f e = elim h [ ]
strtok-append p (c ∷ s) d t h f e =
    rw f.0 (
      ap₂ (λ x y. some (x, y)) (until-append p (c ∷ s) d t f e).0
        (until-append p (c ∷ s) d t f e).1)

pub strtok-Free : (p : ℕ → Bool) (s : Bytes) → 0 < length s → Free p s → strtok p s ≡ some (s, [])
unfolding strtok skip first_token
strtok-Free p [] h f = elim h [ ]
strtok-Free p (c ∷ s) h f =
    rw f.0 (ap₂ (λ x y. some (x, y)) (until-Free p (c ∷ s) f).0 (until-Free p (c ∷ s) f).1)

abbrev pub is_nul : ℕ → Bool
is_nul c = c == 0

abbrev all_free : (ℕ → Bool) → Bytes → Bool
all_free p [] = true
all_free p (c ∷ s) = not (p c) && all_free p s

pub tested-Free : (p : ℕ → Bool) (s : Bytes) → all_free p s ≡ true → Free p s
tested-Free p [] h = tt
tested-Free p (c ∷ s) h = (ground arith, tested-Free p s (ground arith))

pub cstr-Free : (s : Bytes) → Free is_nul s → cstr s ≡ s
unfolding cstr
cstr-Free [] f = refl
cstr-Free (c ∷ s) (f, fs) = rw f (ap (λ t. c ∷ t) (cstr-Free s fs))
