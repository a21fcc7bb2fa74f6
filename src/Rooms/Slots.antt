-- ===== src/Rooms/Slots.antt =====
-- What clearing and filling a slot does to the array of a room.
use tcp_chat_server_c.Base.{
  Bool-cases, List, Option-cases, [], ap, arith, false, inl, inr, length, none, refl, some, subst,
  suc, true, ℕ, ◌<◌, ◌==◌, ◌∙◌, ◌∷◌, ◌≡◌, ◌≤◌,
}
use tcp_chat_server_c.Rooms.{Slot, occupies, occupy, vacate}

-- The number of slots that are not null.
abbrev pub taken : List Slot → ℕ
taken [] = 0
taken (none ∷ ss) = taken ss
taken (some a ∷ ss) = suc (taken ss)

-- No client sits in two slots.
abbrev pub SeatsOnce : List Slot → Type 0
SeatsOnce [] = Unit
SeatsOnce (none ∷ ss) = SeatsOnce ss
SeatsOnce (some a ∷ ss) = (occupies a ss ≡ false) × SeatsOnce ss

abbrev pub EachSeat : (ℕ → Type 0) → List Slot → Type 0
EachSeat P [] = Unit
EachSeat P (none ∷ ss) = EachSeat P ss
EachSeat P (some a ∷ ss) = P a × EachSeat P ss

pub taken-le-length : (ss : List Slot) → taken ss ≤ length ss
taken-le-length [] = omega arith
taken-le-length (none ∷ ss) = omega (arith, taken-le-length ss)
taken-le-length (some a ∷ ss) = omega (arith, taken-le-length ss)

pub taken-vacate :
    (a : ℕ) (ss : List Slot) → occupies a ss ≡ true → taken ss ≡ suc (taken (vacate a ss))
unfolding occupies vacate
taken-vacate a [] h = cc
taken-vacate a (none ∷ ss) h = ground (arith, taken-vacate a ss)
taken-vacate a (some b ∷ ss) h = ground (arith, taken-vacate a ss)

pub length-vacate : (a : ℕ) (ss : List Slot) → length (vacate a ss) ≡ length ss
unfolding vacate
length-vacate a [] = refl
length-vacate a (s ∷ ss) = ground (arith, length-vacate a ss)

pub occupies_ne-vacate :
    (a b : ℕ) (ss : List Slot) → (a == b) ≡ false → occupies b (vacate a ss) ≡ occupies b ss
unfolding occupies vacate
occupies_ne-vacate a b [] h = refl
occupies_ne-vacate a b (none ∷ ss) h = ground (arith, occupies_ne-vacate a b ss)
occupies_ne-vacate a b (some c ∷ ss) h = ground (arith, occupies_ne-vacate a b ss)

occupies-false-vacate :
    (a b : ℕ) (ss : List Slot) → occupies b ss ≡ false → occupies b (vacate a ss) ≡ false
unfolding occupies vacate
occupies-false-vacate a b [] h = refl
occupies-false-vacate a b (none ∷ ss) h = ground (arith, occupies-false-vacate a b ss)
occupies-false-vacate a b (some c ∷ ss) h = ground (arith, occupies-false-vacate a b ss)

pub occupies-vacate : (a : ℕ) (ss : List Slot) → SeatsOnce ss → occupies a (vacate a ss) ≡ false
unfolding occupies vacate
occupies-vacate a [] d = refl
occupies-vacate a (none ∷ ss) d = ground (arith, occupies-vacate a ss)
occupies-vacate a (some b ∷ ss) d = elim (Bool-cases (b == a)) [
  | inl hit ↦ rw hit (subst (λ t. occupies t ss ≡ false) (ground arith) d.0)
  | inr miss ↦ rw (miss, miss) (occupies-vacate a ss d.1)
]

pub SeatsOnce-vacate : (a : ℕ) (ss : List Slot) → SeatsOnce ss → SeatsOnce (vacate a ss)
unfolding vacate
SeatsOnce-vacate a [] d = tt
SeatsOnce-vacate a (none ∷ ss) d = SeatsOnce-vacate a ss d
SeatsOnce-vacate a (some b ∷ ss) d = elim (Bool-cases (b == a)) [
  | inl hit ↦ rw hit d.1
  | inr miss ↦ rw miss (occupies-false-vacate a b ss d.0, SeatsOnce-vacate a ss d.1)
]

pub EachSeat-vacate :
    (P : ℕ → Type 0) (a : ℕ) (ss : List Slot) → EachSeat P ss → EachSeat P (vacate a ss)
unfolding vacate
EachSeat-vacate P a [] h = tt
EachSeat-vacate P a (none ∷ ss) h = EachSeat-vacate P a ss h
EachSeat-vacate P a (some b ∷ ss) h = elim (Bool-cases (b == a)) [
  | inl hit ↦ rw hit h.1
  | inr miss ↦ rw miss (h.0, EachSeat-vacate P a ss h.1)
]

pub EachSeat-other :
    (P Q : ℕ → Type 0) (b : ℕ)
    → ((a : ℕ) → (a == b) ≡ false → P a → Q a)
    → (ss : List Slot) → occupies b ss ≡ false
    → EachSeat P ss
    → EachSeat Q ss
unfolding occupies
EachSeat-other P Q b f [] o h = tt
EachSeat-other P Q b f (none ∷ ss) o h = EachSeat-other P Q b f ss o h
EachSeat-other P Q b f (some a ∷ ss) o h =
    (f a (ground arith) h.0, EachSeat-other P Q b f ss (ground arith) h.1)

pub EachSeat-at :
    (P : ℕ → Type 0) (a : ℕ) (ss : List Slot) → occupies a ss ≡ true → EachSeat P ss → P a
unfolding occupies
EachSeat-at P a [] o h = cc
EachSeat-at P a (none ∷ ss) o h = EachSeat-at P a ss o h
EachSeat-at P a (some b ∷ ss) o h = elim (Bool-cases (b == a)) [
  | inl hit ↦ subst P (ground arith) h.0
  | inr miss ↦ EachSeat-at P a ss (ground arith) h.1
]

-- The ways in which a client is put into a slot.
occupy_cases :
    (a b : ℕ) (ss ss' : List Slot)
    → occupy a (some b ∷ ss) ≡ some ss'
    → (t : List Slot) × (occupy a ss ≡ some t) × (ss' ≡ some b ∷ t)
unfolding occupy
occupy_cases a b ss ss' h = elim (Option-cases (occupy a ss)) [
  | inl e ↦ ground arith
  | inr (t, e) ↦ (t, e, ground arith)
]

module _ (a : ℕ) where
  pub taken-occupy : (ss ss' : List Slot) → occupy a ss ≡ some ss' → taken ss' ≡ suc (taken ss)
  unfolding occupy
  taken-occupy [] ss' h = cc
  taken-occupy (none ∷ ss) ss' h = ground arith
  taken-occupy (some b ∷ ss) ss' h =
      let (t, e, e') = occupy_cases a b ss ss' h in rw e' (ap suc (taken-occupy ss t e))

  pub length-occupy : (ss ss' : List Slot) → occupy a ss ≡ some ss' → length ss' ≡ length ss
  unfolding occupy
  length-occupy [] ss' h = cc
  length-occupy (none ∷ ss) ss' h = ground arith
  length-occupy (some b ∷ ss) ss' h =
      let (t, e, e') = occupy_cases a b ss ss' h in rw e' (ap suc (length-occupy ss t e))

  pub occupies-occupy : (ss ss' : List Slot) → occupy a ss ≡ some ss' → occupies a ss' ≡ true
  unfolding occupy occupies
  occupies-occupy [] ss' h = cc
  occupies-occupy (none ∷ ss) ss' h = ground arith
  occupies-occupy (some b ∷ ss) ss' h =
      let (t, e, e') = occupy_cases a b ss ss' h in ground (arith, occupies-occupy ss t e)

  pub occupies_ne-occupy :
      (b : ℕ)
      → (a == b) ≡ false
      → (ss ss' : List Slot) → occupy a ss ≡ some ss'
      → occupies b ss' ≡ occupies b ss
  unfolding occupy occupies
  occupies_ne-occupy b ne [] ss' h = cc
  occupies_ne-occupy b ne (none ∷ ss) ss' h = ground arith
  occupies_ne-occupy b ne (some c ∷ ss) ss' h =
      let (t, e, e') = occupy_cases a c ss ss' h in ground (arith, occupies_ne-occupy b ne ss t e)

  pub SeatsOnce-occupy :
      (ss ss' : List Slot)
      → occupy a ss ≡ some ss'
      → occupies a ss ≡ false
      → SeatsOnce ss
      → SeatsOnce ss'
  unfolding occupy occupies
  SeatsOnce-occupy [] ss' h o d = cc
  SeatsOnce-occupy (none ∷ ss) ss' h o d =
      let e : some a ∷ ss ≡ ss' = ground arith in subst SeatsOnce e (o, d)
  SeatsOnce-occupy (some b ∷ ss) ss' h o d =
      let (t, e, e') = occupy_cases a b ss ss' h in
      rw e' (
        occupies_ne-occupy b (ground arith) ss t e ∙ d.0,
        SeatsOnce-occupy ss t e (ground arith) d.1,
      )

  pub EachSeat-occupy :
      (P : ℕ → Type 0)
      → P a
      → (ss ss' : List Slot) → occupy a ss ≡ some ss'
      → EachSeat P ss
      → EachSeat P ss'
  unfolding occupy
  EachSeat-occupy P p [] ss' h d = cc
  EachSeat-occupy P p (none ∷ ss) ss' h d =
      let e : some a ∷ ss ≡ ss' = ground arith in subst (EachSeat P) e (p, d)
  EachSeat-occupy P p (some b ∷ ss) ss' h d =
      let (t, e, e') = occupy_cases a b ss ss' h in rw e' (d.0, EachSeat-occupy P p ss t e d.1)

  -- There is a free slot, unless all are taken.
  pub occupy_total :
      (ss : List Slot) → taken ss < length ss → (ss' : List Slot) × (occupy a ss ≡ some ss')
  unfolding occupy
  occupy_total [] h = absurd (omega arith)
  occupy_total (none ∷ ss) h = (some a ∷ ss, refl)
  occupy_total (some b ∷ ss) h = let (t, e) = occupy_total ss (omega arith) in (some b ∷ t, rw e)

pub EachSeat-map :
    (P Q : ℕ → Type 0) → ((a : ℕ) → P a → Q a) → (ss : List Slot) → EachSeat P ss → EachSeat Q ss
EachSeat-map P Q f [] s = tt
EachSeat-map P Q f (none ∷ ss) s = EachSeat-map P Q f ss s
EachSeat-map P Q f (some a ∷ ss) s = (f a s.0, EachSeat-map P Q f ss s.1)
