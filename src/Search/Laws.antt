-- ===== src/Search/Laws.antt =====
-- Laws of the walks for any test.
use tcp_chat_server_c.Base.{
  Bool, Bool-cases, List, Option, [], ap, arith, false, inl, inr, length, none, refl, some, subst,
  suc, sym, true, ◌∙◌, ◌∷◌, ◌≡◌, ◌⊎◌,
}
use tcp_chat_server_c.CString.{keep}
use tcp_chat_server_c.Search.{All, find_first, push_front, unlink_first, update_first}

module _ {ℓ} {A : Type ℓ} where
  pub find_first-holds :
      (p : A → Bool) (xs : List A) (x : A) → find_first p xs ≡ some x → p x ≡ true
  unfolding find_first
  find_first-holds p [] x h = cc
  find_first-holds p (y ∷ xs) x h = ground (arith, find_first-holds p xs x)

  pub find_first-unlink_none :
      (p : A → Bool) (xs : List A) → find_first p xs ≡ none → unlink_first p xs ≡ none
  unfolding find_first unlink_first
  find_first-unlink_none p [] h = refl
  find_first-unlink_none p (y ∷ xs) h = ground (arith, find_first-unlink_none p xs)

  push_front-some :
      (x : A) (o : Option (List A)) (ys : List A)
      → push_front x o ≡ some ys
      → (zs : List A) × (o ≡ some zs) × (ys ≡ x ∷ zs)
  push_front-some x none ys h = cc
  push_front-some x (some zs) ys h = (zs, refl, ground arith)

  -- The two ways in which a node is unlinked.
  pub unlink_first_cases :
      (p : A → Bool) (x : A) (xs ys : List A)
      → unlink_first p (x ∷ xs) ≡ some ys
      → ((p x ≡ true) × (ys ≡ xs))
        ⊎ ((zs : List A) × (p x ≡ false) × (unlink_first p xs ≡ some zs) × (ys ≡ x ∷ zs))
  unfolding unlink_first
  unlink_first_cases p x xs ys h = elim (Bool-cases (p x)) [
    | inl hit ↦ inl (hit, ground arith)
    | inr miss ↦
        let (zs, e, e') = push_front-some x (unlink_first p xs) ys (ground arith) in
        inr (zs, miss, e, e')
  ]

  pub length-unlink_first :
      (p : A → Bool) (xs ys : List A) → unlink_first p xs ≡ some ys → length xs ≡ suc (length ys)
  unfolding unlink_first
  length-unlink_first p [] ys h = cc
  length-unlink_first p (y ∷ xs) ys h = elim (unlink_first_cases p y xs ys h) [
    | inl (hit, e) ↦ rw e
    | inr (zs, miss, e, e') ↦ rw e' (omega (arith, length-unlink_first p xs zs e))
  ]

  pub length-update_first :
      (p : A → Bool) (f : A → A) (xs : List A) → length (update_first p f xs) ≡ length xs
  unfolding update_first
  length-update_first p f [] = refl
  length-update_first p f (x ∷ xs) = ground (arith, length-update_first p f xs)

module _ {ℓ κ} {A : Type ℓ} (P : A → Type κ) where
  pub All-find : (p : A → Bool) (xs : List A) (x : A) → All P xs → find_first p xs ≡ some x → P x
  unfolding find_first
  All-find p [] x h e = cc
  All-find p (y ∷ xs) x h e = elim (Bool-cases (p y)) [
    | inl hit ↦ subst P (ground arith) h.0
    | inr miss ↦ All-find p xs x h.1 (ground arith)
  ]

  pub All-unlink :
      (p : A → Bool) (xs ys : List A) → All P xs → unlink_first p xs ≡ some ys → All P ys
  unfolding unlink_first
  All-unlink p [] ys h e = cc
  All-unlink p (y ∷ xs) ys h e = elim (unlink_first_cases p y xs ys e) [
    | inl (hit, e) ↦ rw e h.1
    | inr (zs, miss, e, e') ↦ rw e' (h.0, All-unlink p xs zs h.1 e)
  ]

pub All-map {ℓ κ μ} :
    {A : Type ℓ} (P : A → Type κ) (Q : A → Type μ)
    → ((x : A) → P x → Q x)
    → (xs : List A) → All P xs
    → All Q xs
All-map P Q f [] h = tt
All-map P Q f (x ∷ xs) h = (f x h.0, All-map P Q f xs h.1)

pub All-both {ℓ κ μ} :
    {A : Type ℓ} (P : A → Type κ) (Q : A → Type μ) (xs : List A)
    → All P xs
    → All Q xs
    → All (λ x. P x × Q x) xs
All-both P Q [] h k = tt
All-both P Q (x ∷ xs) h k = ((h.0, k.0), All-both P Q xs h.1 k.1)

pub All-update_first {ℓ κ} :
    {A : Type ℓ} (P : A → Type κ) (p : A → Bool) (f : A → A)
    → ((x : A) → P x → P (f x))
    → (xs : List A) → All P xs
    → All P (update_first p f xs)
unfolding update_first
All-update_first P p f keep [] h = tt
All-update_first P p f keep (x ∷ xs) h = elim (Bool-cases (p x)) [
  | inl hit ↦ rw hit (keep x h.0, h.1)
  | inr miss ↦ rw miss (h.0, All-update_first P p f keep xs h.1)
]

-- A write that changes nothing in the node that it reaches changes nothing.
pub update_first-same {ℓ} :
    {A : Type ℓ} (p : A → Bool) (f : A → A) (xs : List A) (x : A)
    → find_first p xs ≡ some x
    → f x ≡ x
    → update_first p f xs ≡ xs
unfolding find_first update_first
update_first-same p f [] x e same = refl
update_first-same p f (y ∷ xs) x e same = elim (Bool-cases (p y)) [
  | inl hit ↦ let is : y ≡ x = ground arith in rw hit (ap (λ t. t ∷ xs) (ap f is ∙ same ∙ sym is))
  | inr miss ↦
      let later : find_first p xs ≡ some x = ground arith in
      rw miss (ap (λ t. y ∷ t) (update_first-same p f xs x later same))
]

pub find_first-unlink_some {ℓ} :
    {A : Type ℓ} (p : A → Bool) (xs : List A) (x : A)
    → find_first p xs ≡ some x
    → (ys : List A) × (unlink_first p xs ≡ some ys)
unfolding find_first unlink_first
find_first-unlink_some p [] x e = cc
find_first-unlink_some p (y ∷ xs) x e = elim (Bool-cases (p y)) [
  | inl hit ↦ (xs, rw hit)
  | inr miss ↦
      let later : find_first p xs ≡ some x = ground arith in
      let (ys, e') = find_first-unlink_some p xs x later in (y ∷ ys, rw (miss, e'))
]
