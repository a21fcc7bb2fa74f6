-- ===== src/Search/Keyed.antt =====
-- Laws of the walks that look for a key.
use mathlib.Core.Option
use tcp_chat_server_c.Base.{
  Bool, Bool-cases, List, [], ap, arith, false, if◌then◌else◌, inl, inr, none, refl, some, subst,
  true, ◌↔◌, ◌∙◌, ◌∷◌, ◌≡◌, ◌≢◌,
}
use tcp_chat_server_c.Search.{All, find_first, unlink_first, update_first}
use tcp_chat_server_c.Search.Laws.{find_first-holds, unlink_first_cases}

-- What is asked of the comparison of keys.
module _ {ℓ κ} {A : Type ℓ} {K : Type κ} (key : A → K) (eq_key : K → K → Bool)
    (eq_key_iff : (a b : K) → (eq_key a b ≡ true) ↔ (a ≡ b)) where
  abbrev pub at_key : K → A → Bool
  at_key k x = eq_key (key x) k

  -- No two nodes have one key.
  abbrev pub Distinct : List A → Type ℓ
  Distinct [] = Unit
  Distinct (x ∷ xs) = (find_first (at_key (key x)) xs ≡ none) × Distinct xs

  pub find_first-key : (k : K) (xs : List A) (x : A) → find_first (at_key k) xs ≡ some x → key x ≡ k
  find_first-key k xs x h = (eq_key_iff (key x) k).0 (find_first-holds (at_key k) xs x h)

  pub find-update_first :
      (k j : K) (f : A → A)
      → ((x : A) → key (f x) ≡ key x)
      → (xs : List A)
      → find_first (at_key j) (update_first (at_key k) f xs)
        ≡ (if eq_key k j then Option.map f (find_first (at_key k) xs) else find_first (at_key j) xs)
  unfolding find_first update_first
  find-update_first k j f same [] = ground arith
  find-update_first k j f same (x ∷ xs) = ground (
    arith,
    same x,
    eq_key_iff (key x) k,
    eq_key_iff (key x) j,
    eq_key_iff k j,
    find-update_first k j f same xs,
  )

  find_none-update :
      (p : A → Bool) (j : K) (f : A → A)
      → ((x : A) → key (f x) ≡ key x)
      → (xs : List A) → find_first (at_key j) xs ≡ none
      → find_first (at_key j) (update_first p f xs) ≡ none
  unfolding find_first update_first
  find_none-update p j f same [] h = refl
  find_none-update p j f same (x ∷ xs) h = elim (Bool-cases (p x)) [
    | inl hit ↦ rw hit (ground (arith, same x))
    | inr miss ↦ rw miss (ground (arith, find_none-update p j f same xs))
  ]

  pub Distinct-update :
      (p : A → Bool) (f : A → A)
      → ((x : A) → key (f x) ≡ key x)
      → (xs : List A) → Distinct xs
      → Distinct (update_first p f xs)
  unfolding update_first
  Distinct-update p f same [] d = tt
  Distinct-update p f same (x ∷ xs) d = elim (Bool-cases (p x)) [
    | inl hit ↦ rw hit (rw (same x) d.0, d.1)
    | inr miss ↦ rw miss (find_none-update p (key x) f same xs d.0, Distinct-update p f same xs d.1)
  ]

  -- The nodes of other keys are found as before.
  pub find-unlink_other :
      (p : A → Bool) (x : A) (j : K) (xs ys : List A)
      → find_first p xs ≡ some x
      → eq_key (key x) j ≡ false
      → unlink_first p xs ≡ some ys
      → find_first (at_key j) ys ≡ find_first (at_key j) xs
  unfolding find_first unlink_first
  find-unlink_other p x j [] ys f ne e = cc
  find-unlink_other p x j (y ∷ xs) ys f ne e = elim (unlink_first_cases p y xs ys e) [
    | inl (hit, e') ↦
        let is : y ≡ x = ground arith in
        let other : eq_key (key y) j ≡ false = ap (λ t. eq_key (key t) j) is ∙ ne in rw (e', other)
    | inr (zs, miss, e', e'') ↦
        let later : find_first p xs ≡ some x = ground arith in
        rw e'' (ground (arith, find-unlink_other p x j xs zs later ne e'))
  ]

  find_none-unlink :
      (p : A → Bool) (j : K) (xs ys : List A)
      → find_first (at_key j) xs ≡ none
      → unlink_first p xs ≡ some ys
      → find_first (at_key j) ys ≡ none
  unfolding find_first unlink_first
  find_none-unlink p j [] ys h e = cc
  find_none-unlink p j (x ∷ xs) ys h e = elim (unlink_first_cases p x xs ys e) [
    | inl (hit, e') ↦ rw e' (ground arith)
    | inr (zs, miss, e', e'') ↦
        rw e'' (ground (arith, find_none-unlink p j xs zs (ground arith) e'))
  ]

  pub Distinct-unlink :
      (p : A → Bool) (xs ys : List A) → Distinct xs → unlink_first p xs ≡ some ys → Distinct ys
  Distinct-unlink p [] ys d e = unfold unlink_first in cc
  Distinct-unlink p (x ∷ xs) ys d e = elim (unlink_first_cases p x xs ys e) [
    | inl (hit, e') ↦ rw e' d.1
    | inr (zs, miss, e', e'') ↦
        rw e'' (find_none-unlink p (key x) xs zs d.0 e', Distinct-unlink p xs zs d.1 e')
  ]

  found_later :
      (p : A → Bool) (x : A) (xs : List A)
      → find_first p xs ≡ some x
      → find_first (at_key (key x)) xs ≢ none
  unfolding find_first
  found_later p x [] h e = cc
  found_later p x (y ∷ xs) h e = elim (Bool-cases (p y)) [
    | inl hit ↦
        let same : y ≡ x = ground arith in
        let self : eq_key (key y) (key x) ≡ true = (eq_key_iff (key y) (key x)).1 (ap key same) in
        ground arith
    | inr miss ↦
        let later : find_first p xs ≡ some x = ground arith in
        let none' : find_first (at_key (key x)) xs ≡ none = ground arith in
        found_later p x xs later none'
  ]

  -- A node that a walk finds is the node of its key.
  pub find_first-at_key :
      (p : A → Bool) (x : A) (xs : List A)
      → Distinct xs
      → find_first p xs ≡ some x
      → find_first (at_key (key x)) xs ≡ some x
  unfolding find_first
  find_first-at_key p x [] d h = cc
  find_first-at_key p x (y ∷ xs) d h = elim (Bool-cases (p y)) [
    | inl hit ↦
        let same : y ≡ x = ground arith in
        rw ((eq_key_iff (key y) (key x)).1 (ap key same)) (ap some same)
    | inr miss ↦
        let later : find_first p xs ≡ some x = ground arith in
        elim (Bool-cases (eq_key (key y) (key x))) [
          | inl hit ↦ absurd (
              found_later p x xs later (
                subst (λ t. find_first (at_key t) xs ≡ none) ((eq_key_iff (key y) (key x)).0 hit)
                  d.0))
          | inr other ↦ rw other (find_first-at_key p x xs d.1 later)
        ]
  ]

  module _ {μ ν} (P : A → Type μ) (Q : A → Type ν) (k : K) where
    -- If the key is not there, every node has another one.
    pub All-find_none :
        ((x : A) → eq_key (key x) k ≡ false → P x → Q x)
        → (xs : List A) → find_first (at_key k) xs ≡ none
        → All P xs
        → All Q xs
    unfolding find_first
    All-find_none other [] h a = tt
    All-find_none other (x ∷ xs) h a = elim (Bool-cases (at_key k x)) [
      | inl hit ↦ absurd (ground arith)
      | inr miss ↦ (other x miss a.0, All-find_none other xs (ground arith) a.1)
    ]

    -- An update at a key changes one node, and the others have another key.
    pub All-update :
        (f : A → A)
        → ((x : A) → key x ≡ k → P x → Q (f x))
        → ((x : A) → eq_key (key x) k ≡ false → P x → Q x)
        → (xs : List A) → Distinct xs
        → All P xs
        → All Q (update_first (at_key k) f xs)
    unfolding update_first
    All-update f here other [] d a = tt
    All-update f here other (x ∷ xs) d a = elim (Bool-cases (at_key k x)) [
      | inl hit ↦
          let e : key x ≡ k = (eq_key_iff (key x) k).0 hit in
          rw hit (
            here x e a.0,
            All-find_none other xs (subst (λ t. find_first (at_key t) xs ≡ none) e d.0) a.1,
          )
      | inr miss ↦ rw miss (other x miss a.0, All-update f here other xs d.1 a.1)
    ]
