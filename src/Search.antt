-- ===== src/Search.antt =====
-- The walks along a linked list that the registries of clients and rooms share: find, update and
-- unlink the first node that passes a test. A linked list is the list of its nodes, head first.
pub mod Laws
pub mod Keyed
use tcp_chat_server_c.Base.{Bool, List, Option, [], if◌then◌else◌, none, some, ℕ, ◌+◌, ◌∷◌}

module _ {ℓ} {A : Type ℓ} where
  -- `while (current) { if (p(current)) return current; current = current->next; }`
  unfoldable pub find_first : (A → Bool) → List A → Option A
  find_first p [] = none
  find_first p (x ∷ xs) = if p x then some x else find_first p xs

  -- A write through the pointer that the walk finds.
  unfoldable pub update_first : (A → Bool) → (A → A) → List A → List A
  update_first p f [] = []
  update_first p f (x ∷ xs) = if p x then f x ∷ xs else x ∷ update_first p f xs

  abbrev push_front : A → Option (List A) → Option (List A)
  push_front x none = none
  push_front x (some xs) = some (x ∷ xs)

  -- The walk with `previous`: the list without the first node that passes, or `none`.
  unfoldable pub unlink_first : (A → Bool) → List A → Option (List A)
  unlink_first p [] = none
  unlink_first p (x ∷ xs) = if p x then some xs else push_front x (unlink_first p xs)

  -- The position of that node, counted from `i`.
  unfoldable pub index_from : ℕ → (A → Bool) → List A → Option ℕ
  index_from i p [] = none
  index_from i p (x ∷ xs) = if p x then some i else index_from (i + 1) p xs

module _ {ℓ κ} {A : Type ℓ} where
  abbrev pub All : (A → Type κ) → List A → Type κ
  All P [] = Unit
  All P (x ∷ xs) = P x × All P xs
