-- ===== src/FileQueue/View.antt =====
-- The upload queue against a bounded list of the items in use.
use tcp_chat_server_c.Base.{
  Bool, Bool-cases, List, [], ap, arith, failure, if◌then◌else◌, inl, inr, leb, length, length-take,
  negsuc, pos, refl, subst, suc, success, take, zero, ℕ, ℤ, ◌++◌, ◌+◌, ◌-◌, ◌<◌, ◌∙◌, ◌∷◌, ◌≡◌, ◌≤◌,
}
use tcp_chat_server_c.FileQueue.{
  FileQueue, Item, add_to_file_queue, init_file_queue, max_upload_queue, remove_from_file_queue,
  set_item, shift,
}

-- The abstract queue.
unfoldable pub push : List Item → Item → ℤ × List Item
push xs it =
    if leb max_upload_queue (length xs) then (failure, xs) else (pos (length xs), xs ++ it ∷ [])

unfoldable pub delete : ℕ → List Item → List Item
delete i [] = []
delete zero (x ∷ xs) = xs
delete (suc i) (x ∷ xs) = x ∷ delete i xs

unfoldable pub pull : List Item → ℤ → ℤ × List Item
pull xs (negsuc n) = (failure, xs)
pull xs (pos i) = if leb (length xs) i then (failure, xs) else (success, delete i xs)

-- The items in use.
unfoldable pub view : FileQueue → List Item
view q = take q.count q.items

pub record IsQueue (q : FileQueue) : Type 0 where
  pub size : length q.items ≡ max_upload_queue
  pub bound : q.count ≤ max_upload_queue

-- A result of the array's operation is one of the list's.
pub record Refines (r : ℤ × FileQueue) (s : ℤ × List Item) : Type 0 where
  pub code : r.0 ≡ s.0
  pub items : view r.1 ≡ s.1
  pub ok : IsQueue r.1

pub length-view : (q : FileQueue) → IsQueue q → length (view q) ≡ q.count
unfolding view
length-view q v = omega (arith, length-take {0} q.count q.items, v.size, v.bound)

length-set_item : (xs : List Item) (i : ℕ) (it : Item) → length (set_item xs i it) ≡ length xs
unfolding set_item
length-set_item [] i it = refl
length-set_item (x ∷ xs) zero it = refl
length-set_item (x ∷ xs) (suc i) it = ap suc (length-set_item xs i it)

take-set_item :
    (xs : List Item) (n : ℕ) (it : Item)
    → n < length xs
    → take (suc n) (set_item xs n it) ≡ take n xs ++ it ∷ []
unfolding set_item
take-set_item [] n it h = absurd (omega arith)
take-set_item (x ∷ xs) zero it h = refl
take-set_item (x ∷ xs) (suc n) it h = ap (λ t. x ∷ t) (take-set_item xs n it (omega arith))

length-shift : (rounds index : ℕ) (xs : List Item) → length (shift rounds index xs) ≡ length xs
unfolding shift
length-shift rounds index [] = refl
length-shift rounds (suc index) (x ∷ xs) = ap suc (length-shift rounds index xs)
length-shift zero zero (x ∷ xs) = refl
length-shift (suc rounds) zero (x ∷ []) = refl
length-shift (suc rounds) zero (x ∷ y ∷ xs) = ap suc (length-shift rounds zero (y ∷ xs))

take-shift :
    (rounds index n : ℕ) (xs : List Item)
    → n ≡ index + rounds
    → n < length xs
    → take n (shift rounds index xs) ≡ delete index (take (suc n) xs)
unfolding shift delete
take-shift rounds index n [] e h = absurd (omega arith)
take-shift rounds (suc index) zero (x ∷ xs) e h = absurd (omega arith)
take-shift rounds (suc index) (suc n) (x ∷ xs) e h =
    ap (λ t. x ∷ t) (take-shift rounds index n xs (omega arith) (omega arith))
take-shift zero zero zero (x ∷ xs) e h = refl
take-shift zero zero (suc n) (x ∷ xs) e h = absurd (omega arith)
take-shift (suc rounds) zero zero (x ∷ xs) e h = absurd (omega arith)
take-shift (suc rounds) zero (suc n) (x ∷ []) e h = absurd (omega arith)
take-shift (suc rounds) zero (suc n) (x ∷ y ∷ xs) e h =
    ap (λ t. y ∷ t) (take-shift rounds zero n (y ∷ xs) (omega arith) (omega arith))

pub init_file_queue-IsQueue : (mutex_ok : Bool) → IsQueue (init_file_queue mutex_ok).1
unfolding init_file_queue
init_file_queue-IsQueue mutex_ok = record { size = refl; bound = omega arith }

-- `add_to_file_queue` is the list's operation, on both branches: a full queue is left as it is and
-- the code is -1; else the item goes to the end, and the code is its index.
pub add_to_file_queue-Refines :
    (q : FileQueue) (it : Item) → IsQueue q → Refines (add_to_file_queue q it) (push (view q) it)
unfolding add_to_file_queue push
add_to_file_queue-Refines q it v = elim (Bool-cases (leb max_upload_queue q.count)) [
  | inl full ↦ rw (length-view q v, full) (record { code = refl; items = refl; ok = v })
  | inr free ↦
      let room : q.count < max_upload_queue = ground arith in
      let up : suc q.count ≡ q.count + 1 = omega arith in
      rw (length-view q v, free)
        (record {
          code = refl;
          items =
              unfold view in
              subst (λ n. take n (set_item q.items q.count it) ≡ take q.count q.items ++ it ∷ []) up
                (take-set_item q.items q.count it (omega (arith, v.size)));
          ok = record { size = length-set_item q.items q.count it ∙ v.size; bound = omega arith };
        })
]

-- `remove_from_file_queue` is the list's operation, on all branches: an index that is negative or
-- beyond the items in use gives -1 and changes nothing; else that item is taken out, and the others
-- keep their order.
pub remove_from_file_queue-Refines :
    (q : FileQueue) (index : ℤ)
    → IsQueue q
    → Refines (remove_from_file_queue q index) (pull (view q) index)
unfolding remove_from_file_queue pull
remove_from_file_queue-Refines q (negsuc n) v = record { code = refl; items = refl; ok = v }
remove_from_file_queue-Refines q (pos i) v = elim (Bool-cases (leb q.count i)) [
  | inl out ↦ rw (length-view q v, out) (record { code = refl; items = refl; ok = v })
  | inr used ↦
      let inside : i < q.count = ground arith in
      let up : suc (q.count - 1) ≡ q.count = omega arith in
      rw (length-view q v, used)
        (record {
          code = refl;
          items =
              unfold view in
              take-shift (q.count - 1 - i) i (q.count - 1) q.items (omega arith)
                (omega (arith, v.size, v.bound))
              ∙ ap (λ n. delete i (take n q.items)) up;
          ok = record {
            size = length-shift (q.count - 1 - i) i q.items ∙ v.size;
            bound = omega (arith, v.bound);
          };
        })
]
