-- ===== src/FileQueue/Cycle.antt =====
-- An item that is added to the upload queue and removed again.
use tcp_chat_server_c.Base.{
  Bool-cases, List, [], ap, arith, failure, false, inl, inr, leb, length, length-append, pos, refl,
  subst, sym, ℕ, ◌++◌, ◌+◌, ◌∙◌, ◌∷◌, ◌≡◌, ◌⊎◌,
}
use tcp_chat_server_c.FileQueue.{
  FileQueue, Item, add_to_file_queue, max_upload_queue, remove_from_file_queue, set_item,
}
use tcp_chat_server_c.FileQueue.View.{
  IsQueue, Refines, add_to_file_queue-Refines, delete, length-view, pull, push,
  remove_from_file_queue-Refines, view,
}

-- The list is as before, and the array still implements one.
pub record Restored (q q' : FileQueue) : Type 0 where
  pub items : view q' ≡ view q
  pub ok : IsQueue q'

pub Restored-refl : (q : FileQueue) → IsQueue q → Restored q q
Restored-refl q v = record { items = refl; ok = v }

delete-append : (xs : List Item) (it : Item) → delete (length xs) (xs ++ it ∷ []) ≡ xs
unfolding delete
delete-append [] it = refl
delete-append (x ∷ xs) it = ap (λ t. x ∷ t) (delete-append xs it)

pull-append : (xs : List Item) (it : Item) → (pull (xs ++ it ∷ []) (pos (length xs))).1 ≡ xs
unfolding pull
pull-append xs it =
    let inside : leb (length (xs ++ it ∷ [])) (length xs) ≡ false =
      ground (arith, length-append {0} xs (it ∷ [])) in
    rw inside (delete-append xs it)

push-free :
    (xs : List Item) (it : Item)
    → leb max_upload_queue (length xs) ≡ false
    → push xs it ≡ (pos (length xs), xs ++ it ∷ [])
unfolding push
push-free xs it free = rw free refl

-- `add_to_file_queue` refuses and changes nothing, or its index takes the item out again.
pub add_to_file_queue_cases :
    (q : FileQueue) (it : Item)
    → IsQueue q
    → (add_to_file_queue q it ≡ (failure, q))
      ⊎ ((q' : FileQueue) × (i : ℕ) × (add_to_file_queue q it ≡ (pos i, q'))
          × Restored q (remove_from_file_queue q' (pos i)).1)
unfolding add_to_file_queue
add_to_file_queue_cases q it v = elim (Bool-cases (leb max_upload_queue q.count)) [
  | inl full ↦ inl (rw full refl)
  | inr free ↦
      let q' : FileQueue = record { items = set_item q.items q.count it; count = q.count + 1 } in
      let e : add_to_file_queue q it ≡ (pos q.count, q') = rw free refl in
      let added : Refines (pos q.count, q') (push (view q) it) =
        subst (λ r. Refines r (push (view q) it)) e (add_to_file_queue-Refines q it v) in
      let grown : view q' ≡ view q ++ it ∷ [] =
        added.items
        ∙ ap (λ r. r.1)
            (push-free (view q) it (ap (leb max_upload_queue) (length-view q v) ∙ free)) in
      let removed = remove_from_file_queue-Refines q' (pos q.count) added.ok in
      inr (
        q',
        q.count,
        e,
        record {
          items =
              removed.items
              ∙ ap (λ xs. (pull xs (pos q.count)).1) grown
              ∙ ap (λ n. (pull (view q ++ it ∷ []) (pos n)).1) (sym (length-view q v))
              ∙ pull-append (view q) it;
          ok = removed.ok;
        },
      )
]
