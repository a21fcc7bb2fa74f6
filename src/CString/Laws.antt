-- ===== src/CString/Laws.antt =====
-- Comparison and truncation of C strings.
use tcp_chat_server_c.Base.{
  [], arith, length, length-take, refl, suc, take-all, true, ℕ, ◌-◌, ◌<◌, ◌↔◌, ◌∷◌, ◌≡◌, ◌≤◌,
}
use tcp_chat_server_c.CString.{Bytes, eq_bytes, truncate}

pub eq_bytes→eq : (a b : Bytes) → eq_bytes a b ≡ true → a ≡ b
unfolding eq_bytes
eq_bytes→eq [] [] h = refl
eq_bytes→eq (x ∷ a) (y ∷ b) h = ground (arith, eq_bytes→eq a b)
eq_bytes→eq [] (y ∷ b) h = ground arith
eq_bytes→eq (x ∷ a) [] h = ground arith

pub eq_bytes_refl : (a : Bytes) → eq_bytes a a ≡ true
unfolding eq_bytes
eq_bytes_refl [] = refl
eq_bytes_refl (x ∷ a) = ground (arith, eq_bytes_refl a)

pub eq→eq_bytes : (a b : Bytes) → a ≡ b → eq_bytes a b ≡ true
eq→eq_bytes a b e = ground (arith, eq_bytes_refl a)

pub eq_bytes_iff : (a b : Bytes) → (eq_bytes a b ≡ true) ↔ (a ≡ b)
eq_bytes_iff a b = (eq_bytes→eq a b, eq→eq_bytes a b)

pub length-truncate : (n : ℕ) (s : Bytes) → length (truncate (suc n) s) ≤ n
unfolding truncate
length-truncate n s = omega (arith, length-take {0} (suc n - 1) s)

pub truncate-short : (n : ℕ) (s : Bytes) → length s < n → truncate n s ≡ s
unfolding truncate
truncate-short n s h = take-all (n - 1) s (omega arith)
