-- ===== src/CString/Numbers.antt =====
-- `atol` and `atoi`, and the numbers that `printf` writes.
use tcp_chat_server_c.Base.{
  Bool, Bool-cases, [], ap, arith, false, if◌then◌else◌, inl, inr, leb, length, ltb, negsuc, pos,
  refl, suc, true, zero, ℕ, ℤ, ◌%◌, ◌&&◌, ◌*◌, ◌+◌, ◌-◌, ◌/◌, ◌<◌, ◌==◌, ◌^◌, ◌||◌, ◌∙◌, ◌∷◌, ◌≡◌,
}
use tcp_chat_server_c.CString.{Bytes, decimal, decimal_onto, skip}
use tcp_chat_server_c.CString.Words.{Free}

unfoldable pub is_digit : ℕ → Bool
is_digit c = leb b'0' c && leb c b'9'

-- `isspace` in the "C" locale.
unfoldable pub is_space : ℕ → Bool
is_space c = c == b' ' || (leb b'\t' c && leb c 13)

-- The number that the digits at the front write, after the number `n`.
unfoldable pub digits_value : ℕ → Bytes → ℕ
unfolding is_digit
digits_value n [] = n
digits_value n (c ∷ s) =
    let rest = digits_value (n * 10 + (c - b'0')) s in if is_digit c then rest else n

unfoldable pub negated : ℕ → ℤ
negated zero = pos 0
negated (suc n) = negsuc n

unfoldable pub signed_value : Bytes → ℤ
unfolding negated digits_value
signed_value [] = pos 0
signed_value (c ∷ s) =
    if c == b'-'
    then negated (digits_value 0 s)
    else if c == b'+'
    then pos (digits_value 0 s)
    else pos (digits_value 0 (c ∷ s))

-- `atol(s)`, for a number that a `long` can hold: the C standard leaves the others undefined.
unfoldable pub atol : Bytes → ℤ
unfolding signed_value is_space
atol s = signed_value (skip is_space s)

-- An `int` of 32 bits holds the number.
unfoldable pub fits_int : ℤ → Bool
fits_int (pos n) = ltb n (2 ^ 31)
fits_int (negsuc n) = ltb n (2 ^ 31)

-- `atoi(s)`. The C standard leaves undefined what it gives for a number that an `int` does not
-- hold, so that is the parameter `overflow`.
unfoldable pub atoi : (Bytes → ℤ) → Bytes → ℤ
unfolding atol fits_int
atoi overflow s = if fits_int (atol s) then atol s else overflow s

digits_value-digit :
    (n m : ℕ) (s : Bytes) → digits_value m ((b'0' + n % 10) ∷ s) ≡ digits_value (m * 10 + n % 10) s
unfolding digits_value is_digit
digits_value-digit n m s = ground arith

digits_value-decimal_onto :
    (fuel n : ℕ) (out : Bytes)
    → n < fuel
    → digits_value 0 (decimal_onto fuel n out) ≡ digits_value n out
unfolding decimal_onto
digits_value-decimal_onto zero n out h = absurd (omega arith)
digits_value-decimal_onto (suc fuel) n out h = elim (Bool-cases (leb n 9)) [
  | inl one ↦ rw one (digits_value-digit n 0 out ∙ ap (λ t. digits_value t out) (unfold_one one))
  | inr other ↦ rw other (
      digits_value-decimal_onto fuel (n / 10) ((b'0' + n % 10) ∷ out) (smaller other)
      ∙ digits_value-digit n (n / 10) out
      ∙ ap (λ t. digits_value t out) all)
]
  where
    unfold_one : leb n 9 ≡ true → 0 * 10 + n % 10 ≡ n
    unfold_one e = ground arith

    smaller : leb n 9 ≡ false → n / 10 < fuel
    smaller e = ground arith

    all : n / 10 * 10 + n % 10 ≡ n
    all = omega arith

-- All of the bytes that `%d` writes are digits.
decimal_onto-digits :
    (p : ℕ → Bool)
    → ((n : ℕ) → p (b'0' + n % 10) ≡ false)
    → (fuel n : ℕ) (out : Bytes) → Free p out
    → Free p (decimal_onto fuel n out)
unfolding decimal_onto
decimal_onto-digits p d zero n out f = f
decimal_onto-digits p d (suc fuel) n out f = elim (Bool-cases (leb n 9)) [
  | inl one ↦ rw one (d n, f)
  | inr other ↦ rw other (decimal_onto-digits p d fuel (n / 10) ((b'0' + n % 10) ∷ out) (d n, f))
]

pub decimal-Free :
    (p : ℕ → Bool) → ((n : ℕ) → p (b'0' + n % 10) ≡ false) → (n : ℕ) → Free p (decimal n)
unfolding decimal
decimal-Free p d n = decimal_onto-digits p d (suc n) n [] tt

decimal_onto-some :
    (fuel n : ℕ) (out : Bytes) → 0 < length out → 0 < length (decimal_onto fuel n out)
unfolding decimal_onto
decimal_onto-some zero n out h = h
decimal_onto-some (suc fuel) n out h = elim (Bool-cases (leb n 9)) [
  | inl one ↦ rw one (omega arith)
  | inr other ↦ rw other (decimal_onto-some fuel (n / 10) ((b'0' + n % 10) ∷ out) (omega arith))
]

pub decimal-some : (n : ℕ) → 0 < length (decimal n)
unfolding decimal decimal_onto
decimal-some n = elim (Bool-cases (leb n 9)) [
  | inl one ↦ rw one (omega arith)
  | inr other ↦ rw other (decimal_onto-some n (n / 10) ((b'0' + n % 10) ∷ []) (omega arith))
]

plain_number :
    (s : Bytes)
    → Free is_space s
    → Free (λ c. c == b'-') s
    → Free (λ c. c == b'+') s
    → atol s ≡ pos (digits_value 0 s)
unfolding atol skip signed_value digits_value
plain_number [] f g h = refl
plain_number (c ∷ s) f g h = rw (f.0, g.0, h.0) refl

-- `atol` reads the number that `%zu` has written.
pub atol-decimal : (n : ℕ) → atol (decimal n) ≡ pos n
unfolding decimal
atol-decimal n =
    plain_number (decimal n) (decimal-Free is_space not_space n)
      (decimal-Free (λ c. c == b'-') (λ m. ground arith) n)
      (decimal-Free (λ c. c == b'+') (λ m. ground arith) n)
    ∙ ap pos (digits_value-decimal_onto (suc n) n [] (omega arith) ∙ unfold digits_value in refl)
  where
    not_space : (m : ℕ) → is_space (b'0' + m % 10) ≡ false
    not_space m = unfold is_space in ground arith

digits_value-decimal : (n : ℕ) → digits_value 0 (decimal n) ≡ n
unfolding decimal
digits_value-decimal n =
    digits_value-decimal_onto (suc n) n [] (omega arith) ∙ unfold digits_value in refl

-- The same behind a minus sign.
pub atol-negative : (n : ℕ) → atol (b'-' ∷ decimal n) ≡ negated n
unfolding atol skip signed_value is_space
atol-negative n = ap negated (digits_value-decimal n)

pub atoi-fits :
    (overflow : Bytes → ℤ) (s : Bytes) → fits_int (atol s) ≡ true → atoi overflow s ≡ atol s
unfolding atoi
atoi-fits overflow s h = rw h refl
