-- ===== src/Client/Commands/Words.antt =====
-- The two ways in which the client counts the words of a line.
use tcp_chat_server_c.Base.{
  Bool, Bool-cases, [], ap, arith, false, if◌then◌else◌, inl, inr, length, min, not, refl, suc, sym,
  true, zero, ℕ, ◌+◌, ◌<◌, ◌||◌, ◌∙◌, ◌∷◌, ◌≡◌,
}
use tcp_chat_server_c.CString.{Bytes, after, is_blank, is_empty, skip, truncate}
use tcp_chat_server_c.CString.Laws.{truncate-short}
use tcp_chat_server_c.CString.Words.{strtok_cases}
use tcp_chat_server_c.Client.Commands.{
  count_command_args, count_words, extract_command_args, extract_loop,
}

count_words-suc :
    (in_word : Bool) (n : ℕ) (s : Bytes)
    → count_words in_word (n + 1) s ≡ count_words in_word n s + 1
unfolding count_words
count_words-suc in_word n [] = refl
count_words-suc in_word n (c ∷ s) = elim (Bool-cases (is_blank c || in_word)) [
  | inl same ↦ rw (same) (count_words-suc (not (is_blank c)) n s)
  | inr new ↦ rw (new) (count_words-suc (not (is_blank c)) (n + 1) s)
]

skip-solid : (c : ℕ) (s : Bytes) → is_blank c ≡ false → skip is_blank (c ∷ s) ≡ c ∷ s
unfolding skip
skip-solid c s solid = rw solid refl

count_words-skip :
    (n : ℕ) (s : Bytes) → count_words false n s ≡ count_words false n (skip is_blank s)
unfolding count_words skip
count_words-skip n [] = refl
count_words-skip n (c ∷ s) = elim (Bool-cases (is_blank c)) [
  | inl blank ↦ rw (blank) (count_words-skip n s)
  | inr solid ↦ ap (count_words false n) (sym (skip-solid c s solid))
]

count_words-solid :
    (n c : ℕ) (s : Bytes)
    → is_blank c ≡ false
    → count_words false n (c ∷ s) ≡ count_words true (n + 1) s
unfolding count_words
count_words-solid n c s solid = rw solid refl

-- Within a word nothing is counted until it ends.
count_words-after :
    (n : ℕ) (s : Bytes) → count_words true n s ≡ count_words false n (after is_blank s)
unfolding count_words after
count_words-after n [] = refl
count_words-after n (c ∷ s) = elim (Bool-cases (is_blank c)) [
  | inl blank ↦ rw (blank) refl
  | inr solid ↦ rw (solid) (count_words-after n s)
]

length-extract_loop :
    (max : ℕ) (s : Bytes) → length (extract_loop max s) ≡ min max (count_words false 0 s)
unfolding extract_loop count_words
length-extract_loop zero s = omega arith
length-extract_loop (suc n) s = elim (strtok_cases is_blank s) [
  | inl (nothing, e) ↦
      rw (e, extract_loop) (omega (arith, count_words-skip 0 s ∙ ap (count_words false 0) nothing))
  | inr (c, r, found, solid, e) ↦
      let count : count_words false 0 s ≡ count_words false 0 (after is_blank r) + 1 =
        count_words-skip 0 s
        ∙ ap (count_words false 0) found
        ∙ count_words-solid 0 c r solid
        ∙ count_words-suc true 0 r
        ∙ ap (λ n. n + 1) (count_words-after 0 r) in
      rw (e, extract_loop) (omega (arith, count, length-extract_loop n (after is_blank r)))
]

-- `extract_command_args` fills as many arguments as `count_command_args` counts words in the line,
-- up to its maximum; the line is shorter than its copy of 1024 bytes.
pub length-extract_command_args :
    (command : Bytes) (max_args : ℕ)
    → length command < 1024
    → length (extract_command_args command max_args) ≡ min max_args (count_command_args command)
unfolding extract_command_args count_command_args count_words
length-extract_command_args command max_args short =
    length-extract_loop max_args (truncate 1024 command)
    ∙ ap (λ s. min max_args (count_words false 0 s)) (truncate-short 1024 command short)
    ∙ ap (min max_args) (sym (empty command))
  where
    empty : (s : Bytes) → (if is_empty s then 0 else count_words false 0 s) ≡ count_words false 0 s
    empty [] = refl
    empty (c ∷ s) = refl
