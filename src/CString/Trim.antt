-- ===== src/CString/Trim.antt =====
-- What the trimming loops leave.
use tcp_chat_server_c.Base.{Bool, [], arith, length, suc, ℕ, ◌∷◌, ◌≤◌}
use tcp_chat_server_c.CString.{Bytes, cut_end, keep, skip, trim_end}

-- The end of a text after a trimming loop: the last byte is kept, or it is the first one.
abbrev pub last_or : ℕ → Bytes → ℕ
last_or d [] = d
last_or d (c ∷ s) = last_or c s

pub length-skip : (p : ℕ → Bool) (s : Bytes) → length (skip p s) ≤ length s
unfolding skip
length-skip p [] = omega arith
length-skip p (c ∷ s) = ground (arith, length-skip p s)

length-keep : (p : ℕ → Bool) (c : ℕ) (s : Bytes) → length (keep p c s) ≤ suc (length s)
unfolding keep
length-keep p c [] = ground arith
length-keep p c (d ∷ s) = omega arith

pub length-cut_end : (p : ℕ → Bool) (s : Bytes) → length (cut_end p s) ≤ length s
unfolding cut_end
length-cut_end p [] = omega arith
length-cut_end p (c ∷ s) = omega (arith, length-keep p c (cut_end p s), length-cut_end p s)

pub length-trim_end : (p : ℕ → Bool) (s : Bytes) → length (trim_end p s) ≤ length s
unfolding trim_end
length-trim_end p [] = omega arith
length-trim_end p (c ∷ s) = omega (arith, length-cut_end p s)
