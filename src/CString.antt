-- ===== src/CString.antt =====
-- The C library's string functions as the program uses them. A C string is the list of its bytes
-- without the closing NUL; a byte is a number.
pub mod Laws
pub mod Trim
pub mod Words
pub mod Numbers
mod Tests
use Prim.Native.String.{String}
use Prim.Native.Char.{code}
use tcp_chat_server_c.Base.{
  Bool, List, Option, [], false, if◌then◌else◌, leb, none, some, suc, take, true, zero, ℕ, ◌%◌,
  ◌&&◌, ◌+◌, ◌-◌, ◌/◌, ◌==◌, ◌||◌, ◌∷◌,
}

abbrev pub Bytes : Type 0
Bytes = List ℕ

-- The bytes of an ASCII literal.
unfoldable pub codes : String → Bytes
codes String.[] = []
codes (String.◌∷◌ c s) = code c ∷ codes s

-- A buffer read as a C string: the bytes before the first NUL.
unfoldable pub cstr : Bytes → Bytes
cstr [] = []
cstr (c ∷ cs) = if c == 0 then [] else c ∷ cstr cs

-- `strcmp(a, b) == 0`.
unfoldable pub eq_bytes : Bytes → Bytes → Bool
eq_bytes [] [] = true
eq_bytes (a ∷ as') (b ∷ bs) = a == b && eq_bytes as' bs
eq_bytes [] (b ∷ bs) = false
eq_bytes (a ∷ as') [] = false

-- `strncmp(s, prefix, strlen(prefix)) == 0`.
unfoldable pub starts_with : Bytes → Bytes → Bool
starts_with [] s = true
starts_with (p ∷ ps) [] = false
starts_with (p ∷ ps) (c ∷ s) = p == c && starts_with ps s

-- `strlen(s) == 0`.
abbrev pub is_empty : Bytes → Bool
is_empty [] = true
is_empty (c ∷ s) = false

-- What a buffer of `size` bytes holds after `strncpy(buf, s, size - 1); buf[size - 1] = '\0'`,
-- and after `snprintf(buf, size, ...)` of the text `s`.
unfoldable pub truncate : ℕ → Bytes → Bytes
truncate size s = take (size - 1) s

-- `isalnum` in the "C" locale, which the program never changes.
unfoldable pub is_alnum : ℕ → Bool
is_alnum c = (leb b'0' c && leb c b'9') || (leb b'A' c && leb c b'Z') || (leb b'a' c && leb c b'z')

unfoldable pub all_alnum : Bytes → Bool
all_alnum [] = true
all_alnum (c ∷ s) = is_alnum c && all_alnum s

-- ' ' or '\t'.
unfoldable pub is_blank : ℕ → Bool
is_blank c = c == b' ' || c == b'\t'

-- ' ', '\t' or '\n'.
unfoldable pub is_blank_or_newline : ℕ → Bool
is_blank_or_newline c = c == b' ' || c == b'\t' || c == b'\n'

-- `while (p(*start)) start++;`
unfoldable pub skip : (ℕ → Bool) → Bytes → Bytes
skip p [] = []
skip p (c ∷ s) = if p c then skip p s else c ∷ s

-- Prepends `c`, unless nothing follows and `c` is to be cut.
unfoldable pub keep : (ℕ → Bool) → ℕ → Bytes → Bytes
keep p c [] = if p c then [] else c ∷ []
keep p c (d ∷ s) = c ∷ d ∷ s

-- Drops the bytes at the end that satisfy `p`.
unfoldable pub cut_end : (ℕ → Bool) → Bytes → Bytes
unfolding keep
cut_end p [] = []
cut_end p (c ∷ s) = keep p c (cut_end p s)

-- `end = start + strlen(start) - 1; while (end > start && p(*end)) *end-- = '\0';`
-- The first byte is never cut, since the loop stops at `end == start`.
unfoldable pub trim_end : (ℕ → Bool) → Bytes → Bytes
unfolding cut_end
trim_end p [] = []
trim_end p (c ∷ s) = c ∷ cut_end p s

abbrev pub prepend : ℕ → Option (Bytes × Bytes) → Option (Bytes × Bytes)
prepend c none = none
prepend c (some (s, t)) = some (c ∷ s, t)

-- `strchr(s, c)`: the bytes before the first `c`, and those after it.
unfoldable pub split_at : ℕ → Bytes → Option (Bytes × Bytes)
split_at c [] = none
split_at c (d ∷ s) = let rest = split_at c s in if d == c then some ([], s) else prepend d rest

-- `strtok(s, delimiters)`: the bytes up to the next delimiter, and those after it.
unfoldable pub until : (ℕ → Bool) → Bytes → Bytes
until p [] = []
until p (c ∷ s) = if p c then [] else c ∷ until p s

unfoldable pub after : (ℕ → Bool) → Bytes → Bytes
after p [] = []
after p (c ∷ s) = if p c then s else after p s

first_token : (ℕ → Bool) → Bytes → Option (Bytes × Bytes)
first_token p [] = none
first_token p (c ∷ s) = some (until p (c ∷ s), after p (c ∷ s))

unfoldable pub strtok : (ℕ → Bool) → Bytes → Option (Bytes × Bytes)
unfolding first_token until after skip
strtok p s = first_token p (skip p s)

-- `strstr(s, needle)`: the text from the first occurrence on.
unfoldable pub strstr : Bytes → Bytes → Option Bytes
strstr [] needle = if is_empty needle then some [] else none
strstr (c ∷ s) needle =
    let rest = strstr s needle in if starts_with needle (c ∷ s) then some (c ∷ s) else rest

abbrev or_else : Option Bytes → Option Bytes → Option Bytes
or_else (some s) t = some s
or_else none t = t

-- `strrchr(s, c)`: the suffix that begins at the last `c`.
unfoldable pub from_last : ℕ → Bytes → Option Bytes
from_last c [] = none
from_last c (d ∷ s) = or_else (from_last c s) (if d == c then some (d ∷ s) else none)

-- `tolower` in the "C" locale.
unfoldable pub to_lower : ℕ → ℕ
to_lower c = if leb b'A' c && leb c b'Z' then c + 32 else c

-- `strcasecmp(a, b) == 0`.
unfoldable pub eq_nocase : Bytes → Bytes → Bool
unfolding to_lower
eq_nocase [] [] = true
eq_nocase (a ∷ as') (b ∷ bs) = to_lower a == to_lower b && eq_nocase as' bs
eq_nocase [] (b ∷ bs) = false
eq_nocase (a ∷ as') [] = false

unfoldable pub decimal_onto : ℕ → ℕ → Bytes → Bytes
decimal_onto zero n out = out
decimal_onto (suc fuel) n out =
    let digits = (b'0' + n % 10) ∷ out in
    let rest = decimal_onto fuel (n / 10) digits in if leb n 9 then digits else rest

-- `%d` and `%zu` of a number: `n + 1` rounds are enough, as each divides by ten.
unfoldable pub decimal : ℕ → Bytes
unfolding decimal_onto
decimal n = decimal_onto (suc n) n []
