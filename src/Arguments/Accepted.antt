-- ===== src/Arguments/Accepted.antt =====
-- Which ports the two programs take from their command lines.
use tcp_chat_server_c.Base.{
  Bool-cases, List, Option, [], ap, arith, false, inl, inr, length, ltb, negsuc, none, pos, refl,
  some, suc, take, true, zero, ℕ, ℤ, ◌<◌, ◌==◌, ◌^◌, ◌||◌, ◌∙◌, ◌∷◌, ◌≡◌, ◌≤◌, ◌⊎◌,
}
use tcp_chat_server_c.CString.{Bytes, decimal, truncate}
use tcp_chat_server_c.CString.Laws.{length-truncate}
use tcp_chat_server_c.CString.Numbers.{
  atoi, atoi-fits, atol-decimal, atol-negative, fits_int, negated,
}
use tcp_chat_server_c.Arguments.{
  ClientParameter, ServerParameter, bad_port, parse_client_args, parse_server_args,
}

abbrev pub IsPort : ℤ → Type 0
IsPort p = (n : ℕ) × (p ≡ pos n) × (0 < n) × (n ≤ 65535)

bad_port→IsPort : (p : ℤ) → bad_port p ≡ false → IsPort p
unfolding bad_port
bad_port→IsPort (pos n) h = (n, refl, ground arith, ground arith)
bad_port→IsPort (negsuc n) h = absurd (cc h)

-- What is taken has a port that fits 16 bits, and an address that fits its array.
abbrev pub ClientWithin : Option ClientParameter → Type 0
ClientWithin none = Unit
ClientWithin (some p) = IsPort p.port × (length p.server_ip ≤ 63)

parse_client_args-Within :
    (overflow : Bytes → ℤ) (argv : List Bytes) → ClientWithin (parse_client_args overflow argv)
unfolding parse_client_args
parse_client_args-Within overflow (program ∷ ip ∷ port ∷ []) =
    elim (Bool-cases (bad_port (atoi overflow port))) [
      | inl bad ↦ rw bad tt
      | inr good ↦ rw good (bad_port→IsPort (atoi overflow port) good, length-truncate 63 ip)
    ]
parse_client_args-Within overflow [] = tt
parse_client_args-Within overflow (a ∷ []) = tt
parse_client_args-Within overflow (a ∷ b ∷ []) = tt
parse_client_args-Within overflow (a ∷ b ∷ c ∷ d ∷ e) = tt

abbrev pub ServerWithin : Option ServerParameter → Type 0
ServerWithin none = Unit
ServerWithin (some p) = IsPort p.port

-- What the server takes is a port that fits 16 bits.
parse_server_args-Within :
    (overflow : Bytes → ℤ) (argv : List Bytes) → ServerWithin (parse_server_args overflow argv)
unfolding parse_server_args
parse_server_args-Within overflow (program ∷ port ∷ []) =
    elim (Bool-cases (bad_port (atoi overflow port))) [
      | inl bad ↦ rw bad tt
      | inr good ↦ rw good (bad_port→IsPort (atoi overflow port) good)
    ]
parse_server_args-Within overflow [] = tt
parse_server_args-Within overflow (a ∷ []) = tt
parse_server_args-Within overflow (a ∷ b ∷ c ∷ d) = tt

-- A number written in decimal, in place of the port, and the same behind a minus sign.
pub record ReadsPort (overflow : Bytes → ℤ) (program ip : Bytes) (n : ℕ) : Type 0 where
  pub printed :
      ((0 < n)
        × (n ≤ 65535)
        × (parse_client_args overflow (program ∷ ip ∷ decimal n ∷ [])
            ≡ some (record { server_ip = take 63 ip; port = pos n })))
      ⊎ (((n ≡ 0) ⊎ (65535 < n))
          × (parse_client_args overflow (program ∷ ip ∷ decimal n ∷ []) ≡ none))
  pub negative : parse_client_args overflow (program ∷ ip ∷ (b'-' ∷ decimal n) ∷ []) ≡ none
  pub bounded : (argv : List Bytes) → ClientWithin (parse_client_args overflow argv)
  pub server_printed :
      ((0 < n)
        × (n ≤ 65535)
        × (parse_server_args overflow (program ∷ decimal n ∷ []) ≡ some (record { port = pos n })))
      ⊎ (((n ≡ 0) ⊎ (65535 < n)) × (parse_server_args overflow (program ∷ decimal n ∷ []) ≡ none))
  pub server_negative : parse_server_args overflow (program ∷ (b'-' ∷ decimal n) ∷ []) ≡ none
  pub server_bounded : (argv : List Bytes) → ServerWithin (parse_server_args overflow argv)

atoi-decimal : (overflow : Bytes → ℤ) (n : ℕ) → n < 2 ^ 31 → atoi overflow (decimal n) ≡ pos n
atoi-decimal overflow n h =
    atoi-fits overflow (decimal n) (ap fits_int (atol-decimal n) ∙ unfold fits_int in ground arith)
    ∙ atol-decimal n

negative_port :
    (overflow : Bytes → ℤ) (n : ℕ) → n < 2 ^ 31 → bad_port (atoi overflow (b'-' ∷ decimal n)) ≡ true
negative_port overflow n h =
    ap bad_port (
      atoi-fits overflow (b'-' ∷ decimal n) (ap fits_int (atol-negative n) ∙ small n h)
      ∙ atol-negative n)
    ∙ bad n
  where
    small : (n : ℕ) → n < 2 ^ 31 → fits_int (negated n) ≡ true
    small zero h = unfold fits_int negated in ground arith
    small (suc n) h = unfold fits_int negated in ground arith

    bad : (n : ℕ) → bad_port (negated n) ≡ true
    bad zero = unfold bad_port negated in refl
    bad (suc n) = unfold bad_port negated in refl

-- The ports of the two programs, for a number below 2 ^ 31: written in decimal as the last argument
-- (of three for the client, of two for the server), a number from 1 to 65535 is taken as the port,
-- by the client with the first 63 bytes of the address, and any other is refused; behind a minus
-- sign it is refused. Whatever the arguments are, and whatever `atoi` gives for numbers that an
-- `int` does not hold, what is taken has a port from 1 to 65535, and for the client an address of
-- at most 63 bytes.
pub parse_args-ReadsPort :
    (overflow : Bytes → ℤ) (program ip : Bytes) (n : ℕ)
    → n < 2 ^ 31
    → ReadsPort overflow program ip n
unfolding parse_client_args parse_server_args truncate
parse_args-ReadsPort overflow program ip n h =
    let port = atoi-decimal overflow n h in
    record {
      printed = elim (Bool-cases (n == 0 || ltb 65535 n)) [
        | inl bad ↦ inr (ground arith, rw (port, bad_port, bad) refl)
        | inr good ↦ inl (ground arith, ground arith, rw (port, bad_port, good) refl)
      ];
      negative = rw (negative_port overflow n h) refl;
      bounded = parse_client_args-Within overflow;
      server_printed = elim (Bool-cases (n == 0 || ltb 65535 n)) [
        | inl bad ↦ inr (ground arith, rw (port, bad_port, bad) refl)
        | inr good ↦ inl (ground arith, ground arith, rw (port, bad_port, good) refl)
      ];
      server_negative = rw (negative_port overflow n h) refl;
      server_bounded = parse_server_args-Within overflow;
    }
