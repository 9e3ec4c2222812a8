-- ===== src/Prelude/Decimal.antt =====
-- Go's `strconv.Atoi` on a 64-bit machine, over the code points of a text. An error is `none`: the
-- program does not look at it.
use ec_order_state_service.Prelude.{
  ℕ, ◌+◌, ◌-◌, ◌*◌, ◌<◌, Bool, true, false, ◌&&◌, Option, none, some, List, [], ◌∷◌, leb, ltb, beq,
  if◌then◌else◌,
}
use ec_order_state_service.Prelude.Int.{ℤ, pos, negsuc, sub_ℕ}

abbrev pub is_digit : ℕ → Bool
is_digit c = leb b'0' c && leb c b'9'

-- The digit `c` put behind the number `n`.
abbrev pub push_digit : ℕ → ℕ → ℕ
push_digit n c = n * 10 + (c - b'0')

-- The rounds of `strconv.ParseUint` in base ten that are left, with the number read so far.
unfoldable pub parse_rest : List ℕ → ℕ → Option ℕ
parse_rest [] n = some n
parse_rest (c ∷ s) n =
    if is_digit c && ltb (push_digit n c) 18446744073709551616
    then parse_rest s (push_digit n c)
    else none

unfoldable pub parse_uint : List ℕ → Option ℕ
unfolding parse_rest
parse_uint [] = none
parse_uint (c ∷ s) = parse_rest (c ∷ s) 0

-- A sign that may stand first: whether it is a minus, and what follows.
abbrev pub split_sign : List ℕ → Bool × List ℕ
split_sign [] = (false, [])
split_sign (c ∷ s) =
    if beq c b'-' then (true, s) else if beq c b'+' then (false, s) else (false, c ∷ s)

abbrev pub with_sign : Bool → Option ℕ → Option ℤ
with_sign negative none = none
with_sign false (some n) = if ltb n 9223372036854775808 then some (pos n) else none
with_sign true (some n) = if leb n 9223372036854775808 then some (sub_ℕ 0 n) else none

unfoldable pub atoi : List ℕ → Option ℤ
unfolding parse_uint
atoi s = let (negative, digits) = split_sign s in with_sign negative (parse_uint digits)

-- The integers of 64 bits.
abbrev pub IsInt64 : ℤ → Type 0
IsInt64 (pos n) = n < 9223372036854775808
IsInt64 (negsuc n) = n < 9223372036854775808
