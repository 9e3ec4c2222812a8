-- ===== src/Prelude/Duration.antt =====
-- Go's `time.ParseDuration`, over the code points of a text: numbers of nanoseconds. An error is
-- `none`: the program does not look at it.
pub mod Units
pub mod Fuel
use ec_order_state_service.Prelude.{
  ℕ, zero, suc, ◌+◌, ◌-◌, ◌*◌, ◌/◌, ◌%◌, Bool, true, false, not, ◌&&◌, ◌||◌, Option, none, some,
  List, [], ◌∷◌, leb, ltb, beq, length, if◌then◌else◌,
}
use ec_order_state_service.Prelude.Text.{codes}
use ec_order_state_service.Prelude.Int.{ℤ, pos, sub_ℕ}
use ec_order_state_service.Prelude.Decimal.{is_digit, push_digit, split_sign}

-- leadingInt, with the number read so far: the number and the rest, or an overflow.
unfoldable pub leading_int : ℕ → List ℕ → Option (ℕ × List ℕ)
leading_int n [] = some (n, [])
leading_int n (c ∷ s) =
    if is_digit c
    then if ltb 922337203685477580 n || ltb 9223372036854775808 (push_digit n c)
      then none
      else leading_int (push_digit n c) s
    else some (n, c ∷ s)

-- leadingFraction: the digits kept, the power of ten that they stand over, and the rest. Once a
-- digit does not fit, those behind it are passed over.
unfoldable pub leading_fraction : Bool → ℕ → ℕ → List ℕ → ℕ × ℕ × List ℕ
leading_fraction full n scale [] = (n, scale, [])
leading_fraction full n scale (c ∷ s) =
    if is_digit c
    then if full || (ltb 922337203685477580 n || ltb 9223372036854775808 (push_digit n c))
      then leading_fraction true n scale s
      else leading_fraction false (push_digit n c) (scale * 10) s
    else (n, scale, c ∷ s)

-- The text up to the next point or digit, and the rest.
unfoldable pub split_unit : List ℕ → List ℕ × List ℕ
split_unit [] = ([], [])
split_unit (c ∷ s) =
    let (u, rest) = split_unit s in if beq c b'.' || is_digit c then ([], c ∷ s) else (c ∷ u, rest)

abbrev pub eq_codes : List ℕ → List ℕ → Bool
eq_codes [] [] = true
eq_codes (c ∷ s) (d ∷ t) = beq c d && eq_codes s t
eq_codes _ _ = false

abbrev unit_in : List (List ℕ × ℕ) → List ℕ → Option ℕ
unit_in [] u = none
unit_in ((name, nanoseconds) ∷ units) u =
    if eq_codes name u then some nanoseconds else unit_in units u

-- unitMap: "µs" stands there under U+00B5 and under U+03BC.
abbrev units : List (List ℕ × ℕ)
units =
    (codes "ns", 1)
    ∷ (codes "us", 1000)
    ∷ (0x00B5 ∷ b's' ∷ [], 1000)
    ∷ (0x03BC ∷ b's' ∷ [], 1000)
    ∷ (codes "ms", 1000000)
    ∷ (codes "s", 1000000000)
    ∷ (codes "m", 60000000000)
    ∷ (codes "h", 3600000000000)
    ∷ []

unfoldable pub unit_value : List ℕ → Option ℕ
unit_value = unit_in units

-- A uint64.
abbrev pub wrap64 : ℕ → ℕ
wrap64 n = n % 18446744073709551616

-- `fraction f unit scale` is `uint64(float64(f) * (float64(unit) / scale))`.
module _ (fraction : ℕ → ℕ → ℕ → ℕ) where
  -- The nanoseconds of `v` and `f / scale` units, added to those before.
  abbrev pub add_units : ℕ → ℕ → ℕ → ℕ → ℕ → Option ℕ
  add_units d unit v f scale =
      let whole = v * unit in
      let all = if beq f 0 then whole else wrap64 (whole + fraction f unit scale) in
      if ltb (9223372036854775808 / unit) v || ltb 9223372036854775808 all
      then none
      else if ltb 9223372036854775808 (wrap64 (d + all))
      then none
      else some (wrap64 (d + all))

  -- The number after its whole part `v`: the digits behind a point, whether there are any, the rest.
  abbrev pub after_point : List ℕ → (ℕ × ℕ) × Bool × List ℕ
  after_point [] = ((0, 1), false, [])
  after_point (c ∷ s) =
      if beq c b'.'
      then (let (f, scale, rest) = leading_fraction false 0 1 s in
          ((f, scale), not (beq (length s) (length rest)), rest))
      else ((0, 1), false, c ∷ s)

  -- The unit of a number that has been read, if it has a digit on a side of the point.
  unfoldable pub take_unit : ℕ → ℕ → Bool → (ℕ × ℕ) × Bool × List ℕ → Option (ℕ × List ℕ)
  unfolding split_unit unit_value
  take_unit d v pre ((f, scale), post, s) =
      let (u, rest) = split_unit s in
      if not pre && not post then none else elim (unit_value u) [
        | none ↦ none
        | some unit ↦ elim (add_units d unit v f scale) [ none ↦ none | some d' ↦ some (d', rest) ]
      ]

  -- One number with its unit, and what follows it. (A part that starts with neither a digit nor a
  -- point has no digits on either side of the point.)
  unfoldable pub parse_part : ℕ → List ℕ → Option (ℕ × List ℕ)
  unfolding leading_int leading_fraction take_unit
  parse_part d s = elim (leading_int 0 s) [
    | none ↦ none
    | some (v, s') ↦ take_unit d v (not (beq (length s) (length s'))) (after_point s')
  ]

  -- The loop: each round takes a code point at least, so that the text's length is fuel enough.
  unfoldable pub parse_parts : ℕ → ℕ → List ℕ → Option ℕ
  unfolding parse_part
  parse_parts fuel d [] = some d
  parse_parts zero d (c ∷ s) = none
  parse_parts (suc fuel) d (c ∷ s) = elim (parse_part d (c ∷ s)) [
    | none ↦ none
    | some (d', rest) ↦ parse_parts fuel d' rest
  ]

  abbrev pub signed_duration : Bool → Option ℕ → Option ℤ
  signed_duration negative none = none
  signed_duration true (some d) = some (sub_ℕ 0 d)
  signed_duration false (some d) = if ltb 9223372036854775807 d then none else some (pos d)

  abbrev pub parse_unsigned : List ℕ → Option ℕ
  parse_unsigned [] = none
  parse_unsigned (c ∷ s) =
      if eq_codes (c ∷ s) (b'0' ∷ []) then some 0 else parse_parts (length (c ∷ s)) 0 (c ∷ s)

  unfoldable pub parse_duration : List ℕ → Option ℤ
  unfolding parse_parts
  parse_duration s =
      let (negative, rest) = split_sign s in signed_duration negative (parse_unsigned rest)
