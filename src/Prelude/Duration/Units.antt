-- ===== src/Prelude/Duration/Units.antt =====
-- `time.ParseDuration` on a number of one unit.
use ec_order_state_service.Prelude.{
  ℕ, zero, suc, ◌+◌, ◌*◌, ◌/◌, ◌%◌, ◌<◌, ◌≤◌, ◌≡◌, refl, true, false, some, List, [], ◌∷◌, length,
  arith, beq, inl, inr, Bool-cases,
}
use ec_order_state_service.Prelude.Text.{codes}
use ec_order_state_service.Prelude.Int.{pos}
use ec_order_state_service.Prelude.Print.{
  digits, print_before, leading_int-digits, split_sign-digits,
}
use ec_order_state_service.Prelude.Duration.{
  leading_int, split_unit, unit_value, take_unit, after_point, parse_part, parse_parts,
  parse_unsigned, parse_duration,
}

pub data DurationUnit : Type 0 where
  ns : DurationUnit
  us : DurationUnit
  ms : DurationUnit
  s : DurationUnit
  m : DurationUnit
  h : DurationUnit

abbrev pub name : DurationUnit → List ℕ
name ns = codes "ns"
name us = codes "us"
name ms = codes "ms"
name s = codes "s"
name m = codes "m"
name h = codes "h"

abbrev pub size : DurationUnit → ℕ
size ns = 1
size us = 1000
size ms = 1000000
size s = 1000000000
size m = 60000000000
size h = 3600000000000

leading_int-name : (n : ℕ) (u : DurationUnit) → leading_int n (name u) ≡ some (n, name u)
unfolding leading_int
leading_int-name n ns = refl
leading_int-name n us = refl
leading_int-name n ms = refl
leading_int-name n s = refl
leading_int-name n m = refl
leading_int-name n h = refl

pub length-digits : (fuel n : ℕ) (out : List ℕ) → n < fuel → length out < length (digits fuel n out)
unfolding digits
length-digits zero n out few = absurd (omega arith)
length-digits (suc fuel) n out few =
    ground (arith, length-digits fuel (n / 10) ((b'0' + n % 10) ∷ out))

length-name : (u : DurationUnit) → 0 < length (name u)
length-name ns = omega arith
length-name us = omega arith
length-name ms = omega arith
length-name s = omega arith
length-name m = omega arith
length-name h = omega arith

module _ (fraction : ℕ → ℕ → ℕ → ℕ) where
  take_unit-name :
      (n : ℕ) (u : DurationUnit)
      → n * size u < 9223372036854775808
      → take_unit fraction 0 n true (after_point fraction (name u)) ≡ some (n * size u, [])
  unfolding take_unit split_unit unit_value
  take_unit-name n ns small = ground arith
  take_unit-name n us small = ground arith
  take_unit-name n ms small = ground arith
  take_unit-name n s small = ground arith
  take_unit-name n m small = ground arith
  take_unit-name n h small = ground arith

  le-size : (n : ℕ) (u : DurationUnit) → n ≤ n * size u
  le-size n ns = omega arith
  le-size n us = omega arith
  le-size n ms = omega arith
  le-size n s = omega arith
  le-size n m = omega arith
  le-size n h = omega arith

  parse_part-name :
      (n : ℕ) (u : DurationUnit)
      → n * size u < 9223372036854775808
      → parse_part fraction 0 (print_before n (name u)) ≡ some (n * size u, [])
  unfolding parse_part
  parse_part-name n u small =
      let longer = length-digits (suc n) n (name u) (omega arith) in
      let apart : beq (length (print_before n (name u))) (length (name u)) ≡ false = ground arith in
      rw
        (
          parse_part,
          leading_int-digits (suc n) n (name u) (omega arith) (omega (arith, le-size n u)),
          leading_int-name n u,
          apart,
        )
        (take_unit-name n u small)

  parse_unsigned_long :
      (text : List ℕ) (d : ℕ)
      → 1 < length text
      → parse_part fraction 0 text ≡ some (d, [])
      → parse_unsigned fraction text ≡ some d
  unfolding parse_parts
  parse_unsigned_long [] d long e = absurd (omega arith)
  parse_unsigned_long (c ∷ []) d long e = absurd (omega arith)
  parse_unsigned_long (c ∷ c' ∷ text) d long e = elim (Bool-cases (beq c b'0')) [
    | inl zeroed ↦ rw (zeroed, parse_parts, e) refl
    | inr other ↦ rw (other, parse_parts, e) refl
  ]

  pub parse_duration-print :
      (n : ℕ) (u : DurationUnit)
      → n * size u < 9223372036854775808
      → parse_duration fraction (print_before n (name u)) ≡ some (pos (n * size u))
  unfolding parse_duration
  parse_duration-print n u small =
      let long = length-digits (suc n) n (name u) (omega arith) in
      rw
        (
          split_sign-digits (suc n) n (name u) (omega arith),
          parse_unsigned_long (print_before n (name u)) (n * size u)
              (omega (arith, length-name u, long)) (parse_part-name n u small),
        )
        (ground arith)
