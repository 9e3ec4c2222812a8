-- ===== src/Prelude/Print.antt =====
-- Decimal prints of numbers, and how Go's readers take them.
use ec_order_state_service.Prelude.{
  ℕ, zero, suc, ◌+◌, ◌/◌, ◌%◌, ◌<◌, ◌≤◌, ◌≡◌, refl, false, some, List, [], ◌∷◌, arith, ltb,
  if◌then◌else◌,
}
use ec_order_state_service.Prelude.Int.{ℤ, pos, negsuc}
use ec_order_state_service.Prelude.Decimal.{parse_rest, parse_uint, split_sign, atoi, IsInt64}
use ec_order_state_service.Prelude.Duration.{leading_int}

-- The digits of `n` before `out`, in at most `fuel` rounds.
unfoldable pub digits : ℕ → ℕ → List ℕ → List ℕ
digits zero n out = out
digits (suc fuel) n out =
    let longer = (b'0' + n % 10) ∷ out in if ltb n 10 then longer else digits fuel (n / 10) longer

abbrev pub print_before : ℕ → List ℕ → List ℕ
print_before n = digits (suc n) n

abbrev pub print : ℤ → List ℕ
print (pos n) = print_before n []
print (negsuc n) = b'-' ∷ print_before (suc n) []

parse_rest-digits :
    (fuel n : ℕ) (out : List ℕ)
    → n < fuel
    → n < 18446744073709551616
    → parse_rest (digits fuel n out) 0 ≡ parse_rest out n
unfolding parse_rest digits
parse_rest-digits zero n out h small = absurd (omega arith)
parse_rest-digits (suc fuel) n out h small =
    ground (arith, parse_rest-digits fuel (n / 10) ((b'0' + n % 10) ∷ out))

pub leading_int-digits :
    (fuel n : ℕ) (out : List ℕ)
    → n < fuel
    → n ≤ 9223372036854775808
    → leading_int 0 (digits fuel n out) ≡ leading_int n out
unfolding leading_int digits
leading_int-digits zero n out h small = absurd (omega arith)
leading_int-digits (suc fuel) n out h small =
    ground (arith, leading_int-digits fuel (n / 10) ((b'0' + n % 10) ∷ out))

pub split_sign-digits :
    (fuel n : ℕ) (out : List ℕ)
    → n < fuel
    → split_sign (digits fuel n out) ≡ (false, digits fuel n out)
unfolding digits
split_sign-digits zero n out h = absurd (omega arith)
split_sign-digits (suc fuel) n out h =
    ground (arith, split_sign-digits fuel (n / 10) ((b'0' + n % 10) ∷ out))

parse_uint-digits :
    (fuel n : ℕ) (out : List ℕ)
    → n < fuel
    → parse_uint (digits fuel n out) ≡ parse_rest (digits fuel n out) 0
unfolding parse_uint digits
parse_uint-digits zero n out h = absurd (omega arith)
parse_uint-digits (suc fuel) n out h =
    ground (arith, parse_uint-digits fuel (n / 10) ((b'0' + n % 10) ∷ out))

parse_uint-print_before :
    (n : ℕ) → n < 18446744073709551616 → parse_uint (print_before n []) ≡ some n
unfolding parse_rest
parse_uint-print_before n small =
    rw
      (
        parse_uint-digits (suc n) n [] (omega arith),
        parse_rest-digits (suc n) n [] (omega arith) small,
      )
      refl

pub atoi-print : (z : ℤ) → IsInt64 z → atoi (print z) ≡ some z
unfolding atoi
atoi-print (pos n) small =
    rw (split_sign-digits (suc n) n [] (omega arith), parse_uint-print_before n (omega arith))
      (ground arith)
atoi-print (negsuc n) small = rw (parse_uint-print_before (suc n) (omega arith)) (ground arith)
