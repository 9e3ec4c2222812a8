-- ===== src/Config/RoundTrip.antt =====
-- internal/config/config.go: reading back the numbers and durations of an environment variable.
use ec_order_state_service.Prelude.{
  ℕ, ◌*◌, ◌<◌, ◌≡◌, refl, String, ◌==◌, eq_iff, false, some, [], arith, inl, inr, Bool-cases, suc,
  length,
}
use ec_order_state_service.Prelude.Int.{ℤ, pos, negsuc}
use ec_order_state_service.Prelude.Text.{codes}
use ec_order_state_service.Prelude.Decimal.{IsInt64, atoi}
use ec_order_state_service.Prelude.Print.{print, print_before, atoi-print}
use ec_order_state_service.Prelude.Duration.{parse_duration}
use ec_order_state_service.Prelude.Duration.Units.{
  DurationUnit, name, size, parse_duration-print, length-digits,
}
use ec_order_state_service.Config.{get_env_as_int, get_env_as_duration}

-- A text with code points is not empty.
not_empty : (value : String) → 0 < length (codes value) → (value == "") ≡ false
not_empty value long = elim (Bool-cases (value == "")) [
  | inl empty ↦ absurd (omega (arith, rw ((eq_iff value "").0 empty) at long))
  | inr e ↦ e
]

length-print : (z : ℤ) → 0 < length (print z)
length-print (pos n) = omega (arith, length-digits (suc n) n [] (omega arith))
length-print (negsuc n) = omega arith

module _ (getenv : String → String) (fraction : ℕ → ℕ → ℕ → ℕ) (key : String) where
  -- If an environment variable holds the decimal print of an integer of 64 bits, negative
  -- ones included, getEnvAsInt gives that integer.
  pub get_env_as_int-print :
      (z default_value : ℤ)
      → IsInt64 z
      → codes (getenv key) ≡ print z
      → get_env_as_int getenv fraction key default_value ≡ z
  unfolding get_env_as_int
  get_env_as_int-print z default_value small e =
      let read : atoi (codes (getenv key)) ≡ some z = rw e (atoi-print z small) in
      rw (not_empty (getenv key) (rw e (length-print z)), read) refl

  -- If an environment variable holds the decimal print of a number followed by one of the
  -- units ns, us, ms, s, m and h, and that many units are fewer than 2 ^ 63 nanoseconds,
  -- getEnvAsDuration gives their nanoseconds.
  pub get_env_as_duration-print :
      (n : ℕ) (u : DurationUnit) (default_value : ℤ)
      → n * size u < 9223372036854775808
      → codes (getenv key) ≡ print_before n (name u)
      → get_env_as_duration getenv fraction key default_value ≡ pos (n * size u)
  unfolding get_env_as_duration
  get_env_as_duration-print n u default_value small e =
      let read : parse_duration fraction (codes (getenv key)) ≡ some (pos (n * size u)) =
        rw e (parse_duration-print fraction n u small) in
      let longer = length-digits (suc n) n (name u) (omega arith) in
      rw (not_empty (getenv key) (rw e (omega (arith, longer))), read) refl
