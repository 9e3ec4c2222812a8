-- ===== src/Prelude/Duration/Fuel.antt =====
-- `time.ParseDuration`: the rounds of its loop.
use ec_order_state_service.Prelude.{
  ℕ, zero, suc, ◌+◌, ◌*◌, ◌≤◌, ◌<◌, ◌≡◌, refl, Bool, true, false, some, List, [], ◌∷◌, length,
  arith, inl, inr, Option-cases,
}
use ec_order_state_service.Prelude.Decimal.{push_digit}
use ec_order_state_service.Prelude.Duration.{
  leading_int, leading_fraction, split_unit, unit_value, after_point, take_unit, parse_part,
  parse_parts,
}

leading_int-length :
    (n v : ℕ) (s rest : List ℕ) → leading_int n s ≡ some (v, rest) → length rest ≤ length s
unfolding leading_int
leading_int-length n v [] rest e = ground arith
leading_int-length n v (c ∷ s) rest e = ground (arith, leading_int-length (push_digit n c) v s rest)

leading_fraction-length :
    (full : Bool) (n scale : ℕ) (s : List ℕ) → length (leading_fraction full n scale s).2 ≤ length s
unfolding leading_fraction
leading_fraction-length full n scale [] = omega arith
leading_fraction-length full n scale (c ∷ s) = ground (
  arith,
  leading_fraction-length true n scale s,
  leading_fraction-length false (push_digit n c) (scale * 10) s,
)

split_unit-length : (s : List ℕ) → length (split_unit s).0 + length (split_unit s).1 ≡ length s
unfolding split_unit
split_unit-length [] = refl
split_unit-length (c ∷ s) = ground (arith, split_unit-length s)

-- No unit has the empty name.
unit_value-length : (u : List ℕ) (k : ℕ) → unit_value u ≡ some k → 0 < length u
unfolding unit_value
unit_value-length [] k e = cc
unit_value-length (c ∷ u) k e = omega arith

module _ (fraction : ℕ → ℕ → ℕ → ℕ) where
  after_point-length : (s : List ℕ) → length (after_point fraction s).2 ≤ length s
  after_point-length [] = omega arith
  after_point-length (c ∷ s) = ground (arith, leading_fraction-length false 0 1 s)

  take_unit-length :
      (d v d' : ℕ) (pre : Bool) (r : (ℕ × ℕ) × Bool × List ℕ) (rest : List ℕ)
      → take_unit fraction d v pre r ≡ some (d', rest)
      → length rest < length r.2
  unfolding take_unit
  take_unit-length d v d' pre ((f, scale), post, s) rest e =
      let lengths = split_unit-length s in
      elim (Option-cases (unit_value (split_unit s).0)) [
        | inl unknown ↦ absurd (ground (arith, rw (unknown, take_unit) at e))
        | inr (k, known) ↦
            let named = unit_value-length (split_unit s).0 k known in
            let e' = rw (known, take_unit) at e in ground (arith, e')
      ]

  parse_part-length :
      (d d' : ℕ) (s rest : List ℕ)
      → parse_part fraction d s ≡ some (d', rest)
      → length rest < length s
  unfolding parse_part
  parse_part-length d d' s rest e = elim (Option-cases (leading_int 0 s)) [
    | inl overflow ↦ absurd (ground (arith, rw (overflow, parse_part) at e))
    | inr ((v, s'), read) ↦
        let e' = rw (read, parse_part) at e in
        omega (
          arith,
          leading_int-length 0 v s s' read,
          after_point-length s',
          take_unit-length d v d' _ (after_point fraction s') rest e',
        )
  ]

  -- As many rounds as there are code points left are enough: more change nothing.
  pub parse_parts_enough :
      (fuel fuel' d : ℕ) (s : List ℕ)
      → length s ≤ fuel
      → length s ≤ fuel'
      → parse_parts fraction fuel d s ≡ parse_parts fraction fuel' d s
  unfolding parse_parts
  parse_parts_enough fuel fuel' d [] enough enough' = refl
  parse_parts_enough zero fuel' d (c ∷ s) enough enough' = absurd (omega arith)
  parse_parts_enough (suc fuel) zero d (c ∷ s) enough enough' = absurd (omega arith)
  parse_parts_enough (suc fuel) (suc fuel') d (c ∷ s) enough enough' =
      elim (Option-cases (parse_part fraction d (c ∷ s))) [
        | inl bad ↦ rw (bad, parse_parts) refl
        | inr ((d', rest), good) ↦
            let shorter = parse_part-length d d' (c ∷ s) rest good in
            rw (good, parse_parts)
              (parse_parts_enough fuel fuel' d' rest (omega arith) (omega arith))
      ]
