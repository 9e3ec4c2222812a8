-- ===== src/Prelude/Dict.antt =====
-- Go's maps with text keys, as association lists. What a loop over a map sees first is not fixed
-- by the language: a function that ranges over a map takes the order as a parameter.
use ec_order_state_service.Prelude.{
  ◌≡◌, refl, String, ◌==◌, eq_iff, Bool, true, false, Option, none, some, List, [], ◌∷◌, arith,
  if◌then◌else◌,
}

abbrev pub Dict {ℓ} : Type ℓ → Type ℓ
Dict V = List (String × V)

module _ {ℓ} {V : Type ℓ} where
  abbrev pub lookup : String → Dict V → Option V
  lookup key [] = none
  lookup key ((old, value) ∷ entries) = if old == key then some value else lookup key entries

  -- `m[key] = value`
  abbrev pub insert : String → V → Dict V → Dict V
  insert key value [] = (key, value) ∷ []
  insert key value ((old, old_value) ∷ entries) =
      if old == key then (key, value) ∷ entries else (old, old_value) ∷ insert key value entries

  pub lookup-insert :
      (key asked : String) (value : V) (entries : Dict V)
      → lookup asked (insert key value entries)
        ≡ (if key == asked then some value else lookup asked entries)
  lookup-insert key asked value [] = refl
  lookup-insert key asked value ((old, old_value) ∷ entries) = ground (
    arith,
    eq_iff old key,
    eq_iff old asked,
    eq_iff key asked,
    lookup-insert key asked value entries,
  )

-- A text among others.
abbrev pub mem : String → List String → Bool
mem k [] = false
mem k (j ∷ ks) = if j == k then true else mem k ks
