-- ===== src/Prelude/Text.antt =====
-- `strings.ToLower` and `strings.Contains`, over the code points of a text. The patterns that the
-- program looks for are ASCII, so only the letters whose lower case is ASCII are converted: A to Z,
-- the dotted capital I (U+0130) and the Kelvin sign (U+212A). No other conversion changes a result.
use Prim.Native.Char.{code}
use text.Mathlib.TextLemmas.{nil-append, cons-append}
use ec_order_state_service.Prelude.{
  ℕ, ◌+◌, ◌≡◌, refl, Bool, true, false, ◌&&◌, ◌||◌, String, ◌<>◌, List, [], ◌∷◌, ◌++◌, arith, leb,
  beq, if◌then◌else◌,
}

abbrev pub codes : String → List ℕ
codes String.[] = []
codes (String.◌∷◌ c s) = code c ∷ codes s

pub lower_code : ℕ → ℕ
lower_code c =
    if leb b'A' c && leb c b'Z'
    then c + 32
    else if beq c 0x130
    then b'i'
    else if beq c 0x212A
    then b'k'
    else c

-- strings.ToLower
unfoldable pub to_lower : List ℕ → List ℕ
unfolding lower_code
to_lower [] = []
to_lower (c ∷ s) = lower_code c ∷ to_lower s

abbrev pub is_prefix : List ℕ → List ℕ → Bool
is_prefix [] s = true
is_prefix (p ∷ ps) [] = false
is_prefix (p ∷ ps) (c ∷ s) = beq p c && is_prefix ps s

-- strings.Contains
unfoldable pub contains : List ℕ → List ℕ → Bool
contains [] p = is_prefix p []
contains (c ∷ s) p = is_prefix p (c ∷ s) || contains s p

pub codes-append : (s t : String) → codes (s <> t) ≡ codes s ++ codes t
codes-append String.[] t = rw nil-append
codes-append (String.◌∷◌ c s) t = rw cons-append (λ i. code c ∷ codes-append s t i)

pub to_lower-append : (s t : List ℕ) → to_lower (s ++ t) ≡ to_lower s ++ to_lower t
unfolding to_lower
to_lower-append [] t = refl
to_lower-append (c ∷ s) t = λ i. lower_code c ∷ to_lower-append s t i

-- What a text contains, a longer text that ends in it contains too.
pub contains-append : (s t p : List ℕ) → contains t p ≡ true → contains (s ++ t) p ≡ true
unfolding contains
contains-append [] t p h = h
contains-append (c ∷ s) t p h = rw (contains-append s t p h) (ground arith)
