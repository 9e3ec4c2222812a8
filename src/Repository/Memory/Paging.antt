-- ===== src/Repository/Memory/Paging.antt =====
-- internal/repository/order_repository.go: the paging of InMemoryOrderRepository.GetOrdersByStatus.
use mathlib.Core.Option.{some-injective, none-ne-some}
use ec_order_state_service.Prelude.{
  All, All-take, All-drop, ◌&&◌, dec_lt, ◌∷◌, ℕ, zero, suc, ◌+◌, ◌-◌, ◌<◌, ◌≤◌, ◌≡◌, refl, some,
  List, arith, length, take, drop, if◌then◌else◌, [], inl, inr, Bool-cases, sym, ◌∙◌, take_all,
  length-drop,
}
use ec_order_state_service.Prelude.Int.{ℤ, pos, pos_part, leb_ℤ, ltb_ℤ, int64_sum}
use ec_order_state_service.Repository.Memory.{page, slice, window}

take_nil : {A : Type 0} (n : ℕ) (xs : List A) → length xs ≤ 0 → take n xs ≡ []
take_nil zero xs h = refl
take_nil (suc n) [] h = refl
take_nil (suc n) (x ∷ xs) h = absurd (omega arith)

module _ {A : Type 0} (orders : List A) where
  -- The number of orders that a page may hold.
  abbrev pub page_size : ℤ → ℕ
  page_size limit = if leb_ℤ limit (pos 0) then length orders else pos_part limit

  take-drop_short :
      (n lo : ℕ)
      → length orders ≤ lo + n
      → take (length orders - lo) (drop lo orders) ≡ take n (drop lo orders)
  take-drop_short n lo h =
      take_all _ _ (omega (arith, length-drop lo orders))
      ∙ sym (take_all _ _ (omega (arith, length-drop lo orders)))

  take-drop_none : (n lo : ℕ) → length orders ≤ lo → take n (drop lo orders) ≡ []
  take-drop_none n lo h = take_nil n (drop lo orders) (omega (arith, length-drop lo orders))

  window_lem :
      (size lo : ℕ)
      → (lo < length orders → lo + size < 9223372036854775808)
      → window orders (pos size) (pos lo) ≡ some (take size (drop lo orders))
  unfolding window
  window_lem size lo small = elim (dec_lt lo (length orders)) [
    | no beyond ↦ ground (arith, take-drop_none size lo (omega arith))
    | yes within ↦ rw (int64_sum lo size (small within)) (ground (arith, take-drop_short size lo))
  ]

  clamp_limit :
      (limit : ℤ)
      → (if leb_ℤ limit (pos 0) then pos (length orders) else limit) ≡ pos (page_size limit)
  clamp_limit limit = ground arith

  clamp_offset :
      (offset : ℤ) → (if ltb_ℤ offset (pos 0) then pos 0 else offset) ≡ pos (pos_part offset)
  clamp_offset offset = ground arith

  -- The paging of GetOrdersByStatus gives the limit's number of orders from the offset on,
  -- all of them for a limit that is not positive and from the start for an offset below 0,
  -- without a panic, if the list is shorter than 2 ^ 62 and the sum of offset and limit is
  -- below 2 ^ 63.
  pub page_lem :
      (limit offset : ℤ)
      → length orders < 4611686018427387904
      → pos_part offset + pos_part limit < 9223372036854775808
      → page orders limit offset ≡ some (take (page_size limit) (drop (pos_part offset) orders))
  unfolding page
  page_lem limit offset fits small =
      rw (clamp_limit limit, clamp_offset offset)
        (window_lem (page_size limit) (pos_part offset) (ground arith))

-- Beyond the end of the list a page is empty.
pub page_beyond :
    {A : Type 0} (orders : List A) (limit : ℤ) (offset : ℕ)
    → length orders ≤ offset
    → page orders limit (pos offset) ≡ some []
unfolding page window
page_beyond orders limit offset h = ground arith

-- A page holds members of the list only, whatever the limit and the offset.
module _ {A : Type 0} (P : A → Type 0) (orders : List A) (h : All P orders) where
  slice-All : (lo hi : ℤ) (found : List A) → slice orders lo hi ≡ some found → All P found
  unfolding slice
  slice-All lo hi found e =
      let test = leb_ℤ (pos 0) lo && (leb_ℤ lo hi && leb_ℤ hi (pos (length orders))) in
      elim (Bool-cases test) [
        | inl inside ↦
            let cut = take (pos_part hi - pos_part lo) (drop (pos_part lo) orders) in
            let q : some cut ≡ some found = rw (inside, slice) at e in
            rw (← some-injective cut found q) (All-take P _ _ (All-drop P _ _ h))
        | inr outside ↦ absurd (none-ne-some found (rw (outside, slice) at e))
      ]

  window-All :
      (limit offset : ℤ) (found : List A) → window orders limit offset ≡ some found → All P found
  unfolding window
  window-All limit offset found e = elim (Bool-cases (leb_ℤ (pos (length orders)) offset)) [
    | inl beyond ↦
        let q : some [] ≡ some found = rw (beyond, window) at e in
        rw (← some-injective [] found q) tt
    | inr within ↦ slice-All offset _ found (rw (within, window) at e)
  ]

  pub page-All :
      (limit offset : ℤ) (found : List A) → page orders limit offset ≡ some found → All P found
  unfolding page
  page-All limit offset found e = window-All _ _ found e
