-- ===== src/Scheduler/Termination.antt =====
-- internal/scheduler/order_state_scheduler.go: the number of rounds of the loop over the pages.
use ec_order_state_service.Prelude.{
  ℕ, zero, suc, ◌+◌, ◌-◌, ◌<◌, ◌≡◌, ◌≢◌, refl, Option, none, some, List, [], ◌∷◌, length, arith,
  inl, inr, Bool-cases,
}
use ec_order_state_service.Prelude.Int.{ℤ, pos, ltb_ℤ, ◌+ℤ◌, int64, int64_sum}
use ec_order_state_service.Domain.Status.{OrderStatus}
use ec_order_state_service.Domain.Order.{Order}
use ec_order_state_service.Domain.Failure.{Result, ok, err}
use ec_order_state_service.Service.Core.{get_orders_by_status}
use ec_order_state_service.Scheduler.{
  OrderStateScheduler, Outcome, finished, panicked, out_of_fuel, process_batch, page_loop,
  process_status_transition, process_orders, then_on,
}

-- The states in which pages from `bound` on are empty, which the scheduler does not leave.
pub record IsBounded {W : Type 0} (s : OrderStateScheduler W) (bound : ℕ) (Inside : W → Type 0)
    : Type 0 where
  pub page_inside :
      (status : OrderStatus) (offset : ℤ) (w : W)
      → Inside w
      → Inside (get_orders_by_status s.order_state_service status s.batch_size offset w).1
  pub batch_inside :
      (orders : List Order) (from to : OrderStatus) (w : W)
      → Inside w
      → Inside (process_batch s orders from to w).1
  pub sleep_inside : (n : ℕ) (w : W) → Inside w → Inside (s.sleep n w)
  pub page_end :
      (status : OrderStatus) (offset : ℕ) (w : W) (o : Order) (orders : List Order)
      → Inside w
      → (get_orders_by_status s.order_state_service status s.batch_size (pos offset) w).0
        ≡ some (ok (o ∷ orders))
      → offset < bound
  pub page_fine :
      (status : OrderStatus) (offset : ℕ) (w : W)
      → Inside w
      → (get_orders_by_status s.order_state_service status s.batch_size (pos offset) w).0 ≢ none

-- The loop has ended, without a panic and in a state of the same kind.
abbrev pub Ends : {W : Type 0} → (W → Type 0) → Outcome W → Type 0
Ends Inside (finished _ _ w) = Inside w
Ends Inside panicked = ⊥
Ends Inside out_of_fuel = ⊥

module _ {W : Type 0} (s : OrderStateScheduler W) (bound size : ℕ) (Inside : W → Type 0)
    (B : IsBounded s bound Inside) (sized : s.batch_size ≡ pos (suc size))
    (small : bound + suc size < 9223372036854775808) where
  page_loop-Ends_round :
      (fuel : ℕ) (from to : OrderStatus) (offset updated errors : ℕ) (w : W)
      → Inside w
      → ((offset' updated errors : ℕ) (w : W)
          → Inside w
          → offset' ≡ offset + suc size
          → offset < bound
          → Ends Inside (page_loop s fuel from to (pos offset') updated errors w))
      → (r : Option (Result (List Order)))
      → (get_orders_by_status s.order_state_service from s.batch_size (pos offset) w).0 ≡ r
      → Ends Inside (page_loop s (suc fuel) from to (pos offset) updated errors w)
  unfolding page_loop
  page_loop-Ends_round fuel from to offset updated errors w h ih none p =
      absurd (B.page_fine from offset w h p)
  page_loop-Ends_round fuel from to offset updated errors w h ih (some (err e)) p =
      rw (p, page_loop) (B.page_inside from (pos offset) w h)
  page_loop-Ends_round fuel from to offset updated errors w h ih (some (ok [])) p =
      rw (p, page_loop) (B.page_inside from (pos offset) w h)
  page_loop-Ends_round fuel from to offset updated errors w h ih (some (ok (o ∷ orders))) p =
      let w' = (get_orders_by_status s.order_state_service from s.batch_size (pos offset) w).1 in
      let inside : Inside (process_batch s (o ∷ orders) from to w').1 =
        B.batch_inside (o ∷ orders) from to w' (B.page_inside from (pos offset) w h) in
      let before : offset < bound = B.page_end from offset w o orders h p in
      let next : int64 (pos offset +ℤ s.batch_size) ≡ pos (offset + suc size) =
        rw sized (int64_sum offset (suc size) (omega arith)) in
      elim (Bool-cases (ltb_ℤ (pos (length (o ∷ orders))) s.batch_size)) [
        | inl last ↦ rw (p, page_loop, last) inside
        | inr more ↦
            rw (p, page_loop, more, next)
              (ih (offset + suc size) _ _ _ (B.sleep_inside 100 _ inside) refl before)
      ]

  page_loop-Ends :
      (fuel : ℕ) (from to : OrderStatus) (offset updated errors : ℕ) (w : W)
      → bound - offset < fuel
      → Inside w
      → Ends Inside (page_loop s fuel from to (pos offset) updated errors w)
  unfolding page_loop
  page_loop-Ends zero from to offset updated errors w enough h = absurd (omega arith)
  page_loop-Ends (suc fuel) from to offset updated errors w enough h =
      page_loop-Ends_round fuel from to offset updated errors w h
        (λ offset' updated' errors' w' h' e before.
          page_loop-Ends fuel from to offset' updated' errors' w' (omega arith) h')
        _ refl

  then_on-Ends :
      (r : Outcome W) (next : W → Outcome W)
      → Ends Inside r
      → ((w : W) → Inside w → Ends Inside (next w))
      → Ends Inside (then_on s r next)
  then_on-Ends (finished _ _ w) next a ih = ih w a
  then_on-Ends panicked next a ih = absurd a
  then_on-Ends out_of_fuel next a ih = absurd a

  process_status_transition-Ends :
      (fuel : ℕ) (from to : OrderStatus) (w : W)
      → bound < fuel
      → Inside w
      → Ends Inside (process_status_transition s fuel from to w)
  unfolding process_status_transition
  process_status_transition-Ends fuel from to w enough h =
      page_loop-Ends fuel from to 0 0 0 w (omega arith) h

  -- More rounds than there are orders are enough for each of the three loops of a tick.
  pub process_orders-Ends :
      (fuel : ℕ) (w : W) → bound < fuel → Inside w → Ends Inside (process_orders s fuel w)
  unfolding process_orders
  process_orders-Ends fuel w enough h =
      then_on-Ends _ _ (process_status_transition-Ends fuel _ _ w enough h) λ w1 h1.
        then_on-Ends _ _ (process_status_transition-Ends fuel _ _ w1 enough h1)
          λ w2 h2. process_status_transition-Ends fuel _ _ w2 enough h2
