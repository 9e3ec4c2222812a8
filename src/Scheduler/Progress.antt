-- ===== src/Scheduler/Progress.antt =====
-- internal/scheduler/order_state_scheduler.go: a tick over any service.
use ec_order_state_service.Prelude.{
  ℕ, zero, suc, ◌≡◌, refl, String, true, Option, none, some, List, [], ◌∷◌, length, inl, inr,
  Bool-cases,
}
use ec_order_state_service.Prelude.Int.{ℤ, pos, ltb_ℤ}
use ec_order_state_service.Domain.Status.{
  OrderStatus, waiting_for_shipment, in_transit, wait_pickup, completed, can_transition_to,
}
use ec_order_state_service.Domain.Order.{Order}
use ec_order_state_service.Domain.Failure.{Result, ok, err}
use ec_order_state_service.Service.Core.{get_orders_by_status}
use ec_order_state_service.Service.Contract.{Meaning, Quiet, ◌⨟◌, IsLawful}
use ec_order_state_service.Service.Progress.{Progress, Progress-trans, Quiet-Progress}
use ec_order_state_service.Service.Requests.{batch_update_order_status-Progress}
use ec_order_state_service.Scheduler.{
  OrderStateScheduler, Outcome, finished, panicked, out_of_fuel, pick, update_picked, process_batch,
  page_loop, process_status_transition, process_orders, then_on,
}

-- What the scheduler's own dice and clock leave alone.
pub record IsQuiet {W : Type 0} (s : OrderStateScheduler W) (m : Meaning W) : Type 0 where
  pub rand_keeps : (w : W) → Quiet m w (s.rand w).1
  pub sleep_keeps : (n : ℕ) (w : W) → Quiet m w (s.sleep n w)

-- A run that ends has made progress only.
abbrev pub Advances : {W : Type 0} → Meaning W → W → Outcome W → Type 0
Advances m w (finished _ _ w') = Progress m w w'
Advances m w panicked = Unit {0}
Advances m w out_of_fuel = Unit {0}

module _ {W : Type 0} (s : OrderStateScheduler W) (m : Meaning W)
    (L : IsLawful s.order_state_service m) (Q : IsQuiet s m) where
  nothing : (w : W) → Quiet m w w
  nothing w = record { sees = refl; stays = λ h. h }

  pick-keeps : (orders : List Order) (w : W) → Quiet m w (pick s orders w).1
  unfolding pick
  pick-keeps [] w = nothing w
  pick-keeps (o ∷ orders) w = pick-keeps orders _ ⨟ Q.rand_keeps w

  update_picked-Progress :
      (ids : List String) (from to : OrderStatus) (w : W)
      → can_transition_to from to ≡ true
      → Progress m w (update_picked s ids from to w).1
  unfolding update_picked
  update_picked-Progress [] from to w good = Quiet-Progress (nothing w)
  update_picked-Progress (id ∷ ids) from to w good =
      batch_update_order_status-Progress s.order_state_service m L (id ∷ ids) from to w good

  process_batch-Progress :
      (orders : List Order) (from to : OrderStatus) (w : W)
      → can_transition_to from to ≡ true
      → Progress m w (process_batch s orders from to w).1
  unfolding process_batch
  process_batch-Progress orders from to w good =
      Progress-trans (Quiet-Progress (pick-keeps orders w))
        (update_picked-Progress _ from to _ good)

  Advances-from : {u v : W} → Progress m u v → (r : Outcome W) → Advances m v r → Advances m u r
  Advances-from p (finished _ _ w) a = Progress-trans p a
  Advances-from p panicked a = tt
  Advances-from p out_of_fuel a = tt

  -- One round, where the rounds after it advance.
  page_loop-Advances_round :
      (fuel : ℕ) (from to : OrderStatus) (offset : ℤ) (updated errors : ℕ) (w : W)
      → can_transition_to from to ≡ true
      → ((offset : ℤ) (updated errors : ℕ) (w : W)
          → Advances m w (page_loop s fuel from to offset updated errors w))
      → (r : Option (Result (List Order)))
      → (get_orders_by_status s.order_state_service from s.batch_size offset w).0 ≡ r
      → Advances m w (page_loop s (suc fuel) from to offset updated errors w)
  unfolding page_loop
  page_loop-Advances_round fuel from to offset updated errors w good ih none p =
      rw (p, page_loop) tt
  page_loop-Advances_round fuel from to offset updated errors w good ih (some (err e)) p =
      rw (p, page_loop) (Quiet-Progress (L.page_keeps from s.batch_size offset w))
  page_loop-Advances_round fuel from to offset updated errors w good ih (some (ok [])) p =
      rw (p, page_loop) (Quiet-Progress (L.page_keeps from s.batch_size offset w))
  page_loop-Advances_round fuel from to offset updated errors w good ih (some (ok (o ∷ orders))) p =
      let w' = (get_orders_by_status s.order_state_service from s.batch_size offset w).1 in
      let done : Progress m w (process_batch s (o ∷ orders) from to w').1 =
        Progress-trans (Quiet-Progress (L.page_keeps from s.batch_size offset w))
          (process_batch-Progress (o ∷ orders) from to w' good) in
      elim (Bool-cases (ltb_ℤ (pos (length (o ∷ orders))) s.batch_size)) [
        | inl last ↦ rw (p, page_loop, last) done
        | inr more ↦
            rw (p, page_loop, more)
              (Advances-from (Progress-trans done (Quiet-Progress (Q.sleep_keeps 100 _))) _
                (ih _ _ _ _))
      ]

  page_loop-Advances :
      (fuel : ℕ) (from to : OrderStatus) (offset : ℤ) (updated errors : ℕ) (w : W)
      → can_transition_to from to ≡ true
      → Advances m w (page_loop s fuel from to offset updated errors w)
  unfolding page_loop
  page_loop-Advances zero from to offset updated errors w good = tt
  page_loop-Advances (suc fuel) from to offset updated errors w good =
      page_loop-Advances_round fuel from to offset updated errors w good
        (λ offset' updated' errors' w'.
          page_loop-Advances fuel from to offset' updated' errors' w' good)
        _ refl

  process_status_transition-Advances :
      (fuel : ℕ) (from to : OrderStatus) (w : W)
      → can_transition_to from to ≡ true
      → Advances m w (process_status_transition s fuel from to w)
  unfolding process_status_transition
  process_status_transition-Advances fuel from to w good =
      page_loop-Advances fuel from to (pos 0) 0 0 w good

  then_on-Advances :
      (w : W) (r : Outcome W) (next : W → Outcome W)
      → Advances m w r
      → ((u : W) → Advances m u (next u))
      → Advances m w (then_on s r next)
  then_on-Advances w (finished _ _ u) next a ih = Advances-from a (next u) (ih u)
  then_on-Advances w panicked next a ih = tt
  then_on-Advances w out_of_fuel next a ih = tt

  -- For a service that keeps the contract IsLawful, whatever the dice show, the pages hold
  -- and the calls return, a tick of the scheduler that finishes keeps every order and takes
  -- its status along accepted transitions only.
  pub process_orders-Advances : (fuel : ℕ) (w : W) → Advances m w (process_orders s fuel w)
  unfolding process_orders can_transition_to
  process_orders-Advances fuel w =
      then_on-Advances w _ _
        (process_status_transition-Advances fuel waiting_for_shipment in_transit w refl)
        λ w1.
          then_on-Advances w1 _ _
            (process_status_transition-Advances fuel in_transit wait_pickup w1 refl)
            λ w2. process_status_transition-Advances fuel wait_pickup completed w2 refl
