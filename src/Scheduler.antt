-- ===== src/Scheduler.antt =====
-- internal/scheduler/order_state_scheduler.go: OrderStateScheduler. The lines that it prints are
-- left out; its `semaphore` and `workerCount` are never used.
pub mod Progress
pub mod Termination
pub mod MemoryRun
pub mod Listing
pub mod Completion
pub mod Ticker
use ec_order_state_service.Prelude.{
  ℕ, zero, suc, ◌+◌, ltb, String, true, false, Option, none, some, List, [], ◌∷◌, length,
  if◌then◌else◌,
}
use ec_order_state_service.Prelude.Int.{ℤ, pos, ltb_ℤ, ◌+ℤ◌, int64}
use ec_order_state_service.Domain.Status.{
  OrderStatus, waiting_for_shipment, in_transit, wait_pickup, completed,
}
use ec_order_state_service.Domain.Order.{Order}
use ec_order_state_service.Domain.Failure.{Error, Result, ok, err}
use ec_order_state_service.Service.Deps.{OrderStateService}
use ec_order_state_service.Service.Core.{get_orders_by_status, batch_update_order_status}

-- `rand` is `rand.Intn(100)`, `sleep` waits some milliseconds.
pub record OrderStateScheduler (W : Type 0) : Type 0 where
  pub order_state_service : OrderStateService W
  pub batch_size : ℤ
  pub rand : W → ℕ × W
  pub sleep : ℕ → W → W

-- How a loop over pages ends: with the numbers of orders updated and failed, in a run-time panic,
-- or not within the rounds that it was given.
pub data Outcome (W : Type 0) : Type 0 where
  finished : ℕ → ℕ → W → Outcome W
  panicked : Outcome W
  out_of_fuel : Outcome W

module _ {W : Type 0} (s : OrderStateScheduler W) where
  -- The orders that the dice pick: one throw for each.
  unfoldable pub pick : List Order → W → List String × W
  pick [] w = ([], w)
  pick (o ∷ orders) w =
      let (random_value, w') = s.rand w in
      let (ids, w'') = pick orders w' in (if ltb random_value 50 then o.id ∷ ids else ids, w'')

  -- The part of processBatch after the loop, on the ids that were picked.
  unfoldable pub update_picked : List String → OrderStatus → OrderStatus → W → (ℕ × ℕ) × W
  update_picked [] from to w = ((0, 0), w)
  update_picked (id ∷ ids) from to w =
      let (e, w') = batch_update_order_status s.order_state_service (id ∷ ids) from to w in
      (elim e [ some _ ↦ (0, length (id ∷ ids)) | none ↦ (length (id ∷ ids), 0) ], w')

  unfoldable pub process_batch : List Order → OrderStatus → OrderStatus → W → (ℕ × ℕ) × W
  unfolding pick update_picked
  process_batch orders from to w = let (ids, w') = pick orders w in update_picked ids from to w'

  -- The loop over the pages from `offset` on, with the totals so far. After the last page, or an
  -- error, it ends.
  unfoldable pub page_loop : ℕ → OrderStatus → OrderStatus → ℤ → ℕ → ℕ → W → Outcome W
  unfolding process_batch get_orders_by_status
  page_loop zero from to offset updated errors w = out_of_fuel
  page_loop (suc fuel) from to offset updated errors w =
      let (r, w') = get_orders_by_status s.order_state_service from s.batch_size offset w in
      elim r [
        | none ↦ panicked
        | some (err _) ↦ finished updated errors w'
        | some (ok []) ↦ finished updated errors w'
        | some (ok (o ∷ orders)) ↦
            let ((more, failed), w'') = process_batch (o ∷ orders) from to w' in
            elim (ltb_ℤ (pos (length (o ∷ orders))) s.batch_size) [
              | true ↦ finished (updated + more) (errors + failed) w''
              | false ↦
                  page_loop fuel from to (int64 (offset +ℤ s.batch_size)) (updated + more)
                    (errors + failed) (s.sleep 100 w'')
            ]
      ]

  unfoldable pub process_status_transition : ℕ → OrderStatus → OrderStatus → W → Outcome W
  unfolding page_loop
  process_status_transition fuel from to = page_loop fuel from to (pos 0) 0 0

  abbrev then_on : Outcome W → (W → Outcome W) → Outcome W
  then_on (finished _ _ w) next = next w
  then_on panicked next = panicked
  then_on out_of_fuel next = out_of_fuel

  unfoldable pub process_orders : ℕ → W → Outcome W
  unfolding process_status_transition
  process_orders fuel w =
      then_on (process_status_transition fuel waiting_for_shipment in_transit w) λ w1.
        then_on (process_status_transition fuel in_transit wait_pickup w1)
          λ w2. process_status_transition fuel wait_pickup completed w2
