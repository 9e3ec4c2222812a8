-- ===== src/Scheduler/Ticker.antt =====
-- internal/scheduler/order_state_scheduler.go: NewOrderStateSchedulerWithConfig, and Start up to
-- what each `select` takes. Stop closes stopChan, which makes `halt` one of the choices.
pub mod Lasting
use ec_order_state_service.Prelude.{
  ℕ, suc, ◌+◌, ◌<◌, ◌≡◌, refl, ◌∙◌, ap, String, true, false, Option, none, some, List, [], ◌∷◌,
  length, arith, if◌then◌else◌,
}
use ec_order_state_service.Prelude.Int.{ℤ, pos, ltb_ℤ}
use ec_order_state_service.Service.Deps.{OrderStateService}
use ec_order_state_service.Service.Contract.{Meaning, IsLawful}
use ec_order_state_service.Service.Progress.{Progress, Progress-trans, Quiet-Progress}
use ec_order_state_service.Scheduler.{
  OrderStateScheduler, Outcome, finished, panicked, out_of_fuel, process_orders,
}
use ec_order_state_service.Scheduler.Progress.{IsQuiet, Advances, process_orders-Advances}

-- `make` panics for a channel of negative size. The scheduler comes with its interval.
unfoldable pub new_order_state_scheduler_with_config :
    {W : Type 0}
    → OrderStateService W
    → ℤ
    → ℤ
    → ℤ
    → (W → ℕ × W)
    → (ℕ → W → W)
    → Option (OrderStateScheduler W × ℤ)
new_order_state_scheduler_with_config s worker_count batch_size interval rand sleep =
    if ltb_ℤ worker_count (pos 0)
    then none
    else some (
      record { order_state_service = s; batch_size = batch_size; rand = rand; sleep = sleep },
      interval,
    )

-- Ten seconds between two ticks.
unfoldable pub new_order_state_scheduler :
    {W : Type 0}
    → OrderStateService W
    → (W → ℕ × W)
    → (ℕ → W → W)
    → Option (OrderStateScheduler W × ℤ)
unfolding new_order_state_scheduler_with_config
new_order_state_scheduler s =
    new_order_state_scheduler_with_config s (pos 5) (pos 100) (pos 10000000000)

-- What a `select` takes.
pub data Choice : Type 0 where
  due : Choice
  halt : Choice

-- Where Start is: in a `select`, returned, in a panic, or in a tick that has no rounds left.
pub data Running (W : Type 0) : Type 0 where
  selecting : W → Running W
  returned : W → Running W
  crashed : Running W
  unfinished : Running W

module _ {W : Type 0} (s : OrderStateScheduler W) (fuel : ℕ) where
  abbrev pub after_tick : Outcome W → (W → Running W) → Running W
  after_tick (finished _ _ w) next = next w
  after_tick panicked next = crashed
  after_tick out_of_fuel next = unfinished

  unfoldable pub select_loop : List Choice → W → Running W
  unfolding process_orders
  select_loop [] w = selecting w
  select_loop (halt ∷ choices) w = returned w
  select_loop (due ∷ choices) w = after_tick (process_orders s fuel w) (select_loop choices)

  -- `time.NewTicker` panics unless the interval is positive.
  unfoldable pub start : ℤ → List Choice → W → Running W
  unfolding select_loop
  start interval choices w =
      if ltb_ℤ (pos 0) interval
      then after_tick (process_orders s fuel w) (select_loop choices)
      else crashed
