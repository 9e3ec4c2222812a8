-- ===== src/Scheduler/Ticker/Lasting.antt =====
-- internal/scheduler/order_state_scheduler.go: Start over the service of NewOrderStateService.
use mathlib.Core.List.{Permᴰ}
use ec_order_state_service.Prelude.{
  ℕ, suc, ◌+◌, ◌<◌, ◌≡◌, refl, ◌∙◌, String, true, List, [], ◌∷◌, length, arith,
}
use ec_order_state_service.Prelude.Int.{ℤ, pos, ltb_ℤ}
use ec_order_state_service.Domain.Order.{Time, Order}
use ec_order_state_service.Repository.Memory.{Orders}
use ec_order_state_service.Service.Progress.{Progress, Progress-trans, Quiet-Progress}
use ec_order_state_service.Service.Mocks.{World}
use ec_order_state_service.Service.MemoryService.{world_meaning, new_order_state_service-IsLawful}
use ec_order_state_service.Scheduler.{
  OrderStateScheduler, Outcome, finished, panicked, out_of_fuel, process_orders,
}
use ec_order_state_service.Scheduler.Progress.{IsQuiet, Advances, process_orders-Advances}
use ec_order_state_service.Scheduler.Termination.{Ends}
use ec_order_state_service.Scheduler.MemoryRun.{memory_scheduler, process_orders-finished}
use ec_order_state_service.Scheduler.Ticker.{
  Choice, due, halt, Running, selecting, returned, crashed, unfinished, after_tick, select_loop,
  start,
}

-- Start has neither crashed nor come to a stop in the middle of a tick, in a state that satisfies `P`.
abbrev pub Lasts : {W : Type 0} → (W → Type 0) → Running W → Type 0
Lasts P (selecting w) = P w
Lasts P (returned w) = P w
Lasts P crashed = ⊥
Lasts P unfinished = ⊥

module _ {W : Type 0} (s : OrderStateScheduler W) (fuel : ℕ) (P : W → Type 0)
    (tick_ends : (w : W) → P w → Ends P (process_orders s fuel w)) where
  after_tick-Lasts :
      (r : Outcome W) (next : W → Running W)
      → Ends P r
      → ((w : W) → P w → Lasts P (next w))
      → Lasts P (after_tick s fuel r next)
  after_tick-Lasts (finished _ _ w) next h k = k w h
  after_tick-Lasts panicked next h k = h
  after_tick-Lasts out_of_fuel next h k = h

  select_loop-Lasts : (choices : List Choice) (w : W) → P w → Lasts P (select_loop s fuel choices w)
  unfolding select_loop
  select_loop-Lasts [] w h = h
  select_loop-Lasts (halt ∷ choices) w h = h
  select_loop-Lasts (due ∷ choices) w h =
      after_tick-Lasts _ _ (tick_ends w h) (select_loop-Lasts choices)

  start-Lasts_if :
      (interval : ℤ) (choices : List Choice) (w : W)
      → ltb_ℤ (pos 0) interval ≡ true
      → P w
      → Lasts P (start s fuel interval choices w)
  unfolding start
  start-Lasts_if interval choices w positive h =
      rw positive (after_tick-Lasts _ _ (tick_ends w h) (select_loop-Lasts choices))

-- What holds of the state after every tick.
pub record IsKept (w w' : World) : Type 0 where
  pub progress : Progress world_meaning w w'
  pub same_size : length w'.orders ≡ length w.orders

module _ (tick : ℕ → Time) (range : Orders → List (String × Order))
    (meets : (orders : Orders) → Permᴰ (range orders) orders) (size : ℕ) (rand : World → ℕ × World)
    (sleep : ℕ → World → World) (rand_orders : (w : World) → (rand w).1.orders ≡ w.orders)
    (sleep_orders : (n : ℕ) (w : World) → (sleep n w).orders ≡ w.orders) where
  abbrev scheduler : OrderStateScheduler World
  scheduler = memory_scheduler tick range meets size rand sleep rand_orders sleep_orders

  scheduler-IsQuiet : IsQuiet scheduler world_meaning
  scheduler-IsQuiet = record {
    rand_keeps = λ w. record { sees = rw (rand_orders w) refl; stays = λ h. rw (rand_orders w) h };
    sleep_keeps =
        λ n w. record { sees = rw (sleep_orders n w) refl; stays = λ h. rw (sleep_orders n w) h };
  }

  Ends-IsKept :
      (w v : World) (r : Outcome World)
      → IsKept w v
      → Ends (λ w'. length w'.orders ≡ length v.orders) r
      → Advances world_meaning v r
      → Ends (IsKept w) r
  Ends-IsKept w v (finished _ _ w') k h a = record {
    progress = Progress-trans k.progress a;
    same_size = h ∙ k.same_size;
  }
  Ends-IsKept w v panicked k h a = h
  Ends-IsKept w v out_of_fuel k h a = h

  -- On the in-memory service, with a positive interval and batch size and dice and waiting
  -- that leave the orders alone, Start neither panics nor hangs in a tick, whatever each of
  -- its selects takes: it is in a select or has returned, with as many orders as before,
  -- each of which has gone along accepted transitions only, if the three loops of a tick may
  -- each make more rounds than there are orders, the orders are fewer than 2 ^ 62, and their
  -- number plus the batch size is below 2 ^ 63.
  pub start-Lasts :
      (fuel : ℕ) (interval : ℤ) (choices : List Choice) (w : World)
      → ltb_ℤ (pos 0) interval ≡ true
      → length w.orders < fuel
      → length w.orders < 4611686018427387904
      → length w.orders + suc size < 9223372036854775808
      → Lasts (IsKept w) (start scheduler fuel interval choices w)
  start-Lasts fuel interval choices w positive enough few room =
      start-Lasts_if scheduler fuel (IsKept w)
        (λ v k.
          Ends-IsKept w v _ k
            (process_orders-finished tick range meets size rand sleep rand_orders sleep_orders fuel
              v (omega (arith, k.same_size)) (omega (arith, k.same_size))
              (omega (arith, k.same_size)))
            (process_orders-Advances scheduler world_meaning
              (new_order_state_service-IsLawful tick range meets) scheduler-IsQuiet fuel v))
        interval choices w positive
        (record {
          progress = Quiet-Progress (record { sees = refl; stays = λ h. h });
          same_size = refl;
        })
