-- ===== src/Scheduler/MemoryRun.antt =====
-- internal/scheduler/order_state_scheduler.go: a tick over the service of NewOrderStateService.
use mathlib.Core.List.{Permᴰ}
use mathlib.Core.Option.{some-ne-none}
use ec_order_state_service.Prelude.{
  ℕ, suc, ◌+◌, ◌≤◌, ◌<◌, ◌≡◌, ◌≢◌, refl, sym, ap, ◌∙◌, String, Option, none, some, List, [], ◌∷◌,
  length, arith, dec_lt,
}
use ec_order_state_service.Prelude.Int.{ℤ, pos}
use ec_order_state_service.Domain.Status.{OrderStatus}
use ec_order_state_service.Domain.Order.{Time, Order}
use ec_order_state_service.Domain.Failure.{Result, ok, err}
use ec_order_state_service.Domain.Events.{new_order_status_changed_event}
use ec_order_state_service.Repository.Memory
use ec_order_state_service.Repository.Memory.{Orders}
use ec_order_state_service.Repository.Memory.Laws.{length-batch_update, length-with_status}
use ec_order_state_service.Repository.Memory.Paging.{page_lem, page_beyond}
use ec_order_state_service.Service.Core.{
  get_orders_by_status, batch_update_order_status, publish_all,
}
use ec_order_state_service.Service.Mocks.{
  World, new_order_state_service, publish_order_status_changed,
}
use ec_order_state_service.Scheduler.{
  OrderStateScheduler, pick, update_picked, process_batch, process_orders,
}
use ec_order_state_service.Scheduler.Termination.{IsBounded, Ends, process_orders-Ends}

length-perm : {A : Type 0} {xs ys : List A} → Permᴰ xs ys → length xs ≡ length ys
length-perm Permᴰ.nil = refl
length-perm (Permᴰ.cons e d) = ap suc (length-perm d)
length-perm (Permᴰ.swap e f) = refl
length-perm (Permᴰ.trans d d') = length-perm d ∙ length-perm d'

-- The orders of a page.
abbrev page_orders : Option (Result (List Order)) → List Order
page_orders none = []
page_orders (some (err _)) = []
page_orders (some (ok orders)) = orders

cons-ne-nil : (o : Order) (orders : List Order) → (o ∷ orders) ≢ []
cons-ne-nil o orders e = cc

module _ (tick : ℕ → Time) (range : Orders → List (String × Order))
    (meets : (orders : Orders) → Permᴰ (range orders) orders) (size : ℕ) (rand : World → ℕ × World)
    (sleep : ℕ → World → World) (rand_orders : (w : World) → (rand w).1.orders ≡ w.orders)
    (sleep_orders : (n : ℕ) (w : World) → (sleep n w).orders ≡ w.orders) where
  abbrev pub memory_scheduler : OrderStateScheduler World
  memory_scheduler = record {
    order_state_service = new_order_state_service tick range;
    batch_size = pos (suc size);
    rand = rand;
    sleep = sleep;
  }

  pub pick-orders :
      (orders : List Order) (w : World) → (pick memory_scheduler orders w).1.orders ≡ w.orders
  unfolding pick
  pick-orders [] w = refl
  pick-orders (o ∷ orders) w = pick-orders orders _ ∙ rand_orders w

  publish_all-orders :
      (ids : List String) (from to : OrderStatus) (w : World)
      → (publish_all (new_order_state_service tick range) ids from to w).orders ≡ w.orders
  unfolding publish_all publish_order_status_changed new_order_status_changed_event
  publish_all-orders [] from to w = refl
  publish_all-orders (id ∷ ids) from to w = publish_all-orders ids from to _

  pub update_picked-orders :
      (ids : List String) (from to : OrderStatus) (w : World)
      → (update_picked memory_scheduler ids from to w).1.orders
        ≡ Memory.batch_update ids to from w.orders
  unfolding update_picked batch_update_order_status Memory.batch_update
  update_picked-orders [] from to w = refl
  update_picked-orders (id ∷ ids) from to w = publish_all-orders (id ∷ ids) from to _

  process_batch-length :
      (orders : List Order) (from to : OrderStatus) (w : World)
      → length (process_batch memory_scheduler orders from to w).1.orders ≡ length w.orders
  unfolding process_batch
  process_batch-length orders from to w =
      ap length (update_picked-orders _ from to _)
      ∙ length-batch_update _ to from _
      ∙ ap length (pick-orders orders w)

  pub listed-length :
      (status : OrderStatus) (orders : Orders)
      → length (Memory.with_status status (range orders)) ≤ length orders
  listed-length status orders =
      omega (arith, length-with_status status (range orders), length-perm (meets orders))

  pub page-orders :
      (status : OrderStatus) (offset : ℤ) (w : World)
      → (get_orders_by_status
          (new_order_state_service tick range)
          status
          (pos (suc size))
          offset
          w).1.orders
        ≡ w.orders
  unfolding get_orders_by_status Memory.get_orders_by_status
  page-orders status offset w = ground arith

  module _ (bound : ℕ) (few : bound < 4611686018427387904)
      (room : bound + suc size < 9223372036854775808) where
    page-beyond :
        (status : OrderStatus) (offset : ℕ) (w : World)
        → length w.orders ≡ bound
        → bound ≤ offset
        → (get_orders_by_status
            (new_order_state_service tick range)
            status
            (pos (suc size))
            (pos offset)
            w).0
          ≡ some (ok [])
    unfolding get_orders_by_status Memory.get_orders_by_status
    page-beyond status offset w h far = rw (
      page_beyond (Memory.with_status status (range w.orders)) (pos (suc size)) offset
          (omega (arith, listed-length status w.orders)),
      Memory.get_orders_by_status,
    )

    page-within :
        (status : OrderStatus) (offset : ℕ) (w : World)
        → length w.orders ≡ bound
        → offset < bound
        → (get_orders_by_status
            (new_order_state_service tick range)
            status
            (pos (suc size))
            (pos offset)
            w).0
          ≢ none
    unfolding get_orders_by_status Memory.get_orders_by_status
    page-within status offset w h near =
        rw
          (
            page_lem (Memory.with_status status (range w.orders)) (pos (suc size)) (pos offset)
                (omega (arith, listed-length status w.orders)) (omega arith),
            Memory.get_orders_by_status,
          )
          (λ e. some-ne-none _ e)

    memory_scheduler-IsBounded : IsBounded memory_scheduler bound (λ w. length w.orders ≡ bound)
    memory_scheduler-IsBounded = record {
      page_inside = λ status offset w h. ap length (page-orders status offset w) ∙ h;
      batch_inside = λ orders from to w h. process_batch-length orders from to w ∙ h;
      sleep_inside = λ n w h. ap length (sleep_orders n w) ∙ h;
      page_end = λ status offset w o orders h e. elim (dec_lt offset bound) [
        | yes near ↦ near
        | no far ↦ absurd (
            cons-ne-nil o orders
              (ap (page_orders) (sym e ∙ page-beyond status offset w h (omega arith))))
      ];
      page_fine = λ status offset w h. elim (dec_lt offset bound) [
        | yes near ↦ page-within status offset w h near
        | no far ↦ rw (page-beyond status offset w h (omega arith)) (λ e. some-ne-none _ e)
      ];
    }

  -- On the in-memory service, with a positive batch size and dice and waiting that leave the
  -- orders alone, a tick of the scheduler finishes without a run-time panic and leaves as
  -- many orders as before, if the three loops may each make more rounds than there are
  -- orders, the orders are fewer than 2 ^ 62, and their number plus the batch size is below
  -- 2 ^ 63.
  pub process_orders-finished :
      (fuel : ℕ) (w : World)
      → length w.orders < fuel
      → length w.orders < 4611686018427387904
      → length w.orders + suc size < 9223372036854775808
      → Ends (λ w'. length w'.orders ≡ length w.orders) (process_orders memory_scheduler fuel w)
  process_orders-finished fuel w enough few room =
      process_orders-Ends memory_scheduler (length w.orders) size _
        (memory_scheduler-IsBounded (length w.orders) few room) refl room fuel w enough refl
