-- ===== src/Service/MemoryService.antt =====
-- internal/service/order_state_service.go: the service of NewOrderStateService and the contract.
use mathlib.Core.Path.{fun_ext}
use mathlib.Core.Option
use mathlib.Core.Option.{none-ne-some}
use ec_order_state_service.Repository.Memory.Paging.{page-All}
use ec_order_state_service.Prelude.{
  ℕ, ◌≡◌, ◌≢◌, All, All-map, refl, eq_iff, String, none, some, List, arith, inl, inr, Option-cases,
}
use ec_order_state_service.Prelude.Dict.{lookup, insert, lookup-insert}
use ec_order_state_service.Domain.Status.{OrderStatus}
use ec_order_state_service.Domain.Order.{Time, Order}
use ec_order_state_service.Repository.Memory
use ec_order_state_service.Repository.Memory.{Orders}
use ec_order_state_service.Repository.Memory.Laws.{lookup-batch_update}
use ec_order_state_service.Service.Contract.{View, Meaning, Quiet, IsLawful, assign, promote_all}
use ec_order_state_service.Service.Mocks.{
  World, new_order_state_service, publish_order_status_changed, log_info, log_error, log_warn,
}
use ec_order_state_service.Service.Deps.{OrderStateService}
use ec_order_state_service.Domain.Failure.{Error, as_not_found, ok, err}
use ec_order_state_service.Repository.Memory.Keys.{
  IsKeyed, lookup-id, save-IsKeyed, batch_update-IsKeyed, All-IsEntry_range, All-with_status_found,
}
use mathlib.Core.List.{Permᴰ}
use ec_order_state_service.Prelude.Int.{ℤ}

-- The status of each order in the map.
abbrev pub statuses : World → View
statuses w id = Option.map (λ (o : Order). o.status) (lookup id w.orders)

abbrev pub world_meaning : Meaning World
world_meaning = record { view = statuses; Valid = λ w. IsKeyed w.orders }

statuses-insert :
    (o : Order) (w : World)
    → statuses (record w { orders = insert o.id o w.orders }) ≡ assign o.id o.status (statuses w)
statuses-insert o w = fun_ext λ j. ground (arith, lookup-insert o.id j o w.orders)

pub statuses-batch :
    (ids : List String) (new from : OrderStatus) (w : World)
    → statuses (record w { orders = Memory.batch_update ids new from w.orders })
      ≡ promote_all ids new from (statuses w)
statuses-batch ids new from w = fun_ext λ j. elim (Option-cases (lookup j w.orders)) [
  | inl absent ↦ rw (lookup-batch_update, absent) (ground arith)
  | inr (o, found) ↦ rw (lookup-batch_update, found) (ground (arith, eq_iff o.status from))
]

module _ (tick : ℕ → Time) (range : Orders → List (String × Order))
    (meets : (orders : Orders) → Permᴰ (range orders) orders) where
  abbrev service : OrderStateService World
  service = new_order_state_service tick range

  nothing : (w w' : World) → w'.orders ≡ w.orders → Quiet world_meaning w w'
  nothing w w' e = record { sees = rw e; stays = λ h. rw e h }

  get-orders : (id : String) (orders : Orders) → (Memory.get_by_id id orders).1 ≡ orders
  unfolding Memory.get_by_id
  get-orders id orders = ground arith

  page-orders :
      (status : OrderStatus) (limit offset : ℤ) (orders : Orders)
      → (Memory.get_orders_by_status range status limit offset orders).1 ≡ orders
  unfolding Memory.get_orders_by_status
  page-orders status limit offset orders = ground arith

  get-found :
      (id : String) (w : World) (o : Order)
      → IsKeyed w.orders
      → (Memory.get_by_id id w.orders).0 ≡ ok o
      → (statuses w id ≡ some o.status) × (o.id ≡ id)
  unfolding Memory.get_by_id
  get-found id w o valid e = elim (Option-cases (lookup id w.orders)) [
    | inl absent ↦ absurd (ground arith)
    | inr (p, found) ↦ ground (arith, lookup-id id p w.orders valid found)
  ]

  get-absent :
      (id : String) (w : World) (e : Error)
      → (Memory.get_by_id id w.orders).0 ≡ err e
      → as_not_found e ≢ none
      → statuses w id ≡ none
  unfolding Memory.get_by_id
  get-absent id w e h k = ground arith

  seen :
      (w : World) {status : OrderStatus} (o : Order)
      → (o.status ≡ status) × (lookup o.id w.orders ≡ some o)
      → statuses w o.id ≡ some status
  seen w o (e, f) = rw f (rw e)

  page-found :
      (status : OrderStatus) (limit offset : ℤ) (w : World) (found : List Order)
      → IsKeyed w.orders
      → (Memory.get_orders_by_status range status limit offset w.orders).0 ≡ some (ok found)
      → All (λ o. statuses w o.id ≡ some status) found
  unfolding Memory.get_orders_by_status
  page-found status limit offset w found valid e =
      let entries = range w.orders in
      let listed = Memory.with_status status entries in
      let good =
        All-with_status_found status w.orders entries
          (All-IsEntry_range entries w.orders (meets w.orders) valid) in
      elim (Option-cases (Memory.page listed limit offset)) [
        | inl panics ↦ absurd (none-ne-some _ (rw (panics, Memory.get_orders_by_status) at e))
        | inr (orders, p) ↦
            let q : some (ok orders) ≡ some (ok found) = rw (p, Memory.get_orders_by_status) at e in
            let r : orders ≡ found = cc in
            rw (← r) (All-map _ _ (seen w) orders (page-All _ listed good limit offset orders p))
      ]

  -- The service that NewOrderStateService builds, with the in-memory repository and the two
  -- mocks, keeps the contract IsLawful, where the view of a state is the status of each
  -- order in the map and a state is valid if each order stands once, under its own id. The
  -- loop over the map may meet the entries in any order.
  pub new_order_state_service-IsLawful : IsLawful service world_meaning
  unfolding Memory.get_by_id Memory.save Memory.get_orders_by_status publish_order_status_changed
      log_info log_error log_warn
  new_order_state_service-IsLawful = record {
    get_keeps = λ id w. nothing w _ (get-orders id w.orders);
    get_found = get-found;
    get_absent = get-absent;
    save_done = λ o w e. record { sees = statuses-insert o w; stays = save-IsKeyed o w.orders };
    save_failed = λ o w e h. cc;
    page_keeps = λ status limit offset w. nothing w _ (page-orders status limit offset w.orders);
    page_found = page-found;
    batch_done = λ ids new from w e. record {
      sees = statuses-batch ids new from w;
      stays = batch_update-IsKeyed ids new from w.orders;
    };
    batch_failed = λ ids new from w e h. cc;
    publish_keeps = λ event w. nothing w _ refl;
    info_keeps = λ msg fields w. nothing w _ refl;
    error_keeps = λ msg e fields w. nothing w _ refl;
    warn_keeps = λ msg fields w. nothing w _ refl;
    clock_keeps = λ w. nothing w _ refl;
  }
