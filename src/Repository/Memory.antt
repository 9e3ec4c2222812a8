-- ===== src/Repository/Memory.antt =====
-- internal/repository/order_repository.go: InMemoryOrderRepository. Each method holds the lock from
-- its first line to its last, so it is one step on the map.
pub mod Paging
pub mod Laws
pub mod Keys
use ec_order_state_service.Prelude.{
  String, ◌==◌, ◌+◌, ◌-◌, Bool, true, false, ◌&&◌, Option, none, some, List, [], ◌∷◌, length, take,
  drop, if◌then◌else◌,
}
use ec_order_state_service.Prelude.Int.{ℤ, pos, pos_part, ◌+ℤ◌, ltb_ℤ, leb_ℤ, int64}
use ec_order_state_service.Prelude.Dict.{Dict, lookup, insert}
use ec_order_state_service.Domain.Status.{OrderStatus}
use ec_order_state_service.Domain.Order.{Order}
use ec_order_state_service.Domain.Failure.{Error, order_not_found, Result, ok, err}
use ec_order_state_service.Repository.Interface.{OrderRepository}

abbrev pub Orders : Type 0
Orders = Dict Order

-- NewInMemoryOrderRepository
abbrev pub new_in_memory_order_repository : Orders
new_in_memory_order_repository = []

unfoldable pub get_by_id : String → Orders → Result Order × Orders
get_by_id id orders = elim (lookup id orders) [
  | none ↦ (err (order_not_found (record { order_id = id })), orders)
  | some order ↦ (ok order, orders)
]

unfoldable pub save : Order → Orders → Option Error × Orders
save order orders = (none, insert order.id order orders)

-- The loop that collects the orders in a status.
unfoldable pub with_status : OrderStatus → List (String × Order) → List Order
with_status status [] = []
with_status status ((_, order) ∷ entries) =
    if order.status == status
    then order ∷ with_status status entries
    else with_status status entries

-- `xs[lo:hi]` panics unless 0 <= lo <= hi <= len(xs).
slice : {A : Type 0} → List A → ℤ → ℤ → Option (List A)
slice xs lo hi =
    if leb_ℤ (pos 0) lo && (leb_ℤ lo hi && leb_ℤ hi (pos (length xs)))
    then some (take (pos_part hi - pos_part lo) (drop (pos_part lo) xs))
    else none

-- The paging after the loop, on a limit and an offset that are in order; `offset + limit` wraps.
window : {A : Type 0} → List A → ℤ → ℤ → Option (List A)
unfolding slice
window orders limit offset =
    let end = int64 (offset +ℤ limit) in
    let end' = if ltb_ℤ (pos (length orders)) end then pos (length orders) else end in
    if leb_ℤ (pos (length orders)) offset then some [] else slice orders offset end'

-- A limit that is not positive means all, an offset below 0 means 0.
unfoldable pub page : {A : Type 0} → List A → ℤ → ℤ → Option (List A)
unfolding window
page orders limit offset =
    window orders (if leb_ℤ limit (pos 0) then pos (length orders) else limit)
      (if ltb_ℤ offset (pos 0) then pos 0 else offset)

-- The loop body of BatchUpdateOrderStatus. It writes the status through the pointer that the map
-- holds, and leaves `UpdatedAt` alone.
update_one : String → OrderStatus → OrderStatus → Orders → Orders
update_one id new from orders = elim (lookup id orders) [
  | none ↦ orders
  | some order ↦
      if order.status == from then insert id (record order { status = new }) orders else orders
]

unfoldable pub batch_update : List String → OrderStatus → OrderStatus → Orders → Orders
unfolding update_one
batch_update [] new from orders = orders
batch_update (id ∷ ids) new from orders = batch_update ids new from (update_one id new from orders)

-- `range` lists the entries of the map in the order in which the loop meets them.
module _ (range : Orders → List (String × Order)) where
  unfoldable pub get_orders_by_status :
      OrderStatus → ℤ → ℤ → Orders → Option (Result (List Order)) × Orders
  get_orders_by_status status limit offset orders =
      elim (page (with_status status (range orders)) limit offset) [
        | none ↦ (none, orders)
        | some found ↦ (some (ok found), orders)
      ]

  abbrev pub in_memory_order_repository : OrderRepository Orders
  in_memory_order_repository = record {
    get_by_id = get_by_id;
    save = save;
    get_orders_by_status = get_orders_by_status;
    batch_update_order_status = λ ids new from orders. (none, batch_update ids new from orders);
  }
