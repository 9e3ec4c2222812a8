-- ===== src/Scheduler/Listing.antt =====
-- internal/scheduler/order_state_scheduler.go: the orders that the scheduler lists and promotes, as
-- ids.
use mathlib.Core.List.{Permᴰ}
use mathlib.Core.Option
use ec_order_state_service.Prelude.{
  ◌≡◌, refl, ◌∙◌, inl, inr, String, ◌==◌, eq_iff, eq_refl, true, ◌||◌, Option, none, some, List, [],
  ◌∷◌, arith, Bool-cases, Option-cases, if◌then◌else◌,
}
use ec_order_state_service.Prelude.Dict.{lookup, mem}
use ec_order_state_service.Domain.Status.{
  OrderStatus, waiting_for_shipment, in_transit, wait_pickup, completed,
}
use ec_order_state_service.Domain.Order.{Order}
use ec_order_state_service.Repository.Memory
use ec_order_state_service.Repository.Memory.{Orders, with_status}
use ec_order_state_service.Repository.Memory.Keys.{IsKeyed}
use ec_order_state_service.Service.Contract.{promote_status, promote_all}

abbrev pub ids_of : List Order → List String
ids_of [] = []
ids_of (o ∷ orders) = o.id ∷ ids_of orders

pub mem-perm :
    (j : String) {xs ys : List Order} → Permᴰ xs ys → mem j (ids_of xs) ≡ mem j (ids_of ys)
mem-perm j Permᴰ.nil = refl
mem-perm j (Permᴰ.cons {b = y} e d) = rw (e, mem-perm j d) refl
mem-perm j (Permᴰ.swap {a' = x} {b' = y} e f) = rw (e, f) (ground arith)
mem-perm j (Permᴰ.trans d d') = mem-perm j d ∙ mem-perm j d'

-- An order of the map in a status is among those that the loop collects.
pub mem-with_status :
    (j : String) (o : Order) (m : Orders)
    → IsKeyed m
    → lookup j m ≡ some o
    → mem j (ids_of (with_status o.status m)) ≡ true
unfolding with_status
mem-with_status j o [] h e = cc
mem-with_status j o ((k, p) ∷ m) h e = ground (
  arith,
  eq_iff k j,
  eq_iff p.id j,
  eq_iff p.status o.status,
  eq_refl o.status,
  mem-with_status j o m h.2,
)

-- Where every order in the status `from` is listed, the list does not matter.
pub promote_all-listed :
    (ids : List String) (new from : OrderStatus) (v : String → Option OrderStatus) (j : String)
    → (v j ≡ some from → mem j ids ≡ true)
    → promote_all ids new from v j ≡ promote_status new from (v j)
promote_all-listed ids new from v j listed = elim (Bool-cases (mem j ids)) [
  | inl inside ↦ rw inside refl
  | inr outside ↦ elim (Option-cases (v j)) [
    | inl absent ↦ rw (outside, absent) refl
    | inr (s, found) ↦ elim (Bool-cases (s == from)) [
      | inl same ↦ absurd (ground (arith, eq_iff s from, listed))
      | inr other ↦ rw (outside, found, other) refl
    ]
  ]
]

pub nothing_to_do :
    (new from : OrderStatus) (orders : Orders) → Memory.batch_update [] new from orders ≡ orders
unfolding Memory.batch_update
nothing_to_do new from orders = refl

-- What a tick with such dice makes of a status.
abbrev pub completed_from : OrderStatus → OrderStatus
completed_from s =
    if s == waiting_for_shipment || (s == in_transit || s == wait_pickup) then completed else s

pub all_the_way :
    (v : Option OrderStatus)
    → promote_status completed wait_pickup
        (promote_status wait_pickup in_transit (promote_status in_transit waiting_for_shipment v))
      ≡ Option.map completed_from v
all_the_way none = refl
all_the_way (some s) =
    ground (arith, eq_iff s waiting_for_shipment, eq_iff s in_transit, eq_iff s wait_pickup)
