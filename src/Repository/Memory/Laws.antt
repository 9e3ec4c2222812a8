-- ===== src/Repository/Memory/Laws.antt =====
-- internal/repository/order_repository.go: the methods of InMemoryOrderRepository, key by key.
use mathlib.Core.Option
use ec_order_state_service.Prelude.{
  length, ◌≤◌, ◌∙◌, some, ◌≡◌, refl, ◌==◌, eq_iff, String, List, [], ◌∷◌, arith, inl, inr,
  Option-cases, if◌then◌else◌, All,
}
use ec_order_state_service.Prelude.Dict.{lookup, insert, lookup-insert, mem}
use ec_order_state_service.Domain.Status.{OrderStatus}
use ec_order_state_service.Domain.Order.{Order}
use ec_order_state_service.Repository.Memory.{Orders, with_status, update_one, batch_update}

-- What a batch does to one order.
abbrev pub promote : OrderStatus → OrderStatus → Order → Order
promote new from o = if o.status == from then record o { status = new } else o

promote-promote :
    (new from : OrderStatus) (o : Order)
    → promote new from (promote new from o) ≡ promote new from o
promote-promote new from o = ground (arith, eq_iff o.status from, eq_iff new from)

lookup-update_one :
    (id : String) (new from : OrderStatus) (orders : Orders) (j : String)
    → lookup j (update_one id new from orders)
      ≡ (if id == j then Option.map (promote new from) (lookup j orders) else lookup j orders)
unfolding update_one
lookup-update_one id new from orders j = elim (Option-cases (lookup id orders)) [
  | inl absent ↦ ground (arith, eq_iff id j)
  | inr (o, found) ↦
      ground (arith, eq_iff id j, lookup-insert id j (record o { status = new }) orders)
]

-- After BatchUpdateOrderStatus in memory, the order under a key has the new status if the key
-- is listed and the order was in the old one, and is what it was before otherwise.
pub lookup-batch_update :
    (ids : List String) (new from : OrderStatus) (orders : Orders) (j : String)
    → lookup j (batch_update ids new from orders)
      ≡ (if mem j ids then Option.map (promote new from) (lookup j orders) else lookup j orders)
unfolding batch_update
lookup-batch_update [] new from orders j = refl
lookup-batch_update (id ∷ ids) new from orders j =
    rw (lookup-batch_update ids new from (update_one id new from orders) j, lookup-update_one)
      (ground (arith, promote-promote new from))

-- Every order found is in the status asked for.
pub All-with_status :
    (status : OrderStatus) (entries : List (String × Order))
    → All (λ o. o.status ≡ status) (with_status status entries)
unfolding with_status
All-with_status status [] = tt
All-with_status status ((_, o) ∷ entries) =
    ground (arith, eq_iff o.status status, All-with_status status entries)

length-insert_old :
    (k : String) (v o : Order) (m : Orders) → lookup k m ≡ some o → length (insert k v m) ≡ length m
length-insert_old k v o [] h = cc
length-insert_old k v o ((j, w) ∷ m) h = ground (arith, length-insert_old k v o m)

length-update_one :
    (id : String) (new from : OrderStatus) (m : Orders)
    → length (update_one id new from m) ≡ length m
unfolding update_one
length-update_one id new from m = elim (Option-cases (lookup id m)) [
  | inl absent ↦ rw (absent, update_one)
  | inr (o, found) ↦ ground (arith, length-insert_old id (record o { status = new }) o m found)
]

-- A batch adds no order and takes none away.
pub length-batch_update :
    (ids : List String) (new from : OrderStatus) (m : Orders)
    → length (batch_update ids new from m) ≡ length m
unfolding batch_update
length-batch_update [] new from m = refl
length-batch_update (id ∷ ids) new from m =
    length-batch_update ids new from (update_one id new from m) ∙ length-update_one id new from m

pub length-with_status :
    (status : OrderStatus) (entries : List (String × Order))
    → length (with_status status entries) ≤ length entries
unfolding with_status
length-with_status status [] = omega arith
length-with_status status ((_, o) ∷ entries) = ground (arith, length-with_status status entries)
