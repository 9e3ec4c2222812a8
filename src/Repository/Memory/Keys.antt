-- ===== src/Repository/Memory/Keys.antt =====
-- internal/repository/order_repository.go: the keys of the map of an InMemoryOrderRepository, and
-- what a loop over the map meets.
use mathlib.Core.List.{Permᴰ}
use mathlib.Core.List.Permᴰ as PermD
use ec_order_state_service.Prelude.{
  ◌≡◌, refl, ◌==◌, eq_iff, eq_refl, String, none, some, List, [], ◌∷◌, arith, All, inl, inr,
  Bool-cases, Option-cases,
}
use ec_order_state_service.Prelude.Dict.{lookup, insert, lookup-insert}
use ec_order_state_service.Domain.Status.{OrderStatus}
use ec_order_state_service.Domain.Order.{Order}
use ec_order_state_service.Repository.Memory.{Orders, update_one, batch_update, with_status}

abbrev pub IsKeyed : Orders → Type 0
IsKeyed [] = Unit {0}
IsKeyed ((k, o) ∷ m) = (o.id ≡ k) × (lookup k m ≡ none) × IsKeyed m

insert-IsKeyed :
    (k : String) (o : Order) (m : Orders) → o.id ≡ k → IsKeyed m → IsKeyed (insert k o m)
insert-IsKeyed k o [] e h = (e, refl, tt)
insert-IsKeyed k o ((j, p) ∷ m) e h =
    ground (arith, eq_iff j k, lookup-insert k j o m, eq_iff k j, insert-IsKeyed k o m e h.2)

pub lookup-id : (k : String) (o : Order) (m : Orders) → IsKeyed m → lookup k m ≡ some o → o.id ≡ k
lookup-id k o [] h e = cc
lookup-id k o ((j, p) ∷ m) h e = ground (arith, eq_iff j k, lookup-id k o m h.2)

pub save-IsKeyed : (o : Order) (m : Orders) → IsKeyed m → IsKeyed (insert o.id o m)
save-IsKeyed o m h = insert-IsKeyed o.id o m refl h

update_one-IsKeyed :
    (id : String) (new from : OrderStatus) (m : Orders)
    → IsKeyed m
    → IsKeyed (update_one id new from m)
unfolding update_one
update_one-IsKeyed id new from m h = elim (Option-cases (lookup id m)) [
  | inl absent ↦ rw (absent, update_one) h
  | inr (o, found) ↦ elim (Bool-cases (o.status == from)) [
    | inl e ↦
        rw (found, update_one, e)
          (insert-IsKeyed id (record o { status = new }) m (lookup-id id o m h found) h)
    | inr e ↦ rw (found, update_one, e) h
  ]
]

-- BatchUpdateOrderStatus in memory keeps the invariant that each order stands once in the map,
-- under its own id.
pub batch_update-IsKeyed :
    (ids : List String) (new from : OrderStatus) (m : Orders)
    → IsKeyed m
    → IsKeyed (batch_update ids new from m)
unfolding batch_update
batch_update-IsKeyed [] new from m h = h
batch_update-IsKeyed (id ∷ ids) new from m h =
    batch_update-IsKeyed ids new from (update_one id new from m)
      (update_one-IsKeyed id new from m h)

-- An entry that a loop meets, and that the map has.
abbrev pub IsEntry : Orders → String × Order → Type 0
IsEntry m (k, o) = (o.id ≡ k) × (lookup k m ≡ some o)

weaken :
    (k : String) (o : Order) (m es : Orders)
    → lookup k m ≡ none
    → All (IsEntry m) es
    → All (IsEntry ((k, o) ∷ m)) es
weaken k o m [] fresh h = tt
weaken k o m ((j, p) ∷ es) fresh h = ground (arith, eq_iff k j, weaken k o m es fresh h.1)

All-IsEntry : (m : Orders) → IsKeyed m → All (IsEntry m) m
All-IsEntry [] h = tt
All-IsEntry ((k, o) ∷ m) h = ((h.0, rw eq_refl), weaken k o m m h.1 (All-IsEntry m h.2))

All-perm : {A : Type 0} (P : A → Type 0) {xs ys : List A} → Permᴰ xs ys → All P ys → All P xs
All-perm P Permᴰ.nil h = tt
All-perm P (Permᴰ.cons e d) h = (rw e h.0, All-perm P d h.1)
All-perm P (Permᴰ.swap e f) h = (rw e h.1.0, (rw f h.0, h.1.1))
All-perm P (Permᴰ.trans d d') h = All-perm P d (All-perm P d' h)

-- A loop over a map meets the entries of the map.
pub All-IsEntry_range : (es m : Orders) → Permᴰ es m → IsKeyed m → All (IsEntry m) es
All-IsEntry_range es m d h = All-perm (IsEntry m) d (All-IsEntry m h)

-- What it collects are orders of the map in the status asked for.
pub All-with_status_found :
    (status : OrderStatus) (m es : Orders)
    → All (IsEntry m) es
    → All (λ o. (o.status ≡ status) × (lookup o.id m ≡ some o)) (with_status status es)
unfolding with_status
All-with_status_found status m [] h = tt
All-with_status_found status m ((k, o) ∷ es) h =
    ground (arith, eq_iff o.status status, All-with_status_found status m es h.1)
