-- ===== src/Domain/Status.antt =====
-- internal/domain/order_status.go. An `OrderStatus` is a text in Go, and any text can stand in a
-- request or in a row of the database: so it is here. `String()` is the identity.
use ec_order_state_service.Prelude.{
  String, ◌==◌, Bool, true, false, Option, none, some, List, [], ◌∷◌, if◌then◌else◌,
}
use ec_order_state_service.Prelude.Int.{ℤ, pos, negsuc}

abbrev pub OrderStatus : Type 0
OrderStatus = String

abbrev pub created : OrderStatus
created = "Created"

abbrev pub waiting_for_payment : OrderStatus
waiting_for_payment = "WaitingForPayment"

abbrev pub waiting_for_shipment : OrderStatus
waiting_for_shipment = "WaitingForShipment"

abbrev pub in_transit : OrderStatus
in_transit = "InTransit"

abbrev pub wait_pickup : OrderStatus
wait_pickup = "WaitPickup"

abbrev pub completed : OrderStatus
completed = "Completed"

abbrev pub canceled : OrderStatus
canceled = "Canceled"

abbrev pub refund : OrderStatus
refund = "Refund"

-- The codes of the .NET enumeration; -1 is the `default` case.
unfoldable pub to_int : OrderStatus → ℤ
to_int s =
    if s == created
    then pos 0
    else if s == waiting_for_shipment
    then pos 2
    else if s == in_transit
    then pos 7
    else if s == wait_pickup
    then pos 3
    else if s == completed
    then pos 4
    else if s == canceled
    then pos 5
    else if s == refund
    then pos 6
    else negsuc 0

-- The map literal of `CanTransitionTo`.
abbrev pub allowed_transitions : List (OrderStatus × List OrderStatus)
allowed_transitions =
    (created, waiting_for_shipment ∷ canceled ∷ [])
    ∷ (waiting_for_shipment, in_transit ∷ [])
    ∷ (in_transit, wait_pickup ∷ [])
    ∷ (wait_pickup, completed ∷ [])
    ∷ (completed, [])
    ∷ (canceled, [])
    ∷ (refund, [])
    ∷ []

-- Indexing a Go map, with the `exists` flag as an `Option`.
abbrev transitions_from :
    OrderStatus → List (OrderStatus × List OrderStatus) → Option (List OrderStatus)
transitions_from from [] = none
transitions_from from ((s, allowed) ∷ rest) =
    if s == from then some allowed else transitions_from from rest

-- The loop over the allowed statuses.
abbrev is_listed : List OrderStatus → OrderStatus → Bool
is_listed [] to = false
is_listed (status ∷ allowed) to = if status == to then true else is_listed allowed to

unfoldable pub can_transition_to : OrderStatus → OrderStatus → Bool
can_transition_to from to = elim (transitions_from from allowed_transitions) [
  | none ↦ false
  | some allowed ↦ is_listed allowed to
]
