-- ===== src/Domain/Lifecycle.antt =====
-- The transition diagram as an independent relation, and what `CanTransitionTo` and `ToInt` of
-- internal/domain/order_status.go have to do with it.
use ec_order_state_service.Prelude.{
  ap, beq, ℕ, suc, ◌+◌, ◌<◌, ◌≤◌, ◌≡◌, refl, ◌≢◌, ◌==◌, eq_iff, true, arith, if◌then◌else◌, ◌||◌,
}
use ec_order_state_service.Prelude.Int.{ℤ, pos, negsuc}
use ec_order_state_service.Domain.Status.{
  OrderStatus, created, waiting_for_shipment, in_transit, wait_pickup, completed, canceled, refund,
  to_int, can_transition_to,
}

-- The five arrows of the diagram.
pub data Edge (from to : OrderStatus) : Type 0 where
  pay : from ≡ created → to ≡ waiting_for_shipment → Edge from to
  cancel : from ≡ created → to ≡ canceled → Edge from to
  ship : from ≡ waiting_for_shipment → to ≡ in_transit → Edge from to
  arrive : from ≡ in_transit → to ≡ wait_pickup → Edge from to
  pick_up : from ≡ wait_pickup → to ≡ completed → Edge from to

can_transition_to-Edge : (from to : OrderStatus) → can_transition_to from to ≡ true → Edge from to
unfolding can_transition_to
can_transition_to-Edge from to h = grind (
  arith,
  eq_iff created from,
  eq_iff waiting_for_shipment from,
  eq_iff in_transit from,
  eq_iff wait_pickup from,
  eq_iff waiting_for_shipment to,
  eq_iff canceled to,
  eq_iff in_transit to,
  eq_iff wait_pickup to,
  eq_iff completed to,
  pay,
  cancel,
  ship,
  arrive,
  pick_up,
)

-- How far along an order is. The statuses that end a life stand last.
abbrev stage : OrderStatus → ℕ
stage s =
    if s == created
    then 1
    else if s == waiting_for_shipment
    then 2
    else if s == in_transit
    then 3
    else if s == wait_pickup
    then 4
    else if s == completed || s == canceled
    then 5
    else 0

stage-Edge : (from to : OrderStatus) → Edge from to → (0 < stage from) × (stage from < stage to)
stage-Edge from to (pay p q) = rw (p, q) (omega arith)
stage-Edge from to (cancel p q) = rw (p, q) (omega arith)
stage-Edge from to (ship p q) = rw (p, q) (omega arith)
stage-Edge from to (arrive p q) = rw (p, q) (omega arith)
stage-Edge from to (pick_up p q) = rw (p, q) (omega arith)

stage-le : (s : OrderStatus) → stage s ≤ 5
stage-le s = ground arith

-- A history of an order: transitions that `CanTransitionTo` accepts, one after the other.
pub data Journey : OrderStatus → OrderStatus → Type 0 where
  stay : {s : OrderStatus} → Journey s s
  move : {s t u : OrderStatus} → can_transition_to s t ≡ true → Journey t u → Journey s u

pub steps : {s t : OrderStatus} → Journey s t → ℕ
steps stay = 0
steps (move _ j) = suc (steps j)

pub Journey-trans : {s t u : OrderStatus} → Journey s t → Journey t u → Journey s u
Journey-trans stay k = k
Journey-trans (move h j) k = move h (Journey-trans j k)

stage-Journey : {s t : OrderStatus} (j : Journey s t) → steps j + stage s ≤ stage t
unfolding steps
stage-Journey stay = omega arith
stage-Journey (move {s} {t} h j) =
    omega (arith, stage-Journey j, stage-Edge s t (can_transition_to-Edge s t h))

-- A sequence of transitions that CanTransitionTo accepts, one after the other, has at most
-- four transitions.
pub steps-le : {s t : OrderStatus} (j : Journey s t) → steps j ≤ 4
unfolding steps
steps-le stay = omega arith
steps-le (move {s} {t} {u} h j) =
    omega (arith, stage-Journey j, stage-le u, stage-Edge s t (can_transition_to-Edge s t h))

-- A history that comes back to its first status has made no transition.
pub steps_of_cycle : {s t : OrderStatus} (j : Journey s t) → s ≡ t → steps j ≡ 0
steps_of_cycle {s} {t} j e = omega (arith, stage-Journey j, ap stage e)

-- From a status other than Created, WaitingForShipment, InTransit and WaitPickup, transitions
-- that CanTransitionTo accepts lead nowhere else.
pub Journey_at_rest :
    {s t : OrderStatus}
    → Journey s t
    → s ≢ created
    → s ≢ waiting_for_shipment
    → s ≢ in_transit
    → s ≢ wait_pickup
    → s ≡ t
Journey_at_rest stay a b c d = refl
Journey_at_rest (move {s} {t} h j) a b c d = absurd (go (can_transition_to-Edge s t h))
  where
    go : Edge s t → ⊥
    go (pay p q) = a p
    go (cancel p q) = a p
    go (ship p q) = b p
    go (arrive p q) = c p
    go (pick_up p q) = d p

-- The status that has a code, by the table that the main service decodes with.
abbrev pub status_of : ℤ → OrderStatus
status_of (pos n) =
    if beq n 0
    then created
    else if beq n 2
    then waiting_for_shipment
    else if beq n 3
    then wait_pickup
    else if beq n 4
    then completed
    else if beq n 5
    then canceled
    else if beq n 6
    then refund
    else if beq n 7
    then in_transit
    else ""
status_of (negsuc n) = ""

-- If ToInt does not give -1 for a status, decoding the number by the table of the codes gives
-- the status back.
pub status_of-to_int : (s : OrderStatus) → to_int s ≢ negsuc 0 → status_of (to_int s) ≡ s
unfolding to_int
status_of-to_int s valid = ground (
  arith,
  eq_iff s created,
  eq_iff s waiting_for_shipment,
  eq_iff s in_transit,
  eq_iff s wait_pickup,
  eq_iff s completed,
  eq_iff s canceled,
  eq_iff s refund,
)

-- If CanTransitionTo accepts a pair, ToInt gives -1 for neither status, and two different
-- numbers.
pub to_int-can_transition_to :
    (from to : OrderStatus)
    → can_transition_to from to ≡ true
    → (to_int from ≢ negsuc 0) × (to_int to ≢ negsuc 0) × (to_int from ≢ to_int to)
unfolding to_int
to_int-can_transition_to from to h = elim (can_transition_to-Edge from to h) [
  | pay p q ↦ rw (p, q) (ground arith, ground arith, ground arith)
  | cancel p q ↦ rw (p, q) (ground arith, ground arith, ground arith)
  | ship p q ↦ rw (p, q) (ground arith, ground arith, ground arith)
  | arrive p q ↦ rw (p, q) (ground arith, ground arith, ground arith)
  | pick_up p q ↦ rw (p, q) (ground arith, ground arith, ground arith)
]
