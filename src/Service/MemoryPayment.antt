-- ===== src/Service/MemoryPayment.antt =====
-- internal/service/order_state_service.go: HandlePaymentCompleted on the service of
-- NewOrderStateService.
use ec_order_state_service.Prelude.{
  ℕ, ◌+◌, sym, ◌≡◌, refl, ◌∙◌, ◌==◌, eq_iff, String, true, false, Option, none, some, List, [], ◌∷◌,
  ◌++◌, map, arith, inl, inr, Bool-cases, Option-cases, if◌then◌else◌,
}
use ec_order_state_service.Prelude.Dict.{lookup, insert, lookup-insert}
use ec_order_state_service.Domain.Status.{
  OrderStatus, created, waiting_for_shipment, can_transition_to,
}
use ec_order_state_service.Domain.Order.{Time, Order, update_status_allowed}
use ec_order_state_service.Domain.Failure.{Error, order_not_found, ok, err}
use ec_order_state_service.Domain.Events.{
  PaymentCompletedEvent, OrderStatusChangedEvent, new_order_status_changed_event,
}
use ec_order_state_service.Repository.Memory
use ec_order_state_service.Repository.Memory.{Orders}
use ec_order_state_service.Repository.Memory.Keys.{IsKeyed, lookup-id}
use ec_order_state_service.Service.Deps.{OrderStateService}
use ec_order_state_service.Service.Payment.{created-waiting_for_shipment}
use mathlib.Core.List.{append-nil, map-append}
use ec_order_state_service.Service.Core.Payments.{
  save_paid, settle_payment, create_paid, pay, handle_payment_completed,
}
use ec_order_state_service.Service.Mocks.{
  World, new_order_state_service, publish_order_status_changed,
}
use ec_order_state_service.Service.MemoryService.{statuses}

-- The status of an order after its payment, by its status before.
abbrev pub paid : Option OrderStatus → Option OrderStatus
paid none = some waiting_for_shipment
paid (some s) = some (if s == created then waiting_for_shipment else s)

-- The changes that a payment announces: that of an order that was `Created`.
abbrev pub announced : String → Option OrderStatus → List (String × OrderStatus × OrderStatus)
announced id none = []
announced id (some s) = if s == created then (id, created, waiting_for_shipment) ∷ [] else []

abbrev pub change : OrderStatusChangedEvent → String × OrderStatus × OrderStatus
change e = (e.order_id, e.from_status, e.to_status)

abbrev pub changes : World → List (String × OrderStatus × OrderStatus)
changes w = map change w.events

-- The effect of a payment for `id`.
pub record Pays (id : String) (w : World) (r : Option Error × World) : Type 0 where
  pub accepted : r.0 ≡ none
  pub sees : (j : String) → statuses r.1 j ≡ (if id == j then paid (statuses w j) else statuses w j)
  pub tells : changes r.1 ≡ changes w ++ announced id (statuses w id)

-- What a call leaves, the log and the clock aside.
record Leaves (orders : Orders) (events : List OrderStatusChangedEvent) (r : Option Error × World)
    : Type 0 where
  accepted : r.0 ≡ none
  stored : r.1.orders ≡ orders
  sent : r.1.events ≡ events

-- From what is left to what is seen.
Pays-nothing :
    (id : String) (w : World) (r : Option Error × World)
    → Leaves w.orders w.events r
    → paid (statuses w id) ≡ statuses w id
    → announced id (statuses w id) ≡ []
    → Pays id w r
Pays-nothing id w r l same none_told = record {
  accepted = l.accepted;
  sees = λ j. rw l.stored (ground (arith, eq_iff id j));
  tells = rw (l.sent, none_told) (sym (append-nil _));
}

Pays-assigned :
    (id : String) (o : Order) (more : List OrderStatusChangedEvent) (w : World)
    (r : Option Error × World)
    → Leaves (insert id o w.orders) (w.events ++ more) r
    → some o.status ≡ paid (statuses w id)
    → map change more ≡ announced id (statuses w id)
    → Pays id w r
Pays-assigned id o more w r l status told = record {
  accepted = l.accepted;
  sees = λ j. rw (l.stored, lookup-insert id j o w.orders) (ground (arith, eq_iff id j));
  tells = rw (l.sent, map-append, told);
}

get-absent :
    (id : String) (orders : Orders)
    → lookup id orders ≡ none
    → Memory.get_by_id id orders ≡ (err (order_not_found (record { order_id = id })), orders)
unfolding Memory.get_by_id
get-absent id orders absent = rw (absent, Memory.get_by_id) refl

get-found :
    (id : String) (orders : Orders) (o : Order)
    → lookup id orders ≡ some o
    → Memory.get_by_id id orders ≡ (ok o, orders)
unfolding Memory.get_by_id
get-found id orders o found = rw (found, Memory.get_by_id) refl

module _ (tick : ℕ → Time) (range : Orders → List (String × Order)) where
  abbrev service : OrderStateService World
  service = new_order_state_service tick range

  settle-waiting :
      (id : String) (o : Order) (w : World)
      → (o.status == waiting_for_shipment) ≡ true
      → Leaves w.orders w.events (settle_payment service id o w)
  unfolding settle_payment
  settle-waiting id o w is_paid =
      rw (settle_payment, is_paid) (record { accepted = refl; stored = refl; sent = refl })

  settle-other :
      (id : String) (o : Order) (w : World)
      → (o.status == waiting_for_shipment) ≡ false
      → (o.status == created) ≡ false
      → Leaves w.orders w.events (settle_payment service id o w)
  unfolding settle_payment
  settle-other id o w unpaid other =
      rw (settle_payment, unpaid, other) (record { accepted = refl; stored = refl; sent = refl })

  abbrev paid_order : Order → World → Order
  paid_order o w = record o { status = waiting_for_shipment; updated_at = tick w.reads }

  abbrev paid_event : Order → World → OrderStatusChangedEvent
  paid_event o w = record {
    order_id = o.id;
    from_status = o.status;
    to_status = waiting_for_shipment;
    timestamp = tick (w.reads + 1);
  }

  settle-new :
      (id : String) (o : Order) (w : World)
      → (o.status == waiting_for_shipment) ≡ false
      → (o.status == created) ≡ true
      → Leaves
          (insert o.id (paid_order o w) w.orders)
          (w.events ++ (paid_event o w ∷ []))
          (settle_payment service id o w)
  unfolding settle_payment save_paid Memory.save publish_order_status_changed
      new_order_status_changed_event
  settle-new id o w unpaid new =
      let good : can_transition_to o.status waiting_for_shipment ≡ true =
        rw ((eq_iff _ _).0 new) created-waiting_for_shipment in
      rw
        (
          settle_payment,
          unpaid,
          new,
          update_status_allowed service.clock waiting_for_shipment o w good,
        )
        (record { accepted = refl; stored = refl; sent = refl })

  create-new :
      (id : String) (w : World)
      → Leaves
          (insert id
            (record {
              id = id;
              status = waiting_for_shipment;
              created_at = tick w.reads;
              updated_at = tick w.reads;
            })
            w.orders)
          w.events
          (create_paid service id w)
  unfolding create_paid Memory.save
  create-new id w = record { accepted = refl; stored = refl; sent = refl }

  pub pay-Pays : (id : String) (w : World) → IsKeyed w.orders → Pays id w (pay service id w)
  unfolding pay
  pay-Pays id w valid = elim (Option-cases (lookup id w.orders)) [
    | inl absent ↦
        let o : Order = record {
          id = id;
          status = waiting_for_shipment;
          created_at = tick w.reads;
          updated_at = tick w.reads;
        } in
        rw (get-absent id w.orders absent, pay, get-absent id w.orders absent)
          (Pays-assigned id o [] w (create_paid service id w)
            (let l = create-new id w in
              record {
                accepted = l.accepted;
                stored = l.stored;
                sent = l.sent ∙ sym (append-nil _);
              })
            (rw absent) (rw absent))
    | inr (o, found) ↦ elim (Bool-cases (o.status == waiting_for_shipment)) [
      | inl is_paid ↦
          rw (get-found id w.orders o found, pay, get-found id w.orders o found)
            (Pays-nothing id w (settle_payment service id o w) (settle-waiting id o w is_paid)
              (rw (found, (eq_iff _ _).0 is_paid) refl) (rw (found, (eq_iff _ _).0 is_paid) refl))
      | inr unpaid ↦ elim (Bool-cases (o.status == created)) [
        | inl new ↦
            let key = lookup-id id o w.orders valid found in
            let l = settle-new id o w unpaid new in
            rw (get-found id w.orders o found, pay, get-found id w.orders o found)
              (Pays-assigned id (paid_order o w) (paid_event o w ∷ []) w
                (settle_payment service id o w)
                (record { accepted = l.accepted; stored = l.stored ∙ rw key; sent = l.sent })
                (rw (found, new)) (rw (found, new, key, (eq_iff _ _).0 new)))
        | inr other ↦
            rw (get-found id w.orders o found, pay, get-found id w.orders o found)
              (Pays-nothing id w (settle_payment service id o w) (settle-other id o w unpaid other)
                (rw (found, other)) (rw (found, other)))
      ]
    ]
  ]

  -- On the service of NewOrderStateService, from any state whose orders stand under their
  -- own ids, HandlePaymentCompleted returns nil whatever the order's status: an order that
  -- is not there is created in status WaitingForShipment without an event, one in status
  -- Created becomes WaitingForShipment and exactly that change is published, any other is
  -- left as it is without an event; no other order's status changes.
  pub handle_payment_completed-Pays :
      (event : PaymentCompletedEvent) (w : World)
      → IsKeyed w.orders
      → Pays event.order_id w (handle_payment_completed service event w)
  unfolding handle_payment_completed
  handle_payment_completed-Pays event w valid =
      let p = pay-Pays event.order_id (record w { reads = w.reads + 1 }) valid in
      record { accepted = p.accepted; sees = p.sees; tells = p.tells }
