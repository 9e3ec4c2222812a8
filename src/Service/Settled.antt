-- ===== src/Service/Settled.antt =====
-- internal/service/order_state_service.go: what a HandlePaymentCompleted that returns nil has made
-- sure of.
use ec_order_state_service.Prelude.{
  ◌≡◌, refl, String, ◌==◌, eq_iff, true, false, Option, none, some, inl, inr, Option-cases,
  Bool-cases, arith,
}
use ec_order_state_service.Domain.Status.{
  OrderStatus, created, waiting_for_shipment, can_transition_to,
}
use ec_order_state_service.Domain.Order.{Order, update_status_allowed}
use ec_order_state_service.Domain.Events.{PaymentCompletedEvent}
use ec_order_state_service.Domain.Failure.{Error, as_not_found, ok, Result-cases}
use ec_order_state_service.Service.Deps.{
  is_duplicate_key_error, is_deadlock_or_conflict_error, OrderStateService,
}
use ec_order_state_service.Service.Contract.{Meaning, Quiet, ◌⨟◌, IsLawful}
use ec_order_state_service.Service.Core.{warn, info, for_order}
use ec_order_state_service.Service.Core.Payments.{
  after_conflict, save_paid, settle_payment, create_paid, pay, handle_payment_completed,
}
use ec_order_state_service.Service.Payment.{created-waiting_for_shipment, publish_or_log-keeps}

-- The order is there, and past Created.
pub record IsPaid {W : Type 0} (m : Meaning W) (id : String) (w : W) : Type 0 where
  pub status : OrderStatus
  pub found : m.view w id ≡ some status
  pub past_created : (status == created) ≡ false

-- The result of a payment: where it is nil, the order is paid.
pub data Settles {W : Type 0} (m : Meaning W) (id : String) : Option Error × W → Type 0 where
  settled : {w : W} → IsPaid m id w → Settles m id (none, w)
  unsettled : {e : Error} {w : W} → Settles m id (some e, w)

module _ {W : Type 0} (s : OrderStateService W) (m : Meaning W) (L : IsLawful s m) where
  pub IsPaid-Quiet : {id : String} {w w' : W} → Quiet m w w' → IsPaid m id w → IsPaid m id w'
  IsPaid-Quiet q p = record {
    status = p.status;
    found = rw q.sees p.found;
    past_created = p.past_created;
  }

  -- An order that has been read, in another status than Created.
  IsPaid-read :
      (id : String) (o : Order) (w : W)
      → m.view w id ≡ some o.status
      → (o.status == created) ≡ false
      → IsPaid m id w
  IsPaid-read id o w seen past = record { status = o.status; found = seen; past_created = past }

  -- An order that has been saved as paid.
  IsPaid-save :
      (id : String) (o : Order) (w : W)
      → o.id ≡ id
      → o.status ≡ waiting_for_shipment
      → (s.order_repo.save o w).0 ≡ none
      → IsPaid m id (s.order_repo.save o w).1
  IsPaid-save id o w own paid saved = record {
    status = o.status;
    found = rw (L.save_done o w saved).sees (ground (arith, eq_iff o.id id));
    past_created = rw paid refl;
  }

  seen_after :
      (id : String) (w : W) (o : Order)
      → m.Valid w
      → (s.order_repo.get_by_id id w).0 ≡ ok o
      → m.view (s.order_repo.get_by_id id w).1 id ≡ some o.status
  seen_after id w o valid found = rw ((L.get_keeps id w).sees) ((L.get_found id w o valid found).0)

  after_conflict-Settles : (id : String) (w : W) → m.Valid w → Settles m id (after_conflict s id w)
  unfolding after_conflict
  after_conflict-Settles id w valid =
      let w1 = warn s "並發更新衝突，重新查詢訂單狀態" (for_order s id) w in
      let valid1 : m.Valid w1 = (L.warn_keeps _ _ w).stays valid in
      elim (Result-cases (s.order_repo.get_by_id id w1).0) [
        | inl (e, failed) ↦ rw (failed, after_conflict) unsettled
        | inr (o, found) ↦ elim (Bool-cases (o.status == waiting_for_shipment)) [
          | inl paid ↦
              rw (found, after_conflict, paid)
                (settled (
                  IsPaid-Quiet (L.info_keeps _ _ _) (
                    IsPaid-read id o _ (seen_after id w1 o valid1 found)
                      (rw ((eq_iff o.status waiting_for_shipment).0 paid) refl))))
          | inr unpaid ↦ rw (found, after_conflict, unpaid) unsettled
        ]
      ]

  save_paid-Settles :
      (id : String) (from : OrderStatus) (o : Order) (w : W)
      → m.Valid w
      → o.id ≡ id
      → o.status ≡ waiting_for_shipment
      → Settles m id (save_paid s id from o w)
  unfolding save_paid
  save_paid-Settles id from o w valid own paid = elim (Option-cases (s.order_repo.save o w).0) [
    | inl saved ↦
        rw (saved, save_paid)
          (settled (
            IsPaid-Quiet (L.info_keeps _ _ _ ⨟ publish_or_log-keeps s m L _ _ _ _)
              (IsPaid-save id o w own paid saved)))
    | inr (e, failed) ↦ elim (Bool-cases (is_deadlock_or_conflict_error (some e))) [
      | inl conflict ↦
          rw (failed, save_paid, conflict)
            (after_conflict-Settles id _ ((L.save_failed o w e failed).stays valid))
      | inr other ↦ rw (failed, save_paid, other) unsettled
    ]
  ]

  settle_payment-Settles :
      (id : String) (o : Order) (w : W)
      → m.Valid w
      → o.id ≡ id
      → m.view w id ≡ some o.status
      → Settles m id (settle_payment s id o w)
  unfolding settle_payment
  settle_payment-Settles id o w valid own seen =
      elim (Bool-cases (o.status == waiting_for_shipment)) [
        | inl paid ↦
            rw (settle_payment, paid)
              (settled (
                IsPaid-Quiet (L.info_keeps _ _ w) (
                  IsPaid-read id o w seen
                    (rw ((eq_iff o.status waiting_for_shipment).0 paid) refl))))
        | inr unpaid ↦ elim (Bool-cases (o.status == created)) [
          | inl new ↦
              let good : can_transition_to o.status waiting_for_shipment ≡ true =
                rw ((eq_iff _ _).0 new) created-waiting_for_shipment in
              rw
                (
                  settle_payment,
                  unpaid,
                  new,
                  update_status_allowed s.clock waiting_for_shipment o w good,
                )
                (save_paid-Settles id o.status _ _ ((L.clock_keeps w).stays valid) own refl)
          | inr other ↦
              rw (settle_payment, unpaid, other)
                (settled (IsPaid-Quiet (L.warn_keeps _ _ w) (IsPaid-read id o w seen other)))
        ]
      ]

  create_paid-Settles : (id : String) (w : W) → m.Valid w → Settles m id (create_paid s id w)
  unfolding create_paid
  create_paid-Settles id w valid =
      let w1 = info s "訂單不存在，創建新訂單" (for_order s id) w in
      let (now, w2) = s.clock w1 in
      let o : Order = record {
        id = id;
        status = waiting_for_shipment;
        created_at = now;
        updated_at = now;
      } in
      let valid2 : m.Valid w2 = (L.clock_keeps w1 ⨟ L.info_keeps _ _ w).stays valid in
      elim (Option-cases (s.order_repo.save o w2).0) [
        | inl saved ↦
            rw (saved, create_paid)
              (settled (IsPaid-Quiet (L.info_keeps _ _ _) (IsPaid-save id o w2 refl refl saved)))
        | inr (e, failed) ↦ elim (Bool-cases (is_duplicate_key_error (some e))) [
          | inr other ↦ rw (failed, create_paid, other) unsettled
          | inl duplicate ↦
              let w3 = info s "訂單已存在（可能由並發創建），重新查詢" (for_order s id) (s.order_repo.save o w2).1 in
              let valid3 : m.Valid w3 =
                (L.info_keeps _ _ _ ⨟ L.save_failed o w2 e failed).stays valid2 in
              elim (Result-cases (s.order_repo.get_by_id id w3).0) [
                | inl (e2, lost) ↦ rw (failed, create_paid, duplicate, lost) unsettled
                | inr (o2, found) ↦
                    rw (failed, create_paid, duplicate, found)
                      (settle_payment-Settles id o2 _ ((L.get_keeps id w3).stays valid3)
                        ((L.get_found id w3 o2 valid3 found).1) (seen_after id w3 o2 valid3 found))
              ]
        ]
      ]

  pay-Settles : (id : String) (w : W) → m.Valid w → Settles m id (pay s id w)
  unfolding pay
  pay-Settles id w valid = elim (Result-cases (s.order_repo.get_by_id id w).0) [
    | inr (o, found) ↦
        rw (found, pay)
          (settle_payment-Settles id o _ ((L.get_keeps id w).stays valid)
            ((L.get_found id w o valid found).1) (seen_after id w o valid found))
    | inl (e, failed) ↦ elim (Option-cases (as_not_found e)) [
      | inl broken ↦ rw (failed, pay, broken) unsettled
      | inr (missing, e2) ↦
          rw (failed, pay, e2) (create_paid-Settles id _ ((L.get_keeps id w).stays valid))
    ]
  ]

  Settles-Quiet :
      {id : String} {w' : W} (r : Option Error × W)
      → Quiet m r.1 w'
      → Settles m id r
      → Settles m id (r.0, w')
  Settles-Quiet (none, w) q (settled p) = settled (IsPaid-Quiet q p)
  Settles-Quiet (some e, w) q unsettled = unsettled

  pub handle_payment_completed-Settles :
      (event : PaymentCompletedEvent) (w : W)
      → m.Valid w
      → Settles m event.order_id (handle_payment_completed s event w)
  unfolding handle_payment_completed
  handle_payment_completed-Settles event w valid =
      Settles-Quiet _ (L.info_keeps _ _ _ ⨟ L.clock_keeps _)
        (pay-Settles event.order_id _ ((L.clock_keeps w).stays valid))
