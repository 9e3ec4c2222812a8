-- ===== src/Service/Payment.antt =====
-- internal/service/order_state_service.go: the steps that HandlePaymentCompleted makes, branch by
-- branch.
use ec_order_state_service.Prelude.{
  ◌≡◌, refl, String, ◌==◌, eq_iff, true, none, some, inl, inr, Option-cases, Bool-cases,
}
use ec_order_state_service.Domain.Status.{
  OrderStatus, created, waiting_for_shipment, can_transition_to,
}
use ec_order_state_service.Domain.Order.{Order, update_status_allowed}
use ec_order_state_service.Domain.Failure.{as_not_found, Result-cases}
use ec_order_state_service.Service.Deps.{
  is_duplicate_key_error, is_deadlock_or_conflict_error, OrderStateService,
}
use ec_order_state_service.Service.Contract.{
  Meaning, Quiet, ◌⨟◌, Assigns-Quiet, Quiet-Assigns, IsLawful, Step, same, placed, moved, Step-from,
}
use ec_order_state_service.Service.Core.{warn, info, for_order, publish, publish_or_log}
use ec_order_state_service.Service.Core.Payments.{
  after_conflict, save_paid, settle_payment, create_paid, pay,
}
use ec_order_state_service.Service.Safety.{publish-keeps, read_status}

pub created-waiting_for_shipment : can_transition_to created waiting_for_shipment ≡ true
unfolding can_transition_to
created-waiting_for_shipment = refl

module _ {W : Type 0} (s : OrderStateService W) (m : Meaning W) (L : IsLawful s m) where
  after_conflict-keeps : (id : String) (w : W) → Quiet m w (after_conflict s id w).1
  unfolding after_conflict
  after_conflict-keeps id w =
      let w1 = warn s "並發更新衝突，重新查詢訂單狀態" (for_order s id) w in
      let read : Quiet m w (s.order_repo.get_by_id id w1).1 =
        L.get_keeps id w1 ⨟ L.warn_keeps _ _ w in
      elim (Result-cases (s.order_repo.get_by_id id w1).0) [
        | inl (e, failed) ↦ rw (failed, after_conflict) (L.error_keeps _ _ _ _ ⨟ read)
        | inr (o, found) ↦ elim (Bool-cases (o.status == waiting_for_shipment)) [
          | inl paid ↦ rw (found, after_conflict, paid) (L.info_keeps _ _ _ ⨟ read)
          | inr unpaid ↦ rw (found, after_conflict, unpaid) read
        ]
      ]

  pub publish_or_log-keeps :
      (id : String) (from to : OrderStatus) (w : W) → Quiet m w (publish_or_log s id from to w)
  publish_or_log-keeps id from to w = elim (Option-cases (publish s id from to w).0) [
    | inl sent ↦ rw (sent, publish_or_log) (publish-keeps s m L id from to w)
    | inr (e, failed) ↦
        rw (failed, publish_or_log) (L.error_keeps _ _ _ _ ⨟ publish-keeps s m L id from to w)
  ]

  save_paid-Step :
      (id : String) (from : OrderStatus) (o : Order) (w : W)
      → m.view w o.id ≡ some from
      → can_transition_to from o.status ≡ true
      → Step m w (save_paid s id from o w).1
  unfolding save_paid
  save_paid-Step id from o w found good = elim (Option-cases (s.order_repo.save o w).0) [
    | inl saved ↦ moved o.id from o.status found good (
        rw (saved, save_paid)
          (Assigns-Quiet (L.info_keeps _ _ _ ⨟ publish_or_log-keeps _ _ _ _)
            (L.save_done o w saved)))
    | inr (e, failed) ↦ same (elim (Bool-cases (is_deadlock_or_conflict_error (some e))) [
      | inl conflict ↦
          rw (failed, save_paid, conflict) (after_conflict-keeps id _ ⨟ L.save_failed o w e failed)
      | inr other ↦
          rw (failed, save_paid, other) (L.error_keeps _ _ _ _ ⨟ L.save_failed o w e failed)
    ])
  ]

  settle_payment-Step :
      (id : String) (o : Order) (w : W)
      → m.view w o.id ≡ some o.status
      → Step m w (settle_payment s id o w).1
  unfolding settle_payment
  settle_payment-Step id o w found = elim (Bool-cases (o.status == waiting_for_shipment)) [
    | inl paid ↦ same (rw (settle_payment, paid) (L.info_keeps _ _ w))
    | inr unpaid ↦ elim (Bool-cases (o.status == created)) [
      | inl new ↦
          let good : can_transition_to o.status waiting_for_shipment ≡ true =
            rw ((eq_iff _ _).0 new) created-waiting_for_shipment in
          rw
            (
              settle_payment,
              unpaid,
              new,
              update_status_allowed s.clock waiting_for_shipment o w good,
            )
            (Step-from (L.clock_keeps w)
              (save_paid-Step id o.status _ _ (rw ((L.clock_keeps w).sees) found) good))
      | inr other ↦ same (rw (settle_payment, unpaid, other) (L.warn_keeps _ _ w))
    ]
  ]

  create_paid-Step :
      (id : String) (w : W) → m.Valid w → m.view w id ≡ none → Step m w (create_paid s id w).1
  unfolding create_paid
  create_paid-Step id w valid absent =
      let w1 = info s "訂單不存在，創建新訂單" (for_order s id) w in
      let (now, w2) = s.clock w1 in
      let o : Order = record {
        id = id;
        status = waiting_for_shipment;
        created_at = now;
        updated_at = now;
      } in
      let start : Quiet m w w2 = L.clock_keeps w1 ⨟ L.info_keeps _ _ w in
      elim (Option-cases (s.order_repo.save o w2).0) [
        | inl saved ↦ placed id absent (
            rw (saved, create_paid)
              (Assigns-Quiet (L.info_keeps _ _ _) (Quiet-Assigns (L.save_done o w2 saved) start)))
        | inr (e, failed) ↦
            let tried : Quiet m w (s.order_repo.save o w2).1 =
              L.save_failed o w2 e failed ⨟ start in
            elim (Bool-cases (is_duplicate_key_error (some e))) [
              | inr other ↦ same (rw (failed, create_paid, other) (L.error_keeps _ _ _ _ ⨟ tried))
              | inl duplicate ↦
                  let w3 =
                    info s "訂單已存在（可能由並發創建），重新查詢" (for_order s id) (s.order_repo.save o w2).1 in
                  let again : Quiet m w w3 = L.info_keeps _ _ _ ⨟ tried in
                  elim (Result-cases (s.order_repo.get_by_id id w3).0) [
                    | inl (e2, lost) ↦ same (
                        rw (failed, create_paid, duplicate, lost)
                          (L.error_keeps _ _ _ _ ⨟ L.get_keeps id w3 ⨟ again))
                    | inr (o2, found) ↦
                        rw (failed, create_paid, duplicate, found)
                          (Step-from (L.get_keeps id w3 ⨟ again) (
                            settle_payment-Step id o2 _
                              (read_status s m L id w3 o2 (again.stays valid) found)))
                  ]
            ]
      ]

  pub pay-Step : (id : String) (w : W) → m.Valid w → Step m w (pay s id w).1
  unfolding pay
  pay-Step id w valid = elim (Result-cases (s.order_repo.get_by_id id w).0) [
    | inr (o, found) ↦
        rw (found, pay)
          (Step-from (L.get_keeps id w)
            (settle_payment-Step id o _ (read_status s m L id w o valid found)))
    | inl (e, failed) ↦ elim (Option-cases (as_not_found e)) [
      | inl broken ↦ same (rw (failed, pay, broken) (L.error_keeps _ _ _ _ ⨟ L.get_keeps id w))
      | inr (missing, e2) ↦
          rw (failed, pay, e2)
            (Step-from (L.get_keeps id w) (
              create_paid-Step id _ ((L.get_keeps id w).stays valid)
                (rw ((L.get_keeps id w).sees) (L.get_absent id w e failed (λ z. cc (e2, z))))))
    ]
  ]
