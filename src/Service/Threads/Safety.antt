-- ===== src/Service/Threads/Safety.antt =====
-- internal/service/order_state_service.go under several goroutines: what may become of an order.
use ec_order_state_service.Prelude.{
  ◌≡◌, ◌≢◌, refl, String, ◌==◌, true, Option, none, some, List, [], ◌∷◌, inl, inr, Option-cases,
  Bool-cases,
}
use ec_order_state_service.Domain.Status.{
  OrderStatus, created, waiting_for_shipment, can_transition_to,
}
use ec_order_state_service.Domain.Order.{
  Order, update_status, update_status_allowed, update_status_refused,
}
use ec_order_state_service.Domain.Events.{PaymentCompletedEvent, new_order_status_changed_event}
use ec_order_state_service.Domain.Failure.{Error, Result, as_not_found, ok, err, Result-cases}
use ec_order_state_service.Domain.Lifecycle.{stay}
use ec_order_state_service.Service.Deps.{
  Value, OrderStateService, is_duplicate_key_error, is_deadlock_or_conflict_error,
}
use ec_order_state_service.Service.Core.{error, for_order}
use ec_order_state_service.Service.Contract.{Meaning, Quiet, IsLawful}
use ec_order_state_service.Service.Progress.{
  Fate, Progress, Progress-trans, Quiet-Progress, Progress-Assigns, Promotes-Progress,
}
use ec_order_state_service.Service.Requests.{
  Request, order_created, payment_completed, shipment_started, package_arrived, package_picked_up,
  set_status, batch, IsAllowed,
}
use ec_order_state_service.Service.Threads.{
  Thread, done, call, act, publish, publish_or_log, save_changed, after_update, change_status,
  after_conflict, save_paid, after_paid, settle_payment, after_duplicate, create_paid, pay,
  and_then, handle_payment_completed, publish_all, batch_update_order_status, thread,
}
use ec_order_state_service.Service.Threads.Safe.{IsSafe, ended, called, Fate-move, Fate-none}

-- Progress since the state `w0`, in which the service was started.
module _ {W : Type 0} (s : OrderStateService W) (m : Meaning W) (L : IsLawful s m) (w0 : W)
    (valid : m.Valid w0) where
  abbrev Safe : Thread W → Type 1
  Safe = IsSafe (Progress m w0)

  -- The status may be written: the order may have come to it since the start.
  abbrev May : String → OrderStatus → Type 0
  May id status = Fate (m.view w0 id) (some status)

  quietly : {w w' : W} → Quiet m w w' → Progress m w0 w → Progress m w0 w'
  quietly q p = Progress-trans p (Quiet-Progress q)

  act-IsSafe : (f : W → W) (t : Thread W) → ((w : W) → Quiet m w (f w)) → Safe t → Safe (act s f t)
  act-IsSafe f t keeps h = called (λ w. quietly (keeps w)) (λ _ _. h)

  publish-IsSafe :
      (id : String) (from to : OrderStatus) (next : Option Error → Thread W)
      → ((e : Option Error) → Safe (next e))
      → Safe (publish s id from to next)
  unfolding publish new_order_status_changed_event
  publish-IsSafe id from to next h =
      called (λ w. quietly (L.clock_keeps w))
        λ _ _. called (λ w. quietly (L.publish_keeps _ w)) (λ _ _. h _)

  publish_or_log-IsSafe :
      (id : String) (from to : OrderStatus) (t : Thread W)
      → Safe t
      → Safe (publish_or_log s id from to t)
  unfolding publish_or_log
  publish_or_log-IsSafe id from to t h = publish-IsSafe id from to _ go
    where
      go :
          (e : Option Error)
          → Safe
              (elim e [ none ↦ t | some e' ↦ act s (error s "發布狀態變更事件失敗" e' (for_order s id)) t ])
      go none = h
      go (some e) = act-IsSafe _ t (L.error_keeps _ _ _) h

  save-IsSafe :
      (o : Order) (next : Option Error → Thread W)
      → May o.id o.status
      → Safe (next none)
      → ((e : Error) → Safe (next (some e)))
      → Safe (call (s.order_repo.save o) next)
  save-IsSafe o next may done_safe failed_safe =
      called
        (λ w p. elim (Option-cases (s.order_repo.save o w).0) [
          | inl saved ↦ Progress-Assigns o.id may (L.save_done o w saved) p
          | inr (e, failed) ↦ quietly (L.save_failed o w e failed) p
        ])
        (λ w p. elim (Option-cases (s.order_repo.save o w).0) [
          | inl saved ↦ rw saved done_safe
          | inr (e, failed) ↦ rw failed (failed_safe e)
        ])

  get_by_id-IsSafe :
      (id : String) (next : Result Order → Thread W)
      → ((e : Error) → (as_not_found e ≢ none → m.view w0 id ≡ none) → Safe (next (err e)))
      → ((o : Order) → May o.id o.status → Safe (next (ok o)))
      → Safe (call (s.order_repo.get_by_id id) next)
  get_by_id-IsSafe id next absent present =
      called (λ w. quietly (L.get_keeps id w))
        (λ w p. elim (Result-cases (s.order_repo.get_by_id id w).0) [
          | inl (e, failed) ↦
              rw failed
                (absent e λ missing. Fate-none _ _ (p.fate id) (L.get_absent id w e failed missing))
          | inr (o, found) ↦
              let (seen, own) = L.get_found id w o (p.stays valid) found in
              let may : May id o.status = rw (← seen) (p.fate id) in
              rw found (present o (rw own may))
        ])

  update_status-IsSafe :
      (to : OrderStatus) (o : Order) (next : Option Error × Order → Thread W)
      → May o.id o.status
      → ((e : Error) (o' : Order) → Safe (next (some e, o')))
      → ((o' : Order) → May o'.id o'.status → Safe (next (none, o')))
      → Safe (call (update_status s.clock to o) next)
  update_status-IsSafe to o next may refused allowed =
      elim (Bool-cases (can_transition_to o.status to)) [
        | inr bad ↦
            called (λ w p. rw (update_status_refused s.clock to o w bad) p)
              (λ w p. rw (update_status_refused s.clock to o w bad) (refused _ _))
        | inl good ↦
            called
              (λ w p. rw (update_status_allowed s.clock to o w good) (quietly (L.clock_keeps w) p))
              (λ w p.
                rw (update_status_allowed s.clock to o w good)
                  (allowed _ (Fate-move _ o.status to good may)))
      ]

  -- What the four methods with the shared body do last changes no status.
  save_changed-IsSafe :
      (from : OrderStatus) (finish : OrderStatus → W → W) (o : Order)
      → ((w : W) → Quiet m w (finish from w))
      → May o.id o.status
      → Safe (save_changed s from finish o)
  unfolding save_changed
  save_changed-IsSafe from finish o keeps may =
      save-IsSafe o _ may
        (publish-IsSafe o.id from o.status (λ _. act s (finish from) (done none))
          (λ _. act-IsSafe (finish from) (done none) keeps ended))
        (λ _. ended)

  change_status-IsSafe :
      (id : String) (to : OrderStatus) (refused : OrderStatus → List Value)
      (finish : OrderStatus → W → W)
      → ((from : OrderStatus) (w : W) → Quiet m w (finish from w))
      → Safe (change_status s id to refused finish)
  unfolding change_status after_update
  change_status-IsSafe id to refused finish keeps =
      get_by_id-IsSafe id _ (λ e _. ended)
        λ o may.
          update_status-IsSafe to o (after_update s id o.status refused finish) may
            (λ e _. act-IsSafe _ (done (some e)) (L.error_keeps _ _ _) ended)
            (λ o' may'. save_changed-IsSafe o.status finish o' (keeps o.status) may')

  after_conflict-IsSafe : (id : String) → Safe (after_conflict s id)
  unfolding after_conflict
  after_conflict-IsSafe id = act-IsSafe _ _ (L.warn_keeps _ _) (
      get_by_id-IsSafe id _ (λ e _. act-IsSafe _ (done _) (L.error_keeps _ _ _) ended)
        λ o may. elim (Bool-cases (o.status == waiting_for_shipment)) [
          | inl paid ↦ rw paid (act-IsSafe _ (done none) (L.info_keeps _ _) ended)
          | inr unpaid ↦ rw unpaid ended
        ])

  save_paid-IsSafe :
      (id : String) (from : OrderStatus) (o : Order)
      → May o.id o.status
      → Safe (save_paid s id from o)
  unfolding save_paid
  save_paid-IsSafe id from o may =
      save-IsSafe o _ may
        (publish_or_log-IsSafe o.id from o.status _
          (act-IsSafe _ (done none) (L.info_keeps _ _) ended))
        λ e. elim (Bool-cases (is_deadlock_or_conflict_error (some e))) [
          | inl conflict ↦ rw conflict (after_conflict-IsSafe id)
          | inr other ↦ rw other (act-IsSafe _ (done (some e)) (L.error_keeps _ _ _) ended)
        ]

  settle_payment-IsSafe :
      (id : String) (o : Order) → May o.id o.status → Safe (settle_payment s id o)
  unfolding settle_payment after_paid
  settle_payment-IsSafe id o may = elim (Bool-cases (o.status == waiting_for_shipment)) [
    | inl paid ↦ rw (settle_payment, paid) (act-IsSafe _ (done none) (L.info_keeps _ _) ended)
    | inr unpaid ↦ elim (Bool-cases (o.status == created)) [
      | inl new ↦
          rw (settle_payment, unpaid, new)
            (update_status-IsSafe waiting_for_shipment o (after_paid s id o.status) may
              (λ e _. act-IsSafe _ (done (some e)) (L.error_keeps _ _ _) ended)
              (λ o' may'. save_paid-IsSafe id o.status o' may'))
      | inr other ↦
          rw (settle_payment, unpaid, other) (act-IsSafe _ (done none) (L.warn_keeps _ _) ended)
    ]
  ]

  create_paid-IsSafe : (id : String) → m.view w0 id ≡ none → Safe (create_paid s id)
  unfolding create_paid after_duplicate
  create_paid-IsSafe id absent = act-IsSafe _ _ (L.info_keeps _ _) (
      called (λ w. quietly (L.clock_keeps w))
        λ _ _.
          save-IsSafe _ _ (rw absent stay) (act-IsSafe _ (done none) (L.info_keeps _ _) ended) λ e.
            elim (Bool-cases (is_duplicate_key_error (some e))) [
              | inl duplicate ↦ rw duplicate (
                  act-IsSafe _ _ (L.info_keeps _ _) (
                    get_by_id-IsSafe id (after_duplicate s id)
                      (λ e2 _. act-IsSafe _ (done _) (L.error_keeps _ _ _) ended)
                      (λ o may. settle_payment-IsSafe id o may)))
              | inr other ↦ rw other (act-IsSafe _ (done _) (L.error_keeps _ _ _) ended)
            ])

  pay-IsSafe : (id : String) → Safe (pay s id)
  unfolding pay
  pay-IsSafe id =
      get_by_id-IsSafe id _
        (λ e absent. elim (Option-cases (as_not_found e)) [
          | inl broken ↦ rw broken (act-IsSafe _ (done _) (L.error_keeps _ _ _) ended)
          | inr (missing, found) ↦ rw found (create_paid-IsSafe id (absent (λ z. cc (found, z))))
        ])
        (λ o may. settle_payment-IsSafe id o may)

  and_then-IsSafe :
      (t : Thread W) (next : Option Error → Thread W)
      → Safe t
      → ((e : Option Error) → Safe (next e))
      → Safe (and_then s t next)
  unfolding and_then
  and_then-IsSafe (done e) next ended k = k e
  and_then-IsSafe (call f after) next (called keeps rest) k =
      called keeps (λ w p. and_then-IsSafe (after (f w).0) next (rest w p) k)

  handle_payment_completed-IsSafe :
      (event : PaymentCompletedEvent) → Safe (handle_payment_completed s event)
  unfolding handle_payment_completed
  handle_payment_completed-IsSafe event =
      called (λ w. quietly (L.clock_keeps w))
        λ _ _. and_then-IsSafe (pay s event.order_id) _ (pay-IsSafe event.order_id) λ e.
          called (λ w. quietly (L.clock_keeps w))
            λ _ _. act-IsSafe _ (done e) (L.info_keeps _ _) ended

  publish_all-IsSafe :
      (ids : List String) (from to : OrderStatus) (t : Thread W)
      → Safe t
      → Safe (publish_all s ids from to t)
  unfolding publish_all
  publish_all-IsSafe [] from to t h = h
  publish_all-IsSafe (id ∷ ids) from to t h =
      publish_or_log-IsSafe id from to _ (publish_all-IsSafe ids from to t h)

  batch_update_order_status-IsSafe :
      (ids : List String) (from to : OrderStatus)
      → can_transition_to from to ≡ true
      → Safe (batch_update_order_status s ids from to)
  unfolding batch_update_order_status
  batch_update_order_status-IsSafe [] from to good = ended
  batch_update_order_status-IsSafe (id ∷ ids) from to good =
      called
        (λ w p.
          elim (Option-cases (s.order_repo.batch_update_order_status (id ∷ ids) to from w).0) [
            | inl updated ↦
                Progress-trans p
                  (Promotes-Progress (L.batch_done (id ∷ ids) to from w updated) good)
            | inr (e, failed) ↦ quietly (L.batch_failed (id ∷ ids) to from w e failed) p
          ])
        (λ w p.
          elim (Option-cases (s.order_repo.batch_update_order_status (id ∷ ids) to from w).0) [
            | inl updated ↦ rw updated (
                publish_all-IsSafe (id ∷ ids) from to _
                  (act-IsSafe _ (done none) (L.info_keeps _ _) ended))
            | inr (e, failed) ↦ rw failed (act-IsSafe _ (done (some e)) (L.error_keeps _ _ _) ended)
          ])

  pub thread-IsSafe : (r : Request) → IsAllowed r → Safe (thread s r)
  unfolding thread
  thread-IsSafe (order_created event) allowed = act-IsSafe _ (done none) (L.info_keeps _ _) ended
  thread-IsSafe (payment_completed event) allowed = handle_payment_completed-IsSafe event
  thread-IsSafe (shipment_started event) allowed =
      change_status-IsSafe _ _ _ _ (λ _ w. record { sees = refl; stays = λ h. h })
  thread-IsSafe (package_arrived event) allowed =
      change_status-IsSafe _ _ _ _ (λ _ w. record { sees = refl; stays = λ h. h })
  thread-IsSafe (package_picked_up event) allowed =
      change_status-IsSafe _ _ _ _ (λ _ w. record { sees = refl; stays = λ h. h })
  thread-IsSafe (set_status id new_status) allowed =
      change_status-IsSafe _ _ _ _ (λ _. L.info_keeps _ _)
  thread-IsSafe (batch ids from to) allowed = batch_update_order_status-IsSafe ids from to allowed
