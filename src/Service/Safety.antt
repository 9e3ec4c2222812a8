-- ===== src/Service/Safety.antt =====
-- internal/service/order_state_service.go: the steps that the body shared by four methods makes.
use mathlib.Core.Path.{subst}
use ec_order_state_service.Prelude.{
  ◌≡◌, refl, String, true, Option, none, some, List, inl, inr, Option-cases, Bool-cases,
}
use ec_order_state_service.Domain.Status.{
  OrderStatus, created, waiting_for_shipment, can_transition_to,
}
use ec_order_state_service.Domain.Order.{Order, update_status_allowed, update_status_refused}
use ec_order_state_service.Domain.Failure.{Error, ok, Result-cases}
use ec_order_state_service.Domain.Events.{new_order_status_changed_event}
use ec_order_state_service.Service.Deps.{Value, OrderStateService}
use ec_order_state_service.Service.Contract.{
  Meaning, Quiet, ◌⨟◌, Assigns, Assigns-Quiet, Quiet-Assigns, IsLawful,
}
use ec_order_state_service.Service.Core.{change_status, save_changed, publish}

created-waiting_for_shipment : can_transition_to created waiting_for_shipment ≡ true
unfolding can_transition_to
created-waiting_for_shipment = refl

-- What an operation that is to give an order the status `to` has done, given its error and the state
-- that it leaves: it has done so, by a transition that the diagram allows, or has changed no status.
pub data Change {W : Type 0} (m : Meaning W) (id : String) (to : OrderStatus) (w : W)
    : Option Error × W → Type 0 where
  changed :
      {w' : W} (from : OrderStatus)
      → m.view w id ≡ some from
      → can_transition_to from to ≡ true
      → Assigns m id to w w'
      → Change m id to w (none, w')
  kept : {e : Error} {w' : W} → Quiet m w w' → Change m id to w (some e, w')

Change-from :
    {W : Type 0} {m : Meaning W} {id : String} {to : OrderStatus} {u v : W} {r : Option Error × W}
    → Quiet m u v
    → Change m id to v r
    → Change m id to u r
Change-from q (changed from found good a) =
    changed from (rw (← q.sees) found) good (Quiet-Assigns a q)
Change-from q (kept r) = kept (r ⨟ q)

module _ {W : Type 0} (s : OrderStateService W) (m : Meaning W) (L : IsLawful s m) where
  pub publish-keeps :
      (id : String) (from to : OrderStatus) (w : W) → Quiet m w (publish s id from to w).1
  unfolding new_order_status_changed_event
  publish-keeps id from to w = L.publish_keeps _ _ ⨟ L.clock_keeps w

  -- What `save_changed` gives, if it is handed an order in a status that may be written.
  save_changed-Change :
      (from : OrderStatus) (finish : OrderStatus → W → W) (o : Order) (id : String) (w : W)
      → ((u : W) → Quiet m u (finish from u))
      → o.id ≡ id
      → m.view w id ≡ some from
      → can_transition_to from o.status ≡ true
      → Change m id o.status w (save_changed s from finish o w)
  unfolding save_changed
  save_changed-Change from finish o id w keeps own found good =
      elim (Option-cases (s.order_repo.save o w).0) [
        | inl saved ↦
            rw (saved, save_changed)
              (changed from found good (
                Assigns-Quiet (keeps _ ⨟ publish-keeps _ _ _ _) (
                  subst (λ i. Assigns m i o.status w (s.order_repo.save o w).1) own
                    (L.save_done o w saved))))
        | inr (e, failed) ↦ rw (failed, save_changed) (kept (L.save_failed o w e failed))
      ]

  -- The status under an order's own id, when it has just been read.
  pub read_status :
      (id : String) (w : W) (o : Order)
      → m.Valid w
      → (s.order_repo.get_by_id id w).0 ≡ ok o
      → m.view (s.order_repo.get_by_id id w).1 o.id ≡ some o.status
  read_status id w o valid found =
      let seen = L.get_found id w o valid found in rw ((L.get_keeps id w).sees, seen.1) seen.0

  -- The same with the error that it returns: it is nil exactly if the status was changed.
  pub change_status-Change :
      (id : String) (to : OrderStatus) (refused : OrderStatus → List Value)
      (finish : OrderStatus → W → W) (w : W)
      → m.Valid w
      → ((from : OrderStatus) (u : W) → Quiet m u (finish from u))
      → Change m id to w (change_status s id to refused finish w)
  unfolding change_status
  change_status-Change id to refused finish w valid keeps =
      elim (Result-cases (s.order_repo.get_by_id id w).0) [
        | inl (e, failed) ↦ rw (failed, change_status) (kept (L.get_keeps id w))
        | inr (o, found) ↦ elim (Bool-cases (can_transition_to o.status to)) [
          | inr bad ↦
              rw (found, change_status, update_status_refused s.clock to o _ bad)
                (kept (L.error_keeps _ _ _ _ ⨟ L.get_keeps id w))
          | inl good ↦
              let (seen, own) = L.get_found id w o valid found in
              rw (found, change_status, update_status_allowed s.clock to o _ good)
                (Change-from (L.clock_keeps _ ⨟ L.get_keeps id w) (
                  save_changed-Change o.status finish _ id _ (keeps o.status) own
                    (rw ((L.clock_keeps _).sees, (L.get_keeps id w).sees) seen) good))
        ]
      ]
