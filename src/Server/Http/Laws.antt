-- ===== src/Server/Http/Laws.antt =====
-- cmd/server/main.go: what the answer to PUT /orders/:orderId/status says of the order.
use ec_order_state_service.Prelude.{◌≡◌, refl, String, true, Option, none, some}
use ec_order_state_service.Domain.Status.{OrderStatus, can_transition_to}
use ec_order_state_service.Domain.Failure.{Error, Result, ok, err}
use ec_order_state_service.Service.Deps.{OrderStateService}
use ec_order_state_service.Service.Contract.{
  Meaning, Quiet, ◌⨟◌, Assigns, Assigns-Quiet, Quiet-Assigns, IsLawful,
}
use ec_order_state_service.Service.Core.{update_order_status}
use ec_order_state_service.Service.Safety.{Change, changed, kept, change_status-Change}
use ec_order_state_service.Server.Http.{
  Response, bad_request, not_updated, updated, respond, with_request, put_order_status,
}

-- The answer and the state that the endpoint leaves: 200 says that the order has just made an
-- accepted transition to the status asked for, 400 that no order has changed.
pub data Served {W : Type 0} (m : Meaning W) (order_id : String) (asked : Result OrderStatus)
    (w : W) : Response × W → Type 0 where
  success :
      {w' : W} (from to : OrderStatus)
      → asked ≡ ok to
      → m.view w order_id ≡ some from
      → can_transition_to from to ≡ true
      → Assigns m order_id to w w'
      → Served m order_id asked w (updated order_id to, w')
  refused :
      {r : Response} {w' : W} → r.code ≡ 400 → Quiet m w w' → Served m order_id asked w (r, w')

module _ {W : Type 0} (s : OrderStateService W) (m : Meaning W) (L : IsLawful s m) where
  respond-Served :
      (order_id : String) (to : OrderStatus) (u w : W) (r : Option Error × W)
      → Quiet m u w
      → Change m order_id to w r
      → Served m order_id (ok to) u (respond s order_id to r)
  unfolding not_updated updated
  respond-Served order_id to u w (none, w') before (changed from found good a) =
      success from to refl (rw (← before.sees) found) good
        (Assigns-Quiet (L.clock_keeps w') (Quiet-Assigns a before))
  respond-Served order_id to u w (some e, w') before (kept q) =
      refused refl (L.clock_keeps w' ⨟ q ⨟ before)

  -- For a service that keeps the contract IsLawful, from a valid state, PUT
  -- /orders/:orderId/status answers 200 with the order and the status only if the body could
  -- be bound, and then the order has just changed from a status to the one asked for by a
  -- transition that CanTransitionTo accepts; in every other case it answers 400 and no order
  -- has changed.
  pub put_order_status-Served :
      (bind : String → Result OrderStatus) (order_id text : String) (w : W)
      → m.Valid w
      → Served m order_id (bind text) w (put_order_status s bind order_id text w)
  unfolding put_order_status update_order_status bad_request
  put_order_status-Served bind order_id text w valid = go (bind text)
    where
      go :
          (asked : Result OrderStatus)
          → Served m order_id asked w (with_request s order_id asked (s.clock w).1)
      go (err e) = refused refl (L.clock_keeps w)
      go (ok to) = respond-Served order_id to w (s.clock w).1 _ (L.clock_keeps w) (
          change_status-Change s m L order_id to _ _ (s.clock w).1 ((L.clock_keeps w).stays valid)
            (λ _. L.info_keeps _ _))
