-- ===== src/Service/Contract.antt =====
-- What a repository, a publisher, a logger and a clock promise the service, in terms of the status
-- that each order has. Calls may fail: a failed call has changed no status. (What other processes
-- do between two calls is left out here.)
use ec_order_state_service.Prelude.{
  ◌≡◌, ◌≢◌, ◌∙◌, All, String, ◌==◌, true, Option, none, some, List, if◌then◌else◌,
}
use ec_order_state_service.Prelude.Int.{ℤ}
use ec_order_state_service.Prelude.Dict.{mem}
use ec_order_state_service.Domain.Status.{OrderStatus, waiting_for_shipment, can_transition_to}
use ec_order_state_service.Domain.Order.{Order}
use ec_order_state_service.Domain.Events.{OrderStatusChangedEvent}
use ec_order_state_service.Domain.Failure.{Error, as_not_found, ok, err}
use ec_order_state_service.Service.Deps.{Value, OrderStateService}

-- The status of each order that exists.
abbrev pub View : Type 0
View = String → Option OrderStatus

abbrev pub assign : String → OrderStatus → View → View
assign id status v j = if id == j then some status else v j

abbrev pub promote_status : OrderStatus → OrderStatus → Option OrderStatus → Option OrderStatus
promote_status new from none = none
promote_status new from (some s) = if s == from then some new else some s

abbrev pub promote_all : List String → OrderStatus → OrderStatus → View → View
promote_all ids new from v j = if mem j ids then promote_status new from (v j) else v j

-- What is read off the state: the statuses, and whether the state is well formed.
pub record Meaning (W : Type 0) : Type 1 where
  pub view : W → View
  pub Valid : W → Type 0

-- From `w` to `w'` no status has changed.
pub record Quiet {W : Type 0} (m : Meaning W) (w w' : W) : Type 0 where
  pub sees : m.view w' ≡ m.view w
  pub stays : m.Valid w → m.Valid w'

-- From `w` to `w'` one order has got a status.
pub record Assigns {W : Type 0} (m : Meaning W) (id : String) (to : OrderStatus) (w w' : W)
    : Type 0 where
  pub sees : m.view w' ≡ assign id to (m.view w)
  pub stays : m.Valid w → m.Valid w'

-- From `w` to `w'` the listed orders in the status `from` have got the status `new`.
pub record Promotes {W : Type 0} (m : Meaning W) (ids : List String) (new from : OrderStatus)
    (w w' : W) : Type 0 where
  pub sees : m.view w' ≡ promote_all ids new from (m.view w)
  pub stays : m.Valid w → m.Valid w'

-- The later part stands first, as in a composition.
infixr 30 ◌⨟◌
pub ◌⨟◌ : {W : Type 0} {m : Meaning W} {u v w : W} → Quiet m v w → Quiet m u v → Quiet m u w
q ⨟ r = record { sees = q.sees ∙ r.sees; stays = λ h. q.stays (r.stays h) }

pub Assigns-Quiet :
    {W : Type 0} {m : Meaning W} {id : String} {to : OrderStatus} {u v w : W}
    → Quiet m v w
    → Assigns m id to u v
    → Assigns m id to u w
Assigns-Quiet q a = record { sees = q.sees ∙ a.sees; stays = λ h. q.stays (a.stays h) }

pub Quiet-Assigns :
    {W : Type 0} {m : Meaning W} {id : String} {to : OrderStatus} {u v w : W}
    → Assigns m id to v w
    → Quiet m u v
    → Assigns m id to u w
Quiet-Assigns a q = record { sees = a.sees ∙ rw q.sees; stays = λ h. a.stays (q.stays h) }

pub record IsLawful {W : Type 0} (s : OrderStateService W) (m : Meaning W) : Type 0 where
  pub get_keeps : (id : String) (w : W) → Quiet m w (s.order_repo.get_by_id id w).1
  pub get_found :
      (id : String) (w : W) (o : Order)
      → m.Valid w
      → (s.order_repo.get_by_id id w).0 ≡ ok o
      → (m.view w id ≡ some o.status) × (o.id ≡ id)
  pub get_absent :
      (id : String) (w : W) (e : Error)
      → (s.order_repo.get_by_id id w).0 ≡ err e
      → as_not_found e ≢ none
      → m.view w id ≡ none
  pub save_done :
      (o : Order) (w : W)
      → (s.order_repo.save o w).0 ≡ none
      → Assigns m o.id o.status w (s.order_repo.save o w).1
  pub save_failed :
      (o : Order) (w : W) (e : Error)
      → (s.order_repo.save o w).0 ≡ some e
      → Quiet m w (s.order_repo.save o w).1
  pub page_keeps :
      (status : OrderStatus) (limit offset : ℤ) (w : W)
      → Quiet m w (s.order_repo.get_orders_by_status status limit offset w).1
  pub page_found :
      (status : OrderStatus) (limit offset : ℤ) (w : W) (found : List Order)
      → m.Valid w
      → (s.order_repo.get_orders_by_status status limit offset w).0 ≡ some (ok found)
      → All (λ o. m.view w o.id ≡ some status) found
  pub batch_done :
      (ids : List String) (new from : OrderStatus) (w : W)
      → (s.order_repo.batch_update_order_status ids new from w).0 ≡ none
      → Promotes m ids new from w (s.order_repo.batch_update_order_status ids new from w).1
  pub batch_failed :
      (ids : List String) (new from : OrderStatus) (w : W) (e : Error)
      → (s.order_repo.batch_update_order_status ids new from w).0 ≡ some e
      → Quiet m w (s.order_repo.batch_update_order_status ids new from w).1
  pub publish_keeps :
      (event : OrderStatusChangedEvent) (w : W)
      → Quiet m w (s.event_publisher.publish_order_status_changed event w).1
  pub info_keeps :
      (msg : String) (fields : List Value) (w : W) → Quiet m w (s.logger.info msg fields w)
  pub error_keeps :
      (msg : String) (e : Option Error) (fields : List Value) (w : W)
      → Quiet m w (s.logger.error msg e fields w)
  pub warn_keeps :
      (msg : String) (fields : List Value) (w : W) → Quiet m w (s.logger.warn msg fields w)
  pub clock_keeps : (w : W) → Quiet m w (s.clock w).1

-- One operation changes the status of one order at most: it creates a paid order, or makes a
-- transition that the diagram allows.
pub data Step {W : Type 0} (m : Meaning W) (w w' : W) : Type 0 where
  same : Quiet m w w' → Step m w w'
  placed : (id : String) → m.view w id ≡ none → Assigns m id waiting_for_shipment w w' → Step m w w'
  moved :
      (id : String) (from to : OrderStatus)
      → m.view w id ≡ some from
      → can_transition_to from to ≡ true
      → Assigns m id to w w'
      → Step m w w'

pub Step-from : {W : Type 0} {m : Meaning W} {u v w : W} → Quiet m u v → Step m v w → Step m u w
Step-from q (same r) = same (r ⨟ q)
Step-from q (placed id absent a) = placed id (rw (← q.sees) absent) (Quiet-Assigns a q)
Step-from q (moved id from to found good a) =
    moved id from to (rw (← q.sees) found) good (Quiet-Assigns a q)

pub Step-Valid : {W : Type 0} {m : Meaning W} {w w' : W} → Step m w w' → m.Valid w → m.Valid w'
Step-Valid (same q) h = q.stays h
Step-Valid (placed _ _ a) h = a.stays h
Step-Valid (moved _ _ _ _ _ a) h = a.stays h
