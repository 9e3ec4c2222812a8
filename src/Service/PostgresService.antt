-- ===== src/Service/PostgresService.antt =====
-- internal/service/order_state_service.go: NewOrderStateServiceWithDeps over PgOrderRepository, as
-- cmd/server/main.go puts it together.
use ec_order_state_service.Prelude.{◌≡◌, String, Option, List}
use ec_order_state_service.Domain.Order.{Order, Clock}
use ec_order_state_service.Domain.Events.{OrderStatusChangedEvent}
use ec_order_state_service.Domain.Failure.{Error}
use ec_order_state_service.Repository.Database
use ec_order_state_service.Repository.Database.{Dbtx}
use ec_order_state_service.Repository.Postgres
use ec_order_state_service.Repository.Postgres.{Pool, pg_order_repository}
use ec_order_state_service.Repository.Postgres.Table.{IsDatabase}
use ec_order_state_service.Service.Contract.{View, Meaning}
use ec_order_state_service.Service.Deps.{Value, EventPublisher, Logger, OrderStateService}

-- Publishing, logging and reading the clock leave the table alone.
pub record IsApart {W : Type 0} (rows : W → View) (publisher : EventPublisher W) (logger : Logger W)
    (clock : Clock W) : Type 0 where
  pub publish_apart :
      (event : OrderStatusChangedEvent) (w : W)
      → rows (publisher.publish_order_status_changed event w).1 ≡ rows w
  pub info_apart :
      (msg : String) (fields : List Value) (w : W) → rows (logger.info msg fields w) ≡ rows w
  pub error_apart :
      (msg : String) (e : Option Error) (fields : List Value) (w : W)
      → rows (logger.error msg e fields w) ≡ rows w
  pub warn_apart :
      (msg : String) (fields : List Value) (w : W) → rows (logger.warn msg fields w) ≡ rows w
  pub clock_apart : (w : W) → rows (clock w).1 ≡ rows w

abbrev pub table_meaning : {W : Type 0} → (W → View) → Meaning W
table_meaning rows = record { view = rows; Valid = λ w. Unit {0} }

module _ {W : Type 0} (rows : W → View) (p : Pool W) (tx : Dbtx W) (D : IsDatabase rows p tx)
    (publisher : EventPublisher W) (logger : Logger W) (clock : Clock W)
    (A : IsApart rows publisher logger clock) where
  -- NewOrderStateServiceWithDeps
  abbrev pub pg_service : OrderStateService W
  pg_service = record {
    order_repo = pg_order_repository p;
    event_publisher = publisher;
    logger = logger;
    clock = clock;
  }
