-- ===== src/Tests/Database.antt =====
-- A table in memory as the database of PgOrderRepository: the status of each order, with no pages.
use ec_order_state_service.Prelude.{String, true, Option, none, some, List, [], ◌∷◌}
use ec_order_state_service.Domain.Order.{Clock}
use ec_order_state_service.Domain.Failure.{Error, plain, no_rows, ok}
use ec_order_state_service.Repository.Database
use ec_order_state_service.Repository.Database.{
  Dbtx, DbOrder, Argument, text, texts, timestamp, zero_order,
}
use ec_order_state_service.Repository.Postgres.{Pool}
use ec_order_state_service.Service.Contract.{View, assign, promote_all}
use ec_order_state_service.Service.Deps.{EventPublisher, Logger}

abbrev row_of : String → String → DbOrder
row_of id status = record {
  id = id;
  status = status;
  created_at = record { time = 1; valid = true };
  updated_at = record { time = 1; valid = true };
}

-- The statements are told apart by their arguments.
abbrev table_row : List Argument → View → (DbOrder × Option Error) × View
table_row (text id ∷ []) v = elim (v id) [
  | none ↦ ((zero_order, some no_rows), v)
  | some status ↦ ((row_of id status, none), v)
]
table_row (text id ∷ text status ∷ []) v = elim (v id) [
  | none ↦ ((zero_order, some no_rows), v)
  | some _ ↦ ((row_of id status, none), assign id status v)
]
table_row (text id ∷ text status ∷ timestamp _ ∷ timestamp _ ∷ []) v = elim (v id) [
  | none ↦ ((row_of id status, none), assign id status v)
  | some _ ↦ ((zero_order, some (plain "duplicate key")), v)
]
table_row _ v = ((zero_order, some (plain "syntax error")), v)

abbrev table_exec : List Argument → View → Option Error × View
table_exec (text new ∷ texts ids ∷ text from ∷ []) v = (none, promote_all ids new from v)
table_exec _ v = (some (plain "syntax error"), v)

abbrev table : Dbtx View
table = record {
  exec = λ _ args v. table_exec args v;
  query = λ _ _ v. (ok ([], none), v);
  query_row = λ _ args v. table_row args v;
}

abbrev commit : View → Option Error × View → Option Error × View
commit v (none, v') = (none, v')
commit v (some e, v') = (some e, v)

abbrev pool : Pool View
pool = record { pool = table; begin_tx = λ f v. commit v (f table v); sleep = λ _ v. v }

abbrev rows : View → View
rows v = v

abbrev no_publisher : EventPublisher View
no_publisher = record { publish_order_status_changed = λ _ v. (some (plain "no broker"), v) }

abbrev no_logger : Logger View
no_logger = record { info = λ _ _ v. v; error = λ _ _ _ v. v; warn = λ _ _ v. v }

abbrev still : Clock View
still v = (0, v)

abbrev empty : View
empty id = none
