-- ===== src/Repository/Postgres/Table.antt =====
-- internal/repository/pg_order_repository.go: a table of orders, described by what the statements
-- do to it, under Save.
use ec_order_state_service.Prelude.{ℕ, ◌≡◌, String, Option, none, some, List, [], ◌∷◌, All}
use ec_order_state_service.Prelude.Int.{ℤ}
use ec_order_state_service.Domain.Status.{OrderStatus}
use ec_order_state_service.Domain.Order.{Order}
use ec_order_state_service.Domain.Failure.{Error, no_rows, as_not_found, ok}
use ec_order_state_service.Repository.Database
use ec_order_state_service.Repository.Database.{
  Dbtx, DbOrder, Argument, Timestamp, scan_rows, get_orders_by_status_with_pagination_sql,
}
use ec_order_state_service.Repository.Postgres.{Pool}
use ec_order_state_service.Service.Contract.{View, assign, promote_all}

-- What the statements do to the statuses `rows` of the table, over one connection. A statement that
-- fails has changed nothing; the errors of a query are the driver's.
pub record IsTable {W : Type 0} (rows : W → View) (db : Dbtx W) : Type 0 where
  pub get_keeps : (id : String) (w : W) → rows (Database.get_order_by_id db id w).1 ≡ rows w
  pub get_found :
      (id : String) (w : W)
      → (Database.get_order_by_id db id w).0.1 ≡ none
      → ((Database.get_order_by_id db id w).0.0.id ≡ id)
        × (rows w id ≡ some (Database.get_order_by_id db id w).0.0.status)
  pub get_missing :
      (id : String) (w : W)
      → (Database.get_order_by_id db id w).0.1 ≡ some no_rows
      → rows w id ≡ none
  pub get_error :
      (id : String) (w : W) (e : Error)
      → (Database.get_order_by_id db id w).0.1 ≡ some e
      → as_not_found e ≡ none
  pub lock_keeps :
      (id : String) (w : W) → rows (Database.get_order_by_id_for_update db id w).1 ≡ rows w
  pub update_done :
      (id status : String) (w : W)
      → (Database.update_order_status db id status w).0.1 ≡ none
      → rows (Database.update_order_status db id status w).1 ≡ assign id status (rows w)
  pub create_done :
      (id status : String) (made changed : Timestamp) (w : W)
      → (Database.create_order db id status made changed w).0.1 ≡ none
      → rows (Database.create_order db id status made changed w).1 ≡ assign id status (rows w)
  pub query_keeps :
      (sql : String) (args : List Argument) (w : W) → rows (db.query sql args w).1 ≡ rows w
  pub query_found :
      (status : OrderStatus) (limit offset : ℤ) (w : W) (found : List (DbOrder × Option Error))
      (last : Option Error)
      → (db.query get_orders_by_status_with_pagination_sql
          (Argument.text status ∷ Argument.integer limit ∷ Argument.integer offset ∷ [])
          w).0
        ≡ ok (found, last)
      → All (λ row. row.1 ≡ none → (rows w row.0.id ≡ some status)) found
  pub batch_done :
      (new : String) (ids : List String) (from : String) (w : W)
      → (Database.batch_update_order_status db new ids from w).0 ≡ none
      → rows (Database.batch_update_order_status db new ids from w).1
        ≡ promote_all ids new from (rows w)
  pub batch_failed :
      (new : String) (ids : List String) (from : String) (w : W) (e : Error)
      → (Database.batch_update_order_status db new ids from w).0 ≡ some e
      → rows (Database.batch_update_order_status db new ids from w).1 ≡ rows w

-- The pool: `BeginTxFunc` returns nil only if the function has and its work is committed; on an
-- error all is rolled back.
pub record IsDatabase {W : Type 0} (rows : W → View) (p : Pool W) (tx : Dbtx W) : Type 0 where
  pub pool_table : IsTable rows p.pool
  pub tx_table : IsTable rows tx
  pub begin_done :
      (f : Dbtx W → W → Option Error × W) (w : W)
      → (p.begin_tx f w).0 ≡ none
      → ((f tx w).0 ≡ none) × (rows (p.begin_tx f w).1 ≡ rows (f tx w).1)
  pub begin_failed :
      (f : Dbtx W → W → Option Error × W) (w : W) (e : Error)
      → (p.begin_tx f w).0 ≡ some e
      → rows (p.begin_tx f w).1 ≡ rows w
  pub sleep_keeps : (n : ℕ) (w : W) → rows (p.sleep n w) ≡ rows w

-- What a call of Save has done, by what it returns.
pub record Saved {W : Type 0} (rows : W → View) (o : Order) (w : W) (r : Option Error × W)
    : Type 0 where
  pub done : r.0 ≡ none → rows r.1 ≡ assign o.id o.status (rows w)
  pub failed : (e : Error) → r.0 ≡ some e → rows r.1 ≡ rows w
