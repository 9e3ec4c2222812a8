-- ===== src/Repository/Database.antt =====
-- internal/db: the queries that sqlc generates. `Dbtx` is the interface `DBTX` (db.go) that pgx
-- implements, a pool or a transaction; what a statement does is the database's affair.
use ec_order_state_service.Prelude.{String, Bool, false, Option, none, some, List, [], ◌∷◌, ◌++◌}
use ec_order_state_service.Prelude.Int.{ℤ}
use ec_order_state_service.Domain.Order.{Time}
use ec_order_state_service.Domain.Failure.{Error, Result, ok, err}

-- pgtype.Timestamp
pub record Timestamp : Type 0 where
  pub time : Time
  pub valid : Bool

-- models.go
pub record DbOrder : Type 0 where
  pub id : String
  pub status : String
  pub created_at : Timestamp
  pub updated_at : Timestamp

-- `var i Order`
abbrev pub zero_order : DbOrder
zero_order = record {
  id = "";
  status = "";
  created_at = record { time = 0; valid = false };
  updated_at = record { time = 0; valid = false };
}

-- The values that the queries pass as arguments.
pub data Argument : Type 0 where
  text : String → Argument
  texts : List String → Argument
  integer : ℤ → Argument
  timestamp : Timestamp → Argument

-- `QueryRow(...).Scan(...)` gives the row that the scan has written and its error. `Query` gives an
-- error, or what the scan of each row gives and what `rows.Err()` reports at the end.
pub record Dbtx (W : Type 0) : Type 0 where
  pub exec : String → List Argument → W → Option Error × W
  pub query : String → List Argument → W → Result (List (DbOrder × Option Error) × Option Error) × W
  pub query_row : String → List Argument → W → (DbOrder × Option Error) × W

-- The statements, on one line each and without the comment that names them.
abbrev pub batch_update_order_status_sql : String
batch_update_order_status_sql =
    "UPDATE orders SET status = $1 WHERE id = ANY($2::text[]) AND status = $3"

abbrev pub create_order_sql : String
create_order_sql =
    "INSERT INTO orders (id, status, created_at, updated_at) VALUES ($1, $2, $3, $4) RETURNING id, status, created_at, updated_at"

abbrev pub get_order_by_id_sql : String
get_order_by_id_sql = "SELECT id, status, created_at, updated_at FROM orders WHERE id = $1 LIMIT 1"

abbrev pub get_order_by_id_for_update_sql : String
get_order_by_id_for_update_sql =
    "SELECT id, status, created_at, updated_at FROM orders WHERE id = $1 FOR UPDATE NOWAIT LIMIT 1"

abbrev pub get_orders_by_status_with_pagination_sql : String
get_orders_by_status_with_pagination_sql =
    "SELECT id, status, created_at, updated_at FROM orders WHERE status = $1 ORDER BY updated_at ASC LIMIT $2 OFFSET $3"

abbrev pub update_order_status_sql : String
update_order_status_sql =
    "UPDATE orders SET status = $2 WHERE id = $1 RETURNING id, status, created_at, updated_at"

-- The loop over the rows of a query: the first scan that fails ends it.
unfoldable pub scan_rows :
    List (DbOrder × Option Error) → Option Error → List DbOrder → Result (List DbOrder)
scan_rows [] none items = ok items
scan_rows [] (some e) items = err e
scan_rows ((i, none) ∷ rows) last items = scan_rows rows last (items ++ (i ∷ []))
scan_rows ((i, some e) ∷ rows) last items = err e

-- type Queries, over the database that it was made for (`New`, `WithTx`).
module _ {W : Type 0} (db : Dbtx W) where
  unfoldable pub batch_update_order_status : String → List String → String → W → Option Error × W
  batch_update_order_status status ids status_2 =
      db.exec batch_update_order_status_sql (text status ∷ texts ids ∷ text status_2 ∷ [])

  unfoldable pub create_order :
      String → String → Timestamp → Timestamp → W → (DbOrder × Option Error) × W
  create_order id status created updated =
      db.query_row create_order_sql
        (text id ∷ text status ∷ timestamp created ∷ timestamp updated ∷ [])

  unfoldable pub get_order_by_id : String → W → (DbOrder × Option Error) × W
  get_order_by_id id = db.query_row get_order_by_id_sql (text id ∷ [])

  unfoldable pub get_order_by_id_for_update : String → W → (DbOrder × Option Error) × W
  get_order_by_id_for_update id = db.query_row get_order_by_id_for_update_sql (text id ∷ [])

  unfoldable pub get_orders_by_status_with_pagination :
      String → ℤ → ℤ → W → Result (List DbOrder) × W
  unfolding scan_rows
  get_orders_by_status_with_pagination status limit offset w =
      let (r, w') =
        db.query get_orders_by_status_with_pagination_sql
          (text status ∷ integer limit ∷ integer offset ∷ []) w in
      (elim r [ err e ↦ err e | ok (rows, last) ↦ scan_rows rows last [] ], w')

  unfoldable pub update_order_status : String → String → W → (DbOrder × Option Error) × W
  update_order_status id status = db.query_row update_order_status_sql (text id ∷ text status ∷ [])
