-- ===== src/Repository/Postgres.antt =====
-- internal/repository/pg_order_repository.go: PgOrderRepository. Of pgx it uses `BeginTxFunc`, of
-- the standard library `time.Sleep`; a context's deadline shows as an error of the call under it.
pub mod Retry
pub mod Table
use ec_order_state_service.Prelude.{
  ℕ, zero, suc, ◌+◌, ◌*◌, ◌==◌, String, Bool, true, false, ◌||◌, Option, none, some, List, [], ◌∷◌,
  map, not, if◌then◌else◌,
}
use ec_order_state_service.Prelude.Int.{ℤ, pos, leb_ℤ, ltb_ℤ, int32}
use ec_order_state_service.Prelude.Text.{codes, to_lower, contains}
use ec_order_state_service.Domain.Status.{OrderStatus}
use ec_order_state_service.Domain.Order.{Time, Order}
use ec_order_state_service.Domain.Failure.{
  Error, order_not_found, no_rows, wrapped, wrapped_nil, error_text, Result, ok, err,
}
use ec_order_state_service.Repository.Interface.{OrderRepository}
use ec_order_state_service.Repository.Database
use ec_order_state_service.Repository.Database.{Dbtx, DbOrder, Timestamp}

-- `pool` runs a statement by itself. `begin_tx f` is `pgx.BeginTxFunc` at the level Serializable: it
-- runs `f` on a transaction, which commits if `f` returns nil. `sleep` waits some milliseconds.
pub record Pool (W : Type 0) : Type 0 where
  pub pool : Dbtx W
  pub begin_tx : (Dbtx W → W → Option Error × W) → W → Option Error × W
  pub sleep : ℕ → W → W

unfoldable pub time_to_pg_timestamp : Time → Timestamp
time_to_pg_timestamp t = record { time = t; valid = true }

-- `time.Time{}` is the time 0.
unfoldable pub pg_timestamp_to_time : Timestamp → Time
pg_timestamp_to_time ts = if not ts.valid then 0 else ts.time

unfoldable pub to_domain_order : DbOrder → Order
unfolding pg_timestamp_to_time
to_domain_order row = record {
  id = row.id;
  status = row.status;
  created_at = pg_timestamp_to_time row.created_at;
  updated_at = pg_timestamp_to_time row.updated_at;
}

unfoldable pub is_deadlock_error : Option Error → Bool
is_deadlock_error none = false
is_deadlock_error (some e) =
    let text = to_lower (codes (error_text e)) in
    contains text (codes "deadlock") || contains text (codes "40001")

abbrev pub max_retries : ℕ
max_retries = 3

module _ {W : Type 0} (p : Pool W) where
  unfoldable pub get_by_id : String → W → Result Order × W
  unfolding to_domain_order Database.get_order_by_id
  get_by_id id w =
      let ((row, e), w') = Database.get_order_by_id p.pool id w in
      (
        elim e [
          | none ↦ ok (to_domain_order row)
          | some no_rows ↦ err (order_not_found (record { order_id = id }))
          | some e' ↦ err (wrapped "查詢訂單失敗" e')
        ],
        w',
      )

  -- The rest of the transaction, after the lock: `existing` is what the scan left.
  unfoldable pub write_order : Order → DbOrder → Dbtx W → W → Option Error × W
  unfolding Database.update_order_status Database.create_order time_to_pg_timestamp
  write_order o existing tx w =
      if not (existing.id == "")
      then (let ((_, e), w') = Database.update_order_status tx o.id o.status w in
          (elim e [ none ↦ none | some e' ↦ some (wrapped "更新訂單失敗" e') ], w'))
      else (let ((_, e), w') =
            Database.create_order tx o.id o.status (time_to_pg_timestamp o.created_at)
              (time_to_pg_timestamp o.updated_at) w in
          (elim e [ none ↦ none | some e' ↦ some (wrapped "創建訂單失敗" e') ], w'))

  -- The function that Save runs in a transaction.
  unfoldable pub save_in_tx : Order → Dbtx W → W → Option Error × W
  unfolding write_order Database.get_order_by_id_for_update
  save_in_tx o tx w =
      let ((existing, e), w') = Database.get_order_by_id_for_update tx o.id w in
      elim e [
        | none ↦ write_order o existing tx w'
        | some no_rows ↦ write_order o existing tx w'
        | some e' ↦ (some (wrapped "查詢訂單失敗" e'), w')
      ]

  -- `if attempt > 0 { time.Sleep(attempt * 50ms) }`
  unfoldable pub back_off : ℕ → W → W
  back_off zero w = w
  back_off (suc n) w = p.sleep (suc n * 50) w

  -- What follows a transaction: `again` is the rest of the loop.
  unfoldable pub unless_deadlock : Option Error × W → Option Error × W → Option Error × W
  unfolding is_deadlock_error
  unless_deadlock again (none, w) = (none, w)
  unless_deadlock again (some e, w) = if is_deadlock_error (some e) then again else (some e, w)

  unfoldable pub retries_failed : Option Error → Error
  retries_failed none = wrapped_nil "保存訂單失敗（已重試 3 次）"
  retries_failed (some e) = wrapped "保存訂單失敗（已重試 3 次）" e

  -- The loop, with the attempts left, the number of this one and `lastErr`.
  unfoldable pub save_loop : ℕ → ℕ → Option Error → Order → W → Option Error × W
  unfolding unless_deadlock retries_failed save_in_tx back_off
  save_loop zero attempt last o w = (some (retries_failed last), w)
  save_loop (suc left) attempt last o w =
      let (e, w') = p.begin_tx (save_in_tx o) (back_off attempt w) in
      unless_deadlock (save_loop left (attempt + 1) e o w') (e, w')

  unfoldable pub save : Order → W → Option Error × W
  unfolding save_loop
  save = save_loop max_retries 0 none

  unfoldable pub get_orders_by_status : OrderStatus → ℤ → ℤ → W → Option (Result (List Order)) × W
  unfolding to_domain_order Database.get_orders_by_status_with_pagination
  get_orders_by_status status limit offset w =
      let limit' = if leb_ℤ limit (pos 0) then pos 100 else limit in
      let offset' = if ltb_ℤ offset (pos 0) then pos 0 else offset in
      let (r, w') =
        Database.get_orders_by_status_with_pagination p.pool status (int32 limit') (int32 offset')
          w in
      (
        some
            (elim r [ err e ↦ err (wrapped "查詢訂單失敗" e) | ok rows ↦ ok (map to_domain_order rows) ]),
        w',
      )

  unfoldable pub batch_update_order_status :
      List String → OrderStatus → OrderStatus → W → Option Error × W
  unfolding Database.batch_update_order_status
  batch_update_order_status [] new from w = (none, w)
  batch_update_order_status (id ∷ ids) new from w =
      Database.batch_update_order_status p.pool new (id ∷ ids) from w

  abbrev pub pg_order_repository : OrderRepository W
  pg_order_repository = record {
    get_by_id = get_by_id;
    save = save;
    get_orders_by_status = get_orders_by_status;
    batch_update_order_status = batch_update_order_status;
  }
