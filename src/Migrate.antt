-- ===== src/Migrate.antt =====
-- pkg/migrate/migrate.go: RunMigrations. The calls of database/sql and of golang-migrate are a record
-- of operations: the handles that they give are part of the state. The printed lines are left out.
pub mod Command
pub mod Laws
use ec_order_state_service.Prelude.{ℕ, String, Bool, Option, none, some}
use ec_order_state_service.Prelude.Int.{ℤ}
use ec_order_state_service.Domain.Failure.{Error, wrapped, Result}

-- What Up, Down and Steps return: migrate.ErrNoChange is told apart.
pub data MigrateError : Type 0 where
  no_change : MigrateError
  failure : Error → MigrateError

pub record Migrator (W : Type 0) : Type 0 where
  pub open_db : String → W → Option Error × W  -- sql.Open("pgx", url)
  pub close_db : W → W
  pub with_instance : W → Option Error × W  -- postgres.WithInstance
  pub new_instance : String → W → Option Error × W  -- migrate.NewWithDatabaseInstance, on a path
  pub up : W → Option MigrateError × W
  pub down : W → Option MigrateError × W
  pub steps : ℤ → W → Option MigrateError × W
  pub version : W → Result (ℕ × Bool) × W  -- the version and whether it is dirty
  pub force : ℤ → W → Option Error × W

module _ {W : Type 0} (db : Migrator W) where
  -- What follows m.Up().
  abbrev after_up : Option MigrateError × W → Option Error × W
  after_up (none, w) = (none, w)
  after_up (some no_change, w) = (none, w)
  after_up (some (failure e), w) = (some (wrapped "執行 migration 失敗" e), w)

  unfoldable pub with_driver : String → W → Option Error × W
  with_driver path w =
      let (e, w1) = db.with_instance w in
      elim e [
        | some e' ↦ (some (wrapped "建立 migration driver 失敗" e'), w1)
        | none ↦
            let (e2, w2) = db.new_instance path w1 in
            elim e2 [
              | some e' ↦ (some (wrapped "建立 migrate 實例失敗" e'), w2)
              | none ↦ after_up (db.up w2)
            ]
      ]

  -- `db.Close()` is deferred once the database is open.
  unfoldable pub run_migrations : String → String → W → Option Error × W
  unfolding with_driver
  run_migrations url path w =
      let (e, w1) = db.open_db url w in
      elim e [
        | some e' ↦ (some (wrapped "連接資料庫失敗" e'), w1)
        | none ↦ let (r, w2) = with_driver path w1 in (r, db.close_db w2)
      ]
