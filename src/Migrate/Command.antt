-- ===== src/Migrate/Command.antt =====
-- cmd/migrate/main.go: the migration command. `log.Fatalf` ends the process at once, without the
-- deferred call of db.Close.
use ec_order_state_service.Prelude.{
  ℕ, ◌==◌, String, Bool, true, false, Option, none, some, if◌then◌else◌,
}
use ec_order_state_service.Prelude.Int.{ℤ, pos, ltb_ℤ, sub_ℕ, pos_part}
use ec_order_state_service.Domain.Failure.{Error, Result, ok, err}
use ec_order_state_service.Migrate.{Migrator, MigrateError, no_change, failure}

-- What the command prints at its end.
pub data Output : Type 0 where
  message : String → Output
  current : ℕ → Bool → Output
  forced : ℤ → Output

-- How the process ends: in log.Fatalf, or by the return of `main`.
pub data Exit : Type 0 where
  fatal : String → Option Error → Exit
  finished : Output → Exit

pub record Flags : Type 0 where
  pub command : String
  pub steps : ℤ
  pub version : ℤ

module _ {W : Type 0} (db : Migrator W) where
  -- What follows the call in "up" and "down", with their texts.
  abbrev pub conclude : String → String → String → Option MigrateError × W → Exit × W
  conclude failed unchanged good (none, w) = (finished (message good), w)
  conclude failed unchanged good (some no_change, w) = (finished (message unchanged), w)
  conclude failed unchanged good (some (failure e), w) = (fatal failed (some e), w)

  unfoldable pub migrate_up : ℤ → W → Exit × W
  migrate_up n w =
      conclude "執行 migration up 失敗" "資料庫已是最新版本，無需 migration" "Migration up 執行成功"
        (if ltb_ℤ (pos 0) n then db.steps n w else db.up w)

  -- `-*steps`, of a number above 0
  unfoldable pub migrate_down : ℤ → W → Exit × W
  migrate_down n w =
      conclude "執行 migration down 失敗" "資料庫已是最舊版本，無需 migration" "Migration down 執行成功"
        (if ltb_ℤ (pos 0) n then db.steps (sub_ℕ 0 (pos_part n)) w else db.down w)

  abbrev pub show_version : Result (ℕ × Bool) × W → Exit × W
  show_version (ok (version, dirty), w) = (finished (current version dirty), w)
  show_version (err e, w) = (fatal "獲取版本失敗" (some e), w)

  abbrev after_force : ℤ → Option Error × W → Exit × W
  after_force version (none, w) = (finished (forced version), w)
  after_force version (some e, w) = (fatal "執行 force 失敗" (some e), w)

  abbrev is_zero : ℤ → Bool
  is_zero n = if ltb_ℤ (pos 0) n then false else if ltb_ℤ n (pos 0) then false else true

  unfoldable pub force_version : ℤ → W → Exit × W
  force_version version w =
      if is_zero version
      then (fatal "force 命令需要指定 -version 參數" none, w)
      else after_force version (db.force version w)

  -- The `switch` over the command.
  unfoldable pub execute : Flags → W → Exit × W
  unfolding migrate_up migrate_down force_version
  execute flags w =
      if flags.command == "up"
      then migrate_up flags.steps w
      else if flags.command == "down"
      then migrate_down flags.steps w
      else if flags.command == "version"
      then show_version (db.version w)
      else if flags.command == "force"
      then force_version flags.version w
      else (fatal "未知的命令" none, w)

  abbrev pub close_unless_fatal : Exit × W → Exit × W
  close_unless_fatal (fatal text e, w) = (fatal text e, w)
  close_unless_fatal (finished output, w) = (finished output, db.close_db w)

  -- `migrations_missing` is whether os.Stat finds no directory "migrations".
  unfoldable pub main : (W → Bool × W) → String → Flags → W → Exit × W
  unfolding execute
  main migrations_missing url flags w =
      let (e, w1) = db.open_db url w in
      elim e [
        | some e' ↦ (fatal "連接資料庫失敗" (some e'), w1)
        | none ↦
            let (e2, w2) = db.with_instance w1 in
            elim e2 [
              | some e' ↦ (fatal "建立 migration driver 失敗" (some e'), w2)
              | none ↦
                  let (missing, w3) = migrations_missing w2 in
                  let path = if missing then "file://../../migrations" else "file://migrations" in
                  let (e3, w4) = db.new_instance path w3 in
                  elim e3 [
                    | some e' ↦ (fatal "建立 migrate 實例失敗" (some e'), w4)
                    | none ↦ close_unless_fatal (execute flags w4)
                  ]
            ]
      ]
