-- ===== src/Tests/Settings.antt =====
-- Environments, and the migrations of a small database.
use ec_order_state_service.Prelude.{
  ℕ, suc, ◌-◌, ◌*◌, ◌≡◌, refl, String, ◌==◌, Bool, false, none, some, leb, min, arith,
  if◌then◌else◌,
}
use ec_order_state_service.Prelude.Int.{pos, negsuc}
use ec_order_state_service.Prelude.Text.{codes}
use ec_order_state_service.Prelude.Decimal.{atoi}
use ec_order_state_service.Prelude.Duration.{parse_duration}
use ec_order_state_service.Prelude.Duration.Units.{m}
use ec_order_state_service.Prelude.Print.{digits}
use ec_order_state_service.Config.{get_env_as_int, get_env_as_duration}
use ec_order_state_service.Config.RoundTrip.{get_env_as_int-print, get_env_as_duration-print}
use ec_order_state_service.Domain.Failure.{ok}
use ec_order_state_service.Migrate.{Migrator, no_change, run_migrations}
use ec_order_state_service.Migrate.Command.{Flags, main}
use ec_order_state_service.Migrate.Laws.{
  IsMigrator, IsMigrated, IsDirected, run_migrations-IsMigrated, main-IsDirected,
}

abbrev environment : String → String
environment key =
    if key == "DB_MAX_CONNS" then "-42" else if key == "SCHEDULER_INTERVAL" then "5m" else ""

abbrev no_fraction : ℕ → ℕ → ℕ → ℕ
no_fraction f unit scale = 0

get_env_as_int-print_example :
    get_env_as_int environment no_fraction "DB_MAX_CONNS" (pos 20) ≡ negsuc 41
unfolding digits
get_env_as_int-print_example =
    get_env_as_int-print environment no_fraction "DB_MAX_CONNS" (negsuc 41) (pos 20) (omega arith)
      refl

get_env_as_duration-print_example :
    get_env_as_duration environment no_fraction "SCHEDULER_INTERVAL" (pos 30)
    ≡ pos (5 * 60000000000)
unfolding digits
get_env_as_duration-print_example =
    get_env_as_duration-print environment no_fraction "SCHEDULER_INTERVAL" 5 m (pos 30)
      (omega arith) refl

numbers :
    (atoi (codes "+007") ≡ some (pos 7))
    × ((atoi (codes "9223372036854775808") ≡ none) × (atoi (codes "12x") ≡ none))
unfolding atoi
numbers = (refl, (refl, refl))

durations :
    (parse_duration no_fraction (codes "1h30m") ≡ some (pos 5400000000000))
    × ((parse_duration no_fraction (codes "-.5s") ≡ some (pos 0))
        × (parse_duration no_fraction (codes "30") ≡ none))
unfolding parse_duration
durations = (refl, (refl, refl))

-- Two parts of 2 ^ 63 nanoseconds add up to none in 64 bits, and no overflow is noticed.
two_halves :
    parse_duration no_fraction (codes "9223372036854775808ns9223372036854775808ns") ≡ some (pos 0)
unfolding parse_duration
two_halves = refl

-- A schema of three migrations: the number applied, and the number of open handles.
abbrev Schema : Type 0
Schema = ℕ × ℕ

abbrev applied : Schema → ℕ
applied s = min s.0 3

abbrev handles : Schema → ℕ
handles s = s.1

abbrev migrator : Migrator Schema
migrator = record {
  open_db = λ url s. (none, (s.0, suc s.1));
  close_db = λ s. (s.0, s.1 - 1);
  with_instance = λ s. (none, s);
  new_instance = λ path s. (none, s);
  up = λ s. if leb 3 s.0 then (some no_change, s) else (none, (3, s.1));
  down = λ s. (none, (0, s.1));
  steps = λ n s. (some no_change, s);
  version = λ s. (ok (s.0, false), s);
  force = λ v s. (none, s);
}

migrator-IsMigrator : IsMigrator migrator applied handles 3
migrator-IsMigrator = record {
  open_applied = λ url w. refl;
  open_done = λ url w e. refl;
  open_failed = λ url w e h. cc;
  close_applied = λ w. refl;
  close_handles = λ w. refl;
  instance_applied = λ w. refl;
  instance_handles = λ w. refl;
  new_applied = λ path w. refl;
  new_handles = λ path w. refl;
  up_on = λ w. ground arith;
  up_handles = λ w. ground arith;
  up_done = λ w e. ground arith;
  up_unchanged = λ w e. ground arith;
  down_back = λ w. omega arith;
  steps_on = λ n w. omega arith;
  steps_back = λ n w. omega arith;
  version_applied = λ w. refl;
}

run_migrations-IsMigrated_example :
    IsMigrated applied handles 3
      (1, 0)
      (run_migrations migrator "postgres://" "file://migrations" (1, 0))
run_migrations-IsMigrated_example =
    run_migrations-IsMigrated migrator applied handles 3 migrator-IsMigrator "postgres://"
      "file://migrations" (1, 0)

abbrev all_down : Flags
all_down = record { command = "down"; steps = pos 0; version = pos 0 }

abbrev directory_there : Schema → Bool × Schema
directory_there s = (false, s)

main-IsDirected_example :
    IsDirected applied "down" (2, 0) (main migrator directory_there "postgres://" all_down (2, 0)).1
main-IsDirected_example =
    main-IsDirected migrator applied handles 3 migrator-IsMigrator directory_there "postgres://"
      all_down (2, 0) (λ v. refl)
