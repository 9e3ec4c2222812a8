-- ===== src/Migrate/Laws.antt =====
-- pkg/migrate/migrate.go, cmd/migrate/main.go: what becomes of the schema's version and of the
-- database handle.
use ec_order_state_service.Prelude.{
  ℕ, zero, suc, ◌-◌, ◌≤◌, ◌≡◌, ◌≢◌, ◌∙◌, refl, String, ◌==◌, eq_iff, Bool, true, false, Option,
  none, some, arith, inl, inr, Bool-cases, Option-cases, if◌then◌else◌,
}
use ec_order_state_service.Prelude.Int.{ℤ, pos, negsuc, ltb_ℤ, sub_ℕ}
use ec_order_state_service.Domain.Failure.{Error, Result, ok, err}
use ec_order_state_service.Migrate.{
  Migrator, MigrateError, no_change, failure, after_up, with_driver, run_migrations,
}
use ec_order_state_service.Migrate.Command.{
  Exit, fatal, finished, Flags, conclude, migrate_up, migrate_down, show_version, execute,
  close_unless_fatal, main,
}

-- What the libraries promise, where a state has a number of migrations applied, of `latest`, and a
-- number of open handles. A call that fails may have applied a part of what it was asked for.
pub record IsMigrator {W : Type 0} (db : Migrator W) (applied handles : W → ℕ) (latest : ℕ)
    : Type 0 where
  pub open_applied : (url : String) (w : W) → applied (db.open_db url w).1 ≡ applied w
  pub open_done :
      (url : String) (w : W)
      → (db.open_db url w).0 ≡ none
      → handles (db.open_db url w).1 ≡ suc (handles w)
  pub open_failed :
      (url : String) (w : W) (e : Error)
      → (db.open_db url w).0 ≡ some e
      → handles (db.open_db url w).1 ≡ handles w
  pub close_applied : (w : W) → applied (db.close_db w) ≡ applied w
  pub close_handles : (w : W) → handles (db.close_db w) ≡ handles w - 1
  pub instance_applied : (w : W) → applied (db.with_instance w).1 ≡ applied w
  pub instance_handles : (w : W) → handles (db.with_instance w).1 ≡ handles w
  pub new_applied : (path : String) (w : W) → applied (db.new_instance path w).1 ≡ applied w
  pub new_handles : (path : String) (w : W) → handles (db.new_instance path w).1 ≡ handles w
  pub up_on : (w : W) → applied w ≤ applied (db.up w).1
  pub up_handles : (w : W) → handles (db.up w).1 ≡ handles w
  pub up_done : (w : W) → (db.up w).0 ≡ none → applied (db.up w).1 ≡ latest
  pub up_unchanged : (w : W) → (db.up w).0 ≡ some no_change → applied (db.up w).1 ≡ latest
  pub down_back : (w : W) → applied (db.down w).1 ≤ applied w
  pub steps_on : (n : ℕ) (w : W) → applied w ≤ applied (db.steps (pos n) w).1
  pub steps_back : (n : ℕ) (w : W) → applied (db.steps (negsuc n) w).1 ≤ applied w
  pub version_applied : (w : W) → applied (db.version w).1 ≡ applied w

-- What RunMigrations leaves: no handle more than before, and the latest schema if it returned nil.
pub record IsMigrated {W : Type 0} (applied handles : W → ℕ) (latest : ℕ) (w : W)
    (r : Option Error × W) : Type 0 where
  pub closed : handles r.1 ≡ handles w
  pub newest : r.0 ≡ none → applied r.1 ≡ latest

-- What the command may do to the schema: only "up" and "force" bring it on, only "down" and "force"
-- bring it back.
pub record IsDirected {W : Type 0} (applied : W → ℕ) (command : String) (w w' : W) : Type 0 where
  pub not_back : command ≢ "down" → command ≢ "force" → applied w ≤ applied w'
  pub not_on : command ≢ "up" → command ≢ "force" → applied w' ≤ applied w

positive : (n : ℕ) → ltb_ℤ (pos 0) (pos (suc n)) ≡ true
positive n = ground arith

negative : (n : ℕ) → ltb_ℤ (pos 0) (negsuc n) ≡ false
negative n = ground arith

negated : (n : ℕ) → sub_ℕ 0 (suc n) ≡ negsuc n
negated n = ground arith

module _ {W : Type 0} (db : Migrator W) (applied handles : W → ℕ) (latest : ℕ)
    (L : IsMigrator db applied handles latest) where
  after_up-IsMigrated :
      (w : W) (r : Option MigrateError × W)
      → handles r.1 ≡ handles w
      → (r.0 ≡ none → applied r.1 ≡ latest)
      → (r.0 ≡ some no_change → applied r.1 ≡ latest)
      → IsMigrated applied handles latest w (after_up db r)
  after_up-IsMigrated w (none, v) h newest unchanged = record {
    closed = h;
    newest = λ _. newest refl;
  }
  after_up-IsMigrated w (some no_change, v) h newest unchanged = record {
    closed = h;
    newest = λ _. unchanged refl;
  }
  after_up-IsMigrated w (some (failure e), v) h newest unchanged = record {
    closed = h;
    newest = λ z. cc;
  }

  with_driver-IsMigrated :
      (path : String) (w : W) → IsMigrated applied handles latest w (with_driver db path w)
  unfolding with_driver
  with_driver-IsMigrated path w =
      let w1 = (db.with_instance w).1 in
      let w2 = (db.new_instance path w1).1 in
      let same : handles w2 ≡ handles w = L.new_handles path w1 ∙ L.instance_handles w in
      elim (Option-cases (db.with_instance w).0) [
        | inr (e, failed) ↦
            rw (failed, with_driver) (record { closed = L.instance_handles w; newest = λ z. cc })
        | inl ready ↦ elim (Option-cases (db.new_instance path w1).0) [
          | inr (e, failed) ↦
              rw (ready, with_driver, failed) (record { closed = same; newest = λ z. cc })
          | inl made ↦
              rw (ready, with_driver, made)
                (after_up-IsMigrated w (db.up w2) (L.up_handles w2 ∙ same) (L.up_done w2)
                  (L.up_unchanged w2))
        ]
      ]

  -- For a migrator whose Up has applied all migrations where it returns nil or ErrNoChange,
  -- RunMigrations leaves as many open database handles as before on every branch, and where
  -- it returns nil the newest schema.
  pub run_migrations-IsMigrated :
      (url path : String) (w : W)
      → IsMigrated applied handles latest w (run_migrations db url path w)
  unfolding run_migrations
  run_migrations-IsMigrated url path w = elim (Option-cases (db.open_db url w).0) [
    | inr (e, failed) ↦
        rw (failed, run_migrations)
          (record { closed = L.open_failed url w e failed; newest = λ z. cc })
    | inl opened ↦
        let w1 = (db.open_db url w).1 in
        let inside = with_driver-IsMigrated path w1 in
        rw (opened, run_migrations)
          (record {
            closed = omega (
              arith,
              L.close_handles (with_driver db path w1).1,
              inside.closed,
              L.open_done url w opened,
            );
            newest = λ z. L.close_applied _ ∙ inside.newest z;
          })
  ]

  conclude-state :
      (failed unchanged good : String) (r : Option MigrateError × W)
      → (conclude db failed unchanged good r).1 ≡ r.1
  conclude-state failed unchanged good (none, w) = refl
  conclude-state failed unchanged good (some no_change, w) = refl
  conclude-state failed unchanged good (some (failure e), w) = refl

  migrate_up-le : (n : ℤ) (w : W) → applied w ≤ applied (migrate_up db n w).1
  unfolding migrate_up
  migrate_up-le (pos zero) w = rw (conclude-state _ _ _ (db.up w)) (L.up_on w)
  migrate_up-le (pos (suc n)) w =
      rw (positive n, migrate_up, conclude-state _ _ _ (db.steps (pos (suc n)) w))
        (L.steps_on (suc n) w)
  migrate_up-le (negsuc n) w =
      rw (negative n, migrate_up, conclude-state _ _ _ (db.up w)) (L.up_on w)

  migrate_down-le : (n : ℤ) (w : W) → applied (migrate_down db n w).1 ≤ applied w
  unfolding migrate_down
  migrate_down-le (pos zero) w = rw (conclude-state _ _ _ (db.down w)) (L.down_back w)
  migrate_down-le (pos (suc n)) w =
      rw (positive n, migrate_down, negated n, conclude-state _ _ _ (db.steps (negsuc n) w))
        (L.steps_back n w)
  migrate_down-le (negsuc n) w =
      rw (negative n, migrate_down, conclude-state _ _ _ (db.down w)) (L.down_back w)

  show_version-state : (r : Result (ℕ × Bool) × W) → (show_version db r).1 ≡ r.1
  show_version-state (ok (version, dirty), w) = refl
  show_version-state (err e, w) = refl

  -- One branch of the `switch`.
  unchanged :
      (command : String) {w w' : W} → applied w' ≡ applied w → IsDirected applied command w w'
  unchanged command e = record { not_back = λ _ _. omega arith; not_on = λ _ _. omega arith }

  execute-IsDirected :
      (flags : Flags) (w : W) → IsDirected applied flags.command w (execute db flags w).1
  unfolding execute
  execute-IsDirected flags w = elim (Bool-cases (flags.command == "up")) [
    | inl up ↦
        rw (up, execute)
          (record {
            not_back = λ _ _. migrate_up-le flags.steps w;
            not_on = λ no_up _. absurd (no_up ((eq_iff flags.command "up").0 up));
          })
    | inr not_up ↦ elim (Bool-cases (flags.command == "down")) [
      | inl down ↦
          rw (not_up, down, execute)
            (record {
              not_back = λ no_down _. absurd (no_down ((eq_iff flags.command "down").0 down));
              not_on = λ _ _. migrate_down-le flags.steps w;
            })
      | inr not_down ↦ elim (Bool-cases (flags.command == "version")) [
        | inl version ↦
            rw (not_up, not_down, version, execute)
              (unchanged flags.command
                (rw (show_version-state (db.version w)) (L.version_applied w)))
        | inr not_version ↦ elim (Bool-cases (flags.command == "force")) [
          | inl force ↦ record {
            not_back = λ _ no_force. absurd (no_force ((eq_iff flags.command "force").0 force));
            not_on = λ _ no_force. absurd (no_force ((eq_iff flags.command "force").0 force));
          }
          | inr not_force ↦
              rw (not_up, not_down, not_version, not_force, execute) (unchanged flags.command refl)
        ]
      ]
    ]
  ]

  IsDirected-from :
      {command : String} {u v w : W}
      → applied v ≡ applied u
      → IsDirected applied command v w
      → IsDirected applied command u w
  IsDirected-from e d = record {
    not_back = λ h k. rw (← e) (d.not_back h k);
    not_on = λ h k. rw (← e) (d.not_on h k);
  }

  close_unless_fatal-applied : (r : Exit × W) → applied (close_unless_fatal db r).1 ≡ applied r.1
  close_unless_fatal-applied (fatal text e, w) = refl
  close_unless_fatal-applied (finished output, w) = L.close_applied w

  IsDirected-close :
      {command : String} {u : W} (r : Exit × W)
      → IsDirected applied command u r.1
      → IsDirected applied command u (close_unless_fatal db r).1
  IsDirected-close r d = record {
    not_back = λ h k. rw (close_unless_fatal-applied r) (d.not_back h k);
    not_on = λ h k. rw (close_unless_fatal-applied r) (d.not_on h k);
  }

  -- For a migrator whose Up and forward Steps undo no migration and whose Down and backward
  -- Steps apply none, the migration command leaves at least as many migrations applied
  -- unless the command is down or force, and at most as many unless it is up or force, on
  -- every branch, unknown commands and failed calls included.
  pub main-IsDirected :
      (missing : W → Bool × W) (url : String) (flags : Flags) (w : W)
      → ((v : W) → applied (missing v).1 ≡ applied v)
      → IsDirected applied flags.command w (main db missing url flags w).1
  unfolding main
  main-IsDirected missing url flags w looks =
      let w1 = (db.open_db url w).1 in
      let w2 = (db.with_instance w1).1 in
      let w3 = (missing w2).1 in
      let path : String =
        if (missing w2).0 then "file://../../migrations" else "file://migrations" in
      let w4 = (db.new_instance path w3).1 in
      let same2 : applied w2 ≡ applied w = L.instance_applied w1 ∙ L.open_applied url w in
      let same4 : applied w4 ≡ applied w = L.new_applied path w3 ∙ looks w2 ∙ same2 in
      elim (Option-cases (db.open_db url w).0) [
        | inr (e, failed) ↦ rw (failed, main) (unchanged flags.command (L.open_applied url w))
        | inl opened ↦ elim (Option-cases (db.with_instance w1).0) [
          | inr (e, failed) ↦ rw (opened, main, failed) (unchanged flags.command same2)
          | inl ready ↦ elim (Option-cases (db.new_instance path w3).0) [
            | inr (e, failed) ↦ rw (opened, main, ready, failed) (unchanged flags.command same4)
            | inl made ↦
                rw (opened, main, ready, made)
                  (IsDirected-close (execute db flags w4)
                    (IsDirected-from same4 (execute-IsDirected flags w4)))
          ]
        ]
      ]
