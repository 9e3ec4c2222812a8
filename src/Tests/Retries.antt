-- ===== src/Tests/Retries.antt =====
-- A database that is locked for a while.
use ec_order_state_service.Prelude.{ℕ, ◌+◌, ◌≡◌, refl, ltb, false, none, some, if◌then◌else◌}
use ec_order_state_service.Prelude.Text.{contains, to_lower}
use ec_order_state_service.Domain.Failure.{error_text, plain, no_rows, err}
use ec_order_state_service.Repository.Database.{Dbtx, zero_order}
use ec_order_state_service.Repository.Postgres.{Pool, is_deadlock_error, save}
use ec_order_state_service.Repository.Postgres.Retry.{Retried, save-Retried}
use ec_order_state_service.Service.Deps.{is_deadlock_or_conflict_error}
use ec_order_state_service.Tests.Data.{new_order}

-- A database that counts its queries, where the first two meet a deadlock.
abbrev locked_twice : Dbtx ℕ
locked_twice = record {
  exec = λ _ _ w. (none, w + 1);
  query = λ _ _ w. (err no_rows, w + 1);
  query_row = λ _ _ w. (
    (zero_order, if ltb w 2 then some (plain "ERROR: deadlock detected") else some no_rows),
    w + 1,
  );
}

abbrev locked_pool : Pool ℕ
locked_pool = record { pool = locked_twice; begin_tx = λ f w. f locked_twice w; sleep = λ _ w. w }

save-Retried_example : Retried locked_pool new_order 0 (save locked_pool new_order 0)
save-Retried_example = save-Retried locked_pool new_order 0

-- What PostgreSQL says when NOWAIT meets a lock is taken for no conflict.
locked_row :
    (is_deadlock_error (some (plain "ERROR: could not obtain lock on row (SQLSTATE 55P03)"))
      ≡ false)
    × (is_deadlock_or_conflict_error
          (some (plain "ERROR: could not obtain lock on row (SQLSTATE 55P03)"))
        ≡ false)
unfolding is_deadlock_error is_deadlock_or_conflict_error contains to_lower error_text
locked_row = (refl, refl)
