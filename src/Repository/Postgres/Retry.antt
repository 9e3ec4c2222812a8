-- ===== src/Repository/Postgres/Retry.antt =====
-- internal/repository/pg_order_repository.go: the retries of Save, for any transactions.
use ec_order_state_service.Prelude.{
  ℕ, suc, ◌+◌, refl, ◌≡◌, String, ◌<>◌, true, false, Option, none, some, arith, inl, inr,
  Bool-cases, ltb, zero,
}
use ec_order_state_service.Domain.Order.{Order}
use ec_order_state_service.Service.Deps.{is_deadlock_or_conflict_error}
use ec_order_state_service.Prelude.Text.{
  codes, to_lower, contains, codes-append, to_lower-append, contains-append,
}
use ec_order_state_service.Domain.Failure.{Error, wrapped, error_text}
use ec_order_state_service.Repository.Postgres.{
  Pool, is_deadlock_error, max_retries, unless_deadlock, retries_failed, save_loop, save_in_tx,
  back_off, save,
}

-- A text that an error's text contains is still found when the error is wrapped.
pub contains-wrapped :
    (prefix : String) (e : Error) (pattern : String)
    → contains (to_lower (codes (error_text e))) (codes pattern) ≡ true
    → contains (to_lower (codes (error_text (wrapped prefix e)))) (codes pattern) ≡ true
unfolding error_text
contains-wrapped prefix e pattern h =
    rw
      (
        codes-append prefix (": " <> error_text e),
        codes-append ": " (error_text e),
        to_lower-append (codes prefix),
        to_lower-append (codes ": "),
      )
      (contains-append _ _ _ (contains-append _ _ _ h))

-- If isDeadlockError recognises an error, it recognises the error wrapped by fmt.Errorf with
-- any text before it.
pub is_deadlock_error-wrapped :
    (prefix : String) (e : Error)
    → is_deadlock_error (some e) ≡ true
    → is_deadlock_error (some (wrapped prefix e)) ≡ true
unfolding is_deadlock_error
is_deadlock_error-wrapped prefix e h =
    elim (Bool-cases (contains (to_lower (codes (error_text e))) (codes "deadlock"))) [
      | inl found ↦ rw (contains-wrapped prefix e "deadlock" found)
      | inr absent ↦ rw (contains-wrapped prefix e "40001" (ground arith)) (ground arith)
    ]

is_deadlock_or_conflict_error-deadlock :
    (e : Error) → is_deadlock_error (some e) ≡ true → is_deadlock_or_conflict_error (some e) ≡ true
unfolding is_deadlock_error is_deadlock_or_conflict_error
is_deadlock_or_conflict_error-deadlock e h = ground arith

module _ {W : Type 0} (p : Pool W) (o : Order) where
  -- One attempt: the wait before it and its transaction.
  abbrev pub attempt : ℕ → W → Option Error × W
  attempt n w = p.begin_tx (save_in_tx p o) (back_off p n w)

  -- `n` attempts in a row that all ended in a deadlock.
  pub data Deadlocks (w : W) : ℕ → W → Type 0 where
    start : Deadlocks w 0 w
    again :
        (n : ℕ) (w1 : W)
        → Deadlocks w n w1
        → is_deadlock_error (attempt n w1).0 ≡ true
        → Deadlocks w (n + 1) (attempt n w1).1

  pub data Retried (w : W) (r : Option Error × W) : Type 0 where
    -- the first attempt that does not end in a deadlock decides
    settled :
        (n : ℕ) (w1 : W)
        → Deadlocks w n w1
        → ltb n max_retries ≡ true
        → is_deadlock_error (attempt n w1).0 ≡ false
        → r ≡ attempt n w1
        → Retried w r
    -- there is none
    given_up :
        (w1 : W) (e : Error)
        → Deadlocks w max_retries w1
        → is_deadlock_error (some e) ≡ true
        → is_deadlock_or_conflict_error (some (wrapped "保存訂單失敗（已重試 3 次）" e)) ≡ true
        → r ≡ (some (wrapped "保存訂單失敗（已重試 3 次）" e), w1)
        → Retried w r

  unless_deadlock-settled :
      (more r : Option Error × W) → is_deadlock_error r.0 ≡ false → unless_deadlock p more r ≡ r
  unfolding unless_deadlock
  unless_deadlock-settled more (none, w) miss = refl
  unless_deadlock-settled more (some e, w) miss = rw (unless_deadlock, miss)

  unless_deadlock-again :
      (more r : Option Error × W) → is_deadlock_error r.0 ≡ true → unless_deadlock p more r ≡ more
  unfolding unless_deadlock is_deadlock_error
  unless_deadlock-again more (none, w) hit = ground arith
  unless_deadlock-again more (some e, w) hit = rw (unless_deadlock, hit)

  save_loop-settled :
      (left n : ℕ) (last : Option Error) (w : W)
      → is_deadlock_error (attempt n w).0 ≡ false
      → save_loop p (suc left) n last o w ≡ attempt n w
  unfolding save_loop
  save_loop-settled left n last w miss = unless_deadlock-settled _ (attempt n w) miss

  save_loop-again :
      (left n : ℕ) (last : Option Error) (w : W)
      → is_deadlock_error (attempt n w).0 ≡ true
      → save_loop p (suc left) n last o w
        ≡ save_loop p left (n + 1) (attempt n w).0 o (attempt n w).1
  unfolding save_loop
  save_loop-again left n last w hit = unless_deadlock-again _ (attempt n w) hit

  is_deadlock_error-some :
      (e : Option Error)
      → is_deadlock_error e ≡ true
      → (e' : Error) × (e ≡ some e') × (is_deadlock_error (some e') ≡ true)
  unfolding is_deadlock_error
  is_deadlock_error-some none hit = ground arith
  is_deadlock_error-some (some e) hit = (e, refl, hit)

  -- What the loop does from attempt `n` on, after `n` deadlocks.
  save_loop-Retried :
      (left n : ℕ) (last : Option Error) (w w1 : W)
      → left + n ≡ max_retries
      → Deadlocks w n w1
      → (left ≡ 0 → is_deadlock_error last ≡ true)
      → Retried w (save_loop p left n last o w1)
  unfolding save_loop retries_failed
  save_loop-Retried zero n last w w1 total before deadlock =
      let (e, is_some, found) = is_deadlock_error-some last (deadlock refl) in
      let all : n ≡ max_retries = omega arith in
      given_up w1 e (rw all at before) found
        (is_deadlock_or_conflict_error-deadlock _ (is_deadlock_error-wrapped _ e found))
        (rw (is_some, retries_failed))
  save_loop-Retried (suc left) n last w w1 total before deadlock =
      elim (Bool-cases (is_deadlock_error (attempt n w1).0)) [
        | inr miss ↦ settled n w1 before (ground arith) miss (save_loop-settled left n last w1 miss)
        | inl hit ↦
            rw (save_loop-again left n last w1 hit) (
              save_loop-Retried left (n + 1) _ w _ (omega arith) (again n w1 before hit) (λ _. hit))
      ]

  -- PgOrderRepository.Save returns after at most three attempts: it gives the result of the
  -- first attempt whose error is not a deadlock, all attempts before it having ended in one;
  -- if all three end in a deadlock it returns an error that isDeadlockOrConflictError still
  -- recognises.
  pub save-Retried : (w : W) → Retried w (save p o w)
  unfolding save
  save-Retried w = save_loop-Retried 3 0 none w w refl start (λ e. ground arith)
