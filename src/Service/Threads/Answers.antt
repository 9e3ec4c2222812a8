-- ===== src/Service/Threads/Answers.antt =====
-- internal/service/order_state_service.go under several goroutines: when a request is answered.
use ec_order_state_service.Prelude.{
  ℕ, zero, suc, ◌≤◌, ◌≡◌, refl, false, Option, some, List, [], ◌∷◌, ◌++◌, length, arith, inl, inr,
  Bool-cases, beq, if◌then◌else◌,
}
use ec_order_state_service.Domain.Failure.{Error}
use ec_order_state_service.Service.Deps.{OrderStateService}
use ec_order_state_service.Service.Requests.{Request}
use ec_order_state_service.Service.Threads.{Thread, done, call, thread}
use ec_order_state_service.Service.Threads.Calls.{Within, ended, called, calls, thread-Within}
use ec_order_state_service.Service.Threads.Schedule.{
  System, Event, accept, proceed, advance, happen, play, answer, step_thread,
}

data At {W : Type 0} (P : Thread W → Type 1) : ℕ → List (Thread W) → Type 1 where
  here : {t : Thread W} {ts : List (Thread W)} → P t → At P zero (t ∷ ts)
  there : {i : ℕ} {t : Thread W} {ts : List (Thread W)} → At P i ts → At P (suc i) (t ∷ ts)

abbrev pred : ℕ → ℕ
pred zero = zero
pred (suc n) = n

pred-le : (n k : ℕ) → n ≤ suc k → pred n ≤ k
pred-le zero k h = omega arith
pred-le (suc n) k h = omega arith

-- How often the goroutine at a place makes a call.
abbrev pub turns : ℕ → List Event → ℕ
turns i [] = 0
turns i (accept r ∷ events) = turns i events
turns i (proceed j ∷ events) = if beq i j then suc (turns i events) else turns i events

module _ {W : Type 0} where
  Within-step : (n : ℕ) (t : Thread W) (w : W) → Within n t → Within (pred n) (step_thread t w).0
  Within-step n (done e) w ended = ended
  Within-step zero (call f next) w h = elim h [ ]
  Within-step (suc n) (call f next) w (called h) = h _

  At-advance :
      (n i : ℕ) (ts : List (Thread W)) (w : W)
      → At (Within n) i ts
      → At (Within (pred n)) i (advance i ts w).0
  unfolding advance
  At-advance n zero [] w h = elim h [ ]
  At-advance n (suc i) [] w h = elim h [ ]
  At-advance n zero (t ∷ ts) w (here h) = here (Within-step n t w h)
  At-advance n (suc i) (t ∷ ts) w (there h) = there (At-advance n i ts w h)

  At-advance_other :
      (P : Thread W → Type 1) (j : ℕ) {i : ℕ} {ts : List (Thread W)} (w : W)
      → At P i ts
      → beq i j ≡ false
      → At P i (advance j ts w).0
  unfolding advance
  At-advance_other P zero w (here h) apart = absurd (ground arith)
  At-advance_other P (suc j) w (here h) apart = here h
  At-advance_other P zero w (there h) apart = there h
  At-advance_other P (suc j) w (there h) apart = there (At-advance_other P j w h (ground arith))

  At-append :
      (P : Thread W → Type 1) (i : ℕ) (ts us : List (Thread W)) → At P i ts → At P i (ts ++ us)
  At-append P zero [] us h = elim h [ ]
  At-append P (suc i) [] us h = elim h [ ]
  At-append P zero (t ∷ ts) us (here h) = here h
  At-append P (suc i) (t ∷ ts) us (there h) = there (At-append P i ts us h)

  At-last :
      (P : Thread W → Type 1) (ts : List (Thread W)) (t : Thread W)
      → P t
      → At P (length ts) (ts ++ (t ∷ []))
  At-last P [] t h = here h
  At-last P (u ∷ ts) t h = there (At-last P ts t h)

  answered :
      (i : ℕ) (ts : List (Thread W))
      → At (Within 0) i ts
      → (e : Option Error) × (answer i ts ≡ some e)
  answered zero [] h = elim h [ ]
  answered (suc i) [] h = elim h [ ]
  answered zero (done e ∷ ts) (here h) = (e, refl)
  answered zero (call f next ∷ ts) (here h) = elim h [ ]
  answered (suc i) (t ∷ ts) (there h) = answered i ts h

  module _ (s : OrderStateService W) where
    play-answer :
        (i n : ℕ) (events : List Event) (sys : System W)
        → At (Within n) i sys.threads
        → n ≤ turns i events
        → (e : Option Error) × (answer i (play s events sys).threads ≡ some e)
    unfolding play happen
    play-answer i n [] sys h enough =
        let none_left : n ≡ 0 = omega arith in answered i sys.threads (rw none_left at h)
    play-answer i n (accept r ∷ events) sys h enough =
        play-answer i n events _ (At-append (Within n) i sys.threads _ h) enough
    play-answer i n (proceed j ∷ events) sys h enough = elim (Bool-cases (beq i j)) [
      | inl own ↦
          let same : j ≡ i = ground arith in
          rw same (
            play-answer i (pred n) events _ (At-advance n i sys.threads sys.shared h)
              (pred-le n _ (rw own at enough)))
      | inr other ↦
          play-answer i n events _ (At-advance_other (Within n) j sys.shared h other)
            (rw other at enough)
    ]

    -- A request that comes in, in whatever state and among whatever other goroutines, has
    -- been answered once its own goroutine has had 6 turns for a change of status, 15 for
    -- a payment, 1 for a created order and 2 and 3 for each order for a batch, whatever
    -- the other goroutines do in between and whatever its calls return.
    pub accept-answer :
        (r : Request) (events : List Event) (sys : System W)
        → calls s r ≤ turns (length sys.threads) events
        → (e : Option Error) × (answer
              (length sys.threads)
              (play s events (happen s (accept r) sys)).threads
            ≡ some e)
    unfolding happen
    accept-answer r events sys enough =
        play-answer (length sys.threads) (calls s r) events _
          (At-last (Within (calls s r)) sys.threads (thread s r) (thread-Within s r)) enough
