-- ===== src/Service/Threads/Schedule.antt =====
-- internal/service/order_state_service.go under several goroutines: requests come in at any time,
-- each is worked on by a goroutine of its own, and their calls interleave. A call is one step (those
-- of a repository take its lock, or are a transaction).
use ec_order_state_service.Prelude.{ℕ, zero, suc, Option, none, some, List, [], ◌∷◌, ◌++◌}
use ec_order_state_service.Domain.Failure.{Error}
use ec_order_state_service.Service.Deps.{OrderStateService}
use ec_order_state_service.Service.Requests.{Request}
use ec_order_state_service.Service.Threads.{Thread, done, call, thread}

-- The goroutines, in the order in which their requests came in, and what they share.
pub record System (W : Type 0) : Type 1 where
  pub threads : List (Thread W)
  pub shared : W

abbrev pub start : {W : Type 0} → W → System W
start w = record { threads = []; shared = w }

-- A request comes in, or the goroutine that stands at a place makes its next call.
pub data Event : Type 0 where
  accept : Request → Event
  proceed : ℕ → Event

abbrev pub step_thread : {W : Type 0} → Thread W → W → Thread W × W
step_thread (done e) w = (done e, w)
step_thread (call f next) w = let (a, w') = f w in (next a, w')

unfoldable pub advance : {W : Type 0} → ℕ → List (Thread W) → W → List (Thread W) × W
advance i [] w = ([], w)
advance zero (t ∷ ts) w = let (t', w') = step_thread t w in (t' ∷ ts, w')
advance (suc i) (t ∷ ts) w = let (ts', w') = advance i ts w in (t ∷ ts', w')

module _ {W : Type 0} (s : OrderStateService W) where
  unfoldable pub happen : Event → System W → System W
  unfolding advance
  happen (accept r) sys = record sys { threads = sys.threads ++ (thread s r ∷ []) }
  happen (proceed i) sys =
      let (ts, w) = advance i sys.threads sys.shared in record { threads = ts; shared = w }

  unfoldable pub play : List Event → System W → System W
  unfolding happen
  play [] sys = sys
  play (e ∷ events) sys = play events (happen e sys)

-- What the goroutine at a place has returned, once it has.
abbrev pub returned : {W : Type 0} → Thread W → Option (Option Error)
returned (done e) = some e
returned (call f next) = none

abbrev pub answer : {W : Type 0} → ℕ → List (Thread W) → Option (Option Error)
answer i [] = none
answer zero (t ∷ ts) = returned t
answer (suc i) (t ∷ ts) = answer i ts
