-- ===== src/Service/Threads/Safe.antt =====
-- internal/service/order_state_service.go: goroutines that keep a property of the state whatever runs
-- between their calls.
use ec_order_state_service.Prelude.{◌≡◌, refl, true, Option, none, some}
use ec_order_state_service.Domain.Status.{OrderStatus, can_transition_to}
use ec_order_state_service.Domain.Failure.{Error}
use ec_order_state_service.Domain.Lifecycle.{stay, move, Journey-trans}
use ec_order_state_service.Service.Progress.{Fate}
use ec_order_state_service.Service.Threads.{Thread, done, call}

-- Whatever call the thread makes in a state in which `I` holds, it leaves one, and is safe to go on.
pub data IsSafe {W : Type 0} (I : W → Type 0) : Thread W → Type 1 where
  ended : {e : Option Error} → IsSafe I (done e)
  called :
      {A : Type 0} {f : W → A × W} {next : A → Thread W}
      → ((w : W) → I w → I (f w).1)
      → ((w : W) → I w → IsSafe I (next (f w).0))
      → IsSafe I (call f next)

pub Fate-move :
    (a : Option OrderStatus) (from to : OrderStatus)
    → can_transition_to from to ≡ true
    → Fate a (some from)
    → Fate a (some to)
Fate-move none from to good f = Journey-trans f (move good stay)
Fate-move (some b) from to good f = Journey-trans f (move good stay)

pub Fate-none : (a b : Option OrderStatus) → Fate a b → b ≡ none → a ≡ none
Fate-none none b f e = refl
Fate-none (some a) none f e = absurd f
Fate-none (some a) (some b) f e = cc
