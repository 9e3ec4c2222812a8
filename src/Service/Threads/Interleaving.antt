-- ===== src/Service/Threads/Interleaving.antt =====
-- internal/service/order_state_service.go under several goroutines: any schedule of their calls.
use ec_order_state_service.Prelude.{refl, ℕ, zero, suc, All, All-append, List, [], ◌∷◌}
use ec_order_state_service.Service.Deps.{OrderStateService}
use ec_order_state_service.Service.Contract.{Meaning, IsLawful}
use ec_order_state_service.Service.Progress.{Progress, Quiet-Progress}
use ec_order_state_service.Service.Requests.{IsAllowed}
use ec_order_state_service.Service.Threads.{Thread, done, call, thread}
use ec_order_state_service.Service.Threads.Schedule.{
  System, start, Event, accept, proceed, advance, happen, play,
}
use ec_order_state_service.Service.Threads.Safe.{IsSafe, called}
use ec_order_state_service.Service.Threads.Safety.{thread-IsSafe}

abbrev pub IsAllowedEvent : Event → Type 0
IsAllowedEvent (accept r) = IsAllowed r
IsAllowedEvent (proceed i) = Unit {0}

advance-IsSafe :
    {W : Type 0} (I : W → Type 0) (i : ℕ) (ts : List (Thread W)) (w : W)
    → I w
    → All (IsSafe I) ts
    → I (advance i ts w).1 × All (IsSafe I) (advance i ts w).0
unfolding advance
advance-IsSafe I i [] w h safe = (h, tt)
advance-IsSafe I zero (done e ∷ ts) w h safe = (h, safe)
advance-IsSafe I zero (call f next ∷ ts) w h (called keeps rest, safe) =
    (keeps w h, (rest w h, safe))
advance-IsSafe I (suc i) (t ∷ ts) w h (first, safe) =
    let (h', safe') = advance-IsSafe I i ts w h safe in (h', (first, safe'))

module _ {W : Type 0} (s : OrderStateService W) (m : Meaning W) (L : IsLawful s m) (w0 : W)
    (valid : m.Valid w0) where
  play-IsSafe :
      (events : List Event) (sys : System W)
      → All IsAllowedEvent events
      → Progress m w0 sys.shared
      → All (IsSafe (Progress m w0)) sys.threads
      → Progress m w0 (play s events sys).shared
  unfolding play happen
  play-IsSafe [] sys allowed p safe = p
  play-IsSafe (accept r ∷ events) sys (allowed, rest) p safe = play-IsSafe events _ rest p (
      All-append (IsSafe (Progress m w0)) sys.threads (thread s r ∷ []) safe
        (thread-IsSafe s m L w0 valid r allowed, tt))
  play-IsSafe (proceed i ∷ events) sys (allowed, rest) p safe =
      let (p', safe') = advance-IsSafe (Progress m w0) i sys.threads sys.shared p safe in
      play-IsSafe events _ rest p' safe'

  -- For a service whose collaborators keep the contract IsLawful, started in a valid state:
  -- however requests come in and the calls of their goroutines interleave, whatever calls
  -- fail, every order that was there at the start is kept and its status can be reached from
  -- the one it had at the start by transitions that CanTransitionTo accepts, and an order
  -- that has come up has a status that can be reached from WaitingForShipment; the state
  -- stays valid. A batch request has to ask for an accepted transition.
  pub play-Progress :
      (events : List Event)
      → All IsAllowedEvent events
      → Progress m w0 (play s events (start w0)).shared
  play-Progress events allowed =
      play-IsSafe events (start w0) allowed
        (Quiet-Progress (record { sees = refl; stays = λ h. h })) tt
