-- ===== src/Server/Shutdown.antt =====
-- cmd/server/main.go: the calls that `main` has made when it ends.
use ec_order_state_service.Prelude.{◌≡◌, Option, List, [], ◌∷◌, ◌++◌}
use ec_order_state_service.Domain.Failure.{Error}
use ec_order_state_service.Config.{Config}
use ec_order_state_service.Server.{
  Call, stop_consumer, stop_scheduler, close_producer, close_connection, close_pool, start_up,
  deferred_by, Exit, fatal, stopped,
}

-- The calls written down beside the state, in their order.
abbrev pub recorded :
    {W : Type 0}
    → (Call → W → Option Error × W)
    → Call
    → List Call × W
    → Option Error × (List Call × W)
recorded execute c (calls, w) = let (e, w') = execute c w in (e, (calls ++ (c ∷ []), w'))

-- How `main` may end, with the calls that it has made.
pub data Ending (cfg : Config) : Exit → List Call → Type 0 where
  clean : Ending cfg stopped (
      start_up cfg
      ++ (stop_consumer ∷ stop_scheduler ∷ close_producer ∷ close_connection ∷ close_pool ∷ []))
  broken :
      (before after : List Call) (c : Call) (e : Error)
      → before ++ (c ∷ after) ≡ start_up cfg
      → Ending cfg (fatal c e) (before ++ (c ∷ []))

abbrev all_deferred : List Call → List Call → List Call
all_deferred [] deferred = deferred
all_deferred (c ∷ cs) deferred = all_deferred cs (deferred_by c ++ deferred)

-- The same for a part of the calls, after those `made`.
data PartEnding (made cs deferred : List Call) : Exit → List Call → Type 0 where
  clean_part :
      PartEnding made cs deferred stopped
        (made ++ (cs ++ (stop_consumer ∷ all_deferred cs deferred)))
  broken_part :
      (before after : List Call) (c : Call) (e : Error)
      → before ++ (c ∷ after) ≡ cs
      → PartEnding made cs deferred (fatal c e) (made ++ (before ++ (c ∷ [])))
