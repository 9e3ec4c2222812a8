-- ===== src/Server.antt =====
-- cmd/server/main.go: `main`, as the calls that it makes of the other parts, each of which may fail.
-- A failure ends the process by log.Fatalf, which runs no deferred call. The printed lines are left
-- out.
pub mod Http
pub mod Shutdown
pub mod Safety
pub mod Activity
pub mod Payments
use ec_order_state_service.Prelude.{String, Option, none, some, List, [], ◌∷◌, ◌++◌}
use ec_order_state_service.Prelude.Int.{ℤ, int32}
use ec_order_state_service.Domain.Failure.{Error}
use ec_order_state_service.Config.{Config}

-- The fields of pgxpool.Config that are set.
pub record PoolConfig : Type 0 where
  pub max_conns : ℤ
  pub min_conns : ℤ
  pub max_conn_lifetime : ℤ
  pub max_conn_idle_time : ℤ
  pub health_check_period : ℤ

pub data Call : Type 0 where
  run_migrations : String → String → Call
  parse_config : String → Call
  new_pool : PoolConfig → Call
  ping : Call
  new_repository : ℤ → ℤ → Call  -- with the time-outs of queries and of writes
  new_connection : String → Call
  new_producer : Call
  new_consumer : ℤ → ℤ → Call  -- with the prefetch count and the number of workers
  start_consumer : Call
  start_scheduler : ℤ → ℤ → ℤ → Call  -- with the number of workers, batch size and interval
  serve : String → Call  -- r.Run on a port: an error, or a signal that ends the wait
  stop_consumer : Call
  stop_scheduler : Call
  close_producer : Call
  close_connection : Call
  close_pool : Call

unfoldable pub pool_config : Config → PoolConfig
pool_config cfg = record {
  max_conns = int32 cfg.db_max_conns;
  min_conns = int32 cfg.db_min_conns;
  max_conn_lifetime = cfg.db_max_conn_lifetime;
  max_conn_idle_time = cfg.db_max_conn_idle_time;
  health_check_period = cfg.db_health_check_period;
}

-- Up to the wait for a signal.
unfoldable pub start_up : Config → List Call
unfolding pool_config
start_up cfg =
    run_migrations cfg.database_url "file://migrations"
    ∷ parse_config cfg.database_url
    ∷ new_pool (pool_config cfg)
    ∷ ping
    ∷ new_repository cfg.db_query_timeout cfg.db_write_timeout
    ∷ new_connection cfg.rabbit_mq_url
    ∷ new_producer
    ∷ new_consumer cfg.rabbit_mq_prefetch_count cfg.rabbit_mq_worker_count
    ∷ start_consumer
    ∷ start_scheduler cfg.scheduler_worker_count cfg.scheduler_batch_size cfg.scheduler_interval
    ∷ serve cfg.port
    ∷ []

-- What `main` defers once a call has succeeded.
unfoldable pub deferred_by : Call → List Call
deferred_by (new_pool _) = close_pool ∷ []
deferred_by (new_connection _) = close_connection ∷ []
deferred_by new_producer = close_producer ∷ []
deferred_by (start_scheduler _ _ _) = stop_scheduler ∷ []
deferred_by _ = []

-- The error that `main` sees: the repository and the scheduler's goroutine have none.
abbrev pub error_of : Call → Option Error → Option Error
error_of (new_repository _ _) e = none
error_of (start_scheduler _ _ _) e = none
error_of _ e = e

pub data Exit : Type 0 where
  fatal : Call → Error → Exit
  stopped : Exit

module _ {W : Type 0} (execute : Call → W → Option Error × W) where
  -- The deferred calls, the last one first: what they return is not looked at.
  unfoldable pub run_deferred : List Call → W → W
  run_deferred [] w = w
  run_deferred (c ∷ cs) w = run_deferred cs (execute c w).1

  -- The rest of `main`, with what is deferred so far. An error of consumer.Stop is printed only.
  unfoldable pub proceed : List Call → List Call → W → Exit × W
  unfolding run_deferred deferred_by
  proceed [] deferred w = (stopped, run_deferred deferred (execute stop_consumer w).1)
  proceed (c ∷ cs) deferred w =
      let (e, w') = execute c w in
      elim (error_of c e) [
        | some e' ↦ (fatal c e', w')
        | none ↦ proceed cs (deferred_by c ++ deferred) w'
      ]

  unfoldable pub main : Config → W → Exit × W
  unfolding proceed start_up
  main cfg w = proceed (start_up cfg) [] w
