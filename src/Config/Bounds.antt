-- ===== src/Config/Bounds.antt =====
-- internal/config/config.go: the range of the numbers that LoadConfig gives.
use ec_order_state_service.Prelude.Decimal.{IsInt64}
use ec_order_state_service.Config.{Config}

-- The counts and durations of a configuration are integers of 64 bits.
pub record IsFitting (c : Config) : Type 0 where
  pub db_max_conns : IsInt64 c.db_max_conns
  pub db_min_conns : IsInt64 c.db_min_conns
  pub db_max_conn_lifetime : IsInt64 c.db_max_conn_lifetime
  pub db_max_conn_idle_time : IsInt64 c.db_max_conn_idle_time
  pub db_health_check_period : IsInt64 c.db_health_check_period
  pub db_query_timeout : IsInt64 c.db_query_timeout
  pub db_write_timeout : IsInt64 c.db_write_timeout
  pub rabbit_mq_prefetch_count : IsInt64 c.rabbit_mq_prefetch_count
  pub rabbit_mq_worker_count : IsInt64 c.rabbit_mq_worker_count
  pub scheduler_worker_count : IsInt64 c.scheduler_worker_count
  pub scheduler_batch_size : IsInt64 c.scheduler_batch_size
  pub scheduler_interval : IsInt64 c.scheduler_interval
