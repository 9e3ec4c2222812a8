-- ===== src/Repository.antt =====
-- internal/repository and internal/db: where orders are kept.
pub mod Interface
pub mod Memory
pub mod Database
pub mod Postgres
