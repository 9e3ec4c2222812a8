-- ===== src/Service.antt =====
-- internal/service: the order state service, its publisher and its logger.
pub mod Deps
pub mod Core
pub mod Contract
pub mod Safety
pub mod Payment
pub mod Settled
pub mod Progress
pub mod Requests
pub mod Threads
pub mod Mocks
pub mod MemoryService
pub mod PostgresService
pub mod MemoryPayment
pub mod Redelivery
pub mod Publisher
