-- ===== src/Domain.antt =====
-- internal/domain: the statuses and their transitions, orders, events, errors.
pub mod Status
pub mod Failure
pub mod Order
pub mod Events
pub mod Lifecycle
