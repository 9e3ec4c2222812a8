-- ===== src/Tests.antt =====
-- Runs of the modelled code on concrete states, and the theorems applied to such states.
mod Data
mod Broker
mod Orders
mod Messages
mod Declarations
mod Retries
mod Schedules
mod Settings
mod Serving
mod Payments
mod Pages
mod Database
