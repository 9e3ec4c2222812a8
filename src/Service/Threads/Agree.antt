-- ===== src/Service/Threads/Agree.antt =====
-- internal/service/order_state_service.go: a goroutine that runs alone does what the methods of
-- Service/Core do.
use ec_order_state_service.Domain.Order.{Order}
use ec_order_state_service.Service.Core
use ec_order_state_service.Service.Core.Payments
use ec_order_state_service.Service.Threads
