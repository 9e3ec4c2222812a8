-- ===== src/Server/Activity.antt =====
-- cmd/server/main.go: the activities of the running server, any number of them in any order.
use ec_order_state_service.Prelude.{ℕ, ◌≡◌, String, Option}
use ec_order_state_service.Domain.Status.{OrderStatus}
use ec_order_state_service.Domain.Failure.{Error, Result}
use ec_order_state_service.Service.Deps.{OrderStateService}
use ec_order_state_service.Service.Progress.{Progress}
use ec_order_state_service.Handler
use ec_order_state_service.Scheduler.{OrderStateScheduler, finished, process_orders}
use ec_order_state_service.Rabbitmq.Amqp.{Delivery, Channel, Codec}
use ec_order_state_service.Rabbitmq.Consumer.{PaymentCompletedMessage, handle_message}
use ec_order_state_service.Server.Http.{put_order_status}

-- What `main` has put together: the scheduler's service is that of the endpoint and of the handler.
pub record Server (W : Type 0) : Type 0 where
  pub scheduler : OrderStateScheduler W
  pub channel : Channel W
  pub json : Codec PaymentCompletedMessage
  pub race : (W → Option Error × W) → W → Option (Option Error) × W
  pub bind : String → Result OrderStatus

module _ {W : Type 0} (server : Server W) where
  abbrev service : OrderStateService W
  service = server.scheduler.order_state_service

  -- What one activity makes of the state.
  pub data Serves (w : W) : W → Type 0 where
    put :
        (order_id text : String) → Serves w (put_order_status service server.bind order_id text w).1
    deliver :
        (msg : Delivery)
        → Serves w (
            handle_message server.channel server.json
              (Handler.handle_payment_completed service)
              server.race
              msg
              w)
    tick :
        {w' : W} (fuel updated errors : ℕ)
        → process_orders server.scheduler fuel w ≡ finished updated errors w'
        → Serves w w'

  pub data Runs (w : W) : W → Type 0 where
    begin : Runs w w
    next : {v u : W} → Runs w v → Serves v u → Runs w u
