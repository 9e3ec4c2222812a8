-- ===== src/Tests/Serving.antt =====
-- The server on the shop: its endpoint, its activities, its ticks and its end.
use ec_order_state_service.Prelude.{
  ℕ, suc, ◌≡◌, refl, String, ◌==◌, false, Option, none, some, [], ◌∷◌, arith, if◌then◌else◌,
}
use mathlib.Core.Option
use ec_order_state_service.Prelude.Int.{pos}
use ec_order_state_service.Domain.Status.{OrderStatus, in_transit, can_transition_to}
use ec_order_state_service.Domain.Events.{new_order_status_changed_event}
use ec_order_state_service.Repository.Memory
use ec_order_state_service.Domain.Failure.{Error, plain, Result, ok, err}
use ec_order_state_service.Service.Mocks.{World, publish_order_status_changed}
use ec_order_state_service.Service.MemoryService.{
  statuses, world_meaning, new_order_state_service-IsLawful,
}
use ec_order_state_service.Service.Progress.{Progress}
use ec_order_state_service.Scheduler.MemoryRun.{memory_scheduler}
use ec_order_state_service.Scheduler.Ticker.{due, halt, start}
use ec_order_state_service.Scheduler.Ticker.Lasting.{Lasts, IsKept, start-Lasts}
use ec_order_state_service.Rabbitmq.Amqp.{Delivery, Channel, Codec}
use ec_order_state_service.Rabbitmq.Consumer.{PaymentCompletedMessage, handle_message}
use ec_order_state_service.Handler
use ec_order_state_service.Config.{Config, load_config}
use ec_order_state_service.Server as Main
use ec_order_state_service.Server.{Call, start_consumer}
use ec_order_state_service.Server.Http.{put_order_status}
use ec_order_state_service.Server.Http.Laws.{Served, put_order_status-Served}
use ec_order_state_service.Server.Activity.{Server}
use ec_order_state_service.Tests.Data.{
  shop, shop_service, shop-IsKeyed, tick, in_order, in_order-meets,
}

-- The body is the status itself.
abbrev bind_text : String → Result OrderStatus
bind_text text = if text == "" then err (plain "EOF") else ok text

put_order_status-Served_example :
    Served world_meaning "B"
      (bind_text in_transit)
      shop
      (put_order_status shop_service bind_text "B" in_transit shop)
put_order_status-Served_example =
    put_order_status-Served shop_service world_meaning
      (new_order_state_service-IsLawful tick in_order in_order-meets) bind_text "B" in_transit shop
      shop-IsKeyed

-- A die that picks every order, and no waiting.
abbrev always : World → ℕ × World
always w = (7, w)

abbrev at_once : ℕ → World → World
at_once n w = w

start-Lasts_example : Lasts (IsKept shop) (
    start
      (memory_scheduler tick in_order in_order-meets 0 always at_once (λ w. refl) (λ n w. refl))
      3
      (pos 30000000000)
      (due ∷ halt ∷ [])
      shop)
start-Lasts_example =
    start-Lasts tick in_order in_order-meets 0 always at_once (λ w. refl) (λ n w. refl) 3
      (pos 30000000000) (due ∷ halt ∷ []) shop refl (omega arith) (omega arith) (omega arith)

-- A channel that forgets what it is told, messages whose body is the order's id, and no time-out.
abbrev deaf_channel : Channel World
deaf_channel = record {
  is_nil = λ w. false;
  is_closed = λ w. (false, w);
  publish = λ exchange key p w. (none, w);
  ack = λ msg w. w;
  nack = λ msg again w. w;
}

abbrev plain_codec : Codec PaymentCompletedMessage
plain_codec = record {
  unmarshal =
      λ body. ok (record { event_type = "PaymentCompleted"; order_id = body; timestamp = "" });
  marshal = λ message. ok message.order_id;
}

abbrev in_time : (World → Option Error × World) → World → Option (Option Error) × World
in_time f w = let (e, w') = f w in (some e, w')

abbrev shop_server : Server World
shop_server = record {
  scheduler =
      memory_scheduler tick in_order in_order-meets 0 always at_once (λ w. refl) (λ n w. refl);
  channel = deaf_channel;
  json = plain_codec;
  race = in_time;
  bind = bind_text;
}

-- The payment of "A" comes in.
abbrev paid : Delivery
paid = record { body = "A"; headers = none }

abbrev after_payment : World
after_payment =
    handle_message deaf_channel plain_codec (Handler.handle_payment_completed shop_service) in_time
      paid shop

on_the_way :
    statuses (put_order_status shop_service bind_text "A" in_transit after_payment).1 "A"
    ≡ some in_transit
unfolding put_order_status handle_message Memory.get_by_id Handler.handle_payment_completed
    can_transition_to Memory.save publish_order_status_changed new_order_status_changed_event
on_the_way = refl

-- Every call succeeds but the start of the consumer; the state counts the calls.
abbrev no_consumer : Call → ℕ → Option Error × ℕ
no_consumer start_consumer n = (some (plain "no consumer"), suc n)
no_consumer _ n = (none, suc n)

abbrev defaults : Config
defaults = load_config (λ key. "") (λ f unit scale. 0)

-- The ninth call is the last.
ends_early : (Main.main no_consumer defaults 0).1 ≡ 9
unfolding Main.main
ends_early = refl
