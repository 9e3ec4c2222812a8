-- ===== src/Tests/Schedules.antt =====
-- Requests on the shop whose calls interleave.
use ec_order_state_service.Prelude.{◌≡◌, refl, Option, some, List, [], ◌∷◌, ◌++◌, arith}
use ec_order_state_service.Domain.Status.{in_transit, wait_pickup, completed, can_transition_to}
use ec_order_state_service.Domain.Order.{update_status}
use ec_order_state_service.Domain.Failure.{Error}
use ec_order_state_service.Repository.Memory
use ec_order_state_service.Service.MemoryService.{
  statuses, world_meaning, new_order_state_service-IsLawful,
}
use ec_order_state_service.Service.Progress.{Progress}
use ec_order_state_service.Service.Requests.{set_status}
use ec_order_state_service.Service.Threads
use ec_order_state_service.Service.Threads.Schedule.{
  start, Event, accept, proceed, happen, play, answer,
}
use ec_order_state_service.Service.Threads.Interleaving.{play-Progress}
use ec_order_state_service.Service.Threads.Answers.{accept-answer}
use ec_order_state_service.Tests.Data.{
  shop, shop_service, shop-IsKeyed, tick, in_order, in_order-meets,
}

-- Two requests read that "B" waits for shipment; the first ships it, and a third has it arrive.
abbrev shipped_and_arrived : List Event
shipped_and_arrived =
    accept (set_status "B" in_transit)
    ∷ accept (set_status "B" in_transit)
    ∷ proceed 0
    ∷ proceed 1
    ∷ proceed 0
    ∷ proceed 0
    ∷ accept (set_status "B" wait_pickup)
    ∷ proceed 2
    ∷ proceed 2
    ∷ proceed 2
    ∷ []

-- The second request goes on.
abbrev late_write : List Event
late_write = proceed 1 ∷ proceed 1 ∷ []

arrived :
    statuses (play shop_service shipped_and_arrived (start shop)).shared "B" ≡ some wait_pickup
unfolding play happen Threads.thread Memory.get_by_id update_status can_transition_to Memory.save
arrived = refl

-- The order is back in transit: the second request has written over what the third did.
back_in_transit :
    statuses (play shop_service (shipped_and_arrived ++ late_write) (start shop)).shared "B"
    ≡ some in_transit
unfolding play happen Threads.thread Memory.get_by_id update_status can_transition_to Memory.save
back_in_transit = refl

play-Progress_example :
    Progress world_meaning shop (play shop_service shipped_and_arrived (start shop)).shared
play-Progress_example =
    play-Progress shop_service world_meaning
      (new_order_state_service-IsLawful tick in_order in_order-meets) shop shop-IsKeyed
      shipped_and_arrived (tt, (tt, (tt, (tt, (tt, (tt, (tt, (tt, (tt, (tt, tt))))))))))

abbrev six_turns : List Event
six_turns = proceed 0 ∷ proceed 0 ∷ proceed 0 ∷ proceed 0 ∷ proceed 0 ∷ proceed 0 ∷ []

accept-answer_example :
    (e : Option Error) × (answer 0
        (play shop_service six_turns
          (happen shop_service (accept (set_status "B" completed)) (start shop))).threads
      ≡ some e)
accept-answer_example =
    accept-answer shop_service (set_status "B" completed) six_turns (start shop) (omega arith)
