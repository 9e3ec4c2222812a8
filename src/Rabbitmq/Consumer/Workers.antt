-- ===== src/Rabbitmq/Consumer/Workers.antt =====
-- pkg/rabbitmq/order_state_consumer.go: the goroutines of OrderStateConsumer as a step relation. A
-- step is what one goroutine does between two points at which it may wait; any goroutine that can
-- go on may be the next.
pub mod Conservation
pub mod Stopping
use ec_order_state_service.Prelude.{
  ℕ, zero, suc, ◌+◌, ◌<◌, ◌≡◌, Bool, true, false, List, [], ◌∷◌, ◌++◌, length, if◌then◌else◌,
}
use ec_order_state_service.Prelude.Int.{ℤ, pos, ltb_ℤ, int64, ◌+ℤ◌}
use ec_order_state_service.Rabbitmq.Amqp.{Delivery}

-- The capacity of workerChan for a number of workers.
unfoldable pub buffer_size : ℤ → ℤ
buffer_size worker_count =
    let size = int64 (worker_count +ℤ worker_count) in
    if ltb_ℤ (pos 100) size then pos 100 else size

-- Where messageReceiver is: before consumeMessages or a reconnection, in the `range` over the
-- deliveries, in the first `select` with a delivery, in the second, returned, or in a panic.
pub data Receiver : Type 0 where
  connecting : Receiver
  ranging : Receiver
  offering : Delivery → Receiver
  waiting : Delivery → Receiver
  returned : Receiver
  panicked : Delivery → Receiver

-- `queue` is what workerChan holds, `idle` the number of workers that wait, `busy` what the others
-- have in hand. `stopping` and `closed`: stopChan and workerChan are closed. The last three are the
-- deliveries that came from the broker, that were put back, and that handleMessage is done with.
pub record Consuming : Type 0 where
  pub receiver : Receiver
  pub queue : List Delivery
  pub idle : ℕ
  pub busy : List Delivery
  pub stopping : Bool
  pub closed : Bool
  pub arrived : List Delivery
  pub put_back : List Delivery
  pub finished : List Delivery

-- Start
abbrev pub start : ℕ → Consuming
start worker_count = record {
  receiver = connecting;
  queue = [];
  idle = worker_count;
  busy = [];
  stopping = false;
  closed = false;
  arrived = [];
  put_back = [];
  finished = [];
}

pub data Step (capacity : ℕ) (s : Consuming) : Consuming → Type 0 where
  -- messageReceiver
  connect :
      s.receiver ≡ connecting
      → s.stopping ≡ false
      → Step capacity s (record s { receiver = ranging })
  leave :
      s.receiver ≡ connecting
      → s.stopping ≡ true
      → Step capacity s (record s { receiver = returned })
  lose_connection : s.receiver ≡ ranging → Step capacity s (record s { receiver = connecting })
  receive :
      (m : Delivery)
      → s.receiver ≡ ranging
      → Step capacity s (record s { receiver = offering m; arrived = s.arrived ++ (m ∷ []) })
  pass :
      (m : Delivery)
      → s.receiver ≡ offering m
      → s.closed ≡ false
      → length s.queue < capacity
      → Step capacity s (record s { receiver = ranging; queue = s.queue ++ (m ∷ []) })
  pass_late :
      (m : Delivery)
      → s.receiver ≡ waiting m
      → s.closed ≡ false
      → length s.queue < capacity
      → Step capacity s (record s { receiver = ranging; queue = s.queue ++ (m ∷ []) })
  find_full :
      (m : Delivery)
      → s.receiver ≡ offering m
      → s.stopping ≡ false
      → length s.queue ≡ capacity
      → Step capacity s (record s { receiver = waiting m })
  time_out :
      (m : Delivery)
      → s.receiver ≡ waiting m
      → Step capacity s (record s { receiver = ranging; put_back = s.put_back ++ (m ∷ []) })
  give_up :
      (m : Delivery)
      → s.receiver ≡ offering m
      → s.stopping ≡ true
      → Step capacity s (record s { receiver = returned; put_back = s.put_back ++ (m ∷ []) })
  give_up_late :
      (m : Delivery)
      → s.receiver ≡ waiting m
      → s.stopping ≡ true
      → Step capacity s (record s { receiver = returned; put_back = s.put_back ++ (m ∷ []) })
  -- a send on the closed workerChan
  panic :
      (m : Delivery)
      → s.receiver ≡ offering m
      → s.closed ≡ true
      → Step capacity s (record s { receiver = panicked m })
  panic_late :
      (m : Delivery)
      → s.receiver ≡ waiting m
      → s.closed ≡ true
      → Step capacity s (record s { receiver = panicked m })
  -- a worker: a closed channel still gives what it holds
  take :
      (m : Delivery) (queue : List Delivery) (idle : ℕ)
      → s.queue ≡ m ∷ queue
      → s.idle ≡ suc idle
      → Step capacity s (record s { queue = queue; idle = idle; busy = m ∷ s.busy })
  finish :
      (m : Delivery) (before after : List Delivery)
      → s.busy ≡ before ++ (m ∷ after)
      → Step capacity s (record s {
        idle = suc s.idle;
        busy = before ++ after;
        finished = s.finished ++ (m ∷ []);
      })
  retire :
      (idle : ℕ)
      → s.stopping ≡ true
      → s.idle ≡ suc idle
      → Step capacity s (record s { idle = idle })
  -- Stop, up to its wait
  close_stop : s.stopping ≡ false → Step capacity s (record s { stopping = true })
  close_queue : s.stopping ≡ true → s.closed ≡ false → Step capacity s (record s { closed = true })

pub data Run (capacity : ℕ) (s : Consuming) : Consuming → Type 0 where
  begin : Run capacity s s
  next : {t u : Consuming} → Run capacity s t → Step capacity t u → Run capacity s u
