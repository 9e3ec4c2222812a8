-- ===== src/Rabbitmq/Consumer/Workers/Conservation.antt =====
-- pkg/rabbitmq/order_state_consumer.go: where the deliveries are while the goroutines run.
use ec_order_state_service.Prelude.{ℕ, ◌+◌, ◌≤◌, ◌≡◌, refl, List, [], ◌∷◌, ◌++◌, length, arith}
use ec_order_state_service.Rabbitmq.Amqp.{Delivery}
use ec_order_state_service.Rabbitmq.Consumer.Workers.{
  Receiver, offering, waiting, panicked, Consuming, start, Step, Run, connect, leave,
  lose_connection, receive, pass, pass_late, find_full, time_out, give_up, give_up_late, panic,
  panic_late, take, finish, retire, close_stop, close_queue, begin, next,
}

-- The sum of a weight over a list: with the weight that is 1 at one delivery, the number of times
-- that it stands there.
abbrev pub weigh : (Delivery → ℕ) → List Delivery → ℕ
weigh f [] = 0
weigh f (m ∷ ms) = f m + weigh f ms

weigh-append :
    (f : Delivery → ℕ) (xs ys : List Delivery) → weigh f (xs ++ ys) ≡ weigh f xs + weigh f ys
weigh-append f [] ys = omega arith
weigh-append f (x ∷ xs) ys = omega (arith, weigh-append f xs ys)

abbrev pub in_hand : (Delivery → ℕ) → Receiver → ℕ
in_hand f (offering m) = f m
in_hand f (waiting m) = f m
in_hand f (panicked m) = f m
in_hand f _ = 0

-- What arrived, by weight, is what is anywhere.
abbrev pub Balanced : (Delivery → ℕ) → Consuming → Type 0
Balanced f s =
    weigh f s.arrived
    ≡ in_hand f s.receiver
      + weigh f s.queue
      + weigh f s.busy
      + weigh f s.put_back
      + weigh f s.finished

module _ (f : Delivery → ℕ) (capacity : ℕ) where
  Step-Balanced : {s t : Consuming} → Step capacity s t → Balanced f s → Balanced f t
  Step-Balanced {s} (connect r _) h = rw r at h
  Step-Balanced {s} (leave r _) h = rw r at h
  Step-Balanced {s} (lose_connection r) h = rw r at h
  Step-Balanced {s} (receive m r) h = omega (arith, rw r at h, weigh-append f s.arrived (m ∷ []))
  Step-Balanced {s} (pass m r _ _) h = omega (arith, rw r at h, weigh-append f s.queue (m ∷ []))
  Step-Balanced {s} (pass_late m r _ _) h =
      omega (arith, rw r at h, weigh-append f s.queue (m ∷ []))
  Step-Balanced {s} (find_full m r _ _) h = rw r at h
  Step-Balanced {s} (time_out m r) h = omega (arith, rw r at h, weigh-append f s.put_back (m ∷ []))
  Step-Balanced {s} (give_up m r _) h = omega (arith, rw r at h, weigh-append f s.put_back (m ∷ []))
  Step-Balanced {s} (give_up_late m r _) h =
      omega (arith, rw r at h, weigh-append f s.put_back (m ∷ []))
  Step-Balanced {s} (panic m r _) h = rw r at h
  Step-Balanced {s} (panic_late m r _) h = rw r at h
  Step-Balanced {s} (take m queue idle q _) h = omega (arith, rw q at h)
  Step-Balanced {s} (finish m before after b) h = omega (
    arith,
    rw b at h,
    weigh-append f before (m ∷ after),
    weigh-append f before after,
    weigh-append f s.finished (m ∷ []),
  )
  Step-Balanced {s} (retire idle _ _) h = h
  Step-Balanced {s} (close_stop _) h = h
  Step-Balanced {s} (close_queue _ _) h = h

  -- In every state that the consumer's goroutines reach from Start in any interleaving, a
  -- stop, lost connections, time-outs and a panic included, each delivery that arrived
  -- stands as often in the receiver's hand, the channel, a worker's hand, among those put
  -- back and among those finished as it arrived, for any weight given to deliveries.
  pub Run-Balanced : (workers : ℕ) (s : Consuming) → Run capacity (start workers) s → Balanced f s
  Run-Balanced workers s run = go run
    where
      go : {t : Consuming} → Run capacity (start workers) t → Balanced f t
      go begin = refl
      go (next run step) = Step-Balanced step (go run)

-- The limits that the pool keeps.
pub record Limited (capacity workers : ℕ) (s : Consuming) : Type 0 where
  pub buffered : length s.queue ≤ capacity
  pub working : s.idle + length s.busy ≤ workers
