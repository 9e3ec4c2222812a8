-- ===== src/Rabbitmq/Consumer/Workers/Stopping.antt =====
-- pkg/rabbitmq/order_state_consumer.go: the workers after Stop, once messageReceiver has returned.
use ec_order_state_service.Prelude.{
  ap, ℕ, zero, suc, ◌+◌, ◌*◌, ◌≤◌, ◌<◌, ◌≡◌, ◌⊎◌, inl, inr, refl, true, List, [], ◌∷◌, length,
  length-append, arith, if◌then◌else◌,
}
use ec_order_state_service.Rabbitmq.Amqp.{Delivery}
use ec_order_state_service.Rabbitmq.Consumer.Workers.{
  returned, Consuming, Step, Run, connect, leave, lose_connection, receive, pass, pass_late,
  find_full, time_out, give_up, give_up_late, panic, panic_late, take, finish, retire, close_stop,
  close_queue, begin, next,
}

-- Stop has closed stopChan and the receiver has returned.
pub record IsStopping (s : Consuming) : Type 0 where
  pub receiver_returned : s.receiver ≡ returned
  pub told_to_stop : s.stopping ≡ true

-- What is left to do, at most: three steps for a delivery in the channel, two for one in hand, one for
-- a worker that waits, one to close the channel.
abbrev pub work : Consuming → ℕ
work s = 3 * length s.queue + 2 * length s.busy + s.idle + (if s.closed then 0 else 1)

abbrev pub steps : {capacity : ℕ} {s t : Consuming} → Run capacity s t → ℕ
steps begin = 0
steps (next run step) = suc (steps run)

-- Every worker has returned, so that the wait of Stop is over.
pub record IsStopped (s : Consuming) : Type 0 where
  pub none_busy : s.busy ≡ []
  pub none_idle : s.idle ≡ 0

List-cases :
    (ms : List Delivery)
    → (ms ≡ []) ⊎ ((m : Delivery) × ((after : List Delivery) × (ms ≡ m ∷ after)))
List-cases [] = inl refl
List-cases (m ∷ after) = inr (m, (after, refl))

ℕ-cases : (n : ℕ) → (n ≡ 0) ⊎ ((k : ℕ) × (n ≡ suc k))
ℕ-cases zero = inl refl
ℕ-cases (suc k) = inr (k, refl)

module _ (capacity : ℕ) where
  Step-IsStopping :
      {s t : Consuming} → Step capacity s t → IsStopping s → IsStopping t × (work t < work s)
  Step-IsStopping {s} (connect r _) h = absurd (cc (r, h.receiver_returned))
  Step-IsStopping {s} (leave r _) h = absurd (cc (r, h.receiver_returned))
  Step-IsStopping {s} (lose_connection r) h = absurd (cc (r, h.receiver_returned))
  Step-IsStopping {s} (receive m r) h = absurd (cc (r, h.receiver_returned))
  Step-IsStopping {s} (pass m r _ _) h = absurd (cc (r, h.receiver_returned))
  Step-IsStopping {s} (pass_late m r _ _) h = absurd (cc (r, h.receiver_returned))
  Step-IsStopping {s} (find_full m r _ _) h = absurd (cc (r, h.receiver_returned))
  Step-IsStopping {s} (time_out m r) h = absurd (cc (r, h.receiver_returned))
  Step-IsStopping {s} (give_up m r _) h = absurd (cc (r, h.receiver_returned))
  Step-IsStopping {s} (give_up_late m r _) h = absurd (cc (r, h.receiver_returned))
  Step-IsStopping {s} (panic m r _) h = absurd (cc (r, h.receiver_returned))
  Step-IsStopping {s} (panic_late m r _) h = absurd (cc (r, h.receiver_returned))
  Step-IsStopping {s} (close_stop r) h = absurd (cc (r, h.told_to_stop))
  Step-IsStopping {s} (take m queue idle q i) h = (
    record { receiver_returned = h.receiver_returned; told_to_stop = h.told_to_stop },
    omega (arith, ap length q, i),
  )
  Step-IsStopping {s} (finish m before after b) h = (
    record { receiver_returned = h.receiver_returned; told_to_stop = h.told_to_stop },
    omega (arith, ap length b, length-append before (m ∷ after), length-append before after),
  )
  Step-IsStopping {s} (retire idle _ i) h = (
    record { receiver_returned = h.receiver_returned; told_to_stop = h.told_to_stop },
    omega (arith, i),
  )
  Step-IsStopping {s} (close_queue _ c) h = (
    record { receiver_returned = h.receiver_returned; told_to_stop = h.told_to_stop },
    rw c (omega arith),
  )

  Run-work :
      {s t : Consuming} (run : Run capacity s t)
      → IsStopping s
      → IsStopping t × (steps run + work t ≤ work s)
  Run-work begin h = (h, omega arith)
  Run-work (next run step) h =
      let (h1, fits) = Run-work run h in
      let (h2, less) = Step-IsStopping step h1 in (h2, omega arith)

  -- As long as a worker has not returned, some goroutine can go on.
  go_on : (s : Consuming) → IsStopping s → IsStopped s ⊎ ((t : Consuming) × Step capacity s t)
  go_on s h = elim (List-cases s.busy) [
    | inr (m, (after, b)) ↦ inr (_, finish m [] after b)
    | inl none_busy ↦ elim (ℕ-cases s.idle) [
      | inl none_idle ↦ inl (record { none_busy = none_busy; none_idle = none_idle })
      | inr (idle, i) ↦ inr (_, retire idle h.told_to_stop i)
    ]
  ]

  -- Once Stop has closed stopChan and messageReceiver has returned, the goroutines make at
  -- most three steps for each delivery in the channel, two for each in a worker's hand, one
  -- for each worker that waits and one more, in any order; and at every point of such a run
  -- either all workers have returned, so that the wait of Stop is over, or some goroutine
  -- can go on.
  pub Run-stops :
      {s t : Consuming} (run : Run capacity s t)
      → IsStopping s
      → (steps run ≤ work s) × (IsStopped t ⊎ ((u : Consuming) × Step capacity t u))
  Run-stops {t = t} run h = let (h', fits) = Run-work run h in (omega arith, go_on t h')
