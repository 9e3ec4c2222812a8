-- ===== src/Rabbitmq/Consumer/Outcome.antt =====
-- pkg/rabbitmq/order_state_consumer.go: what becomes of a message, on every branch.
use mathlib.Core.List.{append-nil}
use ec_order_state_service.Prelude.{
  ◌≡◌, ◌≢◌, refl, sym, ◌==◌, String, Bool, true, false, Option, none, some, [], ◌∷◌, arith, inl,
  inr, Bool-cases, Option-cases,
}
use ec_order_state_service.Prelude.Int.{pos, ◌+ℤ◌, leb_ℤ, int64}
use ec_order_state_service.Domain.Failure.{Error, ok, err, Result-cases}
use ec_order_state_service.Rabbitmq.Amqp.{Publishing, Delivery, Channel, Codec}
use ec_order_state_service.Rabbitmq.Consumer.{
  PaymentCompletedMessage, get_retry_count, routing_key, dlq_routing_key, exchange,
  retry_publishing, dlq_publishing, try_publish, republish_with_retry_count, send_to_dlq, dispatch,
  on_failure, conclude, handle_message,
}
use ec_order_state_service.Rabbitmq.Consumer.Ledger.{
  acked, rejected, requeued, Ledger, Adds, IsBroker, Adds-trans,
}

-- What try_publish did, and whether it says so.
data Tried {W : Type 0} (json : Codec PaymentCompletedMessage) (l : Ledger W) (key : String)
    (publishing : String → Publishing) (message : PaymentCompletedMessage) (w : W) (r : Bool × W)
    : Type 0 where
  sent :
      (body : String)
      → json.marshal message ≡ ok body
      → r.0 ≡ true
      → Adds l [] ((exchange, key, publishing body) ∷ []) w r.1
      → Tried json l key publishing message w r
  unsent : r.0 ≡ false → Adds l [] [] w r.1 → Tried json l key publishing message w r

-- What becomes of a delivery. `seen` is what `select` takes: the handler's result or the timeout.
pub data Outcome {W : Type 0} (json : Codec PaymentCompletedMessage) (l : Ledger W)
    (seen : PaymentCompletedMessage → Option (Option Error)) (msg : Delivery) (w w' : W)
    : Type 0 where
  unreadable :
      (e : Error)
      → json.unmarshal msg.body ≡ err e
      → Adds l ((msg, rejected) ∷ []) [] w w'
      → Outcome json l seen msg w w'
  handled :
      (m : PaymentCompletedMessage)
      → json.unmarshal msg.body ≡ ok m
      → seen m ≡ some none
      → Adds l ((msg, acked) ∷ []) [] w w'
      → Outcome json l seen msg w w'
  retried :
      (m : PaymentCompletedMessage) (body : String)
      → json.unmarshal msg.body ≡ ok m
      → seen m ≢ some none
      → leb_ℤ (pos 3) (get_retry_count msg) ≡ false
      → json.marshal m ≡ ok body
      → Adds l
          ((msg, acked) ∷ [])
          ((exchange, routing_key, retry_publishing body (int64 (get_retry_count msg +ℤ pos 1)))
            ∷ [])
          w
          w'
      → Outcome json l seen msg w w'
  buried :
      (m : PaymentCompletedMessage) (body : String)
      → json.unmarshal msg.body ≡ ok m
      → seen m ≢ some none
      → leb_ℤ (pos 3) (get_retry_count msg) ≡ true
      → json.marshal m ≡ ok body
      → Adds l
          ((msg, acked) ∷ [])
          ((exchange, dlq_routing_key, dlq_publishing body (get_retry_count msg)) ∷ [])
          w
          w'
      → Outcome json l seen msg w w'
  put_back :
      (m : PaymentCompletedMessage)
      → json.unmarshal msg.body ≡ ok m
      → seen m ≢ some none
      → Adds l ((msg, requeued) ∷ []) [] w w'
      → Outcome json l seen msg w w'

module _ {W : Type 0} (channel : Channel W) (json : Codec PaymentCompletedMessage)
    (handler : PaymentCompletedMessage → W → Option Error × W)
    (race : (W → Option Error × W) → W → Option (Option Error) × W) (l : Ledger W)
    (broker : IsBroker channel handler race l) where
  no_change : (w : W) → Adds l [] [] w w
  no_change w = record { answered = sym (append-nil _); took = sym (append-nil _) }

  dispatch-Adds :
      (m : PaymentCompletedMessage) (w : W)
      → Adds l [] [] w (dispatch channel json handler race m w).1
  unfolding dispatch
  dispatch-Adds m w = elim (Bool-cases (m.event_type == "PaymentCompleted")) [
    | inl known ↦ rw (known, dispatch) (broker.handler_adds m w)
    | inr unknown ↦ rw (unknown, dispatch) (no_change w)
  ]

  try_publish-Tried :
      (key : String) (publishing : String → Publishing) (m : PaymentCompletedMessage) (w : W)
      → Tried json l key publishing m w (try_publish channel json handler race key publishing m w)
  unfolding try_publish
  try_publish-Tried key publishing m w = elim (Bool-cases (channel.is_nil w)) [
    | inl nil ↦ unsent (rw (nil, try_publish)) (rw (nil, try_publish) (no_change w))
    | inr there ↦ elim (Bool-cases (channel.is_closed w).0) [
      | inl closed ↦
          unsent (rw (there, try_publish, closed))
            (rw (there, try_publish, closed) (broker.is_closed_adds w))
      | inr usable ↦ elim (Result-cases (json.marshal m)) [
        | inl (e, failed) ↦
            unsent (rw (there, try_publish, usable, failed))
              (rw (there, try_publish, usable, failed) (broker.is_closed_adds w))
        | inr (body, marshalled) ↦
            let w1 = (channel.is_closed w).1 in
            elim (Option-cases (channel.publish exchange key (publishing body) w1).0) [
              | inl taken ↦
                  sent body marshalled (rw (there, try_publish, usable, marshalled, taken)) (
                    rw (there, try_publish, usable, marshalled)
                      (Adds-trans l [] [] [] _ _ _ _ (broker.is_closed_adds w)
                        (broker.publish_adds exchange key (publishing body) w1 taken)))
              | inr (e, refused) ↦ unsent (rw (there, try_publish, usable, marshalled, refused)) (
                  rw (there, try_publish, usable, marshalled)
                    (Adds-trans l [] [] [] [] _ _ _ (broker.is_closed_adds w)
                      (broker.publish_refused exchange key (publishing body) w1 e refused)))
            ]
      ]
    ]
  ]

  on_failure-Outcome :
      (seen : PaymentCompletedMessage → Option (Option Error)) (msg : Delivery)
      (m : PaymentCompletedMessage) (w0 w : W)
      → json.unmarshal msg.body ≡ ok m
      → seen m ≢ some none
      → Adds l [] [] w0 w
      → Outcome json l seen msg w0 (on_failure channel json handler race msg m w)
  unfolding on_failure send_to_dlq republish_with_retry_count
  on_failure-Outcome seen msg m w0 w read failed before =
      elim (Bool-cases (leb_ℤ (pos 3) (get_retry_count msg))) [
        | inl worn ↦
            rw (worn, on_failure)
              (elim (try_publish-Tried dlq_routing_key
                (λ body. dlq_publishing body (get_retry_count msg)) m w) [
                  | sent body marshalled told added ↦
                      rw (on_failure, told)
                        (buried m body read failed worn marshalled (
                          Adds-trans l [] _ [] _ _ _ _ before
                            (Adds-trans l [] _ _ [] _ _ _ added (broker.ack_adds msg _))))
                  | unsent told added ↦
                      rw (on_failure, told)
                        (put_back m read failed (
                          Adds-trans l [] _ [] [] _ _ _ before
                            (Adds-trans l [] _ [] [] _ _ _ added (broker.nack_adds msg true _))))
                ])
        | inr fresh ↦
            rw (fresh, on_failure)
              (elim (try_publish-Tried routing_key
                (λ body. retry_publishing body (int64 (get_retry_count msg +ℤ pos 1))) m w) [
                  | sent body marshalled told added ↦
                      rw (on_failure, told)
                        (retried m body read failed fresh marshalled (
                          Adds-trans l [] _ [] _ _ _ _ before
                            (Adds-trans l [] _ _ [] _ _ _ added (broker.ack_adds msg _))))
                  | unsent told added ↦
                      rw (on_failure, told)
                        (put_back m read failed (
                          Adds-trans l [] _ [] [] _ _ _ before
                            (Adds-trans l [] _ [] [] _ _ _ added (broker.nack_adds msg true _))))
                ])
      ]

  conclude-Outcome :
      (seen : PaymentCompletedMessage → Option (Option Error)) (msg : Delivery)
      (m : PaymentCompletedMessage) (w : W) (r : Option (Option Error) × W)
      → json.unmarshal msg.body ≡ ok m
      → seen m ≡ r.0
      → Adds l [] [] w r.1
      → Outcome json l seen msg w (conclude channel json handler race msg m r)
  unfolding conclude
  conclude-Outcome seen msg m w (some none, w1) read is_seen before =
      handled m read is_seen (Adds-trans l [] _ [] [] _ _ _ before (broker.ack_adds msg w1))
  conclude-Outcome seen msg m w (some (some e), w1) read is_seen before =
      on_failure-Outcome seen msg m w w1 read (rw is_seen (ground arith)) before
  conclude-Outcome seen msg m w (none, w1) read is_seen before =
      on_failure-Outcome seen msg m w w1 read (rw is_seen (ground arith)) before

  -- For a broker that records answers and accepted messages, handleMessage answers its
  -- delivery exactly once. It rejects what does not parse and acknowledges what the handler
  -- accepted in time, sending nothing. After a failure or a timeout it acknowledges only if
  -- the same message was accepted again, under the retry key with the count plus one below
  -- three retries, under the dead-letter key from three on; else it puts the delivery back
  -- into the queue and has sent nothing.
  pub handle_message-Outcome :
      (msg : Delivery) (w : W)
      → Outcome json l
          (λ m. (race (dispatch channel json handler race m) w).0)
          msg
          w
          (handle_message channel json handler race msg w)
  unfolding handle_message
  handle_message-Outcome msg w = elim (Result-cases (json.unmarshal msg.body)) [
    | inl (e, failed) ↦
        rw (failed, handle_message) (unreadable e failed (broker.nack_adds msg false w))
    | inr (m, read) ↦
        rw (read, handle_message)
          (conclude-Outcome (λ m'. (race (dispatch channel json handler race m') w).0) msg m w _
            read refl (broker.race_adds _ (dispatch-Adds m) w))
  ]
