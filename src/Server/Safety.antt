-- ===== src/Server/Safety.antt =====
-- cmd/server/main.go: the parts that `main` puts together, one activity after the other on the same
-- state: HTTP requests, deliveries of payment messages, ticks of the scheduler.
use ec_order_state_service.Prelude.{
  refl, String, ◌==◌, Bool, true, false, Option, none, some, inl, inr, Bool-cases,
}
use ec_order_state_service.Prelude.Int.{pos, leb_ℤ}
use ec_order_state_service.Domain.Failure.{Error, Result-cases}
use ec_order_state_service.Service.Contract.{Meaning, Quiet, ◌⨟◌}
use ec_order_state_service.Service.Progress.{Progress, Progress-trans, Quiet-Progress}
use ec_order_state_service.Rabbitmq.Amqp.{Publishing, Delivery, Channel, Codec}
use ec_order_state_service.Rabbitmq.Consumer.{
  PaymentCompletedMessage, get_retry_count, try_publish, republish_with_retry_count, send_to_dlq,
  ack_if, dispatch, on_failure, conclude, handle_message,
}

-- The calls on the channel change no order, and a goroutine beside a time-out does what it does
-- alone, or less.
pub record IsAside {W : Type 0} (channel : Channel W)
    (race : (W → Option Error × W) → W → Option (Option Error) × W) (m : Meaning W) : Type 0 where
  pub is_closed_keeps : (w : W) → Quiet m w (channel.is_closed w).1
  pub publish_keeps :
      (exchange key : String) (p : Publishing) (w : W)
      → Quiet m w (channel.publish exchange key p w).1
  pub ack_keeps : (msg : Delivery) (w : W) → Quiet m w (channel.ack msg w)
  pub nack_keeps : (msg : Delivery) (again : Bool) (w : W) → Quiet m w (channel.nack msg again w)
  pub race_keeps :
      (f : W → Option Error × W) (w : W)
      → m.Valid w
      → ((v : W) → m.Valid v → Progress m v (f v).1)
      → Progress m w (race f w).1

module _ {W : Type 0} (channel : Channel W) (json : Codec PaymentCompletedMessage)
    (handler : PaymentCompletedMessage → W → Option Error × W)
    (race : (W → Option Error × W) → W → Option (Option Error) × W) (m : Meaning W)
    (A : IsAside channel race m)
    (H : (msg : PaymentCompletedMessage) (w : W) → m.Valid w → Progress m w (handler msg w).1) where
  nothing : (w : W) → Quiet m w w
  nothing w = record { sees = refl; stays = λ h. h }

  try_publish-keeps :
      (key : String) (publishing : String → Publishing) (message : PaymentCompletedMessage) (w : W)
      → Quiet m w (try_publish channel json handler race key publishing message w).1
  unfolding try_publish
  try_publish-keeps key publishing message w = elim (Bool-cases (channel.is_nil w)) [
    | inl missing ↦ rw (try_publish, missing) (nothing w)
    | inr present ↦ elim (Bool-cases (channel.is_closed w).0) [
      | inl closed ↦ rw (try_publish, present, closed) (A.is_closed_keeps w)
      | inr ready ↦ elim (Result-cases (json.marshal message)) [
        | inl (e, bad) ↦ rw (try_publish, present, ready, bad) (A.is_closed_keeps w)
        | inr (body, good) ↦
            rw (try_publish, present, ready, good)
              (A.publish_keeps _ key (publishing body) _ ⨟ A.is_closed_keeps w)
      ]
    ]
  ]

  ack_if-keeps :
      (msg : Delivery) (u : W) (r : Bool × W)
      → Quiet m u r.1
      → Quiet m u (ack_if channel json handler race msg r)
  ack_if-keeps msg u (true, w) q = A.ack_keeps msg w ⨟ q
  ack_if-keeps msg u (false, w) q = A.nack_keeps msg true w ⨟ q

  on_failure-keeps :
      (msg : Delivery) (message : PaymentCompletedMessage) (w : W)
      → Quiet m w (on_failure channel json handler race msg message w)
  unfolding on_failure send_to_dlq republish_with_retry_count
  on_failure-keeps msg message w = elim (Bool-cases (leb_ℤ (pos 3) (get_retry_count msg))) [
    | inl many ↦ rw (on_failure, many) (ack_if-keeps msg w _ (try_publish-keeps _ _ message w))
    | inr few ↦ rw (on_failure, few) (ack_if-keeps msg w _ (try_publish-keeps _ _ message w))
  ]

  dispatch-Progress :
      (message : PaymentCompletedMessage) (w : W)
      → m.Valid w
      → Progress m w (dispatch channel json handler race message w).1
  unfolding dispatch
  dispatch-Progress message w valid = elim (Bool-cases (message.event_type == "PaymentCompleted")) [
    | inl known ↦ rw (dispatch, known) (H message w valid)
    | inr unknown ↦ rw (dispatch, unknown) (Quiet-Progress (nothing w))
  ]

  conclude-Progress :
      (msg : Delivery) (message : PaymentCompletedMessage) (u : W) (r : Option (Option Error) × W)
      → Progress m u r.1
      → Progress m u (conclude channel json handler race msg message r)
  unfolding conclude
  conclude-Progress msg message u (some none, w) p =
      Progress-trans p (Quiet-Progress (A.ack_keeps msg w))
  conclude-Progress msg message u (some (some e), w) p =
      Progress-trans p (Quiet-Progress (on_failure-keeps msg message w))
  conclude-Progress msg message u (none, w) p =
      Progress-trans p (Quiet-Progress (on_failure-keeps msg message w))

  pub handle_message-Progress :
      (msg : Delivery) (w : W)
      → m.Valid w
      → Progress m w (handle_message channel json handler race msg w)
  unfolding handle_message
  handle_message-Progress msg w valid = elim (Result-cases (json.unmarshal msg.body)) [
    | inl (e, bad) ↦ rw (bad, handle_message) (Quiet-Progress (A.nack_keeps msg false w))
    | inr (message, good) ↦
        rw (good, handle_message)
          (conclude-Progress msg message w _ (
            A.race_keeps (dispatch channel json handler race message) w valid
              (dispatch-Progress message)))
  ]
