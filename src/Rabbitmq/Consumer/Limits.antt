-- ===== src/Rabbitmq/Consumer/Limits.antt =====
-- pkg/rabbitmq/order_state_consumer.go: the limit of three retries, for headers as they come from
-- the broker.
use mathlib.Core.List.{append-nil}
use ec_order_state_service.Prelude.{
  ◌≡◌, ◌≢◌, ◌⊎◌, refl, ap, ◌∙◌, String, Option, none, some, [], ◌∷◌, ◌++◌, inl, inr, Option-cases,
  arith,
}
use ec_order_state_service.Prelude.Int.{ℤ, pos, int64_sum}
use ec_order_state_service.Prelude.Dict.{lookup}
use ec_order_state_service.Domain.Failure.{Error}
use ec_order_state_service.Rabbitmq.Amqp.{Field, int, Table, Delivery, Channel, Codec}
use ec_order_state_service.Rabbitmq.Consumer.{
  PaymentCompletedMessage, get_retry_count, as_int, exchange, routing_key, retry_publishing,
  handle_message,
}
use ec_order_state_service.Rabbitmq.Consumer.Ledger.{Ledger, IsBroker}
use ec_order_state_service.Rabbitmq.Consumer.Outcome.{
  unreadable, handled, retried, buried, put_back, handle_message-Outcome,
}

-- No header of a delivery is a Go `int`: the library's reader makes none of what the wire holds.
abbrev pub HasNoInt : Delivery → Type 0
HasNoInt msg =
    (headers : Table) (name : String) (n : ℤ)
    → msg.headers ≡ some headers
    → lookup name headers ≢ some (int n)

no_int-count : (f : Field) → ((n : ℤ) → f ≢ int n) → as_int f ≡ none
no_int-count (int n) h = absurd (h n refl)
no_int-count (Field.int32 n) h = refl
no_int-count (Field.text s) h = refl
no_int-count Field.other h = refl

get_retry_count-zero : (msg : Delivery) → HasNoInt msg → get_retry_count msg ≡ pos 0
unfolding get_retry_count
get_retry_count-zero msg none_int = elim (Option-cases msg.headers) [
  | inl nil ↦ rw nil
  | inr (headers, there) ↦ elim (Option-cases (lookup "x-retry-count" headers)) [
    | inl absent ↦ rw (there, get_retry_count, absent)
    | inr (field, found) ↦ rw (
      there,
      get_retry_count,
      found,
      no_int-count field λ n e. none_int headers "x-retry-count" n there (rw found (ap some e)),
    )
  ]
]

module _ {W : Type 0} (channel : Channel W) (json : Codec PaymentCompletedMessage)
    (handler : PaymentCompletedMessage → W → Option Error × W)
    (race : (W → Option Error × W) → W → Option (Option Error) × W) (l : Ledger W)
    (broker : IsBroker channel handler race l) where
  -- If no header of a delivery has the Go type int, handleMessage either sends nothing or
  -- publishes the message again under the retry key with the count 1, whatever the count in
  -- the header: it never sends it to the dead-letter key.
  pub handle_message-never_buried :
      (msg : Delivery) (w : W)
      → HasNoInt msg
      → (l.taken (handle_message channel json handler race msg w) ≡ l.taken w)
        ⊎ ((body : String) × (l.taken (handle_message channel json handler race msg w)
              ≡ l.taken w ++ ((exchange, routing_key, retry_publishing body (pos 1)) ∷ [])))
  handle_message-never_buried msg w none_int =
      let zero_count = get_retry_count-zero msg none_int in
      elim (handle_message-Outcome channel json handler race l broker msg w) [
        | unreadable e _ a ↦ inl (a.took ∙ append-nil _)
        | handled m _ _ a ↦ inl (a.took ∙ append-nil _)
        | put_back m _ _ a ↦ inl (a.took ∙ append-nil _)
        | retried m body _ _ _ _ a ↦
            inr (body, a.took ∙ rw (zero_count, int64_sum 0 1 (ground arith)))
        | buried m body _ _ worn _ a ↦ absurd (ground (arith, rw zero_count at worn))
      ]
