-- ===== src/Rabbitmq/Consumer/Ledger.antt =====
-- What a broker keeps of a consumer's answers and messages, and what the calls of the client add.
use mathlib.Core.List.{append_assoc}
use ec_order_state_service.Prelude.{
  ◌≡◌, String, Bool, true, false, Option, none, some, List, [], ◌∷◌, ◌++◌,
}
use ec_order_state_service.Domain.Failure.{Error}
use ec_order_state_service.Rabbitmq.Amqp.{Publishing, Delivery, Channel}
use ec_order_state_service.Rabbitmq.Consumer.{PaymentCompletedMessage}

-- An answer to a delivery.
pub data Settlement : Type 0 where
  acked : Settlement
  rejected : Settlement  -- dead-lettered by the broker
  requeued : Settlement

-- What is sent: the exchange, the routing key, the message.
abbrev pub Sent : Type 0
Sent = String × String × Publishing

-- The answers given and the messages that the broker took, oldest first.
pub record Ledger (W : Type 0) : Type 0 where
  pub answers : W → List (Delivery × Settlement)
  pub taken : W → List Sent

abbrev pub nacked : Bool → Settlement
nacked true = requeued
nacked false = rejected

-- From `w` to `w'`, `answers` and `taken` have come to the end of the ledger.
pub record Adds {W : Type 0} (l : Ledger W) (answers : List (Delivery × Settlement))
    (taken : List Sent) (w w' : W) : Type 0 where
  pub answered : l.answers w' ≡ l.answers w ++ answers
  pub took : l.taken w' ≡ l.taken w ++ taken

pub Adds-trans :
    {W : Type 0} (l : Ledger W) (a a' : List (Delivery × Settlement)) (t t' : List Sent)
    (w w1 w2 : W)
    → Adds l a t w w1
    → Adds l a' t' w1 w2
    → Adds l (a ++ a') (t ++ t') w w2
Adds-trans l a a' t t' w w1 w2 first second = record {
  answered = rw (second.answered, first.answered) (append_assoc _ a a');
  took = rw (second.took, first.took) (append_assoc _ t t');
}

module _ {W : Type 0} (channel : Channel W)
    (handler : PaymentCompletedMessage → W → Option Error × W)
    (race : (W → Option Error × W) → W → Option (Option Error) × W) (l : Ledger W) where
  -- What the client library and the handler do to the ledger. A message that the broker refuses is
  -- not taken; the handler answers no delivery and uses no consumer's channel.
  pub record IsBroker : Type 0 where
    pub ack_adds : (d : Delivery) (w : W) → Adds l ((d, acked) ∷ []) [] w (channel.ack d w)
    pub nack_adds :
        (d : Delivery) (again : Bool) (w : W)
        → Adds l ((d, nacked again) ∷ []) [] w (channel.nack d again w)
    pub is_closed_adds : (w : W) → Adds l [] [] w (channel.is_closed w).1
    pub publish_adds :
        (x key : String) (p : Publishing) (w : W)
        → (channel.publish x key p w).0 ≡ none
        → Adds l [] ((x, key, p) ∷ []) w (channel.publish x key p w).1
    pub publish_refused :
        (x key : String) (p : Publishing) (w : W) (e : Error)
        → (channel.publish x key p w).0 ≡ some e
        → Adds l [] [] w (channel.publish x key p w).1
    pub handler_adds : (m : PaymentCompletedMessage) (w : W) → Adds l [] [] w (handler m w).1
    pub race_adds :
        (f : W → Option Error × W)
        → ((w : W) → Adds l [] [] w (f w).1)
        → (w : W) → Adds l [] [] w (race f w).1
