-- ===== src/Rabbitmq/Producer/Readiness.antt =====
-- pkg/rabbitmq/order_state_producer.go: the declarations on the channel that the producer keeps.
use ec_order_state_service.Prelude.{
  ◌≡◌, refl, String, Bool, true, none, some, inl, inr, Option-cases, arith,
}
use ec_order_state_service.Domain.Failure.{Error, Result, ok, err, Result-cases}
use ec_order_state_service.Rabbitmq.Amqp.{Publishing, Codec, Client}
use ec_order_state_service.Rabbitmq.Topology.{initialize_exchange_and_queue}
use ec_order_state_service.Rabbitmq.Producer.{
  OrderStateProducer, OrderStatusChangedMessage, usable_channel, initialize, get_or_create_channel,
  send, publish_on, order_state_exchange, order_state_routing_key, status_publishing,
  publish_order_status_changed,
}

module _ {W C : Type 0} (client : Client W C) (json : Codec OrderStatusChangedMessage)
    (Declared : C → W → Type 0) where
  -- `Declared c w`: the declarations have been made on `c`. What one made, no call takes back.
  pub record IsClient : Type 0 where
    pub initialized_declares :
        (c : C) (w : W)
        → (initialize_exchange_and_queue client c w).0 ≡ none
        → Declared c (initialize_exchange_and_queue client c w).1
    pub is_closed_keeps :
        (c d : C) (w : W) → Declared c w → Declared c (client.channel_is_closed d w).1
    pub close_keeps : (c d : C) (w : W) → Declared c w → Declared c (client.close_channel d w).1
    pub publish_keeps :
        (c d : C) (x key : String) (p : Publishing) (w : W)
        → Declared c w
        → Declared c (client.publish d x key p w).1

  -- The channel that an initialized producer holds, when it holds one.
  pub record IsReady (p : OrderStateProducer C) (w : W) : Type 0 where
    pub declared : (c : C) → p.channel ≡ some c → p.initialized ≡ true → Declared c w

  -- What getOrCreateChannel returns and leaves is fit for publishing.
  pub record Fit (r : (Result C × OrderStateProducer C) × W) : Type 0 where
    pub keeps : IsReady r.0.1 r.1
    pub gives : (c : C) → r.0.0 ≡ ok c → Declared c r.1

  module _ (lawful : IsClient) where
    failed-Fit :
        (e : Error) (was : Bool) (w : W)
        → Fit ((err e, record { channel = none; initialized = was }), w)
    failed-Fit e was w = record {
      keeps = record { declared = λ c held again. absurd (ground arith) };
      gives = λ c given. absurd (ground arith);
    }

    found-Fit :
        (c : C) (p : OrderStateProducer C) (w : W)
        → Declared c w
        → p.channel ≡ some c
        → Fit ((ok c, p), w)
    found-Fit c p w declared held = record {
      keeps = record {
        declared = λ d held' again. let same : c ≡ d = ground arith in rw (← same) declared;
      };
      gives = λ d given. let same : c ≡ d = ground arith in rw (← same) declared;
    }

    initialize-Fit : (was : Bool) (r : Result C × W) → Fit (initialize client json was r)
    unfolding initialize
    initialize-Fit was (err e, w) = failed-Fit _ was w
    initialize-Fit was (ok d, w) =
        elim (Option-cases (initialize_exchange_and_queue client d w).0) [
          | inl done ↦
              rw (done, initialize) (found-Fit d _ _ (lawful.initialized_declares d w done) refl)
          | inr (e, failed) ↦ rw (failed, initialize) (failed-Fit _ was _)
        ]

    usable_channel-keeps :
        (c : C) (p : OrderStateProducer C) (w : W)
        → Declared c w
        → Declared c (usable_channel client json p w).1
    unfolding usable_channel
    usable_channel-keeps c p w declared = elim (Option-cases p.channel) [
      | inl nil ↦ rw (nil, usable_channel) declared
      | inr (d, held) ↦ rw (held, usable_channel) (lawful.is_closed_keeps c d w declared)
    ]

    usable_channel-held :
        (c : C) (p : OrderStateProducer C) (w : W)
        → (usable_channel client json p w).0 ≡ some c
        → (p.channel ≡ some c) × (p.initialized ≡ true)
    unfolding usable_channel
    usable_channel-held c p w found = ground arith

    -- For a client whose calls undo no declaration: if the channel that an initialized
    -- producer holds, when it holds one, has its declarations made, then a channel that
    -- getOrCreateChannel returns has them made, and so has the channel that the
    -- initialized producer holds afterwards.
    pub get_or_create_channel-Fit :
        (p : OrderStateProducer C) (w : W)
        → IsReady p w
        → Fit (get_or_create_channel client json p w)
    unfolding get_or_create_channel
    get_or_create_channel-Fit p w ready =
        let w1 = (usable_channel client json p w).1 in
        elim (Option-cases (usable_channel client json p w).0) [
          | inr (c, found) ↦
              let held = usable_channel-held c p w found in
              rw (found, get_or_create_channel)
                (found-Fit c p w1 (usable_channel-keeps c p w (ready.declared c held.0 held.1))
                  held.0)
          | inl absent ↦ elim (Option-cases (usable_channel client json p w1).0) [
            | inr (c, found) ↦
                let held = usable_channel-held c p w1 found in
                rw (absent, get_or_create_channel, found)
                  (found-Fit c p _
                    (usable_channel-keeps c p w1
                      (usable_channel-keeps c p w (ready.declared c held.0 held.1)))
                    held.0)
            | inl absent' ↦
                rw (absent, get_or_create_channel, absent') (initialize-Fit p.initialized _)
          ]
        ]

    send-IsReady :
        (c : C) (body : String) (p : OrderStateProducer C) (w : W)
        → IsReady p w
        → IsReady (send client json c body p w).0.1 (send client json c body p w).1
    unfolding send
    send-IsReady c body p w ready =
        let x = order_state_exchange in
        let key = order_state_routing_key in
        let message = status_publishing body in
        elim (Option-cases (client.publish c x key message w).0) [
          | inl taken ↦
              rw (taken, send)
                (record {
                  declared = λ d held again.
                      lawful.publish_keeps d c x key message w (ready.declared d held again);
                })
          | inr (e, refused) ↦
              rw (refused, send) (record { declared = λ d held again. absurd (ground arith) })
        ]

    publish_on-IsReady :
        (m : OrderStatusChangedMessage) (r : (Result C × OrderStateProducer C) × W)
        → Fit r
        → IsReady (publish_on client json m r).0.1 (publish_on client json m r).1
    unfolding publish_on send
    publish_on-IsReady m ((err e, p), w) fit = fit.keeps
    publish_on-IsReady m ((ok c, p), w) fit = elim (Result-cases (json.marshal m)) [
      | inl (e, failed) ↦ rw (failed, publish_on) (fit.keeps)
      | inr (body, marshalled) ↦ rw (marshalled, publish_on) (send-IsReady c body p w fit.keeps)
    ]

    -- For a client whose calls undo no declaration, the producer's
    -- PublishOrderStatusChanged, whether or not it succeeds, keeps the invariant that the
    -- channel an initialized producer holds, when it holds one, has its declarations made.
    pub publish_order_status_changed-IsReady :
        (m : OrderStatusChangedMessage) (p : OrderStateProducer C) (w : W)
        → IsReady p w
        → IsReady
            (publish_order_status_changed client json m p w).0.1
            (publish_order_status_changed client json m p w).1
    unfolding publish_order_status_changed
    publish_order_status_changed-IsReady m p w ready =
        publish_on-IsReady m _ (get_or_create_channel-Fit p w ready)
