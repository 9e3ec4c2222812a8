-- ===== src/Rabbitmq/Topology/Routes.antt =====
-- pkg/rabbitmq: which queues the declared bindings lead to.
use mathlib.Core.Option.{none-ne-some}
use mathlib.Core.List.{append-nil, append_assoc}
use ec_order_state_service.Prelude.{
  ◌≡◌, refl, sym, ◌∙◌, Bool-cases, ◌==◌, ◌&&◌, String, none, List, [], ◌∷◌, ◌++◌, map, inl, inr,
  Option-cases, if◌then◌else◌,
}
use ec_order_state_service.Prelude.Int.{ℤ}
use ec_order_state_service.Rabbitmq.Amqp.{
  Call, exchange_declare, queue_declare, queue_bind, qos, Client,
}
use ec_order_state_service.Rabbitmq.Consumer.{exchange, routing_key, dlq_routing_key}
use ec_order_state_service.Rabbitmq.Topology.{declare_all, setup_channel, setup_channel_calls}

-- The queues that a direct exchange passes a message with a routing key on to.
abbrev pub routes : List Call → String → String → List String
routes [] from_exchange key = []
routes (queue_bind name k x _ _ ∷ calls) from_exchange key =
    if x == from_exchange && k == key
    then name ∷ routes calls from_exchange key
    else routes calls from_exchange key
routes (_ ∷ calls) from_exchange key = routes calls from_exchange key

routes-append :
    (calls more : List Call) (x k : String)
    → routes (calls ++ more) x k ≡ routes calls x k ++ routes more x k
routes-append [] more x k = refl
routes-append (exchange_declare _ _ _ _ _ _ _ ∷ calls) more x k = routes-append calls more x k
routes-append (queue_declare _ _ _ _ _ _ ∷ calls) more x k = routes-append calls more x k
routes-append (qos _ _ _ ∷ calls) more x k = routes-append calls more x k
routes-append (queue_bind name k' x' _ _ ∷ calls) more x k =
    elim (Bool-cases (x' == x && k' == k)) [
      | inl own ↦ rw own (λ i. name ∷ routes-append calls more x k i)
      | inr other ↦ rw other (routes-append calls more x k)
    ]

module _ {W C : Type 0} (client : Client W C) (declared : W → List Call)
    (call_adds : (channel : C) (call : Call) (w : W)
      → (client.call channel call w).0 ≡ none
      → declared (client.call channel call w).1 ≡ declared w ++ (call ∷ [])) where
  declare_all-adds :
      (channel : C) (calls : List (String × Call)) (w : W)
      → (declare_all client channel calls w).0 ≡ none
      → declared (declare_all client channel calls w).1 ≡ declared w ++ map (λ c. c.1) calls
  unfolding declare_all
  declare_all-adds channel [] w done = sym (append-nil _)
  declare_all-adds channel ((t, call) ∷ calls) w done =
      elim (Option-cases (client.call channel call w).0) [
        | inl good ↦
            let rest = rw (good, declare_all) at done in
            rw (good, declare_all)
              (declare_all-adds channel calls (client.call channel call w).1 rest
                ∙ rw (call_adds channel call w good) (append_assoc _ (call ∷ []) _))
        | inr (e, failed) ↦ absurd (none-ne-some _ (sym (rw (failed, declare_all) at done)))
      ]

  setup_channel-at :
      (prefetch_count : ℤ) (channel : C) (w : W)
      → (setup_channel client prefetch_count channel w).0 ≡ none
      → (x k : String)
      → routes (declared (setup_channel client prefetch_count channel w).1) x k
        ≡ routes (declared w) x k
          ++ routes (map (λ c. c.1) (setup_channel_calls prefetch_count)) x k
  unfolding setup_channel
  setup_channel-at prefetch_count channel w done x k =
      rw (declare_all-adds channel (setup_channel_calls prefetch_count) w done)
        (routes-append (declared w) _ x k)

  -- If setupChannel returns nil, the bindings declared so far, read as those of direct
  -- exchanges, have gained exactly one queue for each of three destinations:
  -- order_state_queue for the key under which the consumer publishes a retry,
  -- order_state_queue_dlq for the key under which it gives a message up, and
  -- order_state_queue.dlq for the dead-letter exchange and key.
  pub setup_channel-routes :
      (prefetch_count : ℤ) (channel : C) (w : W)
      → (setup_channel client prefetch_count channel w).0 ≡ none
      → (routes (declared (setup_channel client prefetch_count channel w).1) exchange routing_key
          ≡ routes (declared w) exchange routing_key ++ ("order_state_queue" ∷ []))
        × (routes
              (declared (setup_channel client prefetch_count channel w).1)
              exchange
              dlq_routing_key
            ≡ routes (declared w) exchange dlq_routing_key ++ ("order_state_queue_dlq" ∷ []))
        × (routes
              (declared (setup_channel client prefetch_count channel w).1)
              "dead.letter.exchange"
              "order.state.dlq"
            ≡ routes (declared w) "dead.letter.exchange" "order.state.dlq"
              ++ ("order_state_queue.dlq" ∷ []))
  unfolding setup_channel setup_channel_calls
  setup_channel-routes prefetch_count channel w done =
      let at_key = setup_channel-at prefetch_count channel w done in
      (
        at_key exchange routing_key,
        at_key exchange dlq_routing_key,
        at_key "dead.letter.exchange" "order.state.dlq",
      )
