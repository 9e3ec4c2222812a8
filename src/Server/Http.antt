-- ===== src/Server/Http.antt =====
-- cmd/server/main.go: the two HTTP endpoints. A response is its code and a JSON object of texts.
-- `bind` is gin's ShouldBindJSON on the request's struct, with its one field; the printed lines are
-- left out.
pub mod Laws
use ec_order_state_service.Prelude.{ℕ, String, Option, none, some, List, [], ◌∷◌}
use ec_order_state_service.Prelude.Dict.{Dict}
use ec_order_state_service.Domain.Status.{OrderStatus}
use ec_order_state_service.Domain.Failure.{Error, error_text, Result, ok, err}
use ec_order_state_service.Service.Deps.{OrderStateService}
use ec_order_state_service.Service.Core.{update_order_status}

pub record Response : Type 0 where
  pub code : ℕ
  pub body : Dict String

-- GET /health
abbrev pub health : Response
health = record { code = 200; body = ("status", "ok") ∷ ("service", "order-state-service") ∷ [] }

-- The three answers of PUT /orders/:orderId/status.
unfoldable pub bad_request : String → Error → Response
unfolding error_text
bad_request order_id e = record {
  code = 400;
  body = ("error", error_text e) ∷ ("orderId", order_id) ∷ [];
}

unfoldable pub not_updated : String → OrderStatus → Error → Response
unfolding error_text
not_updated order_id status e = record {
  code = 400;
  body = ("error", error_text e) ∷ ("orderId", order_id) ∷ ("status", status) ∷ [];
}

unfoldable pub updated : String → OrderStatus → Response
updated order_id status = record {
  code = 200;
  body = ("orderId", order_id) ∷ ("status", status) ∷ ("message", "狀態更新成功") ∷ [];
}

module _ {W : Type 0} (s : OrderStateService W) where
  -- What follows UpdateOrderStatus: on both branches the time that it took is read off the clock.
  abbrev pub respond : String → OrderStatus → Option Error × W → Response × W
  respond order_id status (none, w) = (updated order_id status, (s.clock w).1)
  respond order_id status (some e, w) = (not_updated order_id status e, (s.clock w).1)

  abbrev pub with_request : String → Result OrderStatus → W → Response × W
  with_request order_id (err e) w = (bad_request order_id e, w)
  with_request order_id (ok status) w =
      respond order_id status (update_order_status s order_id status w)

  -- PUT /orders/:orderId/status, with the text of the request's body.
  unfoldable pub put_order_status :
      (String → Result OrderStatus) → String → String → W → Response × W
  unfolding update_order_status bad_request not_updated updated
  put_order_status bind order_id text w =
      let (start_time, w') = s.clock w in with_request order_id (bind text) w'
