-- ===== src/Domain/Order.antt =====
-- internal/domain/order.go. `time.Time` is a number, the nanoseconds since Go's zero time;
-- `time.Now` is a clock that reads, and may advance, the state that it is run on.
use ec_order_state_service.Prelude.{ℕ, ◌≡◌, String, true, false, Option, none, some, if◌then◌else◌}
use ec_order_state_service.Domain.Status.{OrderStatus, can_transition_to}
use ec_order_state_service.Domain.Failure.{Error, invalid_status_transition}

abbrev pub Time : Type 0
Time = ℕ

-- time.Now()
abbrev pub Clock : Type 0 → Type 0
Clock W = W → Time × W

pub record Order : Type 0 where
  pub id : String
  pub status : OrderStatus
  pub created_at : Time
  pub updated_at : Time

-- The method writes its receiver, so the order comes back with the error.
unfoldable pub update_status :
    {W : Type 0} → Clock W → OrderStatus → Order → W → (Option Error × Order) × W
update_status now new_status o w =
    if can_transition_to o.status new_status
    then (let (t, w') = now w in ((none, record o { status = new_status; updated_at = t }), w'))
    else (
      (
        some
            (invalid_status_transition (record { from_status = o.status; to_status = new_status })),
        o,
      ),
      w,
    )

module _ {W : Type 0} (now : Clock W) (to : OrderStatus) (o : Order) (w : W) where
  pub update_status_allowed :
      can_transition_to o.status to ≡ true
      → update_status now to o w
        ≡ ((none, record o { status = to; updated_at = (now w).0 }), (now w).1)
  unfolding update_status
  update_status_allowed good = rw good

  pub update_status_refused :
      can_transition_to o.status to ≡ false
      → update_status now to o w ≡ (
        (some (invalid_status_transition (record { from_status = o.status; to_status = to })), o),
        w,
      )
  unfolding update_status
  update_status_refused bad = rw bad
