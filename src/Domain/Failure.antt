-- ===== src/Domain/Failure.antt =====
-- Go's `error` values as far as the program makes or inspects them: its two error types
-- (internal/domain/order.go, internal/repository/order_repository.go), `fmt.Errorf` with and
-- without `%w`, and the errors of the libraries that it calls, of which it reads the text only and
-- tells `pgx.ErrNoRows` apart.
use ec_order_state_service.Prelude.{String, ◌<>◌, Option, none, some, ◌≡◌, refl, ◌⊎◌, inl, inr}
use ec_order_state_service.Domain.Status.{OrderStatus}

pub record ErrInvalidStatusTransition : Type 0 where
  pub from_status : OrderStatus
  pub to_status : OrderStatus

pub record ErrOrderNotFound : Type 0 where
  pub order_id : String

pub data Error : Type 0 where
  invalid_status_transition : ErrInvalidStatusTransition → Error
  order_not_found : ErrOrderNotFound → Error
  no_rows : Error  -- pgx.ErrNoRows
  plain : String → Error  -- an error of which only the text is known
  wrapped : String → Error → Error  -- fmt.Errorf("text: %w", err)
  wrapped_nil : String → Error  -- the same where `err` is nil

-- ErrInvalidStatusTransition.Error
invalid_status_transition_text : ErrInvalidStatusTransition → String
invalid_status_transition_text e =
    "invalid status transition: cannot transition from "
    <> (e.from_status <> (" to " <> e.to_status))

-- ErrOrderNotFound.Error
order_not_found_text : ErrOrderNotFound → String
order_not_found_text e = "order not found: " <> e.order_id

-- err.Error()
unfoldable pub error_text : Error → String
unfolding invalid_status_transition_text order_not_found_text
error_text (invalid_status_transition e) = invalid_status_transition_text e
error_text (order_not_found e) = order_not_found_text e
error_text no_rows = "no rows in result set"
error_text (plain text) = text
error_text (wrapped text e) = text <> (": " <> error_text e)
error_text (wrapped_nil text) = text <> ": %!w(<nil>)"

-- errors.As(err, &notFoundErr): the first ErrOrderNotFound on the chain of wrapped errors.
abbrev pub as_not_found : Error → Option ErrOrderNotFound
as_not_found (order_not_found e) = some e
as_not_found (wrapped _ e) = as_not_found e
as_not_found _ = none

-- A call that returns `(value, error)`, of which the program uses the value only if the error is
-- nil.
pub data Result {ℓ} (A : Type ℓ) : Type ℓ where
  ok : A → Result A
  err : Error → Result A

pub Result-cases {ℓ} :
    {A : Type ℓ} (r : Result A) → ((e : Error) × (r ≡ err e)) ⊎ ((a : A) × (r ≡ ok a))
Result-cases (ok a) = inr (a, refl)
Result-cases (err e) = inl (e, refl)
