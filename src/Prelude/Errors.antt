-- ===== src/Prelude/Errors.antt =====
-- The exceptions of the API (`packages/types/src/index.ts`, `ErrorCodes`) as values.
-- The codes are those that the modelled services throw.
use mathlib.Core.Bool.{Bool, true, false}
use mathlib.Core.Path.{◌≡◌, refl}
use mathlib.Core.Logic.{◌⊎◌, inl, inr}
use native.Mathlib.Omega.{arith}
use mathlib.Core.Option.{Option, none, some}

pub data ErrorCode : Type 0 where
  ticket_not_found : ErrorCode
  cart_multiple_events : ErrorCode
  event_not_active : ErrorCode
  ticket_on_request_only : ErrorCode
  ticket_sale_not_started : ErrorCode
  ticket_sale_ended : ErrorCode
  ticket_max_per_order_exceeded : ErrorCode
  ticket_sold_out : ErrorCode
  provider_not_active : ErrorCode
  stock_race_condition : ErrorCode
  payment_init_failed : ErrorCode
  webhook_signature_invalid : ErrorCode
  internal_error : ErrorCode
  event_not_found : ErrorCode
  event_selection_required : ErrorCode
  event_quota_reached : ErrorCode
  event_access_mode_locked : ErrorCode
  scanner_quota_exceeded : ErrorCode
  email_already_exists : ErrorCode
  user_not_found : ErrorCode
  scanner_not_found : ErrorCode
  scanner_promotion_invalid : ErrorCode
  forbidden : ErrorCode
  unauthorized : ErrorCode
  account_disabled : ErrorCode
  session_revoked : ErrorCode
  invite_token_invalid : ErrorCode
  invite_token_expired : ErrorCode
  validation_error : ErrorCode
  already_registered : ErrorCode
  registration_not_found : ErrorCode
  design_image_format_invalid : ErrorCode
  design_image_too_large : ErrorCode
  provider_execution_not_supported : ErrorCode
  event_capacity_exceeded : ErrorCode
  ticket_day_invalid : ErrorCode
  design_image_url_invalid : ErrorCode
  ticket_max_per_order_locked : ErrorCode
  ticket_has_orders : ErrorCode
  premium_required : ErrorCode
  event_days_invalid : ErrorCode
  ticket_policy_locked : ErrorCode
  auth_required_to_purchase : ErrorCode
  builder_schema_invalid : ErrorCode
  builder_conflict : ErrorCode
  scanner_not_active : ErrorCode
  token_expired : ErrorCode
  phone_invalid : ErrorCode
  phone_verification_unavailable : ErrorCode
  phone_verification_code_invalid : ErrorCode
  phone_verification_code_expired : ErrorCode
  not_impersonating : ErrorCode

-- What a call ends in: the exception's code, or its value.
pub data Result {ℓ} (Value : Type ℓ) : Type ℓ where
  thrown : ErrorCode → Result Value
  ok : Value → Result Value

-- An exception ends the calls that follow.
abbrev pub ◌>>=◌ {ℓ₁ ℓ₂} : {X : Type ℓ₁} {Y : Type ℓ₂} → Result X → (next : X → Result Y) → Result Y
thrown code >>= next = thrown code
ok x >>= next = next x

infixl 5 ◌>>=◌
abbrev pub ◌>>◌ {ℓ₂} : {Y : Type ℓ₂} → Result (Unit {0}) → (rest : Result Y) → Result Y
check >> rest = check >>= λ _. rest

infixl 5 ◌>>◌
-- A guard that throws, and a value that must be there.
abbrev pub refuse_if : Bool → ErrorCode → Result (Unit {0})
refuse_if true e = thrown e
refuse_if false e = ok tt

abbrev pub or_fail {ℓ} : {A : Type ℓ} → Option A → ErrorCode → Result A
or_fail none e = thrown e
or_fail (some a) e = ok a

pub refuse_if-eq-ok : (b : Bool) (e : ErrorCode) {u : Unit {0}} → refuse_if b e ≡ ok u → b ≡ false
refuse_if-eq-ok true e h = ground arith
refuse_if-eq-ok false e h = refl

-- Inversion of the first step of a chain.
pub >>=-eq-ok {ℓ₁ ℓ₂} :
    {X : Type ℓ₁} {Y : Type ℓ₂} (call : Result X) (next : X → Result Y) {y : Y}
    → (call >>= next) ≡ ok y
    → (x : X) × (call ≡ ok x) × (next x ≡ ok y)
>>=-eq-ok (thrown code) next returns = cc
>>=-eq-ok (ok x) next returns = (x, refl, returns)

pub or_fail-eq-ok {ℓ} :
    {A : Type ℓ} (o : Option A) (e : ErrorCode) {a : A} → or_fail o e ≡ ok a → o ≡ some a
or_fail-eq-ok none e h = cc
or_fail-eq-ok (some a) e h = cc

-- Inversion of a value that must be there.
pub or_fail->>=-eq-ok {ℓ₁ ℓ₂} :
    {X : Type ℓ₁} {Y : Type ℓ₂} (o : Option X) (e : ErrorCode) (next : X → Result Y) {y : Y}
    → (or_fail o e >>= next) ≡ ok y
    → (x : X) × (o ≡ some x) × (next x ≡ ok y)
or_fail->>=-eq-ok none e next h = cc
or_fail->>=-eq-ok (some x) e next h = (x, refl, h)

-- To split on the outcome of a call and keep the equation.
pub Result-cases {ℓ} :
    {A : Type ℓ} (r : Result A) → ((e : ErrorCode) × (r ≡ thrown e)) ⊎ ((a : A) × (r ≡ ok a))
Result-cases (ok a) = inr (a, refl)
Result-cases (thrown e) = inl (e, refl)
