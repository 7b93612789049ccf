-- ===== src/Payments/Qr.antt =====
-- apps/api/src/ticket-design/ticket-design.service.ts: the token of a ticket's QR code.
-- Signing and verifying are those of the package jsonwebtoken; QR_SECRET is set.
use fluid_events.Prelude.{ℕ, ◌+◌, ◌-◌, ◌*◌, ◌/◌, ◌≤◌, max, ◌≡◌, ◌⊎◌, arith, Option, none, some}
use fluid_events.Payments.{Key, Time}

abbrev pub qr_grace_seconds : ℕ
qr_grace_seconds = 24 * 60 * 60

abbrev pub qr_min_seconds : ℕ
qr_min_seconds = 3600

-- Instants in seconds.
pub record QrPayload : Type 0 where
  pub oid : Key
  pub eid : Key
  pub tid : Key
  pub iat : ℕ
  pub exp : ℕ

-- `Math.max` against a positive number hides that the subtraction stops at zero.
unfoldable pub qr_payload : Time → Key → Key → Key → Time → QrPayload
qr_payload now order_item event ticket event_end =
    let issued = now / 1000 in
    let expires_in = max (event_end / 1000 + qr_grace_seconds - issued) qr_min_seconds in
    record { oid = order_item; eid = event; tid = ticket; iat = issued; exp = issued + expires_in }

unfoldable pub generate_qr_token : (QrPayload → Key) → Time → Key → Key → Key → Time → Key
generate_qr_token sign now order_item event ticket event_end =
    sign (qr_payload now order_item event ticket event_end)

-- Why a token is refused.
pub data QrReason : Type 0 where
  expired invalid : QrReason

pub data QrVerification : Type 0 where
  authentic : QrPayload → QrVerification
  refused : QrReason → QrVerification

-- What `jwt.verify` answers: a payload, a `TokenExpiredError` or another error.
pub data JwtAnswer : Type 0 where
  decoded : QrPayload → JwtAnswer
  token_expired other_error : JwtAnswer

abbrev of_answer : JwtAnswer → QrVerification
of_answer (decoded p) = authentic p
of_answer token_expired = refused expired
of_answer other_error = refused invalid

-- An empty token is `none`.
unfoldable pub verify_qr_token : (Key → JwtAnswer) → Option Key → QrVerification
verify_qr_token verify none = refused invalid
verify_qr_token verify (some token) = of_answer (verify token)

-- A ticket's token lasts at least one hour and until a day after the event's end, and no longer than
-- the later of the two.
pub qr_payload_exp :
    (now : Time) (order_item event ticket : Key) (event_end : Time)
    → let p = qr_payload now order_item event ticket event_end in
      (p.iat + qr_min_seconds ≤ p.exp)
      × (event_end / 1000 + qr_grace_seconds ≤ p.exp)
      × ((p.exp ≡ p.iat + qr_min_seconds) ⊎ (p.exp ≡ event_end / 1000 + qr_grace_seconds))
unfolding qr_payload
qr_payload_exp now order_item event ticket event_end = (omega arith, omega arith, omega arith)
