-- ===== src/Payments/Webhooks.antt =====
-- apps/api/src/payments/payments.service.ts: the webhooks of the five providers, with
-- webhook-idempotency.service.ts. The update of the client's profile is left out, and so is the raw
-- payload that is stored beside an order.
pub mod Handlers
pub mod Settled
pub mod Authentic
pub mod Closed
pub mod Delivered
use fluid_events.Prelude.{
  ℕ, ◌+◌, ◌==◌, if◌then◌else◌, Bool, true, false, not, ◌&&◌, ◌||◌, Option, none, some, List, [],
  ◌∷◌, ◌++◌, map, any, find, Result, ok, thrown, ErrorCode, String, str_eq,
}
use fluid_events.Payments.{
  Key, Time, Amount, Order, OrderItem, OrderStatus, pending, paid, failed, Provider, kkiapay,
  cinetpay, fedapay, stripe, paypal, provider_eq, ProviderConfig, Event, Db, Audit, Reason, log,
  find_config,
}
use fluid_events.Payments.Orders.{find_order, update_order, release_items, status_eq}
use fluid_events.Payments.Init.{as_failed}
use fluid_events.Payments.Qr.{QrPayload, generate_qr_token}
use fluid_events.Payments.Stripe.{StripeHeader, verifier_signature, vers_plus_petite_unite}

-- What a provider's API says of a transaction.
pub record Verification : Type 0 where
  pub status : String
  pub amount : Amount

-- Texts that may be missing or empty are `none` then.
pub record KkiapayWebhook : Type 0 where
  pub transaction_id : Option Key
  pub is_payment_succes : Bool
  pub partner_id : Option Key

-- `signed_fields` are the fields that `computeCinetPayHmac` concatenates.
pub record CinetPayNotification : Type 0 where
  pub cpm_trans_id : Option Key
  pub signed_fields : List Key

-- A body as it was received, and `object.id` if `JSON.parse` makes something of it.
pub record FedaPayBody : Type 0 where
  pub raw : Key
  pub json : Option (Option Key)

pub record StripeJson : Type 0 where
  pub type_of : String
  pub session_id : Option Key
  pub client_reference_id : Option Key
  pub amount_total : Option ℕ

pub record StripeBody : Type 0 where
  pub raw : Key
  pub json : Option StripeJson

pub record PayPalBody : Type 0 where
  pub event_type : String
  pub custom_id : Option Key
  pub unit_custom_id : Option Key
  pub id : Option Key
  pub amount : Option Amount
  pub unit_amount : Option Amount

-- What the code calls and this development does not define: Node's `crypto`, jsonwebtoken and the
-- APIs of the providers. `none` stands for an exception.
pub record Gateways : Type 0 where
  pub decrypt : Key → Key
  pub sign : QrPayload → Key
  pub hmac_fields : Key → List Key → Key
  pub hmac_body : Key → ℕ → Key → Key
  pub kkiapay_verify : ProviderConfig → Option Key → Option Verification
  pub cinetpay_check : ProviderConfig → Key → Option Verification
  pub fedapay_event : Key → Key → Key → Option String
  pub fedapay_status : ProviderConfig → Key → Option Verification
  pub paypal_verify : ProviderConfig → Key → PayPalBody → Bool

-- The rows of `webhook_events`, unique by provider and transaction.
abbrev pub recorded : Provider → Key → List (Provider × Key) → Bool
recorded p t = any (λ e. provider_eq e.0 p && (e.1 == t))

-- `true` for a new webhook, `false` for ALREADY_PROCESSED.
unfoldable pub record_or_skip : Provider → Option Key → Db → Result Bool × Db
record_or_skip p none db = (thrown ErrorCode.internal_error, db)
record_or_skip p (some t) db =
    if recorded p t db.webhook_events
    then (ok false, log (Audit.webhook_duplicate p t) db)
    else (ok true, record db { webhook_events = (p, t) ∷ db.webhook_events })

-- The event of an order is there, by the foreign key.
abbrev pub end_date_of : Option Event → Time
end_date_of none = 0
end_date_of (some e) = e.end_date

-- What a handler has established when it reaches the idempotency check: the webhook's reference, the
-- order as it was read, whether the webhook announces a payment, and the result of the verification.
pub record Settlement : Type 0 where
  pub provider : Provider
  pub reference : Option Key
  pub order : Order
  pub announced : Bool
  pub succeeded : Bool
  pub amount_matches : Bool

-- `signalerWebhookTardif`.
unfoldable pub signaler_webhook_tardif : Key → OrderStatus → Bool → Db → Db
signaler_webhook_tardif order status false db = db
signaler_webhook_tardif order status true db =
    if status_eq status paid then db else log (Audit.webhook_orphan order status) db

-- `finalizeOrderFailed`.
unfoldable pub finalize_order_failed : Order → Db → Db
finalize_order_failed o db = record db {
  orders = update_order o.id as_failed db.orders;
  tickets = release_items db.tickets o.items;
}

module _ (g : Gateways) (now : Time) where
  abbrev pub with_qr : Order → Time → OrderItem → OrderItem
  with_qr o event_end i = record i {
    qr_code = some (generate_qr_token g.sign now i.id o.event_id i.ticket_id event_end);
  }

  abbrev pub as_paid : Option Key → Order → Time → Order → Order
  as_paid reference read event_end o = record o {
    status = paid;
    paid_at = some now;
    payment_ref = reference;
    items = map (with_qr read event_end) o.items;
  }

  -- `finalizeOrderPaid`.
  unfoldable pub finalize_order_paid : Order → Option Key → Db → Db
  finalize_order_paid o reference db = record db {
    orders = update_order o.id (as_paid reference o (end_date_of (db.events o.event_id))) db.orders;
    pdf_jobs = db.pdf_jobs ++ map (λ i. i.id) o.items;
  }

  -- The end of each handler, after the idempotency check.
  unfoldable pub finish : Settlement → Db → Db
  finish s db =
      if status_eq s.order.status OrderStatus.pending
      then if s.succeeded
        then log (Audit.webhook_success s.order.id) (finalize_order_paid s.order s.reference db)
        else log
            (Audit.webhook_failed (some s.order.id)
              (if s.amount_matches then Reason.payment_failed else Reason.verification_mismatch))
            (finalize_order_failed s.order db)
      else signaler_webhook_tardif s.order.id s.order.status s.announced db

  abbrev pub after_record : Settlement → Result Bool × Db → Result (Unit {0}) × Db
  after_record s (thrown e, db) = (thrown e, db)
  after_record s (ok false, db) = (ok tt, db)
  after_record s (ok true, db) = (ok tt, finish s db)

  unfoldable pub settle : Settlement → Db → Result (Unit {0}) × Db
  settle s db = after_record s (record_or_skip s.provider s.reference db)

-- The first half of a handler: it returns, perhaps with an audit entry; or it throws
-- WEBHOOK_SIGNATURE_INVALID; or it goes on.
pub data Received {ℓ} (A : Type ℓ) : Type ℓ where
  ignored : Option Audit → Received A
  unauthorized : Received A
  proceed : A → Received A

-- What stops a handler stops the rest of it.
abbrev pub ◌>>=◌ {ℓ₁ ℓ₂} :
    {X : Type ℓ₁} {Y : Type ℓ₂} → Received X → (next : X → Received Y) → Received Y
unauthorized >>= next = unauthorized
ignored entry >>= next = ignored entry
proceed x >>= next = next x

infixl 5 ◌>>=◌
abbrev pub ◌>>◌ {ℓ₂} : {Y : Type ℓ₂} → Received (Unit {0}) → (rest : Received Y) → Received Y
check >> rest = check >>= λ _. rest

infixl 5 ◌>>◌
abbrev pub or_ignore {ℓ} : {A : Type ℓ} → Option A → Reason → Received A
or_ignore none r = ignored (some (Audit.webhook_failed none r))
or_ignore (some a) r = proceed a

abbrev pub or_reject {ℓ} : {A : Type ℓ} → Option A → Received A
or_reject none = unauthorized
or_reject (some a) = proceed a

abbrev pub authentic_if : Bool → Received (Unit {0})
authentic_if true = proceed tt
authentic_if false = unauthorized

-- `verification?.status === expected` and `amountMatches`.
abbrev pub has_status : String → Option Verification → Bool
has_status expected none = false
has_status expected (some v) = str_eq v.status expected

abbrev pub has_amount : Amount → Option Verification → Bool
has_amount total none = false
has_amount total (some v) = v.amount == total

abbrev pub is_ref : Key → Option Key → Bool
is_ref ref none = false
is_ref ref (some r) = r == ref

-- `order.findFirst` by provider and reference, and by provider and identifier.
unfoldable pub find_by_ref : Provider → Key → List Order → Option Order
find_by_ref p ref = find (λ o. provider_eq o.payment_provider p && is_ref ref o.payment_ref)

unfoldable pub find_by_id : Provider → Key → List Order → Option Order
find_by_id p id = find (λ o. provider_eq o.payment_provider p && (o.id == id))

-- `??` on two optional values.
abbrev pub or_else {ℓ} : {A : Type ℓ} → Option A → Option A → Option A
or_else none b = b
or_else (some a) b = some a
