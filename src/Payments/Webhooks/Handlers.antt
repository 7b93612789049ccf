-- ===== src/Payments/Webhooks/Handlers.antt =====
-- The handlers: what each checks, up to the idempotency check, and then the common end.
use fluid_events.Prelude.{
  ℕ, ◌==◌, Bool, true, false, ◌&&◌, ◌||◌, Option, none, some, List, Result, ok, thrown, ErrorCode,
  str_eq,
}
use fluid_events.Payments.{
  Key, Time, Order, kkiapay, cinetpay, fedapay, stripe, paypal, Db, Reason, log, find_config,
}
use fluid_events.Payments.Orders.{find_order}
use fluid_events.Payments.Stripe.{StripeHeader, verifier_signature, vers_plus_petite_unite}
use fluid_events.Payments.Webhooks.{
  KkiapayWebhook, CinetPayNotification, FedaPayBody, StripeBody, PayPalBody, Gateways, Settlement,
  settle, Received, ignored, unauthorized, proceed, ◌>>=◌, ◌>>◌, or_ignore, or_reject, authentic_if,
  has_status, has_amount, find_by_ref, find_by_id, or_else,
}

abbrev pub is_amount : ℕ → Option ℕ → Bool
is_amount expected none = false
is_amount expected (some n) = n == expected

-- `JSON.parse` that throws: the handler returns without an audit entry.
abbrev pub or_quiet {ℓ} : {A : Type ℓ} → Option A → Received A
or_quiet none = ignored none
or_quiet (some a) = proceed a

abbrev pub stripe_order : Option Key → Option Key → List Order → Option Order
stripe_order (some id) session os = find_by_id stripe id os
stripe_order none (some session) os = find_by_ref stripe session os
stripe_order none none os = none

abbrev pub has_reference : Option Key → Option Key → Option (Unit {0})
has_reference none none = none
has_reference _ _ = some tt

module _ (g : Gateways) (now : Time) where
  unfoldable pub receive_kkiapay : KkiapayWebhook → Option Key → Db → Received Settlement
  receive_kkiapay w header db = do
    partner ← or_ignore w.partner_id Reason.missing_partner_id
    order ← or_ignore (find_order partner db.orders) Reason.order_not_found
    config ← or_reject (find_config order.event_id kkiapay db.configs)
    secret ← or_reject config.webhook_secret
    signature ← or_reject header
    authentic_if (signature == g.decrypt secret)
    let verification = g.kkiapay_verify config w.transaction_id
    let amount_matches = has_amount order.total_amount verification
    proceed (record {
      provider = kkiapay;
      reference = w.transaction_id;
      order = order;
      announced = w.is_payment_succes;
      succeeded = w.is_payment_succes && (has_status "SUCCESS" verification && amount_matches);
      amount_matches = amount_matches;
    })

  unfoldable pub receive_cinetpay : CinetPayNotification → Option Key → Db → Received Settlement
  receive_cinetpay w header db = do
    transaction ← or_ignore w.cpm_trans_id Reason.missing_transaction_id
    order ← or_ignore (find_order transaction db.orders) Reason.order_not_found
    config ← or_reject (find_config order.event_id cinetpay db.configs)
    secret ← or_reject config.webhook_secret
    token ← or_reject header
    authentic_if (token == g.hmac_fields (g.decrypt secret) w.signed_fields)
    let verification = g.cinetpay_check config transaction
    let amount_matches = has_amount order.total_amount verification
    proceed (record {
      provider = cinetpay;
      reference = some transaction;
      order = order;
      announced = true;
      succeeded = has_status "ACCEPTED" verification && amount_matches;
      amount_matches = amount_matches;
    })

  unfoldable pub receive_fedapay : FedaPayBody → Option Key → Db → Received Settlement
  receive_fedapay body header db = do
    signature ← or_reject header
    id ← or_quiet body.json
    transaction ← or_ignore id Reason.missing_transaction_id
    order ← or_ignore (find_by_ref fedapay transaction db.orders) Reason.order_not_found
    config ← or_reject (find_config order.event_id fedapay db.configs)
    secret ← or_reject config.webhook_secret
    name ← or_reject (g.fedapay_event body.raw signature (g.decrypt secret))
    let verification = g.fedapay_status config transaction
    let amount_matches = has_amount order.total_amount verification
    proceed (record {
      provider = fedapay;
      reference = some transaction;
      order = order;
      announced = true;
      succeeded =
          str_eq name "transaction.approved"
          && (has_status "approved" verification && amount_matches);
      amount_matches = amount_matches;
    })

  unfoldable pub receive_stripe : StripeBody → Option StripeHeader → Db → Received Settlement
  receive_stripe body header_read db = do
    header ← or_reject header_read
    json ← or_quiet body.json
    or_ignore (has_reference json.session_id json.client_reference_id) Reason.missing_transaction_id
    order ←
        or_ignore (stripe_order json.client_reference_id json.session_id db.orders)
          Reason.order_not_found
    config ← or_reject (find_config order.event_id stripe db.configs)
    secret ← or_reject config.webhook_secret
    authentic_if (verifier_signature g.hmac_body body.raw (some header) (g.decrypt secret) now)
    let amount_matches =
        is_amount (vers_plus_petite_unite order.total_amount order.currency) json.amount_total
    proceed (record {
      provider = stripe;
      reference = or_else json.session_id (some order.id);
      order = order;
      announced = true;
      succeeded = str_eq json.type_of "checkout.session.completed" && amount_matches;
      amount_matches = amount_matches;
    })

  unfoldable pub receive_paypal : PayPalBody → Key → Db → Received Settlement
  receive_paypal body headers db = do
    id ← or_ignore (or_else body.custom_id body.unit_custom_id) Reason.missing_transaction_id
    order ← or_ignore (find_by_id paypal id db.orders) Reason.order_not_found
    config ← or_reject (find_config order.event_id paypal db.configs)
    authentic_if (g.paypal_verify config headers body)
    let amount_matches = is_amount order.total_amount (or_else body.amount body.unit_amount)
    proceed (record {
      provider = paypal;
      reference = or_else body.id (some order.id);
      order = order;
      announced = true;
      succeeded =
          (str_eq body.event_type "CHECKOUT.ORDER.APPROVED"
            || str_eq body.event_type "PAYMENT.CAPTURE.COMPLETED")
          && amount_matches;
      amount_matches = amount_matches;
    })

  abbrev pub conclude : Received Settlement → Db → Result (Unit {0}) × Db
  conclude (ignored none) db = (ok tt, db)
  conclude (ignored (some a)) db = (ok tt, log a db)
  conclude unauthorized db = (thrown ErrorCode.webhook_signature_invalid, db)
  conclude (proceed s) db = settle g now s db

-- A call of one of the five routes.
pub data Webhook : Type 0 where
  from_kkiapay : KkiapayWebhook → Option Key → Webhook
  from_cinetpay : CinetPayNotification → Option Key → Webhook
  from_fedapay : FedaPayBody → Option Key → Webhook
  from_stripe : StripeBody → Option StripeHeader → Webhook
  from_paypal : PayPalBody → Key → Webhook

module _ (g : Gateways) (now : Time) where
  unfoldable pub receive : Webhook → Db → Received Settlement
  receive (from_kkiapay w header) db = receive_kkiapay g now w header db
  receive (from_cinetpay w header) db = receive_cinetpay g now w header db
  receive (from_fedapay body header) db = receive_fedapay g now body header db
  receive (from_stripe body header) db = receive_stripe g now body header db
  receive (from_paypal body headers) db = receive_paypal g now body headers db

  unfoldable pub handle : Webhook → Db → Result (Unit {0}) × Db
  handle w db = conclude g now (receive w db) db
