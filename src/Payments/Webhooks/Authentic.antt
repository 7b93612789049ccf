-- ===== src/Payments/Webhooks/Authentic.antt =====
-- Who may have an order marked as paid, and on what evidence.
use fluid_events.Prelude.{
  true, ◌&&◌, Option, none, some, ◌≡◌, ◌≢◌, arith, inl, inr, Bool-cases, Option-cases, refl, ◌⊎◌,
  subst, ◌∷◌, String, eq_iff,
}
use fluid_events.Payments.{
  Key, Time, Order, pending, paid, kkiapay, cinetpay, fedapay, stripe, paypal, ProviderConfig, Db,
  log, find_config,
}
use fluid_events.Payments.Orders.{find_order, status_eq}
use fluid_events.Payments.Orders.Accounts.{status_eq-pending, find_order-update_order}
use fluid_events.Payments.Init.{as_failed}
use fluid_events.Payments.Stripe.{verifier_signature, vers_plus_petite_unite}
use fluid_events.Payments.Ledger.{IsConsistent}
use fluid_events.Payments.Webhooks.{
  Verification, StripeJson, Gateways, Settlement, finish, finalize_order_paid,
  finalize_order_failed, signaler_webhook_tardif, as_paid, end_date_of, proceed, has_status,
  has_amount, or_else,
}
use fluid_events.Payments.Webhooks.Handlers.{
  Webhook, from_kkiapay, from_cinetpay, from_fedapay, from_stripe, from_paypal, receive, handle,
  receive_kkiapay, receive_cinetpay, receive_fedapay, receive_stripe, receive_paypal,
}
use fluid_events.Payments.Webhooks.Settled.{receive-find_order, settle-cases, Received-cases}

-- The provider's own answer: the expected status, for the amount of the order.
abbrev pub Verified : String → Order → Option Verification → Type 0
Verified status o answer =
    (v : Verification) × (answer ≡ some v) × (v.status ≡ status) × (v.amount ≡ o.total_amount)

module _ (g : Gateways) (now : Time) where
  -- The webhook is signed with the secret of the order's event, or, for PayPal, recognised by PayPal.
  abbrev pub Authentic : Webhook → Order → Db → Type 0
  Authentic (from_kkiapay w header) o db =
      (c : ProviderConfig) × (secret : Key) × (find_config o.event_id kkiapay db.configs ≡ some c)
      × (c.webhook_secret ≡ some secret)
      × (header ≡ some (g.decrypt secret))
  Authentic (from_cinetpay w header) o db =
      (c : ProviderConfig) × (secret : Key) × (find_config o.event_id cinetpay db.configs ≡ some c)
      × (c.webhook_secret ≡ some secret)
      × (header ≡ some (g.hmac_fields (g.decrypt secret) w.signed_fields))
  Authentic (from_fedapay body header) o db =
      (c : ProviderConfig) × (secret signature : Key) × (name : String) × (find_config o.event_id
          fedapay db.configs
        ≡ some c)
      × (c.webhook_secret ≡ some secret)
      × (header ≡ some signature)
      × (g.fedapay_event body.raw signature (g.decrypt secret) ≡ some name)
  Authentic (from_stripe body header) o db =
      (c : ProviderConfig) × (secret : Key) × (find_config o.event_id stripe db.configs ≡ some c)
      × (c.webhook_secret ≡ some secret)
      × (verifier_signature g.hmac_body body.raw header (g.decrypt secret) now ≡ true)
  Authentic (from_paypal body headers) o db =
      (c : ProviderConfig) × (find_config o.event_id paypal db.configs ≡ some c)
      × (g.paypal_verify c headers body ≡ true)

  -- No handler goes on for a webhook that is not authentic.
  pub receive-Authentic :
      (w : Webhook) (db : Db) (s : Settlement)
      → receive g now w db ≡ proceed s
      → Authentic w s.order db
  unfolding receive receive_kkiapay receive_cinetpay receive_fedapay receive_stripe receive_paypal
      verifier_signature
  receive-Authentic (from_kkiapay w header) db s e =
      elim (Option-cases (find_config s.order.event_id kkiapay db.configs)) [
        | inl missing ↦ absurd (ground arith)
        | inr (c, found) ↦ elim (Option-cases c.webhook_secret) [
          | inl missing ↦ absurd (ground arith)
          | inr (secret, there) ↦ (c, secret, found, there, ground arith)
        ]
      ]
  receive-Authentic (from_cinetpay w header) db s e =
      elim (Option-cases (find_config s.order.event_id cinetpay db.configs)) [
        | inl missing ↦ absurd (ground arith)
        | inr (c, found) ↦ elim (Option-cases c.webhook_secret) [
          | inl missing ↦ absurd (ground arith)
          | inr (secret, there) ↦ (c, secret, found, there, ground arith)
        ]
      ]
  receive-Authentic (from_fedapay body none) db s e = absurd (ground arith)
  receive-Authentic (from_fedapay body (some signature)) db s e =
      elim (Option-cases (find_config s.order.event_id fedapay db.configs)) [
        | inl missing ↦ absurd (ground arith)
        | inr (c, found) ↦ elim (Option-cases c.webhook_secret) [
          | inl missing ↦ absurd (ground arith)
          | inr (secret, there) ↦
              elim (Option-cases (g.fedapay_event body.raw signature (g.decrypt secret))) [
                | inl refused ↦ absurd (ground arith)
                | inr (name, read) ↦ (c, secret, signature, name, found, there, refl, read)
              ]
        ]
      ]
  receive-Authentic (from_stripe body none) db s e = absurd (ground arith)
  receive-Authentic (from_stripe body (some header)) db s e =
      elim (Option-cases (find_config s.order.event_id stripe db.configs)) [
        | inl missing ↦ absurd (ground arith)
        | inr (c, found) ↦ elim (Option-cases c.webhook_secret) [
          | inl missing ↦ absurd (ground arith)
          | inr (secret, there) ↦ (c, secret, found, there, ground arith)
        ]
      ]
  receive-Authentic (from_paypal body headers) db s e =
      elim (Option-cases (find_config s.order.event_id paypal db.configs)) [
        | inl missing ↦ absurd (ground arith)
        | inr (c, found) ↦ (c, found, ground arith)
      ]

  -- What a payment is confirmed by: the provider's own answer, or, for Stripe and PayPal, the signed
  -- announcement; each for the amount of the order.
  abbrev pub Evidence : Webhook → Order → Db → Type 0
  Evidence (from_kkiapay w header) o db =
      (c : ProviderConfig) × (find_config o.event_id kkiapay db.configs ≡ some c)
      × (w.is_payment_succes ≡ true)
      × Verified "SUCCESS" o (g.kkiapay_verify c w.transaction_id)
  Evidence (from_cinetpay w header) o db =
      (c : ProviderConfig) × (t : Key) × (find_config o.event_id cinetpay db.configs ≡ some c)
      × (w.cpm_trans_id ≡ some t)
      × Verified "ACCEPTED" o (g.cinetpay_check c t)
  Evidence (from_fedapay body header) o db =
      (c : ProviderConfig) × (t : Key) × (find_config o.event_id fedapay db.configs ≡ some c)
      × (body.json ≡ some (some t))
      × Verified "approved" o (g.fedapay_status c t)
  Evidence (from_stripe body header) o db =
      (json : StripeJson) × (body.json ≡ some json)
      × (json.type_of ≡ "checkout.session.completed")
      × (json.amount_total ≡ some (vers_plus_petite_unite o.total_amount o.currency))
  Evidence (from_paypal body headers) o db =
      ((body.event_type ≡ "CHECKOUT.ORDER.APPROVED")
        ⊎ (body.event_type ≡ "PAYMENT.CAPTURE.COMPLETED"))
      × (or_else body.amount body.unit_amount ≡ some o.total_amount)

  has_status-Verified :
      (status : String) (o : Order) (answer : Option Verification)
      → (has_status status answer && has_amount o.total_amount answer) ≡ true
      → Verified status o answer
  has_status-Verified status o none e = absurd (ground arith)
  has_status-Verified status o (some v) e =
      (v, refl, ground (arith, eq_iff v.status status), ground arith)

  receive-Evidence :
      (w : Webhook) (db : Db) (s : Settlement)
      → receive g now w db ≡ proceed s
      → s.succeeded ≡ true
      → Evidence w s.order db
  unfolding receive receive_kkiapay receive_cinetpay receive_fedapay receive_stripe receive_paypal
  receive-Evidence (from_kkiapay w header) db s e good =
      elim (Option-cases (find_config s.order.event_id kkiapay db.configs)) [
        | inl missing ↦ absurd (ground arith)
        | inr (c, found) ↦ (
          c,
          found,
          ground arith,
          has_status-Verified "SUCCESS" s.order (g.kkiapay_verify c w.transaction_id)
              (ground arith),
        )
      ]
  receive-Evidence (from_cinetpay w header) db s e good =
      elim (Option-cases (find_config s.order.event_id cinetpay db.configs)) [
        | inl missing ↦ absurd (ground arith)
        | inr (c, found) ↦ elim (Option-cases w.cpm_trans_id) [
          | inl missing ↦ absurd (ground arith)
          | inr (t, there) ↦ (
            c,
            t,
            found,
            there,
            has_status-Verified "ACCEPTED" s.order (g.cinetpay_check c t) (ground arith),
          )
        ]
      ]
  receive-Evidence (from_fedapay body header) db s e good =
      elim (Option-cases (find_config s.order.event_id fedapay db.configs)) [
        | inl missing ↦ absurd (ground arith)
        | inr (c, found) ↦ elim (Option-cases body.json) [
          | inl missing ↦ absurd (ground arith)
          | inr (none, there) ↦ absurd (ground arith)
          | inr (some t, there) ↦ (
            c,
            t,
            found,
            there,
            has_status-Verified "approved" s.order (g.fedapay_status c t) (ground arith),
          )
        ]
      ]
  receive-Evidence (from_stripe body header) db s e good = elim (Option-cases body.json) [
    | inl missing ↦ absurd (ground arith)
    | inr (json, there) ↦ (
      json,
      there,
      ground (arith, eq_iff json.type_of "checkout.session.completed"),
      ground arith,
    )
  ]
  receive-Evidence (from_paypal body headers) db s e good = (
    ground (
      arith,
      eq_iff body.event_type "CHECKOUT.ORDER.APPROVED",
      eq_iff body.event_type "PAYMENT.CAPTURE.COMPLETED",
    ),
    ground arith,
  )

  -- The end of a handler makes an order paid only if the verification succeeded for that order.
  pub finish-paid :
      (s : Settlement) (db : Db) (id : Key) (o o' : Order)
      → find_order id db.orders ≡ some o
      → o.status ≢ paid
      → find_order id (finish g now s db).orders ≡ some o'
      → o'.status ≡ paid
      → (s.succeeded ≡ true) × (s.order.id ≡ id)
  unfolding finish finalize_order_paid finalize_order_failed signaler_webhook_tardif log
  finish-paid s db id o o' before unpaid after done = ground (
    arith,
    find_order-update_order as_failed (λ q. refl) s.order.id id db.orders o before,
    find_order-update_order
        (as_paid g now s.reference s.order (end_date_of (db.events s.order.event_id))) (λ q. refl)
        s.order.id id db.orders o before,
  )

  pub finish-paid_pending :
      (s : Settlement) (db : Db) (id : Key) (o o' : Order)
      → find_order id db.orders ≡ some o
      → o.status ≢ paid
      → find_order id (finish g now s db).orders ≡ some o'
      → o'.status ≡ paid
      → s.order.status ≡ pending
  unfolding finish signaler_webhook_tardif log
  finish-paid_pending s db id o o' before unpaid after done =
      elim (Bool-cases (status_eq s.order.status pending)) [
        | inl waits ↦ status_eq-pending s.order.status waits
        | inr closed ↦ absurd (ground arith)
      ]

  -- If a webhook makes an order paid that was not, then the order was pending, the webhook is
  -- authentic for it, and the payment is confirmed for exactly its amount.
  pub handle-paid :
      (w : Webhook) (db : Db) (id : Key) (o o' : Order)
      → IsConsistent db
      → find_order id db.orders ≡ some o
      → o.status ≢ paid
      → find_order id (handle g now w db).1.orders ≡ some o'
      → o'.status ≡ paid
      → (o.status ≡ pending) × Authentic w o db × Evidence w o db
  unfolding handle log
  handle-paid w db id o o' v before unpaid after done =
      elim (Received-cases g now (receive g now w db)) [
        | inl e ↦ absurd (ground arith)
        | inr (inl (a, e)) ↦ absurd (ground arith)
        | inr (inr (inl e)) ↦ absurd (ground arith)
        | inr (inr (inr (s, e))) ↦ elim (settle-cases g now s db) [
          | inl (missing, r) ↦ absurd (ground arith)
          | inr (inl (t, there, old, r)) ↦ absurd (ground arith)
          | inr (inr (t, there, new, r)) ↦
              let db' = record db { webhook_events = (s.provider, t) ∷ db.webhook_events } in
              let (good, same) = finish-paid s db' id o o' before unpaid (ground arith) done in
              let waits = finish-paid_pending s db' id o o' before unpaid (ground arith) done in
              let found = receive-find_order g now w db.next_order db s v.fresh e in
              let is_o : s.order ≡ o = ground arith in
              subst (λ q. (q.status ≡ pending) × Authentic w q db × Evidence w q db) is_o
                (waits, receive-Authentic w db s e, receive-Evidence w db s e good)
        ]
      ]
