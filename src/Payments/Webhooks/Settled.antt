-- ===== src/Payments/Webhooks/Settled.antt =====
-- What a webhook can do to the orders and the stock, whichever provider it comes from.
use fluid_events.Prelude.{
  Bool, true, false, Option, none, some, List, [], ◌∷◌, map, find, ok, thrown, ErrorCode, ◌≡◌,
  arith, inl, inr, Bool-cases, Option-cases, refl, ◌⊎◌,
}
use fluid_events.Payments.{
  Key, Time, Order, OrderItem, pending, paid, Provider, fedapay, stripe, paypal, Db, Audit, log,
}
use fluid_events.Payments.Orders.{find_order, status_eq, Below, count_items}
use fluid_events.Payments.Orders.Accounts.{status_eq-pending, find_order-id, find_order-lt}
use fluid_events.Payments.Init.{as_failed}
use fluid_events.Payments.Ledger.{
  IsConsistent, log-IsConsistent, hold-IsConsistent, close-IsConsistent,
}
use fluid_events.Payments.Webhooks.{
  Gateways, Settlement, settle, finish, record_or_skip, recorded, finalize_order_paid,
  finalize_order_failed, signaler_webhook_tardif, as_paid, with_qr, end_date_of, Received, ignored,
  unauthorized, proceed, ◌>>=◌, find_by_ref, find_by_id, or_else,
}
use fluid_events.Payments.Webhooks.Handlers.{
  Webhook, from_kkiapay, from_cinetpay, from_fedapay, from_stripe, from_paypal, receive, handle,
  receive_kkiapay, receive_cinetpay, receive_fedapay, receive_stripe, receive_paypal, stripe_order,
}

-- An order that a search finds is the one under its identifier.
find-find_order :
    (p : Order → Bool) (n : Key) (os : List Order) (o : Order)
    → Below n os
    → find p os ≡ some o
    → find_order o.id os ≡ some o
unfolding find_order
find-find_order p n [] o b e = ground arith
find-find_order p n (q ∷ os) o b e = elim (Bool-cases (p q)) [
  | inl hit ↦ ground arith
  | inr miss ↦
      let later = find-find_order p q.id os o b.1 (ground arith) in
      ground (arith, later, find_order-lt q.id o.id os o b.1 later)
]

find_order_self :
    (id : Key) (os : List Order) (o : Order)
    → find_order id os ≡ some o
    → find_order o.id os ≡ some o
find_order_self id os o e = cc (find_order-id id os o e)

find_by_ref-find_order :
    (p : Provider) (n ref : Key) (os : List Order) (o : Order)
    → Below n os
    → find_by_ref p ref os ≡ some o
    → find_order o.id os ≡ some o
unfolding find_by_ref
find_by_ref-find_order p n ref os o b e = find-find_order _ n os o b e

find_by_id-find_order :
    (p : Provider) (n id : Key) (os : List Order) (o : Order)
    → Below n os
    → find_by_id p id os ≡ some o
    → find_order o.id os ≡ some o
unfolding find_by_id
find_by_id-find_order p n id os o b e = find-find_order _ n os o b e

stripe_order-find_order :
    (id session : Option Key) (n : Key) (os : List Order) (o : Order)
    → Below n os
    → stripe_order id session os ≡ some o
    → find_order o.id os ≡ some o
stripe_order-find_order (some id) session n os o b e = find_by_id-find_order stripe n id os o b e
stripe_order-find_order none (some session) n os o b e =
    find_by_ref-find_order stripe n session os o b e
stripe_order-find_order none none n os o b e = ground arith

-- Inversion of the first step of a handler.
pub >>=-eq-proceed {ℓ κ} :
    {A : Type ℓ} {B : Type κ} (m : Received A) (f : A → Received B) {b : B}
    → (m >>= f) ≡ proceed b
    → (a : A) × (m ≡ proceed a) × (f a ≡ proceed b)
>>=-eq-proceed (ignored a) f h = cc
>>=-eq-proceed unauthorized f h = cc
>>=-eq-proceed (proceed a) f h = (a, refl, h)

record_or_skip-cases :
    (p : Provider) (r : Option Key) (db : Db)
    → ((r ≡ none) × (record_or_skip p r db ≡ (thrown ErrorCode.internal_error, db)))
      ⊎ ((t : Key) × (r ≡ some t)
          × (recorded p t db.webhook_events ≡ true)
          × (record_or_skip p r db ≡ (ok false, log (Audit.webhook_duplicate p t) db)))
      ⊎ ((t : Key) × (r ≡ some t)
          × (recorded p t db.webhook_events ≡ false)
          × (record_or_skip p r db
              ≡ (ok true, record db { webhook_events = (p, t) ∷ db.webhook_events })))
unfolding record_or_skip
record_or_skip-cases p none db = inl (refl, refl)
record_or_skip-cases p (some t) db = elim (Bool-cases (recorded p t db.webhook_events)) [
  | inl old ↦ inr (inl (t, refl, old, rw old refl))
  | inr new ↦ inr (inr (t, refl, new, rw new refl))
]

module _ (g : Gateways) (now : Time) where
  -- A webhook is settled against the order as it is stored.
  pub receive-find_order :
      (w : Webhook) (n : Key) (db : Db) (s : Settlement)
      → Below n db.orders
      → receive g now w db ≡ proceed s
      → find_order s.order.id db.orders ≡ some s.order
  unfolding receive receive_kkiapay receive_cinetpay receive_fedapay receive_stripe receive_paypal
  receive-find_order (from_kkiapay w header) n db s b e = elim (Option-cases w.partner_id) [
    | inl missing ↦ absurd (ground arith)
    | inr (id, there) ↦ find_order_self id db.orders s.order (ground arith)
  ]
  receive-find_order (from_cinetpay w header) n db s b e = elim (Option-cases w.cpm_trans_id) [
    | inl missing ↦ absurd (ground arith)
    | inr (id, there) ↦ find_order_self id db.orders s.order (ground arith)
  ]
  receive-find_order (from_fedapay body header) n db s b e = elim (Option-cases body.json) [
    | inl missing ↦ absurd (ground arith)
    | inr (none, there) ↦ absurd (ground arith)
    | inr (some ref, there) ↦
        find_by_ref-find_order fedapay n ref db.orders s.order b (ground arith)
  ]
  receive-find_order (from_stripe body header) n db s b e = elim (Option-cases body.json) [
    | inl missing ↦ absurd (ground arith)
    | inr (json, there) ↦
        stripe_order-find_order json.client_reference_id json.session_id n db.orders s.order b
          (ground arith)
  ]
  receive-find_order (from_paypal body headers) n db s b e =
      elim (Option-cases (or_else body.custom_id body.unit_custom_id)) [
        | inl missing ↦ absurd (ground arith)
        | inr (id, there) ↦ find_by_id-find_order paypal n id db.orders s.order b (ground arith)
      ]

  pub count_items-with_qr :
      (t : Key) (o : Order) (event_end : Time) (is : List OrderItem)
      → count_items t (map (with_qr g now o event_end) is) ≡ count_items t is
  count_items-with_qr t o event_end [] = refl
  count_items-with_qr t o event_end (i ∷ is) = ground (arith, count_items-with_qr t o event_end is)

  module _ (s : Settlement) (db : Db) (v : IsConsistent db)
      (found : find_order s.order.id db.orders ≡ some s.order) where
    paid-IsConsistent :
        s.order.status ≡ pending → IsConsistent (finalize_order_paid g now s.order s.reference db)
    unfolding finalize_order_paid
    paid-IsConsistent waits =
        let v' =
          hold-IsConsistent
            (as_paid g now s.reference s.order (end_date_of (db.events s.order.event_id)))
            (λ o. refl) db s.order.id s.order v found
            (λ t. ground (
              arith,
              count_items-with_qr t s.order (end_date_of (db.events s.order.event_id))
                  s.order.items,
            )) in
        record { accounts = v'.accounts; within = v'.within; keyed = v'.keyed; fresh = v'.fresh }

    failed-IsConsistent : s.order.status ≡ pending → IsConsistent (finalize_order_failed s.order db)
    unfolding finalize_order_failed
    failed-IsConsistent waits =
        close-IsConsistent as_failed (λ o. refl) db s.order.id s.order v found (rw waits) refl

    late-IsConsistent :
        IsConsistent (signaler_webhook_tardif s.order.id s.order.status s.announced db)
    unfolding signaler_webhook_tardif log
    late-IsConsistent = elim (Bool-cases s.announced) [
      | inl yes' ↦ elim (Bool-cases (status_eq s.order.status paid)) [
        | inl again ↦ rw (yes', again) v
        | inr other ↦
            rw (yes', other)
              (record {
                accounts = v.accounts;
                within = v.within;
                keyed = v.keyed;
                fresh = v.fresh;
              })
      ]
      | inr no' ↦ rw no' v
    ]

    finish-IsConsistent : IsConsistent (finish g now s db)
    unfolding finish
    finish-IsConsistent = elim (Bool-cases (status_eq s.order.status pending)) [
      | inl waits ↦ elim (Bool-cases s.succeeded) [
        | inl good ↦
            rw (waits, good)
              (log-IsConsistent _ _ (paid-IsConsistent (status_eq-pending s.order.status waits)))
        | inr bad ↦
            rw (waits, bad)
              (log-IsConsistent _ _ (failed-IsConsistent (status_eq-pending s.order.status waits)))
      ]
      | inr closed ↦ rw closed late-IsConsistent
    ]

  -- The three ways in which the idempotency check ends.
  pub settle-cases :
      (s : Settlement) (db : Db)
      → ((s.reference ≡ none) × (settle g now s db ≡ (thrown ErrorCode.internal_error, db)))
        ⊎ ((t : Key) × (s.reference ≡ some t)
            × (recorded s.provider t db.webhook_events ≡ true)
            × (settle g now s db ≡ (ok tt, log (Audit.webhook_duplicate s.provider t) db)))
        ⊎ ((t : Key) × (s.reference ≡ some t)
            × (recorded s.provider t db.webhook_events ≡ false)
            × (settle g now s db ≡ (
              ok tt,
              finish g now s (record db { webhook_events = (s.provider, t) ∷ db.webhook_events }),
            )))
  unfolding settle
  settle-cases s db = elim (record_or_skip-cases s.provider s.reference db) [
    | inl (missing, e) ↦ inl (missing, rw e refl)
    | inr (inl (t, there, old, e)) ↦ inr (inl (t, there, old, rw e refl))
    | inr (inr (t, there, new, e)) ↦ inr (inr (t, there, new, rw e refl))
  ]

  pub settle-IsConsistent :
      (s : Settlement) (db : Db)
      → IsConsistent db
      → find_order s.order.id db.orders ≡ some s.order
      → IsConsistent (settle g now s db).1
  settle-IsConsistent s db v found = elim (settle-cases s db) [
    | inl (missing, e) ↦ rw e v
    | inr (inl (t, there, old, e)) ↦ rw e (log-IsConsistent _ db v)
    | inr (inr (t, there, new, e)) ↦ rw e (
        finish-IsConsistent s (record db { webhook_events = (s.provider, t) ∷ db.webhook_events })
          (record { accounts = v.accounts; within = v.within; keyed = v.keyed; fresh = v.fresh })
          found)
  ]

  pub Received-cases {ℓ} :
      {A : Type ℓ} (r : Received A)
      → (r ≡ ignored none)
        ⊎ ((a : Audit) × (r ≡ ignored (some a)))
        ⊎ (r ≡ unauthorized)
        ⊎ ((a : A) × (r ≡ proceed a))
  Received-cases (ignored none) = inl refl
  Received-cases (ignored (some a)) = inr (inl (a, refl))
  Received-cases unauthorized = inr (inr (inl refl))
  Received-cases (proceed a) = inr (inr (inr (a, refl)))

  -- Every webhook, from whichever provider and whatever it says, keeps the counters equal to the
  -- places that orders hold, and sells no ticket beyond its capacity.
  pub handle-IsConsistent :
      (w : Webhook) (db : Db) → IsConsistent db → IsConsistent (handle g now w db).1
  unfolding handle
  handle-IsConsistent w db v = elim (Received-cases (receive g now w db)) [
    | inl e ↦ rw e v
    | inr (inl (a, e)) ↦ rw e (log-IsConsistent a db v)
    | inr (inr (inl e)) ↦ rw e v
    | inr (inr (inr (s, e))) ↦
        rw e (settle-IsConsistent s db v (receive-find_order w db.next_order db s v.fresh e))
  ]
