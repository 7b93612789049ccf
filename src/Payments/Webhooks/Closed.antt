-- ===== src/Payments/Webhooks/Closed.antt =====
-- What a webhook leaves alone: orders that are closed, and everything when it comes again.
use fluid_events.Prelude.{
  true, some, List, [], ◌∷◌, ok, ◌≡◌, ◌≢◌, arith, inl, inr, Bool-cases, refl, ◌⊎◌,
}
use fluid_events.Payments.{
  Key, Time, Order, pending, Provider, kkiapay, cinetpay, fedapay, stripe, paypal, provider_eq, Db,
  log, Audit,
}
use fluid_events.Payments.Orders.{find_order, status_eq}
use fluid_events.Payments.Orders.Accounts.{status_eq-pending, find_order-update_order}
use fluid_events.Payments.Init.{as_failed}
use fluid_events.Payments.Ledger.{IsConsistent}
use fluid_events.Payments.Webhooks.{
  Gateways, Settlement, settle, finish, finalize_order_paid, finalize_order_failed,
  signaler_webhook_tardif, as_paid, end_date_of, proceed, recorded,
}
use fluid_events.Payments.Webhooks.Handlers.{Webhook, receive, handle}
use fluid_events.Payments.Webhooks.Settled.{receive-find_order, settle-cases, Received-cases}
use fluid_events.Payments.Webhooks.Authentic.{Authentic, receive-Authentic}

-- The orders, the stock and the queue are as they were.
abbrev pub Untouched : Db → Db → Type 0
Untouched db db' =
    (db'.orders ≡ db.orders) × (db'.tickets ≡ db.tickets) × (db'.pdf_jobs ≡ db.pdf_jobs)

module _ (g : Gateways) (now : Time) where
  finish-closed :
      (s : Settlement) (db : Db) (id : Key) (o : Order)
      → find_order s.order.id db.orders ≡ some s.order
      → find_order id db.orders ≡ some o
      → o.status ≢ pending
      → find_order id (finish g now s db).orders ≡ some o
  unfolding finish finalize_order_paid finalize_order_failed signaler_webhook_tardif log
  finish-closed s db id o found before closed =
      elim (Bool-cases (status_eq s.order.status pending)) [
        | inl waits ↦ ground (
          arith,
          status_eq-pending s.order.status waits,
          find_order-update_order as_failed (λ q. refl) s.order.id id db.orders o before,
          find_order-update_order
              (as_paid g now s.reference s.order (end_date_of (db.events s.order.event_id)))
              (λ q. refl) s.order.id id db.orders o before,
        )
        | inr late ↦ ground arith
      ]

  -- No webhook changes an order that is not pending: not its status, nor its items, nor its
  -- payment reference.
  pub handle-closed :
      (w : Webhook) (db : Db) (id : Key) (o : Order)
      → IsConsistent db
      → find_order id db.orders ≡ some o
      → o.status ≢ pending
      → find_order id (handle g now w db).1.orders ≡ some o
  unfolding handle log
  handle-closed w db id o v before closed = elim (Received-cases g now (receive g now w db)) [
    | inl e ↦ rw e before
    | inr (inl (a, e)) ↦ rw e before
    | inr (inr (inl e)) ↦ rw e before
    | inr (inr (inr (s, e))) ↦ elim (settle-cases g now s db) [
      | inl (missing, r) ↦ rw (e, r) before
      | inr (inl (t, there, old, r)) ↦ rw (e, r) before
      | inr (inr (t, there, new, r)) ↦
          rw (e, r)
            (finish-closed s (record db { webhook_events = (s.provider, t) ∷ db.webhook_events }) id
              o (receive-find_order g now w db.next_order db s v.fresh e) before closed)
    ]
  ]

  -- A webhook changes nothing of the orders, the stock and the queue, unless it is authentic for
  -- some order.
  pub handle-Untouched :
      (w : Webhook) (db : Db)
      → Untouched db (handle g now w db).1 ⊎ ((o : Order) × Authentic g now w o db)
  unfolding handle log
  handle-Untouched w db = elim (Received-cases g now (receive g now w db)) [
    | inl e ↦ inl (rw e (refl, refl, refl))
    | inr (inl (a, e)) ↦ inl (rw e (refl, refl, refl))
    | inr (inr (inl e)) ↦ inl (rw e (refl, refl, refl))
    | inr (inr (inr (s, e))) ↦ inr (s.order, receive-Authentic g now w db s e)
  ]

  -- Rows of `webhook_events` stay.
  handle-recorded :
      (w : Webhook) (db : Db) (p : Provider) (t : Key)
      → recorded p t db.webhook_events ≡ true
      → recorded p t (handle g now w db).1.webhook_events ≡ true
  unfolding handle log finish finalize_order_paid finalize_order_failed signaler_webhook_tardif
  handle-recorded w db p t h = elim (Received-cases g now (receive g now w db)) [
    | inl e ↦ rw e h
    | inr (inl (a, e)) ↦ rw e h
    | inr (inr (inl e)) ↦ rw e h
    | inr (inr (inr (s, e))) ↦ elim (settle-cases g now s db) [
      | inl (missing, r) ↦ rw (e, r) h
      | inr (inl (u, there, old, r)) ↦ rw (e, r) h
      | inr (inr (u, there, new, r)) ↦ rw (e, r) (ground arith)
    ]
  ]

  provider_eq_self : (p : Provider) → provider_eq p p ≡ true
  provider_eq_self kkiapay = refl
  provider_eq_self cinetpay = refl
  provider_eq_self fedapay = refl
  provider_eq_self stripe = refl
  provider_eq_self paypal = refl

  settle-recorded :
      (s : Settlement) (db : Db) (t : Key)
      → s.reference ≡ some t
      → recorded s.provider t (settle g now s db).1.webhook_events ≡ true
  unfolding log finish finalize_order_paid finalize_order_failed signaler_webhook_tardif
  settle-recorded s db t ref = elim (settle-cases g now s db) [
    | inl (missing, r) ↦ absurd (ground arith)
    | inr (inl (u, there, old, r)) ↦ rw r (ground arith)
    | inr (inr (u, there, new, r)) ↦ rw r (ground (arith, provider_eq_self s.provider))
  ]

-- A webhook, with the instant at which it comes and what the services that it needs answer then.
pub record Arrival : Type 0 where
  pub gateways : Gateways
  pub now : Time
  pub webhook : Webhook

-- The webhooks that arrive, in their order.
unfoldable pub handle_all : List Arrival → Db → Db
handle_all [] db = db
handle_all (a ∷ rest) db = handle_all rest (handle a.gateways a.now a.webhook db).1

handle_all-recorded :
    (arrivals : List Arrival) (db : Db) (p : Provider) (t : Key)
    → recorded p t db.webhook_events ≡ true
    → recorded p t (handle_all arrivals db).webhook_events ≡ true
unfolding handle_all
handle_all-recorded [] db p t h = h
handle_all-recorded (a ∷ rest) db p t h =
    handle_all-recorded rest (handle a.gateways a.now a.webhook db).1 p t
      (handle-recorded a.gateways a.now a.webhook db p t h)

-- However many webhooks come between, and whenever it comes, a webhook with the provider and the
-- reference of an earlier one is answered and logged as a duplicate, and changes nothing else.
pub handle_again :
    (g g' : Gateways) (now later : Time) (w w' : Webhook) (between : List Arrival) (db : Db)
    (s s' : Settlement) (t : Key)
    → receive g now w db ≡ proceed s
    → s.reference ≡ some t
    → receive g' later w' (handle_all between (handle g now w db).1) ≡ proceed s'
    → s'.provider ≡ s.provider
    → s'.reference ≡ some t
    → handle g' later w' (handle_all between (handle g now w db).1) ≡ (
      ok tt,
      log (Audit.webhook_duplicate s.provider t) (handle_all between (handle g now w db).1),
    )
unfolding handle
handle_again g g' now later w w' between db s s' t e ref e' same ref' =
    let old =
      handle_all-recorded between (settle g now s db).1 s.provider t
        (settle-recorded g now s db t ref) in
    rw e' (elim (settle-cases g' later s' (handle_all between (handle g now w db).1)) [
      | inl (missing, r) ↦ absurd (ground arith)
      | inr (inl (u, there, known, r)) ↦ ground arith
      | inr (inr (u, there, new, r)) ↦ absurd (ground arith)
    ])
