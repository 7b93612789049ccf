-- ===== src/Payments/Course.antt =====
-- The course of an order, and that each operation on the orders keeps to it.
use fluid_events.Prelude.{
  Result-cases, ◌==◌, Bool, false, Option, some, List, ◌∷◌, ◌≡◌, refl, arith, inl, inr,
  Option-cases, Bool-cases, subst, sym,
}
use fluid_events.Payments.{
  Key, Time, Order, OrderStatus, pending, paid, failed, Provider, kkiapay, cinetpay, ProviderConfig,
  Db, log,
}
use fluid_events.Payments.Orders.{find_order, status_eq}
use fluid_events.Payments.Orders.Accounts.{
  status_eq-pending, find_order-update_order, find_order-lt,
}
use fluid_events.Payments.Init.{
  CartItem, prepare, Prepared, new_order, open_checkout, init_payment, as_failed, with_ref,
  abort_failed_init,
}
use fluid_events.Payments.Ledger.{IsConsistent}
use fluid_events.Payments.Ledger.Checkout.{placed_db, after_order-cases}
use fluid_events.Payments.Webhooks.{
  Gateways, Settlement, finish, finalize_order_paid, finalize_order_failed, signaler_webhook_tardif,
  as_paid, end_date_of,
}
use fluid_events.Payments.Webhooks.Handlers.{Webhook, receive, handle}
use fluid_events.Payments.Webhooks.Settled.{receive-find_order, settle-cases, Received-cases}
use fluid_events.Payments.Expiry.{is_abandoned, as_expired, expirer_commandes_abandonnees}
use fluid_events.Payments.Expiry.Pass.{expirer_commandes_abandonnees-find_order}

-- The course of an order: it waits until it is paid, fails or expires, and then stays so.
pub data Moves : OrderStatus → OrderStatus → Type 0 where
  stays : {s : OrderStatus} → Moves s s
  pays : Moves pending paid
  fails : Moves pending failed
  expires : Moves pending OrderStatus.expired

Moves-trans : {s t u : OrderStatus} → Moves s t → Moves t u → Moves s u
Moves-trans stays n = n
Moves-trans pays stays = pays
Moves-trans fails stays = fails
Moves-trans expires stays = expires

-- A later state of the same sale.
pub record Follows (o o' : Order) : Type 0 where
  pub status : Moves o.status o'.status
  pub client : o'.client_id ≡ o.client_id
  pub event : o'.event_id ≡ o.event_id
  pub amount : o'.total_amount ≡ o.total_amount

pub Follows-refl : (o : Order) → Follows o o
Follows-refl o = record { status = stays; client = refl; event = refl; amount = refl }

pub Follows-trans : (o o' o'' : Order) → Follows o o' → Follows o' o'' → Follows o o''
Follows-trans o o' o'' f g = record {
  status = Moves-trans f.status g.status;
  client = cc (f.client, g.client);
  event = cc (f.event, g.event);
  amount = cc (f.amount, g.amount);
}

-- An order that waits may be closed in each of the ways, and anything else changes nothing.
waiting-Follows :
    (o : Order) (f : Order → Order)
    → o.status ≡ pending
    → Moves pending (f o).status
    → (f o).client_id ≡ o.client_id
    → (f o).event_id ≡ o.event_id
    → (f o).total_amount ≡ o.total_amount
    → Follows o (f o)
waiting-Follows o f w m c e a = record {
  status = subst (λ s. Moves s (f o).status) (sym w) m;
  client = c;
  event = e;
  amount = a;
}

-- The order under an identifier is there afterwards, as a later state.
abbrev pub Continues : Key → Order → Db → Type 0
Continues id o db = (o' : Order) × (find_order id db.orders ≡ some o') × Follows o o'

module _ (production : Bool) (open_session : ProviderConfig → Order → Option (Key × Key)) where
  open_checkout-others :
      (provider : Provider) (p : Prepared) (n : Order) (db : Db) (id : Key) (o : Order)
      → (n.id == id) ≡ false
      → find_order id db.orders ≡ some o
      → find_order id (open_checkout production open_session provider p n db).1.orders ≡ some o
  unfolding open_checkout abort_failed_init log
  open_checkout-others kkiapay p n db id o other e = elim (Option-cases p.config.public_key) [
    | inl a ↦ rw a e
    | inr (k, a) ↦ rw a e
  ]
  open_checkout-others cinetpay p n db id o other e =
      elim (Option-cases (open_session p.config n)) [
        | inl a ↦
            ground (arith, find_order-update_order as_failed (λ q. refl) n.id id db.orders o e)
        | inr (r, a) ↦ rw a e
      ]
  open_checkout-others _ p n db id o other e = elim (Option-cases (open_session p.config n)) [
    | inl a ↦ ground (arith, find_order-update_order as_failed (λ q. refl) n.id id db.orders o e)
    | inr ((ref, url), a) ↦
        ground (arith, find_order-update_order (with_ref ref) (λ q. refl) n.id id db.orders o e)
  ]

  -- A checkout leaves the orders that are there.
  pub init_payment-others :
      (now : Time) (client : Key) (items : List CartItem) (db : Db) (id : Key) (o : Order)
      → IsConsistent db
      → find_order id db.orders ≡ some o
      → find_order id (init_payment production open_session now client items db).1.orders ≡ some o
  unfolding init_payment
  init_payment-others now client items db id o v e = elim (Result-cases (prepare now items db)) [
    | inl (code, refused) ↦ rw refused e
    | inr (p, passed) ↦
        rw passed (elim (after_order-cases production open_session now client p db) [
          | inl (t, lost) ↦ unfold log in rw lost e
          | inr (us, placed, opened) ↦ rw opened (
              open_checkout-others p.config.provider p (new_order now client p db)
                (placed_db production open_session now client p db us) id o
                (ground (arith, find_order-lt db.next_order id db.orders o v.fresh e))
                (unfold placed_db find_order log in
                  ground (arith, find_order-lt db.next_order id db.orders o v.fresh e)))
        ])
  ]

module _ (g : Gateways) (now : Time) where
  finish-Continues :
      (s : Settlement) (db : Db) (id : Key) (o : Order)
      → find_order s.order.id db.orders ≡ some s.order
      → find_order id db.orders ≡ some o
      → Continues id o (finish g now s db)
  unfolding finish finalize_order_paid finalize_order_failed signaler_webhook_tardif log
  finish-Continues s db id o found e = elim (Bool-cases (status_eq s.order.status pending)) [
    | inl waits ↦
        let paid_now =
          as_paid g now s.reference s.order (end_date_of (db.events s.order.event_id)) in
        elim (Bool-cases (s.order.id == id)) [
          | inl same ↦
              let o_waits : o.status ≡ pending =
                ground (arith, status_eq-pending s.order.status waits) in
              elim (Bool-cases s.succeeded) [
                | inl done ↦ (
                  paid_now o,
                  ground (
                    arith,
                    find_order-update_order paid_now (λ q. refl) s.order.id id db.orders o e,
                  ),
                  waiting-Follows o paid_now o_waits pays refl refl refl,
                )
                | inr not_done ↦ (
                  as_failed o,
                  ground (
                    arith,
                    find_order-update_order as_failed (λ q. refl) s.order.id id db.orders o e,
                  ),
                  waiting-Follows o as_failed o_waits fails refl refl refl,
                )
              ]
          | inr other ↦ (
            o,
            ground (
              arith,
              find_order-update_order paid_now (λ q. refl) s.order.id id db.orders o e,
              find_order-update_order as_failed (λ q. refl) s.order.id id db.orders o e,
            ),
            Follows-refl o,
          )
        ]
    | inr late ↦ (o, ground arith, Follows-refl o)
  ]

  pub handle-Continues :
      (w : Webhook) (db : Db) (id : Key) (o : Order)
      → IsConsistent db
      → find_order id db.orders ≡ some o
      → Continues id o (handle g now w db).1
  unfolding handle log
  handle-Continues w db id o v e = elim (Received-cases g now (receive g now w db)) [
    | inl r ↦ rw r (o, e, Follows-refl o)
    | inr (inl (a, r)) ↦ rw r (o, e, Follows-refl o)
    | inr (inr (inl r)) ↦ rw r (o, e, Follows-refl o)
    | inr (inr (inr (s, r))) ↦ rw r (elim (settle-cases g now s db) [
      | inl (missing, q) ↦ rw q (o, e, Follows-refl o)
      | inr (inl (t, there, old, q)) ↦ rw q (o, e, Follows-refl o)
      | inr (inr (t, there, new, q)) ↦ rw q (
          finish-Continues s (record db { webhook_events = (s.provider, t) ∷ db.webhook_events }) id
            o (receive-find_order g now w db.next_order db s v.fresh r) e)
    ])
  ]

pub expirer_commandes_abandonnees-Continues :
    (now : Time) (db : Db) (id : Key) (o : Order)
    → IsConsistent db
    → find_order id db.orders ≡ some o
    → Continues id o (expirer_commandes_abandonnees now db).0
expirer_commandes_abandonnees-Continues now db id o v e =
    let after = expirer_commandes_abandonnees-find_order now db id o v e in
    elim (Bool-cases (is_abandoned now o)) [
      | inl old ↦ (
        as_expired o,
        rw old at after,
        waiting-Follows o as_expired (status_eq-pending o.status (ground arith)) expires refl refl
            refl,
      )
      | inr young ↦ (o, rw young at after, Follows-refl o)
    ]
