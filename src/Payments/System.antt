-- ===== src/Payments/System.antt =====
-- The shop as a whole: checkouts, webhooks and passes of the expiry, in any order.
use fluid_events.Prelude.{Bool, Option, some, List, [], ◌∷◌, ◌≡◌}
use fluid_events.Payments.{Key, Time, Order, ProviderConfig, Db}
use fluid_events.Payments.Orders.{find_order}
use fluid_events.Payments.Init.{CartItem, init_payment}
use fluid_events.Payments.Ledger.{IsConsistent}
use fluid_events.Payments.Ledger.Checkout.{init_payment-IsConsistent}
use fluid_events.Payments.Webhooks.{Gateways}
use fluid_events.Payments.Webhooks.Handlers.{Webhook, handle}
use fluid_events.Payments.Webhooks.Settled.{handle-IsConsistent}
use fluid_events.Payments.Expiry.{expirer_commandes_abandonnees}
use fluid_events.Payments.Expiry.Pass.{expirer_commandes_abandonnees-IsConsistent}
use fluid_events.Payments.Course.{
  Continues, Follows-refl, Follows-trans, init_payment-others, handle-Continues,
  expirer_commandes_abandonnees-Continues,
}

-- What may happen to the shop: a client pays, a provider calls, or the clock starts a pass.
pub data Happening : Type 0 where
  checkout : (now : Time) → (client : Key) → List CartItem → Happening
  webhook : (now : Time) → Webhook → Happening
  pass : (now : Time) → Happening

module _ (production : Bool) (open_session : ProviderConfig → Order → Option (Key × Key))
    (g : Gateways) where
  unfoldable pub happen : Happening → Db → Db
  happen (checkout now client items) db =
      (init_payment production open_session now client items db).1
  happen (webhook now w) db = (handle g now w db).1
  happen (pass now) db = (expirer_commandes_abandonnees now db).0

  unfoldable pub happen_all : List Happening → Db → Db
  happen_all [] db = db
  happen_all (h ∷ hs) db = happen_all hs (happen h db)

  happen-IsConsistent : (h : Happening) (db : Db) → IsConsistent db → IsConsistent (happen h db)
  unfolding happen
  happen-IsConsistent (checkout now client items) db v =
      init_payment-IsConsistent production open_session now client items db v
  happen-IsConsistent (webhook now w) db v = handle-IsConsistent g now w db v
  happen-IsConsistent (pass now) db v = expirer_commandes_abandonnees-IsConsistent now db v

  happen-Continues :
      (h : Happening) (db : Db) (id : Key) (o : Order)
      → IsConsistent db
      → find_order id db.orders ≡ some o
      → Continues id o (happen h db)
  unfolding happen
  happen-Continues (checkout now client items) db id o v e =
      (o, init_payment-others production open_session now client items db id o v e, Follows-refl o)
  happen-Continues (webhook now w) db id o v e = handle-Continues g now w db id o v e
  happen-Continues (pass now) db id o v e = expirer_commandes_abandonnees-Continues now db id o v e

  -- However checkouts, webhooks and passes of the expiry follow one another, the counters stay equal
  -- to the places that orders hold, and no ticket is sold beyond its capacity.
  pub happen_all-IsConsistent :
      (hs : List Happening) (db : Db) → IsConsistent db → IsConsistent (happen_all hs db)
  unfolding happen_all
  happen_all-IsConsistent [] db v = v
  happen_all-IsConsistent (h ∷ hs) db v =
      happen_all-IsConsistent hs (happen h db) (happen-IsConsistent h db v)

  -- However they follow one another, each order keeps to the abstract course of an order: it is
  -- never lost, its client, event and amount stay, and it moves at most once, from pending to paid,
  -- failed or expired.
  pub happen_all-Continues :
      (hs : List Happening) (db : Db) (id : Key) (o : Order)
      → IsConsistent db
      → find_order id db.orders ≡ some o
      → Continues id o (happen_all hs db)
  unfolding happen_all
  happen_all-Continues [] db id o v e = (o, e, Follows-refl o)
  happen_all-Continues (h ∷ hs) db id o v e =
      let (o', e', f) = happen-Continues h db id o v e in
      let (o2, e2, f2) =
        happen_all-Continues hs (happen h db) id o' (happen-IsConsistent h db v) e' in
      (o2, e2, Follows-trans o o' o2 f f2)
