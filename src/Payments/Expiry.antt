-- ===== src/Payments/Expiry.antt =====
-- apps/api/src/payments/order-expiry.service.ts: orders that nobody pays give their places back.
pub mod Pass
use fluid_events.Prelude.{
  ℕ, ◌+◌, ◌-◌, ◌*◌, ltb, ◌==◌, if◌then◌else◌, Bool, true, false, ◌&&◌, Option, none, some, List, [],
  ◌∷◌, keep, length,
}
use fluid_events.Payments.{Key, Time, Order, OrderStatus, pending, Db, Audit, log}
use fluid_events.Payments.Orders.{find_order, update_order, release_items, status_eq}

abbrev pub minutes_avant_expiration : ℕ
minutes_avant_expiration = 30

abbrev pub limite : Time → Time
limite now = now - minutes_avant_expiration * 60 * 1000

-- `where: { status: 'PENDING', createdAt: { lt: limite } }`.
abbrev pub is_abandoned : Time → Order → Bool
is_abandoned now o = status_eq o.status pending && ltb o.created_at (limite now)

abbrev pub as_expired : Order → Order
as_expired o = record o { status = OrderStatus.expired }

-- `updateMany` with the status in its `where`: the rows that it changes, and how many.
abbrev pub expire_if : Bool → Order → Order → Db → Db × Bool
expire_if false commande stored db = (db, false)
expire_if true commande stored db = (
  record db {
    orders = update_order commande.id as_expired db.orders;
    tickets = release_items db.tickets commande.items;
  },
  true,
)

-- The transaction for one order, as it was read; the flag is `touchees !== 0`.
unfoldable pub expire_one : Order → Db → Db × Bool
expire_one commande db = elim (find_order commande.id db.orders) [
  | none ↦ (db, false)
  | some o ↦ expire_if (status_eq o.status pending) commande o db
]

abbrev pub with_audit : Order → Db × Bool → Db
with_audit commande (db, false) = db
with_audit commande (db, true) = log (Audit.order_expired commande.id (length commande.items)) db

-- The loop; the number is `rendues`. No transaction fails here.
unfoldable pub expire_all : List Order → Db → Db × ℕ
expire_all [] db = (db, 0)
expire_all (c ∷ cs) db =
    let one = expire_one c db in
    let (rest, rendues) = expire_all cs (with_audit c one) in
    (rest, (if one.1 then 1 else 0) + rendues)

unfoldable pub expirer_commandes_abandonnees : Time → Db → Db × ℕ
expirer_commandes_abandonnees now db = expire_all (keep (is_abandoned now) db.orders) db
