-- ===== src/Payments/Expiry/Pass.antt =====
-- A pass of the expiry: which orders it closes, and that it gives back their places, once.
use fluid_events.Prelude.{
  ◌≤◌, ◌==◌, if◌then◌else◌, Bool, false, ◌&&◌, none, some, List, [], ◌∷◌, keep, length, ◌≡◌, arith,
  inl, inr, Bool-cases, Option-cases, refl, All, any, subst, ◌⊎◌,
}
use fluid_events.Payments.{Key, Time, Order, pending, Db, Audit, log}
use fluid_events.Payments.Orders.{find_order, update_order, release_items, status_eq, Below}
use fluid_events.Payments.Orders.Accounts.{
  status_eq-pending, find_order-update_order, find_order-update_order-none, find_order-lt,
}
use fluid_events.Payments.Ledger.{IsConsistent, log-IsConsistent, close-IsConsistent}
use fluid_events.Payments.Expiry.{
  is_abandoned, as_expired, expire_one, with_audit, expire_all, expirer_commandes_abandonnees,
}

-- An order as it was read has the items that it is stored with.
abbrev pub ReadsItems : Db → Order → Type 0
ReadsItems db c = (o : Order) → find_order c.id db.orders ≡ some o → o.items ≡ c.items

-- The two outcomes of the transaction.
pub expire_one-cases :
    (c : Order) (db : Db)
    → ((with_audit c (expire_one c db) ≡ db)
        × ((o : Order) → find_order c.id db.orders ≡ some o → status_eq o.status pending ≡ false))
      ⊎ ((o : Order) × (find_order c.id db.orders ≡ some o)
          × (o.status ≡ pending)
          × (with_audit c (expire_one c db)
              ≡ log (Audit.order_expired c.id (length c.items)) (record db {
                orders = update_order c.id as_expired db.orders;
                tickets = release_items db.tickets c.items;
              })))
unfolding expire_one
expire_one-cases c db = elim (Option-cases (find_order c.id db.orders)) [
  | inl missing ↦ inl (rw (missing, expire_one) refl, λ o e. ground arith)
  | inr (o, found) ↦ elim (Bool-cases (status_eq o.status pending)) [
    | inl waits ↦
        inr (o, found, status_eq-pending o.status waits, rw (found, expire_one, waits) refl)
    | inr closed ↦ inl (rw (found, expire_one, closed) refl, λ p e. ground arith)
  ]
]

-- A transaction of the expiry keeps the invariant on any database, also when the order was paid or
-- closed since it was read: then it changes nothing.
pub expire_one-IsConsistent :
    (c : Order) (db : Db)
    → IsConsistent db
    → ReadsItems db c
    → IsConsistent (with_audit c (expire_one c db))
expire_one-IsConsistent c db v same = elim (expire_one-cases c db) [
  | inl (e, closed) ↦ rw e v
  | inr (o, found, waits, e) ↦ rw e (
      log-IsConsistent _ _ (
        subst
          (λ is. IsConsistent (record db {
            orders = update_order c.id as_expired db.orders;
            tickets = release_items db.tickets is;
          }))
          (same o found)
          (close-IsConsistent as_expired (λ q. refl) db c.id o v found (rw waits) refl)))
]

-- What a transaction of the expiry makes of each order.
pub expire_one-find_order :
    (c : Order) (db : Db) (id : Key) (o : Order)
    → find_order id db.orders ≡ some o
    → find_order id (with_audit c (expire_one c db)).orders
      ≡ some (if c.id == id && status_eq o.status pending then as_expired o else o)
unfolding log
expire_one-find_order c db id o e = elim (expire_one-cases c db) [
  | inl (same, closed) ↦ rw same (ground (arith, closed o))
  | inr (p, found, waits, same) ↦
      rw same (ground (arith, find_order-update_order as_expired (λ q. refl) c.id id db.orders o e))
]

expire_one-find_none :
    (c : Order) (db : Db) (id : Key)
    → find_order id db.orders ≡ none
    → find_order id (with_audit c (expire_one c db)).orders ≡ none
unfolding log
expire_one-find_none c db id e = elim (expire_one-cases c db) [
  | inl (same, closed) ↦ rw same e
  | inr (p, found, waits, same) ↦
      rw same (find_order-update_order-none as_expired (λ q. refl) c.id id db.orders e)
]

expire_one-ReadsItems :
    (c d : Order) (db : Db) → ReadsItems db d → ReadsItems (with_audit c (expire_one c db)) d
expire_one-ReadsItems c d db h p e = elim (Option-cases (find_order d.id db.orders)) [
  | inl missing ↦ absurd (ground (arith, expire_one-find_none c db d.id missing))
  | inr (o, found) ↦ ground (arith, expire_one-find_order c db d.id o found, h o found)
]

All-ReadsItems :
    (c : Order) (db : Db) (ds : List Order)
    → All (ReadsItems db) ds
    → All (ReadsItems (with_audit c (expire_one c db))) ds
All-ReadsItems c db [] h = tt
All-ReadsItems c db (d ∷ ds) (h, hs) = (expire_one-ReadsItems c d db h, All-ReadsItems c db ds hs)

expire_all-IsConsistent :
    (cs : List Order) (db : Db)
    → IsConsistent db
    → All (ReadsItems db) cs
    → IsConsistent (expire_all cs db).0
unfolding expire_all
expire_all-IsConsistent [] db v h = v
expire_all-IsConsistent (c ∷ cs) db v (h, hs) =
    expire_all-IsConsistent cs (with_audit c (expire_one c db)) (expire_one-IsConsistent c db v h)
      (All-ReadsItems c db cs hs)

abbrev has_id : Key → List Order → Bool
has_id id = any (λ c. c.id == id)

expire_all-find_order :
    (cs : List Order) (db : Db) (id : Key) (o : Order)
    → find_order id db.orders ≡ some o
    → find_order id (expire_all cs db).0.orders
      ≡ some (if has_id id cs && status_eq o.status pending then as_expired o else o)
unfolding expire_all
expire_all-find_order [] db id o e = e
expire_all-find_order (c ∷ cs) db id o e =
    let here = expire_one-find_order c db id o e in
    let q = (if c.id == id && status_eq o.status pending then as_expired o else o) in
    let later = expire_all-find_order cs (with_audit c (expire_one c db)) id q here in
    ground (arith, later)

abbrev Stored : List Order → Order → Type 0
Stored os d = find_order d.id os ≡ some d

Stored-cons :
    (c : Order) (os ds : List Order) → Below c.id os → All (Stored os) ds → All (Stored (c ∷ os)) ds
unfolding find_order
Stored-cons c os [] b h = tt
Stored-cons c os (d ∷ ds) b (h, hs) =
    (ground (arith, find_order-lt c.id d.id os d b h), Stored-cons c os ds b hs)

-- What a query of the table returns is stored.
keep-Stored :
    (p : Order → Bool) (n : Key) (os : List Order) → Below n os → All (Stored os) (keep p os)
unfolding find_order
keep-Stored p n [] b = tt
keep-Stored p n (c ∷ os) b =
    let rest = Stored-cons c os (keep p os) b.1 (keep-Stored p c.id os b.1) in
    elim (Bool-cases (p c)) [ inl hit ↦ rw hit (ground arith, rest) | inr miss ↦ rw miss rest ]

Stored-ReadsItems : (db : Db) (ds : List Order) → All (Stored db.orders) ds → All (ReadsItems db) ds
Stored-ReadsItems db [] h = tt
Stored-ReadsItems db (d ∷ ds) (h, hs) = (λ o e. ground arith, Stored-ReadsItems db ds hs)

-- A pass of the expiry keeps the invariant: it gives back exactly the places of the orders it closes.
pub expirer_commandes_abandonnees-IsConsistent :
    (now : Time) (db : Db) → IsConsistent db → IsConsistent (expirer_commandes_abandonnees now db).0
unfolding expirer_commandes_abandonnees
expirer_commandes_abandonnees-IsConsistent now db v =
    expire_all-IsConsistent (keep (is_abandoned now) db.orders) db v (
      Stored-ReadsItems db (keep (is_abandoned now) db.orders)
        (keep-Stored (is_abandoned now) db.next_order db.orders v.fresh))

has_id_above :
    (p : Order → Bool) (n id : Key) (os : List Order)
    → Below n os
    → n ≤ id
    → has_id id (keep p os) ≡ false
has_id_above p n id [] b h = refl
has_id_above p n id (c ∷ os) b h = ground (arith, has_id_above p c.id id os b.1)

has_id-keep :
    (p : Order → Bool) (n id : Key) (os : List Order) (o : Order)
    → Below n os
    → find_order id os ≡ some o
    → has_id id (keep p os) ≡ p o
unfolding find_order
has_id-keep p n id [] o b e = ground arith
has_id-keep p n id (c ∷ os) o b e = elim (Bool-cases (c.id == id)) [
  | inl same ↦
      let is_o : c ≡ o = ground arith in
      elim (Bool-cases (p c)) [
        | inl hit ↦ ground arith
        | inr miss ↦ ground (arith, has_id_above p c.id id os b.1)
      ]
  | inr other ↦ ground (arith, has_id-keep p c.id id os o b.1)
]

-- A pass closes exactly the orders that are pending and were created more than thirty minutes before
-- it, as expired, and leaves every other order as it is.
pub expirer_commandes_abandonnees-find_order :
    (now : Time) (db : Db) (id : Key) (o : Order)
    → IsConsistent db
    → find_order id db.orders ≡ some o
    → find_order id (expirer_commandes_abandonnees now db).0.orders
      ≡ some (if is_abandoned now o then as_expired o else o)
unfolding expirer_commandes_abandonnees
expirer_commandes_abandonnees-find_order now db id o v e =
    let listed = has_id-keep (is_abandoned now) db.next_order id db.orders o v.fresh e in
    let after = expire_all-find_order (keep (is_abandoned now) db.orders) db id o e in
    elim (Bool-cases (is_abandoned now o)) [ inl old ↦ ground arith | inr young ↦ ground arith ]
