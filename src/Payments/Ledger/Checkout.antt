-- ===== src/Payments/Ledger/Checkout.antt =====
-- `initPayment` as a whole: what it leaves in the database on success and on failure.
use fluid_events.Prelude.{
  Result-cases, ℕ, ◌+◌, Bool, Option, some, List, [], ◌∷◌, ◌≡◌, arith, inl, inr, Option-cases, refl,
  ok, thrown, ◌⊎◌, ErrorCode, subst, length,
}
use fluid_events.Payments.{
  Key, Time, Tickets, Db, ProviderConfig, Order, pending, Provider, kkiapay, cinetpay, Audit, log,
}
use fluid_events.Payments.Stock.Guard.{Keyed}
use fluid_events.Payments.Orders.{find_order, update_order}
use fluid_events.Payments.Init.{
  CartItem, Line, Prepared, prepare, merge_quantities, find_tickets, line_of, place_order,
  new_order, make_items, abort_failed_init, as_failed, with_ref, open_checkout, init_payment,
  after_order,
}
use fluid_events.Payments.Init.Checks.{prepare-IsPayable}
use fluid_events.Payments.Ledger.{
  IsConsistent, log-IsConsistent, hold-IsConsistent, abort-IsConsistent,
}
use fluid_events.Payments.Ledger.Placing.{ReadsLines, place_order-IsConsistent, place_order-cases}

line_of-ReadsLines :
    (ts : Tickets) (k : Keyed ts) (id : Key) (n : ℕ) (rest : List Line)
    → ReadsLines ts rest
    → ReadsLines ts (line_of (ts id) n rest)
line_of-ReadsLines ts k id n rest h = elim (Option-cases (ts id)) [
  | inl e ↦ rw e h
  | inr (t, e) ↦ rw e ((λ u found. ground (arith, k id t e)), h)
]

-- The tickets as they were just read have their own capacities.
find_tickets-ReadsLines :
    (ts : Tickets) (m : List (Key × ℕ)) → Keyed ts → ReadsLines ts (find_tickets ts m)
unfolding find_tickets
find_tickets-ReadsLines ts [] k = tt
find_tickets-ReadsLines ts ((id, n) ∷ m) k =
    line_of-ReadsLines ts k id n (find_tickets ts m) (find_tickets-ReadsLines ts m k)

-- An order as it was placed: it stands first and waits for its payment.
abbrev pub Waits : Prepared → Order → Db → Type 0
Waits p o db =
    (find_order o.id db.orders ≡ some o)
    × (o.status ≡ pending)
    × ((next : Key) × (o.items ≡ make_items next p.lines))

module _ (production : Bool) (open_session : ProviderConfig → Order → Option (Key × Key)) where
  aborted-IsConsistent :
      (p : Prepared) (o : Order) (db : Db)
      → IsConsistent db
      → Waits p o db
      → IsConsistent (abort_failed_init o.id p.lines db)
  unfolding abort_failed_init
  aborted-IsConsistent p o db v (found, waits, (next, made)) =
      log-IsConsistent _ _ (
        abort-IsConsistent as_failed (λ q. refl) db o.id o v found (rw waits) refl p.lines next
          made)

  referred-IsConsistent :
      (ref : Key) (o : Order) (db : Db)
      → IsConsistent db
      → find_order o.id db.orders ≡ some o
      → IsConsistent (record db { orders = update_order o.id (with_ref ref) db.orders })
  referred-IsConsistent ref o db v found =
      hold-IsConsistent (with_ref ref) (λ q. refl) db o.id o v found (λ t. refl)

  open_checkout-IsConsistent :
      (provider : Provider) (p : Prepared) (o : Order) (db : Db)
      → IsConsistent db
      → Waits p o db
      → IsConsistent (open_checkout production open_session provider p o db).1
  unfolding open_checkout
  open_checkout-IsConsistent kkiapay p o db v w = elim (Option-cases p.config.public_key) [
    | inl e ↦ rw e v
    | inr (key, e) ↦ rw e v
  ]
  open_checkout-IsConsistent cinetpay p o db v w = elim (Option-cases (open_session p.config o)) [
    | inl e ↦ rw e (aborted-IsConsistent p o db v w)
    | inr (reply, e) ↦ rw e v
  ]
  open_checkout-IsConsistent _ p o db v w = elim (Option-cases (open_session p.config o)) [
    | inl e ↦ rw e (aborted-IsConsistent p o db v w)
    | inr ((ref, url), e) ↦ rw e (referred-IsConsistent ref o db v w.0)
  ]

  -- The transaction's answer, handed to the provider.
  module _ (now : Time) (client : Key) (p : Prepared) (db : Db) where
    unfoldable pub placed_db : Tickets → Db
    placed_db us = log (Audit.payment_init db.next_order) (record db {
      tickets = us;
      orders = new_order now client p db ∷ db.orders;
      next_order = db.next_order + 1;
      next_item = db.next_item + length (make_items db.next_item p.lines);
    })

    pub placed-Waits : (us : Tickets) → Waits p (new_order now client p db) (placed_db us)
    unfolding placed_db find_order log
    placed-Waits us = (ground arith, refl, (db.next_item, refl))

    -- The outcome of the order's creation, then of the checkout.
    pub after_order-cases :
        ((t : Key) × (after_order production open_session p (place_order now client p db)
            ≡ (thrown ErrorCode.stock_race_condition, log (Audit.stock_race t) db)))
        ⊎ ((us : Tickets) × (log (Audit.payment_init db.next_order) (place_order now client p db).1
              ≡ placed_db us)
            × (after_order production open_session p (place_order now client p db)
                ≡ open_checkout production open_session p.config.provider p
                    (new_order now client p db)
                    (placed_db us)))
    unfolding placed_db
    after_order-cases = elim (place_order-cases now client p db) [
      | inl (t, lost, e) ↦ inl (t, rw e refl)
      | inr (us, done, e) ↦ inr (us, rw e refl, rw e refl)
    ]

    pub placed_db-IsConsistent :
        (us : Tickets)
        → IsConsistent db
        → ReadsLines db.tickets p.lines
        → log (Audit.payment_init db.next_order) (place_order now client p db).1 ≡ placed_db us
        → IsConsistent (placed_db us)
    placed_db-IsConsistent us v h same =
        subst IsConsistent same
          (log-IsConsistent _ _ (place_order-IsConsistent now client p db v h))

    after_order-IsConsistent :
        IsConsistent db
        → ReadsLines db.tickets p.lines
        → IsConsistent (after_order production open_session p (place_order now client p db)).1
    after_order-IsConsistent v h = elim after_order-cases [
      | inl (t, e) ↦ rw e (log-IsConsistent _ db v)
      | inr (us, same, e) ↦ rw e (
          open_checkout-IsConsistent p.config.provider p _ (placed_db us)
            (placed_db-IsConsistent us v h same) (placed-Waits us))
    ]

  pub prepared-ReadsLines :
      (now : Time) (items : List CartItem) (db : Db) (p : Prepared)
      → IsConsistent db
      → prepare now items db ≡ ok p
      → ReadsLines db.tickets p.lines
  prepared-ReadsLines now items db p v e =
      rw ((prepare-IsPayable now items db p e).lines_found)
        (find_tickets-ReadsLines db.tickets (merge_quantities items) v.keyed)

  -- Whatever the cart and the answer of the provider, `initPayment` keeps the counters equal to the
  -- places that orders hold, and sells no ticket beyond its capacity.
  pub init_payment-IsConsistent :
      (now : Time) (client : Key) (items : List CartItem) (db : Db)
      → IsConsistent db
      → IsConsistent (init_payment production open_session now client items db).1
  unfolding init_payment
  init_payment-IsConsistent now client items db v = elim (Result-cases (prepare now items db)) [
    | inl (e, refused) ↦ rw refused v
    | inr (p, passed) ↦
        rw passed
          (after_order-IsConsistent now client p db v (prepared-ReadsLines now items db p v passed))
  ]
