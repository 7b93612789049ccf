-- ===== src/Payments/Ledger/Outcome.antt =====
-- What a successful and a failed `initPayment` leave behind.
use fluid_events.Prelude.{
  Result-cases, ℕ, ◌+◌, ◌≤◌, Bool, Option, none, some, List, [], ◌∷◌, ◌≡◌, arith, inl, inr,
  Option-cases, refl, sym, ok, thrown, ErrorCode, ◌≢◌, ◌∙◌, ap, length,
}
use fluid_events.Payments.{
  Key, Time, Tickets, Db, ProviderConfig, Order, pending, Provider, kkiapay, cinetpay, log,
}
use fluid_events.Payments.Stock.Guard.{Keyed}
use fluid_events.Payments.Orders.{find_order, count_items, live_items}
use fluid_events.Payments.Orders.Accounts.{live_items-update_order, find_order-update_order, at}
use fluid_events.Payments.Init.{
  CartItem, Prepared, prepare, merge_quantities, merge_from, add_quantity, find_tickets, total,
  new_order, make_items, abort_failed_init, as_failed, with_ref, open_checkout, init_payment,
  PaymentInitResult, find_active,
}
use fluid_events.Payments.Init.Checks.{IsPayable, prepare-IsPayable}
use fluid_events.Payments.Ledger.{IsConsistent, lines_quantity, count_items-make_items}
use fluid_events.Payments.Ledger.Checkout.{
  Waits, placed_db, placed_db-IsConsistent, prepared-ReadsLines, placed-Waits, after_order-cases,
}

-- How many places of a ticket a cart asks for, over all its lines.
abbrev pub cart_quantity : Key → List CartItem → ℕ
cart_quantity t [] = 0
cart_quantity t (i ∷ is) = at i.ticket_id i.quantity t + cart_quantity t is

abbrev merged_quantity : Key → List (Key × ℕ) → ℕ
merged_quantity t [] = 0
merged_quantity t ((id, n) ∷ m) = at id n t + merged_quantity t m

merged_quantity-add_quantity :
    (t id : Key) (q : ℕ) (m : List (Key × ℕ))
    → merged_quantity t (add_quantity id q m) ≡ at id q t + merged_quantity t m
unfolding add_quantity
merged_quantity-add_quantity t id q [] = refl
merged_quantity-add_quantity t id q ((j, n) ∷ m) =
    ground (arith, merged_quantity-add_quantity t id q m)

merged_quantity-merge_from :
    (t : Key) (m : List (Key × ℕ)) (is : List CartItem)
    → merged_quantity t (merge_from m is) ≡ merged_quantity t m + cart_quantity t is
unfolding merge_from
merged_quantity-merge_from t m [] = omega arith
merged_quantity-merge_from t m (i ∷ is) = omega (
  arith,
  merged_quantity-merge_from t (add_quantity i.ticket_id i.quantity m) is,
  merged_quantity-add_quantity t i.ticket_id i.quantity m,
)

length-find_tickets-le : (ts : Tickets) (m : List (Key × ℕ)) → length (find_tickets ts m) ≤ length m
unfolding find_tickets
length-find_tickets-le ts [] = omega arith
length-find_tickets-le ts ((id, n) ∷ m) = ground (arith, length-find_tickets-le ts m)

lines_quantity-find_tickets :
    (ts : Tickets) (t : Key) (m : List (Key × ℕ))
    → Keyed ts
    → length (find_tickets ts m) ≡ length m
    → lines_quantity t (find_tickets ts m) ≡ merged_quantity t m
unfolding find_tickets
lines_quantity-find_tickets ts t [] k e = refl
lines_quantity-find_tickets ts t ((id, n) ∷ m) k e = elim (Option-cases (ts id)) [
  | inl missing ↦ ground (arith, length-find_tickets-le ts m)
  | inr (u, found) ↦ ground (arith, k id u found, lines_quantity-find_tickets ts t m k)
]

-- The items of an order count as the cart does.
prepared_places :
    (now : Time) (items : List CartItem) (db : Db) (p : Prepared) (t next : Key)
    → Keyed db.tickets
    → IsPayable now items db p
    → count_items t (make_items next p.lines) ≡ cart_quantity t items
unfolding merge_quantities
prepared_places now items db p t next k ready =
    count_items-make_items t next p.lines
    ∙ ap (lines_quantity t) ready.lines_found
    ∙ lines_quantity-find_tickets db.tickets t (merge_quantities items) k
        (sym (ap length ready.lines_found) ∙ ready.all_found)
    ∙ merged_quantity-merge_from t [] items
    ∙ omega arith

-- The order that a cart becomes.
pub record IsOrderOf (now : Time) (client : Key) (items : List CartItem) (before after : Db)
    : Type 0 where
  pub order : Order
  pub stored : find_order before.next_order after.orders ≡ some order
  pub waits : order.status ≡ pending
  pub owner : order.client_id ≡ client
  pub created : order.created_at ≡ now
  pub places : (t : Key) → count_items t order.items ≡ cart_quantity t items
  pub amount : order.total_amount ≡ total (find_tickets before.tickets (merge_quantities items))

module _ (production : Bool) (open_session : ProviderConfig → Order → Option (Key × Key)) where
  open_checkout-find_order :
      (provider : Provider) (p : Prepared) (o : Order) (db : Db) (answer : PaymentInitResult)
      → find_order o.id db.orders ≡ some o
      → (open_checkout production open_session provider p o db).0 ≡ ok answer
      → (ref : Option Key) × (find_order o.id
            (open_checkout production open_session provider p o db).1.orders
          ≡ some (record o { payment_ref = ref }))
  unfolding open_checkout
  open_checkout-find_order kkiapay p o db answer found e = elim (Option-cases p.config.public_key) [
    | inl missing ↦ (none, ground arith)
    | inr (key, there) ↦ (o.payment_ref, rw there found)
  ]
  open_checkout-find_order cinetpay p o db answer found e =
      elim (Option-cases (open_session p.config o)) [
        | inl failure ↦ (none, ground arith)
        | inr (reply, opened) ↦ (o.payment_ref, rw opened found)
      ]
  open_checkout-find_order _ p o db answer found e = elim (Option-cases (open_session p.config o)) [
    | inl failure ↦ (none, ground arith)
    | inr ((ref, url), opened) ↦ (
      some ref,
      rw opened (
          ground (
            arith,
            find_order-update_order (with_ref ref) (λ q. refl) o.id o.id db.orders o found,
          )),
    )
  ]

  -- When `initPayment` answers, its order is stored: it waits for its payment, belongs to the client,
  -- has for each ticket as many items as the cart asks for over all its lines, and its amount is the
  -- sum of the prices that were read by the merged quantities.
  pub init_payment-IsOrderOf :
      (now : Time) (client : Key) (items : List CartItem) (db : Db) (answer : PaymentInitResult)
      → IsConsistent db
      → (init_payment production open_session now client items db).0 ≡ ok answer
      → IsOrderOf now client items db (init_payment production open_session now client items db).1
  unfolding init_payment placed_db
  init_payment-IsOrderOf now client items db answer v e =
      elim (Result-cases (prepare now items db)) [
        | inl (code, refused) ↦ absurd (ground arith)
        | inr (p, passed) ↦ elim (after_order-cases production open_session now client p db) [
          | inl (t, lost) ↦ absurd (ground arith)
          | inr (us, same, opened) ↦
              let ready = prepare-IsPayable now items db p passed in
              let (ref, stored) =
                open_checkout-find_order p.config.provider p (new_order now client p db)
                  (placed_db production open_session now client p db us) answer
                  (placed-Waits production open_session now client p db us).0 (ground arith) in
              rw (passed, opened)
                (record {
                  order = record (new_order now client p db) { payment_ref = ref };
                  stored = stored;
                  waits = refl;
                  owner = refl;
                  created = refl;
                  places = λ t. prepared_places now items db p t db.next_item v.keyed ready;
                  amount = ready.amount ∙ ap total ready.lines_found;
                })
        ]
      ]

  open_checkout-gives_back :
      (provider : Provider) (p : Prepared) (o : Order) (db : Db) (code : ErrorCode) (t : Key)
      → IsConsistent db
      → Waits p o db
      → (provider ≡ kkiapay → p.config.public_key ≢ none)
      → (open_checkout production open_session provider p o db).0 ≡ thrown code
      → live_items t (open_checkout production open_session provider p o db).1.orders
          + count_items t o.items
        ≡ live_items t db.orders
  unfolding open_checkout abort_failed_init log
  open_checkout-gives_back kkiapay p o db code t v w key e =
      elim (Option-cases p.config.public_key) [
        | inl missing ↦ absurd (key refl missing)
        | inr (k, there) ↦ absurd (ground arith)
      ]
  open_checkout-gives_back cinetpay p o db code t v w key e =
      elim (Option-cases (open_session p.config o)) [
        | inl failure ↦ rw failure (
            ground (
              arith,
              live_items-update_order as_failed t db.next_order o.id db.orders o v.fresh w.0,
            ))
        | inr (reply, opened) ↦ absurd (ground arith)
      ]
  open_checkout-gives_back _ p o db code t v w key e =
      elim (Option-cases (open_session p.config o)) [
        | inl failure ↦ rw failure (
            ground (
              arith,
              live_items-update_order as_failed t db.next_order o.id db.orders o v.fresh w.0,
            ))
        | inr ((ref, url), opened) ↦ absurd (ground arith)
      ]

  -- When `initPayment` fails, no order holds more or fewer places than before, if each active
  -- configuration of Kkiapay has its public key.
  pub init_payment-holds_nothing :
      (now : Time) (client : Key) (items : List CartItem) (db : Db) (code : ErrorCode) (t : Key)
      → IsConsistent db
      → ((event : Key) (c : ProviderConfig)
          → find_active event db.configs ≡ some c
          → c.provider ≡ kkiapay
          → c.public_key ≢ none)
      → (init_payment production open_session now client items db).0 ≡ thrown code
      → live_items t (init_payment production open_session now client items db).1.orders
        ≡ live_items t db.orders
  unfolding init_payment placed_db log live_items
  init_payment-holds_nothing now client items db code t v keys e =
      elim (Result-cases (prepare now items db)) [
        | inl (c, refused) ↦ rw refused
        | inr (p, passed) ↦ elim (after_order-cases production open_session now client p db) [
          | inl (k, lost) ↦ rw (passed, lost)
          | inr (us, same, opened) ↦
              let given =
                open_checkout-gives_back p.config.provider p (new_order now client p db)
                  (placed_db production open_session now client p db us) code t
                  (placed_db-IsConsistent production open_session now client p db us v
                    (prepared-ReadsLines production open_session now items db p v passed) same)
                  (placed-Waits production open_session now client p db us)
                  (keys p.event.id p.config (prepare-IsPayable now items db p passed).config_found)
                  (ground arith) in
              rw (passed, opened) (omega (arith, given))
        ]
      ]
