-- ===== src/Payments/Interleaving.antt =====
-- A webhook reads its order, asks the provider, and only then runs its transaction, whose update has
-- no condition on the status. Here the expiry runs in between.
use fluid_events.Prelude.{
  ℕ, ◌+◌, ◌<◌, ◌==◌, if◌then◌else◌, Option, some, List, [], ◌∷◌, ◌≡◌, refl, arith, inl, inr,
  Option-cases, Bool-cases, ap, ◌∙◌,
}
use fluid_events.Prelude.Int.{ℤ, pos, ◌-ℤ◌, -ℤ_parts, eq_of_parts}
use fluid_events.Payments.{Key, Time, Ticket, Tickets, Order, OrderItem, pending, paid, log, Db}
use fluid_events.Payments.Stock.{release_stock_atomic}
use fluid_events.Payments.Orders.{find_order, release_items, count_items, live_items, Balanced}
use fluid_events.Payments.Orders.Accounts.{live_items-update_order, find_order-update_order}
use fluid_events.Payments.Init.{as_failed}
use fluid_events.Payments.Ledger.{IsConsistent}
use fluid_events.Payments.Expiry.{expire_one, with_audit, as_expired}
use fluid_events.Payments.Expiry.Pass.{expire_one-IsConsistent, expire_one-find_order}
use fluid_events.Payments.Webhooks.{
  Gateways, finalize_order_failed, finalize_order_paid, as_paid, end_date_of,
}
use fluid_events.Payments.Webhooks.Settled.{count_items-with_qr}

sub_sub : (a : ℤ) (m n : ℕ) → a -ℤ pos m -ℤ pos n ≡ a -ℤ pos (m + n)
sub_sub a m n = omega (
  arith,
  -ℤ_parts a (pos m),
  -ℤ_parts (a -ℤ pos m) (pos n),
  -ℤ_parts a (pos (m + n)),
  eq_of_parts (a -ℤ pos m -ℤ pos n) (a -ℤ pos (m + n)),
)

-- The release of one place, read at any ticket.
release_stock_atomic-at :
    (ts : Tickets) (id t : Key) (k : Ticket)
    → ts t ≡ some k
    → (k' : Ticket) × (release_stock_atomic ts id 1 t ≡ some k')
      × (k'.stock_sold ≡ k.stock_sold -ℤ pos (if id == t then 1 else 0))
unfolding release_stock_atomic ◌-ℤ◌
release_stock_atomic-at ts id t k e = elim (Bool-cases (id == t)) [
  | inl same ↦ (record k { stock_sold = k.stock_sold -ℤ pos 1 }, ground arith, ground arith)
  | inr other ↦ elim (Option-cases (ts id)) [
    | inl missing ↦ (k, ground arith, ground arith)
    | inr (u, there) ↦ (k, ground arith, ground arith)
  ]
]

-- What the release of an order's items does to a counter.
release_items-at :
    (ts : Tickets) (is : List OrderItem) (t : Key) (k : Ticket)
    → ts t ≡ some k
    → (k' : Ticket) × (release_items ts is t ≡ some k')
      × (k'.stock_sold ≡ k.stock_sold -ℤ pos (count_items t is))
unfolding release_items
release_items-at ts [] t k e = (
  k,
  e,
  omega (arith, -ℤ_parts k.stock_sold (pos 0), eq_of_parts k.stock_sold (k.stock_sold -ℤ pos 0)),
)
release_items-at ts (i ∷ is) t k e =
    let (k1, e1, s1) = release_stock_atomic-at ts i.ticket_id t k e in
    let (k2, e2, s2) = release_items-at (release_stock_atomic ts i.ticket_id 1) is t k1 e1 in
    (
      k2,
      e2,
      s2
          ∙ ap (λ a. a -ℤ pos (count_items t is)) s1
          ∙ sub_sub k.stock_sold (if i.ticket_id == t then 1 else 0) (count_items t is),
    )

-- What the counter of a ticket is after so many of its places have been given back.
abbrev pub GivenBack : ℕ → Ticket → Tickets → Key → Type 0
GivenBack n k ts t = (k' : Ticket) × (ts t ≡ some k') × (k'.stock_sold ≡ k.stock_sold -ℤ pos n)

module _ (db : Db) (o : Order) (t : Key) (k : Ticket) (v : IsConsistent db)
    (found : find_order o.id db.orders ≡ some o) (waits : o.status ≡ pending)
    (places : 0 < count_items t o.items) (stored : db.tickets t ≡ some k) where
  expired_db : Db
  expired_db = with_audit o (expire_one o db)

  expired-IsConsistent : IsConsistent expired_db
  unfolding expired_db
  expired-IsConsistent = expire_one-IsConsistent o db v (λ p e. ground arith)

  expired-found : find_order o.id expired_db.orders ≡ some (as_expired o)
  unfolding expired_db
  expired-found = ground (arith, expire_one-find_order o db o.id o found)

  expired-tickets : expired_db.tickets ≡ release_items db.tickets o.items
  unfolding expired_db expire_one log
  expired-tickets = ground (arith, found, waits)

  expired-GivenBack : GivenBack (count_items t o.items) k expired_db.tickets t
  expired-GivenBack =
      let (k', e', s') = release_items-at db.tickets o.items t k stored in
      (k', ap (λ ts. ts t) expired-tickets ∙ e', s')

  -- In a consistent shop, a webhook that read a pending order with places before it expired, and then
  -- records a failure, gives the places of the order back a second time: the counter of each of its tickets goes down by twice the places
  -- that it held, and no longer counts the places that orders hold.
  pub stale_failure :
      let after = finalize_order_failed o (with_audit o (expire_one o db)) in
      GivenBack (count_items t o.items + count_items t o.items) k after.tickets t
      × (find_order o.id after.orders ≡ some (as_failed o))
      × (¬ Balanced (λ t'. live_items t' after.orders) after.tickets)
  unfolding finalize_order_failed expired_db
  stale_failure =
      let (k1, e1, s1) = expired-GivenBack in
      let (k2, e2, s2) =
        release_items-at (with_audit o (expire_one o db)).tickets o.items t k1 e1 in
      let before = expired-IsConsistent.accounts t k1 e1 in
      let same =
        live_items-update_order as_failed t expired_db.next_order o.id expired_db.orders
          (as_expired o) expired-IsConsistent.fresh expired-found in
      (
        (
          k2,
          e2,
          s2
              ∙ ap (λ a. a -ℤ pos (count_items t o.items)) s1
              ∙ sub_sub k.stock_sold (count_items t o.items) (count_items t o.items),
        ),
        ground (
          arith,
          find_order-update_order as_failed (λ q. refl) o.id o.id expired_db.orders (as_expired o)
              expired-found,
        ),
        λ w.
            let after = w t k2 e2 in
            absurd (
              ground (
                arith,
                before,
                after,
                s2,
                same,
                -ℤ_parts k1.stock_sold (pos (count_items t o.items)),
              )),
      )

  module _ (g : Gateways) (now : Time) (reference : Option Key) where
    -- If such a webhook records a success instead, in a consistent shop, the order is paid with all its
    -- places although they are back on sale: each counter has gone down by what the order held, and no
    -- longer counts the places that orders hold.
    pub stale_success :
        let after = finalize_order_paid g now o reference (with_audit o (expire_one o db)) in
        GivenBack (count_items t o.items) k after.tickets t
        × ((p : Order) × (find_order o.id after.orders ≡ some p)
            × (p.status ≡ paid)
            × (count_items t p.items ≡ count_items t o.items))
        × (¬ Balanced (λ t'. live_items t' after.orders) after.tickets)
    unfolding finalize_order_paid expired_db
    stale_success =
        let (k1, e1, s1) = expired-GivenBack in
        let before = expired-IsConsistent.accounts t k1 e1 in
        let ends = end_date_of (expired_db.events o.event_id) in
        let same =
          live_items-update_order (as_paid g now reference o ends) t expired_db.next_order o.id
            expired_db.orders (as_expired o) expired-IsConsistent.fresh expired-found in
        let kept = count_items-with_qr g now t o ends o.items in
        (
          (k1, e1, s1),
          (
            as_paid g now reference o ends (as_expired o),
            ground (
              arith,
              find_order-update_order (as_paid g now reference o ends) (λ q. refl) o.id o.id
                  expired_db.orders (as_expired o) expired-found,
            ),
            refl,
            kept,
          ),
          λ w. absurd (ground (arith, before, w t k1 e1, same, kept)),
        )
