-- ===== src/Payments/Ledger.antt =====
-- The invariant of the orders and the stock, and the two ways in which an order gives up its places.
pub mod Checkout
pub mod Outcome
pub mod Placing
use fluid_events.Prelude.{
  ℕ, ◌+◌, ◌≤◌, ◌<◌, ◌==◌, if◌then◌else◌, Bool, true, false, Option, none, some, List, [], ◌∷◌, ◌≡◌,
  arith, ◌++◌, zero, suc, ◌∙◌, ap,
}
use fluid_events.Payments.{Key, Tickets, Ticket, Order, OrderItem, Db, Audit, log}
use fluid_events.Payments.Stock.{
  decrement_stock_atomic, release_stock_atomic, StockCall, release, run_call,
}
use fluid_events.Payments.Stock.Guard.{Within, Keyed, run_call-Keyed}
use fluid_events.Payments.Orders.{
  find_order, update_order, release_items, count_items, is_live, live_items, Below, Balanced,
}
use fluid_events.Payments.Orders.Accounts.{
  at, held_by, Balanced-ext, release_items-Balanced, release_items-Within,
  release_stock_atomic-Within, release_stock_atomic-Balanced, update_order-Below,
  live_items-update_order,
}
use fluid_events.Payments.Init.{Line, release_lines, line_items, make_items}

-- Every ticket's counter is the number of places that live orders hold, none is sold beyond its
-- capacity, and identifiers are fresh.
pub record IsConsistent (db : Db) : Type 0 where
  pub accounts : Balanced (λ t. live_items t db.orders) db.tickets
  pub within : Within db.tickets
  pub keyed : Keyed db.tickets
  pub fresh : Below db.next_order db.orders

pub log-IsConsistent : (a : Audit) (db : Db) → IsConsistent db → IsConsistent (log a db)
unfolding log
log-IsConsistent a db v = record {
  accounts = v.accounts;
  within = v.within;
  keyed = v.keyed;
  fresh = v.fresh;
}

pub release_stock_atomic-Keyed :
    (ts : Tickets) (id : Key) (q : ℕ) → Keyed ts → Keyed (release_stock_atomic ts id q)
unfolding run_call
release_stock_atomic-Keyed ts id q k = run_call-Keyed ts (release id q) k

pub release_items-Keyed :
    (ts : Tickets) (is : List OrderItem) → Keyed ts → Keyed (release_items ts is)
unfolding release_items
release_items-Keyed ts [] k = k
release_items-Keyed ts (i ∷ is) k =
    release_items-Keyed (release_stock_atomic ts i.ticket_id 1) is
      (release_stock_atomic-Keyed ts i.ticket_id 1 k)

-- The places of a ticket in a cart.
abbrev pub lines_quantity : Key → List Line → ℕ
lines_quantity t [] = 0
lines_quantity t (l ∷ ls) = at l.ticket.id l.quantity t + lines_quantity t ls

count_items-append :
    (t : Key) (is js : List OrderItem)
    → count_items t (is ++ js) ≡ count_items t is + count_items t js
count_items-append t [] js = omega arith
count_items-append t (i ∷ is) js = omega (arith, count_items-append t is js)

count_items-line_items :
    (t next : Key) (n : ℕ) (u : Ticket) → count_items t (line_items next n u) ≡ at u.id n t
unfolding line_items
count_items-line_items t next zero u = ground arith
count_items-line_items t next (suc n) u = ground (arith, count_items-line_items t (next + 1) n u)

-- A cart becomes as many items of each ticket as it asks for.
pub count_items-make_items :
    (t next : Key) (ls : List Line) → count_items t (make_items next ls) ≡ lines_quantity t ls
unfolding make_items
count_items-make_items t next [] = ground arith
count_items-make_items t next (l ∷ ls) = ground (
  arith,
  count_items-append t (line_items next l.quantity l.ticket) (make_items (next + l.quantity) ls),
  count_items-line_items t next l.quantity l.ticket,
  count_items-make_items t (next + l.quantity) ls,
)

release_lines-Balanced :
    (held : Key → ℕ) (ts : Tickets) (ls : List Line)
    → Balanced (λ t. lines_quantity t ls + held t) ts
    → Balanced held (release_lines ts ls)
unfolding release_lines
release_lines-Balanced held ts [] b = Balanced-ext _ held ts (λ t. omega arith) b
release_lines-Balanced held ts (l ∷ ls) b =
    release_lines-Balanced held (release_stock_atomic ts l.ticket.id l.quantity) ls (
      release_stock_atomic-Balanced (λ t. lines_quantity t ls + held t) ts l.ticket.id l.quantity
        (Balanced-ext _ (λ t. at l.ticket.id l.quantity t + (lines_quantity t ls + held t)) ts
          (λ t. omega arith) b))

release_lines-Within : (ts : Tickets) (ls : List Line) → Within ts → Within (release_lines ts ls)
unfolding release_lines
release_lines-Within ts [] w = w
release_lines-Within ts (l ∷ ls) w =
    release_lines-Within (release_stock_atomic ts l.ticket.id l.quantity) ls
      (release_stock_atomic-Within ts l.ticket.id l.quantity w)

release_lines-Keyed : (ts : Tickets) (ls : List Line) → Keyed ts → Keyed (release_lines ts ls)
unfolding release_lines
release_lines-Keyed ts [] w = w
release_lines-Keyed ts (l ∷ ls) w =
    release_lines-Keyed (release_stock_atomic ts l.ticket.id l.quantity) ls
      (release_stock_atomic-Keyed ts l.ticket.id l.quantity w)

-- An update `f` of one order `o`.
module _ (f : Order → Order) (keeps_id : (p : Order) → (f p).id ≡ p.id) (db : Db) (id : Key)
    (o : Order) (v : IsConsistent db) (found : find_order id db.orders ≡ some o) where
  -- It keeps what the order holds.
  pub hold-IsConsistent :
      ((t : Key) → held_by t (f o) ≡ held_by t o)
      → IsConsistent (record db { orders = update_order id f db.orders })
  hold-IsConsistent same = record {
    accounts =
        Balanced-ext _ _ db.tickets
          (λ t.
            omega (
              arith,
              same t,
              live_items-update_order f t db.next_order id db.orders o v.fresh found,
            ))
          v.accounts;
    within = v.within;
    keyed = v.keyed;
    fresh = update_order-Below f keeps_id db.next_order id db.orders v.fresh;
  }

  module _ (live : is_live o.status ≡ true) (dead : is_live (f o).status ≡ false) where
    left_over :
        (t : Key)
        → live_items t db.orders
          ≡ count_items t o.items + live_items t (update_order id f db.orders)
    left_over t =
        ground (arith, live_items-update_order f t db.next_order id db.orders o v.fresh found)

    -- It gives up the places, and the stock takes them back item by item.
    pub close-IsConsistent : IsConsistent (record db {
      orders = update_order id f db.orders;
      tickets = release_items db.tickets o.items;
    })
    close-IsConsistent = record {
      accounts =
          release_items-Balanced (λ t. live_items t (update_order id f db.orders)) db.tickets
            o.items (Balanced-ext _ _ db.tickets left_over v.accounts);
      within = release_items-Within db.tickets o.items v.within;
      keyed = release_items-Keyed db.tickets o.items v.keyed;
      fresh = update_order-Below f keeps_id db.next_order id db.orders v.fresh;
    }

    -- The same, line by line of the cart that the order was made of.
    pub abort-IsConsistent :
        (lines : List Line) (next : Key)
        → o.items ≡ make_items next lines
        → IsConsistent (record db {
          orders = update_order id f db.orders;
          tickets = release_lines db.tickets lines;
        })
    abort-IsConsistent lines next made = record {
      accounts =
          release_lines-Balanced (λ t. live_items t (update_order id f db.orders)) db.tickets lines
            (Balanced-ext _ _ db.tickets
              (λ t.
                left_over t
                ∙ ap (λ n. n + live_items t (update_order id f db.orders))
                    (ap (count_items t) made ∙ count_items-make_items t next lines))
              v.accounts);
      within = release_lines-Within db.tickets lines v.within;
      keyed = release_lines-Keyed db.tickets lines v.keyed;
      fresh = update_order-Below f keeps_id db.next_order id db.orders v.fresh;
    }
