-- ===== src/Payments/Orders.antt =====
-- The orders of the database, and the loops of apps/api/src/payments over their items.
pub mod Accounts
use fluid_events.Prelude.{
  ℕ, ◌+◌, ◌==◌, if◌then◌else◌, Bool, true, false, Option, none, some, List, [], ◌∷◌, ◌≡◌, find, map,
  ◌<◌,
}
use fluid_events.Prelude.Int.{pos}
use fluid_events.Payments.{
  Key, Time, Ticket, Tickets, Order, OrderItem, OrderStatus, pending, paid, failed, refunded,
}
use fluid_events.Payments.Stock.{release_stock_atomic}

abbrev pub status_eq : OrderStatus → OrderStatus → Bool
status_eq pending pending = true
status_eq paid paid = true
status_eq failed failed = true
status_eq refunded refunded = true
status_eq OrderStatus.cancelled OrderStatus.cancelled = true
status_eq OrderStatus.expired OrderStatus.expired = true
status_eq _ _ = false

-- `order.findUnique`.
unfoldable pub find_order : Key → List Order → Option Order
find_order id [] = none
find_order id (o ∷ os) = if o.id == id then some o else find_order id os

-- `order.update` by primary key.
unfoldable pub update_order : Key → (Order → Order) → List Order → List Order
update_order id f [] = []
update_order id f (o ∷ os) = (if o.id == id then f o else o) ∷ update_order id f os

-- The loop that gives back one place for each item of an order.
unfoldable pub release_items : Tickets → List OrderItem → Tickets
release_items ts [] = ts
release_items ts (i ∷ is) = release_items (release_stock_atomic ts i.ticket_id 1) is

-- How many items are places of a ticket.
abbrev pub count_items : Key → List OrderItem → ℕ
count_items t [] = 0
count_items t (i ∷ is) = (if i.ticket_id == t then 1 else 0) + count_items t is

-- An order that holds its places: it waits for its payment, or is paid.
abbrev pub is_live : OrderStatus → Bool
is_live pending = true
is_live paid = true
is_live _ = false

-- The places of a ticket that orders hold.
unfoldable pub live_items : Key → List Order → ℕ
live_items t [] = 0
live_items t (o ∷ os) = (if is_live o.status then count_items t o.items else 0) + live_items t os

-- Identifiers fall along the list, from below the next fresh one.
abbrev pub Below : Key → List Order → Type 0
Below n [] = Unit {0}
Below n (o ∷ os) = (o.id < n) × Below o.id os

-- The column `stock_sold` of each ticket counts the places that `held` says.
abbrev pub Balanced : (Key → ℕ) → Tickets → Type 0
Balanced held ts = (id : Key) (t : Ticket) → ts id ≡ some t → t.stock_sold ≡ pos (held id)
