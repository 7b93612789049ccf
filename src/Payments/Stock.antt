-- ===== src/Payments/Stock.antt =====
-- apps/api/src/payments/stock.service.ts: the reservation and the release of stock. Each is one
-- `updateMany`, which PostgreSQL runs atomically on the row.
pub mod Guard
use fluid_events.Prelude.{
  ℕ, ◌==◌, if◌then◌else◌, Bool, true, false, Option, none, some, List, [], ◌∷◌,
}
use fluid_events.Prelude.Int.{ℤ, pos, leb_ℤ, ltb_ℤ, ◌+ℤ◌, ◌-ℤ◌}
use fluid_events.Payments.{Key, Ticket, Tickets}

unfoldable pub check_stock_available : Ticket → Bool
check_stock_available t = ltb_ℤ t.stock_sold (pos t.stock)

-- A row is written back under its own key.
abbrev pub put : Tickets → Key → Ticket → Tickets
put ts id t j = if id == j then some t else ts j

-- The rows that `where: { id, stockSold: { lte: maxAllowedSold } }` selects: none or one.
abbrev pub increment : Tickets → Key → ℤ → ℕ → Ticket → Tickets × Bool
increment ts id max_allowed_sold quantity t =
    if leb_ℤ t.stock_sold max_allowed_sold
    then (put ts id (record t { stock_sold = t.stock_sold +ℤ pos quantity }), true)
    else (ts, false)

-- The answer is `updated.count > 0`. `stock` is the capacity that the caller read beforehand.
unfoldable pub decrement_stock_atomic : Tickets → Key → ℕ → ℕ → Tickets × Bool
decrement_stock_atomic ts id stock quantity = elim (ts id) [
  | none ↦ (ts, false)
  | some t ↦ increment ts id (pos stock -ℤ pos quantity) quantity t
]

unfoldable pub release_stock_atomic : Tickets → Key → ℕ → Tickets
release_stock_atomic ts id quantity = elim (ts id) [
  | none ↦ ts
  | some t ↦ put ts id (record t { stock_sold = t.stock_sold -ℤ pos quantity })
]

-- The calls that transactions make on the table, in the order in which the database runs them.
pub data StockCall : Type 0 where
  decrement : Key → ℕ → ℕ → StockCall
  release : Key → ℕ → StockCall

unfoldable pub run_call : Tickets → StockCall → Tickets
run_call ts (decrement id stock quantity) = (decrement_stock_atomic ts id stock quantity).0
run_call ts (release id quantity) = release_stock_atomic ts id quantity

unfoldable pub run_calls : Tickets → List StockCall → Tickets
run_calls ts [] = ts
run_calls ts (c ∷ cs) = run_calls (run_call ts c) cs
