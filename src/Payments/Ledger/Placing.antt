-- ===== src/Payments/Ledger/Placing.antt =====
-- Placing an order keeps the invariant, also when the cart was read some time before.
use fluid_events.Prelude.{
  ℕ, ◌+◌, Bool, true, List, [], ◌∷◌, ◌≡◌, arith, All, inl, inr, Bool-cases, refl, ok, thrown, ◌⊎◌,
  ErrorCode, length,
}
use fluid_events.Payments.{Key, Time, Tickets, Db, Audit, log}
use fluid_events.Payments.Stock.{decrement_stock_atomic, StockCall, decrement, run_call}
use fluid_events.Payments.Stock.Guard.{
  Within, Keyed, ReadsCapacity, run_call-Keyed, run_call-Within, run_call-ReadsCapacity,
}
use fluid_events.Payments.Orders.{live_items, Balanced}
use fluid_events.Payments.Orders.Accounts.{at, Balanced-ext, decrement_stock_atomic-Balanced}
use fluid_events.Payments.Init.{
  Line, reserve, Reservation, reserved, exhausted, Prepared, place_order, new_order, make_items,
}
use fluid_events.Payments.Ledger.{
  IsConsistent, log-IsConsistent, lines_quantity, count_items-make_items,
}

-- The reservation of a line.
abbrev pub call_of : Line → StockCall
call_of l = decrement l.ticket.id l.ticket.stock l.quantity

-- The capacities of the lines are no larger than the tickets' now.
abbrev pub ReadsLines : Tickets → List Line → Type 0
ReadsLines ts = All (λ l. ReadsCapacity ts (call_of l))

abbrev step : Tickets → Line → Tickets × Bool
step ts l = decrement_stock_atomic ts l.ticket.id l.ticket.stock l.quantity

-- A reservation that succeeds is a step that succeeds and a reservation that succeeds.
reserve-cons :
    (ts us : Tickets) (l : Line) (ls : List Line)
    → reserve ts (l ∷ ls) ≡ reserved us
    → ((step ts l).1 ≡ true) × (reserve (step ts l).0 ls ≡ reserved us)
unfolding reserve
reserve-cons ts us l ls e = elim (Bool-cases (step ts l).1) [
  | inl done ↦ (done, ground arith)
  | inr lost ↦ ground arith
]

pub reserve-Balanced :
    (held : Key → ℕ) (ts us : Tickets) (ls : List Line)
    → Balanced held ts
    → reserve ts ls ≡ reserved us
    → Balanced (λ t. lines_quantity t ls + held t) us
unfolding reserve
reserve-Balanced held ts us [] b e = Balanced-ext held _ us (λ t. omega arith) (ground (arith, b))
reserve-Balanced held ts us (l ∷ ls) b e =
    let (done, rest) = reserve-cons ts us l ls e in
    Balanced-ext (λ t. lines_quantity t ls + (at l.ticket.id l.quantity t + held t)) _ us
      (λ t. omega arith)
      (reserve-Balanced (λ t. at l.ticket.id l.quantity t + held t) (step ts l).0 us ls
        (decrement_stock_atomic-Balanced held ts l.ticket.id l.ticket.stock l.quantity b done) rest)

ReadsLines-step :
    (ts : Tickets) (l : Line) (ls : List Line) → ReadsLines ts ls → ReadsLines (step ts l).0 ls
unfolding run_call
ReadsLines-step ts l [] h = tt
ReadsLines-step ts l (k ∷ ls) (h, hs) =
    (run_call-ReadsCapacity ts (call_of l) (call_of k) h, ReadsLines-step ts l ls hs)

pub reserve-Within :
    (ts us : Tickets) (ls : List Line)
    → Within ts
    → ReadsLines ts ls
    → reserve ts ls ≡ reserved us
    → Within us
unfolding reserve run_call
reserve-Within ts us [] w h e = ground (arith, w)
reserve-Within ts us (l ∷ ls) w (h, hs) e =
    let (done, rest) = reserve-cons ts us l ls e in
    reserve-Within (step ts l).0 us ls (run_call-Within ts (call_of l) w h)
      (ReadsLines-step ts l ls hs) rest

pub reserve-Keyed :
    (ts us : Tickets) (ls : List Line) → Keyed ts → reserve ts ls ≡ reserved us → Keyed us
unfolding reserve run_call
reserve-Keyed ts us [] w e = ground (arith, w)
reserve-Keyed ts us (l ∷ ls) w e =
    let (done, rest) = reserve-cons ts us l ls e in
    reserve-Keyed (step ts l).0 us ls (run_call-Keyed ts (call_of l) w) rest

Reservation-cases :
    (r : Reservation) → ((t : Key) × (r ≡ exhausted t)) ⊎ ((us : Tickets) × (r ≡ reserved us))
Reservation-cases (exhausted t) = inl (t, refl)
Reservation-cases (reserved us) = inr (us, refl)

-- The outcome of the transaction: it is rolled back, or it reserves and creates.
pub place_order-cases :
    (now : Time) (client : Key) (p : Prepared) (db : Db)
    → ((t : Key) × (reserve db.tickets p.lines ≡ exhausted t)
        × (place_order now client p db
            ≡ (thrown ErrorCode.stock_race_condition, log (Audit.stock_race t) db)))
      ⊎ ((us : Tickets) × (reserve db.tickets p.lines ≡ reserved us)
          × (place_order now client p db ≡ (
            ok (new_order now client p db),
            record db {
              tickets = us;
              orders = new_order now client p db ∷ db.orders;
              next_order = db.next_order + 1;
              next_item = db.next_item + length (make_items db.next_item p.lines);
            },
          )))
unfolding place_order
place_order-cases now client p db = elim (Reservation-cases (reserve db.tickets p.lines)) [
  | inl (t, e) ↦ inl (t, e, rw (e, place_order))
  | inr (us, e) ↦ inr (us, e, rw (e, place_order))
]

placed-IsConsistent :
    (now : Time) (client : Key) (p : Prepared) (db : Db) (us : Tickets) (next : Key)
    → IsConsistent db
    → ReadsLines db.tickets p.lines
    → reserve db.tickets p.lines ≡ reserved us
    → IsConsistent (record db {
      tickets = us;
      orders = new_order now client p db ∷ db.orders;
      next_order = db.next_order + 1;
      next_item = next;
    })
unfolding live_items
placed-IsConsistent now client p db us next v h e = record {
  accounts =
      Balanced-ext _ _ us (λ t. omega (arith, count_items-make_items t db.next_item p.lines))
        (reserve-Balanced (λ t. live_items t db.orders) db.tickets us p.lines v.accounts e);
  within = reserve-Within db.tickets us p.lines v.within h e;
  keyed = reserve-Keyed db.tickets us p.lines v.keyed e;
  fresh = (omega arith, v.fresh);
}

-- The transaction that creates an order keeps the invariant, on any database in which the tickets'
-- capacities are at least those that the cart was read with, also when it is rolled back.
pub place_order-IsConsistent :
    (now : Time) (client : Key) (p : Prepared) (db : Db)
    → IsConsistent db
    → ReadsLines db.tickets p.lines
    → IsConsistent (place_order now client p db).1
place_order-IsConsistent now client p db v h = elim (place_order-cases now client p db) [
  | inl (t, lost, e) ↦ rw e (log-IsConsistent (Audit.stock_race t) db v)
  | inr (us, done, e) ↦ rw e (placed-IsConsistent now client p db us _ v h done)
]
