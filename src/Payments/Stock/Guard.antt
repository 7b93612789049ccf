-- ===== src/Payments/Stock/Guard.antt =====
-- The guard of the reservation, for any interleaving of transactions.
use fluid_events.Prelude.{
  ℕ, ◌≤◌, true, some, List, [], ◌∷◌, ◌≡◌, refl, ◌↔◌, inl, inr, arith, Option-cases, All,
}
use fluid_events.Prelude.Int.{pos, ◌≤ℤ◌, ◌+ℤ◌, +ℤ_parts, -ℤ_parts}
use fluid_events.Payments.{Key, Ticket, Tickets}
use fluid_events.Payments.Stock.{
  decrement_stock_atomic, release_stock_atomic, StockCall, decrement, release, run_call, run_calls,
}

-- A reservation succeeds exactly when the ticket exists and what is sold and what is asked for fit
-- into the capacity that the caller read.
pub decrement_stock_atomic-eq-true_iff :
    (ts : Tickets) (id : Key) (stock quantity : ℕ)
    → ((decrement_stock_atomic ts id stock quantity).1 ≡ true)
      ↔ ((t : Ticket) × (ts id ≡ some t) × (t.stock_sold +ℤ pos quantity ≤ℤ pos stock))
unfolding decrement_stock_atomic
decrement_stock_atomic-eq-true_iff ts id stock quantity = (to, from)
  where
    to :
        (decrement_stock_atomic ts id stock quantity).1 ≡ true
        → (t : Ticket) × (ts id ≡ some t) × (t.stock_sold +ℤ pos quantity ≤ℤ pos stock)
    to e = elim (Option-cases (ts id)) [
      | inl missing ↦ ground arith
      | inr (t, found) ↦ (
        t,
        found,
        ground (arith, +ℤ_parts t.stock_sold (pos quantity), -ℤ_parts (pos stock) (pos quantity)),
      )
    ]

    from :
        (t : Ticket) × (ts id ≡ some t) × (t.stock_sold +ℤ pos quantity ≤ℤ pos stock)
        → (decrement_stock_atomic ts id stock quantity).1 ≡ true
    from (t, found, fits) =
        ground (arith, +ℤ_parts t.stock_sold (pos quantity), -ℤ_parts (pos stock) (pos quantity))

-- No ticket is sold beyond its capacity.
abbrev pub Within : Tickets → Type 0
Within ts = (id : Key) (t : Ticket) → ts id ≡ some t → t.stock_sold ≤ℤ pos t.stock

-- A call reads a capacity that is no larger than the ticket's.
abbrev pub ReadsCapacity : Tickets → StockCall → Type 0
ReadsCapacity ts (decrement id stock quantity) = (t : Ticket) → ts id ≡ some t → stock ≤ t.stock
ReadsCapacity ts (release id quantity) = Unit {0}

-- A call keeps the rows and their capacities.
pub run_call_stock :
    (ts : Tickets) (c : StockCall) (j : Key) (u : Ticket)
    → run_call ts c j ≡ some u
    → (t : Ticket) × (ts j ≡ some t) × (t.stock ≡ u.stock)
unfolding run_call decrement_stock_atomic release_stock_atomic
run_call_stock ts (decrement id stock quantity) j u e = elim (Option-cases (ts id)) [
  | inl missing ↦ (u, ground arith, refl)
  | inr (t, found) ↦ elim (Option-cases (ts j)) [
    | inl gone ↦ absurd (ground arith)
    | inr (v, there) ↦ (v, there, ground arith)
  ]
]
run_call_stock ts (release id quantity) j u e = elim (Option-cases (ts id)) [
  | inl missing ↦ (u, ground arith, refl)
  | inr (t, found) ↦ elim (Option-cases (ts j)) [
    | inl gone ↦ absurd (ground arith)
    | inr (v, there) ↦ (v, there, ground arith)
  ]
]

pub run_call-ReadsCapacity :
    (ts : Tickets) (c d : StockCall) → ReadsCapacity ts d → ReadsCapacity (run_call ts c) d
run_call-ReadsCapacity ts c (decrement id stock quantity) h =
    λ u e. let (t, found, same) = run_call_stock ts c id u e in rw (← same) (h t found)
run_call-ReadsCapacity ts c (release id quantity) h = h

pub run_call-Within :
    (ts : Tickets) (c : StockCall) → Within ts → ReadsCapacity ts c → Within (run_call ts c)
unfolding run_call decrement_stock_atomic release_stock_atomic
run_call-Within ts (decrement id stock quantity) w h j u e = elim (Option-cases (ts id)) [
  | inl missing ↦ w j u (ground arith)
  | inr (t, found) ↦ ground (
    arith,
    h t found,
    w j u,
    +ℤ_parts t.stock_sold (pos quantity),
    -ℤ_parts (pos stock) (pos quantity),
  )
]
run_call-Within ts (release id quantity) w h j u e = elim (Option-cases (ts id)) [
  | inl missing ↦ w j u (ground arith)
  | inr (t, found) ↦ ground (arith, w id t found, w j u, -ℤ_parts t.stock_sold (pos quantity))
]

run_calls-ReadsCapacity :
    (ts : Tickets) (c : StockCall) (cs : List StockCall)
    → All (ReadsCapacity ts) cs
    → All (ReadsCapacity (run_call ts c)) cs
run_calls-ReadsCapacity ts c [] h = tt
run_calls-ReadsCapacity ts c (d ∷ cs) (h, hs) =
    (run_call-ReadsCapacity ts c d h, run_calls-ReadsCapacity ts c cs hs)

-- However transactions interleave their reservations and releases, and whatever quantities they ask
-- for, no ticket is sold beyond its capacity, if none was at the start and each reservation read a
-- capacity that is at most the ticket's.
pub run_calls-Within :
    (ts : Tickets) (cs : List StockCall)
    → Within ts
    → All (ReadsCapacity ts) cs
    → Within (run_calls ts cs)
unfolding run_calls
run_calls-Within ts [] w h = w
run_calls-Within ts (c ∷ cs) w (h, hs) =
    run_calls-Within (run_call ts c) cs (run_call-Within ts c w h)
      (run_calls-ReadsCapacity ts c cs hs)

-- Each row stands under its own key.
abbrev pub Keyed : Tickets → Type 0
Keyed ts = (id : Key) (t : Ticket) → ts id ≡ some t → t.id ≡ id

pub run_call-Keyed : (ts : Tickets) (c : StockCall) → Keyed ts → Keyed (run_call ts c)
unfolding run_call decrement_stock_atomic release_stock_atomic
run_call-Keyed ts (decrement id stock quantity) k j u e = elim (Option-cases (ts id)) [
  | inl missing ↦ k j u (ground arith)
  | inr (t, found) ↦ ground (arith, k id t found, k j u)
]
run_call-Keyed ts (release id quantity) k j u e = elim (Option-cases (ts id)) [
  | inl missing ↦ k j u (ground arith)
  | inr (t, found) ↦ ground (arith, k id t found, k j u)
]
