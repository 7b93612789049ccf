-- ===== src/Payments/Orders/Accounts.antt =====
-- The stock counters against the places that orders hold.
use fluid_events.Prelude.{
  ℕ, ◌+◌, ◌≤◌, ◌<◌, ◌==◌, if◌then◌else◌, true, none, some, List, [], ◌∷◌, ◌≡◌, refl, inl, inr,
  arith, Option-cases, Bool-cases,
}
use fluid_events.Prelude.Int.{pos, ◌+ℤ◌, ◌-ℤ◌, +ℤ_parts, -ℤ_parts, eq_of_parts}
use fluid_events.Payments.{Key, Tickets, Order, OrderItem, OrderStatus, pending}
use fluid_events.Payments.Stock.{decrement_stock_atomic, release_stock_atomic}
use fluid_events.Payments.Stock.Guard.{Within}
use fluid_events.Payments.Orders.{
  find_order, update_order, release_items, count_items, is_live, live_items, Below, Balanced,
  status_eq,
}

pub status_eq-pending : (s : OrderStatus) → status_eq s pending ≡ true → s ≡ pending
status_eq-pending pending e = refl
status_eq-pending _ e = cc

-- The places of one line.
abbrev pub at : Key → ℕ → Key → ℕ
at id q t = if id == t then q else 0

pos-sub : (q n : ℕ) → pos (q + n) -ℤ pos q ≡ pos n
pos-sub q n =
    ground (arith, -ℤ_parts (pos (q + n)) (pos q), eq_of_parts (pos (q + n) -ℤ pos q) (pos n))

pos-add : (q n : ℕ) → pos n +ℤ pos q ≡ pos (q + n)
pos-add q n = ground (arith, +ℤ_parts (pos n) (pos q), eq_of_parts (pos n +ℤ pos q) (pos (q + n)))

module _ (held : Key → ℕ) where
  pub release_stock_atomic-Balanced :
      (ts : Tickets) (id : Key) (q : ℕ)
      → Balanced (λ t. at id q t + held t) ts
      → Balanced held (release_stock_atomic ts id q)
  unfolding release_stock_atomic
  release_stock_atomic-Balanced ts id q b j u e = elim (Option-cases (ts id)) [
    | inl missing ↦ ground (arith, b j u)
    | inr (t, found) ↦ ground (arith, b id t found, b j u, pos-sub q (held id))
  ]

  pub decrement_stock_atomic-Balanced :
      (ts : Tickets) (id : Key) (stock q : ℕ)
      → Balanced held ts
      → (decrement_stock_atomic ts id stock q).1 ≡ true
      → Balanced (λ t. at id q t + held t) (decrement_stock_atomic ts id stock q).0
  unfolding decrement_stock_atomic
  decrement_stock_atomic-Balanced ts id stock q b e j u h = elim (Option-cases (ts id)) [
    | inl missing ↦ ground arith
    | inr (t, found) ↦ ground (arith, b id t found, b j u, pos-add q (held id))
  ]

-- Balanced only looks at the numbers.
pub Balanced-ext :
    (f g : Key → ℕ) (ts : Tickets) → ((t : Key) → f t ≡ g t) → Balanced f ts → Balanced g ts
Balanced-ext f g ts h b j u e = ground (arith, h j, b j u e)

pub release_items-Balanced :
    (held : Key → ℕ) (ts : Tickets) (is : List OrderItem)
    → Balanced (λ t. count_items t is + held t) ts
    → Balanced held (release_items ts is)
unfolding release_items
release_items-Balanced held ts [] b = Balanced-ext _ held ts (λ t. omega arith) b
release_items-Balanced held ts (i ∷ is) b =
    release_items-Balanced held (release_stock_atomic ts i.ticket_id 1) is (
      release_stock_atomic-Balanced (λ t. count_items t is + held t) ts i.ticket_id 1
        (Balanced-ext _ (λ t. at i.ticket_id 1 t + (count_items t is + held t)) ts
          (λ t. ground arith) b))

-- Releasing keeps within the capacity.
pub release_stock_atomic-Within :
    (ts : Tickets) (id : Key) (q : ℕ) → Within ts → Within (release_stock_atomic ts id q)
unfolding release_stock_atomic
release_stock_atomic-Within ts id q w j u e = elim (Option-cases (ts id)) [
  | inl missing ↦ ground (arith, w j u)
  | inr (t, found) ↦ ground (arith, w id t found, w j u, -ℤ_parts t.stock_sold (pos q))
]

pub release_items-Within :
    (ts : Tickets) (is : List OrderItem) → Within ts → Within (release_items ts is)
unfolding release_items
release_items-Within ts [] w = w
release_items-Within ts (i ∷ is) w =
    release_items-Within (release_stock_atomic ts i.ticket_id 1) is
      (release_stock_atomic-Within ts i.ticket_id 1 w)

-- An order that is found lies below the bound.
pub find_order-lt :
    (n id : Key) (os : List Order) (o : Order) → Below n os → find_order id os ≡ some o → id < n
unfolding find_order
find_order-lt n id [] p b e = ground arith
find_order-lt n id (o ∷ os) p b e = ground (arith, find_order-lt o.id id os p b.1)

pub find_order-id : (id : Key) (os : List Order) (o : Order) → find_order id os ≡ some o → o.id ≡ id
unfolding find_order
find_order-id id [] p e = ground arith
find_order-id id (o ∷ os) p e = ground (arith, find_order-id id os p)

-- Updates above the bound do nothing.
update_order_above :
    (n id : Key) (f : Order → Order) (os : List Order)
    → Below n os
    → n ≤ id
    → update_order id f os ≡ os
unfolding update_order
update_order_above n id f [] b h = refl
update_order_above n id f (o ∷ os) b h = ground (arith, update_order_above o.id id f os b.1)

module _ (f : Order → Order) (keeps_id : (o : Order) → (f o).id ≡ o.id) where
  pub update_order-Below :
      (n id : Key) (os : List Order) → Below n os → Below n (update_order id f os)
  unfolding update_order
  update_order-Below n id [] b = tt
  update_order-Below n id (o ∷ os) b = ground (arith, keeps_id o, update_order-Below o.id id os b.1)

  -- Reading an order after an update.
  pub find_order-update_order :
      (id j : Key) (os : List Order) (o : Order)
      → find_order j os ≡ some o
      → find_order j (update_order id f os) ≡ some (if id == j then f o else o)
  unfolding find_order update_order
  find_order-update_order id j [] o e = ground arith
  find_order-update_order id j (p ∷ os) o e =
      ground (arith, keeps_id p, find_order-update_order id j os o)

  pub find_order-update_order-none :
      (id j : Key) (os : List Order)
      → find_order j os ≡ none
      → find_order j (update_order id f os) ≡ none
  unfolding find_order update_order
  find_order-update_order-none id j [] e = refl
  find_order-update_order-none id j (p ∷ os) e =
      ground (arith, keeps_id p, find_order-update_order-none id j os)

-- What an order holds.
abbrev pub held_by : Key → Order → ℕ
held_by t o = if is_live o.status then count_items t o.items else 0

-- An update of one order changes what is held by what that order holds before and after.
pub live_items-update_order :
    (f : Order → Order) (t n id : Key) (os : List Order) (o : Order)
    → Below n os
    → find_order id os ≡ some o
    → live_items t (update_order id f os) + held_by t o ≡ live_items t os + held_by t (f o)
unfolding find_order update_order live_items
live_items-update_order f t n id [] o b e = ground arith
live_items-update_order f t n id (p ∷ os) o b e = elim (Bool-cases (p.id == id)) [
  | inl same ↦ ground (arith, update_order_above p.id id f os b.1)
  | inr other ↦ ground (arith, live_items-update_order f t p.id id os o b.1)
]
