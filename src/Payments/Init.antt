-- ===== src/Payments/Init.antt =====
-- apps/api/src/payments/payments.service.ts: `initPayment` and `abortFailedInit`.
-- The cart has passed the validation of dto/init-payment.dto.ts. `findMany` answers in the order of
-- the cart's keys (the source asks for no order). What is only shown to the buyer is left out.
pub mod Checks
use Prim.Native.String.{String}
use fluid_events.Prelude.{
  refuse_if, or_fail, ℕ, zero, suc, ◌+◌, ◌*◌, ◌==◌, ltb, if◌then◌else◌, Bool, true, false, not,
  ◌&&◌, Option, none, some, List, [], ◌∷◌, ◌++◌, any, find, length, ErrorCode, Result, ok, thrown,
  ◌>>=◌, ◌>>◌,
}
use fluid_events.Prelude.Int.{pos, ltb_ℤ, ◌-ℤ◌}
use fluid_events.Payments.{
  Key, Time, Amount, Event, EventStatus, published, Ticket, Tickets, on_request, SaleMode, Order,
  OrderItem, pending, failed, Provider, kkiapay, cinetpay, fedapay, stripe, paypal, provider_eq,
  ProviderConfig, Environment, sandbox, live, Db, Audit, log,
}
use fluid_events.Payments.Stock.{decrement_stock_atomic, release_stock_atomic}
use fluid_events.Payments.Orders.{update_order}

pub record CartItem : Type 0 where
  pub ticket_id : Key
  pub quantity : ℕ

-- `mergedQuantities.set(id, (mergedQuantities.get(id) ?? 0) + quantity)`: a `Map` keeps the place
-- of a key that it has.
unfoldable pub add_quantity : Key → ℕ → List (Key × ℕ) → List (Key × ℕ)
add_quantity id q [] = (id, q) ∷ []
add_quantity id q ((j, n) ∷ m) = if j == id then (j, n + q) ∷ m else (j, n) ∷ add_quantity id q m

unfoldable pub merge_from : List (Key × ℕ) → List CartItem → List (Key × ℕ)
merge_from m [] = m
merge_from m (i ∷ is) = merge_from (add_quantity i.ticket_id i.quantity m) is

unfoldable pub merge_quantities : List CartItem → List (Key × ℕ)
merge_quantities items = merge_from [] items

-- A ticket as it was read, with its quantity in the cart.
pub record Line : Type 0 where
  pub ticket : Ticket
  pub quantity : ℕ

abbrev pub line_of : Option Ticket → ℕ → List Line → List Line
line_of none n rest = rest
line_of (some t) n rest = record { ticket = t; quantity = n } ∷ rest

unfoldable pub find_tickets : Tickets → List (Key × ℕ) → List Line
find_tickets ts [] = []
find_tickets ts ((id, n) ∷ m) = line_of (ts id) n (find_tickets ts m)

-- `eventIds.size > 1`.
abbrev pub several_events : List Line → Bool
several_events [] = false
several_events (l ∷ ls) = any (λ k. not (k.ticket.event_id == l.ticket.event_id)) ls

abbrev pub is_published : EventStatus → Bool
is_published published = true
is_published _ = false

abbrev pub is_on_request : SaleMode → Bool
is_on_request on_request = true
is_on_request _ = false

abbrev pub not_started : Time → Option Time → Bool
not_started now none = false
not_started now (some start) = ltb now start

abbrev pub ended : Time → Option Time → Bool
ended now none = false
ended now (some end) = ltb end now

-- The body of the loop over the tickets of the cart.
unfoldable pub check_line : Time → Line → Result (Unit {0})
check_line now l = do
  refuse_if (is_on_request l.ticket.sale_mode) ErrorCode.ticket_on_request_only
  refuse_if (not_started now l.ticket.sale_start_date) ErrorCode.ticket_sale_not_started
  refuse_if (ended now l.ticket.sale_end_date) ErrorCode.ticket_sale_ended
  refuse_if (ltb l.ticket.max_per_order l.quantity) ErrorCode.ticket_max_per_order_exceeded
  refuse_if (ltb_ℤ (pos l.ticket.stock -ℤ l.ticket.stock_sold) (pos l.quantity))
      ErrorCode.ticket_sold_out

unfoldable pub check_lines : Time → List Line → Result (Unit {0})
check_lines now [] = ok tt
check_lines now (l ∷ ls) = check_line now l >> check_lines now ls

abbrev pub supported_payment_providers : List Provider
supported_payment_providers = kkiapay ∷ cinetpay ∷ fedapay ∷ stripe ∷ paypal ∷ []

-- `paymentProviderConfig.findFirst({ where: { eventId, isActive: true } })`.
unfoldable pub find_active : Key → List ProviderConfig → Option ProviderConfig
find_active event = find (λ c. c.event_id == event && c.is_active)

unfoldable pub total : List Line → Amount
total [] = 0
total (l ∷ ls) = l.ticket.price * l.quantity + total ls

-- What the checks hand to the transaction.
pub record Prepared : Type 0 where
  pub lines : List Line
  pub event : Event
  pub config : ProviderConfig
  pub total_amount : Amount
  pub currency : String

abbrev pub first : List Line → Option Line
first [] = none
first (l ∷ ls) = some l

unfoldable pub prepare : Time → List CartItem → Db → Result Prepared
prepare now items db = do
  let quantities = merge_quantities items
  let lines = find_tickets db.tickets quantities
  refuse_if (not (length lines == length quantities)) ErrorCode.ticket_not_found
  refuse_if (any (λ l. not l.ticket.is_active) lines) ErrorCode.ticket_not_found
  refuse_if (several_events lines) ErrorCode.cart_multiple_events
  head ← or_fail (first lines) ErrorCode.internal_error
  event ← or_fail (db.events head.ticket.event_id) ErrorCode.internal_error
  refuse_if (not (is_published event.status)) ErrorCode.event_not_active
  check_lines now lines
  config ← or_fail (find_active event.id db.configs) ErrorCode.provider_not_active
  refuse_if (not (any (provider_eq config.provider) supported_payment_providers))
      ErrorCode.provider_not_active
  ok (record {
    lines = lines;
    event = event;
    config = config;
    total_amount = total lines;
    currency = head.ticket.currency;
  })

pub data Reservation : Type 0 where
  reserved : Tickets → Reservation
  exhausted : Key → Reservation

-- The loop of the transaction over `decrementStockAtomic`; `exhausted` rolls all of it back.
unfoldable pub reserve : Tickets → List Line → Reservation
reserve ts [] = reserved ts
reserve ts (l ∷ ls) =
    let step = decrement_stock_atomic ts l.ticket.id l.ticket.stock l.quantity in
    let rest = reserve step.0 ls in if step.1 then rest else exhausted l.ticket.id

-- One item for each place: one QR, one person.
unfoldable pub line_items : Key → ℕ → Ticket → List OrderItem
line_items next zero t = []
line_items next (suc n) t =
    record { id = next; ticket_id = t.id; unit_price = t.price; qr_code = none }
    ∷ line_items (next + 1) n t

unfoldable pub make_items : Key → List Line → List OrderItem
make_items next [] = []
make_items next (l ∷ ls) = line_items next l.quantity l.ticket ++ make_items (next + l.quantity) ls

-- The order that the transaction creates.
abbrev pub new_order : Time → Key → Prepared → Db → Order
new_order now client p db = record {
  id = db.next_order;
  event_id = p.event.id;
  client_id = client;
  status = pending;
  total_amount = p.total_amount;
  currency = p.currency;
  payment_provider = p.config.provider;
  payment_ref = none;
  paid_at = none;
  created_at = now;
  items = make_items db.next_item p.lines;
}

-- The transaction, and the audit entry of a lost race.
unfoldable pub place_order : Time → Key → Prepared → Db → Result Order × Db
place_order now client p db = elim (reserve db.tickets p.lines) [
  | exhausted t ↦ (thrown ErrorCode.stock_race_condition, log (Audit.stock_race t) db)
  | reserved ts ↦ (
    ok (new_order now client p db),
    record db {
      tickets = ts;
      orders = new_order now client p db ∷ db.orders;
      next_order = db.next_order + 1;
      next_item = db.next_item + length (make_items db.next_item p.lines);
    },
  )
]

unfoldable pub release_lines : Tickets → List Line → Tickets
release_lines ts [] = ts
release_lines ts (l ∷ ls) = release_lines (release_stock_atomic ts l.ticket.id l.quantity) ls

abbrev pub as_failed : Order → Order
as_failed o = record o { status = failed }

unfoldable pub abort_failed_init : Key → List Line → Db → Db
abort_failed_init order lines db = log (Audit.payment_init_failed order) (record db {
  orders = update_order order as_failed db.orders;
  tickets = release_lines db.tickets lines;
})

pub data PaymentInitResult : Type 0 where
  widget : Key → Amount → String → Key → Bool → PaymentInitResult
  redirect : Provider → Key → Key → PaymentInitResult

abbrev pub kkiapay_sandbox : Bool → Option Environment → Bool
kkiapay_sandbox production none = not production
kkiapay_sandbox production (some sandbox) = true
kkiapay_sandbox production (some live) = false

abbrev pub with_ref : Key → Order → Order
with_ref ref o = record o { payment_ref = some ref }

-- `open_session` is the provider's API: a reference and an URL, or an exception.
module _ (production : Bool) (open_session : ProviderConfig → Order → Option (Key × Key)) where
  abbrev pub redirect_to :
      Prepared → Order → Db → Option (Key × Key) → Result PaymentInitResult × Db
  redirect_to p o db none =
      (thrown ErrorCode.payment_init_failed, abort_failed_init o.id p.lines db)
  redirect_to p o db (some (ref, url)) = (
    ok (redirect p.config.provider o.id url),
    record db { orders = update_order o.id (with_ref ref) db.orders },
  )

  -- CinetPay takes our identifier for its own, so no reference is stored.
  abbrev pub redirect_cinetpay :
      Prepared → Order → Db → Option (Key × Key) → Result PaymentInitResult × Db
  redirect_cinetpay p o db none =
      (thrown ErrorCode.payment_init_failed, abort_failed_init o.id p.lines db)
  redirect_cinetpay p o db (some (ref, url)) = (ok (redirect cinetpay o.id url), db)

  abbrev pub open_widget : Prepared → Order → Db → Option Key → Result PaymentInitResult × Db
  open_widget p o db none = (thrown ErrorCode.provider_not_active, db)
  open_widget p o db (some key) = (
    ok (
        widget o.id p.total_amount p.currency key
          (kkiapay_sandbox production p.config.environment)),
    db,
  )

  unfoldable pub open_checkout : Provider → Prepared → Order → Db → Result PaymentInitResult × Db
  open_checkout kkiapay p o db = open_widget p o db p.config.public_key
  open_checkout cinetpay p o db = redirect_cinetpay p o db (open_session p.config o)
  open_checkout _ p o db = redirect_to p o db (open_session p.config o)

  abbrev pub after_order : Prepared → Result Order × Db → Result PaymentInitResult × Db
  after_order p (thrown e, db) = (thrown e, db)
  after_order p (ok o, db) = open_checkout p.config.provider p o (log (Audit.payment_init o.id) db)

  abbrev pub after_checks : Time → Key → Db → Result Prepared → Result PaymentInitResult × Db
  after_checks now client db (thrown e) = (thrown e, db)
  after_checks now client db (ok p) = after_order p (place_order now client p db)

  unfoldable pub init_payment : Time → Key → List CartItem → Db → Result PaymentInitResult × Db
  init_payment now client items db = after_checks now client db (prepare now items db)
