-- ===== src/Payments.antt =====
-- The tables that the payment code reads and writes (apps/api/prisma/schema.prisma), as records.
pub mod Stock
pub mod Orders
pub mod Init
pub mod Ledger
pub mod Qr
pub mod Stripe
pub mod Webhooks
pub mod Expiry
pub mod Interleaving
pub mod Course
pub mod System
use Prim.Native.String.{String}
use fluid_events.Prelude.{ℕ, Bool, true, false, Option, List, ◌∷◌, find, ◌==◌, ◌&&◌}
use fluid_events.Prelude.Int.{ℤ}

-- An identifier, a secret or another text that the code only stores and compares.
abbrev pub Key : Type 0
Key = ℕ

-- Milliseconds.
abbrev pub Time : Type 0
Time = ℕ

-- `Decimal(10, 2)`, in hundredths.
abbrev pub Amount : Type 0
Amount = ℕ

pub data OrderStatus : Type 0 where
  pending paid failed refunded cancelled expired : OrderStatus

pub data EventStatus : Type 0 where
  draft published cancelled expired : EventStatus

pub data SaleMode : Type 0 where
  online on_request : SaleMode

pub data Provider : Type 0 where
  kkiapay cinetpay fedapay stripe paypal : Provider

pub data Environment : Type 0 where
  sandbox live : Environment

pub record Event : Type 0 where
  pub id : Key
  pub status : EventStatus
  pub end_date : Time

-- `stock_sold` is signed: the release of stock has no guard, and no constraint bounds the column.
pub record Ticket : Type 0 where
  pub id : Key
  pub event_id : Key
  pub is_active : Bool
  pub sale_mode : SaleMode
  pub sale_start_date : Option Time
  pub sale_end_date : Option Time
  pub max_per_order : ℕ
  pub stock : ℕ
  pub stock_sold : ℤ
  pub price : Amount
  pub currency : String

pub record OrderItem : Type 0 where
  pub id : Key
  pub ticket_id : Key
  pub unit_price : Amount
  pub qr_code : Option Key

pub record Order : Type 0 where
  pub id : Key
  pub event_id : Key
  pub client_id : Key
  pub status : OrderStatus
  pub total_amount : Amount
  pub currency : String
  pub payment_provider : Provider
  pub payment_ref : Option Key
  pub paid_at : Option Time
  pub created_at : Time
  pub items : List OrderItem

pub record ProviderConfig : Type 0 where
  pub event_id : Key
  pub provider : Provider
  pub is_active : Bool
  pub public_key : Option Key
  pub private_key : Key
  pub webhook_secret : Option Key
  pub environment : Option Environment

-- The table of tickets, by primary key.
abbrev pub Tickets : Type 0
Tickets = Key → Option Ticket

-- The entries that the payment services write to the audit log.
pub data Reason : Type 0 where
  missing_partner_id missing_transaction_id order_not_found : Reason
  payment_failed verification_mismatch : Reason

pub data Audit : Type 0 where
  stock_race : Key → Audit
  payment_init payment_init_failed : Key → Audit
  webhook_failed : Option Key → Reason → Audit
  webhook_duplicate : Provider → Key → Audit
  webhook_orphan : Key → OrderStatus → Audit
  webhook_success : Key → Audit
  order_expired : Key → ℕ → Audit

-- The database, the audit log and the queue of PDF jobs. `orders` is newest first; `next_order` and
-- `next_item` stand for the generator of fresh identifiers.
pub record Db : Type 0 where
  pub events : Key → Option Event
  pub tickets : Tickets
  pub orders : List Order
  pub configs : List ProviderConfig
  pub webhook_events : List (Provider × Key)
  pub audits : List Audit
  pub pdf_jobs : List Key
  pub next_order : Key
  pub next_item : Key

unfoldable pub log : Audit → Db → Db
log a db = record db { audits = a ∷ db.audits }

abbrev pub provider_eq : Provider → Provider → Bool
provider_eq kkiapay kkiapay = true
provider_eq cinetpay cinetpay = true
provider_eq fedapay fedapay = true
provider_eq stripe stripe = true
provider_eq paypal paypal = true
provider_eq _ _ = false

-- `paymentProviderConfig.findUnique` by event and provider.
unfoldable pub find_config : Key → Provider → List ProviderConfig → Option ProviderConfig
find_config event provider = find (λ c. c.event_id == event && provider_eq c.provider provider)
