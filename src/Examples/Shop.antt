-- ===== src/Examples/Shop.antt =====
-- A small shop: one published event with one ticket of three places, and an order for two of them.
use fluid_events.Prelude.{
  ◌==◌, if◌then◌else◌, true, false, Option, none, some, List, [], ◌∷◌, arith,
}
use fluid_events.Prelude.Int.{pos}
use fluid_events.Payments.{
  Key, Event, published, Ticket, online, Order, OrderItem, pending, fedapay, ProviderConfig, Db,
}
use fluid_events.Payments.Orders.{live_items}
use fluid_events.Payments.Ledger.{IsConsistent}
use fluid_events.Payments.Webhooks.{Gateways}
use fluid_events.Payments.Init.{CartItem}

abbrev pub gala : Event
gala = record { id = 1; status = published; end_date = 90000000 }

abbrev pub seat : Ticket
seat = record {
  id = 7;
  event_id = 1;
  is_active = true;
  sale_mode = online;
  sale_start_date = none;
  sale_end_date = none;
  max_per_order = 5;
  stock = 3;
  stock_sold = pos 0;
  price = 150000;
  currency = "XOF";
}

abbrev pub fedapay_config : ProviderConfig
fedapay_config = record {
  event_id = 1;
  provider = fedapay;
  is_active = true;
  public_key = none;
  private_key = 5;
  webhook_secret = some 42;
  environment = none;
}

abbrev pub empty_shop : Db
empty_shop = record {
  events = λ id. if id == 1 then some gala else none;
  tickets = λ id. if id == 7 then some seat else none;
  orders = [];
  configs = fedapay_config ∷ [];
  webhook_events = [];
  audits = [];
  pdf_jobs = [];
  next_order = 0;
  next_item = 0;
}

pub empty_shop-IsConsistent : IsConsistent empty_shop
unfolding live_items
empty_shop-IsConsistent = record {
  accounts = λ id t e. ground arith;
  within = λ id t e. ground arith;
  keyed = λ id t e. ground arith;
  fresh = tt;
}

abbrev pub item : Key → OrderItem
item id = record { id = id; ticket_id = 7; unit_price = 150000; qr_code = none }

-- FedaPay's reference is 77.
abbrev pub order_zero : Order
order_zero = record {
  id = 0;
  event_id = 1;
  client_id = 9;
  status = pending;
  total_amount = 300000;
  currency = "XOF";
  payment_provider = fedapay;
  payment_ref = some 77;
  paid_at = none;
  created_at = 1000;
  items = item 0 ∷ item 1 ∷ [];
}

abbrev pub busy_shop : Db
busy_shop = record empty_shop {
  tickets = λ id. if id == 7 then some (record seat { stock_sold = pos 2 }) else none;
  orders = order_zero ∷ [];
  next_order = 1;
  next_item = 2;
}

pub busy_shop-IsConsistent : IsConsistent busy_shop
unfolding live_items
busy_shop-IsConsistent = record {
  accounts = λ id t e. ground arith;
  within = λ id t e. ground arith;
  keyed = λ id t e. ground arith;
  fresh = (omega arith, tt);
}

abbrev pub two_seats : List CartItem
two_seats = record { ticket_id = 7; quantity = 1 } ∷ record { ticket_id = 7; quantity = 1 } ∷ []

-- A provider that opens session 77 at the address 8.
abbrev pub opens : ProviderConfig → Order → Option (Key × Key)
opens c o = some (77, 8)

abbrev pub fails : ProviderConfig → Order → Option (Key × Key)
fails c o = none

-- Secrets are their own cipher texts; FedaPay approves transaction 77 for 3000 francs.
abbrev pub gateways : Gateways
gateways = record {
  decrypt = λ k. k;
  sign = λ p. p.oid;
  hmac_fields = λ secret fields. secret;
  hmac_body = λ secret t body. secret;
  kkiapay_verify = λ c t. none;
  cinetpay_check = λ c t. none;
  fedapay_event =
      λ raw signature secret. if signature == secret then some "transaction.approved" else none;
  fedapay_status = λ c t. some (record { status = "approved"; amount = 300000 });
  paypal_verify = λ c headers body. false;
}
