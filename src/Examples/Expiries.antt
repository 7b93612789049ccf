-- ===== src/Examples/Expiries.antt =====
-- The theorems on the expiry: the shop's order is abandoned for an hour.
use fluid_events.Prelude.{◌≡◌, some, refl, arith}
use fluid_events.Prelude.Int.{pos}
use fluid_events.Payments.{Ticket, Order, Db, paid}
use fluid_events.Payments.Orders.{find_order, live_items, Balanced, count_items}
use fluid_events.Payments.Init.{as_failed}
use fluid_events.Payments.Expiry.{expire_one, with_audit}
use fluid_events.Payments.Webhooks.{finalize_order_failed, finalize_order_paid}
use fluid_events.Payments.Interleaving.{GivenBack, stale_failure, stale_success}
use fluid_events.Examples.Shop.{busy_shop, busy_shop-IsConsistent, order_zero, seat, gateways}

abbrev two_sold : Ticket
two_sold = record seat { stock_sold = pos 2 }

-- The shop after a webhook that read the order before it expired.
abbrev failed_late : Db
failed_late =
    finalize_order_failed order_zero (with_audit order_zero (expire_one order_zero busy_shop))

abbrev paid_late : Db
paid_late =
    finalize_order_paid gateways 2000000 order_zero (some 77)
      (with_audit order_zero (expire_one order_zero busy_shop))

stale_failure_example :
    GivenBack 4 two_sold failed_late.tickets 7
    × (find_order 0 failed_late.orders ≡ some (as_failed order_zero))
    × (¬ Balanced (λ t'. live_items t' failed_late.orders) failed_late.tickets)
unfolding find_order
stale_failure_example =
    stale_failure busy_shop order_zero 7 two_sold busy_shop-IsConsistent refl refl (omega arith)
      refl

stale_success_example :
    GivenBack 2 two_sold paid_late.tickets 7
    × ((p : Order) × (find_order 0 paid_late.orders ≡ some p)
        × (p.status ≡ paid)
        × (count_items 7 p.items ≡ count_items 7 order_zero.items))
    × (¬ Balanced (λ t'. live_items t' paid_late.orders) paid_late.tickets)
unfolding find_order
stale_success_example =
    stale_success busy_shop order_zero 7 two_sold busy_shop-IsConsistent refl refl (omega arith)
      refl gateways 2000000 (some 77)
