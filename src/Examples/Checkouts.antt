-- ===== src/Examples/Checkouts.antt =====
-- The theorems on `initPayment` in the shop.
use fluid_events.Prelude.{false, [], ◌∷◌, ◌≡◌, refl, arith, ErrorCode}
use fluid_events.Payments.{fedapay}
use fluid_events.Payments.Orders.{live_items}
use fluid_events.Payments.Init.{
  init_payment, prepare, merge_quantities, merge_from, add_quantity, find_tickets, check_line,
  check_lines, find_active, total, place_order, reserve, open_checkout, redirect,
}
use fluid_events.Payments.Init.Checks.{IsPayable, prepare-IsPayable}
use fluid_events.Payments.Ledger.Outcome.{
  IsOrderOf, init_payment-IsOrderOf, init_payment-holds_nothing,
}
use fluid_events.Payments.Stock.{decrement_stock_atomic}
use fluid_events.Prelude.Int.{◌+ℤ◌, ◌-ℤ◌}
use fluid_events.Payments.{log}
use fluid_events.Payments.Init.{Prepared}
use fluid_events.Examples.Shop.{
  gala, seat, fedapay_config, empty_shop, empty_shop-IsConsistent, two_seats, opens, fails,
}

abbrev prepared : Prepared
prepared = record {
  lines = record { ticket = seat; quantity = 2 } ∷ [];
  event = gala;
  config = fedapay_config;
  total_amount = 300000;
  currency = "XOF";
}

prepare-IsPayable_example : IsPayable 1000 two_seats empty_shop prepared
unfolding prepare merge_quantities merge_from add_quantity find_tickets check_lines check_line
    find_active total ◌-ℤ◌
prepare-IsPayable_example = prepare-IsPayable 1000 two_seats empty_shop prepared refl

init_payment-IsOrderOf_example :
    IsOrderOf 1000 9 two_seats empty_shop (init_payment false opens 1000 9 two_seats empty_shop).1
unfolding init_payment prepare merge_quantities merge_from add_quantity find_tickets check_lines
    check_line find_active total place_order reserve decrement_stock_atomic open_checkout log ◌+ℤ◌
    ◌-ℤ◌
init_payment-IsOrderOf_example =
    init_payment-IsOrderOf false opens 1000 9 two_seats empty_shop (redirect fedapay 0 8)
      empty_shop-IsConsistent refl

init_payment-holds_nothing_example :
    live_items 7 (init_payment false fails 1000 9 two_seats empty_shop).1.orders
    ≡ live_items 7 empty_shop.orders
unfolding init_payment prepare merge_quantities merge_from add_quantity find_tickets check_lines
    check_line find_active total place_order reserve decrement_stock_atomic open_checkout log ◌+ℤ◌
    ◌-ℤ◌
init_payment-holds_nothing_example =
    init_payment-holds_nothing false fails 1000 9 two_seats empty_shop ErrorCode.payment_init_failed
      7 empty_shop-IsConsistent (λ event c e k. ground arith) refl
