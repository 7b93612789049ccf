-- ===== src/Examples/Season.antt =====
-- The theorems on the shop as a whole: a payment, a late pass of the expiry and another client.
use fluid_events.Prelude.{false, List, [], ◌∷◌, refl}
use fluid_events.Payments.Ledger.{IsConsistent}
use fluid_events.Payments.Orders.{find_order}
use fluid_events.Payments.Course.{Continues}
use fluid_events.Payments.System.{
  Happening, checkout, webhook, pass, happen_all, happen_all-IsConsistent, happen_all-Continues,
}
use fluid_events.Examples.Shop.{
  busy_shop, busy_shop-IsConsistent, order_zero, gateways, opens, two_seats,
}
use fluid_events.Examples.Hooks.{approval}

abbrev season : List Happening
season = checkout 1500 9 two_seats ∷ webhook 2000 approval ∷ pass 3600000 ∷ []

happen_all-IsConsistent_example : IsConsistent (happen_all false opens gateways season busy_shop)
happen_all-IsConsistent_example =
    happen_all-IsConsistent false opens gateways season busy_shop busy_shop-IsConsistent

happen_all-Continues_example :
    Continues 0 order_zero (happen_all false opens gateways season busy_shop)
unfolding find_order
happen_all-Continues_example =
    happen_all-Continues false opens gateways season busy_shop 0 order_zero busy_shop-IsConsistent
      refl
