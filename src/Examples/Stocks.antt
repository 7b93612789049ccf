-- ===== src/Examples/Stocks.antt =====
-- The theorems on the stock at concrete tables.
use fluid_events.Prelude.{[], ◌∷◌, ◌≡◌, refl, arith, false}
use fluid_events.Prelude.Int.{◌+ℤ◌, ◌-ℤ◌}
use fluid_events.Payments.Stock.{decrement_stock_atomic, decrement, release, run_call, run_calls}
use fluid_events.Payments.Stock.Guard.{Within, run_calls-Within}
use fluid_events.Examples.Shop.{busy_shop}

run_calls-Within_example :
    Within (run_calls busy_shop.tickets (decrement 7 3 1 ∷ decrement 7 3 1 ∷ release 7 1 ∷ []))
run_calls-Within_example =
    run_calls-Within busy_shop.tickets (decrement 7 3 1 ∷ decrement 7 3 1 ∷ release 7 1 ∷ [])
      (λ id t e. ground arith) ((λ t e. ground arith), ((λ t e. ground arith), (tt, tt)))

-- The third place is sold once.
last_place :
    (decrement_stock_atomic (run_calls busy_shop.tickets (decrement 7 3 1 ∷ [])) 7 3 1).1 ≡ false
unfolding decrement_stock_atomic run_calls run_call ◌+ℤ◌ ◌-ℤ◌
last_place = refl
