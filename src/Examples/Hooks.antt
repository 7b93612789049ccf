-- ===== src/Examples/Hooks.antt =====
-- The theorems on webhooks: FedaPay confirms the shop's order.
use fluid_events.Prelude.{true, false, none, some, [], ◌∷◌, ◌≡◌, refl, ok}
use fluid_events.Payments.{Order, paid, pending, fedapay, Audit, log, find_config, Db}
use fluid_events.Payments.Orders.{find_order, update_order}
use fluid_events.Payments.Qr.{generate_qr_token, qr_payload}
use fluid_events.Payments.Stripe.{StripeHeader}
use fluid_events.Payments.Ledger.{IsConsistent}
use fluid_events.Payments.Webhooks.{
  Gateways, Settlement, settle, finish, record_or_skip, finalize_order_paid, find_by_ref,
}
use fluid_events.Payments.Webhooks.Handlers.{
  Webhook, from_fedapay, receive, receive_fedapay, handle,
}
use fluid_events.Payments.Webhooks.Settled.{handle-IsConsistent}
use fluid_events.Payments.Webhooks.Authentic.{Authentic, Evidence, handle-paid}
use fluid_events.Payments.Webhooks.Closed.{handle-closed, handle_all, handle_again}
use fluid_events.Examples.Shop.{busy_shop, busy_shop-IsConsistent, order_zero, item, gateways}

abbrev pub approval : Webhook
approval = from_fedapay (record { raw = 3; json = some (some 77) }) (some 42)

abbrev busy_gateways : Gateways
busy_gateways = record gateways { fedapay_status = λ c t. none }

abbrev forged : Webhook
forged = from_fedapay (record { raw = 3; json = some (some 77) }) (some 41)

abbrev settlement : Settlement
settlement = record {
  provider = fedapay;
  reference = some 77;
  order = order_zero;
  announced = true;
  succeeded = true;
  amount_matches = true;
}

abbrev pub paid_order : Order
paid_order = record order_zero {
  status = paid;
  paid_at = some 2000;
  items = record (item 0) { qr_code = some 0 } ∷ record (item 1) { qr_code = some 1 } ∷ [];
}

-- The shop after the approval.
paid_shop : Db
paid_shop = (handle gateways 2000 approval busy_shop).1

approved_shop : IsConsistent (handle gateways 2000 approval busy_shop).1
approved_shop = handle-IsConsistent gateways 2000 approval busy_shop busy_shop-IsConsistent

handle-paid_example :
    (order_zero.status ≡ pending)
    × Authentic gateways 2000 approval order_zero busy_shop
    × Evidence gateways 2000 approval order_zero busy_shop
unfolding handle receive receive_fedapay find_by_ref find_config settle record_or_skip finish
    finalize_order_paid update_order find_order generate_qr_token qr_payload log
handle-paid_example =
    handle-paid gateways 2000 approval busy_shop 0 order_zero paid_order busy_shop-IsConsistent refl
      (λ e. cc) refl refl

handle-closed_example :
    find_order 0 (handle gateways 3000 approval paid_shop).1.orders ≡ some paid_order
unfolding paid_shop handle receive receive_fedapay find_by_ref find_config settle record_or_skip
    finish finalize_order_paid update_order find_order generate_qr_token qr_payload log
handle-closed_example =
    handle-closed gateways 3000 approval paid_shop 0 paid_order approved_shop refl (λ e. cc)

-- Another webhook comes between, an hour later, and the same one again after a day, when the provider
-- gives another answer.
abbrev much_later : Db
much_later =
    handle_all (record { gateways = gateways; now = 3602000; webhook = forged } ∷ []) paid_shop

handle_again_example :
    handle busy_gateways 86402000 approval much_later
    ≡ (ok tt, log (Audit.webhook_duplicate fedapay 77) much_later)
unfolding paid_shop handle_all handle receive receive_fedapay find_by_ref find_config settle
    record_or_skip finish finalize_order_paid update_order find_order generate_qr_token qr_payload
    log
handle_again_example =
    handle_again gateways busy_gateways 2000 86402000 approval approval
      (record { gateways = gateways; now = 3602000; webhook = forged } ∷ []) busy_shop settlement
      (record settlement { order = paid_order; succeeded = false; amount_matches = false }) 77 refl
      refl refl refl refl

abbrev header : StripeHeader
header = record { timestamp = some 2; v1 = some 6 }
