-- ===== src/Examples/Tokens.antt =====
-- A signature that can be undone, for the theorem on the tickets that a payment delivers: the fields
-- of a payload in one number.
use fluid_events.Prelude.{
  true, false, ℕ, zero, suc, ◌+◌, ◌/◌, ◌%◌, ◌<◌, ◌==◌, ltb, if◌then◌else◌, some, map, ◌≡◌, refl,
  arith, ap,
}
use fluid_events.Payments.{Key, Time, Order, OrderItem, log, find_config}
use fluid_events.Payments.Orders.{find_order, update_order}
use fluid_events.Payments.Qr.{
  QrPayload, JwtAnswer, decoded, token_expired, generate_qr_token, qr_payload,
}
use fluid_events.Payments.Webhooks.{
  Gateways, settle, finish, record_or_skip, finalize_order_paid, find_by_ref,
}
use fluid_events.Payments.Webhooks.Handlers.{receive, receive_fedapay, handle}
use fluid_events.Payments.Webhooks.Delivered.{Delivered, handle-Delivered}
use fluid_events.Examples.Shop.{busy_shop, busy_shop-IsConsistent, order_zero, gateways}
use fluid_events.Examples.Hooks.{approval, paid_order}

pair : ℕ → ℕ → ℕ
pair zero b = b + b + 1
pair (suc a) b = pair a b + pair a b

unpair : ℕ → ℕ → ℕ × ℕ
unpair zero n = (0, 0)
unpair (suc fuel) n =
    let (a, b) = unpair fuel (n / 2) in if n % 2 == 1 then (0, n / 2) else (suc a, b)

lt-pair : (a b : ℕ) → a < pair a b
unfolding pair
lt-pair zero b = omega arith
lt-pair (suc a) b = omega (arith, lt-pair a b)

unpair-pair : (fuel a b : ℕ) → a < fuel → unpair fuel (pair a b) ≡ (a, b)
unfolding pair unpair
unpair-pair zero a b h = absurd (omega arith)
unpair-pair (suc fuel) zero b h =
    let odd : ((b + b + 1) % 2 == 1) ≡ true = ground arith in
    let half : (b + b + 1) / 2 ≡ b = omega arith in rw (odd, half) refl
unpair-pair (suc fuel) (suc a) b h =
    let even : ((pair a b + pair a b) % 2 == 1) ≡ false = ground arith in
    let half : (pair a b + pair a b) / 2 ≡ pair a b = omega arith in
    rw (even, half, unpair-pair fuel a b (omega arith)) refl

first : ℕ → ℕ
first n = (unpair n n).0

rest : ℕ → ℕ
rest n = (unpair n n).1

first-pair : (a b : ℕ) → first (pair a b) ≡ a
unfolding first
first-pair a b = ap (λ (p : ℕ × ℕ). p.0) (unpair-pair (pair a b) a b (lt-pair a b))

rest-pair : (a b : ℕ) → rest (pair a b) ≡ b
unfolding rest
rest-pair a b = ap (λ (p : ℕ × ℕ). p.1) (unpair-pair (pair a b) a b (lt-pair a b))

signature : QrPayload → Key
signature p = pair p.oid (pair p.eid (pair p.tid (pair p.iat p.exp)))

payload_of : Key → QrPayload
payload_of k = record {
  oid = first k;
  eid = first (rest k);
  tid = first (rest (rest k));
  iat = first (rest (rest (rest k)));
  exp = rest (rest (rest (rest k)));
}

payload_of-signature : (p : QrPayload) → payload_of (signature p) ≡ p
unfolding payload_of signature
payload_of-signature p =
    let e = pair p.eid (pair p.tid (pair p.iat p.exp)) in
    let t = pair p.tid (pair p.iat p.exp) in
    rw
      (
        rest-pair p.oid e,
        rest-pair p.eid t,
        rest-pair p.tid (pair p.iat p.exp),
        rest-pair p.iat p.exp,
        first-pair p.oid e,
        first-pair p.eid t,
        first-pair p.tid (pair p.iat p.exp),
        first-pair p.iat p.exp,
      )
      refl

-- A reading that refuses what is over.
reading : Time → Key → JwtAnswer
reading t k = if ltb (t / 1000) (payload_of k).exp then decoded (payload_of k) else token_expired

reading-signature :
    (t : Time) (p : QrPayload) → t / 1000 < p.exp → reading t (signature p) ≡ decoded p
unfolding reading
reading-signature t p early =
    let early' : ltb (t / 1000) p.exp ≡ true = ground arith in
    rw (payload_of-signature p, early') refl

abbrev signing : Gateways
signing = record gateways { sign = signature }

abbrev delivered_order : Order
delivered_order = record paid_order {
  items =
      map
        (λ (i : OrderItem). record i {
          qr_code = some (signature (qr_payload 2000 i.id 1 i.ticket_id 90000000));
        })
        order_zero.items;
}

handle-Delivered_example :
    Delivered signing 2000 reading reading-signature order_zero delivered_order 90000000 busy_shop
      (handle signing 2000 approval busy_shop).1
unfolding handle receive receive_fedapay find_by_ref find_config settle record_or_skip finish
    finalize_order_paid update_order find_order generate_qr_token log
handle-Delivered_example =
    handle-Delivered signing 2000 reading reading-signature approval busy_shop 0 order_zero
      delivered_order busy_shop-IsConsistent refl (λ e. cc) refl refl
