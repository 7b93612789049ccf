-- ===== src/Payments/Webhooks/Delivered.antt =====
-- What a buyer has once a webhook has made his order paid: a ticket for each of its items
-- (`apps/api/src/payments/payments.service.ts`, `apps/api/src/ticket-design/ticket-design.service.ts`).
use fluid_events.Prelude.{
  true, ◌+◌, ◌/◌, ◌<◌, ◌≤◌, List, [], ◌∷◌, ◌++◌, map, some, ◌≡◌, ◌≢◌, refl, inl, inr, arith, subst,
}
use fluid_events.Payments.{Key, Time, Order, OrderItem, pending, paid, Db, log}
use fluid_events.Payments.Orders.{find_order}
use fluid_events.Payments.Orders.Accounts.{find_order-update_order}
use fluid_events.Payments.Ledger.{IsConsistent}
use fluid_events.Payments.Qr.{
  QrPayload, JwtAnswer, decoded, authentic, qr_payload, generate_qr_token, verify_qr_token,
}
use fluid_events.Payments.Webhooks.{
  Gateways, Settlement, finish, finalize_order_paid, as_paid, with_qr, end_date_of,
}
use fluid_events.Payments.Webhooks.Handlers.{Webhook, receive, handle}
use fluid_events.Payments.Webhooks.Authentic.{finish-paid, finish-paid_pending}
use fluid_events.Payments.Webhooks.Settled.{receive-find_order, settle-cases, Received-cases}

-- A ticket in the hand of a buyer. The reading of its token, at whichever instant until its end, gives
-- back the item, the event and the ticket that it was made for; it ends a day after the event and an
-- hour after the payment at the earliest.
pub record IsTicket (verify : Time → Key → JwtAnswer) (now ends : Time) (event : Key)
    (i i' : OrderItem) : Type 0 where
  pub item : i'.id ≡ i.id
  pub kind : i'.ticket_id ≡ i.ticket_id
  pub payload : QrPayload
  pub names_item : payload.oid ≡ i.id
  pub names_event : payload.eid ≡ event
  pub names_kind : payload.tid ≡ i.ticket_id
  pub a_day : ends / 1000 + 86400 ≤ payload.exp
  pub an_hour : now / 1000 + 3600 ≤ payload.exp
  pub reads :
      (t : Time)
      → t / 1000 < payload.exp
      → verify_qr_token (verify t) i'.qr_code ≡ authentic payload

-- One ticket for each item, in their order.
pub data AreTickets (verify : Time → Key → JwtAnswer) (now ends : Time) (event : Key)
    : List OrderItem → List OrderItem → Type 0 where
  none_left : AreTickets verify now ends event [] []
  one_more :
      {i i' : OrderItem} {is is' : List OrderItem}
      → IsTicket verify now ends event i i'
      → AreTickets verify now ends event is is'
      → AreTickets verify now ends event (i ∷ is) (i' ∷ is')

-- `verify` is the package's reading of a token at an instant: what it has signed, until it is over.
module _ (g : Gateways) (now : Time) (verify : Time → Key → JwtAnswer)
    (signed : (t : Time) (p : QrPayload) → t / 1000 < p.exp → verify t (g.sign p) ≡ decoded p) where
  with_qr-IsTicket :
      (o : Order) (ends : Time) (i : OrderItem)
      → IsTicket verify now ends o.event_id i (with_qr g now o ends i)
  unfolding generate_qr_token verify_qr_token qr_payload
  with_qr-IsTicket o ends i = record {
    item = refl;
    kind = refl;
    payload = qr_payload now i.id o.event_id i.ticket_id ends;
    names_item = refl;
    names_event = refl;
    names_kind = refl;
    a_day = omega arith;
    an_hour = omega arith;
    reads = λ t early. rw (signed t (qr_payload now i.id o.event_id i.ticket_id ends) early) refl;
  }

  with_qr-AreTickets :
      (o : Order) (ends : Time) (is : List OrderItem)
      → AreTickets verify now ends o.event_id is (map (with_qr g now o ends) is)
  with_qr-AreTickets o ends [] = none_left
  with_qr-AreTickets o ends (i ∷ is) =
      one_more (with_qr-IsTicket o ends i) (with_qr-AreTickets o ends is)

  map-ids :
      (o : Order) (ends : Time) (is : List OrderItem)
      → map (λ (i : OrderItem). i.id) (map (with_qr g now o ends) is) ≡ map (λ i. i.id) is
  map-ids o ends [] = refl
  map-ids o ends (i ∷ is) = rw (map-ids o ends is) refl

  -- What the buyer and the queue of PDF files have in the end.
  pub record Delivered (o o' : Order) (ends : Time) (db after : Db) : Type 0 where
    pub paid_at : o'.paid_at ≡ some now
    pub tickets : AreTickets verify now ends o.event_id o.items o'.items
    pub jobs : after.pdf_jobs ≡ db.pdf_jobs ++ map (λ i. i.id) o'.items
    pub stock : after.tickets ≡ db.tickets

  finish-Delivered :
      (s : Settlement) (db : Db) (o' : Order)
      → find_order s.order.id db.orders ≡ some s.order
      → s.order.status ≡ pending
      → s.succeeded ≡ true
      → find_order s.order.id (finish g now s db).orders ≡ some o'
      → Delivered s.order o' (end_date_of (db.events s.order.event_id)) db (finish g now s db)
  unfolding finish finalize_order_paid log
  finish-Delivered s db o' found waits good done =
      let ends = end_date_of (db.events s.order.event_id) in
      let stored =
        find_order-update_order (as_paid g now s.reference s.order ends) (λ q. refl) s.order.id
          s.order.id db.orders s.order found in
      let is_paid : as_paid g now s.reference s.order ends s.order ≡ o' =
        ground (arith, stored, done, waits, good) in
      subst (λ q. Delivered s.order q ends db (finish g now s db)) is_paid
        (record {
          paid_at = refl;
          tickets = with_qr-AreTickets s.order ends s.order.items;
          jobs = rw (waits, good, map-ids s.order ends s.order.items) refl;
          stock = rw (waits, good) refl;
        })

  -- If a webhook makes an order paid that was not, then the order is paid at that instant, and each of
  -- its items has a ticket: its token can be read until a day after the event and for an hour at
  -- least, and names the item, its event and its kind of ticket. Each item has a new PDF job, and the
  -- stock stays as it was reserved. The package is supposed to read what it has signed, until it is
  -- over.
  pub handle-Delivered :
      (w : Webhook) (db : Db) (id : Key) (o o' : Order)
      → IsConsistent db
      → find_order id db.orders ≡ some o
      → o.status ≢ paid
      → find_order id (handle g now w db).1.orders ≡ some o'
      → o'.status ≡ paid
      → Delivered o o' (end_date_of (db.events o.event_id)) db (handle g now w db).1
  unfolding handle log
  handle-Delivered w db id o o' v before unpaid after done =
      elim (Received-cases g now (receive g now w db)) [
        | inl e ↦ absurd (ground arith)
        | inr (inl (a, e)) ↦ absurd (ground arith)
        | inr (inr (inl e)) ↦ absurd (ground arith)
        | inr (inr (inr (s, e))) ↦ elim (settle-cases g now s db) [
          | inl (missing, r) ↦ absurd (ground arith)
          | inr (inl (t, there, old, r)) ↦ absurd (ground arith)
          | inr (inr (t, there, new, r)) ↦
              let db' = record db { webhook_events = (s.provider, t) ∷ db.webhook_events } in
              let (good, same) =
                finish-paid g now s db' id o o' before unpaid (ground arith) done in
              let waits =
                finish-paid_pending g now s db' id o o' before unpaid (ground arith) done in
              let found = receive-find_order g now w db.next_order db s v.fresh e in
              let is_o : s.order ≡ o = ground arith in
              let d = finish-Delivered s db' o' found waits good (ground arith) in
              rw (e, r)
                (subst
                  (λ q. Delivered q o' (end_date_of (db.events q.event_id)) db (finish g now s db'))
                  is_o
                  (record {
                    paid_at = d.paid_at;
                    tickets = d.tickets;
                    jobs = d.jobs;
                    stock = d.stock;
                  }))
        ]
      ]
