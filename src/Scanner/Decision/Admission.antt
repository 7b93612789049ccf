-- ===== src/Scanner/Decision/Admission.antt =====
-- When a scan is valid, and what a decision tells the service to record.
use fluid_events.Prelude.{
  ◌==◌, ◌/◌, find, find-holds, true, false, Option, none, some, ◌≡◌, ◌≢◌, ◌↔◌, arith, refl, inl,
  inr, ◌⊎◌, Option-cases, Bool-cases,
}
use fluid_events.Prelude.Sweeps.{IsIn, find-IsIn}
use fluid_events.Payments.{Key, Time, EventStatus, published, OrderStatus, paid}
use fluid_events.Payments.Orders.{status_eq}
use fluid_events.Payments.Init.{is_published}
use fluid_events.Payments.Qr.{QrPayload, QrReason, QrVerification, authentic, refused}
use fluid_events.Scanner.{
  ScanResult, EventDay, valid, TicketPolicy, single_day, pass_all_days, per_day, CivilDay, Scanner,
  ScannedEvent, ScannedItem, ScanContext, ScanDecision,
}
use fluid_events.Scanner.Decision.{
  decide_scan, decide_qr, decide_scanner, decide_event, decide_item, decide_policy, IsAdmissible,
  OpensOn, bound_day, day_of, civil_date_in_time_zone, civil_date_of_event_day, reason_of,
  admit_once, refuse, utc_day,
}

reason_of-ne-valid : (r : QrReason) → reason_of r ≢ valid
reason_of-ne-valid QrReason.expired e = cc
reason_of-ne-valid QrReason.invalid e = cc

is_published-eq-true : (s : EventStatus) → is_published s ≡ true → s ≡ published
is_published-eq-true published e = refl
is_published-eq-true _ e = cc

status_eq-paid : (s : OrderStatus) → status_eq s paid ≡ true → s ≡ paid
status_eq-paid paid e = refl
status_eq-paid _ e = cc

module _ (intl : Time → Key → Option CivilDay) where
  decide_policy-OpensOn :
      (p : TicketPolicy) (e : ScannedEvent) (i : ScannedItem) (now : Time)
      → (decide_policy intl p e i now).result ≡ valid
      → OpensOn intl p e i (civil_date_in_time_zone intl now e.timezone)
  unfolding decide_policy
  decide_policy-OpensOn single_day e i now h = tt
  decide_policy-OpensOn per_day e i now h =
      elim (Option-cases (bound_day intl i.event_day_id e.days)) [
        | inl missing ↦ absurd (ground arith)
        | inr (d, found) ↦ (d, found, ground arith)
      ]
  decide_policy-OpensOn pass_all_days e i now h =
      elim (Option-cases (day_of intl (civil_date_in_time_zone intl now e.timezone) e.days)) [
        | inl missing ↦ absurd (ground arith)
        | inr (d, found) ↦ (d, found)
      ]

  OpensOn-decide_policy :
      (p : TicketPolicy) (e : ScannedEvent) (i : ScannedItem) (now : Time)
      → OpensOn intl p e i (civil_date_in_time_zone intl now e.timezone)
      → (decide_policy intl p e i now).result ≡ valid
  unfolding decide_policy
  OpensOn-decide_policy single_day e i now h = refl
  OpensOn-decide_policy per_day e i now (d, found, same) = rw found (ground arith)
  OpensOn-decide_policy pass_all_days e i now (d, found) = rw found refl

  item-IsAdmissible :
      (ctx : ScanContext) (payload : QrPayload) (s : Scanner) (e : ScannedEvent) (i : ScannedItem)
      → ctx.qr_verification ≡ authentic payload
      → ctx.scanner ≡ some s
      → ctx.event ≡ some e
      → ctx.order_item ≡ some i
      → (decide_scan intl ctx).result ≡ valid
      → IsAdmissible intl ctx
  unfolding decide_scan
  item-IsAdmissible ctx payload s e i q hs he hi h = record {
    payload = payload;
    scanner = s;
    event = e;
    item = i;
    is_authentic = q;
    has_scanner = hs;
    is_active = ground arith;
    same_event = ground arith;
    has_event = he;
    is_open = is_published-eq-true e.status (ground arith);
    has_item = hi;
    is_unused = ground arith;
    is_paid = status_eq-paid i.order_status (ground arith);
    opens = decide_policy-OpensOn e.ticket_policy e i ctx.now (ground arith);
  }

  decide_scan-IsAdmissible :
      (ctx : ScanContext) (q : QrVerification)
      → ctx.qr_verification ≡ q
      → (decide_scan intl ctx).result ≡ valid
      → IsAdmissible intl ctx
  unfolding decide_scan
  decide_scan-IsAdmissible ctx (refused r) e h = absurd (ground (arith, reason_of-ne-valid r))
  decide_scan-IsAdmissible ctx (authentic p) e h = elim (Option-cases ctx.scanner) [
    | inl no_scanner ↦ absurd (ground arith)
    | inr (s, has_scanner) ↦ elim (Option-cases ctx.event) [
      | inl no_event ↦ absurd (ground arith)
      | inr (ev, has_event) ↦ elim (Option-cases ctx.order_item) [
        | inl no_item ↦ absurd (ground arith)
        | inr (i, has_item) ↦ item-IsAdmissible ctx p s ev i e has_scanner has_event has_item h
      ]
    ]
  ]

  IsAdmissible-decide_scan :
      (ctx : ScanContext) → IsAdmissible intl ctx → (decide_scan intl ctx).result ≡ valid
  unfolding decide_scan
  IsAdmissible-decide_scan ctx a =
      ground (arith, OpensOn-decide_policy a.event.ticket_policy a.event a.item ctx.now a.opens)

  -- A scan is valid exactly when the token is authentic, the scanner is active and belongs to the
  -- token's event, the event is published, the item is there, unused and paid, and the event's
  -- policy opens the entrance to it today.
  pub decide_scan-valid_iff :
      (ctx : ScanContext) → ((decide_scan intl ctx).result ≡ valid) ↔ IsAdmissible intl ctx
  decide_scan-valid_iff ctx =
      (decide_scan-IsAdmissible ctx ctx.qr_verification refl, IsAdmissible-decide_scan ctx)

  -- What a valid scan uses up: one day of a pass, which is a day of the event and today; of any other
  -- ticket, the whole of it.
  abbrev pub Spends : ScannedEvent → CivilDay → ScanDecision → Type 0
  Spends e today d =
      ((e.ticket_policy ≢ pass_all_days) × (d.should_mark_scanned ≡ true) × (d.day_scan_for ≡ none))
      ⊎ ((e.ticket_policy ≡ pass_all_days)
          × (d.should_mark_scanned ≡ false)
          × ((day : EventDay) × IsIn day e.days
              × (day.date / 86400000 ≡ today)
              × (d.day_scan_for ≡ some day.id)))

  abbrev pub UsesNothing : ScanDecision → Type 0
  UsesNothing d =
      (d.result ≢ valid)
      × (d.attendee ≡ none)
      × (d.should_mark_scanned ≡ false)
      × (d.day_scan_for ≡ none)

  -- A valid decision names the holder of the item that was scanned and uses up what its event's policy
  -- says. Any other decision uses up nothing and names nobody.
  abbrev pub Consumes : ScanContext → ScanDecision → Type 0
  Consumes ctx d =
      ((d.result ≡ valid)
        × ((e : ScannedEvent) × (i : ScannedItem) × (ctx.event ≡ some e)
            × (ctx.order_item ≡ some i)
            × (d.attendee ≡ some (record { name = i.client_name; ticket_name = i.ticket_name }))
            × Spends e (civil_date_in_time_zone intl ctx.now e.timezone) d))
      ⊎ UsesNothing d

  module _ (ctx : ScanContext) (e : ScannedEvent) (i : ScannedItem) (has_event : ctx.event ≡ some e)
      (has_item : ctx.order_item ≡ some i) where
    -- The two ways of admission.
    marked : e.ticket_policy ≢ pass_all_days → Consumes ctx (admit_once i)
    marked other = inl (refl, (e, i, has_event, has_item, refl, inl (other, refl, refl)))

    refused_day : Consumes ctx (refuse ScanResult.wrong_day)
    refused_day = inr ((λ h. cc), refl, refl, refl)

    decide_policy-Consumes :
        (p : TicketPolicy) → e.ticket_policy ≡ p → Consumes ctx (decide_policy intl p e i ctx.now)
    unfolding decide_policy day_of civil_date_of_event_day
    decide_policy-Consumes single_day same = marked (λ k. absurd (ground (arith, same, k)))
    decide_policy-Consumes per_day same =
        elim (Option-cases (bound_day intl i.event_day_id e.days)) [
          | inl missing ↦ rw missing refused_day
          | inr (d, found) ↦
              elim (Bool-cases
                (utc_day d.date == civil_date_in_time_zone intl ctx.now e.timezone)) [
                  | inl today ↦ rw (found, today) (marked (λ k. absurd (ground (arith, same, k))))
                  | inr other ↦ rw (found, other) refused_day
                ]
        ]
    decide_policy-Consumes pass_all_days same =
        let today = civil_date_in_time_zone intl ctx.now e.timezone in
        elim (Option-cases (find (λ (d : EventDay). utc_day d.date == today) e.days)) [
          | inl missing ↦ rw missing refused_day
          | inr (d, found) ↦
              let on_it = find-holds (λ (x : EventDay). utc_day x.date == today) e.days found in
              rw found (
                inl (
                  refl,
                  (
                    e,
                    i,
                    has_event,
                    has_item,
                    refl,
                    inr (
                      same,
                      refl,
                      (
                        d,
                        find-IsIn (λ x. utc_day x.date == today) e.days found,
                        ground (arith, on_it),
                        refl,
                      ),
                    ),
                  ),
                ))
        ]

  decide_item-Consumes :
      (ctx : ScanContext) (e : ScannedEvent) (o : Option ScannedItem)
      → ctx.event ≡ some e
      → ctx.order_item ≡ o
      → Consumes ctx (decide_item intl e ctx.now o)
  decide_item-Consumes ctx e none there read = inr ((λ h. cc), refl, refl, refl)
  decide_item-Consumes ctx e (some i) there read = elim (Bool-cases i.is_scanned) [
    | inl used ↦ rw used (inr ((λ h. cc), refl, refl, refl))
    | inr fresh ↦ elim (Bool-cases (status_eq i.order_status paid)) [
      | inl yes' ↦
          simp (fresh, yes') (decide_policy-Consumes ctx e i there read e.ticket_policy refl)
      | inr no' ↦ simp (fresh, no') (inr ((λ h. cc), refl, refl, refl))
    ]
  ]

  decide_event-Consumes :
      (ctx : ScanContext) (e : Option ScannedEvent)
      → ctx.event ≡ e
      → Consumes ctx (decide_event intl ctx.order_item ctx.now e)
  decide_event-Consumes ctx none there = inr ((λ h. cc), refl, refl, refl)
  decide_event-Consumes ctx (some e) there = elim (Bool-cases (is_published e.status)) [
    | inl yes' ↦ simp yes' (decide_item-Consumes ctx e ctx.order_item there refl)
    | inr no' ↦ simp no' (inr ((λ h. cc), refl, refl, refl))
  ]

  decide_scanner-Consumes :
      (payload : QrPayload) (ctx : ScanContext) (s : Option Scanner)
      → Consumes ctx (decide_scanner intl payload ctx s)
  decide_scanner-Consumes payload ctx none = inr ((λ h. cc), refl, refl, refl)
  decide_scanner-Consumes payload ctx (some s) = elim (Bool-cases s.is_active) [
    | inl active ↦ elim (Bool-cases (payload.eid == s.event_id)) [
      | inl same ↦ simp (active, same) (decide_event-Consumes ctx ctx.event refl)
      | inr other ↦ simp (active, other) (inr ((λ h. cc), refl, refl, refl))
    ]
    | inr revoked ↦ simp revoked (inr ((λ h. cc), refl, refl, refl))
  ]

  decide_qr-Consumes :
      (ctx : ScanContext) (q : QrVerification) → Consumes ctx (decide_qr intl ctx q)
  decide_qr-Consumes ctx (refused r) = inr (reason_of-ne-valid r, refl, refl, refl)
  decide_qr-Consumes ctx (authentic p) = decide_scanner-Consumes p ctx ctx.scanner

  -- A decision that is valid names the holder of the scanned item and its ticket, and uses up one day
  -- of the event, which is today, if the event has passes for all its days, and the item itself
  -- otherwise; never both. Any other decision names nobody and uses up nothing.
  pub decide_scan-Consumes : (ctx : ScanContext) → Consumes ctx (decide_scan intl ctx)
  unfolding decide_scan
  decide_scan-Consumes ctx = decide_qr-Consumes ctx ctx.qr_verification
