-- ===== src/Scanner/Decision.antt =====
-- apps/api/src/scanner/scan-decision.ts. `Intl` is a parameter: the civil day of an instant in a time
-- zone, or `none` where it throws.
pub mod Admission
use fluid_events.Prelude.{
  ℕ, ◌/◌, ◌==◌, if◌then◌else◌, Bool, true, false, not, ◌&&◌, Option, none, some, List, [], ◌∷◌,
  find, ◌≡◌, ◌≢◌, ◌↔◌, arith, refl, inl, inr, ◌⊎◌, Option-cases, Bool-cases,
}
use fluid_events.Payments.{Key, Time, EventStatus, published, OrderStatus, paid}
use fluid_events.Payments.Orders.{status_eq}
use fluid_events.Payments.Init.{is_published}
use fluid_events.Payments.Qr.{QrPayload, QrReason, QrVerification, authentic, refused}
use fluid_events.Scanner.{
  ScanResult, valid, already_used, invalid, event_mismatch, wrong_day, TicketPolicy, single_day,
  pass_all_days, per_day, CivilDay, Scanner, EventDay, ScannedEvent, ScannedItem, ScanContext,
  Attendee, ScanDecision,
}

-- `toISOString().slice(0, 10)`.
abbrev pub utc_day : Time → CivilDay
utc_day t = t / 86400000

unfoldable pub civil_date_of_event_day : Time → CivilDay
civil_date_of_event_day date = utc_day date

abbrev pub day_or : Option CivilDay → CivilDay → CivilDay
day_or none d = d
day_or (some d) _ = d

abbrev pub refuse : ScanResult → ScanDecision
refuse r = record { result = r; attendee = none; should_mark_scanned = false; day_scan_for = none }

abbrev pub attendee_of : ScannedItem → Attendee
attendee_of i = record { name = i.client_name; ticket_name = i.ticket_name }

abbrev pub admit_once : ScannedItem → ScanDecision
admit_once i = record {
  result = valid;
  attendee = some (attendee_of i);
  should_mark_scanned = true;
  day_scan_for = none;
}

abbrev pub admit_on : ScannedItem → EventDay → ScanDecision
admit_on i d = record {
  result = valid;
  attendee = some (attendee_of i);
  should_mark_scanned = false;
  day_scan_for = some d.id;
}

abbrev pub reason_of : QrReason → ScanResult
reason_of QrReason.expired = ScanResult.expired
reason_of QrReason.invalid = invalid

module _ (intl : Time → Key → Option CivilDay) where
  unfoldable pub civil_date_in_time_zone : Time → Key → CivilDay
  civil_date_in_time_zone date zone = day_or (intl date zone) (utc_day date)

  -- The ticket's day among the event's, and the event's day today.
  abbrev pub bound_day : Option Key → List EventDay → Option EventDay
  bound_day none days = none
  bound_day (some id) days = find (λ d. d.id == id) days

  unfoldable pub day_of : CivilDay → List EventDay → Option EventDay
  day_of today = find (λ d. civil_date_of_event_day d.date == today)

  abbrev pub on_bound_day : ScannedItem → CivilDay → Option EventDay → ScanDecision
  on_bound_day i today none = refuse wrong_day
  on_bound_day i today (some d) =
      if civil_date_of_event_day d.date == today then admit_once i else refuse wrong_day

  abbrev pub on_pass : ScannedItem → Option EventDay → ScanDecision
  on_pass i none = refuse wrong_day
  on_pass i (some d) = admit_on i d

  -- Step 8: the policy of the event.
  unfoldable pub decide_policy : TicketPolicy → ScannedEvent → ScannedItem → Time → ScanDecision
  decide_policy single_day e i now = admit_once i
  decide_policy per_day e i now =
      on_bound_day i (civil_date_in_time_zone now e.timezone) (bound_day i.event_day_id e.days)
  decide_policy pass_all_days e i now =
      on_pass i (day_of (civil_date_in_time_zone now e.timezone) e.days)

  abbrev pub decide_item : ScannedEvent → Time → Option ScannedItem → ScanDecision
  decide_item e now none = refuse invalid
  decide_item e now (some i) =
      if i.is_scanned
      then refuse already_used
      else if status_eq i.order_status paid
      then decide_policy e.ticket_policy e i now
      else refuse invalid

  abbrev pub decide_event : Option ScannedItem → Time → Option ScannedEvent → ScanDecision
  decide_event item now none = refuse ScanResult.expired
  decide_event item now (some e) =
      if is_published e.status then decide_item e now item else refuse ScanResult.expired

  abbrev pub decide_scanner : QrPayload → ScanContext → Option Scanner → ScanDecision
  decide_scanner payload ctx none = refuse invalid
  decide_scanner payload ctx (some s) =
      if not s.is_active
      then refuse invalid
      else if not (payload.eid == s.event_id)
      then refuse event_mismatch
      else decide_event ctx.order_item ctx.now ctx.event

  abbrev pub decide_qr : ScanContext → QrVerification → ScanDecision
  decide_qr ctx (refused r) = refuse (reason_of r)
  decide_qr ctx (authentic payload) = decide_scanner payload ctx ctx.scanner

  unfoldable pub decide_scan : ScanContext → ScanDecision
  decide_scan ctx = decide_qr ctx ctx.qr_verification

  -- The day on which a ticket opens the entrance.
  abbrev pub OpensOn : TicketPolicy → ScannedEvent → ScannedItem → CivilDay → Type 0
  OpensOn single_day e i today = Unit {0}
  OpensOn per_day e i today =
      (d : EventDay) × (bound_day i.event_day_id e.days ≡ some d)
      × (civil_date_of_event_day d.date ≡ today)
  OpensOn pass_all_days e i today = (d : EventDay) × (day_of today e.days ≡ some d)

  -- What makes a scan valid, independently of the order of the checks.
  pub record IsAdmissible (ctx : ScanContext) : Type 0 where
    pub payload : QrPayload
    pub scanner : Scanner
    pub event : ScannedEvent
    pub item : ScannedItem
    pub is_authentic : ctx.qr_verification ≡ authentic payload
    pub has_scanner : ctx.scanner ≡ some scanner
    pub is_active : scanner.is_active ≡ true
    pub same_event : payload.eid ≡ scanner.event_id
    pub has_event : ctx.event ≡ some event
    pub is_open : event.status ≡ published
    pub has_item : ctx.order_item ≡ some item
    pub is_unused : item.is_scanned ≡ false
    pub is_paid : item.order_status ≡ paid
    pub opens :
        OpensOn event.ticket_policy event item (civil_date_in_time_zone ctx.now event.timezone)
