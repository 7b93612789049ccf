-- ===== src/Examples/Scans.antt =====
-- The theorems on the control of tickets: a concert of one night, and a festival of two days.
use fluid_events.Prelude.{true, false, Option, none, some, [], ◌∷◌, ◌≡◌, ◌↔◌, refl}
use fluid_events.Payments.{Key, Time, published, paid}
use fluid_events.Payments.Qr.{QrPayload, authentic}
use fluid_events.Scanner.{
  valid, already_used, wrong_day, single_day, pass_all_days, CivilDay, Scanner, EventDay,
  ScannedEvent, ScannedItem, ScanContext,
}
use fluid_events.Scanner.Decision.{
  decide_scan, decide_policy, IsAdmissible, civil_date_in_time_zone, civil_date_of_event_day,
  day_of,
}
use fluid_events.Scanner.Decision.Admission.{decide_scan-valid_iff, decide_scan-Consumes, Consumes}
use fluid_events.Scanner.Service.{ScanDb, commit}
use fluid_events.Scanner.Once.{Pending, commit_all, commit_once_a_day}

-- Every zone is refused, so that the days are those of UTC.
abbrev utc : Time → Key → Option CivilDay
utc t zone = none

abbrev door : Scanner
door = record { id = 1; is_active = true; event_id = 5 }

abbrev concert : ScannedEvent
concert = record { id = 5; status = published; ticket_policy = single_day; timezone = 0; days = [] }

abbrev first_day : EventDay
first_day = record { id = 40; date = 86400000 }

abbrev festival : ScannedEvent
festival = record concert {
  ticket_policy = pass_all_days;
  days = first_day ∷ record { id = 41; date = 172800000 } ∷ [];
}

abbrev item : ScannedItem
item = record {
  id = 3;
  is_scanned = false;
  order_status = paid;
  client_name = some 8;
  ticket_name = 9;
  event_day_id = none;
}

abbrev token : QrPayload
token = record { oid = 3; eid = 5; tid = 7; iat = 0; exp = 900000 }

abbrev at_concert : ScanContext
at_concert = record {
  qr_verification = authentic token;
  scanner = some door;
  event = some concert;
  order_item = some item;
  now = 90000000;
}

abbrev at_festival : ScanContext
at_festival = record at_concert { event = some festival }

abbrev database : ScanDb
database = record {
  scanners = λ u. some door;
  events = λ e. some concert;
  items = λ i. some item;
  day_scans = [];
  logs = [];
}

decide_scan-valid_iff_example :
    ((decide_scan utc at_festival).result ≡ valid) ↔ IsAdmissible utc at_festival
decide_scan-valid_iff_example = decide_scan-valid_iff utc at_festival

decide_scan-Consumes_example : Consumes utc at_festival (decide_scan utc at_festival)
decide_scan-Consumes_example = decide_scan-Consumes utc at_festival

-- On the first day the pass opens, two days before it does not.
festival_open : (decide_scan utc at_festival).day_scan_for ≡ some 40
unfolding decide_scan decide_policy civil_date_in_time_zone civil_date_of_event_day day_of
festival_open = refl

festival_closed : (decide_scan utc (record at_festival { now = 5 })).result ≡ wrong_day
unfolding decide_scan decide_policy civil_date_in_time_zone civil_date_of_event_day day_of
festival_closed = refl

abbrev of_item : Pending
of_item = record { context = at_concert; decision = decide_scan utc at_concert }

abbrev of_day : Pending
of_day = record { context = at_festival; decision = decide_scan utc at_festival }

commit_once_a_day_example :
    (commit of_day.context of_day.decision
      (commit_all (of_item ∷ []) (commit of_day.context of_day.decision database).1)).0.result
    ≡ already_used
unfolding decide_scan decide_policy civil_date_in_time_zone civil_date_of_event_day day_of
commit_once_a_day_example =
    commit_once_a_day of_day of_day (of_item ∷ []) 3 40 database
      (record {
        scanner = door;
        item = item;
        has_scanner = refl;
        has_item = refl;
        same_item = refl;
        is_granted = refl;
        on_day = refl;
      })
      (record {
        scanner = door;
        item = item;
        has_scanner = refl;
        has_item = refl;
        same_item = refl;
        is_granted = refl;
        on_day = refl;
      })
