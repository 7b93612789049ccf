-- ===== src/Scanner/Service.antt =====
-- apps/api/src/scanner/scanner.service.ts: loading the context, and recording the decision.
-- The two are apart, since other scans may run in between. The log of scans is always written.
use fluid_events.Prelude.{
  ◌==◌, if◌then◌else◌, Bool, true, false, ◌&&◌, Option, none, some, List, ◌∷◌, any,
}
use fluid_events.Payments.{Key, Time}
use fluid_events.Payments.Qr.{QrVerification, authentic, refused, JwtAnswer, verify_qr_token}
use fluid_events.Scanner.{
  ScanResult, valid, already_used, CivilDay, Scanner, ScannedEvent, ScannedItem, ScanContext,
  Attendee, ScanDecision,
}
use fluid_events.Scanner.Decision.{decide_scan}

pub record ScanLog : Type 0 where
  pub scanner_id : Option Key
  pub order_item_id : Option Key
  pub result : ScanResult

-- `scanners` is by user. `day_scans` is unique by item and day.
pub record ScanDb : Type 0 where
  pub scanners : Key → Option Scanner
  pub events : Key → Option ScannedEvent
  pub items : Key → Option ScannedItem
  pub day_scans : List (Key × Key)
  pub logs : List ScanLog

-- A reply names the attendee only if the scan is valid.
pub record ScanReply : Type 0 where
  pub result : ScanResult
  pub attendee : Option Attendee

abbrev pub item_of : ScanDb → QrVerification → Option ScannedItem
item_of db (authentic p) = db.items p.oid
item_of db (refused r) = none

abbrev pub event_of : ScanDb → Option Scanner → Option ScannedEvent
event_of db none = none
event_of db (some s) = db.events s.event_id

unfoldable pub load : (Key → JwtAnswer) → Key → Option Key → Time → ScanDb → ScanContext
load verify user token now db =
    let qr = verify_qr_token verify token in
    record {
      qr_verification = qr;
      scanner = db.scanners user;
      event = event_of db (db.scanners user);
      order_item = item_of db qr;
      now = now;
    }

abbrev pub is_valid : ScanResult → Bool
is_valid valid = true
is_valid _ = false

unfoldable pub record_scan : Option Key → Option Key → ScanResult → ScanDb → ScanDb
record_scan scanner item result db = record db {
  logs = record { scanner_id = scanner; order_item_id = item; result = result } ∷ db.logs;
}

abbrev pub plain : ScanResult → ScanReply
plain r = record { result = r; attendee = none }

abbrev pub day_recorded : Key → Key → List (Key × Key) → Bool
day_recorded item day = any (λ e. e.0 == item && (e.1 == day))

-- `ticketDayScan.create`: the constraint of uniqueness is the lock.
unfoldable pub take_day :
    Scanner → ScannedItem → Key → Option Attendee → ScanDb → ScanReply × ScanDb
take_day s i day attendee db =
    if day_recorded i.id day db.day_scans
    then (plain already_used, record_scan (some s.id) (some i.id) already_used db)
    else (
      record { result = valid; attendee = attendee },
      record_scan (some s.id) (some i.id) valid
          (record db { day_scans = (i.id, day) ∷ db.day_scans }),
    )

abbrev pub mark : ScanDb → Key → ScannedItem → ScanDb
mark db id i = record db {
  items = λ j. if id == j then some (record i { is_scanned = true }) else db.items j;
}

-- `orderItem.updateMany({ where: { id, isScanned: false } })`: the item as it is stored now.
abbrev pub take_stored :
    Scanner → ScannedItem → Option Attendee → ScanDb → Option ScannedItem → ScanReply × ScanDb
take_stored s i attendee db none =
    (plain already_used, record_scan (some s.id) (some i.id) already_used db)
take_stored s i attendee db (some stored) =
    if stored.is_scanned
    then (plain already_used, record_scan (some s.id) (some i.id) already_used db)
    else (
      record { result = valid; attendee = attendee },
      record_scan (some s.id) (some i.id) valid (mark db i.id stored),
    )

unfoldable pub take_item : Scanner → ScannedItem → Option Attendee → ScanDb → ScanReply × ScanDb
take_item s i attendee db = take_stored s i attendee db (db.items i.id)

abbrev pub id_of_item : Option ScannedItem → Option Key
id_of_item none = none
id_of_item (some i) = some i.id

abbrev pub id_of_scanner : Option Scanner → Option Key
id_of_scanner none = none
id_of_scanner (some s) = some s.id

-- With no scanner only the audit log is written, under the user.
unfoldable pub reject : ScanContext → ScanResult → ScanDb → ScanReply × ScanDb
reject ctx r db =
    (plain r, record_scan (id_of_scanner ctx.scanner) (id_of_item ctx.order_item) r db)

abbrev pub take :
    ScanContext
    → ScanDecision
    → Option Scanner
    → Option ScannedItem
    → Option Key
    → ScanDb
    → ScanReply × ScanDb
take ctx d (some s) (some i) (some day) db = take_day s i day d.attendee db
take ctx d (some s) (some i) none db = take_item s i d.attendee db
take ctx d _ _ _ db = reject ctx d.result db

-- What the service does with a decision; the context is the one that it was taken on.
unfoldable pub commit : ScanContext → ScanDecision → ScanDb → ScanReply × ScanDb
commit ctx d db =
    if is_valid d.result
    then take ctx d ctx.scanner ctx.order_item d.day_scan_for db
    else reject ctx d.result db

module _ (verify : Key → JwtAnswer) (intl : Time → Key → Option CivilDay) where
  unfoldable pub validate_scan : Key → Option Key → Time → ScanDb → ScanReply × ScanDb
  validate_scan user token now db =
      let ctx = load verify user token now db in commit ctx (decide_scan intl ctx) db
