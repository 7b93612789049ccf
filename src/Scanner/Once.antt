-- ===== src/Scanner/Once.antt =====
-- A ticket opens the entrance once, or once a day, however scans interleave.
use fluid_events.Prelude.{
  true, Option, none, some, List, [], ◌∷◌, ◌≡◌, arith, refl, inl, inr, Bool-cases,
}
use fluid_events.Payments.{Key}
use fluid_events.Scanner.{
  ScanResult, valid, already_used, Scanner, ScannedItem, ScanContext, ScanDecision, Attendee,
}
use fluid_events.Scanner.Service.{
  ScanDb, commit, take, take_day, take_item, reject, record_scan, day_recorded, is_valid,
}

-- A scan that has been decided and not yet recorded.
pub record Pending : Type 0 where
  pub context : ScanContext
  pub decision : ScanDecision

unfoldable pub commit_all : List Pending → ScanDb → ScanDb
commit_all [] db = db
commit_all (p ∷ ps) db = commit_all ps (commit p.context p.decision db).1

-- The item is marked as scanned.
abbrev IsUsed : Key → ScanDb → Type 0
IsUsed id db = (i : ScannedItem) × (db.items id ≡ some i) × (i.is_scanned ≡ true)

-- A pending scan that is to consume an item, once for all.
pub record IsForItem (p : Pending) (id : Key) : Type 0 where
  pub scanner : Scanner
  pub item : ScannedItem
  pub has_scanner : p.context.scanner ≡ some scanner
  pub has_item : p.context.order_item ≡ some item
  pub same_item : item.id ≡ id
  pub is_granted : p.decision.result ≡ valid
  pub no_day : p.decision.day_scan_for ≡ none

-- The passes: one entry for each item and day.
record_scan-days :
    (s i : Option Key) (r : ScanResult) (db : ScanDb)
    → (record_scan s i r db).day_scans ≡ db.day_scans
unfolding record_scan
record_scan-days s i r db = refl

take-keeps_day :
    (ctx : ScanContext) (d : ScanDecision) (s : Option Scanner) (i : Option ScannedItem)
    (day : Option Key) (db : ScanDb) (id today : Key)
    → day_recorded id today db.day_scans ≡ true
    → day_recorded id today (take ctx d s i day db).1.day_scans ≡ true
unfolding reject record_scan take_day take_item
take-keeps_day ctx d (some s) (some i) (some day) db id today h = ground arith
take-keeps_day ctx d (some s) (some i) none db id today h = ground arith
take-keeps_day ctx d none i day db id today h = h
take-keeps_day ctx d (some s) none day db id today h = h

commit-keeps_day :
    (ctx : ScanContext) (d : ScanDecision) (db : ScanDb) (id today : Key)
    → day_recorded id today db.day_scans ≡ true
    → day_recorded id today (commit ctx d db).1.day_scans ≡ true
unfolding commit reject record_scan
commit-keeps_day ctx d db id today h = elim (Bool-cases (is_valid d.result)) [
  | inl good ↦
      rw good (take-keeps_day ctx d ctx.scanner ctx.order_item d.day_scan_for db id today h)
  | inr bad ↦ rw bad h
]

commit_all-keeps_day :
    (ps : List Pending) (db : ScanDb) (id today : Key)
    → day_recorded id today db.day_scans ≡ true
    → day_recorded id today (commit_all ps db).day_scans ≡ true
unfolding commit_all
commit_all-keeps_day [] db id today h = h
commit_all-keeps_day (p ∷ ps) db id today h =
    commit_all-keeps_day ps (commit p.context p.decision db).1 id today
      (commit-keeps_day p.context p.decision db id today h)

-- A pending scan of a pass, for one day.
pub record IsForDay (p : Pending) (id today : Key) : Type 0 where
  pub scanner : Scanner
  pub item : ScannedItem
  pub has_scanner : p.context.scanner ≡ some scanner
  pub has_item : p.context.order_item ≡ some item
  pub same_item : item.id ≡ id
  pub is_granted : p.decision.result ≡ valid
  pub on_day : p.decision.day_scan_for ≡ some today

commit-IsForDay :
    (p : Pending) (id today : Key) (f : IsForDay p id today) (db : ScanDb)
    → commit p.context p.decision db ≡ take_day f.scanner f.item today p.decision.attendee db
unfolding commit
commit-IsForDay p id today f db = rw (f.is_granted, f.has_scanner, f.has_item, f.on_day)

take_day-recorded :
    (s : Scanner) (i : ScannedItem) (day : Key) (a : Option Attendee) (db : ScanDb)
    → day_recorded i.id day (take_day s i day a db).1.day_scans ≡ true
unfolding take_day record_scan
take_day-recorded s i day a db = ground arith

recorded-take_day :
    (s : Scanner) (i : ScannedItem) (day : Key) (a : Option Attendee) (db : ScanDb)
    → day_recorded i.id day db.day_scans ≡ true
    → (take_day s i day a db).0.result ≡ already_used
unfolding take_day
recorded-take_day s i day a db h = rw h

-- A pass is let in at most once for each day, whatever the snapshots and the scans in between: after
-- one scan for a day is recorded, every later one for that day is answered ALREADY_USED.
pub commit_once_a_day :
    (p q : Pending) (ps : List Pending) (id today : Key) (db : ScanDb)
    → IsForDay p id today
    → IsForDay q id today
    → (commit q.context q.decision (commit_all ps (commit p.context p.decision db).1)).0.result
      ≡ already_used
commit_once_a_day p q ps id today db f h =
    let first = commit-IsForDay p id today f db in
    let here : day_recorded id today (commit p.context p.decision db).1.day_scans ≡ true =
      rw (first, ← f.same_item) (take_day-recorded f.scanner f.item today p.decision.attendee db) in
    let later = commit_all-keeps_day ps (commit p.context p.decision db).1 id today here in
    rw (commit-IsForDay q id today h (commit_all ps (commit p.context p.decision db).1))
      (recorded-take_day h.scanner h.item today q.decision.attendee _ (rw h.same_item later))
