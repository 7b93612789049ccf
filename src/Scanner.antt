-- ===== src/Scanner.antt =====
-- apps/api/src/scanner: the control of tickets at the entrance.
pub mod Decision
pub mod Service
pub mod Once
use fluid_events.Prelude.{ℕ, Bool, Option, List}
use fluid_events.Payments.{Key, Time, EventStatus, OrderStatus}
use fluid_events.Payments.Qr.{QrVerification}

pub data ScanResult : Type 0 where
  valid already_used expired invalid event_mismatch wrong_day : ScanResult

pub data TicketPolicy : Type 0 where
  single_day pass_all_days per_day : TicketPolicy

-- A day of the civil calendar, counted from 1970-01-01. The source writes it as YYYY-MM-DD, and
-- only compares it.
abbrev pub CivilDay : Type 0
CivilDay = ℕ

pub record Scanner : Type 0 where
  pub id : Key
  pub is_active : Bool
  pub event_id : Key

pub record EventDay : Type 0 where
  pub id : Key
  pub date : Time

pub record ScannedEvent : Type 0 where
  pub id : Key
  pub status : EventStatus
  pub ticket_policy : TicketPolicy
  pub timezone : Key
  pub days : List EventDay

-- An item with the parts of its order, its client and its ticket that the query selects.
pub record ScannedItem : Type 0 where
  pub id : Key
  pub is_scanned : Bool
  pub order_status : OrderStatus
  pub client_name : Option Key
  pub ticket_name : Key
  pub event_day_id : Option Key

pub record ScanContext : Type 0 where
  pub qr_verification : QrVerification
  pub scanner : Option Scanner
  pub event : Option ScannedEvent
  pub order_item : Option ScannedItem
  pub now : Time

-- `none` as a name stands for 'Inconnu'.
pub record Attendee : Type 0 where
  pub name : Option Key
  pub ticket_name : Key

pub record ScanDecision : Type 0 where
  pub result : ScanResult
  pub attendee : Option Attendee
  pub should_mark_scanned : Bool
  pub day_scan_for : Option Key
