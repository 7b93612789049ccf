-- ===== src/Access.antt =====
-- apps/api/src/common/event-access.service.ts: which event belongs to which manager, and what the
-- manager's plan allows. The audit and the texts of messages are left out.
pub mod Ownership
pub mod Staff
use fluid_events.Prelude.{
  ℕ, ◌==◌, leb, ltb, if◌then◌else◌, Bool, true, false, not, ◌&&◌, Option, none, some, List, [], ◌∷◌,
  find, keep, length, Result, ok, thrown, ErrorCode, ◌>>=◌, ◌>>◌, refuse_if, or_fail,
}
use fluid_events.Payments.{Key}

-- `unknown` is a plan that is no longer offered.
pub data SubscriptionPlan : Type 0 where
  free premium unknown : SubscriptionPlan

pub data EventAccessMode : Type 0 where
  rsvp ticketed_guest ticketed_account : EventAccessMode

pub data Role : Type 0 where
  super_admin manager scanner client : Role

pub data BlockType : Type 0 where
  tickets registration other : BlockType

pub record Limites : Type 0 where
  pub max_evenements : ℕ
  pub max_scanners_par_evenement : ℕ
  pub multi_jours : Bool

pub record User : Type 0 where
  pub id : Key
  pub email : Key
  pub role : Role
  pub previous_role : Option Role
  pub is_active : Bool
  pub plan : SubscriptionPlan

pub record ManagedEvent : Type 0 where
  pub id : Key
  pub manager_id : Key
  pub access_mode : EventAccessMode
  pub max_scanners : Option ℕ

-- `scans` is the number of rows of the scanner in the log.
pub record Agent : Type 0 where
  pub id : Key
  pub event_id : Key
  pub user_id : Key
  pub is_active : Bool
  pub scans : ℕ

-- Events in the order of their creation. Users and agents are found by unique columns, and the
-- newest stand first. `paid_orders` counts an event's orders that are PAID.
pub record AccessDb : Type 0 where
  pub events : List ManagedEvent
  pub users : List User
  pub agents : List Agent
  pub paid_orders : Key → ℕ
  pub next_id : Key

unfoldable pub vend_des_billets : Option EventAccessMode → Bool
vend_des_billets (some rsvp) = false
vend_des_billets _ = true

abbrev is_rsvp : EventAccessMode → Bool
is_rsvp rsvp = true
is_rsvp _ = false

abbrev mode_or_default : Option EventAccessMode → EventAccessMode
mode_or_default none = ticketed_account
mode_or_default (some m) = m

unfoldable pub bloc_autorise : BlockType → Option EventAccessMode → Bool
bloc_autorise tickets mode = not (is_rsvp (mode_or_default mode))
bloc_autorise registration mode = is_rsvp (mode_or_default mode)
bloc_autorise other mode = true

abbrev pub limites_free : Limites
limites_free = record { max_evenements = 1; max_scanners_par_evenement = 3; multi_jours = false }

unfoldable pub limites_du_plan : Option SubscriptionPlan → Limites
limites_du_plan (some premium) = record {
  max_evenements = 8;
  max_scanners_par_evenement = 6;
  multi_jours = true;
}
limites_du_plan _ = limites_free

abbrev pub find_event : Key → List ManagedEvent → Option ManagedEvent
find_event id = find (λ e. e.id == id)

abbrev pub find_user : Key → List User → Option User
find_user id = find (λ u. u.id == id)

abbrev pub owned_by : Key → List ManagedEvent → List ManagedEvent
owned_by manager_id = keep (λ e. e.manager_id == manager_id)

abbrev pub plan_of : Option User → Option SubscriptionPlan
plan_of none = none
plan_of (some u) = some u.plan

abbrev pub limites_of : Key → List User → Limites
limites_of manager_id users = limites_du_plan (plan_of (find_user manager_id users))

-- The answer is the same for an event that is not there and one of another manager.
abbrev pub if_owned : Key → Option ManagedEvent → Result Key
if_owned manager_id none = thrown ErrorCode.event_not_found
if_owned manager_id (some e) =
    if e.manager_id == manager_id then ok e.id else thrown ErrorCode.event_not_found

abbrev pub if_single : List ManagedEvent → Result Key
if_single [] = thrown ErrorCode.event_not_found
if_single (e ∷ []) = ok e.id
if_single (e ∷ f ∷ es) = thrown ErrorCode.event_selection_required

unfoldable pub resoudre_evenement_du_manager : Key → Option Key → List ManagedEvent → Result Key
resoudre_evenement_du_manager manager_id (some event_id) events =
    if_owned manager_id (find_event event_id events)
resoudre_evenement_du_manager manager_id none events = if_single (owned_by manager_id events)

abbrev mode_of : Option ManagedEvent → Result EventAccessMode
mode_of none = thrown ErrorCode.event_not_found
mode_of (some e) = ok e.access_mode

unfoldable pub resoudre_evenement_de_l_agent : Key → AccessDb → Result (Key × EventAccessMode)
resoudre_evenement_de_l_agent user_id db = do
  profil ← or_fail (find (λ a. a.user_id == user_id) db.agents) ErrorCode.event_not_found
  refuse_if (not profil.is_active) ErrorCode.event_not_found
  event ← or_fail (find_event profil.event_id db.events) ErrorCode.internal_error
  ok (event.id, event.access_mode)

unfoldable pub assert_quota_evenements : Key → AccessDb → Result (Unit {0})
assert_quota_evenements manager_id db =
    refuse_if
      (leb (limites_of manager_id db.users).max_evenements (length (owned_by manager_id db.events)))
      ErrorCode.event_quota_reached

abbrev pub same_mode : EventAccessMode → EventAccessMode → Bool
same_mode rsvp rsvp = true
same_mode ticketed_guest ticketed_guest = true
same_mode ticketed_account ticketed_account = true
same_mode _ _ = false

unfoldable pub set_mode : Key → EventAccessMode → List ManagedEvent → List ManagedEvent
set_mode event_id cible [] = []
set_mode event_id cible (e ∷ es) =
    (if e.id == event_id then record e { access_mode = cible } else e) ∷ set_mode event_id cible es

unfoldable pub changer_regime_acces : Key → EventAccessMode → AccessDb → Result AccessDb
changer_regime_acces event_id cible db = do
  evenement ← or_fail (find_event event_id db.events) ErrorCode.event_not_found
  refuse_if
      (vend_des_billets (some evenement.access_mode)
        && not (vend_des_billets (some cible))
        && ltb 0 (db.paid_orders event_id))
      ErrorCode.event_access_mode_locked
  ok (
      if same_mode evenement.access_mode cible
      then db
      else record db { events = set_mode event_id cible db.events })

abbrev pub ceiling_or : Option ℕ → ℕ → ℕ
ceiling_or (some n) m = n
ceiling_or none m = m

unfoldable pub plafond_scanners : Key → AccessDb → Result ℕ
plafond_scanners event_id db = do
  evenement ← or_fail (find_event event_id db.events) ErrorCode.event_not_found
  ok (
      ceiling_or evenement.max_scanners
        (limites_of evenement.manager_id db.users).max_scanners_par_evenement)
