-- ===== src/Access/Staff.antt =====
-- apps/api/src/scanner/scanner-admin.service.ts: a manager's agents at the entrance. Sending the
-- invitation, its token, names and the audit are left out. A refused call changes nothing.
pub mod Outcome
pub mod Isolation
pub mod Promotion
use fluid_events.Prelude.{
  ℕ, suc, ◌+◌, ◌==◌, leb, ltb, Bool, true, false, not, Option, none, some, List, [], ◌∷◌, find,
  keep, length, update_first, remove_first, Result, ok, thrown, ErrorCode, ◌>>=◌, ◌>>◌, refuse_if,
  or_fail,
}
use fluid_events.Payments.{Key}
use fluid_events.Access.{
  Role, client, scanner, free, User, Agent, AccessDb, find_event, find_user,
  resoudre_evenement_du_manager, plafond_scanners,
}

abbrev pub of_event : Key → Agent → Bool
of_event event_id a = a.event_id == event_id

abbrev pub has_email : Key → User → Bool
has_email email u = u.email == email

abbrev pub is_client : Role → Bool
is_client client = true
is_client _ = false

abbrev pub is_some {ℓ} : {A : Type ℓ} → Option A → Bool
is_some none = false
is_some (some a) = true

-- The ownership of the event gives that it is there.
unfoldable pub get_my_event_or_throw : Key → Option Key → AccessDb → Result Key
get_my_event_or_throw manager_id event_id db =
    resoudre_evenement_du_manager manager_id event_id db.events

unfoldable pub assert_plafond_scanners : Key → AccessDb → Result (Unit {0})
assert_plafond_scanners event_id db = do
  plafond ← plafond_scanners event_id db
  refuse_if (leb plafond (length (keep (of_event event_id) db.agents)))
      ErrorCode.scanner_quota_exceeded

abbrev pub new_agent : Key → Key → Key → Agent
new_agent id event_id user_id = record {
  id = id;
  event_id = event_id;
  user_id = user_id;
  is_active = true;
  scans = 0;
}

abbrev pub invited : Key → Key → User
invited id email = record {
  id = id;
  email = email;
  role = scanner;
  previous_role = none;
  is_active = true;
  plan = free;
}

-- Each call answers the agent's identifier beside the new state.
unfoldable pub invite : Key → Key → Option Key → AccessDb → Result (Key × AccessDb)
invite manager_id email event_id db = do
  event ← get_my_event_or_throw manager_id event_id db
  assert_plafond_scanners event db
  refuse_if (is_some (find (has_email email) db.users)) ErrorCode.email_already_exists
  ok (
    db.next_id + 1,
    record db {
      users = invited db.next_id email ∷ db.users;
      agents = new_agent (db.next_id + 1) event db.next_id ∷ db.agents;
      next_id = db.next_id + 2;
    },
  )

abbrev pub as_scanner : User → User
as_scanner u = record u { role = scanner; previous_role = some u.role }

unfoldable pub promote : Key → Key → Option Key → AccessDb → Result (Key × AccessDb)
promote manager_id email event_id db = do
  event ← get_my_event_or_throw manager_id event_id db
  assert_plafond_scanners event db
  user ← or_fail (find (has_email email) db.users) ErrorCode.user_not_found
  refuse_if (is_some (find (λ a. a.user_id == user.id) db.agents))
      ErrorCode.scanner_promotion_invalid
  refuse_if (not (is_client user.role)) ErrorCode.scanner_promotion_invalid
  ok (
    db.next_id,
    record db {
      users = update_first (λ u. u.id == user.id) as_scanner db.users;
      agents = new_agent db.next_id event user.id ∷ db.agents;
      next_id = db.next_id + 1;
    },
  )

abbrev pub has_id : Key → Agent → Bool
has_id id a = a.id == id

abbrev pub with_active : Bool → Agent → Agent
with_active b a = record a { is_active = b }

unfoldable pub set_active : Key → Key → Bool → Option Key → AccessDb → Result (Key × AccessDb)
set_active manager_id scanner_id is_active event_id db = do
  event ← get_my_event_or_throw manager_id event_id db
  agent ← or_fail (find (has_id scanner_id) db.agents) ErrorCode.scanner_not_found
  refuse_if (not (agent.event_id == event)) ErrorCode.forbidden
  ok (
    scanner_id,
    record db { agents = update_first (has_id scanner_id) (with_active is_active) db.agents },
  )

-- The account's role before its promotion, or else the account is closed.
abbrev pub restore : Option Role → User → User
restore (some r) u = record u { role = r; previous_role = none }
restore none u = record u { is_active = false }

unfoldable pub remove : Key → Key → Option Key → AccessDb → Result (Key × AccessDb)
remove manager_id scanner_id event_id db = do
  event ← get_my_event_or_throw manager_id event_id db
  agent ← or_fail (find (has_id scanner_id) db.agents) ErrorCode.scanner_not_found
  user ← or_fail (find_user agent.user_id db.users) ErrorCode.internal_error
  refuse_if (not (agent.event_id == event)) ErrorCode.forbidden
  refuse_if (ltb 0 agent.scans) ErrorCode.scanner_promotion_invalid
  ok (
    scanner_id,
    record db {
      users = update_first (λ u. u.id == agent.user_id) (restore user.previous_role) db.users;
      agents = remove_first (has_id scanner_id) db.agents;
    },
  )
