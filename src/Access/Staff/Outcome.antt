-- ===== src/Access/Staff/Outcome.antt =====
-- What each call of the service does when it succeeds.
use fluid_events.Prelude.{
  ℕ, ◌+◌, ◌<◌, ◌≤◌, ◌==◌, Bool, true, false, Option, none, some, ◌∷◌, ◌≡◌, refl, arith, find, keep,
  length, update_first, remove_first, ok, >>=-eq-ok, or_fail->>=-eq-ok, ◌⊎◌, inl, inr,
}
use fluid_events.Payments.{Key}
use fluid_events.Access.{Role, client, User, Agent, AccessDb, find_user, plafond_scanners}
use fluid_events.Access.Staff.{
  of_event, has_email, has_id, with_active, restore, as_scanner, invited, new_agent, is_client,
  is_some, get_my_event_or_throw, assert_plafond_scanners, invite, promote, set_active, remove,
}

is_some-eq-false {ℓ} : {A : Type ℓ} (o : Option A) → is_some o ≡ false → o ≡ none
is_some-eq-false none h = refl
is_some-eq-false (some a) h = cc

is_client-eq-true : (r : Role) → is_client r ≡ true → r ≡ client
is_client-eq-true client h = refl
is_client-eq-true _ h = cc

-- There is room for one more agent.
pub record HasRoom (event_id : Key) (db : AccessDb) : Type 0 where
  pub plafond : ℕ
  pub is_plafond : plafond_scanners event_id db ≡ ok plafond
  pub below : length (keep (of_event event_id) db.agents) < plafond

pub assert_plafond_scanners-HasRoom :
    (event_id : Key) (db : AccessDb) {u : Unit {0}}
    → assert_plafond_scanners event_id db ≡ ok u
    → HasRoom event_id db
unfolding assert_plafond_scanners
assert_plafond_scanners-HasRoom event_id db h =
    let (plafond, is_plafond, room) = >>=-eq-ok (plafond_scanners event_id db) _ h in
    record { plafond = plafond; is_plafond = is_plafond; below = ground arith }

pub record Invited (m email : Key) (q : Option Key) (db : AccessDb) (id : Key) (db' : AccessDb)
    : Type 0 where
  pub event : Key
  pub is_his : get_my_event_or_throw m q db ≡ ok event
  pub room : HasRoom event db
  pub is_new : find (has_email email) db.users ≡ none
  pub named : id ≡ db.next_id + 1
  pub users : db'.users ≡ invited db.next_id email ∷ db.users
  pub agents : db'.agents ≡ new_agent (db.next_id + 1) event db.next_id ∷ db.agents
  pub events : db'.events ≡ db.events

pub invite-Invited :
    (m email : Key) (q : Option Key) (db : AccessDb) (id : Key) (db' : AccessDb)
    → invite m email q db ≡ ok (id, db')
    → Invited m email q db id db'
unfolding invite
invite-Invited m email q db id db' h =
    let (event, is_his, h1) = >>=-eq-ok (get_my_event_or_throw m q db) _ h in
    let (u, room, h2) = >>=-eq-ok (assert_plafond_scanners event db) _ h1 in
    record {
      event = event;
      is_his = is_his;
      room = assert_plafond_scanners-HasRoom event db room;
      is_new = ground arith;
      named = ground arith;
      users = ground arith;
      agents = ground arith;
      events = ground arith;
    }

pub record Promoted (m email : Key) (q : Option Key) (db : AccessDb) (id : Key) (db' : AccessDb)
    : Type 0 where
  pub event : Key
  pub user : User
  pub is_his : get_my_event_or_throw m q db ≡ ok event
  pub room : HasRoom event db
  pub has_account : find (has_email email) db.users ≡ some user
  pub is_free : find (λ a. a.user_id == user.id) db.agents ≡ none
  pub was_client : user.role ≡ client
  pub named : id ≡ db.next_id
  pub users : db'.users ≡ update_first (λ u. u.id == user.id) as_scanner db.users
  pub agents : db'.agents ≡ new_agent db.next_id event user.id ∷ db.agents
  pub events : db'.events ≡ db.events

pub promote-Promoted :
    (m email : Key) (q : Option Key) (db : AccessDb) (id : Key) (db' : AccessDb)
    → promote m email q db ≡ ok (id, db')
    → Promoted m email q db id db'
unfolding promote
promote-Promoted m email q db id db' h =
    let (event, is_his, h1) = >>=-eq-ok (get_my_event_or_throw m q db) _ h in
    let (u, room, h2) = >>=-eq-ok (assert_plafond_scanners event db) _ h1 in
    let (user, has_account, h3) = or_fail->>=-eq-ok _ _ _ h2 in
    record {
      event = event;
      user = user;
      is_his = is_his;
      room = assert_plafond_scanners-HasRoom event db room;
      has_account = has_account;
      is_free = ground arith;
      was_client = is_client-eq-true user.role (ground arith);
      named = ground arith;
      users = ground arith;
      agents = ground arith;
      events = ground arith;
    }

pub record Activated (m id : Key) (b : Bool) (q : Option Key) (db db' : AccessDb) : Type 0 where
  pub event : Key
  pub agent : Agent
  pub is_his : get_my_event_or_throw m q db ≡ ok event
  pub is_there : find (has_id id) db.agents ≡ some agent
  pub of_his : agent.event_id ≡ event
  pub agents : db'.agents ≡ update_first (has_id id) (with_active b) db.agents
  pub events : db'.events ≡ db.events

pub set_active-Activated :
    (m id : Key) (b : Bool) (q : Option Key) (db : AccessDb) (id' : Key) (db' : AccessDb)
    → set_active m id b q db ≡ ok (id', db')
    → Activated m id b q db db'
unfolding set_active
set_active-Activated m id b q db id' db' h =
    let (event, is_his, h1) = >>=-eq-ok (get_my_event_or_throw m q db) _ h in
    let (agent, is_there, h2) = or_fail->>=-eq-ok _ _ _ h1 in
    record {
      event = event;
      agent = agent;
      is_his = is_his;
      is_there = is_there;
      of_his = ground arith;
      agents = ground arith;
      events = ground arith;
    }

pub record Removed (m id : Key) (q : Option Key) (db db' : AccessDb) : Type 0 where
  pub event : Key
  pub agent : Agent
  pub user : User
  pub is_his : get_my_event_or_throw m q db ≡ ok event
  pub is_there : find (has_id id) db.agents ≡ some agent
  pub has_account : find_user agent.user_id db.users ≡ some user
  pub of_his : agent.event_id ≡ event
  pub no_scans : agent.scans ≡ 0
  pub users :
      db'.users ≡ update_first (λ u. u.id == agent.user_id) (restore user.previous_role) db.users
  pub agents : db'.agents ≡ remove_first (has_id id) db.agents
  pub events : db'.events ≡ db.events

pub remove-Removed :
    (m id : Key) (q : Option Key) (db : AccessDb) (id' : Key) (db' : AccessDb)
    → remove m id q db ≡ ok (id', db')
    → Removed m id q db db'
unfolding remove
remove-Removed m id q db id' db' h =
    let (event, is_his, h1) = >>=-eq-ok (get_my_event_or_throw m q db) _ h in
    let (agent, is_there, h2) = or_fail->>=-eq-ok _ _ _ h1 in
    let (user, has_account, h3) = or_fail->>=-eq-ok _ _ _ h2 in
    record {
      event = event;
      agent = agent;
      user = user;
      is_his = is_his;
      is_there = is_there;
      has_account = has_account;
      of_his = ground arith;
      no_scans = ground arith;
      users = ground arith;
      agents = ground arith;
      events = ground arith;
    }

-- After an invitation or a promotion the event has one agent more, of the manager's event, and no
-- more than its limit.
pub invite_bounded :
    (m email : Key) (q : Option Key) (db : AccessDb) (id : Key) (db' : AccessDb)
    → (invite m email q db ≡ ok (id, db')) ⊎ (promote m email q db ≡ ok (id, db'))
    → (event plafond : Key) → get_my_event_or_throw m q db ≡ ok event
    → plafond_scanners event db ≡ ok plafond
    → (length (keep (of_event event) db'.agents) ≡ length (keep (of_event event) db.agents) + 1)
      × (length (keep (of_event event) db'.agents) ≤ plafond)
invite_bounded m email q db id db' (inl h) event plafond is_his is_plafond =
    let i = invite-Invited m email q db id db' h in
    let same : i.event ≡ event = cc (i.is_his, is_his) in
    let ceiling : i.room.plafond ≡ plafond = cc (i.room.is_plafond, is_plafond, same) in
    (ground (arith, i.agents), ground (arith, i.agents, i.room.below))
invite_bounded m email q db id db' (inr h) event plafond is_his is_plafond =
    let i = promote-Promoted m email q db id db' h in
    let same : i.event ≡ event = cc (i.is_his, is_his) in
    let ceiling : i.room.plafond ≡ plafond = cc (i.room.is_plafond, is_plafond, same) in
    (ground (arith, i.agents), ground (arith, i.agents, i.room.below))
