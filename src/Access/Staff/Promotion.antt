-- ===== src/Access/Staff/Promotion.antt =====
-- Promotion and its end give an account back as it was; an invitation and its end do not.
use fluid_events.Prelude.{
  ◌+◌, ◌==◌, false, Option, none, some, List, ◌≡◌, ◌≢◌, refl, arith, find, find-update_first,
  update_first-update_first, ok, ==_iff,
}
use fluid_events.Payments.{Key}
use fluid_events.Access.{client, User, AccessDb, find_user}
use fluid_events.Access.Staff.{
  has_email, as_scanner, restore, invited, new_agent, invite, promote, remove,
}
use fluid_events.Access.Staff.Outcome.{invite-Invited, promote-Promoted, remove-Removed}

-- An account that is found by its address is found by its identifier, and a client has no earlier
-- role.
pub record IsKeyed (users : List User) : Type 0 where
  pub by_id :
      (email : Key) (u : User)
      → find (has_email email) users ≡ some u
      → find_user u.id users ≡ some u
  pub no_role :
      (email : Key) (u : User)
      → find (has_email email) users ≡ some u
      → u.role ≡ client
      → u.previous_role ≡ none

restore-as_scanner :
    (u : User) → u.role ≡ client → u.previous_role ≡ none → restore (some client) (as_scanner u) ≡ u
restore-as_scanner u c n = ground arith

-- To end a promotion gives back every account and every agent as they were.
pub remove-promote :
    (m email : Key) (q q' : Option Key) (db : AccessDb) (id id' : Key) (db' db'' : AccessDb)
    → IsKeyed db.users
    → promote m email q db ≡ ok (id, db')
    → remove m id q' db' ≡ ok (id', db'')
    → (db''.users ≡ db.users) × (db''.agents ≡ db.agents)
remove-promote m email q q' db id id' db' db'' k h h' =
    let p = promote-Promoted m email q db id db' h in
    let r = remove-Removed m id q' db' id' db'' h' in
    let found = k.by_id email p.user p.has_account in
    let agent : r.agent ≡ new_agent db.next_id p.event p.user.id =
      ground (arith, r.is_there, p.agents, p.named) in
    let there : find_user p.user.id db'.users ≡ some (as_scanner p.user) = rw p.users (
      find-update_first (λ u. u.id == p.user.id) as_scanner db.users found
        ((==_iff p.user.id p.user.id).1 refl)) in
    let same : r.user ≡ as_scanner p.user = cc (r.has_account, there, agent) in
    let back : restore r.user.previous_role (as_scanner p.user) ≡ p.user =
      rw (same, p.was_client)
        (restore-as_scanner p.user p.was_client
          (k.no_role email p.user p.has_account p.was_client)) in
    (
      rw (r.users, agent, p.users)
          (update_first-update_first (λ u. u.id == p.user.id) as_scanner
            (restore r.user.previous_role) db.users found ((==_iff p.user.id p.user.id).1 refl)
            back),
      ground (arith, r.agents, p.agents, p.named),
    )

-- An agent whose account was made by an invitation, and who is removed, cannot be taken on again:
-- the account is closed, with the role of an agent, and neither an invitation nor a promotion of its
-- address succeeds.
pub remove-invite :
    (m email : Key) (q q' : Option Key) (db : AccessDb) (id id' : Key) (db' db'' : AccessDb)
    → invite m email q db ≡ ok (id, db')
    → remove m id q' db' ≡ ok (id', db'')
    → (find (has_email email) db''.users
        ≡ some (record (invited db.next_id email) { is_active = false }))
      × ((m' : Key) (r : Option Key) (a : Key × AccessDb)
          → (invite m' email r db'' ≢ ok a) × (promote m' email r db'' ≢ ok a))
remove-invite m email q q' db id id' db' db'' h h' =
    let i = invite-Invited m email q db id db' h in
    let r = remove-Removed m id q' db' id' db'' h' in
    let agent : r.agent ≡ new_agent (db.next_id + 1) i.event db.next_id =
      ground (arith, r.is_there, i.agents, i.named) in
    let user : r.user ≡ invited db.next_id email = ground (arith, r.has_account, i.users, agent) in
    let closed : find (has_email email) db''.users
        ≡ some (record (invited db.next_id email) { is_active = false }) =
      rw (r.users, agent, i.users, user) (ground arith) in
    (
      closed,
      λ m' r' (a, d). (
        (λ again. ground (arith, closed, (invite-Invited m' email r' db'' a d again).is_new)),
        (λ again.
            let p = promote-Promoted m' email r' db'' a d again in
            let one : p.user ≡ record (invited db.next_id email) { is_active = false } =
              cc (p.has_account, closed) in
            ground (arith, one, p.was_client)),
      ),
    )
