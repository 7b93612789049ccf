-- ===== src/Access/Staff/Isolation.antt =====
-- A manager's calls do not reach the agents of another's event.
use fluid_events.Prelude.{
  ◌==◌, Bool, false, Option, List, [], ◌∷◌, ◌≡◌, refl, ◌∙◌, keep, keep-update_first,
  keep-remove_first, Result, ok, thrown, ==_iff, subst, sym, Bool-cases, inl, inr,
}
use fluid_events.Payments.{Key}
use fluid_events.Access.{ManagedEvent, AccessDb}
use fluid_events.Access.Ownership.{Owns, resoudre_evenement_du_manager-Owns}
use fluid_events.Access.Staff.{
  of_event, has_id, get_my_event_or_throw, invite, promote, set_active, remove,
}
use fluid_events.Access.Staff.Outcome.{
  invite-Invited, promote-Promoted, set_active-Activated, remove-Removed,
}

-- The calls of the service, with the event that the caller names.
pub data StaffCall : Type 0 where
  inviting promoting : (email : Key) → (event : Option Key) → StaffCall
  activating : (id : Key) → (is_active : Bool) → (event : Option Key) → StaffCall
  removing : (id : Key) → (event : Option Key) → StaffCall

unfoldable pub answer : Key → StaffCall → AccessDb → Result (Key × AccessDb)
answer m (inviting email q) db = invite m email q db
answer m (promoting email q) db = promote m email q db
answer m (activating id b q) db = set_active m id b q db
answer m (removing id q) db = remove m id q db

abbrev pub state_after : AccessDb → Result (Key × AccessDb) → AccessDb
state_after db (thrown e) = db
state_after db (ok (id, db')) = db'

-- Calls of several managers, one after the other.
unfoldable pub run_staff : List (Key × StaffCall) → AccessDb → AccessDb
run_staff [] db = db
run_staff ((m, c) ∷ cs) db = run_staff cs (state_after db (answer m c db))

get_my_event_or_throw-other :
    (m : Key) (q : Option Key) (db : AccessDb) (event x : Key)
    → get_my_event_or_throw m q db ≡ ok event
    → ¬ Owns m x db.events
    → (event == x) ≡ false
unfolding get_my_event_or_throw
get_my_event_or_throw-other m q db event x h other =
    let his : Owns m event db.events =
      (resoudre_evenement_du_manager-Owns m q db.events event h).0 in
    elim (Bool-cases (event == x)) [
      | inl same ↦ absurd (other (subst (λ e. Owns m e db.events) ((==_iff event x).0 same) his))
      | inr differs ↦ differs
    ]

-- The agents of an event, and the events, as they were.
abbrev pub Unreached : Key → AccessDb → AccessDb → Type 0
Unreached x db db' =
    (keep (of_event x) db'.agents ≡ keep (of_event x) db.agents) × (db'.events ≡ db.events)

module _ (m x : Key) (db : AccessDb) (other : ¬ Owns m x db.events) where
  answer-Unreached :
      (c : StaffCall) (id : Key) (db' : AccessDb)
      → answer m c db ≡ ok (id, db')
      → Unreached x db db'
  unfolding answer
  answer-Unreached (inviting email q) id db' h =
      let i = invite-Invited m email q db id db' h in
      let differs = get_my_event_or_throw-other m q db i.event x i.is_his other in
      (rw (i.agents, differs), i.events)
  answer-Unreached (promoting email q) id db' h =
      let i = promote-Promoted m email q db id db' h in
      let differs = get_my_event_or_throw-other m q db i.event x i.is_his other in
      (rw (i.agents, differs), i.events)
  answer-Unreached (activating sid b q) id db' h =
      let i = set_active-Activated m sid b q db id db' h in
      let differs = get_my_event_or_throw-other m q db i.event x i.is_his other in
      let outside : (i.agent.event_id == x) ≡ false = rw i.of_his differs in
      (
        rw i.agents
            (keep-update_first (has_id sid) (of_event x) _ db.agents i.is_there outside outside),
        i.events,
      )
  answer-Unreached (removing sid q) id db' h =
      let i = remove-Removed m sid q db id db' h in
      let differs = get_my_event_or_throw-other m q db i.event x i.is_his other in
      let outside : (i.agent.event_id == x) ≡ false = rw i.of_his differs in
      (
        rw i.agents (keep-remove_first (has_id sid) (of_event x) db.agents i.is_there outside),
        i.events,
      )

  state_after-Unreached :
      (r : Result (Key × AccessDb))
      → ((id : Key) (db' : AccessDb) → r ≡ ok (id, db') → Unreached x db db')
      → Unreached x db (state_after db r)
  state_after-Unreached (thrown e) h = (refl, refl)
  state_after-Unreached (ok (id, db')) h = h id db' refl

-- None of the calls is by a manager who owns the event.
abbrev pub AllOutside : Key → List ManagedEvent → List (Key × StaffCall) → Type 0
AllOutside x events [] = Unit {0}
AllOutside x events ((m, c) ∷ cs) = (¬ Owns m x events) × AllOutside x events cs

-- Whatever the managers who do not own an event call, with whichever identifiers, the event's agents
-- and the events stay as they are.
pub run_staff-Unreached :
    (x : Key) (cs : List (Key × StaffCall)) (db : AccessDb)
    → AllOutside x db.events cs
    → Unreached x db (run_staff cs db)
unfolding run_staff
run_staff-Unreached x [] db h = (refl, refl)
run_staff-Unreached x ((m, c) ∷ cs) db (other, others) =
    let db' : AccessDb = state_after db (answer m c db) in
    let one : Unreached x db db' =
      state_after-Unreached m x db other (answer m c db) (answer-Unreached m x db other c) in
    let rest = run_staff-Unreached x cs db' (subst (λ es. AllOutside x es cs) (sym one.1) others) in
    (rest.0 ∙ one.0, rest.1 ∙ one.1)
