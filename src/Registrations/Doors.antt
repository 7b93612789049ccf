-- ===== src/Registrations/Doors.antt =====
-- Nobody stands twice on the list of an event.
use fluid_events.Prelude.{
  Bool, true, false, List, [], ◌∷◌, ◌≡◌, refl, arith, inl, inr, any, update_first, remove_first,
  Bool-cases, ok,
}
use fluid_events.Prelude.Texts.{Text}
use fluid_events.Payments.{Key, Time}
use fluid_events.Questionnaire.{Engine}
use fluid_events.Registrations.{Registration, DoorDb, same_place, has_id, checked}
use fluid_events.Registrations.Outcome.{
  DoorCall, registers, agent_marks, manager_marks, strikes, answer, state_after, state_after-holds,
  run_doors, inscrire-ok, agent_marks-ok, manager_marks-ok, strikes-ok,
}

-- No two registrations of one event have the same address.
abbrev pub AllApart : List Registration → Type 0
AllApart [] = Unit {0}
AllApart (r ∷ rs) = (any (same_place r.event_id r.email) rs ≡ false) × AllApart rs

-- A list of which only the marks of presence differ, or which has lost a row.
any-checked :
    (e : Key) (m : Text) (id : Key) (b : Bool) (now : Time) (rs : List Registration)
    → any (same_place e m) (update_first (has_id id) (checked b now) rs) ≡ any (same_place e m) rs
any-checked e m id b now [] = refl
any-checked e m id true now (r ∷ rs) = ground (arith, any-checked e m id true now rs)
any-checked e m id false now (r ∷ rs) = ground (arith, any-checked e m id false now rs)

AllApart-checked :
    (id : Key) (b : Bool) (now : Time) (rs : List Registration)
    → AllApart rs
    → AllApart (update_first (has_id id) (checked b now) rs)
AllApart-checked id b now [] h = tt
AllApart-checked id true now (r ∷ rs) (h, hs) = elim (Bool-cases (has_id id r)) [
  | inl here ↦ rw here (h, hs)
  | inr later ↦
      rw later
        (rw (any-checked r.event_id r.email id true now rs) h, AllApart-checked id true now rs hs)
]
AllApart-checked id false now (r ∷ rs) (h, hs) = elim (Bool-cases (has_id id r)) [
  | inl here ↦ rw here (h, hs)
  | inr later ↦
      rw later
        (rw (any-checked r.event_id r.email id false now rs) h, AllApart-checked id false now rs hs)
]

any-removed :
    (e : Key) (m : Text) (id : Key) (rs : List Registration)
    → any (same_place e m) rs ≡ false
    → any (same_place e m) (remove_first (has_id id) rs) ≡ false
any-removed e m id [] h = refl
any-removed e m id (r ∷ rs) h = ground (arith, any-removed e m id rs)

AllApart-removed :
    (id : Key) (rs : List Registration) → AllApart rs → AllApart (remove_first (has_id id) rs)
AllApart-removed id [] h = tt
AllApart-removed id (r ∷ rs) (h, hs) = elim (Bool-cases (has_id id r)) [
  | inl here ↦ rw here hs
  | inr later ↦ rw later (any-removed r.event_id r.email id rs h, AllApart-removed id rs hs)
]

module _ (engine : Engine) (lower : Text → Text) where
  answer-AllApart :
      (c : DoorCall) (db db' : DoorDb)
      → answer engine lower c db ≡ ok db'
      → AllApart db.registrations
      → AllApart db'.registrations
  unfolding answer
  answer-AllApart (registers slug dto) db db' h a =
      let (r, event, added, new, there, same, house) = inscrire-ok engine lower slug dto db db' h in
      rw added (new, a)
  answer-AllApart (agent_marks u id b now) db db' h a =
      rw ((agent_marks-ok engine lower id b now db db' u h).0)
        (AllApart-checked id b now db.registrations a)
  answer-AllApart (manager_marks m id b now) db db' h a =
      rw ((manager_marks-ok engine lower id b now db db' m h).0)
        (AllApart-checked id b now db.registrations a)
  answer-AllApart (strikes m id) db db' h a =
      rw ((strikes-ok engine lower id m db db' h).0) (AllApart-removed id db.registrations a)

  -- Whatever guests, agents and managers call, no two registrations of one event have the same
  -- address.
  pub run_doors-AllApart :
      (cs : List DoorCall) (db : DoorDb)
      → AllApart db.registrations
      → AllApart (run_doors engine lower cs db).registrations
  unfolding run_doors
  run_doors-AllApart [] db a = a
  run_doors-AllApart (c ∷ cs) db a =
      run_doors-AllApart cs (state_after engine lower db (answer engine lower c db)) (
        state_after-holds engine lower (λ d. AllApart d.registrations) db (answer engine lower c db)
          a (λ db' done. answer-AllApart c db db' done a))
