-- ===== src/Registrations/Reach.antt =====
-- Who may change the list of an event.
use fluid_events.Prelude.{
  ◌==◌, Bool, true, false, some, List, [], ◌∷◌, ◌≡◌, ◌∙◌, refl, inl, inr, keep, keep-update_first,
  keep-remove_first, Bool-cases, ==_iff, ok, subst,
}
use fluid_events.Prelude.Texts.{Text}
use fluid_events.Payments.{Key, Time}
use fluid_events.Access.{EventAccessMode, resoudre_evenement_de_l_agent}
use fluid_events.Access.Ownership.{Owns}
use fluid_events.Questionnaire.{Engine}
use fluid_events.Registrations.{Registration, DoorDb, OpenEvent, has_id, checked}
use fluid_events.Registrations.Outcome.{
  DoorCall, registers, agent_marks, manager_marks, strikes, answer, state_after, state_after-holds,
  run_doors, inscrire-ok, agent_marks-ok, manager_marks-ok, strikes-ok, SameHouse,
}

abbrev pub of_event : Key → Registration → Bool
of_event x r = r.event_id == x

-- A call that has nothing to do with an event: a registration elsewhere, or a user who neither owns
-- the event nor controls its entrance.
abbrev pub IsOutside : Key → DoorDb → DoorCall → Type 0
IsOutside x db (registers slug dto) =
    (e : OpenEvent) → db.by_slug slug ≡ some e → (e.id == x) ≡ false
IsOutside x db (agent_marks u id b now) =
    (p : Key × EventAccessMode)
    → resoudre_evenement_de_l_agent u db.access ≡ ok p
    → (p.0 == x) ≡ false
IsOutside x db (manager_marks m id b now) = ¬ Owns m x db.access.events
IsOutside x db (strikes m id) = ¬ Owns m x db.access.events

-- The list of an event, and the events and users, as they were.
abbrev pub Unreached : Key → DoorDb → DoorDb → Type 0
Unreached x db db' =
    (keep (of_event x) db'.registrations ≡ keep (of_event x) db.registrations) × SameHouse db db'

Owns-other :
    (m x : Key) (r : Registration) (db : DoorDb)
    → Owns m r.event_id db.access.events
    → ¬ Owns m x db.access.events
    → of_event x r ≡ false
Owns-other m x r db owns other = elim (Bool-cases (r.event_id == x)) [
  | inl same ↦
      absurd (other (subst (λ e. Owns m e db.access.events) ((==_iff r.event_id x).0 same) owns))
  | inr differs ↦ differs
]

checked-other :
    (x : Key) (b : Bool) (now : Time) (r : Registration)
    → of_event x r ≡ false
    → of_event x (checked b now r) ≡ false
checked-other x true now r h = h
checked-other x false now r h = h

module _ (engine : Engine) (lower : Text → Text) (x : Key) where
  answer-Unreached :
      (c : DoorCall) (db db' : DoorDb)
      → IsOutside x db c
      → answer engine lower c db ≡ ok db'
      → Unreached x db db'
  unfolding answer
  answer-Unreached (registers slug dto) db db' o h =
      let (r, event, added, new, there, same, house) = inscrire-ok engine lower slug dto db db' h in
      let differs : (r.event_id == x) ≡ false = rw same (o event there) in
      (rw (added, differs), house)
  answer-Unreached (agent_marks u id b now) db db' o h =
      let (after, (r, there, (p, his, same))) = agent_marks-ok engine lower id b now db db' u h in
      let differs : of_event x r ≡ false = rw same (o p his) in
      (
        rw after (
            keep-update_first (has_id id) (of_event x) (checked b now) db.registrations there
              differs (checked-other x b now r differs)),
        (rw after, rw after),
      )
  answer-Unreached (manager_marks m id b now) db db' o h =
      let (after, (r, there, owns)) = manager_marks-ok engine lower id b now db db' m h in
      let differs = Owns-other m x r db owns o in
      (
        rw after (
            keep-update_first (has_id id) (of_event x) (checked b now) db.registrations there
              differs (checked-other x b now r differs)),
        (rw after, rw after),
      )
  answer-Unreached (strikes m id) db db' o h =
      let (after, (r, there, owns)) = strikes-ok engine lower id m db db' h in
      let differs = Owns-other m x r db owns o in
      (
        rw after (keep-remove_first (has_id id) (of_event x) db.registrations there differs),
        (rw after, rw after),
      )

  abbrev pub AllOutside : DoorDb → List DoorCall → Type 0
  AllOutside db [] = Unit {0}
  AllOutside db (c ∷ cs) = IsOutside x db c × AllOutside db cs

  IsOutside-same :
      (db db' : DoorDb) (c : DoorCall) → SameHouse db db' → IsOutside x db c → IsOutside x db' c
  IsOutside-same db db' (registers slug dto) (a, s) o = λ e h. o e (rw s at h)
  IsOutside-same db db' (agent_marks u id b now) (a, s) o = λ p h. o p (rw a at h)
  IsOutside-same db db' (manager_marks m id b now) (a, s) o = rw a o
  IsOutside-same db db' (strikes m id) (a, s) o = rw a o

  AllOutside-same :
      (db db' : DoorDb) (cs : List DoorCall)
      → SameHouse db db'
      → AllOutside db cs
      → AllOutside db' cs
  AllOutside-same db db' [] s h = tt
  AllOutside-same db db' (c ∷ cs) s (o, os) =
      (IsOutside-same db db' c s o, AllOutside-same db db' cs s os)

  -- The list of an event stays as it is, whatever is called by guests who register elsewhere and by
  -- managers and agents of other events, with whichever identifiers.
  pub run_doors-Unreached :
      (cs : List DoorCall) (db : DoorDb)
      → AllOutside db cs
      → keep (of_event x) (run_doors engine lower cs db).registrations
        ≡ keep (of_event x) db.registrations
  unfolding run_doors
  run_doors-Unreached [] db h = refl
  run_doors-Unreached (c ∷ cs) db (o, os) =
      let (kept, house) =
        state_after-holds engine lower (Unreached x db) db (answer engine lower c db)
          (refl, (refl, refl)) (λ db' done. answer-Unreached c db db' o done) in
      let db1 = state_after engine lower db (answer engine lower c db) in
      run_doors-Unreached cs db1 (AllOutside-same db db1 cs house os) ∙ kept
