-- ===== src/Registrations/Outcome.antt =====
-- What each call of the service does to the list when it succeeds.
use fluid_events.Prelude.{
  Bool, false, some, List, [], ◌∷◌, ◌≡◌, refl, arith, inl, inr, any, find, remove_first, Bool-cases,
  Result, ok, thrown, ErrorCode, >>=-eq-ok, or_fail->>=-eq-ok, Result-cases,
}
use fluid_events.Prelude.Texts.{Text}
use fluid_events.Payments.{Key, Time}
use fluid_events.Access.{
  EventAccessMode, resoudre_evenement_du_manager, resoudre_evenement_de_l_agent,
}
use fluid_events.Access.Ownership.{Owns, resoudre_evenement_du_manager-Owns}
use fluid_events.Questionnaire.{Engine, trim, valider_reponses}
use fluid_events.Registrations.{
  Registration, DoorDb, CreateRegistration, OpenEvent, same_place, has_id, pointed,
  new_registration, reponses_de, champs_de, inscrire, pointer_par_agent, pointer, retirer,
}

-- The calls of the service that change the list. A guest registers; a manager or an agent marks who
-- is present; a manager strikes a guest off.
pub data DoorCall : Type 0 where
  registers : (slug : Key) → CreateRegistration → DoorCall
  agent_marks manager_marks : (user : Key) → (id : Key) → (present : Bool) → (now : Time) → DoorCall
  strikes : (manager : Key) → (id : Key) → DoorCall

-- The events, the managers and the agents are as they were.
abbrev pub SameHouse : DoorDb → DoorDb → Type 0
SameHouse db db' = (db'.access ≡ db.access) × (db'.by_slug ≡ db.by_slug)

module _ (engine : Engine) (lower : Text → Text) where
  unfoldable pub answer : DoorCall → DoorDb → Result DoorDb
  answer (registers slug dto) db = inscrire engine lower slug dto db
  answer (agent_marks u id b now) db = pointer_par_agent u id b now db
  answer (manager_marks m id b now) db = pointer m id b now db
  answer (strikes m id) db = retirer m id db

  abbrev pub state_after : DoorDb → Result DoorDb → DoorDb
  state_after db (thrown e) = db
  state_after db (ok db') = db'

  -- What holds of a state, and of the state after a call that succeeds, holds after any call.
  pub state_after-holds {ℓ} :
      (P : DoorDb → Type ℓ) (db : DoorDb) (r : Result DoorDb)
      → P db
      → ((db' : DoorDb) → r ≡ ok db' → P db')
      → P (state_after db r)
  state_after-holds P db (thrown e) h k = h
  state_after-holds P db (ok db') h k = k db' refl

  unfoldable pub run_doors : List DoorCall → DoorDb → DoorDb
  run_doors [] db = db
  run_doors (c ∷ cs) db = run_doors cs (state_after db (answer c db))

  -- What each call does to the list when it succeeds.
  pub inscrire-ok :
      (slug : Key) (dto : CreateRegistration) (db db' : DoorDb)
      → inscrire engine lower slug dto db ≡ ok db'
      → (r : Registration) × (event : OpenEvent) × (db'.registrations ≡ r ∷ db.registrations)
        × (any (same_place r.event_id r.email) db.registrations ≡ false)
        × (db.by_slug slug ≡ some event)
        × (r.event_id ≡ event.id)
        × SameHouse db db'
  unfolding inscrire
  inscrire-ok slug dto db db' h =
      let (event, there, h1) = or_fail->>=-eq-ok (db.by_slug slug) ErrorCode.event_not_found _ h in
      elim (Bool-cases (any (same_place event.id (lower (trim dto.email))) db.registrations)) [
        | inl old ↦ absurd (ground arith)
        | inr new ↦
            elim (Result-cases
              (reponses_de (valider_reponses engine (champs_de event) dto.answers))) [
                | inl (code, refused) ↦ absurd (ground arith)
                | inr (rs, passed) ↦ (
                  new_registration engine lower db.next_id event dto rs,
                  event,
                  ground arith,
                  new,
                  there,
                  refl,
                  (ground arith, ground arith),
                )
              ]
      ]

  module _ (id : Key) (b : Bool) (now : Time) (db db' : DoorDb) where
    pub agent_marks-ok :
        (u : Key)
        → pointer_par_agent u id b now db ≡ ok db'
        → (db' ≡ pointed id b now db)
          × ((r : Registration) × (find (has_id id) db.registrations ≡ some r)
              × ((p : Key × EventAccessMode) × (resoudre_evenement_de_l_agent u db.access ≡ ok p)
                  × (r.event_id ≡ p.0)))
    unfolding pointer_par_agent
    agent_marks-ok u h =
        let (p, his, h1) = >>=-eq-ok (resoudre_evenement_de_l_agent u db.access) _ h in
        let (r, there, h2) =
          or_fail->>=-eq-ok (find (has_id id) db.registrations) ErrorCode.registration_not_found _
            h1 in
        (ground arith, (r, there, (p, his, ground arith)))

    pub manager_marks-ok :
        (m : Key)
        → pointer m id b now db ≡ ok db'
        → (db' ≡ pointed id b now db)
          × ((r : Registration) × (find (has_id id) db.registrations ≡ some r)
              × Owns m r.event_id db.access.events)
    unfolding pointer
    manager_marks-ok m h =
        let (r, there, h1) =
          or_fail->>=-eq-ok (find (has_id id) db.registrations) ErrorCode.registration_not_found _
            h in
        let (e, his, h2) =
          >>=-eq-ok (resoudre_evenement_du_manager m (some r.event_id) db.access.events) _ h1 in
        let (owns, asked) =
          resoudre_evenement_du_manager-Owns m (some r.event_id) db.access.events e his in
        let same : e ≡ r.event_id = ground arith in (ground arith, (r, there, rw (← same) owns))

  pub strikes-ok :
      (id m : Key) (db db' : DoorDb)
      → retirer m id db ≡ ok db'
      → (db' ≡ record db { registrations = remove_first (has_id id) db.registrations })
        × ((r : Registration) × (find (has_id id) db.registrations ≡ some r)
            × Owns m r.event_id db.access.events)
  unfolding retirer
  strikes-ok id m db db' h =
      let (r, there, h1) =
        or_fail->>=-eq-ok (find (has_id id) db.registrations) ErrorCode.registration_not_found _
          h in
      let (e, his, h2) =
        >>=-eq-ok (resoudre_evenement_du_manager m (some r.event_id) db.access.events) _ h1 in
      let (owns, asked) =
        resoudre_evenement_du_manager-Owns m (some r.event_id) db.access.events e his in
      let same : e ≡ r.event_id = ground arith in (ground arith, (r, there, rw (← same) owns))
