-- ===== src/Catalogue/Course.antt =====
-- The calls of managers on their tickets and events, one after another.
use fluid_events.Prelude.{
  ℕ, Bool, any, Option, List, [], ◌∷◌, Result, ok, thrown, ◌≡◌, refl, inl, inr, Bool-cases,
}
use fluid_events.Prelude.Texts.{Text}
use fluid_events.Payments.{Key, Time}
use fluid_events.Access.{resoudre_evenement_du_manager}
use fluid_events.Catalogue.{
  CatalogueDb, CreateTicketDto, UpdateTicketDto, create_ticket, update_ticket, delete_ticket,
}
use fluid_events.Catalogue.Days.{
  UpdateEventDto, change_access, apply_days_and_policy, write_settings, and_then, attempt,
  update_resolved, update_my_event, is_refused, edit,
}

-- Who asks for what.
pub data Change : Type 0 where
  creates : Key → Key → CreateTicketDto → Change
  updates : Key → Key → UpdateTicketDto → Change
  deletes : Key → Key → Change
  edits : Key → UpdateEventDto → Option Key → Change

abbrev pub left_by : Result CatalogueDb → CatalogueDb → CatalogueDb
left_by (thrown code) db = db
left_by (ok after) db = after

-- The services that the repository does not hold: the places for images, and two readings of dates.
pub record Outside : Type 0 where
  pub allowed : Text → Bool
  pub date : Text → Time
  pub civil : Text → ℕ

module _ (o : Outside) where
  unfoldable pub change : Change → CatalogueDb → CatalogueDb
  change (Change.creates manager event dto) db =
      left_by (create_ticket o.allowed o.date event manager dto db) db
  change (Change.updates manager ticket dto) db =
      left_by (update_ticket o.allowed o.date ticket manager dto db) db
  change (Change.deletes manager ticket) db = left_by (delete_ticket ticket manager db) db
  change (Change.edits manager dto event) db =
      (update_my_event o.allowed o.civil manager dto event db).1

  unfoldable pub change_all : List Change → CatalogueDb → CatalogueDb
  change_all [] db = db
  change_all (c ∷ cs) db = change_all cs (change c db)

pub left_by-keeps :
    (P : CatalogueDb → Type 0) (r : Result CatalogueDb) (db : CatalogueDb)
    → P db
    → ((after : CatalogueDb) → r ≡ ok after → P after)
    → P (left_by r db)
left_by-keeps P (thrown code) db h step = h
left_by-keeps P (ok after) db h step = step after refl

attempt-keeps :
    (P Q : CatalogueDb → Type 0) (before : CatalogueDb) (r : Result CatalogueDb)
    (next : CatalogueDb → Result CatalogueDb × CatalogueDb)
    → P before
    → ((after : CatalogueDb) → r ≡ ok after → Q after)
    → ((after : CatalogueDb) → Q after → P (next after).1)
    → P (and_then (attempt before r) next).1
attempt-keeps P Q before (thrown code) next h step rest = h
attempt-keeps P Q before (ok after) next h step rest = rest after (step after refl)

last-keeps :
    (P : CatalogueDb → Type 0) (before : CatalogueDb) (r : Result CatalogueDb)
    → P before
    → ((after : CatalogueDb) → r ≡ ok after → P after)
    → P (attempt before r).1
last-keeps P before (thrown code) h step = h
last-keeps P before (ok after) h step = step after refl

-- The rule for an edit of an event: `Between` holds of what stands between the replacement of its
-- days and the write of its fields.
module _ (P : CatalogueDb → Type 0) (Between : Key → CatalogueDb → Type 0) where
  pub record EditRule (civil : Text → ℕ) (dto : UpdateEventDto) : Type 0 where
    pub opens :
        (event : Key) (db after : CatalogueDb)
        → P db
        → change_access event dto.access_mode db ≡ ok after
        → P after
    pub dates :
        (event manager : Key) (db after : CatalogueDb)
        → P db
        → apply_days_and_policy civil event manager dto.ticket_policy dto.days db ≡ ok after
        → Between event after
    pub stops : (event : Key) (db : CatalogueDb) → Between event db → P db
    pub writes :
        (event : Key) (db after : CatalogueDb)
        → Between event db
        → write_settings event dto.ticket_policy dto.expected_attendees db ≡ ok after
        → P after

  edit-keeps :
      (allowed : Text → Bool) (civil : Text → ℕ) (dto : UpdateEventDto)
      → EditRule civil dto
      → (manager : Key) (db : CatalogueDb) (resolved : Result Key) → P db
      → P (edit allowed civil manager dto db resolved).1
  unfolding edit update_resolved
  edit-keeps allowed civil dto rule manager db (thrown code) h = h
  edit-keeps allowed civil dto rule manager db (ok event) h =
      elim (Bool-cases (any (is_refused allowed civil) dto.image_urls)) [
        | inl barred ↦ rw barred h
        | inr clear ↦ rw clear (
            attempt-keeps P P db (change_access event dto.access_mode db) _ h
              (λ opened k. rule.opens event db opened h k)
              (λ opened h'.
                attempt-keeps P (Between event) opened
                  (apply_days_and_policy civil event manager dto.ticket_policy dto.days opened) _ h'
                  (λ dated k. rule.dates event manager opened dated h' k)
                  (λ dated b.
                    last-keeps P dated
                      (write_settings event dto.ticket_policy dto.expected_attendees dated)
                      (rule.stops event dated b) (λ after k. rule.writes event dated after b k))))
      ]

  pub update_my_event-keeps :
      (allowed : Text → Bool) (civil : Text → ℕ) (dto : UpdateEventDto)
      → EditRule civil dto
      → (manager : Key) (asked : Option Key) (db : CatalogueDb) → P db
      → P (update_my_event allowed civil manager dto asked db).1
  unfolding update_my_event
  update_my_event-keeps allowed civil dto rule manager asked db =
      edit-keeps allowed civil dto rule manager db
        (resoudre_evenement_du_manager manager asked db.access.events)
