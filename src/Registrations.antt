-- ===== src/Registrations.antt =====
-- apps/api/src/registrations/registrations.service.ts: free registration to an event, and the list at
-- the entrance. The e-mail of confirmation, the phone number and the audit are left out.
pub mod Outcome
pub mod Doors
pub mod Reach
use fluid_events.Prelude.{
  ℕ, ◌+◌, ◌==◌, if◌then◌else◌, Bool, true, false, not, ◌&&◌, Option, none, some, List, [], ◌∷◌, any,
  find, update_first, remove_first, Result, ok, thrown, ErrorCode, ◌>>=◌, ◌>>◌, refuse_if, or_fail,
}
use fluid_events.Prelude.Texts.{Text, text_eq}
use fluid_events.Payments.{Key, Time, EventStatus}
use fluid_events.Payments.Init.{is_published}
use fluid_events.Access.{
  EventAccessMode, rsvp, AccessDb, resoudre_evenement_du_manager, resoudre_evenement_de_l_agent,
}
use fluid_events.Questionnaire.{
  ChampQuestionnaire, Json, ReponseQuestionnaire, Engine, trim, Controle, acceptees, refusees,
  valider_reponses,
}

-- `fields` is those of the form if it is active, and none otherwise.
pub record OpenEvent : Type 0 where
  pub id : Key
  pub access_mode : EventAccessMode
  pub status : EventStatus
  pub is_form_active : Bool
  pub fields : List ChampQuestionnaire

pub record Registration : Type 0 where
  pub id : Key
  pub event_id : Key
  pub first_name : Text
  pub last_name : Text
  pub email : Text
  pub answers : List ReponseQuestionnaire
  pub checked_in_at : Option Time

-- The newest registration stands first; a pair of event and address is unique.
pub record DoorDb : Type 0 where
  pub access : AccessDb
  pub by_slug : Key → Option OpenEvent
  pub registrations : List Registration
  pub next_id : Key

pub record CreateRegistration : Type 0 where
  pub first_name : Text
  pub last_name : Text
  pub email : Text
  pub answers : Text → Json

abbrev pub same_place : Key → Text → Registration → Bool
same_place event_id email r = r.event_id == event_id && text_eq email r.email

abbrev pub is_rsvp : EventAccessMode → Bool
is_rsvp rsvp = true
is_rsvp _ = false

abbrev pub reponses_de : Controle → Result (List ReponseQuestionnaire)
reponses_de (acceptees rs) = ok rs
reponses_de (refusees es) = thrown ErrorCode.validation_error

abbrev pub has_id : Key → Registration → Bool
has_id id r = r.id == id

abbrev pub champs_de : OpenEvent → List ChampQuestionnaire
champs_de e = if e.is_form_active then e.fields else []

-- `lower` is `toLowerCase`.
module _ (engine : Engine) (lower : Text → Text) where
  abbrev pub new_registration :
      Key → OpenEvent → CreateRegistration → List ReponseQuestionnaire → Registration
  new_registration id e dto rs = record {
    id = id;
    event_id = e.id;
    first_name = trim dto.first_name;
    last_name = trim dto.last_name;
    email = lower (trim dto.email);
    answers = rs;
    checked_in_at = none;
  }

  unfoldable pub inscrire : Key → CreateRegistration → DoorDb → Result DoorDb
  inscrire slug dto db = do
    event ← or_fail (db.by_slug slug) ErrorCode.event_not_found
    refuse_if (not (is_rsvp event.access_mode)) ErrorCode.event_not_active
    refuse_if (not (is_published event.status)) ErrorCode.event_not_active
    reponses ← reponses_de (valider_reponses engine (champs_de event) dto.answers)
    refuse_if (any (same_place event.id (lower (trim dto.email))) db.registrations)
        ErrorCode.already_registered
    ok (record db {
      registrations = new_registration db.next_id event dto reponses ∷ db.registrations;
      next_id = db.next_id + 1;
    })

abbrev pub checked : Bool → Time → Registration → Registration
checked true now r = record r { checked_in_at = some now }
checked false now r = record r { checked_in_at = none }

abbrev pub pointed : Key → Bool → Time → DoorDb → DoorDb
pointed id present now db = record db {
  registrations = update_first (has_id id) (checked present now) db.registrations;
}

unfoldable pub pointer_par_agent : Key → Key → Bool → Time → DoorDb → Result DoorDb
pointer_par_agent user_id id present now db = do
  profil ← resoudre_evenement_de_l_agent user_id db.access
  inscription ← or_fail (find (has_id id) db.registrations) ErrorCode.registration_not_found
  refuse_if (not (inscription.event_id == profil.0)) ErrorCode.registration_not_found
  ok (pointed id present now db)

unfoldable pub pointer : Key → Key → Bool → Time → DoorDb → Result DoorDb
pointer manager_id id present now db = do
  inscription ← or_fail (find (has_id id) db.registrations) ErrorCode.registration_not_found
  event ← resoudre_evenement_du_manager manager_id (some inscription.event_id) db.access.events
  ok (pointed id present now db)

unfoldable pub retirer : Key → Key → DoorDb → Result DoorDb
retirer manager_id id db = do
  inscription ← or_fail (find (has_id id) db.registrations) ErrorCode.registration_not_found
  event ← resoudre_evenement_du_manager manager_id (some inscription.event_id) db.access.events
  ok (record db { registrations = remove_first (has_id id) db.registrations })
