-- ===== src/Catalogue/Days.antt =====
-- apps/api/src/events/events.service.ts, `updateMyEvent`: the days of an event and its ticket policy.
-- Of the other fields of the event, only the number of people expected is modelled.
use fluid_events.Prelude.{
  ℕ, ◌+◌, ◌==◌, ltb, if◌then◌else◌, Bool, true, false, not, ◌&&◌, ◌||◌, Option, none, some, List,
  [], ◌∷◌, map, keep, any, length, update_first, take, Result, ok, thrown, ErrorCode, ◌>>=◌, ◌>>◌,
  refuse_if, or_fail,
}
use fluid_events.Prelude.Int.{ℤ}
use fluid_events.Prelude.Texts.{Text}
use fluid_events.Payments.{Key}
use fluid_events.Scanner.{TicketPolicy, single_day, pass_all_days, per_day}
use fluid_events.Access.{
  EventAccessMode, find_event, resoudre_evenement_du_manager, changer_regime_acces, limites_of,
}
use fluid_events.Questionnaire.{trim}
use fluid_events.Catalogue.{
  TicketType, DayRow, EventSettings, CatalogueDb, Sent, or_kept, or_current, rewritten_as, is_null,
  is_absent, policy_of, is_ordered,
}

pub record EventDayDto : Type 0 where
  pub label : Text
  pub date : Text
  pub location : Option Text
  pub start_time : Option Text
  pub end_time : Option Text
  pub latitude : Option ℤ
  pub longitude : Option ℤ
  pub order : Option ℕ

-- `image_urls` is the addresses that `assertImagesAllowed` collects.
pub record UpdateEventDto : Type 0 where
  pub image_urls : List Text
  pub access_mode : Sent EventAccessMode
  pub ticket_policy : Sent TicketPolicy
  pub days : Sent (List EventDayDto)
  pub expected_attendees : Sent ℕ

abbrev pub same_policy : TicketPolicy → TicketPolicy → Bool
same_policy single_day single_day = true
same_policy pass_all_days pass_all_days = true
same_policy per_day per_day = true
same_policy _ _ = false

abbrev pub is_single : TicketPolicy → Bool
is_single p = same_policy p single_day

-- A day of a request, as it is stored.
pub record NewDay : Type 0 where
  pub label : Text
  pub date : ℕ
  pub location : Option Text
  pub start_time : Option Text
  pub end_time : Option Text
  pub latitude : Option ℤ
  pub longitude : Option ℤ
  pub order : ℕ

abbrev non_empty : Text → Option Text
non_empty [] = none
non_empty (c ∷ t) = some (c ∷ t)

abbrev or_null : Option Text → Option Text
or_null none = none
or_null (some t) = non_empty t

abbrev trimmed : Option Text → Option Text
trimmed none = none
trimmed (some t) = non_empty (trim t)

-- `civil` is `Date` on the text of a civil date.
unfoldable pub normalized : (Text → ℕ) → ℕ → List EventDayDto → List NewDay
normalized civil index [] = []
normalized civil index (d ∷ ds) =
    record {
      label = d.label;
      date = civil (take 10 d.date);
      location = trimmed d.location;
      start_time = or_null d.start_time;
      end_time = or_null d.end_time;
      latitude = d.latitude;
      longitude = d.longitude;
      order = or_kept d.order index;
    }
    ∷ normalized civil (index + 1) ds

-- `<=` of JavaScript on texts.
abbrev text_leb : Text → Text → Bool
text_leb [] t = true
text_leb (a ∷ s) [] = false
text_leb (a ∷ s) (b ∷ t) = ltb a b || a == b && text_leb s t

abbrev ends_first : Option Text → Option Text → Bool
ends_first (some start) (some end) = text_leb end start
ends_first _ _ = false

unfoldable pub is_backwards : NewDay → Bool
is_backwards d = ends_first d.start_time d.end_time

abbrev pub on_date : ℕ → NewDay → Bool
on_date date d = d.date == date

abbrev pub has_date : ℕ → List NewDay → Bool
has_date date = any (on_date date)

-- `keys.size !== normalized.length`.
unfoldable pub repeats : List NewDay → Bool
repeats [] = false
repeats (d ∷ ds) = has_date d.date ds || repeats ds

abbrev pub refers_to : Key → TicketType → Bool
refers_to day t = elim t.event_day_id [ none ↦ false | some d ↦ d == day ]

-- A day of the event that would go, and to which tickets are attached.
abbrev pub is_doomed : Key → List NewDay → List TicketType → DayRow → Bool
is_doomed event_id next tickets d =
    d.event_id == event_id && not (has_date d.date next) && any (refers_to d.id) tickets

abbrev pub stays : Key → List NewDay → DayRow → Bool
stays event_id next d = not (d.event_id == event_id) || has_date d.date next

abbrev pub is_row_of : Key → ℕ → DayRow → Bool
is_row_of event_id date d = d.event_id == event_id && (d.date == date)

abbrev pub rewritten : NewDay → DayRow → DayRow
rewritten n d = record d {
  label = n.label;
  location = n.location;
  start_time = n.start_time;
  end_time = n.end_time;
  latitude = n.latitude;
  longitude = n.longitude;
  order = n.order;
}

abbrev pub new_row : Key → Key → NewDay → DayRow
new_row id event_id n = record {
  id = id;
  event_id = event_id;
  label = n.label;
  date = n.date;
  location = n.location;
  start_time = n.start_time;
  end_time = n.end_time;
  latitude = n.latitude;
  longitude = n.longitude;
  order = n.order;
}

unfoldable pub upsert_day : Key → Key → NewDay → List DayRow → List DayRow
upsert_day id event_id n days =
    if any (is_row_of event_id n.date) days
    then update_first (is_row_of event_id n.date) (rewritten n) days
    else new_row id event_id n ∷ days

-- The identifiers of the new rows are counted up, one for each day, used or not.
unfoldable pub upsert_days : Key → Key → List NewDay → List DayRow → List DayRow
upsert_days id event_id [] days = days
upsert_days id event_id (n ∷ ns) days =
    upsert_days (id + 1) event_id ns (upsert_day id event_id n days)

abbrev pub of_event : Key → TicketType → Bool
of_event event_id t = t.event_id == event_id

-- The day of a ticket that is among the rows that are deleted.
abbrev pub is_going : Key → List NewDay → Key → DayRow → Bool
is_going event_id next day d = d.id == day && not (stays event_id next d)

-- `Ticket.eventDay` is set to null when its row is deleted.
unfoldable pub detached : Key → List NewDay → List DayRow → TicketType → TicketType
detached event_id next days t = elim t.event_day_id [
  | none ↦ t
  | some day ↦ if any (is_going event_id next day) days then record t { event_day_id = none } else t
]

-- The transaction.
unfoldable pub replace_days : Bool → Key → List NewDay → CatalogueDb → CatalogueDb
replace_days policy_changed event_id next db = record db {
  tickets =
      map (detached event_id next db.days)
        (if policy_changed then keep (λ t. not (of_event event_id t)) db.tickets else db.tickets);
  days = upsert_days db.next_id event_id next (keep (stays event_id next) db.days);
  next_id = db.next_id + length next;
}

-- A null is a change, since it is not undefined and no policy.
abbrev pub changes_policy : Sent TicketPolicy → Option EventSettings → Bool
changes_policy Sent.absent current = false
changes_policy (Sent.given policy) none = false
changes_policy (Sent.given policy) (some current) = not (same_policy policy current.ticket_policy)
changes_policy Sent.null_sent none = false
changes_policy Sent.null_sent (some current) = true

-- An order item of a ticket of the event.
abbrev pub has_sold : Key → CatalogueDb → Bool
has_sold event_id db = any (λ t. of_event event_id t && is_ordered db.ordered t) db.tickets

abbrev pub days_of : Sent (List EventDayDto) → List EventDayDto
days_of (Sent.given days) = days
days_of _ = []

unfoldable pub applied :
    Key → Key → TicketPolicy → Bool → List NewDay → CatalogueDb → Result CatalogueDb
applied event_id manager_id policy policy_changed next db = do
  refuse_if
      ((not (is_single policy) || ltb 0 (length next))
        && not (limites_of manager_id db.access.users).multi_jours)
      ErrorCode.premium_required
  refuse_if (is_single policy && ltb 0 (length next)) ErrorCode.event_days_invalid
  refuse_if (not (is_single policy) && ltb (length next) 2) ErrorCode.event_days_invalid
  refuse_if (policy_changed && has_sold event_id db) ErrorCode.ticket_policy_locked
  refuse_if (any is_backwards next) ErrorCode.event_days_invalid
  refuse_if (repeats next) ErrorCode.event_days_invalid
  refuse_if (any (is_doomed event_id next db.tickets) db.days) ErrorCode.event_days_invalid
  ok (replace_days policy_changed event_id next db)

unfoldable pub apply_days_and_policy :
    (Text → ℕ)
    → Key
    → Key
    → Sent TicketPolicy
    → Sent (List EventDayDto)
    → CatalogueDb
    → Result CatalogueDb
apply_days_and_policy civil event_id manager_id policy days db =
    if is_absent policy && is_absent days
    then ok db
    else applied event_id manager_id (or_current policy (policy_of (db.settings event_id)))
        (changes_policy policy (db.settings event_id)) (normalized civil 0 (days_of days)) db

abbrev pub with_settings : Sent TicketPolicy → Sent ℕ → EventSettings → EventSettings
with_settings policy expected s = record {
  ticket_policy = or_current policy s.ticket_policy;
  expected_attendees = rewritten_as expected s.expected_attendees;
}

-- `event.update`; the client refuses a null for the policy.
unfoldable pub put_settings : Key → EventSettings → CatalogueDb → CatalogueDb
put_settings event_id s db = record db {
  settings = λ id. if id == event_id then some s else db.settings id;
}

abbrev pub settings_to :
    Key → Sent TicketPolicy → Sent ℕ → CatalogueDb → Option EventSettings → Result CatalogueDb
settings_to event_id policy expected db none = thrown ErrorCode.internal_error
settings_to event_id policy expected db (some s) =
    refuse_if (is_null policy) ErrorCode.internal_error
    >> ok (put_settings event_id (with_settings policy expected s) db)

unfoldable pub write_settings : Key → Sent TicketPolicy → Sent ℕ → CatalogueDb → Result CatalogueDb
write_settings event_id policy expected db =
    settings_to event_id policy expected db (db.settings event_id)

-- A null passes the guard, and then the update refuses it.
abbrev pub change_access : Key → Sent EventAccessMode → CatalogueDb → Result CatalogueDb
change_access event_id Sent.absent db = ok db
change_access event_id Sent.null_sent db =
    or_fail (find_event event_id db.access.events) ErrorCode.event_not_found >>= λ e.
    thrown ErrorCode.internal_error
change_access event_id (Sent.given mode) db =
    changer_regime_acces event_id mode db.access >>= λ access. ok (record db { access = access })

-- What a step leaves: a refusal leaves what the steps before it have written.
abbrev pub and_then :
    Result CatalogueDb × CatalogueDb
    → (CatalogueDb → Result CatalogueDb × CatalogueDb)
    → Result CatalogueDb × CatalogueDb
and_then (thrown code, db) next = (thrown code, db)
and_then (ok after, db) next = next after

abbrev pub attempt : CatalogueDb → Result CatalogueDb → Result CatalogueDb × CatalogueDb
attempt before (thrown code) = (thrown code, before)
attempt before (ok after) = (ok after, after)

module _ (allowed : Text → Bool) (civil : Text → ℕ) where
  abbrev pub is_refused : Text → Bool
  is_refused [] = false
  is_refused (c ∷ t) = not (allowed (c ∷ t))

  unfoldable pub update_resolved :
      Key → Key → UpdateEventDto → CatalogueDb → Result CatalogueDb × CatalogueDb
  update_resolved event_id manager_id dto db =
      and_then (attempt db (change_access event_id dto.access_mode db)) (λ opened.
        and_then
          (attempt opened
            (apply_days_and_policy civil event_id manager_id dto.ticket_policy dto.days opened))
          (λ dated.
            attempt dated (write_settings event_id dto.ticket_policy dto.expected_attendees dated)))

  unfoldable pub edit :
      Key → UpdateEventDto → CatalogueDb → Result Key → Result CatalogueDb × CatalogueDb
  edit manager_id dto db (thrown code) = (thrown code, db)
  edit manager_id dto db (ok id) =
      if any is_refused dto.image_urls
      then (thrown ErrorCode.design_image_url_invalid, db)
      else update_resolved id manager_id dto db

  unfoldable pub update_my_event :
      Key → UpdateEventDto → Option Key → CatalogueDb → Result CatalogueDb × CatalogueDb
  update_my_event manager_id dto event db =
      edit manager_id dto db (resoudre_evenement_du_manager manager_id event db.access.events)
