-- ===== src/Examples/Fairs.antt =====
-- The theorems on the catalogue: a fair of two days with a ticket for each day, of which one is sold.
use fluid_events.Prelude.{
  ℕ, true, none, some, List, [], ◌∷◌, ◌≡◌, refl, thrown, ErrorCode, Option, arith,
}
use fluid_events.Prelude.Int.{pos}
use fluid_events.Prelude.Texts.{Text, codes}
use fluid_events.Payments.{Key, SaleMode}
use fluid_events.Scanner.{single_day, per_day}
use fluid_events.Access.{
  ManagedEvent, User, Role, SubscriptionPlan, EventAccessMode, resoudre_evenement_du_manager,
  limites_du_plan,
}
use fluid_events.Catalogue.{
  TicketType, DayRow, EventSettings, CatalogueDb, CreateTicketDto, Sent, sum_stock, day_matches,
  exceeds, ceiling_of,
}
use fluid_events.Catalogue.Days.{
  EventDayDto, UpdateEventDto, update_my_event, edit, update_resolved, apply_days_and_policy,
  applied, write_settings, put_settings, replace_days, normalized, upsert_day, upsert_days,
  is_backwards, repeats,
}
use fluid_events.Catalogue.Course.{Change, Outside, change_all}
use fluid_events.Catalogue.Fits.{Fits, fits}
use fluid_events.Catalogue.Matching.{change_all-Fits}
use fluid_events.Catalogue.Sold.{Stands, IsMade, change_all-Stands}
use fluid_events.Catalogue.Capacity.{WithinCapacity, change_all-WithinCapacity}
use fluid_events.Catalogue.Declared.{Declared, update_my_event-Declared}

abbrev manager : User
manager = record {
  id = 1;
  email = 2;
  role = Role.manager;
  previous_role = none;
  is_active = true;
  plan = SubscriptionPlan.premium;
}

abbrev fair : ManagedEvent
fair = record {
  id = 5;
  manager_id = 1;
  access_mode = EventAccessMode.ticketed_account;
  max_scanners = none;
}

abbrev day_row : Key → ℕ → DayRow
day_row id date = record {
  id = id;
  event_id = 5;
  label = codes "Day";
  date = date;
  location = none;
  start_time = none;
  end_time = none;
  latitude = none;
  longitude = none;
  order = 0;
}

abbrev day_ticket : Key → Key → TicketType
day_ticket id day = record {
  id = id;
  event_id = 5;
  name = codes "Entry";
  description = none;
  price = 500;
  compare_at_price = none;
  promo_ends_at = none;
  day_label = none;
  event_day_id = some day;
  currency = codes "XOF";
  stock = 40;
  stock_sold = pos 1;
  max_per_order = 2;
  category = none;
  features = [];
  sale_mode = SaleMode.online;
  request_badge = none;
  is_active = true;
  sale_start_date = none;
  sale_end_date = none;
  design_image_url = none;
  design_bg_color = none;
  design_text_color = none;
}

abbrev fair_settings : Key → Option EventSettings
fair_settings id = some (record { ticket_policy = per_day; expected_attendees = some 100 })

abbrev fair_db : CatalogueDb
fair_db = record {
  access = record {
    events = fair ∷ [];
    users = manager ∷ [];
    agents = [];
    paid_orders = λ e. 1;
    next_id = 90;
  };
  settings = fair_settings;
  tickets = day_ticket 7 11 ∷ [];
  days = day_row 11 101 ∷ day_row 12 102 ∷ [];
  ordered = 7 ∷ [];
  next_id = 50;
}

-- The readings of dates here are the length of a text.
abbrev outside : Outside
outside = record { allowed = λ t. true; date = λ t. 9; civil = second_digit }
  where
    second_digit : Text → ℕ
    second_digit [] = 0
    second_digit (c ∷ t) = c

abbrev another : CreateTicketDto
another = record {
  name = codes "Late entry";
  description = none;
  price = 300;
  compare_at_price = none;
  promo_ends_at = none;
  day_label = none;
  event_day_id = some 12;
  currency = none;
  stock = 60;
  max_per_order = none;
  category = none;
  features = none;
  sale_mode = none;
  request_badge = none;
  is_active = none;
  sale_start_date = none;
  sale_end_date = none;
  design_image_url = none;
  design_bg_color = none;
  design_text_color = none;
}

-- The ticket that an order refers to is not deleted, and one is added.
abbrev season : List Change
season = Change.deletes 1 7 ∷ Change.creates 1 5 another ∷ []

fair_db-Fits : Fits fair_db
unfolding Fits fits day_matches
fair_db-Fits = refl

change_all-Fits_example : Fits (change_all outside season fair_db)
change_all-Fits_example = change_all-Fits outside season fair_db fair_db-Fits

one_sold : Stands 7 (day_ticket 7 11) fair_db
unfolding IsMade
one_sold = record {
  made = refl;
  ordered = refl;
  now = day_ticket 7 11;
  found = refl;
  same = record { event = refl; day = refl; places = refl; sales = refl; limit = λ p. refl };
}

change_all-Stands_example : Stands 7 (day_ticket 7 11) (change_all outside season fair_db)
change_all-Stands_example = change_all-Stands 7 (day_ticket 7 11) outside season fair_db one_sold

fair_db_has_room : WithinCapacity fair_db
unfolding WithinCapacity sum_stock
fair_db_has_room e = ground arith

change_all-WithinCapacity_example : WithinCapacity (change_all outside season fair_db)
change_all-WithinCapacity_example =
    change_all-WithinCapacity outside season fair_db refl fair_db_has_room

abbrev on : Text → EventDayDto
on date = record {
  label = codes "Day";
  date = date;
  location = some (codes " hall ");
  start_time = some (codes "10:00");
  end_time = some (codes "18:00");
  latitude = none;
  longitude = none;
  order = none;
}

-- A third day is added, and the two others stay.
abbrev three_days : UpdateEventDto
three_days = record {
  image_urls = [];
  access_mode = Sent.absent;
  ticket_policy = Sent.absent;
  days = Sent.given (on (codes "e") ∷ on (codes "f") ∷ on (codes "g") ∷ []);
  expected_attendees = Sent.absent;
}

abbrev edited : CatalogueDb
edited = (update_my_event outside.allowed outside.civil 1 three_days none fair_db).1

update_my_event-Declared_example :
    Declared outside.civil 5 (on (codes "e") ∷ on (codes "f") ∷ on (codes "g") ∷ []) edited
unfolding update_my_event edit update_resolved apply_days_and_policy applied write_settings
    put_settings replace_days normalized upsert_day upsert_days is_backwards repeats
    resoudre_evenement_du_manager limites_du_plan
update_my_event-Declared_example =
    update_my_event-Declared outside.allowed outside.civil 1 three_days none 5
      (on (codes "e") ∷ on (codes "f") ∷ on (codes "g") ∷ []) fair_db edited refl refl refl

-- A change of policy is refused while a ticket is attached to a day, though nothing has been sold.
abbrev unsold_db : CatalogueDb
unsold_db = record fair_db { ordered = [] }

policy_is_stuck :
    (update_my_event outside.allowed outside.civil 1
      (record three_days { ticket_policy = Sent.given single_day; days = Sent.given [] })
      none
      unsold_db).0
    ≡ thrown ErrorCode.event_days_invalid
unfolding update_my_event edit update_resolved apply_days_and_policy applied write_settings
    put_settings replace_days normalized upsert_day upsert_days is_backwards repeats
    resoudre_evenement_du_manager limites_du_plan
policy_is_stuck = refl

-- A null for the policy is refused by the last write, after the tickets of the event are deleted.
null_policy :
    let (answer, after) =
      update_my_event outside.allowed outside.civil 1
        (record three_days { ticket_policy = Sent.null_sent })
        none
        unsold_db in
    (answer ≡ thrown ErrorCode.internal_error) × (after.tickets ≡ [])
unfolding update_my_event edit update_resolved apply_days_and_policy applied write_settings
    put_settings replace_days normalized upsert_day upsert_days is_backwards repeats
    resoudre_evenement_du_manager limites_du_plan
null_policy = (refl, refl)

-- The number of people expected can be set below the places on sale.
abbrev fewer : UpdateEventDto
fewer = record three_days { days = Sent.absent; expected_attendees = Sent.given 10 }

fewer_than_places :
    exceeds
      (ceiling_of
        ((update_my_event outside.allowed outside.civil 1 fewer none fair_db).1.settings 5))
      (sum_stock 5 (update_my_event outside.allowed outside.civil 1 fewer none fair_db).1.tickets)
    ≡ true
unfolding update_my_event edit update_resolved apply_days_and_policy write_settings put_settings
    sum_stock resoudre_evenement_du_manager
fewer_than_places = refl
