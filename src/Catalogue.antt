-- ===== src/Catalogue.antt =====
-- apps/api/src/tickets/tickets.service.ts: the kinds of tickets of an event, as its manager makes
-- them. The children are the days of an event (`apps/api/src/events/events.service.ts`) and the proofs.
pub mod Days
pub mod Attached
pub mod Dates
pub mod Fits
pub mod Calls
pub mod Applied
pub mod Course
pub mod Matching
pub mod Sold
pub mod Capacity
pub mod Declared
use fluid_events.Prelude.{
  ℕ, ◌+◌, ◌==◌, ltb, if◌then◌else◌, Bool, true, false, not, ◌&&◌, ◌||◌, Option, none, some, List,
  [], ◌∷◌, map, keep, any, find, take, length, update_first, remove_first, Result, ok, thrown,
  ErrorCode, ◌>>=◌, ◌>>◌, refuse_if, or_fail,
}
use fluid_events.Prelude.Int.{ℤ, pos, ltb_ℤ}
use fluid_events.Prelude.Texts.{Text, codes}
use fluid_events.Payments.{Key, Time, Amount, SaleMode}
use fluid_events.Scanner.{TicketPolicy, single_day, pass_all_days, per_day}
use fluid_events.Access.{AccessDb, find_event}
use fluid_events.Questionnaire.{trim}

pub record TicketType : Type 0 where
  pub id : Key
  pub event_id : Key
  pub name : Text
  pub description : Option Text
  pub price : Amount
  pub compare_at_price : Option Amount
  pub promo_ends_at : Option Time
  pub day_label : Option Text
  pub event_day_id : Option Key
  pub currency : Text
  pub stock : ℕ
  pub stock_sold : ℤ
  pub max_per_order : ℕ
  pub category : Option Text
  pub features : List Text
  pub sale_mode : SaleMode
  pub request_badge : Option Text
  pub is_active : Bool
  pub sale_start_date : Option Time
  pub sale_end_date : Option Time
  pub design_image_url : Option Text
  pub design_bg_color : Option Text
  pub design_text_color : Option Text

-- A civil date is a number; coordinates are in millionths.
pub record DayRow : Type 0 where
  pub id : Key
  pub event_id : Key
  pub label : Text
  pub date : ℕ
  pub location : Option Text
  pub start_time : Option Text
  pub end_time : Option Text
  pub latitude : Option ℤ
  pub longitude : Option ℤ
  pub order : ℕ

pub record EventSettings : Type 0 where
  pub ticket_policy : TicketPolicy
  pub expected_attendees : Option ℕ

-- `ordered` is the tickets of the rows of OrderItem. Tickets and days are found by unique columns.
pub record CatalogueDb : Type 0 where
  pub access : AccessDb
  pub settings : Key → Option EventSettings
  pub tickets : List TicketType
  pub days : List DayRow
  pub ordered : List Key
  pub next_id : Key

-- A field that is none is left out of the request; a null in its place is not modelled.
pub record CreateTicketDto : Type 0 where
  pub name : Text
  pub description : Option Text
  pub price : Amount
  pub compare_at_price : Option Amount
  pub promo_ends_at : Option Text
  pub day_label : Option Text
  pub event_day_id : Option Key
  pub currency : Option Text
  pub stock : ℕ
  pub max_per_order : Option ℕ
  pub category : Option Text
  pub features : Option (List Text)
  pub sale_mode : Option SaleMode
  pub request_badge : Option Text
  pub is_active : Option Bool
  pub sale_start_date : Option Text
  pub sale_end_date : Option Text
  pub design_image_url : Option Text
  pub design_bg_color : Option Text
  pub design_text_color : Option Text

-- A field of a request that may be absent, null, or a value.
pub data Sent (Value : Type 0) : Type 0 where
  absent : Sent Value
  null_sent : Sent Value
  given : Value → Sent Value

pub record UpdateTicketDto : Type 0 where
  pub name : Sent Text
  pub description : Sent Text
  pub price : Sent Amount
  pub compare_at_price : Sent Amount
  pub promo_ends_at : Sent Text
  pub day_label : Sent Text
  pub currency : Sent Text
  pub max_per_order : Sent ℕ
  pub category : Sent Text
  pub features : Sent (List Text)
  pub sale_mode : Sent SaleMode
  pub request_badge : Sent Text
  pub is_active : Sent Bool
  pub sale_start_date : Sent Text
  pub sale_end_date : Sent Text
  pub design_image_url : Sent Text
  pub design_bg_color : Sent Text
  pub design_text_color : Sent Text

-- What a write leaves in a column: undefined keeps it.
abbrev pub or_kept {ℓ} : {A : Type ℓ} → Option A → A → A
or_kept none old = old
or_kept (some new) old = new

abbrev pub or_kept_some {ℓ} : {A : Type ℓ} → Option A → Option A → Option A
or_kept_some none old = old
or_kept_some (some new) old = some new

-- A column that takes no null keeps its value; what sends one is refused beforehand.
abbrev pub or_current : {A : Type 0} → Sent A → A → A
or_current (Sent.given new) old = new
or_current _ old = old

abbrev pub is_null : {A : Type 0} → Sent A → Bool
is_null Sent.null_sent = true
is_null _ = false

abbrev pub is_absent : {A : Type 0} → Sent A → Bool
is_absent Sent.absent = true
is_absent _ = false

abbrev pub value_of : {A : Type 0} → Sent A → Option A
value_of (Sent.given a) = some a
value_of _ = none

abbrev pub rewritten_as : {A : Type 0} → Sent A → Option A → Option A
rewritten_as Sent.absent old = old
rewritten_as Sent.null_sent old = none
rewritten_as (Sent.given new) old = some new

-- The empty text clears a date, as null does.
unfoldable pub to_nullable_date : (Text → Time) → Sent Text → Sent Time
to_nullable_date date Sent.absent = Sent.absent
to_nullable_date date Sent.null_sent = Sent.null_sent
to_nullable_date date (Sent.given []) = Sent.null_sent
to_nullable_date date (Sent.given (c ∷ t)) = Sent.given (date (c ∷ t))

-- `value ? new Date(value) : undefined`.
abbrev date_of : (Text → Time) → Option Text → Option Time
date_of date none = none
date_of date (some []) = none
date_of date (some (c ∷ t)) = some (date (c ∷ t))

abbrev is_filled : Text → Bool
is_filled t = ltb 0 (length t)

unfoldable pub normalize_lines : List Text → List Text
normalize_lines lines = take 12 (keep is_filled (map (λ line. take 80 (trim line)) lines))

abbrev pub normalize_features : Option (List Text) → Option (List Text)
normalize_features none = none
normalize_features (some lines) = some (normalize_lines lines)

abbrev pub has_id : Key → TicketType → Bool
has_id id t = t.id == id

-- The owner of an event or of a ticket's event.
abbrev pub owned_event : Key → Key → CatalogueDb → Result (Unit {0})
owned_event event_id manager_id db =
    or_fail (find_event event_id db.access.events) ErrorCode.event_not_found >>= λ e.
    refuse_if (not (e.manager_id == manager_id)) ErrorCode.forbidden

unfoldable pub owned_ticket : Key → Key → CatalogueDb → Result TicketType
owned_ticket ticket_id manager_id db = do
  ticket ← or_fail (find (has_id ticket_id) db.tickets) ErrorCode.ticket_not_found
  event ← or_fail (find_event ticket.event_id db.access.events) ErrorCode.internal_error
  refuse_if (not (event.manager_id == manager_id)) ErrorCode.forbidden
  ok ticket

-- The sum of the stock of an event.
unfoldable pub sum_stock : Key → List TicketType → ℕ
sum_stock event_id [] = 0
sum_stock event_id (t ∷ ts) =
    (if t.event_id == event_id then t.stock else 0) + sum_stock event_id ts

abbrev pub exceeds : Option ℕ → ℕ → Bool
exceeds none places = false
exceeds (some n) places = ltb 0 n && ltb n places

abbrev pub ceiling_of : Option EventSettings → Option ℕ
ceiling_of none = none
ceiling_of (some s) = s.expected_attendees

abbrev pub policy_of : Option EventSettings → TicketPolicy
policy_of none = single_day
policy_of (some s) = s.ticket_policy

unfoldable pub assert_capacity_allows : Key → ℕ → CatalogueDb → Result (Unit {0})
assert_capacity_allows event_id new_stock db =
    refuse_if
      (exceeds (ceiling_of (db.settings event_id)) (sum_stock event_id db.tickets + new_stock))
      ErrorCode.event_capacity_exceeded

abbrev pub is_day_of : Key → Key → DayRow → Bool
is_day_of event_id day_id d = d.id == day_id && (d.event_id == event_id)

-- Whether a day goes with a policy.
unfoldable pub day_matches : TicketPolicy → Key → List DayRow → Option Key → Bool
day_matches per_day event_id days none = false
day_matches per_day event_id days (some day) = any (is_day_of event_id day) days
day_matches _ event_id days none = true
day_matches _ event_id days (some day) = false

unfoldable pub assert_ticket_day_matches_policy : Key → Option Key → CatalogueDb → Result (Unit {0})
assert_ticket_day_matches_policy event_id day db =
    refuse_if (not (day_matches (policy_of (db.settings event_id)) event_id db.days day))
      ErrorCode.ticket_day_invalid

-- An image from elsewhere; `allowed` is the list of places for images.
abbrev pub is_barred : (Text → Bool) → Option Text → Bool
is_barred allowed none = false
is_barred allowed (some []) = false
is_barred allowed (some (c ∷ t)) = not (allowed (c ∷ t))

abbrev pub with_ticket : TicketType → CatalogueDb → CatalogueDb
with_ticket t db = record db { tickets = t ∷ db.tickets; next_id = db.next_id + 1 }

abbrev pub changes_limit : Sent ℕ → ℕ → Bool
changes_limit Sent.absent old = false
changes_limit Sent.null_sent old = true
changes_limit (Sent.given new) old = not (new == old)

-- A null for a column that takes none, which the database client refuses; on one for the features
-- `map` fails.
abbrev pub has_null : UpdateTicketDto → Bool
has_null dto =
    is_null dto.name
    || is_null dto.price
    || is_null dto.currency
    || is_null dto.max_per_order
    || is_null dto.features
    || is_null dto.sale_mode
    || is_null dto.is_active

-- `date` is `new Date` on a valid text.
module _ (allowed : Text → Bool) (date : Text → Time) where
  unfoldable pub new_ticket : Key → Key → CreateTicketDto → TicketType
  new_ticket id event_id dto = record {
    id = id;
    event_id = event_id;
    name = dto.name;
    description = dto.description;
    price = dto.price;
    compare_at_price = dto.compare_at_price;
    promo_ends_at = date_of date dto.promo_ends_at;
    day_label = dto.day_label;
    event_day_id = dto.event_day_id;
    currency = or_kept dto.currency (codes "XOF");
    stock = dto.stock;
    stock_sold = pos 0;
    max_per_order = or_kept dto.max_per_order 1;
    category = dto.category;
    features = or_kept (normalize_features dto.features) [];
    sale_mode = or_kept dto.sale_mode SaleMode.online;
    request_badge = dto.request_badge;
    is_active = or_kept dto.is_active true;
    sale_start_date = date_of date dto.sale_start_date;
    sale_end_date = date_of date dto.sale_end_date;
    design_image_url = dto.design_image_url;
    design_bg_color = or_kept_some dto.design_bg_color (some (codes "#d4ac0d"));
    design_text_color = or_kept_some dto.design_text_color (some (codes "#333333"));
  }

  unfoldable pub create_ticket : Key → Key → CreateTicketDto → CatalogueDb → Result CatalogueDb
  create_ticket event_id manager_id dto db = do
    owned_event event_id manager_id db
    refuse_if (is_barred allowed dto.design_image_url) ErrorCode.design_image_url_invalid
    assert_capacity_allows event_id dto.stock db
    assert_ticket_day_matches_policy event_id dto.event_day_id db
    ok (with_ticket (new_ticket db.next_id event_id dto) db)

  unfoldable pub updated_ticket : UpdateTicketDto → TicketType → TicketType
  updated_ticket dto t = record t {
    name = or_current dto.name t.name;
    description = rewritten_as dto.description t.description;
    price = or_current dto.price t.price;
    compare_at_price = rewritten_as dto.compare_at_price t.compare_at_price;
    promo_ends_at = rewritten_as (to_nullable_date date dto.promo_ends_at) t.promo_ends_at;
    day_label = rewritten_as dto.day_label t.day_label;
    currency = or_current dto.currency t.currency;
    max_per_order = or_current dto.max_per_order t.max_per_order;
    category = rewritten_as dto.category t.category;
    features = or_kept (normalize_features (value_of dto.features)) t.features;
    sale_mode = or_current dto.sale_mode t.sale_mode;
    request_badge = rewritten_as dto.request_badge t.request_badge;
    is_active = or_current dto.is_active t.is_active;
    sale_start_date = rewritten_as (to_nullable_date date dto.sale_start_date) t.sale_start_date;
    sale_end_date = rewritten_as (to_nullable_date date dto.sale_end_date) t.sale_end_date;
    design_image_url = rewritten_as dto.design_image_url t.design_image_url;
    design_bg_color = rewritten_as dto.design_bg_color t.design_bg_color;
    design_text_color = rewritten_as dto.design_text_color t.design_text_color;
  }

  unfoldable pub update_ticket : Key → Key → UpdateTicketDto → CatalogueDb → Result CatalogueDb
  update_ticket ticket_id manager_id dto db = do
    ticket ← owned_ticket ticket_id manager_id db
    refuse_if (is_barred allowed (value_of dto.design_image_url)) ErrorCode.design_image_url_invalid
    refuse_if
        (changes_limit dto.max_per_order ticket.max_per_order && ltb_ℤ (pos 0) ticket.stock_sold)
        ErrorCode.ticket_max_per_order_locked
    refuse_if (has_null dto) ErrorCode.internal_error
    ok (record db { tickets = update_first (has_id ticket_id) (updated_ticket dto) db.tickets })

-- A ticket that an order refers to: the foreign key refuses its deletion.
abbrev pub is_ordered : List Key → TicketType → Bool
is_ordered ordered t = any (λ id. id == t.id) ordered

unfoldable pub delete_ticket : Key → Key → CatalogueDb → Result CatalogueDb
delete_ticket ticket_id manager_id db = do
  ticket ← owned_ticket ticket_id manager_id db
  refuse_if (is_ordered db.ordered ticket) ErrorCode.ticket_has_orders
  ok (record db { tickets = remove_first (has_id ticket_id) db.tickets })
