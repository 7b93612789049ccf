-- ===== src/Catalogue/Declared.antt =====
-- The days of an event after an edit are the days of the request.
use fluid_events.Prelude.{
  ℕ, ◌+◌, ◌≤◌, ◌==◌, Bool, true, false, any, Option, some, List, [], ◌∷◌, length, take, Result, ok,
  thrown, ◌≡◌, refl, inl, inr, arith, Bool-cases, subst, ◌∙◌, sym, ap,
}
use fluid_events.Prelude.Texts.{Text}
use fluid_events.Payments.{Key}
use fluid_events.Scanner.{TicketPolicy}
use fluid_events.Access.{resoudre_evenement_du_manager}
use fluid_events.Catalogue.{CatalogueDb, EventSettings, Sent, or_current, policy_of}
use fluid_events.Catalogue.Days.{
  EventDayDto, UpdateEventDto, NewDay, is_single, has_date, repeats, is_row_of, replace_days,
  normalized, changes_policy, apply_days_and_policy, and_then, attempt, change_access,
  write_settings, put_settings, with_settings, update_resolved, update_my_event, days_of, edit,
  is_refused,
}
use fluid_events.Catalogue.Dates.{replace_days-dates}
use fluid_events.Catalogue.Applied.{Checked, apply_days_and_policy-cases, write_settings-eq-ok}

attempt-eq-ok :
    (before : CatalogueDb) (r : Result CatalogueDb)
    (next : CatalogueDb → Result CatalogueDb × CatalogueDb) {after : CatalogueDb}
    → (and_then (attempt before r) next).0 ≡ ok after
    → (x : CatalogueDb) × (r ≡ ok x) × ((next x).0 ≡ ok after)
attempt-eq-ok before (thrown code) next h = cc
attempt-eq-ok before (ok x) next h = (x, refl, h)

last-eq-ok :
    (before : CatalogueDb) (r : Result CatalogueDb) {after : CatalogueDb}
    → (attempt before r).0 ≡ ok after
    → r ≡ ok after
last-eq-ok before (thrown code) h = cc
last-eq-ok before (ok x) h = h

-- The event is left with the days of the list, and with a number of them that its policy allows.
pub record LeftWith (event : Key) (next : List NewDay) (db : CatalogueDb) : Type 0 where
  pub dates : (date : ℕ) → any (is_row_of event date) db.days ≡ has_date date next
  pub distinct : repeats next ≡ false
  pub none_if_single : is_single (policy_of (db.settings event)) ≡ true → length next ≡ 0
  pub two_if_not : is_single (policy_of (db.settings event)) ≡ false → 2 ≤ length next

LeftWith-by :
    (event manager : Key) (policy : TicketPolicy) (changed : Bool) (next : List NewDay)
    (db after : CatalogueDb)
    → Checked event manager policy changed next db
    → policy_of (after.settings event) ≡ policy
    → after.days ≡ (replace_days changed event next db).days
    → LeftWith event next after
LeftWith-by event manager policy changed next db after checked now same = record {
  dates =
      λ date. ap (any (is_row_of event date)) same ∙ replace_days-dates event changed next db date;
  distinct = checked.distinct;
  none_if_single = λ single. ground (arith, single, now, checked.no_days_if_single);
  two_if_not = λ several. ground (arith, several, now, checked.two_days_if_not);
}

-- The policy that the edit leaves is the one that was checked.
put_settings-policy :
    (event : Key) (policy : Sent TicketPolicy) (expected : Sent ℕ) (db : CatalogueDb)
    (s : EventSettings)
    → db.settings event ≡ some s
    → policy_of ((put_settings event (with_settings policy expected s) db).settings event)
      ≡ or_current policy (policy_of (db.settings event))
unfolding put_settings
put_settings-policy event policy expected db s found =
    let self : (event == event) ≡ true = ground arith in rw (self, found) refl

replaced-LeftWith :
    (civil : Text → ℕ) (event manager : Key) (dto : UpdateEventDto) (s : EventSettings)
    (opened dated after : CatalogueDb)
    → Checked event manager
        (or_current dto.ticket_policy (policy_of (opened.settings event)))
        (changes_policy dto.ticket_policy (opened.settings event))
        (normalized civil 0 (days_of dto.days))
        opened
    → replace_days
        (changes_policy dto.ticket_policy (opened.settings event))
        event
        (normalized civil 0 (days_of dto.days))
        opened
      ≡ dated
    → dated.settings event ≡ some s
    → put_settings event (with_settings dto.ticket_policy dto.expected_attendees s) dated ≡ after
    → LeftWith event (normalized civil 0 (days_of dto.days)) after
unfolding replace_days put_settings
replaced-LeftWith civil event manager dto s opened dated after checked replaced found same =
    let policy = or_current dto.ticket_policy (policy_of (opened.settings event)) in
    let changed = changes_policy dto.ticket_policy (opened.settings event) in
    let kept : dated.settings event ≡ opened.settings event =
      ap (λ (x : CatalogueDb). x.settings event) (sym replaced) in
    let now : policy_of (after.settings event) ≡ policy =
      ap (λ (x : CatalogueDb). policy_of (x.settings event)) (sym same)
      ∙ put_settings-policy event dto.ticket_policy dto.expected_attendees dated s found
      ∙ ap (λ x. or_current dto.ticket_policy (policy_of x)) kept in
    let days : after.days
        ≡ (replace_days changed event (normalized civil 0 (days_of dto.days)) opened).days =
      ap (λ (x : CatalogueDb). x.days) (sym same)
      ∙ ap (λ (x : CatalogueDb). x.days) (sym replaced) in
    LeftWith-by event manager policy changed (normalized civil 0 (days_of dto.days)) opened after
      checked now days

-- A day of a request is on the civil date that the first ten characters of its date give.
abbrev pub is_sent : (Text → ℕ) → ℕ → EventDayDto → Bool
is_sent civil date d = civil (take 10 d.date) == date

-- No two days of a request are on the same date.
pub Distinct : (Text → ℕ) → List EventDayDto → Type 0
Distinct civil [] = Unit {0}
Distinct civil (d ∷ ds) =
    (any (is_sent civil (civil (take 10 d.date))) ds ≡ false) × Distinct civil ds

-- The event is left with the days of the request, and with a number of them that its policy allows.
pub record Declared (civil : Text → ℕ) (event : Key) (days : List EventDayDto) (db : CatalogueDb)
    : Type 0 where
  pub dates : (date : ℕ) → any (is_row_of event date) db.days ≡ any (is_sent civil date) days
  pub distinct : Distinct civil days
  pub none_if_single : is_single (policy_of (db.settings event)) ≡ true → length days ≡ 0
  pub two_if_not : is_single (policy_of (db.settings event)) ≡ false → 2 ≤ length days

module _ (civil : Text → ℕ) where
  has_date-normalized :
      (n date : ℕ) (days : List EventDayDto)
      → has_date date (normalized civil n days) ≡ any (is_sent civil date) days
  unfolding normalized
  has_date-normalized n date [] = refl
  has_date-normalized n date (d ∷ ds) = rw (has_date-normalized (n + 1) date ds) refl

  length-normalized :
      (n : ℕ) (days : List EventDayDto) → length (normalized civil n days) ≡ length days
  unfolding normalized
  length-normalized n [] = refl
  length-normalized n (d ∷ ds) = rw (length-normalized (n + 1) ds) refl

  repeats-normalized :
      (n : ℕ) (days : List EventDayDto)
      → repeats (normalized civil n days) ≡ false
      → Distinct civil days
  unfolding normalized repeats Distinct
  repeats-normalized n [] h = tt
  repeats-normalized n (d ∷ ds) h = (
    sym (has_date-normalized (n + 1) (civil (take 10 d.date)) ds) ∙ ground (arith, h),
    repeats-normalized (n + 1) ds (ground (arith, h)),
  )

  LeftWith-Declared :
      (event : Key) (days : List EventDayDto) (db : CatalogueDb)
      → LeftWith event (normalized civil 0 days) db
      → Declared civil event days db
  LeftWith-Declared event days db h = record {
    dates = λ date. h.dates date ∙ has_date-normalized 0 date days;
    distinct = repeats-normalized 0 days h.distinct;
    none_if_single = λ single. sym (length-normalized 0 days) ∙ h.none_if_single single;
    two_if_not = λ several. ground (arith, h.two_if_not several, length-normalized 0 days);
  }

module _ (allowed : Text → Bool) (civil : Text → ℕ) where
  resolved-LeftWith :
      (event manager : Key) (dto : UpdateEventDto) (days : List EventDayDto)
      (db after : CatalogueDb)
      → dto.days ≡ Sent.given days
      → (update_resolved allowed civil event manager dto db).0 ≡ ok after
      → LeftWith event (normalized civil 0 days) after
  unfolding update_resolved replace_days put_settings
  resolved-LeftWith event manager dto days db after sent h =
      let (opened, _, h1) = attempt-eq-ok db (change_access event dto.access_mode db) _ h in
      let (dated, applied', h2) =
        attempt-eq-ok opened
          (apply_days_and_policy civil event manager dto.ticket_policy dto.days opened) _ h1 in
      let written =
        last-eq-ok dated (write_settings event dto.ticket_policy dto.expected_attendees dated) h2 in
      let (s, found, same) =
        write_settings-eq-ok event dto.ticket_policy dto.expected_attendees dated written in
      elim (apply_days_and_policy-cases civil event manager dto.ticket_policy dto.days opened
        applied') [
          | inl (nothing, _) ↦ ground (arith, nothing, sent)
          | inr (checked, replaced) ↦
              subst (λ o. LeftWith event (normalized civil 0 (days_of o)) after) sent
                (replaced-LeftWith civil event manager dto s opened dated after checked replaced
                  found same)
        ]

  edit-LeftWith :
      (manager : Key) (dto : UpdateEventDto) (days : List EventDayDto) (db after : CatalogueDb)
      (resolved : Result Key) (event : Key)
      → dto.days ≡ Sent.given days
      → resolved ≡ ok event
      → (edit allowed civil manager dto db resolved).0 ≡ ok after
      → LeftWith event (normalized civil 0 days) after
  unfolding edit
  edit-LeftWith manager dto days db after (thrown code) event sent e h = cc
  edit-LeftWith manager dto days db after (ok id) event sent e h =
      let same : id ≡ event = ok-injective e in
      elim (Bool-cases (any (is_refused allowed civil) dto.image_urls)) [
        | inl barred ↦ ground (arith, simp barred at h)
        | inr clear ↦
            subst (λ x. LeftWith x (normalized civil 0 days) after) same
              (resolved-LeftWith id manager dto days db after sent (simp clear at h))
      ]
    where
      ok-injective : {x y : Key} → ok x ≡ ok y → x ≡ y
      ok-injective e' = cc

  -- When an edit that sends days goes through, the dates of the event's days are exactly the dates
  -- that were sent, each the first ten characters of its text, no two of them the same, with no day if
  -- the event has a single day, and at least two otherwise.
  pub update_my_event-Declared :
      (manager : Key) (dto : UpdateEventDto) (asked : Option Key) (event : Key)
      (days : List EventDayDto) (db after : CatalogueDb)
      → dto.days ≡ Sent.given days
      → resoudre_evenement_du_manager manager asked db.access.events ≡ ok event
      → (update_my_event allowed civil manager dto asked db).0 ≡ ok after
      → Declared civil event days after
  unfolding update_my_event
  update_my_event-Declared manager dto asked event days db after sent resolved done =
      LeftWith-Declared civil event days after (
        edit-LeftWith manager dto days db after
          (resoudre_evenement_du_manager manager asked db.access.events) event sent resolved done)
