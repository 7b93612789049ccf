-- ===== src/Catalogue/Fits.antt =====
-- The days of tickets go with the ticket policy of their event.
use fluid_events.Prelude.{
  ◌+◌, Bool, true, false, not, Option, none, some, List, [], ◌∷◌, any, all, keep, ◌≡◌, refl, inl,
  inr, arith, Bool-cases, ◌∙◌, subst, sym,
}
use fluid_events.Prelude.Sweeps.{all-keep, IsIn, all-imp, any-keep, any-update_first, any-keep-not}
use fluid_events.Payments.{Key}
use fluid_events.Scanner.{TicketPolicy, single_day, pass_all_days, per_day}
use fluid_events.Catalogue.{TicketType, DayRow, CatalogueDb, policy_of, day_matches, is_day_of}
use fluid_events.Catalogue.Attached.{with_days, replace_days-with_days}
use fluid_events.Catalogue.Days.{
  NewDay, is_doomed, stays, upsert_day, upsert_days, rewritten, is_row_of, refers_to, replace_days,
  of_event,
}

-- A ticket of an event with a ticket for each day opens a day of the event, any other no day.
unfoldable pub fits : (Key → TicketPolicy) → List DayRow → TicketType → Bool
fits policy days t = day_matches (policy t.event_id) t.event_id days t.event_day_id

abbrev pub policies : CatalogueDb → Key → TicketPolicy
policies db id = policy_of (db.settings id)

unfoldable pub Fits : CatalogueDb → Type 0
Fits db = all (fits (policies db) db.days) db.tickets ≡ true

upsert_day-any :
    (id event : Key) (n : NewDay) (e d : Key) (days : List DayRow)
    → any (is_day_of e d) days ≡ true
    → any (is_day_of e d) (upsert_day id event n days) ≡ true
unfolding upsert_day
upsert_day-any id event n e d days h = elim (Bool-cases (any (is_row_of event n.date) days)) [
  | inl there ↦
      rw there (
        any-update_first (is_row_of event n.date) (is_day_of e d) (rewritten n) (λ x. refl) days
        ∙ h)
  | inr new ↦ rw new (ground (arith, h))
]

upsert_days-any :
    (id event : Key) (ns : List NewDay) (e d : Key) (days : List DayRow)
    → any (is_day_of e d) days ≡ true
    → any (is_day_of e d) (upsert_days id event ns days) ≡ true
unfolding upsert_days
upsert_days-any id event [] e d days h = h
upsert_days-any id event (n ∷ ns) e d days h =
    upsert_days-any (id + 1) event ns e d (upsert_day id event n days)
      (upsert_day-any id event n e d days h)

day_matches-keeps :
    (policy : TicketPolicy) (e : Key) (ds ds' : List DayRow) (o : Option Key)
    → ((d : Key) → o ≡ some d → any (is_day_of e d) ds ≡ true → any (is_day_of e d) ds' ≡ true)
    → day_matches policy e ds o ≡ true
    → day_matches policy e ds' o ≡ true
unfolding day_matches
day_matches-keeps single_day e ds ds' none step h = refl
day_matches-keeps pass_all_days e ds ds' none step h = refl
day_matches-keeps per_day e ds ds' none step h = h
day_matches-keeps single_day e ds ds' (some d) step h = h
day_matches-keeps pass_all_days e ds ds' (some d) step h = h
day_matches-keeps per_day e ds ds' (some d) step h = step d refl h

-- A day to which a ticket of the table is attached outlives the replacement of the days.
kept-any :
    (event : Key) (next : List NewDay) (tickets : List TicketType) (days : List DayRow)
    (t : TicketType) (e d : Key)
    → IsIn t tickets
    → t.event_day_id ≡ some d
    → any (is_doomed event next tickets) days ≡ false
    → any (is_day_of e d) days ≡ true
    → any (is_day_of e d) (keep (stays event next) days) ≡ true
kept-any event next tickets days t e d is_in attached none_doomed h =
    any-keep (is_day_of e d) (is_doomed event next tickets) (stays event next)
      (λ x is_it spared.
        let refers : any (refers_to x.id) tickets ≡ true =
          is_in (refers_to x.id) (rw attached (ground arith)) in
        ground (arith, refers))
      days h none_doomed

replace_days-fits :
    (policy : Key → TicketPolicy) (event : Key) (next : List NewDay) (db : CatalogueDb)
    → any (is_doomed event next db.tickets) db.days ≡ false
    → all (fits policy db.days) db.tickets ≡ true
    → all
        (fits policy (upsert_days db.next_id event next (keep (stays event next) db.days)))
        db.tickets
      ≡ true
unfolding fits
replace_days-fits policy event next db none_doomed h =
    all-imp (fits policy db.days) _ db.tickets
      (λ t is_in.
        day_matches-keeps (policy t.event_id) t.event_id db.days _ t.event_day_id
          (λ d attached there. upsert_days-any db.next_id event next t.event_id d _ (
            kept-any event next db.tickets db.days t t.event_id d is_in attached none_doomed
              there)))
      h

with_days-Fits :
    (changed : Bool) (event : Key) (next : List NewDay) (db : CatalogueDb)
    → any (is_doomed event next db.tickets) db.days ≡ false
    → Fits db
    → Fits (with_days changed event next db)
      × (changed ≡ true → any (of_event event) (with_days changed event next db).tickets ≡ false)
unfolding Fits
with_days-Fits false event next db none_doomed h =
    (replace_days-fits (policies db) event next db none_doomed h, λ k. cc)
with_days-Fits true event next db none_doomed h = (
  all-keep (λ t. not (of_event event t)) _ db.tickets
      (replace_days-fits (policies db) event next db none_doomed h),
  λ k. any-keep-not (of_event event) db.tickets,
)

-- The transaction keeps the fit, and leaves no ticket of an event whose policy changes.
pub replace_days-Fits :
    (changed : Bool) (event : Key) (next : List NewDay) (db : CatalogueDb)
    → any (is_doomed event next db.tickets) db.days ≡ false
    → Fits db
    → Fits (replace_days changed event next db)
      × (changed ≡ true → any (of_event event) (replace_days changed event next db).tickets ≡ false)
replace_days-Fits changed event next db none_doomed h =
    subst (λ after. Fits after × (changed ≡ true → any (of_event event) after.tickets ≡ false))
      (sym (replace_days-with_days changed event next db none_doomed))
      (with_days-Fits changed event next db none_doomed h)
