-- ===== src/Catalogue/Attached.antt =====
-- No ticket loses its day when the days of an event are replaced: a day with tickets is refused.
use fluid_events.Prelude.{
  ◌+◌, ◌==◌, Bool, true, false, not, some, List, [], ◌∷◌, any, keep, length, if◌then◌else◌, ◌≡◌,
  refl, inl, inr, arith, Bool-cases, Option-cases, ap,
}
use fluid_events.Prelude.Sweeps.{IsIn, map-same, map-keep_same}
use fluid_events.Payments.{Key}
use fluid_events.Catalogue.{TicketType, DayRow, CatalogueDb}
use fluid_events.Catalogue.Days.{
  NewDay, is_doomed, stays, refers_to, of_event, upsert_days, is_going, detached, replace_days,
}

-- The transaction, on tickets that keep their days.
abbrev pub with_days : Bool → Key → List NewDay → CatalogueDb → CatalogueDb
with_days changed event next db = record db {
  tickets = if changed then keep (λ t. not (of_event event t)) db.tickets else db.tickets;
  days = upsert_days db.next_id event next (keep (stays event next) db.days);
  next_id = db.next_id + length next;
}

not_going :
    (event : Key) (next : List NewDay) (tickets : List TicketType) (days : List DayRow)
    (t : TicketType) (d : Key)
    → IsIn t tickets
    → t.event_day_id ≡ some d
    → any (is_doomed event next tickets) days ≡ false
    → any (is_going event next d) days ≡ false
not_going event next tickets [] t d is_in attached h = refl
not_going event next tickets (row ∷ days) t d is_in attached h =
    let rest = not_going event next tickets days t d is_in attached (ground (arith, h)) in
    elim (Bool-cases (row.id == d)) [
      | inr other ↦ rw (other, rest) refl
      | inl same ↦
          let refers : any (refers_to row.id) tickets ≡ true =
            is_in (refers_to row.id) (rw attached (ground (arith, same))) in
          ground (arith, refers, rest, h)
    ]

detached-same :
    (event : Key) (next : List NewDay) (tickets : List TicketType) (days : List DayRow)
    (t : TicketType)
    → IsIn t tickets
    → any (is_doomed event next tickets) days ≡ false
    → detached event next days t ≡ t
unfolding detached
detached-same event next tickets days t is_in h = elim (Option-cases t.event_day_id) [
  | inl free ↦ rw free refl
  | inr (d, attached) ↦ rw (attached, not_going event next tickets days t d is_in attached h) refl
]

pub replace_days-with_days :
    (changed : Bool) (event : Key) (next : List NewDay) (db : CatalogueDb)
    → any (is_doomed event next db.tickets) db.days ≡ false
    → replace_days changed event next db ≡ with_days changed event next db
unfolding replace_days
replace_days-with_days false event next db h =
    ap (λ ts. record (with_days false event next db) { tickets = ts })
      (map-same (detached event next db.days) db.tickets
        (λ t is_in. detached-same event next db.tickets db.days t is_in h))
replace_days-with_days true event next db h =
    ap (λ ts. record (with_days true event next db) { tickets = ts })
      (map-keep_same (detached event next db.days) (λ t. not (of_event event t)) db.tickets
        (λ t is_in. detached-same event next db.tickets db.days t is_in h))
