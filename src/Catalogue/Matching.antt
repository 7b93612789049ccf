-- ===== src/Catalogue/Matching.antt =====
-- Whatever managers do, every ticket goes with the policy of its event.
use fluid_events.Prelude.{
  ℕ, ◌==◌, Bool, true, false, any, Option, some, List, [], ◌∷◌, ok, thrown, ErrorCode, or_fail,
  >>=-eq-ok, ◌≡◌, refl, inl, inr, arith, Bool-cases, subst, update_first, remove_first,
}
use fluid_events.Prelude.Sweeps.{all-update_first, all-remove_first, all-imp, IsIn}
use fluid_events.Prelude.Texts.{Text}
use fluid_events.Payments.{Key, Time}
use fluid_events.Scanner.{TicketPolicy, single_day, pass_all_days, per_day}
use fluid_events.Access.{EventAccessMode, find_event, changer_regime_acces}
use fluid_events.Catalogue.{
  TicketType, CatalogueDb, CreateTicketDto, UpdateTicketDto, EventSettings, policy_of, day_matches,
  has_id, new_ticket, with_ticket, updated_ticket, create_ticket, update_ticket, delete_ticket,
  or_current, Sent, is_absent,
}
use fluid_events.Catalogue.Days.{
  UpdateEventDto, change_access, apply_days_and_policy, write_settings, changes_policy, of_event,
  same_policy, with_settings, put_settings, replace_days, normalized, days_of,
}
use fluid_events.Catalogue.Fits.{fits, policies, Fits, replace_days-Fits}
use fluid_events.Catalogue.Applied.{apply_days_and_policy-cases, write_settings-eq-ok}
use fluid_events.Catalogue.Calls.{create_ticket-eq-ok, update_ticket-eq-ok, delete_ticket-eq-ok}
use fluid_events.Catalogue.Course.{
  Change, Outside, change, change_all, left_by-keeps, EditRule, update_my_event-keeps,
}

ok-injective : {x y : CatalogueDb} → ok x ≡ ok y → x ≡ y
ok-injective e = cc

with_ticket-Fits :
    (t : TicketType) (db : CatalogueDb)
    → day_matches (policy_of (db.settings t.event_id)) t.event_id db.days t.event_day_id ≡ true
    → Fits db
    → Fits (with_ticket t db)
unfolding Fits fits
with_ticket-Fits t db fit h = rw (fit, h) refl

new_ticket-Fits :
    (allowed : Text → Bool) (date : Text → Time) (event : Key) (dto : CreateTicketDto)
    (db : CatalogueDb)
    → day_matches (policy_of (db.settings event)) event db.days dto.event_day_id ≡ true
    → Fits db
    → Fits (with_ticket (new_ticket allowed date db.next_id event dto) db)
unfolding new_ticket
new_ticket-Fits allowed date event dto db =
    with_ticket-Fits (new_ticket allowed date db.next_id event dto) db

updated_tickets-Fits :
    (allowed : Text → Bool) (date : Text → Time) (id : Key) (dto : UpdateTicketDto)
    (db : CatalogueDb)
    → Fits db
    → Fits (record db {
      tickets = update_first (has_id id) (updated_ticket allowed date dto) db.tickets;
    })
unfolding Fits fits updated_ticket
updated_tickets-Fits allowed date id dto db h =
    all-update_first (has_id id) (fits (policies db) db.days) (updated_ticket allowed date dto)
      (λ x _ k. k) db.tickets h

removed_ticket-Fits :
    (id : Key) (db : CatalogueDb)
    → Fits db
    → Fits (record db { tickets = remove_first (has_id id) db.tickets })
unfolding Fits
removed_ticket-Fits id db h = all-remove_first (has_id id) (fits (policies db) db.days) db.tickets h

-- Between the replacement of the days and the write of the policy.
abbrev Cleared : Key → UpdateEventDto → CatalogueDb → Type 0
Cleared event dto db =
    Fits db
    × (changes_policy dto.ticket_policy (db.settings event) ≡ true
        → any (of_event event) db.tickets ≡ false)

-- The access to an event is of another table.
pub change_access-keeps :
    (P : CatalogueDb → Type 0) (event : Key) (mode : Sent EventAccessMode) (db after : CatalogueDb)
    → ((access' : _) → P (record db { access = access' }))
    → P db
    → change_access event mode db ≡ ok after
    → P after
change_access-keeps P event Sent.absent db after step h e = subst P (ok-injective e) h
change_access-keeps P event Sent.null_sent db after step h e =
    let (_, _, e1) =
      >>=-eq-ok (or_fail (find_event event db.access.events) ErrorCode.event_not_found) _ e in
    never e1
  where
    never : {Goal : Type 0} → thrown ErrorCode.internal_error ≡ ok after → Goal
    never k = cc
change_access-keeps P event (Sent.given mode) db after step h e =
    let (access', _, e1) = >>=-eq-ok (changer_regime_acces event mode db.access) _ e in
    subst P (ok-injective e1) (step access')

replace_days-Cleared :
    (civil : Text → ℕ) (event manager : Key) (dto : UpdateEventDto) (db after : CatalogueDb)
    → Fits db
    → apply_days_and_policy civil event manager dto.ticket_policy dto.days db ≡ ok after
    → Cleared event dto after
unfolding replace_days
replace_days-Cleared civil event manager dto db after h e =
    elim (apply_days_and_policy-cases civil event manager dto.ticket_policy dto.days db e) [
      | inl (nothing, same) ↦ (
        rw same h,
        λ changed.
            unsent dto.ticket_policy (after.settings event) (ground (arith, nothing)) changed,
      )
      | inr (checked, same) ↦ subst (Cleared event dto) same (
          replace_days-Fits (changes_policy dto.ticket_policy (db.settings event)) event
            (normalized civil 0 (days_of dto.days)) db checked.none_doomed h)
    ]
  where
    unsent :
        {Goal : Type 0} (p : Sent TicketPolicy) (s : Option EventSettings)
        → is_absent p ≡ true
        → changes_policy p s ≡ true
        → Goal
    unsent Sent.absent s m c = cc
    unsent Sent.null_sent s m c = cc
    unsent (Sent.given p) s m c = cc

same_policy-eq : (p q : TicketPolicy) → same_policy p q ≡ true → p ≡ q
same_policy-eq single_day single_day h = refl
same_policy-eq single_day pass_all_days h = cc
same_policy-eq single_day per_day h = cc
same_policy-eq pass_all_days single_day h = cc
same_policy-eq pass_all_days pass_all_days h = refl
same_policy-eq pass_all_days per_day h = cc
same_policy-eq per_day single_day h = cc
same_policy-eq per_day pass_all_days h = cc
same_policy-eq per_day per_day h = refl

-- A policy that is sent and is no change.
or_current-same :
    (p : Sent TicketPolicy) (s : EventSettings)
    → changes_policy p (some s) ≡ false
    → or_current p s.ticket_policy ≡ s.ticket_policy
or_current-same Sent.absent s h = refl
or_current-same Sent.null_sent s h = cc
or_current-same (Sent.given p) s h = same_policy-eq p s.ticket_policy (ground (arith, h))

put_settings-fits :
    (event : Key) (dto : UpdateEventDto) (s : EventSettings) (db : CatalogueDb) (t : TicketType)
    → db.settings event ≡ some s
    → (changes_policy dto.ticket_policy (some s) ≡ true → of_event event t ≡ false)
    → fits (policies db) db.days t ≡ true
    → fits
        (policies
          (put_settings event (with_settings dto.ticket_policy dto.expected_attendees s) db))
        db.days
        t
      ≡ true
unfolding fits put_settings
put_settings-fits event dto s db t found spared h = elim (Bool-cases (t.event_id == event)) [
  | inr other ↦ rw other h
  | inl same ↦ elim (Bool-cases (changes_policy dto.ticket_policy (some s))) [
    | inl changed ↦ ground (arith, same, spared changed)
    | inr kept ↦
        rw (same, or_current-same dto.ticket_policy s kept) (ground (arith, found, h, same))
  ]
]

write_settings-Fits :
    (event : Key) (dto : UpdateEventDto) (db after : CatalogueDb)
    → Cleared event dto db
    → write_settings event dto.ticket_policy dto.expected_attendees db ≡ ok after
    → Fits after
unfolding Fits put_settings
write_settings-Fits event dto db after (h, cleared) e =
    let (s, found, same) =
      write_settings-eq-ok event dto.ticket_policy dto.expected_attendees db e in
    subst Fits same (
      all-imp (fits (policies db) db.days) _ db.tickets
        (λ t is_in.
          put_settings-fits event dto s db t found
            (λ changed. outside event t db.tickets is_in (cleared (rw found changed))))
        h)
  where
    outside :
        (event' : Key) (t : TicketType) (ts : List TicketType)
        → IsIn t ts
        → any (of_event event') ts ≡ false
        → of_event event' t ≡ false
    outside event' t ts is_in none_of = elim (Bool-cases (of_event event' t)) [
      | inl yes' ↦ ground (arith, is_in (of_event event') yes')
      | inr no' ↦ no'
    ]

Fits-rule :
    (civil : Text → ℕ) (dto : UpdateEventDto) → EditRule Fits (λ event. Cleared event dto) civil dto
unfolding Fits
Fits-rule civil dto = record {
  opens =
      λ event db after h e. change_access-keeps Fits event dto.access_mode db after (λ a. h) h e;
  dates = λ event manager db. replace_days-Cleared civil event manager dto db;
  stops = λ event db b. b.0;
  writes = λ event db. write_settings-Fits event dto db;
}

module _ (o : Outside) where
  change-Fits : (c : Change) (db : CatalogueDb) → Fits db → Fits (change o c db)
  unfolding change
  change-Fits (Change.creates manager event dto) db h =
      left_by-keeps Fits (create_ticket o.allowed o.date event manager dto db) db h (λ after e.
        let (_, day, same) = create_ticket-eq-ok o.allowed o.date event manager dto db e in
        subst Fits same (new_ticket-Fits o.allowed o.date event dto db day h))
  change-Fits (Change.updates manager ticket dto) db h =
      left_by-keeps Fits (update_ticket o.allowed o.date ticket manager dto db) db h (λ after e.
        let (_, _, _, same) = update_ticket-eq-ok o.allowed o.date ticket manager dto db e in
        subst Fits same (updated_tickets-Fits o.allowed o.date ticket dto db h))
  change-Fits (Change.deletes manager ticket) db h =
      left_by-keeps Fits (delete_ticket ticket manager db) db h (λ after e.
        let (_, _, _, same) = delete_ticket-eq-ok ticket manager db e in
        subst Fits same (removed_ticket-Fits ticket db h))
  change-Fits (Change.edits manager dto event) db h =
      update_my_event-keeps Fits (λ e. Cleared e dto) o.allowed o.civil dto (Fits-rule o.civil dto)
        manager event db h

  -- However managers create, update and delete tickets and edit their events, a ticket of an event
  -- with a ticket for each day is attached to a day of that event, and any other ticket to no day, if
  -- it was so before.
  pub change_all-Fits : (cs : List Change) (db : CatalogueDb) → Fits db → Fits (change_all o cs db)
  unfolding change_all
  change_all-Fits [] db h = h
  change_all-Fits (c ∷ cs) db h = change_all-Fits cs (change o c db) (change-Fits c db h)
