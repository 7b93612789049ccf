-- ===== src/Catalogue/Capacity.antt =====
-- The places of an event and the number of people that are expected.
use fluid_events.Prelude.{
  ℕ, ◌+◌, ◌≤◌, ◌==◌, Bool, true, false, not, all, Option, none, some, List, [], ◌∷◌, ok, ◌≡◌, refl,
  inl, inr, arith, Bool-cases, subst, sym, ap, ◌∙◌, update_first, remove_first, keep,
}
use fluid_events.Prelude.Texts.{Text}
use fluid_events.Payments.{Key, Time}
use fluid_events.Catalogue.{
  TicketType, CatalogueDb, CreateTicketDto, has_id, new_ticket, with_ticket, updated_ticket,
  create_ticket, update_ticket, delete_ticket, exceeds, ceiling_of, sum_stock, Sent, rewritten_as,
}
use fluid_events.Catalogue.Days.{
  UpdateEventDto, NewDay, apply_days_and_policy, write_settings, changes_policy, of_event,
  normalized, days_of, put_settings,
}
use fluid_events.Catalogue.Attached.{with_days, replace_days-with_days}
use fluid_events.Catalogue.Applied.{apply_days_and_policy-cases, write_settings-eq-ok}
use fluid_events.Catalogue.Calls.{create_ticket-eq-ok, update_ticket-eq-ok, delete_ticket-eq-ok}
use fluid_events.Catalogue.Matching.{change_access-keeps}
use fluid_events.Catalogue.Course.{
  Change, Outside, change, change_all, left_by-keeps, EditRule, update_my_event-keeps,
}

-- No event has more places on sale than people are expected, where a number of them is given.
unfoldable pub WithinCapacity : CatalogueDb → Type 0
WithinCapacity db =
    (e : Key) → exceeds (ceiling_of (db.settings e)) (sum_stock e db.tickets) ≡ false

fewer-exceeds :
    (ceiling : Option ℕ) (m n : ℕ) → m ≤ n → exceeds ceiling n ≡ false → exceeds ceiling m ≡ false
fewer-exceeds none m n h k = refl
fewer-exceeds (some c) m n h k = ground (arith, h, k)

sum_stock-update_first :
    (e : Key) (p : TicketType → Bool) (f : TicketType → TicketType)
    → ((t : TicketType) → (f t).event_id ≡ t.event_id)
    → ((t : TicketType) → (f t).stock ≡ t.stock)
    → (ts : List TicketType) → sum_stock e (update_first p f ts) ≡ sum_stock e ts
unfolding sum_stock
sum_stock-update_first e p f event stock [] = refl
sum_stock-update_first e p f event stock (t ∷ ts) = elim (Bool-cases (p t)) [
  | inl yes' ↦ rw (yes', event t, stock t) refl
  | inr no' ↦ rw (no', sum_stock-update_first e p f event stock ts) refl
]

sum_stock-remove_first :
    (e : Key) (p : TicketType → Bool) (ts : List TicketType)
    → sum_stock e (remove_first p ts) ≤ sum_stock e ts
unfolding sum_stock
sum_stock-remove_first e p [] = omega arith
sum_stock-remove_first e p (t ∷ ts) = ground (arith, sum_stock-remove_first e p ts)

sum_stock-keep :
    (e : Key) (p : TicketType → Bool) (ts : List TicketType)
    → sum_stock e (keep p ts) ≤ sum_stock e ts
unfolding sum_stock
sum_stock-keep e p [] = omega arith
sum_stock-keep e p (t ∷ ts) = ground (arith, sum_stock-keep e p ts)

new_ticket-WithinCapacity :
    (allowed : Text → Bool) (date : Text → Time) (event : Key) (dto : CreateTicketDto)
    (db : CatalogueDb)
    → exceeds (ceiling_of (db.settings event)) (sum_stock event db.tickets + dto.stock) ≡ false
    → WithinCapacity db
    → WithinCapacity (with_ticket (new_ticket allowed date db.next_id event dto) db)
unfolding WithinCapacity new_ticket sum_stock
new_ticket-WithinCapacity allowed date event dto db room h e = elim (Bool-cases (event == e)) [
  | inl here ↦
      let same : event ≡ e = ground (arith, here) in
      rw here (
        fewer-exceeds (ceiling_of (db.settings e)) (dto.stock + sum_stock e db.tickets)
          (sum_stock e db.tickets + dto.stock) (omega arith)
          (subst
            (λ i. exceeds (ceiling_of (db.settings i)) (sum_stock i db.tickets + dto.stock) ≡ false)
            same room))
  | inr other ↦ rw other (
      fewer-exceeds (ceiling_of (db.settings e)) (0 + sum_stock e db.tickets)
        (sum_stock e db.tickets) (omega arith) (h e))
]

fewer-WithinCapacity :
    (db : CatalogueDb) (ts : List TicketType)
    → ((e : Key) → sum_stock e ts ≤ sum_stock e db.tickets)
    → WithinCapacity db
    → WithinCapacity (record db { tickets = ts })
unfolding WithinCapacity
fewer-WithinCapacity db ts step h e =
    fewer-exceeds (ceiling_of (db.settings e)) (sum_stock e ts) (sum_stock e db.tickets) (step e)
      (h e)

with_days-WithinCapacity :
    (changed : Bool) (event : Key) (next : List NewDay) (db : CatalogueDb)
    → WithinCapacity db
    → WithinCapacity (with_days changed event next db)
unfolding WithinCapacity
with_days-WithinCapacity false event next db h = h
with_days-WithinCapacity true event next db h =
    fewer-WithinCapacity db (keep (λ t. not (of_event event t)) db.tickets)
      (λ e. sum_stock-keep e (λ t. not (of_event event t)) db.tickets) h

dates-WithinCapacity :
    (civil : Text → ℕ) (event manager : Key) (dto : UpdateEventDto) (db after : CatalogueDb)
    → WithinCapacity db
    → apply_days_and_policy civil event manager dto.ticket_policy dto.days db ≡ ok after
    → WithinCapacity after
dates-WithinCapacity civil event manager dto db after h e =
    elim (apply_days_and_policy-cases civil event manager dto.ticket_policy dto.days db e) [
      | inl (nothing, same) ↦ rw same h
      | inr (checked, same) ↦ subst WithinCapacity same (
          let changed = changes_policy dto.ticket_policy (db.settings event) in
          let next = normalized civil 0 (days_of dto.days) in
          subst WithinCapacity
            (sym (replace_days-with_days changed event next db checked.none_doomed))
            (with_days-WithinCapacity changed event next db h))
    ]

abbrev pub is_given : Sent ℕ → Bool
is_given (Sent.given n) = true
is_given _ = false

-- A number that is not sent stays, and one that is taken away bounds nothing.
unset-exceeds :
    (expected : Sent ℕ) (old : Option ℕ) (places : ℕ)
    → is_given expected ≡ false
    → exceeds old places ≡ false
    → exceeds (rewritten_as expected old) places ≡ false
unset-exceeds Sent.absent old places h k = k
unset-exceeds Sent.null_sent old places h k = refl
unset-exceeds (Sent.given n) old places h k = cc

put_settings-WithinCapacity :
    (event : Key) (policy : _) (expected : Sent ℕ) (db after : CatalogueDb)
    → is_given expected ≡ false
    → WithinCapacity db
    → write_settings event policy expected db ≡ ok after
    → WithinCapacity after
unfolding put_settings WithinCapacity
put_settings-WithinCapacity event policy expected db after unsent h e =
    let (s, found, same) = write_settings-eq-ok event policy expected db e in
    subst WithinCapacity same (λ x. elim (Bool-cases (x == event)) [
      | inl here ↦
          let at' : x ≡ event = ground (arith, here) in
          let ceiling : ceiling_of (db.settings x) ≡ s.expected_attendees = rw (at', found) refl in
          rw here (
            unset-exceeds expected s.expected_attendees _ unsent
              (ap (λ o. exceeds o (sum_stock x db.tickets)) (sym ceiling) ∙ h x))
      | inr other ↦ rw other (h x)
    ])

capacity_rule :
    (civil : Text → ℕ) (dto : UpdateEventDto)
    → is_given dto.expected_attendees ≡ false
    → EditRule WithinCapacity (λ _. WithinCapacity) civil dto
unfolding WithinCapacity
capacity_rule civil dto unsent = record {
  opens = λ event db after h e.
      change_access-keeps WithinCapacity event dto.access_mode db after (λ a. h) h e;
  dates = λ event manager db. dates-WithinCapacity civil event manager dto db;
  stops = λ event db b. b;
  writes = λ event db after.
      put_settings-WithinCapacity event dto.ticket_policy dto.expected_attendees db after unsent;
}

-- A change that does not set the number of people expected.
abbrev pub keeps_ceiling : Change → Bool
keeps_ceiling (Change.edits manager dto event) = not (is_given dto.expected_attendees)
keeps_ceiling _ = true

module _ (o : Outside) where
  change-WithinCapacity :
      (c : Change) (db : CatalogueDb)
      → keeps_ceiling c ≡ true
      → WithinCapacity db
      → WithinCapacity (change o c db)
  unfolding change updated_ticket
  change-WithinCapacity (Change.creates manager event dto) db k h =
      left_by-keeps WithinCapacity (create_ticket o.allowed o.date event manager dto db) db h
        (λ after e.
          let (room, _, same) = create_ticket-eq-ok o.allowed o.date event manager dto db e in
          subst WithinCapacity same
            (new_ticket-WithinCapacity o.allowed o.date event dto db room h))
  change-WithinCapacity (Change.updates manager ticket dto) db k h =
      left_by-keeps WithinCapacity (update_ticket o.allowed o.date ticket manager dto db) db h
        (λ after e.
          let (_, _, _, same) = update_ticket-eq-ok o.allowed o.date ticket manager dto db e in
          subst WithinCapacity same (
            fewer-WithinCapacity db _
              (λ e'. omega (
                arith,
                sum_stock-update_first e' (has_id ticket) (updated_ticket o.allowed o.date dto)
                    (λ t. refl) (λ t. refl) db.tickets,
              ))
              h))
  change-WithinCapacity (Change.deletes manager ticket) db k h =
      left_by-keeps WithinCapacity (delete_ticket ticket manager db) db h (λ after e.
        let (_, _, _, same) = delete_ticket-eq-ok ticket manager db e in
        subst WithinCapacity same (
          fewer-WithinCapacity db _ (λ e'. sum_stock-remove_first e' (has_id ticket) db.tickets) h))
  change-WithinCapacity (Change.edits manager dto event) db k h =
      update_my_event-keeps WithinCapacity (λ _. WithinCapacity) o.allowed o.civil dto
        (capacity_rule o.civil dto (ground (arith, k))) manager event db h

  -- However managers create, update and delete tickets and edit their events, no event has more
  -- places on sale than people are expected, if none had before and no edit sets the number of people
  -- expected.
  pub change_all-WithinCapacity :
      (cs : List Change) (db : CatalogueDb)
      → all keeps_ceiling cs ≡ true
      → WithinCapacity db
      → WithinCapacity (change_all o cs db)
  unfolding change_all
  change_all-WithinCapacity [] db k h = h
  change_all-WithinCapacity (c ∷ cs) db k h =
      change_all-WithinCapacity cs (change o c db) (ground (arith, k))
        (change-WithinCapacity c db (ground (arith, k)) h)
