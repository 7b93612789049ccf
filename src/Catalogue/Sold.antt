-- ===== src/Catalogue/Sold.antt =====
-- What has been ordered is not taken back by the manager.
use fluid_events.Prelude.{
  ℕ, ◌+◌, ◌≤◌, ◌==◌, ltb, Bool, true, false, not, ◌&&◌, any, all, find, some, List, [], ◌∷◌, ok,
  ◌≡◌, refl, inl, inr, arith, Bool-cases, subst, find-holds, length, sym, ◌∙◌,
}
use fluid_events.Prelude.Sweeps.{
  find-update_first_either, find-remove_first_other, find-keep, find-IsIn,
}
use fluid_events.Prelude.Int.{pos, ltb_ℤ}
use fluid_events.Prelude.Texts.{Text}
use fluid_events.Payments.{Key, Time}
use fluid_events.Catalogue.{
  TicketType, CatalogueDb, CreateTicketDto, UpdateTicketDto, has_id, new_ticket, with_ticket,
  updated_ticket, create_ticket, update_ticket, delete_ticket, is_ordered, changes_limit,
  or_current, Sent,
}
use fluid_events.Catalogue.Days.{
  UpdateEventDto, NewDay, apply_days_and_policy, write_settings, changes_policy, of_event, has_sold,
  normalized, days_of, put_settings,
}
use fluid_events.Catalogue.Attached.{with_days, replace_days-with_days}
use fluid_events.Catalogue.Applied.{apply_days_and_policy-cases, write_settings-eq-ok}
use fluid_events.Catalogue.Calls.{create_ticket-eq-ok, update_ticket-eq-ok, delete_ticket-eq-ok}
use fluid_events.Catalogue.Matching.{change_access-keeps}
use fluid_events.Catalogue.Course.{
  Change, Outside, change, change_all, left_by-keeps, EditRule, update_my_event-keeps,
}

-- The same ticket on sale: its event, its day, its places and its sales; and, once it has been sold,
-- its limit for an order.
pub record SameSale (t t' : TicketType) : Type 0 where
  pub event : t'.event_id ≡ t.event_id
  pub day : t'.event_day_id ≡ t.event_day_id
  pub places : t'.stock ≡ t.stock
  pub sales : t'.stock_sold ≡ t.stock_sold
  pub limit : ltb_ℤ (pos 0) t.stock_sold ≡ true → t'.max_per_order ≡ t.max_per_order

-- The rows of OrderItem refer to tickets that have been made.
unfoldable pub IsMade : CatalogueDb → Type 0
IsMade db = all (λ i. ltb i db.next_id) db.ordered ≡ true

found_same :
    (a b : Key) (ts : List TicketType) {u v : TicketType}
    → find (has_id a) ts ≡ some u
    → find (has_id b) ts ≡ some v
    → has_id a v ≡ true
    → u ≡ v
found_same a b ts {u} {v} h k it =
    let same : a ≡ b = ground (arith, it, find-holds (has_id b) ts k) in
    some-injective (sym h ∙ (rw same k))
  where
    some-injective : {x y : TicketType} → some x ≡ some y → x ≡ y
    some-injective e = cc

module _ (id : Key) (t : TicketType) where
  -- The ticket of this identifier has been ordered, and is still as it was.
  pub record Stands (db : CatalogueDb) : Type 0 where
    pub made : IsMade db
    pub ordered : any (λ i. i == id) db.ordered ≡ true
    pub now : TicketType
    pub found : find (has_id id) db.tickets ≡ some now
    pub same : SameSale t now

  below_next :
      (ordered : List Key) (next : Key)
      → all (λ i. ltb i next) ordered ≡ true
      → any (λ i. i == id) ordered ≡ true
      → (next == id) ≡ false
  below_next [] next h k = cc
  below_next (i ∷ is) next h k = elim (Bool-cases (i == id)) [
    | inl here ↦ ground (arith, here)
    | inr later ↦ below_next is next (ground (arith, h)) (ground (arith, k, later))
  ]

  more :
      (is : List Key) (n m : Key)
      → n ≤ m
      → all (λ i. ltb i n) is ≡ true
      → all (λ i. ltb i m) is ≡ true
  more [] n m h k = refl
  more (i ∷ is) n m h k = ground (arith, more is n m h)

  not_it :
      (ticket : Key) (u : TicketType) (ts : List TicketType) (ordered : List Key)
      → find (has_id ticket) ts ≡ some u
      → is_ordered ordered u ≡ false
      → any (λ i. i == id) ordered ≡ true
      → (ticket == id) ≡ false
  not_it ticket u ts ordered found free h = elim (Bool-cases (ticket == id)) [
    | inr no' ↦ no'
    | inl it ↦
        let is_id : u.id ≡ id = ground (arith, it, find-holds (has_id ticket) ts found) in
        let there : any (λ i. i == u.id) ordered ≡ true = rw is_id h in ground (arith, there, free)
  ]

  apart :
      (ticket : Key)
      → (ticket == id) ≡ false
      → (x : TicketType) → has_id ticket x ≡ true
      → has_id id x ≡ false
  apart ticket other x h = ground arith

  elsewhere :
      (event : Key) (db : CatalogueDb) (h : Stands db)
      → has_sold event db ≡ false
      → not (of_event event h.now) ≡ true
  elsewhere event db h unsold = elim (Bool-cases (of_event event h.now)) [
    | inr other ↦ rw other refl
    | inl here ↦
        let is_id : h.now.id ≡ id = ground (arith, find-holds (has_id id) db.tickets h.found) in
        let there : is_ordered db.ordered h.now ≡ true = rw is_id h.ordered in
        let sold : has_sold event db ≡ true =
          find-IsIn (has_id id) db.tickets h.found
            (λ x. of_event event x && is_ordered db.ordered x) (rw (here, there) refl) in
        ground (arith, sold, unsold)
  ]

  with_ticket-Stands :
      (allowed : Text → Bool) (date : Text → Time) (event : Key) (dto : CreateTicketDto)
      (db : CatalogueDb)
      → Stands db
      → Stands (with_ticket (new_ticket allowed date db.next_id event dto) db)
  unfolding IsMade new_ticket
  with_ticket-Stands allowed date event dto db h = record {
    made = more db.ordered db.next_id (db.next_id + 1) (omega arith) h.made;
    ordered = h.ordered;
    now = h.now;
    found = rw (below_next db.ordered db.next_id h.made h.ordered) h.found;
    same = h.same;
  }

  updated_ticket-SameSale :
      (allowed : Text → Bool) (date : Text → Time) (dto : UpdateTicketDto) (now : TicketType)
      → (changes_limit dto.max_per_order now.max_per_order && ltb_ℤ (pos 0) now.stock_sold) ≡ false
      → SameSale t now
      → SameSale t (updated_ticket allowed date dto now)
  unfolding updated_ticket
  updated_ticket-SameSale allowed date dto now locked s = record {
    event = s.event;
    day = s.day;
    places = s.places;
    sales = s.sales;
    limit = λ sold. limit_kept dto.max_per_order sold locked;
  }
    where
      limit_kept :
          (limit : Sent ℕ)
          → ltb_ℤ (pos 0) t.stock_sold ≡ true
          → (changes_limit limit now.max_per_order && ltb_ℤ (pos 0) now.stock_sold) ≡ false
          → or_current limit now.max_per_order ≡ t.max_per_order
      limit_kept Sent.absent sold locked' = s.limit sold
      limit_kept Sent.null_sent sold locked' = s.limit sold
      limit_kept (Sent.given n) sold locked' = ground (arith, s.limit sold, s.sales)

  update_ticket-Stands :
      (allowed : Text → Bool) (date : Text → Time) (ticket manager : Key) (dto : UpdateTicketDto)
      (db after : CatalogueDb)
      → Stands db
      → update_ticket allowed date ticket manager dto db ≡ ok after
      → Stands after
  unfolding updated_ticket IsMade
  update_ticket-Stands allowed date ticket manager dto db after h e =
      let (u, found', locked, same) = update_ticket-eq-ok allowed date ticket manager dto db e in
      subst Stands same
        (elim (find-update_first_either (has_id ticket) (has_id id)
          (updated_ticket allowed date dto) (λ x. refl) db.tickets h.found) [
            | inl untouched ↦ record {
              made = h.made;
              ordered = h.ordered;
              now = h.now;
              found = untouched;
              same = h.same;
            }
            | inr (changed, it) ↦ record {
              made = h.made;
              ordered = h.ordered;
              now = updated_ticket allowed date dto h.now;
              found = changed;
              same =
                  updated_ticket-SameSale allowed date dto h.now
                    (subst
                      (λ x.
                        (changes_limit dto.max_per_order x.max_per_order
                          && ltb_ℤ (pos 0) x.stock_sold)
                        ≡ false)
                      (found_same ticket id db.tickets found' h.found it) locked)
                    h.same;
            }
          ])

  delete_ticket-Stands :
      (ticket manager : Key) (db after : CatalogueDb)
      → Stands db
      → delete_ticket ticket manager db ≡ ok after
      → Stands after
  unfolding IsMade
  delete_ticket-Stands ticket manager db after h e =
      let (u, found', free, same) = delete_ticket-eq-ok ticket manager db e in
      subst Stands same (record {
        made = h.made;
        ordered = h.ordered;
        now = h.now;
        found =
            find-remove_first_other (has_id ticket) (has_id id)
              (apart ticket (not_it ticket u db.tickets db.ordered found' free h.ordered))
              db.tickets h.found;
        same = h.same;
      })

  with_days-Stands :
      (changed : Bool) (event : Key) (next : List NewDay) (db : CatalogueDb)
      → (changed && has_sold event db) ≡ false
      → Stands db
      → Stands (with_days changed event next db)
  unfolding IsMade
  with_days-Stands false event next db unsold h = record {
    made = more db.ordered db.next_id (db.next_id + length next) (omega arith) h.made;
    ordered = h.ordered;
    now = h.now;
    found = h.found;
    same = h.same;
  }
  with_days-Stands true event next db unsold h = record {
    made = more db.ordered db.next_id (db.next_id + length next) (omega arith) h.made;
    ordered = h.ordered;
    now = h.now;
    found =
        find-keep (λ x. not (of_event event x)) (has_id id) db.tickets h.found
          (elsewhere event db h (unsold));
    same = h.same;
  }

  dates-Stands :
      (civil : Text → ℕ) (event manager : Key) (dto : UpdateEventDto) (db after : CatalogueDb)
      → Stands db
      → apply_days_and_policy civil event manager dto.ticket_policy dto.days db ≡ ok after
      → Stands after
  dates-Stands civil event manager dto db after h e =
      elim (apply_days_and_policy-cases civil event manager dto.ticket_policy dto.days db e) [
        | inl (nothing, same) ↦ rw same h
        | inr (checked, same) ↦ subst Stands same (
            let changed = changes_policy dto.ticket_policy (db.settings event) in
            let next = normalized civil 0 (days_of dto.days) in
            subst Stands (sym (replace_days-with_days changed event next db checked.none_doomed))
              (with_days-Stands changed event next db checked.unsold_if_changed h))
      ]

  put_settings-Stands :
      (event : Key) (dto : UpdateEventDto) (db after : CatalogueDb)
      → Stands db
      → write_settings event dto.ticket_policy dto.expected_attendees db ≡ ok after
      → Stands after
  unfolding put_settings IsMade
  put_settings-Stands event dto db after h e =
      let (s, _, same) = write_settings-eq-ok event dto.ticket_policy dto.expected_attendees db e in
      subst Stands same
        (record { made = h.made; ordered = h.ordered; now = h.now; found = h.found; same = h.same })

  Stands-rule : (civil : Text → ℕ) (dto : UpdateEventDto) → EditRule Stands (λ _. Stands) civil dto
  unfolding IsMade
  Stands-rule civil dto = record {
    opens = λ event db after h e.
        change_access-keeps Stands event dto.access_mode db after
          (λ a. record {
            made = h.made;
            ordered = h.ordered;
            now = h.now;
            found = h.found;
            same = h.same;
          })
          h e;
    dates = λ event manager db. dates-Stands civil event manager dto db;
    stops = λ event db b. b;
    writes = λ event db. put_settings-Stands event dto db;
  }

  module _ (o : Outside) where
    change-Stands : (c : Change) (db : CatalogueDb) → Stands db → Stands (change o c db)
    unfolding change
    change-Stands (Change.creates manager event dto) db h =
        left_by-keeps Stands (create_ticket o.allowed o.date event manager dto db) db h (λ after e.
          let (_, _, same) = create_ticket-eq-ok o.allowed o.date event manager dto db e in
          subst Stands same (with_ticket-Stands o.allowed o.date event dto db h))
    change-Stands (Change.updates manager ticket dto) db h =
        left_by-keeps Stands (update_ticket o.allowed o.date ticket manager dto db) db h
          (λ after. update_ticket-Stands o.allowed o.date ticket manager dto db after h)
    change-Stands (Change.deletes manager ticket) db h =
        left_by-keeps Stands (delete_ticket ticket manager db) db h
          (λ after. delete_ticket-Stands ticket manager db after h)
    change-Stands (Change.edits manager dto event) db h =
        update_my_event-keeps Stands (λ _. Stands) o.allowed o.civil dto (Stands-rule o.civil dto)
          manager event db h

    -- A ticket that an order refers to outlives whatever managers do with their tickets and events:
    -- its event, its day, its places and its sales stay, and so does its limit for an order if it has
    -- been sold.
    pub change_all-Stands :
        (cs : List Change) (db : CatalogueDb) → Stands db → Stands (change_all o cs db)
    unfolding change_all
    change_all-Stands [] db h = h
    change_all-Stands (c ∷ cs) db h = change_all-Stands cs (change o c db) (change-Stands c db h)
