-- ===== src/Catalogue/Calls.antt =====
-- What the calls on tickets have checked when they go through, and what they leave.
use fluid_events.Prelude.{
  ◌+◌, ◌==◌, Bool, true, false, not, ◌&&◌, some, find, update_first, remove_first, ok, ErrorCode,
  refuse_if, >>=-eq-ok, refuse_if-eq-ok, or_fail->>=-eq-ok, ◌≡◌, arith,
}
use fluid_events.Prelude.Int.{pos, ltb_ℤ}
use fluid_events.Prelude.Texts.{Text}
use fluid_events.Payments.{Key, Time}
use fluid_events.Access.{ManagedEvent, find_event}
use fluid_events.Catalogue.{
  TicketType, CatalogueDb, CreateTicketDto, UpdateTicketDto, has_id, owned_event, owned_ticket,
  exceeds, ceiling_of, policy_of, sum_stock, day_matches, assert_capacity_allows,
  assert_ticket_day_matches_policy, is_barred, with_ticket, new_ticket, create_ticket, value_of,
  has_null, changes_limit, updated_ticket, update_ticket, is_ordered, delete_ticket,
}

-- The ticket is there and its event is the manager's.
pub owned_ticket-eq-ok :
    (id manager : Key) (db : CatalogueDb) {t : TicketType}
    → owned_ticket id manager db ≡ ok t
    → (find (has_id id) db.tickets ≡ some t)
      × (e : ManagedEvent) × (find_event t.event_id db.access.events ≡ some e)
      × (e.manager_id ≡ manager)
unfolding owned_ticket
owned_ticket-eq-ok id manager db h =
    let (t, found, h1) =
      or_fail->>=-eq-ok (find (has_id id) db.tickets) ErrorCode.ticket_not_found _ h in
    let (e, there, h2) =
      or_fail->>=-eq-ok (find_event t.event_id db.access.events) ErrorCode.internal_error _ h1 in
    let (_, his, h3) =
      >>=-eq-ok (refuse_if (not (e.manager_id == manager)) ErrorCode.forbidden) _ h2 in
    let same = refuse_if-eq-ok (not (e.manager_id == manager)) ErrorCode.forbidden his in
    (ground (arith, found, h3), e, ground (arith, there, h3), ground (arith, same))

module _ (allowed : Text → Bool) (date : Text → Time) where
  pub create_ticket-eq-ok :
      (event manager : Key) (dto : CreateTicketDto) (db : CatalogueDb) {after : CatalogueDb}
      → create_ticket allowed date event manager dto db ≡ ok after
      → (exceeds (ceiling_of (db.settings event)) (sum_stock event db.tickets + dto.stock) ≡ false)
        × (day_matches (policy_of (db.settings event)) event db.days dto.event_day_id ≡ true)
        × (with_ticket (new_ticket allowed date db.next_id event dto) db ≡ after)
  unfolding create_ticket assert_capacity_allows assert_ticket_day_matches_policy
  create_ticket-eq-ok event manager dto db h =
      let (_, _, h1) = >>=-eq-ok (owned_event event manager db) _ h in
      let (_, _, h2) =
        >>=-eq-ok
          (refuse_if (is_barred allowed dto.design_image_url) ErrorCode.design_image_url_invalid) _
          h1 in
      let (_, room, h3) = >>=-eq-ok (assert_capacity_allows event dto.stock db) _ h2 in
      let (_, day, h4) =
        >>=-eq-ok (assert_ticket_day_matches_policy event dto.event_day_id db) _ h3 in
      let matches =
        refuse_if-eq-ok
          (not (day_matches (policy_of (db.settings event)) event db.days dto.event_day_id))
          ErrorCode.ticket_day_invalid day in
      (
        refuse_if-eq-ok
            (exceeds (ceiling_of (db.settings event)) (sum_stock event db.tickets + dto.stock))
            ErrorCode.event_capacity_exceeded room,
        ground (arith, matches),
        ground (arith, h4),
      )

  pub update_ticket-eq-ok :
      (id manager : Key) (dto : UpdateTicketDto) (db : CatalogueDb) {after : CatalogueDb}
      → update_ticket allowed date id manager dto db ≡ ok after
      → (t : TicketType) × (find (has_id id) db.tickets ≡ some t)
        × ((changes_limit dto.max_per_order t.max_per_order && ltb_ℤ (pos 0) t.stock_sold) ≡ false)
        × (record db {
          tickets = update_first (has_id id) (updated_ticket allowed date dto) db.tickets;
        }
            ≡ after)
  unfolding update_ticket
  update_ticket-eq-ok id manager dto db h =
      let (t, owned, h1) = >>=-eq-ok (owned_ticket id manager db) _ h in
      let (_, _, h2) =
        >>=-eq-ok
          (refuse_if (is_barred allowed (value_of dto.design_image_url))
            ErrorCode.design_image_url_invalid)
          _ h1 in
      let (_, kept, h3) =
        >>=-eq-ok
          (refuse_if (changes_limit dto.max_per_order t.max_per_order && ltb_ℤ (pos 0) t.stock_sold)
            ErrorCode.ticket_max_per_order_locked)
          _ h2 in
      let (_, _, h4) = >>=-eq-ok (refuse_if (has_null dto) ErrorCode.internal_error) _ h3 in
      (
        t,
        (owned_ticket-eq-ok id manager db owned).0,
        refuse_if-eq-ok
            (changes_limit dto.max_per_order t.max_per_order && ltb_ℤ (pos 0) t.stock_sold)
            ErrorCode.ticket_max_per_order_locked kept,
        ground (arith, h4),
      )

pub delete_ticket-eq-ok :
    (id manager : Key) (db : CatalogueDb) {after : CatalogueDb}
    → delete_ticket id manager db ≡ ok after
    → (t : TicketType) × (find (has_id id) db.tickets ≡ some t)
      × (is_ordered db.ordered t ≡ false)
      × (record db { tickets = remove_first (has_id id) db.tickets } ≡ after)
unfolding delete_ticket
delete_ticket-eq-ok id manager db h =
    let (t, owned, h1) = >>=-eq-ok (owned_ticket id manager db) _ h in
    let (_, free, h2) =
      >>=-eq-ok (refuse_if (is_ordered db.ordered t) ErrorCode.ticket_has_orders) _ h1 in
    (
      t,
      (owned_ticket-eq-ok id manager db owned).0,
      refuse_if-eq-ok (is_ordered db.ordered t) ErrorCode.ticket_has_orders free,
      ground (arith, h2),
    )
