-- ===== src/Catalogue/Applied.antt =====
-- What the replacement of an event's days has checked when it goes through.
use fluid_events.Prelude.{
  ℕ, ltb, Bool, true, false, not, ◌&&◌, ◌||◌, Option, none, some, List, any, length, ok, ErrorCode,
  refuse_if, refuse_if-eq-ok, >>=-eq-ok, ◌≡◌, refl, inl, inr, ◌⊎◌, arith, Bool-cases,
}
use fluid_events.Prelude.Texts.{Text}
use fluid_events.Payments.{Key}
use fluid_events.Scanner.{TicketPolicy}
use fluid_events.Access.{limites_of}
use fluid_events.Catalogue.{
  CatalogueDb, EventSettings, Sent, policy_of, or_current, is_absent, is_null,
}
use fluid_events.Catalogue.Days.{
  EventDayDto, NewDay, is_single, has_sold, is_backwards, repeats, is_doomed, replace_days, applied,
  apply_days_and_policy, normalized, days_of, changes_policy, settings_to, put_settings,
  with_settings, write_settings,
}

-- The premisses of the transaction.
pub record Checked (event manager : Key) (policy : TicketPolicy) (changed : Bool)
    (next : List NewDay) (db : CatalogueDb) : Type 0 where
  pub allowed_by_plan :
      ((not (is_single policy) || ltb 0 (length next))
        && not (limites_of manager db.access.users).multi_jours)
      ≡ false
  pub no_days_if_single : (is_single policy && ltb 0 (length next)) ≡ false
  pub two_days_if_not : (not (is_single policy) && ltb (length next) 2) ≡ false
  pub unsold_if_changed : (changed && has_sold event db) ≡ false
  pub forwards : any is_backwards next ≡ false
  pub distinct : repeats next ≡ false
  pub none_doomed : any (is_doomed event next db.tickets) db.days ≡ false

pub applied-Checked :
    (event manager : Key) (policy : TicketPolicy) (changed : Bool) (next : List NewDay)
    (db : CatalogueDb) {after : CatalogueDb}
    → applied event manager policy changed next db ≡ ok after
    → Checked event manager policy changed next db × (replace_days changed event next db ≡ after)
unfolding applied
applied-Checked event manager policy changed next db h =
    let (_, a, h1) = >>=-eq-ok (refuse_if _ _) _ h in
    let (_, b, h2) = >>=-eq-ok (refuse_if _ _) _ h1 in
    let (_, c, h3) = >>=-eq-ok (refuse_if _ _) _ h2 in
    let (_, d, h4) = >>=-eq-ok (refuse_if _ _) _ h3 in
    let (_, e, h5) = >>=-eq-ok (refuse_if _ _) _ h4 in
    let (_, f, h6) = >>=-eq-ok (refuse_if _ _) _ h5 in
    let (_, g, h7) = >>=-eq-ok (refuse_if _ _) _ h6 in
    (
      record {
        allowed_by_plan = refuse_if-eq-ok _ _ a;
        no_days_if_single = refuse_if-eq-ok _ _ b;
        two_days_if_not = refuse_if-eq-ok _ _ c;
        unsold_if_changed = refuse_if-eq-ok _ _ d;
        forwards = refuse_if-eq-ok _ _ e;
        distinct = refuse_if-eq-ok _ _ f;
        none_doomed = refuse_if-eq-ok _ _ g;
      },
      ground (arith, h7),
    )

-- Either nothing is sent, or the days and the policy are checked and replaced.
pub apply_days_and_policy-cases :
    (civil : Text → ℕ) (event manager : Key) (policy : Sent TicketPolicy)
    (days : Sent (List EventDayDto)) (db : CatalogueDb) {after : CatalogueDb}
    → apply_days_and_policy civil event manager policy days db ≡ ok after
    → (((is_absent policy && is_absent days) ≡ true) × (after ≡ db))
      ⊎ (Checked event manager
            (or_current policy (policy_of (db.settings event)))
            (changes_policy policy (db.settings event))
            (normalized civil 0 (days_of days))
            db
          × (replace_days
                (changes_policy policy (db.settings event))
                event
                (normalized civil 0 (days_of days))
                db
              ≡ after))
unfolding apply_days_and_policy
apply_days_and_policy-cases civil event manager policy days db h =
    elim (Bool-cases (is_absent policy && is_absent days)) [
      | inl nothing ↦ inl (nothing, ground (arith, nothing))
      | inr something ↦ inr (
          applied-Checked event manager (or_current policy (policy_of (db.settings event)))
            (changes_policy policy (db.settings event)) (normalized civil 0 (days_of days)) db
            (simp something at h))
    ]

settings_to-eq-ok :
    (event : Key) (policy : Sent TicketPolicy) (expected : Sent ℕ) (db : CatalogueDb)
    (o : Option EventSettings) {after : CatalogueDb}
    → settings_to event policy expected db o ≡ ok after
    → (s : EventSettings) × (o ≡ some s)
      × (put_settings event (with_settings policy expected s) db ≡ after)
settings_to-eq-ok event policy expected db none h = cc
settings_to-eq-ok event policy expected db (some s) h =
    let (_, _, e) = >>=-eq-ok (refuse_if (is_null policy) ErrorCode.internal_error) _ h in
    (s, refl, ground (arith, e))

-- What the write of the fields leaves.
pub write_settings-eq-ok :
    (event : Key) (policy : Sent TicketPolicy) (expected : Sent ℕ) (db : CatalogueDb)
    {after : CatalogueDb}
    → write_settings event policy expected db ≡ ok after
    → (s : EventSettings) × (db.settings event ≡ some s)
      × (put_settings event (with_settings policy expected s) db ≡ after)
unfolding write_settings
write_settings-eq-ok event policy expected db =
    settings_to-eq-ok event policy expected db (db.settings event)
