-- ===== src/Catalogue/Dates.antt =====
-- The dates of an event's days after their replacement (`apps/api/src/events/events.service.ts`).
use fluid_events.Prelude.{
  ℕ, ◌+◌, ◌==◌, Bool, true, ◌||◌, any, List, [], ◌∷◌, keep, ◌≡◌, refl, inl, inr, arith, Bool-cases,
  subst, ◌∙◌,
}
use fluid_events.Prelude.Sweeps.{any-update_first}
use fluid_events.Payments.{Key}
use fluid_events.Catalogue.{CatalogueDb, DayRow}
use fluid_events.Catalogue.Days.{
  NewDay, has_date, is_row_of, stays, rewritten, upsert_day, upsert_days, replace_days,
}

module _ (event : Key) where
  upsert_day-dates :
      (id : Key) (n : NewDay) (date : ℕ) (days : List DayRow)
      → any (is_row_of event date) (upsert_day id event n days)
        ≡ (n.date == date || any (is_row_of event date) days)
  unfolding upsert_day
  upsert_day-dates id n date days = elim (Bool-cases (any (is_row_of event n.date) days)) [
    | inl there ↦ rw there (
        any-update_first (is_row_of event n.date) (is_row_of event date) (rewritten n) (λ x. refl)
          days
        ∙ absorbed there)
    | inr new ↦ rw new (ground arith)
  ]
    where
      absorbed :
          any (is_row_of event n.date) days ≡ true
          → any (is_row_of event date) days ≡ (n.date == date || any (is_row_of event date) days)
      absorbed there' = elim (Bool-cases (n.date == date)) [
        | inl same ↦
            let at' : n.date ≡ date = ground (arith, same) in
            rw same (subst (λ x. any (is_row_of event x) days ≡ true) at' there')
        | inr other ↦ rw other refl
      ]

  upsert_days-dates :
      (id : Key) (ns : List NewDay) (date : ℕ) (days : List DayRow)
      → any (is_row_of event date) (upsert_days id event ns days)
        ≡ (has_date date ns || any (is_row_of event date) days)
  unfolding upsert_days
  upsert_days-dates id [] date days = refl
  upsert_days-dates id (n ∷ ns) date days =
      rw
        (
          upsert_days-dates (id + 1) ns date (upsert_day id event n days),
          upsert_day-dates id n date days,
        )
        (ground arith)

  kept-dates :
      (next : List NewDay) (date : ℕ) (days : List DayRow)
      → any (is_row_of event date) (keep (stays event next) days) ≡ true
      → has_date date next ≡ true
  kept-dates next date [] h = cc
  kept-dates next date (d ∷ days) h = elim (Bool-cases (stays event next d)) [
    | inr lost ↦ kept-dates next date days (simp lost at h)
    | inl kept ↦ elim (Bool-cases (is_row_of event date d)) [
      | inr other ↦ kept-dates next date days (ground (arith, h, kept, other))
      | inl here ↦
          let at' : d.date ≡ date = ground (arith, here) in
          let its : d.event_id ≡ event = ground (arith, here) in
          subst (λ x. has_date x next ≡ true) at' (ground (arith, kept, its))
    ]
  ]

  -- The dates of the event's rows are the dates of the request.
  pub replace_days-dates :
      (changed : Bool) (next : List NewDay) (db : CatalogueDb) (date : ℕ)
      → any (is_row_of event date) (replace_days changed event next db).days ≡ has_date date next
  unfolding replace_days
  replace_days-dates changed next db date =
      upsert_days-dates db.next_id next date (keep (stays event next) db.days)
      ∙ only (kept-dates next date db.days)
    where
      only : {b c : Bool} → (b ≡ true → c ≡ true) → (c || b) ≡ c
      only {b} {c} h = elim (Bool-cases b) [
        | inl yes' ↦ rw (yes', h yes') refl
        | inr no' ↦ rw no' (ground arith)
      ]
