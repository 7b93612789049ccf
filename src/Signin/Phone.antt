-- ===== src/Signin/Phone.antt =====
-- A phone number is verified by the code that was sent for it, in time and once.
use fluid_events.Prelude.{
  ◌+◌, ◌≤◌, ◌==◌, Bool, true, Option, none, some, List, all, any, find, find-holds,
  find-update_first, ok, thrown, ErrorCode, ◌≡◌, refl, ◌⊎◌, inl, inr, arith, Bool-cases, subst, ap,
  sym, ◌∙◌,
}
use fluid_events.Prelude.Texts.{Text}
use fluid_events.Payments.{Key, Time}
use fluid_events.Signin.{
  Person, SignDb, Libraries, has_id, update_person, with_code, with_verified_phone, code_ttl,
  request_phone_verification, confirm_phone_verification,
}
use fluid_events.Signin.Visits.{Sign, sign_all}
use fluid_events.Signin.Codes.{
  renumbers, unasked, Waits, WaitsFor, same_numbers, sign_all-Has, waiting, waiting_for,
}
use fluid_events.Signin.Updates.{
  Confirmed, update_person-eq-ok, request_phone_verification-eq-ok,
  confirm_phone_verification-eq-ok,
}

-- The row after an update by identifier.
updated-find :
    (id : Key) (f : Person → Person) (db : SignDb) {after : SignDb}
    → ((u : Person) → (f u).id ≡ u.id)
    → update_person id f db ≡ ok after
    → (u : Person) × (find (has_id id) db.people ≡ some u)
      × (find (has_id id) after.people ≡ some (f u))
updated-find id f db ids e =
    let (u, found, same) = update_person-eq-ok id f db e in
    let holds : has_id id (f u) ≡ true =
      ap (λ i. i == id) (ids u) ∙ find-holds (has_id id) db.people found in
    (
      u,
      found,
      subst (λ (x : SignDb). find (has_id id) x.people ≡ some (f u)) same
          (find-update_first (has_id id) f db.people found holds),
    )

some-injective : {A : Type 0} {x y : A} → some x ≡ some y → x ≡ y
some-injective e = cc

module _ (libs : Libraries) (fallback : Text) where
  no_code-refused :
      (id : Key) (code : Text) (now : Time) (db : SignDb) (u : Person)
      → find (has_id id) db.people ≡ some u
      → u.phone_verification_code ≡ none
      → confirm_phone_verification libs fallback id code now db
        ≡ thrown ErrorCode.phone_verification_code_invalid
  unfolding confirm_phone_verification
  no_code-refused id code now db u found absent = rw (found, absent) refl

  spent :
      (id : Key) (ss : List Sign) (db : SignDb) (u : Person)
      → find (has_id id) db.people ≡ some u
      → u.phone_verification_code ≡ none
      → all (unasked id) ss ≡ true
      → (code : Text) (now : Time)
      → confirm_phone_verification libs fallback id code now (sign_all libs fallback ss db)
        ≡ thrown ErrorCode.phone_verification_code_invalid
  spent id ss db u found none_left quiet code now =
      let (v, there, k) =
        sign_all-Has id (unasked id) (λ x. x.phone_verification_code ≡ none) (λ x e. e)
          (λ x y c _ _ e. c ∙ e) (λ s h. ground (arith, h)) (λ raw phone country x _ e. e) libs
          fallback ss db quiet (u, found, none_left) in
      no_code-refused id code now _ v there k

  -- The code that is waiting when a confirmation goes through.
  Waits-entered :
      (id : Key) (code entered : Text) (until later : Time) (db : SignDb) (v : Person)
      → find (has_id id) db.people ≡ some v
      → Waits code until v
      → Confirmed id entered later db
      → (entered ≡ code) × (later ≤ until)
  unfolding Waits
  Waits-entered id code entered until later db v there (inl nothing) c =
      let same : c.user ≡ v = some-injective (sym c.found ∙ there) in
      absurd (ground (arith, c.waiting, same, nothing))
  Waits-entered id code entered until later db v there (inr (is_code, lasts)) c =
      let same : c.user ≡ v = some-injective (sym c.found ∙ there) in
      let expires : c.expires ≡ until =
        some-injective (
          sym c.in_time ∙ ap (λ (x : Person). x.phone_verification_code_expires_at) same ∙ lasts) in
      (
        some-injective
            (sym c.waiting ∙ ap (λ (x : Person). x.phone_verification_code) same ∙ is_code),
        ground (arith, c.not_over, expires),
      )

  WaitsFor-entered :
      (id : Key) (entered : Text) (phone : Option Text) (later : Time) (db : SignDb) (u v : Person)
      → find (has_id id) db.people ≡ some u
      → find (has_id id) db.people ≡ some v
      → WaitsFor phone v
      → Confirmed id entered later db
      → u.phone ≡ phone
  unfolding WaitsFor
  WaitsFor-entered id entered phone later db u v read there (inl nothing) c =
      let same : c.user ≡ v = some-injective (sym c.found ∙ there) in
      absurd (ground (arith, c.waiting, same, nothing))
  WaitsFor-entered id entered phone later db u v read there (inr number) c =
      let same : u ≡ v = some-injective (sym read ∙ there) in
      ap (λ (x : Person). x.phone) same ∙ number

  -- After a person has requested a code, and whatever visitors do as long as he requests no other, a
  -- confirmation goes through only with that code and within its ten minutes. His number is then
  -- verified at that instant, and it is the number of the request unless he has given another in
  -- between. Whatever visitors do after it, no confirmation goes through until he requests a code.
  pub confirm_phone_verification-request_phone_verification :
      (id : Key) (raw code : Text) (sent : Bool) (now : Time) (db asked : SignDb)
      (between : List Sign) (entered : Text) (later : Time) (after : SignDb) (rest : List Sign)
      (again : Text) (t : Time)
      → request_phone_verification libs fallback id raw code sent now db ≡ ok asked
      → all (unasked id) between ≡ true
      → confirm_phone_verification libs fallback id entered later
          (sign_all libs fallback between asked)
        ≡ ok after
      → all (unasked id) rest ≡ true
      → (entered ≡ code)
        × (later ≤ now + code_ttl)
        × ((u : Person) × (find (has_id id) after.people ≡ some u)
            × (u.phone_verified_at ≡ some later)
            × ((u.phone ≡ libs.normalize_to_e164 raw) ⊎ (any (renumbers id) between ≡ true)))
        × (confirm_phone_verification libs fallback id again t (sign_all libs fallback rest after)
            ≡ thrown ErrorCode.phone_verification_code_invalid)
  unfolding Waits WaitsFor
  confirm_phone_verification-request_phone_verification id raw code sent now db asked between
        entered later after rest again t h quiet k quiet_after =
      let (phone, known, _, e) =
        request_phone_verification-eq-ok libs fallback id raw code sent now db h in
      let (u, _, there) =
        updated-find id (with_code phone (libs.derive_country phone) code now) db (λ x. refl) e in
      let asking = with_code phone (libs.derive_country phone) code now u in
      let (v, held, w) =
        waiting libs fallback id code (now + code_ttl) between asked asking there (inr (refl, refl))
          quiet in
      let (c, e') =
        confirm_phone_verification-eq-ok libs fallback id entered later
          (sign_all libs fallback between asked) k in
      let (is_code, in_time) =
        Waits-entered id code entered (now + code_ttl) later (sign_all libs fallback between asked)
          v held w c in
      let (x, before', now') =
        updated-find id (with_verified_phone later) (sign_all libs fallback between asked)
          (λ y. refl) e' in
      (
        is_code,
        in_time,
        (
          with_verified_phone later x,
          now',
          refl,
          elim (Bool-cases (any (renumbers id) between)) [
            | inl another ↦ inr another
            | inr none_else ↦
                let (y, held', w') =
                  waiting_for libs fallback id (some phone) between asked asking there (inr refl)
                    (same_numbers id between quiet none_else) in
                inl (
                  WaitsFor-entered id entered (some phone) later
                    (sign_all libs fallback between asked) x y before' held' w' c
                  ∙ sym known)
          ],
        ),
        spent id rest after (with_verified_phone later x) now' refl quiet_after again t,
      )
