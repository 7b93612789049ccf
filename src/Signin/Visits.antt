-- ===== src/Signin/Visits.antt =====
-- The calls of visitors that write (`apps/api/src/auth/auth-orchestrator.service.ts`), one after another,
-- and what each of them makes of the accounts.
use fluid_events.Prelude.{
  ◌+◌, Bool, Option, none, some, List, [], ◌∷◌, any, find, update_first, Result, ok, thrown,
  ErrorCode, refuse_if, >>=-eq-ok, or_fail->>=-eq-ok, ◌≡◌, refl, ◌⊎◌, inl, inr, Bool-cases, sym,
}
use fluid_events.Prelude.Texts.{Text}
use fluid_events.Payments.{Key, Time}
use fluid_events.Signin.{
  Person, SignDb, Libraries, GoogleProfile, has_id, has_google, has_email, is_text, newcomer,
  refreshed, update_person, with_invited_password, with_phone, with_code, with_verified_phone,
  is_over, known_or_new, signed_in, login_with_google, set_password, save_phone,
  request_phone_verification, confirm_phone_verification,
}
use fluid_events.Signin.Updates.{
  update_person-eq-ok, confirm_phone_verification-eq-ok, request_phone_verification-eq-ok,
}

-- The calls, with what they depend on: the instant, and whether a message has left.
pub data Sign : Type 0 where
  google : GoogleProfile → Option Text → Bool → Time → Sign
  sets_password : Text → Text → Time → Sign
  saves_phone : Key → Text → Sign
  requests_code : Key → Text → Text → Bool → Time → Sign
  confirms_code : Key → Text → Time → Sign

abbrev pub left_by : Result SignDb → SignDb → SignDb
left_by (thrown code) db = db
left_by (ok after) db = after

-- What a call makes of the first account that passes a test.
pub data Effect : Sign → (Person → Bool) → (Person → Person) → Type 0 where
  refreshes :
      (profile : GoogleProfile) (slug : Option Text) (b : Bool) (now : Time)
      → Effect (Sign.google profile slug b now) (has_google profile.google_id) (refreshed profile)
  invited :
      (token password : Text) (now : Time) (id hash : Key)
      → Effect (Sign.sets_password token password now) (has_id id) (with_invited_password hash)
  saved :
      (id : Key) (raw phone : Text) (country : Option Text)
      → Effect (Sign.saves_phone id raw) (has_id id) (with_phone phone country)
  requested :
      (id : Key) (raw code : Text) (sent : Bool) (now : Time) (phone : Text) (country : Option Text)
      → Effect
          (Sign.requests_code id raw code sent now)
          (has_id id)
          (with_code phone country code now)
  confirmed :
      (id : Key) (code : Text) (now : Time)
      → Effect (Sign.confirms_code id code now) (has_id id) (with_verified_phone now)

-- A call leaves the accounts alone, changes one of them, or adds a newcomer.
unfoldable pub Leaves : Sign → SignDb → SignDb → Type 0
Leaves s db after =
    (after ≡ db)
    ⊎ ((p : Person → Bool) × (f : Person → Person) × Effect s p f
        × (after ≡ record db { people = update_first p f db.people }))
    ⊎ ((profile : GoogleProfile) × (b : Bool) × (after ≡ record db {
      people = newcomer db.next_id profile b ∷ db.people;
      next_id = db.next_id + 1;
    }))

module _ (libs : Libraries) (fallback : Text) where
  unfoldable pub sign : Sign → SignDb → SignDb
  sign (Sign.google profile slug becomes_manager now) db =
      (login_with_google libs fallback profile slug becomes_manager now db).1
  sign (Sign.sets_password token password now) db =
      left_by (set_password libs fallback token password now db) db
  sign (Sign.saves_phone id raw) db = left_by (save_phone libs fallback id raw db) db
  sign (Sign.requests_code id raw code sent now) db =
      left_by (request_phone_verification libs fallback id raw code sent now db) db
  sign (Sign.confirms_code id code now) db =
      left_by (confirm_phone_verification libs fallback id code now db) db

  unfoldable pub sign_all : List Sign → SignDb → SignDb
  sign_all [] db = db
  sign_all (s ∷ rest) db = sign_all rest (sign s db)

  left_by-Leaves :
      (s : Sign) (r : Result SignDb) (db : SignDb)
      → ((after : SignDb) → r ≡ ok after → Leaves s db after)
      → Leaves s db (left_by r db)
  unfolding Leaves
  left_by-Leaves s (thrown code) db step = inl refl
  left_by-Leaves s (ok after) db step = step after refl

  -- A successful update by identifier.
  update_person-Leaves :
      (s : Sign) (id : Key) (f : Person → Person) (db after : SignDb)
      → Effect s (has_id id) f
      → update_person id f db ≡ ok after
      → Leaves s db after
  unfolding Leaves
  update_person-Leaves s id f db after effect e =
      let (_, _, same) = update_person-eq-ok id f db e in inr (inl (has_id id, f, effect, sym same))

  google-Leaves :
      (profile : GoogleProfile) (slug : Option Text) (b : Bool) (now : Time) (o : Option Person)
      (db : SignDb)
      → Leaves
          (Sign.google profile slug b now)
          db
          (signed_in libs fallback slug now db (known_or_new libs fallback profile b o db)).1
  unfolding Leaves
  google-Leaves profile slug b now (some u) db = inr (
      inl (
        has_google profile.google_id,
        refreshed profile,
        Effect.refreshes profile slug b now,
        refl,
      ))
  google-Leaves profile slug b now none db =
      elim (Bool-cases (any (has_email profile.email) db.people)) [
        | inl taken ↦ rw taken (inl refl)
        | inr free ↦ rw free (inr (inr (profile, b, refl)))
      ]

  pub sign-Leaves : (s : Sign) (db : SignDb) → Leaves s db (sign s db)
  unfolding sign login_with_google set_password save_phone
  sign-Leaves (Sign.google profile slug b now) db =
      google-Leaves profile slug b now (find (has_google profile.google_id) db.people) db
  sign-Leaves (Sign.sets_password token password now) db =
      let s = Sign.sets_password token password now in
      left_by-Leaves s (set_password libs fallback token password now db) db (λ after e.
        let (u, _, e1) =
          or_fail->>=-eq-ok (find (λ u. is_text token u.invite_token) db.people)
            ErrorCode.invite_token_invalid _ e in
        let (_, _, e2) =
          >>=-eq-ok
            (refuse_if (is_over now u.invite_token_expires_at) ErrorCode.invite_token_expired) _
            e1 in
        update_person-Leaves s u.id (with_invited_password (libs.hash password)) db after
          (Effect.invited token password now u.id (libs.hash password)) e2)
  sign-Leaves (Sign.saves_phone id raw) db =
      let s = Sign.saves_phone id raw in
      left_by-Leaves s (save_phone libs fallback id raw db) db (λ after e.
        let (phone, _, e1) =
          or_fail->>=-eq-ok (libs.normalize_to_e164 raw) ErrorCode.phone_invalid _ e in
        update_person-Leaves s id (with_phone phone (libs.derive_country phone)) db after
          (Effect.saved id raw phone (libs.derive_country phone)) e1)
  sign-Leaves (Sign.requests_code id raw code sent now) db =
      let s = Sign.requests_code id raw code sent now in
      left_by-Leaves s (request_phone_verification libs fallback id raw code sent now db) db
        (λ after e.
          let (phone, _, _, e2) =
            request_phone_verification-eq-ok libs fallback id raw code sent now db e in
          update_person-Leaves s id (with_code phone (libs.derive_country phone) code now) db after
            (Effect.requested id raw code sent now phone (libs.derive_country phone)) e2)
  sign-Leaves (Sign.confirms_code id code now) db =
      let s = Sign.confirms_code id code now in
      left_by-Leaves s (confirm_phone_verification libs fallback id code now db) db (λ after e.
        let (_, e1) = confirm_phone_verification-eq-ok libs fallback id code now db e in
        update_person-Leaves s id (with_verified_phone now) db after (Effect.confirmed id code now)
          e1)
