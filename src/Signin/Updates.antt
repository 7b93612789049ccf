-- ===== src/Signin/Updates.antt =====
-- What the calls on phone numbers have checked when they go through.
use fluid_events.Prelude.{
  ltb, Bool, true, false, not, some, find, update_first, ok, ErrorCode, refuse_if, >>=-eq-ok,
  or_fail->>=-eq-ok, refuse_if-eq-ok, ◌≡◌, arith,
}
use fluid_events.Prelude.Texts.{Text, text_eq, text_eq-eq}
use fluid_events.Payments.{Key, Time}
use fluid_events.Signin.{
  Person, SignDb, Libraries, has_id, update_person, with_code, with_verified_phone,
  request_phone_verification, confirm_phone_verification,
}

-- The row that an update by identifier leaves.
pub update_person-eq-ok :
    (id : Key) (f : Person → Person) (db : SignDb) {after : SignDb}
    → update_person id f db ≡ ok after
    → (u : Person) × (find (has_id id) db.people ≡ some u)
      × (record db { people = update_first (has_id id) f db.people } ≡ after)
update_person-eq-ok id f db h =
    let (u, found, k) =
      or_fail->>=-eq-ok (find (has_id id) db.people) ErrorCode.internal_error _ h in
    (u, found, ok-injective k)
  where
    ok-injective : {x y : SignDb} → ok x ≡ ok y → x ≡ y
    ok-injective e = cc

-- A code that is waiting, is in time and is the one that is sent.
pub record Confirmed (id : Key) (code : Text) (now : Time) (db : SignDb) : Type 0 where
  pub user : Person
  pub found : find (has_id id) db.people ≡ some user
  pub waiting : user.phone_verification_code ≡ some code
  pub expires : Time
  pub in_time : user.phone_verification_code_expires_at ≡ some expires
  pub not_over : ltb expires now ≡ false

module _ (libs : Libraries) (fallback : Text) where
  pub request_phone_verification-eq-ok :
      (id : Key) (raw code : Text) (sent : Bool) (now : Time) (db : SignDb) {after : SignDb}
      → request_phone_verification libs fallback id raw code sent now db ≡ ok after
      → (phone : Text) × (libs.normalize_to_e164 raw ≡ some phone)
        × (sent ≡ true)
        × (update_person id (with_code phone (libs.derive_country phone) code now) db ≡ ok after)
  unfolding request_phone_verification
  request_phone_verification-eq-ok id raw code sent now db e =
      let (phone, known, e1) =
        or_fail->>=-eq-ok (libs.normalize_to_e164 raw) ErrorCode.phone_invalid _ e in
      let (_, left, e2) =
        >>=-eq-ok (refuse_if (not sent) ErrorCode.phone_verification_unavailable) _ e1 in
      let is_sent = refuse_if-eq-ok (not sent) ErrorCode.phone_verification_unavailable left in
      (phone, known, ground (arith, is_sent), e2)

  pub confirm_phone_verification-eq-ok :
      (id : Key) (code : Text) (now : Time) (db : SignDb) {after : SignDb}
      → confirm_phone_verification libs fallback id code now db ≡ ok after
      → Confirmed id code now db × (update_person id (with_verified_phone now) db ≡ ok after)
  unfolding confirm_phone_verification
  confirm_phone_verification-eq-ok id code now db e =
      let (u, found, e1) =
        or_fail->>=-eq-ok (find (has_id id) db.people) ErrorCode.phone_verification_code_invalid _
          e in
      let (w, waiting, e2) =
        or_fail->>=-eq-ok u.phone_verification_code ErrorCode.phone_verification_code_invalid _
          e1 in
      let (x, expires, e3) =
        or_fail->>=-eq-ok u.phone_verification_code_expires_at
          ErrorCode.phone_verification_code_invalid _ e2 in
      let (_, late, e4) =
        >>=-eq-ok (refuse_if (ltb x now) ErrorCode.phone_verification_code_expired) _ e3 in
      let (_, same, e5) =
        >>=-eq-ok (refuse_if (not (text_eq w code)) ErrorCode.phone_verification_code_invalid) _
          e4 in
      let equal =
        refuse_if-eq-ok (not (text_eq w code)) ErrorCode.phone_verification_code_invalid same in
      let is_code : w ≡ code = text_eq-eq w code (ground (arith, equal)) in
      (
        record {
          user = u;
          found = found;
          waiting = rw (← is_code) waiting;
          expires = x;
          in_time = expires;
          not_over = refuse_if-eq-ok (ltb x now) ErrorCode.phone_verification_code_expired late;
        },
        e5,
      )
