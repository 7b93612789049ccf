-- ===== src/Signin.antt =====
-- apps/api/src/auth: auth-orchestrator.service.ts, the ways to sign in and the verification of a phone
-- number, and auth.service.ts, the claims of the tokens. The audit is left out, as are `getCurrentUser`,
-- which reads, and the texts of messages.
pub mod Updates
pub mod Visits
pub mod Codes
pub mod Roles
pub mod Phone
pub mod Sessions
use fluid_events.Prelude.{
  ℕ, ◌+◌, ◌-◌, ◌*◌, ◌/◌, ◌==◌, ltb, max, if◌then◌else◌, Bool, true, false, not, ◌&&◌, ◌||◌, Option,
  none, some, List, [], ◌∷◌, ◌++◌, any, find, update_first, Result, ok, thrown, ErrorCode, ◌>>=◌,
  ◌>>◌, refuse_if, or_fail,
}
use fluid_events.Prelude.Texts.{Text, codes, text_eq}
use fluid_events.Payments.{Key, Time, EventStatus}
use fluid_events.Payments.Init.{is_published}
use fluid_events.Access.{Role}
use fluid_events.Utils.{parse_duration_to_seconds, decimal}

pub record Person : Type 0 where
  pub id : Key
  pub email : Text
  pub google_id : Option Text
  pub name : Option Text
  pub avatar_url : Option Text
  pub role : Role
  pub is_active : Bool
  pub is_self_service : Bool
  pub subscription_active : Bool
  pub password_hash : Option Key
  pub token_version : ℕ
  pub invite_token : Option Text
  pub invite_token_expires_at : Option Time
  pub phone : Option Text
  pub country : Option Text
  pub phone_verification_code : Option Text
  pub phone_verification_code_expires_at : Option Time
  pub phone_verified_at : Option Time

pub record ScannerRow : Type 0 where
  pub user_id : Key
  pub event_id : Key
  pub is_active : Bool
  pub event_end : Time

pub record ShownEvent : Type 0 where
  pub status : EventStatus
  pub end_date : Time

pub record SignDb : Type 0 where
  pub people : List Person
  pub scanners : List ScannerRow
  pub by_slug : Text → Option ShownEvent
  pub next_id : Key

-- The claims of a token, before it is signed; `exp` is in seconds.
pub record Claims : Type 0 where
  pub sub : Key
  pub email : Text
  pub role : Role
  pub event_id : Option Key
  pub session_expires_at : Option ℕ
  pub tv : ℕ
  pub iat : ℕ
  pub exp : ℕ

pub record RefreshClaims : Type 0 where
  pub sub : Key
  pub tv : Option ℕ
  pub session_expires_at : Option ℕ
  pub expires_in : Text

pub record TokenPair : Type 0 where
  pub access : Claims
  pub refresh : RefreshClaims

-- Node's bcrypt, jsonwebtoken's `verify`, libphonenumber and the e-mail's lower case.
pub record Libraries : Type 0 where
  pub hash : Text → Key
  pub compare_hash : Text → Key → Bool
  pub verify_refresh : Text → Option RefreshClaims
  pub verify_access : Text → Option Claims
  pub normalize_to_e164 : Text → Option Text
  pub derive_country : Text → Option Text
  pub lower : Text → Text

abbrev pub has_id : Key → Person → Bool
has_id id u = u.id == id

abbrev pub is_text : Text → Option Text → Bool
is_text t none = false
is_text t (some s) = text_eq s t

abbrev pub has_google : Text → Person → Bool
has_google g u = is_text g u.google_id

abbrev pub has_email : Text → Person → Bool
has_email e u = text_eq u.email e

abbrev pub same_role : Role → Role → Bool
same_role Role.super_admin Role.super_admin = true
same_role Role.manager Role.manager = true
same_role Role.scanner Role.scanner = true
same_role Role.client Role.client = true
same_role _ _ = false

-- The claims of tokens.
abbrev pub session_grace_seconds : ℕ
session_grace_seconds = 24 * 60 * 60

abbrev pub min_session_seconds : ℕ
min_session_seconds = 3600

abbrev pub scanner_grace_seconds : ℕ
scanner_grace_seconds = 60 * 60

abbrev pub version_of_person : Option Person → ℕ
version_of_person none = 0
version_of_person (some u) = u.token_version

abbrev pub version_des_jetons : Key → SignDb → ℕ
version_des_jetons id db = version_of_person (find (has_id id) db.people)

-- `Math.ceil` of milliseconds in seconds.
abbrev pub ceil_seconds : Time → ℕ
ceil_seconds ms = (ms + 999) / 1000

-- How long a client's session lasts, as a duration, and when the event's session is over.
unfoldable pub session_of : Text → Time → Option ShownEvent → Text × Option ℕ
session_of fallback now none = (fallback, none)
session_of fallback now (some e) =
    if is_published e.status && ltb now (e.end_date + session_grace_seconds * 1000)
    then (
      decimal (
            max (ceil_seconds (e.end_date + session_grace_seconds * 1000 - now))
              min_session_seconds)
          ++ codes "s",
      some (e.end_date / 1000 + session_grace_seconds),
    )
    else (fallback, none)

abbrev slug_event : Option Text → SignDb → Option ShownEvent
slug_event none db = none
slug_event (some []) db = none
slug_event (some (c ∷ s)) db = db.by_slug (c ∷ s)

unfoldable pub token_pair : Person → ℕ → Time → Text × Option ℕ → TokenPair
token_pair user tv now session = record {
  access = record {
    sub = user.id;
    email = user.email;
    role = user.role;
    event_id = none;
    session_expires_at = session.1;
    tv = tv;
    iat = now / 1000;
    exp = now / 1000 + parse_duration_to_seconds session.0;
  };
  refresh = record {
    sub = user.id;
    tv = some tv;
    session_expires_at = session.1;
    expires_in = session.0;
  };
}

-- `fallback` is the environment's JWT_EXPIRES_IN.
unfoldable pub generate_client_token : Text → Person → Option Text → Time → SignDb → TokenPair
generate_client_token fallback user slug now db =
    token_pair user (version_des_jetons user.id db) now
      (session_of fallback now (slug_event slug db))

-- A difference below zero is lost in the minimum.
unfoldable pub generate_scanner_token : Person → Key → Time → Time → SignDb → Claims
generate_scanner_token user event_id event_end now db = record {
  sub = user.id;
  email = user.email;
  role = Role.scanner;
  event_id = some event_id;
  session_expires_at = none;
  tv = version_des_jetons user.id db;
  iat = now / 1000;
  exp =
      now / 1000
      + max (ceil_seconds (event_end + scanner_grace_seconds * 1000 - now)) min_session_seconds;
}

pub record GoogleProfile : Type 0 where
  pub google_id : Text
  pub email : Text
  pub name : Option Text
  pub avatar_url : Option Text

abbrev or_kept_some : Option Text → Option Text → Option Text
or_kept_some none old = old
or_kept_some (some new) old = some new

-- A person who was not there before.
unfoldable pub newcomer : Key → GoogleProfile → Bool → Person
newcomer id profile becomes_manager = record {
  id = id;
  email = profile.email;
  google_id = some profile.google_id;
  name = profile.name;
  avatar_url = profile.avatar_url;
  role = if becomes_manager then Role.manager else Role.client;
  is_active = true;
  is_self_service = becomes_manager;
  subscription_active = false;
  password_hash = none;
  token_version = 0;
  invite_token = none;
  invite_token_expires_at = none;
  phone = none;
  country = none;
  phone_verification_code = none;
  phone_verification_code_expires_at = none;
  phone_verified_at = none;
}

abbrev pub refreshed : GoogleProfile → Person → Person
refreshed profile u = record u {
  name = or_kept_some profile.name u.name;
  avatar_url = or_kept_some profile.avatar_url u.avatar_url;
}

abbrev pub with_invited_password : Key → Person → Person
with_invited_password h u = record u {
  password_hash = some h;
  invite_token = none;
  invite_token_expires_at = none;
}

abbrev pub is_over : Time → Option Time → Bool
is_over now none = true
is_over now (some t) = ltb t now

abbrev pub scanner_of : Key → ScannerRow → Bool
scanner_of id s = s.user_id == id && s.is_active

abbrev pub with_phone : Text → Option Text → Person → Person
with_phone phone country u = record u { phone = some phone; country = country }

abbrev pub code_ttl : Time
code_ttl = 10 * 60 * 1000

abbrev pub with_code : Text → Option Text → Text → Time → Person → Person
with_code phone country code now u = record u {
  phone = some phone;
  country = country;
  phone_verification_code = some code;
  phone_verification_code_expires_at = some (now + code_ttl);
  phone_verified_at = none;
}

abbrev pub with_verified_phone : Time → Person → Person
with_verified_phone now u = record u {
  phone_verified_at = some now;
  phone_verification_code = none;
  phone_verification_code_expires_at = none;
}

-- `update` by a unique identifier; a row that is not there is an exception of the database.
abbrev pub update_person : Key → (Person → Person) → SignDb → Result SignDb
update_person id f db = or_fail (find (has_id id) db.people) ErrorCode.internal_error >>= λ u.
    ok (record db { people = update_first (has_id id) f db.people })

-- A token from before versions is of version 0.
abbrev pub claimed_version : Option ℕ → ℕ
claimed_version none = 0
claimed_version (some v) = v

module _ (libs : Libraries) (fallback : Text) where
  -- The account is found by its Google identifier, or made; an address that another account has is
  -- an exception of the database.
  abbrev pub known_or_new : GoogleProfile → Bool → Option Person → SignDb → Result (Person × SignDb)
  known_or_new profile becomes_manager (some u) db = ok (
    refreshed profile u,
    record db {
      people = update_first (has_google profile.google_id) (refreshed profile) db.people;
    },
  )
  known_or_new profile becomes_manager none db =
      refuse_if (any (has_email profile.email) db.people) ErrorCode.internal_error
      >> ok (
        newcomer db.next_id profile becomes_manager,
        record db {
          people = newcomer db.next_id profile becomes_manager ∷ db.people;
          next_id = db.next_id + 1;
        },
      )

  abbrev pub signed_in :
      Option Text → Time → SignDb → Result (Person × SignDb) → Result TokenPair × SignDb
  signed_in slug now db (thrown code) = (thrown code, db)
  signed_in slug now db (ok (u, after)) = (
    refuse_if (not u.is_active) ErrorCode.forbidden
        >> ok (generate_client_token fallback u slug now after),
    after,
  )

  -- What is written stays written when a disabled account is refused.
  unfoldable pub login_with_google :
      GoogleProfile → Option Text → Bool → Time → SignDb → Result TokenPair × SignDb
  login_with_google profile slug becomes_manager now db =
      signed_in slug now db
        (known_or_new profile becomes_manager (find (has_google profile.google_id) db.people) db)

  unfoldable pub set_password : Text → Text → Time → SignDb → Result SignDb
  set_password token password now db = do
    user ←
        or_fail (find (λ u. is_text token u.invite_token) db.people) ErrorCode.invite_token_invalid
    refuse_if (is_over now user.invite_token_expires_at) ErrorCode.invite_token_expired
    update_person user.id (with_invited_password (libs.hash password)) db

  unfoldable pub login_scanner : Text → Text → Time → SignDb → Result Claims
  login_scanner email password now db = do
    user ← or_fail (find (has_email (libs.lower email)) db.people) ErrorCode.unauthorized
    refuse_if (not (same_role user.role Role.scanner)) ErrorCode.unauthorized
    hash ← or_fail user.password_hash ErrorCode.unauthorized
    refuse_if (not user.is_active) ErrorCode.forbidden
    refuse_if (not (libs.compare_hash password hash)) ErrorCode.unauthorized
    scanner ← or_fail (find (scanner_of user.id) db.scanners) ErrorCode.scanner_not_active
    ok (generate_scanner_token user scanner.event_id scanner.event_end now db)

  unfoldable pub login : Text → Text → Time → SignDb → Result TokenPair
  login email password now db = do
    user ← or_fail (find (has_email (libs.lower email)) db.people) ErrorCode.unauthorized
    hash ← or_fail user.password_hash ErrorCode.unauthorized
    refuse_if (same_role user.role Role.scanner) ErrorCode.unauthorized
    refuse_if (not user.is_active) ErrorCode.forbidden
    refuse_if (not (libs.compare_hash password hash)) ErrorCode.unauthorized
    ok (generate_client_token fallback user none now db)

  unfoldable pub refresh_tokens : Text → Time → SignDb → Result TokenPair
  refresh_tokens token now db = do
    payload ← or_fail (libs.verify_refresh token) ErrorCode.token_expired
    user ← or_fail (find (has_id payload.sub) db.people) ErrorCode.unauthorized
    refuse_if (not user.is_active) ErrorCode.unauthorized
    refuse_if (not (claimed_version payload.tv == user.token_version)) ErrorCode.session_revoked
    ok (generate_client_token fallback user none now db)

  unfoldable pub save_phone : Key → Text → SignDb → Result SignDb
  save_phone id raw db = do
    phone ← or_fail (libs.normalize_to_e164 raw) ErrorCode.phone_invalid
    update_person id (with_phone phone (libs.derive_country phone)) db

  -- `sent` is whether the message with the code has left.
  unfoldable pub request_phone_verification :
      Key → Text → Text → Bool → Time → SignDb → Result SignDb
  request_phone_verification id raw code sent now db = do
    phone ← or_fail (libs.normalize_to_e164 raw) ErrorCode.phone_invalid
    refuse_if (not sent) ErrorCode.phone_verification_unavailable
    update_person id (with_code phone (libs.derive_country phone) code now) db

  -- The empty code, which is no code, is not made by the request.
  unfoldable pub confirm_phone_verification : Key → Text → Time → SignDb → Result SignDb
  confirm_phone_verification id code now db = do
    user ← or_fail (find (has_id id) db.people) ErrorCode.phone_verification_code_invalid
    waiting ← or_fail user.phone_verification_code ErrorCode.phone_verification_code_invalid
    expires ←
        or_fail user.phone_verification_code_expires_at ErrorCode.phone_verification_code_invalid
    refuse_if (ltb expires now) ErrorCode.phone_verification_code_expired
    refuse_if (not (text_eq waiting code)) ErrorCode.phone_verification_code_invalid
    update_person id (with_verified_phone now) db

  abbrev is_filled : Text → Bool
  is_filled [] = false
  is_filled (c ∷ t) = true

  unfoldable pub stop_impersonation : Option Text → Result Text
  stop_impersonation token = do
    impersonator ← or_fail token ErrorCode.not_impersonating
    refuse_if (not (is_filled impersonator)) ErrorCode.not_impersonating
    payload ← or_fail (libs.verify_access impersonator) ErrorCode.token_expired
    refuse_if (not (same_role payload.role Role.super_admin)) ErrorCode.unauthorized
    ok impersonator
