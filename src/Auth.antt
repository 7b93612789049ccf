-- ===== src/Auth.antt =====
-- apps/api/src/auth: password-reset.service.ts, and the check of a session in
-- strategies/jwt.strategy.ts. The e-mail of the link, names and the audit are left out.
pub mod Revocation
use fluid_events.Prelude.{
  ℕ, ◌+◌, ◌==◌, ltb, if◌then◌else◌, Bool, true, false, not, ◌&&◌, ◌||◌, Option, none, some, List,
  [], ◌∷◌, find, update_first, Result, ok, thrown, ErrorCode, ◌>>=◌, ◌>>◌, refuse_if, or_fail,
}
use fluid_events.Prelude.Texts.{Text, text_eq}
use fluid_events.Payments.{Key, Time}

pub record Account : Type 0 where
  pub id : Text
  pub email : Text
  pub is_active : Bool
  pub is_guest : Bool
  pub token_version : ℕ
  pub password_hash : Option Key
  pub reset_token_hash : Option Key
  pub reset_token_expires_at : Option Time
  pub reset_requested_at : Option Time
  pub invite_token : Option Key
  pub invite_token_expires_at : Option Time

-- SHA-256 of a secret and bcrypt of a password.
pub record Hashes : Type 0 where
  pub sha : Text → Key
  pub bcrypt : Text → Key

abbrev pub ttl : Time
ttl = 3600000

abbrev pub delai_entre_demandes : Time
delai_entre_demandes = 60000

abbrev pub has_id : Text → Account → Bool
has_id id a = text_eq id a.id

-- A link is the account's identifier, a dot and the secret.
unfoldable pub split_dot : Text → Option (Text × Text)
split_dot [] = none
split_dot (c ∷ s) =
    let rest = split_dot s in
    if c == b'.' then some ([], s) else elim rest [ none ↦ none | some (a, b) ↦ some (c ∷ a, b) ]

abbrev pub is_blank : Text → Bool
is_blank [] = true
is_blank (c ∷ s) = false

abbrev pub too_soon : Time → Option Time → Bool
too_soon now none = false
too_soon now (some t) = ltb now (t + delai_entre_demandes)

abbrev pub is_over : Time → Option Time → Bool
is_over now none = true
is_over now (some t) = ltb t now

abbrev pub is_hash : Key → Option Key → Bool
is_hash h none = false
is_hash h (some k) = h == k

abbrev pub with_link : Key → Time → Account → Account
with_link h now a = record a {
  reset_token_hash = some h;
  reset_token_expires_at = some (now + ttl);
  reset_requested_at = some now;
}

abbrev pub with_password : Key → Account → Account
with_password p a = record a {
  password_hash = some p;
  reset_token_hash = none;
  reset_token_expires_at = none;
  invite_token = none;
  invite_token_expires_at = none;
  token_version = a.token_version + 1;
}

module _ (hashes : Hashes) where
  abbrev pub link_for : Text → Time → List Account → Option Account → List Account
  link_for secret now us none = us
  link_for secret now us (some compte) =
      if not compte.is_active || (compte.is_guest || too_soon now compte.reset_requested_at)
      then us
      else update_first (has_id compte.id) (with_link (hashes.sha secret) now) us

  -- The address is as the source normalises it. The answer is the same in every case.
  unfoldable pub demander : Text → Text → Time → List Account → List Account
  demander adresse secret now us = link_for secret now us (find (λ a. text_eq adresse a.email) us)

  unfoldable pub reinitialiser : Text → Text → Time → List Account → Result (List Account)
  reinitialiser jeton mot_de_passe now us = do
    parts ← or_fail (split_dot jeton) ErrorCode.invite_token_invalid
    refuse_if (is_blank parts.0 || is_blank parts.1) ErrorCode.invite_token_invalid
    compte ← or_fail (find (has_id parts.0) us) ErrorCode.invite_token_invalid
    refuse_if (not compte.is_active || compte.is_guest) ErrorCode.invite_token_invalid
    refuse_if (not (is_hash (hashes.sha parts.1) compte.reset_token_hash))
        ErrorCode.invite_token_invalid
    refuse_if (is_over now compte.reset_token_expires_at) ErrorCode.invite_token_expired
    ok (update_first (has_id compte.id) (with_password (hashes.bcrypt mot_de_passe)) us)

-- The claims of a session's token that are tested, and whether it names a role.
pub record JwtPayload : Type 0 where
  pub sub : Text
  pub email : Text
  pub has_role : Bool
  pub tv : Option ℕ

abbrev pub version_of : Option ℕ → ℕ
version_of none = 0
version_of (some n) = n

unfoldable pub validate : JwtPayload → List Account → Result Text
validate payload us = do
  refuse_if (is_blank payload.sub || (is_blank payload.email || not payload.has_role))
      ErrorCode.unauthorized
  compte ← or_fail (find (has_id payload.sub) us) ErrorCode.unauthorized
  refuse_if (not compte.is_active) ErrorCode.account_disabled
  refuse_if (not (version_of payload.tv == compte.token_version)) ErrorCode.session_revoked
  ok payload.sub
