-- ===== src/Signin/Sessions.antt =====
-- How long the sessions last, and when one is renewed (`apps/api/src/auth`).
use fluid_events.Prelude.{
  ℕ, ◌+◌, ◌-◌, ◌*◌, ◌/◌, ◌≤◌, ◌<◌, ◌==◌, ltb, max, true, not, Option, none, some, ◌++◌, find,
  find-holds, ok, ErrorCode, refuse_if, refuse_if-eq-ok, >>=-eq-ok, or_fail->>=-eq-ok, ◌≡◌, refl,
  ◌↔◌, ◌⊎◌, inl, inr, arith, Bool-cases, subst, ap, sym, ◌∙◌, lt→ltb, ltb→lt,
}
use fluid_events.Prelude.Texts.{Text, codes}
use fluid_events.Payments.{Key, Time}
use fluid_events.Payments.Init.{is_published}
use fluid_events.Utils.{decimal}
use fluid_events.Utils.Duration.{parse_duration_to_seconds-decimal}
use fluid_events.Signin.{
  Person, ShownEvent, SignDb, Claims, RefreshClaims, TokenPair, Libraries, has_id,
  version_des_jetons, ceil_seconds, session_of, session_grace_seconds, min_session_seconds,
  slug_event, token_pair, generate_client_token, scanner_grace_seconds, generate_scanner_token,
  claimed_version, refresh_tokens,
}

-- A token that lasts until an end that is given in milliseconds, to the second, and for an hour at
-- least.
pub record LastsUntil (end : Time) (c : Claims) : Type 0 where
  pub an_hour : c.iat + 3600 ≤ c.exp
  pub not_before : end < 1000 * (c.exp + 1)
  pub not_after : (c.exp ≡ c.iat + 3600) ⊎ (1000 * c.exp < end + 1000)

-- The arithmetic of rounding both instants.
rounded :
    (now end : ℕ)
    → now < end
    → (now / 1000 + 3600 ≤ now / 1000 + max ((end - now + 999) / 1000) 3600)
      × (end < 1000 * (now / 1000 + max ((end - now + 999) / 1000) 3600 + 1))
      × ((now / 1000 + max ((end - now + 999) / 1000) 3600 ≡ now / 1000 + 3600)
          ⊎ (1000 * (now / 1000 + max ((end - now + 999) / 1000) 3600) < end + 1000))
rounded now end h = (
  omega arith,
  omega arith,
  elim (Bool-cases (ltb 3600 ((end - now + 999) / 1000))) [
    | inl long ↦ inr (omega (arith, ltb→lt 3600 ((end - now + 999) / 1000) long))
    | inr short ↦ inl (ground (arith, short))
  ],
)

-- The session of an event that is published and not over.
lasting : ShownEvent → Time → Text × Option ℕ
lasting e now = (
  decimal (max (ceil_seconds (e.end_date + session_grace_seconds * 1000 - now)) min_session_seconds)
      ++ codes "s",
  some (e.end_date / 1000 + session_grace_seconds),
)

session_of-lasting :
    (fallback : Text) (now : Time) (e : ShownEvent)
    → is_published e.status ≡ true
    → now < e.end_date + session_grace_seconds * 1000
    → session_of fallback now (some e) ≡ lasting e now
unfolding session_of lasting
session_of-lasting fallback now e published soon =
    let open' = lt→ltb now (e.end_date + session_grace_seconds * 1000) soon in
    rw (published, open') refl

lasting-LastsUntil :
    (user : Person) (tv : ℕ) (now : Time) (e : ShownEvent)
    → now < e.end_date + session_grace_seconds * 1000
    → LastsUntil
        (e.end_date + session_grace_seconds * 1000)
        (token_pair user tv now (lasting e now)).access
unfolding token_pair lasting
lasting-LastsUntil user tv now e soon =
    let seconds =
      max (ceil_seconds (e.end_date + session_grace_seconds * 1000 - now)) min_session_seconds in
    let (a, b, c) = rounded now (e.end_date + session_grace_seconds * 1000) soon in
    let same = parse_duration_to_seconds-decimal seconds in
    record { an_hour = rw same a; not_before = rw same b; not_after = rw same c }

-- A client's token for an event that is published and whose day of grace is not over lasts until the
-- end of that day, to the second, and for an hour at least.
pub generate_client_token-LastsUntil :
    (fallback : Text) (user : Person) (slug : Option Text) (now : Time) (db : SignDb)
    (e : ShownEvent)
    → slug_event slug db ≡ some e
    → is_published e.status ≡ true
    → now < e.end_date + session_grace_seconds * 1000
    → LastsUntil
        (e.end_date + session_grace_seconds * 1000)
        (generate_client_token fallback user slug now db).access
unfolding generate_client_token token_pair session_of
generate_client_token-LastsUntil fallback user slug now db e found published soon =
    subst
      (λ session.
        LastsUntil (e.end_date + session_grace_seconds * 1000)
          (token_pair user (version_des_jetons user.id db) now session).access)
      (sym (ap (session_of fallback now) found ∙ session_of-lasting fallback now e published soon))
      (lasting-LastsUntil user (version_des_jetons user.id db) now e soon)

-- An agent's token lasts until an hour after the event, to the second, and for an hour at least.
pub generate_scanner_token-LastsUntil :
    (user : Person) (event : Key) (event_end now : Time) (db : SignDb)
    → now < event_end + scanner_grace_seconds * 1000
    → LastsUntil
        (event_end + scanner_grace_seconds * 1000)
        (generate_scanner_token user event event_end now db)
unfolding generate_scanner_token
generate_scanner_token-LastsUntil user event event_end now db soon =
    let (a, b, c) = rounded now (event_end + scanner_grace_seconds * 1000) soon in
    record { an_hour = a; not_before = b; not_after = c }

-- A session that may be renewed.
pub record Current (claims : RefreshClaims) (user : Person) (db : SignDb) : Type 0 where
  pub found : find (has_id claims.sub) db.people ≡ some user
  pub active : user.is_active ≡ true
  pub version : claimed_version claims.tv ≡ user.token_version

-- Tokens that speak for an account as it is now.
pub record SpeaksFor (user : Person) (now : Time) (pair : TokenPair) : Type 0 where
  pub sub : pair.access.sub ≡ user.id
  pub email : pair.access.email ≡ user.email
  pub role : pair.access.role ≡ user.role
  pub version : pair.access.tv ≡ user.token_version
  pub since : pair.access.iat ≡ now / 1000
  pub refreshed_sub : pair.refresh.sub ≡ user.id
  pub refreshed_version : pair.refresh.tv ≡ some user.token_version

generate_client_token-SpeaksFor :
    (fallback : Text) (id : Key) (user : Person) (now : Time) (db : SignDb)
    → find (has_id id) db.people ≡ some user
    → SpeaksFor user now (generate_client_token fallback user none now db)
unfolding generate_client_token token_pair
generate_client_token-SpeaksFor fallback id user now db found =
    let same : user.id ≡ id = ground (arith, find-holds (has_id id) db.people found) in
    let there : find (has_id user.id) db.people ≡ some user =
      subst (λ i. find (has_id i) db.people ≡ some user) (sym same) found in
    record {
      sub = refl;
      email = refl;
      role = refl;
      version = rw there refl;
      since = refl;
      refreshed_sub = refl;
      refreshed_version = rw there refl;
    }

-- A refresh token is answered with new tokens exactly when it is genuine and its account is there,
-- active, and still of the version of the token. The new tokens are those that signing in without
-- an event gives to that account: both name it and carry its present version, and the access token
-- carries its present role and e-mail address and begins now.
pub refresh_tokens-Current :
    (libs : Libraries) (fallback token : Text) (now : Time) (db : SignDb) (pair : TokenPair)
    → (refresh_tokens libs fallback token now db ≡ ok pair) ↔ (
        (claims : RefreshClaims) × (user : Person) × (libs.verify_refresh token ≡ some claims)
        × Current claims user db
        × (generate_client_token fallback user none now db ≡ pair)
        × SpeaksFor user now pair)
unfolding refresh_tokens generate_client_token token_pair
refresh_tokens-Current libs fallback token now db pair = (
  renewed,
  λ (claims, user, genuine, c, same, _).
      let same_version : (claimed_version claims.tv == user.token_version) ≡ true =
        ground (arith, c.version) in
      rw (genuine, c.found, c.active, same_version, same) refl,
)
  where
    ok-injective : {x y : TokenPair} → ok x ≡ ok y → x ≡ y
    ok-injective e = cc

    renewed :
        refresh_tokens libs fallback token now db ≡ ok pair
        → (claims : RefreshClaims) × (user : Person) × (libs.verify_refresh token ≡ some claims)
          × Current claims user db
          × (generate_client_token fallback user none now db ≡ pair)
          × SpeaksFor user now pair
    renewed h =
        let (claims, genuine, h1) =
          or_fail->>=-eq-ok (libs.verify_refresh token) ErrorCode.token_expired _ h in
        let (user, found, h2) =
          or_fail->>=-eq-ok (find (has_id claims.sub) db.people) ErrorCode.unauthorized _ h1 in
        let (_, active, h3) =
          >>=-eq-ok (refuse_if (not user.is_active) ErrorCode.unauthorized) _ h2 in
        let (_, same, h4) =
          >>=-eq-ok
            (refuse_if (not (claimed_version claims.tv == user.token_version))
              ErrorCode.session_revoked)
            _ h3 in
        let a = refuse_if-eq-ok (not user.is_active) ErrorCode.unauthorized active in
        let v =
          refuse_if-eq-ok (not (claimed_version claims.tv == user.token_version))
            ErrorCode.session_revoked same in
        (
          claims,
          user,
          genuine,
          record { found = found; active = ground (arith, a); version = ground (arith, v) },
          ok-injective h4,
          subst (SpeaksFor user now) (ok-injective h4)
              (generate_client_token-SpeaksFor fallback claims.sub user now db found),
        )
