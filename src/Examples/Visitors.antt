-- ===== src/Examples/Visitors.antt =====
-- The theorems on signing in, and on the utilities: a client and a visitor who becomes a manager.
use fluid_events.Prelude.{
  ◌+◌, ◌*◌, ◌≤◌, true, false, none, some, List, [], ◌∷◌, ◌++◌, any, find, ◌⊎◌, ◌≡◌, ◌↔◌, refl,
  arith, ok, thrown, ErrorCode,
}
use fluid_events.Prelude.Texts.{codes}
use fluid_events.Payments.{EventStatus}
use fluid_events.Access.{Role}
use fluid_events.Utils.{escape_html, replace_all, decimal, parse_duration_to_seconds}
use fluid_events.Utils.Escape.{each, entity_of, escape_html-eq-each}
use fluid_events.Utils.Duration.{parse_duration_to_seconds-decimal}
use fluid_events.Signin.{
  Person, ShownEvent, SignDb, RefreshClaims, TokenPair, Libraries, GoogleProfile, has_id, newcomer,
  login_with_google, with_code, with_verified_phone, generate_client_token, refresh_tokens,
  request_phone_verification, confirm_phone_verification, session_grace_seconds, code_ttl,
}
use fluid_events.Signin.Visits.{Sign, sign, sign_all}
use fluid_events.Signin.Roles.{NoMore, IsFresh, sign_all-NoMore}
use fluid_events.Signin.Codes.{renumbers}
use fluid_events.Signin.Phone.{confirm_phone_verification-request_phone_verification}
use fluid_events.Signin.Sessions.{
  LastsUntil, Current, SpeaksFor, generate_client_token-LastsUntil, refresh_tokens-Current,
}

abbrev libraries : Libraries
libraries = record {
  hash = λ t. 9;
  compare_hash = λ t h. true;
  verify_refresh = λ t.
      some (record { sub = 1; tv = some 2; session_expires_at = none; expires_in = codes "7d" });
  verify_access = λ t. none;
  normalize_to_e164 = λ t. some t;
  derive_country = λ t. some (codes "TG");
  lower = λ t. t;
}

abbrev client : Person
client = record {
  id = 1;
  email = codes "a@b.c";
  google_id = some (codes "g");
  name = none;
  avatar_url = none;
  role = Role.client;
  is_active = true;
  is_self_service = false;
  subscription_active = false;
  password_hash = none;
  token_version = 2;
  invite_token = none;
  invite_token_expires_at = none;
  phone = none;
  country = none;
  phone_verification_code = none;
  phone_verification_code_expires_at = none;
  phone_verified_at = none;
}

abbrev concert : ShownEvent
concert = record { status = EventStatus.published; end_date = 90000500 }

abbrev site : SignDb
site = record { people = client ∷ []; scanners = []; by_slug = λ s. some concert; next_id = 5 }

abbrev newcomer_profile : GoogleProfile
newcomer_profile = record {
  google_id = codes "h";
  email = codes "d@e.f";
  name = none;
  avatar_url = none;
}

-- The client signs in and asks to become a manager, and so does a visitor who is not known.
abbrev visits : List Sign
visits =
    Sign.google (record newcomer_profile { google_id = codes "g" }) none true 1000
    ∷ Sign.google newcomer_profile none true 2000
    ∷ []

sign_all-NoMore_example : NoMore site (sign_all libraries (codes "7d") visits site)
unfolding IsFresh
sign_all-NoMore_example = sign_all-NoMore libraries (codes "7d") visits site refl

abbrev asked : SignDb
asked = record site {
  people = with_code (codes "+228") (some (codes "TG")) (codes "123456") 1000 client ∷ [];
}

-- A new client comes in between, and the code is entered again after him.
abbrev meanwhile : List Sign
meanwhile = Sign.google newcomer_profile none false 2000 ∷ []

abbrev verified : SignDb
verified = record (sign_all libraries (codes "7d") meanwhile asked) {
  people =
      newcomer 5 newcomer_profile false
      ∷ with_verified_phone 3000
          (with_code (codes "+228") (some (codes "TG")) (codes "123456") 1000 client)
      ∷ [];
}

confirm_phone_verification-request_phone_verification_example :
    (codes "123456" ≡ codes "123456")
    × (3000 ≤ 1000 + code_ttl)
    × ((u : Person) × (find (has_id 1) verified.people ≡ some u)
        × (u.phone_verified_at ≡ some 3000)
        × ((u.phone ≡ libraries.normalize_to_e164 (codes "+228"))
            ⊎ (any (renumbers 1) meanwhile ≡ true)))
    × (confirm_phone_verification libraries
          (codes "7d")
          1
          (codes "123456")
          4000
          (sign_all libraries (codes "7d") meanwhile verified)
        ≡ thrown ErrorCode.phone_verification_code_invalid)
unfolding request_phone_verification confirm_phone_verification sign_all sign login_with_google
    newcomer
confirm_phone_verification-request_phone_verification_example =
    confirm_phone_verification-request_phone_verification libraries (codes "7d") 1 (codes "+228")
      (codes "123456") true 1000 site asked meanwhile (codes "123456") 3000 verified meanwhile
      (codes "123456") 4000 refl refl refl refl

generate_client_token-LastsUntil_example :
    LastsUntil
      (90000500 + session_grace_seconds * 1000)
      (generate_client_token (codes "7d") client (some (codes "slug")) 5000 site).access
generate_client_token-LastsUntil_example =
    generate_client_token-LastsUntil (codes "7d") client (some (codes "slug")) 5000 site concert
      refl refl (omega arith)

abbrev renewed : TokenPair
renewed = generate_client_token (codes "7d") client none 5000 site

refresh_tokens-Current_example :
    (refresh_tokens libraries (codes "7d") (codes "token") 5000 site ≡ ok renewed) ↔ (
      (claims : RefreshClaims) × (user : Person) × (libraries.verify_refresh (codes "token")
        ≡ some claims)
      × Current claims user site
      × (generate_client_token (codes "7d") user none 5000 site ≡ renewed)
      × SpeaksFor user 5000 renewed)
refresh_tokens-Current_example =
    refresh_tokens-Current libraries (codes "7d") (codes "token") 5000 site renewed

escape_html-eq-each_example : escape_html (codes "<a & 'b'>") ≡ each entity_of (codes "<a & 'b'>")
escape_html-eq-each_example = escape_html-eq-each (codes "<a & 'b'>")

escaped : escape_html (codes "a<b") ≡ codes "a&lt;b"
unfolding escape_html replace_all
escaped = refl

parse_duration_to_seconds-decimal_example :
    parse_duration_to_seconds (decimal 90061 ++ codes "s") ≡ 90061
parse_duration_to_seconds-decimal_example = parse_duration_to_seconds-decimal 90061
