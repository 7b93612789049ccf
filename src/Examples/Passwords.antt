-- ===== src/Examples/Passwords.antt =====
-- The theorems on passwords: an account with a link, and a session from before.
use fluid_events.Prelude.{
  true, false, none, some, [], ◌∷◌, ◌≡◌, ◌≢◌, refl, arith, ok, thrown, ErrorCode,
}
use fluid_events.Prelude.Texts.{codes}
use fluid_events.Auth.{
  Account, Hashes, with_password, split_dot, reinitialiser, JwtPayload, validate,
}
use fluid_events.Auth.Revocation.{asks, run_resets, validate-reinitialiser, reinitialiser_again}

abbrev hashes : Hashes
hashes = record { sha = λ t. 9; bcrypt = λ t. 8 }

abbrev account : Account
account = record {
  id = codes "u";
  email = codes "u@b.c";
  is_active = true;
  is_guest = false;
  token_version = 2;
  password_hash = none;
  reset_token_hash = some 9;
  reset_token_expires_at = some 5000;
  reset_requested_at = some 1000;
  invite_token = none;
  invite_token_expires_at = none;
}

abbrev session : JwtPayload
session = record { sub = codes "u"; email = codes "u@b.c"; has_role = true; tv = some 2 }

-- Before the reset the session is accepted.
session_open : validate session (account ∷ []) ≡ ok (codes "u")
unfolding validate
session_open = refl

validate-reinitialiser_example :
    validate session (
      run_resets hashes
        (asks (codes "u@b.c") (codes "t") 70000 ∷ [])
        (with_password 8 account ∷ []))
    ≢ ok (codes "u")
unfolding reinitialiser split_dot
validate-reinitialiser_example =
    validate-reinitialiser hashes (codes "u.s") (codes "s") (codes "new") 2000 (account ∷ [])
      (with_password 8 account ∷ []) account (asks (codes "u@b.c") (codes "t") 70000 ∷ []) session
      refl refl refl (omega arith) (codes "u")

reinitialiser_again_example :
    reinitialiser hashes (codes "u.s") (codes "other") 2500 (with_password 8 account ∷ [])
    ≡ thrown ErrorCode.invite_token_invalid
unfolding reinitialiser split_dot
reinitialiser_again_example =
    reinitialiser_again hashes (codes "u.s") (codes "new") (codes "other") 2000 2500 (account ∷ [])
      (with_password 8 account ∷ []) refl
