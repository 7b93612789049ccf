-- ===== src/Auth/Revocation.antt =====
-- What a new password does to the account's sessions and links.
use fluid_events.Prelude.{
  ℕ, ◌+◌, ◌≤◌, not, ◌||◌, some, List, [], ◌∷◌, ◌≡◌, ◌≢◌, refl, arith, inl, inr, find, update_first,
  find-update_first, find-holds, Option-cases, Bool-cases, Result-cases, Result, ok, thrown,
  ErrorCode,
}
use fluid_events.Prelude.Texts.{Text, text_eq, text_eq-eq}
use fluid_events.Payments.{Time}
use fluid_events.Auth.{
  Account, Hashes, has_id, split_dot, with_link, with_password, too_soon, demander, reinitialiser,
  JwtPayload, version_of, validate,
}

-- The account is there, with this version or a later one.
abbrev pub HasVersion : Text → ℕ → List Account → Type 0
HasVersion id n us = (a : Account) × (find (has_id id) us ≡ some a) × (n ≤ a.token_version)

-- Updates that keep identifiers and do not lower the version.
module _ (f : Account → Account) (keeps : (a : Account) → (f a).id ≡ a.id)
    (grows : (a : Account) → a.token_version ≤ (f a).token_version) where
  update_first-HasVersion :
      (id other : Text) (n : ℕ) (us : List Account)
      → HasVersion id n us
      → HasVersion id n (update_first (has_id other) f us)
  update_first-HasVersion id other n [] (a, e, h) = cc
  update_first-HasVersion id other n (b ∷ bs) (a, e, h) = elim (Bool-cases (has_id other b)) [
    | inl hit ↦ elim (Bool-cases (has_id id b)) [
      | inl mine ↦ (f b, ground (arith, keeps b), ground (arith, grows b))
      | inr his ↦ (a, ground (arith, keeps b), h)
    ]
    | inr miss ↦ elim (Bool-cases (has_id id b)) [
      | inl mine ↦ (b, ground arith, ground arith)
      | inr his ↦
          let (a', e', h') = update_first-HasVersion id other n bs (a, ground arith, h) in
          (a', ground arith, h')
    ]
  ]

pub data ResetCall : Type 0 where
  asks : (adresse secret : Text) → (now : Time) → ResetCall
  resets : (jeton mot_de_passe : Text) → (now : Time) → ResetCall

module _ (hashes : Hashes) where
  abbrev pub kept_or : List Account → Result (List Account) → List Account
  kept_or us (thrown e) = us
  kept_or us (ok us') = us'

  unfoldable pub run_resets : List ResetCall → List Account → List Account
  run_resets [] us = us
  run_resets (asks adresse secret now ∷ cs) us =
      run_resets cs (demander hashes adresse secret now us)
  run_resets (resets jeton mot_de_passe now ∷ cs) us =
      run_resets cs (kept_or us (reinitialiser hashes jeton mot_de_passe now us))

  demander-HasVersion :
      (adresse secret : Text) (now : Time) (id : Text) (n : ℕ) (us : List Account)
      → HasVersion id n us
      → HasVersion id n (demander hashes adresse secret now us)
  unfolding demander
  demander-HasVersion adresse secret now id n us h =
      elim (Option-cases (find (λ a. text_eq adresse a.email) us)) [
        | inl missing ↦ rw missing h
        | inr (c, there) ↦
            elim (Bool-cases
              (not c.is_active || (c.is_guest || too_soon now c.reset_requested_at))) [
                | inl no_link ↦ rw (there, no_link) h
                | inr link ↦
                    rw (there, link)
                      (update_first-HasVersion (with_link (hashes.sha secret) now) (λ a. refl)
                        (λ a. omega arith) id c.id n us h)
              ]
      ]

  -- A reset that succeeds.
  pub record IsReset (jeton mot_de_passe : Text) (now : Time) (us us' : List Account) : Type 0 where
    pub id : Text
    pub secret : Text
    pub account : Account
    pub parsed : split_dot jeton ≡ some (id, secret)
    pub is_there : find (has_id id) us ≡ some account
    pub is_link : account.reset_token_hash ≡ some (hashes.sha secret)
    pub after : us' ≡ update_first (has_id id) (with_password (hashes.bcrypt mot_de_passe)) us

  reinitialiser-IsReset :
      (jeton mot_de_passe : Text) (now : Time) (us us' : List Account)
      → reinitialiser hashes jeton mot_de_passe now us ≡ ok us'
      → IsReset jeton mot_de_passe now us us'
  unfolding reinitialiser
  reinitialiser-IsReset jeton mot_de_passe now us us' h = elim (Option-cases (split_dot jeton)) [
    | inl missing ↦ absurd (ground arith)
    | inr ((id, secret), parsed) ↦ elim (Option-cases (find (has_id id) us)) [
      | inl missing ↦ absurd (ground arith)
      | inr (a, there) ↦
          let same : id ≡ a.id = text_eq-eq id a.id (find-holds (has_id id) us there) in
          elim (Option-cases a.reset_token_hash) [
            | inl no_hash ↦ absurd (ground arith)
            | inr (k, hash) ↦ record {
              id = id;
              secret = secret;
              account = a;
              parsed = parsed;
              is_there = there;
              is_link = ground arith;
              after = rw same (ground arith);
            }
          ]
    ]
  ]

  kept_or-HasVersion :
      (jeton mot_de_passe : Text) (now : Time) (id : Text) (n : ℕ) (us : List Account)
      → HasVersion id n us
      → HasVersion id n (kept_or us (reinitialiser hashes jeton mot_de_passe now us))
  kept_or-HasVersion jeton mot_de_passe now id n us h =
      elim (Result-cases (reinitialiser hashes jeton mot_de_passe now us)) [
        | inl (e, refused) ↦ rw refused h
        | inr (us', done) ↦
            let r = reinitialiser-IsReset jeton mot_de_passe now us us' done in
            rw (done, r.after)
              (update_first-HasVersion (with_password (hashes.bcrypt mot_de_passe)) (λ a. refl)
                (λ a. omega arith) id r.id n us h)
      ]

  run_resets-HasVersion :
      (cs : List ResetCall) (id : Text) (n : ℕ) (us : List Account)
      → HasVersion id n us
      → HasVersion id n (run_resets cs us)
  unfolding run_resets
  run_resets-HasVersion [] id n us h = h
  run_resets-HasVersion (asks adresse secret now ∷ cs) id n us h =
      run_resets-HasVersion cs id n (demander hashes adresse secret now us)
        (demander-HasVersion adresse secret now id n us h)
  run_resets-HasVersion (resets jeton mot_de_passe now ∷ cs) id n us h =
      run_resets-HasVersion cs id n (kept_or us (reinitialiser hashes jeton mot_de_passe now us))
        (kept_or-HasVersion jeton mot_de_passe now id n us h)

  -- A session that was opened before a password was reset is refused ever after: no token with a
  -- version up to the one that the account had is accepted, whatever links and resets follow.
  pub validate-reinitialiser :
      (jeton secret mot_de_passe : Text) (now : Time) (us us' : List Account) (a : Account)
      (cs : List ResetCall) (payload : JwtPayload)
      → reinitialiser hashes jeton mot_de_passe now us ≡ ok us'
      → split_dot jeton ≡ some (payload.sub, secret)
      → find (has_id payload.sub) us ≡ some a
      → version_of payload.tv ≤ a.token_version
      → (u : Text) → validate payload (run_resets cs us') ≢ ok u
  unfolding validate
  validate-reinitialiser jeton secret mot_de_passe now us us' a cs payload h parsed there old u k =
      let r = reinitialiser-IsReset jeton mot_de_passe now us us' h in
      let same : r.id ≡ payload.sub = cc (r.parsed, parsed) in
      let renewed : find (has_id payload.sub) us'
          ≡ some (with_password (hashes.bcrypt mot_de_passe) a) =
        rw (r.after, same)
          (find-update_first (has_id payload.sub) (with_password (hashes.bcrypt mot_de_passe)) us
            there (find-holds (has_id payload.sub) us there)) in
      let (a', found, newer) =
        run_resets-HasVersion cs payload.sub (a.token_version + 1) us'
          (with_password (hashes.bcrypt mot_de_passe) a, renewed, omega arith) in
      ground (arith, found, newer)

  -- A link serves once: after a reset the same link is refused, as long as no new one is asked for.
  pub reinitialiser_again :
      (jeton mot_de_passe autre : Text) (now later : Time) (us us' : List Account)
      → reinitialiser hashes jeton mot_de_passe now us ≡ ok us'
      → reinitialiser hashes jeton autre later us' ≡ thrown ErrorCode.invite_token_invalid
  unfolding reinitialiser
  reinitialiser_again jeton mot_de_passe autre now later us us' h =
      let r = reinitialiser-IsReset jeton mot_de_passe now us us' h in
      let renewed : find (has_id r.id) us'
          ≡ some (with_password (hashes.bcrypt mot_de_passe) r.account) =
        rw r.after (
          find-update_first (has_id r.id) (with_password (hashes.bcrypt mot_de_passe)) us r.is_there
            (find-holds (has_id r.id) us r.is_there)) in
      ground (arith, renewed, r.parsed)
