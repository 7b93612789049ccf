-- ===== src/Signin/Roles.antt =====
-- Nobody gains or loses rights by signing in (`apps/api/src/auth`).
use fluid_events.Prelude.{
  ◌+◌, ◌==◌, ◌≤◌, ltb, Bool, true, false, none, some, List, [], ◌∷◌, all, find, find-holds,
  update_first, ◌≡◌, refl, ◌⊎◌, inl, inr, arith, Bool-cases, subst, ap, sym, ◌∙◌,
}
use fluid_events.Prelude.Sweeps.{
  all-update_first, find-update_first_either, find-update_first_from, find-all,
}
use fluid_events.Prelude.Texts.{Text}
use fluid_events.Payments.{Key}
use fluid_events.Access.{Role}
use fluid_events.Signin.{Person, SignDb, Libraries, GoogleProfile, has_id, newcomer}
use fluid_events.Signin.Visits.{Sign, Effect, Leaves, sign, sign_all, sign-Leaves}

-- What the person may do.
pub record SameRights (u v : Person) : Type 0 where
  pub role : v.role ≡ u.role
  pub self_service : v.is_self_service ≡ u.is_self_service
  pub subscription : v.subscription_active ≡ u.subscription_active
  pub active : v.is_active ≡ u.is_active

-- What a visitor can give to himself: he is a client, or a manager who has signed himself up, and has
-- no subscription.
pub IsVisitor : Person → Type 0
IsVisitor v =
    (v.subscription_active ≡ false)
    × (((v.role ≡ Role.client) × (v.is_self_service ≡ false))
        ⊎ ((v.role ≡ Role.manager) × (v.is_self_service ≡ true)))

-- The next identifier is above all that are there.
unfoldable pub IsFresh : SignDb → Type 0
IsFresh db = all (λ u. ltb u.id db.next_id) db.people ≡ true

-- Who has which rights, against an earlier state: who was there has the same, and who was not is a
-- visitor.
pub record NoMore (before after : SignDb) : Type 0 where
  pub fresh : IsFresh after
  pub kept :
      (id : Key) (u : Person)
      → find (has_id id) before.people ≡ some u
      → (v : Person) × (find (has_id id) after.people ≡ some v) × SameRights u v
  pub came :
      (id : Key) (v : Person)
      → find (has_id id) before.people ≡ none
      → find (has_id id) after.people ≡ some v
      → IsVisitor v

IsVisitor-same : (x v : Person) → SameRights x v → IsVisitor x → IsVisitor v
unfolding IsVisitor
IsVisitor-same x v s (n, inl (c, f)) = (s.subscription ∙ n, inl (s.role ∙ c, s.self_service ∙ f))
IsVisitor-same x v s (n, inr (m, f)) = (s.subscription ∙ n, inr (s.role ∙ m, s.self_service ∙ f))

SameRights-trans : (u x v : Person) → SameRights u x → SameRights x v → SameRights u v
SameRights-trans u x v a b = record {
  role = b.role ∙ a.role;
  self_service = b.self_service ∙ a.self_service;
  subscription = b.subscription ∙ a.subscription;
  active = b.active ∙ a.active;
}

same : (u : Person) → SameRights u u
same u = record { role = refl; self_service = refl; subscription = refl; active = refl }

-- No call changes the rights or the identifier of the account that it writes.
Effect-SameRights :
    (s : Sign) (p : Person → Bool) (f : Person → Person)
    → Effect s p f
    → (u : Person) → ((f u).id ≡ u.id) × SameRights u (f u)
Effect-SameRights s p f (Effect.refreshes profile slug b now) u =
    (refl, record { role = refl; self_service = refl; subscription = refl; active = refl })
Effect-SameRights s p f (Effect.invited token password now id hash) u =
    (refl, record { role = refl; self_service = refl; subscription = refl; active = refl })
Effect-SameRights s p f (Effect.saved id raw phone country) u =
    (refl, record { role = refl; self_service = refl; subscription = refl; active = refl })
Effect-SameRights s p f (Effect.requested id raw code sent now phone country) u =
    (refl, record { role = refl; self_service = refl; subscription = refl; active = refl })
Effect-SameRights s p f (Effect.confirmed id code now) u =
    (refl, record { role = refl; self_service = refl; subscription = refl; active = refl })

more :
    (people : List Person) (n m : Key)
    → n ≤ m
    → all (λ (u : Person). ltb u.id n) people ≡ true
    → all (λ (u : Person). ltb u.id m) people ≡ true
more [] n m h k = refl
more (u ∷ us) n m h k = ground (arith, more us n m h)

module _ (before : SignDb) where
  -- An update that leaves the rights as they are.
  updated-NoMore :
      (p : Person → Bool) (f : Person → Person) (db : SignDb)
      → ((u : Person) → ((f u).id ≡ u.id) × SameRights u (f u))
      → NoMore before db
      → NoMore before (record db { people = update_first p f db.people })
  unfolding IsFresh
  updated-NoMore p f db rights h = record {
    fresh =
        all-update_first p (λ u. ltb u.id db.next_id) f
          (λ x _ k. ap (λ i. ltb i db.next_id) (rights x).0 ∙ k) db.people h.fresh;
    kept = λ id u found.
        let (x, there, s) = h.kept id u found in
        elim (find-update_first_either p (has_id id) f (same_id id) db.people there) [
          | inl old ↦ (x, old, s)
          | inr (new, _) ↦ (f x, new, SameRights-trans u x (f x) s (rights x).1)
        ];
    came = λ id v missing e.
        elim (find-update_first_from p (has_id id) f (same_id id) db.people e) [
          | inl old ↦ h.came id v missing old
          | inr (x, old, is_f) ↦
              IsVisitor-same x v (subst (SameRights x) (sym is_f) (rights x).1)
                (h.came id x missing old)
        ];
  }
    where
      same_id : (id : Key) (x : Person) → has_id id (f x) ≡ has_id id x
      same_id id x = ap (λ i. i == id) (rights x).0

  newcomer-NoMore :
      (profile : GoogleProfile) (b : Bool) (db : SignDb)
      → NoMore before db
      → NoMore before (record db {
        people = newcomer db.next_id profile b ∷ db.people;
        next_id = db.next_id + 1;
      })
  unfolding newcomer IsVisitor IsFresh
  newcomer-NoMore profile b db h = record {
    fresh =
        let others = more db.people db.next_id (db.next_id + 1) (omega arith) h.fresh in
        ground (arith, others);
    kept = λ id u found.
        let (x, there, s) = h.kept id u found in
        let below = find-all (has_id id) (λ x'. ltb x'.id db.next_id) db.people there h.fresh in
        let is_id = find-holds (has_id id) db.people there in
        let other : (db.next_id == id) ≡ false = ground (arith, below, is_id) in
        (x, rw other there, s);
    came = λ id v missing e. elim (Bool-cases (db.next_id == id)) [
      | inr other ↦ h.came id v missing (simp other at e)
      | inl here ↦
          let is_new : newcomer db.next_id profile b ≡ v = some-injective (simp here at e) in
          subst IsVisitor is_new (visits b)
    ];
  }
    where
      some-injective : {x y : Person} → some x ≡ some y → x ≡ y
      some-injective k = cc

      visits : (b' : Bool) → IsVisitor (newcomer db.next_id profile b')
      visits true = (refl, inr (refl, refl))
      visits false = (refl, inl (refl, refl))

  module _ (libs : Libraries) (fallback : Text) where
    sign-NoMore :
        (s : Sign) (db : SignDb) → NoMore before db → NoMore before (sign libs fallback s db)
    unfolding Leaves
    sign-NoMore s db h = elim (sign-Leaves libs fallback s db) [
      | inl e ↦ subst (NoMore before) (sym e) h
      | inr (inl (p, f, effect, e)) ↦
          subst (NoMore before) (sym e) (updated-NoMore p f db (Effect-SameRights s p f effect) h)
      | inr (inr (profile, b, e)) ↦ subst (NoMore before) (sym e) (newcomer-NoMore profile b db h)
    ]

    sign_all-NoMore_from :
        (ss : List Sign) (db : SignDb)
        → NoMore before db
        → NoMore before (sign_all libs fallback ss db)
    unfolding sign_all
    sign_all-NoMore_from [] db h = h
    sign_all-NoMore_from (s ∷ ss) db h =
        sign_all-NoMore_from ss (sign libs fallback s db) (sign-NoMore s db h)

-- Whoever signs in with Google, sets a password by an invitation, and saves or verifies a phone
-- number: each person who was there is still there and keeps his role, his subscription and whether
-- he is active and has signed himself up. Whoever was not there before is a client, or a manager who
-- has signed himself up, and has no subscription. The next identifier has to be above all others.
pub sign_all-NoMore :
    (libs : Libraries) (fallback : Text) (ss : List Sign) (db : SignDb)
    → IsFresh db
    → NoMore db (sign_all libs fallback ss db)
sign_all-NoMore libs fallback ss db fresh = sign_all-NoMore_from db libs fallback ss db (record {
  fresh = fresh;
  kept = λ id u found. (u, found, same u);
  came = λ id v missing found. absurd (ground (arith, missing, found));
})
