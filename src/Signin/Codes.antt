-- ===== src/Signin/Codes.antt =====
-- What becomes of a code that waits for its confirmation while visitors call
-- (`apps/api/src/auth/auth-orchestrator.service.ts`).
use fluid_events.Prelude.{
  ◌==◌, Bool, true, false, not, ◌&&◌, Option, none, some, List, [], ◌∷◌, all, any, find, find-holds,
  ◌≡◌, refl, ◌⊎◌, inl, inr, arith, Bool-cases, subst, sym, ◌∙◌,
}
use fluid_events.Prelude.Sweeps.{find-update_first_either}
use fluid_events.Prelude.Texts.{Text}
use fluid_events.Payments.{Key, Time}
use fluid_events.Signin.{Person, SignDb, Libraries, has_id, newcomer, with_phone}
use fluid_events.Signin.Visits.{Sign, Effect, Leaves, sign, sign_all, sign-Leaves}

-- A call by which this person asks for a code, and one by which he gives another number.
abbrev pub asks : Key → Sign → Bool
asks id (Sign.requests_code who raw code sent now) = who == id
asks id _ = false

abbrev pub renumbers : Key → Sign → Bool
renumbers id (Sign.saves_phone who raw) = who == id
renumbers id _ = false

-- What stays true of the person of this identifier, as long as certain calls do not occur: it is true
-- of whoever has no code, and of whoever has the same code and number as before.
module _ (id : Key) (quiet : Sign → Bool) (Q : Person → Type 0)
    (cleared : (u : Person) → u.phone_verification_code ≡ none → Q u)
    (kept : (u v : Person)
      → v.phone_verification_code ≡ u.phone_verification_code
      → v.phone_verification_code_expires_at ≡ u.phone_verification_code_expires_at
      → v.phone ≡ u.phone
      → Q u
      → Q v)
    (not_asked : (s : Sign) → quiet s ≡ true → asks id s ≡ false)
    (renumbered : (raw phone : Text) (country : Option Text) (u : Person)
      → quiet (Sign.saves_phone id raw) ≡ true
      → Q u
      → Q (with_phone phone country u)) where
  abbrev pub Has : SignDb → Type 0
  Has db = (u : Person) × (find (has_id id) db.people ≡ some u) × Q u

  -- The first argument of the conclusion is whether the row is the person's.
  Effect-kept :
      (s : Sign) (p : Person → Bool) (f : Person → Person)
      → quiet s ≡ true
      → Effect s p f
      → (u : Person) → has_id id u ≡ true
      → p u ≡ true
      → Q u
      → Q (f u)
  Effect-kept s p f h (Effect.refreshes profile slug b now) u his hit q = kept u _ refl refl refl q
  Effect-kept s p f h (Effect.invited token password now who hash) u his hit q =
      kept u _ refl refl refl q
  Effect-kept s p f h (Effect.saved who raw phone country) u his hit q =
      let same : who ≡ id = ground (arith, his, hit) in
      renumbered raw phone country u (subst (λ i. quiet (Sign.saves_phone i raw) ≡ true) same h) q
  Effect-kept s p f h (Effect.requested who raw code sent now phone country) u his hit q =
      let other = not_asked (Sign.requests_code who raw code sent now) h in
      absurd (ground (arith, other, his, hit))
  Effect-kept s p f h (Effect.confirmed who code now) u his hit q = cleared _ refl

  Effect-id :
      (s : Sign) (p : Person → Bool) (f : Person → Person)
      → Effect s p f
      → (u : Person) → has_id id (f u) ≡ has_id id u
  Effect-id s p f (Effect.refreshes profile slug b now) u = refl
  Effect-id s p f (Effect.invited token password now who hash) u = refl
  Effect-id s p f (Effect.saved who raw phone country) u = refl
  Effect-id s p f (Effect.requested who raw code sent now phone country) u = refl
  Effect-id s p f (Effect.confirmed who code now) u = refl

  module _ (libs : Libraries) (fallback : Text) where
    sign-Has : (s : Sign) (db : SignDb) → quiet s ≡ true → Has db → Has (sign libs fallback s db)
    unfolding Leaves newcomer
    sign-Has s db h (u, found, q) = elim (sign-Leaves libs fallback s db) [
      | inl e ↦ subst Has (sym e) (u, found, q)
      | inr (inl (p, f, effect, e)) ↦
          subst Has (sym e)
            (elim (find-update_first_either p (has_id id) f (Effect-id s p f effect) db.people
              found) [
                | inl old ↦ (u, old, q)
                | inr (new, hit) ↦ (
                  f u,
                  new,
                  Effect-kept s p f h effect u (find-holds (has_id id) db.people found) hit q,
                )
              ])
      | inr (inr (profile, b, e)) ↦ subst Has (sym e) (elim (Bool-cases (db.next_id == id)) [
        | inl his ↦ (newcomer db.next_id profile b, rw his refl, cleared _ refl)
        | inr other ↦ (u, rw other found, q)
      ])
    ]

    pub sign_all-Has :
        (ss : List Sign) (db : SignDb)
        → all quiet ss ≡ true
        → Has db
        → Has (sign_all libs fallback ss db)
    unfolding sign_all
    sign_all-Has [] db h k = k
    sign_all-Has (s ∷ ss) db h k =
        sign_all-Has ss (sign libs fallback s db) (ground (arith, h))
          (sign-Has s db (ground (arith, h)) k)

-- A call that is no request of the person; and one by which he gives no other number either.
abbrev pub unasked : Key → Sign → Bool
unasked id s = not (asks id s)

abbrev pub same_number : Key → Sign → Bool
same_number id s = not (asks id s) && not (renumbers id s)

-- The code that waits, if any does, is this one.
unfoldable pub Waits : Text → Time → Person → Type 0
Waits code until u =
    (u.phone_verification_code ≡ none)
    ⊎ ((u.phone_verification_code ≡ some code)
        × (u.phone_verification_code_expires_at ≡ some until))

Waits-kept :
    (code : Text) (until : Time) (x y : Person)
    → y.phone_verification_code ≡ x.phone_verification_code
    → y.phone_verification_code_expires_at ≡ x.phone_verification_code_expires_at
    → Waits code until x
    → Waits code until y
unfolding Waits
Waits-kept code until x y c e (inl nothing) = inl (c ∙ nothing)
Waits-kept code until x y c e (inr (a, b)) = inr (c ∙ a, e ∙ b)

-- If a code waits, the number is this one.
unfoldable pub WaitsFor : Option Text → Person → Type 0
WaitsFor phone u = (u.phone_verification_code ≡ none) ⊎ (u.phone ≡ phone)

WaitsFor-kept :
    (phone : Option Text) (x y : Person)
    → y.phone_verification_code ≡ x.phone_verification_code
    → y.phone ≡ x.phone
    → WaitsFor phone x
    → WaitsFor phone y
unfolding WaitsFor
WaitsFor-kept phone x y c p (inl nothing) = inl (c ∙ nothing)
WaitsFor-kept phone x y c p (inr number) = inr (p ∙ number)

pub same_numbers :
    (id : Key) (ss : List Sign)
    → all (unasked id) ss ≡ true
    → any (renumbers id) ss ≡ false
    → all (same_number id) ss ≡ true
same_numbers id [] h k = refl
same_numbers id (s ∷ ss) h k = ground (arith, same_numbers id ss)

module _ (libs : Libraries) (fallback : Text) where
  pub waiting :
      (id : Key) (code : Text) (until : Time) (ss : List Sign) (db : SignDb) (u : Person)
      → find (has_id id) db.people ≡ some u
      → Waits code until u
      → all (unasked id) ss ≡ true
      → (v : Person) × (find (has_id id) (sign_all libs fallback ss db).people ≡ some v)
        × Waits code until v
  unfolding Waits
  waiting id code until ss db u found w quiet =
      sign_all-Has id (unasked id) (Waits code until) (λ x e. inl e)
        (λ x y c e _ q. Waits-kept code until x y c e q) (λ s h. ground (arith, h))
        (λ raw phone country x _ q.
          Waits-kept code until x (with_phone phone country x) refl refl q)
        libs fallback ss db quiet (u, found, w)

  pub waiting_for :
      (id : Key) (phone : Option Text) (ss : List Sign) (db : SignDb) (u : Person)
      → find (has_id id) db.people ≡ some u
      → WaitsFor phone u
      → all (same_number id) ss ≡ true
      → (v : Person) × (find (has_id id) (sign_all libs fallback ss db).people ≡ some v)
        × WaitsFor phone v
  unfolding WaitsFor
  waiting_for id phone ss db u found w quiet =
      sign_all-Has id (same_number id) (WaitsFor phone) (λ x e. inl e)
        (λ x y c _ p q. WaitsFor-kept phone x y c p q) (λ s h. ground (arith, h))
        (λ raw number country x h _. ground (arith, h)) libs fallback ss db quiet (u, found, w)
