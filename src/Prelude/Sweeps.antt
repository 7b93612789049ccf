-- ===== src/Prelude/Sweeps.antt =====
-- Tests over the rows of a table, and what updates, deletions and filters do to them.
use mathlib.Core.Path.{◌≡◌, refl}
use mathlib.Core.Logic.{◌⊎◌, inl, inr}
use mathlib.Core.Option.{some}
use mathlib.Core.Bool.{Bool, true, false, not}
use mathlib.Core.List.{List, [], ◌∷◌, map}
use native.Mathlib.Omega.{arith}
use fluid_events.Prelude.Tests.{Bool-cases}
use fluid_events.Prelude.Lists.{any, all, keep, update_first, remove_first, find}

module _ {ℓ} {A : Type ℓ} where
  pub all-update_first :
      (p q : A → Bool) (f : A → A)
      → ((x : A) → p x ≡ true → q x ≡ true → q (f x) ≡ true)
      → (xs : List A) → all q xs ≡ true
      → all q (update_first p f xs) ≡ true
  all-update_first p q f step [] h = refl
  all-update_first p q f step (x ∷ xs) h = elim (Bool-cases (p x)) [
    | inl yes' ↦ rw yes' (ground (arith, step x yes'))
    | inr no' ↦ rw no' (ground (arith, all-update_first p q f step xs))
  ]

  pub all-remove_first :
      (p q : A → Bool) (xs : List A) → all q xs ≡ true → all q (remove_first p xs) ≡ true
  all-remove_first p q [] h = refl
  all-remove_first p q (x ∷ xs) h = ground (arith, all-remove_first p q xs)

  pub all-keep : (p q : A → Bool) (xs : List A) → all q xs ≡ true → all q (keep p xs) ≡ true
  all-keep p q [] h = refl
  all-keep p q (x ∷ xs) h = ground (arith, all-keep p q xs)

  -- A row is in a table if whatever test it passes some row of the table passes.
  abbrev pub IsIn : A → List A → Type ℓ
  IsIn x xs = (p : A → Bool) → p x ≡ true → any p xs ≡ true

  pub all-imp :
      (q r : A → Bool) (xs : List A)
      → ((x : A) → IsIn x xs → q x ≡ true → r x ≡ true)
      → all q xs ≡ true
      → all r xs ≡ true
  all-imp q r [] step h = refl
  all-imp q r (x ∷ xs) step h =
      let here : r x ≡ true = step x (λ p k. rw k refl) (ground arith) in
      let there : all r xs ≡ true =
        all-imp q r xs (λ y is_in. step y (λ p k. ground (arith, is_in p k))) (ground arith) in
      rw (here, there) refl

  -- A change that leaves each row of a table as it is.
  pub map-same : (f : A → A) (xs : List A) → ((x : A) → IsIn x xs → f x ≡ x) → map f xs ≡ xs
  map-same f [] step = refl
  map-same f (x ∷ xs) step =
      let here : f x ≡ x = step x (λ p k. rw k refl) in
      let there : map f xs ≡ xs =
        map-same f xs (λ y is_in. step y (λ p k. ground (arith, is_in p k))) in
      rw (here, there) refl

  pub map-keep_same :
      (f : A → A) (p : A → Bool) (xs : List A)
      → ((x : A) → IsIn x xs → f x ≡ x)
      → map f (keep p xs) ≡ keep p xs
  map-keep_same f p [] step = refl
  map-keep_same f p (x ∷ xs) step =
      let here : f x ≡ x = step x (λ q k. rw k refl) in
      let there : map f (keep p xs) ≡ keep p xs =
        map-keep_same f p xs (λ y is_in. step y (λ q k. ground (arith, is_in q k))) in
      elim (Bool-cases (p x)) [
        | inl kept ↦ rw (kept, here, there) refl
        | inr lost ↦ rw (lost, there) refl
      ]

  -- The rows that a filter keeps.
  pub any-keep :
      (q gone stays : A → Bool)
      → ((x : A) → q x ≡ true → gone x ≡ false → stays x ≡ true)
      → (xs : List A) → any q xs ≡ true
      → any gone xs ≡ false
      → any q (keep stays xs) ≡ true
  any-keep q gone stays step [] h k = h
  any-keep q gone stays step (x ∷ xs) h k = elim (Bool-cases (q x)) [
    | inl yes' ↦ rw (step x yes' (ground (arith, k))) (rw yes' refl)
    | inr no' ↦ elim (Bool-cases (stays x)) [
      | inl kept ↦
          rw (kept, no') (any-keep q gone stays step xs (simp no' at h) (ground (arith, k)))
      | inr lost ↦ rw lost (any-keep q gone stays step xs (simp no' at h) (ground (arith, k)))
    ]
  ]

  pub any-update_first :
      (p q : A → Bool) (f : A → A)
      → ((x : A) → q (f x) ≡ q x)
      → (xs : List A) → any q (update_first p f xs) ≡ any q xs
  any-update_first p q f same [] = refl
  any-update_first p q f same (x ∷ xs) = elim (Bool-cases (p x)) [
    | inl yes' ↦ rw (yes', same x) refl
    | inr no' ↦ rw (no', any-update_first p q f same xs) refl
  ]

  pub any-keep-not : (p : A → Bool) (xs : List A) → any p (keep (λ x. not (p x)) xs) ≡ false
  any-keep-not p [] = refl
  any-keep-not p (x ∷ xs) = ground (arith, any-keep-not p xs)

  -- A search that an update elsewhere, or of the row itself, leaves to find the row.
  pub find-update_first_either :
      (p q : A → Bool) (f : A → A)
      → ((x : A) → q (f x) ≡ q x)
      → (xs : List A) {x : A} → find q xs ≡ some x
      → (find q (update_first p f xs) ≡ some x)
        ⊎ ((find q (update_first p f xs) ≡ some (f x)) × (p x ≡ true))
  find-update_first_either p q f same [] h = cc
  find-update_first_either p q f same (y ∷ xs) {x} h = elim (Bool-cases (q y)) [
    | inl here ↦ elim (Bool-cases (p y)) [
      | inl yes' ↦ inr (rw (yes', same y, here) (ground (arith, here)), ground (arith, here))
      | inr no' ↦ inl (rw (no', here) (ground (arith, here)))
    ]
    | inr later ↦ elim (Bool-cases (p y)) [
      | inl yes' ↦ inl (rw (yes', same y, later) (simp later at h))
      | inr no' ↦ rw (no', later) (find-update_first_either p q f same xs (simp later at h))
    ]
  ]

  pub find-remove_first_other :
      (p q : A → Bool)
      → ((x : A) → p x ≡ true → q x ≡ false)
      → (xs : List A) {x : A} → find q xs ≡ some x
      → find q (remove_first p xs) ≡ some x
  find-remove_first_other p q apart [] h = h
  find-remove_first_other p q apart (y ∷ xs) h = elim (Bool-cases (p y)) [
    | inl yes' ↦ rw yes' (simp (apart y yes') at h)
    | inr no' ↦ elim (Bool-cases (q y)) [
      | inl here ↦ rw (no', here) (simp here at h)
      | inr later ↦ rw (no', later) (find-remove_first_other p q apart xs (simp later at h))
    ]
  ]

  pub find-keep :
      (s q : A → Bool) (xs : List A) {x : A}
      → find q xs ≡ some x
      → s x ≡ true
      → find q (keep s xs) ≡ some x
  find-keep s q [] h k = h
  find-keep s q (y ∷ xs) {x} h k = elim (Bool-cases (q y)) [
    | inl here ↦ ground (arith, here, h, k)
    | inr later ↦ elim (Bool-cases (s y)) [
      | inl yes' ↦ rw (yes', later) (find-keep s q xs (simp later at h) k)
      | inr no' ↦ rw no' (find-keep s q xs (simp later at h) k)
    ]
  ]

  -- The row that a search finds is in the table.
  pub find-IsIn : (q : A → Bool) (xs : List A) {x : A} → find q xs ≡ some x → IsIn x xs
  find-IsIn q [] h p k = cc
  find-IsIn q (y ∷ xs) {x} h p k = elim (Bool-cases (q y)) [
    | inl here ↦ ground (arith, here, h, k)
    | inr later ↦ ground (arith, find-IsIn q xs (simp later at h) p k)
  ]

  -- What holds of all rows holds of the one that a search finds.
  pub find-all :
      (q r : A → Bool) (xs : List A) {x : A} → find q xs ≡ some x → all r xs ≡ true → r x ≡ true
  find-all q r [] h k = cc
  find-all q r (y ∷ xs) {x} h k = elim (Bool-cases (q y)) [
    | inl here ↦ ground (arith, here, h, k)
    | inr later ↦ find-all q r xs (simp later at h) (ground (arith, k))
  ]

  -- Where a row that is found after an update comes from.
  pub find-update_first_from :
      (p q : A → Bool) (f : A → A)
      → ((x : A) → q (f x) ≡ q x)
      → (xs : List A) {y : A} → find q (update_first p f xs) ≡ some y
      → (find q xs ≡ some y) ⊎ ((x : A) × (find q xs ≡ some x) × (y ≡ f x))
  find-update_first_from p q f same [] h = cc
  find-update_first_from p q f same (z ∷ xs) {y} h = elim (Bool-cases (p z)) [
    | inl yes' ↦ elim (Bool-cases (q z)) [
      | inl here ↦
          let k : some (f z) ≡ some y = simp (yes', same z, here) at h in
          inr (z, rw here refl, ground (arith, k))
      | inr later ↦ inl (rw later (simp (yes', same z, later) at h))
    ]
    | inr no' ↦ elim (Bool-cases (q z)) [
      | inl here ↦ inl (rw here (simp (no', here) at h))
      | inr later ↦ rw later (find-update_first_from p q f same xs (simp (no', later) at h))
    ]
  ]
