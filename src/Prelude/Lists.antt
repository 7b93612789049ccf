-- ===== src/Prelude/Lists.antt =====
-- Lists measured by native numbers, and predicates and searches over them.
use Prim.Native.Nat.{ℕ, zero, suc, ◌+◌}
use mathlib.Core.Path.{◌≡◌, refl, ap}
use mathlib.Core.Logic.{inl, inr}
use mathlib.Core.Bool.{Bool, true, false, ◌&&◌, ◌||◌}
use mathlib.Core.List.{List, [], ◌∷◌, ◌++◌}
use mathlib.Core.Option.{Option, none, some}
use native.Mathlib.Omega.{arith}
use fluid_events.Prelude.Tests.{if◌then◌else◌, Bool-cases}

module _ {ℓ} {A : Type ℓ} where
  abbrev pub length : List A → ℕ
  length [] = 0
  length (x ∷ xs) = suc (length xs)

  pub length-append : (xs ys : List A) → length (xs ++ ys) ≡ length xs + length ys
  length-append [] ys = omega arith
  length-append (x ∷ xs) ys = omega (arith, length-append xs ys)

  abbrev pub replicate : ℕ → A → List A
  replicate zero a = []
  replicate (suc n) a = a ∷ replicate n a

  abbrev pub take : ℕ → List A → List A
  take zero xs = []
  take (suc n) [] = []
  take (suc n) (x ∷ xs) = x ∷ take n xs

  -- Array.prototype.some, every, find and filter, with a Boolean test.
  abbrev pub any : (A → Bool) → List A → Bool
  any p [] = false
  any p (x ∷ xs) = p x || any p xs

  abbrev pub all : (A → Bool) → List A → Bool
  all p [] = true
  all p (x ∷ xs) = p x && all p xs

  abbrev pub find : (A → Bool) → List A → Option A
  find p [] = none
  find p (x ∷ xs) = if p x then some x else find p xs

  abbrev pub keep : (A → Bool) → List A → List A
  keep p [] = []
  keep p (x ∷ xs) = let rest = keep p xs in if p x then x ∷ rest else rest

module _ {ℓ κ} {A : Type ℓ} (P : A → Type κ) where
  abbrev pub All : List A → Type κ
  All [] = Unit
  All (x ∷ xs) = P x × All xs

  pub All-append : (xs ys : List A) → All xs → All ys → All (xs ++ ys)
  All-append [] ys _ k = k
  All-append (x ∷ xs) ys (p, h) k = (p, All-append xs ys h k)

-- A row found by a test, its update and its deletion.
module _ {ℓ} {A : Type ℓ} (p : A → Bool) where
  abbrev pub update_first : (A → A) → List A → List A
  update_first f [] = []
  update_first f (x ∷ xs) = let rest = update_first f xs in if p x then f x ∷ xs else x ∷ rest

  abbrev pub remove_first : List A → List A
  remove_first [] = []
  remove_first (x ∷ xs) = let rest = remove_first xs in if p x then xs else x ∷ rest

  pub find-holds : (xs : List A) {x : A} → find p xs ≡ some x → p x ≡ true
  find-holds [] e = cc
  find-holds (y ∷ xs) e = elim (Bool-cases (p y)) [
    | inl yes' ↦ ground (arith, yes')
    | inr no' ↦ find-holds xs (simp no' at e)
  ]

  pub find-update_first :
      (f : A → A) (xs : List A) {x : A}
      → find p xs ≡ some x
      → p (f x) ≡ true
      → find p (update_first f xs) ≡ some (f x)
  find-update_first f [] e h = cc
  find-update_first f (y ∷ xs) {x} e h = elim (Bool-cases (p y)) [
    | inl yes' ↦ ground arith
    | inr no' ↦ rw (no', no') (find-update_first f xs (simp no' at e) h)
  ]

  -- An update that a second one undoes.
  pub update_first-update_first :
      (f g : A → A) (xs : List A) {x : A}
      → find p xs ≡ some x
      → p (f x) ≡ true
      → g (f x) ≡ x
      → update_first g (update_first f xs) ≡ xs
  update_first-update_first f g [] e h k = cc
  update_first-update_first f g (y ∷ xs) {x} e h k = elim (Bool-cases (p y)) [
    | inl yes' ↦ ground arith
    | inr no' ↦
        rw (no', no') (ap (λ zs. y ∷ zs) (update_first-update_first f g xs (simp no' at e) h k))
  ]

  -- Rows outside a part of the table.
  pub keep-update_first :
      (q : A → Bool) (f : A → A) (xs : List A) {x : A}
      → find p xs ≡ some x
      → q x ≡ false
      → q (f x) ≡ false
      → keep q (update_first f xs) ≡ keep q xs
  keep-update_first q f [] e h k = refl
  keep-update_first q f (y ∷ xs) {x} e h k = elim (Bool-cases (p y)) [
    | inl yes' ↦ ground arith
    | inr no' ↦ rw (no', keep-update_first q f xs (simp no' at e) h k)
  ]

  pub keep-remove_first :
      (q : A → Bool) (xs : List A) {x : A}
      → find p xs ≡ some x
      → q x ≡ false
      → keep q (remove_first xs) ≡ keep q xs
  keep-remove_first q [] e h = refl
  keep-remove_first q (y ∷ xs) {x} e h = elim (Bool-cases (p y)) [
    | inl yes' ↦ ground arith
    | inr no' ↦ rw (no', keep-remove_first q xs (simp no' at e) h)
  ]

  pub find-any : (xs : List A) {x : A} → find p xs ≡ some x → any p xs ≡ true
  find-any [] e = cc
  find-any (y ∷ xs) e = elim (Bool-cases (p y)) [
    | inl yes' ↦ rw yes' refl
    | inr no' ↦ rw (no', find-any xs (simp no' at e))
  ]
