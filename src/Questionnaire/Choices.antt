-- ===== src/Questionnaire/Choices.antt =====
-- The choices of a field with several: each once, and none lost.
use fluid_events.Prelude.{
  ◌≤◌, false, not, ◌&&◌, List, [], ◌∷◌, length, ◌≡◌, ◌↔◌, refl, arith, inl, inr, Bool-cases, ap,
}
use fluid_events.Prelude.Texts.{Text, text_eq, text_eq-eq, text_eq_self}
use fluid_events.Questionnaire.{includes, dedupe}

-- No text twice.
abbrev pub IsDistinct : List Text → Type 0
IsDistinct [] = Unit {0}
IsDistinct (x ∷ xs) = (includes x xs ≡ false) × IsDistinct xs

pub includes-dedupe :
    (seen xs : List Text) (y : Text)
    → includes y (dedupe seen xs) ≡ (includes y xs && not (includes y seen))
unfolding dedupe
includes-dedupe seen [] y = refl
includes-dedupe seen (x ∷ xs) y = elim (Bool-cases (text_eq y x)) [
  | inl same ↦
      let one = text_eq-eq y x same in
      ground (
        arith,
        ap (λ t. includes t seen) one,
        includes-dedupe seen xs y,
        includes-dedupe (x ∷ seen) xs y,
      )
  | inr other ↦ ground (arith, includes-dedupe seen xs y, includes-dedupe (x ∷ seen) xs y)
]

dedupe-IsDistinct : (seen xs : List Text) → IsDistinct (dedupe seen xs)
unfolding dedupe
dedupe-IsDistinct seen [] = tt
dedupe-IsDistinct seen (x ∷ xs) = elim (Bool-cases (includes x seen)) [
  | inl old ↦ rw old (dedupe-IsDistinct seen xs)
  | inr new ↦ rw new (
    ground (arith, includes-dedupe (x ∷ seen) xs x, text_eq_self x),
    dedupe-IsDistinct (x ∷ seen) xs,
  )
]

-- The choices that are kept are the choices that were made, each of them once.
pub dedupe_lem :
    (xs : List Text)
    → IsDistinct (dedupe [] xs) × ((y : Text) → includes y (dedupe [] xs) ≡ includes y xs)
dedupe_lem xs = (dedupe-IsDistinct [] xs, λ y. rw (includes-dedupe [] xs y) (ground arith))

pub length-dedupe : (seen xs : List Text) → length (dedupe seen xs) ≤ length xs
unfolding dedupe
length-dedupe seen [] = omega arith
length-dedupe seen (x ∷ xs) = ground (arith, length-dedupe seen xs, length-dedupe (x ∷ seen) xs)

-- None of them was seen before.
abbrev pub IsFresh : List Text → List Text → Type 0
IsFresh seen [] = Unit {0}
IsFresh seen (x ∷ xs) = (includes x seen ≡ false) × IsFresh (x ∷ seen) xs

pub length-dedupe_iff :
    (seen xs : List Text) → (length (dedupe seen xs) ≡ length xs) ↔ IsFresh seen xs
unfolding dedupe
length-dedupe_iff seen [] = ((λ h. tt), (λ h. refl))
length-dedupe_iff seen (x ∷ xs) = elim (Bool-cases (includes x seen)) [
  | inl old ↦ (
    (λ h. absurd (ground (arith, length-dedupe seen xs))),
    (λ (new, rest). absurd (ground arith)),
  )
  | inr new ↦ (
    (λ h. (new, (length-dedupe_iff (x ∷ seen) xs).0 (ground arith))),
    (λ (n, rest). ground (arith, (length-dedupe_iff (x ∷ seen) xs).1 rest)),
  )
]
