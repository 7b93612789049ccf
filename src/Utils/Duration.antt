-- ===== src/Utils/Duration.antt =====
-- `parseDurationToSeconds` on a number of seconds that the code prints itself.
use fluid_events.Prelude.{
  ℕ, zero, suc, ◌+◌, ◌-◌, ◌*◌, ◌/◌, ◌%◌, ◌<◌, ltb, true, false, [], ◌∷◌, ◌++◌, all, ◌≡◌, refl, inl,
  inr, arith, Bool-cases, ap, ◌∙◌,
}
use fluid_events.Prelude.Texts.{Text, codes, is_digit}
use mathlib.Core.List.{reverse, reverse-append, reverse-cons, reverse-reverse}
use fluid_events.Questionnaire.{is_space, trim, trim_start}
use fluid_events.Utils.{
  starts_with_digit, trimmed_duration, digits_then_unit, parse_duration_to_seconds, decimal_from,
  decimal,
}

-- The number that digits spell.
value_of : ℕ → Text → ℕ
value_of v [] = v
value_of v (c ∷ s) = value_of (v * 10 + (c - b'0')) s

value_of-append : (v : ℕ) (s t : Text) → value_of v (s ++ t) ≡ value_of (value_of v s) t
unfolding value_of
value_of-append v [] t = refl
value_of-append v (c ∷ s) t = value_of-append (v * 10 + (c - b'0')) s t

digits_then_unit-append :
    (v : ℕ) (s t : Text)
    → all is_digit s ≡ true
    → digits_then_unit v (s ++ t) ≡ digits_then_unit (value_of v s) t
unfolding digits_then_unit value_of
digits_then_unit-append v [] t h = refl
digits_then_unit-append v (c ∷ s) t h =
    let here : is_digit c ≡ true = ground (arith, h) in
    rw here (digits_then_unit-append (v * 10 + (c - b'0')) s t (ground (arith, h)))

digit-IsDigit : (d : ℕ) → d < 10 → is_digit (b'0' + d) ≡ true
digit-IsDigit d h = ground arith

all-append_last :
    (s : Text) (c : ℕ)
    → all is_digit s ≡ true
    → is_digit c ≡ true
    → all is_digit (s ++ c ∷ []) ≡ true
all-append_last [] c h k = ground (arith, k)
all-append_last (d ∷ s) c h k = ground (arith, h, all-append_last s c)

decimal_from-small : (fuel n : ℕ) → ltb n 10 ≡ true → decimal_from (suc fuel) n ≡ (b'0' + n) ∷ []
unfolding decimal_from
decimal_from-small fuel n e = rw (e, decimal_from) refl

decimal_from-large :
    (fuel n : ℕ)
    → ltb n 10 ≡ false
    → decimal_from (suc fuel) n ≡ decimal_from fuel (n / 10) ++ (b'0' + n % 10) ∷ []
unfolding decimal_from
decimal_from-large fuel n e = rw (e, decimal_from) refl

decimal_from-digits : (fuel n : ℕ) → all is_digit (decimal_from fuel n) ≡ true
unfolding decimal_from
decimal_from-digits zero n = refl
decimal_from-digits (suc fuel) n = elim (Bool-cases (ltb n 10)) [
  | inl small ↦ ap (all is_digit) (decimal_from-small fuel n small) ∙ ground (arith, small)
  | inr large ↦
      ap (all is_digit) (decimal_from-large fuel n large)
      ∙ all-append_last (decimal_from fuel (n / 10)) (b'0' + n % 10)
          (decimal_from-digits fuel (n / 10)) (digit-IsDigit (n % 10) (omega arith))
]

-- The fuel of `decimal` is enough: the digits spell the number.
value_of-decimal_from : (fuel n : ℕ) → n < fuel → value_of 0 (decimal_from fuel n) ≡ n
unfolding value_of
value_of-decimal_from zero n h = absurd (omega arith)
value_of-decimal_from (suc fuel) n h = elim (Bool-cases (ltb n 10)) [
  | inl small ↦ ap (value_of 0) (decimal_from-small fuel n small) ∙ omega arith
  | inr large ↦
      ap (value_of 0) (decimal_from-large fuel n large)
      ∙ value_of-append 0 (decimal_from fuel (n / 10)) ((b'0' + n % 10) ∷ [])
      ∙ ap (λ v. v * 10 + (b'0' + n % 10 - b'0'))
          (value_of-decimal_from fuel (n / 10) (ground arith))
      ∙ omega arith
]

starts_with_digit-append :
    (s t : Text) → starts_with_digit s ≡ true → starts_with_digit (s ++ t) ≡ true
starts_with_digit-append [] t h = cc
starts_with_digit-append (c ∷ s) t h = h

decimal_from-starts : (fuel n : ℕ) → n < fuel → starts_with_digit (decimal_from fuel n) ≡ true
decimal_from-starts zero n h = absurd (omega arith)
decimal_from-starts (suc fuel) n h = elim (Bool-cases (ltb n 10)) [
  | inl small ↦ ap starts_with_digit (decimal_from-small fuel n small) ∙ ground (arith, small)
  | inr large ↦
      ap starts_with_digit (decimal_from-large fuel n large)
      ∙ starts_with_digit-append (decimal_from fuel (n / 10)) _
          (decimal_from-starts fuel (n / 10) (ground arith))
]

-- A text with no white space at its ends.
trim_start-digits :
    (s : Text) (c : ℕ) (t : Text)
    → all is_digit s ≡ true
    → is_space c ≡ false
    → trim_start (s ++ c ∷ t) ≡ s ++ c ∷ t
unfolding trim_start
trim_start-digits [] c t h k = rw k refl
trim_start-digits (d ∷ s) c t h k = ground (arith, h)

trim-digits :
    (s : Text) (c : ℕ)
    → all is_digit s ≡ true
    → is_space c ≡ false
    → trim (s ++ c ∷ []) ≡ s ++ c ∷ []
unfolding trim
trim-digits s c h k =
    ap (λ x. reverse (trim_start (reverse x))) (trim_start-digits s c [] h k)
    ∙ ap (λ x. reverse (trim_start x)) (reverse-append s (c ∷ []))
    ∙ ap reverse (trim_start-digits [] c (reverse s) refl k)
    ∙ reverse-cons c (reverse s)
    ∙ ap (λ x. x ++ c ∷ []) (reverse-reverse s)

in_seconds : (v : ℕ) → digits_then_unit v (codes "s") ≡ v
unfolding digits_then_unit
in_seconds v = omega arith

-- A number of seconds that is printed in decimal, with the unit s, is read back as it was.
pub parse_duration_to_seconds-decimal :
    (n : ℕ) → parse_duration_to_seconds (decimal n ++ codes "s") ≡ n
unfolding parse_duration_to_seconds decimal
parse_duration_to_seconds-decimal n =
    let digits = decimal_from-digits (suc n) n in
    ap trimmed_duration (trim-digits (decimal_from (suc n) n) b's' digits refl)
    ∙ started (decimal_from (suc n) n ++ codes "s") (
        starts_with_digit-append (decimal_from (suc n) n) (codes "s")
          (decimal_from-starts (suc n) n (omega arith)))
    ∙ digits_then_unit-append 0 (decimal_from (suc n) n) (codes "s") digits
    ∙ ap (λ v. digits_then_unit v (codes "s")) (value_of-decimal_from (suc n) n (omega arith))
    ∙ in_seconds n
  where
    started : (t : Text) → starts_with_digit t ≡ true → trimmed_duration t ≡ digits_then_unit 0 t
    started t h = rw h refl
