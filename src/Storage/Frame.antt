-- ===== src/Storage/Frame.antt =====
-- Where the dimensions of a JPEG come from (`apps/api/src/storage/image-guard.ts`, `lireJpeg`).
use fluid_events.Prelude.{
  ap, subst, ◌≢◌, ◌<◌, ℕ, zero, suc, ◌+◌, ◌≤◌, ◌≡◌, refl, ◌∙◌, sym, true, Option, none, some, inl,
  inr, ltb, arith, Bool-cases, length,
}
use fluid_events.Storage.{
  Buffer, get_elem?, holds, is_byte, read_u16be, Dimensions, Outcome, sized, stands_alone, est_sof,
  Round, skip_segment, jpeg_round, jpeg_from, lire_jpeg,
}
use fluid_events.Storage.Reading.{jpeg_round-IsProgress, IsProgress, Round-cases}

-- A frame header stands at a position: FF, the marker of a start of frame, and the two sizes.
unfoldable pub IsFrame : Buffer → Dimensions → ℕ → Type 0
IsFrame b d q =
    (is_byte b q 255 ≡ true)
    × (holds est_sof (get_elem? b (q + 1)) ≡ true)
    × (read_u16be b (q + 5) ≡ some d.hauteur)
    × (read_u16be b (q + 7) ≡ some d.largeur)

sized-eq-dimensions :
    (w h : Option ℕ) (d : Dimensions)
    → sized w h ≡ Outcome.dimensions d
    → (w ≡ some d.largeur) × (h ≡ some d.hauteur)
sized-eq-dimensions none h d e = cc
sized-eq-dimensions (some w) none d e = cc
sized-eq-dimensions (some w) (some h) d e = ground arith

skip_segment-no_dimensions :
    (position : ℕ) (o : Option ℕ) (d : Dimensions)
    → skip_segment position o ≢ Round.ends (Outcome.dimensions d)
skip_segment-no_dimensions position none d e = cc
skip_segment-no_dimensions position (some n) d e = elim (Bool-cases (ltb n 2)) [
  | inl yes' ↦ ground arith
  | inr no' ↦ ground arith
]

round_outcome : Round → Outcome
round_outcome (Round.goes_on next) = Outcome.unreadable
round_outcome (Round.ends o) = o

jpeg_round-IsFrame :
    (b : Buffer) (position : ℕ) (d : Dimensions)
    → jpeg_round b position ≡ Round.ends (Outcome.dimensions d)
    → IsFrame b d position
unfolding jpeg_round IsFrame round_outcome
jpeg_round-IsFrame b position d e = elim (Bool-cases (ltb (position + 9) (length b))) [
  | inr no' ↦ ground (arith, no')
  | inl yes' ↦ elim (Bool-cases (is_byte b position 255)) [
    | inr other ↦ ground (arith, yes', other)
    | inl marker ↦ elim (Bool-cases (holds stands_alone (get_elem? b (position + 1)))) [
      | inl alone ↦ ground (arith, alone)
      | inr no' ↦ elim (Bool-cases (holds est_sof (get_elem? b (position + 1)))) [
        | inr other ↦ absurd (
            skip_segment-no_dimensions position (read_u16be b (position + 2)) d
              (simp (yes', marker, no', other) at e))
        | inl sof ↦
            let sizes =
              sized-eq-dimensions (read_u16be b (position + 7)) (read_u16be b (position + 5)) d
                (ap round_outcome (simp (yes', marker, no', sof) at e)) in
            (marker, sof, sizes.1, sizes.0)
      ]
    ]
  ]
]

-- One round of the loop, by what the round says.
jpeg_from-next :
    (rounds : ℕ) (b : Buffer) (position : ℕ) {next : ℕ}
    → jpeg_round b position ≡ Round.goes_on next
    → jpeg_from (suc rounds) b position ≡ jpeg_from rounds b next
unfolding jpeg_from
jpeg_from-next rounds b position e = rw (e, jpeg_from) refl

jpeg_from-end :
    (rounds : ℕ) (b : Buffer) (position : ℕ) {o : Outcome}
    → jpeg_round b position ≡ Round.ends o
    → jpeg_from (suc rounds) b position ≡ o
unfolding jpeg_from
jpeg_from-end rounds b position e = rw (e, jpeg_from) refl

pub jpeg_from-IsFrame :
    (rounds : ℕ) (b : Buffer) (position : ℕ) (d : Dimensions)
    → jpeg_from rounds b position ≡ Outcome.dimensions d
    → (q : ℕ) × (position ≤ q) × IsFrame b d q
unfolding IsProgress jpeg_from
jpeg_from-IsFrame zero b position d h = cc
jpeg_from-IsFrame (suc rounds) b position d h = elim (Round-cases (jpeg_round b position)) [
  | inl (next, e) ↦
      let p : (position < next) × (position + 9 < length b) =
        subst (IsProgress b position) e (jpeg_round-IsProgress b position) in
      let (q, k, frame) =
        jpeg_from-IsFrame rounds b next d (sym (jpeg_from-next rounds b position e) ∙ h) in
      (q, omega (arith, p.0), frame)
  | inr (o, e) ↦
      let same : o ≡ Outcome.dimensions d = sym (jpeg_from-end rounds b position e) ∙ h in
      (position, omega arith, jpeg_round-IsFrame b position d (e ∙ ap Round.ends same))
]

-- The dimensions that are read of a JPEG are those of a frame header of the buffer: after the two
-- first bytes there is an FF, a marker of a start of frame, and, five and seven bytes on, the height
-- and the width.
pub lire_jpeg-IsFrame :
    (b : Buffer) (d : Dimensions)
    → lire_jpeg b ≡ Outcome.dimensions d
    → (q : ℕ) × (2 ≤ q) × IsFrame b d q
lire_jpeg-IsFrame b d h = jpeg_from-IsFrame (suc (length b)) b 2 d h
