-- ===== src/Storage/Reading.antt =====
-- The reading of dimensions ends, inside the buffer, and a JPEG's dimensions come from a frame header.
use fluid_events.Prelude.Texts.{text_eq, codes}
use fluid_events.Prelude.{
  subst, ltb, leb, ◌||◌, ◌&&◌, not, ℕ, zero, suc, ◌+◌, ◌/◌, ◌≤◌, ◌<◌, ◌≡◌, refl, ◌⊎◌, inl, inr,
  true, false, Bool, if◌then◌else◌, Option, none, some, [], ◌∷◌, length, arith, Bool-cases, ltb→lt,
  leb→le,
}
use fluid_events.Storage.{
  Buffer, get_elem?, holds, is_byte, read_u16be, read_u16le, read_u24le, read_u32be, read_u32le,
  ascii_four, FormatImage, Dimensions, Outcome, sized, lire_png, est_sof, Round, skip_segment,
  at_marker, jpeg_round, jpeg_from, lire_jpeg, lire_webp, lire_dimensions, stands_alone, mapped,
  joined, low_14, webp_extended, webp_lossy, webp_lossless,
}

pub get_elem?-defined : (b : Buffer) (i : ℕ) → i < length b → (x : ℕ) × (get_elem? b i ≡ some x)
get_elem?-defined [] i h = absurd (omega arith)
get_elem?-defined (x ∷ b) zero h = (x, refl)
get_elem?-defined (x ∷ b) (suc i) h = get_elem?-defined b i (omega arith)

-- A reading that returns: dimensions or null, no exception and no endless loop.
unfoldable pub Returns : Outcome → Type 0
Returns o = ((d : Dimensions) × (o ≡ Outcome.dimensions d)) ⊎ (o ≡ Outcome.unreadable)

abbrev Defined : Option ℕ → Type 0
Defined o = (x : ℕ) × (o ≡ some x)

joined-Defined : (f : ℕ → ℕ → ℕ) {o p : Option ℕ} → Defined o → Defined p → Defined (joined f o p)
joined-Defined f (x, e) (y, k) = (f x y, rw (e, k) refl)

mapped-Defined : (f : ℕ → ℕ) {o : Option ℕ} → Defined o → Defined (mapped f o)
mapped-Defined f (x, e) = (f x, rw e refl)

sized-Returns : {o p : Option ℕ} → Defined o → Defined p → Returns (sized o p)
unfolding Returns
sized-Returns (x, e) (y, k) = inl (record { largeur = x; hauteur = y }, rw (e, k) refl)

read_u16be-Defined : (b : Buffer) (i : ℕ) → i + 1 < length b → Defined (read_u16be b i)
read_u16be-Defined b i h =
    joined-Defined _ (get_elem?-defined b i (omega arith)) (get_elem?-defined b (i + 1) h)

unfoldable pub IsProgress : Buffer → ℕ → Round → Type 0
IsProgress b position (Round.goes_on next) = (position < next) × (position + 9 < length b)
IsProgress b position (Round.ends o) = Returns o

skip_segment-IsProgress :
    (b : Buffer) (position : ℕ) (o : Option ℕ)
    → Defined o
    → position + 9 < length b
    → IsProgress b position (skip_segment position o)
unfolding IsProgress Returns
skip_segment-IsProgress b position none (x, e) h = cc
skip_segment-IsProgress b position (some n) d h = ground arith

at_marker-IsProgress :
    (b : Buffer) (position : ℕ) (m : Option ℕ)
    → position + 9 < length b
    → IsProgress b position (at_marker b position m)
unfolding IsProgress
at_marker-IsProgress b position m h = elim (Bool-cases (holds stands_alone m)) [
  | inl yes' ↦ rw yes' (omega arith, h)
  | inr no' ↦ elim (Bool-cases (holds est_sof m)) [
    | inl sof ↦
        rw (no', sof)
          (sized-Returns (read_u16be-Defined b (position + 7) (omega arith))
            (read_u16be-Defined b (position + 5) (omega arith)))
    | inr other ↦
        rw (no', other)
          (skip_segment-IsProgress b position _ (read_u16be-Defined b (position + 2) (omega arith))
            h)
  ]
]

pub jpeg_round-IsProgress :
    (b : Buffer) (position : ℕ) → IsProgress b position (jpeg_round b position)
unfolding IsProgress Returns jpeg_round
jpeg_round-IsProgress b position = elim (Bool-cases (ltb (position + 9) (length b))) [
  | inr no' ↦ rw no' (inr refl)
  | inl yes' ↦ elim (Bool-cases (is_byte b position 255)) [
    | inl marker ↦
        rw (yes', marker)
          (at_marker-IsProgress b position (get_elem? b (position + 1))
            (ltb→lt (position + 9) (length b) yes'))
    | inr other ↦ rw (yes', other) (omega arith, ltb→lt (position + 9) (length b) yes')
  ]
]

-- To split on a round and keep what it shows.
pub Round-cases :
    (r : Round) → ((next : ℕ) × (r ≡ Round.goes_on next)) ⊎ ((o : Outcome) × (r ≡ Round.ends o))
Round-cases (Round.goes_on next) = inl (next, refl)
Round-cases (Round.ends o) = inr (o, refl)

pub jpeg_from-Returns :
    (rounds : ℕ) (b : Buffer) (position : ℕ)
    → 0 < rounds
    → length b ≤ position + rounds
    → Returns (jpeg_from rounds b position)
unfolding jpeg_from IsProgress
jpeg_from-Returns zero b position h k = absurd (omega arith)
jpeg_from-Returns (suc rounds) b position h k = elim (Round-cases (jpeg_round b position)) [
  | inl (next, e) ↦
      let p : (position < next) × (position + 9 < length b) =
        subst (IsProgress b position) e (jpeg_round-IsProgress b position) in
      rw (e, jpeg_from)
        (jpeg_from-Returns rounds b next (omega (arith, p.0, p.1)) (omega (arith, p.0)))
  | inr (o, e) ↦
      let p : IsProgress b position (Round.ends o) =
        subst (IsProgress b position) e (jpeg_round-IsProgress b position) in
      rw (e, jpeg_from) p
]

lire_jpeg-Returns : (b : Buffer) → Returns (lire_jpeg b)
lire_jpeg-Returns b = jpeg_from-Returns (suc (length b)) b 2 (omega arith) (omega arith)

read_u16le-Defined : (b : Buffer) (i : ℕ) → i + 1 < length b → Defined (read_u16le b i)
read_u16le-Defined b i h =
    joined-Defined _ (get_elem?-defined b i (omega arith)) (get_elem?-defined b (i + 1) h)

read_u24le-Defined : (b : Buffer) (i : ℕ) → i + 2 < length b → Defined (read_u24le b i)
read_u24le-Defined b i h =
    joined-Defined _ (read_u16le-Defined b i (omega arith)) (get_elem?-defined b (i + 2) h)

read_u32le-Defined : (b : Buffer) (i : ℕ) → i + 3 < length b → Defined (read_u32le b i)
read_u32le-Defined b i h =
    joined-Defined _ (read_u16le-Defined b i (omega arith))
      (read_u16le-Defined b (i + 2) (omega arith))

read_u32be-Defined : (b : Buffer) (i : ℕ) → i + 3 < length b → Defined (read_u32be b i)
read_u32be-Defined b i h =
    joined-Defined _ (read_u16be-Defined b i (omega arith))
      (read_u16be-Defined b (i + 2) (omega arith))

lire_png-Returns : (b : Buffer) → Returns (lire_png b)
unfolding lire_png Returns
lire_png-Returns b =
    elim (Bool-cases (ltb (length b) 24 || not (text_eq (ascii_four b 12) (codes "IHDR")))) [
      | inl yes' ↦ rw yes' (inr refl)
      | inr no' ↦
          let long : 24 ≤ length b = ground arith in
          rw no' (
            sized-Returns (read_u32be-Defined b 16 (omega (arith, long)))
              (read_u32be-Defined b 20 (omega (arith, long))))
    ]

-- A branch of the WEBP reader, which a test of the length guards.
guarded-Returns :
    (b : Buffer) (n : ℕ) (variant : Bool) (o rest : Outcome)
    → (n ≤ length b → Returns o)
    → Returns rest
    → Returns (if variant && leb n (length b) then o else rest)
guarded-Returns b n false o rest h k = k
guarded-Returns b n true o rest h k = elim (Bool-cases (leb n (length b))) [
  | inl yes' ↦ rw yes' (h (leb→le n (length b) yes'))
  | inr no' ↦ rw no' k
]

unreadable-Returns : Returns Outcome.unreadable
unfolding Returns
unreadable-Returns = inr refl

lire_webp-Returns : (b : Buffer) → Returns (lire_webp b)
unfolding lire_webp webp_extended webp_lossy webp_lossless
lire_webp-Returns b =
    guarded-Returns b 30 (text_eq (ascii_four b 12) (codes "VP8X")) _ _
      (λ h.
        sized-Returns (mapped-Defined suc (read_u24le-Defined b 24 (omega arith)))
          (mapped-Defined suc (read_u24le-Defined b 27 (omega arith))))
      (guarded-Returns b 30 (text_eq (ascii_four b 12) (codes "VP8 ")) _ _
        (λ h.
          sized-Returns (mapped-Defined low_14 (read_u16le-Defined b 26 (omega arith)))
            (mapped-Defined low_14 (read_u16le-Defined b 28 (omega arith))))
        (guarded-Returns b 25 (text_eq (ascii_four b 12) (codes "VP8L")) _ _
          (λ h.
            sized-Returns
              (mapped-Defined (λ bits. low_14 bits + 1) (read_u32le-Defined b 21 (omega arith)))
              (mapped-Defined (λ bits. low_14 (bits / 16384) + 1)
                (read_u32le-Defined b 21 (omega arith))))
          unreadable-Returns))

-- The dimensions of any buffer, read as any of the three formats, are found or refused: the search
-- for a JPEG's frame header ends, and no reader reads past the end of the buffer.
pub lire_dimensions-Returns : (b : Buffer) (f : FormatImage) → Returns (lire_dimensions b f)
unfolding lire_dimensions
lire_dimensions-Returns b FormatImage.png = lire_png-Returns b
lire_dimensions-Returns b FormatImage.jpeg = lire_jpeg-Returns b
lire_dimensions-Returns b FormatImage.webp = lire_webp-Returns b
