-- ===== src/Storage/Upload.antt =====
-- An image that is sent to the API, judged by its content (`apps/api/src/storage/storage.controller.ts`).
use fluid_events.Prelude.{
  ℕ, ◌≤◌, ◌*◌, ◌≡◌, refl, ◌⊎◌, inl, inr, Option, none, some, ltb, if◌then◌else◌, ◌||◌, Result,
  ErrorCode, ok, thrown, ◌>>◌, refuse_if, String, arith, Option-cases, Bool-cases,
}
use fluid_events.Storage.{
  Buffer, FormatImage, detecter_format_image, Dimensions, Outcome, lire_dimensions,
}
use fluid_events.Storage.Reading.{Returns, lire_dimensions-Returns}

abbrev pub max_image_size : ℕ
max_image_size = 3 * 1024 * 1024

abbrev pub dimension_max : ℕ
dimension_max = 4000

abbrev extension_par_format : FormatImage → String
extension_par_format FormatImage.png = "png"
extension_par_format FormatImage.jpeg = "jpeg"
extension_par_format FormatImage.webp = "webp"

abbrev mime_par_format : FormatImage → String
mime_par_format FormatImage.png = "image/png"
mime_par_format FormatImage.jpeg = "image/jpeg"
mime_par_format FormatImage.webp = "image/webp"

pub record StoredAs : Type 0 where
  pub extension : String
  pub mimetype : String

abbrev pub stored_as : FormatImage → StoredAs
stored_as f = record { extension = extension_par_format f; mimetype = mime_par_format f }

-- A null becomes the refusal; an exception of Node, like a loop with no end, leaves no answer of
-- the function.
unfoldable pub within_limits : FormatImage → Outcome → Option (Result StoredAs)
within_limits f (Outcome.dimensions d) = some (
    refuse_if (ltb dimension_max d.largeur || ltb dimension_max d.hauteur)
      ErrorCode.design_image_too_large
    >> ok (stored_as f))
within_limits f Outcome.unreadable = some (thrown ErrorCode.design_image_format_invalid)
within_limits f Outcome.range_error = none
within_limits f Outcome.endless = none

unfoldable pub sized_image : Buffer → ℕ → Option FormatImage → Option (Result StoredAs)
sized_image b taille none = some (thrown ErrorCode.design_image_format_invalid)
sized_image b taille (some f) =
    if ltb max_image_size taille
    then some (thrown ErrorCode.design_image_too_large)
    else within_limits f (lire_dimensions b f)

unfoldable pub valider_image : Buffer → ℕ → Option (Result StoredAs)
valider_image b taille = sized_image b taille (detecter_format_image b)

-- How an image of a format is stored: never under a name or a type of another kind of file.
pub IsNamed : FormatImage → StoredAs → Type 0
IsNamed FormatImage.png s = (s.extension ≡ "png") × (s.mimetype ≡ "image/png")
IsNamed FormatImage.jpeg s = (s.extension ≡ "jpeg") × (s.mimetype ≡ "image/jpeg")
IsNamed FormatImage.webp s = (s.extension ≡ "webp") × (s.mimetype ≡ "image/webp")

stored_as-IsNamed : (f : FormatImage) → IsNamed f (stored_as f)
unfolding IsNamed
stored_as-IsNamed FormatImage.png = (refl, refl)
stored_as-IsNamed FormatImage.jpeg = (refl, refl)
stored_as-IsNamed FormatImage.webp = (refl, refl)

-- An image that may be stored: its format is the one of its first bytes, and its size and its
-- dimensions are within the limits.
pub IsFit : Buffer → ℕ → StoredAs → Type 0
IsFit b taille s =
    (f : FormatImage) × (detecter_format_image b ≡ some f)
    × IsNamed f s
    × (taille ≤ max_image_size)
    × (d : Dimensions) × (lire_dimensions b f ≡ Outcome.dimensions d)
    × (d.largeur ≤ dimension_max)
    × (d.hauteur ≤ dimension_max)

-- A refusal, by one of the two codes of the function.
pub IsRefused : Result StoredAs → Type 0
IsRefused r =
    (r ≡ thrown ErrorCode.design_image_format_invalid)
    ⊎ (r ≡ thrown ErrorCode.design_image_too_large)

within_limits-cases :
    (f : FormatImage) (o : Outcome)
    → Returns o
    → ((r : Result StoredAs) × (within_limits f o ≡ some r) × IsRefused r)
      ⊎ ((d : Dimensions) × (o ≡ Outcome.dimensions d)
          × (d.largeur ≤ dimension_max)
          × (d.hauteur ≤ dimension_max)
          × (within_limits f o ≡ some (ok (stored_as f))))
unfolding within_limits IsRefused Returns
within_limits-cases f (Outcome.dimensions d) h =
    elim (Bool-cases (ltb dimension_max d.largeur || ltb dimension_max d.hauteur)) [
      | inl yes' ↦ inl (thrown ErrorCode.design_image_too_large, rw yes' refl, inr refl)
      | inr no' ↦ inr (d, refl, ground arith, ground arith, rw no' refl)
    ]
within_limits-cases f Outcome.unreadable h =
    inl (thrown ErrorCode.design_image_format_invalid, refl, inl refl)
within_limits-cases f Outcome.range_error (inl (d, e)) = cc
within_limits-cases f Outcome.range_error (inr e) = cc
within_limits-cases f Outcome.endless (inl (d, e)) = cc
within_limits-cases f Outcome.endless (inr e) = cc

-- Every image is answered: it is stored as png, jpeg or webp, under the extension and the type that
-- bear the name of the format that its first bytes show, and then its declared size and its
-- dimensions are within the limits, or it is refused by one of two codes.
pub valider_image_cases :
    (b : Buffer) (taille : ℕ)
    → (r : Result StoredAs) × (valider_image b taille ≡ some r)
      × (((s : StoredAs) × (r ≡ ok s) × IsFit b taille s) ⊎ IsRefused r)
unfolding valider_image sized_image IsFit IsRefused
valider_image_cases b taille = elim (Option-cases (detecter_format_image b)) [
  | inl e ↦ (thrown ErrorCode.design_image_format_invalid, rw e refl, inr (inl refl))
  | inr (f, e) ↦ elim (Bool-cases (ltb max_image_size taille)) [
    | inl big ↦ (thrown ErrorCode.design_image_too_large, rw (e, big) refl, inr (inr refl))
    | inr small ↦ elim (within_limits-cases f (lire_dimensions b f) (lire_dimensions-Returns b f)) [
      | inl (r, k, refused) ↦ (r, rw (e, small) k, inr refused)
      | inr (d, k, w, h, returns) ↦ (
        ok (stored_as f),
        rw (e, small) returns,
        inl (stored_as f, refl, (f, e, stored_as-IsNamed f, ground arith, d, k, w, h)),
      )
    ]
  ]
]
