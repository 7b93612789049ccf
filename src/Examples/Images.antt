-- ===== src/Examples/Images.antt =====
-- The theorems on images: a JPEG with one segment before its frame header.
use fluid_events.Prelude.{Result, ◌⊎◌, ℕ, ◌≤◌, ◌≡◌, refl, [], ◌∷◌, ok, some}
use fluid_events.Storage.{
  Buffer, FormatImage, detecter_format_image, Outcome, Dimensions, lire_jpeg, lire_dimensions,
  jpeg_from, jpeg_round,
}
use fluid_events.Storage.Reading.{Returns, lire_dimensions-Returns}
use fluid_events.Storage.Frame.{IsFrame, lire_jpeg-IsFrame}
use fluid_events.Storage.Upload.{valider_image, valider_image_cases, IsFit, IsRefused, StoredAs}

abbrev photo : Buffer
photo =
    255 ∷ 216 ∷ 255 ∷ 224 ∷ 0 ∷ 4 ∷ 1 ∷ 2 ∷ 255 ∷ 192 ∷ 0 ∷ 11 ∷ 8 ∷ 3 ∷ 32 ∷ 4 ∷ 0 ∷ 1 ∷ 17 ∷ []

abbrev photo_dims : Dimensions
photo_dims = record { largeur = 1024; hauteur = 800 }

lire_dimensions-Returns_example : Returns (lire_dimensions photo FormatImage.jpeg)
lire_dimensions-Returns_example = lire_dimensions-Returns photo FormatImage.jpeg

size_of_photo : lire_jpeg photo ≡ Outcome.dimensions photo_dims
unfolding jpeg_from jpeg_round
size_of_photo = refl

lire_jpeg-IsFrame_example : (q : ℕ) × (2 ≤ q) × IsFrame photo photo_dims q
unfolding jpeg_from jpeg_round
lire_jpeg-IsFrame_example = lire_jpeg-IsFrame photo photo_dims refl

valider_image_cases_example :
    (r : Result StoredAs) × (valider_image photo 500 ≡ some r)
    × (((s : StoredAs) × (r ≡ ok s) × IsFit photo 500 s) ⊎ IsRefused r)
valider_image_cases_example = valider_image_cases photo 500

-- A fill byte is skipped together with the byte after it, so that the frame header is missed.
filled_photo :
    lire_jpeg (255 ∷ 216 ∷ 255 ∷ 255 ∷ 192 ∷ 0 ∷ 11 ∷ 8 ∷ 3 ∷ 32 ∷ 4 ∷ 0 ∷ 1 ∷ 17 ∷ 0 ∷ 0 ∷ [])
    ≡ Outcome.unreadable
unfolding jpeg_from jpeg_round
filled_photo = refl

-- Bytes that are no ASCII pass for RIFF and WEBP, since the top bit of each is cleared.
masked_webp :
    detecter_format_image
      (210 ∷ 201 ∷ 198 ∷ 198 ∷ 0 ∷ 0 ∷ 0 ∷ 0 ∷ 215 ∷ 197 ∷ 194 ∷ 208 ∷ 0 ∷ 0 ∷ 0 ∷ 0 ∷ [])
    ≡ some FormatImage.webp
unfolding detecter_format_image
masked_webp = refl
