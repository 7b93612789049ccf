-- ===== src/Storage.antt =====
-- What the server reads of an image that is sent to it (`apps/api/src/storage/image-guard.ts`).
-- A buffer is the list of its bytes.
pub mod Reading
pub mod Frame
pub mod Upload
use fluid_events.Prelude.{
  ℕ, zero, suc, ◌+◌, ◌*◌, ◌/◌, ◌%◌, Bool, true, false, not, ◌&&◌, ◌||◌, Option, none, some, List,
  [], ◌∷◌, map, length, take, ltb, leb, ◌==◌, if◌then◌else◌, String,
}
use fluid_events.Prelude.Texts.{Text, codes, text_eq}

abbrev pub Buffer : Type 0
Buffer = List ℕ

-- `buffer[i]`, where none is undefined.
abbrev pub get_elem? : Buffer → ℕ → Option ℕ
get_elem? [] i = none
get_elem? (x ∷ b) zero = some x
get_elem? (x ∷ b) (suc i) = get_elem? b i

abbrev pub drop : ℕ → Buffer → Buffer
drop zero b = b
drop (suc n) [] = []
drop (suc n) (x ∷ b) = drop n b

-- A comparison with undefined is false.
abbrev pub holds : (ℕ → Bool) → Option ℕ → Bool
holds test none = false
holds test (some x) = test x

abbrev pub is_byte : Buffer → ℕ → ℕ → Bool
is_byte b i v = holds (λ x. x == v) (get_elem? b i)

-- `buffer.toString('ascii', from, from + 4)`: Node clears the top bit of each byte.
abbrev pub ascii_four : Buffer → ℕ → Text
ascii_four b from = map (λ x. x % 128) (take 4 (drop from b))

-- `readUInt16BE` and its like, where none is the RangeError of a read past the end.
abbrev pub joined : (ℕ → ℕ → ℕ) → Option ℕ → Option ℕ → Option ℕ
joined f none y = none
joined f (some x) none = none
joined f (some x) (some y) = some (f x y)

abbrev pub big : ℕ → Option ℕ → Option ℕ → Option ℕ
big base = joined (λ x y. x * base + y)

abbrev pub little : ℕ → Option ℕ → Option ℕ → Option ℕ
little base = joined (λ x y. x + y * base)

abbrev pub read_u16be : Buffer → ℕ → Option ℕ
read_u16be b i = big 256 (get_elem? b i) (get_elem? b (i + 1))

abbrev pub read_u32be : Buffer → ℕ → Option ℕ
read_u32be b i = big 65536 (read_u16be b i) (read_u16be b (i + 2))

abbrev pub read_u16le : Buffer → ℕ → Option ℕ
read_u16le b i = little 256 (get_elem? b i) (get_elem? b (i + 1))

abbrev pub read_u32le : Buffer → ℕ → Option ℕ
read_u32le b i = little 65536 (read_u16le b i) (read_u16le b (i + 2))

-- The three bytes of a VP8X size; the shifted bytes share no bit, so `|` adds them.
abbrev pub read_u24le : Buffer → ℕ → Option ℕ
read_u24le b i = little 65536 (read_u16le b i) (get_elem? b (i + 2))

pub data FormatImage : Type 0 where
  png : FormatImage
  jpeg : FormatImage
  webp : FormatImage

abbrev is_png : Buffer → Bool
is_png b =
    is_byte b 0 137
    && is_byte b 1 80
    && is_byte b 2 78
    && is_byte b 3 71
    && is_byte b 4 13
    && is_byte b 5 10
    && is_byte b 6 26
    && is_byte b 7 10

unfoldable pub detecter_format_image : Buffer → Option FormatImage
detecter_format_image b =
    if ltb (length b) 16
    then none
    else (if is_png b
        then some FormatImage.png
        else (if is_byte b 0 255 && is_byte b 1 216 && is_byte b 2 255
            then some FormatImage.jpeg
            else (if text_eq (ascii_four b 0) (codes "RIFF")
                  && text_eq (ascii_four b 8) (codes "WEBP")
                then some FormatImage.webp
                else none)))

pub record Dimensions : Type 0 where
  pub largeur : ℕ
  pub hauteur : ℕ

-- What a reading ends in: the dimensions, null, an exception of Node, or a loop with no end.
pub data Outcome : Type 0 where
  dimensions : Dimensions → Outcome
  unreadable : Outcome
  range_error : Outcome
  endless : Outcome

abbrev pub sized : Option ℕ → Option ℕ → Outcome
sized none h = Outcome.range_error
sized (some w) none = Outcome.range_error
sized (some w) (some h) = Outcome.dimensions (record { largeur = w; hauteur = h })

abbrev pub mapped : (ℕ → ℕ) → Option ℕ → Option ℕ
mapped f none = none
mapped f (some x) = some (f x)

unfoldable pub lire_png : Buffer → Outcome
lire_png b =
    if ltb (length b) 24 || not (text_eq (ascii_four b 12) (codes "IHDR"))
    then Outcome.unreadable
    else sized (read_u32be b 16) (read_u32be b 20)

-- The markers that have no length.
abbrev pub stands_alone : ℕ → Bool
stands_alone m = m == 255 || m == 1 || leb 208 m && leb m 217

abbrev pub est_sof : ℕ → Bool
est_sof m = leb 192 m && leb m 207 && not (m == 196) && not (m == 200) && not (m == 204)

-- One round of the loop: it goes on at a position, or ends.
pub data Round : Type 0 where
  goes_on : ℕ → Round
  ends : Outcome → Round

abbrev pub skip_segment : ℕ → Option ℕ → Round
skip_segment position none = Round.ends Outcome.range_error
skip_segment position (some longueur) =
    if ltb longueur 2
    then Round.ends Outcome.unreadable
    else Round.goes_on (position + (2 + longueur))

abbrev pub at_marker : Buffer → ℕ → Option ℕ → Round
at_marker b position marqueur =
    if holds stands_alone marqueur
    then Round.goes_on (position + 2)
    else (if holds est_sof marqueur
        then Round.ends (sized (read_u16be b (position + 7)) (read_u16be b (position + 5)))
        else skip_segment position (read_u16be b (position + 2)))

unfoldable pub jpeg_round : Buffer → ℕ → Round
jpeg_round b position =
    if not (ltb (position + 9) (length b))
    then Round.ends Outcome.unreadable
    else (if not (is_byte b position 255)
        then Round.goes_on (position + 1)
        else at_marker b position (get_elem? b (position + 1)))

-- The loop, on a number of rounds.
unfoldable pub jpeg_from : ℕ → Buffer → ℕ → Outcome
jpeg_from zero b position = Outcome.endless
jpeg_from (suc rounds) b position = elim (jpeg_round b position) [
  | Round.goes_on next ↦ jpeg_from rounds b next
  | Round.ends o ↦ o
]

abbrev pub lire_jpeg : Buffer → Outcome
lire_jpeg b = jpeg_from (suc (length b)) b 2

-- `& 0x3fff`.
abbrev pub low_14 : ℕ → ℕ
low_14 bits = bits % 16384

-- VP8X: the size of the canvas, less one.
unfoldable pub webp_extended : Buffer → Outcome
webp_extended b = sized (mapped suc (read_u24le b 24)) (mapped suc (read_u24le b 27))

unfoldable pub webp_lossy : Buffer → Outcome
webp_lossy b = sized (mapped low_14 (read_u16le b 26)) (mapped low_14 (read_u16le b 28))

-- VP8L: 14 bits of width, then 14 of height.
unfoldable pub webp_lossless : Buffer → Outcome
webp_lossless b =
    let bits = read_u32le b 21 in
    sized (mapped (λ bits'. low_14 bits' + 1) bits)
      (mapped (λ bits'. low_14 (bits' / 16384) + 1) bits)

unfoldable pub lire_webp : Buffer → Outcome
lire_webp b =
    let variante = ascii_four b 12 in
    if text_eq variante (codes "VP8X") && leb 30 (length b)
    then webp_extended b
    else (if text_eq variante (codes "VP8 ") && leb 30 (length b)
        then webp_lossy b
        else (if text_eq variante (codes "VP8L") && leb 25 (length b)
            then webp_lossless b
            else Outcome.unreadable))

unfoldable pub lire_dimensions : Buffer → FormatImage → Outcome
lire_dimensions b FormatImage.png = lire_png b
lire_dimensions b FormatImage.jpeg = lire_jpeg b
lire_dimensions b FormatImage.webp = lire_webp b
