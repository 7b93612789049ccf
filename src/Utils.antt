-- ===== src/Utils.antt =====
-- packages/utils/src/index.ts: durations, colours and the escaping of HTML. Texts are lists of UTF-16 code units.
pub mod Duration
pub mod Escape
use fluid_events.Prelude.{
  ℕ, zero, suc, ◌+◌, ◌-◌, ◌*◌, ◌/◌, ◌%◌, ◌==◌, ltb, leb, if◌then◌else◌, Bool, true, false, not,
  ◌&&◌, ◌||◌, Option, none, some, List, [], ◌∷◌, ◌++◌, map, keep, length, all,
}
use fluid_events.Prelude.Texts.{Text, codes, text_eq, is_digit, is_upper, to_upper}
use fluid_events.Payments.{Key, Time}
use fluid_events.Questionnaire.{is_space, trim}

abbrev pub skip_spaces : Text → Text
skip_spaces [] = []
skip_spaces (c ∷ s) = if is_space c then skip_spaces s else c ∷ s

-- The seconds of a unit.
abbrev multiplier : ℕ → Option ℕ
multiplier c =
    if c == b's'
    then some 1
    else (if c == b'm'
        then some 60
        else (if c == b'h' then some 3600 else (if c == b'd' then some 86400 else none)))

abbrev pub scaled : ℕ → Option ℕ → ℕ
scaled value none = 3600
scaled value (some m) = value * m

-- What may follow the digits: white space, and at most one unit.
abbrev pub with_unit : ℕ → Text → ℕ
with_unit value [] = value
with_unit value (c ∷ []) = scaled value (multiplier c)
with_unit value (c ∷ d ∷ s) = 3600

-- `parseInt` of the digits and their unit; numbers have no bound here.
unfoldable pub digits_then_unit : ℕ → Text → ℕ
digits_then_unit value [] = with_unit value []
digits_then_unit value (c ∷ s) =
    let more = digits_then_unit (value * 10 + (c - b'0')) s in
    if is_digit c then more else with_unit value (skip_spaces (c ∷ s))

abbrev pub starts_with_digit : Text → Bool
starts_with_digit [] = false
starts_with_digit (c ∷ s) = is_digit c

abbrev pub trimmed_duration : Text → ℕ
trimmed_duration s = if starts_with_digit s then digits_then_unit 0 s else 3600

unfoldable pub parse_duration_to_seconds : Text → ℕ
parse_duration_to_seconds dur = trimmed_duration (trim dur)

-- A number in decimal, as a template literal prints it; the fuel is above the number.
unfoldable pub decimal_from : ℕ → ℕ → Text
decimal_from zero n = []
decimal_from (suc fuel) n = elim (ltb n 10) [
  | true ↦ (b'0' + n) ∷ []
  | false ↦ decimal_from fuel (n / 10) ++ (b'0' + n % 10) ∷ []
]

unfoldable pub decimal : ℕ → Text
decimal n = decimal_from (suc n) n

abbrev is_hex_digit : ℕ → Bool
is_hex_digit c = is_digit c || leb b'A' c && leb c b'F' || leb b'a' c && leb c b'f'

unfoldable pub is_valid_hex_color : Text → Bool
is_valid_hex_color [] = false
is_valid_hex_color (c ∷ s) = c == b'#' && (length s == 6) && all is_hex_digit s

abbrev text_or_empty : Option Text → Text
text_or_empty none = []
text_or_empty (some t) = t

unfoldable pub sanitize_bg_color : Option Text → Text
sanitize_bg_color color =
    if is_valid_hex_color (text_or_empty color) then text_or_empty color else codes "#d4ac0d"

-- `replace` with a global pattern of one character.
unfoldable pub replace_all : ℕ → Text → Text → Text
replace_all c entity [] = []
replace_all c entity (x ∷ s) =
    let rest = replace_all c entity s in if x == c then entity ++ rest else x ∷ rest

unfoldable pub escape_html : Text → Text
escape_html s = replace_all b'\'' (codes "&#39;") (
    replace_all b'"' (codes "&quot;") (
      replace_all b'>' (codes "&gt;")
        (replace_all b'<' (codes "&lt;") (replace_all b'&' (codes "&amp;") s))))
