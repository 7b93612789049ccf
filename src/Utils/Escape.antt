-- ===== src/Utils/Escape.antt =====
-- What `escapeHtml` writes (`packages/utils/src/index.ts`).
use fluid_events.Prelude.{
  ℕ, ◌==◌, if◌then◌else◌, [], ◌∷◌, ◌++◌, ◌≡◌, refl, inl, inr, Bool-cases, ap, ◌∙◌, sym,
}
use fluid_events.Prelude.Texts.{Text, codes}
use fluid_events.Utils.{replace_all, escape_html}

-- Each character on its own.
abbrev pub entity_of : ℕ → Text
entity_of c =
    if c == b'&'
    then codes "&amp;"
    else (if c == b'<'
        then codes "&lt;"
        else (if c == b'>'
            then codes "&gt;"
            else (if c == b'"'
                then codes "&quot;"
                else (if c == b'\'' then codes "&#39;" else c ∷ []))))

unfoldable pub each : (ℕ → Text) → Text → Text
each f [] = []
each f (c ∷ s) = f c ++ each f s

append_assoc : (s t u : Text) → (s ++ t) ++ u ≡ s ++ (t ++ u)
append_assoc [] t u = refl
append_assoc (c ∷ s) t u = ap (λ r. c ∷ r) (append_assoc s t u)

replace_all-append :
    (c : ℕ) (entity s t : Text)
    → replace_all c entity (s ++ t) ≡ replace_all c entity s ++ replace_all c entity t
unfolding replace_all
replace_all-append c entity [] t = refl
replace_all-append c entity (x ∷ s) t = elim (Bool-cases (x == c)) [
  | inl yes' ↦
      rw (yes', replace_all-append c entity s t)
        (sym (append_assoc entity (replace_all c entity s) (replace_all c entity t)))
  | inr no' ↦ rw (no', replace_all-append c entity s t) refl
]

escape_html-append : (s t : Text) → escape_html (s ++ t) ≡ escape_html s ++ escape_html t
unfolding escape_html
escape_html-append s t = rw (replace_all-append b'&' (codes "&amp;") s t) (
    rw (replace_all-append b'<' (codes "&lt;") _ _) (
      rw (replace_all-append b'>' (codes "&gt;") _ _) (
        rw (replace_all-append b'"' (codes "&quot;") _ _)
          (replace_all-append b'\'' (codes "&#39;") _ _))))

escape_html-one : (c : ℕ) → escape_html (c ∷ []) ≡ entity_of c
unfolding escape_html replace_all
escape_html-one c = elim (Bool-cases (c == b'&')) [
  | inl e ↦ rw e refl
  | inr amp ↦ elim (Bool-cases (c == b'<')) [
    | inl e ↦ rw (amp, e) refl
    | inr lt' ↦ elim (Bool-cases (c == b'>')) [
      | inl e ↦ rw (amp, lt', e) refl
      | inr gt' ↦ elim (Bool-cases (c == b'"')) [
        | inl e ↦ rw (amp, lt', gt', e) refl
        | inr quote ↦ elim (Bool-cases (c == b'\'')) [
          | inl e ↦ rw (amp, lt', gt', quote, e) refl
          | inr other ↦ rw (amp, lt', gt', quote, other) refl
        ]
      ]
    ]
  ]
]

-- The five replacements, one after another over the whole text, write each character's entity, and
-- none of them touches what an earlier one has written.
pub escape_html-eq-each : (s : Text) → escape_html s ≡ each entity_of s
unfolding each escape_html replace_all
escape_html-eq-each [] = refl
escape_html-eq-each (c ∷ s) =
    escape_html-append (c ∷ []) s
    ∙ ap (λ t. t ++ escape_html s) (escape_html-one c)
    ∙ ap (λ t. entity_of c ++ t) (escape_html-eq-each s)
