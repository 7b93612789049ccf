-- ===== src/Questionnaire.antt =====
-- packages/types/src/questionnaire.ts: the answers to the form that an organiser composes. Messages
-- are kinds of refusal. Numbers are the texts that JSON writes for them.
pub mod Answers
pub mod Choices
pub mod Form
use fluid_events.Prelude.{
  map, ℕ, zero, suc, ◌==◌, ltb, leb, if◌then◌else◌, Bool, true, false, not, ◌&&◌, ◌||◌, Option,
  none, some, List, [], ◌∷◌, ◌++◌, take, any, keep, length,
}
use fluid_events.Prelude.Texts.{Text, codes, text_eq, is_digit}
use fluid_events.Payments.{Key}
use mathlib.Core.List.{reverse}

pub data TypeChamp : Type 0 where
  texte paragraphe nombre date liste choix_unique choix_multiple case_a_cocher inconnu : TypeChamp

pub record ChampQuestionnaire : Type 0 where
  pub id : Text
  pub type_of : TypeChamp
  pub libelle : Text
  pub obligatoire : Bool
  pub options : List Text

-- A value of the request's body. An array stands as the texts of its elements, null as none.
pub data Json : Type 0 where
  nul : Json
  text number : Text → Json
  boolean : Bool → Json
  array : List (Option Text) → Json
  object : Json

pub data Valeur : Type 0 where
  un_texte un_nombre : Text → Valeur
  textes : List Text → Valeur
  coche : Bool → Valeur

pub record ReponseQuestionnaire : Type 0 where
  pub champ_id : Text
  pub libelle : Text
  pub type_of : TypeChamp
  pub valeur : Valeur

pub data Motif : Type 0 where
  est_obligatoire doit_etre_coche trop_long attend_un_nombre attend_une_date choix_non_propose :
      Motif

pub record ErreurReponse : Type 0 where
  pub champ_id : Text
  pub motif : Motif

-- `Number` where it is finite, and whether `Date.parse` accepts a text, which falls back on what the
-- engine makes of it.
pub record Engine : Type 0 where
  pub to_number : Json → Option Text
  pub parses_date : Text → Bool

-- White space and line ends, as `trim` takes them.
abbrev pub is_space : ℕ → Bool
is_space c =
    (leb 9 c && leb c 13)
    || (c == 32)
    || (c == 160)
    || (c == 5760)
    || (leb 8192 c && leb c 8202)
    || (c == 8232)
    || (c == 8233)
    || (c == 8239)
    || (c == 8287)
    || (c == 12288)
    || (c == 65279)

unfoldable pub trim_start : Text → Text
trim_start [] = []
trim_start (c ∷ s) = if is_space c then trim_start s else c ∷ s

unfoldable pub trim : Text → Text
trim s = reverse (trim_start (reverse (trim_start s)))

abbrev pub join : List Text → Text
join [] = []
join (s ∷ []) = s
join (s ∷ t ∷ ts) = s ++ b',' ∷ join (t ∷ ts)

-- `join` takes a null for the empty text, `String` for its name.
abbrev pub text_or : Text → Option Text → Text
text_or t none = t
text_or t (some s) = s

-- `String`.
unfoldable pub string_of : Json → Text
string_of nul = codes "null"
string_of (text s) = s
string_of (number s) = s
string_of (boolean true) = codes "true"
string_of (boolean false) = codes "false"
string_of (array xs) = join (map (text_or []) xs)
string_of object = codes "[object Object]"

abbrev pub is_empty {ℓ} : {A : Type ℓ} → List A → Bool
is_empty [] = true
is_empty (x ∷ xs) = false

unfoldable pub est_vide : Json → Bool
est_vide nul = true
est_vide (text s) = is_empty (trim s)
est_vide (array xs) = is_empty xs
est_vide _ = false

abbrev pub max_champs : ℕ
max_champs = 30

abbrev pub max_texte : ℕ
max_texte = 500

abbrev pub max_paragraphe : ℕ
max_paragraphe = 4000

abbrev pub includes : Text → List Text → Bool
includes s = any (text_eq s)

-- `[...new Set(valeurs)]`: the first of equal elements stays.
unfoldable pub dedupe : List Text → List Text → List Text
dedupe seen [] = []
dedupe seen (x ∷ xs) =
    let rest = dedupe (x ∷ seen) xs in
    let same = dedupe seen xs in if includes x seen then same else x ∷ rest

abbrev pub elements : Json → List Text
elements (array xs) = map (text_or (codes "null")) xs
elements j = string_of j ∷ []

abbrev pub is_true : Json → Bool
is_true (boolean b) = b
is_true (text s) = text_eq s (codes "true")
is_true _ = false

-- `/^\d{4}-\d{2}-\d{2}$/`.
abbrev pub is_iso_date : Text → Bool
is_iso_date (a ∷ b ∷ c ∷ d ∷ h ∷ e ∷ f ∷ k ∷ g ∷ i ∷ []) =
    is_digit a
    && is_digit b
    && is_digit c
    && is_digit d
    && (h == b'-')
    && is_digit e
    && is_digit f
    && (k == b'-')
    && is_digit g
    && is_digit i
is_iso_date _ = false

-- What becomes of one field: no answer and no error, an error, or an answer.
pub data Verdict : Type 0 where
  passe : Verdict
  refuse : Motif → Verdict
  accepte : Valeur → Verdict

abbrev pub accepte_si : Bool → Motif → Valeur → Verdict
accepte_si true motif v = accepte v
accepte_si false motif v = refuse motif

abbrev pub accepte_nombre : Option Text → Verdict
accepte_nombre none = refuse attend_un_nombre
accepte_nombre (some n) = accepte (un_nombre n)

abbrev pub is_case : TypeChamp → Bool
is_case case_a_cocher = true
is_case _ = false

abbrev pub reponse : ChampQuestionnaire → Valeur → ReponseQuestionnaire
reponse c v = record { champ_id = c.id; libelle = c.libelle; type_of = c.type_of; valeur = v }

abbrev pub noter :
    ChampQuestionnaire
    → Verdict
    → List ErreurReponse × List ReponseQuestionnaire
    → List ErreurReponse × List ReponseQuestionnaire
noter c passe (es, rs) = (es, rs)
noter c (refuse m) (es, rs) = (record { champ_id = c.id; motif = m } ∷ es, rs)
noter c (accepte v) (es, rs) = (es, reponse c v ∷ rs)

pub data Controle : Type 0 where
  acceptees : List ReponseQuestionnaire → Controle
  refusees : List ErreurReponse → Controle

abbrev pub conclure : List ErreurReponse × List ReponseQuestionnaire → Controle
conclure ([], rs) = acceptees rs
conclure (e ∷ es, rs) = refusees (e ∷ es)

module _ (engine : Engine) where
  -- The `switch`.
  unfoldable pub valider_valeur : TypeChamp → ChampQuestionnaire → Json → Verdict
  valider_valeur texte c j =
      let v = trim (string_of j) in accepte_si (leb (length v) max_texte) trop_long (un_texte v)
  valider_valeur paragraphe c j =
      let v = trim (string_of j) in
      accepte_si (leb (length v) max_paragraphe) trop_long (un_texte v)
  valider_valeur nombre c j = accepte_nombre (engine.to_number j)
  valider_valeur date c j =
      let v = trim (string_of j) in
      accepte_si (is_iso_date v && engine.parses_date v) attend_une_date (un_texte v)
  valider_valeur case_a_cocher c j =
      accepte_si (not (c.obligatoire && not (is_true j))) doit_etre_coche (coche (is_true j))
  valider_valeur liste c j =
      accepte_si (includes (string_of j) c.options) choix_non_propose (un_texte (string_of j))
  valider_valeur choix_unique c j =
      accepte_si (includes (string_of j) c.options) choix_non_propose (un_texte (string_of j))
  valider_valeur choix_multiple c j =
      accepte_si (not (any (λ v. not (includes v c.options)) (elements j))) choix_non_propose
        (textes (dedupe [] (elements j)))
  valider_valeur inconnu c j = passe

  abbrev pub sans_valeur : ChampQuestionnaire → Verdict
  sans_valeur c =
      if c.obligatoire
      then refuse (if is_case c.type_of then doit_etre_coche else est_obligatoire)
      else passe

  -- The body of the loop.
  unfoldable pub valider_champ : ChampQuestionnaire → Json → Verdict
  valider_champ c j = if est_vide j then sans_valeur c else valider_valeur c.type_of c j

  unfoldable pub valider_champs :
      List ChampQuestionnaire → (Text → Json) → List ErreurReponse × List ReponseQuestionnaire
  valider_champs [] donnees = ([], [])
  valider_champs (c ∷ cs) donnees =
      noter c (valider_champ c (donnees c.id)) (valider_champs cs donnees)

  unfoldable pub valider_reponses : List ChampQuestionnaire → (Text → Json) → Controle
  valider_reponses champs donnees = conclure (valider_champs (take max_champs champs) donnees)

-- What is wrong with a form; the rank of the field is left out.
pub data Defaut : Type 0 where
  trop_de_questions identifiant_manquant meme_identifiant libelle_vide libelle_trop_long : Defaut
  moins_de_deux_options trop_d_options options_identiques : Defaut

unfoldable pub si : Bool → Defaut → List Defaut → List Defaut
si true d ds = d ∷ ds
si false d ds = ds

abbrev pub avec_options : TypeChamp → Bool
avec_options liste = true
avec_options choix_unique = true
avec_options choix_multiple = true
avec_options _ = false

unfoldable pub options_utiles : List Text → List Text
options_utiles [] = []
options_utiles (o ∷ os) =
    let rest = options_utiles os in if is_empty (trim o) then rest else trim o ∷ rest

unfoldable pub defauts_des_options : List Text → List Defaut → List Defaut
defauts_des_options os ds = si (ltb (length os) 2) moins_de_deux_options (
    si (ltb 30 (length os)) trop_d_options
      (si (not (length (dedupe [] os) == length os)) options_identiques ds))

-- One field, after those whose identifiers are `vus`, and before faults `ds` of later ones.
unfoldable pub defauts_du_champ : List Text → ChampQuestionnaire → List Defaut → List Defaut
defauts_du_champ vus c ds = si (is_empty (trim c.id)) identifiant_manquant (
    si (includes c.id vus) meme_identifiant (
      si (is_empty (trim c.libelle)) libelle_vide (
        si (ltb 200 (length c.libelle)) libelle_trop_long (
          if avec_options c.type_of
          then defauts_des_options (options_utiles c.options) ds
          else ds))))

unfoldable pub defauts_des_champs : List Text → List ChampQuestionnaire → List Defaut
defauts_des_champs vus [] = []
defauts_des_champs vus (c ∷ cs) = defauts_du_champ vus c (defauts_des_champs (c.id ∷ vus) cs)

unfoldable pub valider_questionnaire : List ChampQuestionnaire → List Defaut
valider_questionnaire champs =
    si (ltb max_champs (length champs)) trop_de_questions (defauts_des_champs [] champs)
