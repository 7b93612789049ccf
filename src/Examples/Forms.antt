-- ===== src/Examples/Forms.antt =====
-- The theorems on questionnaires: a name and a choice of drinks.
use fluid_events.Prelude.{
  some, ◌≤◌, true, false, none, List, [], ◌∷◌, take, length, ◌≡◌, ◌↔◌, refl, if◌then◌else◌,
}
use fluid_events.Prelude.Texts.{Text, codes, text_eq}
use fluid_events.Questionnaire.{
  texte, choix_multiple, ChampQuestionnaire, Json, nul, text, array, un_texte, textes, Engine,
  ReponseQuestionnaire, max_champs, dedupe, acceptees, reponse, valider_reponses, valider_champs,
  valider_champ, valider_valeur, est_vide, string_of, trim, trim_start, valider_questionnaire,
}
use fluid_events.Questionnaire.Answers.{Answers, valider_reponses-acceptees_iff}
use fluid_events.Questionnaire.Form.{AreTenable, valider_questionnaire-eq-nil_iff}

abbrev pub engine : Engine
engine = record { to_number = λ j. none; parses_date = λ t. true }

abbrev name_field : ChampQuestionnaire
name_field = record {
  id = codes "a";
  type_of = texte;
  libelle = codes "Name";
  obligatoire = true;
  options = [];
}

abbrev drinks : ChampQuestionnaire
drinks = record {
  id = codes "b";
  type_of = choix_multiple;
  libelle = codes "Drinks";
  obligatoire = false;
  options = codes "tea" ∷ codes "water" ∷ [];
}

abbrev pub form : List ChampQuestionnaire
form = name_field ∷ drinks ∷ []

abbrev pub body : Text → Json
body id =
    if text_eq id (codes "a")
    then text (codes " Awa ")
    else if text_eq id (codes "b")
    then array (some (codes "tea") ∷ some (codes "tea") ∷ [])
    else nul

abbrev stored : List ReponseQuestionnaire
stored =
    reponse name_field (un_texte (codes "Awa")) ∷ reponse drinks (textes (codes "tea" ∷ [])) ∷ []

-- The name is trimmed, and the drink that is there twice is stored once.
stored_answers : valider_reponses engine form body ≡ acceptees stored
unfolding valider_reponses valider_champs valider_champ valider_valeur est_vide string_of trim
    trim_start dedupe
stored_answers = refl

valider_reponses-acceptees_iff_example :
    (valider_reponses engine form body ≡ acceptees stored)
    ↔ Answers engine body (take max_champs form) stored
valider_reponses-acceptees_iff_example = valider_reponses-acceptees_iff engine body form stored

valider_questionnaire-eq-nil_iff_example :
    (valider_questionnaire form ≡ []) ↔ ((length form ≤ max_champs) × AreTenable [] form)
valider_questionnaire-eq-nil_iff_example = valider_questionnaire-eq-nil_iff form
