-- ===== src/Questionnaire/Answers.antt =====
-- Which answers are accepted, stated field by field and apart from the order of the checks.
use fluid_events.Prelude.{
  ◌≤◌, true, false, not, some, List, [], ◌∷◌, take, any, length, ◌≡◌, ◌↔◌, ◌⊎◌, inl, inr, refl,
  arith, All, Option-cases, Bool-cases,
}
use fluid_events.Prelude.Texts.{Text, text_eq, text_eq-eq, text_eq_self}
use fluid_events.Questionnaire.{
  TypeChamp, texte, paragraphe, nombre, date, liste, choix_unique, choix_multiple, case_a_cocher,
  inconnu, ChampQuestionnaire, Json, Valeur, un_texte, un_nombre, textes, coche,
  ReponseQuestionnaire, Motif, Engine, trim, string_of, est_vide, max_champs, max_texte,
  max_paragraphe, includes, dedupe, elements, is_true, is_iso_date, Verdict, passe, refuse, accepte,
  valider_valeur, valider_champ, reponse, valider_champs, acceptees, valider_reponses,
}

-- One of the options.
abbrev pub Among : Text → List Text → Type 0
Among s [] = ⊥
Among s (o ∷ os) = (s ≡ o) ⊎ Among s os

includes-Among : (s : Text) (os : List Text) → includes s os ≡ true → Among s os
includes-Among s [] h = cc
includes-Among s (o ∷ os) h = elim (Bool-cases (text_eq s o)) [
  | inl same ↦ inl (text_eq-eq s o same)
  | inr other ↦ inr (includes-Among s os (simp other at h))
]

Among-includes : (s : Text) (os : List Text) → Among s os → includes s os ≡ true
Among-includes s [] h = absurd h
Among-includes s (o ∷ os) (inl e) = ground (arith, e, text_eq_self s)
Among-includes s (o ∷ os) (inr h) = ground (arith, Among-includes s os h)

AllAmong-eq :
    (vs os : List Text) → (any (λ v. not (includes v os)) vs ≡ false) ↔ All (λ v. Among v os) vs
AllAmong-eq [] os = ((λ h. tt), (λ h. refl))
AllAmong-eq (v ∷ vs) os = elim (Bool-cases (includes v os)) [
  | inl there ↦ (
    (λ h. (includes-Among v os there, (AllAmong-eq vs os).0 (simp there at h))),
    (λ (a, h). rw (there, (AllAmong-eq vs os).1 h)),
  )
  | inr missing ↦
      ((λ h. cc (rw missing at h)), (λ (a, h). absurd (ground (arith, Among-includes v os a))))
]

module _ (engine : Engine) where
  -- What a field stores for a value of the request.
  abbrev pub IsValeur : TypeChamp → ChampQuestionnaire → Json → Valeur → Type 0
  IsValeur texte c j v =
      (v ≡ un_texte (trim (string_of j))) × (length (trim (string_of j)) ≤ max_texte)
  IsValeur paragraphe c j v =
      (v ≡ un_texte (trim (string_of j))) × (length (trim (string_of j)) ≤ max_paragraphe)
  IsValeur nombre c j v = (n : Text) × (engine.to_number j ≡ some n) × (v ≡ un_nombre n)
  IsValeur date c j v =
      (v ≡ un_texte (trim (string_of j)))
      × (is_iso_date (trim (string_of j)) ≡ true)
      × (engine.parses_date (trim (string_of j)) ≡ true)
  IsValeur liste c j v = (v ≡ un_texte (string_of j)) × Among (string_of j) c.options
  IsValeur choix_unique c j v = (v ≡ un_texte (string_of j)) × Among (string_of j) c.options
  IsValeur choix_multiple c j v =
      (v ≡ textes (dedupe [] (elements j))) × All (λ e. Among e c.options) (elements j)
  IsValeur case_a_cocher c j v =
      (v ≡ coche (is_true j)) × ((c.obligatoire ≡ false) ⊎ (is_true j ≡ true))
  IsValeur inconnu c j v = ⊥

  valider_valeur-IsValeur :
      (t : TypeChamp) (c : ChampQuestionnaire) (j : Json) (v : Valeur)
      → valider_valeur engine t c j ≡ accepte v
      → IsValeur t c j v
  unfolding valider_valeur
  valider_valeur-IsValeur texte c j v h = (ground arith, ground arith)
  valider_valeur-IsValeur paragraphe c j v h = (ground arith, ground arith)
  valider_valeur-IsValeur nombre c j v h = elim (Option-cases (engine.to_number j)) [
    | inl missing ↦ absurd (ground arith)
    | inr (n, there) ↦ (n, there, ground arith)
  ]
  valider_valeur-IsValeur date c j v h = (ground arith, ground arith, ground arith)
  valider_valeur-IsValeur liste c j v h =
      (ground arith, includes-Among (string_of j) c.options (ground arith))
  valider_valeur-IsValeur choix_unique c j v h =
      (ground arith, includes-Among (string_of j) c.options (ground arith))
  valider_valeur-IsValeur choix_multiple c j v h =
      (ground arith, (AllAmong-eq (elements j) c.options).0 (ground arith))
  valider_valeur-IsValeur case_a_cocher c j v h = (ground arith, ground arith)
  valider_valeur-IsValeur inconnu c j v h = cc

  IsValeur-valider_valeur :
      (t : TypeChamp) (c : ChampQuestionnaire) (j : Json) (v : Valeur)
      → IsValeur t c j v
      → valider_valeur engine t c j ≡ accepte v
  unfolding valider_valeur
  IsValeur-valider_valeur texte c j v (e, h) = ground arith
  IsValeur-valider_valeur paragraphe c j v (e, h) = ground arith
  IsValeur-valider_valeur nombre c j v (n, there, e) = ground arith
  IsValeur-valider_valeur date c j v (e, h, k) = ground arith
  IsValeur-valider_valeur liste c j v (e, h) =
      ground (arith, Among-includes (string_of j) c.options h)
  IsValeur-valider_valeur choix_unique c j v (e, h) =
      ground (arith, Among-includes (string_of j) c.options h)
  IsValeur-valider_valeur choix_multiple c j v (e, h) =
      rw ((AllAmong-eq (elements j) c.options).1 h, e) refl
  IsValeur-valider_valeur case_a_cocher c j v (e, h) = ground arith
  IsValeur-valider_valeur inconnu c j v h = absurd h

  valider_valeur-passe :
      (t : TypeChamp) (c : ChampQuestionnaire) (j : Json)
      → valider_valeur engine t c j ≡ passe
      → t ≡ inconnu
  unfolding valider_valeur
  valider_valeur-passe inconnu c j h = refl
  valider_valeur-passe _ c j h = absurd (ground arith)

  -- A field that may stay without an answer.
  abbrev pub MayPass : ChampQuestionnaire → Json → Type 0
  MayPass c j =
      ((est_vide j ≡ true) × (c.obligatoire ≡ false))
      ⊎ ((est_vide j ≡ false) × (c.type_of ≡ inconnu))

  module _ (donnees : Text → Json) where
    -- The answers to a list of fields, in their order.
    abbrev pub Answers : List ChampQuestionnaire → List ReponseQuestionnaire → Type 0
    Answers [] rs = rs ≡ []
    Answers (c ∷ cs) rs =
        (MayPass c (donnees c.id) × Answers cs rs)
        ⊎ ((v : Valeur) × (rest : List ReponseQuestionnaire) × (rs ≡ reponse c v ∷ rest)
            × (est_vide (donnees c.id) ≡ false)
            × IsValeur c.type_of c (donnees c.id) v
            × Answers cs rest)

    Verdict-cases :
        (r : Verdict)
        → (r ≡ passe) ⊎ ((m : Motif) × (r ≡ refuse m)) ⊎ ((v : Valeur) × (r ≡ accepte v))
    Verdict-cases passe = inl refl
    Verdict-cases (refuse m) = inr (inl (m, refl))
    Verdict-cases (accepte v) = inr (inr (v, refl))

    valider_champ-passe :
        (c : ChampQuestionnaire) (j : Json) → valider_champ engine c j ≡ passe → MayPass c j
    unfolding valider_champ
    valider_champ-passe c j h = elim (Bool-cases (est_vide j)) [
      | inl empty ↦ inl (empty, ground arith)
      | inr full ↦ inr (full, valider_valeur-passe c.type_of c j (rw full at h))
    ]

    MayPass-valider_champ :
        (c : ChampQuestionnaire) (j : Json) → MayPass c j → valider_champ engine c j ≡ passe
    unfolding valider_champ valider_valeur
    MayPass-valider_champ c j (inl (empty, free)) = rw (empty, free)
    MayPass-valider_champ c j (inr (full, unknown)) = rw (full, unknown)

    valider_champ-accepte :
        (c : ChampQuestionnaire) (j : Json) (v : Valeur)
        → valider_champ engine c j ≡ accepte v
        → (est_vide j ≡ false) × IsValeur c.type_of c j v
    unfolding valider_champ
    valider_champ-accepte c j v h = elim (Bool-cases (est_vide j)) [
      | inl empty ↦ absurd (ground arith)
      | inr full ↦ (full, valider_valeur-IsValeur c.type_of c j v (rw full at h))
    ]

    valider_champs-Answers :
        (cs : List ChampQuestionnaire) (rs : List ReponseQuestionnaire)
        → valider_champs engine cs donnees ≡ ([], rs)
        → Answers cs rs
    unfolding valider_champs
    valider_champs-Answers [] rs h = ground arith
    valider_champs-Answers (c ∷ cs) rs h =
        let (es, rest) = valider_champs engine cs donnees in
        elim (Verdict-cases (valider_champ engine c (donnees c.id))) [
          | inl p ↦
              inl (
                valider_champ-passe c (donnees c.id) p,
                valider_champs-Answers cs rs (ground arith),
              )
          | inr (inl (m, p)) ↦ absurd (ground arith)
          | inr (inr (v, p)) ↦
              let (full, good) = valider_champ-accepte c (donnees c.id) v p in
              inr (
                v,
                (valider_champs engine cs donnees).1,
                ground arith,
                full,
                good,
                valider_champs-Answers cs (valider_champs engine cs donnees).1 (ground arith),
              )
        ]

    Answers-valider_champs :
        (cs : List ChampQuestionnaire) (rs : List ReponseQuestionnaire)
        → Answers cs rs
        → valider_champs engine cs donnees ≡ ([], rs)
    unfolding valider_champs
    Answers-valider_champs [] rs h = rw h
    Answers-valider_champs (c ∷ cs) rs (inl (may, h)) =
        rw (MayPass-valider_champ c (donnees c.id) may, Answers-valider_champs cs rs h)
    Answers-valider_champs (c ∷ cs) rs (inr (v, rest, e, full, good, h)) =
        let one : valider_champ engine c (donnees c.id) ≡ accepte v =
          unfold valider_champ in
          rw full (IsValeur-valider_valeur c.type_of c (donnees c.id) v good) in
        rw (one, Answers-valider_champs cs rest h, e)

    -- The answers are accepted exactly when each of the first thirty fields has the value that its
    -- type allows, or may stay without one; and what is stored is those values.
    pub valider_reponses-acceptees_iff :
        (cs : List ChampQuestionnaire) (rs : List ReponseQuestionnaire)
        → (valider_reponses engine cs donnees ≡ acceptees rs) ↔ Answers (take max_champs cs) rs
    unfolding valider_reponses
    valider_reponses-acceptees_iff cs rs = (
      (λ h. valider_champs-Answers (take max_champs cs) rs (ground arith)),
      (λ a. rw (Answers-valider_champs (take max_champs cs) rs a)),
    )
