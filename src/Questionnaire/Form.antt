-- ===== src/Questionnaire/Form.antt =====
-- When the definition of a form is accepted.
use fluid_events.Prelude.{
  ◌≤◌, Bool, true, false, List, [], ◌∷◌, length, ◌≡◌, ◌≢◌, ◌↔◌, refl, arith, inl, inr, Bool-cases,
}
use fluid_events.Prelude.Texts.{Text}
use fluid_events.Questionnaire.{
  ChampQuestionnaire, is_empty, trim, includes, max_champs, Defaut, si, avec_options,
  options_utiles, defauts_des_options, defauts_du_champ, defauts_des_champs, valider_questionnaire,
}
use fluid_events.Questionnaire.Choices.{IsFresh, length-dedupe_iff}

is_empty-eq {ℓ} : {A : Type ℓ} (xs : List A) → (is_empty xs ≡ false) ↔ (xs ≢ [])
is_empty-eq [] = ((λ h. cc), (λ h. absurd (h refl)))
is_empty-eq (x ∷ xs) = ((λ h. λ e. cc), (λ h. refl))

-- The options of a choice: two to thirty that are not blank, all different.
pub record AreOptions (os : List Text) : Type 0 where
  pub two : 2 ≤ length os
  pub thirty : length os ≤ 30
  pub different : IsFresh [] os

-- A field, after fields whose identifiers are `vus`.
pub record IsTenable (vus : List Text) (c : ChampQuestionnaire) : Type 0 where
  pub has_id : trim c.id ≢ []
  pub own_id : includes c.id vus ≡ false
  pub has_label : trim c.libelle ≢ []
  pub short_label : length c.libelle ≤ 200
  pub choices : avec_options c.type_of ≡ true → AreOptions (options_utiles c.options)

abbrev pub AreTenable : List Text → List ChampQuestionnaire → Type 0
AreTenable vus [] = Unit {0}
AreTenable vus (c ∷ cs) = IsTenable vus c × AreTenable (c.id ∷ vus) cs

si-eq-nil :
    (b : Bool) (d : Defaut) (ds : List Defaut) → (si b d ds ≡ []) ↔ ((b ≡ false) × (ds ≡ []))
unfolding si
si-eq-nil true d ds = ((λ h. cc), (λ (e, h). cc))
si-eq-nil false d ds = ((λ h. (refl, h)), (λ (e, h). h))

defauts_des_options-eq-nil :
    (os : List Text) (ds : List Defaut)
    → (defauts_des_options os ds ≡ []) ↔ (AreOptions os × (ds ≡ []))
unfolding defauts_des_options
defauts_des_options-eq-nil os ds = (
  (λ h.
      let (a, h1) = (si-eq-nil _ _ _).0 h in
      let (b, h2) = (si-eq-nil _ _ _).0 h1 in
      let (c, h3) = (si-eq-nil _ _ _).0 h2 in
      (
        record {
          two = ground arith;
          thirty = ground arith;
          different = (length-dedupe_iff [] os).0 (ground arith);
        },
        h3,
      )),
  (λ (o, h).
      let same = (length-dedupe_iff [] os).1 o.different in
      (unfold si in ground (arith, o.two, o.thirty, same))),
)

defauts_du_champ-eq-nil :
    (vus : List Text) (c : ChampQuestionnaire) (ds : List Defaut)
    → (defauts_du_champ vus c ds ≡ []) ↔ (IsTenable vus c × (ds ≡ []))
unfolding defauts_du_champ
defauts_du_champ-eq-nil vus c ds = elim (Bool-cases (avec_options c.type_of)) [
  | inl choice ↦ (
    (λ h.
        let (a, h1) = (si-eq-nil _ _ _).0 h in
        let (b, h2) = (si-eq-nil _ _ _).0 h1 in
        let (d, h3) = (si-eq-nil _ _ _).0 h2 in
        let (e, h4) = (si-eq-nil _ _ _).0 h3 in
        let (os, rest) =
          (defauts_des_options-eq-nil (options_utiles c.options) ds).0 (simp choice at h4) in
        (
          record {
            has_id = (is_empty-eq (trim c.id)).0 a;
            own_id = b;
            has_label = (is_empty-eq (trim c.libelle)).0 d;
            short_label = ground arith;
            choices = λ k. os;
          },
          rest,
        )),
    (λ (t, h).
        unfold si in
        ground (
          arith,
          (is_empty-eq (trim c.id)).1 t.has_id,
          t.own_id,
          (is_empty-eq (trim c.libelle)).1 t.has_label,
          t.short_label,
          (defauts_des_options-eq-nil (options_utiles c.options) ds).1 (t.choices choice, h),
        )),
  )
  | inr plain ↦ (
    (λ h.
        let (a, h1) = (si-eq-nil _ _ _).0 h in
        let (b, h2) = (si-eq-nil _ _ _).0 h1 in
        let (d, h3) = (si-eq-nil _ _ _).0 h2 in
        let (e, h4) = (si-eq-nil _ _ _).0 h3 in
        (
          record {
            has_id = (is_empty-eq (trim c.id)).0 a;
            own_id = b;
            has_label = (is_empty-eq (trim c.libelle)).0 d;
            short_label = ground arith;
            choices = λ k. cc;
          },
          simp plain at h4,
        )),
    (λ (t, h).
        unfold si in
        ground (
          arith,
          (is_empty-eq (trim c.id)).1 t.has_id,
          t.own_id,
          (is_empty-eq (trim c.libelle)).1 t.has_label,
          t.short_label,
        )),
  )
]

defauts_des_champs-eq-nil :
    (vus : List Text) (cs : List ChampQuestionnaire)
    → (defauts_des_champs vus cs ≡ []) ↔ AreTenable vus cs
unfolding defauts_des_champs
defauts_des_champs-eq-nil vus [] = ((λ h. tt), (λ h. refl))
defauts_des_champs-eq-nil vus (c ∷ cs) = (
  (λ h.
      let (t, rest) = (defauts_du_champ-eq-nil vus c _).0 h in
      (t, (defauts_des_champs-eq-nil (c.id ∷ vus) cs).0 rest)),
  (λ (t, ts).
      (defauts_du_champ-eq-nil vus c _).1 (t, (defauts_des_champs-eq-nil (c.id ∷ vus) cs).1 ts)),
)

-- The definition of a form has no fault exactly when it has at most thirty fields, each with an
-- identifier of its own and a label of at most 200 units, neither blank, and each choice has two to
-- thirty options that are not blank and all different.
pub valider_questionnaire-eq-nil_iff :
    (cs : List ChampQuestionnaire)
    → (valider_questionnaire cs ≡ []) ↔ ((length cs ≤ max_champs) × AreTenable [] cs)
unfolding valider_questionnaire
valider_questionnaire-eq-nil_iff cs = (
  (λ h.
      let (a, rest) = (si-eq-nil _ _ _).0 h in
      (ground arith, (defauts_des_champs-eq-nil [] cs).0 rest)),
  (λ (n, ts). unfold si in ground (arith, (defauts_des_champs-eq-nil [] cs).1 ts)),
)
