-- ===== src/Settings/Course.antt =====
-- The calls of the organisers on their providers, one after another.
use fluid_events.Prelude.{
  ◌>>◌, Bool, not, any, Option, List, [], ◌∷◌, if◌then◌else◌, Result, ok, thrown, ErrorCode, ◌≡◌,
  inl, inr, refuse_if, >>=-eq-ok, Result-cases, subst,
}
use fluid_events.Prelude.Texts.{Text}
use fluid_events.Payments.{Key, Provider}
use fluid_events.Access.{ManagedEvent, resoudre_evenement_du_manager}
use fluid_events.Settings.{
  PaymentProviderConfig, UpsertPaymentConfigDto, is_set, concerns, enregistrer, basculer, supprimer,
  evenements_du_manager, assert_executable,
}
use fluid_events.Settings.Single.{IsSingle, save_all-IsSingle, switch-IsSingle, keep-IsSingle}

-- A call of a manager, for an event or for the only one.
pub data Setting : Type 0 where
  saves : Key → UpsertPaymentConfigDto → Option Key → Setting
  switches : Key → Provider → Bool → Option Key → Setting
  removes : Key → Provider → Option Key → Setting

-- What a call leaves: a refused one changes nothing.
abbrev left_by :
    Result (List PaymentProviderConfig) → List PaymentProviderConfig → List PaymentProviderConfig
left_by (thrown code) configs = configs
left_by (ok after) configs = after

ok-injective : {x y : List PaymentProviderConfig} → ok x ≡ ok y → x ≡ y
ok-injective e = cc

module _ (encrypt : Text → Text) (events : List ManagedEvent) where
  unfoldable pub answer : Setting → List PaymentProviderConfig → Result (List PaymentProviderConfig)
  answer (Setting.saves manager dto event) = enregistrer encrypt manager dto event events
  answer (Setting.switches manager provider active event) =
      basculer manager provider active event events
  answer (Setting.removes manager provider event) = supprimer manager provider event events

  unfoldable pub run_settings :
      List Setting → List PaymentProviderConfig → List PaymentProviderConfig
  run_settings [] configs = configs
  run_settings (s ∷ rest) configs = run_settings rest (left_by (answer s configs) configs)

  answer-IsSingle :
      (s : Setting) (configs : List PaymentProviderConfig) {after : List PaymentProviderConfig}
      → answer s configs ≡ ok after
      → IsSingle configs
      → IsSingle after
  unfolding answer enregistrer basculer supprimer
  answer-IsSingle (Setting.saves manager dto event) configs e h =
      let (id, _, checked) = >>=-eq-ok (resoudre_evenement_du_manager manager event events) _ e in
      let (_, _, saved) =
        >>=-eq-ok (assert_executable dto.provider (is_set dto.is_active)) _ checked in
      let targets = if is_set dto.global then evenements_du_manager manager events else id ∷ [] in
      subst IsSingle (ok-injective saved) (save_all-IsSingle encrypt dto targets configs h)
  answer-IsSingle (Setting.switches manager provider active event) configs e h =
      let (id, _, checked) = >>=-eq-ok (resoudre_evenement_du_manager manager event events) _ e in
      let (_, _, switched) =
        >>=-eq-ok
          (assert_executable provider active
            >> refuse_if (not (any (concerns id provider) configs)) ErrorCode.event_not_found)
          _ checked in
      subst IsSingle (ok-injective switched) (switch-IsSingle provider active id configs h)
  answer-IsSingle (Setting.removes manager provider event) configs e h =
      let (id, _, removed) = >>=-eq-ok (resoudre_evenement_du_manager manager event events) _ e in
      subst IsSingle (ok-injective removed)
        (keep-IsSingle (λ c. not (concerns id provider c)) configs h)

  -- Whatever the organisers save, switch or remove, for one event or for all of theirs, no event has
  -- two active providers afterwards if none had before.
  pub run_settings-IsSingle :
      (settings : List Setting) (configs : List PaymentProviderConfig)
      → IsSingle configs
      → IsSingle (run_settings settings configs)
  unfolding run_settings
  run_settings-IsSingle [] configs h = h
  run_settings-IsSingle (s ∷ rest) configs h = elim (Result-cases (answer s configs)) [
    | inl (code, e) ↦ rw e (run_settings-IsSingle rest configs h)
    | inr (after, e) ↦ rw e (run_settings-IsSingle rest after (answer-IsSingle s configs e h))
  ]
