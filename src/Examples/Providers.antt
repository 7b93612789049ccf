-- ===== src/Examples/Providers.antt =====
-- The theorem on payment providers: two are saved as active for one event, one after the other.
use fluid_events.Prelude.{List, false, true, none, some, [], ◌∷◌, ◌≡◌, refl, map}
use fluid_events.Prelude.Texts.{codes}
use fluid_events.Payments.{Provider}
use fluid_events.Access.{ManagedEvent, EventAccessMode, resoudre_evenement_du_manager}
use fluid_events.Settings.{
  UpsertPaymentConfigDto, enregistrer, save_all, save_one, upsert, deactivate_others,
  donnees_chiffrees,
}
use fluid_events.Settings.Single.{IsSingle, Active}
use fluid_events.Settings.Course.{Setting, run_settings, answer, run_settings-IsSingle}

abbrev gala : ManagedEvent
gala = record {
  id = 4;
  manager_id = 1;
  access_mode = EventAccessMode.ticketed_guest;
  max_scanners = none;
}

abbrev keys_of : Provider → UpsertPaymentConfigDto
keys_of p = record {
  provider = p;
  is_active = some true;
  global = none;
  public_key = none;
  private_key = codes "sk";
  webhook_secret = codes "wh";
  site_id = none;
  environment = none;
}

abbrev two_saved : List Setting
two_saved =
    Setting.saves 1 (keys_of Provider.kkiapay) none
    ∷ Setting.saves 1 (keys_of Provider.stripe) (some 4)
    ∷ []

-- The second activation has switched the first provider off.
two_saved_run :
    map (λ c. c.is_active) (run_settings (λ t. t) (gala ∷ []) two_saved []) ≡ false ∷ true ∷ []
unfolding run_settings answer enregistrer save_all save_one upsert deactivate_others
    donnees_chiffrees resoudre_evenement_du_manager
two_saved_run = refl

nothing_saved : IsSingle []
unfolding IsSingle Active
nothing_saved e p q a b = cc

run_settings-IsSingle_example : IsSingle (run_settings (λ t. t) (gala ∷ []) two_saved [])
run_settings-IsSingle_example =
    run_settings-IsSingle (λ t. t) (gala ∷ []) two_saved [] nothing_saved
