-- ===== src/Settings.antt =====
-- The organisers' payment providers (`apps/api/src/payments/payment-config.service.ts`).
pub mod Rows
pub mod Single
pub mod Course
use fluid_events.Prelude.{
  ◌==◌, if◌then◌else◌, Bool, true, false, not, ◌&&◌, ◌||◌, Option, none, some, List, [], ◌∷◌, ◌++◌,
  map, any, keep, Result, ok, thrown, ErrorCode, ◌>>=◌, ◌>>◌, refuse_if,
}
use fluid_events.Prelude.Texts.{Text}
use fluid_events.Payments.{Key, Provider, Environment, provider_eq}
use fluid_events.Access.{ManagedEvent, owned_by, resoudre_evenement_du_manager}

-- The column `config`, a JSON object.
pub record ConfigOptions : Type 0 where
  pub site_id : Option Text
  pub environment : Option Environment

pub record PaymentProviderConfig : Type 0 where
  pub event_id : Key
  pub provider : Provider
  pub is_active : Bool
  pub is_global : Bool
  pub public_key : Option Text
  pub private_key : Text
  pub webhook_secret : Text
  pub config : Option ConfigOptions

pub record UpsertPaymentConfigDto : Type 0 where
  pub provider : Provider
  pub is_active : Option Bool
  pub global : Option Bool
  pub public_key : Option Text
  pub private_key : Text
  pub webhook_secret : Text
  pub site_id : Option Text
  pub environment : Option Environment

-- A flag that may be missing, as a condition reads it.
abbrev pub is_set : Option Bool → Bool
is_set none = false
is_set (some flag) = flag

abbrev supported_payment_providers : List Provider
supported_payment_providers =
    Provider.kkiapay ∷ Provider.cinetpay ∷ Provider.fedapay ∷ Provider.stripe ∷ Provider.paypal ∷ []

abbrev pub assert_executable : Provider → Bool → Result (Unit {0})
assert_executable provider active =
    refuse_if (active && not (any (provider_eq provider) supported_payment_providers))
      ErrorCode.provider_execution_not_supported

abbrev pub concerns : Key → Provider → PaymentProviderConfig → Bool
concerns event provider c = c.event_id == event && provider_eq c.provider provider

abbrev pub switched_off : Key → Provider → PaymentProviderConfig → PaymentProviderConfig
switched_off event provider c =
    if c.event_id == event && not (provider_eq c.provider provider)
    then record c { is_active = false }
    else c

-- `updateMany` on the other providers of the event.
unfoldable pub deactivate_others :
    Key → Provider → List PaymentProviderConfig → List PaymentProviderConfig
deactivate_others event provider = map (switched_off event provider)

-- The empty text is no site.
abbrev filled : Option Text → Option Text
filled none = none
filled (some []) = none
filled (some (c ∷ t)) = some (c ∷ t)

abbrev some_options : Option Text → Option Environment → Option ConfigOptions
some_options none none = none
some_options site environment = some (record { site_id = site; environment = environment })

-- The row that is written for an event; `encrypt` is the service of encryption.
unfoldable pub donnees_chiffrees :
    (Text → Text) → UpsertPaymentConfigDto → Key → PaymentProviderConfig
donnees_chiffrees encrypt dto event = record {
  event_id = event;
  provider = dto.provider;
  is_active = is_set dto.is_active;
  is_global = is_set dto.global;
  public_key = dto.public_key;
  private_key = encrypt dto.private_key;
  webhook_secret = encrypt dto.webhook_secret;
  config =
      some_options (if provider_eq dto.provider Provider.cinetpay then filled dto.site_id else none)
        dto.environment;
}

-- `upsert` by the event and the provider of the row.
unfoldable pub upsert :
    PaymentProviderConfig → List PaymentProviderConfig → List PaymentProviderConfig
upsert row configs =
    if any (concerns row.event_id row.provider) configs
    then map (λ c. if concerns row.event_id row.provider c then row else c) configs
    else configs ++ row ∷ []

unfoldable pub save_one :
    (Text → Text)
    → UpsertPaymentConfigDto
    → Key
    → List PaymentProviderConfig
    → List PaymentProviderConfig
save_one encrypt dto cible configs =
    upsert (donnees_chiffrees encrypt dto cible)
      (if is_set dto.is_active then deactivate_others cible dto.provider configs else configs)

-- The transaction, event by event.
unfoldable pub save_all :
    (Text → Text)
    → UpsertPaymentConfigDto
    → List Key
    → List PaymentProviderConfig
    → List PaymentProviderConfig
save_all encrypt dto [] configs = configs
save_all encrypt dto (cible ∷ cibles) configs =
    save_all encrypt dto cibles (save_one encrypt dto cible configs)

abbrev pub evenements_du_manager : Key → List ManagedEvent → List Key
evenements_du_manager manager_id events = map (λ e. e.id) (owned_by manager_id events)

unfoldable pub enregistrer :
    (Text → Text)
    → Key
    → UpsertPaymentConfigDto
    → Option Key
    → List ManagedEvent
    → List PaymentProviderConfig
    → Result (List PaymentProviderConfig)
enregistrer encrypt manager_id dto event events configs =
    resoudre_evenement_du_manager manager_id event events >>= λ id.
    assert_executable dto.provider (is_set dto.is_active)
    >> ok (
        save_all encrypt dto
          (if is_set dto.global then evenements_du_manager manager_id events else id ∷ []) configs)

unfoldable pub switch :
    Provider → Bool → Key → List PaymentProviderConfig → List PaymentProviderConfig
switch provider active id configs =
    map (λ c. if concerns id provider c then record c { is_active = active } else c)
      (if active then deactivate_others id provider configs else configs)

unfoldable pub basculer :
    Key
    → Provider
    → Bool
    → Option Key
    → List ManagedEvent
    → List PaymentProviderConfig
    → Result (List PaymentProviderConfig)
basculer manager_id provider active event events configs =
    resoudre_evenement_du_manager manager_id event events >>= λ id.
    assert_executable provider active
    >> refuse_if (not (any (concerns id provider) configs)) ErrorCode.event_not_found
    >> ok (switch provider active id configs)

unfoldable pub supprimer :
    Key
    → Provider
    → Option Key
    → List ManagedEvent
    → List PaymentProviderConfig
    → Result (List PaymentProviderConfig)
supprimer manager_id provider event events configs =
    resoudre_evenement_du_manager manager_id event events >>= λ id.
    ok (keep (λ c. not (concerns id provider c)) configs)
