-- ===== src/Settings/Single.antt =====
-- At most one provider of an event is active.
use fluid_events.Prelude.{
  ◌==◌, if◌then◌else◌, Bool, true, false, not, ◌&&◌, List, [], ◌∷◌, ◌++◌, map, any, keep, ◌≡◌, refl,
  ◌⊎◌, inl, inr, arith, Bool-cases, sym, ◌∙◌,
}
use fluid_events.Prelude.Texts.{Text}
use fluid_events.Payments.{Key, Provider, provider_eq}
use fluid_events.Settings.{
  PaymentProviderConfig, UpsertPaymentConfigDto, is_set, concerns, switched_off, deactivate_others,
  donnees_chiffrees, upsert, save_one, save_all, switch,
}
use fluid_events.Settings.Rows.{provider_eq-eq, any-map-both, any-map-either}

abbrev active : Key → Provider → PaymentProviderConfig → Bool
active e p c = concerns e p c && c.is_active

-- A provider of an event is active.
unfoldable pub Active : Key → Provider → List PaymentProviderConfig → Type 0
Active e p configs = any (active e p) configs ≡ true

-- No event has two active providers.
unfoldable pub IsSingle : List PaymentProviderConfig → Type 0
IsSingle configs = (e : Key) (p q : Provider) → Active e p configs → Active e q configs → p ≡ q

switched_off-active :
    (id : Key) (provider : Provider) (e : Key) (p : Provider) (c : PaymentProviderConfig)
    → active e p (switched_off id provider c) ≡ true
    → (active e p c ≡ true) × (e ≡ id → p ≡ provider)
switched_off-active id provider e p c h =
    elim (Bool-cases (c.event_id == id && not (provider_eq c.provider provider))) [
      | inl off ↦ ground (arith, off)
      | inr kept ↦
          let same : active e p c ≡ true = simp kept at h in
          (
            same,
            λ at'.
                sym (provider_eq-eq c.provider p (ground arith))
                ∙ provider_eq-eq c.provider provider (ground arith),
          )
    ]

Active-deactivate_others :
    (id : Key) (provider : Provider) (e : Key) (p : Provider) (cs : List PaymentProviderConfig)
    → Active e p (deactivate_others id provider cs)
    → Active e p cs × (e ≡ id → p ≡ provider)
unfolding Active deactivate_others
Active-deactivate_others id provider e p cs h =
    any-map-both (active e p) (switched_off id provider) (switched_off-active id provider e p) cs h

-- At most one provider of one event becomes active, and the event's others are not.
adds-IsSingle :
    (id : Key) (provider : Provider) (on : Bool) (cs ds : List PaymentProviderConfig)
    → ((e : Key) (p : Provider)
        → Active e p ds
        → Active e p cs ⊎ ((e ≡ id) × (p ≡ provider) × (on ≡ true)))
    → (on ≡ true → (p : Provider) → Active id p cs → p ≡ provider)
    → IsSingle cs
    → IsSingle ds
unfolding IsSingle
adds-IsSingle id provider on cs ds adds others single e p q h k = elim (adds e p h) [
  | inl old ↦ elim (adds e q k) [
    | inl old' ↦ single e p q old old'
    | inr (at', it, on') ↦ others on' p (rw (← at') old) ∙ sym it
  ]
  | inr (at', it, on') ↦ elim (adds e q k) [
    | inl old' ↦ it ∙ sym (others on' q (rw (← at') old'))
    | inr (at'', it', on'') ↦ it ∙ sym it'
  ]
]

active-row :
    (row : PaymentProviderConfig) (e : Key) (p : Provider)
    → active e p row ≡ true
    → (e ≡ row.event_id) × (p ≡ row.provider) × (row.is_active ≡ true)
active-row row e p h =
    (ground arith, sym (provider_eq-eq row.provider p (ground arith)), ground arith)

any-append-last :
    (test : PaymentProviderConfig → Bool) (cs : List PaymentProviderConfig)
    (row : PaymentProviderConfig)
    → any test (cs ++ row ∷ []) ≡ true
    → (any test cs ≡ true) ⊎ (test row ≡ true)
any-append-last test [] row h = inr (ground arith)
any-append-last test (c ∷ cs) row h = elim (Bool-cases (test c)) [
  | inl here ↦ inl (rw here refl)
  | inr later ↦ elim (any-append-last test cs row (simp later at h)) [
    | inl t ↦ inl (ground (arith, t))
    | inr t ↦ inr t
  ]
]

upsert-Adds :
    (row : PaymentProviderConfig) (cs : List PaymentProviderConfig) (e : Key) (p : Provider)
    → Active e p (upsert row cs)
    → Active e p cs ⊎ ((e ≡ row.event_id) × (p ≡ row.provider) × (row.is_active ≡ true))
unfolding Active upsert
upsert-Adds row cs e p h = elim (Bool-cases (any (concerns row.event_id row.provider) cs)) [
  | inl there ↦
      any-map-either (active e p) (λ c. if concerns row.event_id row.provider c then row else c)
        (λ c t. elim (Bool-cases (concerns row.event_id row.provider c)) [
          | inl yes' ↦ inr (active-row row e p (simp yes' at t))
          | inr no' ↦ inl (simp no' at t)
        ])
        cs (simp there at h)
  | inr absent ↦ elim (any-append-last (active e p) cs row (simp absent at h)) [
    | inl old ↦ inl old
    | inr new ↦ inr (active-row row e p new)
  ]
]

switch-Adds :
    (id : Key) (provider : Provider) (on : Bool) (cs : List PaymentProviderConfig) (e : Key)
    (p : Provider)
    → Active e p (map (λ c. if concerns id provider c then record c { is_active = on } else c) cs)
    → Active e p cs ⊎ ((e ≡ id) × (p ≡ provider) × (on ≡ true))
unfolding Active
switch-Adds id provider on cs e p h =
    any-map-either (active e p)
      (λ c. if concerns id provider c then record c { is_active = on } else c)
      (λ c t. elim (Bool-cases (concerns id provider c)) [
        | inl yes' ↦
            let t' : active e p (record c { is_active = on }) ≡ true = simp yes' at t in
            let (at', it, on') = active-row (record c { is_active = on }) e p t' in
            inr (at' ∙ ground arith, it ∙ provider_eq-eq c.provider provider (ground arith), on')
        | inr no' ↦ inl (simp no' at t)
      ])
      cs h

-- What an activation does first: only the provider of the event can stay active.
prepared : Key → Provider → Bool → List PaymentProviderConfig → List PaymentProviderConfig
prepared id provider on cs = if on then deactivate_others id provider cs else cs

prepared-IsSingle :
    (id : Key) (provider : Provider) (on : Bool) (cs : List PaymentProviderConfig)
    → IsSingle cs
    → IsSingle (prepared id provider on cs)
      × (on ≡ true → (p : Provider) → Active id p (prepared id provider on cs) → p ≡ provider)
unfolding prepared IsSingle
prepared-IsSingle id provider false cs h = (h, λ k p a. cc)
prepared-IsSingle id provider true cs h = (
  (λ e p q a b.
      h e p q ((Active-deactivate_others id provider e p cs a).0)
        ((Active-deactivate_others id provider e q cs b).0)),
  λ k p a. (Active-deactivate_others id provider id p cs a).1 refl,
)

save_one-IsSingle :
    (encrypt : Text → Text) (dto : UpsertPaymentConfigDto) (id : Key)
    (cs : List PaymentProviderConfig)
    → IsSingle cs
    → IsSingle (save_one encrypt dto id cs)
unfolding save_one donnees_chiffrees prepared
save_one-IsSingle encrypt dto id cs h =
    let (single, only) = prepared-IsSingle id dto.provider (is_set dto.is_active) cs h in
    adds-IsSingle id dto.provider (is_set dto.is_active)
      (prepared id dto.provider (is_set dto.is_active) cs) (save_one encrypt dto id cs)
      (upsert-Adds (donnees_chiffrees encrypt dto id)
        (prepared id dto.provider (is_set dto.is_active) cs))
      only single

pub save_all-IsSingle :
    (encrypt : Text → Text) (dto : UpsertPaymentConfigDto) (ids : List Key)
    (cs : List PaymentProviderConfig)
    → IsSingle cs
    → IsSingle (save_all encrypt dto ids cs)
unfolding save_all
save_all-IsSingle encrypt dto [] cs h = h
save_all-IsSingle encrypt dto (id ∷ ids) cs h =
    save_all-IsSingle encrypt dto ids _ (save_one-IsSingle encrypt dto id cs h)

pub switch-IsSingle :
    (provider : Provider) (on : Bool) (id : Key) (cs : List PaymentProviderConfig)
    → IsSingle cs
    → IsSingle (switch provider on id cs)
unfolding switch prepared
switch-IsSingle provider on id cs h =
    let (single, only) = prepared-IsSingle id provider on cs h in
    adds-IsSingle id provider on (prepared id provider on cs) (switch provider on id cs)
      (switch-Adds id provider on (prepared id provider on cs)) only single

any-keep :
    (test stays : PaymentProviderConfig → Bool) (cs : List PaymentProviderConfig)
    → any test (keep stays cs) ≡ true
    → any test cs ≡ true
any-keep test stays [] h = h
any-keep test stays (c ∷ cs) h = ground (arith, any-keep test stays cs)

pub keep-IsSingle :
    (stays : PaymentProviderConfig → Bool) (cs : List PaymentProviderConfig)
    → IsSingle cs
    → IsSingle (keep stays cs)
unfolding IsSingle Active
keep-IsSingle stays cs h e p q a b =
    h e p q (any-keep (active e p) stays cs a) (any-keep (active e q) stays cs b)
