-- ===== src/Settings/Rows.antt =====
-- Providers that are told apart, and searches among rows that are rewritten.
use fluid_events.Prelude.{
  true, Bool, ◌≡◌, refl, ◌⊎◌, inl, inr, List, [], ◌∷◌, map, any, arith, Bool-cases,
}
use fluid_events.Payments.{Provider, provider_eq}

pub provider_eq-eq : (p q : Provider) → provider_eq p q ≡ true → p ≡ q
provider_eq-eq Provider.kkiapay Provider.kkiapay h = refl
provider_eq-eq Provider.kkiapay Provider.cinetpay h = cc
provider_eq-eq Provider.kkiapay Provider.fedapay h = cc
provider_eq-eq Provider.kkiapay Provider.stripe h = cc
provider_eq-eq Provider.kkiapay Provider.paypal h = cc
provider_eq-eq Provider.cinetpay Provider.kkiapay h = cc
provider_eq-eq Provider.cinetpay Provider.cinetpay h = refl
provider_eq-eq Provider.cinetpay Provider.fedapay h = cc
provider_eq-eq Provider.cinetpay Provider.stripe h = cc
provider_eq-eq Provider.cinetpay Provider.paypal h = cc
provider_eq-eq Provider.fedapay Provider.kkiapay h = cc
provider_eq-eq Provider.fedapay Provider.cinetpay h = cc
provider_eq-eq Provider.fedapay Provider.fedapay h = refl
provider_eq-eq Provider.fedapay Provider.stripe h = cc
provider_eq-eq Provider.fedapay Provider.paypal h = cc
provider_eq-eq Provider.stripe Provider.kkiapay h = cc
provider_eq-eq Provider.stripe Provider.cinetpay h = cc
provider_eq-eq Provider.stripe Provider.fedapay h = cc
provider_eq-eq Provider.stripe Provider.stripe h = refl
provider_eq-eq Provider.stripe Provider.paypal h = cc
provider_eq-eq Provider.paypal Provider.kkiapay h = cc
provider_eq-eq Provider.paypal Provider.cinetpay h = cc
provider_eq-eq Provider.paypal Provider.fedapay h = cc
provider_eq-eq Provider.paypal Provider.stripe h = cc
provider_eq-eq Provider.paypal Provider.paypal h = refl

module _ {ℓ κ} {A : Type ℓ} (test : A → Bool) (f : A → A) where
  pub any-map-both :
      {R : Type κ}
      → ((x : A) → test (f x) ≡ true → (test x ≡ true) × R)
      → (xs : List A) → any test (map f xs) ≡ true
      → (any test xs ≡ true) × R
  any-map-both step [] h = cc
  any-map-both step (x ∷ xs) h = elim (Bool-cases (test (f x))) [
    | inl here ↦ let (t, r) = step x here in (rw t refl, r)
    | inr later ↦ let (t, r) = any-map-both step xs (simp later at h) in (ground (arith, t), r)
  ]

  pub any-map-either :
      {R : Type κ}
      → ((x : A) → test (f x) ≡ true → (test x ≡ true) ⊎ R)
      → (xs : List A) → any test (map f xs) ≡ true
      → (any test xs ≡ true) ⊎ R
  any-map-either step [] h = cc
  any-map-either step (x ∷ xs) h = elim (Bool-cases (test (f x))) [
    | inl here ↦ elim (step x here) [ inl t ↦ inl (rw t refl) | inr r ↦ inr r ]
    | inr later ↦ elim (any-map-either step xs (simp later at h)) [
      | inl t ↦ inl (ground (arith, t))
      | inr r ↦ inr r
    ]
  ]
