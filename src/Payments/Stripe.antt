-- ===== src/Payments/Stripe.antt =====
-- apps/api/src/payments/stripe.service.ts: amounts in the smallest unit, and the signature of a
-- webhook. The currency codes are ASCII; the HMAC is that of Node's `crypto`.
use fluid_events.Prelude.{
  ℕ, ◌+◌, ◌-◌, ◌*◌, ◌/◌, ◌≤◌, ◌==◌, ltb, if◌then◌else◌, Bool, true, false, Option, none, some, List,
  [], ◌∷◌, ◌≡◌, map, any, arith, String,
}
use fluid_events.Prelude.Texts.{codes, text_eq, to_upper}
use fluid_events.Payments.{Key, Time, Amount}

abbrev pub devises_sans_decimale : List String
devises_sans_decimale =
    "XOF" ∷ "XAF" ∷ "BIF" ∷ "CLP" ∷ "DJF" ∷ "GNF" ∷ "JPY" ∷ "KMF" ∷ "KRW" ∷ "MGA" ∷ "PYG" ∷ "RWF"
    ∷ "UGX" ∷ "VND" ∷ "VUV" ∷ "XPF" ∷ []

unfoldable pub sans_decimale : String → Bool
sans_decimale currency =
    any (λ c. text_eq (codes c) (map to_upper (codes currency))) devises_sans_decimale

-- The amount is in hundredths here and in units there: `Math.round(amount)` rounds half up.
unfoldable pub vers_plus_petite_unite : Amount → String → ℕ
vers_plus_petite_unite amount currency =
    if sans_decimale currency then (amount + 50) / 100 else amount

-- What is read of the header's `t=...,v1=...`. A timestamp that is no number is `none`.
pub record StripeHeader : Type 0 where
  pub timestamp : Option ℕ
  pub v1 : Option Key

abbrev pub tolerance_signature_secondes : ℕ
tolerance_signature_secondes = 300

-- The distance between two instants.
abbrev pub distance : ℕ → ℕ → ℕ
distance a b = if ltb a b then b - a else a - b

-- `hmac secret timestamp body` is the signature of `timestamp.body`.
module _ (hmac : Key → ℕ → Key → Key) where
  abbrev pub signed_in_time : Key → Key → Time → Option ℕ → Option Key → Bool
  signed_in_time body secret now none v1 = false
  signed_in_time body secret now (some t) none = false
  signed_in_time body secret now (some t) (some v1) =
      if ltb (1000 * tolerance_signature_secondes) (distance now (1000 * t))
      then false
      else hmac secret t body == v1

  unfoldable pub verifier_signature : Key → Option StripeHeader → Key → Time → Bool
  verifier_signature body none secret now = false
  verifier_signature body (some header) secret now =
      signed_in_time body secret now header.timestamp header.v1

  -- A webhook that is accepted carries the HMAC of its own timestamp and body under the secret, and
  -- that timestamp is at most five minutes away.
  pub verifier_signature-genuine :
      (body secret : Key) (header : StripeHeader) (now : Time)
      → verifier_signature body (some header) secret now ≡ true
      → (t : ℕ) × (header.timestamp ≡ some t)
        × (header.v1 ≡ some (hmac secret t body))
        × (now ≤ 1000 * t + 300000)
        × (1000 * t ≤ now + 300000)
  unfolding verifier_signature
  verifier_signature-genuine body secret header now e = ground arith
