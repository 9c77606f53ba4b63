-- ===== src/Domain/Attestations.antt =====
-- On-chain attestations of packages/credential-domain/src/index.ts: `validateAttestation`,
-- `attestationSigningPayload`, `signAttestation` and `verifyAttestation`. The hash, the signer and
-- the verifier are arguments. An error is its message.
use Prim.Native.String.{◌++◌ as join}
use universal_smart_wallet.Prelude.{
  ℕ, suc, String, Bool, true, false, not, ◌&&◌, ◌||◌, ◌≡◌, List, [], ◌∷◌, arith, units, decimal,
  Result, ok, ◌>>=◌, ◌>>◌, guard, if◌then◌else◌, inl, inr, Result-cases,
}
use universal_smart_wallet.Value.{Number, pos, negsuc, real}
use universal_smart_wallet.Policy.Texts.{
  is_hex_text, is_zero_text, lower, is_safe_integer, is_less, is_same,
}
use universal_smart_wallet.Domain.{Claims, OnChainAttestation}

abbrev pub Checked : Type 0 → Type 0
Checked A = Result String A

unfoldable pub hex32 : String → String → Checked (Unit {0})
hex32 value name = guard (is_hex_text 64 (units value)) (join name " must be bytes32")

unfoldable pub address : String → String → Checked (Unit {0})
address value name =
    guard (is_hex_text 40 (units value) && not (is_zero_text (units value)))
      (join name " must be a non-zero address")

-- What `validateAttestation` requires of everything but the signature.
unfoldable pub validate_claims : Claims → Checked (Unit {0})
validate_claims c = do
  guard (is_same c.version (pos 1)) "unsupported attestation version"
  guard (is_safe_integer c.chain_id && is_less (pos 0) c.chain_id) "invalid chain id"
  address c.consumer "consumer"
  hex32 c.policy "policy"
  hex32 c.subject "subject"
  hex32 c.nonce "nonce"
  guard
      (is_safe_integer c.issued_at
        && is_safe_integer c.expires_at
        && is_less c.issued_at c.expires_at)
      "invalid attestation lifetime"
  address c.attestor "attestor"
  hex32 c.attestor_version "attestor version"

unfoldable pub validate_attestation : OnChainAttestation → Checked (Unit {0})
validate_attestation a = do
  validate_claims a.claims
  guard (is_hex_text 130 (units a.signature)) "signature must be 65 bytes"

-- `String(n)`; validation admits no other numbers than integers.
abbrev pub number_text : Number → String
number_text (pos n) = decimal n
number_text (negsuc n) = join "-" (decimal (suc n))
number_text (real name) = "NaN"

-- `parts.join('|')`
unfoldable pub bar_joined : List String → String
bar_joined [] = ""
bar_joined (s ∷ []) = s
bar_joined (s ∷ t ∷ ts) = join s (join "|" (bar_joined (t ∷ ts)))

unfoldable pub attestation_signing_payload : Claims → Checked String
attestation_signing_payload c = do
  validate_claims c
  ok (
      bar_joined (
        "ssw-onchain-attestation-v1"
        ∷ number_text c.version
        ∷ number_text c.chain_id
        ∷ lower c.consumer
        ∷ lower c.policy
        ∷ lower c.subject
        ∷ lower c.nonce
        ∷ number_text c.issued_at
        ∷ number_text c.expires_at
        ∷ lower c.attestor
        ∷ lower c.attestor_version
        ∷ []))

-- `AttestationSigner` and `AttestationVerifier`, which may reject.
abbrev pub AttestationSigner : Type 0
AttestationSigner = String → Claims → Checked String

abbrev pub AttestationVerifier : Type 0
AttestationVerifier = String → String → String → Checked Bool

unfoldable pub sign_attestation :
    Claims → AttestationSigner → (String → String) → Checked OnChainAttestation
sign_attestation c signer hash = do
  validate_claims c
  payload ← attestation_signing_payload c
  signature ← signer (hash payload) c
  let result : OnChainAttestation = record { claims = c; signature = signature }
  validate_attestation result
  ok result

abbrev within_lifetime : ℕ → Claims → Bool
within_lifetime now c = not (is_less (pos now) c.issued_at || not (is_less (pos now) c.expires_at))

abbrev verdict_of : OnChainAttestation → AttestationVerifier → (String → String) → Checked Bool
verdict_of a verifier hash = do
  payload ← attestation_signing_payload a.claims
  verifier (hash payload) a.signature a.claims.attestor

unfoldable pub verify_attestation :
    OnChainAttestation → AttestationVerifier → (String → String) → ℕ → Checked Bool
verify_attestation a verifier hash now = do
  validate_attestation a
  if within_lifetime now a.claims then verdict_of a verifier hash else ok false

validate_attestation-claims :
    (a : OnChainAttestation) {u : Unit {0}}
    → validate_attestation a ≡ ok u
    → validate_claims a.claims ≡ ok tt
unfolding validate_attestation
validate_attestation-claims a h = ground arith

-- An attestation that was signed carries the claims that were given, and a verifier that accepts,
-- for the attestor of the claims, what the signer signs accepts it exactly from the instant of
-- issue until before it expires.
pub verify-sign_attestation :
    (c : Claims) (signer : AttestationSigner) (verifier : AttestationVerifier)
    (hash : String → String) (now : ℕ) (a : OnChainAttestation)
    → ((digest signature : String)
        → signer digest c ≡ ok signature
        → verifier digest signature c.attestor ≡ ok true)
    → sign_attestation c signer hash ≡ ok a
    → (a.claims ≡ c)
      × (verify_attestation a verifier hash now
          ≡ ok (not (is_less (pos now) c.issued_at) && is_less (pos now) c.expires_at))
unfolding sign_attestation verify_attestation
verify-sign_attestation c signer verifier hash now a trusts h =
    elim (Result-cases (attestation_signing_payload c)) [
      | inr (e, ee) ↦ absurd (ground arith)
      | inl (payload, ep) ↦ elim (Result-cases (signer (hash payload) c)) [
        | inr (e, ee) ↦ absurd (ground arith)
        | inl (signature, es) ↦
            let claims : a.claims ≡ c = ground arith in
            let same : a.signature ≡ signature = ground arith in
            let valid : validate_attestation a ≡ ok tt = ground arith in
            let trusted = trusts (hash payload) signature es in (claims, ground arith)
      ]
    ]
