-- ===== src/Registry/Decide.antt =====
-- `evaluateTrustSnapshot` and `evaluateStatusSnapshot` of packages/trust-registry/src/index.ts: what
-- one snapshot says of a credential.
pub mod Trust
use universal_smart_wallet.Prelude.{
  ℕ, String, Bool, true, false, not, ◌&&◌, ◌||◌, Option, none, some, leb, ltb, str_eq,
  if◌then◌else◌, find, Result, ok, err, ◌>>=◌, ◌>>◌, guard,
}
use universal_smart_wallet.Value.{Number, pos, negsuc, real}
use universal_smart_wallet.Registry.{
  DecisionKind, verified, rejected, indeterminate, DecisionCode, Decision, Scope,
  AuthorizationStatus, KeyStatus, CredentialStatus, SchemaAuthorization, KeyAuthorization,
  IssuerAuthorization, StatusEntry, SignedSnapshot,
}
use universal_smart_wallet.Registry.Parse.{max_safe}
use universal_smart_wallet.Registry.Snapshots.{find_key}
use universal_smart_wallet.Registry.Verify.{same_scope}

-- `issuedAt` comes from a credential and may be any number.
pub record TrustRequest : Type 0 where
  pub scope : Scope
  pub issuer_id : String
  pub schema_id : String
  pub key_id : String
  pub issued_at : Number
  pub now : Option ℕ

pub record StatusRequest : Type 0 where
  pub scope : Scope
  pub issuer_id : String
  pub status_id : String
  pub now : Option ℕ

abbrev pub or_else {ℓ} : {A : Type ℓ} → Option A → A → A
or_else none a = a
or_else (some b) a = b

-- `evidence(decision, code, snapshot)`, with a snapshot and without one.
abbrev pub evidence : DecisionKind → DecisionCode → SignedSnapshot → Decision
evidence kind code s = record {
  decision = kind;
  code = code;
  snapshot = some (s.snapshot_id, s.expires_at);
}

abbrev pub bare_evidence : DecisionKind → DecisionCode → Decision
bare_evidence kind code = record { decision = kind; code = code; snapshot = none }

-- An early `return` of a decision is an error of the block.
abbrev pub settle : Result Decision Decision → Decision
settle (ok d) = d
settle (err d) = d

-- `issuedAt <= now && now < expiresAt`
unfoldable pub is_fresh : SignedSnapshot → ℕ → Bool
is_fresh s now = leb s.issued_at now && ltb now s.expires_at

unfoldable pub find_issuer : String → SignedSnapshot → Option IssuerAuthorization
find_issuer id s = find (λ i. str_eq i.issuer_id id) s.issuers

unfoldable pub find_schema : String → IssuerAuthorization → Option SchemaAuthorization
find_schema id i = find (λ a. str_eq a.schema_id id) i.schemas

unfoldable pub find_status : String → String → SignedSnapshot → Option StatusEntry
find_status issuer_id status_id s =
    find (λ e. str_eq e.issuer_id issuer_id && str_eq e.status_id status_id) s.statuses

-- The scope, the freshness and the issuer, which both evaluations check first.
unfoldable pub live_issuer :
    SignedSnapshot → Scope → String → ℕ → Result Decision IssuerAuthorization
live_issuer s scope issuer_id now = do
  guard (same_scope s.scope scope) (bare_evidence indeterminate DecisionCode.snapshot_invalid)
  guard (is_fresh s now) (evidence indeterminate DecisionCode.snapshot_stale s)
  elim (find_issuer issuer_id s) [
    | none ↦ err (evidence indeterminate DecisionCode.issuer_unknown s)
    | some i ↦ elim (i.status) [
      | AuthorizationStatus.active ↦ ok i
      | AuthorizationStatus.suspended ↦ err (evidence rejected DecisionCode.issuer_suspended s)
      | AuthorizationStatus.revoked ↦ err (evidence rejected DecisionCode.issuer_revoked s)
    ]
  ]

unfoldable pub live_schema :
    SignedSnapshot → IssuerAuthorization → String → Result Decision SchemaAuthorization
live_schema s i schema_id = elim (find_schema schema_id i) [
  | none ↦ err (evidence indeterminate DecisionCode.schema_unknown s)
  | some a ↦ elim (a.status) [
    | AuthorizationStatus.active ↦ ok a
    | AuthorizationStatus.suspended ↦ err (evidence rejected DecisionCode.schema_suspended s)
    | AuthorizationStatus.revoked ↦ err (evidence rejected DecisionCode.schema_revoked s)
  ]
]

abbrev pub is_before : ℕ → Option ℕ → Bool
is_before n none = true
is_before n (some until) = ltb n until

-- The issuance time is a safe integer inside the interval; a negative one lies before it.
unfoldable pub authorized_at : Number → KeyAuthorization → Bool
authorized_at (pos n) k =
    leb n max_safe && leb k.authorized_from n && is_before n k.authorized_until
authorized_at _ k = false

-- A retired key still vouches for what it signed in its interval; a revoked one does not.
unfoldable pub live_key :
    SignedSnapshot → IssuerAuthorization → String → Number → Result Decision KeyAuthorization
live_key s i key_id issued_at = elim (find_key key_id i.keys) [
  | none ↦ err (evidence indeterminate DecisionCode.key_unknown s)
  | some k ↦ elim (k.status) [
    | KeyStatus.revoked ↦ err (evidence rejected DecisionCode.key_revoked s)
    | _ ↦
        if authorized_at issued_at k
        then ok k
        else err (evidence rejected DecisionCode.key_not_authorized_at_issuance s)
  ]
]

unfoldable pub evaluate_trust_snapshot : SignedSnapshot → TrustRequest → ℕ → Decision
evaluate_trust_snapshot s request clock = settle do
  issuer ← live_issuer s request.scope request.issuer_id (or_else request.now clock)
  live_schema s issuer request.schema_id
  live_key s issuer request.key_id request.issued_at
  ok (evidence verified DecisionCode.trust_verified s)

unfoldable pub credential_decision : SignedSnapshot → Option StatusEntry → Decision
credential_decision s none = evidence indeterminate DecisionCode.status_unknown s
credential_decision s (some e) = elim (e.status) [
  | CredentialStatus.valid ↦ evidence verified DecisionCode.status_valid s
  | CredentialStatus.suspended ↦ evidence rejected DecisionCode.credential_suspended s
  | CredentialStatus.revoked ↦ evidence rejected DecisionCode.credential_revoked s
]

unfoldable pub evaluate_status_snapshot : SignedSnapshot → StatusRequest → ℕ → Decision
evaluate_status_snapshot s request clock = settle do
  live_issuer s request.scope request.issuer_id (or_else request.now clock)
  ok (credential_decision s (find_status request.issuer_id request.status_id s))
