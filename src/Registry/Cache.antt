-- ===== src/Registry/Cache.antt =====
-- `SignedSnapshotCache` of packages/trust-registry/src/index.ts. Its state is the map of entries.
-- An operation takes what its ports answer in this call, and returns its result or what it throws
-- beside the cache that it leaves.
pub mod Laws
pub mod Change
pub mod Runs
pub mod Grants
pub mod Offline
use universal_smart_wallet.Prelude.{
  ℕ, String, Bool, true, false, not, ◌&&◌, ◌||◌, List, [], ◌∷◌, Option, none, some, ltb, ◌==◌,
  str_eq, if◌then◌else◌, Map, lookup, insert, erase, Result, ok, err, ◌>>=◌, ◌>>◌, guard,
}
use universal_smart_wallet.Value.{Value, Number, undefined, null}
use universal_smart_wallet.Registry.{
  DecisionKind, verified, rejected, indeterminate, DecisionCode, Decision, Scope, SignedSnapshot,
  SnapshotError, stale, rollback,
}
use universal_smart_wallet.Registry.Snapshots.{nul_joined, parse_signed_snapshot}
use universal_smart_wallet.Registry.Verify.{
  Thrown, registry, lift, Verifier, parse_scope, verify_registry_snapshot,
}
use universal_smart_wallet.Registry.Decide.{
  TrustRequest, StatusRequest, or_else, evidence, bare_evidence, is_fresh, evaluate_trust_snapshot,
  evaluate_status_snapshot,
}

abbrev pub Cache : Type 0
Cache = Map SignedSnapshot

-- The answers of the source, the verifier and the clock. `none` is a source that throws.
pub record Ports : Type 0 where
  pub load : Scope → Option Value
  pub verify : Verifier
  pub clock : ℕ

pub record CredentialRequest : Type 0 where
  pub trust : TrustRequest
  pub open trust use *
  pub status_id : String

abbrev pub status_request : CredentialRequest → StatusRequest
status_request r = record {
  scope = r.scope;
  issuer_id = r.issuer_id;
  status_id = r.status_id;
  now = r.now;
}

abbrev pub Resolution : Type 0
Resolution = Result Decision SignedSnapshot

unfoldable pub scope_key : Scope → String
scope_key s = nul_joined s.tenant_id s.jurisdiction

-- An older sequence is refused, and so is another snapshot of the same sequence.
unfoldable pub is_rollback : SignedSnapshot → SignedSnapshot → Bool
is_rollback s previous =
    ltb s.sequence previous.sequence
    || s.sequence == previous.sequence
      && (not (str_eq s.snapshot_id previous.snapshot_id)
          || not (str_eq s.signature previous.signature))

abbrev pub refused_by : SignedSnapshot → Option SignedSnapshot → Bool
refused_by s none = false
refused_by s (some previous) = is_rollback s previous

unfoldable pub store : Cache → SignedSnapshot → Scope → Result SnapshotError Cache
store c s scope =
    if refused_by s (lookup (scope_key scope) c)
    then err rollback
    else ok (insert (scope_key scope) s c)

-- The tests of `prime` after the signature.
unfoldable pub prime : Ports → Value → Cache → Result Thrown SignedSnapshot × Cache
prime ports value c =
    let verifying : Result Thrown SignedSnapshot = do
      unscoped ← lift (parse_signed_snapshot value)
      snapshot ← verify_registry_snapshot value unscoped.scope ports.verify
      guard (is_fresh snapshot ports.clock) (registry stale)
      ok snapshot
    in elim verifying [
      | err e ↦ (err e, c)
      | ok s ↦ elim (store c s s.scope) [ err e ↦ (err (registry e), c) | ok d ↦ (ok s, d) ]
    ]

unfoldable pub invalidate : Scope → Cache → Result Thrown (Unit {0}) × Cache
invalidate scope c = elim (parse_scope scope) [
  | err e ↦ (err (registry e), c)
  | ok parsed ↦ (ok tt, erase (scope_key parsed) c)
]

-- `evidence('indeterminate', code, stale)`
abbrev pub unresolved : DecisionCode → Option SignedSnapshot → Resolution
unresolved code none = err (bare_evidence indeterminate code)
unresolved code (some s) = err (evidence indeterminate code s)

abbrev pub is_missing : Value → Bool
is_missing undefined = true
is_missing null = true
is_missing _ = false

unfoldable pub accept_loaded :
    Ports → Scope → ℕ → Option SignedSnapshot → Value → Cache → Resolution × Cache
accept_loaded ports scope now outdated value c =
    elim (verify_registry_snapshot value scope ports.verify) [
      | err e ↦ (unresolved DecisionCode.snapshot_invalid outdated, c)
      | ok s ↦
          if is_fresh s now
          then elim (store c s scope) [
            | err e ↦ (unresolved DecisionCode.snapshot_invalid outdated, c)
            | ok d ↦ (ok s, d)
          ]
          else (unresolved DecisionCode.snapshot_stale (some s), c)
    ]

unfoldable pub fetch : Ports → Scope → ℕ → Option SignedSnapshot → Cache → Resolution × Cache
fetch ports scope now outdated c = elim (ports.load scope) [
  | none ↦ (unresolved DecisionCode.registry_unavailable outdated, c)
  | some value ↦
      if is_missing value
      then (unresolved DecisionCode.snapshot_missing outdated, c)
      else accept_loaded ports scope now outdated value c
]

unfoldable pub resolve_cached :
    Ports → Scope → ℕ → Option SignedSnapshot → Cache → Resolution × Cache
resolve_cached ports scope now none c = fetch ports scope now none c
resolve_cached ports scope now (some s) c =
    if is_fresh s now then (ok s, c) else fetch ports scope now (some s) c

unfoldable pub resolve : Ports → Scope → ℕ → Cache → Result Thrown Resolution × Cache
resolve ports scope now c = elim (parse_scope scope) [
  | err e ↦ (err (registry e), c)
  | ok parsed ↦
      let (r, d) = resolve_cached ports parsed now (lookup (scope_key parsed) c) c in (ok r, d)
]

abbrev pub fresh_decision : Resolution → Decision
fresh_decision (ok s) = evidence verified DecisionCode.snapshot_fresh s
fresh_decision (err d) = d

unfoldable pub refresh : Ports → Scope → Option ℕ → Cache → Result Thrown Decision × Cache
refresh ports scope now c = elim (parse_scope scope) [
  | err e ↦ (err (registry e), c)
  | ok parsed ↦
      let (r, d) = fetch ports parsed (or_else now ports.clock) none c in (ok (fresh_decision r), d)
]

-- `if (!resolved.ok) return resolved.decision`, then the evaluation.
abbrev pub decided : (SignedSnapshot → Decision) → Result Thrown Resolution → Result Thrown Decision
decided f (err e) = err e
decided f (ok (err d)) = ok d
decided f (ok (ok s)) = ok (f s)

unfoldable pub evaluate_trust : Ports → TrustRequest → Cache → Result Thrown Decision × Cache
evaluate_trust ports request c =
    let now = or_else request.now ports.clock in
    let (r, d) = resolve ports request.scope now c in
    (decided (λ s. evaluate_trust_snapshot s (record request { now = some now }) now) r, d)

unfoldable pub evaluate_status : Ports → StatusRequest → Cache → Result Thrown Decision × Cache
evaluate_status ports request c =
    let now = or_else request.now ports.clock in
    let (r, d) = resolve ports request.scope now c in
    (decided (λ s. evaluate_status_snapshot s (record request { now = some now }) now) r, d)

abbrev pub is_verified : Decision → Bool
is_verified d = elim (d.decision) [ verified ↦ true | rejected ↦ false | indeterminate ↦ false ]

unfoldable pub combined : SignedSnapshot → Decision → Decision → Decision
combined s trust status =
    if not (is_verified trust)
    then trust
    else if not (is_verified status)
    then status
    else evidence verified DecisionCode.credential_verified s

unfoldable pub credential_on : SignedSnapshot → CredentialRequest → ℕ → Decision
credential_on s request now =
    combined s (evaluate_trust_snapshot s (record (request.trust) { now = some now }) now)
      (evaluate_status_snapshot s (record (status_request request) { now = some now }) now)

unfoldable pub evaluate_credential :
    Ports → CredentialRequest → Cache → Result Thrown Decision × Cache
evaluate_credential ports request c =
    let now = or_else request.now ports.clock in
    let (r, d) = resolve ports request.scope now c in
    (decided (λ s. credential_on s request now) r, d)
