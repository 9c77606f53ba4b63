-- ===== src/Registry/Cache/Grants.antt =====
-- What stands behind a `verified` decision of the cache, and what the cache answers by itself.
use universal_smart_wallet.Prelude.{
  ℕ, ◌≡◌, refl, ap, true, Option, none, some, arith, Bool-cases, Option-cases, Result-cases, inl,
  inr, lookup, lookup-insert_self, Result, ok, err,
}
use universal_smart_wallet.Value.{Value}
use universal_smart_wallet.Registry.{
  Scope, SignedSnapshot, Decision, DecisionCode, verified, indeterminate,
}
use universal_smart_wallet.Registry.Verify.{Verifier, Thrown, parse_scope, verify_registry_snapshot}
use universal_smart_wallet.Registry.Decide.{
  TrustRequest, StatusRequest, or_else, is_fresh, evaluate_trust_snapshot, evaluate_status_snapshot,
}
use universal_smart_wallet.Registry.Decide.Trust.{
  TrustGranted, StatusGranted, evaluate_trust_snapshot-verified, evaluate_status_snapshot-verified,
}
use universal_smart_wallet.Registry.Cache.{
  Cache, Ports, Resolution, unresolved, CredentialRequest, scope_key, store, is_missing,
  accept_loaded, fetch, resolve_cached, resolve, evaluate_credential, combined, credential_on,
  decided,
}
use universal_smart_wallet.Registry.Cache.Laws.{parse_scope-eq_ok, store-eq_ok}
use universal_smart_wallet.Registry.Cache.Change.{Authentic, resolve-Change}
use universal_smart_wallet.Registry.Cache.Runs.{IsSound, Change-IsSound}

-- A snapshot that a fetch resolves to is an entry of the cache that the fetch leaves.
module _ (ports : Ports) (scope : Scope) (now : ℕ) (s : SignedSnapshot) where
  accept_loaded-lookup :
      (outdated : Option SignedSnapshot) (value : Value) (c : Cache)
      → (accept_loaded ports scope now outdated value c).0 ≡ ok s
      → lookup (scope_key scope) (accept_loaded ports scope now outdated value c).1 ≡ some s
  unfolding accept_loaded
  accept_loaded-lookup outdated value c h =
      elim (Result-cases (verify_registry_snapshot value scope ports.verify)) [
        | inr (x, ex) ↦ absurd (unresolved-ne-ok outdated (ground arith))
        | inl (t, et) ↦ elim (Bool-cases (is_fresh t now)) [
          | inr old ↦ ground arith
          | inl new ↦ elim (Result-cases (store c t scope)) [
            | inr (x, ex) ↦ absurd (unresolved-ne-ok outdated (ground arith))
            | inl (d, ed) ↦
                let stored = (store-eq_ok c d t scope ed).0 in
                ground (arith, stored, lookup-insert_self (scope_key scope) t c)
          ]
        ]
      ]
    where
      unresolved-ne-ok :
          (o : Option SignedSnapshot) → unresolved DecisionCode.snapshot_invalid o ≡ ok s → ⊥
      unresolved-ne-ok none e = cc
      unresolved-ne-ok (some t) e = cc

  fetch-lookup :
      (outdated : Option SignedSnapshot) (c : Cache)
      → (fetch ports scope now outdated c).0 ≡ ok s
      → lookup (scope_key scope) (fetch ports scope now outdated c).1 ≡ some s
  unfolding fetch
  fetch-lookup outdated c h = elim (Option-cases (ports.load scope)) [
    | inl e ↦ ground (arith, Option-cases outdated)
    | inr (value, e) ↦ elim (Bool-cases (is_missing value)) [
      | inl gone ↦ ground (arith, Option-cases outdated)
      | inr there ↦ ground (arith, accept_loaded-lookup outdated value c)
    ]
  ]

  -- It is fresh, too.
  accept_loaded-fresh :
      (outdated : Option SignedSnapshot) (value : Value) (c : Cache)
      → (accept_loaded ports scope now outdated value c).0 ≡ ok s
      → is_fresh s now ≡ true
  unfolding accept_loaded
  accept_loaded-fresh outdated value c h = ground (arith, Option-cases outdated)

  fetch-fresh :
      (outdated : Option SignedSnapshot) (c : Cache)
      → (fetch ports scope now outdated c).0 ≡ ok s
      → is_fresh s now ≡ true
  unfolding fetch
  fetch-fresh outdated c h = elim (Option-cases (ports.load scope)) [
    | inl e ↦ ground (arith, Option-cases outdated)
    | inr (value, e) ↦ elim (Bool-cases (is_missing value)) [
      | inl gone ↦ ground (arith, Option-cases outdated)
      | inr there ↦ accept_loaded-fresh outdated value c (ground arith)
    ]
  ]

  resolve_cached-eq_ok :
      (c : Cache)
      → (resolve_cached ports scope now (lookup (scope_key scope) c) c).0 ≡ ok s
      → (lookup (scope_key scope) (resolve_cached ports scope now (lookup (scope_key scope) c) c).1
          ≡ some s)
        × (is_fresh s now ≡ true)
  resolve_cached-eq_ok c = go (lookup (scope_key scope) c) refl
    where
      go :
          (o : Option SignedSnapshot)
          → lookup (scope_key scope) c ≡ o
          → (resolve_cached ports scope now o c).0 ≡ ok s
          → (lookup (scope_key scope) (resolve_cached ports scope now o c).1 ≡ some s)
            × (is_fresh s now ≡ true)
      go none e h = (
        unfold resolve_cached in fetch-lookup none c h,
        unfold resolve_cached in fetch-fresh none c h,
      )
      go (some t) e h = elim (Bool-cases (is_fresh t now)) [
        | inl new ↦ (unfold resolve_cached in ground arith, unfold resolve_cached in ground arith)
        | inr old ↦ (
          unfold resolve_cached in ground (arith, fetch-lookup (some t) c),
          unfold resolve_cached in ground (arith, fetch-fresh (some t) c),
        )
      ]

pub resolve-eq_ok :
    (ports : Ports) (scope : Scope) (now : ℕ) (s : SignedSnapshot) (c : Cache)
    → (resolve ports scope now c).0 ≡ ok (ok s)
    → (lookup (scope_key scope) (resolve ports scope now c).1 ≡ some s) × (is_fresh s now ≡ true)
unfolding resolve
resolve-eq_ok ports scope now s c h = elim (Result-cases (parse_scope scope)) [
  | inr (x, ex) ↦ ground arith
  | inl (t, et) ↦
      let same = (parse_scope-eq_ok scope t et).0 in
      let of_t = resolve_cached-eq_ok ports t now s c (ground arith) in ground (arith, same, of_t)
]

-- Without a snapshot the decision is indeterminate, never a verification.
module _ (ports : Ports) (scope : Scope) (now : ℕ) (d : Decision) where
  accept_loaded-refused :
      (outdated : Option SignedSnapshot) (value : Value) (c : Cache)
      → (accept_loaded ports scope now outdated value c).0 ≡ err d
      → d.decision ≡ indeterminate
  unfolding accept_loaded
  accept_loaded-refused outdated value c h = ground (arith, Option-cases outdated)

  fetch-refused :
      (outdated : Option SignedSnapshot) (c : Cache)
      → (fetch ports scope now outdated c).0 ≡ err d
      → d.decision ≡ indeterminate
  unfolding fetch
  fetch-refused outdated c h = elim (Option-cases (ports.load scope)) [
    | inl e ↦ ground (arith, Option-cases outdated)
    | inr (value, e) ↦ ground (arith, Option-cases outdated, accept_loaded-refused outdated value c)
  ]

  resolve_cached-refused :
      (o : Option SignedSnapshot) (c : Cache)
      → (resolve_cached ports scope now o c).0 ≡ err d
      → d.decision ≡ indeterminate
  unfolding resolve_cached
  resolve_cached-refused none c h = fetch-refused none c h
  resolve_cached-refused (some t) c h = ground (arith, fetch-refused (some t) c)

-- Whatever goes wrong with the source, its answer or the cache, the decision is indeterminate.
pub resolve-refused :
    (ports : Ports) (scope : Scope) (now : ℕ) (d : Decision) (c : Cache)
    → (resolve ports scope now c).0 ≡ ok (err d)
    → d.decision ≡ indeterminate
unfolding resolve
resolve-refused ports scope now d c h = elim (Result-cases (parse_scope scope)) [
  | inr (x, ex) ↦ ground arith
  | inl (t, et) ↦ resolve_cached-refused ports t now d (lookup (scope_key t) c) c (ground arith)
]

-- A verified credential has both a granted trust and a valid status.
combined-verified :
    (s : SignedSnapshot) (trust status : Decision)
    → (combined s trust status).decision ≡ verified
    → (trust.decision ≡ verified) × (status.decision ≡ verified)
unfolding combined
combined-verified s trust status h = ground arith

abbrev pub at_time : TrustRequest → ℕ → TrustRequest
at_time r now = record r { now = some now }

abbrev pub status_at_time : CredentialRequest → ℕ → StatusRequest
status_at_time r now = record {
  scope = r.scope;
  issuer_id = r.issuer_id;
  status_id = r.status_id;
  now = some now;
}

-- What a `verified` credential rests on.
pub record Vouched (verify : Verifier) (c : Cache) (r : CredentialRequest) (now : ℕ) : Type 0 where
  pub snapshot : SignedSnapshot
  pub cached : lookup (scope_key r.scope) c ≡ some snapshot
  pub authentic : Authentic verify snapshot
  pub trust : TrustGranted snapshot (at_time r.trust now) now
  pub status : StatusGranted snapshot (status_at_time r now) now

-- If `evaluateCredential` answers `verified` on a cache whose entries its verifier accepted, the
-- cache that it leaves holds, under the requested scope, a snapshot whose signature the verifier
-- accepted, that is fresh at the time of the request, and by which the issuer, the schema and the
-- key are granted and the credential's entry is valid.
pub evaluate_credential-Vouched :
    (verify : Verifier) (ports : Ports) (c : Cache) (r : CredentialRequest) (d : Decision)
    → ports.verify ≡ verify
    → IsSound verify c
    → (evaluate_credential ports r c).0 ≡ ok d
    → d.decision ≡ verified
    → Vouched verify (evaluate_credential ports r c).1 r (or_else r.now ports.clock)
unfolding evaluate_credential credential_on
evaluate_credential-Vouched verify ports c r d u v h hd = go (resolve ports r.scope now c) refl h
  where
    now : ℕ
    now = or_else r.now ports.clock

    sound : IsSound verify (resolve ports r.scope now c).1
    sound = Change-IsSound verify c _ (resolve-Change verify ports u r.scope now c) v

    go :
        (res : Result Thrown Resolution × Cache)
        → resolve ports r.scope now c ≡ res
        → decided (λ s. credential_on s r now) res.0 ≡ ok d
        → Vouched verify (resolve ports r.scope now c).1 r now
    go (err e, c') er k = cc
    go (ok (err d'), c') er k =
        let refused = resolve-refused ports r.scope now d' c (ap (λ z. z.0) er) in ground arith
    go (ok (ok s), c') er k =
        let found = resolve-eq_ok ports r.scope now s c (ap (λ z. z.0) er) in
        let trust = evaluate_trust_snapshot s (at_time r.trust now) now in
        let status = evaluate_status_snapshot s (status_at_time r now) now in
        let both = combined-verified s trust status (ground arith) in
        record {
          snapshot = s;
          cached = found.0;
          authentic = (sound.at_key (scope_key r.scope) s found.0).1;
          trust = (evaluate_trust_snapshot-verified s (at_time r.trust now) now).0 both.0;
          status = (evaluate_status_snapshot-verified s (status_at_time r now) now).0 both.1;
        }
