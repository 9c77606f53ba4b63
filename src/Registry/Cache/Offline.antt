-- ===== src/Registry/Cache/Offline.antt =====
-- The cache of packages/trust-registry/src/index.ts when its source fails: a primed entry answers
-- while it is fresh, and a fetch that gives no snapshot changes nothing.
use universal_smart_wallet.Prelude.{
  ℕ, ◌≡◌, true, Option, some, arith, Option-cases, Result-cases, inl, inr, lookup, ok, err,
  lookup-insert_self, subst, sym, ap, ◌∙◌,
}
use universal_smart_wallet.Value.{Value}
use universal_smart_wallet.Registry.{Scope, SignedSnapshot, Decision}
use universal_smart_wallet.Registry.Snapshots.{parse_signed_snapshot}
use universal_smart_wallet.Registry.Verify.{verify_registry_snapshot}
use universal_smart_wallet.Registry.Decide.{is_fresh, or_else}
use universal_smart_wallet.Registry.Cache.{
  Cache, Ports, CredentialRequest, scope_key, store, prime, accept_loaded, fetch, resolve_cached,
  resolve, evaluate_credential, credential_on,
}
use universal_smart_wallet.Registry.Cache.Laws.{IsScope, parse_scope-of_IsScope, store-eq_ok}
use universal_smart_wallet.Registry.Cache.Change.{verify_registry_snapshot-Authentic}

-- The cached snapshot is used whatever the ports answer, and the entries stay.
resolve_offline :
    (ports : Ports) (scope : Scope) (now : ℕ) (c : Cache) (s : SignedSnapshot)
    → IsScope scope
    → lookup (scope_key scope) c ≡ some s
    → is_fresh s now ≡ true
    → resolve ports scope now c ≡ (ok (ok s), c)
unfolding resolve resolve_cached
resolve_offline ports scope now c s w h f = ground (arith, parse_scope-of_IsScope scope w)

-- What `prime` returns stands in the cache that it leaves, under the key of its own scope.
prime-lookup :
    (ports : Ports) (value : Value) (c : Cache) (s : SignedSnapshot)
    → (prime ports value c).0 ≡ ok s
    → IsScope s.scope × (lookup (scope_key s.scope) (prime ports value c).1 ≡ some s)
unfolding prime
prime-lookup ports value c s h = elim (Result-cases (parse_signed_snapshot value)) [
  | inr (e, ee) ↦ absurd (ground arith)
  | inl (t, et) ↦ elim (Result-cases (verify_registry_snapshot value t.scope ports.verify)) [
    | inr (e, ee) ↦ absurd (ground arith)
    | inl (u, eu) ↦ elim (Result-cases (store c u u.scope)) [
      | inr (e, ee) ↦ absurd (ground arith)
      | inl (d, ed) ↦
          let same : u ≡ s = ground arith in
          let facts = verify_registry_snapshot-Authentic value t.scope ports.verify u eu in
          let held = (store-eq_ok c d u u.scope ed).0 in
          let left : (prime ports value c).1 ≡ d = ground arith in
          subst
            (λ z. IsScope z.scope × (lookup (scope_key z.scope) (prime ports value c).1 ≡ some z))
            same
            (
              facts.1.scoped,
              ap (lookup (scope_key u.scope)) (left ∙ held)
                  ∙ lookup-insert_self (scope_key u.scope) u c,
            )
    ]
  ]
]

-- After `prime` returned a snapshot, `evaluateCredential` decides the next request for the
-- snapshot's scope by this snapshot, while it is fresh, whatever the source, the verifier and the
-- clock answer then, and leaves the cache unchanged.
pub evaluate_credential-prime :
    (first later : Ports) (value : Value) (c : Cache) (s : SignedSnapshot) (r : CredentialRequest)
    → (prime first value c).0 ≡ ok s
    → r.scope ≡ s.scope
    → is_fresh s (or_else r.now later.clock) ≡ true
    → evaluate_credential later r (prime first value c).1
      ≡ (ok (credential_on s r (or_else r.now later.clock)), (prime first value c).1)
unfolding evaluate_credential
evaluate_credential-prime first later value c s r h e f =
    let (scoped, held) = prime-lookup first value c s h in
    let resolved =
      resolve_offline later r.scope (or_else r.now later.clock) (prime first value c).1 s
        (subst IsScope (sym e) scoped)
        (ap (λ z. lookup (scope_key z) (prime first value c).1) e ∙ held) f in
    ground (arith, resolved)

accept_loaded-keeps :
    (ports : Ports) (scope : Scope) (now : ℕ) (outdated : Option SignedSnapshot) (value : Value)
    (c : Cache) (d : Decision)
    → (accept_loaded ports scope now outdated value c).0 ≡ err d
    → (accept_loaded ports scope now outdated value c).1 ≡ c
unfolding accept_loaded
accept_loaded-keeps ports scope now outdated value c d h = ground arith

-- A fetch that gives no snapshot, for whatever reason, leaves the cache as it was.
pub fetch-keeps :
    (ports : Ports) (scope : Scope) (now : ℕ) (outdated : Option SignedSnapshot) (c : Cache)
    (d : Decision)
    → (fetch ports scope now outdated c).0 ≡ err d
    → (fetch ports scope now outdated c).1 ≡ c
unfolding fetch
fetch-keeps ports scope now outdated c d h = elim (Option-cases (ports.load scope)) [
  | inl e ↦ ground arith
  | inr (value, e) ↦ ground (arith, accept_loaded-keeps ports scope now outdated value c d)
]
