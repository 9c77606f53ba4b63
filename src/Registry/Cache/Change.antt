-- ===== src/Registry/Cache/Change.antt =====
-- Every operation of the cache but `invalidate` keeps the entries or stores one authentic snapshot.
-- The other proofs about the cache rest on this.
use universal_smart_wallet.Prelude.{
  ℕ, ◌≡◌, refl, sym, ◌∙◌, ap, subst, String, true, Option, none, some, arith, eq_iff, Bool-cases,
  Option-cases, Result-cases, inl, inr, ◌⊎◌, lookup, insert, erase, ok,
}
use universal_smart_wallet.Value.{Value}
use universal_smart_wallet.Registry.{Scope, SignedSnapshot}
use universal_smart_wallet.Registry.Snapshots.{parse_signed_snapshot}
use universal_smart_wallet.Registry.Canonical.{signing_payload}
use universal_smart_wallet.Registry.Verify.{
  Verifier, VerifyRequest, parse_scope, verify_registry_snapshot,
}
use universal_smart_wallet.Registry.Decide.{is_fresh, or_else}
use universal_smart_wallet.Registry.Cache.{
  Cache, Ports, scope_key, store, prime, invalidate, accept_loaded, fetch, resolve_cached, resolve,
  refresh, is_missing,
}
use universal_smart_wallet.Registry.Cache.Laws.{IsScope, parse_scope-eq_ok, Follows, store-eq_ok}

abbrev pub asked : Scope → SignedSnapshot → String → VerifyRequest
asked scope s payload = record {
  request = record { scope = scope; key_id = s.signing_key_id; payload = payload };
  signature = s.signature;
}

-- The verifier accepted the signature over the snapshot's own payload, for its own scope and key.
pub record Authentic (verify : Verifier) (s : SignedSnapshot) : Type 0 where
  pub scoped : IsScope s.scope
  pub payload : String
  pub of_snapshot : signing_payload s.unsigned ≡ ok payload
  pub accepted : verify (asked s.scope s payload) ≡ some true

-- What one operation may do to the entries.
pub data Change (verify : Verifier) (c d : Cache) : Type 0 where
  keep : d ≡ c → Change verify c d
  stored :
      (s : SignedSnapshot)
      → Authentic verify s
      → ((p : SignedSnapshot) → lookup (scope_key s.scope) c ≡ some p → Follows p s)
      → d ≡ insert (scope_key s.scope) s c
      → Change verify c d

pub verify_registry_snapshot-Authentic :
    (value : Value) (scope : Scope) (verify : Verifier) (s : SignedSnapshot)
    → verify_registry_snapshot value scope verify ≡ ok s
    → (s.scope ≡ scope) × Authentic verify s
unfolding verify_registry_snapshot
verify_registry_snapshot-Authentic value scope verify s h =
    elim (Result-cases (parse_signed_snapshot value)) [
      | inr (e, ee) ↦ ground arith
      | inl (t, et) ↦ elim (Result-cases (parse_scope scope)) [
        | inr (e, ee) ↦ ground arith
        | inl (expected, ex) ↦ elim (Result-cases (signing_payload t.unsigned)) [
          | inr (e, ee) ↦ ground arith
          | inl (payload, ep) ↦
              let valid = parse_scope-eq_ok scope expected ex in
              let same : t ≡ s = ground arith in
              let in_scope : t.scope ≡ expected = ground (
                arith,
                eq_iff t.tenant_id expected.tenant_id,
                eq_iff t.jurisdiction expected.jurisdiction,
              ) in
              let accepted : verify (asked expected t payload) ≡ some true = ground arith in
              subst (λ x. (x.scope ≡ scope) × Authentic verify x) same
                (
                  in_scope ∙ sym valid.0,
                  record {
                    scoped = subst IsScope (sym in_scope) valid.1;
                    payload = payload;
                    of_snapshot = ep;
                    accepted =
                        subst (λ z. verify (asked z t payload) ≡ some true) (sym in_scope) accepted;
                  },
                )
        ]
      ]
    ]

module _ (verify : Verifier) (ports : Ports) (same : ports.verify ≡ verify) where
  -- The entry that an accepted snapshot leaves.
  stored-Change :
      (value : Value) (scope : Scope) (s : SignedSnapshot) (c d : Cache)
      → verify_registry_snapshot value scope ports.verify ≡ ok s
      → store c s s.scope ≡ ok d
      → Change verify c d
  stored-Change value scope s c d hv hs =
      let laws = store-eq_ok c d s s.scope hs in
      stored s
        (verify_registry_snapshot-Authentic value scope verify s
          (ap (verify_registry_snapshot value scope) (sym same) ∙ hv)).1
        laws.1 laws.0

  pub prime-Change : (value : Value) (c : Cache) → Change verify c (prime ports value c).1
  unfolding prime
  prime-Change value c = elim (Result-cases (parse_signed_snapshot value)) [
    | inr (x, ex) ↦ keep (ground arith)
    | inl (u, eu) ↦ elim (Result-cases (verify_registry_snapshot value u.scope ports.verify)) [
      | inr (x, ex) ↦ keep (ground arith)
      | inl (s, es) ↦ elim (Result-cases (store c s s.scope)) [
        | inr (x, ex) ↦ keep (ground arith)
        | inl (d, ed) ↦ elim (Bool-cases (is_fresh s ports.clock)) [
          | inr old ↦ keep (ground arith)
          | inl new ↦
              let at : (prime ports value c).1 ≡ d = ground arith in
              subst (Change verify c) (sym at) (stored-Change value u.scope s c d es ed)
        ]
      ]
    ]
  ]

  accept_loaded-Change :
      (scope : Scope) (now : ℕ) (outdated : Option SignedSnapshot) (value : Value) (c : Cache)
      → Change verify c (accept_loaded ports scope now outdated value c).1
  unfolding accept_loaded
  accept_loaded-Change scope now outdated value c =
      elim (Result-cases (verify_registry_snapshot value scope ports.verify)) [
        | inr (x, ex) ↦ keep (ground arith)
        | inl (s, es) ↦ elim (Result-cases (store c s scope)) [
          | inr (x, ex) ↦ keep (ground arith)
          | inl (d, ed) ↦ elim (Bool-cases (is_fresh s now)) [
            | inr old ↦ keep (ground arith)
            | inl new ↦
                let at : (accept_loaded ports scope now outdated value c).1 ≡ d = ground arith in
                let of_scope =
                  (verify_registry_snapshot-Authentic value scope ports.verify s es).0 in
                subst (Change verify c) (sym at)
                  (stored-Change value scope s c d es (ap (store c s) of_scope ∙ ed))
          ]
        ]
      ]

  pub fetch-Change :
      (scope : Scope) (now : ℕ) (outdated : Option SignedSnapshot) (c : Cache)
      → Change verify c (fetch ports scope now outdated c).1
  unfolding fetch
  fetch-Change scope now outdated c = elim (Option-cases (ports.load scope)) [
    | inl e ↦ keep (ground arith)
    | inr (value, e) ↦ elim (Bool-cases (is_missing value)) [
      | inl gone ↦ keep (ground arith)
      | inr here ↦
          let at : (fetch ports scope now outdated c).1
              ≡ (accept_loaded ports scope now outdated value c).1 =
            ground arith in
          subst (Change verify c) (sym at) (accept_loaded-Change scope now outdated value c)
    ]
  ]

  resolve_cached-Change :
      (scope : Scope) (now : ℕ) (cached : Option SignedSnapshot) (c : Cache)
      → Change verify c (resolve_cached ports scope now cached c).1
  unfolding resolve_cached
  resolve_cached-Change scope now none c = fetch-Change scope now none c
  resolve_cached-Change scope now (some s) c = elim (Bool-cases (is_fresh s now)) [
    | inl new ↦ rw new (keep refl)
    | inr old ↦ rw old (fetch-Change scope now (some s) c)
  ]

  pub resolve-Change :
      (scope : Scope) (now : ℕ) (c : Cache) → Change verify c (resolve ports scope now c).1
  unfolding resolve
  resolve-Change scope now c = elim (Result-cases (parse_scope scope)) [
    | inr (x, ex) ↦ rw (ex, resolve) (keep refl)
    | inl (t, et) ↦ rw (et, resolve) (resolve_cached-Change t now (lookup (scope_key t) c) c)
  ]

  pub refresh-Change :
      (scope : Scope) (now : Option ℕ) (c : Cache) → Change verify c (refresh ports scope now c).1
  unfolding refresh
  refresh-Change scope now c = elim (Result-cases (parse_scope scope)) [
    | inr (x, ex) ↦ rw (ex, refresh) (keep refl)
    | inl (t, et) ↦ rw (et, refresh) (fetch-Change t (or_else now ports.clock) none c)
  ]

pub invalidate_cases :
    (scope : Scope) (c : Cache)
    → ((invalidate scope c).1 ≡ c)
      ⊎ ((parse_scope scope ≡ ok scope)
          × IsScope scope
          × ((invalidate scope c).1 ≡ erase (scope_key scope) c))
unfolding invalidate
invalidate_cases scope c = elim (Result-cases (parse_scope scope)) [
  | inr (x, ex) ↦ inl (ground arith)
  | inl (t, et) ↦
      let valid = parse_scope-eq_ok scope t et in
      inr (et ∙ ap ok (sym valid.0), subst IsScope (sym valid.0) valid.1, ground (arith, valid.0))
]
