-- ===== src/Registry/Cache/Laws.antt =====
-- What each operation of the cache does to its entries.
use universal_smart_wallet.Prelude.{
  ◌≤◌, ◌≡◌, inl, inr, refl, ◌∙◌, String, true, false, some, arith, eq_iff, Result-cases, lookup,
  insert, ok,
}
use universal_smart_wallet.Value.{str}
use universal_smart_wallet.Registry.{Scope, SignedSnapshot}
use universal_smart_wallet.Registry.Parse.{scope_text, scope_string, safe_string}
use universal_smart_wallet.Registry.Snapshots.Keys.{nul_joined_injective, NulFree-scope_text}
use universal_smart_wallet.Registry.Verify.{parse_scope}
use universal_smart_wallet.Registry.Cache.{Cache, scope_key, is_rollback, store}

pub record IsScope (s : Scope) : Type 0 where
  pub tenant : scope_text s.tenant_id ≡ true
  pub place : scope_text s.jurisdiction ≡ true

scope_string-eq_ok : (s t : String) → scope_string (str s) ≡ ok t → (s ≡ t) × (scope_text t ≡ true)
unfolding scope_string scope_text safe_string
scope_string-eq_ok s t h = ground arith

-- A scope that parses is itself, and well formed.
pub parse_scope-eq_ok : (s t : Scope) → parse_scope s ≡ ok t → (s ≡ t) × IsScope t
unfolding parse_scope
parse_scope-eq_ok s t h = elim (Result-cases (scope_string (str s.tenant_id))) [
  | inr (e, ee) ↦ ground arith
  | inl (a, ea) ↦ elim (Result-cases (scope_string (str s.jurisdiction))) [
    | inr (e, ee) ↦ ground arith
    | inl (b, eb) ↦
        let fa = scope_string-eq_ok s.tenant_id a ea in
        let fb = scope_string-eq_ok s.jurisdiction b eb in
        (ground arith, record { tenant = ground arith; place = ground arith })
  ]
]

pub parse_scope-of_IsScope : (s : Scope) → IsScope s → parse_scope s ≡ ok s
unfolding parse_scope scope_string safe_string scope_text
parse_scope-of_IsScope s w = ground (arith, w.tenant, w.place)

-- Two well-formed scopes with one key are one scope.
pub scope_key_injective : (s t : Scope) → IsScope s → IsScope t → scope_key s ≡ scope_key t → s ≡ t
unfolding scope_key
scope_key_injective s t vs vt h =
    let both =
      nul_joined_injective s.tenant_id s.jurisdiction t.tenant_id t.jurisdiction
        (NulFree-scope_text s.tenant_id vs.tenant) (NulFree-scope_text t.tenant_id vt.tenant) h in
    ground (arith, both)

-- The order in which the entries of one scope may follow each other.
pub record Follows (p s : SignedSnapshot) : Type 0 where
  pub not_older : p.sequence ≤ s.sequence
  pub same_id : p.sequence ≡ s.sequence → s.snapshot_id ≡ p.snapshot_id
  pub same_signature : p.sequence ≡ s.sequence → s.signature ≡ p.signature

pub Follows-refl : (s : SignedSnapshot) → Follows s s
Follows-refl s = record { not_older = omega arith; same_id = λ _. refl; same_signature = λ _. refl }

pub Follows-trans : (p s t : SignedSnapshot) → Follows p s → Follows s t → Follows p t
Follows-trans p s t a b = record {
  not_older = omega (arith, a.not_older, b.not_older);
  same_id = λ e.
      b.same_id (omega (arith, a.not_older, b.not_older))
      ∙ a.same_id (omega (arith, a.not_older, b.not_older));
  same_signature = λ e.
      b.same_signature (omega (arith, a.not_older, b.not_older))
      ∙ a.same_signature (omega (arith, a.not_older, b.not_older));
}

not-rollback-Follows : (s p : SignedSnapshot) → is_rollback s p ≡ false → Follows p s
unfolding is_rollback
not-rollback-Follows s p h = record {
  not_older = ground arith;
  same_id = λ e. ground (arith, eq_iff s.snapshot_id p.snapshot_id);
  same_signature = λ e. ground (arith, eq_iff s.signature p.signature);
}

-- A stored snapshot follows the entry that it replaces, and no other entry changes.
pub store-eq_ok :
    (c d : Cache) (s : SignedSnapshot) (scope : Scope)
    → store c s scope ≡ ok d
    → (d ≡ insert (scope_key scope) s c)
      × ((p : SignedSnapshot) → lookup (scope_key scope) c ≡ some p → Follows p s)
unfolding store
store-eq_ok c d s scope h = (ground arith, λ p e. not-rollback-Follows s p (ground arith))
