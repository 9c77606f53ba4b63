-- ===== src/Registry/Snapshots/Valid.antt =====
-- What `parseUnsigned` guarantees of a snapshot that it returns.
use universal_smart_wallet.Prelude.{
  ◌≤◌, ◌<◌, ◌≡◌, String, true, some, List, [], ◌∷◌, map, All, Any, here, there, arith, eq_iff,
  str_eq, ltb, length, distinct, Map, lookup, insert, lookup-insert, ok, ◌>>=◌, map_result, Ensures,
  Ensures-ok, Ensures-bind, Ensures-bind_any, Ensures-guard, Bool-cases, inl, inr, ◌⊎◌,
}
use universal_smart_wallet.Value.{Value, member}
use universal_smart_wallet.Registry.{
  KeyStatus, KeyAuthorization, IssuerAuthorization, KeyRotation, StatusEntry, UnsignedSnapshot,
  invalid,
}
use universal_smart_wallet.Registry.Parse.{
  safe_text, safe_string, scope_text, scope_string, integer, list, exact_keys, parse_issuer,
  parse_rotation, parse_status,
}
use universal_smart_wallet.Registry.Parse.Valid.{
  SafeInteger, IssuerValid, RotationValid, StatusValid, safe_string-Ensures, scope_string-Ensures,
  integer-Ensures, list-items-Ensures, unique-Ensures, parse_issuer-IssuerValid,
  parse_rotation-RotationValid, parse_status-StatusValid,
}
use universal_smart_wallet.Registry.Snapshots.{
  issuers_onto, issuer_map, find_key, validate_relations, rotation_key, predecessor_key,
  successor_key, status_key, parse_unsigned, is_version_1,
}

-- Every check of the parser, the relations between the parts as the parser tests them.
pub record SnapshotValid (s : UnsignedSnapshot) : Type 0 where
  pub id_scope : scope_text s.snapshot_id ≡ true
  pub tenant_scope : scope_text s.tenant_id ≡ true
  pub place_scope : scope_text s.jurisdiction ≡ true
  pub sequence_safe : SafeInteger 1 s.sequence
  pub issued_safe : SafeInteger 0 s.issued_at
  pub expires_safe : SafeInteger 0 s.expires_at
  pub lifetime : s.issued_at < s.expires_at
  pub signing_key_safe : safe_text 256 s.signing_key_id ≡ true
  pub issuers_few : length s.issuers ≤ 10000
  pub rotations_few : length s.rotations ≤ 10000
  pub statuses_few : length s.statuses ≤ 10000
  pub issuers_valid : All IssuerValid s.issuers
  pub rotations_valid : All RotationValid s.rotations
  pub statuses_valid : All StatusValid s.statuses
  pub issuers_distinct : distinct (map (λ i. i.issuer_id) s.issuers) ≡ true
  pub rotations_distinct : distinct (map rotation_key s.rotations) ≡ true
  pub predecessors_distinct : distinct (map predecessor_key s.rotations) ≡ true
  pub successors_distinct : distinct (map successor_key s.rotations) ≡ true
  pub statuses_distinct : distinct (map status_key s.statuses) ≡ true
  pub related : validate_relations s ≡ ok tt

pub parse_unsigned-SnapshotValid : (m : Map Value) → Ensures SnapshotValid (parse_unsigned m)
unfolding parse_unsigned
parse_unsigned-SnapshotValid m = Ensures-bind_any (exact_keys m _ _) _ λ _ _.
    Ensures-guard (is_version_1 (member "schemaVersion" m)) invalid _ λ _.
      Ensures-bind (integer 0 _) _ (integer-Ensures 0 _) λ issued_at si.
        Ensures-bind (integer 0 _) _ (integer-Ensures 0 _) λ expires_at se.
          Ensures-guard (ltb issued_at expires_at) invalid _ λ life.
            Ensures-bind (list 10000 _ >>= map_result parse_issuer) _
              (list-items-Ensures parse_issuer parse_issuer-IssuerValid 10000 _)
              λ issuers vi.
                Ensures-bind (list 10000 _ >>= map_result parse_rotation) _
                  (list-items-Ensures parse_rotation parse_rotation-RotationValid 10000 _)
                  λ rotations vr.
                    Ensures-bind (list 10000 _ >>= map_result parse_status) _
                      (list-items-Ensures parse_status parse_status-StatusValid 10000 _)
                      λ statuses vs. unique-Ensures _ _ λ di. unique-Ensures _ _ λ dr.
                        unique-Ensures _ _ λ dp. unique-Ensures _ _ λ dn. unique-Ensures _ _ λ ds.
                          Ensures-bind (scope_string _) _ (scope_string-Ensures _) λ id scope_id.
                            Ensures-bind (scope_string _) _ (scope_string-Ensures _)
                              λ tenant scope_t.
                                Ensures-bind (scope_string _) _ (scope_string-Ensures _)
                                  λ place scope_p.
                                    Ensures-bind (integer 1 _) _ (integer-Ensures 1 _)
                                      λ sequence ss.
                                        Ensures-bind (safe_string 256 _) _
                                          (safe_string-Ensures 256 _)
                                          λ key safe_k.
                                            Ensures-bind_any (validate_relations _) _ λ u related.
                                              Ensures-ok (record {
                                                id_scope = scope_id;
                                                tenant_scope = scope_t;
                                                place_scope = scope_p;
                                                sequence_safe = ss;
                                                issued_safe = si;
                                                expires_safe = se;
                                                lifetime = ground arith;
                                                signing_key_safe = safe_k;
                                                issuers_few = vi.0;
                                                rotations_few = vr.0;
                                                statuses_few = vs.0;
                                                issuers_valid = vi.1;
                                                rotations_valid = vr.1;
                                                statuses_valid = vs.1;
                                                issuers_distinct = di;
                                                rotations_distinct = dr;
                                                predecessors_distinct = dp;
                                                successors_distinct = dn;
                                                statuses_distinct = ds;
                                                related = related;
                                              })

-- An issuer of the list, by its identifier.
abbrev pub IsIssuer : List IssuerAuthorization → String → IssuerAuthorization → Type 0
IsIssuer is id i = Any (λ j. (j ≡ i) × (i.issuer_id ≡ id)) is

-- The predecessor retires exactly when the successor starts, no later than the snapshot is issued.
pub record RotationFits (s : UnsignedSnapshot) (r : KeyRotation) : Type 0 where
  pub issuer : IssuerAuthorization
  pub known : IsIssuer s.issuers r.issuer_id issuer
  pub previous : KeyAuthorization
  pub previous_found : find_key r.previous_key_id issuer.keys ≡ some previous
  pub next : KeyAuthorization
  pub next_found : find_key r.new_key_id issuer.keys ≡ some next
  pub retired : previous.status ≡ KeyStatus.retired
  pub ends : previous.authorized_until ≡ some (r.rotated_at)
  pub starts : next.authorized_from ≡ r.rotated_at
  pub in_time : r.rotated_at ≤ s.issued_at

pub record StatusFits (s : UnsignedSnapshot) (e : StatusEntry) : Type 0 where
  pub issuer : IssuerAuthorization
  pub known : IsIssuer s.issuers e.issuer_id issuer
  pub in_time : e.updated_at ≤ s.issued_at

-- The map of issuers holds issuers of the list.
issuers_onto-lookup :
    (m : Map IssuerAuthorization) (is : List IssuerAuthorization) (k : String)
    (i : IssuerAuthorization)
    → lookup k (issuers_onto m is) ≡ some i
    → (lookup k m ≡ some i) ⊎ IsIssuer is k i
unfolding issuers_onto
issuers_onto-lookup m [] k i h = inl h
issuers_onto-lookup m (j ∷ is) k i h =
    elim (issuers_onto-lookup (insert j.issuer_id j m) is k i h) [
      | inr later ↦ inr (there later)
      | inl now ↦ elim (Bool-cases (str_eq j.issuer_id k)) [
        | inl hit ↦
            let same : j ≡ i = ground (arith, lookup-insert j.issuer_id k j m) in
            inr (here (same, ground (arith, same, eq_iff j.issuer_id k)))
        | inr miss ↦ inl (ground (arith, lookup-insert j.issuer_id k j m))
      ]
    ]

pub issuer_map-lookup :
    (is : List IssuerAuthorization) (k : String) (i : IssuerAuthorization)
    → lookup k (issuer_map is) ≡ some i
    → IsIssuer is k i
unfolding issuer_map lookup
issuer_map-lookup is k i h = elim (issuers_onto-lookup [] is k i h) [
  | inl e ↦ absurd (cc e)
  | inr known ↦ known
]
