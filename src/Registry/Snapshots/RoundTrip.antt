-- ===== src/Registry/Snapshots/RoundTrip.antt =====
-- A parsed snapshot is parsed again from its own value, unsigned or signed.
use universal_smart_wallet.Prelude.{
  ◌≡◌, refl, true, [], ◌∷◌, ◌++◌, map, arith, lt→ltb, lookup, has, erase, includes, ok, guard,
  >>=-eq-ok,
}
use universal_smart_wallet.Value.{Value, str, member, entries-of_entries}
use universal_smart_wallet.Registry.{UnsignedSnapshot, SignedSnapshot}
use universal_smart_wallet.Registry.Parse.{
  object, exact_keys, safe_text, safe_string, parse_issuer, parse_rotation, parse_status,
}
use universal_smart_wallet.Registry.Parse.Valid.{
  IssuerValid, RotationValid, StatusValid, safe_string-Ensures,
}
use universal_smart_wallet.Registry.Parse.RoundTrip.{
  safe_string-str, scope_string-str, integer-num, list-array_of, unique-distinct,
  parse_issuer-issuer_value, parse_rotation-rotation_value, parse_status-status_value,
}
use universal_smart_wallet.Registry.Snapshots.{
  rotation_key, predecessor_key, successor_key, status_key, parse_unsigned, parse_unsigned_snapshot,
  parse_signed_snapshot,
}
use universal_smart_wallet.Registry.Snapshots.Valid.{SnapshotValid, parse_unsigned-SnapshotValid}
use universal_smart_wallet.Registry.Canonical.{
  issuer_value, rotation_value, status_value, snapshot_entries, unsigned_value, signed_value,
}

parse_unsigned-snapshot_entries :
    (s : UnsignedSnapshot) → SnapshotValid s → parse_unsigned (snapshot_entries s) ≡ ok s
unfolding parse_unsigned snapshot_entries exact_keys has lookup includes member
parse_unsigned-snapshot_entries s v = rw (
  integer-num 0 s.issued_at v.issued_safe,
  integer-num 0 s.expires_at v.expires_safe,
  lt→ltb s.issued_at s.expires_at v.lifetime,
  list-array_of IssuerValid issuer_value parse_issuer parse_issuer-issuer_value 10000 s.issuers
      v.issuers_few v.issuers_valid,
  list-array_of RotationValid rotation_value parse_rotation parse_rotation-rotation_value 10000
      s.rotations v.rotations_few v.rotations_valid,
  list-array_of StatusValid status_value parse_status parse_status-status_value 10000 s.statuses
      v.statuses_few v.statuses_valid,
  unique-distinct (map (λ i. i.issuer_id) s.issuers) v.issuers_distinct,
  unique-distinct (map rotation_key s.rotations) v.rotations_distinct,
  unique-distinct (map predecessor_key s.rotations) v.predecessors_distinct,
  unique-distinct (map successor_key s.rotations) v.successors_distinct,
  unique-distinct (map status_key s.statuses) v.statuses_distinct,
  scope_string-str s.snapshot_id v.id_scope,
  scope_string-str s.tenant_id v.tenant_scope,
  scope_string-str s.jurisdiction v.place_scope,
  integer-num 1 s.sequence v.sequence_safe,
  safe_string-str 256 s.signing_key_id v.signing_key_safe,
  v.related,
)

pub parse_unsigned_snapshot-unsigned_value :
    (s : UnsignedSnapshot) → SnapshotValid s → parse_unsigned_snapshot (unsigned_value s) ≡ ok s
unfolding parse_unsigned_snapshot unsigned_value object
parse_unsigned_snapshot-unsigned_value s v =
    rw (entries-of_entries (snapshot_entries s)) (parse_unsigned-snapshot_entries s v)

pub parse_unsigned_snapshot-SnapshotValid :
    (v : Value) (s : UnsignedSnapshot) → parse_unsigned_snapshot v ≡ ok s → SnapshotValid s
unfolding parse_unsigned_snapshot
parse_unsigned_snapshot-SnapshotValid v s h =
    let parsed = >>=-eq-ok (object v) parse_unsigned h in
    (parse_unsigned-SnapshotValid parsed.0).at s parsed.2

-- Whatever value a snapshot was parsed from, the value that is written from it parses to the same
-- snapshot.
pub parse_unsigned_snapshot_again :
    (v : Value) (s : UnsignedSnapshot)
    → parse_unsigned_snapshot v ≡ ok s
    → parse_unsigned_snapshot (unsigned_value s) ≡ ok s
parse_unsigned_snapshot_again v s h =
    parse_unsigned_snapshot-unsigned_value s (parse_unsigned_snapshot-SnapshotValid v s h)

erase-signature :
    (s : SignedSnapshot)
    → erase "signature" (snapshot_entries s.unsigned ++ ("signature", str s.signature) ∷ [])
      ≡ snapshot_entries s.unsigned
unfolding snapshot_entries erase
erase-signature s = refl

signature-member :
    (s : SignedSnapshot)
    → let m = snapshot_entries s.unsigned ++ ("signature", str s.signature) ∷ [] in
      (has "signature" m ≡ true) × (member "signature" m ≡ str s.signature)
unfolding snapshot_entries has lookup member
signature-member s = (refl, refl)

pub record SignedValid (s : SignedSnapshot) : Type 0 where
  pub content : SnapshotValid s.unsigned
  pub signature_safe : safe_text 8192 s.signature ≡ true

pub parse_signed_snapshot-SignedValid :
    (v : Value) (s : SignedSnapshot) → parse_signed_snapshot v ≡ ok s → SignedValid s
unfolding parse_signed_snapshot
parse_signed_snapshot-SignedValid v s h =
    let input = >>=-eq-ok (object v) _ h in
    let checked = >>=-eq-ok (guard (has "signature" input.0) _) _ input.2 in
    let signature = >>=-eq-ok (safe_string 8192 (member "signature" input.0)) _ checked.2 in
    let content = >>=-eq-ok (parse_unsigned (erase "signature" input.0)) _ signature.2 in
    let whole = content.2 in
    ground (
      arith,
      (parse_unsigned-SnapshotValid (erase "signature" input.0)).at content.0 content.1,
      (safe_string-Ensures 8192 (member "signature" input.0)).at signature.0 signature.1,
    )

-- The signature that is parsed is the one that was written.
pub parse_signed_snapshot-eq_ok :
    (t s : SignedSnapshot)
    → SnapshotValid t.unsigned
    → parse_signed_snapshot (signed_value t) ≡ ok s
    → t ≡ s
unfolding parse_signed_snapshot signed_value object safe_string
parse_signed_snapshot-eq_ok t s v h =
    let m = snapshot_entries t.unsigned ++ ("signature", str t.signature) ∷ [] in
    ground (
      arith,
      entries-of_entries m,
      (signature-member t).0,
      (signature-member t).1,
      erase-signature t,
      parse_unsigned-snapshot_entries t.unsigned v,
    )

-- A signed snapshot that parses is parsed again from its own value.
pub parse_signed_snapshot-signed_value :
    (s : SignedSnapshot) → SignedValid s → parse_signed_snapshot (signed_value s) ≡ ok s
unfolding parse_signed_snapshot signed_value object
parse_signed_snapshot-signed_value s v =
    let m = snapshot_entries s.unsigned ++ ("signature", str s.signature) ∷ [] in
    rw (
      entries-of_entries m,
      (signature-member s).0,
      (signature-member s).1,
      safe_string-str 8192 s.signature v.signature_safe,
      erase-signature s,
      parse_unsigned-snapshot_entries s.unsigned v.content,
    )
