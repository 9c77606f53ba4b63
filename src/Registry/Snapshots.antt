-- ===== src/Registry/Snapshots.antt =====
-- Whole snapshots: `parseUnsigned`, `validateRelations` and `parseSignedRegistrySnapshot` of
-- packages/trust-registry/src/index.ts.
pub mod Keys
pub mod Valid
pub mod Related
pub mod RoundTrip
use Prim.Native.Char.{nul}
use Prim.Native.String.{◌++◌ as join}
use universal_smart_wallet.Prelude.{
  ℕ, String, Bool, true, false, not, ◌&&◌, List, [], ◌∷◌, map, Option, none, some, leb, ltb, ◌==◌,
  str_eq, if◌then◌else◌, all, find, decimal, Map, lookup, has, insert, erase, ok, err, ◌>>=◌, ◌>>◌,
  guard, or_throw, map_result,
}
use universal_smart_wallet.Value.{Value, num, pos, member}
use universal_smart_wallet.Registry.{
  KeyStatus, KeyAuthorization, IssuerAuthorization, KeyRotation, StatusEntry, Scope,
  UnsignedSnapshot, SignedSnapshot, invalid, unsigned_snapshot,
}
use universal_smart_wallet.Registry.Parse.{
  Parsed, object, exact_keys, safe_string, scope_string, integer, list, unique, parse_issuer,
  parse_rotation, parse_status,
}

-- `a\u0000b`
unfoldable pub nul_joined : String → String → String
nul_joined a b = join a (String.◌∷◌ nul b)

-- `new Map(snapshot.issuers.map((issuer) => [issuer.issuerId, issuer]))`
unfoldable pub issuers_onto :
    Map IssuerAuthorization → List IssuerAuthorization → Map IssuerAuthorization
unfolding insert
issuers_onto m [] = m
issuers_onto m (i ∷ is) = issuers_onto (insert i.issuer_id i m) is

unfoldable pub issuer_map : List IssuerAuthorization → Map IssuerAuthorization
issuer_map is = issuers_onto [] is

unfoldable pub find_key : String → List KeyAuthorization → Option KeyAuthorization
find_key id keys = find (λ k. str_eq k.key_id id) keys

abbrev pub is_retired : KeyStatus → Bool
is_retired KeyStatus.active = false
is_retired KeyStatus.retired = true
is_retired KeyStatus.revoked = false

abbrev pub is_at : ℕ → Option ℕ → Bool
is_at n none = false
is_at n (some m) = m == n

-- The predecessor retires when the rotation happens, and the successor starts then.
unfoldable pub rotation_fits : ℕ → KeyRotation → KeyAuthorization → KeyAuthorization → Bool
rotation_fits issued_at r previous next =
    is_retired previous.status
    && is_at r.rotated_at previous.authorized_until
    && next.authorized_from == r.rotated_at
    && leb r.rotated_at issued_at

unfoldable pub validate_rotation : Map IssuerAuthorization → ℕ → KeyRotation → Parsed (Unit {0})
validate_rotation issuers issued_at r = do
  issuer ← or_throw invalid (lookup r.issuer_id issuers)
  previous ← or_throw invalid (find_key r.previous_key_id issuer.keys)
  next ← or_throw invalid (find_key r.new_key_id issuer.keys)
  guard (rotation_fits issued_at r previous next) invalid

unfoldable pub validate_status : Map IssuerAuthorization → ℕ → StatusEntry → Parsed (Unit {0})
validate_status issuers issued_at s = do
  guard (has s.issuer_id issuers) invalid
  guard (leb s.updated_at issued_at) invalid

unfoldable pub validate_relations : UnsignedSnapshot → Parsed (Unit {0})
validate_relations s = do
  let issuers = issuer_map s.issuers
  map_result (validate_rotation issuers s.issued_at) s.rotations
  map_result (validate_status issuers s.issued_at) s.statuses
  ok tt

unfoldable pub rotation_key : KeyRotation → String
rotation_key r =
    nul_joined r.issuer_id
      (nul_joined r.previous_key_id (nul_joined r.new_key_id (decimal r.rotated_at)))

unfoldable pub predecessor_key : KeyRotation → String
predecessor_key r = nul_joined r.issuer_id (nul_joined "previous" r.previous_key_id)

unfoldable pub successor_key : KeyRotation → String
successor_key r = nul_joined r.issuer_id (nul_joined "next" r.new_key_id)

unfoldable pub status_key : StatusEntry → String
status_key s = nul_joined s.issuer_id s.status_id

abbrev pub is_version_1 : Value → Bool
is_version_1 (num (pos n)) = n == 1
is_version_1 _ = false

abbrev pub snapshot_fields : List String
snapshot_fields =
    "schemaVersion" ∷ "snapshotId" ∷ "tenantId" ∷ "jurisdiction" ∷ "sequence" ∷ "issuedAt"
    ∷ "expiresAt" ∷ "signingKeyId" ∷ "issuers" ∷ "rotations" ∷ "statuses" ∷ []

-- The members are read in the source's order, and the relations are checked last.
unfoldable pub parse_unsigned : Map Value → Parsed UnsignedSnapshot
parse_unsigned value = do
  exact_keys value snapshot_fields []
  guard (is_version_1 (member "schemaVersion" value)) invalid
  issued_at ← integer 0 (member "issuedAt" value)
  expires_at ← integer 0 (member "expiresAt" value)
  guard (ltb issued_at expires_at) invalid
  issuers ← list 10000 (member "issuers" value) >>= map_result parse_issuer
  rotations ← list 10000 (member "rotations" value) >>= map_result parse_rotation
  statuses ← list 10000 (member "statuses" value) >>= map_result parse_status
  unique (map (λ i. i.issuer_id) issuers)
  unique (map rotation_key rotations)
  unique (map predecessor_key rotations)
  unique (map successor_key rotations)
  unique (map status_key statuses)
  snapshot_id ← scope_string (member "snapshotId" value)
  tenant_id ← scope_string (member "tenantId" value)
  jurisdiction ← scope_string (member "jurisdiction" value)
  sequence ← integer 1 (member "sequence" value)
  signing_key_id ← safe_string 256 (member "signingKeyId" value)
  let parsed : UnsignedSnapshot = record {
    scope = record { tenant_id = tenant_id; jurisdiction = jurisdiction };
    snapshot_id = snapshot_id;
    sequence = sequence;
    issued_at = issued_at;
    expires_at = expires_at;
    signing_key_id = signing_key_id;
    issuers = issuers;
    rotations = rotations;
    statuses = statuses;
  }
  validate_relations parsed
  ok parsed

unfoldable pub parse_unsigned_snapshot : Value → Parsed UnsignedSnapshot
parse_unsigned_snapshot value = object value >>= parse_unsigned

unfoldable pub parse_signed_snapshot : Value → Parsed SignedSnapshot
parse_signed_snapshot value = do
  input ← object value
  guard (has "signature" input) unsigned_snapshot
  signature ← safe_string 8192 (member "signature" input)
  unsigned ← parse_unsigned (erase "signature" input)
  ok (record { unsigned = unsigned; signature = signature })
