-- ===== src/Registry/Canonical.antt =====
-- The signing payload of packages/trust-registry/src/index.ts: a snapshot as a JavaScript value,
-- `canonicalValue`, and `registrySnapshotSigningPayload`. `JSON.stringify` of texts and numbers is
-- written out.
use Prim.Native.Char.{code}
use Prim.Native.String.{◌++◌ as join}
use universal_smart_wallet.Prelude.{
  ℕ, ◌+◌, ◌/◌, ◌%◌, String, Bool, true, false, List, [], ◌∷◌, ◌++◌, map, Option, none, some, leb,
  ltb, ◌==◌, if◌then◌else◌, decimal, units, Map, ok, err, ◌>>=◌,
}
use universal_smart_wallet.Value.{
  Value, Values, Fields, Number, undefined, null, bool, num, str, arr, obj, pos, negsuc, real, nil,
  cons, end, field, of_elements, of_entries,
}
use universal_smart_wallet.Registry.{
  AuthorizationStatus, KeyStatus, CredentialStatus, SchemaAuthorization, KeyAuthorization,
  IssuerAuthorization, KeyRotation, StatusEntry, UnsignedSnapshot, SignedSnapshot, invalid,
}
use universal_smart_wallet.Registry.Parse.{Parsed, max_safe}
use universal_smart_wallet.Registry.Snapshots.{parse_unsigned_snapshot}

-- The objects that the parsers return, as values again.
abbrev pub authorization_name : AuthorizationStatus → String
authorization_name AuthorizationStatus.active = "active"
authorization_name AuthorizationStatus.suspended = "suspended"
authorization_name AuthorizationStatus.revoked = "revoked"

abbrev pub key_name : KeyStatus → String
key_name KeyStatus.active = "active"
key_name KeyStatus.retired = "retired"
key_name KeyStatus.revoked = "revoked"

abbrev pub credential_name : CredentialStatus → String
credential_name CredentialStatus.valid = "valid"
credential_name CredentialStatus.suspended = "suspended"
credential_name CredentialStatus.revoked = "revoked"

abbrev pub record_of : Map Value → Value
record_of m = obj (of_entries m)

abbrev pub array_of {ℓ} : {A : Type ℓ} → (A → Value) → List A → Value
array_of f xs = arr (of_elements (map f xs))

unfoldable pub schema_value : SchemaAuthorization → Value
schema_value s =
    record_of (("schemaId", str s.schema_id) ∷ ("status", str (authorization_name s.status)) ∷ [])

abbrev pub until_entry : Option ℕ → Map Value
until_entry none = []
until_entry (some n) = ("authorizedUntil", num (pos n)) ∷ []

unfoldable pub key_value : KeyAuthorization → Value
key_value k = record_of (
    ("keyId", str k.key_id)
    ∷ ("status", str (key_name k.status))
    ∷ ("authorizedFrom", num (pos k.authorized_from))
    ∷ until_entry k.authorized_until)

unfoldable pub issuer_value : IssuerAuthorization → Value
issuer_value i = record_of (
    ("issuerId", str i.issuer_id)
    ∷ ("status", str (authorization_name i.status))
    ∷ ("schemas", array_of schema_value i.schemas)
    ∷ ("keys", array_of key_value i.keys)
    ∷ ("trustMarks", array_of str i.trust_marks)
    ∷ [])

unfoldable pub rotation_value : KeyRotation → Value
rotation_value r = record_of (
    ("issuerId", str r.issuer_id)
    ∷ ("previousKeyId", str r.previous_key_id)
    ∷ ("newKeyId", str r.new_key_id)
    ∷ ("rotatedAt", num (pos r.rotated_at))
    ∷ [])

unfoldable pub status_value : StatusEntry → Value
status_value s = record_of (
    ("issuerId", str s.issuer_id)
    ∷ ("statusId", str s.status_id)
    ∷ ("status", str (credential_name s.status))
    ∷ ("updatedAt", num (pos s.updated_at))
    ∷ [])

unfoldable pub snapshot_entries : UnsignedSnapshot → Map Value
snapshot_entries s =
    ("schemaVersion", num (pos 1))
    ∷ ("snapshotId", str s.snapshot_id)
    ∷ ("tenantId", str s.tenant_id)
    ∷ ("jurisdiction", str s.jurisdiction)
    ∷ ("sequence", num (pos s.sequence))
    ∷ ("issuedAt", num (pos s.issued_at))
    ∷ ("expiresAt", num (pos s.expires_at))
    ∷ ("signingKeyId", str s.signing_key_id)
    ∷ ("issuers", array_of issuer_value s.issuers)
    ∷ ("rotations", array_of rotation_value s.rotations)
    ∷ ("statuses", array_of status_value s.statuses)
    ∷ []

unfoldable pub unsigned_value : UnsignedSnapshot → Value
unsigned_value s = record_of (snapshot_entries s)

-- `{ ...parsed, signature }`
unfoldable pub signed_value : SignedSnapshot → Value
signed_value s = record_of (snapshot_entries s.unsigned ++ ("signature", str s.signature) ∷ [])

abbrev hex_digit : ℕ → String
hex_digit d =
    if ltb d 10
    then decimal d
    else if d == 10
    then "a"
    else if d == 11
    then "b"
    else if d == 12
    then "c"
    else if d == 13
    then "d"
    else if d == 14
    then "e"
    else "f"

-- One character inside the quotes of `JSON.stringify`.
quoted_char : ℕ → String → String
quoted_char c rest =
    if c == 0x22
    then "\\\""
    else if c == 0x5c
    then "\\\\"
    else if c == 8
    then "\\b"
    else if c == 9
    then "\\t"
    else if c == 10
    then "\\n"
    else if c == 12
    then "\\f"
    else if c == 13
    then "\\r"
    else if ltb c 0x20
    then join "\\u00" (join (hex_digit (c / 16)) (hex_digit (c % 16)))
    else rest

quoted_tail : String → String
unfolding quoted_char
quoted_tail String.[] = "\""
quoted_tail (String.◌∷◌ c s) = join (quoted_char (code c) (String.◌∷◌ c String.[])) (quoted_tail s)

unfoldable pub quoted : String → String
unfolding quoted_tail
quoted s = join "\"" (quoted_tail s)

-- `parts.join(',')`
unfoldable pub joined : List String → String
joined [] = ""
joined (s ∷ []) = s
joined (s ∷ t ∷ ts) = join s (join "," (joined (t ∷ ts)))

-- `left < right` on texts compares code units.
unfoldable pub units_before : List ℕ → List ℕ → Bool
units_before us [] = false
units_before [] (v ∷ vs) = true
units_before (u ∷ us) (v ∷ vs) =
    let rest = units_before us vs in if ltb u v then true else if ltb v u then false else rest

unfoldable pub insert_entry : String × String → Map String → Map String
insert_entry e [] = e ∷ []
insert_entry e (d ∷ ds) =
    if units_before (units d.0) (units e.0) then d ∷ insert_entry e ds else e ∷ d ∷ ds

-- A stable sort by the keys.
unfoldable pub sort_entries : Map String → Map String
sort_entries [] = []
sort_entries (e ∷ es) = insert_entry e (sort_entries es)

abbrev entry_text : String × String → String
entry_text e = join (quoted e.0) (join ":" e.1)

unfoldable pub canonical_number : Number → Parsed String
canonical_number (pos n) = if leb n max_safe then ok (decimal n) else err invalid
canonical_number (negsuc n) =
    if leb (n + 1) max_safe then ok (join "-" (decimal (n + 1))) else err invalid
canonical_number (real n) = err invalid

unfoldable mutual
  pub canonical_value : Value → Parsed String
  canonical_value undefined = err invalid
  canonical_value null = ok "null"
  canonical_value (bool true) = ok "true"
  canonical_value (bool false) = ok "false"
  canonical_value (num n) = canonical_number n
  canonical_value (str s) = ok (quoted s)
  canonical_value (arr vs) = do parts ← canonical_items vs; ok (join "[" (join (joined parts) "]"))
  canonical_value (obj fs) = do
    parts ← canonical_fields fs
    ok (join "{" (join (joined (map entry_text (sort_entries parts))) "}"))

  pub canonical_items : Values → Parsed (List String)
  canonical_items nil = ok []
  canonical_items (cons v vs) = do
    part ← canonical_value v
    parts ← canonical_items vs
    ok (part ∷ parts)

  -- Members that are `undefined` are left out. Sorting reads the keys alone, so it may come after.
  pub canonical_fields : Fields → Parsed (Map String)
  canonical_fields end = ok []
  canonical_fields (field k undefined fs) = canonical_fields fs
  canonical_fields (field k v fs) = do
    part ← canonical_value v
    parts ← canonical_fields fs
    ok ((k, part) ∷ parts)

unfoldable pub signing_payload : UnsignedSnapshot → Parsed String
signing_payload snapshot = do
  parsed ← parse_unsigned_snapshot (unsigned_value snapshot)
  text ← canonical_value (unsigned_value parsed)
  ok (join "ssw-trust-registry-v1\n" text)
