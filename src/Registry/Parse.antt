-- ===== src/Registry/Parse.antt =====
-- The parsers of packages/trust-registry/src/index.ts: a value from outside becomes a snapshot, or
-- the error `SNAPSHOT_INVALID`. The texts of the messages are left out. `Valid` says what a parsed
-- snapshot satisfies, and `RoundTrip` writes one as a value and parses it again.
pub mod Valid
pub mod RoundTrip
use universal_smart_wallet.Prelude.{
  ℕ, String, Bool, true, false, not, ◌&&◌, List, [], ◌∷◌, ◌++◌, map, Option, none, some, leb, ltb,
  str_eq, if◌then◌else◌, all, any, length, units, text_length, includes, distinct, matches_opaque,
  is_control, Map, has, Result, ok, err, ◌>>=◌, ◌>>◌, guard, map_result,
}
use universal_smart_wallet.Value.{
  Value, undefined, num, str, arr, obj, pos, elements, entries, member,
}
use universal_smart_wallet.Registry.{
  AuthorizationStatus, KeyStatus, CredentialStatus, SchemaAuthorization, KeyAuthorization,
  IssuerAuthorization, KeyRotation, StatusEntry, SnapshotError, invalid,
}

abbrev pub Parsed : Type 0 → Type 0
Parsed A = Result SnapshotError A

-- `Number.MAX_SAFE_INTEGER`
abbrev pub max_safe : ℕ
max_safe = 9007199254740991

unfoldable pub object : Value → Parsed (Map Value)
object (obj fs) = ok (entries fs)
object _ = err invalid

unfoldable pub exact_keys : Map Value → List String → List String → Parsed (Unit {0})
exact_keys m required optional =
    guard
      (all (λ k. has k m) required
        && all (λ (entry : String × Value). includes entry.0 (required ++ optional)) m)
      invalid

-- The test of `safeString`.
unfoldable pub safe_text : ℕ → String → Bool
safe_text most s =
    ltb 0 (text_length s) && leb (text_length s) most && not (any is_control (units s))

unfoldable pub safe_string : ℕ → Value → Parsed String
safe_string most (str s) = if safe_text most s then ok s else err invalid
safe_string most _ = err invalid

-- The tests of `scopeString`.
unfoldable pub scope_text : String → Bool
scope_text s = safe_text 128 s && matches_opaque (units s)

unfoldable pub scope_string : Value → Parsed String
scope_string v = do
  parsed ← safe_string 128 v
  if matches_opaque (units parsed) then ok parsed else err invalid

unfoldable pub integer : ℕ → Value → Parsed ℕ
integer least (num (pos n)) = if leb n max_safe && leb least n then ok n else err invalid
integer least _ = err invalid

unfoldable pub list : ℕ → Value → Parsed (List Value)
list most (arr vs) = if leb (length (elements vs)) most then ok (elements vs) else err invalid
list most _ = err invalid

-- `values(value, ['active', 'suspended', 'revoked'])`, and the two like it.
unfoldable pub authorization_status : Value → Parsed AuthorizationStatus
authorization_status (str s) =
    if str_eq s "active"
    then ok AuthorizationStatus.active
    else if str_eq s "suspended"
    then ok AuthorizationStatus.suspended
    else if str_eq s "revoked"
    then ok AuthorizationStatus.revoked
    else err invalid
authorization_status _ = err invalid

unfoldable pub key_status : Value → Parsed KeyStatus
key_status (str s) =
    if str_eq s "active"
    then ok KeyStatus.active
    else if str_eq s "retired"
    then ok KeyStatus.retired
    else if str_eq s "revoked"
    then ok KeyStatus.revoked
    else err invalid
key_status _ = err invalid

unfoldable pub credential_status : Value → Parsed CredentialStatus
credential_status (str s) =
    if str_eq s "valid"
    then ok CredentialStatus.valid
    else if str_eq s "suspended"
    then ok CredentialStatus.suspended
    else if str_eq s "revoked"
    then ok CredentialStatus.revoked
    else err invalid
credential_status _ = err invalid

unfoldable pub unique : List String → Parsed (Unit {0})
unique items = guard (distinct items) invalid

unfoldable pub parse_schema : Value → Parsed SchemaAuthorization
parse_schema value = do
  input ← object value
  exact_keys input ("schemaId" ∷ "status" ∷ []) []
  schema_id ← safe_string 512 (member "schemaId" input)
  status ← authorization_status (member "status" input)
  ok (record { schema_id = schema_id; status = status })

unfoldable pub optional_integer : Value → Parsed (Option ℕ)
optional_integer undefined = ok none
optional_integer v = do n ← integer 0 v; ok (some n)

-- An interval with an end is not empty, and a retired key has an end.
unfoldable pub interval_valid : KeyStatus → ℕ → Option ℕ → Bool
interval_valid KeyStatus.retired from none = false
interval_valid _ from none = true
interval_valid _ from (some until) = ltb from until

unfoldable pub parse_key : Value → Parsed KeyAuthorization
parse_key value = do
  input ← object value
  exact_keys input ("keyId" ∷ "status" ∷ "authorizedFrom" ∷ []) ("authorizedUntil" ∷ [])
  status ← key_status (member "status" input)
  from ← integer 0 (member "authorizedFrom" input)
  until ← optional_integer (member "authorizedUntil" input)
  guard (interval_valid status from until) invalid
  key_id ← safe_string 512 (member "keyId" input)
  ok (record { key_id = key_id; status = status; authorized_from = from; authorized_until = until })

unfoldable pub parse_issuer : Value → Parsed IssuerAuthorization
parse_issuer value = do
  input ← object value
  exact_keys input ("issuerId" ∷ "status" ∷ "schemas" ∷ "keys" ∷ "trustMarks" ∷ []) []
  schemas ← list 10000 (member "schemas" input) >>= map_result parse_schema
  keys ← list 10000 (member "keys" input) >>= map_result parse_key
  trust_marks ← list 128 (member "trustMarks" input) >>= map_result (safe_string 128)
  unique (map (λ s. s.schema_id) schemas)
  unique (map (λ k. k.key_id) keys)
  unique trust_marks
  issuer_id ← safe_string 512 (member "issuerId" input)
  status ← authorization_status (member "status" input)
  ok (record {
    issuer_id = issuer_id;
    status = status;
    schemas = schemas;
    keys = keys;
    trust_marks = trust_marks;
  })

unfoldable pub parse_rotation : Value → Parsed KeyRotation
parse_rotation value = do
  input ← object value
  exact_keys input ("issuerId" ∷ "previousKeyId" ∷ "newKeyId" ∷ "rotatedAt" ∷ []) []
  previous ← safe_string 512 (member "previousKeyId" input)
  next ← safe_string 512 (member "newKeyId" input)
  guard (not (str_eq previous next)) invalid
  issuer_id ← safe_string 512 (member "issuerId" input)
  rotated_at ← integer 0 (member "rotatedAt" input)
  ok (record {
    issuer_id = issuer_id;
    previous_key_id = previous;
    new_key_id = next;
    rotated_at = rotated_at;
  })

unfoldable pub parse_status : Value → Parsed StatusEntry
parse_status value = do
  input ← object value
  exact_keys input ("issuerId" ∷ "statusId" ∷ "status" ∷ "updatedAt" ∷ []) []
  issuer_id ← safe_string 512 (member "issuerId" input)
  status_id ← scope_string (member "statusId" input)
  status ← credential_status (member "status" input)
  updated_at ← integer 0 (member "updatedAt" input)
  ok (record {
    issuer_id = issuer_id;
    status_id = status_id;
    status = status;
    updated_at = updated_at;
  })
