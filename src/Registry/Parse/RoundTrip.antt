-- ===== src/Registry/Parse/RoundTrip.antt =====
-- What the parsers return is parsed again from its own value.
use universal_smart_wallet.Prelude.{
  ℕ, ◌≤◌, ◌≡◌, refl, ap, suc, String, true, false, Option, none, some, List, [], ◌∷◌, map, All,
  arith, eq_iff, str_eq, le→leb, distinct, ok, ◌>>=◌, map_result, length, lookup, has, includes,
}
use universal_smart_wallet.Value.{Value, num, str, pos, member, elements-of_elements}
use universal_smart_wallet.Registry.{
  SchemaAuthorization, KeyAuthorization, IssuerAuthorization, KeyRotation, StatusEntry, KeyStatus,
  AuthorizationStatus, CredentialStatus,
}
use universal_smart_wallet.Registry.Parse.{
  Parsed, object, exact_keys, safe_text, safe_string, scope_text, scope_string, integer,
  optional_integer, list, unique, authorization_status, key_status, credential_status, parse_schema,
  parse_key, parse_issuer, parse_rotation, parse_status,
}
use universal_smart_wallet.Registry.Parse.Valid.{
  SafeInteger, SchemaValid, KeyValid, IssuerValid, RotationValid, StatusValid,
}
use universal_smart_wallet.Registry.Canonical.{
  array_of, schema_value, key_value, issuer_value, rotation_value, status_value, authorization_name,
  key_name, credential_name,
}

pub safe_string-str :
    (most : ℕ) (s : String) → safe_text most s ≡ true → safe_string most (str s) ≡ ok s
unfolding safe_string
safe_string-str most s h = ground arith

pub scope_string-str : (s : String) → scope_text s ≡ true → scope_string (str s) ≡ ok s
unfolding scope_string safe_string scope_text
scope_string-str s h = ground arith

pub integer-num : (least n : ℕ) → SafeInteger least n → integer least (num (pos n)) ≡ ok n
unfolding integer
integer-num least n h = ground (arith, h.0, h.1)

authorization_status-name :
    (st : AuthorizationStatus) → authorization_status (str (authorization_name st)) ≡ ok st
unfolding authorization_status
authorization_status-name AuthorizationStatus.active = refl
authorization_status-name AuthorizationStatus.suspended = refl
authorization_status-name AuthorizationStatus.revoked = refl

key_status-name : (st : KeyStatus) → key_status (str (key_name st)) ≡ ok st
unfolding key_status
key_status-name KeyStatus.active = refl
key_status-name KeyStatus.retired = refl
key_status-name KeyStatus.revoked = refl

credential_status-name :
    (st : CredentialStatus) → credential_status (str (credential_name st)) ≡ ok st
unfolding credential_status
credential_status-name CredentialStatus.valid = refl
credential_status-name CredentialStatus.suspended = refl
credential_status-name CredentialStatus.revoked = refl

pub parse_schema-schema_value :
    (a : SchemaAuthorization) → SchemaValid a → parse_schema (schema_value a) ≡ ok a
unfolding parse_schema schema_value object exact_keys has lookup includes member
parse_schema-schema_value a v =
    rw (safe_string-str 512 a.schema_id v.id_safe, authorization_status-name a.status)

parse_key-fields :
    (id : String) (st : KeyStatus) (from : ℕ) (until : Option ℕ)
    → let k : KeyAuthorization = record {
      key_id = id;
      status = st;
      authorized_from = from;
      authorized_until = until;
    } in
      KeyValid k → parse_key (key_value k) ≡ ok k
unfolding parse_key key_value object exact_keys has lookup includes member optional_integer
parse_key-fields id st from none v = rw (
  key_status-name st,
  integer-num 0 from v.from_safe,
  v.interval,
  safe_string-str 512 id v.id_safe,
)
parse_key-fields id st from (some until) v = rw (
  key_status-name st,
  integer-num 0 from v.from_safe,
  integer-num 0 until v.until_safe,
  v.interval,
  safe_string-str 512 id v.id_safe,
)

pub parse_key-key_value : (k : KeyAuthorization) → KeyValid k → parse_key (key_value k) ≡ ok k
parse_key-key_value k v = parse_key-fields k.key_id k.status k.authorized_from k.authorized_until v

pub parse_rotation-rotation_value :
    (r : KeyRotation) → RotationValid r → parse_rotation (rotation_value r) ≡ ok r
unfolding parse_rotation rotation_value object exact_keys has lookup includes member
parse_rotation-rotation_value r v =
    let differs : str_eq r.previous_key_id r.new_key_id ≡ false =
      ground (arith, eq_iff r.previous_key_id r.new_key_id, v.changes) in
    rw (
      safe_string-str 512 r.previous_key_id v.previous_safe,
      safe_string-str 512 r.new_key_id v.new_safe,
      differs,
      safe_string-str 512 r.issuer_id v.issuer_safe,
      integer-num 0 r.rotated_at v.time_safe,
    )

pub parse_status-status_value :
    (s : StatusEntry) → StatusValid s → parse_status (status_value s) ≡ ok s
unfolding parse_status status_value object exact_keys has lookup includes member
parse_status-status_value s v = rw (
  safe_string-str 512 s.issuer_id v.issuer_safe,
  scope_string-str s.status_id v.id_scope,
  credential_status-name s.status,
  integer-num 0 s.updated_at v.time_safe,
)

-- A short list of values that parse is parsed item by item.
module _ {B : Type 0} (P : B → Type 0) (write : B → Value) (f : Value → Parsed B)
    (back : (b : B) → P b → f (write b) ≡ ok b) where
  map_result-write : (bs : List B) → All P bs → map_result f (map write bs) ≡ ok bs
  unfolding map_result
  map_result-write [] ps = refl
  map_result-write (b ∷ bs) ps = rw (back b ps.0, map_result-write bs ps.1)

  pub list-array_of :
      (most : ℕ) (bs : List B)
      → length bs ≤ most
      → All P bs
      → (list most (array_of write bs) >>= map_result f) ≡ ok bs
  unfolding list
  list-array_of most bs few ps =
      rw (elements-of_elements (map write bs), le→leb (length (map write bs)) most few')
        (map_result-write bs ps)
    where
      length-map : (cs : List B) → length (map write cs) ≡ length cs
      length-map [] = refl
      length-map (c ∷ cs) = ap suc (length-map cs)

      few' : length (map write bs) ≤ most
      few' = omega (arith, length-map bs)

pub unique-distinct : (items : List String) → distinct items ≡ true → unique items ≡ ok tt
unfolding unique
unique-distinct items h = rw h

pub parse_issuer-issuer_value :
    (i : IssuerAuthorization) → IssuerValid i → parse_issuer (issuer_value i) ≡ ok i
unfolding parse_issuer issuer_value object exact_keys has lookup includes member
parse_issuer-issuer_value i v = rw (
  list-array_of SchemaValid schema_value parse_schema parse_schema-schema_value 10000 i.schemas
      v.schemas_few v.schemas_valid,
  list-array_of KeyValid key_value parse_key parse_key-key_value 10000 i.keys v.keys_few
      v.keys_valid,
  list-array_of (λ m. safe_text 128 m ≡ true) str (safe_string 128) (safe_string-str 128) 128
      i.trust_marks v.marks_few v.marks_safe,
  unique-distinct (map (λ a. a.schema_id) i.schemas) v.schemas_distinct,
  unique-distinct (map (λ k. k.key_id) i.keys) v.keys_distinct,
  unique-distinct i.trust_marks v.marks_distinct,
  safe_string-str 512 i.issuer_id v.id_safe,
  authorization_status-name i.status,
)
