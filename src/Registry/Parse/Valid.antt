-- ===== src/Registry/Parse/Valid.antt =====
-- What the parsers of the registry guarantee of a schema, a key, an issuer, a rotation and a status
-- that they return.
use universal_smart_wallet.Prelude.{
  ℕ, ◌≤◌, ◌≡◌, ◌≢◌, refl, String, true, not, Option, none, some, List, [], ◌∷◌, map, All, arith,
  eq_iff, str_eq, distinct, ◌>>=◌, ◌>>◌, ap, suc, Ensures, Ensures-ok, Ensures-bind,
  Ensures-bind_any, Ensures-guard, map_result, length,
}
use universal_smart_wallet.Value.{Value, undefined}
use universal_smart_wallet.Registry.{
  SchemaAuthorization, KeyAuthorization, IssuerAuthorization, KeyRotation, StatusEntry, invalid,
}
use universal_smart_wallet.Registry.Parse.{
  Parsed, max_safe, object, exact_keys, safe_text, safe_string, scope_text, scope_string, integer,
  optional_integer, list, unique, authorization_status, key_status, credential_status,
  interval_valid, parse_schema, parse_key, parse_issuer, parse_rotation, parse_status,
}

abbrev pub SafeInteger : ℕ → ℕ → Type 0
SafeInteger least n = (n ≤ max_safe) × (least ≤ n)

abbrev pub SafeOption : Option ℕ → Type 0
SafeOption none = Unit {0}
SafeOption (some n) = SafeInteger 0 n

pub record SchemaValid (a : SchemaAuthorization) : Type 0 where
  pub id_safe : safe_text 512 a.schema_id ≡ true

pub record KeyValid (k : KeyAuthorization) : Type 0 where
  pub id_safe : safe_text 512 k.key_id ≡ true
  pub from_safe : SafeInteger 0 k.authorized_from
  pub until_safe : SafeOption k.authorized_until
  pub interval : interval_valid k.status k.authorized_from k.authorized_until ≡ true

pub record IssuerValid (i : IssuerAuthorization) : Type 0 where
  pub id_safe : safe_text 512 i.issuer_id ≡ true
  pub schemas_few : length i.schemas ≤ 10000
  pub keys_few : length i.keys ≤ 10000
  pub marks_few : length i.trust_marks ≤ 128
  pub schemas_valid : All SchemaValid i.schemas
  pub keys_valid : All KeyValid i.keys
  pub marks_safe : All (λ m. safe_text 128 m ≡ true) i.trust_marks
  pub schemas_distinct : distinct (map (λ a. a.schema_id) i.schemas) ≡ true
  pub keys_distinct : distinct (map (λ k. k.key_id) i.keys) ≡ true
  pub marks_distinct : distinct i.trust_marks ≡ true

pub record RotationValid (r : KeyRotation) : Type 0 where
  pub issuer_safe : safe_text 512 r.issuer_id ≡ true
  pub previous_safe : safe_text 512 r.previous_key_id ≡ true
  pub new_safe : safe_text 512 r.new_key_id ≡ true
  pub changes : r.previous_key_id ≢ r.new_key_id
  pub time_safe : SafeInteger 0 r.rotated_at

pub record StatusValid (s : StatusEntry) : Type 0 where
  pub issuer_safe : safe_text 512 s.issuer_id ≡ true
  pub id_scope : scope_text s.status_id ≡ true
  pub time_safe : SafeInteger 0 s.updated_at

-- The leaves.
pub safe_string-Ensures :
    (most : ℕ) (v : Value) → Ensures (λ s. safe_text most s ≡ true) (safe_string most v)
unfolding safe_string
safe_string-Ensures most v = record { at = λ s h. ground arith }

pub scope_string-Ensures : (v : Value) → Ensures (λ s. scope_text s ≡ true) (scope_string v)
unfolding scope_string safe_string scope_text
scope_string-Ensures v = record { at = λ s h. ground arith }

pub integer-Ensures : (least : ℕ) (v : Value) → Ensures (SafeInteger least) (integer least v)
unfolding integer
integer-Ensures least v = record { at = λ s h. (ground arith, ground arith) }

optional_integer-Ensures : (v : Value) → Ensures SafeOption (optional_integer v)
unfolding optional_integer
optional_integer-Ensures undefined = Ensures-ok tt
optional_integer-Ensures v =
    Ensures-bind (integer 0 v) _ (integer-Ensures 0 v) (λ n p. Ensures-ok p)

pub list-Ensures : (most : ℕ) (v : Value) → Ensures (λ vs. length vs ≤ most) (list most v)
unfolding list
list-Ensures most v = record { at = λ s h. ground arith }

pub parse_schema-SchemaValid : (v : Value) → Ensures SchemaValid (parse_schema v)
unfolding parse_schema
parse_schema-SchemaValid v = Ensures-bind_any (object v) _ λ m _.
    Ensures-bind_any (exact_keys m _ _) _ λ _ _.
      Ensures-bind (safe_string 512 _) _ (safe_string-Ensures 512 _) λ id safe.
        Ensures-bind_any (authorization_status _) _ λ st _. Ensures-ok (record { id_safe = safe })

-- A list that parses has valid items, and no more than its limit.
module _ {B : Type 0} {P : B → Type 0} (f : Value → Parsed B)
    (each : (v : Value) → Ensures P (f v)) where
  items-Ensures :
      (vs : List Value) → Ensures (λ bs. (length bs ≡ length vs) × All P bs) (map_result f vs)
  unfolding map_result
  items-Ensures [] = Ensures-ok (refl, tt)
  items-Ensures (v ∷ vs) = Ensures-bind (f v) _ (each v) λ b p.
      Ensures-bind (map_result f vs) _ (items-Ensures vs)
        λ bs ps. Ensures-ok (ap suc ps.0, (p, ps.1))

  pub list-items-Ensures :
      (most : ℕ) (v : Value)
      → Ensures (λ bs. (length bs ≤ most) × All P bs) (list most v >>= map_result f)
  list-items-Ensures most v = Ensures-bind (list most v) _ (list-Ensures most v) λ vs few. record {
    at = λ bs h. let items = (items-Ensures vs).at bs h in (omega (arith, items.0, few), items.1);
  }

pub unique-Ensures :
    (items : List String) {B : Type 0} {Q : B → Type 0} (r : Parsed B)
    → (distinct items ≡ true → Ensures Q r)
    → Ensures Q (unique items >> r)
unfolding unique
unique-Ensures items r k = Ensures-guard (distinct items) invalid r k

pub parse_key-KeyValid : (v : Value) → Ensures KeyValid (parse_key v)
unfolding parse_key
parse_key-KeyValid v = Ensures-bind_any (object v) _ λ m _.
    Ensures-bind_any (exact_keys m _ _) _ λ _ _. Ensures-bind_any (key_status _) _ λ st _.
      Ensures-bind (integer 0 _) _ (integer-Ensures 0 _) λ from from_safe.
        Ensures-bind (optional_integer _) _ (optional_integer-Ensures _) λ until until_safe.
          Ensures-guard (interval_valid st from until) invalid _ λ interval.
            Ensures-bind (safe_string 512 _) _ (safe_string-Ensures 512 _) λ id safe.
              Ensures-ok (record {
                id_safe = safe;
                from_safe = from_safe;
                until_safe = until_safe;
                interval = interval;
              })

pub parse_issuer-IssuerValid : (v : Value) → Ensures IssuerValid (parse_issuer v)
unfolding parse_issuer
parse_issuer-IssuerValid v = Ensures-bind_any (object v) _ λ m _.
    Ensures-bind_any (exact_keys m _ _) _ λ _ _.
      Ensures-bind (list 10000 _ >>= map_result parse_schema) _
        (list-items-Ensures parse_schema parse_schema-SchemaValid 10000 _)
        λ schemas vs.
          Ensures-bind (list 10000 _ >>= map_result parse_key) _
            (list-items-Ensures parse_key parse_key-KeyValid 10000 _)
            λ keys vk.
              Ensures-bind (list 128 _ >>= map_result (safe_string 128)) _
                (list-items-Ensures (safe_string 128) (safe_string-Ensures 128) 128 _)
                λ marks vm. unique-Ensures _ _ λ ds. unique-Ensures _ _ λ dk.
                  unique-Ensures _ _ λ dm.
                    Ensures-bind (safe_string 512 _) _ (safe_string-Ensures 512 _) λ id safe.
                      Ensures-bind_any (authorization_status _) _ λ st _. Ensures-ok (record {
                        id_safe = safe;
                        schemas_few = vs.0;
                        keys_few = vk.0;
                        marks_few = vm.0;
                        schemas_valid = vs.1;
                        keys_valid = vk.1;
                        marks_safe = vm.1;
                        schemas_distinct = ds;
                        keys_distinct = dk;
                        marks_distinct = dm;
                      })

pub parse_rotation-RotationValid : (v : Value) → Ensures RotationValid (parse_rotation v)
unfolding parse_rotation
parse_rotation-RotationValid v = Ensures-bind_any (object v) _ λ m _.
    Ensures-bind_any (exact_keys m _ _) _ λ _ _.
      Ensures-bind (safe_string 512 _) _ (safe_string-Ensures 512 _) λ previous safe_p.
        Ensures-bind (safe_string 512 _) _ (safe_string-Ensures 512 _) λ next safe_n.
          Ensures-guard (not (str_eq previous next)) invalid _ λ differs.
            Ensures-bind (safe_string 512 _) _ (safe_string-Ensures 512 _) λ issuer safe_i.
              Ensures-bind (integer 0 _) _ (integer-Ensures 0 _) λ at safe_t. Ensures-ok (record {
                issuer_safe = safe_i;
                previous_safe = safe_p;
                new_safe = safe_n;
                time_safe = safe_t;
                changes = λ e. ground (arith, eq_iff previous next);
              })

pub parse_status-StatusValid : (v : Value) → Ensures StatusValid (parse_status v)
unfolding parse_status
parse_status-StatusValid v = Ensures-bind_any (object v) _ λ m _.
    Ensures-bind_any (exact_keys m _ _) _ λ _ _.
      Ensures-bind (safe_string 512 _) _ (safe_string-Ensures 512 _) λ issuer safe_i.
        Ensures-bind (scope_string _) _ (scope_string-Ensures _) λ id scope.
          Ensures-bind_any (credential_status _) _ λ st _.
            Ensures-bind (integer 0 _) _ (integer-Ensures 0 _) λ at safe_t.
              Ensures-ok (record { issuer_safe = safe_i; id_scope = scope; time_safe = safe_t })
