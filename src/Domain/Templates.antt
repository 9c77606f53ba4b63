-- ===== src/Domain/Templates.antt =====
-- Credential templates and issuer profiles of packages/credential-domain/src/index.ts:
-- `parseCredentialTemplate`, `publishCredentialTemplate`, `deprecateCredentialTemplate`,
-- `parseIssuerProfile`, `assertSameTenant` and `assuranceAllowed`. A parsed object is the map of its
-- own properties, which the parser copies and freezes. An error is its message.
pub mod Lifecycle
use Prim.Native.String.{◌++◌ as join}
use universal_smart_wallet.Prelude.{
  ℕ, zero, suc, String, Bool, true, false, not, ◌&&◌, ◌||◌, List, [], ◌∷◌, Option, none, some, ltb,
  leb, ◌==◌, str_eq, if◌then◌else◌, all, any, length, units, includes, is_digit, matches_opaque,
  Map, lookup, insert, Result, ok, err, ◌>>=◌, ◌>>◌, guard, or_throw,
}
use universal_smart_wallet.Value.{
  Value, Values, undefined, null, bool, num, str, arr, obj, nil, cons, pos, member, elements,
  entries, of_entries,
}
use universal_smart_wallet.Registry.Parse.{max_safe}
use universal_smart_wallet.Policy.Texts.{is_empty}
use universal_smart_wallet.Domain.Attestations.{Checked}
use universal_smart_wallet.Domain.Trust.{Url}

abbrev pub assurance_levels : List String
assurance_levels =
    "self_attested" ∷ "institutional" ∷ "government" ∷ "qualified" ∷ "pid" ∷ "eaa" ∷ "qeaa" ∷ []

abbrev pub credential_formats : List String
credential_formats = "sd-jwt-vc" ∷ "iso-mdoc" ∷ "w3c-vc-di" ∷ "jwt-vc-legacy" ∷ []

-- `\s`
abbrev is_space : ℕ → Bool
is_space c =
    leb 0x09 c && leb c 0x0d
    || c == 0x20
    || c == 0xa0
    || c == 0x1680
    || leb 0x2000 c && leb c 0x200a
    || c == 0x2028
    || c == 0x2029
    || c == 0x202f
    || c == 0x205f
    || c == 0x3000
    || c == 0xfeff

-- The class [0-9 ()-]
abbrev is_phone_char : ℕ → Bool
is_phone_char c = is_digit c || c == b' ' || c == b'(' || c == b')' || c == b'-'

abbrev starts_with_some : (ℕ → Bool) → ℕ → List ℕ → Bool
starts_with_some p zero us = true
starts_with_some p (suc n) [] = false
starts_with_some p (suc n) (u ∷ us) = p u && starts_with_some p n us

-- `/[0-9][0-9 ()-]{7,}/u` anywhere; an optional `+` before it changes nothing.
unfoldable pub has_phone : List ℕ → Bool
has_phone [] = false
has_phone (u ∷ us) = is_digit u && starts_with_some is_phone_char 7 us || has_phone us

-- `piiLike`
unfoldable pub is_pii_like : List ℕ → Bool
is_pii_like us = any (λ c. c == b'@' || is_space c) us || has_phone us

unfoldable pub is_opaque_id : String → Bool
is_opaque_id s = matches_opaque (units s) && not (is_pii_like (units s))

unfoldable pub assert_opaque_id : Value → String → Checked String
assert_opaque_id (str s) name =
    if is_opaque_id s then ok s else err (join name " must be an opaque identifier")
assert_opaque_id _ name = err (join name " must be an opaque identifier")

unfoldable pub first_unknown : List String → Map Value → Option String
first_unknown keys [] = none
first_unknown keys ((k, v) ∷ m) =
    let rest = first_unknown keys m in if not (includes k keys) then some k else rest

abbrev pub without_unknown : String → Map Value → Option String → Checked (Map Value)
without_unknown name m none = ok m
without_unknown name m (some key) = err (join name (join " contains unknown field " key))

unfoldable pub assert_strict_record : Value → List String → String → Checked (Map Value)
assert_strict_record (obj fs) keys name =
    without_unknown name (entries fs) (first_unknown keys (entries fs))
assert_strict_record _ keys name = err (join name " must be an object")

abbrev is_among : List String → Value → Bool
is_among words (str s) = includes s words
is_among words _ = false

abbrev comma_joined : Option String → Option String → Option String
comma_joined (some s) (some t) = some (join s (join "," t))
comma_joined _ _ = none

-- `String(value)` for a string, a truth value, and an array of those. Of a number and of an object
-- it is `none`: their texts are in none of the lists that it is looked up in.
unfoldable mutual
  pub text_of : Value → Option String
  text_of (str s) = some s
  text_of (bool true) = some "true"
  text_of (bool false) = some "false"
  text_of undefined = some "undefined"
  text_of null = some "null"
  text_of (arr vs) = texts_of vs
  text_of (num n) = none
  text_of (obj fs) = none

  pub item_text : Value → Option String
  item_text undefined = some ""
  item_text null = some ""
  item_text (str s) = some s
  item_text (bool true) = some "true"
  item_text (bool false) = some "false"
  item_text (arr vs) = texts_of vs
  item_text (num n) = none
  item_text (obj fs) = none

  -- `array.join(',')`
  pub texts_of : Values → Option String
  texts_of nil = some ""
  texts_of (cons v nil) = item_text v
  texts_of (cons v (cons w vs)) = comma_joined (item_text v) (texts_of (cons w vs))

abbrev pub text_among : List String → Option String → Bool
text_among words none = false
text_among words (some s) = includes s words

abbrev pub is_bool : Value → Bool
is_bool (bool b) = true
is_bool _ = false

abbrev is_version : Value → Bool
is_version (num (pos n)) = leb n max_safe && leb 1 n
is_version _ = false

abbrev pub is_one : Value → Bool
is_one (num (pos n)) = n == 1
is_one _ = false

abbrev pub list_of : Value → Option (List Value)
list_of (arr vs) = some (elements vs)
list_of _ = none

-- One claim, with the names of those before it.
unfoldable pub check_claim : List String → Value → Checked String
check_claim names item = do
  claim ←
      assert_strict_record item ("name" ∷ "type" ∷ "required" ∷ "selectivelyDisclosable" ∷ [])
        "claim"
  name ← assert_opaque_id (member "name" claim) "claim name"
  guard (not (includes name names)) "duplicate claim"
  guard (text_among ("string" ∷ "boolean" ∷ "number" ∷ "date" ∷ []) (text_of (member "type" claim)))
      "unsupported claim type"
  guard (is_bool (member "required" claim) && is_bool (member "selectivelyDisclosable" claim))
      "invalid claim flags"
  ok name

unfoldable pub check_claims : List String → List Value → Checked (Unit {0})
check_claims names [] = ok tt
check_claims names (item ∷ items) = do
  name ← check_claim names item
  check_claims (name ∷ names) items

unfoldable pub check_formats : Value → Checked (Unit {0})
check_formats v = do
  formats ← or_throw "unsupported credential format" (list_of v)
  guard (ltb 0 (length formats) && all (is_among credential_formats) formats)
      "unsupported credential format"
  guard (not (any (is_among ("jwt-vc-legacy" ∷ [])) formats)) "legacy JWT-VC is verify-only"

-- The checks of `parseCredentialTemplate` before that of the status.
unfoldable pub check_template : Map Value → Checked (Unit {0})
check_template m = do
  guard (is_one (member "schemaVersion" m)) "unsupported template schema version"
  assert_opaque_id (member "tenantId" m) "tenantId"
  assert_opaque_id (member "templateId" m) "templateId"
  assert_opaque_id (member "type" m) "type"
  guard (is_version (member "version" m)) "invalid template version"
  guard (is_among assurance_levels (member "assurance" m)) "unknown assurance"
  check_formats (member "formats" m)
  claims ← or_throw "template requires claims" (list_of (member "claims" m))
  guard (ltb 0 (length claims)) "template requires claims"
  check_claims [] claims

abbrev pub template_keys : List String
template_keys =
    "schemaVersion" ∷ "tenantId" ∷ "templateId" ∷ "version" ∷ "type" ∷ "assurance" ∷ "formats"
    ∷ "claims" ∷ "status" ∷ []

unfoldable pub is_template_status : Value → Bool
is_template_status v = text_among ("draft" ∷ "review" ∷ "published" ∷ "deprecated" ∷ []) (text_of v)

unfoldable pub parse_template : Value → Checked (Map Value)
parse_template value = do
  m ← assert_strict_record value template_keys "template"
  check_template m
  guard (is_template_status (member "status" m)) "invalid template status"
  ok m

-- `value === text`
abbrev pub is_text : String → Value → Bool
is_text t (str s) = str_eq s t
is_text t _ = false

-- Each takes a template and returns `{ ...template, status }`, parsed again.
unfoldable pub publish_template : Value → Checked (Map Value)
publish_template value = do
  template ← parse_template value
  guard (is_text "review" (member "status" template)) "only reviewed templates can be published"
  parse_template (obj (of_entries (insert "status" (str "published") template)))

unfoldable pub deprecate_template : Value → Checked (Map Value)
deprecate_template value = do
  template ← parse_template value
  guard (is_text "published" (member "status" template))
      "only published templates can be deprecated"
  parse_template (obj (of_entries (insert "status" (str "deprecated") template)))

unfoldable pub assert_same_tenant : Value → Value → Checked (Unit {0})
assert_same_tenant left right = do
  mine ← assert_opaque_id left "tenantId"
  other ← assert_opaque_id right "tenantId"
  guard (str_eq mine other) "cross-tenant reference rejected"

-- The last two arguments are `actual` and `policy.acceptedAssurance`.
unfoldable pub assurance_allowed : String → List String → Bool
assurance_allowed actual accepted =
    includes actual assurance_levels
    && all (λ item. includes item assurance_levels) accepted
    && includes actual accepted

-- `assertHttps`, with the URL parser; `none` is the error that `new URL` throws.
unfoldable pub assert_https : (String → Option Url) → Value → String → Checked (Unit {0})
assert_https parse_url (str s) name = do
  url ← or_throw "Invalid URL" (parse_url s)
  guard (str_eq url.protocol "https:" && is_empty url.username && is_empty url.password)
      (join name " must be https")
assert_https parse_url _ name = err (join name " must be https")

abbrev is_opaque_value : Value → Bool
is_opaque_value (str s) = is_opaque_id s
is_opaque_value _ = false

unfoldable pub parse_issuer_profile : (String → Option Url) → Value → Checked (Map Value)
parse_issuer_profile parse_url value = do
  m ←
      assert_strict_record value
        ("schemaVersion" ∷ "tenantId" ∷ "issuerId" ∷ "issuerUri" ∷ "assurance" ∷ "keyRef"
          ∷ "authorizedTemplateIds" ∷ [])
        "issuer profile"
  guard (is_one (member "schemaVersion" m)) "unsupported issuer profile version"
  assert_opaque_id (member "tenantId" m) "tenantId"
  assert_opaque_id (member "issuerId" m) "issuerId"
  assert_opaque_id (member "keyRef" m) "keyRef"
  assert_https parse_url (member "issuerUri" m) "issuerUri"
  guard
      (not (is_text "self_attested" (member "assurance" m))
        && is_among assurance_levels (member "assurance" m))
      "institutional issuer requires institutional assurance"
  ids ← or_throw "invalid authorized templates" (list_of (member "authorizedTemplateIds" m))
  guard (all is_opaque_value ids) "invalid authorized templates"
  ok m
