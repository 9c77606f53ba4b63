-- ===== src/Issuance/Parse.antt =====
-- The readers of packages/issuer-service/src/index.ts: `id`, `boundedText`, `strictRecord`, and the
-- parts of an issuance request. The name of a field stands in an error's code in upper case.
use Prim.Native.String.{◌++◌ as join}
use universal_smart_wallet.Prelude.{
  ℕ, String, Bool, true, false, not, ◌&&◌, ◌||◌, List, [], ◌∷◌, map, Option, ltb, leb, ◌==◌, str_eq,
  if◌then◌else◌, all, any, length, units, text_length, includes, distinct, is_digit, is_control,
  matches_opaque, Map, has, Result, ok, err, ◌>>=◌, ◌>>◌, guard, or_throw, map_result,
}
use universal_smart_wallet.Value.{
  Value, Number, undefined, bool, num, str, arr, obj, pos, member, elements, entries,
}
use universal_smart_wallet.Policy.Texts.{is_empty}
use universal_smart_wallet.IssuerSigner.Texts.{is_digest}
use universal_smart_wallet.Domain.Trust.{Url}
use universal_smart_wallet.Domain.Templates.{list_of, is_bool, is_one, text_among, text_of}
use universal_smart_wallet.Issuance.{
  Failure, failure, ReviewerPolicy, EvidenceReference, SubjectBinding,
}

abbrev pub Read : Type 0 → Type 0
Read A = Result Failure A

abbrev pub invalid : String → Failure
invalid name = failure 400 (join "INVALID_" name)

unfoldable pub id : Value → String → Read String
id (str s) name = if matches_opaque (units s) then ok s else err (invalid name)
id _ name = err (invalid name)

unfoldable pub bounded_text : Value → String → ℕ → Read String
bounded_text (str s) name most =
    if ltb 0 (text_length s) && leb (text_length s) most && not (any is_control (units s))
    then ok s
    else err (invalid name)
bounded_text _ name most = err (invalid name)

unfoldable pub strict_record : Value → List String → List String → Read (Map Value)
strict_record (obj fs) allowed required = do
  guard (all (λ k. has k (entries fs)) required) (failure 400 "MISSING_FIELD")
  guard (all (λ (entry : String × Value). includes entry.0 allowed) (entries fs))
      (failure 400 "UNKNOWN_FIELD")
  ok (entries fs)
strict_record _ allowed required = err (failure 400 "INVALID_BODY")

-- A property that a parsed template or profile has as a text, or as a list of texts.
abbrev pub text_or_empty : Value → String
text_or_empty (str s) = s
text_or_empty _ = ""

unfoldable pub text_at : String → Map Value → String
text_at k m = text_or_empty (member k m)

abbrev pub items_of : Value → List Value
items_of (arr vs) = elements vs
items_of _ = []

abbrev is_word : String → Value → Bool
is_word word (str s) = str_eq s word
is_word word _ = false

-- `record[k].includes(word)`
unfoldable pub lists : String → String → Map Value → Bool
lists k word m = any (is_word word) (items_of (member k m))

abbrev pub entries_of : Value → Map Value
entries_of (obj fs) = entries fs
entries_of _ = []

abbrev is_true : Value → Bool
is_true (bool b) = b
is_true _ = false

abbrev is_date : List ℕ → Bool
is_date (a ∷ b ∷ c ∷ d ∷ e ∷ f ∷ g ∷ h ∷ i ∷ j ∷ []) =
    all is_digit (a ∷ b ∷ c ∷ d ∷ f ∷ g ∷ i ∷ j ∷ []) && e == b'-' && h == b'-'
is_date _ = false

abbrev is_short_text : Value → Bool
is_short_text (str s) = leb (text_length s) 2048
is_short_text _ = false

abbrev is_finite_number : (Number → Bool) → Value → Bool
is_finite_number is_finite (num n) = is_finite n
is_finite_number is_finite _ = false

abbrev is_date_text : Value → Bool
is_date_text (str s) = is_date (units s)
is_date_text _ = false

-- The value of a claim of this type.
unfoldable pub claim_fits : (Number → Bool) → String → Value → Bool
claim_fits is_finite kind v =
    str_eq kind "string" && is_short_text v
    || str_eq kind "boolean" && is_bool v
    || str_eq kind "number" && is_finite_number is_finite v
    || str_eq kind "date" && is_date_text v

abbrev claim_valid : (Number → Bool) → String → Value → Bool
claim_valid is_finite kind undefined = true
claim_valid is_finite kind v = claim_fits is_finite kind v

abbrev required_names : List (Map Value) → List String
required_names [] = []
required_names (c ∷ cs) =
    let rest = required_names cs in
    if is_true (member "required" c) then text_at "name" c ∷ rest else rest

unfoldable pub parse_claims : (Number → Bool) → Value → Map Value → Read (Map Value)
parse_claims is_finite value template = do
  let claims : List (Map Value) = map entries_of (items_of (member "claims" template))
  input ← strict_record value (map (text_at "name") claims) (required_names claims)
  guard
      (all (λ c. claim_valid is_finite (text_at "type" c) (member (text_at "name" c) input)) claims)
      (invalid "CLAIMS")
  ok input

unfoldable pub parse_subject_binding : Value → Read SubjectBinding
parse_subject_binding value = do
  let keys : List String = "schemaVersion" ∷ "bindingId" ∷ "method" ∷ "value" ∷ []
  input ← strict_record value keys keys
  guard
      (is_one (member "schemaVersion" input)
        && text_among ("jwk-thumbprint" ∷ "did-pkh" ∷ "mdoc-device-key" ∷ [])
            (text_of (member "method" input)))
      (invalid "SUBJECT_BINDING")
  binding_id ← id (member "bindingId" input) "BINDING"
  bound ← bounded_text (member "value" input) "BINDING_VALUE" 2048
  ok (record { binding_id = binding_id; method = member "method" input; value = bound })

abbrev digest_of : Value → Read String
digest_of (str s) = if is_digest s then ok s else err (invalid "EVIDENCE_DIGEST")
digest_of _ = err (invalid "EVIDENCE_DIGEST")

-- One reference, with the identifiers of those before it.
unfoldable pub parse_reference : List String → Value → Read EvidenceReference
parse_reference seen item = do
  let keys : List String = "evidenceId" ∷ "kind" ∷ "digest" ∷ "source" ∷ []
  input ← strict_record item keys keys
  evidence_id ← id (member "evidenceId" input) "EVIDENCE"
  guard (not (includes evidence_id seen)) (invalid "EVIDENCE")
  digest ← digest_of (member "digest" input)
  kind ← id (member "kind" input) "EVIDENCE_KIND"
  source ← bounded_text (member "source" input) "EVIDENCE_SOURCE" 256
  ok (record { evidence_id = evidence_id; kind = kind; digest = digest; source = source })

unfoldable pub parse_references : List String → List Value → Read (List EvidenceReference)
parse_references seen [] = ok []
parse_references seen (item ∷ items) = do
  reference ← parse_reference seen item
  rest ← parse_references (reference.evidence_id ∷ seen) items
  ok (reference ∷ rest)

unfoldable pub parse_evidence : Value → Read (List EvidenceReference)
parse_evidence value = do
  items ← or_throw (invalid "EVIDENCE") (list_of value)
  guard (ltb 0 (length items) && leb (length items) 16) (invalid "EVIDENCE")
  parse_references [] items

unfoldable pub https_url : (String → Option Url) → Value → String → Read String
https_url parse_url value name = do
  text ← bounded_text value name 2048
  url ← or_throw (invalid name) (parse_url text)
  guard (str_eq url.protocol "https:" && is_empty url.username && is_empty url.password)
      (invalid name)
  ok url.href

abbrev approvals_of : Value → Read ℕ
approvals_of (num (pos n)) = if leb 1 n && leb n 10 then ok n else err (invalid "REVIEWER_POLICY")
approvals_of _ = err (invalid "REVIEWER_POLICY")

-- `registerReviewerPolicy`, but for the scope and the tenant, which stands between the two parts.
unfoldable pub parse_policy : String → Map Value → Read ReviewerPolicy
parse_policy tenant_id input = do
  policy_id ← id (member "policyId" input) "POLICY"
  template_id ← id (member "templateId" input) "TEMPLATE"
  required ← approvals_of (member "requiredApprovals" input)
  items ← or_throw (invalid "REVIEWER_POLICY") (list_of (member "authorizedReviewerIds" input))
  reviewers ← map_result (λ v. id v "REVIEWER") items
  guard (distinct reviewers && leb required (length reviewers)) (invalid "REVIEWER_POLICY")
  ok (record {
    tenant_id = tenant_id;
    policy_id = policy_id;
    template_id = template_id;
    required_approvals = required;
    authorized_reviewer_ids = reviewers;
  })
