-- ===== src/Presentation.antt =====
-- packages/presentation-policy/src/index.ts: policies of minimal disclosure. This file has
-- `parsePresentationPolicy` and `selectPresentationCandidates`; `Selected` says which candidates are
-- selected. An error is its message. A number that is no integer is not NaN here.
pub mod Selected
pub mod Examples
use Prim.Native.String.{◌++◌ as join}
use universal_smart_wallet.Prelude.{
  ℕ, String, Bool, true, false, not, ◌&&◌, ◌||◌, List, [], ◌∷◌, ◌++◌, Option, none, some, ltb, leb,
  ◌==◌, str_eq, if◌then◌else◌, all, length, text_length, includes, Map, lookup, Result, ok, err,
  ◌>>=◌, ◌>>◌, guard, or_throw, map_result,
}
use universal_smart_wallet.Value.{
  Value, Number, pos, negsuc, real, undefined, null, bool, num, str, arr, obj, elements, entries,
  member,
}

abbrev pub Checked : Type 0 → Type 0
Checked A = Result String A

pub record ClaimRequirement : Type 0 where
  pub path : List String
  pub value : Value
  pub required_disclosure : Bool

-- The format is always 'dc+sd-jwt'.
pub record CredentialQuery : Type 0 where
  pub id : String
  pub vct : String
  pub claims : List ClaimRequirement

pub record PresentationPolicy : Type 0 where
  pub id : String
  pub purpose : String
  pub credentials : List CredentialQuery

pub record PresentationCandidate : Type 0 where
  pub id : String
  pub format : String
  pub vct : String
  pub claims : Value
  pub disclosures : List String

-- `MAX_ARRAY_ITEMS`, `MAX_NESTING_DEPTH` and `MAX_STRING_LENGTH` of packages/shared-types.
abbrev max_array_items : ℕ
max_array_items = 16

abbrev max_nesting_depth : ℕ
max_nesting_depth = 4

abbrev max_string_length : ℕ
max_string_length = 256

unfoldable pub object_of : String → Value → Checked (Map Value)
object_of message (obj fs) = ok (entries fs)
object_of message _ = err message

unfoldable pub text : Value → String → Checked String
text (str s) name =
    if ltb 0 (text_length s) && leb (text_length s) max_string_length
    then ok s
    else err (join name " is invalid")
text _ name = err (join name " is invalid")

unfoldable pub keys : Map Value → List String → Checked (Unit {0})
keys [] allowed = ok tt
keys ((k, v) ∷ m) allowed = do guard (includes k allowed) (join "unknown field: " k); keys m allowed

-- An array with from one to `most` items.
unfoldable pub items : ℕ → String → Value → Checked (List Value)
items most message (arr vs) =
    if leb 1 (length (elements vs)) && leb (length (elements vs)) most
    then ok (elements vs)
    else err message
items most message _ = err message

unfoldable pub path : Value → Checked (List String)
path v = do
  segments ← items max_nesting_depth "invalid claim path" v
  map_result (λ x. text x "path") segments

unfoldable pub scalar : Value → Checked Value
scalar (str s) =
    if leb (text_length s) max_string_length
    then ok (str s)
    else err "claim value must be a bounded scalar"
scalar (num n) = ok (num n)
scalar (bool b) = ok (bool b)
scalar _ = err "claim value must be a bounded scalar"

abbrev is_word : String → Value → Bool
is_word word (str s) = str_eq s word
is_word word _ = false

abbrev is_one : Value → Bool
is_one (num (pos n)) = n == 1
is_one _ = false

abbrev bool_of : Value → Option Bool
bool_of (bool b) = some b
bool_of _ = none

unfoldable pub parse_claim : Value → Checked ClaimRequirement
parse_claim value = do
  m ← object_of "claim must be an object" value
  keys m ("path" ∷ "operator" ∷ "value" ∷ "requiredDisclosure" ∷ [])
  guard (is_word "equals" (member "operator" m)) "unsupported claim operator or disclosure"
  required ←
      or_throw "unsupported claim operator or disclosure" (bool_of (member "requiredDisclosure" m))
  segments ← path (member "path" m)
  bounded ← scalar (member "value" m)
  ok (record { path = segments; value = bounded; required_disclosure = required })

unfoldable pub parse_credential_query : Value → Checked CredentialQuery
parse_credential_query value = do
  m ← object_of "credential query must be an object" value
  keys m ("id" ∷ "format" ∷ "vct" ∷ "claims" ∷ [])
  guard (is_word "dc+sd-jwt" (member "format" m)) "unsupported credential query"
  claims ← items max_array_items "unsupported credential query" (member "claims" m)
  id ← text (member "id" m) "credential id"
  vct ← text (member "vct" m) "vct"
  requirements ← map_result parse_claim claims
  ok (record { id = id; vct = vct; claims = requirements })

unfoldable pub parse_presentation_policy : Value → Checked PresentationPolicy
parse_presentation_policy value = do
  m ← object_of "policy must be an object" value
  keys m ("schemaVersion" ∷ "id" ∷ "purpose" ∷ "credentials" ∷ [])
  guard (is_one (member "schemaVersion" m)) "unsupported policy schema version"
  credentials ← items max_array_items "invalid credentials" (member "credentials" m)
  queries ← map_result parse_credential_query credentials
  id ← text (member "id" m) "id"
  purpose ← text (member "purpose" m) "purpose"
  ok (record { id = id; purpose = purpose; credentials = queries })

abbrev same_number : Number → Number → Bool
same_number (pos a) (pos b) = a == b
same_number (negsuc a) (negsuc b) = a == b
same_number (real a) (real b) = a == b
same_number _ _ = false

-- `a === b` for a scalar `b`.
unfoldable pub equals : Value → Value → Bool
equals (str s) (str t) = str_eq s t
equals (num a) (num b) = same_number a b
equals (bool true) (bool b) = b
equals (bool false) (bool b) = not b
equals _ _ = false

-- The value at a path of own properties. `in` finds inherited ones too, which no path follows to a
-- scalar, so that the comparison fails for them as well.
unfoldable pub follow : List String → Value → Option Value
follow [] v = some v
follow (segment ∷ segments) (obj fs) = elim (lookup segment (entries fs)) [
  | none ↦ none
  | some v ↦ follow segments v
]
follow (segment ∷ segments) _ = none

abbrev pub equals_some : Option Value → Value → Bool
equals_some none v = false
equals_some (some w) v = equals w v

unfoldable pub meets : Value → ClaimRequirement → Bool
meets claims requirement = equals_some (follow requirement.path claims) requirement.value

abbrev pub is_allowed : Option (List String) → String → Bool
is_allowed none id = true
is_allowed (some ids) id = includes id ids

-- The test of the filter.
unfoldable pub fits : Option (List String) → CredentialQuery → PresentationCandidate → Bool
fits approved query candidate =
    str_eq candidate.format "dc+sd-jwt"
    && str_eq candidate.vct query.vct
    && str_eq candidate.id query.id
    && is_allowed approved candidate.id
    && all (meets candidate.claims) query.claims

unfoldable pub select_for :
    Option (List String) → CredentialQuery → List PresentationCandidate → List PresentationCandidate
select_for approved query [] = []
select_for approved query (c ∷ cs) =
    let rest = select_for approved query cs in if fits approved query c then c ∷ rest else rest

unfoldable pub select_all :
    Option (List String)
    → List PresentationCandidate
    → List CredentialQuery
    → List PresentationCandidate
select_all approved candidates [] = []
select_all approved candidates (q ∷ qs) =
    select_for approved q candidates ++ select_all approved candidates qs

-- `selectPresentationCandidates`; the approved identifiers are texts.
unfoldable pub select_presentation_candidates :
    Value → List PresentationCandidate → Option (List String) → Checked (List PresentationCandidate)
select_presentation_candidates value candidates approved = do
  parsed ← parse_presentation_policy value
  ok (select_all approved candidates parsed.credentials)
