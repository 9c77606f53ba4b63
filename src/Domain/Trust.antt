-- ===== src/Domain/Trust.antt =====
-- `evaluateIssuerTrust`, `boundedStatusUrl` and `StatusCache` of
-- packages/credential-domain/src/index.ts. The URL parser, `JSON.parse` and the transport are
-- arguments; the transport acts on a state of its own, so that a theorem can say whether it was
-- called, and answers the message of the error when it rejects or when the timeout comes first.
-- Instants, versions of bundles and HTTP statuses are natural numbers.
pub mod Fresh
use universal_smart_wallet.Prelude.{
  ℕ, ◌+◌, ◌*◌, ◌-◌, String, Bool, true, false, not, ◌&&◌, ◌||◌, List, [], ◌∷◌, ◌++◌, Option, none,
  some, ltb, leb, ◌==◌, str_eq, if◌then◌else◌, any, find, length, units, text_length, includes,
  is_digit, Map, lookup, insert, Result, ok, err, ◌>>=◌, ◌>>◌, guard, or_throw,
}
use universal_smart_wallet.Value.{
  Value, undefined, null, str, num, obj, Number, pos, member, entries,
}
use universal_smart_wallet.Registry.Parse.{max_safe}
use universal_smart_wallet.Policy.Texts.{lower}
use universal_smart_wallet.IssuerSigner.Texts.{starts_with}

pub record TrustedIssuer : Type 0 where
  pub issuer : String
  pub key_ids : List String

pub record TrustBundle : Type 0 where
  pub version : ℕ
  pub expires_at : ℕ
  pub issuers : List TrustedIssuer

pub data TrustDecisionCode : Type 0 where
  trusted unknown_issuer untrusted_key unsupported_version : TrustDecisionCode

pub record TrustDecision : Type 0 where
  pub ok : Bool
  pub code : TrustDecisionCode

abbrev refusal : TrustDecisionCode → TrustDecision
refusal code = record { ok = false; code = code }

abbrev key_decision : String → Option TrustedIssuer → TrustDecision
key_decision key_id none = refusal unknown_issuer
key_decision key_id (some entry) =
    if not (includes key_id entry.key_ids)
    then refusal untrusted_key
    else record { ok = true; code = trusted }

-- `versions` is `supportedBundleVersions ?? [1]`.
unfoldable pub evaluate_issuer_trust : TrustBundle → String → String → List ℕ → ℕ → TrustDecision
evaluate_issuer_trust bundle issuer key_id versions now =
    if not (any (λ v. v == bundle.version) versions)
    then refusal unsupported_version
    else if not (ltb now bundle.expires_at)
    then refusal unknown_issuer
    else key_decision key_id (find (λ entry. str_eq entry.issuer issuer) bundle.issuers)

pub data CredentialStatus : Type 0 where
  valid revoked suspended : CredentialStatus

pub data StatusDecisionCode : Type 0 where
  status : CredentialStatus → StatusDecisionCode
  stale unavailable invalid_response ssrf_blocked : StatusDecisionCode

pub record StatusRecord : Type 0 where
  pub status : CredentialStatus
  pub expires_at : ℕ
  pub index : Option Number

pub record StatusLookupResult : Type 0 where
  pub ok : Bool
  pub code : StatusDecisionCode
  pub status : Option CredentialStatus
  pub cached : Bool

-- What `new URL(value)` gives; `href` is `url.toString()`.
pub record Url : Type 0 where
  pub protocol : String
  pub hostname : String
  pub username : String
  pub password : String
  pub href : String

abbrev number_of : List ℕ → ℕ → ℕ
number_of [] n = n
number_of (d ∷ ds) n = number_of ds (n * 10 + (d - b'0'))

-- `/^100\.(?:6[4-9]|[7-9]\d|1[01]\d|12[0-7])\./u`, after `100.`.
unfoldable pub is_shared_net : List ℕ → Bool
is_shared_net (a ∷ b ∷ c ∷ rest) =
    is_digit a
    && is_digit b
    && (c == b'.' && leb 64 (number_of (a ∷ b ∷ []) 0)
        || is_digit c
          && starts_with (b'.' ∷ []) rest
          && leb 100 (number_of (a ∷ b ∷ c ∷ []) 0)
          && leb (number_of (a ∷ b ∷ c ∷ []) 0) 127)
is_shared_net _ = false

-- `/^172\.(\d{1,3})\./u` with a number from 16 to 31, after `172.`.
unfoldable pub is_private_172 : List ℕ → Bool
is_private_172 (a ∷ b ∷ c ∷ rest) =
    is_digit a
    && is_digit b
    && (c == b'.' && leb 16 (number_of (a ∷ b ∷ []) 0) && leb (number_of (a ∷ b ∷ []) 0) 31
        || is_digit c
          && starts_with (b'.' ∷ []) rest
          && leb 16 (number_of (a ∷ b ∷ c ∷ []) 0)
          && leb (number_of (a ∷ b ∷ c ∷ []) 0) 31)
is_private_172 _ = false

-- The units after a prefix, and nothing without it.
abbrev after : List ℕ → List ℕ → Option (List ℕ)
after [] us = some us
after (p ∷ ps) [] = none
after (p ∷ ps) (u ∷ us) = if p == u then after ps us else none

abbrev holds : (List ℕ → Bool) → Option (List ℕ) → Bool
holds p none = false
holds p (some us) = p us

-- `host.endsWith(suffix)`
abbrev ends_with : List ℕ → List ℕ → Bool
ends_with suffix [] = starts_with suffix []
ends_with suffix (u ∷ us) =
    starts_with suffix (u ∷ us) && length suffix == length (u ∷ us) || ends_with suffix us

unfoldable pub is_private_host : String → Bool
is_private_host hostname =
    let host = units (lower hostname) in
    str_eq (lower hostname) "localhost"
    || ends_with (units ".localhost") host
    || str_eq (lower hostname) "::1"
    || starts_with (units "127.") host
    || starts_with (units "10.") host
    || starts_with (units "192.168.") host
    || starts_with (units "169.254.") host
    || holds is_shared_net (after (units "100.") host)
    || holds is_private_172 (after (units "172.") host)

-- The tests of `boundedStatusUrl`.
unfoldable pub is_blocked : Url → Bool
is_blocked url =
    not (str_eq url.protocol "https:")
    || is_private_host url.hostname
    || ltb 0 (text_length url.username)
    || ltb 0 (text_length url.password)

unfoldable pub bounded_status_url : (String → Option Url) → String → Result StatusDecisionCode Url
bounded_status_url parse_url value = do
  url ← or_throw ssrf_blocked (parse_url value)
  guard (not (is_blocked url)) ssrf_blocked
  ok url

pub record TransportResponse : Type 0 where
  pub status : ℕ
  pub body : String

-- The options of a cache, with their defaults filled in, and the code outside the repository.
pub record Ports (N : Type 0) : Type 0 where
  pub parse_url : String → Option Url
  pub parse_json : String → Option Value
  pub transport : String → N → Result String TransportResponse × N
  pub max_response_bytes : ℕ

-- `value.key`, which throws for `undefined` and `null` and is undefined for other non-objects.
abbrev pub property : String → Value → Result StatusDecisionCode Value
property key undefined = err unavailable
property key null = err unavailable
property key (obj fs) = ok (member key (entries fs))
property key _ = ok undefined

unfoldable pub status_of : Value → Result StatusDecisionCode CredentialStatus
status_of (str s) =
    if str_eq s "valid"
    then ok valid
    else if str_eq s "revoked"
    then ok revoked
    else if str_eq s "suspended"
    then ok suspended
    else err invalid_response
status_of _ = err invalid_response

unfoldable pub expiry_of : ℕ → Value → Result StatusDecisionCode ℕ
expiry_of now (num (pos n)) = if leb n max_safe && ltb now n then ok n else err invalid_response
expiry_of now _ = err invalid_response

abbrev index_of : Value → Option Number
index_of (num n) = some n
index_of _ = none

-- The record that a parsed body carries.
unfoldable pub status_record_of : ℕ → Value → Result StatusDecisionCode StatusRecord
status_record_of now parsed = do
  status_value ← property "status" parsed
  told ← status_of status_value
  expiry_value ← property "expiresAt" parsed
  expires_at ← expiry_of now expiry_value
  index_value ← property "index" parsed
  ok (record { status = told; expires_at = expires_at; index = index_of index_value })

-- The `catch` knows an error by its message, and a transport's own error may have any.
abbrev pub received : Result String TransportResponse → Result StatusDecisionCode TransportResponse
received (ok response) = ok response
received (err message) =
    if str_eq message "invalid_response" then err invalid_response else err unavailable

-- The record that a response carries. Each error is the code that the `catch` makes of it, and
-- `unavailable` stands for all but `invalid_response`.
unfoldable pub read_response :
    {N : Type 0}
    → Ports N
    → ℕ
    → Result String TransportResponse
    → Result StatusDecisionCode StatusRecord
read_response ports now answer = do
  response ← received answer
  guard (leb 200 response.status && ltb response.status 300) unavailable
  guard (leb (text_length response.body) ports.max_response_bytes) invalid_response
  parsed ← or_throw unavailable (ports.parse_json response.body)
  status_record_of now parsed

abbrev pub is_valid : CredentialStatus → Bool
is_valid valid = true
is_valid _ = false

abbrev found : Bool → CredentialStatus → StatusLookupResult
found cached s = record { ok = is_valid s; code = status s; status = some s; cached = cached }

abbrev refused : StatusDecisionCode → StatusLookupResult
refused code = record { ok = false; code = code; status = none; cached = false }

-- The answer of the `catch`, with the entry that was there.
abbrev fall_back : StatusDecisionCode → Option StatusRecord → StatusLookupResult
fall_back invalid_response cached = refused invalid_response
fall_back code none = refused unavailable
fall_back code (some old) = record {
  ok = false;
  code = stale;
  status = some old.status;
  cached = true;
}

abbrev pub Records : Type 0
Records = Map StatusRecord

abbrev keep :
    String → Records → Result StatusDecisionCode StatusRecord → StatusLookupResult × Records
keep key cache (ok fresh) = (found false fresh.status, insert key fresh cache)
keep key cache (err code) = (fall_back code (lookup key cache), cache)

abbrev fetch_status :
    {N : Type 0} → Ports N → ℕ → String → Records → N → StatusLookupResult × Records × N
fetch_status ports now key cache net =
    let (answer, after_net) = ports.transport key net in
    let (result, after_cache) = keep key cache (read_response ports now answer) in
    (result, after_cache, after_net)

abbrev pub not_expired : ℕ → Option StatusRecord → Bool
not_expired now none = false
not_expired now (some old) = ltb now old.expires_at

abbrev answer_from : Option StatusRecord → StatusLookupResult
answer_from none = refused unavailable
answer_from (some old) = found true old.status

-- `lookup`; `fetchedAt` is never read, and left out.
unfoldable pub lookup_status :
    {N : Type 0} → Ports N → ℕ → String → Records → N → StatusLookupResult × Records × N
lookup_status ports now value cache net = elim (bounded_status_url ports.parse_url value) [
  | err code ↦ (refused ssrf_blocked, cache, net)
  | ok url ↦
      if not_expired now (lookup url.href cache)
      then (answer_from (lookup url.href cache), cache, net)
      else fetch_status ports now url.href cache net
]
