-- ===== src/Issuance/Offers.antt =====
-- Offers and tokens of packages/issuer-service/src/index.ts: `createOffer`, `authorize` and
-- `exchangeToken`. What an operation returns is its secrets and times; the frozen documents that
-- the source builds around them are left out.
use universal_smart_wallet.Prelude.{
  ℕ, ◌+◌, ◌-◌, ◌/◌, String, Bool, true, false, ◌&&◌, List, [], ◌∷◌, Option, none, some, leb, min,
  str_eq, if◌then◌else◌, insert, Map, ok, err,
}
use universal_smart_wallet.Value.{Value, undefined, num, str, pos, member}
use universal_smart_wallet.Issuance.{
  failure, Actor, IssuanceState, GrantKind, pre_authorized_code, authorization_code, Grant,
  AccessToken, Ports,
}
use universal_smart_wallet.Issuance.Run.{Run, ◌>>=◌, ◌>>◌, done, give, read, call, change, need}
use universal_smart_wallet.Issuance.Parse.{
  Read, id, bounded_text, strict_record, text_at, https_url,
}
use universal_smart_wallet.Issuance.Setup.{key, get_issuer, require_scope, same_tenant}
use universal_smart_wallet.Issuance.Tokens.{unique_token, consume_grant}
use universal_smart_wallet.Issuance.Review.{
  is_state, store_session, mutable_session, ensure_session_live, assert_issuance_authorization,
}

abbrev flow_of : Value → Read GrantKind
flow_of (str s) =
    if str_eq s "pre-authorized_code"
    then ok pre_authorized_code
    else if str_eq s "authorization_code"
    then ok authorization_code
    else err (failure 400 "UNSUPPORTED_GRANT_TYPE")
flow_of _ = err (failure 400 "UNSUPPORTED_GRANT_TYPE")

-- The default is five minutes, the most ten.
abbrev ttl_of : Value → Read ℕ
ttl_of undefined = ok 300000
ttl_of (num (pos n)) =
    if leb 1000 n && leb n 600000 then ok n else err (failure 400 "INVALID_OFFER_TTL")
ttl_of _ = err (failure 400 "INVALID_OFFER_TTL")

-- `value === undefined ? undefined : read(value)`
abbrev optionally : (Value → Read String) → Value → Read (Option String)
optionally get undefined = ok none
optionally get v = elim (get v) [ ok s ↦ ok (some s) | err e ↦ err e ]

abbrev client_rule : GrantKind → Option String → Option String → Read (Unit {0})
client_rule authorization_code (some client) (some url) = ok tt
client_rule authorization_code _ _ = err (failure 400 "AUTHORIZATION_CLIENT_REQUIRED")
client_rule pre_authorized_code none none = ok tt
client_rule pre_authorized_code _ _ = err (failure 400 "UNEXPECTED_AUTHORIZATION_CLIENT")

pub record Offer : Type 0 where
  pub issuer_uri : String
  pub kind : GrantKind
  pub secret : String
  pub expires_in : ℕ

pub record AuthorizationCode : Type 0 where
  pub redirect_uri : String
  pub code : String
  pub state : String

pub record TokenAnswer : Type 0 where
  pub access_token : String
  pub expires_in : ℕ

abbrev same_text : Option String → String → Bool
same_text none s = false
same_text (some t) s = str_eq t s

abbrev for_client : Grant → String → String → Bool
for_client g client url = same_text g.client_id client && same_text g.redirect_uri url

abbrev is_absent : Value → Bool
is_absent undefined = true
is_absent _ = false

abbrev authorize_keys : List String
authorize_keys = "issuer_state" ∷ "client_id" ∷ "redirect_uri" ∷ "state" ∷ []

pub data TokenGrant : Type 0 where
  by_offer : TokenGrant
  by_code : TokenGrant

abbrev token_grant : Value → Read TokenGrant
token_grant (str s) =
    if str_eq s "urn:ietf:params:oauth:grant-type:pre-authorized_code"
    then ok by_offer
    else if str_eq s "authorization_code"
    then ok by_code
    else err (failure 400 "UNSUPPORTED_GRANT_TYPE")
token_grant _ = err (failure 400 "UNSUPPORTED_GRANT_TYPE")

module _ {N : Type 0} (ports : Ports N) where
  unfoldable pub create_offer : Actor → String → Value → Run N Offer
  create_offer actor session_id value = do
    require_scope actor "offers:write"
    input ←
        give
          (strict_record value ("flow" ∷ "ttlMs" ∷ "clientId" ∷ "redirectUri" ∷ []) ("flow" ∷ []))
    kind ← give (flow_of (member "flow" input))
    ttl ← give (ttl_of (member "ttlMs" input))
    s ← mutable_session ports actor.tenant_id session_id
    ensure_session_live ports (key actor.tenant_id session_id) s
    need (is_state s.state IssuanceState.approved) (failure 409 "SESSION_NOT_APPROVED")
    assert_issuance_authorization ports s
    issuer ← read (get_issuer actor.tenant_id s.issuer_id)
    secret ← unique_token ports
    client_id ← give (optionally (λ v. id v "CLIENT") (member "clientId" input))
    redirect_uri ←
        give (
          optionally (λ v. https_url ports.parse_url v "REDIRECT_URI") (member "redirectUri" input))
    give (client_rule kind client_id redirect_uri)
    now ← call ports.clock
    let grant : Grant = record {
      tenant_id = actor.tenant_id;
      session_id = s.session_id;
      kind = kind;
      secret_hash = ports.sha256 secret;
      expires_at = now + ttl;
      client_id = client_id;
      redirect_uri = redirect_uri;
      consumed_at = none;
    }
    change (λ sv. record sv { grants = insert (ports.sha256 secret) grant sv.grants })
    change (
        store_session (key actor.tenant_id session_id) (record s { state = IssuanceState.offered }))
    done (record {
      issuer_uri = text_at "issuerUri" issuer;
      kind = kind;
      secret = secret;
      expires_in = ttl / 1000;
    })

  -- A code for the holder of an offer, which consumes the offer.
  unfoldable pub authorize : Actor → String → Value → Run N AuthorizationCode
  authorize actor tenant value = do
    same_tenant actor.tenant_id tenant
    require_scope actor "oid4vci:authorize"
    input ← give (strict_record value authorize_keys authorize_keys)
    issuer_state ← give (bounded_text (member "issuer_state" input) "ISSUER_STATE" 512)
    client_id ← give (id (member "client_id" input) "CLIENT")
    redirect_uri ← give (https_url ports.parse_url (member "redirect_uri" input) "REDIRECT_URI")
    state ← give (bounded_text (member "state" input) "STATE" 512)
    grant ← consume_grant ports issuer_state tenant authorization_code
    need (for_client grant client_id redirect_uri) (failure 400 "AUTHORIZATION_CLIENT_MISMATCH")
    code ← unique_token ports
    now ← call ports.clock
    let code_grant : Grant = record {
      tenant_id = tenant;
      session_id = grant.session_id;
      kind = authorization_code;
      secret_hash = ports.sha256 code;
      expires_at = min grant.expires_at (now + 60000);
      client_id = some client_id;
      redirect_uri = some redirect_uri;
      consumed_at = none;
    }
    change (λ sv. record sv { grants = insert (ports.sha256 code) code_grant sv.grants })
    done (record { redirect_uri = redirect_uri; code = code; state = state })

  abbrev offered_grant : String → Map Value → Run N Grant
  offered_grant tenant input = do
    code ← give (bounded_text (member "pre-authorized_code" input) "GRANT" 512)
    need
        (is_absent (member "code" input)
          && is_absent (member "client_id" input)
          && is_absent (member "redirect_uri" input))
        (failure 400 "INVALID_TOKEN_REQUEST")
    consume_grant ports code tenant pre_authorized_code

  abbrev coded_grant : String → Map Value → Run N Grant
  coded_grant tenant input = do
    code ← give (bounded_text (member "code" input) "GRANT" 512)
    client_id ← give (id (member "client_id" input) "CLIENT")
    redirect_uri ← give (https_url ports.parse_url (member "redirect_uri" input) "REDIRECT_URI")
    grant ← consume_grant ports code tenant authorization_code
    need (for_client grant client_id redirect_uri) (failure 400 "AUTHORIZATION_CLIENT_MISMATCH")
    done grant

  abbrev pub grant_by : TokenGrant → String → Map Value → Run N Grant
  grant_by by_offer tenant input = offered_grant tenant input
  grant_by by_code tenant input = coded_grant tenant input

  -- The grant's secret is exchanged for an access token.
  unfoldable pub exchange_token : String → Value → Run N TokenAnswer
  exchange_token tenant value = do
    input ← give (
        strict_record value
          ("grant_type" ∷ "pre-authorized_code" ∷ "code" ∷ "client_id" ∷ "redirect_uri" ∷ [])
          ("grant_type" ∷ []))
    by ← give (token_grant (member "grant_type" input))
    grant ← grant_by by tenant input
    secret ← unique_token ports
    now ← call ports.clock
    let token : AccessToken = record {
      tenant_id = tenant;
      session_id = grant.session_id;
      token_hash = ports.sha256 secret;
      expires_at = min grant.expires_at (now + 60000);
      consumed_at = none;
    }
    change (λ sv. record sv { access_tokens = insert (ports.sha256 secret) token sv.access_tokens })
    later ← call ports.clock
    done (record { access_token = secret; expires_in = (token.expires_at - later) / 1000 })
