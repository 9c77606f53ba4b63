-- ===== src/Issuance/Setup.antt =====
-- Registration and issuance requests of packages/issuer-service/src/index.ts: `registerTemplate`,
-- `registerIssuer`, `registerReviewerPolicy` and `createIssuanceRequest`, with the look-ups that
-- all operations use.
use Prim.Native.String.{◌++◌ as join}
use universal_smart_wallet.Prelude.{
  ℕ, String, not, ◌&&◌, List, [], ◌∷◌, Option, none, some, leb, ltb, str_eq, if◌then◌else◌,
  includes, Map, lookup, has, insert, is_ok, is_some, Result, ok, err, or_throw,
}
use universal_smart_wallet.Value.{Value, Number, num, str, undefined, pos, member}
use universal_smart_wallet.Registry.Parse.{max_safe}
use universal_smart_wallet.Registry.Snapshots.{nul_joined}
use universal_smart_wallet.Policy.Texts.{is_safe_integer}
use universal_smart_wallet.IssuerSigner.Texts.{is_key_ref}
use universal_smart_wallet.Domain.Attestations.{number_text}
use universal_smart_wallet.Domain.Templates.{
  parse_template, parse_issuer_profile, assert_same_tenant, is_text, is_one, text_among, text_of,
  credential_formats,
}
use universal_smart_wallet.Issuance.{
  Failure, failure, Actor, ReviewerPolicy, IssuanceSession, pending_review, Service, Ports,
}
use universal_smart_wallet.Issuance.Run.{Run, ◌>>=◌, ◌>>◌, done, give, read, call, change, need}
use universal_smart_wallet.Issuance.Parse.{
  Read, invalid, id, strict_record, text_or_empty, text_at, lists, parse_claims,
  parse_subject_binding, parse_evidence, parse_policy,
}

-- `key(tenantId, entityId)`
abbrev pub key : String → String → String
key tenant_id entity_id = nul_joined tenant_id entity_id

abbrev pub version_key : String → Number → String
version_key template_id version = join template_id (join ":v" (number_text version))

unfoldable pub get_template : String → String → Number → Service → Read (Map Value)
get_template tenant template_id version sv =
    or_throw (failure 404 "TEMPLATE_NOT_FOUND")
      (lookup (key tenant (version_key template_id version)) sv.templates)

unfoldable pub get_issuer : String → String → Service → Read (Map Value)
get_issuer tenant issuer_id sv =
    or_throw (failure 404 "ISSUER_NOT_FOUND") (lookup (key tenant issuer_id) sv.issuers)

unfoldable pub get_policy : String → String → Service → Read ReviewerPolicy
get_policy tenant policy_id sv =
    or_throw (failure 404 "REVIEWER_POLICY_NOT_FOUND") (lookup (key tenant policy_id) sv.policies)

abbrev pub or_refuse : {A : Type 0} → Failure → Result String A → Read A
or_refuse e (ok a) = ok a
or_refuse e (err message) = err e

abbrev version_of : Value → Number
version_of (num n) = n
version_of _ = pos 0

abbrev policy_keys : List String
policy_keys =
    "schemaVersion" ∷ "tenantId" ∷ "policyId" ∷ "templateId" ∷ "requiredApprovals"
    ∷ "authorizedReviewerIds" ∷ []

abbrev request_keys : List String
request_keys =
    "sessionId" ∷ "issuerId" ∷ "templateId" ∷ "templateVersion" ∷ "format" ∷ "reviewerPolicyId"
    ∷ "claims" ∷ "subjectBinding" ∷ "evidence" ∷ "expiresAt" ∷ []

abbrev version_read : Value → Read Number
version_read (num n) =
    if is_safe_integer n then ok n else err (failure 400 "INVALID_TEMPLATE_VERSION")
version_read _ = err (failure 400 "INVALID_TEMPLATE_VERSION")

-- A safe integer after `now`.
abbrev expiry_read : ℕ → Number → Read ℕ
expiry_read now (pos n) =
    if leb n max_safe && ltb now n then ok n else err (failure 400 "INVALID_EXPIRY")
expiry_read now _ = err (failure 400 "INVALID_EXPIRY")

abbrev optional_id : Value → String → Read (Option String)
optional_id undefined name = ok none
optional_id (str s) name = if is_ok (id (str s) name) then ok (some s) else err (invalid name)
optional_id _ name = err (invalid name)

-- The credential that a new one replaces is of the same template and issuer.
unfoldable pub check_replaced : String → String → String → Option String → Service → Read (Unit {0})
check_replaced tenant template_id issuer_id none sv = ok tt
check_replaced tenant template_id issuer_id (some credential_id) sv =
    elim (lookup (key tenant credential_id) sv.credentials) [
      | none ↦ err (failure 404 "CREDENTIAL_NOT_FOUND")
      | some previous ↦
          if str_eq previous.template_id template_id && str_eq previous.issuer_id issuer_id
          then ok tt
          else err (failure 409 "REISSUE_TEMPLATE_MISMATCH")
    ]

module _ {N : Type 0} where
  unfoldable pub require_scope : Actor → String → Run N (Unit {0})
  require_scope actor scope = do
    give (id (str (actor.tenant_id)) "TENANT")
    give (id (str (actor.principal_id)) "PRINCIPAL")
    need (includes scope actor.scopes) (failure 403 "SCOPE_REQUIRED")

  unfoldable pub same_tenant : String → String → Run N (Unit {0})
  same_tenant left right = do
    mine ← give (id (str left) "TENANT")
    other ← give (id (str right) "TENANT")
    need (str_eq mine other) (failure 403 "TENANT_MISMATCH")

  unfoldable pub register_template : Actor → Value → Run N (Map Value)
  register_template actor value = do
    require_scope actor "templates:write"
    template ← give (or_refuse (failure 400 "INVALID_TEMPLATE") (parse_template value))
    give (
        or_refuse (failure 400 "INVALID_TEMPLATE")
          (assert_same_tenant (str (actor.tenant_id)) (member "tenantId" template)))
    need (is_text "published" (member "status" template)) (failure 409 "TEMPLATE_NOT_PUBLISHED")
    let storage_key : String =
        key (text_at "tenantId" template)
          (version_key (text_at "templateId" template) (version_of (member "version" template)))
    taken ← read (λ sv. ok (has storage_key sv.templates))
    need (not taken) (failure 409 "TEMPLATE_EXISTS")
    change (λ sv. record sv { templates = insert storage_key template sv.templates })
    done template

  unfoldable pub register_issuer : Ports N → Actor → Value → Run N (Map Value)
  register_issuer ports actor value = do
    require_scope actor "issuers:write"
    profile ←
        give (or_refuse (failure 400 "INVALID_ISSUER") (parse_issuer_profile ports.parse_url value))
    give (
        or_refuse (failure 400 "INVALID_ISSUER")
          (assert_same_tenant (str (actor.tenant_id)) (member "tenantId" profile)))
    need (is_key_ref (text_at "keyRef" profile)) (failure 400 "INVALID_ISSUER")
    change (λ sv. record sv {
      issuers =
          insert (key (text_at "tenantId" profile) (text_at "issuerId" profile)) profile sv.issuers;
    })
    done profile

  unfoldable pub register_reviewer_policy : Actor → Value → Run N ReviewerPolicy
  register_reviewer_policy actor value = do
    require_scope actor "reviewer-policies:write"
    input ← give (strict_record value policy_keys policy_keys)
    need (is_one (member "schemaVersion" input)) (invalid "REVIEWER_POLICY")
    tenant_id ← give (id (member "tenantId" input) "TENANT")
    same_tenant actor.tenant_id tenant_id
    policy ← give (parse_policy tenant_id input)
    change
        (λ sv. record sv { policies = insert (key tenant_id policy.policy_id) policy sv.policies })
    done policy

  unfoldable pub create_issuance_request : Ports N → Actor → Value → Run N IssuanceSession
  create_issuance_request ports actor value = do
    require_scope actor "issuance:write"
    input ← give (strict_record value ("replacesCredentialId" ∷ request_keys) request_keys)
    session_id ← give (id (member "sessionId" input) "SESSION")
    issuer_id ← give (id (member "issuerId" input) "ISSUER")
    template_id ← give (id (member "templateId" input) "TEMPLATE")
    policy_id ← give (id (member "reviewerPolicyId" input) "POLICY")
    version ← give (version_read (member "templateVersion" input))
    need (text_among credential_formats (text_of (member "format" input)))
        (failure 400 "UNSUPPORTED_FORMAT")
    now ← call ports.clock
    expires_at ← give (expiry_read now (ports.to_number (member "expiresAt" input)))
    template ← read (get_template actor.tenant_id template_id version)
    issuer ← read (get_issuer actor.tenant_id issuer_id)
    policy ← read (get_policy actor.tenant_id policy_id)
    let format : String = text_or_empty (member "format" input)
    need
        (lists "authorizedTemplateIds" template_id issuer
          && str_eq policy.template_id template_id
          && lists "formats" format template
          && is_some (ports.format_port format))
        (failure 403 "ISSUANCE_NOT_AUTHORIZED")
    claims ← give (parse_claims ports.is_finite (member "claims" input) template)
    binding ← give (parse_subject_binding (member "subjectBinding" input))
    evidence ← give (parse_evidence (member "evidence" input))
    replaces ← give (optional_id (member "replacesCredentialId" input) "CREDENTIAL")
    read (check_replaced actor.tenant_id template_id issuer_id replaces)
    let storage_key : String = key actor.tenant_id session_id
    taken ← read (λ sv. ok (has storage_key sv.sessions))
    need (not taken) (failure 409 "SESSION_EXISTS")
    let session : IssuanceSession = record {
      tenant_id = actor.tenant_id;
      session_id = session_id;
      issuer_id = issuer_id;
      template_id = template_id;
      template_version = version;
      format = format;
      reviewer_policy_id = policy_id;
      state = pending_review;
      evidence = evidence;
      reviews = [];
      expires_at = expires_at;
      replaces_credential_id = replaces;
      claims = claims;
      subject_binding = binding;
    }
    change (λ sv. record sv { sessions = insert storage_key session sv.sessions })
    done session
