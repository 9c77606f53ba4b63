-- ===== src/Issuance/Issue.antt =====
-- Credentials of packages/issuer-service/src/index.ts: `issueCredential`, `changeStatus` with
-- `suspendCredential` and `revokeCredential`, `getSession` and `getCredential`.
use Prim.Native.String.{◌++◌ as join}
use universal_smart_wallet.Prelude.{
  ℕ, zero, suc, ◌+◌, ◌*◌, String, Bool, true, false, not, ◌&&◌, List, [], ◌∷◌, str_eq,
  if◌then◌else◌, insert, lookup, Result, err, or_throw,
}
use universal_smart_wallet.Value.{Value, str, member}
use universal_smart_wallet.Domain.Attestations.{number_text}
use universal_smart_wallet.Domain.Templates.{is_text}
use universal_smart_wallet.Domain.Trust.{CredentialStatus, valid, revoked, suspended}
use universal_smart_wallet.Issuance.{
  Failure, failure, thrown, Actor, IssuanceState, IssuanceSession, CredentialRecord, Service,
  ProofQuery, IssueOrder, Issued, IssueAnswer, StatusUpdate, Ports,
}
use universal_smart_wallet.Issuance.Run.{
  Run, ◌>>=◌, ◌>>◌, done, give, read, call, attempt, change, need,
}
use universal_smart_wallet.Issuance.Parse.{id, bounded_text, strict_record, text_at}
use universal_smart_wallet.Issuance.Setup.{key, require_scope}
use universal_smart_wallet.Issuance.Tokens.{unique_token, consume_access_token}
use universal_smart_wallet.Issuance.Review.{
  algorithm_text, format_pin, is_state, store_session, Authorization, mutable_session,
  ensure_session_live, assert_issuance_authorization,
}

-- `text.slice(0, n)`, of a text without surrogates.
unfoldable pub slice : ℕ → String → String
slice zero s = String.[]
slice (suc n) String.[] = String.[]
slice (suc n) (String.◌∷◌ c s) = String.◌∷◌ c (slice n s)

unfoldable pub configuration_id : IssuanceSession → String
configuration_id s =
    join s.template_id (join ".v" (join (number_text s.template_version) (join "." s.format)))

-- The format port's answer is of this request and of the pinned format.
unfoldable pub answers_order : IssueOrder → String → Issued → Bool
answers_order order format answer =
    str_eq answer.request_id order.request_id
    && str_eq answer.key_ref order.key_ref
    && str_eq (algorithm_text answer.algorithm) (algorithm_text order.algorithm)
    && str_eq answer.format format
    && str_eq answer.profile (format_pin format).profile
    && str_eq answer.version (format_pin format).version
    && answer.is_credential

pub record CredentialAnswer : Type 0 where
  pub format : String
  pub credential : String
  pub credential_id : String
  pub status_id : String

pub record IssueRequest : Type 0 where
  pub configuration_id : String
  pub proof : String

abbrev pub same_status : CredentialStatus → CredentialStatus → Bool
same_status valid valid = true
same_status suspended suspended = true
same_status revoked revoked = true
same_status _ _ = false

module _ {N : Type 0} where
  unfoldable pub read_request : Value → Run N IssueRequest
  read_request value = do
    let keys : List String = "credential_configuration_id" ∷ "proof" ∷ []
    input ← give (strict_record value keys keys)
    wanted ← give (id (member "credential_configuration_id" input) "CREDENTIAL_CONFIGURATION")
    let proof_keys : List String = "proof_type" ∷ "jwt" ∷ []
    proof_input ← give (strict_record (member "proof" input) proof_keys proof_keys)
    need (is_text "jwt" (member "proof_type" proof_input)) (failure 400 "UNSUPPORTED_PROOF_TYPE")
    proof ← give (bounded_text (member "jwt" proof_input) "PROOF" 8192)
    done (record { configuration_id = wanted; proof = proof })

module _ {N : Type 0} (ports : Ports N) where
  abbrev fail_ambiguous : {A : Type 0} → String → IssuanceSession → Run N A
  fail_ambiguous at s = do
    change (store_session at (record s { state = IssuanceState.signing_ambiguous }))
    give (err (failure 503 "SIGNING_RESULT_AMBIGUOUS"))

  -- What follows the format port's answer.
  abbrev pub accept : String → IssuanceSession → IssueOrder → IssueAnswer → Run N Issued
  accept at s order IssueAnswer.ambiguous = fail_ambiguous at s
  accept at s order IssueAnswer.rejected = give (err thrown)
  accept at s order (IssueAnswer.issued answer) =
      if answers_order order s.format answer then done answer else fail_ambiguous at s

  -- The order for the format port, with new identifiers.
  unfoldable pub prepare : IssuanceSession → Authorization → Run N (IssueOrder × String)
  prepare s authorization = do
    issued_at ← call ports.clock
    credential_token ← unique_token ports
    status_token ← unique_token ports
    request_token ← unique_token ports
    let order : IssueOrder = record {
      request_id = join "issue-" (join s.session_id (join "-" (slice 12 request_token)));
      tenant_id = s.tenant_id;
      template = authorization.template;
      issuer = authorization.issuer;
      claims = s.claims;
      subject_binding = s.subject_binding;
      status_id = join "status-" (slice 24 status_token);
      issued_at = issued_at;
      expires_at = issued_at + 24 * 60 * 60000;
      key_ref = text_at "keyRef" authorization.issuer;
      algorithm = authorization.descriptor.algorithm;
    }
    done (order, join "cred-" (slice 24 credential_token))

  -- The record is stored before its status is published; the session is issued after that.
  unfoldable pub settle :
      String → String → IssuanceSession → IssueOrder → String → Issued → Run N CredentialAnswer
  settle tenant at s order credential_id answer = do
    let stored : CredentialRecord = record {
      tenant_id = tenant;
      credential_id = credential_id;
      status_id = order.status_id;
      issuer_id = s.issuer_id;
      template_id = s.template_id;
      template_version = s.template_version;
      format = s.format;
      issued_at = order.issued_at;
      status = valid;
      replaces_credential_id = s.replaces_credential_id;
    }
    change
        (λ sv. record sv { credentials = insert (key tenant credential_id) stored sv.credentials })
    let update : StatusUpdate = record {
      tenant_id = tenant;
      issuer_id = s.issuer_id;
      status_id = order.status_id;
      status = valid;
      updated_at = order.issued_at;
    }
    published ← call (ports.publish update)
    need published thrown
    change (store_session at (record s { state = IssuanceState.issued; claims = [] }))
    done (record {
      format = answer.media_type;
      credential = answer.serialized;
      credential_id = credential_id;
      status_id = order.status_id;
    })

  unfoldable pub issue_for :
      String → String → IssuanceSession → IssueRequest → Run N CredentialAnswer
  issue_for tenant at s request = do
    need
        (is_state s.state IssuanceState.offered
          && str_eq request.configuration_id (configuration_id s))
        (failure 400 "INVALID_CREDENTIAL_REQUEST")
    authorization ← assert_issuance_authorization ports s
    let query : ProofQuery = record {
      tenant_id = tenant;
      issuer_uri = text_at "issuerUri" authorization.issuer;
      proof = request.proof;
      subject_binding = s.subject_binding;
    }
    proved ← attempt (ports.verify_proof query)
    need proved (failure 400 "INVALID_OR_MISSING_PROOF")
    prepared ← prepare s authorization
    port ← give (or_throw (failure 409 "FORMAT_UNAVAILABLE") (ports.format_port s.format))
    answer ← call (port prepared.0)
    accepted ← accept at s prepared.0 answer
    settle tenant at s prepared.0 prepared.1 accepted

  unfoldable pub issue_credential : String → String → Value → Run N CredentialAnswer
  issue_credential tenant access_token value = do
    request ← read_request value
    token ← consume_access_token ports access_token tenant
    s ← mutable_session ports tenant token.session_id
    ensure_session_live ports (key tenant token.session_id) s
    issue_for tenant (key tenant token.session_id) s request

  abbrev find_credential : String → Service → Result Failure CredentialRecord
  find_credential at sv = or_throw (failure 404 "CREDENTIAL_NOT_FOUND") (lookup at sv.credentials)

  -- `status` is suspended or revoked.
  unfoldable pub change_status : Actor → String → CredentialStatus → Run N CredentialRecord
  change_status actor credential_id status = do
    require_scope actor "credentials:status"
    valid_id ← give (id (str credential_id) "CREDENTIAL")
    let at : String = key actor.tenant_id valid_id
    current ← read (find_credential at)
    need (not (same_status current.status revoked && not (same_status status revoked)))
        (failure 409 "CREDENTIAL_REVOKED")
    if same_status current.status status then done current else do
      now ← call ports.clock
      let update : StatusUpdate = record {
        tenant_id = actor.tenant_id;
        issuer_id = current.issuer_id;
        status_id = current.status_id;
        status = status;
        updated_at = now;
      }
      published ← call (ports.publish update)
      need published thrown
      let updated : CredentialRecord = record current { status = status }
      change (λ sv. record sv { credentials = insert at updated sv.credentials })
      done updated

  unfoldable pub suspend_credential : Actor → String → Run N CredentialRecord
  suspend_credential actor credential_id = change_status actor credential_id suspended

  unfoldable pub revoke_credential : Actor → String → Run N CredentialRecord
  revoke_credential actor credential_id = change_status actor credential_id revoked

  unfoldable pub get_session : Actor → String → Run N IssuanceSession
  get_session actor session_id = do
    require_scope actor "issuance:read"
    mutable_session ports actor.tenant_id session_id

  unfoldable pub get_credential : Actor → String → Run N CredentialRecord
  get_credential actor credential_id = do
    require_scope actor "credentials:read"
    valid_id ← give (id (str credential_id) "CREDENTIAL")
    read (find_credential (key actor.tenant_id valid_id))
