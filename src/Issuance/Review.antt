-- ===== src/Issuance/Review.antt =====
-- Review of packages/issuer-service/src/index.ts: `reviewIssuance`, the checks of a session that every
-- operation on it begins with, and `assertIssuanceAuthorization`.
use universal_smart_wallet.Prelude.{
  String, Bool, true, false, not, ◌&&◌, List, [], ◌∷◌, ◌++◌, map, Option, none, some, ltb, leb,
  str_eq, if◌then◌else◌, any, length, includes, Map, lookup, insert, ok, err, or_throw,
}
use universal_smart_wallet.Value.{Value, str, member}
use universal_smart_wallet.IssuerSigner.{Algorithm, es256, eddsa, KeyStatus, KeyDescriptor}
use universal_smart_wallet.IssuerSigner.Texts.{is_key_ref}
use universal_smart_wallet.IssuerSigner.Approvals.{set_size}
use universal_smart_wallet.Domain.Templates.{is_text}
use universal_smart_wallet.Issuance.{
  failure, thrown, Actor, ReviewerPolicy, ReviewChoice, ReviewDecision, IssuanceState,
  IssuanceSession, Service, TrustQuery, Ports,
}
use universal_smart_wallet.Issuance.Run.{
  Run, ◌>>=◌, ◌>>◌, done, give, read, call, attempt, change, need,
}
use universal_smart_wallet.Issuance.Parse.{Read, id, strict_record, text_at, lists}
use universal_smart_wallet.Issuance.Setup.{
  key, version_key, get_template, get_issuer, get_policy, require_scope,
}

-- `CREDENTIAL_FORMAT_PINS[format]` of packages/credential-formats, as far as the service reads it.
pub record FormatPin : Type 0 where
  pub profile : String
  pub version : String
  pub algorithms : List String

unfoldable pub format_pin : String → FormatPin
format_pin format =
    if str_eq format "sd-jwt-vc"
    then record {
      profile = "draft-ietf-oauth-sd-jwt-vc-16";
      version = "16";
      algorithms = "ES256" ∷ "EdDSA" ∷ [];
    }
    else if str_eq format "iso-mdoc"
    then record { profile = "iso-iec-18013-5"; version = "2021"; algorithms = "ES256" ∷ [] }
    else if str_eq format "w3c-vc-di"
    then record {
      profile = "w3c-vc-data-model-2.0-data-integrity-1.0";
      version = "2.0";
      algorithms = "ecdsa-rdfc-2019" ∷ "eddsa-rdfc-2022" ∷ [];
    }
    else record {
      profile = "w3c-vc-data-model-1.1-jwt";
      version = "1.1";
      algorithms = "ES256" ∷ "EdDSA" ∷ [];
    }

abbrev pub algorithm_text : Algorithm → String
algorithm_text es256 = "ES256"
algorithm_text eddsa = "EdDSA"

abbrev pub is_state : IssuanceState → IssuanceState → Bool
is_state IssuanceState.pending_review IssuanceState.pending_review = true
is_state IssuanceState.approved IssuanceState.approved = true
is_state IssuanceState.offered IssuanceState.offered = true
is_state IssuanceState.issued IssuanceState.issued = true
is_state IssuanceState.rejected IssuanceState.rejected = true
is_state IssuanceState.expired IssuanceState.expired = true
is_state IssuanceState.signing_ambiguous IssuanceState.signing_ambiguous = true
is_state _ _ = false

abbrev pub is_approved : ReviewDecision → Bool
is_approved r = elim (r.decision) [ ReviewChoice.approved ↦ true | ReviewChoice.rejected ↦ false ]

abbrev pub is_active : KeyStatus → Bool
is_active KeyStatus.active = true
is_active _ = false

abbrev pub keep_if {ℓ} : {A : Type ℓ} → (A → Bool) → List A → List A
keep_if p [] = []
keep_if p (x ∷ xs) = let rest = keep_if p xs in if p x then x ∷ rest else rest

-- Where a session stands in the map.
abbrev pub session_key : IssuanceSession → String
session_key s = key s.tenant_id s.session_id

abbrev pub store_session : String → IssuanceSession → Service → Service
store_session at s sv = record sv { sessions = insert at s sv.sessions }

abbrev pub find_session : String → Service → Read IssuanceSession
find_session at sv = or_throw (failure 404 "SESSION_NOT_FOUND") (lookup at sv.sessions)

abbrev choice_of : Value → Read ReviewChoice
choice_of (str s) =
    if str_eq s "approved"
    then ok ReviewChoice.approved
    else if str_eq s "rejected"
    then ok ReviewChoice.rejected
    else err (failure 400 "INVALID_REVIEW_DECISION")
choice_of _ = err (failure 400 "INVALID_REVIEW_DECISION")

-- The state after one more review.
unfoldable pub reviewed_state : ReviewerPolicy → ReviewChoice → List ReviewDecision → IssuanceState
reviewed_state policy ReviewChoice.rejected reviews = IssuanceState.rejected
reviewed_state policy ReviewChoice.approved reviews =
    if leb policy.required_approvals (length (keep_if is_approved reviews))
    then IssuanceState.approved
    else IssuanceState.pending_review

-- The distinct reviewers who approved and are still authorized.
unfoldable pub approvers : ReviewerPolicy → IssuanceSession → List String
approvers policy s =
    map (λ r. r.reviewer_id)
      (keep_if (λ r. is_approved r && includes r.reviewer_id policy.authorized_reviewer_ids)
        s.reviews)

pub record Authorization : Type 0 where
  pub template : Map Value
  pub issuer : Map Value
  pub descriptor : KeyDescriptor

-- The test before the signer and the registry are asked.
unfoldable pub is_authorized : Map Value → Map Value → ReviewerPolicy → IssuanceSession → Bool
is_authorized template issuer policy s =
    is_text "published" (member "status" template)
    && lists "formats" s.format template
    && lists "authorizedTemplateIds" s.template_id issuer
    && str_eq policy.template_id s.template_id
    && leb policy.required_approvals (set_size (approvers policy s))

abbrev pub active_key : Option KeyDescriptor → Read KeyDescriptor
active_key none = err (failure 403 "KEY_NOT_AUTHORIZED")
active_key (some d) = if is_active d.status then ok d else err (failure 403 "KEY_NOT_AUTHORIZED")

module _ {N : Type 0} (ports : Ports N) where
  unfoldable pub mutable_session : String → String → Run N IssuanceSession
  mutable_session tenant session_id = do
    valid ← give (id (str session_id) "SESSION")
    read (find_session (key tenant valid))

  -- A session that is over is marked so, whatever its state was.
  unfoldable pub ensure_session_live : String → IssuanceSession → Run N (Unit {0})
  ensure_session_live at s = do
    now ← call ports.clock
    if ltb now s.expires_at then done tt else do
      change (store_session at (record s { state = IssuanceState.expired }))
      give (err (failure 410 "SESSION_EXPIRED"))

  -- The new review is appended, and the state follows it.
  unfoldable pub review_issuance : Actor → String → Value → Run N IssuanceSession
  review_issuance actor session_id value = do
    require_scope actor "issuance:review"
    input ← give (strict_record value ("decision" ∷ []) ("decision" ∷ []))
    decision ← give (choice_of (member "decision" input))
    s ← mutable_session actor.tenant_id session_id
    ensure_session_live (key actor.tenant_id session_id) s
    need (is_state s.state IssuanceState.pending_review) (failure 409 "SESSION_NOT_REVIEWABLE")
    policy ← read (get_policy actor.tenant_id s.reviewer_policy_id)
    need (includes actor.principal_id policy.authorized_reviewer_ids)
        (failure 403 "REVIEWER_NOT_AUTHORIZED")
    need (not (any (λ r. str_eq r.reviewer_id actor.principal_id) s.reviews))
        (failure 409 "REVIEW_ALREADY_RECORDED")
    now ← call ports.clock
    let review : ReviewDecision = record {
      reviewer_id = actor.principal_id;
      decision = decision;
      reviewed_at = now;
    }
    let reviews : List ReviewDecision = s.reviews ++ (review ∷ [])
    let next : IssuanceSession = record s {
      reviews = reviews;
      state = reviewed_state policy decision reviews;
    }
    change (store_session (key actor.tenant_id session_id) next)
    done next

  unfoldable pub assert_issuance_authorization : IssuanceSession → Run N Authorization
  assert_issuance_authorization s = do
    template ← read (get_template s.tenant_id s.template_id s.template_version)
    issuer ← read (get_issuer s.tenant_id s.issuer_id)
    policy ← read (get_policy s.tenant_id s.reviewer_policy_id)
    need (is_authorized template issuer policy s) (failure 403 "ISSUANCE_NOT_AUTHORIZED")
    need (is_key_ref (text_at "keyRef" issuer)) thrown
    answer ← attempt (ports.describe_key (text_at "keyRef" issuer))
    descriptor ← give (active_key answer)
    let pin : FormatPin = format_pin s.format
    need (includes (algorithm_text descriptor.algorithm) pin.algorithms)
        (failure 403 "KEY_NOT_AUTHORIZED")
    now ← call ports.clock
    let query : TrustQuery = record {
      tenant_id = s.tenant_id;
      jurisdiction = ports.jurisdiction;
      issuer_id = s.issuer_id;
      schema_id = version_key s.template_id s.template_version;
      key_id = text_at "keyRef" issuer;
      issued_at = now;
    }
    trusted ← attempt (ports.is_trusted query)
    need trusted (failure 403 "TRUST_NOT_AUTHORIZED")
    done (record { template = template; issuer = issuer; descriptor = descriptor })
