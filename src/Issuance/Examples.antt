-- ===== src/Issuance/Examples.antt =====
-- Tests of packages/issuer-service/src/index.ts at concrete data, and the theorems applied to it.
use Prim.Native.String.{◌++◌ as join}
use universal_smart_wallet.Prelude.{
  ℕ, suc, ◌≡◌, refl, String, true, false, List, [], ◌∷◌, none, some, lookup, has, insert, units,
  text_length, decimal, includes, distinct, matches_opaque, map_result, is_ok,
}
use universal_smart_wallet.Value.{
  Value, bool, num, str, arr, obj, nil, cons, end, field, pos, member,
}
use universal_smart_wallet.Registry.Snapshots.{nul_joined}
use universal_smart_wallet.Policy.Texts.{is_safe_integer, is_less, is_same}
use universal_smart_wallet.IssuerSigner.{es256, active}
use universal_smart_wallet.IssuerSigner.Texts.{is_key_ref, is_digest}
use universal_smart_wallet.IssuerSigner.Approvals.{set_size}
use universal_smart_wallet.Domain.Templates.{
  has_phone, is_pii_like, is_opaque_id, assert_opaque_id, first_unknown, assert_strict_record,
  text_of, check_claim, check_claims, check_formats, check_template, is_template_status,
  parse_template, assert_same_tenant, assert_https, parse_issuer_profile,
}
use universal_smart_wallet.Issuance.{Actor, AccessToken, IssueAnswer, Service, Ports}
use universal_smart_wallet.Issuance.Run.{exec}
use universal_smart_wallet.Issuance.Parse.{
  id, bounded_text, strict_record, text_at, lists, claim_fits, parse_claims, parse_subject_binding,
  parse_reference, parse_references, parse_evidence, https_url, parse_policy,
}
use universal_smart_wallet.Issuance.Setup.{
  get_template, get_issuer, get_policy, require_scope, same_tenant, register_template,
  register_issuer, register_reviewer_policy, check_replaced, create_issuance_request,
}
use universal_smart_wallet.Issuance.Tokens.{
  is_token, token_within, consume_grant, consume_access_token,
}
use universal_smart_wallet.Issuance.Review.{
  format_pin, reviewed_state, approvers, is_authorized, mutable_session, ensure_session_live,
  review_issuance, assert_issuance_authorization,
}
use universal_smart_wallet.Issuance.Offers.{create_offer, authorize, exchange_token}
use universal_smart_wallet.Issuance.Issue.{
  slice, configuration_id, answers_order, read_request, prepare, settle, issue_for,
  issue_credential, change_status, suspend_credential, revoke_credential, get_session,
  get_credential,
}
use universal_smart_wallet.Issuance.Evolution.{Evolves}
use universal_smart_wallet.Issuance.Evolution.Histories.{
  Call, registers_template, registers_issuer, registers_policy, requests, reviews, offers,
  exchanges, perform, history, history-Evolves,
}
use universal_smart_wallet.Issuance.Authorized.{Authorized, issue_credential-Authorized}
use universal_smart_wallet.Issuance.Once.{issued_once}

-- A proof that names `issuance_code` runs the code on closed terms.
issuance_code : Unit {0}
unfolding lookup has insert units text_length decimal includes distinct matches_opaque map_result
    member nul_joined is_safe_integer is_less is_same is_key_ref is_digest set_size has_phone
    is_pii_like is_opaque_id assert_opaque_id first_unknown assert_strict_record text_of check_claim
    check_claims check_formats check_template is_template_status parse_template assert_same_tenant
    assert_https parse_issuer_profile exec id bounded_text strict_record text_at lists claim_fits
    parse_claims parse_subject_binding parse_reference parse_references parse_evidence https_url
    parse_policy get_template get_issuer get_policy require_scope same_tenant register_template
    register_issuer register_reviewer_policy check_replaced create_issuance_request is_token
    token_within consume_grant consume_access_token format_pin reviewed_state approvers
    is_authorized mutable_session ensure_session_live review_issuance assert_issuance_authorization
    create_offer authorize exchange_token slice configuration_id answers_order read_request prepare
    settle issue_for issue_credential change_status suspend_credential revoke_credential get_session
    get_credential perform history
issuance_code = tt

-- The ports count the tokens that were drawn; the clock stands still, and a hash is its text.
abbrev ports : Ports ℕ
ports = record {
  clock = λ n. (1000, n);
  token = λ n. (join "abcdefghijklmnop" (decimal n), suc n);
  sha256 = λ s. s;
  parse_url = λ s. some (record {
    protocol = "https:";
    hostname = "issuer.example";
    username = "";
    password = "";
    href = s;
  });
  to_number = λ v. elim v [ num m ↦ m | _ ↦ pos 0 ];
  is_finite = λ m. true;
  jurisdiction = "EU";
  describe_key = λ k n.
      (some (some (record { key_ref = k; algorithm = es256; status = active; version = "1" })), n);
  is_trusted = λ q n. (some true, n);
  verify_proof = λ q n. (some true, n);
  format_port = λ f. some (λ order n. (
    IssueAnswer.issued (record {
      format = "sd-jwt-vc";
      profile = "draft-ietf-oauth-sd-jwt-vc-16";
      version = "16";
      media_type = "dc+sd-jwt";
      is_credential = true;
      serialized = "token";
      request_id = order.request_id;
      key_ref = order.key_ref;
      algorithm = order.algorithm;
    }),
    n,
  ));
  publish = λ u n. (true, n);
}

abbrev empty : Service
empty = record {
  templates = [];
  issuers = [];
  policies = [];
  sessions = [];
  credentials = [];
  grants = [];
  access_tokens = [];
}

abbrev alice : Actor
alice = record {
  tenant_id = "tenant-1";
  principal_id = "alice";
  scopes =
      "templates:write" ∷ "issuers:write" ∷ "reviewer-policies:write" ∷ "issuance:write"
      ∷ "issuance:review" ∷ "offers:write" ∷ [];
}

abbrev setup : List Call
setup =
    registers_template alice (
      obj (
        field "schemaVersion" (num (pos 1)) (
          field "tenantId" (str "tenant-1") (
            field "templateId" (str "template-1") (
              field "version" (num (pos 1)) (
                field "type" (str "Diploma") (
                  field "assurance" (str "institutional") (
                    field "formats" (arr (cons (str "sd-jwt-vc") nil)) (
                      field "claims"
                        (arr (
                          cons
                            (obj (
                              field "name" (str "degree") (
                                field "type" (str "string") (
                                  field "required" (bool true)
                                    (field "selectivelyDisclosable" (bool true) end)))))
                            nil))
                        (field "status" (str "published") end))))))))))
    ∷ registers_issuer alice (
        obj (
          field "schemaVersion" (num (pos 1)) (
            field "tenantId" (str "tenant-1") (
              field "issuerId" (str "issuer-1") (
                field "issuerUri" (str "https://issuer.example") (
                  field "assurance" (str "institutional") (
                    field "keyRef" (str "kms:key-1")
                      (field "authorizedTemplateIds" (arr (cons (str "template-1") nil)) end))))))))
    ∷ registers_policy alice (
        obj (
          field "schemaVersion" (num (pos 1)) (
            field "tenantId" (str "tenant-1") (
              field "policyId" (str "policy-1") (
                field "templateId" (str "template-1") (
                  field "requiredApprovals" (num (pos 1))
                    (field "authorizedReviewerIds" (arr (cons (str "alice") nil)) end)))))))
    ∷ requests alice (
        obj (
          field "sessionId" (str "s1") (
            field "issuerId" (str "issuer-1") (
              field "templateId" (str "template-1") (
                field "templateVersion" (num (pos 1)) (
                  field "format" (str "sd-jwt-vc") (
                    field "reviewerPolicyId" (str "policy-1") (
                      field "claims" (obj (field "degree" (str "MSc") end)) (
                        field "subjectBinding"
                          (obj (
                            field "schemaVersion" (num (pos 1)) (
                              field "bindingId" (str "b1")
                                (field "method" (str "did-pkh") (field "value" (str "v") end)))))
                          (field "evidence"
                            (arr (
                              cons
                                (obj (
                                  field "evidenceId" (str "e1") (
                                    field "kind" (str "diploma") (
                                      field "digest"
                                        (str
                                          "sha256:0a0a0a0a0a0a0a0a0a0a0a0a0a0a0a0a0a0a0a0a0a0a0a0a0a0a0a0a0a0a0a0a")
                                        (field "source" (str "registry") end)))))
                                nil))
                            (field "expiresAt" (num (pos 900000)) end)))))))))))
    ∷ reviews alice "s1" (obj (field "decision" (str "approved") end))
    ∷ offers alice "s1" (obj (field "flow" (str "pre-authorized_code") end))
    ∷ exchanges "tenant-1" (
        obj (
          field "grant_type" (str "urn:ietf:params:oauth:grant-type:pre-authorized_code")
            (field "pre-authorized_code" (str "abcdefghijklmnop0") end)))
    ∷ []

history-Evolves_example : Evolves empty (history ports setup empty 0).0
history-Evolves_example = history-Evolves ports setup empty 0

abbrev ready : Service
ready = (history ports setup empty 0).0

abbrev request : Value
request =
    (obj (
      field "credential_configuration_id" (str "template-1.v1.sd-jwt-vc")
        (field "proof" (obj (field "proof_type" (str "jwt") (field "jwt" (str "x.y.z") end))) end)))

abbrev secret : String
secret = "abcdefghijklmnop1"

issues_one : is_ok (exec (issue_credential ports "tenant-1" secret request) ready 2).0 ≡ true
unfolding issuance_code
issues_one = refl

issue_credential-Authorized_example : Authorized ports "tenant-1" secret ready
issue_credential-Authorized_example =
    issue_credential-Authorized ports "tenant-1" secret request ready 2 issues_one

abbrev token : AccessToken
token = record {
  tenant_id = "tenant-1";
  session_id = "s1";
  token_hash = "abcdefghijklmnop1";
  expires_at = 61000;
  consumed_at = none;
}

token_held : lookup secret ready.access_tokens ≡ some token
unfolding issuance_code
token_held = refl

abbrev used : AccessToken
used = record token { consumed_at = some 1000 }

used_held :
    lookup secret
      (history ports []
        (exec (issue_credential ports "tenant-1" secret request) ready 2).1
        (exec (issue_credential ports "tenant-1" secret request) ready 2).2).0.access_tokens
    ≡ some used
unfolding issuance_code
used_held = refl

issued_once_example :
    is_ok
      (exec
        (issue_credential ports "tenant-1" secret request)
        (history ports []
          (exec (issue_credential ports "tenant-1" secret request) ready 2).1
          (exec (issue_credential ports "tenant-1" secret request) ready 2).2).0
        9).0
    ≡ false
issued_once_example =
    issued_once ports "tenant-1" secret secret request request ready 2 9 [] token used token_held
      issues_one used_held refl
