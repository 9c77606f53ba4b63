-- ===== src/Issuance/Authorized.antt =====
-- What `issueCredential` of packages/issuer-service/src/index.ts has checked when it returns a
-- credential.
use universal_smart_wallet.Prelude.{
  ◌≤◌, ◌≡◌, String, true, &&-eq-true, none, some, Map, ok, lookup, is_ok, arith, eq_iff,
}
use universal_smart_wallet.Value.{Value, member}
use universal_smart_wallet.IssuerSigner.Approvals.{set_size}
use universal_smart_wallet.Domain.Templates.{is_text}
use universal_smart_wallet.Issuance.{
  IssuanceState, IssuanceSession, ReviewerPolicy, AccessToken, Service, Ports,
}
use universal_smart_wallet.Issuance.Run.{Run, ◌>>=◌, Outcome, exec}
use universal_smart_wallet.Issuance.Rules.{Holds, on_give, on_read, on_need}
use universal_smart_wallet.Issuance.Parse.{lists}
use universal_smart_wallet.Issuance.Setup.{key, get_template, get_issuer, get_policy}
use universal_smart_wallet.Issuance.Review.{
  Authorization, approvers, is_authorized, assert_issuance_authorization,
}
use universal_smart_wallet.Issuance.Issue.{read_request, issue_for, issue_credential}
use universal_smart_wallet.Issuance.Evolution.Parts.{
  on_live, on_access_token, on_session, token_spent,
}
use universal_smart_wallet.Issuance.Evolution.Calls.{offered-eq}

-- The session may be issued, by what the service holds.
pub record Approved (sv : Service) (s : IssuanceSession) : Type 0 where
  pub template : Map Value
  pub issuer : Map Value
  pub policy : ReviewerPolicy
  pub template_held : get_template s.tenant_id s.template_id s.template_version sv ≡ ok template
  pub issuer_held : get_issuer s.tenant_id s.issuer_id sv ≡ ok issuer
  pub policy_held : get_policy s.tenant_id s.reviewer_policy_id sv ≡ ok policy
  pub published : is_text "published" (member "status" template) ≡ true
  pub of_format : lists "formats" s.format template ≡ true
  pub by_issuer : lists "authorizedTemplateIds" s.template_id issuer ≡ true
  pub under_policy : policy.template_id ≡ s.template_id
  pub enough : policy.required_approvals ≤ set_size (approvers policy s)

is_authorized-Approved :
    (sv : Service) (s : IssuanceSession) (t i : Map Value) (p : ReviewerPolicy)
    → get_template s.tenant_id s.template_id s.template_version sv ≡ ok t
    → get_issuer s.tenant_id s.issuer_id sv ≡ ok i
    → get_policy s.tenant_id s.reviewer_policy_id sv ≡ ok p
    → is_authorized t i p s ≡ true
    → Approved sv s
unfolding is_authorized
is_authorized-Approved sv s t i p et ei ep h = record {
  template = t;
  issuer = i;
  policy = p;
  template_held = et;
  issuer_held = ei;
  policy_held = ep;
  published = ground arith;
  of_format = ground arith;
  by_issuer = ground arith;
  under_policy = ground (arith, eq_iff p.template_id s.template_id);
  enough = ground arith;
}

-- What stands behind a credential: an unused access token of an offered session that is approved.
pub record Authorized {N : Type 0} (ports : Ports N) (tenant secret : String) (sv : Service)
    : Type 0 where
  pub token : AccessToken
  pub token_held : lookup (ports.sha256 secret) sv.access_tokens ≡ some token
  pub unused : token.consumed_at ≡ none
  pub session : IssuanceSession
  pub session_held : lookup (key tenant token.session_id) sv.sessions ≡ some session
  pub offered : session.state ≡ IssuanceState.offered
  pub approved : Approved sv session

module _ {N : Type 0} (ports : Ports N) where
  -- If a value is returned, P.
  abbrev If : {A : Type 0} → Type 0 → Outcome N A → Type 0
  If P outcome = is_ok outcome.0 ≡ true → P

  on_authorization :
      {A : Type 0} {P : Type 0} (sv : Service) (s : IssuanceSession)
      (rest : Authorization → Run N A)
      → (Approved sv s → P)
      → Holds (If P) sv (assert_issuance_authorization ports s >>= rest)
  unfolding assert_issuance_authorization
  on_authorization {P = P} sv s rest h =
      on_read (λ e n h. absurd (ground arith))
        (λ t et.
          on_read (λ e n h. absurd (ground arith))
            (λ i ei.
              on_read (λ e n h. absurd (ground arith))
                (λ p ep.
                  on_need (λ e n h. absurd (ground arith))
                    (λ a. record {
                      at = λ n k. h (is_authorized-Approved sv s t i p et ei ep a);
                    }))))

  issue_credential-If :
      (tenant secret : String) (value : Value) (sv : Service)
      → Holds
          (If (Authorized ports tenant secret sv))
          sv
          (issue_credential ports tenant secret value)
  unfolding issue_credential read_request issue_for get_template get_issuer get_policy
  issue_credential-If tenant secret value sv =
      on_give (λ e n h. absurd (ground arith))
        (λ i e0.
          on_give (λ e n h. absurd (ground arith))
            (λ w e1.
              on_give (λ e n h. absurd (ground arith))
                (λ p e2.
                  on_need (λ e n h. absurd (ground arith))
                    (λ jwt.
                      on_give (λ e n h. absurd (ground arith))
                        (λ b e3.
                          on_access_token ports secret tenant _ (λ e n h. absurd (ground arith))
                            (λ t now found unused. (
                              λ e n h. absurd (ground arith),
                              on_session ports tenant t.session_id _
                                  (λ e n h. absurd (ground arith))
                                  (λ s there.
                                    on_live ports (key tenant t.session_id) s _
                                      (λ e n h. absurd (ground arith))
                                      (on_need (λ e n h. absurd (ground arith))
                                        (λ fits.
                                          on_authorization
                                            (token_spent (ports.sha256 secret) t now sv) s _
                                            (λ approved. record {
                                              token = t;
                                              token_held = found;
                                              unused = unused;
                                              session = s;
                                              session_held = there;
                                              offered = offered-eq s.state (&&-eq-true _ _ fits).0;
                                              approved = record {
                                                template = approved.template;
                                                issuer = approved.issuer;
                                                policy = approved.policy;
                                                template_held = approved.template_held;
                                                issuer_held = approved.issuer_held;
                                                policy_held = approved.policy_held;
                                                published = approved.published;
                                                of_format = approved.of_format;
                                                by_issuer = approved.by_issuer;
                                                under_policy = approved.under_policy;
                                                enough = approved.enough;
                                              };
                                            })))),
                            )))))))

  -- `issueCredential` returns a credential only for an unused access token of a session that is
  -- offered, whose template is published and of the format, whose issuer is authorized for the
  -- template, and that as many different, still authorized reviewers approved as its policy
  -- requires.
  pub issue_credential-Authorized :
      (tenant secret : String) (value : Value) (sv : Service) (n : N)
      → is_ok (exec (issue_credential ports tenant secret value) sv n).0 ≡ true
      → Authorized ports tenant secret sv
  issue_credential-Authorized tenant secret value sv n h =
      (issue_credential-If tenant secret value sv).at n h
