-- ===== src/Issuance/Evolution/Histories.antt =====
-- Exchanges, issuances and changes of status of packages/issuer-service/src/index.ts let the service
-- evolve too, and so does every history of calls.
use universal_smart_wallet.Prelude.{
  ◌≡◌, refl, inl, inr, String, List, [], ◌∷◌, some, Map, lookup, arith, Bool-cases, &&-eq-true,
}
use universal_smart_wallet.Value.{Value}
use universal_smart_wallet.Domain.Trust.{CredentialStatus, suspended, revoked}
use universal_smart_wallet.Issuance.{
  Actor, IssuanceState, IssuanceSession, Issued, IssueOrder, IssueAnswer, Grant, authorization_code,
  Service, Ports,
}
use universal_smart_wallet.Issuance.Run.{Run, ◌>>=◌, Outcome, exec}
use universal_smart_wallet.Issuance.Rules.{
  Holds, on_done, on_give, on_read, on_call, on_attempt, on_need, on_change, on_assoc,
}
use universal_smart_wallet.Issuance.Setup.{
  key, register_template, register_issuer, register_reviewer_policy, create_issuance_request,
}
use universal_smart_wallet.Issuance.Tokens.{unique_token, consume_grant}
use universal_smart_wallet.Issuance.Review.{review_issuance, store_session}
use universal_smart_wallet.Issuance.Offers.{
  TokenGrant, by_offer, by_code, grant_by, create_offer, authorize, exchange_token,
}
use universal_smart_wallet.Issuance.Issue.{
  IssueRequest, read_request, answers_order, accept, prepare, settle, issue_for, issue_credential,
  same_status, change_status, suspend_credential, revoke_credential,
}
use universal_smart_wallet.Issuance.Evolution.{
  issues, doubts, Evolves, Evolves-other, Evolves-refl, Evolves-trans,
}
use universal_smart_wallet.Issuance.Evolution.Parts.{
  Grows, on_token, on_live, on_grant, on_access_token, on_session, token_added,
}
use universal_smart_wallet.Issuance.Evolution.Calls.{
  on_scope, same, offered-eq, Step-from, moved, session_moved, session_expired, grant_used,
  token_used, assert_issuance_authorization-Holds, register_template-Grows, register_issuer-Grows,
  register_reviewer_policy-Grows, review_issuance-Grows, create_issuance_request-Grows,
  create_offer-Grows, authorize-Grows,
}

module _ {N : Type 0} (ports : Ports N) (sv : Service) where
  exchanged :
      {A : Type 0} (by : TokenGrant) (tenant : String) (input : Map Value) (rest : Grant → Run N A)
      → ((g : Grant) (at : Service) → Evolves sv at → Holds (Grows sv) at (rest g))
      → Holds (Grows sv) sv (grant_by ports by tenant input >>= rest)
  exchanged by_offer tenant input rest h =
      on_give (λ e n. same)
        (λ code e0.
          on_need (λ e n. same)
            (λ absent.
              on_grant ports code tenant _ rest (λ e n. same)
                (λ g now found.
                  let spent = grant_used ports sv g (ports.sha256 code) now found in
                  (λ e n. spent, h _ _ spent))))
  exchanged by_code tenant input rest h =
      on_give (λ e n. same)
        (λ code e0.
          on_give (λ e n. same)
            (λ c e1.
              on_give (λ e n. same)
                (λ u e2. on_assoc _ rest (consume_grant ports code tenant authorization_code) (
                  on_grant ports code tenant authorization_code _ (λ e n. same)
                    (λ g now found.
                      let spent = grant_used ports sv g (ports.sha256 code) now found in
                      (λ e n. spent, on_need (λ e n. spent) (λ for. h _ _ spent)))))))

  exchange_token-Grows :
      (tenant : String) (value : Value) → Holds (Grows sv) sv (exchange_token ports tenant value)
  unfolding exchange_token
  exchange_token-Grows tenant value =
      on_give (λ e n. same)
        (λ i e0.
          on_give (λ e n. same)
            (λ by e1. exchanged by tenant i _ (λ g at grown.
              on_token ports _ (λ e n. grown)
                (λ secret other fresh. on_call (λ now. on_change (
                  let added = token_added sv at grown (ports.sha256 secret) _ fresh in
                  on_call (λ later. on_done (λ n. added))))))))

  -- What follows the reading of an offered session.
  module _ (at : Service) (grown : Evolves sv at) (k : String) (s : IssuanceSession)
      (found : lookup k at.sessions ≡ some s) (offered : s.state ≡ IssuanceState.offered) where
    in_doubt :
        Evolves sv (store_session k (record s { state = IssuanceState.signing_ambiguous }) at)
    in_doubt = session_moved sv at grown k s _ found (moved s _ (Step-from offered doubts))

    accept-Grows :
        {A : Type 0} (order : IssueOrder) (answer : IssueAnswer) (rest : Issued → Run N A)
        → ((i : Issued) → Holds (Grows sv) at (rest i))
        → Holds (Grows sv) at (accept ports k s order answer >>= rest)
    accept-Grows order IssueAnswer.ambiguous rest h =
        on_change (on_give (λ e n. in_doubt) (λ x e. absurd (ground arith)))
    accept-Grows order IssueAnswer.rejected rest h =
        on_give (λ e n. grown) (λ x e. absurd (ground arith))
    accept-Grows order (IssueAnswer.issued i) rest h =
        elim (Bool-cases (answers_order order s.format i)) [
          | inl fits ↦ rw fits (h i)
          | inr other ↦
              rw other (on_change (on_give (λ e n. in_doubt) (λ x e. absurd (ground arith))))
        ]

    settle-Grows :
        (tenant : String) (order : IssueOrder) (id : String) (i : Issued)
        → Holds (Grows sv) at (settle ports tenant k s order id i)
    unfolding settle
    settle-Grows tenant order id i =
        let stored = Evolves-trans grown (Evolves-other at _ refl refl refl) in
        on_change (
          on_call (λ published.
            on_need (λ e n. stored)
              (λ p. on_change (
                on_done (λ n. session_moved sv _ stored k s _ found (record {
                  tenant = refl;
                  session = refl;
                  expiry = refl;
                  state = Step-from offered issues;
                }))))))

  issue_for-Grows :
      (at : Service) (tenant k : String) (s : IssuanceSession) (request : IssueRequest)
      → Evolves sv at
      → lookup k at.sessions ≡ some s
      → Holds (Grows sv) at (issue_for ports tenant k s request)
  unfolding issue_for prepare
  issue_for-Grows at tenant k s request grown found =
      on_need (λ e n. grown)
        (λ fits.
          let offered = offered-eq s.state (&&-eq-true _ _ fits).0 in
          assert_issuance_authorization-Holds ports at s _ (λ e n. grown)
            (λ a.
              on_attempt (λ e n. grown)
                (λ proved.
                  on_need (λ e n. grown)
                    (λ p. on_call (λ now. on_assoc _ _ (unique_token ports) (
                      on_token ports _ (λ e n. grown)
                        (λ c f0 g0. on_assoc _ _ (unique_token ports) (
                          on_token ports _ (λ e n. grown)
                            (λ t f1 g1. on_assoc _ _ (unique_token ports) (
                              on_token ports _ (λ e n. grown)
                                (λ r f2 g2.
                                  on_give (λ e n. grown)
                                    (λ port e0. on_call (λ answer.
                                      accept-Grows at grown k s found offered _ answer _ (λ i.
                                        settle-Grows at grown k s found offered tenant _ _
                                          i))))))))))))))

  issue_credential-Grows :
      (tenant secret : String) (value : Value)
      → Holds (Grows sv) sv (issue_credential ports tenant secret value)
  unfolding issue_credential read_request
  issue_credential-Grows tenant secret value =
      on_give (λ e n. same)
        (λ i e0.
          on_give (λ e n. same)
            (λ w e1.
              on_give (λ e n. same)
                (λ p e2.
                  on_need (λ e n. same)
                    (λ jwt.
                      on_give (λ e n. same)
                        (λ b e3.
                          on_access_token ports secret tenant _ (λ e n. same)
                            (λ t now found unused.
                              let spent = token_used ports sv t (ports.sha256 secret) now found in
                              (
                                λ e n. spent,
                                on_session ports tenant t.session_id _ (λ e n. spent)
                                    (λ s there.
                                      on_live ports (key tenant t.session_id) s _
                                        (λ e n. session_expired sv _ spent _ s s there)
                                        (issue_for-Grows _ tenant _ s _ spent there)),
                              )))))))

  change_status-Grows :
      (actor : Actor) (id : String) (status : CredentialStatus)
      → Holds (Grows sv) sv (change_status ports actor id status)
  unfolding change_status
  change_status-Grows actor id status =
      on_scope actor _ _ (λ e n. same)
        (on_give (λ e n. same)
          (λ i e0.
            on_read (λ e n. same)
              (λ c e1.
                on_need (λ e n. same)
                  (λ final. elim (Bool-cases (same_status c.status status)) [
                    | inl already ↦ rw already (on_done (λ n. same))
                    | inr changed ↦ rw changed (
                        on_call (λ now. on_call (λ published.
                          on_need (λ e n. same)
                            (λ p. on_change (on_done (λ n. Evolves-other sv _ refl refl refl))))))
                  ]))))

-- A call that a client makes.
pub data Call : Type 0 where
  registers_template registers_issuer registers_policy requests : Actor → Value → Call
  reviews offers : Actor → String → Value → Call
  authorizes : Actor → String → Value → Call
  exchanges : String → Value → Call
  issues_credential : String → String → Value → Call
  suspends revokes : Actor → String → Call

abbrev left_of : {N A : Type 0} → Outcome N A → Service × N
left_of outcome = (outcome.1, outcome.2)

module _ {N : Type 0} (ports : Ports N) where
  unfoldable pub perform : Call → Service → N → Service × N
  perform (registers_template actor v) sv n = left_of (exec (register_template actor v) sv n)
  perform (registers_issuer actor v) sv n = left_of (exec (register_issuer ports actor v) sv n)
  perform (registers_policy actor v) sv n = left_of (exec (register_reviewer_policy actor v) sv n)
  perform (requests actor v) sv n = left_of (exec (create_issuance_request ports actor v) sv n)
  perform (reviews actor id v) sv n = left_of (exec (review_issuance ports actor id v) sv n)
  perform (offers actor id v) sv n = left_of (exec (create_offer ports actor id v) sv n)
  perform (authorizes actor tenant v) sv n = left_of (exec (authorize ports actor tenant v) sv n)
  perform (exchanges tenant v) sv n = left_of (exec (exchange_token ports tenant v) sv n)
  perform (issues_credential tenant secret v) sv n =
      left_of (exec (issue_credential ports tenant secret v) sv n)
  perform (suspends actor id) sv n = left_of (exec (suspend_credential ports actor id) sv n)
  perform (revokes actor id) sv n = left_of (exec (revoke_credential ports actor id) sv n)

  unfoldable pub history : List Call → Service → N → Service × N
  history [] sv n = (sv, n)
  history (call ∷ calls) sv n =
      let (after, after_n) = perform call sv n in history calls after after_n

  perform-Evolves : (call : Call) (sv : Service) (n : N) → Evolves sv (perform call sv n).0
  unfolding perform suspend_credential revoke_credential
  perform-Evolves (registers_template actor v) sv n =
      (register_template-Grows ports sv actor v).at n
  perform-Evolves (registers_issuer actor v) sv n = (register_issuer-Grows ports sv actor v).at n
  perform-Evolves (registers_policy actor v) sv n =
      (register_reviewer_policy-Grows ports sv actor v).at n
  perform-Evolves (requests actor v) sv n = (create_issuance_request-Grows ports sv actor v).at n
  perform-Evolves (reviews actor id v) sv n = (review_issuance-Grows ports sv actor id v).at n
  perform-Evolves (offers actor id v) sv n = (create_offer-Grows ports sv actor id v).at n
  perform-Evolves (authorizes actor t v) sv n = (authorize-Grows ports sv actor t v).at n
  perform-Evolves (exchanges t v) sv n = (exchange_token-Grows ports sv t v).at n
  perform-Evolves (issues_credential t k v) sv n = (issue_credential-Grows ports sv t k v).at n
  perform-Evolves (suspends actor id) sv n = (change_status-Grows ports sv actor id suspended).at n
  perform-Evolves (revokes actor id) sv n = (change_status-Grows ports sv actor id revoked).at n

  -- Whatever is called, no session, grant or access token is deleted or moved to another session,
  -- a session's tenant, identifier and expiry stay, its state moves only by the steps of the state
  -- machine, and what was consumed stays consumed.
  pub history-Evolves :
      (calls : List Call) (sv : Service) (n : N) → Evolves sv (history calls sv n).0
  unfolding history
  history-Evolves [] sv n = Evolves-refl sv
  history-Evolves (call ∷ calls) sv n =
      Evolves-trans (perform-Evolves call sv n)
        (history-Evolves calls (perform call sv n).0 (perform call sv n).1)
