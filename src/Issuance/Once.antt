-- ===== src/Issuance/Once.antt =====
-- A session of packages/issuer-service/src/index.ts issues at most one credential.
use universal_smart_wallet.Prelude.{
  ◌≡◌, refl, sym, ap, ◌∙◌, subst, ◌⊎◌, inl, inr, String, true, false, List, [], some, lookup,
  lookup-insert_self, is_ok, arith, Bool-cases,
}
use universal_smart_wallet.Value.{Value}
use universal_smart_wallet.Issuance.{
  IssuanceState, IssuanceSession, AccessToken, IssueOrder, IssueAnswer, Issued, Service, Ports,
}
use universal_smart_wallet.Issuance.Run.{Run, ◌>>=◌, Outcome, exec}
use universal_smart_wallet.Issuance.Rules.{
  Holds, on_done, on_give, on_call, on_attempt, on_need, on_change, on_assoc,
}
use universal_smart_wallet.Issuance.Setup.{key}
use universal_smart_wallet.Issuance.Tokens.{unique_token}
use universal_smart_wallet.Issuance.Issue.{
  IssueRequest, CredentialAnswer, answers_order, accept, prepare, settle, issue_for, read_request,
  issue_credential,
}
use universal_smart_wallet.Issuance.Evolution.{Step, Reaches, stays, steps}
use universal_smart_wallet.Issuance.Evolution.Parts.{
  on_token, on_live, on_access_token, on_session, token_spent,
}
use universal_smart_wallet.Issuance.Evolution.Calls.{assert_issuance_authorization-Holds}
use universal_smart_wallet.Issuance.Evolution.Histories.{Call, history, history-Evolves}
use universal_smart_wallet.Issuance.Authorized.{issue_credential-Authorized}

some_injective : {A : Type 0} {a b : A} → some a ≡ some b → a ≡ b
some_injective h = cc h

-- The session under a key is issued.
pub record IsIssued (k : String) (sv : Service) : Type 0 where
  pub session : IssuanceSession
  pub held : lookup k sv.sessions ≡ some session
  pub issued : session.state ≡ IssuanceState.issued

-- From issued, a session only expires.
abbrev Over : IssuanceState → Type 0
Over s = (s ≡ IssuanceState.issued) ⊎ (s ≡ IssuanceState.expired)

Step-Over : {a b : IssuanceState} → Step a b → Over a → Over b
Step-Over Step.approves (inl e) = absurd (ground arith)
Step-Over Step.approves (inr e) = absurd (ground arith)
Step-Over Step.rejects (inl e) = absurd (ground arith)
Step-Over Step.rejects (inr e) = absurd (ground arith)
Step-Over Step.offers (inl e) = absurd (ground arith)
Step-Over Step.offers (inr e) = absurd (ground arith)
Step-Over Step.issues (inl e) = absurd (ground arith)
Step-Over Step.issues (inr e) = absurd (ground arith)
Step-Over Step.doubts (inl e) = absurd (ground arith)
Step-Over Step.doubts (inr e) = absurd (ground arith)
Step-Over Step.expires o = inr refl

Reaches-Over : {a b : IssuanceState} → Reaches a b → Over a → Over b
Reaches-Over stays o = o
Reaches-Over (steps p s) o = Step-Over s (Reaches-Over p o)

module _ {N : Type 0} (ports : Ports N) where
  -- If a value is returned, the session under the key is issued.
  abbrev Issues : {A : Type 0} → String → Outcome N A → Type 0
  Issues k outcome = is_ok outcome.0 ≡ true → IsIssued k outcome.1

  settled :
      (at : Service) (tenant k : String) (s : IssuanceSession) (order : IssueOrder) (id : String)
      (i : Issued)
      → Holds (Issues k) at (settle ports tenant k s order id i)
  unfolding settle
  settled at tenant k s order id i = on_change (
      on_call (λ published.
        on_need (λ e n h. absurd (ground arith))
          (λ p. on_change (
            on_done (λ n h. record {
              session = record s { state = IssuanceState.issued; claims = [] };
              held =
                  lookup-insert_self k (record s { state = IssuanceState.issued; claims = [] })
                    at.sessions;
              issued = refl;
            })))))

  accepted :
      (at : Service) (k : String) (s : IssuanceSession) (order : IssueOrder) (answer : IssueAnswer)
      (rest : Issued → Run N CredentialAnswer)
      → ((i : Issued) → Holds (Issues k) at (rest i))
      → Holds (Issues k) at (accept ports k s order answer >>= rest)
  accepted at k s order IssueAnswer.ambiguous rest h =
      on_change (on_give (λ e n h. absurd (ground arith)) (λ x e. absurd (ground arith)))
  accepted at k s order IssueAnswer.rejected rest h =
      on_give (λ e n h. absurd (ground arith)) (λ x e. absurd (ground arith))
  accepted at k s order (IssueAnswer.issued i) rest h =
      elim (Bool-cases (answers_order order s.format i)) [
        | inl fits ↦ rw fits (h i)
        | inr other ↦
            rw other
              (on_change (on_give (λ e n h. absurd (ground arith)) (λ x e. absurd (ground arith))))
      ]

  issue_for-Issues :
      (at : Service) (tenant k : String) (s : IssuanceSession) (request : IssueRequest)
      → Holds (Issues k) at (issue_for ports tenant k s request)
  unfolding issue_for prepare
  issue_for-Issues at tenant k s request =
      on_need (λ e n h. absurd (ground arith))
        (λ fits.
          assert_issuance_authorization-Holds ports at s _ (λ e n h. absurd (ground arith))
            (λ a.
              on_attempt (λ e n h. absurd (ground arith))
                (λ proved.
                  on_need (λ e n h. absurd (ground arith))
                    (λ p. on_call (λ now. on_assoc _ _ (unique_token ports) (
                      on_token ports _ (λ e n h. absurd (ground arith))
                        (λ c f0 g0. on_assoc _ _ (unique_token ports) (
                          on_token ports _ (λ e n h. absurd (ground arith))
                            (λ t f1 g1. on_assoc _ _ (unique_token ports) (
                              on_token ports _ (λ e n h. absurd (ground arith))
                                (λ r f2 g2.
                                  on_give (λ e n h. absurd (ground arith))
                                    (λ port e0. on_call (λ answer.
                                      accepted at k s _ answer _
                                        (λ i. settled at tenant k s _ _ i))))))))))))))

  issue_credential-Issues :
      (tenant secret : String) (value : Value) (sv : Service) (t : AccessToken)
      → lookup (ports.sha256 secret) sv.access_tokens ≡ some t
      → Holds (Issues (key tenant t.session_id)) sv (issue_credential ports tenant secret value)
  unfolding issue_credential read_request
  issue_credential-Issues tenant secret value sv t held =
      on_give (λ e n h. absurd (ground arith))
        (λ i e0.
          on_give (λ e n h. absurd (ground arith))
            (λ w e1.
              on_give (λ e n h. absurd (ground arith))
                (λ p e2.
                  on_need (λ e n h. absurd (ground arith))
                    (λ jwt.
                      on_give (λ e n h. absurd (ground arith))
                        (λ b e3.
                          on_access_token ports secret tenant _ (λ e n h. absurd (ground arith))
                            (λ u now found unused. (
                              λ e n h. absurd (ground arith),
                              on_session ports tenant u.session_id _
                                  (λ e n h. absurd (ground arith))
                                  (λ s there.
                                    on_live ports (key tenant u.session_id) s _
                                      (λ e n h. absurd (ground arith))
                                      (let same : u.session_id ≡ t.session_id = ground arith in
                                        subst
                                          (λ k.
                                            Holds (Issues (key tenant k))
                                              (token_spent (ports.sha256 secret) u now sv)
                                              (issue_for ports tenant (key tenant u.session_id) s
                                                (record { configuration_id = w; proof = b })))
                                          same (issue_for-Issues _ tenant _ s _))),
                            )))))))

  -- After a credential was issued for the session of an access token, an access token of that
  -- session, this one included, gets no credential for the same tenant, whatever is called in
  -- between.
  pub issued_once :
      (tenant first second : String) (value again : Value) (sv : Service) (n m : N)
      (calls : List Call) (t u : AccessToken)
      → lookup (ports.sha256 first) sv.access_tokens ≡ some t
      → is_ok (exec (issue_credential ports tenant first value) sv n).0 ≡ true
      → lookup
          (ports.sha256 second)
          (history ports calls
            (exec (issue_credential ports tenant first value) sv n).1
            (exec (issue_credential ports tenant first value) sv n).2).0.access_tokens
        ≡ some u
      → u.session_id ≡ t.session_id
      → is_ok
          (exec
            (issue_credential ports tenant second again)
            (history ports calls
              (exec (issue_credential ports tenant first value) sv n).1
              (exec (issue_credential ports tenant first value) sv n).2).0
            m).0
        ≡ false
  issued_once tenant first second value again sv n m calls t u held returned later_held same =
      let outcome = exec (issue_credential ports tenant first value) sv n in
      let after = (history ports calls outcome.1 outcome.2).0 in
      let done_once = (issue_credential-Issues tenant first value sv t held).at n returned in
      let grown = history-Evolves ports calls outcome.1 outcome.2 in
      let (s, s_held, s_later) =
        grown.sessions.at (key tenant t.session_id) done_once.session done_once.held in
      let over = Reaches-Over s_later.state (inl done_once.issued) in
      elim (Bool-cases (is_ok (exec (issue_credential ports tenant second again) after m).0)) [
        | inr no_more ↦ no_more
        | inl returned_again ↦
            let facts =
              issue_credential-Authorized ports tenant second again after m returned_again in
            let token_same : facts.token ≡ u = some_injective (sym facts.token_held ∙ later_held) in
            let id_same : facts.token.session_id ≡ t.session_id =
              ap (λ x. x.session_id) token_same ∙ same in
            let at_same = ap (λ k. lookup (key tenant k) after.sessions) id_same in
            let session_same : facts.session ≡ s =
              some_injective (sym facts.session_held ∙ at_same ∙ s_held) in
            let is_offered : s.state ≡ IssuanceState.offered =
              ap (λ x. x.state) (sym session_same) ∙ facts.offered in
            absurd (elim over [
              | inl e ↦ let wrong = sym e ∙ is_offered in ground arith
              | inr e ↦ let wrong = sym e ∙ is_offered in ground arith
            ])
      ]
