-- ===== src/Issuance/Evolution/Calls.antt =====
-- Every call of the service of packages/issuer-service/src/index.ts lets it evolve, and so does every
-- history of calls.
use universal_smart_wallet.Prelude.{
  ℕ, has, ◌≡◌, refl, sym, subst, inl, inr, String, true, List, some, lookup, leb, length, arith,
  Bool-cases,
}
use universal_smart_wallet.Value.{Value}
use universal_smart_wallet.Issuance.{
  Actor, IssuanceState, IssuanceSession, ReviewerPolicy, ReviewDecision, ReviewChoice, Grant,
  AccessToken, Service, Ports,
}
use universal_smart_wallet.Issuance.Run.{Run, ◌>>=◌, Outcome}
use universal_smart_wallet.Issuance.Rules.{
  Holds, Stops, on_done, on_give, on_read, on_call, on_attempt, on_need, on_change,
}
use universal_smart_wallet.Issuance.Setup.{
  key, require_scope, same_tenant, register_template, register_issuer, register_reviewer_policy,
  create_issuance_request,
}
use universal_smart_wallet.Issuance.Review.{
  is_state, is_approved, keep_if, store_session, reviewed_state, Authorization, review_issuance,
  assert_issuance_authorization,
}
use universal_smart_wallet.Issuance.Offers.{create_offer, authorize}
use universal_smart_wallet.Issuance.Evolution.{
  Step, approves, rejects, offers, expires, Reaches, stays, steps, Later, GrantLater, TokenLater,
  Evolves, Evolves-other, Evolves-refl, Evolves-trans, Evolves-session, Evolves-grant,
  Evolves-token,
}
use universal_smart_wallet.Issuance.Evolution.Parts.{
  Grows, on_token, on_live, on_grant, on_session, grant_added, grant_spent, token_spent,
}

module _ {N : Type 0} where
  pub on_scope :
      {A : Type 0} {Q : Outcome N A → Type 0} {sv : Service} (actor : Actor) (scope : String)
      (rest : Unit {0} → Run N A)
      → Stops Q sv
      → Holds Q sv (rest tt)
      → Holds Q sv (require_scope actor scope >>= rest)
  unfolding require_scope
  on_scope actor scope rest halt h =
      on_give halt (λ t e. on_give halt (λ p f. on_need halt (λ g. h)))

  pub on_tenant :
      {A : Type 0} {Q : Outcome N A → Type 0} {sv : Service} (left right : String)
      (rest : Unit {0} → Run N A)
      → Stops Q sv
      → Holds Q sv (rest tt)
      → Holds Q sv (same_tenant left right >>= rest)
  unfolding same_tenant
  on_tenant left right rest halt h =
      on_give halt (λ t e. on_give halt (λ p f. on_need halt (λ g. h)))

module _ {sv : Service} where
  pub same : Evolves sv sv
  same = Evolves-refl sv

module _ {N : Type 0} (ports : Ports N) (sv : Service) where
  pub register_template-Grows :
      (actor : Actor) (value : Value) → Holds {N = N} (Grows sv) sv (register_template actor value)
  unfolding register_template
  register_template-Grows actor value =
      on_scope actor _ _ (λ e n. same)
        (on_give (λ e n. same)
          (λ t e.
            on_give (λ e n. same)
              (λ u f.
                on_need (λ e n. same)
                  (λ p.
                    on_read (λ e n. same)
                      (λ x g.
                        on_need (λ e n. same)
                          (λ free.
                            on_change (on_done (λ n. Evolves-other sv _ refl refl refl))))))))

  pub register_issuer-Grows :
      (actor : Actor) (value : Value) → Holds (Grows sv) sv (register_issuer ports actor value)
  unfolding register_issuer
  register_issuer-Grows actor value =
      on_scope actor _ _ (λ e n. same)
        (on_give (λ e n. same)
          (λ t e.
            on_give (λ e n. same)
              (λ u f.
                on_need (λ e n. same)
                  (λ p. on_change (on_done (λ n. Evolves-other sv _ refl refl refl))))))

  pub register_reviewer_policy-Grows :
      (actor : Actor) (value : Value)
      → Holds {N = N} (Grows sv) sv (register_reviewer_policy actor value)
  unfolding register_reviewer_policy
  register_reviewer_policy-Grows actor value =
      on_scope actor _ _ (λ e n. same)
        (on_give (λ e n. same)
          (λ t e.
            on_need (λ e n. same)
              (λ p.
                on_give (λ e n. same)
                  (λ u f.
                    on_tenant _ _ _ (λ e n. same)
                      (on_give (λ e n. same)
                        (λ q g. on_change (on_done (λ n. Evolves-other sv _ refl refl refl))))))))

  pub assert_issuance_authorization-Holds :
      {A : Type 0} {Q : Outcome N A → Type 0} {at : Service} (s : IssuanceSession)
      (rest : Authorization → Run N A)
      → Stops Q at
      → ((a : Authorization) → Holds Q at (rest a))
      → Holds Q at (assert_issuance_authorization ports s >>= rest)
  unfolding assert_issuance_authorization
  assert_issuance_authorization-Holds s rest halt h = on_read halt (λ t e. on_read halt (λ i f.
      on_read halt (λ p g. on_need halt (λ a. on_need halt (λ r. on_attempt halt (λ d.
        on_give halt (λ k x.
          on_need halt (λ y. on_call (λ now. on_attempt halt (λ b. on_need halt (λ z. h _)))))))))))

pub pending-eq :
    (a : IssuanceState)
    → is_state a IssuanceState.pending_review ≡ true
    → a ≡ IssuanceState.pending_review
pending-eq a h = ground arith

pub approved-eq :
    (a : IssuanceState) → is_state a IssuanceState.approved ≡ true → a ≡ IssuanceState.approved
approved-eq a h = ground arith

pub offered-eq :
    (a : IssuanceState) → is_state a IssuanceState.offered ≡ true → a ≡ IssuanceState.offered
offered-eq a h = ground arith

pub Step-from : {a b c : IssuanceState} → a ≡ b → Step b c → Reaches a c
Step-from {c = c} e p = subst (λ x. Reaches x c) (sym e) (steps stays p)

reviewed-Reaches :
    (a : IssuanceState) (policy : ReviewerPolicy) (choice : ReviewChoice)
    (reviews : List ReviewDecision)
    → a ≡ IssuanceState.pending_review
    → Reaches a (reviewed_state policy choice reviews)
unfolding reviewed_state
reviewed-Reaches a policy ReviewChoice.rejected reviews e = Step-from e rejects
reviewed-Reaches a policy ReviewChoice.approved reviews e =
    elim (Bool-cases (leb policy.required_approvals (length (keep_if is_approved reviews)))) [
      | inl enough ↦ rw enough (Step-from e approves)
      | inr few ↦ rw (few, e) stays
    ]

-- The same session in another state.
pub moved :
    (s : IssuanceSession) (state : IssuanceState)
    → Reaches s.state state
    → Later s (record s { state = state })
moved s state r = record { tenant = refl; session = refl; expiry = refl; state = r }

-- A session that replaces the one in the map, in a state that it reaches.
module _ (before sv : Service) (grown : Evolves before sv) (at : String)
    (s t : IssuanceSession) where
  pub session_moved :
      lookup at sv.sessions ≡ some s → Later s t → Evolves before (store_session at t sv)
  session_moved found later = Evolves-trans grown (
      Evolves-session sv at t
        (λ u e. let is_s : s ≡ u = ground arith in subst (λ x. Later x t) is_s later))

  pub session_expired :
      lookup at sv.sessions ≡ some s
      → Evolves before (store_session at (record s { state = IssuanceState.expired }) sv)
  session_expired found = Evolves-trans grown (
      Evolves-session sv at (record s { state = IssuanceState.expired })
        (λ u e.
          let is_s : s ≡ u = ground arith in
          subst (λ x. Later x (record s { state = IssuanceState.expired })) is_s
            (record { tenant = refl; session = refl; expiry = refl; state = steps stays expires })))

module _ {N : Type 0} (ports : Ports N) (sv : Service) where
  pub grant_used :
      (g : Grant) (hash : String) (now : ℕ)
      → lookup hash sv.grants ≡ some g
      → Evolves sv (grant_spent hash g now sv)
  grant_used g hash now found = Evolves-grant sv hash _ (λ f e.
      let is_g : g ≡ f = ground arith in
      subst (λ x. GrantLater x (record g { consumed_at = some now })) is_g
        (record { session = refl; consumed = λ h. refl }))

  pub token_used :
      (t : AccessToken) (hash : String) (now : ℕ)
      → lookup hash sv.access_tokens ≡ some t
      → Evolves sv (token_spent hash t now sv)
  token_used t hash now found = Evolves-token sv hash _ (λ f e.
      let is_t : t ≡ f = ground arith in
      subst (λ x. TokenLater x (record t { consumed_at = some now })) is_t
        (record { session = refl; consumed = λ h. refl }))

  pub review_issuance-Grows :
      (actor : Actor) (session_id : String) (value : Value)
      → Holds (Grows sv) sv (review_issuance ports actor session_id value)
  unfolding review_issuance
  review_issuance-Grows actor session_id value =
      on_scope actor _ _ (λ e n. same)
        (on_give (λ e n. same)
          (λ i e.
            on_give (λ e n. same)
              (λ d f.
                on_session ports actor.tenant_id session_id _ (λ e n. same)
                  (λ s found.
                    on_live ports (key actor.tenant_id session_id) s _
                      (λ x n. session_expired sv sv same _ s s found)
                      (on_need (λ e n. same)
                        (λ pending.
                          on_read (λ e n. same)
                            (λ p g.
                              on_need (λ e n. same)
                                (λ authorized.
                                  on_need (λ e n. same)
                                    (λ first. on_call (λ now. on_change (
                                      on_done (λ n. session_moved sv sv same _ s _ found (record {
                                        tenant = refl;
                                        session = refl;
                                        expiry = refl;
                                        state =
                                            reviewed-Reaches s.state p d _
                                              (pending-eq s.state pending);
                                      })))))))))))))

  pub create_issuance_request-Grows :
      (actor : Actor) (value : Value)
      → Holds (Grows sv) sv (create_issuance_request ports actor value)
  unfolding create_issuance_request has
  create_issuance_request-Grows actor value =
      on_scope actor _ _ (λ e n. same)
        (on_give (λ e n. same)
          (λ i e0.
            on_give (λ e n. same)
              (λ sid e1.
                on_give (λ e n. same)
                  (λ iid e2.
                    on_give (λ e n. same)
                      (λ tid e3.
                        on_give (λ e n. same)
                          (λ pid e4.
                            on_give (λ e n. same)
                              (λ v e5.
                                on_need (λ e n. same)
                                  (λ f. on_call (λ now.
                                    on_give (λ e n. same)
                                      (λ exp e6.
                                        on_read (λ e n. same)
                                          (λ t e7.
                                            on_read (λ e n. same)
                                              (λ is e8.
                                                on_read (λ e n. same)
                                                  (λ pol e9.
                                                    on_need (λ e n. same)
                                                      (λ ok1.
                                                        on_give (λ e n. same)
                                                          (λ c e10.
                                                            on_give (λ e n. same)
                                                            (λ b e11.
                                                            on_give (λ e n. same)
                                                            (λ ev e12.
                                                            on_give (λ e n. same)
                                                            (λ r e13.
                                                            on_read (λ e n. same)
                                                            (λ u e14.
                                                            on_read (λ e n. same)
                                                            (λ taken e15.
                                                            on_need (λ e n. same)
                                                            (λ free. on_change (
                                                            on_done (λ n.
                                                            Evolves-session sv _ _ (λ s e.
                                                            absurd
                                                            (ground arith)))))))))))))))))))))))))

  pub create_offer-Grows :
      (actor : Actor) (session_id : String) (value : Value)
      → Holds (Grows sv) sv (create_offer ports actor session_id value)
  unfolding create_offer
  create_offer-Grows actor session_id value =
      on_scope actor _ _ (λ e n. same)
        (on_give (λ e n. same)
          (λ i e0.
            on_give (λ e n. same)
              (λ k e1.
                on_give (λ e n. same)
                  (λ ttl e2.
                    on_session ports actor.tenant_id session_id _ (λ e n. same)
                      (λ s found.
                        on_live ports (key actor.tenant_id session_id) s _
                          (λ x n. session_expired sv sv same _ s s found)
                          (on_need (λ e n. same)
                            (λ approved.
                              assert_issuance_authorization-Holds ports sv s _ (λ e n. same)
                                (λ a.
                                  on_read (λ e n. same)
                                    (λ is e3.
                                      on_token ports _ (λ e n. same)
                                        (λ secret fresh other.
                                          on_give (λ e n. same)
                                            (λ c e4.
                                              on_give (λ e n. same)
                                                (λ u e5.
                                                  on_give (λ e n. same)
                                                    (λ w e6. on_call (λ now. on_change (
                                                      on_change (
                                                        on_done (λ n.
                                                          session_moved sv _
                                                            (grant_added sv sv same
                                                            (ports.sha256 secret) _ fresh)
                                                            _ s _ found
                                                            (moved s _ (
                                                            Step-from (approved-eq s.state approved)
                                                            offers)))))))))))))))))))

  pub authorize-Grows :
      (actor : Actor) (tenant : String) (value : Value)
      → Holds (Grows sv) sv (authorize ports actor tenant value)
  unfolding authorize
  authorize-Grows actor tenant value =
      on_tenant _ _ _ (λ e n. same)
        (on_scope actor _ _ (λ e n. same)
          (on_give (λ e n. same)
            (λ i e0.
              on_give (λ e n. same)
                (λ k e1.
                  on_give (λ e n. same)
                    (λ c e2.
                      on_give (λ e n. same)
                        (λ u e3.
                          on_give (λ e n. same)
                            (λ t e4.
                              on_grant ports k tenant _ _ (λ e n. same)
                                (λ g now found.
                                  let spent = grant_used g (ports.sha256 k) now found in
                                  (
                                    λ e n. spent,
                                    on_need (λ e n. spent)
                                        (λ for.
                                          on_token ports _ (λ e n. spent)
                                            (λ code fresh other. on_call (λ later. on_change (
                                              on_done (λ n.
                                                grant_added sv _ spent (ports.sha256 code) _
                                                  fresh))))),
                                  )))))))))
