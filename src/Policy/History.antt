-- ===== src/Policy/History.antt =====
-- Histories of calls on `InMemoryPolicyStore` and its evaluator, of
-- packages/signer-policy/src/index.ts: what stays denied, whatever is called later.
use universal_smart_wallet.Prelude.{
  true, false, ◌≡◌, ◌≢◌, ◌⊎◌, inl, inr, sym, ap, subst, ◌∙◌, List, Option, arith, includes,
  Bool-cases, Result-cases,
}
use universal_smart_wallet.Policy.{AuthorizationRequest, Reservation, reserved}
use universal_smart_wallet.Policy.Memory.{
  Memory, add, revoke_policy, revoke_session, reserve, in_memory, reserve-keeps,
}
use universal_smart_wallet.Policy.Authorize.{StepUp, authorize, check}
use universal_smart_wallet.Policy.Authorize.Allowed.{
  authorize-allowed, authorize-reserved, check-Checks,
}
use universal_smart_wallet.Policy.Calls.{
  Call, puts_policy, puts_session, revokes_policy, revokes_session, authorizes, step, run,
  WellKeyed, includes-add_self, step-WellKeyed, run-Grown, run-WellKeyed,
}

reserve-consumed :
    (input : Reservation) (m : Memory)
    → (reserve input m).0 ≡ reserved
    → includes input.request_id (reserve input m).1.consumed_request_ids ≡ true
unfolding reserve
reserve-consumed input m h =
    ground (arith, includes-add_self input.request_id m.consumed_request_ids)

module _ (port : Option StepUp) (m : Memory) (r : AuthorizationRequest) where
  -- A request identifier that was consumed is not authorized again.
  consumed-denied :
      includes r.request_id m.consumed_request_ids ≡ true
      → (authorize in_memory port r m).0.allowed ≡ false
  unfolding reserve
  consumed-denied h = elim (Bool-cases ((authorize in_memory port r m).0.allowed)) [
    | inr e ↦ e
    | inl e ↦
        let (input, checks, answer) = authorize-allowed in_memory port r m e in
        let same : input.request_id ≡ r.request_id = ap (λ i. i.request_id) checks.reservation in
        absurd (ground arith)
  ]

  allowed-consumed :
      (authorize in_memory port r m).0.allowed ≡ true
      → includes r.request_id (authorize in_memory port r m).1.consumed_request_ids ≡ true
  allowed-consumed h =
      let (input, checked, answer, after) = authorize-reserved in_memory port r m h in
      let checks = check-Checks in_memory port r m input checked in
      let same : input.request_id ≡ r.request_id = ap (λ i. i.request_id) checks.reservation in
      let stored = reserve-consumed input m (cc answer) in
      ap (λ n. includes r.request_id n.consumed_request_ids) after
      ∙ subst (λ id. includes id (reserve input m).1.consumed_request_ids ≡ true) same stored

  revoked-denied :
      WellKeyed m
      → ((includes r.policy_id m.revoked_policies ≡ true)
          ⊎ (includes r.session_id m.revoked_sessions ≡ true))
      → (authorize in_memory port r m).0.allowed ≡ false
  revoked-denied w h = elim (Bool-cases ((authorize in_memory port r m).0.allowed)) [
    | inr e ↦ e
    | inl e ↦
        let (input, checks, answer) = authorize-allowed in_memory port r m e in
        let policy_key = w.policies r.policy_id checks.policy (cc (checks.policy_live.found)) in
        let session_key = w.sessions r.session_id checks.session (cc (checks.session_live.found)) in
        let pr = checks.policy_live.unrevoked in
        let sr = checks.session_live.unrevoked in absurd (ground arith)
  ]

-- With the in-memory store, a denied authorization leaves the store exactly as it was, whatever
-- the step-up port answers.
pub authorize-keeps :
    (port : Option StepUp) (m : Memory) (r : AuthorizationRequest)
    → (authorize in_memory port r m).0.allowed ≡ false
    → (authorize in_memory port r m).1 ≡ m
unfolding authorize
authorize-keeps port m r h = elim (Result-cases (check in_memory port r m)) [
  | inr (e, ee) ↦ ground arith
  | inl (input, ee) ↦
      let denied : (reserve input m).0 ≢ reserved = λ q. ground arith in
      ground (arith, reserve-keeps input m denied)
]

-- A request identifier is authorized at most once: after a request was allowed, no request of the
-- same identifier is, whatever it asks for and whatever was called in between.
pub allowed_once :
    (port : Option StepUp) (m : Memory) (r q : AuthorizationRequest) (calls : List Call)
    → (authorize in_memory port r m).0.allowed ≡ true
    → q.request_id ≡ r.request_id
    → (authorize in_memory port q (run port (authorize in_memory port r m).1 calls)).0.allowed
      ≡ false
allowed_once port m r q calls h e =
    let n = (authorize in_memory port r m).1 in
    let kept_id = (run-Grown port n calls).consumed r.request_id (allowed-consumed port m r h) in
    consumed-denied port (run port n calls) q
      (subst (λ id. includes id (run port n calls).consumed_request_ids ≡ true) (sym e) kept_id)

-- The call revokes the policy or the session that the request names.
abbrev pub Revokes : Call → AuthorizationRequest → Type 0
Revokes (revokes_policy id) r = r.policy_id ≡ id
Revokes (revokes_session id) r = r.session_id ≡ id
Revokes _ r = ⊥

step-revoked :
    (port : Option StepUp) (m : Memory) (call : Call) (r : AuthorizationRequest)
    → Revokes call r
    → (includes r.policy_id (step port m call).revoked_policies ≡ true)
      ⊎ (includes r.session_id (step port m call).revoked_sessions ≡ true)
unfolding step revoke_policy revoke_session
step-revoked port m (revokes_policy id) r e = inl (
    subst (λ t. includes r.policy_id (add t m.revoked_policies) ≡ true) e
      (includes-add_self r.policy_id m.revoked_policies))
step-revoked port m (revokes_session id) r e = inr (
    subst (λ t. includes r.session_id (add t m.revoked_sessions) ≡ true) e
      (includes-add_self r.session_id m.revoked_sessions))
step-revoked port m (puts_policy p) r e = absurd e
step-revoked port m (puts_session t) r e = absurd e
step-revoked port m (authorizes q) r e = absurd e

-- Once the policy or the session that a request names is revoked in a well-keyed store, the
-- request is denied after any further calls, those that put the policy or the session again
-- included.
pub revoked_forever :
    (port : Option StepUp) (m : Memory) (call : Call) (r : AuthorizationRequest) (calls : List Call)
    → WellKeyed m
    → Revokes call r
    → (authorize in_memory port r (run port (step port m call) calls)).0.allowed ≡ false
revoked_forever port m call r calls w e =
    let n = step port m call in
    let g = run-Grown port n calls in
    revoked-denied port (run port n calls) r
      (run-WellKeyed port n calls (step-WellKeyed port m call w))
      (elim (step-revoked port m call r e) [
        | inl p ↦ inl (g.policies r.policy_id p)
        | inr p ↦ inr (g.sessions r.session_id p)
      ])
