-- ===== src/Policy/Authorize/Allowed.antt =====
-- What stands behind an authorization that packages/signer-policy/src/index.ts allows, for any store.
use universal_smart_wallet.Prelude.{
  ℕ, true, false, ◌&&◌, ◌≡◌, inl, inr, refl, List, Option, none, some, arith, ltb, leb, str_eq,
  find, Option-cases, ok, >>=-eq-ok, Result-cases,
}
use universal_smart_wallet.Value.{pos}
use universal_smart_wallet.Policy.{
  SignerSession, SignerPolicy, ContractPolicy, AssetPolicy, StepUpEvidence, AuthorizationRequest,
  Reservation, reserved,
}
use universal_smart_wallet.Policy.Texts.{positive, is_less, is_same, exceeds}
use universal_smart_wallet.Policy.Validate.{validate_request}
use universal_smart_wallet.Policy.Memory.{PolicyStore}
use universal_smart_wallet.Policy.Authorize.{
  StepUp, operation_allowed, is_sensitive, requested_asset, is_asset, live_session, live_policy,
  is_target, has_selector, rule_of, asset_allowed, amount_of, evidence_fits, verified_evidence,
  stepped_up, step_up_if_sensitive, frequency_key, check, authorize,
}

pub record LiveSession {S : Type 0} (store : PolicyStore S) (r : AuthorizationRequest) (s : S)
    (at : ℕ) (session : SignerSession) : Type 0 where
  pub found : store.get_session r.session_id s ≡ some (some session)
  pub unrevoked : store.is_session_revoked session.session_id s ≡ some false
  pub interval : (leb session.issued_at at && ltb at session.expires_at) ≡ true
  pub bound : (str_eq session.signer_id r.signer_id && str_eq session.policy_id r.policy_id) ≡ true

pub record LivePolicy {S : Type 0} (store : PolicyStore S) (r : AuthorizationRequest) (s : S)
    (at : ℕ) (policy : SignerPolicy) : Type 0 where
  pub found : store.get_policy r.policy_id s ≡ some (some policy)
  pub unrevoked : store.is_policy_revoked policy.policy_id s ≡ some false
  pub started : is_less (pos at) policy.valid_from ≡ false
  pub unexpired : is_less (pos at) policy.expires_at ≡ true
  pub chain : is_same policy.chain_id r.chain_id ≡ true
  pub operation : operation_allowed r.operation policy.allowed_operations ≡ true

-- A rule of the policy for the target, with the selector and the operation.
pub record Permits (policy : SignerPolicy) (r : AuthorizationRequest) (rule : ContractPolicy)
    : Type 0 where
  pub listed : find (is_target r) policy.contracts ≡ some rule
  pub selector : has_selector r rule ≡ true
  pub operation : operation_allowed r.operation rule.operations ≡ true

-- The asset is one of the rule's, and the amount within its limit; a rule may leave assets open.
pub data AssetWithin (r : AuthorizationRequest) (amount : ℕ)
    : Option (List AssetPolicy) → Type 0 where
  open_assets : AssetWithin r amount none
  listed_asset :
      {assets : List AssetPolicy} (asset : AssetPolicy)
      → find (is_asset (requested_asset r.asset)) assets ≡ some asset
      → exceeds amount asset.max_amount ≡ false
      → AssetWithin r amount (some assets)

pub record Within (rule : ContractPolicy) (r : AuthorizationRequest) (amount : ℕ) : Type 0 where
  pub is_amount : positive r.amount ≡ ok amount
  pub value : ℕ
  pub is_value : positive r.value ≡ ok value
  pub value_limit : exceeds value rule.max_value ≡ false
  pub amount_limit : exceeds amount rule.max_amount ≡ false
  pub asset : AssetWithin r amount rule.assets

-- Evidence for this very request, valid at its time, which the port verified.
pub record SteppedUp (port : Option StepUp) (r : AuthorizationRequest) (at : ℕ) : Type 0 where
  pub evidence : StepUpEvidence
  pub given : r.step_up ≡ some evidence
  pub fits : evidence_fits r at evidence ≡ true
  pub verify : StepUp
  pub configured : port ≡ some verify
  pub verified : verify r evidence ≡ some true

-- Everything that `authorize` demands before the reservation `input`.
pub record Checks {S : Type 0} (store : PolicyStore S) (port : Option StepUp)
    (r : AuthorizationRequest) (s : S) (input : Reservation) : Type 0 where
  pub at : ℕ
  pub valid : validate_request r ≡ ok at
  pub session : SignerSession
  pub session_live : LiveSession store r s at session
  pub policy : SignerPolicy
  pub policy_live : LivePolicy store r s at policy
  pub rule : ContractPolicy
  pub permitted : Permits policy r rule
  pub amount : ℕ
  pub within : Within rule r amount
  pub stepped : is_sensitive r.operation ≡ true → SteppedUp port r at
  pub reservation : input ≡ record {
    request_id = r.request_id;
    frequency_key = frequency_key r;
    at = at;
    amount = amount;
    frequency = policy.frequency;
  }

module _ {S : Type 0} (store : PolicyStore S) (r : AuthorizationRequest) (s : S) (at : ℕ) where
  live_session-LiveSession :
      (session : SignerSession)
      → live_session store r s at ≡ ok session
      → LiveSession store r s at session
  unfolding live_session
  live_session-LiveSession session h = record {
    found = ground arith;
    unrevoked = ground arith;
    interval = ground arith;
    bound = ground arith;
  }

  live_policy-LivePolicy :
      (policy : SignerPolicy)
      → live_policy store r s at ≡ ok policy
      → LivePolicy store r s at policy
  unfolding live_policy
  live_policy-LivePolicy policy h = record {
    found = ground arith;
    unrevoked = ground arith;
    started = ground arith;
    unexpired = ground arith;
    chain = ground arith;
    operation = ground arith;
  }

rule_of-Permits :
    (policy : SignerPolicy) (r : AuthorizationRequest) (rule : ContractPolicy)
    → rule_of policy r ≡ ok rule
    → Permits policy r rule
unfolding rule_of
rule_of-Permits policy r rule h = record {
  listed = ground arith;
  selector = ground arith;
  operation = ground arith;
}

asset_allowed-AssetWithin :
    (r : AuthorizationRequest) (amount : ℕ) (assets : Option (List AssetPolicy)) {u : Unit {0}}
    → asset_allowed assets (requested_asset r.asset) amount ≡ ok u
    → AssetWithin r amount assets
unfolding asset_allowed
asset_allowed-AssetWithin r amount none h = open_assets
asset_allowed-AssetWithin r amount (some assets) h =
    elim (Option-cases (find (is_asset (requested_asset r.asset)) assets)) [
      | inl e ↦ absurd (ground arith)
      | inr (asset, e) ↦ listed_asset asset e (ground arith)
    ]

amount_of-Within :
    (rule : ContractPolicy) (r : AuthorizationRequest) (amount : ℕ)
    → amount_of rule r ≡ ok amount
    → Within rule r amount
unfolding amount_of
amount_of-Within rule r amount h = elim (Result-cases (positive r.value)) [
  | inr (e, ev) ↦ absurd (ground arith)
  | inl (value, ev) ↦
      elim (Result-cases (asset_allowed rule.assets (requested_asset r.asset) amount)) [
        | inr (e, ea) ↦ absurd (ground arith)
        | inl (u, ea) ↦ record {
          is_amount = ground arith;
          value = value;
          is_value = ev;
          value_limit = ground arith;
          amount_limit = ground arith;
          asset = asset_allowed-AssetWithin r amount rule.assets ea;
        }
      ]
]

stepped_up-SteppedUp :
    (port : Option StepUp) (r : AuthorizationRequest) (at : ℕ) {u : Unit {0}}
    → stepped_up port r at ≡ ok u
    → SteppedUp port r at
unfolding stepped_up verified_evidence
stepped_up-SteppedUp none r at h = absurd (ground arith)
stepped_up-SteppedUp (some verify) r at h = elim (Option-cases (r.step_up)) [
  | inl e ↦ absurd (ground arith)
  | inr (evidence, e) ↦ record {
    evidence = evidence;
    given = e;
    fits = ground arith;
    verify = verify;
    configured = refl;
    verified = ground arith;
  }
]

step_up_if_sensitive-SteppedUp :
    (port : Option StepUp) (r : AuthorizationRequest) (at : ℕ) {u : Unit {0}}
    → step_up_if_sensitive port r at ≡ ok u
    → is_sensitive r.operation ≡ true
    → SteppedUp port r at
unfolding step_up_if_sensitive
step_up_if_sensitive-SteppedUp port r at {u} h e =
    stepped_up-SteppedUp port r at {u = u} (ground arith)

module _ {S : Type 0} (store : PolicyStore S) (port : Option StepUp) (r : AuthorizationRequest)
    (s : S) where
  pub check-Checks :
      (input : Reservation) → check store port r s ≡ ok input → Checks store port r s input
  unfolding check
  check-Checks input h =
      let (at, valid, h1) = >>=-eq-ok (validate_request r) _ h in
      let (session, es, h2) = >>=-eq-ok (live_session store r s at) _ h1 in
      let (policy, ep, h3) = >>=-eq-ok (live_policy store r s at) _ h2 in
      let (rule, er, h4) = >>=-eq-ok (rule_of policy r) _ h3 in
      let (amount, ea, h5) = >>=-eq-ok (amount_of rule r) _ h4 in
      let (u, eu, h6) = >>=-eq-ok (step_up_if_sensitive port r at) _ h5 in
      record {
        at = at;
        valid = valid;
        session = session;
        session_live = live_session-LiveSession store r s at session es;
        policy = policy;
        policy_live = live_policy-LivePolicy store r s at policy ep;
        rule = rule;
        permitted = rule_of-Permits policy r rule er;
        amount = amount;
        within = amount_of-Within rule r amount ea;
        stepped = step_up_if_sensitive-SteppedUp port r at eu;
        reservation = ground arith;
      }

  pub authorize-reserved :
      (authorize store port r s).0.allowed ≡ true
      → (input : Reservation) × (check store port r s ≡ ok input)
        × ((store.reserve input s).0 ≡ some reserved)
        × ((authorize store port r s).1 ≡ (store.reserve input s).1)
  unfolding authorize
  authorize-reserved h = elim (Result-cases (check store port r s)) [
    | inr (e, ee) ↦ absurd (ground arith)
    | inl (input, ee) ↦ (input, ee, ground arith, ground arith)
  ]

  -- An authorization that is allowed passed every check before its reservation, whatever the
  -- store: the session is known, unrevoked, current and of this signer and policy; the policy is
  -- known, unrevoked, current and of this chain; its first rule for the target lists the selector,
  -- and the operation is allowed; value, amount and asset are within the limits; a sensitive
  -- operation has verified evidence for this request; and the store reserved the request.
  pub authorize-allowed :
      (authorize store port r s).0.allowed ≡ true
      → (input : Reservation) × Checks store port r s input
        × ((store.reserve input s).0 ≡ some reserved)
  authorize-allowed h =
      let (input, checked, answer, after) = authorize-reserved h in
      (input, check-Checks input checked, answer)
