-- ===== src/Policy/Authorize.antt =====
-- `SignerPolicyEvaluator.authorize` of packages/signer-policy/src/index.ts, over any policy store.
-- `check` has everything before the reservation; an early `return deny(code)`, and what is thrown, is
-- an error of its block.
pub mod Allowed
use Prim.Native.String.{◌++◌ as join}
use universal_smart_wallet.Prelude.{
  ℕ, String, Bool, true, false, not, ◌&&◌, ◌||◌, List, [], ◌∷◌, Option, none, some, ltb, leb, any,
  find, str_eq, Result, ok, err, ◌>>=◌, ◌>>◌, guard, or_throw,
}
use universal_smart_wallet.Value.{Number, pos}
use universal_smart_wallet.Policy.{
  Operation, transaction, rotate_owner, export, migrate, install_module, AssetKind, native, erc20,
  erc721, erc1155, AssetPolicy, ContractPolicy, SignerPolicy, SignerSession, StepUpEvidence,
  RequestedAsset, AuthorizationRequest, PolicyDecision, Reservation, Reserved, reserved, replay,
  frequency, ReasonCode,
}
use universal_smart_wallet.Policy.Texts.{Checked, lower, positive, is_less, is_same, exceeds}
use universal_smart_wallet.Policy.Validate.{validate_request}
use universal_smart_wallet.Policy.Memory.{PolicyStore}

-- `verify` of the `StepUpPort`; `none` is a promise that is rejected.
abbrev pub StepUp : Type 0
StepUp = AuthorizationRequest → StepUpEvidence → Option Bool

abbrev pub deny : ReasonCode → PolicyDecision
deny code = record { allowed = false; reason_code = code }

abbrev pub asked : {A : Type 0} → Option A → Checked A
asked = or_throw ReasonCode.policy_store_unavailable

abbrev pub same_operation : Operation → Operation → Bool
same_operation transaction transaction = true
same_operation rotate_owner rotate_owner = true
same_operation export export = true
same_operation migrate migrate = true
same_operation install_module install_module = true
same_operation _ _ = false

-- `!operations || operations.includes(operation)`
unfoldable pub operation_allowed : Operation → Option (List Operation) → Bool
operation_allowed o none = true
operation_allowed o (some os) = any (same_operation o) os

abbrev pub is_sensitive : Operation → Bool
is_sensitive transaction = false
is_sensitive _ = true

abbrev pub same_kind : AssetKind → AssetKind → Bool
same_kind native native = true
same_kind erc20 erc20 = true
same_kind erc721 erc721 = true
same_kind erc1155 erc1155 = true
same_kind _ _ = false

-- `a?.toLowerCase() === b?.toLowerCase()`
abbrev pub same_address : Option String → Option String → Bool
same_address none none = true
same_address (some a) (some b) = str_eq (lower a) (lower b)
same_address _ _ = false

abbrev pub requested_asset : Option RequestedAsset → RequestedAsset
requested_asset none = record { kind = native; address = none }
requested_asset (some a) = a

unfoldable pub is_asset : RequestedAsset → AssetPolicy → Bool
is_asset asked_for a =
    same_kind a.kind asked_for.kind
    && (same_kind a.kind native || same_address a.address asked_for.address)

module _ {S : Type 0} (store : PolicyStore S) (r : AuthorizationRequest) (s : S) where
  unfoldable pub live_session : ℕ → Checked SignerSession
  live_session at = do
    found ← asked (store.get_session r.session_id s)
    session ← or_throw ReasonCode.session_not_found found
    revoked ← asked (store.is_session_revoked session.session_id s)
    guard (not revoked) ReasonCode.session_revoked
    guard (leb session.issued_at at && ltb at session.expires_at) ReasonCode.session_expired
    guard (str_eq session.signer_id r.signer_id && str_eq session.policy_id r.policy_id)
        ReasonCode.signer_mismatch
    ok session

  unfoldable pub live_policy : ℕ → Checked SignerPolicy
  live_policy at = do
    found ← asked (store.get_policy r.policy_id s)
    policy ← or_throw ReasonCode.policy_not_found found
    revoked ← asked (store.is_policy_revoked policy.policy_id s)
    guard (not revoked) ReasonCode.policy_revoked
    guard (not (is_less (pos at) policy.valid_from)) ReasonCode.policy_not_yet_active
    guard (is_less (pos at) policy.expires_at) ReasonCode.policy_expired
    guard (is_same policy.chain_id r.chain_id) ReasonCode.chain_not_allowed
    guard (operation_allowed r.operation policy.allowed_operations) ReasonCode.operation_not_allowed
    ok policy

unfoldable pub is_target : AuthorizationRequest → ContractPolicy → Bool
is_target r c = str_eq (lower c.target) (lower r.target)

unfoldable pub has_selector : AuthorizationRequest → ContractPolicy → Bool
has_selector r c = any (λ v. str_eq (lower v) (lower r.selector)) c.selectors

-- The first rule of the target decides.
unfoldable pub rule_of : SignerPolicy → AuthorizationRequest → Checked ContractPolicy
rule_of policy r = do
  rule ← or_throw ReasonCode.contract_not_allowed (find (is_target r) policy.contracts)
  guard (has_selector r rule) ReasonCode.selector_not_allowed
  guard (operation_allowed r.operation rule.operations) ReasonCode.operation_not_allowed
  ok rule

unfoldable pub asset_allowed : Option (List AssetPolicy) → RequestedAsset → ℕ → Checked (Unit {0})
asset_allowed none asked_for amount = ok tt
asset_allowed (some assets) asked_for amount = do
  asset ← or_throw ReasonCode.asset_not_allowed (find (is_asset asked_for) assets)
  guard (not (exceeds amount asset.max_amount)) ReasonCode.amount_exceeded

-- The amount of the request, if it is within the limits.
unfoldable pub amount_of : ContractPolicy → AuthorizationRequest → Checked ℕ
amount_of rule r = do
  amount ← positive r.amount
  value ← positive r.value
  guard (not (exceeds value rule.max_value)) ReasonCode.amount_exceeded
  guard (not (exceeds amount rule.max_amount)) ReasonCode.amount_exceeded
  asset_allowed rule.assets (requested_asset r.asset) amount
  ok amount

abbrev pub evidence_fits : AuthorizationRequest → ℕ → StepUpEvidence → Bool
evidence_fits r at e =
    str_eq e.request_id r.request_id && (leb e.verified_at at && ltb at e.expires_at)

unfoldable pub verified_evidence :
    Option StepUp → AuthorizationRequest → StepUpEvidence → Checked (Unit {0})
verified_evidence none r e = err ReasonCode.step_up_invalid
verified_evidence (some verify) r e = do
  valid ← asked (verify r e)
  guard valid ReasonCode.step_up_invalid

unfoldable pub stepped_up : Option StepUp → AuthorizationRequest → ℕ → Checked (Unit {0})
stepped_up port r at = elim (r.step_up) [
  | none ↦ err ReasonCode.step_up_required
  | some e ↦ do guard (evidence_fits r at e) ReasonCode.step_up_invalid; verified_evidence port r e
]

unfoldable pub step_up_if_sensitive : Option StepUp → AuthorizationRequest → ℕ → Checked (Unit {0})
step_up_if_sensitive port r at = elim (is_sensitive r.operation) [
  | true ↦ stepped_up port r at
  | false ↦ ok tt
]

unfoldable pub frequency_key : AuthorizationRequest → String
frequency_key r =
    join r.signer_id
      (join ":" (join r.policy_id (join ":" (join (lower r.target) (join ":" (lower r.selector))))))

unfoldable pub check :
    {S : Type 0} → PolicyStore S → Option StepUp → AuthorizationRequest → S → Checked Reservation
check store port r s = do
  at ← validate_request r
  session ← live_session store r s at
  policy ← live_policy store r s at
  rule ← rule_of policy r
  amount ← amount_of rule r
  step_up_if_sensitive port r at
  ok (record {
    request_id = r.request_id;
    frequency_key = frequency_key r;
    at = at;
    amount = amount;
    frequency = policy.frequency;
  })

abbrev pub decision_of : Option Reserved → PolicyDecision
decision_of none = deny ReasonCode.policy_store_unavailable
decision_of (some reserved) = record { allowed = true; reason_code = ReasonCode.allow }
decision_of (some replay) = deny ReasonCode.replay_detected
decision_of (some frequency) = deny ReasonCode.frequency_exceeded

unfoldable pub authorize :
    {S : Type 0} → PolicyStore S → Option StepUp → AuthorizationRequest → S → PolicyDecision × S
authorize store port r s = elim (check store port r s) [
  | err code ↦ (deny code, s)
  | ok input ↦ let (answer, t) = store.reserve input s in (decision_of answer, t)
]
