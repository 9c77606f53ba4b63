-- ===== src/Policy/Examples.antt =====
-- Tests of packages/signer-policy/src/index.ts at concrete data, and the theorems applied to it.
use universal_smart_wallet.Prelude.{
  ◌≤◌, true, false, ◌≡◌, refl, List, [], ◌∷◌, Option, none, some, arith, lookup, insert, units,
  includes, distinct, map_result, All,
}
use universal_smart_wallet.Value.{pos}
use universal_smart_wallet.Policy.{
  transaction, rotate_owner, email, ContractPolicy, FrequencyPolicy, SignerPolicy, SignerSession,
  StepUpMethod, AuthorizationRequest, Reservation, reserved, ReasonCode,
}
use universal_smart_wallet.Policy.Texts.{
  is_address, is_selector, lower, address, selector, positive, timestamp, is_safe_integer, is_less,
  is_same, exceeds,
}
use universal_smart_wallet.Policy.Validate.{
  validate_asset, validate_contract, selector_keys, header_valid, validate_policy,
  request_ids_valid, validate_request,
}
use universal_smart_wallet.Policy.Memory.{
  Memory, empty, put_policy, session_valid, put_session, revoke_policy, revoke_session,
  window_start_of, current_usage, above, is_spent, charge, reserve, in_memory,
}
use universal_smart_wallet.Policy.Memory.Limits.{Ordered, Under, window_cost, window_bounded}
use universal_smart_wallet.Policy.Authorize.{
  StepUp, operation_allowed, is_asset, live_session, live_policy, is_target, has_selector, rule_of,
  asset_allowed, amount_of, verified_evidence, stepped_up, step_up_if_sensitive, frequency_key,
  check, authorize,
}
use universal_smart_wallet.Policy.Authorize.Allowed.{Checks, authorize-allowed}
use universal_smart_wallet.Policy.Calls.{
  Call, puts_policy, puts_session, revokes_policy, revokes_session, authorizes, step, run,
  WellKeyed,
}
use universal_smart_wallet.Policy.History.{authorize-keeps, allowed_once, revoked_forever}

-- A proof that names `policy_code` runs the code on closed terms.
policy_code : Unit {0}
unfolding lookup insert units includes distinct map_result is_address is_selector lower address
    selector positive timestamp is_safe_integer is_less is_same exceeds validate_asset
    validate_contract selector_keys header_valid validate_policy request_ids_valid validate_request
    put_policy session_valid put_session revoke_policy revoke_session window_start_of current_usage
    is_spent charge reserve window_cost operation_allowed is_asset live_session live_policy
    is_target has_selector rule_of asset_allowed amount_of verified_evidence stepped_up
    step_up_if_sensitive frequency_key check authorize step run
policy_code = tt

abbrev contract_rule : ContractPolicy
contract_rule = record {
  target = "0x1111111111111111111111111111111111111111";
  selectors = "0xa9059cbb" ∷ [];
  operations = none;
  assets = none;
  max_value = some (pos 0);
  max_amount = some (pos 50);
}

abbrev limits : FrequencyPolicy
limits = record { window_seconds = 60; max_operations = 2; max_total_amount = some 60 }

abbrev policy : SignerPolicy
policy = record {
  schema_version = pos 1;
  policy_id = "p1";
  signer_id = "alice";
  chain_id = pos 100;
  valid_from = pos 10;
  expires_at = pos 1000;
  contracts = contract_rule ∷ [];
  allowed_operations = none;
  frequency = some limits;
}

abbrev session : SignerSession
session = record {
  session_id = "s1";
  signer_id = "alice";
  policy_id = "p1";
  kind = email;
  issued_at = 5;
  expires_at = 500;
}

abbrev request : AuthorizationRequest
request = record {
  request_id = "r1";
  session_id = "s1";
  signer_id = "alice";
  policy_id = "p1";
  chain_id = pos 100;
  target = "0x1111111111111111111111111111111111111111";
  selector = "0xA9059cbb";
  operation = rotate_owner;
  value = none;
  asset = none;
  amount = some (pos 40);
  at = pos 100;
  step_up = some (record {
    method = StepUpMethod.passkey;
    challenge_id = "c1";
    request_id = "r1";
    verified_at = 90;
    expires_at = 120;
  });
}

abbrev second : AuthorizationRequest
second = record request { request_id = "r2"; operation = transaction; step_up = none }

abbrev trusting : Option StepUp
trusting = some (λ r e. some true)

abbrev opened : Memory
opened = run trusting empty (puts_policy policy ∷ puts_session session ∷ [])

abbrev used : Memory
used = (authorize in_memory trusting request opened).1

allows : (authorize in_memory trusting request opened).0.allowed ≡ true
unfolding policy_code
allows = refl

needs_step_up :
    (authorize in_memory trusting (record request { step_up = none }) opened).0.reason_code
    ≡ ReasonCode.step_up_required
unfolding policy_code
needs_step_up = refl

-- The second request is within the amount of a request, and beyond the total of the window.
total_is_spent :
    (authorize in_memory trusting second used).0.reason_code ≡ ReasonCode.frequency_exceeded
unfolding policy_code
total_is_spent = refl

empty-WellKeyed : WellKeyed empty
unfolding lookup
empty-WellKeyed = record { policies = λ id p e. absurd (cc e); sessions = λ id s e. absurd (cc e) }

authorize-allowed_example :
    (input : Reservation) × Checks in_memory trusting request opened input
    × ((in_memory.reserve input opened).0 ≡ some reserved)
authorize-allowed_example = authorize-allowed in_memory trusting request opened allows

authorize-keeps_example : (authorize in_memory trusting second used).1 ≡ used
unfolding policy_code
authorize-keeps_example = authorize-keeps trusting used second refl

abbrev later : List Call
later = revokes_session "s2" ∷ authorizes second ∷ puts_policy policy ∷ []

abbrev repeated : AuthorizationRequest
repeated = record second { request_id = "r1" }

allowed_once_example :
    (authorize in_memory trusting repeated (run trusting used later)).0.allowed ≡ false
allowed_once_example = allowed_once trusting opened request repeated later allows refl

revoked_forever_example :
    (authorize in_memory trusting request
      (run trusting (step trusting empty (revokes_policy "p1")) later)).0.allowed
    ≡ false
revoked_forever_example =
    revoked_forever trusting empty (revokes_policy "p1") request later empty-WellKeyed refl

abbrev input : Reservation
input = record {
  request_id = "a";
  frequency_key = "k";
  at = 61;
  amount = 20;
  frequency = some limits;
}

abbrev inputs : List Reservation
inputs = input ∷ record input { request_id = "b" } ∷ record input { request_id = "c"; at = 70 } ∷ []

window_bounded_example :
    (window_cost (λ i. 1) "k" 60 empty inputs ≤ 2)
    × (above (window_cost (λ i. i.amount) "k" 60 empty inputs) (some 60) ≡ false)
unfolding lookup
window_bounded_example =
    window_bounded limits "k" 60 0 empty inputs (omega arith) refl ordered under
  where
    ordered : Ordered 0 inputs
    ordered = (omega arith, (omega arith, (omega arith, tt)))

    under : All (Under "k" limits) inputs
    under = ((λ e. refl), ((λ e. refl), ((λ e. refl), tt)))
