-- ===== src/Policy/Validate.antt =====
-- `validatePolicy` and `validateRequest` of packages/signer-policy/src/index.ts.
use Prim.Native.String.{◌++◌ as join}
use universal_smart_wallet.Prelude.{
  ℕ, String, Bool, true, false, not, ◌&&◌, List, [], ◌∷◌, ◌++◌, map, Option, none, some, leb,
  length, distinct, ok, err, ◌>>=◌, ◌>>◌, guard, map_result,
}
use universal_smart_wallet.Value.{pos}
use universal_smart_wallet.Registry.Parse.{max_safe}
use universal_smart_wallet.Policy.{
  AssetPolicy, AssetKind, native, ContractPolicy, FrequencyPolicy, SignerPolicy,
  AuthorizationRequest, invalid_request,
}
use universal_smart_wallet.Policy.Texts.{
  Checked, address, selector, positive, timestamp, lower, is_safe_integer, is_less, is_same,
  is_empty,
}

-- A native asset has no address and another has one, which is read unless it is empty.
abbrev pub asset_address : AssetKind → Option String → Checked (Unit {0})
asset_address native none = ok tt
asset_address native (some a) = err invalid_request
asset_address _ none = err invalid_request
asset_address _ (some a) = elim (is_empty a) [ true ↦ ok tt | false ↦ do _ ← address a; ok tt ]

unfoldable pub validate_asset : AssetPolicy → Checked (Unit {0})
validate_asset a = do asset_address a.kind a.address; _ ← positive a.max_amount; ok tt

abbrev pub or_empty : {A : Type 0} → Option (List A) → List A
or_empty none = []
or_empty (some xs) = xs

unfoldable pub validate_contract : ContractPolicy → Checked (Unit {0})
validate_contract c = do
  _ ← address c.target
  guard (leb 1 (length c.selectors)) invalid_request
  _ ← map_result selector c.selectors
  _ ← positive c.max_amount
  _ ← positive c.max_value
  _ ← map_result validate_asset (or_empty c.assets)
  ok tt

-- `${contract.target.toLowerCase()}:${key}`
abbrev pub selector_key : String → String → String
selector_key target s = join (lower target) (join ":" (lower s))

unfoldable pub selector_keys : List ContractPolicy → List String
selector_keys [] = []
selector_keys (c ∷ cs) = map (selector_key c.target) c.selectors ++ selector_keys cs

abbrev pub frequency_valid : Option FrequencyPolicy → Bool
frequency_valid none = true
frequency_valid (some f) =
    leb f.window_seconds max_safe
    && leb 1 f.window_seconds
    && (leb f.max_operations max_safe && leb 1 f.max_operations)

unfoldable pub header_valid : SignerPolicy → Bool
header_valid p =
    is_same p.schema_version (pos 1)
    && not (is_empty p.policy_id)
    && not (is_empty p.signer_id)
    && (is_safe_integer p.chain_id && not (is_less p.chain_id (pos 1)))
    && (is_safe_integer p.valid_from && is_safe_integer p.expires_at)
    && is_less p.valid_from p.expires_at
    && leb 1 (length p.contracts)

-- Every failure is `INVALID_REQUEST`, so that the duplicates may be looked for last.
unfoldable pub validate_policy : SignerPolicy → Checked (Unit {0})
validate_policy p = do
  guard (header_valid p) invalid_request
  _ ← map_result validate_contract p.contracts
  guard (distinct (selector_keys p.contracts)) invalid_request
  guard (frequency_valid p.frequency) invalid_request
  ok tt

unfoldable pub request_ids_valid : AuthorizationRequest → Bool
request_ids_valid r =
    not (is_empty r.request_id)
    && not (is_empty r.session_id)
    && (not (is_empty r.signer_id) && not (is_empty r.policy_id))
    && (is_safe_integer r.chain_id && not (is_less r.chain_id (pos 1)))

-- The time of the request, once its fields are in order.
unfoldable pub validate_request : AuthorizationRequest → Checked ℕ
validate_request r = do
  guard (request_ids_valid r) invalid_request
  _ ← address r.target
  _ ← selector r.selector
  at ← timestamp r.at
  _ ← positive r.amount
  _ ← positive r.value
  ok at
