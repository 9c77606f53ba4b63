-- ===== src/IssuerSigner/Local.antt =====
-- `UnsafeLocalDevelopmentKmsAdapter` of packages/issuer-signer/src/index.ts: an adapter whose state is
-- a map of keys. `CryptoKey` and `crypto.subtle.sign` are the platform's: a private key is known by
-- its two properties and a handle, and the signing function is an argument.
pub mod Retired
use universal_smart_wallet.Prelude.{
  ℕ, String, Bool, true, false, not, ◌&&◌, ◌||◌, List, [], ◌∷◌, length, leb, Option, none, some,
  Map, lookup, insert, has, Result, ok, err, ◌>>=◌, ◌>>◌, if◌then◌else◌,
}
use universal_smart_wallet.IssuerSigner.{
  Algorithm, KeyStatus, active, standby, rotated, disabled, KeyDescriptor, RejectionCode,
  SignResult, MutationResult, OperationOutcome,
}
use universal_smart_wallet.IssuerSigner.Texts.{is_id, is_key_ref, between}
use universal_smart_wallet.IssuerSigner.Ports.{Adapter, same_algorithm}
use universal_smart_wallet.IssuerSigner.Signing.{is_active}
use universal_smart_wallet.IssuerSigner.Mutations.{is_standby, is_disabled}

pub record PrivateKey : Type 0 where
  pub is_private : Bool
  pub extractable : Bool
  pub handle : ℕ

pub record LocalKey : Type 0 where
  pub key_ref : String
  pub version : String
  pub algorithm : Algorithm
  pub status : KeyStatus
  pub private_key : PrivateKey

abbrev pub Keys : Type 0
Keys = Map LocalKey

-- `crypto.subtle.sign`; `none` is a promise that is rejected.
abbrev pub Crypto : Type 0
Crypto = Algorithm → PrivateKey → List ℕ → Option (List ℕ)

unfoldable pub key_valid : LocalKey → Keys → Bool
key_valid k keys =
    is_key_ref k.key_ref
    && not (has k.key_ref keys)
    && is_id k.version
    && (k.private_key.is_private && not k.private_key.extractable)

unfoldable pub add_keys : Keys → List LocalKey → Option Keys
add_keys keys [] = some keys
add_keys keys (k ∷ ks) =
    let rest = add_keys (insert k.key_ref k keys) ks in if key_valid k keys then rest else none

-- The constructor; `none` if it throws.
unfoldable pub open_keys : Bool → List LocalKey → Option Keys
open_keys acknowledged ks = if acknowledged && leb 1 (length ks) then add_keys [] ks else none

abbrev pub descriptor_of : LocalKey → KeyDescriptor
descriptor_of k = record {
  key_ref = k.key_ref;
  algorithm = k.algorithm;
  status = k.status;
  version = k.version;
}

abbrev pub described : Option LocalKey → Option KeyDescriptor
described none = none
described (some k) = some (descriptor_of k)

unfoldable pub describe_local : String → Keys → Option (Option KeyDescriptor)
describe_local key_ref keys =
    if is_key_ref key_ref then some (described (lookup key_ref keys)) else none

abbrev pub signed_by : LocalKey → Option (List ℕ) → SignResult
signed_by k none = SignResult.ambiguous
signed_by k (some bytes) = SignResult.signed bytes k.algorithm k.version

-- The state of the key is checked again; a payload out of bounds throws.
unfoldable pub sign_with : Crypto → Algorithm → List ℕ → LocalKey → Option SignResult
sign_with crypto algorithm payload k =
    if is_disabled k.status
    then some (SignResult.rejected RejectionCode.key_disabled)
    else if not (is_active k.status)
    then some (SignResult.rejected RejectionCode.key_not_active)
    else if not (same_algorithm k.algorithm algorithm)
    then some (SignResult.rejected RejectionCode.algorithm_mismatch)
    else if between 1 1048576 payload
    then some (signed_by k (crypto k.algorithm k.private_key payload))
    else none

unfoldable pub sign_found : Crypto → Algorithm → List ℕ → Option LocalKey → Option SignResult
sign_found crypto algorithm payload none = some (SignResult.rejected RejectionCode.key_not_found)
sign_found crypto algorithm payload (some k) = sign_with crypto algorithm payload k

unfoldable pub sign_local :
    Crypto → String → String → Algorithm → List ℕ → Keys → Option SignResult × Keys
sign_local crypto id key_ref algorithm payload keys =
    if is_id id && is_key_ref key_ref
    then (sign_found crypto algorithm payload (lookup key_ref keys), keys)
    else (none, keys)

-- `key.status = status`
abbrev pub set_status : String → KeyStatus → LocalKey → Keys → Keys
set_status key_ref status k keys = insert key_ref (record k { status = status }) keys

abbrev pub reject : RejectionCode → Keys → Option MutationResult × Keys
reject code keys = (some (MutationResult.rejected code), keys)

unfoldable pub rotate_found :
    String → String → LocalKey → LocalKey → Keys → Option MutationResult × Keys
rotate_found current_ref next_ref current next keys =
    if is_disabled current.status || is_disabled next.status
    then reject RejectionCode.key_disabled keys
    else if not (is_active current.status && is_standby next.status)
    then reject RejectionCode.key_not_active keys
    else if not (same_algorithm current.algorithm next.algorithm)
    then reject RejectionCode.algorithm_mismatch keys
    else (
      some MutationResult.completed,
      set_status next_ref active next (set_status current_ref rotated current keys),
    )

unfoldable pub rotate_local : String → String → String → Keys → Option MutationResult × Keys
rotate_local id current_ref next_ref keys =
    if is_id id && (is_key_ref current_ref && is_key_ref next_ref)
    then elim (lookup current_ref keys) [
      | none ↦ reject RejectionCode.key_not_found keys
      | some current ↦ elim (lookup next_ref keys) [
        | none ↦ reject RejectionCode.key_not_found keys
        | some next ↦ rotate_found current_ref next_ref current next keys
      ]
    ]
    else (none, keys)

unfoldable pub disable_local : String → String → Keys → Option MutationResult × Keys
disable_local id key_ref keys =
    if is_id id && is_key_ref key_ref
    then elim (lookup key_ref keys) [
      | none ↦ reject RejectionCode.key_not_found keys
      | some k ↦
          if is_disabled k.status
          then reject RejectionCode.key_disabled keys
          else (some MutationResult.completed, set_status key_ref disabled k keys)
    ]
    else (none, keys)

abbrev pub local : Crypto → Adapter Keys
local crypto = record {
  describe_key = describe_local;
  sign = sign_local crypto;
  rotate = rotate_local;
  disable = disable_local;
}
