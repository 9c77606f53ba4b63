-- ===== src/Policy.antt =====
-- packages/signer-policy/src/index.ts: policies for operational signers. This file has its data:
-- policies, sessions, requests and decisions. `Texts` reads addresses and selectors, `Validate`
-- checks policies, `Memory` is the in-memory store and `Authorize` the evaluator; the modules below
-- those hold the proofs. Times of sessions and evidence, and the numbers of a frequency policy, are
-- natural numbers here; the numbers of a request and of a policy's interval may be any, and those of
-- a policy are compared as integers, which `validatePolicy` demands of every policy that is put.
pub mod Texts
pub mod Validate
pub mod Memory
pub mod Authorize
pub mod Calls
pub mod History
pub mod Examples
use universal_smart_wallet.Prelude.{ℕ, String, Bool, true, false, List, Option}
use universal_smart_wallet.Value.{Number}

pub data Operation : Type 0 where
  transaction rotate_owner export migrate install_module : Operation

pub data SessionKind : Type 0 where
  email oidc passkey recovery : SessionKind

pub data ReasonCode : Type 0 where
  allow invalid_request session_not_found session_revoked session_expired : ReasonCode
  policy_not_found policy_revoked policy_not_yet_active policy_expired : ReasonCode
  signer_mismatch chain_not_allowed contract_not_allowed selector_not_allowed : ReasonCode
  operation_not_allowed asset_not_allowed amount_exceeded frequency_exceeded : ReasonCode
  step_up_required step_up_invalid replay_detected policy_store_unavailable : ReasonCode

pub data AssetKind : Type 0 where
  native erc20 erc721 erc1155 : AssetKind

-- An amount is a `bigint`; a `real` stands for a value that is none.
pub record AssetPolicy : Type 0 where
  pub kind : AssetKind
  pub address : Option String
  pub max_amount : Option Number

pub record ContractPolicy : Type 0 where
  pub target : String
  pub selectors : List String
  pub operations : Option (List Operation)
  pub assets : Option (List AssetPolicy)
  pub max_value : Option Number
  pub max_amount : Option Number

pub record FrequencyPolicy : Type 0 where
  pub window_seconds : ℕ
  pub max_operations : ℕ
  pub max_total_amount : Option ℕ

pub record SignerPolicy : Type 0 where
  pub schema_version : Number
  pub policy_id : String
  pub signer_id : String
  pub chain_id : Number
  pub valid_from : Number
  pub expires_at : Number
  pub contracts : List ContractPolicy
  pub allowed_operations : Option (List Operation)
  pub frequency : Option FrequencyPolicy

pub record SignerSession : Type 0 where
  pub session_id : String
  pub signer_id : String
  pub policy_id : String
  pub kind : SessionKind
  pub issued_at : ℕ
  pub expires_at : ℕ

pub data StepUpMethod : Type 0 where
  passkey recovery : StepUpMethod

pub record StepUpEvidence : Type 0 where
  pub method : StepUpMethod
  pub challenge_id : String
  pub request_id : String
  pub verified_at : ℕ
  pub expires_at : ℕ

pub record RequestedAsset : Type 0 where
  pub kind : AssetKind
  pub address : Option String

pub record AuthorizationRequest : Type 0 where
  pub request_id : String
  pub session_id : String
  pub signer_id : String
  pub policy_id : String
  pub chain_id : Number
  pub target : String
  pub selector : String
  pub operation : Operation
  pub value : Option Number
  pub asset : Option RequestedAsset
  pub amount : Option Number
  pub at : Number
  pub step_up : Option StepUpEvidence

pub record PolicyDecision : Type 0 where
  pub allowed : Bool
  pub reason_code : ReasonCode

pub record Reservation : Type 0 where
  pub request_id : String
  pub frequency_key : String
  pub at : ℕ
  pub amount : ℕ
  pub frequency : Option FrequencyPolicy

pub data Reserved : Type 0 where
  reserved replay frequency : Reserved
