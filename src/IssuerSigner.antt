-- ===== src/IssuerSigner.antt =====
-- packages/issuer-signer/src/index.ts: the signing boundary of institutional issuers. This file has
-- its data. `Texts` reads identifiers and key references, `Operations` is the store of operations,
-- `Approvals` checks dual approval, `Ports` has the adapter and the audit trail, `Signing` is `sign`
-- and `Mutations` are `rotate` and `disable` of `InstitutionalIssuerSigner`. `Local` is the adapter for
-- local development. Bytes are numbers.
pub mod Texts
pub mod Operations
pub mod Approvals
pub mod Ports
pub mod Signing
pub mod Mutations
pub mod Signed
pub mod Held
pub mod Blocked
pub mod Retried
pub mod Local
pub mod Examples
use universal_smart_wallet.Prelude.{ℕ, String, List}
use universal_smart_wallet.Value.{Number}

pub data Algorithm : Type 0 where
  es256 eddsa : Algorithm

pub data KeyStatus : Type 0 where
  active standby rotated disabled : KeyStatus

pub data Operation : Type 0 where
  sign rotate disable : Operation

pub record KeyDescriptor : Type 0 where
  pub key_ref : String
  pub algorithm : Algorithm
  pub status : KeyStatus
  pub version : String

pub record SignRequest : Type 0 where
  pub request_id : String
  pub tenant_id : String
  pub key_ref : String
  pub algorithm : Algorithm
  pub payload : List ℕ
  pub at : Number

pub record Signature : Type 0 where
  pub request_id : String
  pub key_ref : String
  pub key_version : String
  pub algorithm : Algorithm
  pub signature : List ℕ

pub record RotateRequest : Type 0 where
  pub request_id : String
  pub tenant_id : String
  pub current_key_ref : String
  pub next_key_ref : String
  pub at : Number

pub record DisableRequest : Type 0 where
  pub request_id : String
  pub tenant_id : String
  pub key_ref : String
  pub at : Number

pub record RotationReceipt : Type 0 where
  pub request_id : String
  pub previous_key_ref : String
  pub active_key_ref : String
  pub active_version : String

pub data RejectionCode : Type 0 where
  key_not_found key_not_active key_disabled algorithm_mismatch provider_rejected : RejectionCode

pub data SignResult : Type 0 where
  signed : List ℕ → Algorithm → String → SignResult
  rejected : RejectionCode → SignResult
  ambiguous : SignResult

pub data MutationResult : Type 0 where
  completed : MutationResult
  rejected : RejectionCode → MutationResult
  ambiguous : MutationResult

pub record ApprovalContext : Type 0 where
  pub request_id : String
  pub tenant_id : String
  pub operation : Operation
  pub binding_digest : String
  pub at : ℕ

pub record ApprovalEvidence : Type 0 where
  pub approval_id : String
  pub approver_id : String
  pub request_id : String
  pub tenant_id : String
  pub operation : Operation
  pub binding_digest : String
  pub approved_at : Number
  pub expires_at : Number

pub data OperationOutcome : Type 0 where
  signed completed rejected ambiguous : OperationOutcome

pub data ErrorCode : Type 0 where
  invalid_request key_not_found key_not_active key_disabled algorithm_mismatch : ErrorCode
  dual_approval_required approval_invalid approval_unavailable request_already_used : ErrorCode
  provider_rejected provider_unavailable signing_result_ambiguous : ErrorCode
  operation_result_ambiguous audit_unavailable : ErrorCode

pub data AuditReason : Type 0 where
  failed : ErrorCode → AuditReason
  signed rotated disabled : AuditReason

pub data AuditOutcome : Type 0 where
  accepted rejected ambiguous : AuditOutcome

-- The event's identifier is made of the request's, the operation and the outcome.
pub record AuditEvent : Type 0 where
  pub tenant_id : String
  pub request_id : String
  pub operation : Operation
  pub outcome : AuditOutcome
  pub reason_code : AuditReason
  pub created_at : ℕ
