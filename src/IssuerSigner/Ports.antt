-- ===== src/IssuerSigner/Ports.antt =====
-- The ports of `InstitutionalIssuerSigner` in packages/issuer-signer/src/index.ts, its state, and the
-- steps that `sign`, `rotate` and `disable` share. The state is that of the adapter (`keys`), of the
-- operation store and of the audit trail. A call takes what its approval and audit ports answer.
use universal_smart_wallet.Prelude.{
  ℕ, String, Bool, true, false, ◌&&◌, List, [], ◌∷◌, ◌++◌, Option, none, some, str_eq, ok, err,
  ◌>>=◌, ◌>>◌, guard, if◌then◌else◌,
}
use universal_smart_wallet.IssuerSigner.{
  Algorithm, es256, eddsa, KeyStatus, KeyDescriptor, RejectionCode, SignResult, MutationResult,
  ApprovalContext, ApprovalEvidence, OperationOutcome, ErrorCode, AuditReason, AuditOutcome,
  AuditEvent,
}
use universal_smart_wallet.IssuerSigner.Texts.{Checked, is_id, ensure_key_ref}
use universal_smart_wallet.IssuerSigner.Operations.{OperationStore, Reserved, reserved}

-- `KmsHsmAdapter`; `none` is a promise that is rejected.
pub record Adapter (K : Type 0) : Type 0 where
  pub describe_key : String → K → Option (Option KeyDescriptor)
  pub sign : String → String → Algorithm → List ℕ → K → Option SignResult × K
  pub rotate : String → String → String → K → Option MutationResult × K
  pub disable : String → String → K → Option MutationResult × K

-- `digest` of bytes and of a text is SHA-256, of the platform's library.
pub record Ports : Type 0 where
  pub approvals_for : ApprovalContext → Option (List ApprovalEvidence)
  pub appends : AuditEvent → Bool
  pub digest_bytes : List ℕ → String
  pub digest_text : String → String

pub record State (K S : Type 0) : Type 0 where
  pub keys : K
  pub operations : S
  pub trail : List AuditEvent

abbrev pub same_algorithm : Algorithm → Algorithm → Bool
same_algorithm es256 es256 = true
same_algorithm eddsa eddsa = true
same_algorithm _ _ = false

unfoldable pub ensure_descriptor : KeyDescriptor → String → Checked KeyDescriptor
ensure_descriptor d expected = do
  ref ← ensure_key_ref d.key_ref
  guard (str_eq ref expected && is_id d.version) ErrorCode.provider_rejected
  ok d

abbrev pub optional_descriptor : Option KeyDescriptor → String → Checked (Option KeyDescriptor)
optional_descriptor none ref = ok none
optional_descriptor (some d) ref = do e ← ensure_descriptor d ref; ok (some e)

abbrev pub asked : {A : Type 0} → Option A → Checked A
asked none = err ErrorCode.provider_unavailable
asked (some a) = ok a

unfoldable pub describe_key : {K : Type 0} → Adapter K → String → K → Checked (Option KeyDescriptor)
describe_key adapter key_ref k = do
  ref ← ensure_key_ref key_ref
  found ← asked (adapter.describe_key ref k)
  optional_descriptor found ref

abbrev pub provider_code : RejectionCode → ErrorCode
provider_code RejectionCode.key_not_found = ErrorCode.key_not_found
provider_code RejectionCode.key_not_active = ErrorCode.key_not_active
provider_code RejectionCode.key_disabled = ErrorCode.key_disabled
provider_code RejectionCode.algorithm_mismatch = ErrorCode.algorithm_mismatch
provider_code RejectionCode.provider_rejected = ErrorCode.provider_rejected

abbrev pub key_state_code : KeyStatus → ErrorCode
key_state_code KeyStatus.disabled = ErrorCode.key_disabled
key_state_code _ = ErrorCode.key_not_active

abbrev pub audit_event : ApprovalContext → AuditOutcome → AuditReason → AuditEvent
audit_event c outcome reason = record {
  tenant_id = c.tenant_id;
  request_id = c.request_id;
  operation = c.operation;
  outcome = outcome;
  reason_code = reason;
  created_at = c.at;
}

abbrev pub is_reserved : Option Reserved → Checked (Unit {0})
is_reserved none = err ErrorCode.provider_unavailable
is_reserved (some reserved) = ok tt
is_reserved (some _) = err ErrorCode.request_already_used

module _ {K S : Type 0} (store : OperationStore S) (ports : Ports) (c : ApprovalContext) where
  -- `audit.append(event)`, which may throw.
  unfoldable pub append : AuditEvent → State K S → Bool × State K S
  append e s =
      if ports.appends e then (true, record s { trail = s.trail ++ e ∷ [] }) else (false, s)

  -- What is thrown, once a refusal before the provider was audited.
  unfoldable pub refuse : {A : Type 0} → ErrorCode → State K S → Checked A × State K S
  refuse code s =
      let (done, t) = append (audit_event c AuditOutcome.rejected (AuditReason.failed code)) s in
      (err (if done then code else ErrorCode.audit_unavailable), t)

  unfoldable pub mark_ambiguous : State K S → State K S
  mark_ambiguous s = record s {
    operations = (store.finish c.request_id OperationOutcome.ambiguous s.operations).1;
  }

  unfoldable pub audit_ambiguous : ErrorCode → State K S → State K S
  audit_ambiguous code s =
      (append (audit_event c AuditOutcome.ambiguous (AuditReason.failed code)) s).1

  -- The outcome is marked and audited, and the code is thrown.
  unfoldable pub end_ambiguous : {A : Type 0} → ErrorCode → State K S → Checked A × State K S
  end_ambiguous code s = (err code, audit_ambiguous code (mark_ambiguous s))

  -- The audit and the end of an operation, in one `try`: false if either throws.
  unfoldable pub conclude :
      AuditOutcome → AuditReason → OperationOutcome → State K S → Bool × State K S
  conclude outcome reason final s =
      let (done, t) = append (audit_event c outcome reason) s in
      if done
      then (
        (store.finish c.request_id final t.operations).0,
        record t { operations = (store.finish c.request_id final t.operations).1 },
      )
      else (false, t)

  -- The reservation, and what follows it.
  unfoldable pub reserve_then :
      {A : Type 0}
      → String
      → (State K S → Checked A × State K S)
      → State K S
      → Checked A × State K S
  reserve_then fingerprint next s =
      let (answer, o) = store.reserve c.request_id c.operation fingerprint s.operations in
      elim (is_reserved answer) [
        | err code ↦ (err code, record s { operations = o })
        | ok u ↦ next (record s { operations = o })
      ]
