-- ===== src/IssuerSigner/Mutations.antt =====
-- `InstitutionalIssuerSigner.rotate` and `disable` of packages/issuer-signer/src/index.ts. After the
-- adapter completed, the keys are described again, and an unexpected state is ambiguous.
use universal_smart_wallet.Prelude.{
  String, Bool, true, false, not, ◌&&◌, Option, none, some, str_eq, ok, err, ◌>>=◌, ◌>>◌, guard,
  or_throw, if◌then◌else◌,
}
use universal_smart_wallet.Registry.Snapshots.{nul_joined}
use universal_smart_wallet.IssuerSigner.{
  KeyStatus, Operation, KeyDescriptor, RotateRequest, DisableRequest, RotationReceipt,
  MutationResult, ApprovalContext, OperationOutcome, ErrorCode, AuditReason, AuditOutcome,
}
use universal_smart_wallet.IssuerSigner.Texts.{Checked, safe_id, safe_time, ensure_key_ref}
use universal_smart_wallet.IssuerSigner.Operations.{OperationStore}
use universal_smart_wallet.IssuerSigner.Approvals.{require_dual_approval}
use universal_smart_wallet.IssuerSigner.Ports.{
  Adapter, Ports, State, same_algorithm, describe_key, provider_code, refuse, end_ambiguous,
  conclude, reserve_then,
}
use universal_smart_wallet.IssuerSigner.Signing.{is_active}

abbrev pub is_standby : KeyStatus → Bool
is_standby KeyStatus.standby = true
is_standby _ = false

abbrev pub is_disabled : KeyStatus → Bool
is_disabled KeyStatus.disabled = true
is_disabled _ = false

module _ {K S : Type 0} (adapter : Adapter K) (store : OperationStore S) (ports : Ports) where
  -- What the adapter's answer leads to: `done` is what follows `completed`.
  unfoldable pub settle_mutation :
      {A : Type 0}
      → ApprovalContext
      → Option MutationResult
      → (State K S → Checked A × State K S)
      → State K S
      → Checked A × State K S
  settle_mutation c none done s = end_ambiguous store ports c ErrorCode.operation_result_ambiguous s
  settle_mutation c (some MutationResult.ambiguous) done s =
      end_ambiguous store ports c ErrorCode.operation_result_ambiguous s
  settle_mutation c (some (MutationResult.rejected code)) done s =
      let (recorded, t) =
        conclude store ports c AuditOutcome.rejected (AuditReason.failed (provider_code code))
          OperationOutcome.rejected s in
      if recorded
      then (err (provider_code code), t)
      else end_ambiguous store ports c ErrorCode.operation_result_ambiguous t
  settle_mutation c (some MutationResult.completed) done s = done s

  unfoldable pub complete_mutation :
      {A : Type 0} → ApprovalContext → AuditReason → A → State K S → Checked A × State K S
  complete_mutation c reason a s =
      let (recorded, t) =
        conclude store ports c AuditOutcome.accepted reason OperationOutcome.completed s in
      if recorded
      then (ok a, t)
      else end_ambiguous store ports c ErrorCode.operation_result_ambiguous t

  module _ (r : RotateRequest) where
    unfoldable pub rotate_fingerprint : String
    rotate_fingerprint =
        ports.digest_text (
          nul_joined "rotate"
            (nul_joined r.tenant_id (nul_joined r.current_key_ref r.next_key_ref)))

    unfoldable pub rotate_context : Checked ApprovalContext
    rotate_context = do
      _ ← safe_id r.request_id
      _ ← safe_id r.tenant_id
      _ ← ensure_key_ref r.current_key_ref
      _ ← ensure_key_ref r.next_key_ref
      at ← safe_time r.at
      guard (not (str_eq r.current_key_ref r.next_key_ref)) ErrorCode.invalid_request
      ok (record {
        request_id = r.request_id;
        tenant_id = r.tenant_id;
        operation = Operation.rotate;
        binding_digest = ports.digest_text (
            nul_joined r.tenant_id
              (nul_joined "rotate" (nul_joined r.current_key_ref r.next_key_ref)));
        at = at;
      })

    unfoldable pub check_rotate : ApprovalContext → K → Checked (Unit {0})
    check_rotate c k = do
      current ← describe_key adapter r.current_key_ref k
      next ← describe_key adapter r.next_key_ref k
      before ← or_throw ErrorCode.key_not_found current
      after ← or_throw ErrorCode.key_not_found next
      guard (is_active before.status && is_standby after.status) ErrorCode.key_not_active
      guard (same_algorithm before.algorithm after.algorithm) ErrorCode.algorithm_mismatch
      require_dual_approval c (ports.approvals_for c)

    -- The new key is active, and the old one is not: the new key's descriptor.
    unfoldable pub confirm_rotated : K → Checked KeyDescriptor
    confirm_rotated k = do
      next ← describe_key adapter r.next_key_ref k
      previous ← describe_key adapter r.current_key_ref k
      after ← or_throw ErrorCode.operation_result_ambiguous next
      guard (is_active after.status) ErrorCode.operation_result_ambiguous
      guard (elim previous [ none ↦ true | some d ↦ not (is_active d.status) ])
          ErrorCode.operation_result_ambiguous
      ok after

    unfoldable pub finish_rotate : ApprovalContext → State K S → Checked RotationReceipt × State K S
    finish_rotate c s = elim (confirm_rotated s.keys) [
      | err code ↦ end_ambiguous store ports c ErrorCode.operation_result_ambiguous s
      | ok after ↦
          complete_mutation c AuditReason.rotated
            (record {
              request_id = r.request_id;
              previous_key_ref = r.current_key_ref;
              active_key_ref = r.next_key_ref;
              active_version = after.version;
            })
            s
    ]

    unfoldable pub attempt_rotate :
        ApprovalContext → State K S → Checked RotationReceipt × State K S
    attempt_rotate c s =
        let (answer, k) = adapter.rotate r.request_id r.current_key_ref r.next_key_ref s.keys in
        settle_mutation c answer (finish_rotate c) (record s { keys = k })

    unfoldable pub rotate : State K S → Checked RotationReceipt × State K S
    rotate s = elim rotate_context [
      | err code ↦ (err code, s)
      | ok c ↦ elim (check_rotate c s.keys) [
        | err code ↦ refuse store ports c code s
        | ok u ↦ reserve_then store ports c rotate_fingerprint (attempt_rotate c) s
      ]
    ]

  module _ (r : DisableRequest) where
    unfoldable pub disable_fingerprint : String
    disable_fingerprint =
        ports.digest_text (nul_joined "disable" (nul_joined r.tenant_id r.key_ref))

    unfoldable pub disable_context : Checked ApprovalContext
    disable_context = do
      _ ← safe_id r.request_id
      _ ← safe_id r.tenant_id
      _ ← ensure_key_ref r.key_ref
      at ← safe_time r.at
      ok (record {
        request_id = r.request_id;
        tenant_id = r.tenant_id;
        operation = Operation.disable;
        binding_digest =
            ports.digest_text (nul_joined r.tenant_id (nul_joined "disable" r.key_ref));
        at = at;
      })

    unfoldable pub check_disable : ApprovalContext → K → Checked (Unit {0})
    check_disable c k = do
      found ← describe_key adapter r.key_ref k
      key ← or_throw ErrorCode.key_not_found found
      guard (not (is_disabled key.status)) ErrorCode.key_disabled
      require_dual_approval c (ports.approvals_for c)

    unfoldable pub confirm_disabled : K → Checked (Unit {0})
    confirm_disabled k = do
      found ← describe_key adapter r.key_ref k
      key ← or_throw ErrorCode.operation_result_ambiguous found
      guard (is_disabled key.status) ErrorCode.operation_result_ambiguous

    unfoldable pub finish_disable : ApprovalContext → State K S → Checked (Unit {0}) × State K S
    finish_disable c s = elim (confirm_disabled s.keys) [
      | err code ↦ end_ambiguous store ports c ErrorCode.operation_result_ambiguous s
      | ok u ↦ complete_mutation c AuditReason.disabled tt s
    ]

    unfoldable pub attempt_disable : ApprovalContext → State K S → Checked (Unit {0}) × State K S
    attempt_disable c s =
        let (answer, k) = adapter.disable r.request_id r.key_ref s.keys in
        settle_mutation c answer (finish_disable c) (record s { keys = k })

    unfoldable pub disable : State K S → Checked (Unit {0}) × State K S
    disable s = elim disable_context [
      | err code ↦ (err code, s)
      | ok c ↦ elim (check_disable c s.keys) [
        | err code ↦ refuse store ports c code s
        | ok u ↦ reserve_then store ports c disable_fingerprint (attempt_disable c) s
      ]
    ]
