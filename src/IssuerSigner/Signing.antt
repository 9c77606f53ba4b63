-- ===== src/IssuerSigner/Signing.antt =====
-- `InstitutionalIssuerSigner.sign` of packages/issuer-signer/src/index.ts: the checks before the
-- provider, the reservation, one attempt of the adapter, and what becomes of its answer.
use universal_smart_wallet.Prelude.{
  ℕ, String, Bool, true, false, ◌&&◌, List, Option, none, some, ok, err, ◌>>=◌, ◌>>◌, guard,
  or_throw, if◌then◌else◌,
}
use universal_smart_wallet.Registry.Snapshots.{nul_joined}
use universal_smart_wallet.IssuerSigner.{
  Algorithm, es256, eddsa, KeyStatus, Operation, KeyDescriptor, SignRequest, Signature, SignResult,
  ApprovalContext, OperationOutcome, ErrorCode, AuditReason, AuditOutcome,
}
use universal_smart_wallet.IssuerSigner.Texts.{
  Checked, between, is_id, safe_id, safe_time, ensure_key_ref, ensure_payload,
}
use universal_smart_wallet.IssuerSigner.Operations.{OperationStore}
use universal_smart_wallet.IssuerSigner.Approvals.{require_dual_approval}
use universal_smart_wallet.IssuerSigner.Ports.{
  Adapter, Ports, State, same_algorithm, describe_key, provider_code, key_state_code, refuse,
  mark_ambiguous, end_ambiguous, conclude, reserve_then,
}

abbrev pub algorithm_name : Algorithm → String
algorithm_name es256 = "ES256"
algorithm_name eddsa = "EdDSA"

abbrev pub is_active : KeyStatus → Bool
is_active KeyStatus.active = true
is_active _ = false

-- `${tenantId}\0sign\0${keyRef}\0${algorithm}\0${contentDigest}`
abbrev pub sign_binding : Ports → SignRequest → String
sign_binding ports r = ports.digest_text (
    nul_joined r.tenant_id (
      nul_joined "sign" (
        nul_joined r.key_ref
          (nul_joined (algorithm_name r.algorithm) (ports.digest_bytes r.payload)))))

-- `sign\0${tenantId}\0${keyRef}\0${contentDigest}`
unfoldable pub sign_fingerprint : Ports → SignRequest → String
sign_fingerprint ports r = ports.digest_text (
    nul_joined "sign"
      (nul_joined r.tenant_id (nul_joined r.key_ref (ports.digest_bytes r.payload))))

unfoldable pub sign_context : Ports → SignRequest → Checked ApprovalContext
sign_context ports r = do
  _ ← safe_id r.request_id
  _ ← safe_id r.tenant_id
  _ ← ensure_key_ref r.key_ref
  _ ← ensure_payload r.payload
  at ← safe_time r.at
  ok (record {
    request_id = r.request_id;
    tenant_id = r.tenant_id;
    operation = Operation.sign;
    binding_digest = sign_binding ports r;
    at = at;
  })

module _ {K S : Type 0} (adapter : Adapter K) (store : OperationStore S) (ports : Ports)
    (r : SignRequest) where
  -- The checks before the provider.
  unfoldable pub check_sign : ApprovalContext → K → Checked KeyDescriptor
  check_sign c k = do
    found ← describe_key adapter r.key_ref k
    key ← or_throw ErrorCode.key_not_found found
    guard (is_active key.status) (key_state_code key.status)
    guard (same_algorithm key.algorithm r.algorithm) ErrorCode.algorithm_mismatch
    require_dual_approval c (ports.approvals_for c)
    ok key

  -- The answer is of the algorithm asked for, with a version and a signature of at most 8192 bytes.
  unfoldable pub signature_valid : Algorithm → String → List ℕ → Bool
  signature_valid algorithm version bytes =
      same_algorithm algorithm r.algorithm && is_id version && between 1 8192 bytes

  unfoldable pub settle_signed :
      ApprovalContext → List ℕ → Algorithm → String → State K S → Checked Signature × State K S
  settle_signed c bytes algorithm version s =
      if signature_valid algorithm version bytes
      then (let (done, t) =
            conclude store ports c AuditOutcome.accepted AuditReason.signed OperationOutcome.signed
              s in
          if done
          then (
            ok (record {
              request_id = r.request_id;
              key_ref = r.key_ref;
              key_version = version;
              algorithm = r.algorithm;
              signature = bytes;
            }),
            t,
          )
          else (err ErrorCode.signing_result_ambiguous, mark_ambiguous store ports c t))
      else end_ambiguous store ports c ErrorCode.signing_result_ambiguous s

  unfoldable pub settle_sign :
      ApprovalContext → Option SignResult → State K S → Checked Signature × State K S
  settle_sign c none s = end_ambiguous store ports c ErrorCode.signing_result_ambiguous s
  settle_sign c (some SignResult.ambiguous) s =
      end_ambiguous store ports c ErrorCode.signing_result_ambiguous s
  settle_sign c (some (SignResult.rejected code)) s =
      let (done, t) =
        conclude store ports c AuditOutcome.rejected (AuditReason.failed (provider_code code))
          OperationOutcome.rejected s in
      if done
      then (err (provider_code code), t)
      else (err ErrorCode.signing_result_ambiguous, mark_ambiguous store ports c t)
  settle_sign c (some (SignResult.signed bytes algorithm version)) s =
      settle_signed c bytes algorithm version s

  -- One attempt of the adapter, under the request's identifier.
  unfoldable pub attempt_sign : ApprovalContext → State K S → Checked Signature × State K S
  attempt_sign c s =
      let (answer, k) = adapter.sign r.request_id r.key_ref r.algorithm r.payload s.keys in
      settle_sign c answer (record s { keys = k })

  unfoldable pub sign : State K S → Checked Signature × State K S
  sign s = elim (sign_context ports r) [
    | err code ↦ (err code, s)
    | ok c ↦ elim (check_sign c s.keys) [
      | err code ↦ refuse store ports c code s
      | ok key ↦ reserve_then store ports c (sign_fingerprint ports r) (attempt_sign c) s
    ]
  ]
