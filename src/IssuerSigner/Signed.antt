-- ===== src/IssuerSigner/Signed.antt =====
-- What stands behind a signature that `sign` of packages/issuer-signer/src/index.ts returns, and what
-- is needed before the adapter is called.
use universal_smart_wallet.Prelude.{
  ℕ, String, true, ◌&&◌, ◌≡◌, ◌≢◌, ◌⊎◌, inl, inr, refl, List, [], ◌∷◌, map, all, Option, none, some,
  arith, leb, Any, here, there, includes, str_eq, eq_iff, Bool-cases, Result-cases, ok, err,
}
use universal_smart_wallet.IssuerSigner.{
  Algorithm, KeyDescriptor, SignRequest, Signature, SignResult, ApprovalContext, ApprovalEvidence,
  ErrorCode,
}
use universal_smart_wallet.IssuerSigner.Operations.{
  OperationStore, Reserved, reserved, duplicate_request, unresolved_operation,
}
use universal_smart_wallet.IssuerSigner.Approvals.{
  is_bound, is_current, set_size, require_dual_approval,
}
use universal_smart_wallet.IssuerSigner.Ports.{
  Adapter, Ports, State, same_algorithm, describe_key, append, refuse, end_ambiguous, is_reserved,
  reserve_then,
}
use universal_smart_wallet.IssuerSigner.Signing.{
  is_active, sign_fingerprint, sign_context, check_sign, signature_valid, settle_signed,
  settle_sign, attempt_sign, sign,
}

-- Two different people approved this very request, in approvals that are current.
pub record DuallyApproved (c : ApprovalContext) (evidence : List ApprovalEvidence) : Type 0 where
  pub each : all (λ a. is_bound c a && is_current c a) evidence ≡ true
  pub one : String
  pub other : String
  pub apart : one ≢ other
  pub has_one : Any (λ a. a.approver_id ≡ one) evidence
  pub has_other : Any (λ a. a.approver_id ≡ other) evidence

abbrev approver : ApprovalEvidence → String
approver a = a.approver_id

-- A list with two elements in its set has two that differ.
two_apart :
    (xs : List ApprovalEvidence)
    → leb 2 (set_size (map approver xs)) ≡ true
    → (x : String) × (y : String) × (x ≢ y)
      × Any (λ a. a.approver_id ≡ x) xs
      × Any (λ a. a.approver_id ≡ y) xs
unfolding set_size includes
two_apart [] h = absurd (ground arith)
two_apart (a ∷ []) h = absurd (ground arith)
two_apart (a ∷ b ∷ xs) h = elim (Bool-cases (str_eq b.approver_id a.approver_id)) [
  | inr e ↦
      let apart : a.approver_id ≢ b.approver_id =
        λ q. ground (arith, eq_iff b.approver_id a.approver_id) in
      (a.approver_id, b.approver_id, apart, here refl, there (here refl))
  | inl e ↦ let (x, y, d, p, q) = two_apart (b ∷ xs) (ground arith) in (x, y, d, there p, there q)
]

require_dual_approval-DuallyApproved :
    (c : ApprovalContext) (answer : Option (List ApprovalEvidence)) {u : Unit {0}}
    → require_dual_approval c answer ≡ ok u
    → (evidence : List ApprovalEvidence) × (answer ≡ some evidence) × DuallyApproved c evidence
unfolding require_dual_approval
require_dual_approval-DuallyApproved c none h = absurd (ground arith)
require_dual_approval-DuallyApproved c (some evidence) h =
    let (x, y, d, p, q) = two_apart evidence (ground arith) in
    (
      evidence,
      refl,
      record { each = ground arith; one = x; other = y; apart = d; has_one = p; has_other = q },
    )

reserved-cases :
    (o : Option Reserved) → (o ≡ some reserved) ⊎ ((e : ErrorCode) × (is_reserved o ≡ err e))
reserved-cases none = inr (_, refl)
reserved-cases (some reserved) = inl refl
reserved-cases (some duplicate_request) = inr (_, refl)
reserved-cases (some unresolved_operation) = inr (_, refl)

module _ {K S : Type 0} (adapter : Adapter K) (store : OperationStore S) (ports : Ports)
    (r : SignRequest) where
  -- What holds before the adapter may be called for a signature.
  pub record Cleared (s : State K S) (c : ApprovalContext) : Type 0 where
    pub context : sign_context ports r ≡ ok c
    pub key : KeyDescriptor
    pub described : describe_key adapter r.key_ref s.keys ≡ ok (some key)
    pub active : is_active key.status ≡ true
    pub algorithm : same_algorithm key.algorithm r.algorithm ≡ true
    pub evidence : List ApprovalEvidence
    pub given : ports.approvals_for c ≡ some evidence
    pub approved : DuallyApproved c evidence
    pub reservation :
        (store.reserve c.request_id c.operation (sign_fingerprint ports r) s.operations).0
        ≡ some reserved

  -- The adapter's answer is what `sign` returns, and it was audited and recorded.
  pub record Returned (s : State K S) (g : Signature) : Type 0 where
    pub bytes : List ℕ
    pub algorithm : Algorithm
    pub version : String
    pub answer :
        (adapter.sign r.request_id r.key_ref r.algorithm r.payload s.keys).0
        ≡ some (SignResult.signed bytes algorithm version)
    pub valid : signature_valid adapter store ports r algorithm version bytes ≡ true
    pub result : g ≡ record {
      request_id = r.request_id;
      key_ref = r.key_ref;
      key_version = version;
      algorithm = r.algorithm;
      signature = bytes;
    }

  check_sign-Cleared :
      (s : State K S) (c : ApprovalContext) (key : KeyDescriptor)
      → sign_context ports r ≡ ok c
      → check_sign adapter store ports r c s.keys ≡ ok key
      → (store.reserve c.request_id c.operation (sign_fingerprint ports r) s.operations).0
        ≡ some reserved
      → Cleared s c
  unfolding check_sign
  check_sign-Cleared s c key ec h hr =
      elim (Result-cases (require_dual_approval c (ports.approvals_for c))) [
        | inr (e, ee) ↦ absurd (ground arith)
        | inl (u, eu) ↦
            let (evidence, given, approved) =
              require_dual_approval-DuallyApproved c (ports.approvals_for c) eu in
            record {
              context = ec;
              key = key;
              described = ground arith;
              active = ground arith;
              algorithm = ground arith;
              evidence = evidence;
              given = given;
              approved = approved;
              reservation = hr;
            }
      ]

  abbrev reservation : ApprovalContext → State K S → Option Reserved × S
  reservation c s = store.reserve c.request_id c.operation (sign_fingerprint ports r) s.operations

  -- `sign` does not change the adapter's state unless the request is in order, the key is active
  -- with the requested algorithm, two different people approved this very request, and the
  -- operation was reserved.
  pub sign-Cleared :
      (s : State K S)
      → ((sign adapter store ports r s).1.keys ≡ s.keys) ⊎ ((c : ApprovalContext) × Cleared s c)
  unfolding sign reserve_then refuse append
  sign-Cleared s = elim (Result-cases (sign_context ports r)) [
    | inr (e, ee) ↦ inl (ground arith)
    | inl (c, ec) ↦ elim (Result-cases (check_sign adapter store ports r c s.keys)) [
      | inr (e, ee) ↦ inl (ground arith)
      | inl (key, ek) ↦ elim (reserved-cases (reservation c s).0) [
        | inl e ↦ inr (c, check_sign-Cleared s c key ec ek e)
        | inr (code, e) ↦ inl (ground arith)
      ]
    ]
  ]

  settle_sign-Returned :
      (c : ApprovalContext) (answer : Option SignResult) (s : State K S) (g : Signature)
      → (settle_sign adapter store ports r c answer s).0 ≡ ok g
      → (bytes : List ℕ) × (algorithm : Algorithm) × (version : String) × (answer
          ≡ some (SignResult.signed bytes algorithm version))
        × (signature_valid adapter store ports r algorithm version bytes ≡ true)
        × (g ≡ record {
          request_id = r.request_id;
          key_ref = r.key_ref;
          key_version = version;
          algorithm = r.algorithm;
          signature = bytes;
        })
  unfolding settle_sign settle_signed end_ambiguous
  settle_sign-Returned c none s g h = absurd (ground arith)
  settle_sign-Returned c (some SignResult.ambiguous) s g h = absurd (ground arith)
  settle_sign-Returned c (some (SignResult.rejected code)) s g h = absurd (ground arith)
  settle_sign-Returned c (some (SignResult.signed bytes algorithm version)) s g h =
      (bytes, algorithm, version, refl, ground arith, ground arith)

  -- `sign` returns a signature only if the request was in order, the key active with the requested
  -- algorithm, the request approved by two different people in current approvals for it, and the
  -- operation reserved; and the signature is what the adapter answers to this request on the state
  -- before the call: of the requested algorithm, not empty and at most 8192 bytes.
  pub sign-Returned :
      (s : State K S) (g : Signature)
      → (sign adapter store ports r s).0 ≡ ok g
      → ((c : ApprovalContext) × Cleared s c) × Returned s g
  unfolding sign reserve_then refuse attempt_sign
  sign-Returned s g h = elim (Result-cases (sign_context ports r)) [
    | inr (e, ee) ↦ absurd (ground arith)
    | inl (c, ec) ↦ elim (Result-cases (check_sign adapter store ports r c s.keys)) [
      | inr (e, ee) ↦ absurd (ground arith)
      | inl (key, ek) ↦ elim (reserved-cases (reservation c s).0) [
        | inr (code, e) ↦ absurd (ground arith)
        | inl e ↦
            let called = adapter.sign r.request_id r.key_ref r.algorithm r.payload s.keys in
            let (bytes, algorithm, version, answer, valid, result) =
              settle_sign-Returned c called.0
                (record s { operations = (reservation c s).1; keys = called.1 }) g (ground arith) in
            (
              (c, check_sign-Cleared s c key ec ek e),
              record {
                bytes = bytes;
                algorithm = algorithm;
                version = version;
                answer = answer;
                valid = valid;
                result = result;
              },
            )
      ]
    ]
  ]
