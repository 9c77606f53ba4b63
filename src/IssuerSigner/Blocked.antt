-- ===== src/IssuerSigner/Blocked.antt =====
-- The in-memory operation store under `sign`, `rotate` and `disable` of
-- packages/issuer-signer/src/index.ts: what is unresolved stays so.
use universal_smart_wallet.Prelude.{String, inl, inr, sym, subst, Result-cases}
use universal_smart_wallet.IssuerSigner.{
  SignRequest, RotateRequest, DisableRequest, RotationReceipt, Signature, ApprovalContext,
  ErrorCode,
}
use universal_smart_wallet.IssuerSigner.Texts.{Checked}
use universal_smart_wallet.IssuerSigner.Operations.{reserve, in_memory}
use universal_smart_wallet.IssuerSigner.Ports.{Adapter, Ports, refuse, reserve_then}
use universal_smart_wallet.IssuerSigner.Signing.{
  sign_fingerprint, sign_context, check_sign, attempt_sign, sign,
}
use universal_smart_wallet.IssuerSigner.Mutations.{
  rotate_fingerprint, rotate_context, check_rotate, disable_fingerprint, disable_context,
  check_disable, attempt_rotate, rotate, attempt_disable, disable,
}
use universal_smart_wallet.IssuerSigner.Held.{
  reserve-Held, append-operations, settle_mutation-HeldAt, settle_sign-HeldAt, finish_rotate-HeldAt,
  finish_disable-HeldAt, HeldAt, St, Unresolved, reserve-cases,
}

-- What is unresolved stays so through every call.
module _ {K : Type 0} (adapter : Adapter K) (ports : Ports) (fp : String) where
  refuse-Unresolved :
      (c : ApprovalContext) (A : Type 0) (code : ErrorCode) (s : St K)
      → Unresolved fp s.operations
      → Unresolved fp (refuse in_memory ports c {A = A} code s).1.operations
  unfolding refuse
  refuse-Unresolved c A code s u = subst (Unresolved fp) (sym (append-operations ports c _ s)) u

  reserve_then-Unresolved :
      (c : ApprovalContext) (A : Type 0) (other : String) (next : St K → Checked A × St K)
      (s : St K)
      → ((t : St K) → HeldAt ports c fp t → HeldAt ports c fp (next t).1)
      → Unresolved fp s.operations
      → Unresolved fp (reserve_then in_memory ports c other next s).1.operations
  unfolding reserve_then
  reserve_then-Unresolved c A other next s k u =
      elim (reserve-cases c.request_id other s.operations) [
        | inl e ↦
            rw (e, reserve_then)
              (record {
                listed =
                    (k (record s { operations = (reserve c.request_id other s.operations).1 })
                      (reserve-Held fp c.request_id other s.operations u e)).open_one;
              })
        | inr (e, same) ↦ rw (e, reserve_then, same) u
      ]

  pub sign-Unresolved :
      (r : SignRequest) (s : St K)
      → Unresolved fp s.operations
      → Unresolved fp (sign adapter in_memory ports r s).1.operations
  unfolding sign attempt_sign
  sign-Unresolved r s u = elim (Result-cases (sign_context ports r)) [
    | inr (e, ee) ↦ rw (ee, sign) u
    | inl (c, ec) ↦ elim (Result-cases (check_sign adapter in_memory ports r c s.keys)) [
      | inr (e, ee) ↦ rw (ec, ee, sign) (refuse-Unresolved c Signature e s u)
      | inl (key, ek) ↦
          rw (ec, ek, sign)
            (reserve_then-Unresolved c Signature (sign_fingerprint ports r)
              (attempt_sign adapter in_memory ports r c) s
              (λ t. settle_sign-HeldAt ports c fp adapter r _ _) u)
    ]
  ]

  pub rotate-Unresolved :
      (r : RotateRequest) (s : St K)
      → Unresolved fp s.operations
      → Unresolved fp (rotate adapter in_memory ports r s).1.operations
  unfolding rotate attempt_rotate
  rotate-Unresolved r s u = elim (Result-cases (rotate_context adapter in_memory ports r)) [
    | inr (e, ee) ↦ rw (ee, rotate) u
    | inl (c, ec) ↦ elim (Result-cases (check_rotate adapter in_memory ports r c s.keys)) [
      | inr (e, ee) ↦ rw (ec, ee, rotate) (refuse-Unresolved c RotationReceipt e s u)
      | inl (key, ek) ↦
          rw (ec, ek, rotate)
            (reserve_then-Unresolved c RotationReceipt
              (rotate_fingerprint adapter in_memory ports r)
              (attempt_rotate adapter in_memory ports r c) s
              (λ t.
                settle_mutation-HeldAt ports c fp adapter RotationReceipt _ _ _
                  (finish_rotate-HeldAt ports c fp adapter r))
              u)
    ]
  ]

  pub disable-Unresolved :
      (r : DisableRequest) (s : St K)
      → Unresolved fp s.operations
      → Unresolved fp (disable adapter in_memory ports r s).1.operations
  unfolding disable attempt_disable
  disable-Unresolved r s u = elim (Result-cases (disable_context adapter in_memory ports r)) [
    | inr (e, ee) ↦ rw (ee, disable) u
    | inl (c, ec) ↦ elim (Result-cases (check_disable adapter in_memory ports r c s.keys)) [
      | inr (e, ee) ↦ rw (ec, ee, disable) (refuse-Unresolved c (Unit {0}) e s u)
      | inl (key, ek) ↦
          rw (ec, ek, disable)
            (reserve_then-Unresolved c (Unit {0}) (disable_fingerprint adapter in_memory ports r)
              (attempt_disable adapter in_memory ports r c) s
              (λ t.
                settle_mutation-HeldAt ports c fp adapter (Unit {0}) _ _ _
                  (finish_disable-HeldAt ports c fp adapter r))
              u)
    ]
  ]
