-- ===== src/IssuerSigner/Retried.antt =====
-- Signing after an unknown outcome, in packages/issuer-signer/src/index.ts with the in-memory operation
-- store.
use universal_smart_wallet.Prelude.{
  true, false, ◌≡◌, ◌≢◌, subst, sym, List, [], ◌∷◌, arith, String, Option, none, Result-cases, has,
  lookup-insert, eq_refl, err, is_ok, inl, inr,
}
use universal_smart_wallet.IssuerSigner.{
  SignRequest, RotateRequest, DisableRequest, SignResult, ApprovalContext, ErrorCode,
}
use universal_smart_wallet.IssuerSigner.Operations.{
  Operations, reserved, reserve, finish, in_memory,
}
use universal_smart_wallet.IssuerSigner.Approvals.{require_dual_approval}
use universal_smart_wallet.IssuerSigner.Texts.{safe_id, safe_time, ensure_key_ref, ensure_payload}
use universal_smart_wallet.IssuerSigner.Ports.{
  Adapter, Ports, describe_key, ensure_descriptor, append, refuse, mark_ambiguous, audit_ambiguous,
  end_ambiguous, conclude, reserve_then,
}
use universal_smart_wallet.IssuerSigner.Signing.{
  sign_fingerprint, sign_context, check_sign, settle_signed, settle_sign, attempt_sign, sign,
}
use universal_smart_wallet.IssuerSigner.Mutations.{rotate, disable}
use universal_smart_wallet.IssuerSigner.Held.{St, Unresolved, reserve-cases}
use universal_smart_wallet.IssuerSigner.Blocked.{
  sign-Unresolved, rotate-Unresolved, disable-Unresolved,
}

pub data Call : Type 0 where
  signs : SignRequest → Call
  rotates : RotateRequest → Call
  disables : DisableRequest → Call

-- Each call has its own ports.
unfoldable pub step : {K : Type 0} → Adapter K → St K → Ports × Call → St K
step adapter s (ports, signs r) = (sign adapter in_memory ports r s).1
step adapter s (ports, rotates r) = (rotate adapter in_memory ports r s).1
step adapter s (ports, disables r) = (disable adapter in_memory ports r s).1

unfoldable pub run : {K : Type 0} → Adapter K → St K → List (Ports × Call) → St K
run adapter s [] = s
run adapter s (call ∷ calls) = run adapter (step adapter s call) calls

run-Unresolved :
    {K : Type 0} (adapter : Adapter K) (fp : String) (calls : List (Ports × Call)) (s : St K)
    → Unresolved fp s.operations
    → Unresolved fp (run adapter s calls).operations
unfolding run step
run-Unresolved adapter fp [] s u = u
run-Unresolved adapter fp ((ports, signs r) ∷ calls) s u =
    run-Unresolved adapter fp calls _ (sign-Unresolved adapter ports fp r s u)
run-Unresolved adapter fp ((ports, rotates r) ∷ calls) s u =
    run-Unresolved adapter fp calls _ (rotate-Unresolved adapter ports fp r s u)
run-Unresolved adapter fp ((ports, disables r) ∷ calls) s u =
    run-Unresolved adapter fp calls _ (disable-Unresolved adapter ports fp r s u)

reserved-Unresolved :
    (id fp : String) (o : Operations)
    → (reserve id fp o).0 ≡ reserved
    → (has id (reserve id fp o).1.operations ≡ true)
      × (has fp (reserve id fp o).1.unresolved ≡ true)
unfolding reserve has
reserved-Unresolved id fp o h = (
  ground (
    arith,
    lookup-insert id id (record { fingerprint = fp; outcome = none }) o.operations,
    eq_refl id,
  ),
  ground (arith, lookup-insert fp fp id o.unresolved, eq_refl fp),
)

module _ {K : Type 0} (adapter : Adapter K) (ports : Ports) (r : SignRequest) (s : St K) where
  -- A signature of an operation that is unresolved is refused before the adapter.
  Unresolved-refused :
      Unresolved (sign_fingerprint ports r) s.operations
      → ((sign adapter in_memory ports r s).1.keys ≡ s.keys)
        × (is_ok (sign adapter in_memory ports r s).0 ≡ false)
  unfolding sign refuse append reserve_then reserve
  Unresolved-refused u = elim (Result-cases (sign_context ports r)) [
    | inr (x, ex) ↦ (ground arith, ground arith)
    | inl (c, ec) ↦ elim (Result-cases (check_sign adapter in_memory ports r c s.keys)) [
      | inr (x, ex) ↦ (ground arith, ground arith)
      | inl (key, ek) ↦ (ground (arith, u.listed), ground (arith, u.listed))
    ]
  ]

  -- None of the checks before the provider has the code of an unknown outcome.
  checks-known :
      (c : ApprovalContext)
      → check_sign adapter in_memory ports r c s.keys ≢ err ErrorCode.signing_result_ambiguous
  unfolding check_sign describe_key ensure_key_ref ensure_descriptor require_dual_approval
  checks-known c h = ground arith

  context-known : sign_context ports r ≢ err ErrorCode.signing_result_ambiguous
  unfolding sign_context safe_id safe_time ensure_key_ref ensure_payload
  context-known h = ground arith

  -- After the reservation, an unknown outcome leaves the operation unresolved.
  settled-Unresolved :
      (c : ApprovalContext) (answer : Option SignResult) (fp : String) (t : St K)
      → has c.request_id t.operations.operations ≡ true
      → Unresolved fp t.operations
      → (settle_sign adapter in_memory ports r c answer t).0
        ≡ err ErrorCode.signing_result_ambiguous
      → Unresolved fp (settle_sign adapter in_memory ports r c answer t).1.operations
  unfolding settle_sign settle_signed end_ambiguous conclude mark_ambiguous audit_ambiguous append
      finish has
  settled-Unresolved c answer fp t h u e = record { listed = ground (arith, u.listed) }

  ambiguous-Unresolved :
      (sign adapter in_memory ports r s).0 ≡ err ErrorCode.signing_result_ambiguous
      → Unresolved (sign_fingerprint ports r) (sign adapter in_memory ports r s).1.operations
  unfolding sign refuse reserve_then attempt_sign
  ambiguous-Unresolved h = elim (Result-cases (sign_context ports r)) [
    | inr (x, ex) ↦ absurd (context-known (ground arith))
    | inl (c, ec) ↦ elim (Result-cases (check_sign adapter in_memory ports r c s.keys)) [
      | inr (x, ex) ↦ absurd (checks-known c (ground arith))
      | inl (key, ek) ↦ elim (reserve-cases c.request_id (sign_fingerprint ports r) s.operations) [
        | inr (ex, same) ↦ absurd (ground arith)
        | inl e ↦
            let both = reserved-Unresolved c.request_id (sign_fingerprint ports r) s.operations e in
            let o = (reserve c.request_id (sign_fingerprint ports r) s.operations).1 in
            let called = adapter.sign r.request_id r.key_ref r.algorithm r.payload s.keys in
            let settled =
              settled-Unresolved c called.0 (sign_fingerprint ports r)
                (record s { keys = called.1; operations = o }) both.0 (record { listed = both.1 })
                (ground arith) in
            record { listed = ground (arith, settled.listed) }
      ]
    ]
  ]

-- With the in-memory store, after `sign` ended with `SIGNING_RESULT_AMBIGUOUS`, a request of the
-- same fingerprint, under any identifier, returns no signature and leaves the adapter as it is,
-- whatever signatures, rotations and disablings were asked for in between.
pub ambiguous_blocks :
    {K : Type 0} (adapter : Adapter K) (ports later : Ports) (r q : SignRequest) (s : St K)
    (calls : List (Ports × Call))
    → (sign adapter in_memory ports r s).0 ≡ err ErrorCode.signing_result_ambiguous
    → sign_fingerprint later q ≡ sign_fingerprint ports r
    → ((sign adapter in_memory later q
          (run adapter (sign adapter in_memory ports r s).1 calls)).1.keys
        ≡ (run adapter (sign adapter in_memory ports r s).1 calls).keys)
      × (is_ok
            (sign adapter in_memory later q
              (run adapter (sign adapter in_memory ports r s).1 calls)).0
          ≡ false)
ambiguous_blocks adapter ports later r q s calls h e =
    let first = (sign adapter in_memory ports r s).1 in
    Unresolved-refused adapter later q (run adapter first calls) (
      subst (λ fp. Unresolved fp (run adapter first calls).operations) (sym e)
        (run-Unresolved adapter (sign_fingerprint ports r) calls first
          (ambiguous-Unresolved adapter ports r s h)))
