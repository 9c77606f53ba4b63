-- ===== src/IssuerSigner/Held.antt =====
-- What `finish` and the ends of `sign`, `rotate` and `disable` of
-- packages/issuer-signer/src/index.ts leave unresolved in the in-memory operation store.
use universal_smart_wallet.Prelude.{
  ℕ, String, Bool, true, false, ◌≡◌, ◌≢◌, ◌⊎◌, inl, inr, sym, subst, List, Option, none, some,
  arith, eq_iff, eq_refl, Bool-cases, Result-cases, lookup, has, if◌then◌else◌, lookup-insert,
  lookup-erase, err,
}
use universal_smart_wallet.IssuerSigner.{
  Algorithm, SignRequest, RotateRequest, DisableRequest, RotationReceipt, Signature, SignResult,
  MutationResult, ApprovalContext, OperationOutcome, ErrorCode, AuditReason, AuditOutcome,
  AuditEvent,
}
use universal_smart_wallet.IssuerSigner.Texts.{Checked}
use universal_smart_wallet.IssuerSigner.Operations.{
  StoredOperation, Operations, reserved, reserve, finish, in_memory,
}
use universal_smart_wallet.IssuerSigner.Ports.{
  Adapter, Ports, State, audit_event, append, mark_ambiguous, audit_ambiguous, end_ambiguous,
  conclude, is_reserved,
}
use universal_smart_wallet.IssuerSigner.Signing.{signature_valid, settle_signed, settle_sign}
use universal_smart_wallet.IssuerSigner.Mutations.{
  settle_mutation, complete_mutation, confirm_rotated, confirm_disabled, finish_rotate,
  finish_disable,
}

-- The fingerprint is unresolved.
pub record Unresolved (fp : String) (o : Operations) : Type 0 where
  pub listed : has fp o.unresolved ≡ true

-- It is unresolved, while the operation `id` has another fingerprint.
pub record Held (fp id : String) (o : Operations) : Type 0 where
  pub open_one : has fp o.unresolved ≡ true
  pub stored : StoredOperation
  pub found : lookup id o.operations ≡ some stored
  pub apart : stored.fingerprint ≢ fp

finish-Held :
    (fp id : String) (outcome : OperationOutcome) (o : Operations)
    → Held fp id o
    → Held fp id (finish id outcome o).1
unfolding finish has
finish-Held fp id outcome o h = record {
  open_one = ground (
    arith,
    h.found,
    lookup-erase h.stored.fingerprint fp o.unresolved,
    eq_iff h.stored.fingerprint fp,
  );
  stored = record (h.stored) { outcome = some outcome };
  found = ground (
    arith,
    h.found,
    lookup-insert id id (record (h.stored) { outcome = some outcome }) o.operations,
    eq_refl id,
  );
  apart = h.apart;
}

-- A reservation keeps what is unresolved, and a new operation has another fingerprint.
pub reserve-Held :
    (fp id other : String) (o : Operations)
    → Unresolved fp o
    → (reserve id other o).0 ≡ reserved
    → Held fp id (reserve id other o).1
unfolding reserve has
reserve-Held fp id other o u h = record {
  open_one = ground (arith, u.listed, lookup-insert other fp id o.unresolved, eq_iff other fp);
  stored = record { fingerprint = other; outcome = none };
  found = ground (
    arith,
    lookup-insert id id (record { fingerprint = other; outcome = none }) o.operations,
    eq_refl id,
  );
  apart = λ e. ground (arith, u.listed);
}

-- Without a reservation the store is as it was.
pub reserve-cases :
    (id other : String) (o : Operations)
    → ((reserve id other o).0 ≡ reserved)
      ⊎ ((is_reserved (some (reserve id other o).0) ≡ err ErrorCode.request_already_used)
          × ((reserve id other o).1 ≡ o))
unfolding reserve
reserve-cases id other o = elim (Bool-cases (has id o.operations)) [
  | inl e ↦ inr (ground arith, ground arith)
  | inr e ↦ elim (Bool-cases (has other o.unresolved)) [
    | inl f ↦ inr (ground arith, ground arith)
    | inr f ↦ inl (ground arith)
  ]
]

abbrev pub St : Type 0 → Type 0
St K = State K Operations

module _ {K : Type 0} (ports : Ports) (c : ApprovalContext) where
  pub append-operations :
      (e : AuditEvent) (s : St K) → (append in_memory ports c e s).1.operations ≡ s.operations
  unfolding append
  append-operations e s = ground arith

  end_ambiguous-operations :
      (A : Type 0) (code : ErrorCode) (s : St K)
      → (end_ambiguous in_memory ports c {A = A} code s).1.operations
        ≡ (finish c.request_id OperationOutcome.ambiguous s.operations).1
  unfolding end_ambiguous audit_ambiguous mark_ambiguous append
  end_ambiguous-operations A code s = ground arith

  conclude-operations :
      (o : AuditOutcome) (reason : AuditReason) (final : OperationOutcome) (s : St K)
      → ((conclude in_memory ports c o reason final s).1.operations ≡ s.operations)
        ⊎ ((conclude in_memory ports c o reason final s).1.operations
            ≡ (finish c.request_id final s.operations).1)
  unfolding conclude append
  conclude-operations o reason final s =
      elim (Bool-cases (ports.appends (audit_event c o reason))) [
        | inl a ↦ inr (ground arith)
        | inr a ↦ inl (ground arith)
      ]

  module _ (fp : String) where
    abbrev pub HeldAt : St K → Type 0
    HeldAt s = Held fp c.request_id s.operations

    end_ambiguous-HeldAt :
        (A : Type 0) (code : ErrorCode) (s : St K)
        → HeldAt s
        → HeldAt (end_ambiguous in_memory ports c {A = A} code s).1
    end_ambiguous-HeldAt A code s h =
        subst (Held fp c.request_id) (sym (end_ambiguous-operations A code s))
          (finish-Held fp c.request_id OperationOutcome.ambiguous s.operations h)

    mark_ambiguous-HeldAt : (s : St K) → HeldAt s → HeldAt (mark_ambiguous in_memory ports c s)
    unfolding mark_ambiguous
    mark_ambiguous-HeldAt s h =
        finish-Held fp c.request_id OperationOutcome.ambiguous s.operations h

    conclude-HeldAt :
        (o : AuditOutcome) (reason : AuditReason) (final : OperationOutcome) (s : St K)
        → HeldAt s
        → HeldAt (conclude in_memory ports c o reason final s).1
    conclude-HeldAt o reason final s h = elim (conclude-operations o reason final s) [
      | inl e ↦ subst (Held fp c.request_id) (sym e) h
      | inr e ↦
          subst (Held fp c.request_id) (sym e) (finish-Held fp c.request_id final s.operations h)
    ]

    either-HeldAt :
        (b : Bool) (A : Type 0) (x y : Checked A × St K)
        → HeldAt x.1
        → HeldAt y.1
        → HeldAt (if b then x else y).1
    either-HeldAt true A x y p q = p
    either-HeldAt false A x y p q = q

    pub settle_mutation-HeldAt :
        (adapter : Adapter K) (A : Type 0) (answer : Option MutationResult)
        (done : St K → Checked A × St K) (s : St K)
        → ((t : St K) → HeldAt t → HeldAt (done t).1)
        → HeldAt s
        → HeldAt (settle_mutation adapter in_memory ports c answer done s).1
    unfolding settle_mutation
    settle_mutation-HeldAt adapter A none done s k h = end_ambiguous-HeldAt A _ s h
    settle_mutation-HeldAt adapter A (some MutationResult.ambiguous) done s k h =
        end_ambiguous-HeldAt A _ s h
    settle_mutation-HeldAt adapter A (some MutationResult.completed) done s k h = k s h
    settle_mutation-HeldAt adapter A (some (MutationResult.rejected code)) done s k h =
        let held = conclude-HeldAt _ _ _ s h in
        either-HeldAt _ A _ _ held (end_ambiguous-HeldAt A _ _ held)

    complete_mutation-HeldAt :
        (adapter : Adapter K) (A : Type 0) (reason : AuditReason) (a : A) (s : St K)
        → HeldAt s
        → HeldAt (complete_mutation adapter in_memory ports c reason a s).1
    unfolding complete_mutation
    complete_mutation-HeldAt adapter A reason a s h =
        let held = conclude-HeldAt AuditOutcome.accepted reason OperationOutcome.completed s h in
        either-HeldAt _ A _ _ held (end_ambiguous-HeldAt A _ _ held)

    settle_signed-HeldAt :
        (adapter : Adapter K) (r : SignRequest) (bytes : List ℕ) (algorithm : Algorithm)
        (version : String) (s : St K)
        → HeldAt s
        → HeldAt (settle_signed adapter in_memory ports r c bytes algorithm version s).1
    unfolding settle_signed
    settle_signed-HeldAt adapter r bytes algorithm version s h =
        let held =
          conclude-HeldAt AuditOutcome.accepted AuditReason.signed OperationOutcome.signed s h in
        elim (Bool-cases (signature_valid adapter in_memory ports r algorithm version bytes)) [
          | inr e ↦ rw (e) (end_ambiguous-HeldAt Signature _ s h)
          | inl e ↦ rw (e) (either-HeldAt _ Signature _ _ held (mark_ambiguous-HeldAt _ held))
        ]

    pub settle_sign-HeldAt :
        (adapter : Adapter K) (r : SignRequest) (answer : Option SignResult) (s : St K)
        → HeldAt s
        → HeldAt (settle_sign adapter in_memory ports r c answer s).1
    unfolding settle_sign
    settle_sign-HeldAt adapter r none s h = end_ambiguous-HeldAt Signature _ s h
    settle_sign-HeldAt adapter r (some SignResult.ambiguous) s h =
        end_ambiguous-HeldAt Signature _ s h
    settle_sign-HeldAt adapter r (some (SignResult.rejected code)) s h =
        let held = conclude-HeldAt _ _ _ s h in
        either-HeldAt _ Signature _ _ held (mark_ambiguous-HeldAt _ held)
    settle_sign-HeldAt adapter r (some (SignResult.signed bytes algorithm version)) s h =
        settle_signed-HeldAt adapter r bytes algorithm version s h

    pub finish_rotate-HeldAt :
        (adapter : Adapter K) (r : RotateRequest) (s : St K)
        → HeldAt s
        → HeldAt (finish_rotate adapter in_memory ports r c s).1
    unfolding finish_rotate
    finish_rotate-HeldAt adapter r s h =
        elim (Result-cases (confirm_rotated adapter in_memory ports r s.keys)) [
          | inr (e, ee) ↦ rw (ee, finish_rotate) (end_ambiguous-HeldAt RotationReceipt _ s h)
          | inl (d, ed) ↦
              rw (ed, finish_rotate) (complete_mutation-HeldAt adapter RotationReceipt _ _ s h)
        ]

    pub finish_disable-HeldAt :
        (adapter : Adapter K) (r : DisableRequest) (s : St K)
        → HeldAt s
        → HeldAt (finish_disable adapter in_memory ports r c s).1
    unfolding finish_disable
    finish_disable-HeldAt adapter r s h =
        elim (Result-cases (confirm_disabled adapter in_memory ports r s.keys)) [
          | inr (e, ee) ↦ rw (ee, finish_disable) (end_ambiguous-HeldAt (Unit {0}) _ s h)
          | inl (d, ed) ↦
              rw (ed, finish_disable) (complete_mutation-HeldAt adapter (Unit {0}) _ _ s h)
        ]
