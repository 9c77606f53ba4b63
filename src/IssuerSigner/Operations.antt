-- ===== src/IssuerSigner/Operations.antt =====
-- `IssuerOperationStore` and `InMemoryIssuerOperationStore` of packages/issuer-signer/src/index.ts.
use universal_smart_wallet.Prelude.{
  String, Bool, true, false, Option, none, some, Map, lookup, insert, erase, has, if◌then◌else◌,
}
use universal_smart_wallet.IssuerSigner.{Operation, OperationOutcome}

pub data Reserved : Type 0 where
  reserved duplicate_request unresolved_operation : Reserved

-- The operations of the interface, on a state: `none`, and a `finish` that is false, are promises
-- that are rejected.
pub record OperationStore (S : Type 0) : Type 0 where
  pub reserve : String → Operation → String → S → Option Reserved × S
  pub finish : String → OperationOutcome → S → Bool × S

-- `none` is the outcome `pending`.
pub record StoredOperation : Type 0 where
  pub fingerprint : String
  pub outcome : Option OperationOutcome

pub record Operations : Type 0 where
  pub operations : Map StoredOperation
  pub unresolved : Map String

unfoldable pub reserve : String → String → Operations → Reserved × Operations
reserve id fingerprint o =
    if has id o.operations
    then (duplicate_request, o)
    else if has fingerprint o.unresolved
    then (unresolved_operation, o)
    else (
      reserved,
      record o {
        operations = insert id (record { fingerprint = fingerprint; outcome = none }) o.operations;
        unresolved = insert fingerprint id o.unresolved;
      },
    )

abbrev pub is_ambiguous : OperationOutcome → Bool
is_ambiguous OperationOutcome.ambiguous = true
is_ambiguous _ = false

unfoldable pub finish : String → OperationOutcome → Operations → Bool × Operations
finish id outcome o = elim (lookup id o.operations) [
  | none ↦ (false, o)
  | some stored ↦ (
    true,
    record o {
      operations = insert id (record stored { outcome = some outcome }) o.operations;
      unresolved =
          if is_ambiguous outcome then o.unresolved else erase stored.fingerprint o.unresolved;
    },
  )
]

abbrev pub in_memory : OperationStore Operations
in_memory = record {
  reserve = λ id operation fingerprint o. let (r, p) = reserve id fingerprint o in (some r, p);
  finish = finish;
}
