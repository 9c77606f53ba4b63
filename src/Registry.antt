-- ===== src/Registry.antt =====
-- packages/trust-registry/src/index.ts: the signed, off-chain trust and status registry. This file
-- has its data: authorizations, snapshots, requests and decisions. `Parse` reads and checks
-- snapshots, `Canonical` writes the signing payload, `Verify` checks signatures, `Decide` evaluates
-- a snapshot and `Cache` is the `SignedSnapshotCache`; the modules below those hold the proofs.
pub mod Parse
pub mod Examples
pub mod Snapshots
pub mod Canonical
pub mod Verify
pub mod Decide
pub mod Cache
use universal_smart_wallet.Prelude.{ℕ, String, Bool, List, Option, Map, lookup, insert, [], ◌∷◌}
use universal_smart_wallet.Value.{Number}

pub data DecisionKind : Type 0 where
  verified rejected indeterminate : DecisionKind

pub data DecisionCode : Type 0 where
  trust_verified status_valid credential_verified snapshot_fresh : DecisionCode
  issuer_unknown schema_unknown key_unknown status_unknown : DecisionCode
  issuer_suspended issuer_revoked schema_suspended schema_revoked : DecisionCode
  key_revoked key_not_authorized_at_issuance credential_suspended credential_revoked : DecisionCode
  snapshot_missing snapshot_stale snapshot_invalid registry_unavailable : DecisionCode

-- `snapshotId` and `snapshotExpiresAt` are present together or not at all.
pub record Decision : Type 0 where
  pub decision : DecisionKind
  pub code : DecisionCode
  pub snapshot : Option (String × ℕ)

pub record Scope : Type 0 where
  pub tenant_id : String
  pub jurisdiction : String

pub data AuthorizationStatus : Type 0 where
  active suspended revoked : AuthorizationStatus

pub data KeyStatus : Type 0 where
  active retired revoked : KeyStatus

pub data CredentialStatus : Type 0 where
  valid suspended revoked : CredentialStatus

pub record SchemaAuthorization : Type 0 where
  pub schema_id : String
  pub status : AuthorizationStatus

pub record KeyAuthorization : Type 0 where
  pub key_id : String
  pub status : KeyStatus
  pub authorized_from : ℕ
  pub authorized_until : Option ℕ

pub record IssuerAuthorization : Type 0 where
  pub issuer_id : String
  pub status : AuthorizationStatus
  pub schemas : List SchemaAuthorization
  pub keys : List KeyAuthorization
  pub trust_marks : List String

pub record KeyRotation : Type 0 where
  pub issuer_id : String
  pub previous_key_id : String
  pub new_key_id : String
  pub rotated_at : ℕ

pub record StatusEntry : Type 0 where
  pub issuer_id : String
  pub status_id : String
  pub status : CredentialStatus
  pub updated_at : ℕ

-- `schemaVersion` is always 1 and is not stored.
pub record UnsignedSnapshot : Type 0 where
  pub scope : Scope
  pub open scope use *
  pub snapshot_id : String
  pub sequence : ℕ
  pub issued_at : ℕ
  pub expires_at : ℕ
  pub signing_key_id : String
  pub issuers : List IssuerAuthorization
  pub rotations : List KeyRotation
  pub statuses : List StatusEntry

pub record SignedSnapshot : Type 0 where
  pub unsigned : UnsignedSnapshot
  pub open unsigned use *
  pub signature : String

-- `RegistrySnapshotError`, by its code.
pub data SnapshotError : Type 0 where
  invalid unsigned_snapshot signature_invalid scope_mismatch stale rollback : SnapshotError
