-- ===== src/Registry/Verify.antt =====
-- Signing and verifying snapshots in packages/trust-registry/src/index.ts. The signer and the
-- verifier are ports: functions that the caller supplies, which may throw.
pub mod Signed
use universal_smart_wallet.Prelude.{
  ℕ, String, Bool, ◌&&◌, List, [], ◌∷◌, Option, none, some, str_eq, if◌then◌else◌, Result, ok, err,
  ◌>>=◌, ◌>>◌, guard,
}
use universal_smart_wallet.Value.{Value, str}
use universal_smart_wallet.Registry.{
  Scope, UnsignedSnapshot, SignedSnapshot, SnapshotError, signature_invalid, scope_mismatch,
}
use universal_smart_wallet.Registry.Parse.{Parsed, scope_string}
use universal_smart_wallet.Registry.Snapshots.{parse_unsigned_snapshot, parse_signed_snapshot}
use universal_smart_wallet.Registry.Canonical.{unsigned_value, signed_value, signing_payload}

-- What an operation throws: an error of this package, or one of a port.
pub data Thrown : Type 0 where
  registry : SnapshotError → Thrown
  port_failure : Thrown

abbrev pub lift {ℓ} : {A : Type ℓ} → Result SnapshotError A → Result Thrown A
lift (ok a) = ok a
lift (err e) = err (registry e)

pub record SignRequest : Type 0 where
  pub scope : Scope
  pub key_id : String
  pub payload : String

pub record VerifyRequest : Type 0 where
  pub request : SignRequest
  pub signature : String

-- `none` is a port that throws.
abbrev pub Signer : Type 0
Signer = SignRequest → Option String

abbrev pub Verifier : Type 0
Verifier = VerifyRequest → Option Bool

abbrev pub called {ℓ} : {A : Type ℓ} → Option A → Result Thrown A
called none = err port_failure
called (some a) = ok a

unfoldable pub parse_scope : Scope → Parsed Scope
parse_scope s = do
  tenant_id ← scope_string (str s.tenant_id)
  jurisdiction ← scope_string (str s.jurisdiction)
  ok (record { tenant_id = tenant_id; jurisdiction = jurisdiction })

abbrev pub same_scope : Scope → Scope → Bool
same_scope s t = str_eq s.tenant_id t.tenant_id && str_eq s.jurisdiction t.jurisdiction

unfoldable pub sign_registry_snapshot : UnsignedSnapshot → Signer → Result Thrown SignedSnapshot
sign_registry_snapshot snapshot sign = do
  parsed ← lift (parse_unsigned_snapshot (unsigned_value snapshot))
  payload ← lift (signing_payload parsed)
  signature ←
      called
        (sign (record { scope = parsed.scope; key_id = parsed.signing_key_id; payload = payload }))
  lift (parse_signed_snapshot (signed_value (record { unsigned = parsed; signature = signature })))

unfoldable pub verify_registry_snapshot : Value → Scope → Verifier → Result Thrown SignedSnapshot
verify_registry_snapshot value scope verify = do
  snapshot ← lift (parse_signed_snapshot value)
  expected ← lift (parse_scope scope)
  guard (same_scope snapshot.scope expected) (registry scope_mismatch)
  payload ← lift (signing_payload snapshot.unsigned)
  valid ← called (
      verify (record {
        request = record { scope = expected; key_id = snapshot.signing_key_id; payload = payload };
        signature = snapshot.signature;
      }))
  guard valid (registry signature_invalid)
  ok snapshot
