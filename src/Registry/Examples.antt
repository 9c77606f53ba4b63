-- ===== src/Registry/Examples.antt =====
-- Concrete snapshots, tests of the definitions and instances of the theorems of the registry.
use universal_smart_wallet.Prelude.{
  ◌≡◌, ◌↔◌, refl, String, true, none, some, List, [], ◌∷◌, All, str_eq, eq_iff, arith, lookup,
  insert, erase, has, includes, distinct, units, text_length, matches_opaque, map_result, decimal,
  ok,
}
use universal_smart_wallet.Value.{pos, member}
use universal_smart_wallet.Registry.{
  Scope, AuthorizationStatus, KeyStatus, CredentialStatus, KeyAuthorization, IssuerAuthorization,
  UnsignedSnapshot, SignedSnapshot, DecisionCode, verified, indeterminate,
}
use universal_smart_wallet.Registry.Parse.{
  object, exact_keys, safe_text, safe_string, scope_text, scope_string, integer, optional_integer,
  list, unique, authorization_status, key_status, credential_status, interval_valid, parse_schema,
  parse_key, parse_issuer, parse_rotation, parse_status,
}
use universal_smart_wallet.Registry.Snapshots.{
  nul_joined, issuers_onto, issuer_map, find_key, rotation_fits, validate_rotation, validate_status,
  validate_relations, rotation_key, predecessor_key, successor_key, status_key, parse_unsigned,
  parse_unsigned_snapshot, parse_signed_snapshot,
}
use universal_smart_wallet.Registry.Snapshots.Related.{parse_unsigned_snapshot-related}
use universal_smart_wallet.Registry.Snapshots.Valid.{RotationFits, StatusFits}
use universal_smart_wallet.Registry.Snapshots.RoundTrip.{parse_unsigned_snapshot_again}
use universal_smart_wallet.Registry.Canonical.{
  schema_value, key_value, issuer_value, rotation_value, status_value, snapshot_entries,
  unsigned_value, signed_value, quoted, joined, units_before, insert_entry, sort_entries,
  canonical_number, canonical_value, signing_payload,
}
use universal_smart_wallet.Registry.Verify.{
  Verifier, Signer, SignRequest, parse_scope, sign_registry_snapshot, verify_registry_snapshot,
}
use universal_smart_wallet.Registry.Verify.Signed.{verify-sign}
use universal_smart_wallet.Registry.Decide.{
  TrustRequest, StatusRequest, is_fresh, find_issuer, find_schema, find_status, live_issuer,
  live_schema, authorized_at, live_key, evaluate_trust_snapshot, credential_decision,
  evaluate_status_snapshot,
}
use universal_smart_wallet.Registry.Decide.Trust.{
  TrustGranted, StatusGranted, evaluate_trust_snapshot-verified, evaluate_status_snapshot-verified,
}
use universal_smart_wallet.Registry.Cache.{
  Cache, Ports, CredentialRequest, scope_key, is_rollback, store, prime, invalidate, accept_loaded,
  fetch, resolve_cached, resolve, refresh, evaluate_trust, evaluate_status, combined, credential_on,
  evaluate_credential,
}
use universal_smart_wallet.Registry.Cache.Laws.{IsScope, scope_key_injective}
use universal_smart_wallet.Registry.Cache.Runs.{
  Call, primes, refreshes, credentials, step, run, IsSound, Advanced, run-IsSound, run-Advanced,
}
use universal_smart_wallet.Registry.Cache.Grants.{Vouched, evaluate_credential-Vouched}
use universal_smart_wallet.Registry.Cache.Offline.{evaluate_credential-prime, fetch-keeps}

-- The names that a test by computation opens.
registry : Unit {0}
unfolding lookup insert erase has includes distinct units text_length matches_opaque map_result
    decimal member object exact_keys safe_text safe_string scope_text scope_string integer
    optional_integer list unique authorization_status key_status credential_status interval_valid
    parse_schema parse_key parse_issuer parse_rotation parse_status nul_joined issuers_onto
    issuer_map find_key rotation_fits validate_rotation validate_status validate_relations
    rotation_key predecessor_key successor_key status_key parse_unsigned parse_unsigned_snapshot
    parse_signed_snapshot schema_value key_value issuer_value rotation_value status_value
    snapshot_entries unsigned_value signed_value quoted joined units_before insert_entry
    sort_entries canonical_number canonical_value signing_payload parse_scope sign_registry_snapshot
    verify_registry_snapshot is_fresh find_issuer find_schema find_status live_issuer live_schema
    authorized_at live_key evaluate_trust_snapshot credential_decision evaluate_status_snapshot
    scope_key is_rollback store prime invalidate accept_loaded fetch resolve_cached resolve refresh
    evaluate_trust evaluate_status combined credential_on evaluate_credential step run
registry = tt

abbrev eu : Scope
eu = record { tenant_id = "tenant-1"; jurisdiction = "EU" }

abbrev old_key : KeyAuthorization
old_key = record {
  key_id = "k1";
  status = KeyStatus.retired;
  authorized_from = 1;
  authorized_until = some 5;
}

abbrev new_key : KeyAuthorization
new_key = record {
  key_id = "k2";
  status = KeyStatus.active;
  authorized_from = 5;
  authorized_until = none;
}

abbrev school : IssuerAuthorization
school = record {
  issuer_id = "school";
  status = AuthorizationStatus.active;
  schemas = record { schema_id = "diploma"; status = AuthorizationStatus.active } ∷ [];
  keys = old_key ∷ new_key ∷ [];
  trust_marks = "mark" ∷ [];
}

abbrev content : UnsignedSnapshot
content = record {
  scope = eu;
  snapshot_id = "snap-1";
  sequence = 1;
  issued_at = 10;
  expires_at = 100;
  signing_key_id = "root";
  issuers = school ∷ [];
  rotations =
      record { issuer_id = "school"; previous_key_id = "k1"; new_key_id = "k2"; rotated_at = 5 }
      ∷ [];
  statuses =
      record {
        issuer_id = "school";
        status_id = "s-1";
        status = CredentialStatus.valid;
        updated_at = 7;
      }
      ∷ [];
}

abbrev signed : SignedSnapshot
signed = record { unsigned = content; signature = "sig" }

abbrev sign_all : Signer
sign_all q = some "sig"

abbrev verify_sig : Verifier
verify_sig q = some (str_eq q.signature "sig")

abbrev online : Ports
online = record { load = λ scope. some (signed_value signed); verify = verify_sig; clock = 20 }

abbrev offline : Ports
offline = record { load = λ scope. none; verify = verify_sig; clock = 30 }

abbrev trust_request : TrustRequest
trust_request = record {
  scope = eu;
  issuer_id = "school";
  schema_id = "diploma";
  key_id = "k1";
  issued_at = pos 3;
  now = none;
}

abbrev request : CredentialRequest
request = record { trust = trust_request; status_id = "s-1" }

abbrev status_asked : StatusRequest
status_asked = record { scope = eu; issuer_id = "school"; status_id = "s-1"; now = none }

parses : parse_unsigned_snapshot (unsigned_value content) ≡ ok content
unfolding registry
parses = refl

signs : sign_registry_snapshot content sign_all ≡ ok signed
unfolding registry
signs = refl

-- A retired key vouches for what it signed before its end, and not after it.
late_is_rejected :
    (evaluate_trust_snapshot signed (record trust_request { issued_at = pos 5 }) 20).code
    ≡ DecisionCode.key_not_authorized_at_issuance
unfolding registry
late_is_rejected = refl

abbrev cached : Cache
cached = (scope_key eu, signed) ∷ []

fetches_once :
    evaluate_credential online request [] ≡ (ok (credential_on signed request 20), cached)
unfolding registry
fetches_once = refl

empty-IsSound : IsSound verify_sig []
unfolding registry
empty-IsSound = record { at_key = λ k s e. absurd (cc e) }

parse_unsigned_snapshot-related_example :
    All (RotationFits content) content.rotations × All (StatusFits content) content.statuses
parse_unsigned_snapshot-related_example =
    parse_unsigned_snapshot-related (unsigned_value content) content parses

parse_unsigned_snapshot_again_example :
    parse_unsigned_snapshot (unsigned_value content) ≡ ok content
parse_unsigned_snapshot_again_example =
    parse_unsigned_snapshot_again (unsigned_value content) content parses

verify-sign_example :
    (parse_unsigned_snapshot (unsigned_value content) ≡ ok content)
    × (verify_registry_snapshot (signed_value signed) eu verify_sig ≡ ok signed)
verify-sign_example = verify-sign content sign_all verify_sig signed accepts signs
  where
    accepts :
        (q : SignRequest) (s : String)
        → sign_all q ≡ some s
        → verify_sig (record { request = q; signature = s }) ≡ some true
    accepts q s e = ground (arith, eq_iff s "sig")

evaluate_trust_snapshot-verified_example :
    ((evaluate_trust_snapshot signed trust_request 20).decision ≡ verified)
    ↔ TrustGranted signed trust_request 20
evaluate_trust_snapshot-verified_example = evaluate_trust_snapshot-verified signed trust_request 20

evaluate_status_snapshot-verified_example :
    ((evaluate_status_snapshot signed status_asked 20).decision ≡ verified)
    ↔ StatusGranted signed status_asked 20
evaluate_status_snapshot-verified_example = evaluate_status_snapshot-verified signed status_asked 20

eu-IsScope : IsScope eu
unfolding registry
eu-IsScope = record { tenant = refl; place = refl }

scope_key_injective_example : eu ≡ eu
scope_key_injective_example = scope_key_injective eu eu eu-IsScope eu-IsScope refl

abbrev history : List (Ports × Call)
history =
    (online, primes (signed_value signed))
    ∷ (offline, credentials request)
    ∷ (offline, refreshes eu none)
    ∷ []

run-IsSound_example : IsSound verify_sig (run [] history)
run-IsSound_example = run-IsSound verify_sig [] history (refl, (refl, (refl, tt))) empty-IsSound

run-Advanced_example : Advanced signed eu (run cached history)
unfolding registry
run-Advanced_example =
    run-Advanced verify_sig cached history signed eu eu-IsScope (refl, (refl, (refl, tt)))
      (tt, (tt, (tt, tt))) refl

evaluate_credential-Vouched_example :
    Vouched verify_sig (evaluate_credential online request []).1 request 20
unfolding registry
evaluate_credential-Vouched_example =
    evaluate_credential-Vouched verify_sig online [] request (credential_on signed request 20) refl
      empty-IsSound refl refl

evaluate_credential-prime_example :
    evaluate_credential offline request (prime online (signed_value signed) []).1
    ≡ (ok (credential_on signed request 30), (prime online (signed_value signed) []).1)
unfolding registry
evaluate_credential-prime_example =
    evaluate_credential-prime online offline (signed_value signed) [] signed request refl refl refl

-- The source throws while the cache has an entry.
fetch-keeps_example : (fetch offline eu 30 none cached).1 ≡ cached
unfolding registry
fetch-keeps_example =
    fetch-keeps offline eu 30 none cached
      (record {
        decision = indeterminate;
        code = DecisionCode.registry_unavailable;
        snapshot = none;
      })
      refl
