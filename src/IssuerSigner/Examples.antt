-- ===== src/IssuerSigner/Examples.antt =====
-- Tests of packages/issuer-signer/src/index.ts at concrete data, and the theorems applied to it.
use universal_smart_wallet.Prelude.{
  ℕ, suc, String, true, false, ◌≡◌, ◌⊎◌, refl, List, [], ◌∷◌, Option, none, some, lookup, insert,
  erase, has, units, includes, ok, err, is_ok,
}
use universal_smart_wallet.Value.{pos}
use universal_smart_wallet.Policy.Texts.{is_safe_integer, is_less}
use universal_smart_wallet.Registry.Snapshots.{nul_joined}
use universal_smart_wallet.IssuerSigner.{
  es256, KeyStatus, SignRequest, Signature, SignResult, MutationResult, ApprovalContext,
  ApprovalEvidence, ErrorCode,
}
use universal_smart_wallet.IssuerSigner.Texts.{
  is_id, is_key_ref, is_digest, safe_id, safe_time, ensure_key_ref, ensure_payload,
}
use universal_smart_wallet.IssuerSigner.Operations.{reserve, finish, in_memory}
use universal_smart_wallet.IssuerSigner.Approvals.{
  is_bound, is_current, set_size, require_dual_approval,
}
use universal_smart_wallet.IssuerSigner.Ports.{
  Adapter, Ports, ensure_descriptor, describe_key, append, refuse, mark_ambiguous, audit_ambiguous,
  end_ambiguous, conclude, reserve_then,
}
use universal_smart_wallet.IssuerSigner.Signing.{
  sign_fingerprint, sign_context, check_sign, signature_valid, settle_signed, settle_sign,
  attempt_sign, sign,
}
use universal_smart_wallet.IssuerSigner.Signed.{Cleared, Returned, sign-Cleared, sign-Returned}
use universal_smart_wallet.IssuerSigner.Held.{St}
use universal_smart_wallet.IssuerSigner.Local.{
  LocalKey, Keys, Crypto, key_valid, add_keys, open_keys, sign_with, sign_found, sign_local,
  rotate_found, rotate_local, disable_local,
}
use universal_smart_wallet.IssuerSigner.Local.Retired as Retired
use universal_smart_wallet.IssuerSigner.Retried.{Call, signs, step, run, ambiguous_blocks}

-- The names that a test by computation opens.
signer_code : Unit {0}
unfolding lookup insert erase has units includes is_safe_integer is_less nul_joined is_id is_key_ref
    is_digest safe_id safe_time ensure_key_ref ensure_payload reserve finish is_bound is_current
    set_size require_dual_approval ensure_descriptor describe_key append refuse mark_ambiguous
    audit_ambiguous end_ambiguous conclude reserve_then sign_fingerprint sign_context check_sign
    signature_valid settle_signed settle_sign attempt_sign sign step run key_valid add_keys
    open_keys sign_with sign_found sign_local rotate_found rotate_local disable_local Retired.step
    Retired.run
signer_code = tt

abbrev hash : String
hash = "sha256:0123456789abcdef0123456789abcdef0123456789abcdef0123456789abcdef"

-- An adapter with one active key, which counts its calls and answers each alike.
abbrev counting : Option SignResult → Adapter ℕ
counting answer = record {
  describe_key = λ ref k. some (
      some
        (record { key_ref = ref; algorithm = es256; status = KeyStatus.active; version = "v1" }));
  sign = λ id ref algorithm payload k. (answer, suc k);
  rotate = λ id current next k. (some MutationResult.completed, k);
  disable = λ id ref k. (some MutationResult.completed, k);
}

abbrev approval : ApprovalContext → String → ApprovalEvidence
approval c person = record {
  approval_id = person;
  approver_id = person;
  request_id = c.request_id;
  tenant_id = c.tenant_id;
  operation = c.operation;
  binding_digest = c.binding_digest;
  approved_at = pos 1;
  expires_at = pos 100;
}

abbrev approving : List String → Ports
approving people = record {
  approvals_for = λ c. some (evidence c people);
  appends = λ e. true;
  digest_bytes = λ bytes. hash;
  digest_text = λ text. hash;
}
  where
    evidence : ApprovalContext → List String → List ApprovalEvidence
    evidence c [] = []
    evidence c (p ∷ ps) = approval c p ∷ evidence c ps

abbrev ports : Ports
ports = approving ("ana" ∷ "ben" ∷ [])

abbrev request : SignRequest
request = record {
  request_id = "q1";
  tenant_id = "school";
  key_ref = "kms/key-1";
  algorithm = es256;
  payload = 1 ∷ 2 ∷ [];
  at = pos 10;
}

abbrev start : St ℕ
start = record { keys = 0; operations = record { operations = []; unresolved = [] }; trail = [] }

abbrev signing : Adapter ℕ
signing = counting (some (SignResult.signed (7 ∷ []) es256 "v1"))

abbrev failing : Adapter ℕ
failing = counting none

abbrev signature : Signature
signature = record {
  request_id = "q1";
  key_ref = "kms/key-1";
  key_version = "v1";
  algorithm = es256;
  signature = 7 ∷ [];
}

signs_once : (sign signing in_memory ports request start).0 ≡ ok signature
unfolding signer_code
signs_once = refl

one_person_is_not_enough :
    (sign signing in_memory (approving ("ana" ∷ "ana" ∷ [])) request start).0
    ≡ err ErrorCode.dual_approval_required
unfolding signer_code
one_person_is_not_enough = refl

is_unknown : (sign failing in_memory ports request start).0 ≡ err ErrorCode.signing_result_ambiguous
unfolding signer_code
is_unknown = refl

abbrev again : SignRequest
again = record request { request_id = "q2" }

sign-Cleared_example :
    ((sign signing in_memory ports request start).1.keys ≡ 0)
    ⊎ ((c : ApprovalContext) × Cleared signing in_memory ports request start c)
sign-Cleared_example = sign-Cleared signing in_memory ports request start

sign-Returned_example :
    ((c : ApprovalContext) × Cleared signing in_memory ports request start c)
    × Returned signing in_memory ports request start signature
sign-Returned_example = sign-Returned signing in_memory ports request start signature signs_once

abbrev between_calls : List (Ports × Call)
between_calls = (ports, signs request) ∷ []

ambiguous_blocks_example :
    ((sign failing in_memory ports again
        (run failing (sign failing in_memory ports request start).1 between_calls)).1.keys
      ≡ (run failing (sign failing in_memory ports request start).1 between_calls).keys)
    × (is_ok
          (sign failing in_memory ports again
            (run failing (sign failing in_memory ports request start).1 between_calls)).0
        ≡ false)
unfolding sign_fingerprint
ambiguous_blocks_example =
    ambiguous_blocks failing ports ports request again start between_calls is_unknown refl

abbrev old_key : LocalKey
old_key = record {
  key_ref = "kms/key-1";
  version = "v1";
  algorithm = es256;
  status = KeyStatus.active;
  private_key = record { is_private = true; extractable = false; handle = 1 };
}

abbrev new_key : LocalKey
new_key = record old_key { key_ref = "kms/key-2"; version = "v2"; status = KeyStatus.standby }

abbrev crypto : Crypto
crypto = λ algorithm key payload. some (9 ∷ [])

abbrev rotated_keys : Keys
rotated_keys =
    Retired.run crypto (("kms/key-1", old_key) ∷ ("kms/key-2", new_key) ∷ [])
      (Retired.rotates "q1" "kms/key-1" "kms/key-2" ∷ [])

opens :
    open_keys true (old_key ∷ new_key ∷ [])
    ≡ some (("kms/key-1", old_key) ∷ ("kms/key-2", new_key) ∷ [])
unfolding signer_code
opens = refl

old-Retired : Retired.Retired "kms/key-1" rotated_keys
unfolding signer_code
old-Retired = record {
  key = record old_key { status = KeyStatus.rotated };
  found = refl;
  retired = refl;
}

new_key_signs :
    Retired.has_signed (sign_local crypto "q2" "kms/key-2" es256 (1 ∷ []) rotated_keys).0 ≡ true
unfolding signer_code
new_key_signs = refl

abbrev attempts : List Retired.Call
attempts = Retired.rotates "q3" "kms/key-2" "kms/key-1" ∷ Retired.disables "q4" "kms/key-2" ∷ []

retired_forever_example :
    Retired.has_signed
      (sign_local crypto "q5" "kms/key-1" es256
        (1 ∷ [])
        (Retired.run crypto rotated_keys attempts)).0
    ≡ false
retired_forever_example =
    Retired.retired_forever crypto "kms/key-1" "q5" es256 (1 ∷ []) rotated_keys attempts old-Retired
