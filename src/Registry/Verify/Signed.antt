-- ===== src/Registry/Verify/Signed.antt =====
-- Signing and then verifying.
use universal_smart_wallet.Prelude.{
  ◌≡◌, subst, String, true, Option, none, some, arith, eq_refl, Result, ok, err, >>=-eq-ok,
}
use universal_smart_wallet.Registry.{Scope, UnsignedSnapshot, SignedSnapshot}
use universal_smart_wallet.Registry.Parse.RoundTrip.{scope_string-str}
use universal_smart_wallet.Registry.Snapshots.{parse_unsigned_snapshot, parse_signed_snapshot}
use universal_smart_wallet.Registry.Snapshots.Valid.{SnapshotValid}
use universal_smart_wallet.Registry.Snapshots.RoundTrip.{
  parse_unsigned_snapshot-SnapshotValid, SignedValid, parse_signed_snapshot-SignedValid,
  parse_signed_snapshot-signed_value, parse_signed_snapshot-eq_ok,
}
use universal_smart_wallet.Registry.Canonical.{unsigned_value, signed_value, signing_payload}
use universal_smart_wallet.Registry.Verify.{
  Signer, Verifier, SignRequest, lift, called, parse_scope, same_scope, sign_registry_snapshot,
  verify_registry_snapshot,
}

-- The verifier accepts what the signer signs.
abbrev pub Accepts : Signer → Verifier → Type 0
Accepts sign verify =
    (q : SignRequest) (signature : String)
    → sign q ≡ some signature
    → verify (record { request = q; signature = signature }) ≡ some true

lift-eq_ok : {A : Type 0} (r : Result _ A) (a : A) → lift r ≡ ok a → r ≡ ok a
lift-eq_ok (ok b) a h = ground arith
lift-eq_ok (err e) a h = ground arith

called-eq_ok : {A : Type 0} (o : Option A) (a : A) → called o ≡ ok a → o ≡ some a
called-eq_ok none a h = ground arith
called-eq_ok (some b) a h = ground arith

same_scope_refl : (s : Scope) → same_scope s s ≡ true
same_scope_refl s = rw (eq_refl s.tenant_id, eq_refl s.jurisdiction)

parse_scope-valid : (s : UnsignedSnapshot) → SnapshotValid s → parse_scope s.scope ≡ ok (s.scope)
unfolding parse_scope
parse_scope-valid s v =
    rw (scope_string-str s.tenant_id v.tenant_scope, scope_string-str s.jurisdiction v.place_scope)

-- A valid snapshot whose signature is accepted over its payload is verified for its own scope.
verify_accepted :
    (s : SignedSnapshot) (payload : String) (verify : Verifier)
    → SignedValid s
    → signing_payload s.unsigned ≡ ok payload
    → verify (record {
      request = record { scope = s.scope; key_id = s.signing_key_id; payload = payload };
      signature = s.signature;
    })
      ≡ some true
    → verify_registry_snapshot (signed_value s) s.scope verify ≡ ok s
unfolding verify_registry_snapshot
verify_accepted s payload verify v p a = rw (
  parse_signed_snapshot-signed_value s v,
  parse_scope-valid s.unsigned v.content,
  eq_refl s.tenant_id,
  eq_refl s.jurisdiction,
  p,
  a,
)

-- A snapshot that was signed is accepted, for its own scope, by every verifier that accepts what
-- the signer signs, and it carries the content that was given to be signed.
pub verify-sign :
    (snapshot : UnsignedSnapshot) (sign : Signer) (verify : Verifier) (s : SignedSnapshot)
    → Accepts sign verify
    → sign_registry_snapshot snapshot sign ≡ ok s
    → (parse_unsigned_snapshot (unsigned_value snapshot) ≡ ok (s.unsigned))
      × (verify_registry_snapshot (signed_value s) s.scope verify ≡ ok s)
unfolding sign_registry_snapshot
verify-sign snapshot sign verify s honest h =
    let parsed = >>=-eq-ok (lift (parse_unsigned_snapshot (unsigned_value snapshot))) _ h in
    let p = parsed.0 in
    let ep = lift-eq_ok (parse_unsigned_snapshot (unsigned_value snapshot)) p parsed.1 in
    let payload = >>=-eq-ok (lift (signing_payload p)) _ parsed.2 in
    let el = lift-eq_ok (signing_payload p) payload.0 payload.1 in
    let q : SignRequest = record {
      scope = p.scope;
      key_id = p.signing_key_id;
      payload = payload.0;
    } in
    let signature = >>=-eq-ok (called (sign q)) _ payload.2 in
    let es = called-eq_ok (sign q) signature.0 signature.1 in
    let t : SignedSnapshot = record { unsigned = p; signature = signature.0 } in
    let back = lift-eq_ok (parse_signed_snapshot (signed_value t)) s signature.2 in
    let same : t ≡ s =
      parse_signed_snapshot-eq_ok t s
        (parse_unsigned_snapshot-SnapshotValid (unsigned_value snapshot) p ep) back in
    let valid = parse_signed_snapshot-SignedValid (signed_value t) s back in
    subst
      (λ (z : SignedSnapshot).
        SignedValid z
        → (parse_unsigned_snapshot (unsigned_value snapshot) ≡ ok (z.unsigned))
          × (verify_registry_snapshot (signed_value z) z.scope verify ≡ ok z))
      same (λ w. (ep, verify_accepted t payload.0 verify w el (honest q signature.0 es))) valid
