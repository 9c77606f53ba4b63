-- ===== src/Registry/Decide/Trust.antt =====
-- When a snapshot vouches for an issuer, a schema and a key, and when it calls a credential valid.
use universal_smart_wallet.Prelude.{
  ℕ, ◌≤◌, ◌<◌, ◌≡◌, ◌≢◌, ◌↔◌, refl, String, true, Option, none, some, eq_iff, arith, Option-cases,
  Result-cases, inl, inr, ok, err,
}
use universal_smart_wallet.Value.{Number, pos, negsuc, real}
use universal_smart_wallet.Registry.{
  verified, Decision, Scope, AuthorizationStatus, KeyStatus, CredentialStatus, SchemaAuthorization,
  KeyAuthorization, IssuerAuthorization, StatusEntry, SignedSnapshot,
}
use universal_smart_wallet.Registry.Parse.{max_safe}
use universal_smart_wallet.Registry.Snapshots.{find_key}
use universal_smart_wallet.Registry.Decide.{
  TrustRequest, StatusRequest, or_else, is_fresh, is_before, find_issuer, find_schema, find_status,
  authorized_at, live_issuer, live_schema, live_key, credential_decision, evaluate_trust_snapshot,
  evaluate_status_snapshot,
}

-- The snapshot speaks for the scope at this time, and its issuer is active.
pub record IssuerLive (s : SignedSnapshot) (scope : Scope) (issuer_id : String) (now : ℕ)
    (issuer : IssuerAuthorization) : Type 0 where
  pub same_tenant : s.tenant_id ≡ scope.tenant_id
  pub same_jurisdiction : s.jurisdiction ≡ scope.jurisdiction
  pub started : s.issued_at ≤ now
  pub not_over : now < s.expires_at
  pub found : find_issuer issuer_id s ≡ some issuer
  pub active : issuer.status ≡ AuthorizationStatus.active

abbrev pub EndsAfter : ℕ → Option ℕ → Type 0
EndsAfter n none = Unit {0}
EndsAfter n (some until) = n < until

-- The key was authorized when the credential was issued, and is not revoked since.
pub record KeyLive (k : KeyAuthorization) (issued_at : Number) : Type 0 where
  pub time : ℕ
  pub a_time : issued_at ≡ pos time
  pub safe : time ≤ max_safe
  pub from : k.authorized_from ≤ time
  pub until : EndsAfter time k.authorized_until
  pub kept : k.status ≢ KeyStatus.revoked

pub record TrustGranted (s : SignedSnapshot) (r : TrustRequest) (now : ℕ) : Type 0 where
  pub issuer : IssuerAuthorization
  pub live : IssuerLive s r.scope r.issuer_id now issuer
  pub schema : SchemaAuthorization
  pub schema_found : find_schema r.schema_id issuer ≡ some schema
  pub schema_active : schema.status ≡ AuthorizationStatus.active
  pub key : KeyAuthorization
  pub key_found : find_key r.key_id issuer.keys ≡ some key
  pub key_live : KeyLive key r.issued_at

-- A step that lets the evaluation go on.
live_issuer-IssuerLive :
    (s : SignedSnapshot) (scope : Scope) (id : String) (now : ℕ) (i : IssuerAuthorization)
    → live_issuer s scope id now ≡ ok i
    → IssuerLive s scope id now i
unfolding live_issuer is_fresh
live_issuer-IssuerLive s scope id now i h = record {
  same_tenant = ground (arith, eq_iff s.tenant_id scope.tenant_id);
  same_jurisdiction = ground (arith, eq_iff s.jurisdiction scope.jurisdiction);
  started = ground arith;
  not_over = ground arith;
  found = ground arith;
  active = ground arith;
}

live_issuer-of_IssuerLive :
    (s : SignedSnapshot) (scope : Scope) (id : String) (now : ℕ) (i : IssuerAuthorization)
    → IssuerLive s scope id now i
    → live_issuer s scope id now ≡ ok i
unfolding live_issuer is_fresh
live_issuer-of_IssuerLive s scope id now i l =
    ground (arith, eq_iff s.tenant_id scope.tenant_id, eq_iff s.jurisdiction scope.jurisdiction)

-- A refusal is never a verification.
live_issuer-refused :
    (s : SignedSnapshot) (scope : Scope) (id : String) (now : ℕ) (d : Decision)
    → live_issuer s scope id now ≡ err d
    → d.decision ≢ verified
unfolding live_issuer
live_issuer-refused s scope id now d h = ground arith

-- For a known issuer, the schema and the key that let the evaluation go on.
module _ (s : SignedSnapshot) (i : IssuerAuthorization) where
  live_schema-eq_ok :
      (id : String) (a : SchemaAuthorization)
      → live_schema s i id ≡ ok a
      → (find_schema id i ≡ some a) × (a.status ≡ AuthorizationStatus.active)
  unfolding live_schema
  live_schema-eq_ok id a h = ground arith

  live_schema_active :
      (id : String) (a : SchemaAuthorization)
      → find_schema id i ≡ some a
      → a.status ≡ AuthorizationStatus.active
      → live_schema s i id ≡ ok a
  unfolding live_schema
  live_schema_active id a f h = ground arith

  live_schema-refused :
      (id : String) (d : Decision) → live_schema s i id ≡ err d → d.decision ≢ verified
  unfolding live_schema
  live_schema-refused id d h = ground arith

  live_key-refused :
      (id : String) (at : Number) (d : Decision)
      → live_key s i id at ≡ err d
      → d.decision ≢ verified
  unfolding live_key
  live_key-refused id at d h = ground arith

  live_key-found :
      (id : String) (at : Number) (k : KeyAuthorization)
      → live_key s i id at ≡ ok k
      → find_key id i.keys ≡ some k
  unfolding live_key
  live_key-found id at k h = ground arith

  live_key-KeyLive :
      (id : String) (at : Number) (k : KeyAuthorization) → live_key s i id at ≡ ok k → KeyLive k at
  unfolding live_key authorized_at
  live_key-KeyLive id (pos n) k h = record {
    time = n;
    a_time = refl;
    safe = ground arith;
    from = ground arith;
    until = EndsAfter-live;
    kept = ground arith;
  }
    where
      of_before : (o : Option ℕ) → is_before n o ≡ true → EndsAfter n o
      of_before none e = tt
      of_before (some until) e = ground arith

      EndsAfter-live : EndsAfter n k.authorized_until
      EndsAfter-live = of_before k.authorized_until (ground arith)
  live_key-KeyLive id (negsuc n) k h = ground arith
  live_key-KeyLive id (real n) k h = ground arith

  live_key-of_KeyLive :
      (id : String) (at : Number) (k : KeyAuthorization)
      → find_key id i.keys ≡ some k
      → KeyLive k at
      → live_key s i id at ≡ ok k
  unfolding live_key authorized_at
  live_key-of_KeyLive id at k f l = ground (arith, before k.authorized_until l.until)
    where
      before : (o : Option ℕ) → EndsAfter (l.time) o → is_before (l.time) o ≡ true
      before none e = refl
      before (some until) e = ground arith

-- `evaluateTrustSnapshot` answers `verified` exactly when the snapshot is of the requested scope
-- and fresh, the issuer and the schema are active in it, and the key is not revoked and was
-- authorized when the credential was issued.
pub evaluate_trust_snapshot-verified :
    (s : SignedSnapshot) (r : TrustRequest) (clock : ℕ)
    → ((evaluate_trust_snapshot s r clock).decision ≡ verified)
      ↔ TrustGranted s r (or_else r.now clock)
unfolding evaluate_trust_snapshot
evaluate_trust_snapshot-verified s r clock = (granted, allowed)
  where
    now : ℕ
    now = or_else r.now clock

    granted : (evaluate_trust_snapshot s r clock).decision ≡ verified → TrustGranted s r now
    granted h = elim (Result-cases (live_issuer s r.scope r.issuer_id now)) [
      | inr (d, e) ↦ absurd (live_issuer-refused s r.scope r.issuer_id now d e (ground arith))
      | inl (i, ei) ↦ elim (Result-cases (live_schema s i r.schema_id)) [
        | inr (d, e) ↦ absurd (live_schema-refused s i r.schema_id d e (ground arith))
        | inl (a, ea) ↦ elim (Result-cases (live_key s i r.key_id r.issued_at)) [
          | inr (d, e) ↦ absurd (live_key-refused s i r.key_id r.issued_at d e (ground arith))
          | inl (k, ek) ↦ record {
            issuer = i;
            live = live_issuer-IssuerLive s r.scope r.issuer_id now i ei;
            schema = a;
            schema_found = (live_schema-eq_ok s i r.schema_id a ea).0;
            schema_active = (live_schema-eq_ok s i r.schema_id a ea).1;
            key = k;
            key_found = live_key-found s i r.key_id r.issued_at k ek;
            key_live = live_key-KeyLive s i r.key_id r.issued_at k ek;
          }
        ]
      ]
    ]

    allowed : TrustGranted s r now → (evaluate_trust_snapshot s r clock).decision ≡ verified
    allowed t = ground (
      arith,
      live_issuer-of_IssuerLive s r.scope r.issuer_id now t.issuer t.live,
      live_schema_active s t.issuer r.schema_id t.schema t.schema_found t.schema_active,
      live_key-of_KeyLive s t.issuer r.key_id r.issued_at t.key t.key_found t.key_live,
    )

-- The credential has an entry of its issuer, and that entry is valid.
pub record StatusGranted (s : SignedSnapshot) (r : StatusRequest) (now : ℕ) : Type 0 where
  pub issuer : IssuerAuthorization
  pub live : IssuerLive s r.scope r.issuer_id now issuer
  pub entry : StatusEntry
  pub entry_found : find_status r.issuer_id r.status_id s ≡ some entry
  pub valid : entry.status ≡ CredentialStatus.valid

-- `evaluateStatusSnapshot` answers `verified` exactly when the snapshot is of the requested scope
-- and fresh, the issuer is active in it, and its entry for the credential is valid.
pub evaluate_status_snapshot-verified :
    (s : SignedSnapshot) (r : StatusRequest) (clock : ℕ)
    → ((evaluate_status_snapshot s r clock).decision ≡ verified)
      ↔ StatusGranted s r (or_else r.now clock)
unfolding evaluate_status_snapshot credential_decision
evaluate_status_snapshot-verified s r clock = (granted, allowed)
  where
    now : ℕ
    now = or_else r.now clock

    granted : (evaluate_status_snapshot s r clock).decision ≡ verified → StatusGranted s r now
    granted h = elim (Result-cases (live_issuer s r.scope r.issuer_id now)) [
      | inr (d, e) ↦ absurd (live_issuer-refused s r.scope r.issuer_id now d e (ground arith))
      | inl (i, ei) ↦ elim (Option-cases (find_status r.issuer_id r.status_id s)) [
        | inl e ↦ ground arith
        | inr (entry, ee) ↦ record {
          issuer = i;
          live = live_issuer-IssuerLive s r.scope r.issuer_id now i ei;
          entry = entry;
          entry_found = ee;
          valid = ground arith;
        }
      ]
    ]

    allowed : StatusGranted s r now → (evaluate_status_snapshot s r clock).decision ≡ verified
    allowed t = ground (arith, live_issuer-of_IssuerLive s r.scope r.issuer_id now t.issuer t.live)
