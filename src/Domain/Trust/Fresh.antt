-- ===== src/Domain/Trust/Fresh.antt =====
-- What an answer of `StatusCache.lookup` of packages/credential-domain/src/index.ts rests on, and
-- which requests it makes.
use universal_smart_wallet.Prelude.{
  ℕ, ltb, eq_iff, text_length, Result, err, String, true, false, ◌≡◌, ◌⊎◌, ap, ◌∙◌, inl, inr, some,
  arith, lookup, lookup-insert_self, ok, Bool-cases, Option-cases, Result-cases,
}
use universal_smart_wallet.Value.{
  pos, negsuc, real, Value, undefined, null, bool, num, str, arr, obj,
}
use universal_smart_wallet.Domain.Trust.{
  valid, StatusRecord, Url, is_blocked, is_private_host, bounded_status_url, TransportResponse,
  Ports, read_response, expiry_of, property, status_record_of, not_expired, Records, lookup_status,
}

expiry_of-eq-ok : (now n : ℕ) (v : Value) → expiry_of now v ≡ ok n → ltb now n ≡ true
unfolding expiry_of
expiry_of-eq-ok now n (num (pos m)) h = ground arith
expiry_of-eq-ok now n (num (negsuc m)) h = cc
expiry_of-eq-ok now n (num (real s)) h = cc
expiry_of-eq-ok now n undefined h = cc
expiry_of-eq-ok now n null h = cc
expiry_of-eq-ok now n (bool b) h = cc
expiry_of-eq-ok now n (str s) h = cc
expiry_of-eq-ok now n (arr vs) h = cc
expiry_of-eq-ok now n (obj fs) h = cc

status_record_of-current :
    (now : ℕ) (v : Value) (r : StatusRecord)
    → status_record_of now v ≡ ok r
    → ltb now r.expires_at ≡ true
unfolding status_record_of
status_record_of-current now v r h = elim (Result-cases (property "expiresAt" v)) [
  | inr (e, ee) ↦ absurd (ground arith)
  | inl (w, ew) ↦ elim (Result-cases (expiry_of now w)) [
    | inr (e, ee) ↦ absurd (ground arith)
    | inl (n, en) ↦
        let current = expiry_of-eq-ok now n w en in
        let same : r.expires_at ≡ n = ground arith in ap (ltb now) same ∙ current
  ]
]

-- An https URL without user name or password, whose host is none that `isPrivateHost` tests for. That
-- does not exclude private IPv6 hosts: the URL parser writes those in brackets.
pub record Unblocked (url : Url) : Type 0 where
  pub https : url.protocol ≡ "https:"
  pub no_username : text_length url.username ≡ 0
  pub no_password : text_length url.password ≡ 0
  pub host : is_private_host url.hostname ≡ false

is_blocked-Unblocked : (url : Url) → is_blocked url ≡ false → Unblocked url
unfolding is_blocked
is_blocked-Unblocked url h = record {
  https = ground (arith, eq_iff url.protocol "https:");
  no_username = ground arith;
  no_password = ground arith;
  host = ground arith;
}

module _ {N : Type 0} (ports : Ports N) (now : ℕ) where
  read_response-current :
      (answer : Result String TransportResponse) (r : StatusRecord)
      → read_response ports now answer ≡ ok r
      → ltb now r.expires_at ≡ true
  unfolding read_response
  read_response-current (err message) r h = ground arith
  read_response-current (ok response) r h = elim (Option-cases (ports.parse_json response.body)) [
    | inl e ↦ absurd (ground arith)
    | inr (v, e) ↦ status_record_of-current now v r (ground arith)
  ]

  -- What stands behind an answer that a credential is valid: an unblocked URL under which the cache
  -- that is left holds a valid record that has not expired.
  pub record Current (value : String) (left : Records) : Type 0 where
    pub url : Url
    pub parsed : ports.parse_url value ≡ some url
    pub unblocked : Unblocked url
    pub entry : StatusRecord
    pub held : lookup url.href left ≡ some entry
    pub valid : entry.status ≡ valid
    pub fresh : ltb now entry.expires_at ≡ true

  bounded_status_url-eq-ok :
      (value : String) (url : Url)
      → bounded_status_url ports.parse_url value ≡ ok url
      → (ports.parse_url value ≡ some url) × (is_blocked url ≡ false)
  unfolding bounded_status_url
  bounded_status_url-eq-ok value url h = elim (Option-cases (ports.parse_url value)) [
    | inl e ↦ absurd (ground arith)
    | inr (u, e) ↦ (ground arith, ground arith)
  ]

  -- The status cache answers `ok` only for an https URL without user name or password whose host
  -- is none that `isPrivateHost` tests for (localhost names, `::1` without brackets, and private
  -- IPv4 networks), and only if the cache that it leaves holds, under that URL, a valid record
  -- that has not expired.
  pub lookup_status-Current :
      (value : String) (cache : Records) (net : N)
      → (lookup_status ports now value cache net).0.ok ≡ true
      → Current value (lookup_status ports now value cache net).1
  unfolding lookup_status
  lookup_status-Current value cache net h =
      elim (Result-cases (bounded_status_url ports.parse_url value)) [
        | inr (e, ee) ↦ absurd (ground arith)
        | inl (url, eu) ↦
            let facts = bounded_status_url-eq-ok value url eu in
            elim (Bool-cases (not_expired now (lookup url.href cache))) [
              | inl f ↦ elim (Option-cases (lookup url.href cache)) [
                | inl e ↦ absurd (ground arith)
                | inr (entry, e) ↦ record {
                  url = url;
                  parsed = facts.0;
                  unblocked = is_blocked-Unblocked url facts.1;
                  entry = entry;
                  held = ground arith;
                  valid = ground arith;
                  fresh = ground arith;
                }
              ]
              | inr f ↦
                  elim (Result-cases (read_response ports now (ports.transport url.href net).0)) [
                    | inr (e, ee) ↦ absurd (ground arith)
                    | inl (entry, e) ↦ record {
                      url = url;
                      parsed = facts.0;
                      unblocked = is_blocked-Unblocked url facts.1;
                      entry = entry;
                      held = ground (arith, lookup-insert_self url.href entry cache);
                      valid = ground arith;
                      fresh = read_response-current (ports.transport url.href net).0 entry e;
                    }
                  ]
            ]
      ]

  -- A status lookup either leaves the network alone or makes one request, to the URL that was
  -- parsed, which is https, without user name or password, and whose host is none that
  -- `isPrivateHost` tests for (localhost names, `::1` without brackets, and private IPv4
  -- networks).
  pub lookup_status-net :
      (value : String) (cache : Records) (net : N)
      → ((lookup_status ports now value cache net).2 ≡ net)
        ⊎ ((url : Url) × (ports.parse_url value ≡ some url)
            × Unblocked url
            × ((lookup_status ports now value cache net).2 ≡ (ports.transport url.href net).1))
  unfolding lookup_status
  lookup_status-net value cache net =
      elim (Result-cases (bounded_status_url ports.parse_url value)) [
        | inr (e, ee) ↦ inl (ground arith)
        | inl (url, eu) ↦
            let facts = bounded_status_url-eq-ok value url eu in
            elim (Bool-cases (not_expired now (lookup url.href cache))) [
              | inl f ↦ inl (ground arith)
              | inr f ↦ inr (url, facts.0, is_blocked-Unblocked url facts.1, ground arith)
            ]
      ]
