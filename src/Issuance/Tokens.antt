-- ===== src/Issuance/Tokens.antt =====
-- Grants and access tokens of packages/issuer-service/src/index.ts: `uniqueToken`, `consumeGrant` and
-- `consumeAccessToken`. Each stands under the hash of its secret.
use universal_smart_wallet.Prelude.{
  ℕ, zero, suc, String, Bool, true, false, not, ◌&&◌, ◌||◌, none, some, ltb, leb, ◌==◌, str_eq,
  if◌then◌else◌, all, length, units, is_alnum, is_some, lookup, has, insert, Result, ok, err,
}
use universal_smart_wallet.Value.{str}
use universal_smart_wallet.Issuance.{
  Failure, failure, GrantKind, pre_authorized_code, authorization_code, Grant, AccessToken, Service,
  Ports,
}
use universal_smart_wallet.Issuance.Run.{Run, ◌>>=◌, ◌>>◌, done, give, read, call, change, need}
use universal_smart_wallet.Issuance.Parse.{bounded_text}

-- `/^[A-Za-z0-9_-]{16,512}$/u`
unfoldable pub is_token : String → Bool
is_token s =
    leb 16 (length (units s))
    && leb (length (units s)) 512
    && all (λ c. is_alnum c || c == b'_' || c == b'-') (units s)

abbrev pub same_kind : GrantKind → GrantKind → Bool
same_kind pre_authorized_code pre_authorized_code = true
same_kind authorization_code authorization_code = true
same_kind _ _ = false

abbrev pub find_grant : String → String → GrantKind → Service → Result Failure Grant
find_grant hash tenant kind sv = elim (lookup hash sv.grants) [
  | none ↦ err (failure 400 "INVALID_GRANT")
  | some grant ↦
      if not (str_eq grant.secret_hash hash)
      then err (failure 400 "INVALID_GRANT")
      else if not (str_eq grant.tenant_id tenant)
      then err (failure 403 "TENANT_MISMATCH")
      else if not (same_kind grant.kind kind) || is_some grant.consumed_at
      then err (failure 400 "INVALID_GRANT")
      else ok grant
]

abbrev pub find_token : String → String → Service → Result Failure AccessToken
find_token hash tenant sv = elim (lookup hash sv.access_tokens) [
  | none ↦ err (failure 401 "INVALID_ACCESS_TOKEN")
  | some token ↦
      if not (str_eq token.token_hash hash)
      then err (failure 401 "INVALID_ACCESS_TOKEN")
      else if not (str_eq token.tenant_id tenant)
      then err (failure 403 "TENANT_MISMATCH")
      else if is_some token.consumed_at
      then err (failure 401 "ACCESS_TOKEN_REPLAY")
      else ok token
]

module _ {N : Type 0} (ports : Ports N) where
  -- The loop of `uniqueToken`, with the attempts that are left.
  unfoldable pub token_within : ℕ → Run N String
  token_within zero = give (err (failure 500 "RANDOM_TOKEN_FAILURE"))
  token_within (suc attempts) = do
    token ← call ports.token
    need (is_token token) (failure 500 "RANDOM_TOKEN_FAILURE")
    taken ←
        read (λ sv.
          ok (has (ports.sha256 token) sv.grants || has (ports.sha256 token) sv.access_tokens))
    if taken then token_within attempts else done token

  abbrev pub unique_token : Run N String
  unique_token = token_within 4

  -- The grant is consumed before its expiry is checked.
  unfoldable pub consume_grant : String → String → GrantKind → Run N Grant
  consume_grant secret tenant kind = do
    grant ← read (find_grant (ports.sha256 secret) tenant kind)
    now ← call ports.clock
    let consumed : Grant = record grant { consumed_at = some now }
    change (λ sv. record sv { grants = insert (ports.sha256 secret) consumed sv.grants })
    need (ltb now grant.expires_at) (failure 400 "EXPIRED_GRANT")
    done consumed

  unfoldable pub consume_access_token : String → String → Run N AccessToken
  consume_access_token secret tenant = do
    value ← give (bounded_text (str secret) "ACCESS_TOKEN" 512)
    token ← read (find_token (ports.sha256 value) tenant)
    now ← call ports.clock
    let consumed : AccessToken = record token { consumed_at = some now }
    change
        (λ sv. record sv { access_tokens = insert (ports.sha256 value) consumed sv.access_tokens })
    need (ltb now token.expires_at) (failure 401 "ACCESS_TOKEN_EXPIRED")
    done consumed
