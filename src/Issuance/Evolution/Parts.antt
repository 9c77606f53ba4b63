-- ===== src/Issuance/Evolution/Parts.antt =====
-- The parts that the operations of packages/issuer-service/src/index.ts share, and how the service
-- evolves in each: a new token, the liveness of a session, a grant and an access token consumed.
use universal_smart_wallet.Prelude.{
  ℕ, zero, suc, ◌≡◌, inl, inr, String, false, none, some, ok, err, lookup, insert, has, ltb, arith,
  Bool-cases, Option-cases,
}
use universal_smart_wallet.Issuance.{
  Failure, IssuanceState, IssuanceSession, GrantKind, Grant, AccessToken, Service, Ports,
}
use universal_smart_wallet.Issuance.Run.{Run, ◌>>=◌, Outcome}
use universal_smart_wallet.Issuance.Rules.{
  Holds, Stops, on_give, on_read, on_call, on_need, on_change,
}
use universal_smart_wallet.Issuance.Parse.{id, bounded_text}
use universal_smart_wallet.Issuance.Setup.{key}
use universal_smart_wallet.Issuance.Tokens.{
  token_within, unique_token, find_grant, consume_grant, find_token, consume_access_token,
}
use universal_smart_wallet.Issuance.Review.{store_session, mutable_session, ensure_session_live}
use universal_smart_wallet.Issuance.Evolution.{Evolves, Evolves-trans, Evolves-grant, Evolves-token}

abbrev pub Grows : {N A : Type 0} → Service → Outcome N A → Type 0
Grows before outcome = Evolves before outcome.1

module _ {N A : Type 0} (ports : Ports N) {Q : Outcome N A → Type 0} {sv : Service} where
  -- A new token's hash is in neither map.
  on_token_within :
      (attempts : ℕ) (rest : String → Run N A)
      → Stops Q sv
      → ((t : String)
          → has (ports.sha256 t) sv.grants ≡ false
          → has (ports.sha256 t) sv.access_tokens ≡ false
          → Holds Q sv (rest t))
      → Holds Q sv (token_within ports attempts >>= rest)
  unfolding token_within
  on_token_within zero rest stop h = on_give stop (λ x e. absurd (ground arith))
  on_token_within (suc attempts) rest stop h = on_call (λ t. on_need stop (λ valid.
      on_read stop (λ taken e. elim (Bool-cases taken) [
        | inl known ↦ rw known (on_token_within attempts rest stop h)
        | inr free ↦ rw free (h t (ground arith) (ground arith))
      ])))

  pub on_token :
      (rest : String → Run N A)
      → Stops Q sv
      → ((t : String)
          → has (ports.sha256 t) sv.grants ≡ false
          → has (ports.sha256 t) sv.access_tokens ≡ false
          → Holds Q sv (rest t))
      → Holds Q sv (unique_token ports >>= rest)
  on_token rest stop h = on_token_within 4 rest stop h

  -- A session that is not live is marked as expired, and the operation fails.
  pub on_live :
      (at : String) (s : IssuanceSession) (rest : Unit {0} → Run N A)
      → ((e : Failure) (n : N)
          → Q (err e, store_session at (record s { state = IssuanceState.expired }) sv, n))
      → Holds Q sv (rest tt)
      → Holds Q sv (ensure_session_live ports at s >>= rest)
  unfolding ensure_session_live
  on_live at s rest stop h = on_call (λ now. elim (Bool-cases (ltb now s.expires_at)) [
    | inl later ↦ rw later h
    | inr over ↦ rw over (on_change (on_give stop (λ u e. absurd (ground arith))))
  ])

-- A new grant, or a new token, under a hash that no grant or token has.
module _ (before sv : Service) (grown : Evolves before sv) (hash : String) where
  pub grant_added :
      (g : Grant)
      → has hash sv.grants ≡ false
      → Evolves before (record sv { grants = insert hash g sv.grants })
  unfolding has
  grant_added g h = Evolves-trans grown (Evolves-grant sv hash g (λ f e. absurd (ground arith)))

  pub token_added :
      (t : AccessToken)
      → has hash sv.access_tokens ≡ false
      → Evolves before (record sv { access_tokens = insert hash t sv.access_tokens })
  unfolding has
  token_added t h = Evolves-trans grown (Evolves-token sv hash t (λ f e. absurd (ground arith)))

find_grant-eq-ok :
    (hash tenant : String) (kind : GrantKind) (sv : Service) (g : Grant)
    → find_grant hash tenant kind sv ≡ ok g
    → (lookup hash sv.grants ≡ some g) × (g.consumed_at ≡ none)
find_grant-eq-ok hash tenant kind sv g h = elim (Option-cases (lookup hash sv.grants)) [
  | inl e ↦ absurd (ground arith)
  | inr (f, e) ↦ (ground arith, ground arith)
]

find_token-eq-ok :
    (hash tenant : String) (sv : Service) (t : AccessToken)
    → find_token hash tenant sv ≡ ok t
    → (lookup hash sv.access_tokens ≡ some t) × (t.consumed_at ≡ none)
find_token-eq-ok hash tenant sv t h = elim (Option-cases (lookup hash sv.access_tokens)) [
  | inl e ↦ absurd (ground arith)
  | inr (u, e) ↦ (ground arith, ground arith)
]

-- The service with this grant, or this access token, consumed.
abbrev pub grant_spent : String → Grant → ℕ → Service → Service
grant_spent hash g now sv = record sv {
  grants = insert hash (record g { consumed_at = some now }) sv.grants;
}

abbrev pub token_spent : String → AccessToken → ℕ → Service → Service
token_spent hash t now sv = record sv {
  access_tokens = insert hash (record t { consumed_at = some now }) sv.access_tokens;
}

module _ {N A : Type 0} (ports : Ports N) {Q : Outcome N A → Type 0} {sv : Service} where
  pub on_grant :
      (secret tenant : String) (kind : GrantKind) (rest : Grant → Run N A)
      → Stops Q sv
      → ((g : Grant) (now : ℕ)
          → lookup (ports.sha256 secret) sv.grants ≡ some g
          → Stops Q (grant_spent (ports.sha256 secret) g now sv)
            × Holds Q
                (grant_spent (ports.sha256 secret) g now sv)
                (rest (record g { consumed_at = some now })))
      → Holds Q sv (consume_grant ports secret tenant kind >>= rest)
  unfolding consume_grant
  on_grant secret tenant kind rest stop h = on_read stop (λ g e. on_call (λ now.
      let next = h g now (find_grant-eq-ok (ports.sha256 secret) tenant kind sv g e).0 in
      on_change (on_need next.0 (λ live. next.1))))

  pub on_access_token :
      (secret tenant : String) (rest : AccessToken → Run N A)
      → Stops Q sv
      → ((t : AccessToken) (now : ℕ)
          → lookup (ports.sha256 secret) sv.access_tokens ≡ some t
          → t.consumed_at ≡ none
          → Stops Q (token_spent (ports.sha256 secret) t now sv)
            × Holds Q
                (token_spent (ports.sha256 secret) t now sv)
                (rest (record t { consumed_at = some now })))
      → Holds Q sv (consume_access_token ports secret tenant >>= rest)
  unfolding consume_access_token bounded_text
  on_access_token secret tenant rest stop h = on_give stop (λ value bound.
      let is_secret : value ≡ secret = ground arith in
      rw is_secret (
        on_read stop (λ t e. on_call (λ now.
          let found = find_token-eq-ok (ports.sha256 secret) tenant sv t e in
          let next = h t now found.0 found.1 in on_change (on_need next.0 (λ live. next.1))))))

  pub on_session :
      (tenant session_id : String) (rest : IssuanceSession → Run N A)
      → Stops Q sv
      → ((s : IssuanceSession)
          → lookup (key tenant session_id) sv.sessions ≡ some s
          → Holds Q sv (rest s))
      → Holds Q sv (mutable_session ports tenant session_id >>= rest)
  unfolding mutable_session id
  on_session tenant session_id rest stop h = on_give stop (λ value e.
      let is_id : value ≡ session_id = ground arith in
      rw is_id (on_read stop (λ s found. h s (ground arith))))
