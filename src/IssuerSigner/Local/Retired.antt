-- ===== src/IssuerSigner/Local/Retired.antt =====
-- The life of a key in the adapter for local development of packages/issuer-signer/src/index.ts.
use universal_smart_wallet.Prelude.{
  ℕ, String, Bool, true, false, not, ◌&&◌, ◌||◌, ◌≡◌, ◌⊎◌, inl, inr, refl, List, [], ◌∷◌, Option,
  some, arith, str_eq, eq_iff, Bool-cases, Option-cases, lookup, insert, lookup-insert,
}
use universal_smart_wallet.IssuerSigner.{
  Algorithm, KeyStatus, active, standby, rotated, disabled, SignResult,
}
use universal_smart_wallet.IssuerSigner.Texts.{is_id, is_key_ref}
use universal_smart_wallet.IssuerSigner.Ports.{same_algorithm}
use universal_smart_wallet.IssuerSigner.Signing.{is_active}
use universal_smart_wallet.IssuerSigner.Mutations.{is_standby, is_disabled}
use universal_smart_wallet.IssuerSigner.Local.{
  LocalKey, Keys, Crypto, set_status, sign_with, sign_found, sign_local, rotate_found, rotate_local,
  disable_local,
}

pub data Call : Type 0 where
  signs : String → String → Algorithm → List ℕ → Call
  rotates : String → String → String → Call
  disables : String → String → Call

unfoldable pub step : Crypto → Keys → Call → Keys
step crypto keys (signs id ref algorithm payload) =
    (sign_local crypto id ref algorithm payload keys).1
step crypto keys (rotates id current next) = (rotate_local id current next keys).1
step crypto keys (disables id ref) = (disable_local id ref keys).1

unfoldable pub run : Crypto → Keys → List Call → Keys
run crypto keys [] = keys
run crypto keys (call ∷ calls) = run crypto (step crypto keys call) calls

abbrev pub is_retired : KeyStatus → Bool
is_retired active = false
is_retired standby = false
is_retired rotated = true
is_retired disabled = true

-- The key is there, and rotated or disabled.
pub record Retired (ref : String) (keys : Keys) : Type 0 where
  pub key : LocalKey
  pub found : lookup ref keys ≡ some key
  pub retired : is_retired key.status ≡ true

module _ (ref : String) (keys : Keys) (h : Retired ref keys) where
  insert-Retired :
      (other : String) (k : LocalKey)
      → (str_eq other ref ≡ true → is_retired k.status ≡ true)
      → Retired ref (insert other k keys)
  insert-Retired other k retired = elim (Bool-cases (str_eq other ref)) [
    | inl e ↦ record {
      key = k;
      found = ground (arith, lookup-insert other ref k keys);
      retired = retired e;
    }
    | inr e ↦ record {
      key = h.key;
      found = ground (arith, lookup-insert other ref k keys, h.found);
      retired = h.retired;
    }
  ]

not_retired : (a : KeyStatus) → is_retired a ≡ true → (is_active a ≡ false) × (is_standby a ≡ false)
not_retired active e = cc
not_retired standby e = cc
not_retired rotated e = (refl, refl)
not_retired disabled e = (refl, refl)

rotate_local-cases :
    (id current_ref next_ref : String) (keys : Keys)
    → ((rotate_local id current_ref next_ref keys).1 ≡ keys)
      ⊎ ((current : LocalKey) × (next : LocalKey) × (lookup next_ref keys ≡ some next)
          × (is_standby next.status ≡ true)
          × ((rotate_local id current_ref next_ref keys).1
              ≡ set_status next_ref active next (set_status current_ref rotated current keys)))
unfolding rotate_local rotate_found
rotate_local-cases id current_ref next_ref keys = elim (Option-cases (lookup current_ref keys)) [
  | inl e ↦ inl (ground arith)
  | inr (current, ec) ↦ elim (Option-cases (lookup next_ref keys)) [
    | inl e ↦ inl (ground arith)
    | inr (next, en) ↦
        elim (Bool-cases (
          is_id id
          && (is_key_ref current_ref && is_key_ref next_ref)
          && (not (is_disabled current.status || is_disabled next.status)
              && (is_active current.status && is_standby next.status)
              && same_algorithm current.algorithm next.algorithm))) [
                | inl b ↦ inr (current, next, en, ground arith, ground arith)
                | inr b ↦ inl (ground arith)
              ]
  ]
]

disable_local-cases :
    (id key_ref : String) (keys : Keys)
    → ((disable_local id key_ref keys).1 ≡ keys)
      ⊎ ((k : LocalKey) × ((disable_local id key_ref keys).1 ≡ set_status key_ref disabled k keys))
unfolding disable_local
disable_local-cases id key_ref keys = elim (Option-cases (lookup key_ref keys)) [
  | inl e ↦ inl (ground arith)
  | inr (k, e) ↦ elim (Bool-cases (is_id id && is_key_ref key_ref && not (is_disabled k.status))) [
    | inl b ↦ inr (k, ground arith)
    | inr b ↦ inl (ground arith)
  ]
]

step-Retired :
    (crypto : Crypto) (ref : String) (keys : Keys) (call : Call)
    → Retired ref keys
    → Retired ref (step crypto keys call)
unfolding step sign_local
step-Retired crypto ref keys (signs id other algorithm payload) h =
    elim (Bool-cases (is_id id && is_key_ref other)) [
      | inl e ↦ rw (e, step, sign_local) h
      | inr e ↦ rw (e, step, sign_local) h
    ]
step-Retired crypto ref keys (disables id other) h = elim (disable_local-cases id other keys) [
  | inl e ↦ rw (e, step) h
  | inr (k, e) ↦ rw (e, step) (insert-Retired ref keys h other _ (λ q. refl))
]
step-Retired crypto ref keys (rotates id current_ref next_ref) h =
    elim (rotate_local-cases id current_ref next_ref keys) [
      | inl e ↦ rw (e, step) h
      | inr (current, next, en, standing, e) ↦
          rw (e, step)
            (insert-Retired ref (set_status current_ref rotated current keys)
              (insert-Retired ref keys h current_ref _ (λ q. refl)) next_ref _
              (λ q. absurd (apart next en standing q)))
    ]
  where
    apart :
        (next : LocalKey)
        → lookup next_ref keys ≡ some next
        → is_standby next.status ≡ true
        → str_eq next_ref ref ≡ true
        → ⊥
    apart next en standing q =
        let key : next ≡ h.key = ground (arith, eq_iff next_ref ref, h.found) in
        let not_standby = (not_retired h.key.status h.retired).1 in ground arith

run-Retired :
    (crypto : Crypto) (ref : String) (calls : List Call) (keys : Keys)
    → Retired ref keys
    → Retired ref (run crypto keys calls)
unfolding run
run-Retired crypto ref [] keys h = h
run-Retired crypto ref (call ∷ calls) keys h =
    run-Retired crypto ref calls (step crypto keys call) (step-Retired crypto ref keys call h)

abbrev pub has_signed : Option SignResult → Bool
has_signed (some (SignResult.signed bytes algorithm version)) = true
has_signed _ = false

-- In the adapter for local development, a key that is rotated or disabled never signs again,
-- whatever signatures, rotations and disablings are asked for in between.
pub retired_forever :
    (crypto : Crypto) (ref id : String) (algorithm : Algorithm) (payload : List ℕ) (keys : Keys)
    (calls : List Call)
    → Retired ref keys
    → has_signed (sign_local crypto id ref algorithm payload (run crypto keys calls)).0 ≡ false
unfolding sign_local sign_found sign_with
retired_forever crypto ref id algorithm payload keys calls h =
    let later = run-Retired crypto ref calls keys h in
    let inactive = (not_retired later.key.status later.retired).0 in ground (arith, later.found)
