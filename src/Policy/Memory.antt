-- ===== src/Policy/Memory.antt =====
-- The `PolicyStore` interface of packages/signer-policy/src/index.ts, and `InMemoryPolicyStore`. The
-- usage of one frequency key is charged by `charge`.
pub mod Limits
use universal_smart_wallet.Prelude.{
  ℕ, ◌+◌, ◌*◌, ◌/◌, suc, String, Bool, true, false, not, ◌&&◌, ◌||◌, ◌≡◌, ◌≢◌, List, [], ◌∷◌, arith,
  Option, none, some, ltb, leb, ◌==◌, if◌then◌else◌, includes, Map, lookup, insert, Result, ok, err,
  ◌>>=◌, ◌>>◌, guard,
}
use universal_smart_wallet.Policy.{
  FrequencyPolicy, SignerPolicy, SignerSession, Reservation, Reserved, reserved, replay, frequency,
  ReasonCode, invalid_request,
}
use universal_smart_wallet.Policy.Texts.{Checked, is_empty}
use universal_smart_wallet.Policy.Validate.{validate_policy}

-- The operations that the evaluator calls. `none` is a promise that is rejected. The numbers of a
-- policy that a store gives are integers, as `validatePolicy` demands of those that are put.
pub record PolicyStore (S : Type 0) : Type 0 where
  pub get_policy : String → S → Option (Option SignerPolicy)
  pub get_session : String → S → Option (Option SignerSession)
  pub is_policy_revoked : String → S → Option Bool
  pub is_session_revoked : String → S → Option Bool
  pub reserve : Reservation → S → Option Reserved × S

pub record Usage : Type 0 where
  pub request_ids : List String
  pub count : ℕ
  pub amount : ℕ
  pub window_start : ℕ

pub record Memory : Type 0 where
  pub policies : Map SignerPolicy
  pub sessions : Map SignerSession
  pub revoked_policies : List String
  pub revoked_sessions : List String
  pub usage : Map Usage
  pub consumed_request_ids : List String

abbrev pub empty : Memory
empty = record {
  policies = [];
  sessions = [];
  revoked_policies = [];
  revoked_sessions = [];
  usage = [];
  consumed_request_ids = [];
}

-- `set.add(value)`
abbrev pub add : String → List String → List String
add s ss = if includes s ss then ss else s ∷ ss

unfoldable pub put_policy : SignerPolicy → Memory → Checked Memory
put_policy p m = do validate_policy p; ok (record m { policies = insert p.policy_id p m.policies })

unfoldable pub session_valid : SignerSession → Bool
session_valid s =
    not (is_empty s.session_id)
    && not (is_empty s.signer_id)
    && not (is_empty s.policy_id)
    && ltb s.issued_at s.expires_at

unfoldable pub put_session : SignerSession → Memory → Checked Memory
put_session s m = do
  guard (session_valid s) invalid_request
  ok (record m { sessions = insert s.session_id s m.sessions })

unfoldable pub revoke_policy : String → Memory → Memory
revoke_policy id m = record m { revoked_policies = add id m.revoked_policies }

unfoldable pub revoke_session : String → Memory → Memory
revoke_session id m = record m { revoked_sessions = add id m.revoked_sessions }

-- `Math.floor(at / windowSeconds) * windowSeconds`
unfoldable pub window_start_of : ℕ → Option FrequencyPolicy → ℕ
window_start_of at none = at
window_start_of at (some f) = at / f.window_seconds * f.window_seconds

abbrev fresh_usage : ℕ → Usage
fresh_usage start = record { request_ids = []; count = 0; amount = 0; window_start = start }

-- The prior usage counts while its window is the current one.
unfoldable pub current_usage : Option Usage → ℕ → Usage
current_usage none start = fresh_usage start
current_usage (some prior) start = if prior.window_start == start then prior else fresh_usage start

abbrev pub above : ℕ → Option ℕ → Bool
above n none = false
above n (some most) = ltb most n

unfoldable pub is_spent : Option FrequencyPolicy → Usage → ℕ → Bool
is_spent none u amount = false
is_spent (some f) u amount =
    leb f.max_operations u.count || above (u.amount + amount) f.max_total_amount

-- The usage after one more operation, unless the limits are spent.
unfoldable pub charge : Option Usage → Reservation → Option Usage
charge prior input =
    let u = current_usage prior (window_start_of input.at input.frequency) in
    if is_spent input.frequency u input.amount
    then none
    else some (record u {
      request_ids = add input.request_id u.request_ids;
      count = suc u.count;
      amount = u.amount + input.amount;
    })

unfoldable pub reserve : Reservation → Memory → Reserved × Memory
reserve input m =
    if includes input.request_id m.consumed_request_ids
    then (replay, m)
    else elim (charge (lookup input.frequency_key m.usage) input) [
      | none ↦ (frequency, m)
      | some u ↦ (
        reserved,
        record m {
          usage = insert input.frequency_key u m.usage;
          consumed_request_ids = add input.request_id m.consumed_request_ids;
        },
      )
    ]

-- The in-memory store never rejects.
abbrev pub in_memory : PolicyStore Memory
in_memory = record {
  get_policy = λ id m. some (lookup id m.policies);
  get_session = λ id m. some (lookup id m.sessions);
  is_policy_revoked = λ id m. some (includes id m.revoked_policies);
  is_session_revoked = λ id m. some (includes id m.revoked_sessions);
  reserve = λ input m. let (answer, n) = reserve input m in (some answer, n);
}

-- A reservation that is denied leaves the store as it was.
pub reserve-keeps :
    (input : Reservation) (m : Memory) → (reserve input m).0 ≢ reserved → (reserve input m).1 ≡ m
unfolding reserve
reserve-keeps input m h = ground arith
