-- ===== src/Domain/Replay.antt =====
-- `ReplayStore`, `InMemoryReplayStore` and `verifyChallenge` of packages/credential-domain/src/index.ts,
-- and histories of their calls. `Once` has the proofs. The clock that `consume` reads when the
-- request names no time is an argument.
pub mod Once
use universal_smart_wallet.Prelude.{
  ℕ, ◌+◌, String, Bool, true, false, not, List, [], ◌∷◌, Option, none, some, ltb, str_eq, Map,
  lookup, has, insert, if◌then◌else◌, Result, ok, err, length,
}
use universal_smart_wallet.Domain.{
  PresentationChallenge, ReplayFailureCode, challenge_expired, challenge_wrong_audience,
  challenge_unknown, challenge_reused, replay_store_failure, ReplayConsumeRequest, StoredChallenge,
  ChallengeVerification, accepted, refused,
}
use universal_smart_wallet.Domain.Attestations.{Checked}
use universal_smart_wallet.Domain.Challenges.{clock_skew_ms}

-- A store; `consume` answers `none` when it throws.
pub record ReplayStore (S : Type 0) : Type 0 where
  pub issue : PresentationChallenge → S → Checked S
  pub consume : ReplayConsumeRequest → S → Option (Option ReplayFailureCode) × S

abbrev pub Entries : Type 0
Entries = Map StoredChallenge

unfoldable pub issue : PresentationChallenge → Entries → Checked Entries
issue challenge m =
    if has challenge.value m
    then err "challenge collision"
    else ok (insert challenge.value (record { challenge = challenge; consumed = false }) m)

abbrev pub or_now : ℕ → Option ℕ → ℕ
or_now clock none = clock
or_now clock (some now) = now

-- What a request is told of a challenge that was not consumed before.
unfoldable pub judge : ℕ → ReplayConsumeRequest → PresentationChallenge → Option ReplayFailureCode
judge now request challenge =
    if ltb (challenge.expires_at + clock_skew_ms) now
    then some challenge_expired
    else if not (str_eq challenge.audience request.audience)
    then some challenge_wrong_audience
    else none

unfoldable pub consume : ℕ → ReplayConsumeRequest → Entries → Option ReplayFailureCode × Entries
consume clock request m = elim (lookup request.value m) [
  | none ↦ (some challenge_unknown, m)
  | some entry ↦ if entry.consumed then (some challenge_reused, m) else (
    judge (or_now clock request.now) request entry.challenge,
    insert request.value (record entry { consumed = true }) m,
  )
]

-- `size()`
abbrev pub size : Entries → ℕ
size m = length m

abbrev pub in_memory : ℕ → ReplayStore Entries
in_memory clock = record {
  issue = issue;
  consume = λ request m. let (failure, n) = consume clock request m in (some failure, n);
}

abbrev verification : PresentationChallenge → Option ReplayFailureCode → ChallengeVerification
verification challenge none = accepted challenge
verification challenge (some code) = refused code

abbrev verification_of :
    PresentationChallenge → Option (Option ReplayFailureCode) → ChallengeVerification
verification_of challenge none = refused replay_store_failure
verification_of challenge (some failure) = verification challenge failure

unfoldable pub verify_challenge :
    {S : Type 0}
    → ReplayStore S
    → ReplayConsumeRequest
    → PresentationChallenge
    → S
    → ChallengeVerification × S
verify_challenge store request challenge s =
    if not (str_eq request.value challenge.value)
    then (refused challenge_unknown, s)
    else let (answer, t) = store.consume request s in (verification_of challenge answer, t)

-- The calls of a store's clients, with the clock's answer.
pub data Call : Type 0 where
  issues : PresentationChallenge → Call
  consumes : ℕ → ReplayConsumeRequest → Call
  verifies : ℕ → ReplayConsumeRequest → PresentationChallenge → Call

pub data Answer : Type 0 where
  issued : Bool → Answer
  told : Option ReplayFailureCode → Answer
  verified : ChallengeVerification → Answer

abbrev issue_answer : Entries → Checked Entries → Answer × Entries
issue_answer m (ok n) = (issued true, n)
issue_answer m (err e) = (issued false, m)

unfoldable pub step : Entries → Call → Answer × Entries
step m (issues challenge) = issue_answer m (issue challenge m)
step m (consumes clock request) = let (failure, n) = consume clock request m in (told failure, n)
step m (verifies clock request challenge) =
    let (answer, n) = verify_challenge (in_memory clock) request challenge m in (verified answer, n)

unfoldable pub run : Entries → List Call → Entries
run m [] = m
run m (call ∷ calls) = run (step m call).1 calls

unfoldable pub answers : Entries → List Call → List Answer
answers m [] = []
answers m (call ∷ calls) = (step m call).0 ∷ answers (step m call).1 calls
