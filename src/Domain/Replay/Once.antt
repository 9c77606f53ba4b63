-- ===== src/Domain/Replay/Once.antt =====
-- A challenge is used once: histories of `InMemoryReplayStore` of packages/credential-domain/src/index.ts
-- against an abstract board that knows of every value only whether it is unknown, spent, or live, with
-- an audience and a last instant.
use universal_smart_wallet.Prelude.{
  ℕ, ◌+◌, ◌≤◌, String, Bool, true, false, not, ◌≡◌, ◌↔◌, refl, sym, subst, inl, inr, List, [], ◌∷◌,
  Option, none, some, arith, leb, str_eq, eq_iff, eq_refl, lookup, has, lookup-insert,
  if◌then◌else◌, Option-cases,
}
use universal_smart_wallet.Domain.{
  PresentationChallenge, ReplayFailureCode, challenge_expired, challenge_wrong_audience,
  challenge_unknown, challenge_reused, ReplayConsumeRequest, StoredChallenge, accepted, refused,
}
use universal_smart_wallet.Domain.Challenges.{clock_skew_ms}
use universal_smart_wallet.Domain.Replay.{
  Entries, issue, or_now, judge, consume, in_memory, verify_challenge, Call, issues, consumes,
  verifies, Answer, issued, told, verified, step, run, answers,
}

-- What a client can learn of a value.
pub data Phase : Type 0 where
  unknown spent : Phase
  -- Its audience, and the last instant at which it is accepted.
  live : String → ℕ → Phase

abbrev pub Board : Type 0
Board = String → Phase

abbrev pub set : String → Phase → Board → Board
set k p b = λ asked. if str_eq k asked then p else b asked

-- The board's rules: an unknown value may be issued, and a live one is spent by its first use.
abbrev board_issue : PresentationChallenge → Phase → Board → Answer × Board
board_issue c unknown b =
    (issued true, set c.value (live c.audience (c.expires_at + clock_skew_ms)) b)
board_issue c _ b = (issued false, b)

-- The board accepts a use by its last instant, and then only for its audience.
abbrev use_of : String → ℕ → String → ℕ → Option ReplayFailureCode
use_of asked now audience last =
    if leb now last
    then if str_eq audience asked then none else some challenge_wrong_audience
    else some challenge_expired

abbrev pub board_consume :
    ℕ → ReplayConsumeRequest → Phase → Board → Option ReplayFailureCode × Board
board_consume clock r unknown b = (some challenge_unknown, b)
board_consume clock r spent b = (some challenge_reused, b)
board_consume clock r (live audience last) b =
    (use_of r.audience (or_now clock r.now) audience last, set r.value spent b)

abbrev told_of : PresentationChallenge → Option ReplayFailureCode → Answer
told_of c none = verified (accepted c)
told_of c (some code) = verified (refused code)

abbrev pub board_step : Board → Call → Answer × Board
board_step b (issues c) = board_issue c (b c.value) b
board_step b (consumes clock r) =
    let (failure, after) = board_consume clock r (b r.value) b in (told failure, after)
board_step b (verifies clock r c) =
    if not (str_eq r.value c.value)
    then (verified (refused challenge_unknown), b)
    else let (failure, after) = board_consume clock r (b r.value) b in (told_of c failure, after)

unfoldable pub board_answers : Board → List Call → List Answer
board_answers b [] = []
board_answers b (call ∷ calls) = (board_step b call).0 ∷ board_answers (board_step b call).1 calls

abbrev phase_of : Option StoredChallenge → Phase
phase_of none = unknown
phase_of (some e) =
    if e.consumed then spent else live e.challenge.audience (e.challenge.expires_at + clock_skew_ms)

-- The board that a store shows.
unfoldable pub board : Entries → Board
board m k = phase_of (lookup k m)

step-board-at :
    (m : Entries) (call : Call) (k : String)
    → board (step m call).1 k ≡ (board_step (board m) call).1 k
unfolding board step issue consume judge verify_challenge has
step-board-at m (issues c) k =
    ground (arith, lookup-insert c.value k (record { challenge = c; consumed = false }) m)
step-board-at m (consumes clock r) k = elim (Option-cases (lookup r.value m)) [
  | inl e ↦ ground arith
  | inr (entry, e) ↦ ground (arith, lookup-insert r.value k (record entry { consumed = true }) m)
]
step-board-at m (verifies clock r c) k = elim (Option-cases (lookup r.value m)) [
  | inl e ↦ ground arith
  | inr (entry, e) ↦ ground (arith, lookup-insert r.value k (record entry { consumed = true }) m)
]

step-answer : (m : Entries) (call : Call) → (step m call).0 ≡ (board_step (board m) call).0
unfolding board step issue consume judge verify_challenge has
step-answer m (issues c) = ground arith
step-answer m (consumes clock r) = ground arith
step-answer m (verifies clock r c) = ground arith

step-board : (m : Entries) (call : Call) → board (step m call).1 ≡ (board_step (board m) call).1
step-board m call i k = step-board-at m call k i

-- The in-memory replay store gives every history of calls the answers of an abstract board, which
-- knows of each value only whether it is unknown, spent, or live with an audience and the last
-- instant at which it is accepted, and where a live value is spent by its first use, whatever that
-- use is told.
pub answers-board_answers :
    (m : Entries) (calls : List Call) → answers m calls ≡ board_answers (board m) calls
unfolding answers board_answers
answers-board_answers m [] = refl
answers-board_answers m (call ∷ calls) =
    rw (step-answer m call, answers-board_answers (step m call).1 calls, step-board m call) refl

-- The challenge of this value was consumed.
unfoldable pub was_spent : String → Entries → Bool
was_spent k m = elim (lookup k m) [ none ↦ false | some e ↦ e.consumed ]

consume-spent :
    (clock : ℕ) (r : ReplayConsumeRequest) (m : Entries)
    → has r.value m ≡ true
    → was_spent r.value (consume clock r m).1 ≡ true
unfolding consume was_spent has
consume-spent clock r m h = elim (Option-cases (lookup r.value m)) [
  | inl e ↦ absurd (ground arith)
  | inr (entry, e) ↦
      ground
        (arith, lookup-insert r.value r.value (record entry { consumed = true }) m, eq_refl r.value)
]

step-spent :
    (k : String) (m : Entries) (call : Call)
    → was_spent k m ≡ true
    → was_spent k (step m call).1 ≡ true
unfolding step issue consume verify_challenge has was_spent
step-spent k m (issues c) h = ground (
  arith,
  lookup-insert c.value k (record { challenge = c; consumed = false }) m,
  eq_iff c.value k,
)
step-spent k m (consumes clock r) h = elim (Option-cases (lookup r.value m)) [
  | inl e ↦ ground arith
  | inr (entry, e) ↦ ground (arith, lookup-insert r.value k (record entry { consumed = true }) m)
]
step-spent k m (verifies clock r c) h = elim (Option-cases (lookup r.value m)) [
  | inl e ↦ ground arith
  | inr (entry, e) ↦ ground (arith, lookup-insert r.value k (record entry { consumed = true }) m)
]

run-spent :
    (k : String) (m : Entries) (calls : List Call)
    → was_spent k m ≡ true
    → was_spent k (run m calls) ≡ true
unfolding run
run-spent k m [] h = h
run-spent k m (call ∷ calls) h = run-spent k (step m call).1 calls (step-spent k m call h)

spent-reused :
    (clock : ℕ) (r : ReplayConsumeRequest) (m : Entries)
    → was_spent r.value m ≡ true
    → consume clock r m ≡ (some challenge_reused, m)
unfolding consume was_spent
spent-reused clock r m h = ground arith

-- Whatever the first use of an issued challenge was told, a later verification of a challenge of
-- the same value is told that it was used, after any further calls, and leaves the store as it is.
pub consumed_once :
    (clock later : ℕ) (first second : ReplayConsumeRequest) (c : PresentationChallenge)
    (m : Entries) (calls : List Call)
    → has first.value m ≡ true
    → second.value ≡ first.value
    → c.value ≡ first.value
    → verify_challenge (in_memory later) second c (run (consume clock first m).1 calls)
      ≡ (refused challenge_reused, run (consume clock first m).1 calls)
unfolding verify_challenge
consumed_once clock later first second c m calls known e f =
    let n = run (consume clock first m).1 calls in
    let spent_first : was_spent first.value n ≡ true =
      run-spent first.value (consume clock first m).1 calls (consume-spent clock first m known) in
    let again =
      spent-reused later second n (subst (λ k. was_spent k n ≡ true) (sym e) spent_first) in
    ground (arith, eq_iff second.value c.value)

-- The store holds an unused challenge for the request.
pub record Usable (clock : ℕ) (r : ReplayConsumeRequest) (m : Entries) : Type 0 where
  pub entry : StoredChallenge
  pub found : lookup r.value m ≡ some entry
  pub unused : entry.consumed ≡ false
  pub audience : entry.challenge.audience ≡ r.audience
  pub in_time : or_now clock r.now ≤ entry.challenge.expires_at + clock_skew_ms

verify_challenge-Usable :
    (clock : ℕ) (r : ReplayConsumeRequest) (c : PresentationChallenge) (m : Entries)
    → (verify_challenge (in_memory clock) r c m).0 ≡ accepted c
    → (r.value ≡ c.value) × Usable clock r m
unfolding verify_challenge consume judge
verify_challenge-Usable clock r c m h = elim (Option-cases (lookup r.value m)) [
  | inl e ↦ absurd (ground arith)
  | inr (entry, e) ↦ (
    ground (arith, eq_iff r.value c.value),
    record {
      entry = entry;
      found = e;
      unused = ground arith;
      audience = ground (arith, eq_iff entry.challenge.audience r.audience);
      in_time = ground arith;
    },
  )
]

-- With the in-memory store, a verification accepts the given challenge exactly when the request is
-- for its value and the store holds an unused challenge of that value and of the request's
-- audience, which expired at most thirty seconds ago.
pub verify_challenge-accepted :
    (clock : ℕ) (r : ReplayConsumeRequest) (c : PresentationChallenge) (m : Entries)
    → ((verify_challenge (in_memory clock) r c m).0 ≡ accepted c)
      ↔ ((r.value ≡ c.value) × Usable clock r m)
unfolding verify_challenge consume judge
verify_challenge-accepted clock r c m = (
  verify_challenge-Usable clock r c m,
  λ h.
      let u = h.1 in
      let found = u.found in
      let unused = u.unused in
      let in_time = u.in_time in
      let is_same = (eq_iff r.value c.value).1 h.0 in
      let is_for = (eq_iff (u.entry.challenge.audience) r.audience).1 u.audience in ground arith,
)
