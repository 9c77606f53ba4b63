-- ===== src/Issuance/Rules.antt =====
-- Rules for what holds of every outcome of an operation of packages/issuer-service/src/index.ts that
-- starts at a given service: one rule for each part that an operation is put together from.
use universal_smart_wallet.Prelude.{
  ◌≡◌, refl, sym, subst, inl, inr, Bool, true, false, Option, Result, ok, err, Result-cases,
  Option-cases,
}
use universal_smart_wallet.Issuance.{Failure, Service}
use universal_smart_wallet.Issuance.Run.{
  Run, done, gives, reads, calls, attempts, needs, changes, ◌>>=◌, Outcome, exec,
}

-- Every outcome of the operation at this service satisfies Q.
pub record Holds {N A : Type 0} (Q : Outcome N A → Type 0) (sv : Service) (m : Run N A)
    : Type 0 where
  pub at : (n : N) → Q (exec m sv n)

-- The operation may fail here.
abbrev pub Stops : {N A : Type 0} → (Outcome N A → Type 0) → Service → Type 0
Stops {N} Q sv = (e : Failure) (n : N) → Q (err e, sv, n)

module _ {N A : Type 0} {Q : Outcome N A → Type 0} {sv : Service} where
  pub on_done : {a : A} → ((n : N) → Q (ok a, sv, n)) → Holds Q sv (done a)
  unfolding exec
  on_done h = record { at = h }

  pub on_give :
      {X : Type 0} {r : Result Failure X} {rest : X → Run N A}
      → Stops Q sv
      → ((x : X) → r ≡ ok x → Holds Q sv (rest x))
      → Holds Q sv (gives r rest)
  unfolding exec
  on_give {r = ok x} stop h = record { at = (h x refl).at }
  on_give {r = err e} stop h = record { at = stop e }

  pub on_read :
      {X : Type 0} {f : Service → Result Failure X} {rest : X → Run N A}
      → Stops Q sv
      → ((x : X) → f sv ≡ ok x → Holds Q sv (rest x))
      → Holds Q sv (reads f rest)
  unfolding exec
  on_read {f = f} stop h = elim (Result-cases (f sv)) [
    | inl (x, e) ↦ record { at = λ n. rw e ((h x e).at n) }
    | inr (x, e) ↦ record { at = λ n. rw e (stop x n) }
  ]

  pub on_call :
      {X : Type 0} {port : N → X × N} {rest : X → Run N A}
      → ((x : X) → Holds Q sv (rest x))
      → Holds Q sv (calls port rest)
  unfolding exec
  on_call {port = port} h = record { at = λ n. (h (port n).0).at (port n).1 }

  pub on_attempt :
      {X : Type 0} {port : N → Option X × N} {rest : X → Run N A}
      → Stops Q sv
      → ((x : X) → Holds Q sv (rest x))
      → Holds Q sv (attempts port rest)
  unfolding exec
  on_attempt {port = port} stop h = record {
    at = λ n. elim (Option-cases (port n).0) [
      | inl e ↦ rw e (stop _ (port n).1)
      | inr (x, e) ↦ rw e ((h x).at (port n).1)
    ];
  }

  pub on_need :
      {test : Bool} {e : Failure} {rest : Run N A}
      → Stops Q sv
      → (test ≡ true → Holds Q sv rest)
      → Holds Q sv (needs test e rest)
  unfolding exec
  on_need {test = true} stop h = record { at = (h refl).at }
  on_need {test = false} {e = e} stop h = record { at = stop e }

  pub on_change :
      {f : Service → Service} {rest : Run N A} → Holds Q (f sv) rest → Holds Q sv (changes f rest)
  unfolding exec
  on_change h = record { at = h.at }

module _ {N A B C : Type 0} (f : A → Run N B) (g : B → Run N C) where
  pub >>=-assoc : (m : Run N A) → ((m >>= f) >>= g) ≡ (m >>= λ x. f x >>= g)
  >>=-assoc (done a) = refl
  >>=-assoc (gives r rest) = λ i. gives r (λ x. >>=-assoc (rest x) i)
  >>=-assoc (reads h rest) = λ i. reads h (λ x. >>=-assoc (rest x) i)
  >>=-assoc (calls port rest) = λ i. calls port (λ x. >>=-assoc (rest x) i)
  >>=-assoc (attempts port rest) = λ i. attempts port (λ x. >>=-assoc (rest x) i)
  >>=-assoc (needs test e rest) = λ i. needs test e (>>=-assoc rest i)
  >>=-assoc (changes h rest) = λ i. changes h (>>=-assoc rest i)

  pub on_assoc :
      {Q : Outcome N C → Type 0} {sv : Service} (m : Run N A)
      → Holds Q sv (m >>= λ x. f x >>= g)
      → Holds Q sv ((m >>= f) >>= g)
  on_assoc {Q} {sv} m h = subst (Holds Q sv) (sym (>>=-assoc m)) h
