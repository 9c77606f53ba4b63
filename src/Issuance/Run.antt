-- ===== src/Issuance/Run.antt =====
-- An operation of `InstitutionalIssuerService` (packages/issuer-service/src/index.ts) as the sequence of
-- its parts: tests, readings of the service, calls of ports and changes of the service. `exec` runs
-- it on the maps of the service and the state of the ports; an error keeps what was done before it.
use universal_smart_wallet.Prelude.{Bool, true, false, Result, ok, err, Option, none, some}
use universal_smart_wallet.Issuance.{Failure, thrown, Service}

pub data Run (N A : Type 0) : Type 1 where
  done : A → Run N A
  gives : {X : Type 0} → Result Failure X → (X → Run N A) → Run N A
  reads : {X : Type 0} → (Service → Result Failure X) → (X → Run N A) → Run N A
  calls : {X : Type 0} → (N → X × N) → (X → Run N A) → Run N A
  attempts : {X : Type 0} → (N → Option X × N) → (X → Run N A) → Run N A
  needs : Bool → Failure → Run N A → Run N A
  changes : (Service → Service) → Run N A → Run N A

module _ {N A B : Type 0} where
  infixl 5 ◌>>=◌ ◌>>◌
  abbrev pub ◌>>=◌ : Run N A → (A → Run N B) → Run N B
  done a >>= next = next a
  gives r rest >>= next = gives r (λ x. rest x >>= next)
  reads f rest >>= next = reads f (λ x. rest x >>= next)
  calls port rest >>= next = calls port (λ x. rest x >>= next)
  attempts port rest >>= next = attempts port (λ x. rest x >>= next)
  needs test e rest >>= next = needs test e (rest >>= next)
  changes f rest >>= next = changes f (rest >>= next)

  abbrev pub ◌>>◌ : Run N A → Run N B → Run N B
  m >> next = m >>= λ _. next

module _ {N A : Type 0} where
  -- A value or an error, and what is read in the service.
  abbrev pub give : Result Failure A → Run N A
  give r = gives r done

  abbrev pub read : (Service → Result Failure A) → Run N A
  read f = reads f done

  -- A call of a port, and one of a port that may reject.
  abbrev pub call : (N → A × N) → Run N A
  call port = calls port done

  abbrev pub attempt : (N → Option A × N) → Run N A
  attempt port = attempts port done

module _ {N : Type 0} where
  abbrev pub change : (Service → Service) → Run N (Unit {0})
  change f = changes f (done tt)

  -- `if (!test) fail(...)`
  abbrev pub need : Bool → Failure → Run N (Unit {0})
  need test e = needs test e (done tt)

abbrev pub Outcome : Type 0 → Type 0 → Type 0
Outcome N A = Result Failure A × Service × N

module _ {N A : Type 0} where
  unfoldable pub exec : Run N A → Service → N → Outcome N A
  exec (done a) sv n = (ok a, sv, n)
  exec (gives (ok x) rest) sv n = exec (rest x) sv n
  exec (gives (err e) rest) sv n = (err e, sv, n)
  exec (reads f rest) sv n = elim (f sv) [ ok x ↦ exec (rest x) sv n | err e ↦ (err e, sv, n) ]
  exec (calls port rest) sv n = let (x, after) = port n in exec (rest x) sv after
  exec (attempts port rest) sv n =
      let (answer, after) = port n in
      elim answer [ some x ↦ exec (rest x) sv after | none ↦ (err thrown, sv, after) ]
  exec (needs test e rest) sv n = elim test [ true ↦ exec rest sv n | false ↦ (err e, sv, n) ]
  exec (changes f rest) sv n = exec rest (f sv) n
