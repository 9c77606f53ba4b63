-- ===== src/Registry/Cache/Runs.antt =====
-- Histories of calls on a cache: what holds of every entry, and how entries follow each other.
use universal_smart_wallet.Prelude.{
  ℕ, ◌≡◌, refl, sym, ◌∙◌, ap, subst, String, Option, some, arith, eq_iff, str_eq, Bool-cases, inl,
  inr, List, [], ◌∷◌, All, lookup, lookup-insert, lookup-erase,
}
use universal_smart_wallet.Value.{Value}
use universal_smart_wallet.Registry.{Scope, SignedSnapshot}
use universal_smart_wallet.Registry.Verify.{Verifier}
use universal_smart_wallet.Registry.Decide.{TrustRequest, StatusRequest, or_else}
use universal_smart_wallet.Registry.Cache.{
  Cache, Ports, CredentialRequest, scope_key, prime, invalidate, refresh, evaluate_trust,
  evaluate_status, evaluate_credential,
}
use universal_smart_wallet.Registry.Cache.Laws.{
  IsScope, scope_key_injective, Follows, Follows-refl, Follows-trans,
}
use universal_smart_wallet.Registry.Cache.Change.{
  Authentic, Change, keep, stored, prime-Change, refresh-Change, resolve-Change, invalidate_cases,
}

pub data Call : Type 0 where
  primes : Value → Call
  invalidates : Scope → Call
  refreshes : Scope → Option ℕ → Call
  trusts : TrustRequest → Call
  statuses : StatusRequest → Call
  credentials : CredentialRequest → Call

-- The entries after a call; the ports answer anew in each.
unfoldable pub step : Cache → Ports × Call → Cache
step c (ports, primes value) = (prime ports value c).1
step c (ports, invalidates scope) = (invalidate scope c).1
step c (ports, refreshes scope now) = (refresh ports scope now c).1
step c (ports, trusts request) = (evaluate_trust ports request c).1
step c (ports, statuses request) = (evaluate_status ports request c).1
step c (ports, credentials request) = (evaluate_credential ports request c).1

unfoldable pub run : Cache → List (Ports × Call) → Cache
run c [] = c
run c (call ∷ calls) = run (step c call) calls

abbrev pub Uses : Verifier → Ports × Call → Type 0
Uses verify call = call.0.verify ≡ verify

-- Every entry stands under the key of its own scope and was accepted by the verifier.
pub record IsSound (verify : Verifier) (c : Cache) : Type 0 where
  pub at_key :
      (k : String) (s : SignedSnapshot)
      → lookup k c ≡ some s
      → (k ≡ scope_key s.scope) × Authentic verify s

-- The call does not drop the entry of this scope.
abbrev pub Keeps : Scope → Ports × Call → Type 0
Keeps scope (ports, invalidates t) = ¬ (t ≡ scope)
Keeps scope (ports, primes value) = Unit {0}
Keeps scope (ports, refreshes t now) = Unit {0}
Keeps scope (ports, trusts r) = Unit {0}
Keeps scope (ports, statuses r) = Unit {0}
Keeps scope (ports, credentials r) = Unit {0}

-- A rule for a property of the entries: it survives a change and an `invalidate`.
module _ (verify : Verifier) (P : Cache → Type 0) (c : Cache) where
  step_rule :
      (call : Ports × Call)
      → Uses verify call
      → ((d : Cache) → Change verify c d → P d)
      → ((ports : Ports) (scope : Scope)
          → call ≡ (ports, invalidates scope)
          → P (invalidate scope c).1)
      → P (step c call)
  unfolding step evaluate_trust evaluate_status evaluate_credential
  step_rule (ports, primes value) u k i = k _ (prime-Change verify ports u value c)
  step_rule (ports, invalidates scope) u k i = i ports scope refl
  step_rule (ports, refreshes scope now) u k i = k _ (refresh-Change verify ports u scope now c)
  step_rule (ports, trusts r) u k i =
      k _ (resolve-Change verify ports u r.scope (or_else r.now ports.clock) c)
  step_rule (ports, statuses r) u k i =
      k _ (resolve-Change verify ports u r.scope (or_else r.now ports.clock) c)
  step_rule (ports, credentials r) u k i =
      k _ (resolve-Change verify ports u r.scope (or_else r.now ports.clock) c)

pub Change-IsSound :
    (verify : Verifier) (c d : Cache) → Change verify c d → IsSound verify c → IsSound verify d
Change-IsSound verify c d (keep e) v = subst (IsSound verify) (sym e) v
Change-IsSound verify c d (stored s a f e) v = record {
  at_key = λ k t h. elim (Bool-cases (str_eq (scope_key s.scope) k)) [
    | inl hit ↦
        let same : some s ≡ some t = ground (arith, e, lookup-insert (scope_key s.scope) k s c) in
        let eq : s ≡ t = ground arith in
        subst (λ (z : SignedSnapshot). (k ≡ scope_key z.scope) × Authentic verify z) eq
          (ground (arith, eq_iff (scope_key s.scope) k), a)
    | inr miss ↦ v.at_key k t (ground (arith, e, lookup-insert (scope_key s.scope) k s c))
  ];
}

invalidate-IsSound :
    (verify : Verifier) (scope : Scope) (c : Cache)
    → IsSound verify c
    → IsSound verify (invalidate scope c).1
invalidate-IsSound verify scope c v = elim (invalidate_cases scope c) [
  | inl e ↦ subst (IsSound verify) (sym e) v
  | inr (p, w, e) ↦ record {
    at_key = λ k t h. v.at_key k t (ground (arith, e, lookup-erase (scope_key scope) k c));
  }
]

pub step-IsSound :
    (verify : Verifier) (c : Cache) (call : Ports × Call)
    → Uses verify call
    → IsSound verify c
    → IsSound verify (step c call)
step-IsSound verify c call u v =
    step_rule verify (IsSound verify) c call u (λ d ch. Change-IsSound verify c d ch v)
      (λ ports scope e. invalidate-IsSound verify scope c v)

-- Whatever calls are made with one verifier, every entry of the cache stands under its own scope's
-- key and carries a signature that the verifier accepted over that very snapshot, if it was so
-- before.
pub run-IsSound :
    (verify : Verifier) (c : Cache) (calls : List (Ports × Call))
    → All (Uses verify) calls
    → IsSound verify c
    → IsSound verify (run c calls)
unfolding run
run-IsSound verify c [] u v = v
run-IsSound verify c (call ∷ calls) u v =
    run-IsSound verify (step c call) calls u.1 (step-IsSound verify c call u.0 v)

-- An entry that is looked up for a scope is of that scope.
pub lookup-same_scope :
    (verify : Verifier) (c : Cache) (scope : Scope) (s : SignedSnapshot)
    → IsSound verify c
    → IsScope scope
    → lookup (scope_key scope) c ≡ some s
    → s.scope ≡ scope
lookup-same_scope verify c scope s v w h =
    let at = v.at_key (scope_key scope) s h in
    sym (scope_key_injective scope s.scope w at.1.scoped at.0)

-- The entry of a scope is there, and may follow p.
abbrev pub Advanced : SignedSnapshot → Scope → Cache → Type 0
Advanced p scope c = (q : SignedSnapshot) × (lookup (scope_key scope) c ≡ some q) × Follows p q

Change-Advanced :
    (verify : Verifier) (c d : Cache) (p : SignedSnapshot) (scope : Scope)
    → Change verify c d
    → Advanced p scope c
    → Advanced p scope d
Change-Advanced verify c d p scope (keep e) a = subst (Advanced p scope) (sym e) a
Change-Advanced verify c d p scope (stored s au f e) (q, h, fo) =
    elim (Bool-cases (str_eq (scope_key s.scope) (scope_key scope))) [
      | inl hit ↦
          let same = (eq_iff (scope_key s.scope) (scope_key scope)).0 hit in
          (
            s,
            ground (arith, e, lookup-insert (scope_key s.scope) (scope_key scope) s c),
            Follows-trans p q s fo (f q (ap (λ k. lookup k c) same ∙ h)),
          )
      | inr miss ↦
          (q, ground (arith, e, lookup-insert (scope_key s.scope) (scope_key scope) s c), fo)
    ]

invalidate-Advanced :
    (c : Cache) (p : SignedSnapshot) (t scope : Scope)
    → IsScope scope
    → ¬ (t ≡ scope)
    → Advanced p scope c
    → Advanced p scope (invalidate t c).1
invalidate-Advanced c p t scope w other a = elim (invalidate_cases t c) [
  | inl e ↦ subst (Advanced p scope) (sym e) a
  | inr (pt, wt, e) ↦ elim (Bool-cases (str_eq (scope_key t) (scope_key scope))) [
    | inl hit ↦
        absurd (
          other (scope_key_injective t scope wt w ((eq_iff (scope_key t) (scope_key scope)).0 hit)))
    | inr miss ↦ (a.0, ground (arith, e, a.1, lookup-erase (scope_key t) (scope_key scope) c), a.2)
  ]
]

step-Advanced :
    (verify : Verifier) (c : Cache) (call : Ports × Call) (p : SignedSnapshot) (scope : Scope)
    → IsScope scope
    → Uses verify call
    → Keeps scope call
    → Advanced p scope c
    → Advanced p scope (step c call)
step-Advanced verify c call p scope w u k a =
    step_rule verify (Advanced p scope) c call u (λ d ch. Change-Advanced verify c d p scope ch a)
      (λ ports t e. invalidate-Advanced c p t scope w (subst (Keeps scope) e k) a)

-- No history of calls with one verifier rolls the entry of a well-formed scope back: unless the
-- scope itself is invalidated, its entry stays, and only snapshots with a later sequence, or with
-- the same sequence, identifier and signature, replace it.
pub run-Advanced :
    (verify : Verifier) (c : Cache) (calls : List (Ports × Call)) (p : SignedSnapshot)
    (scope : Scope)
    → IsScope scope
    → All (Uses verify) calls
    → All (Keeps scope) calls
    → lookup (scope_key scope) c ≡ some p
    → Advanced p scope (run c calls)
unfolding run
run-Advanced verify c calls p scope w u k h = go c calls u k (p, h, Follows-refl p)
  where
    go :
        (c : Cache) (calls : List (Ports × Call))
        → All (Uses verify) calls
        → All (Keeps scope) calls
        → Advanced p scope c
        → Advanced p scope (run c calls)
    go c [] u k a = a
    go c (call ∷ calls) u k a =
        go (step c call) calls u.1 k.1 (step-Advanced verify c call p scope w u.0 k.0 a)
