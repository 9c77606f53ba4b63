-- ===== src/Presentation/Selected.antt =====
-- Which candidates `selectPresentationCandidates` of packages/presentation-policy/src/index.ts selects.
use universal_smart_wallet.Prelude.{
  ◌≡◌, refl, subst, inl, inr, String, true, &&-eq-true, List, [], ◌∷◌, ◌++◌, Option, arith, eq_iff,
  all, All, Any, here, there, Bool-cases, ok,
}
use universal_smart_wallet.Value.{Value}
use universal_smart_wallet.Presentation.{
  ClaimRequirement, CredentialQuery, PresentationPolicy, PresentationCandidate, equals_some, follow,
  meets, is_allowed, fits, select_for, select_all, parse_presentation_policy,
  select_presentation_candidates,
}

-- The candidate answers the query: each required claim stands at its path with its very value.
pub record Answers (approved : Option (List String)) (c : PresentationCandidate)
    (q : CredentialQuery) : Type 0 where
  pub format : c.format ≡ "dc+sd-jwt"
  pub kind : c.vct ≡ q.vct
  pub id : c.id ≡ q.id
  pub allowed : is_allowed approved c.id ≡ true
  pub claims : All (λ r. equals_some (follow r.path c.claims) r.value ≡ true) q.claims

all-All :
    (claims : Value) (rs : List ClaimRequirement)
    → all (meets claims) rs ≡ true
    → All (λ r. equals_some (follow r.path claims) r.value ≡ true) rs
unfolding meets
all-All claims [] h = tt
all-All claims (r ∷ rs) h = let both = &&-eq-true _ _ h in (both.0, all-All claims rs both.1)

fits-Answers :
    (approved : Option (List String)) (q : CredentialQuery) (c : PresentationCandidate)
    → fits approved q c ≡ true
    → Answers approved c q
unfolding fits
fits-Answers approved q c h = record {
  format = ground (arith, eq_iff c.format "dc+sd-jwt");
  kind = ground (arith, eq_iff c.vct q.vct);
  id = ground (arith, eq_iff c.id q.id);
  allowed = ground arith;
  claims = all-All c.claims q.claims (ground arith);
}

-- A selected candidate is one of the candidates, and answers a query of the policy.
abbrev pub Chosen :
    Option (List String)
    → List PresentationCandidate
    → List CredentialQuery
    → PresentationCandidate
    → Type 0
Chosen approved candidates queries c =
    Any (λ d. d ≡ c) candidates × Any (Answers approved c) queries

All-append : {A : Type 0} (P : A → Type 0) (xs ys : List A) → All P xs → All P ys → All P (xs ++ ys)
All-append P [] ys p q = q
All-append P (x ∷ xs) ys (p, ps) q = (p, All-append P xs ys ps q)

All-weaken :
    {A : Type 0} {P Q : A → Type 0} → ((x : A) → P x → Q x) → (xs : List A) → All P xs → All Q xs
All-weaken h [] p = tt
All-weaken h (x ∷ xs) (p, ps) = (h x p, All-weaken h xs ps)

module _ (approved : Option (List String)) where
  select_for-All :
      (q : CredentialQuery) (cs : List PresentationCandidate)
      → All (λ c. Any (λ d. d ≡ c) cs × Answers approved c q) (select_for approved q cs)
  unfolding select_for
  select_for-All q [] = tt
  select_for-All q (c ∷ cs) =
      let rest =
        All-weaken (λ d h. (there h.0, h.1)) (select_for approved q cs) (select_for-All q cs) in
      elim (Bool-cases (fits approved q c)) [
        | inl e ↦ rw e ((here refl, fits-Answers approved q c e), rest)
        | inr e ↦ rw e rest
      ]

  select_all-All :
      (cs : List PresentationCandidate) (qs : List CredentialQuery)
      → All (Chosen approved cs qs) (select_all approved cs qs)
  unfolding select_all
  select_all-All cs [] = tt
  select_all-All cs (q ∷ qs) =
      All-append (Chosen approved cs (q ∷ qs)) (select_for approved q cs)
        (select_all approved cs qs)
        (All-weaken (λ c h. (h.0, here h.1)) (select_for approved q cs) (select_for-All q cs))
        (All-weaken (λ c h. (h.0, there h.1)) (select_all approved cs qs) (select_all-All cs qs))

-- Every selected candidate is one of the given ones, is approved if identifiers are, and answers
-- some query of the parsed policy: it has the query's format, type and identifier, and at the path
-- of each required claim the very value that is required.
pub select_presentation_candidates-Chosen :
    (value : Value) (candidates selected : List PresentationCandidate)
    (approved : Option (List String)) (policy : PresentationPolicy)
    → parse_presentation_policy value ≡ ok policy
    → select_presentation_candidates value candidates approved ≡ ok selected
    → All (Chosen approved candidates policy.credentials) selected
unfolding select_presentation_candidates
select_presentation_candidates-Chosen value candidates selected approved policy parsed h =
    let is_all : select_all approved candidates policy.credentials ≡ selected = ground arith in
    subst (All (Chosen approved candidates policy.credentials)) is_all
      (select_all-All approved candidates policy.credentials)
