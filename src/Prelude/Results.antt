-- ===== src/Prelude/Results.antt =====
-- A computation that returns a value or throws an error.
use mathlib.Core.Path.{◌≡◌, refl, ap, subst}
use mathlib.Core.Bool.{Bool, true, false}
use mathlib.Core.Logic.{◌⊎◌, inl, inr}
use mathlib.Core.Option.{Option, none, some}
use mathlib.Core.List.{List, [], ◌∷◌}
use universal_smart_wallet.Prelude.Lists.{All}

pub data Result {ℓ κ} (E : Type ℓ) (A : Type κ) : Type (ℓ ⊔ κ) where
  ok : A → Result E A
  err : E → Result E A

module _ {ℓ κ μ} {E : Type ℓ} {A : Type κ} {B : Type μ} where
  infixl 5 ◌>>=◌ ◌>>◌
  abbrev pub ◌>>=◌ : Result E A → (A → Result E B) → Result E B
  ok a >>= next = next a
  err thrown >>= next = err thrown

  abbrev pub ◌>>◌ : Result E A → Result E B → Result E B
  first >> second = first >>= λ _. second

  -- Inversion of a bind that returned.
  pub >>=-eq-ok :
      (first : Result E A) (next : A → Result E B) {b : B}
      → (first >>= next) ≡ ok b
      → (a : A) × (first ≡ ok a) × (next a ≡ ok b)
  >>=-eq-ok (ok a) next returned = (a, refl, returned)
  >>=-eq-ok (err thrown) next returned = cc

-- `items.map(parse)`, where `parse` may throw.
unfoldable pub map_result {ℓ κ μ} :
    {E : Type ℓ} {A : Type κ} {B : Type μ} → (A → Result E B) → List A → Result E (List B)
map_result f [] = ok []
map_result f (x ∷ xs) = do y ← f x; ys ← map_result f xs; ok (y ∷ ys)

-- `if (!test) throw e`.
abbrev pub guard {ℓ} : {E : Type ℓ} → Bool → E → Result E (Unit {0})
guard true e = ok tt
guard false e = err e

pub guard-eq-ok {ℓ} : {E : Type ℓ} (b : Bool) (e : E) {u : Unit {0}} → guard b e ≡ ok u → b ≡ true
guard-eq-ok true e h = refl
guard-eq-ok false e h = cc

abbrev pub or_throw {ℓ κ} : {E : Type ℓ} {A : Type κ} → E → Option A → Result E A
or_throw e none = err e
or_throw e (some a) = ok a

-- Every value that `r` returns satisfies P.
pub record Ensures {ℓ κ μ} {E : Type ℓ} {A : Type κ} (P : A → Type μ) (r : Result E A)
    : Type (ℓ ⊔ κ ⊔ μ) where
  pub at : (a : A) → r ≡ ok a → P a

module _ {ℓ κ μ} {E : Type ℓ} {A : Type κ} {P : A → Type μ} where
  pub Ensures-ok : {a : A} → P a → Ensures {E = E} P (ok a)
  Ensures-ok {a} p = record { at = λ b e. subst P (ap or_a e) p }
    where
      or_a : Result E A → A
      or_a (ok b) = b
      or_a (err e) = a

module _ {ℓ κ μ ν} {E : Type ℓ} {A : Type κ} {B : Type μ} {Q : B → Type ν} where
  pub Ensures-bind {π} :
      {P : A → Type π} (m : Result E A) (f : A → Result E B)
      → Ensures P m
      → ((a : A) → P a → Ensures Q (f a))
      → Ensures Q (m >>= f)
  Ensures-bind (ok a) f h k = k a (h.at a refl)
  Ensures-bind (err e) f h k = record { at = λ b p. cc }

  -- The rest of the block may use that `m` returned.
  pub Ensures-bind_any :
      (m : Result E A) (f : A → Result E B)
      → ((a : A) → m ≡ ok a → Ensures Q (f a))
      → Ensures Q (m >>= f)
  Ensures-bind_any (ok a) f k = k a refl
  Ensures-bind_any (err e) f k = record { at = λ b p. cc }

pub Ensures-guard {ℓ μ ν} :
    {E : Type ℓ} {B : Type μ} {Q : B → Type ν} (b : Bool) (e : E) (r : Result E B)
    → (b ≡ true → Ensures Q r)
    → Ensures Q (guard b e >> r)
Ensures-guard true e r k = k refl
Ensures-guard false e r k = record { at = λ b p. cc }

pub Ensures-map_result {ℓ κ μ ν} :
    {E : Type ℓ} {A : Type κ} {B : Type μ} {P : B → Type ν} (f : A → Result E B)
    → ((a : A) → Ensures P (f a))
    → (xs : List A) → Ensures (All P) (map_result f xs)
unfolding map_result
Ensures-map_result f k [] = Ensures-ok tt
Ensures-map_result f k (x ∷ xs) = Ensures-bind (f x) _ (k x) (λ y p.
    Ensures-bind (map_result f xs) _ (Ensures-map_result f k xs) (λ ys ps. Ensures-ok (p, ps)))

pub Result-cases {ℓ κ} :
    {E : Type ℓ} {A : Type κ} (r : Result E A) → ((a : A) × (r ≡ ok a)) ⊎ ((e : E) × (r ≡ err e))
Result-cases (ok a) = inl (a, refl)
Result-cases (err e) = inr (e, refl)

abbrev pub is_ok {ℓ κ} : {E : Type ℓ} {A : Type κ} → Result E A → Bool
is_ok (ok a) = true
is_ok (err e) = false
