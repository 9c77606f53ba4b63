-- ===== src/Policy/Memory/Limits.antt =====
-- The limits of a frequency policy over a history of reservations, in `InMemoryPolicyStore.reserve` of
-- packages/signer-policy/src/index.ts.
use native.Mathlib.Nat.{div-lt_iff_lt-mul, mul-le-mul_right}
use universal_smart_wallet.Prelude.{
  ℕ, ◌+◌, ◌*◌, ◌/◌, ◌≤◌, ◌<◌, suc, String, Bool, true, false, ◌&&◌, ◌≡◌, inl, inr, sym, ap, subst,
  List, [], ◌∷◌, Option, none, some, arith, ltb, ◌==◌, if◌then◌else◌, All, Bool-cases, Option-cases,
  str_eq, eq_iff, lookup, lookup-insert,
}
use universal_smart_wallet.Policy.{
  FrequencyPolicy, Reservation, Reserved, reserved, replay, frequency,
}
use universal_smart_wallet.Policy.Memory.{
  Usage, Memory, window_start_of, current_usage, above, is_spent, charge, reserve,
}

abbrev pub is_reserved : Reserved → Bool
is_reserved reserved = true
is_reserved replay = false
is_reserved frequency = false

-- The reservation counts for the window of the key.
abbrev pub counts : String → ℕ → Reservation → Bool
counts key w i = str_eq i.frequency_key key && window_start_of i.at i.frequency == w

-- What the reservations that are granted in one window of a key cost together.
unfoldable pub window_cost : (Reservation → ℕ) → String → ℕ → Memory → List Reservation → ℕ
window_cost cost key w m [] = 0
window_cost cost key w m (i ∷ is) =
    let rest = window_cost cost key w (reserve i m).1 is in
    if is_reserved (reserve i m).0 && counts key w i then cost i + rest else rest

-- The clock of the requests does not go back.
abbrev pub Ordered : ℕ → List Reservation → Type 0
Ordered since [] = Unit
Ordered since (i ∷ is) = (since ≤ i.at) × Ordered i.at is

-- The key has one frequency policy.
abbrev pub Under : String → FrequencyPolicy → Reservation → Type 0
Under key f i = i.frequency_key ≡ key → i.frequency ≡ some f

-- A reservation changes the usage of its own key alone, by `charge`, and only if it is granted.
module _ (i : Reservation) (m : Memory) (key : String) where
  reserve-refused :
      is_reserved (reserve i m).0 ≡ false → lookup key (reserve i m).1.usage ≡ lookup key m.usage
  unfolding reserve
  reserve-refused h = ground arith

  reserve-other :
      str_eq i.frequency_key key ≡ false → lookup key (reserve i m).1.usage ≡ lookup key m.usage
  unfolding reserve
  reserve-other h = elim (Option-cases (charge (lookup i.frequency_key m.usage) i)) [
    | inl e ↦ ground arith
    | inr (u, e) ↦ ground (arith, lookup-insert i.frequency_key key u m.usage)
  ]

  reserve-charged :
      is_reserved (reserve i m).0 ≡ true
      → i.frequency_key ≡ key
      → (u : Usage) × (charge (lookup key m.usage) i ≡ some u)
        × (lookup key (reserve i m).1.usage ≡ some u)
  unfolding reserve
  reserve-charged h k = elim (Option-cases (charge (lookup i.frequency_key m.usage) i)) [
    | inl e ↦ absurd (ground arith)
    | inr (u, e) ↦ (
      u,
      ground arith,
      ground (arith, lookup-insert i.frequency_key key u m.usage, eq_iff i.frequency_key key),
    )
  ]

div-le-div : (k a b : ℕ) → 0 < k → a ≤ b → a / k ≤ b / k
div-le-div k a b p h =
    let next : b < suc (b / k) * k = (div-lt_iff_lt-mul p).0 (omega arith) in
    let below : a / k < suc (b / k) = (div-lt_iff_lt-mul p).1 (omega arith) in omega arith

window_start_of-monotone :
    (f : FrequencyPolicy) (a b : ℕ)
    → 0 < f.window_seconds
    → a ≤ b
    → window_start_of a (some f) ≤ window_start_of b (some f)
unfolding window_start_of
window_start_of-monotone f a b p h =
    mul-le-mul_right f.window_seconds (div-le-div f.window_seconds a b p h)

-- One measure of usage, with what a reservation adds to it and its limit.
module _ (cost : Reservation → ℕ) (measure : Usage → ℕ) (most : ℕ) (f : FrequencyPolicy) where
  abbrev start : ℕ → ℕ
  start at = window_start_of at (some f)

  -- The measure of the usage in the window that starts at w.
  abbrev used : Option Usage → ℕ → ℕ
  used none w = 0
  used (some u) w = if u.window_start == w then measure u else 0

  -- The same, and the limit for a window that is over.
  abbrev spent : Option Usage → ℕ → ℕ
  spent none w = 0
  spent (some u) w = if ltb w u.window_start then most else used (some u) w

  abbrev Charges : Type 0
  Charges =
      (prior : Option Usage) (i : Reservation) (u : Usage)
      → i.frequency ≡ some f
      → charge prior i ≡ some u
      → (u.window_start ≡ start i.at)
        × (measure u ≡ used prior (start i.at) + cost i)
        × (measure u ≤ most)

  -- The usage is of no later window than the clock's, and within the limit.
  abbrev Kept : ℕ → Option Usage → Type 0
  Kept since none = Unit
  Kept since (some u) = (u.window_start ≤ start since) × (measure u ≤ most)

  spent-le : (since w : ℕ) (prior : Option Usage) → Kept since prior → spent prior w ≤ most
  spent-le since w none k = omega arith
  spent-le since w (some u) k = ground arith

  -- What a granted reservation costs moves from what is left to what is spent.
  spent-charged :
      (since w : ℕ) (prior : Option Usage) (i : Reservation) (u : Usage) (rest : ℕ)
      → Kept since prior
      → start since ≤ start i.at
      → u.window_start ≡ start i.at
      → measure u ≡ used prior (start i.at) + cost i
      → measure u ≤ most
      → rest + spent (some u) w ≤ most
      → (if start i.at == w then cost i + rest else rest) + spent prior w ≤ most
  spent-charged since w none i u rest k h ew em hm ih = ground arith
  spent-charged since w (some p) i u rest k h ew em hm ih = ground arith

  module _ (charges : Charges) (positive : 0 < f.window_seconds) (key : String) (w : ℕ) where
    -- The usage of the key after one reservation.
    Kept-later :
        (since at : ℕ) (prior : Option Usage) → since ≤ at → Kept since prior → Kept at prior
    Kept-later since at none h k = tt
    Kept-later since at (some u) h k =
        let m = window_start_of-monotone f since at positive h in (omega arith, k.1)

    window_cost-le :
        (since : ℕ) (m : Memory) (inputs : List Reservation)
        → Ordered since inputs
        → All (Under key f) inputs
        → Kept since (lookup key m.usage)
        → window_cost cost key w m inputs + spent (lookup key m.usage) w ≤ most
    unfolding window_cost
    window_cost-le since m [] o u k = let l = spent-le since w (lookup key m.usage) k in omega arith
    window_cost-le since m (i ∷ is) o u k =
        elim (Bool-cases (is_reserved (reserve i m).0 && str_eq i.frequency_key key)) [
          | inr other ↦
              let same : lookup key (reserve i m).1.usage ≡ lookup key m.usage = unchanged other in
              let kept = subst (Kept i.at) (sym same) (Kept-later since i.at _ o.0 k) in
              let ih = window_cost-le i.at (reserve i m).1 is o.1 u.1 kept in
              let moved =
                subst (λ p. window_cost cost key w (reserve i m).1 is + spent p w ≤ most) same ih in
              ground arith
          | inl granted ↦
              let same : i.frequency_key ≡ key = ground (arith, eq_iff i.frequency_key key) in
              let (v, charged, found) = reserve-charged i m key (ground arith) same in
              let under = u.0 same in
              let law = charges (lookup key m.usage) i v under charged in
              let kept : Kept i.at (some v) = (omega (arith, law.0), law.2) in
              let ih =
                window_cost-le i.at (reserve i m).1 is o.1 u.1
                  (subst (Kept i.at) (sym found) kept) in
              let rest = window_cost cost key w (reserve i m).1 is in
              let left = subst (λ p. rest + spent p w ≤ most) found ih in
              let total =
                spent-charged since w (lookup key m.usage) i v rest k
                  (window_start_of-monotone f since i.at positive o.0) law.0 law.1 law.2 left in
              let window : window_start_of i.at i.frequency ≡ start i.at =
                ap (window_start_of i.at) under in
              ground arith
        ]
      where
        unchanged :
            (is_reserved (reserve i m).0 && str_eq i.frequency_key key) ≡ false
            → lookup key (reserve i m).1.usage ≡ lookup key m.usage
        unchanged h = elim (Bool-cases (is_reserved (reserve i m).0)) [
          | inr e ↦ reserve-refused i m key e
          | inl e ↦ reserve-other i m key (ground arith)
        ]

count-Charges : (f : FrequencyPolicy) → Charges (λ i. 1) (λ u. u.count) f.max_operations f
unfolding charge current_usage is_spent
count-Charges f none i u e h = (ground arith, ground arith, ground arith)
count-Charges f (some p) i u e h = (ground arith, ground arith, ground arith)

amount-Charges :
    (f : FrequencyPolicy) (t : ℕ)
    → f.max_total_amount ≡ some t
    → Charges (λ i. i.amount) (λ u. u.amount) t f
unfolding charge current_usage is_spent
amount-Charges f t l none i u e h = (ground arith, ground arith, ground arith)
amount-Charges f t l (some p) i u e h = (ground arith, ground arith, ground arith)

-- While the clock does not go back and a key, unused at first, has one frequency policy with a
-- window of at least a second, the reservations that are granted to the key in any one window are
-- at most `maxOperations`, and their amounts together at most `maxTotalAmount` if that is set.
pub window_bounded :
    (f : FrequencyPolicy) (key : String) (w since : ℕ) (m : Memory) (inputs : List Reservation)
    → 0 < f.window_seconds
    → lookup key m.usage ≡ none
    → Ordered since inputs
    → All (Under key f) inputs
    → (window_cost (λ i. 1) key w m inputs ≤ f.max_operations)
      × (above (window_cost (λ i. i.amount) key w m inputs) f.max_total_amount ≡ false)
window_bounded f key w since m inputs p fresh o u = (
  (let counted =
        window_cost-le (λ i. 1) (λ v. v.count) f.max_operations f (count-Charges f) p key w since m
          inputs o u
          (subst (Kept (λ i. 1) (λ v. v.count) f.max_operations f since) (sym fresh) tt) in
      omega arith),
  elim (Option-cases (f.max_total_amount)) [
    | inl e ↦ ground arith
    | inr (t, e) ↦
        let summed =
          window_cost-le (λ i. i.amount) (λ v. v.amount) t f (amount-Charges f t e) p key w since m
            inputs o u (subst (Kept (λ i. i.amount) (λ v. v.amount) t f since) (sym fresh) tt) in
        ground arith
  ],
)
