-- ===== src/Registry/Snapshots/Keys.antt =====
-- Keys joined by U+0000: texts without control characters are told apart in them.
use Prim.Native.Char.{Char, code, nul}
use text.Mathlib.TextLemmas.{cons-append, nil-append}
use universal_smart_wallet.Prelude.{
  ℕ, ◌≡◌, ◌≢◌, refl, ap, sym, ◌∙◌, String, Bool, true, false, ◌||◌, List, [], ◌∷◌, ◌++◌, any, units,
  char_units, is_control, arith,
}
use universal_smart_wallet.Registry.Parse.{safe_text, scope_text}
use universal_smart_wallet.Registry.Snapshots.{nul_joined}

-- U+0000 does not stand in the text.
abbrev pub NulFree : String → Type 0
NulFree String.[] = Unit {0}
NulFree (String.◌∷◌ c s) = (c ≢ nul) × NulFree s

any-append : (p : ℕ → Bool) (xs ys : List ℕ) → any p (xs ++ ys) ≡ (any p xs || any p ys)
any-append p [] ys = refl
any-append p (x ∷ xs) ys = ground (arith, any-append p xs ys)

nul-is_control : (c : Char) → any is_control (char_units (code c)) ≡ false → c ≢ nul
nul-is_control c h e = absurd-of (ap (λ d. any is_control (char_units (code d))) e)
  where
    absurd-of : any is_control (char_units (code c)) ≡ true → ⊥
    absurd-of t = cc (h, t)

NulFree-of_no_control : (s : String) → any is_control (units s) ≡ false → NulFree s
unfolding units
NulFree-of_no_control String.[] h = tt
NulFree-of_no_control (String.◌∷◌ c s) h =
    let split = any-append is_control (char_units (code c)) (units s) in
    (nul-is_control c (ground (arith, split)), NulFree-of_no_control s (ground (arith, split)))

pub NulFree-safe_text : (most : ℕ) (s : String) → safe_text most s ≡ true → NulFree s
unfolding safe_text
NulFree-safe_text most s h = NulFree-of_no_control s (ground arith)

pub NulFree-scope_text : (s : String) → scope_text s ≡ true → NulFree s
unfolding scope_text
NulFree-scope_text s h = NulFree-safe_text 128 s (ground arith)

head-eq : {c d : Char} {s t : String} → String.◌∷◌ c s ≡ String.◌∷◌ d t → (c ≡ d) × (s ≡ t)
head-eq h = (cc, cc)

nul_joined-nil : (b : String) → nul_joined String.[] b ≡ String.◌∷◌ nul b
unfolding nul_joined
nul_joined-nil b = nil-append (String.◌∷◌ nul b)

nul_joined-cons :
    (x : Char) (a b : String) → nul_joined (String.◌∷◌ x a) b ≡ String.◌∷◌ x (nul_joined a b)
unfolding nul_joined
nul_joined-cons x a b = cons-append x a (String.◌∷◌ nul b)

-- A key determines its two parts.
pub nul_joined_injective :
    (a b c d : String) → NulFree a → NulFree c → nul_joined a b ≡ nul_joined c d → (a ≡ c) × (b ≡ d)
nul_joined_injective String.[] b String.[] d fa fc h =
    (refl, (head-eq (sym (nul_joined-nil b) ∙ h ∙ nul_joined-nil d)).1)
nul_joined_injective String.[] b (String.◌∷◌ y c) d fa fc h =
    absurd (fc.0 (sym (head-eq (sym (nul_joined-nil b) ∙ h ∙ nul_joined-cons y c d)).0))
nul_joined_injective (String.◌∷◌ x a) b String.[] d fa fc h =
    absurd (fa.0 (head-eq (sym (nul_joined-cons x a b) ∙ h ∙ nul_joined-nil d)).0)
nul_joined_injective (String.◌∷◌ x a) b (String.◌∷◌ y c) d fa fc h =
    let both = head-eq (sym (nul_joined-cons x a b) ∙ h ∙ nul_joined-cons y c d) in
    let rest = nul_joined_injective a b c d fa.1 fc.1 both.1 in (cc (both.0, rest.0), rest.1)
