-- ===== src/Prelude/Texts.antt =====
-- JavaScript strings as native texts: their UTF-16 code units, which `length` counts and patterns
-- read, and membership in a list of texts.
use Prim.Native.Nat.{ℕ, ◌+◌, ◌-◌, ◌/◌, ◌%◌}
use Prim.Native.Char.{code}
use Prim.Native.String.{String}
use mathlib.Core.Bool.{Bool, true, false, not, ◌&&◌, ◌||◌}
use mathlib.Core.List.{List, [], ◌∷◌, ◌++◌}
use text.Mathlib.Text.{◌==◌ as str_eq}
use universal_smart_wallet.Prelude.Tests.{ltb, leb, ◌==◌, if◌then◌else◌}
use universal_smart_wallet.Prelude.Lists.{length, all}

-- A character above the basic plane is a pair of surrogates.
abbrev pub char_units : ℕ → List ℕ
char_units c =
    if ltb c 0x10000
    then c ∷ []
    else (0xd800 + (c - 0x10000) / 0x400) ∷ (0xdc00 + (c - 0x10000) % 0x400) ∷ []

unfoldable pub units : String → List ℕ
units String.[] = []
units (String.◌∷◌ c s) = char_units (code c) ++ units s

-- `value.length`
unfoldable pub text_length : String → ℕ
unfolding units
text_length s = length (units s)

-- `items.includes(value)`
unfoldable pub includes : String → List String → Bool
includes s [] = false
includes s (t ∷ ts) = str_eq t s || includes s ts

-- `new Set(items).size === items.length`
unfoldable pub distinct : List String → Bool
unfolding includes
distinct [] = true
distinct (s ∷ ss) = not (includes s ss) && distinct ss

abbrev pub is_digit : ℕ → Bool
is_digit c = leb b'0' c && leb c b'9'

abbrev pub is_letter : ℕ → Bool
is_letter c = leb b'A' c && leb c b'Z' || leb b'a' c && leb c b'z'

abbrev pub is_alnum : ℕ → Bool
is_alnum c = is_letter c || is_digit c

-- The class [._:-]
abbrev pub is_joint : ℕ → Bool
is_joint c = c == b'.' || c == b'_' || c == b':' || c == b'-'

-- `/^[A-Za-z0-9][A-Za-z0-9._:-]{0,127}$/u` on code units; every unit that it admits is ASCII.
unfoldable pub matches_opaque : List ℕ → Bool
matches_opaque [] = false
matches_opaque (c ∷ cs) =
    is_alnum c && all (λ d. is_alnum d || is_joint d) cs && ltb (length cs) 128

-- `/[\u0000-\u001f\u007f]/u`
abbrev pub is_control : ℕ → Bool
is_control c = ltb c 0x20 || c == 0x7f
