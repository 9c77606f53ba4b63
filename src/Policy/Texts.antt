-- ===== src/Policy/Texts.antt =====
-- Addresses, selectors, amounts and times of packages/signer-policy/src/index.ts. `toLowerCase` is
-- written for ASCII: the texts that it reaches are compared with, or are, hexadecimal ones.
use Prim.Native.Char.{Char, code}
use universal_smart_wallet.Prelude.{
  ℕ, String, Bool, true, false, not, ◌&&◌, ◌||◌, List, ◌∷◌, Option, none, some, ltb, leb, ◌==◌,
  if◌then◌else◌, length, all, units, is_digit, Result, ok, err, str_eq,
}
use universal_smart_wallet.Value.{Number, pos, negsuc, real}
use universal_smart_wallet.Registry.Parse.{max_safe}
use universal_smart_wallet.Policy.{ReasonCode, invalid_request}

abbrev pub Checked : Type 0 → Type 0
Checked A = Result ReasonCode A

abbrev pub is_hex : ℕ → Bool
is_hex c = is_digit c || leb b'a' c && leb c b'f' || leb b'A' c && leb c b'F'

-- `/^0x[0-9a-fA-F]{n}$/u`
abbrev pub is_hex_text : ℕ → List ℕ → Bool
is_hex_text n (z ∷ x ∷ ds) = z == b'0' && x == b'x' && all is_hex ds && length ds == n
is_hex_text n us = false

-- `/^0x0+$/u`
abbrev pub is_zero_text : List ℕ → Bool
is_zero_text (z ∷ x ∷ d ∷ ds) = z == b'0' && x == b'x' && d == b'0' && all (λ c. c == b'0') ds
is_zero_text us = false

unfoldable pub is_address : String → Bool
is_address s = is_hex_text 40 (units s) && not (is_zero_text (units s))

unfoldable pub is_selector : String → Bool
is_selector s = is_hex_text 8 (units s)

abbrev lower_among : String → String → Char → Char
lower_among String.[] ls c = c
lower_among (String.◌∷◌ u us) String.[] c = c
lower_among (String.◌∷◌ u us) (String.◌∷◌ l ls) c =
    let other = lower_among us ls c in if code u == code c then l else other

-- `value.toLowerCase()`
unfoldable pub lower : String → String
lower String.[] = String.[]
lower (String.◌∷◌ c s) =
    String.◌∷◌ (lower_among "ABCDEFGHIJKLMNOPQRSTUVWXYZ" "abcdefghijklmnopqrstuvwxyz" c) (lower s)

unfoldable pub address : String → Checked String
address s = if is_address s then ok (lower s) else err invalid_request

unfoldable pub selector : String → Checked String
selector s = if is_selector s then ok (lower s) else err invalid_request

unfoldable pub positive : Option Number → Checked ℕ
positive none = ok 0
positive (some (pos n)) = ok n
positive (some _) = err invalid_request

unfoldable pub timestamp : Number → Checked ℕ
timestamp (pos n) = if leb n max_safe then ok n else err invalid_request
timestamp _ = err invalid_request

-- `Number.isSafeInteger(n)`
unfoldable pub is_safe_integer : Number → Bool
is_safe_integer (pos n) = leb n max_safe
is_safe_integer (negsuc n) = ltb n max_safe
is_safe_integer (real name) = false

-- `a < b`, of two integers; the code compares only numbers that it checked, or that are part of a
-- policy which `validatePolicy` accepts, and neither is `real`.
unfoldable pub is_less : Number → Number → Bool
is_less (pos a) (pos b) = ltb a b
is_less (negsuc a) (negsuc b) = ltb b a
is_less (negsuc a) (pos b) = true
is_less _ _ = false

-- `a === b`, of two integers, as for `is_less`.
unfoldable pub is_same : Number → Number → Bool
is_same (pos a) (pos b) = a == b
is_same (negsuc a) (negsuc b) = a == b
is_same _ _ = false

-- `limit !== undefined && amount > limit`, for a limit that `positive` admits.
unfoldable pub exceeds : ℕ → Option Number → Bool
exceeds n (some (pos m)) = ltb m n
exceeds n (some (negsuc m)) = true
exceeds n _ = false

abbrev pub is_empty : String → Bool
is_empty s = str_eq s ""
