-- ===== src/Domain/Base64.antt =====
-- `base64Url` and `fromBase64Url` of packages/credential-domain/src/index.ts, with the standard
-- base64 of `btoa` and `atob` written out for the URL alphabet and without padding. Bytes are the
-- numbers below 256.
use Prim.Native.Char.{Char, code}
use universal_smart_wallet.Prelude.{
  ℕ, zero, suc, ◌+◌, ◌-◌, ◌*◌, ◌/◌, ◌%◌, ◌<◌, String, Bool, true, false, ◌&&◌, ◌≡◌, refl, List, [],
  ◌∷◌, Option, none, some, arith, leb, ◌==◌, if◌then◌else◌, All, ok, err, ◌>>=◌, length, or_throw,
  Bool-cases, ==_iff, inl, inr, ap,
}
use universal_smart_wallet.Domain.Attestations.{Checked}

abbrev char_among : String → ℕ → Char
char_among String.[] n = "A"
char_among (String.◌∷◌ c cs) n = let later = char_among cs (n - 1) in if n == 0 then c else later

-- The letter of six bits.
unfoldable pub letter : ℕ → Char
letter n = char_among "ABCDEFGHIJKLMNOPQRSTUVWXYZabcdefghijklmnopqrstuvwxyz0123456789-_" n

-- The six bits of a letter, and nothing for a character outside the alphabet.
unfoldable pub sextet : Char → Option ℕ
sextet l =
    let c = code l in
    if leb b'A' c && leb c b'Z'
    then some (c - b'A')
    else if leb b'a' c && leb c b'z'
    then some (c - b'a' + 26)
    else if leb b'0' c && leb c b'9'
    then some (c - b'0' + 52)
    else if c == b'-'
    then some 62
    else if c == b'_'
    then some 63
    else none

unfoldable pub base64_url : List ℕ → String
base64_url [] = ""
base64_url (a ∷ []) = String.◌∷◌ (letter (a / 4)) (String.◌∷◌ (letter (a % 4 * 16)) "")
base64_url (a ∷ b ∷ []) =
    String.◌∷◌ (letter (a / 4))
      (String.◌∷◌ (letter (a % 4 * 16 + b / 16)) (String.◌∷◌ (letter (b % 16 * 4)) ""))
base64_url (a ∷ b ∷ c ∷ bytes) = String.◌∷◌ (letter (a / 4)) (
    String.◌∷◌ (letter (a % 4 * 16 + b / 16))
      (String.◌∷◌ (letter (b % 16 * 4 + c / 64)) (String.◌∷◌ (letter (c % 64)) (base64_url bytes))))

abbrev bits : Char → Checked ℕ
bits c = or_throw "invalid challenge encoding" (sextet c)

-- A single letter at the end is what `atob` refuses.
unfoldable pub bytes_of : String → Checked (List ℕ)
bytes_of String.[] = ok []
bytes_of (String.◌∷◌ p String.[]) = err "invalid challenge encoding"
bytes_of (String.◌∷◌ p (String.◌∷◌ q String.[])) = do
  w ← bits p
  x ← bits q
  ok ((w * 4 + x / 16) ∷ [])
bytes_of (String.◌∷◌ p (String.◌∷◌ q (String.◌∷◌ r String.[]))) = do
  w ← bits p
  x ← bits q
  y ← bits r
  ok ((w * 4 + x / 16) ∷ (x % 16 * 16 + y / 4) ∷ [])
bytes_of (String.◌∷◌ p (String.◌∷◌ q (String.◌∷◌ r (String.◌∷◌ s rest)))) = do
  w ← bits p
  x ← bits q
  y ← bits r
  z ← bits s
  bytes ← bytes_of rest
  ok ((w * 4 + x / 16) ∷ (x % 16 * 16 + y / 4) ∷ (y % 4 * 64 + z) ∷ bytes)

unfoldable pub from_base64_url : String → Checked (List ℕ)
from_base64_url String.[] = err "invalid challenge encoding"
from_base64_url (String.◌∷◌ c s) = bytes_of (String.◌∷◌ c s)

-- Every number below `n` passes the test.
abbrev all_below : (ℕ → Bool) → ℕ → Bool
all_below p zero = true
all_below p (suc n) = p n && all_below p n

all_below-at : (p : ℕ → Bool) (n k : ℕ) → all_below p n ≡ true → k < n → p k ≡ true
all_below-at p zero k h l = elim l [ ]
all_below-at p (suc n) k h l = elim (Bool-cases (k == n)) [
  | inl e ↦ let same : k ≡ n = omega (arith, (==_iff k n).0 e) in ground arith
  | inr e ↦ all_below-at p n k (ground arith) (ground arith)
]

abbrev reads_back : ℕ → Bool
reads_back n = elim (sextet (letter n)) [ none ↦ false | some m ↦ m == n ]

all_letters : all_below reads_back 64 ≡ true
unfolding letter sextet
all_letters = refl

sextet-letter : (n : ℕ) → n < 64 → sextet (letter n) ≡ some n
sextet-letter n l = let h = all_below-at reads_back 64 n all_letters l in ground arith

bits-letter : (n : ℕ) → n < 64 → bits (letter n) ≡ ok n
bits-letter n l = ap (or_throw "invalid challenge encoding") (sextet-letter n l)

-- The bits of two neighbouring letters, put together again.
high_bits : (a b : ℕ) → b < 256 → a / 4 * 4 + (a % 4 * 16 + b / 16) / 16 ≡ a
high_bits a b l = omega arith

middle_bits :
    (a b c : ℕ)
    → b < 256
    → c < 256
    → (a % 4 * 16 + b / 16) % 16 * 16 + (b % 16 * 4 + c / 64) / 4 ≡ b
middle_bits a b c l m = omega arith

last_bits : (a b : ℕ) → b < 256 → (a % 4 * 16 + b / 16) % 16 * 16 + b % 16 * 4 / 4 ≡ b
last_bits a b l = omega arith

low_bits : (b c : ℕ) → c < 256 → (b % 16 * 4 + c / 64) % 4 * 64 + c % 64 ≡ c
low_bits b c l = omega arith

-- The bytes come back from their encoding.
bytes_of-base64_url :
    (bytes : List ℕ) → All (λ b. b < 256) bytes → bytes_of (base64_url bytes) ≡ ok bytes
unfolding bytes_of base64_url
bytes_of-base64_url [] h = refl
bytes_of-base64_url (a ∷ []) h =
    rw (bits-letter (a / 4) (omega (arith, h.0)), bits-letter (a % 4 * 16) (omega arith))
      (ap (λ n. ok (n ∷ [])) (omega arith))
bytes_of-base64_url (a ∷ b ∷ []) (h, (k, u)) =
    rw
      (
        bits-letter (a / 4) (omega arith),
        bits-letter (a % 4 * 16 + b / 16) (omega arith),
        bits-letter (b % 16 * 4) (omega arith),
      )
      (cc (high_bits a b k, last_bits a b k))
bytes_of-base64_url (a ∷ b ∷ c ∷ bytes) (h, (k, (l, rest))) =
    rw
      (
        bits-letter (a / 4) (omega arith),
        bits-letter (a % 4 * 16 + b / 16) (omega arith),
        bits-letter (b % 16 * 4 + c / 64) (omega arith),
        bits-letter (c % 64) (omega arith),
        bytes_of-base64_url bytes rest,
      )
      (cc (high_bits a b k, middle_bits a b c k l, low_bits b c l))

pub from_base64_url-base64_url :
    (bytes : List ℕ)
    → 0 < length bytes
    → All (λ b. b < 256) bytes
    → from_base64_url (base64_url bytes) ≡ ok bytes
unfolding from_base64_url base64_url
from_base64_url-base64_url [] l h = elim l [ ]
from_base64_url-base64_url (a ∷ []) l h = bytes_of-base64_url (a ∷ []) h
from_base64_url-base64_url (a ∷ b ∷ []) l h = bytes_of-base64_url (a ∷ b ∷ []) h
from_base64_url-base64_url (a ∷ b ∷ c ∷ bytes) l h = bytes_of-base64_url (a ∷ b ∷ c ∷ bytes) h
