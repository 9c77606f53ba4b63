-- ===== src/IssuerSigner/Texts.antt =====
-- The readers of packages/issuer-signer/src/index.ts: identifiers, key references, times, payloads and
-- digests.
use universal_smart_wallet.Prelude.{
  ℕ, String, Bool, true, false, not, ◌&&◌, ◌||◌, List, [], ◌∷◌, leb, ◌==◌, length, all, units,
  is_digit, is_alnum, is_joint, Result, ok, err, if◌then◌else◌,
}
use universal_smart_wallet.Value.{Number, pos}
use universal_smart_wallet.Registry.Parse.{max_safe}
use universal_smart_wallet.IssuerSigner.{ErrorCode, invalid_request}

abbrev pub Checked : Type 0 → Type 0
Checked A = Result ErrorCode A

abbrev pub between : ℕ → ℕ → List ℕ → Bool
between least most us = leb least (length us) && leb (length us) most

-- `/^[A-Za-z0-9._:-]{1,128}$/u`
unfoldable pub is_id : String → Bool
is_id s = between 1 128 (units s) && all (λ c. is_alnum c || is_joint c) (units s)

abbrev pub is_key_char : ℕ → Bool
is_key_char c = is_alnum c || is_joint c || c == b'/' || c == b'=' || c == b'@' || c == b'+'

abbrev pub starts_with : List ℕ → List ℕ → Bool
starts_with [] us = true
starts_with (p ∷ ps) [] = false
starts_with (p ∷ ps) (u ∷ us) = p == u && starts_with ps us

-- `value.includes(part)`
abbrev pub has_part : List ℕ → List ℕ → Bool
has_part ps [] = starts_with ps []
has_part ps (u ∷ us) = starts_with ps (u ∷ us) || has_part ps us

-- `keyRefPattern`, which admits no brace, and no `-----BEGIN`.
unfoldable pub is_key_ref : String → Bool
is_key_ref s =
    between 3 256 (units s)
    && all is_key_char (units s)
    && not (has_part (units "-----BEGIN") (units s))

abbrev pub is_lower_hex : ℕ → Bool
is_lower_hex c = is_digit c || leb b'a' c && leb c b'f'

-- `/^sha256:[0-9a-f]{64}$/u`
abbrev pub is_digest_text : List ℕ → List ℕ → Bool
is_digest_text [] us = all is_lower_hex us && length us == 64
is_digest_text (p ∷ ps) [] = false
is_digest_text (p ∷ ps) (u ∷ us) = p == u && is_digest_text ps us

unfoldable pub is_digest : String → Bool
is_digest s = is_digest_text (units "sha256:") (units s)

unfoldable pub safe_id : String → Checked String
safe_id s = if is_id s then ok s else err invalid_request

unfoldable pub safe_time : Number → Checked ℕ
safe_time (pos n) = if leb n max_safe then ok n else err invalid_request
safe_time _ = err invalid_request

unfoldable pub ensure_key_ref : String → Checked String
ensure_key_ref s = if is_key_ref s then ok s else err invalid_request

unfoldable pub ensure_payload : List ℕ → Checked (List ℕ)
ensure_payload p = if between 1 1048576 p then ok p else err invalid_request
