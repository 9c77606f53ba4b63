-- ===== src/Domain/Challenges.antt =====
-- `createChallenge` of packages/credential-domain/src/index.ts. The clock's answer and the random port
-- are arguments; a random port that returns something else than bytes returns `none`.
use universal_smart_wallet.Prelude.{
  ℕ, ◌+◌, ◌*◌, ◌≤◌, ◌<◌, String, ◌&&◌, ◌≡◌, List, Option, none, some, arith, ltb, leb, text_length,
  length, ok, err, ◌>>=◌, ◌>>◌, guard, or_throw, inl, inr, ap, ◌∙◌, All, Result-cases,
}
use universal_smart_wallet.Value.{Number, pos, negsuc, real}
use universal_smart_wallet.Domain.{PresentationChallenge}
use universal_smart_wallet.Domain.Attestations.{Checked}
use universal_smart_wallet.Domain.Base64.{base64_url, from_base64_url, from_base64_url-base64_url}

abbrev pub min_challenge_bytes : ℕ
min_challenge_bytes = 16

abbrev pub default_challenge_bytes : ℕ
default_challenge_bytes = 32

abbrev pub min_ttl_ms : ℕ
min_ttl_ms = 1000

abbrev pub max_ttl_ms : ℕ
max_ttl_ms = 5 * 60000

abbrev pub clock_skew_ms : ℕ
clock_skew_ms = 30000

-- `Number.isInteger(n) && least <= n && n <= most`; an integer that is no natural number is below
-- any of the bounds used.
abbrev or_default : ℕ → Option Number → Number
or_default n none = pos n
or_default n (some m) = m

unfoldable pub bounded_ttl : Number → Checked ℕ
bounded_ttl (pos n) =
    (guard (leb min_ttl_ms n && leb n max_ttl_ms) "ttl outside bounded policy") >> ok n
bounded_ttl _ = err "ttl outside bounded policy"

unfoldable pub enough_bytes : Number → Checked ℕ
enough_bytes (pos n) =
    (guard (leb min_challenge_bytes n) "challenge entropy must be at least 128 bits") >> ok n
enough_bytes _ = err "challenge entropy must be at least 128 bits"

unfoldable pub create_challenge :
    String
    → Option Number
    → Option Number
    → ℕ
    → (ℕ → Checked (Option (List ℕ)))
    → Checked PresentationChallenge
create_challenge audience ttl_ms bytes now random_bytes = do
  guard (ltb 0 (text_length audience) && leb (text_length audience) 256) "invalid audience"
  ttl ← bounded_ttl (or_default 60000 ttl_ms)
  asked ← enough_bytes (or_default default_challenge_bytes bytes)
  answer ← random_bytes asked
  generated ← or_throw "random port returned insufficient entropy" answer
  guard (leb min_challenge_bytes (length generated)) "random port returned insufficient entropy"
  ok (record {
    value = base64_url generated;
    audience = audience;
    issued_at = now;
    expires_at = now + ttl;
  })

-- What a created challenge is like.
pub record Bounded (audience : String) (now : ℕ) (c : PresentationChallenge) : Type 0 where
  pub at_least : now + min_ttl_ms ≤ c.expires_at
  pub at_most : c.expires_at ≤ now + max_ttl_ms
  pub issued : c.issued_at ≡ now
  pub for_audience : c.audience ≡ audience
  pub bytes : List ℕ
  pub carried : from_base64_url c.value ≡ ok bytes
  pub entropy : min_challenge_bytes ≤ length bytes

-- The random port answers bytes.
pub record AnswersBytes (random_bytes : ℕ → Checked (Option (List ℕ))) : Type 0 where
  pub at : (n : ℕ) (bytes : List ℕ) → random_bytes n ≡ ok (some bytes) → All (λ b. b < 256) bytes

bounded_ttl-eq-ok :
    (n : Number) (ttl : ℕ) → bounded_ttl n ≡ ok ttl → (min_ttl_ms ≤ ttl) × (ttl ≤ max_ttl_ms)
unfolding bounded_ttl
bounded_ttl-eq-ok (pos n) ttl h = (ground arith, ground arith)
bounded_ttl-eq-ok (negsuc n) ttl h = absurd (ground arith)
bounded_ttl-eq-ok (real n) ttl h = absurd (ground arith)

-- Every challenge that is created with a random port that answers bytes expires between one second
-- and five minutes after it was issued, is for the audience that was asked, and its value decodes
-- to at least sixteen bytes.
pub create_challenge-Bounded :
    (audience : String) (ttl_ms bytes : Option Number) (now : ℕ)
    (random_bytes : ℕ → Checked (Option (List ℕ))) (c : PresentationChallenge)
    → AnswersBytes random_bytes
    → create_challenge audience ttl_ms bytes now random_bytes ≡ ok c
    → Bounded audience now c
unfolding create_challenge
create_challenge-Bounded audience ttl_ms bytes now random_bytes c port h =
    elim (Result-cases (bounded_ttl (or_default 60000 ttl_ms))) [
      | inr (e, ee) ↦ absurd (ground arith)
      | inl (ttl, et) ↦
          elim (Result-cases (enough_bytes (or_default default_challenge_bytes bytes))) [
            | inr (e, ee) ↦ absurd (ground arith)
            | inl (asked, ea) ↦ elim (Result-cases (random_bytes asked)) [
              | inr (e, ee) ↦ absurd (ground arith)
              | inl (none, ep) ↦ absurd (ground arith)
              | inl (some generated, ep) ↦
                  let ttl_bounds = bounded_ttl-eq-ok (or_default 60000 ttl_ms) ttl et in
                  let least = ttl_bounds.0 in
                  let most = ttl_bounds.1 in
                  let enough : min_challenge_bytes ≤ length generated = ground arith in
                  let value : c.value ≡ base64_url generated = ground arith in
                  record {
                    at_least = ground arith;
                    at_most = ground arith;
                    issued = ground arith;
                    for_audience = ground arith;
                    bytes = generated;
                    carried =
                        ap from_base64_url value
                        ∙ from_base64_url-base64_url generated (omega arith)
                            (port.at asked generated ep);
                    entropy = enough;
                  }
            ]
          ]
    ]
