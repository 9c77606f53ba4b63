-- ===== src/Domain.antt =====
-- packages/credential-domain/src/index.ts: the domain that the identity services share. This file has
-- the data of attestations and challenges; `Attestations` signs and verifies on-chain attestations,
-- `Base64` and `Challenges` make presentation challenges, `Replay` is the store that consumes a
-- challenge once, `Trust` the issuer bundle and the status cache, and `Templates` the parsers and
-- the life of credential templates. Instants of challenges and the `now` of a verification are
-- natural numbers.
pub mod Attestations
pub mod Base64
pub mod Challenges
pub mod Replay
pub mod Trust
pub mod Templates
pub mod Examples
use universal_smart_wallet.Prelude.{ℕ, String, Bool, Option}
use universal_smart_wallet.Value.{Number}

-- `Omit<OnChainAttestation, 'signature'>`
pub record Claims : Type 0 where
  pub version : Number
  pub chain_id : Number
  pub consumer : String
  pub policy : String
  pub subject : String
  pub nonce : String
  pub issued_at : Number
  pub expires_at : Number
  pub attestor : String
  pub attestor_version : String

pub record OnChainAttestation : Type 0 where
  pub claims : Claims
  pub signature : String

pub record PresentationChallenge : Type 0 where
  pub value : String
  pub audience : String
  pub issued_at : ℕ
  pub expires_at : ℕ

pub data ReplayFailureCode : Type 0 where
  challenge_expired challenge_wrong_audience challenge_unknown : ReplayFailureCode
  challenge_reused replay_store_failure : ReplayFailureCode

pub record ReplayConsumeRequest : Type 0 where
  pub value : String
  pub audience : String
  pub now : Option ℕ

pub record StoredChallenge : Type 0 where
  pub challenge : PresentationChallenge
  pub consumed : Bool

pub data ChallengeVerification : Type 0 where
  accepted : PresentationChallenge → ChallengeVerification
  refused : ReplayFailureCode → ChallengeVerification
