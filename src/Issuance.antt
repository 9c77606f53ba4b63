-- ===== src/Issuance.antt =====
-- packages/issuer-service/src/index.ts: issuance of credentials by institutions. This file has the data
-- and the ports. `Run` is the form of an operation, `Parse` reads the requests, `Setup` registers
-- templates, issuers and policies and creates sessions, `Review` reviews a session and checks that it
-- may be issued, `Tokens` keeps grants and access tokens, `Offers` offers, authorizes and exchanges,
-- and `Issue` issues a credential and changes its status. Instants are natural numbers, and a
-- parsed template or issuer profile is the map of its properties.
pub mod Run
pub mod Parse
pub mod Setup
pub mod Tokens
pub mod Review
pub mod Offers
pub mod Issue
pub mod Rules
pub mod Evolution
pub mod Authorized
pub mod Once
pub mod Examples
use universal_smart_wallet.Prelude.{ℕ, String, Bool, List, Option, Map}
use universal_smart_wallet.Value.{Value, Number}
use universal_smart_wallet.Domain.Trust.{Url, CredentialStatus}
use universal_smart_wallet.IssuerSigner.{Algorithm, KeyDescriptor}

-- `IssuerServiceError` with its status and code, and any other error.
pub data Failure : Type 0 where
  failure : ℕ → String → Failure
  thrown : Failure

pub record Actor : Type 0 where
  pub tenant_id : String
  pub principal_id : String
  pub scopes : List String

pub record ReviewerPolicy : Type 0 where
  pub tenant_id : String
  pub policy_id : String
  pub template_id : String
  pub required_approvals : ℕ
  pub authorized_reviewer_ids : List String

pub record EvidenceReference : Type 0 where
  pub evidence_id : String
  pub kind : String
  pub digest : String
  pub source : String

pub data ReviewChoice : Type 0 where
  approved rejected : ReviewChoice

pub record ReviewDecision : Type 0 where
  pub reviewer_id : String
  pub decision : ReviewChoice
  pub reviewed_at : ℕ

pub data IssuanceState : Type 0 where
  pending_review approved offered issued rejected expired signing_ambiguous : IssuanceState

-- The method is a text, or an array that `String` writes as one.
pub record SubjectBinding : Type 0 where
  pub binding_id : String
  pub method : Value
  pub value : String

-- `kind` is 'reissue' exactly when there is a credential to replace.
pub record IssuanceSession : Type 0 where
  pub tenant_id : String
  pub session_id : String
  pub issuer_id : String
  pub template_id : String
  pub template_version : Number
  pub format : String
  pub reviewer_policy_id : String
  pub state : IssuanceState
  pub evidence : List EvidenceReference
  pub reviews : List ReviewDecision
  pub expires_at : ℕ
  pub replaces_credential_id : Option String
  pub claims : Map Value
  pub subject_binding : SubjectBinding

pub record CredentialRecord : Type 0 where
  pub tenant_id : String
  pub credential_id : String
  pub status_id : String
  pub issuer_id : String
  pub template_id : String
  pub template_version : Number
  pub format : String
  pub issued_at : ℕ
  pub status : CredentialStatus
  pub replaces_credential_id : Option String

pub data GrantKind : Type 0 where
  pre_authorized_code authorization_code : GrantKind

pub record Grant : Type 0 where
  pub tenant_id : String
  pub session_id : String
  pub kind : GrantKind
  pub secret_hash : String
  pub expires_at : ℕ
  pub client_id : Option String
  pub redirect_uri : Option String
  pub consumed_at : Option ℕ

pub record AccessToken : Type 0 where
  pub tenant_id : String
  pub session_id : String
  pub token_hash : String
  pub expires_at : ℕ
  pub consumed_at : Option ℕ

-- The maps of `InstitutionalIssuerService`.
pub record Service : Type 0 where
  pub templates : Map (Map Value)
  pub issuers : Map (Map Value)
  pub policies : Map ReviewerPolicy
  pub sessions : Map IssuanceSession
  pub credentials : Map CredentialRecord
  pub grants : Map Grant
  pub access_tokens : Map AccessToken

pub record TrustQuery : Type 0 where
  pub tenant_id : String
  pub jurisdiction : String
  pub issuer_id : String
  pub schema_id : String
  pub key_id : String
  pub issued_at : ℕ

pub record ProofQuery : Type 0 where
  pub tenant_id : String
  pub issuer_uri : String
  pub proof : String
  pub subject_binding : SubjectBinding

pub record IssueOrder : Type 0 where
  pub request_id : String
  pub tenant_id : String
  pub template : Map Value
  pub issuer : Map Value
  pub claims : Map Value
  pub subject_binding : SubjectBinding
  pub status_id : String
  pub issued_at : ℕ
  pub expires_at : ℕ
  pub key_ref : String
  pub algorithm : Algorithm

-- The artifact and the `signing` part of a format port's answer; the value is `serializeArtifact`'s.
pub record Issued : Type 0 where
  pub format : String
  pub profile : String
  pub version : String
  pub media_type : String
  pub is_credential : Bool
  pub serialized : String
  pub request_id : String
  pub key_ref : String
  pub algorithm : Algorithm

-- `ambiguous` is a rejection with one of the two ambiguous codes of the signer.
pub data IssueAnswer : Type 0 where
  issued : Issued → IssueAnswer
  ambiguous rejected : IssueAnswer

pub record StatusUpdate : Type 0 where
  pub tenant_id : String
  pub issuer_id : String
  pub status_id : String
  pub status : CredentialStatus
  pub updated_at : ℕ

-- The code outside the service, on a state of its own: a promise that is rejected is `none`, or false
-- for `publish`. `to_number` and `is_finite` are JavaScript's `Number` and `Number.isFinite`.
pub record Ports (N : Type 0) : Type 0 where
  pub clock : N → ℕ × N
  pub token : N → String × N
  pub sha256 : String → String
  pub parse_url : String → Option Url
  pub to_number : Value → Number
  pub is_finite : Number → Bool
  pub jurisdiction : String
  pub describe_key : String → N → Option (Option KeyDescriptor) × N
  pub is_trusted : TrustQuery → N → Option Bool × N
  pub verify_proof : ProofQuery → N → Option Bool × N
  pub format_port : String → Option (IssueOrder → N → IssueAnswer × N)
  pub publish : StatusUpdate → N → Bool × N
