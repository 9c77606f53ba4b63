-- ===== src/Lib.antt =====
-- The Universal Smart Wallet's identity platform: the packages that decide what is trusted and what
-- may be signed, modelled from their TypeScript sources.
--
-- The parts, and how they interact:
-- * packages/trust-registry/src/index.ts is the signed registry of issuers, keys, schemas and
--   credential statuses. `Registry` has its data and `Registry.Parse` and `Registry.Snapshots` the
--   parsers (`parseIssuer`, `parseUnsigned`, `validateRelations`, ...), from a JavaScript value
--   (`Value`) to a snapshot or an error. `Registry.Canonical` writes the signing payload
--   (`canonicalValue`, `registrySnapshotSigningPayload`), `Registry.Verify` signs and verifies
--   (`signRegistrySnapshot`, `verifyRegistrySnapshot`), `Registry.Decide` evaluates one snapshot
--   (`evaluateTrustSnapshot`, `evaluateStatusSnapshot`) and `Registry.Cache` is
--   `SignedSnapshotCache`: a map of entries, which each operation takes and returns.
-- * packages/signer-policy/src/index.ts authorizes operational signers. `Policy` has its data,
--   `Policy.Validate` is `validatePolicy` and `validateRequest`, `Policy.Memory` has the interface
--   `PolicyStore` and its implementation `InMemoryPolicyStore`, and
--   `Policy.Authorize` is `SignerPolicyEvaluator.authorize` over any such store.
-- * packages/issuer-signer/src/index.ts is the signing boundary of institutional issuers.
--   `IssuerSigner.Operations` is `IssuerOperationStore` with `InMemoryIssuerOperationStore`,
--   `IssuerSigner.Approvals` is `requireDualApproval`, and `IssuerSigner.Signing` and
--   `IssuerSigner.Mutations` are `sign`, `rotate` and `disable` of `InstitutionalIssuerSigner`, on a
--   state of the adapter, the operation store and the audit trail. `IssuerSigner.Local` is
--   `UnsafeLocalDevelopmentKmsAdapter`.
-- * packages/credential-domain/src/index.ts is the domain that the identity services share.
--   `Domain.Attestations` is `signAttestation` and `verifyAttestation`, `Domain.Base64` and
--   `Domain.Challenges` are `base64Url`, `fromBase64Url` and `createChallenge`, `Domain.Replay` is
--   `InMemoryReplayStore` and `verifyChallenge`, `Domain.Trust` is `evaluateIssuerTrust` and
--   `StatusCache.lookup`, on a cache and a network that each call takes and returns, and
--   `Domain.Templates` has `parseCredentialTemplate`, `publishCredentialTemplate`,
--   `deprecateCredentialTemplate` and `parseIssuerProfile` on JavaScript values.
-- * packages/issuer-service/src/index.ts issues credentials. `Issuance` has the maps of
--   `InstitutionalIssuerService` and its ports, and `Issuance.Run` the form of an operation: tests,
--   readings, calls of ports and changes in their order, which `exec` runs, so that what was changed
--   before an error stays. `Issuance.Setup` registers templates (parsed by `Domain.Templates`),
--   issuers and policies and creates sessions, `Issuance.Review` is `reviewIssuance` and
--   `assertIssuanceAuthorization`, `Issuance.Tokens` and `Issuance.Offers` are `uniqueToken`,
--   `consumeGrant`, `createOffer`, `authorize` and `exchangeToken`, and `Issuance.Issue` is
--   `issueCredential` and `changeStatus`. `Issuance.Rules` has one proof rule for each part of an
--   operation.
-- * packages/presentation-policy/src/index.ts chooses what is disclosed: `Presentation` is
--   `parsePresentationPolicy` and `selectPresentationCandidates`.
--
-- Conventions. A promise that is rejected by a port is `none` (or false, where it returns nothing);
-- what a function throws is an error of `Result`, by its code, without the text of its message. The
-- key stores, signers, verifiers, approval services, audit services, the hash and the platform's
-- signatures are code outside the repository: they are arguments, in records of functions, and a
-- theorem that relies on one says so among its hypotheses. Numbers of JavaScript that a package
-- checks itself are `Value.Number`, and `Policy.Texts` compares them as integers: what is compared
-- was checked to be an integer, and the policies that a store gives are taken to have integers, as
-- `validatePolicy` demands of those that are put. Times, amounts, versions of trust bundles and
-- HTTP statuses that it takes as given are natural numbers, so that a negative or a fractional one
-- is not represented. The transport of the status cache rejects with a message, which the code
-- reads. A call runs to its end before the next one begins: interleavings of two pending promises
-- are not modelled. Every loop of these packages is over a list and is structural recursion; only
-- `decimal`, which writes a number, has fuel, one more than the number, which is enough since each
-- digit divides it by ten. `uniqueToken` tries four times, as in the source.
--
-- Left out: the other packages, the applications, the contracts and the scripts; of the issuer
-- service, the routing of HTTP requests and the metadata document; of the presentation policies,
-- `toDcql` and `fromDcql`.
pub mod Prelude
pub mod Value
pub mod Registry
pub mod Policy
pub mod IssuerSigner
pub mod Domain
pub mod Issuance
pub mod Presentation
