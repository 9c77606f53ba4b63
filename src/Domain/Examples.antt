-- ===== src/Domain/Examples.antt =====
-- Tests of packages/credential-domain/src/index.ts at concrete data, and the theorems applied to it.
use universal_smart_wallet.Prelude.{
  ℕ, suc, String, true, false, not, ◌&&◌, ◌≡◌, ◌↔◌, ◌⊎◌, refl, List, [], ◌∷◌, none, some, ok, arith,
  lookup, has, insert, units, text_length, decimal, includes, matches_opaque,
}
use universal_smart_wallet.Value.{
  Value, bool, num, str, arr, obj, nil, cons, end, field, pos, member,
}
use universal_smart_wallet.Policy.Texts.{lower, is_safe_integer, is_less, is_same}
use universal_smart_wallet.Domain.{
  Claims, OnChainAttestation, PresentationChallenge, challenge_reused, ReplayConsumeRequest,
  accepted, refused,
}
use universal_smart_wallet.Domain.Attestations.{
  hex32, address, validate_claims, validate_attestation, bar_joined, attestation_signing_payload,
  AttestationSigner, AttestationVerifier, sign_attestation, verify_attestation,
  verify-sign_attestation,
}
use universal_smart_wallet.Domain.Base64.{letter, sextet, base64_url, bytes_of, from_base64_url}
use universal_smart_wallet.Domain.Challenges.{
  bounded_ttl, enough_bytes, create_challenge, Bounded, create_challenge-Bounded,
}
use universal_smart_wallet.Domain.Replay.{
  Entries, issue, judge, consume, in_memory, verify_challenge, issues, consumes, verifies, step,
  run, answers,
}
use universal_smart_wallet.Domain.Replay.Once.{
  board, board_answers, answers-board_answers, was_spent, consumed_once, Usable,
  verify_challenge-accepted,
}
use universal_smart_wallet.Domain.Trust.{
  evaluate_issuer_trust, Url, is_shared_net, is_private_172, is_private_host, is_blocked,
  bounded_status_url, Ports, status_of, expiry_of, status_record_of, read_response, lookup_status,
}
use universal_smart_wallet.Domain.Trust.Fresh.{
  Unblocked, Current, lookup_status-Current, lookup_status-net,
}
use universal_smart_wallet.Domain.Templates.{
  has_phone, is_pii_like, is_opaque_id, assert_opaque_id, first_unknown, assert_strict_record,
  text_of, check_claim, check_claims, check_formats, check_template, is_template_status,
  parse_template, publish_template, deprecate_template, assert_same_tenant, assurance_allowed,
  assert_https, parse_issuer_profile,
}
use universal_smart_wallet.Domain.Templates.Lifecycle.{
  publishes, deprecates, apply, after_moves, moves_done, Kept, lifecycle,
}

-- A proof that names `domain_code` runs the code on closed terms.
domain_code : Unit {0}
unfolding lookup has insert units text_length decimal includes matches_opaque member lower
    is_safe_integer is_less is_same hex32 address validate_claims validate_attestation bar_joined
    attestation_signing_payload sign_attestation verify_attestation letter sextet base64_url
    bytes_of from_base64_url bounded_ttl enough_bytes create_challenge issue judge consume
    verify_challenge step run answers board board_answers was_spent evaluate_issuer_trust
    is_shared_net is_private_172 is_private_host is_blocked bounded_status_url status_of expiry_of
    status_record_of read_response lookup_status has_phone is_pii_like is_opaque_id assert_opaque_id
    first_unknown assert_strict_record text_of check_claim check_claims check_formats check_template
    is_template_status parse_template publish_template deprecate_template assert_same_tenant
    assurance_allowed assert_https parse_issuer_profile apply after_moves moves_done
domain_code = tt

abbrev claims : Claims
claims = record {
  version = pos 1;
  chain_id = pos 100;
  consumer = "0x12ab12ab12ab12ab12ab12ab12ab12ab12ab12ab";
  policy = "0xab12ab12ab12ab12ab12ab12ab12ab12ab12ab12ab12ab12ab12ab12ab12ab12";
  subject = "0xab12ab12ab12ab12ab12ab12ab12ab12ab12ab12ab12ab12ab12ab12ab12ab12";
  nonce = "0xab12ab12ab12ab12ab12ab12ab12ab12ab12ab12ab12ab12ab12ab12ab12ab12";
  issued_at = pos 1000;
  expires_at = pos 2000;
  attestor = "0x12ab12ab12ab12ab12ab12ab12ab12ab12ab12ab";
  attestor_version = "0xab12ab12ab12ab12ab12ab12ab12ab12ab12ab12ab12ab12ab12ab12ab12ab12";
}

abbrev signature : String
signature =
    "0x0123456789012345678901234567890123456789012345678901234567890123456789012345678901234567890123456789012345678901234567890123456789"

abbrev signer : AttestationSigner
signer digest c = ok signature

abbrev verifier : AttestationVerifier
verifier digest given attestor = ok true

abbrev attested : OnChainAttestation
attested = record { claims = claims; signature = signature }

signs : sign_attestation claims signer (λ s. s) ≡ ok attested
unfolding domain_code
signs = refl

verify-sign_attestation_example :
    (attested.claims ≡ claims)
    × (verify_attestation attested verifier (λ s. s) 1000
        ≡ ok (not (is_less (pos 1000) claims.issued_at) && is_less (pos 1000) claims.expires_at))
verify-sign_attestation_example =
    verify-sign_attestation claims signer verifier (λ s. s) 1000 attested (λ digest given h. refl)
      signs

abbrev sixteen : List ℕ
sixteen = 0 ∷ 255 ∷ 3 ∷ 4 ∷ 5 ∷ 6 ∷ 7 ∷ 8 ∷ 9 ∷ 10 ∷ 11 ∷ 12 ∷ 13 ∷ 14 ∷ 15 ∷ 16 ∷ []

abbrev challenge : PresentationChallenge
challenge = record {
  value = "AP8DBAUGBwgJCgsMDQ4PEA";
  audience = "shop";
  issued_at = 5000;
  expires_at = 65000;
}

creates : create_challenge "shop" none (some (pos 16)) 5000 (λ n. ok (some sixteen)) ≡ ok challenge
unfolding domain_code
creates = refl

create_challenge-Bounded_example : Bounded "shop" 5000 challenge
create_challenge-Bounded_example =
    create_challenge-Bounded "shop" none (some (pos 16)) 5000 (λ n. ok (some sixteen)) challenge
      (record { at = λ n bytes h. ground arith }) creates

abbrev request : ReplayConsumeRequest
request = record { value = "AP8DBAUGBwgJCgsMDQ4PEA"; audience = "shop"; now = none }

abbrev issued_store : Entries
issued_store = run [] (issues challenge ∷ [])

answers-board_answers_example :
    answers issued_store (verifies 6000 request challenge ∷ consumes 6001 request ∷ [])
    ≡ board_answers
        (board issued_store)
        (verifies 6000 request challenge ∷ consumes 6001 request ∷ [])
answers-board_answers_example =
    answers-board_answers issued_store
      (verifies 6000 request challenge ∷ consumes 6001 request ∷ [])

holds_challenge : has request.value issued_store ≡ true
unfolding domain_code
holds_challenge = refl

consumed_once_example :
    verify_challenge
      (in_memory 6002)
      request
      challenge
      (run (consume 6000 request issued_store).1 (consumes 6001 request ∷ []))
    ≡ (
      refused challenge_reused,
      run (consume 6000 request issued_store).1 (consumes 6001 request ∷ []),
    )
consumed_once_example =
    consumed_once 6000 6002 request request challenge issued_store (consumes 6001 request ∷ [])
      holds_challenge refl refl

verify_challenge-accepted_example :
    ((verify_challenge (in_memory 6000) request challenge issued_store).0 ≡ accepted challenge)
    ↔ ((request.value ≡ challenge.value) × Usable 6000 request issued_store)
verify_challenge-accepted_example = verify_challenge-accepted 6000 request challenge issued_store

accepts : (verify_challenge (in_memory 6000) request challenge issued_store).0 ≡ accepted challenge
unfolding domain_code
accepts = refl

abbrev status_url : Url
status_url = record {
  protocol = "https:";
  hostname = "status.example";
  username = "";
  password = "";
  href = "https://status.example/1";
}

-- A network that counts its requests and answers one body, which the parser reads.
abbrev ports : Ports ℕ
ports = record {
  parse_url = λ s. some status_url;
  parse_json =
      λ s. some (obj (field "status" (str "valid") (field "expiresAt" (num (pos 900)) end)));
  transport = λ key n. (ok (record { status = 200; body = "x" }), suc n);
  max_response_bytes = 32768;
}

looks_up : (lookup_status ports 100 "https://status.example/1" [] 0).0.ok ≡ true
unfolding domain_code
looks_up = refl

lookup_status-Current_example :
    Current ports 100 "https://status.example/1"
      (lookup_status ports 100 "https://status.example/1" [] 0).1
lookup_status-Current_example =
    lookup_status-Current ports 100 "https://status.example/1" [] 0 looks_up

lookup_status-net_example :
    ((lookup_status ports 100 "https://status.example/1" [] 0).2 ≡ 0)
    ⊎ ((url : Url) × (ports.parse_url "https://status.example/1" ≡ some url)
        × Unblocked url
        × ((lookup_status ports 100 "https://status.example/1" [] 0).2
            ≡ (ports.transport url.href 0).1))
lookup_status-net_example = lookup_status-net ports 100 "https://status.example/1" [] 0

-- Hosts of the local networks are private, and their neighbours are not.
private_hosts :
    (is_private_host "172.16.0.1" ≡ true)
    × (is_private_host "172.32.0.1" ≡ false)
    × (is_private_host "100.64.0.1" ≡ true)
    × (is_private_host "100.128.0.1" ≡ false)
    × (is_private_host "API.localhost" ≡ true)
unfolding domain_code
private_hosts = (refl, refl, refl, refl, refl)

-- The URL parser writes an IPv6 host in brackets, and the test for `::1` does not see it.
bracketed_loopback : is_private_host "[::1]" ≡ false
unfolding domain_code
bracketed_loopback = refl

abbrev template : Value
template = obj (
    field "schemaVersion" (num (pos 1)) (
      field "tenantId" (str "tenant-1") (
        field "templateId" (str "template-1") (
          field "version" (num (pos 1)) (
            field "type" (str "Diploma") (
              field "assurance" (str "institutional") (
                field "formats" (arr (cons (str "sd-jwt-vc") nil)) (
                  field "claims"
                    (arr (
                      cons
                        (obj (
                          field "name" (str "degree") (
                            field "type" (str "string") (
                              field "required" (bool true)
                                (field "selectivelyDisclosable" (bool true) end)))))
                        nil))
                    (field "status" (str "review") end)))))))))

publishes_twice : moves_done template (publishes ∷ publishes ∷ deprecates ∷ publishes ∷ []) ≡ 2
unfolding domain_code
publishes_twice = refl

lifecycle_example :
    Kept template
      (after_moves template (publishes ∷ publishes ∷ deprecates ∷ []))
      (moves_done template (publishes ∷ publishes ∷ deprecates ∷ []))
lifecycle_example = lifecycle template (publishes ∷ publishes ∷ deprecates ∷ [])

-- `String(['string'])` is "string", so that a claim's type may be an array.
array_type :
    check_claim [] (
      obj (
        field "name" (str "degree") (
          field "type"
            (arr (cons (str "string") nil))
            (field "required" (bool true) (field "selectivelyDisclosable" (bool true) end)))))
    ≡ ok "degree"
unfolding domain_code
array_type = refl
