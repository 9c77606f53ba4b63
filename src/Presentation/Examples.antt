-- ===== src/Presentation/Examples.antt =====
-- The policy `ageOver18Policy` of packages/presentation-policy/src/index.ts, and the theorem applied to
-- a selection by it.
use universal_smart_wallet.Prelude.{
  String, true, ◌≡◌, refl, List, [], ◌∷◌, Option, some, All, ok, lookup, units, text_length,
  includes, map_result,
}
use universal_smart_wallet.Value.{
  Value, bool, num, str, arr, obj, nil, cons, end, field, pos, member,
}
use universal_smart_wallet.Presentation.{
  PresentationPolicy, PresentationCandidate, object_of, text, keys, items, path, scalar,
  parse_claim, parse_credential_query, parse_presentation_policy, equals, follow, meets, fits,
  select_for, select_all, select_presentation_candidates,
}
use universal_smart_wallet.Presentation.Selected.{Chosen, select_presentation_candidates-Chosen}

presentation_code : Unit {0}
unfolding lookup units text_length includes map_result member object_of text keys items path scalar
    parse_claim parse_credential_query parse_presentation_policy equals follow meets fits select_for
    select_all select_presentation_candidates
presentation_code = tt

abbrev age_policy : Value
age_policy =
    (obj (
      field "schemaVersion" (num (pos 1)) (
        field "id" (str "age-over-18") (
          field "purpose" (str "age verification") (
            field "credentials"
              (arr (
                cons
                  (obj (
                    field "id" (str "age-credential") (
                      field "format" (str "dc+sd-jwt") (
                        field "vct" (str "urn:ssw:age-over-18") (
                          field "claims"
                            (arr (
                              cons
                                (obj (
                                  field "path" (arr (cons (str "is_over_18") nil)) (
                                    field "operator" (str "equals") (
                                      field "value" (bool true)
                                        (field "requiredDisclosure" (bool true) end)))))
                                nil))
                            end)))))
                  nil))
              end)))))

abbrev parsed : PresentationPolicy
parsed = record {
  id = "age-over-18";
  purpose = "age verification";
  credentials =
      record {
        id = "age-credential";
        vct = "urn:ssw:age-over-18";
        claims =
            record { path = "is_over_18" ∷ []; value = bool true; required_disclosure = true } ∷ [];
      }
      ∷ [];
}

parses : parse_presentation_policy age_policy ≡ ok parsed
unfolding presentation_code
parses = refl

abbrev candidate : PresentationCandidate
candidate = record {
  id = "age-credential";
  format = "dc+sd-jwt";
  vct = "urn:ssw:age-over-18";
  claims = obj (field "is_over_18" (bool true) end);
  disclosures = "d1" ∷ [];
}

abbrev minor : PresentationCandidate
minor = record candidate { claims = obj (field "is_over_18" (str "true") end) }

abbrev approved_ids : Option (List String)
approved_ids = some ("age-credential" ∷ [])

selects :
    select_presentation_candidates age_policy (minor ∷ candidate ∷ []) approved_ids
    ≡ ok (candidate ∷ [])
unfolding presentation_code
selects = refl

select_presentation_candidates-Chosen_example :
    All (Chosen approved_ids (minor ∷ candidate ∷ []) parsed.credentials) (candidate ∷ [])
select_presentation_candidates-Chosen_example =
    select_presentation_candidates-Chosen age_policy (minor ∷ candidate ∷ []) (candidate ∷ [])
      approved_ids parsed parses selects
