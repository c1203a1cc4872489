-- ===== src/Research/Diversity.antt =====
-- The second version of the aggregate, with who stands behind each position:
-- `_claim_diversity_metadata` and `aggregate_results_v2` of
-- automation/multimodel_research_v1/aggregator.py. A set is a list without repeats.
use multiverse_research.Prelude.{
  ℕ, String, Bool, ◌&&◌, List, [], ◌∷◌, ◌++◌, map, ◌==◌, string_eq, any, elem, ltb, length, filterb,
}
use multiverse_research.Prelude.Value.{Value, Fields, bool, str, obj, end, field, put, update}
use multiverse_research.Prelude.Json.{item, items_in, is_list, is_filled_list}
use multiverse_research.Prelude.Checked.{Checked, passed, require, ◌>>=◌, ◌>>◌}
use multiverse_research.Prelude.Order.{list_eq, distinct}
use multiverse_research.Research.Contract.{Library}
use multiverse_research.Research.Task.{validate_task}
use multiverse_research.Research.Result.{without}
use multiverse_research.Research.Aggregate.{
  Entry, Occurrence, text_at, identity_of, identity_key, occurrences_of, at_position, positions_at,
  claim_keys, claim_of, number, object_of, array_of,
}
use multiverse_research.Research.Report.{noncompleted_results, report_of, gather}

-- `provider_model` of what a result or a position's item says of its model.
abbrev pub provider_model : Fields → List String
provider_model d = text_at "provider" (identity_of d) ∷ text_at "model" (identity_of d) ∷ []

abbrev pub provider : Fields → List String
provider d = text_at "provider" (identity_of d) ∷ []

abbrev of_claim : String → List Occurrence → List Occurrence
of_claim claim os = filterb (λ o. o.claim_key == claim) os

-- `provider_model_presence[position]` and `provider_presence[position]`
unfoldable pub presence :
    (Fields → List String) → String → String → List Occurrence → List (List String)
presence who claim position os = distinct (map (λ o. who o.entry) (at_position claim position os))

abbrev participants : (Fields → List String) → String → List Occurrence → ℕ
participants who claim os = length (distinct (map (λ o. who o.entry) (of_claim claim os)))

abbrev is_some : {A : Type 0} → List A → Bool
is_some xs = ltb 0 (length xs)

-- `cross_model_divergence` and `cross_provider_divergence`
unfoldable pub cross_divergence : (Fields → List String) → String → List Occurrence → Bool
cross_divergence who claim os =
    let support = presence who claim "SUPPORT" os in
    let oppose = presence who claim "OPPOSE" os in
    is_some support && is_some oppose && ltb 1 (length (distinct (support ++ oppose)))

-- `role_conditioned_divergence`: a model is on both sides.
unfoldable pub role_conditioned_divergence : String → List Occurrence → Bool
role_conditioned_divergence claim os =
    any (λ m. elem m (presence provider_model claim "OPPOSE" os))
      (presence provider_model claim "SUPPORT" os)

-- `_claim_diversity_metadata`
unfoldable pub claim_diversity_metadata : List Occurrence → String → Fields
claim_diversity_metadata os claim =
    let counts = λ (who : Fields → List String).
      object_of (λ p. number (length (presence who claim p os))) (positions_at claim os) in
    field "provider_model_position_presence_counts" (counts provider_model) (
      field "provider_position_presence_counts" (counts provider) (
        field "provider_model_participant_count" (number (participants provider_model claim os)) (
          field "provider_participant_count" (number (participants provider claim os)) (
            field "role_conditioned_divergence" (bool (role_conditioned_divergence claim os)) (
              field "cross_model_divergence" (bool (cross_divergence provider_model claim os)) (
                field "cross_provider_divergence" (bool (cross_divergence provider claim os))
                  end))))))

-- `claim_v2`
unfoldable pub claim_v2_of : List Occurrence → String → Fields
claim_v2_of os claim =
    let first = claim_of os claim in
    let renamed =
      put (without "position_counts" first) "advisory_identity_position_counts"
        (item first "position_counts") in
    update (put renamed "descriptive_label_scope" (str "ADVISORY_IDENTITY"))
      (claim_diversity_metadata os claim)

-- Who has a finding in a claim.
abbrev completed : (Fields → List String) → List Occurrence → List (List String)
completed who os = distinct (map (λ o. who o.entry) os)

-- Who has a result.
abbrev observed : (Fields → List String) → List Entry → List (List String)
observed who unique =
    distinct (completed who (occurrences_of unique) ++ map who (noncompleted_results unique))

abbrev count_of : List (List String) → Value
count_of xs = number (length xs)

unfoldable pub report_v2_of :
    Library → Value → Fields → List Entry → List Entry → List Fields → Fields
report_v2_of lib t task validated unique duplicates =
    let os = occurrences_of unique in
    let first = report_of lib t task validated unique duplicates in
    let versioned = put first "schema" (str "MULTIVERSE_RESEARCH_AGGREGATE_v2") in
    let claimed = put versioned "claims" (array_of (map (claim_v2_of os) (claim_keys os))) in
    update (without "unique_model_identity_count" claimed) (
      field "observed_unique_advisory_identity_count" (count_of (observed identity_key unique)) (
        field "completed_unique_advisory_identity_count" (count_of (completed identity_key os)) (
          field "observed_unique_provider_model_count" (count_of (observed provider_model unique)) (
            field "completed_unique_provider_model_count" (count_of (completed provider_model os)) (
              field "observed_unique_provider_count" (count_of (observed provider unique)) (
                field "completed_unique_provider_count" (count_of (completed provider os)) end))))))

-- `aggregate_results_v2`
unfoldable pub aggregate_results_v2 : Library → Value → Value → Checked Fields
aggregate_results_v2 lib t results = do
  task ← validate_task lib t
  require (is_list results) "RESULTS_LIST"
  require (is_filled_list results) "RESULTS_REQUIRED"
  gathered ← gather lib t (items_in results)
  let aggregate = report_v2_of lib t task gathered.0 gathered.1 gathered.2
  passed (put aggregate "aggregate_sha256" (str (lib.sha256_json (obj aggregate))))
