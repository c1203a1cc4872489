-- ===== src/Research/Report.antt =====
-- The report that `aggregate_results` gives (automation/multimodel_research_v1/aggregator.py).
use multiverse_research.Prelude.{
  ℕ, String, Bool, true, false, not, List, [], ◌∷◌, ◌++◌, map, ◌==◌, string_eq, nat_beq, length,
  filterb, ◌-◌,
}
use multiverse_research.Prelude.Value.{
  Value, Items, Fields, bool, str, arr, obj, nil, cons, end, field, put,
}
use multiverse_research.Prelude.Json.{item, items_in, is_list, is_filled_list, texts_in}
use multiverse_research.Prelude.Checked.{Checked, passed, require, ◌>>=◌, ◌>>◌}
use multiverse_research.Prelude.Order.{sort_by, sort_texts}
use multiverse_research.Research.Contract.{Library}
use multiverse_research.Research.Task.{validate_task}
use multiverse_research.Research.Result.{result_statuses, is_completed}
use multiverse_research.Research.Aggregate.{
  Entry, text_at, identity_of, identity_key, collect, unify_all, identities, occurrences_of,
  claim_keys, claim_of, divergent_claims, divergence_of, number, object_of, array_of,
}

abbrev noncompleted_of : Entry → Fields
noncompleted_of e = field "submission_id" (item e.result "submission_id") (
    field "model_identity" (item e.result "model_identity") (
      field "produced_at" (item e.result "produced_at") (
        field "result_content_digest" (str e.digest) (
          field "status" (item e.result "status")
            (field "uncertainty_factors" (item e.result "uncertainty_factors") end)))))

-- `noncompleted_results`
unfoldable pub noncompleted_results : List Entry → List Fields
noncompleted_results unique =
    sort_by (λ d. identity_key d ++ text_at "submission_id" d ∷ [])
      (map noncompleted_of (filterb (λ e. not (is_completed e.result)) unique))

abbrev has_status : String → Fields → Bool
has_status status r = text_at "status" r == status

abbrev pub infra_failures : List Entry → List Fields
infra_failures unique = filterb (has_status "INFRA_FAILURE") (noncompleted_results unique)

abbrev pub count_status : List Entry → String → ℕ
count_status unique status = length (filterb (λ e. has_status status e.result) unique)

abbrev pub status_counts : List Entry → Value
status_counts unique =
    object_of (λ status. number (count_status unique status)) (sort_texts result_statuses)

-- The results of a role.
abbrev pub with_role : String → List Entry → List Entry
with_role role unique = filterb (λ e. text_at "role" (identity_of e.result) == role) unique

abbrev pub completed_count : List Entry → ℕ
completed_count entries = length (filterb (λ e. is_completed e.result) entries)

abbrev coverage_of : List Entry → Value
coverage_of entries = obj (
    field "unique_identity_count" (number (length entries)) (
      field "completed_count" (number (completed_count entries)) (
        field "noncompleted_count" (number (length entries - completed_count entries))
          (field "status_counts" (status_counts entries) end))))

abbrev pub texts : List String → Items
texts [] = nil
texts (s ∷ ss) = cons (str s) (texts ss)

unfoldable pub missing_requested_roles : List String → List Entry → List String
missing_requested_roles roles unique =
    filterb (λ role. nat_beq (length (with_role role unique)) 0) roles

unfoldable pub roles_without_completed_result : List String → List Entry → List String
roles_without_completed_result roles unique =
    filterb (λ role. nat_beq (completed_count (with_role role unique)) 0) roles

abbrev is_none : List String → Value
is_none ss = bool (nat_beq (length ss) 0)

-- The aggregate before its digest is added.
unfoldable pub report_of : Library → Value → Fields → List Entry → List Entry → List Fields → Fields
report_of lib t task validated unique duplicates =
    let os = occurrences_of unique in
    let roles = texts_in (items_in (item task "requested_roles")) in
    let missing = missing_requested_roles roles unique in
    let uncovered = roles_without_completed_result roles unique in
    field "schema" (str "MULTIVERSE_RESEARCH_AGGREGATE_v1") (
      field "task_id" (item task "task_id") (
        field "snapshot_id" (item task "snapshot_id") (
          field "task_sha256" (str (lib.sha256_json t)) (
            field "unique_model_identity_count" (number (length unique)) (
              field "unique_submission_count" (number (length unique)) (
                field "input_submission_count" (number (length validated)) (
                  field "duplicate_acknowledgements" (array_of duplicates) (
                    field "claims" (array_of (map (claim_of os) (claim_keys os))) (
                      field "unresolved_divergences"
                        (array_of (map (divergence_of os) (divergent_claims os)))
                        (field "noncompleted_results" (array_of (noncompleted_results unique)) (
                          field "infra_failures" (array_of (infra_failures unique)) (
                            field "status_counts" (status_counts unique) (
                              field "requested_role_coverage"
                                (object_of (λ role. coverage_of (with_role role unique)) roles)
                                (field "missing_requested_roles" (arr (texts missing)) (
                                  field "roles_without_completed_result" (arr (texts uncovered)) (
                                    field "requested_role_coverage_complete" (is_none missing) (
                                      field "requested_role_completed_coverage_complete"
                                        (is_none uncovered)
                                        (field "consensus_is_descriptive_only" (bool true) (
                                          field "adoption_authority" (bool false)
                                            end)))))))))))))))))))

abbrev duplicate_order : Fields → List String
duplicate_order d =
    text_at "duplicate_of_submission_id" d
    ∷ text_at "submission_id" d
    ∷ text_at "content_digest" d
    ∷ []

-- What is put together of the results: the entries, one item per identity, and the duplicates.
unfoldable pub gather : Library → Value → Items → Checked (List Entry × List Entry × List Fields)
gather lib t results = do
  validated ← collect lib t [] results
  unified ← unify_all (identities validated) validated
  passed (validated, unified.0, sort_by duplicate_order unified.1)

-- `aggregate_results`
unfoldable pub aggregate_results : Library → Value → Value → Checked Fields
aggregate_results lib t results = do
  task ← validate_task lib t
  require (is_list results) "RESULTS_LIST"
  require (is_filled_list results) "RESULTS_REQUIRED"
  gathered ← gather lib t (items_in results)
  let aggregate = report_of lib t task gathered.0 gathered.1 gathered.2
  passed (put aggregate "aggregate_sha256" (str (lib.sha256_json (obj aggregate))))
