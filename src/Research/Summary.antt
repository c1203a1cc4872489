-- ===== src/Research/Summary.antt =====
-- The summary of a fan-out: `summarize_fanout_results` of
-- automation/multimodel_research_v1/fanout.py.
use multiverse_research.Prelude.{
  ℕ, String, false, not, ◌&&◌, List, [], map, ◌==◌, string_eq, elem, nat_beq, length, filterb, ◌-◌,
}
use multiverse_research.Prelude.Value.{Value, Fields, bool, str, arr, obj, end, field, put}
use multiverse_research.Prelude.Json.{item, is_list, items_in, fields_in, texts_in}
use multiverse_research.Prelude.Checked.{Checked, passed, require, ◌>>=◌, ◌>>◌}
use multiverse_research.Prelude.Order.{sort_texts}
use multiverse_research.Research.Contract.{Library}
use multiverse_research.Research.Result.{result_statuses, is_completed}
use multiverse_research.Research.Aggregate.{text_at, number, object_of}
use multiverse_research.Research.Report.{texts}
use multiverse_research.Research.Fanout.{Planned, Observed, validate_fanout_plan, observe}

abbrev pub planned_hashes : Fields → List String
planned_hashes plan = texts_in (items_in (item plan "assignment_sha256s"))

abbrev pub hashes_of : List Observed → List String
hashes_of os = map (λ o. o.digest) os

-- `missing_hashes`
unfoldable pub missing_hashes : List String → List Observed → List String
missing_hashes planned os = sort_texts (filterb (λ h. not (elem h (hashes_of os))) planned)

abbrev pub completed_of : List Observed → List Observed
completed_of os = filterb (λ o. is_completed o.result) os

abbrev count_status : List Observed → String → ℕ
count_status os status = length (filterb (λ o. text_at "status" o.result == status) os)

-- The summary before its digest is added.
unfoldable pub summary_of : Library → Value → Value → Fields → List Observed → Fields
summary_of lib t v plan os =
    let task = fields_in t in
    let planned = planned_hashes plan in
    let observed = sort_texts (hashes_of os) in
    let completed = sort_texts (hashes_of (completed_of os)) in
    let missing = missing_hashes planned os in
    field "schema" (str "MULTIVERSE_RESEARCH_BATCH_SUMMARY_v1") (
      field "task_sha256" (str (lib.sha256_json t)) (
        field "snapshot_id" (item task "snapshot_id") (
          field "fanout_plan_sha256" (str (lib.sha256_json v)) (
            field "planned_assignment_count" (number (length planned)) (
              field "observed_terminal_result_count" (number (length observed)) (
                field "completed_assignment_count" (number (length completed)) (
                  field "noncompleted_assignment_count"
                    (number (length observed - length completed))
                    (field "planned_assignment_sha256s" (arr (texts planned)) (
                      field "observed_assignment_sha256s" (arr (texts observed)) (
                        field "completed_assignment_sha256s" (arr (texts completed)) (
                          field "missing_assignment_sha256s" (arr (texts missing)) (
                            field "status_counts"
                              (object_of (λ s. number (count_status os s))
                                (sort_texts result_statuses))
                              (field "all_planned_observed" (bool (nat_beq (length missing) 0)) (
                                field "all_planned_completed"
                                  (bool (
                                    nat_beq (length missing) 0
                                    && nat_beq (length completed) (length planned)))
                                  (field "adoption_authority" (bool false) end)))))))))))))))

-- What is put together of a fan-out: the assignments, the plan and the results.
unfoldable pub run_plan :
    Library → Value → Value → Value → Value → Checked (List Planned × Fields × List Observed)
run_plan lib t assignments v results = do
  plan ← validate_fanout_plan lib t assignments v
  require (is_list results) "FANOUT_RESULTS_LIST"
  os ← observe lib t plan.0 [] [] (items_in results)
  passed (plan.0, plan.1, os)

-- `summarize_fanout_results`
unfoldable pub summarize_fanout_results : Library → Value → Value → Value → Value → Checked Fields
summarize_fanout_results lib t assignments v results = do
  ran ← run_plan lib t assignments v results
  let summary = summary_of lib t v ran.1 ran.2
  passed (put summary "batch_sha256" (str (lib.sha256_json (obj summary))))
