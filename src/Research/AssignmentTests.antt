-- ===== src/Research/AssignmentTests.antt =====
-- An assignment, a result for it and a fan-out at concrete inputs.
use multiverse_research.Prelude.{IsIn, List, [], false, inl, refl, ◌∷◌, ◌≡◌, ◌⊎◌}
use multiverse_research.Prelude.Int.{pos}
use multiverse_research.Prelude.Value.{
  Fields, arr, bool, cons, end, equals, field, int, nil, obj, put, str,
}
use multiverse_research.Prelude.Json.{item, fields_in}
use multiverse_research.Prelude.Text.{has_infix, is_hex_text}
use multiverse_research.Prelude.Checked.{contract, passed, refused, ◌>>=◌, each, each_field}
use multiverse_research.Prelude.Keys.{reject_keys}
use multiverse_research.Research.Contract.{
  nonauthority_keys, parse_utc_timestamp, nonauthority, reject_dynamic_keys, is_dynamic_key,
}
use multiverse_research.Research.Task.{
  check_keys, check_source_ref, check_source_refs, check_primitives, check_declared,
  check_manifest_entry, check_manifest_entries, check_manifest, check_constraints, check_roles,
  validate_task,
}
use multiverse_research.Research.Result.{
  check_identity, check_evidence, check_finding, check_findings, check_uncertainty, validate_result,
  check_against_manifest, check_against_source, check_finding_evidence, validate_result_for_task,
}
use multiverse_research.Research.Assignment.{
  validate_assignment, check_target, check_scope, check_mode, assignment_nonauthority,
  assignment_sha256, validate_result_v2_for_assignment,
}
use multiverse_research.Prelude.Order.{sort_by, insert_by}
use multiverse_research.Research.Fanout.{
  Planned, Observed, parse_utc, fanout_nonauthority, plan_assignments, check_plan_hashes,
  validate_fanout_plan, assignment_by_sha, observe,
}
use multiverse_research.Research.Summary.{planned_hashes, missing_hashes, run_plan}
use multiverse_research.Research.Coverage.{IsAccepted, planned_is_accounted}
use multiverse_research.Research.Scope.{
  IsAssigned, IsTargeted, IsScoped, result_is_within_assignment,
}
use multiverse_research.Research.Fixtures.{digest, lib, refusals, moment, task, first}

abbrev assignment : Fields
assignment = field "schema" (str "MULTIVERSE_RESEARCH_ASSIGNMENT_v1") (
    field "assignment_id" (str "job-1") (
      field "task_sha256" (str digest) (
        field "snapshot_id" (str "snap-1") (
          field "created_at" moment (
            field "target_provider" (str "local") (
              field "target_model" (str "one") (
                field "requested_role" (str "critic") (
                  field "adapter_sha256" (str digest) (
                    field "execution_mode" (str "SYNTHETIC_OFFLINE") (
                      field "research_network_access" (str "NONE") (
                        field "provider_transport_policy_ref" (str "NONE") (
                          field "max_compute_seconds" (int (pos 30)) (
                            field "max_output_bytes" (int (pos 2048)) (
                              field "attestation_required" (bool false) (
                                field "nonauthority" (obj (refusals nonauthority_keys))
                                  end)))))))))))))))

abbrev answer : Fields
answer =
    put (put first "schema" (str "MULTIVERSE_RESEARCH_RESULT_v2")) "assignment_sha256" (str digest)

answer-passed :
    validate_result_v2_for_assignment lib (obj task) (obj assignment) (obj answer) ≡ passed answer
unfolding validate_result_v2_for_assignment assignment_sha256 validate_assignment check_target
    check_scope check_mode assignment_nonauthority validate_result_for_task ◌>>=◌ validate_task
    check_keys parse_utc_timestamp check_source_refs check_source_ref is_hex_text check_primitives
    check_manifest check_manifest_entries check_manifest_entry check_declared equals
    check_constraints check_roles each nonauthority each_field reject_keys has_infix is_dynamic_key
    reject_dynamic_keys check_against_manifest check_against_source check_evidence check_finding
    check_finding_evidence check_findings check_identity check_uncertainty validate_result
answer-passed = refl

result_is_within_assignment_example :
    IsAssigned lib assignment answer
    × IsTargeted lib task assignment
    × IsScoped (fields_in (item task "constraints")) assignment
result_is_within_assignment_example =
    result_is_within_assignment lib (obj task) (obj assignment) (obj answer) answer answer-passed

-- More compute than the task allows is refused.
abbrev greedy : Fields
greedy = put assignment "max_compute_seconds" (int (pos 61))

greedy-refused :
    check_scope (fields_in (item task "constraints")) greedy
    ≡ refused (contract "ASSIGNMENT_MAX_COMPUTE_WIDENED")
unfolding check_scope ◌>>=◌
greedy-refused = refl

abbrev plan : Fields
plan = field "schema" (str "MULTIVERSE_RESEARCH_FANOUT_PLAN_v1") (
    field "plan_id" (str "plan-1") (
      field "task_sha256" (str digest) (
        field "snapshot_id" (str "snap-1") (
          field "created_at" moment (
            field "assignment_sha256s" (arr (cons (str digest) nil))
              (field "nonauthority" (obj (refusals nonauthority_keys)) end))))))

abbrev planned : List Planned
planned = record { digest = digest; assignment = obj assignment; created = 7 } ∷ []

abbrev observed : List Observed
observed = record { digest = digest; result = answer } ∷ []

plan-ran :
    run_plan lib
      (obj task)
      (arr (cons (obj assignment) nil))
      (obj plan)
      (arr (cons (obj answer) nil))
    ≡ passed (planned, plan, observed)
unfolding run_plan validate_fanout_plan plan_assignments check_plan_hashes fanout_nonauthority
    parse_utc observe assignment_by_sha sort_by insert_by validate_result_v2_for_assignment
    assignment_sha256 validate_assignment check_target check_scope check_mode
    assignment_nonauthority validate_result_for_task ◌>>=◌ validate_task check_keys
    parse_utc_timestamp check_source_refs check_source_ref is_hex_text check_primitives
    check_manifest check_manifest_entries check_manifest_entry check_declared equals
    check_constraints check_roles each nonauthority each_field reject_keys has_infix is_dynamic_key
    reject_dynamic_keys check_against_manifest check_against_source check_evidence check_finding
    check_finding_evidence check_findings check_identity check_uncertainty validate_result
plan-ran = refl

planned_is_accounted_example :
    IsIn digest (missing_hashes (planned_hashes plan) observed)
    ⊎ ((o : Observed) × IsIn o observed × (o.digest ≡ digest) × IsAccepted lib (obj task) planned o)
planned_is_accounted_example =
    planned_is_accounted lib (obj task) (arr (cons (obj assignment) nil)) (obj plan)
      (arr (cons (obj answer) nil)) planned plan observed digest plan-ran (inl refl)

none-missing : missing_hashes (planned_hashes plan) observed ≡ []
unfolding missing_hashes sort_by
none-missing = refl
