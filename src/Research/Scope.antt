-- ===== src/Research/Scope.antt =====
-- How far a result for an assignment reaches (automation/multimodel_research_v1/assignment.py).
use multiverse_research.Prelude.{
  ◌≡◌, sym, subst, ◌⊎◌, inl, inr, ℕ, ◌≤◌, true, false, string_eq, leb→le, Bool-cases,
}
use multiverse_research.Prelude.Value.{Value, Fields, equals}
use multiverse_research.Prelude.Json.{item, is_string, items_in, fields_in}
use multiverse_research.Prelude.Checked.{passed, unbind, required, require-passed, passed-inj}
use multiverse_research.Research.Contract.{Library, parse_utc_timestamp}
use multiverse_research.Research.Task.{is_among}
use multiverse_research.Research.Evidence.{task-manifest}
use multiverse_research.Research.Assignment.{
  is_limited, check_target, check_scope, validate_assignment, validate_result_v2_for_assignment,
}

-- The assignment names a role of the task and is not older than the task.
abbrev pub IsTargeted : Library → Fields → Fields → Type 0
IsTargeted lib task a =
    (is_among (item a "requested_role") (items_in (item task "requested_roles")) ≡ true)
    × ((created : ℕ) × (assigned : ℕ) × (parse_utc_timestamp lib (item task "created_at")
            "TASK_CREATED_AT"
          ≡ passed created)
        × (parse_utc_timestamp lib (item a "created_at") "ASSIGNMENT_CREATED_AT" ≡ passed assigned)
        × (created ≤ assigned))

-- The assignment allows no more than the task: no network where that has none, and no larger limits.
abbrev pub IsScoped : Fields → Fields → Type 0
IsScoped constraints a =
    ((is_string (item constraints "network_access") "NONE" ≡ false)
      ⊎ (is_string (item a "research_network_access") "NONE" ≡ true))
    × (is_limited 1 (item constraints "max_compute_seconds") (item a "max_compute_seconds") ≡ true)
    × (is_limited 1024 (item constraints "max_output_bytes") (item a "max_output_bytes") ≡ true)

-- The result comes from the model that was assigned, in the role, and is not older than the
-- assignment.
abbrev pub IsAssigned : Library → Fields → Fields → Type 0
IsAssigned lib a r =
    (equals (item (fields_in (item r "model_identity")) "provider") (item a "target_provider")
      ≡ true)
    × (equals (item (fields_in (item r "model_identity")) "model") (item a "target_model") ≡ true)
    × (equals (item (fields_in (item r "model_identity")) "role") (item a "requested_role") ≡ true)
    × ((assigned : ℕ) × (produced : ℕ) × (parse_utc_timestamp lib (item a "created_at")
            "ASSIGNMENT_CREATED_AT"
          ≡ passed assigned)
        × (parse_utc_timestamp lib (item r "produced_at") "RESULT_V2_PRODUCED_AT" ≡ passed produced)
        × (assigned ≤ produced))

check_target-IsTargeted :
    (lib : Library) (t : Value) (task a : Fields)
    → check_target lib t task a ≡ passed tt
    → IsTargeted lib task a
unfolding check_target
check_target-IsTargeted lib t task a h = required _ _ _ h λ _ h. unbind _ _ h λ _ _ h.
    required _ _ _ h λ _ h. required _ _ _ h λ _ h. unbind _ _ h λ assigned at h.
      unbind _ _ h λ created before h. required _ _ _ h λ order h. unbind _ _ h λ _ _ h.
        unbind _ _ h λ _ _ h. unbind _ _ h λ _ _ h.
          required _ _ _ h
            λ role _. (role, (created, assigned, before, at, leb→le created assigned order))

check_scope-IsScoped :
    (constraints a : Fields) → check_scope constraints a ≡ passed tt → IsScoped constraints a
unfolding check_scope
check_scope-IsScoped constraints a h = unbind _ _ h λ _ _ h. unbind _ _ h λ _ _ h.
    unbind _ _ h λ _ network h. unbind _ _ h λ _ _ h. required _ _ _ h λ compute h.
      required _ _ _ h λ output _. (
        (elim (Bool-cases (is_string (item constraints "network_access") "NONE")) [
          | inr reachable ↦ inl reachable
          | inl shut ↦
              inr (require-passed _ "ASSIGNMENT_RESEARCH_NETWORK_WIDENED" (rw shut at network))
        ]),
        compute,
        output,
      )

-- An assignment that passes is a task's, and stays within it.
assignment_in_task :
    (lib : Library) (t v : Value) (a : Fields)
    → validate_assignment lib t v ≡ passed a
    → (fields_in v ≡ a)
      × IsTargeted lib (fields_in t) a
      × IsScoped (fields_in (item (fields_in t) "constraints")) a
unfolding validate_assignment
assignment_in_task lib t v a h = unbind _ _ h λ task known h. required _ _ _ h λ _ h.
    required _ _ _ h λ _ h. unbind _ _ h λ _ target h. unbind _ _ h λ _ scope h.
      unbind _ _ h λ _ _ h. unbind _ _ h λ _ _ h.
        let own : task ≡ fields_in t = sym (task-manifest lib t task known).0 in
        let same = passed-inj h in
        (
          same,
          subst (λ x. IsTargeted lib x a) own
              (subst (IsTargeted lib task) same
                (check_target-IsTargeted lib t task (fields_in v) target)),
          subst (λ x. IsScoped (fields_in (item x "constraints")) a) own
              (subst (IsScoped (fields_in (item task "constraints"))) same
                (check_scope-IsScoped _ (fields_in v) scope)),
        )

-- A result that is accepted for an assignment comes from the assigned model in the assigned role, not
-- before the assignment; the assignment names a role of the task, is not older than the task, and
-- allows no network and no larger limits than the task.
pub result_is_within_assignment :
    (lib : Library) (t assignment v : Value) (r : Fields)
    → validate_result_v2_for_assignment lib t assignment v ≡ passed r
    → IsAssigned lib (fields_in assignment) r
      × IsTargeted lib (fields_in t) (fields_in assignment)
      × IsScoped (fields_in (item (fields_in t) "constraints")) (fields_in assignment)
unfolding validate_result_v2_for_assignment
result_is_within_assignment lib t assignment v r h = unbind _ _ h λ a known h.
    required _ _ _ h λ _ h. required _ _ _ h λ _ h. required _ _ _ h λ _ h. unbind _ _ h λ _ _ h.
      required _ _ _ h λ _ h. unbind _ _ h λ _ _ h. required _ _ _ h λ provider h.
        required _ _ _ h λ model h. required _ _ _ h λ role h. unbind _ _ h λ produced at h.
          unbind _ _ h λ assigned before h. required _ _ _ h λ order h.
            let (same, target, scope) = assignment_in_task lib t assignment a known in
            let back : a ≡ fields_in assignment = sym same in
            (
              subst (λ x. IsAssigned lib x r) back
                  (subst (IsAssigned lib a) (passed-inj h) (
                    provider,
                    model,
                    role,
                    (assigned, produced, before, at, leb→le assigned produced order),
                  )),
              subst (IsTargeted lib (fields_in t)) back target,
              subst (IsScoped (fields_in (item (fields_in t) "constraints"))) back scope,
            )
