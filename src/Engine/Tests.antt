-- ===== src/Engine/Tests.antt =====
-- The task store at concrete inputs: a task that is claimed, worked on, lost and taken over.
use multiverse_research.Prelude.{
  ℕ, ◌≡◌, refl, ap, String, true, false, Option, none, some, List, [], ◌∷◌, arith, ◌⊎◌,
}
use multiverse_research.Prelude.Int.{pos}
use multiverse_research.Prelude.Value.{int, str, null, end}
use multiverse_research.Prelude.Text.{is_blank}
use multiverse_research.Prelude.Table.{select, update_where}
use multiverse_research.Engine.States.{
  TaskState, in_implement, in_lab, in_audit, done, member, validated_worker_id,
  validated_generation, validated_lease_seconds, ◌>>=◌, IsErr,
}
use multiverse_research.Engine.Store.{
  Task, Db, Change, row_id, empty_db, new_task, create_task, claim_task, write_claim, renew_lease,
  reclaim_expired_task, write_reclaim, transition, write_transition, check_fence, claim_next_task,
  assert_unexpired_fence, first_by_order,
}
use multiverse_research.Engine.Calls.{Call, creates, claims, reclaims, moves, step, run}
use multiverse_research.Engine.Invariant.{Inv, run-empty-Inv}
use multiverse_research.Engine.Machine.{Moves, run-refines-Moves, closed_row_frozen}
use multiverse_research.Engine.Fencing.{
  generation_of, superseded_token_dead, generation_has_one_owner,
}
use multiverse_research.Engine.Workflow.{visited, IsWorkflow, done_was_audited}
use multiverse_research.Engine.Queue.{Served, claim_next_task-Served}

-- The keyword arguments of a step by a worker of a generation.
abbrev pub by_worker : String → ℕ → Change
by_worker w g = record {
  actor = "engine";
  event_type = "STEP";
  detail = end;
  result_update = end;
  release = false;
  fencing = some (str w, int (pos g));
}

abbrev pub started : List (ℕ × Call)
started =
    (1000000, creates "t" "research" "goal" "candidate_research" (pos 5))
    ∷ (2000000, claims "t" (str "w1") (int (pos 60)))
    ∷ (3000000, moves "t" in_implement (by_worker "w1" 1))
    ∷ []

-- The lease of the first worker runs out, and a second one takes the task over.
abbrev taken_over : List (ℕ × Call)
taken_over =
    (1000000, creates "t" "research" "goal" "candidate_research" (pos 5))
    ∷ (2000000, claims "t" (str "w1") (int (pos 60)))
    ∷ (3000000, moves "t" in_implement (by_worker "w1" 1))
    ∷ (90000000, reclaims "t" (str "w2") (int (pos 60)))
    ∷ []

abbrev audited : List (ℕ × Call)
audited =
    (1000000, creates "t" "research" "goal" "candidate_research" (pos 5))
    ∷ (2000000, claims "t" (str "w1") (int (pos 60)))
    ∷ (3000000, moves "t" in_implement (by_worker "w1" 1))
    ∷ (4000000, moves "t" in_lab (by_worker "w1" 1))
    ∷ (5000000, moves "t" in_audit (by_worker "w1" 1))
    ∷ (6000000, moves "t" done (by_worker "w1" 1))
    ∷ []

abbrev later_calls : List (ℕ × Call)
later_calls =
    (95000000, moves "t" in_lab (by_worker "w1" 1))
    ∷ (96000000, moves "t" in_lab (by_worker "w2" 2))
    ∷ []

-- The row of the task, by state, owner, generation, lease and last change.
abbrev row_in : TaskState → String → ℕ → ℕ → ℕ → Task
row_in s w g until now = record {
  id = "t";
  domain = "research";
  task_type = "candidate_research";
  goal = "goal";
  priority = pos 5;
  state = s;
  claimed_by = some w;
  claim_generation = g;
  lease_until = some until;
  result = end;
  created_at = 1000000;
  updated_at = now;
}

abbrev pub started_row : Task
started_row = row_in in_implement "w1" 1 62000000 3000000

abbrev over_row : Task
over_row = row_in in_implement "w2" 2 150000000 90000000

abbrev lab_row : Task
lab_row = row_in in_lab "w2" 2 150000000 96000000

abbrev done_row : Task
done_row = row_in done "w1" 1 62000000 6000000

pub started-row : select row_id "t" (run empty_db started).tasks ≡ some started_row
unfolding run step create_task claim_task write_claim transition write_transition check_fence
    validated_worker_id validated_generation validated_lease_seconds ◌>>=◌ select update_where
    is_blank
started-row = refl

taken_over-row : select row_id "t" (run empty_db taken_over).tasks ≡ some over_row
unfolding run step create_task claim_task write_claim transition write_transition check_fence
    validated_worker_id validated_generation validated_lease_seconds ◌>>=◌ select update_where
    is_blank reclaim_expired_task write_reclaim
taken_over-row = refl

taken_over-generation : generation_of "t" (run empty_db taken_over) ≡ 2
taken_over-generation =
    ap (λ (o : Option Task). elim o [ none ↦ 0 | some r ↦ r.claim_generation ]) taken_over-row

later-row : select row_id "t" (run (run empty_db taken_over) later_calls).tasks ≡ some lab_row
unfolding run step create_task claim_task write_claim transition write_transition check_fence
    validated_worker_id validated_generation validated_lease_seconds ◌>>=◌ select update_where
    is_blank reclaim_expired_task write_reclaim
later-row = refl

audited-row : select row_id "t" (run empty_db audited).tasks ≡ some done_row
unfolding run step create_task claim_task write_claim transition write_transition check_fence
    validated_worker_id validated_generation validated_lease_seconds ◌>>=◌ select update_where
    is_blank
audited-row = refl

superseded_token_dead_example :
    IsErr (
      transition "t" in_lab (by_worker "w1" 1) 97000000 (run (run empty_db taken_over) later_calls))
    × IsErr (
        renew_lease "t"
          (str "w1")
          (int (pos 1))
          null
          97000000
          (run (run empty_db taken_over) later_calls))
    × IsErr (
        assert_unexpired_fence "t"
          (str "w1")
          (int (pos 1))
          97000000
          (run (run empty_db taken_over) later_calls))
superseded_token_dead_example =
    superseded_token_dead later_calls (run empty_db taken_over) "t" (str "w1") 1 97000000 in_lab
      (by_worker "w1" 1) null (run-empty-Inv taken_over) (omega (arith, taken_over-generation)) refl

run-refines-Moves_example :
    (r' : Task) × (select row_id "t" (run (run empty_db taken_over) later_calls).tasks ≡ some r')
    × Moves over_row r'
run-refines-Moves_example =
    run-refines-Moves later_calls (run empty_db taken_over) "t" over_row (run-empty-Inv taken_over)
      taken_over-row

run-empty-Inv_example : Inv (run empty_db taken_over)
run-empty-Inv_example = run-empty-Inv taken_over

done_was_audited_example :
    IsWorkflow (visited "t" (run empty_db audited).events)
    × (member in_audit (visited "t" (run empty_db audited).events) ≡ true)
    × (member in_lab (visited "t" (run empty_db audited).events) ≡ true)
    × (member in_implement (visited "t" (run empty_db audited).events) ≡ true)
done_was_audited_example = done_was_audited audited "t" done_row audited-row refl

generation_has_one_owner_example :
    (lab_row.claimed_by ≡ over_row.claimed_by) ⊎ (lab_row.claimed_by ≡ none)
generation_has_one_owner_example =
    generation_has_one_owner later_calls (run empty_db taken_over) "t" over_row lab_row
      (run-empty-Inv taken_over) taken_over-row later-row refl

closed_row_frozen_example :
    select row_id "t" (run (run empty_db audited) later_calls).tasks ≡ some done_row
closed_row_frozen_example =
    closed_row_frozen later_calls (run empty_db audited) "t" done_row (run-empty-Inv audited)
      audited-row refl

abbrev waiting : Db
waiting = record {
  tasks =
      new_task "a" "research" "goal" "candidate_research" (pos 1) 1000000
      ∷ new_task "b" "research" "goal" "candidate_research" (pos 9) 2000000
      ∷ [];
  events = [];
}

abbrev served : Option String × Db
served = (
  some "b",
  write_claim (new_task "b" "research" "goal" "candidate_research" (pos 9) 2000000) "w1" 30000000
      3000000 "queue" waiting,
)

claim_next_task-Served_example : Served 3000000 "w1" 30000000 waiting served
unfolding claim_next_task validated_worker_id validated_lease_seconds ◌>>=◌ select update_where
    is_blank first_by_order
claim_next_task-Served_example =
    claim_next_task-Served (str "w1") (int (pos 30)) "w1" 30000000 3000000 waiting served
      (refl, (refl, tt)) refl refl refl
