-- ===== src/Engine/RunTests.antt =====
-- The whole path of a task at a concrete input.
use multiverse_research.Prelude.{ℕ, ◌≡◌, refl, [], ◌∷◌}
use multiverse_research.Prelude.Int.{pos}
use multiverse_research.Prelude.Text.{has_prefix, is_hex_text, is_blank}
use multiverse_research.Prelude.Table.{select, update_where}
use multiverse_research.Prelude.Value.{null, equals}
use multiverse_research.Engine.States.{
  done, ok, ◌>>=◌, validated_worker_id, validated_generation, validated_lease_seconds,
}
use multiverse_research.Engine.Store.{
  empty_db, create_task, check_fence, assert_unexpired_fence, claim_task, write_claim, transition,
  write_transition,
}
use multiverse_research.Engine.Calls.{Call, run, step}
use multiverse_research.Engine.Registry.{validate_domain_task, get_profile}
use multiverse_research.Engine.Bridge.{
  validate_binding, role_of, validate_receipt, validate_result, check_bound, record_valid,
  record_receipt, apply_receipt,
}
use multiverse_research.Engine.Provider.{
  provider_adapter_id, provider_request_from_job, execute, validate_result_for_request,
  execute_local_once,
}
use multiverse_research.Engine.Harness.{
  Engine, World, Clocks, job_of, v7_head, canonical_main_head, check_v7_result,
  v7_result_to_bridge_receipt, validate_persisted_task, claim_and_start, assert_role_precondition,
  execute_role,
}
use multiverse_research.Engine.Run.{PathClocks, run_happy_path}
use multiverse_research.Engine.BridgeTests.{sha}

abbrev engine : Engine
engine = record {
  codec = record { dumps = λ _. "the value"; loads = λ _. null; sha256 = λ s. s };
  binding = record {
    canonical_main = canonical_main_head;
    candidate_branch = "agent/one";
    candidate_head = sha;
    provider_adapter_head = v7_head;
  };
  manifest = record {
    adapter_id = provider_adapter_id;
    adapter_kind = "local";
    canonical_main = canonical_main_head;
  };
}

abbrev world : World
world = record {
  db =
      run empty_db
        ((1000000, Call.creates "t" "research" "goal" "candidate_implementation" (pos 5)) ∷ []);
  bridge_receipts = [];
  provider = record { receipts = []; executions = [] };
}

abbrev clocks_at : ℕ → Clocks
clocks_at t = record { checked_at = t; provider_at = t; recorded_at = t; applied_at = t }

abbrev clocks : PathClocks
clocks = record {
  claimed_at = 2000000;
  started_at = 3000000;
  implement = clocks_at 4000000;
  lab = clocks_at 5000000;
  audit = clocks_at 6000000;
}

happy_path-done : (run_happy_path engine "t" "w1" clocks world).0 ≡ ok done
unfolding run_happy_path claim_and_start execute_role assert_role_precondition
    assert_unexpired_fence validate_persisted_task validate_domain_task get_profile check_v7_result
    v7_result_to_bridge_receipt provider_request_from_job execute validate_result_for_request
    execute_local_once record_receipt record_valid apply_receipt validate_receipt validate_binding
    validate_result check_bound role_of is_hex_text has_prefix is_blank equals ◌>>=◌ select
    update_where run step create_task claim_task write_claim transition write_transition check_fence
    validated_worker_id validated_generation validated_lease_seconds job_of
happy_path-done = refl
