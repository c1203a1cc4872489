-- ===== src/Mission/Tests.antt =====
-- The executor at concrete inputs: a queued task is claimed by a local provider, or fails with it.
use multiverse_research.Prelude.{
  ℕ, ◌≡◌, refl, String, true, false, Option, none, some, [], ◌∷◌, inl, inr,
}
use multiverse_research.Prelude.Int.{pos}
use multiverse_research.Prelude.Table.{select as find, update_where, HasUniqueKeys}
use multiverse_research.Core.Audit.{append_audit, message}
use multiverse_research.Core.Store.{
  Core, CoreTask, task_key, Stamp, new_task, attempt, with_audit, oldest, fetch_next_task,
  record_task_claim, is_provider_enabled,
}
use multiverse_research.Core.Calls.{World}
use multiverse_research.Routing.Registry.{
  CapabilityRecord, RoutingRequest, Provider, select, eligible, sorted, place, qualifies,
  first_executable, executable, get_provider,
}
use multiverse_research.Mission.Executor.{Executor, Stamps, run_task, run_next_task}
use multiverse_research.Mission.Settled.{CanLogFailure, IsSettled, run_next_task-IsSettled}
use multiverse_research.Mission.Claims.{IsClaimed, run_next_task-IsClaimed}

abbrev world : World
world = record {
  trust = record { trusted = λ _. false; signed = λ _ _ _. false };
  digest = record { dumps = λ _. "{}"; sha256 = λ s. s };
  text_lt = λ _ _. false;
}

abbrev local_provider : Provider
local_provider = record {
  name = "local";
  provider_id = "local";
  capabilities = "simulation" ∷ [];
  mode = "SIMULATION";
  external_calls = false;
}

abbrev local_record : CapabilityRecord
local_record = record {
  provider_id = "local";
  task_type = "simulation";
  quality = pos 1000000;
  reliability = pos 1000000;
  latency_ms = pos 0;
  usage_cost = pos 0;
  context_limit = pos 0;
  tool_access = [];
  independence_tags = [];
  recent_failures = pos 0;
  evidence_refs = "e" ∷ [];
  enabled = true;
}

abbrev executor : Executor
executor = record {
  records = local_record ∷ [];
  providers = local_provider ∷ [];
  respond = λ _ _. inr "done";
}

abbrev request : RoutingRequest
request = record {
  task_type = "simulation";
  min_quality = pos 0;
  min_reliability = pos 0;
  max_usage_cost = none;
  required_tools = [];
  forbidden_independence_tags = [];
  require_independent_auditor = false;
}

abbrev stamp : ℕ → String → Stamp
stamp now audit_id = record { now = now; time_text = "now"; audit_id = audit_id }

abbrev stamps : Stamps
stamps = record { fetched = stamp 2 "a2"; claimed = stamp 3 "a3"; failed = stamp 4 "a4" }

abbrev queued_core : Core
queued_core = record {
  tasks = new_task "t" "title" "troop" (pos 10) none "print" 1 ∷ [];
  revenues = [];
  verifications = [];
  controls = [];
  audit_logs = [];
}

queued-claimed : (run_next_task world executor request stamps queued_core).0 ≡ true
unfolding run_next_task run_task fetch_next_task oldest with_audit attempt append_audit message find
    update_where record_task_claim is_provider_enabled select eligible sorted place qualifies
    first_executable executable get_provider
queued-claimed = refl

abbrev fetched : Option CoreTask × Core
fetched = fetch_next_task world.text_lt world.digest stamps.fetched queued_core

run_next_task-IsClaimed_example :
    (task : CoreTask) × (fetched.0 ≡ some task)
    × IsClaimed world executor request task fetched.1
        (run_next_task world executor request stamps queued_core).1
run_next_task-IsClaimed_example =
    run_next_task-IsClaimed world executor request stamps queued_core queued-claimed

-- A provider that fails.
abbrev failing : Executor
failing = record executor { respond = λ _ _. inl "timeout" }

abbrev queued_task : CoreTask
queued_task = new_task "t" "title" "troop" (pos 10) none "print" 1

queued_task-unique : HasUniqueKeys task_key queued_core.tasks
unfolding find
queued_task-unique = (refl, tt)

queued_task-fetched : fetched.0 ≡ some queued_task
unfolding fetch_next_task oldest with_audit attempt append_audit find update_where
queued_task-fetched = refl

failure-logged : CanLogFailure world stamps.failed "t" fetched.1
unfolding fetch_next_task oldest with_audit attempt append_audit message find update_where
failure-logged reason e = cc

run_next_task-IsSettled_example :
    IsSettled "t"
      (run_next_task world failing request stamps queued_core).0
      (run_next_task world failing request stamps queued_core).1
run_next_task-IsSettled_example =
    run_next_task-IsSettled world failing request stamps queued_core queued_task queued_task-unique
      queued_task-fetched failure-logged

failing-answers : (run_next_task world failing request stamps queued_core).0 ≡ false
unfolding run_next_task run_task fetch_next_task oldest with_audit attempt append_audit message find
    update_where is_provider_enabled select eligible sorted place qualifies first_executable
    executable get_provider
failing-answers = refl
