-- ===== src/Engine/Registry.antt =====
-- The domain policy of automation/shared_engine/domain_registry.py, and the projection of the task
-- table in current_state.py.
use multiverse_research.Prelude.{
  ℕ, String, Bool, not, ◌&&◌, Option, List, [], ◌∷◌, ◌++◌, if◌then◌else◌, length, elem, any,
  filterb, ◌==◌, string_eq,
}
use multiverse_research.Engine.States.{
  TaskState, done, rolled_back, owner_gate, blocked_technical, failed_closed, member,
  domain_policy_error, Result, ok, err, ◌>>=◌, ◌>>◌, raise_if,
}
use multiverse_research.Engine.Store.{Task, Db, first_by_order}

pub record DomainProfile : Type 0 where
  pub domain : String
  pub allowed_task_types : List String
  pub denied_capabilities : List String
  pub protected_resources : List String

abbrev pub engine_global_deny : List String
engine_global_deny =
    "canonical_main_mutation" ∷ "runtime_activation" ∷ "production_mutation" ∷ "ruleset_mutation"
    ∷ "secret_or_writer_key" ∷ "live_provider" ∷ "external_effect" ∷ "spend" ∷ []

abbrev pub core_profile : DomainProfile
core_profile = record {
  domain = "core";
  allowed_task_types = "implement" ∷ "research" ∷ "review" ∷ "audit" ∷ "maintenance" ∷ [];
  denied_capabilities = engine_global_deny;
  protected_resources = "canonical_main" ∷ "production_runtime" ∷ "owner_gate_receipts" ∷ [];
}

abbrev candidate_task_types : List String
candidate_task_types =
    "research" ∷ "analysis" ∷ "candidate_implementation" ∷ "review" ∷ "audit" ∷ []

abbrev pub keirin_profile : DomainProfile
keirin_profile = record {
  domain = "keirin";
  allowed_task_types = candidate_task_types;
  denied_capabilities =
      engine_global_deny
      ++ ("result_feature_access" ∷ "payout_feature_access" ∷ "real_money_wagering"
          ∷ "protected_holdout_open" ∷ "same_lineage_rescue" ∷ "model_promotion"
          ∷ "post_race_backfill_into_pre" ∷ []);
  protected_resources =
      "ECON_HOLDOUT1000" ∷ "DEV2000_C_NEW_LINEAGE" ∷ "RESULT" ∷ "PAYOUT" ∷ "untouched_validation"
      ∷ [];
}

abbrev pub generic_research_profile : DomainProfile
generic_research_profile = record {
  domain = "research";
  allowed_task_types = candidate_task_types;
  denied_capabilities = engine_global_deny;
  protected_resources = [];
}

-- `get_profile`
unfoldable pub get_profile : String → Result DomainProfile
get_profile domain =
    if domain == "core"
    then ok core_profile
    else if domain == "keirin"
    then ok keirin_profile
    else if domain == "research"
    then ok generic_research_profile
    else err (domain_policy_error "UNKNOWN_DOMAIN")

-- A requested capability is a name with whether it is enabled.
abbrev pub is_denied : DomainProfile → String × Bool → Bool
is_denied p (capability, enabled) = enabled && elem capability p.denied_capabilities

abbrev pub is_protected : DomainProfile → String → Bool
is_protected p resource = elem resource p.protected_resources

-- `validate_domain_task`
unfoldable pub validate_domain_task :
    String → String → List (String × Bool) → List String → Result DomainProfile
validate_domain_task domain task_type capabilities resources = do
  p ← get_profile domain
  raise_if (not (elem task_type p.allowed_task_types)) (domain_policy_error "TASK_TYPE_DENIED")
  raise_if (any (is_denied p) capabilities) (domain_policy_error "CAPABILITY_DENIED")
  raise_if (any (is_protected p) resources) (domain_policy_error "PROTECTED_RESOURCE_DENIED")
  ok p

pub record DomainCurrent : Type 0 where
  pub domain : String
  pub active_count : ℕ
  pub waiting_count : ℕ
  pub done_count : ℕ
  pub next_task : Option Task

abbrev pub done_states : List TaskState
done_states = done ∷ rolled_back ∷ []

abbrev pub waiting_states : List TaskState
waiting_states = owner_gate ∷ blocked_technical ∷ failed_closed ∷ []

abbrev pub is_active : Task → Bool
is_active t = not (member t.state (done_states ++ waiting_states))

-- The rows of one domain.
abbrev pub of_domain : String → List Task → List Task
of_domain domain = filterb (λ t. t.domain == domain)

-- `domain_current`; the table is read in the order of creation, and the next task is the first of
-- the active ones by priority and creation.
unfoldable pub domain_current : String → Db → Result DomainCurrent
domain_current domain db = do
  _ ← get_profile domain
  let tasks = of_domain domain db.tasks
  ok (record {
    domain = domain;
    active_count = length (filterb is_active tasks);
    waiting_count = length (filterb (λ t. member t.state waiting_states) tasks);
    done_count = length (filterb (λ t. member t.state done_states) tasks);
    next_task = first_by_order (filterb is_active tasks);
  })
