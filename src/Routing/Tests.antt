-- ===== src/Routing/Tests.antt =====
-- The mission router at concrete inputs: the cheaper provider is external, and is passed over.
use multiverse_research.Prelude.{
  ◌≡◌, refl, String, Bool, true, false, none, some, List, [], ◌∷◌, All, IsIn, elem, string_eq,
}
use multiverse_research.Prelude.Int.{ℤ, pos}
use multiverse_research.Routing.Registry.{
  CapabilityRecord, RoutingRequest, qualifies, place, sorted, eligible, Provider, get_provider,
  executable, first_executable, select,
}
use multiverse_research.Routing.Selection.{select_is_local, select_fails_closed}

abbrev record_of : String → ℤ → CapabilityRecord
record_of name cost = record {
  provider_id = name;
  task_type = "write";
  quality = pos 900000;
  reliability = pos 800000;
  latency_ms = pos 10;
  usage_cost = cost;
  context_limit = pos 1000;
  tool_access = [];
  independence_tags = [];
  recent_failures = pos 0;
  evidence_refs = "e" ∷ [];
  enabled = true;
}

abbrev provider_of : String → Bool → Provider
provider_of name external = record {
  name = name;
  provider_id = name;
  capabilities = "write" ∷ [];
  mode = "SIMULATION";
  external_calls = external;
}

abbrev records : List CapabilityRecord
records = record_of "cheap" (pos 1) ∷ record_of "local" (pos 2) ∷ []

abbrev providers : List Provider
providers = provider_of "cheap" true ∷ provider_of "local" false ∷ []

abbrev request : RoutingRequest
request = record {
  task_type = "write";
  min_quality = pos 500000;
  min_reliability = pos 0;
  max_usage_cost = some (pos 5);
  required_tools = [];
  forbidden_independence_tags = [];
  require_independent_auditor = false;
}

local-selected :
    select (λ _ _. false) (λ _. false) providers records request
    ≡ some (provider_of "local" false, record_of "local" (pos 2))
unfolding select eligible sorted place qualifies first_executable executable get_provider
local-selected = refl

select_is_local_example :
    IsIn (record_of "local" (pos 2)) records
    × (qualifies (λ _. false) request (record_of "local" (pos 2)) ≡ true)
    × (get_provider "local" providers ≡ some (provider_of "local" false))
    × (elem {A = String} "write" ("write" ∷ []) ≡ true)
    × (false ≡ false)
select_is_local_example =
    select_is_local (λ _ _. false) (λ _. false) providers records request
      (provider_of "local" false) (record_of "local" (pos 2)) local-selected

none-selected :
    select (λ _ _. false) (λ _. false) (provider_of "cheap" true ∷ []) records request ≡ none
unfolding select eligible sorted place qualifies first_executable executable get_provider
none-selected = refl

select_fails_closed_example :
    All
      (λ r.
        qualifies (λ _. false) request r ≡ true
        → executable "write" (provider_of "cheap" true ∷ []) r ≡ none)
      records
select_fails_closed_example =
    select_fails_closed (λ _ _. false) (λ _. false) (provider_of "cheap" true ∷ []) records request
      none-selected
