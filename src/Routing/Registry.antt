-- ===== src/Routing/Registry.antt =====
-- The capability registry and the mission router (config/provider.py, config/router.py). Quality,
-- reliability and cost are exact numbers, in millionths. A dictionary is a list in the order of
-- its keys. An exception is `none`.
use multiverse_research.Prelude.{
  String, Bool, true, false, not, ◌&&◌, ◌||◌, Option, none, some, List, [], ◌∷◌, if◌then◌else◌,
  ◌==◌, string_eq, elem, any, filterb,
}
use multiverse_research.Prelude.Int.{ℤ, pos, ltb_ℤ}
use multiverse_research.Prelude.Text.{is_empty, is_blank}

pub record CapabilityRecord : Type 0 where
  pub provider_id : String
  pub task_type : String
  pub quality : ℤ
  pub reliability : ℤ
  pub latency_ms : ℤ
  pub usage_cost : ℤ
  pub context_limit : ℤ
  pub tool_access : List String
  pub independence_tags : List String
  pub recent_failures : ℤ
  pub evidence_refs : List String
  pub enabled : Bool

abbrev is_unit : ℤ → Bool
is_unit q = not (ltb_ℤ q (pos 0)) && not (ltb_ℤ (pos 1000000) q)

abbrev is_negative : ℤ → Bool
is_negative n = ltb_ℤ n (pos 0)

-- `CapabilityRecord.validate`, as a test.
unfoldable pub validates : CapabilityRecord → Bool
validates r =
    not (is_empty r.provider_id || is_empty r.task_type)
    && is_unit r.quality
    && is_unit r.reliability
    && not (
        is_negative r.latency_ms
        || is_negative r.usage_cost
        || is_negative r.context_limit
        || is_negative r.recent_failures)
    && not (elim r.evidence_refs [ [] ↦ true | _ ∷ _ ↦ false ])
    && not (any is_blank r.evidence_refs)

abbrev same_key : CapabilityRecord → CapabilityRecord → Bool
same_key r s = (r.provider_id == s.provider_id) && (r.task_type == s.task_type)

-- The assignment to a key of the dictionary: in place, or at the end.
unfoldable pub assign : CapabilityRecord → List CapabilityRecord → List CapabilityRecord
assign r [] = r ∷ []
assign r (s ∷ rs) = let rest = assign r rs in if same_key s r then r ∷ rs else s ∷ rest

-- `CapabilityRegistry.register`
unfoldable pub register : CapabilityRecord → List CapabilityRecord → Option (List CapabilityRecord)
register r rs = if validates r then some (assign r rs) else none

pub record RoutingRequest : Type 0 where
  pub task_type : String
  pub min_quality : ℤ
  pub min_reliability : ℤ
  pub max_usage_cost : Option ℤ
  pub required_tools : List String
  pub forbidden_independence_tags : List String
  pub require_independent_auditor : Bool

-- The filters of `CapabilityRegistry.eligible`; `trusted` is membership in
-- `CANONICAL_TRUSTED_VERIFIERS`.
unfoldable pub qualifies : (String → Bool) → RoutingRequest → CapabilityRecord → Bool
qualifies trusted q r =
    r.enabled
    && (r.task_type == q.task_type)
    && not (ltb_ℤ r.quality q.min_quality || ltb_ℤ r.reliability q.min_reliability)
    && (elim q.max_usage_cost [ none ↦ true | some cost ↦ not (ltb_ℤ cost r.usage_cost) ])
    && not (any (λ tool. not (elem tool r.tool_access)) q.required_tools)
    && not (any (λ tag. elem tag r.independence_tags) q.forbidden_independence_tags)
    && not (q.require_independent_auditor && not (trusted r.provider_id))

-- The comparison of two components of the sort key, with what follows where they are equal.
abbrev then_by : ℤ → ℤ → Bool → Bool
then_by a b rest = if ltb_ℤ a b then true else if ltb_ℤ b a then false else rest

-- Whether one sort key is less than another: cost, failures, reliability and quality (falling),
-- latency, provider.
abbrev pub precedes : (String → String → Bool) → CapabilityRecord → CapabilityRecord → Bool
precedes text_lt r s = then_by r.usage_cost s.usage_cost (
    then_by r.recent_failures s.recent_failures (
      then_by s.reliability r.reliability (
        then_by s.quality r.quality
          (then_by r.latency_ms s.latency_ms (text_lt r.provider_id s.provider_id)))))

unfoldable pub place :
    (String → String → Bool) → CapabilityRecord → List CapabilityRecord → List CapabilityRecord
place text_lt r [] = r ∷ []
place text_lt r (s ∷ rs) =
    let rest = place text_lt r rs in if precedes text_lt s r then s ∷ rest else r ∷ s ∷ rs

-- `sorted`, which is stable.
unfoldable pub sorted : (String → String → Bool) → List CapabilityRecord → List CapabilityRecord
sorted text_lt [] = []
sorted text_lt (r ∷ rs) = place text_lt r (sorted text_lt rs)

-- `CapabilityRegistry.eligible`
unfoldable pub eligible :
    (String → String → Bool)
    → (String → Bool)
    → RoutingRequest
    → List CapabilityRecord
    → List CapabilityRecord
eligible text_lt trusted q rs = sorted text_lt (filterb (qualifies trusted q) rs)

-- `ProviderCapabilities`, under the name that the provider is registered by.
pub record Provider : Type 0 where
  pub name : String
  pub provider_id : String
  pub capabilities : List String
  pub mode : String
  pub external_calls : Bool

-- `ProviderRegistry.get_provider`
unfoldable pub get_provider : String → List Provider → Option Provider
get_provider name [] = none
get_provider name (p ∷ ps) =
    let rest = get_provider name ps in if p.name == name then some p else rest

-- `ProviderRegistry.eligible_providers`
unfoldable pub eligible_providers : String → Bool → List Provider → List Provider
eligible_providers capability allow_external ps =
    filterb (λ p. elem capability p.capabilities && (allow_external || not p.external_calls)) ps

-- The provider that may run a record's task.
unfoldable pub executable : String → List Provider → CapabilityRecord → Option Provider
executable task ps r = elim (get_provider r.provider_id ps) [
  | none ↦ none
  | some p ↦
      if not (elem task p.capabilities) then none else if p.external_calls then none else some p
]

-- The loop of `MissionRouter.select`.
unfoldable pub first_executable :
    String → List Provider → List CapabilityRecord → Option (Provider × CapabilityRecord)
first_executable task ps [] = none
first_executable task ps (r ∷ rs) =
    let rest = first_executable task ps rs in
    elim (executable task ps r) [ none ↦ rest | some p ↦ some (p, r) ]

-- `MissionRouter.select`
unfoldable pub select :
    (String → String → Bool)
    → (String → Bool)
    → List Provider
    → List CapabilityRecord
    → RoutingRequest
    → Option (Provider × CapabilityRecord)
select text_lt trusted ps rs q = first_executable q.task_type ps (eligible text_lt trusted q rs)
