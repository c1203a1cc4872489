-- ===== src/Mission/Executor.antt =====
-- `TaskExecutor.run_next_task` (config/executor.py) and `MissionPacket.validate`
-- (config/mission_packet.py). A provider's answer is a parameter: a text, or the text of an error.
use multiverse_research.Prelude.{
  String, Bool, true, false, not, ◌&&◌, none, some, List, [], ◌∷◌, if◌then◌else◌, ◌⊎◌, inl, inr,
}
use multiverse_research.Prelude.Text.{is_blank}
use multiverse_research.Core.Store.{
  Core, CoreTask, Stamp, fetch_next_task, mark_task_failed, record_task_claim, is_provider_enabled,
}
use multiverse_research.Core.Calls.{World}
use multiverse_research.Routing.Registry.{CapabilityRecord, RoutingRequest, Provider, select}

-- The router's registries, the trusted verifiers among its providers, and what a provider answers to
-- a title.
pub record Executor : Type 0 where
  pub records : List CapabilityRecord
  pub providers : List Provider
  pub respond : Provider → String → String ⊎ String

-- What the calls of one run draw from outside.
pub record Stamps : Type 0 where
  pub fetched : Stamp
  pub claimed : Stamp
  pub failed : Stamp

-- `mark_task_failed`, with the answer of a run that fails.
abbrev pub give_up : World → Stamps → String → String → Core → Bool × Core
give_up w s tid reason c = (false, (mark_task_failed w.digest s.failed tid reason c).1)

-- The claim of a result, which fails the task if it is not recorded.
abbrev pub claim_result : World → Stamps → String → String → String → Core → Bool × Core
claim_result w s tid result provider c =
    let (recorded, c') = record_task_claim w.digest s.claimed tid result provider c in
    if recorded then (true, c') else give_up w s tid "Result claim could not be recorded." c'

-- What happens to a task that was fetched.
unfoldable pub run_task : World → Executor → RoutingRequest → Stamps → CoreTask → Core → Bool × Core
run_task w e q s task c = elim (select w.text_lt w.trust.trusted e.providers e.records q) [
  | none ↦ give_up w s task.id "No eligible executable provider; routing fails closed" c
  | some (provider, record_) ↦
      if not (is_provider_enabled provider.provider_id c)
      then give_up w s task.id "Provider is disabled by fail-closed control." c
      else elim (e.respond provider task.title) [
        | inl error ↦ give_up w s task.id error c
        | inr result ↦ claim_result w s task.id result provider.provider_id c
      ]
]

-- `run_next_task`
unfoldable pub run_next_task : World → Executor → RoutingRequest → Stamps → Core → Bool × Core
run_next_task w e q s c =
    let (fetched, c') = fetch_next_task w.text_lt w.digest s.fetched c in
    elim fetched [ none ↦ (false, c') | some task ↦ run_task w e q s task c' ]

-- The fields of `MissionPacket` that are checked.
pub record MissionPacket : Type 0 where
  pub mission_id : String
  pub objective : String
  pub prohibited_actions : List String
  pub required_evidence : List String
  pub completion_condition : String
  pub stop_conditions : List String

abbrev is_listed : List String → Bool
is_listed [] = false
is_listed (_ ∷ _) = true

-- `MissionPacket.validate`, as a test.
unfoldable pub packet_validates : MissionPacket → Bool
packet_validates m =
    not (is_blank m.mission_id)
    && not (is_blank m.objective)
    && not (is_blank m.completion_condition)
    && is_listed m.required_evidence
    && is_listed m.stop_conditions
    && is_listed m.prohibited_actions
