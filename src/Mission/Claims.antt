-- ===== src/Mission/Claims.antt =====
-- What one run of the executor (config/executor.py) does to the core state.
use multiverse_research.Prelude.{
  ◌≡◌, refl, String, true, false, some, inl, inr, Bool-cases, Option-cases, Sum-cases, IsIn, elem,
  string_eq,
}
use multiverse_research.Prelude.Value.{Fields, obj}
use multiverse_research.Prelude.Table.{select, select-update_self}
use multiverse_research.Core.Audit.{Digest, append_audit}
use multiverse_research.Core.Store.{
  Core, CoreTask, Stamp, task_key, attempt, with_audit, has_status, running, success_claimed,
  fetch_next_task, record_task_claim, is_provider_enabled,
}
use multiverse_research.Core.Calls.{World}
use multiverse_research.Core.Backing.{has_status-row}
use multiverse_research.Routing.Registry.{
  CapabilityRecord, RoutingRequest, Provider, get_provider, qualifies, select as route,
}
use multiverse_research.Routing.Selection.{select_is_local}
use multiverse_research.Mission.Executor.{Executor, Stamps, run_task, run_next_task}

-- A transaction that answers true is committed: its tables are those before the audit entry.
committed :
    (d : Digest) (s : Stamp) (event : String) (payload : Fields) (c c' : Core)
    → (attempt false c (with_audit d s event payload true c')).0 ≡ true
    → (attempt false c (with_audit d s event payload true c')).1.tasks ≡ c'.tasks
unfolding attempt with_audit
committed d s event payload c c' h =
    elim (Option-cases
      (append_audit d s.audit_id s.time_text event (d.dumps (obj payload)) c'.audit_logs)) [
        | inl refused ↦ cc (rw (refused, attempt, with_audit) at h)
        | inr (log, kept) ↦ rw (kept, attempt, with_audit) refl
      ]

-- A claim that is recorded leaves its task waiting for a verification of its result, under its
-- provider.
pub record_task_claim-row :
    (d : Digest) (s : Stamp) (tid result provider : String) (c : Core)
    → (record_task_claim d s tid result provider c).0 ≡ true
    → (t : CoreTask) × (select task_key tid (record_task_claim d s tid result provider c).1.tasks
        ≡ some t)
      × (t.status ≡ success_claimed)
      × (t.result ≡ some result)
      × (t.result_provider ≡ some provider)
unfolding record_task_claim
record_task_claim-row d s tid result provider c h = elim (Bool-cases (has_status tid running c)) [
  | inr off ↦ cc (rw (off, record_task_claim) at h)
  | inl on ↦
      let (t, found, here) = has_status-row tid running c on in
      let f : CoreTask → CoreTask = λ u. record u {
        status = success_claimed;
        result = some result;
        result_provider = some provider;
        updated_at = s.now;
      } in
      (
        f t,
        rw (on, record_task_claim, committed d s _ _ c _ (rw (on, record_task_claim) at h))
            (select-update_self task_key tid f (λ u. refl) c.tasks t found),
        refl,
        refl,
        refl,
      )
]

-- A task waits for the verification of what a provider answered to its title. The provider is the
-- one that is registered under the name in a record that passes the request's filters, is enabled,
-- has the capability and makes no external calls.
abbrev pub IsClaimed : World → Executor → RoutingRequest → CoreTask → Core → Core → Type 0
IsClaimed w e q task before after =
    (t : CoreTask) × (p : Provider) × (r : CapabilityRecord) × (result : String) × (select task_key
        task.id after.tasks
      ≡ some t)
    × (t.status ≡ success_claimed)
    × (t.result ≡ some result)
    × (t.result_provider ≡ some p.provider_id)
    × (e.respond p task.title ≡ inr result)
    × (is_provider_enabled p.provider_id before ≡ true)
    × IsIn r e.records
    × (qualifies w.trust.trusted q r ≡ true)
    × (get_provider r.provider_id e.providers ≡ some p)
    × (elem q.task_type p.capabilities ≡ true)
    × (p.external_calls ≡ false)

module _ (w : World) (e : Executor) (q : RoutingRequest) (s : Stamps) where
  run_task-IsClaimed :
      (task : CoreTask) (c : Core)
      → (run_task w e q s task c).0 ≡ true
      → IsClaimed w e q task c (run_task w e q s task c).1
  unfolding run_task
  run_task-IsClaimed task c h =
      elim (Option-cases (route w.text_lt w.trust.trusted e.providers e.records q)) [
        | inl none_found ↦ cc (rw (none_found, run_task) at h)
        | inr ((p, r), found) ↦
            let (known, fit, named, able, local) = select_is_local _ _ _ _ q p r found in
            elim (Bool-cases (is_provider_enabled p.provider_id c)) [
              | inr off ↦ cc (rw (found, run_task, off) at h)
              | inl on ↦ elim (Sum-cases (e.respond p task.title)) [
                | inl (error, answer) ↦ cc (rw (found, run_task, on, answer) at h)
                | inr (result, answer) ↦
                    elim (Bool-cases
                      (record_task_claim w.digest s.claimed task.id result p.provider_id c).0) [
                        | inr lost ↦ cc (rw (found, run_task, on, answer, lost) at h)
                        | inl kept ↦
                            let (t, row, state, text, owner) =
                              record_task_claim-row w.digest s.claimed task.id result p.provider_id
                                c kept in
                            rw (found, run_task, on, answer, kept)
                              (
                                t, p, r, result, row, state, text, owner, answer, on, known, fit,
                                named, able, local,
                              )
                      ]
              ]
            ]
      ]

  -- A run of the executor that answers true has fetched a task and left it with a result that is
  -- only claimed, never verified: what the provider answered to the title of this task. The provider
  -- is registered under the name in a registered record that passes the filters of the request, was
  -- enabled when the task was fetched, has the capability and makes no external calls.
  pub run_next_task-IsClaimed :
      (c : Core)
      → (run_next_task w e q s c).0 ≡ true
      → let (fetched, before) = fetch_next_task w.text_lt w.digest s.fetched c in
        (task : CoreTask) × (fetched ≡ some task)
        × IsClaimed w e q task before (run_next_task w e q s c).1
  unfolding run_next_task
  run_next_task-IsClaimed c h =
      elim (Option-cases (fetch_next_task w.text_lt w.digest s.fetched c).0) [
        | inl empty ↦ cc (rw (empty, run_next_task) at h)
        | inr (task, found) ↦ (
          task,
          found,
          rw (found, run_next_task) (run_task-IsClaimed task _ (rw (found, run_next_task) at h)),
        )
      ]
