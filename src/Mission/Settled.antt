-- ===== src/Mission/Settled.antt =====
-- No run of the executor (config/executor.py) leaves the task that it fetched running.
use multiverse_research.Prelude.{
  ◌≡◌, ◌≢◌, refl, subst, String, Bool, true, false, none, some, inl, inr, ◌⊎◌, Bool-cases,
  Option-cases, Sum-cases, some-inj, All-filterb, filterb, arith,
}
use multiverse_research.Prelude.Value.{str, obj, end, field}
use multiverse_research.Prelude.Table.{
  select, select-update_self, select_own, update_where, HasUniqueKeys,
}
use multiverse_research.Core.Audit.{append_audit}
use multiverse_research.Core.Store.{
  Core, CoreTask, Stamp, task_key, attempt, with_audit, has_status, running, failed,
  success_claimed, oldest, is_queued, start, fetch_next_task, mark_task_failed, record_task_claim,
  is_provider_enabled,
}
use multiverse_research.Core.Calls.{World}
use multiverse_research.Core.Backing.{has_status-row, row-has_status}
use multiverse_research.Core.Upkeep.{oldest-All}
use multiverse_research.Routing.Registry.{RoutingRequest, select as route}
use multiverse_research.Mission.Executor.{Executor, Stamps, run_task, run_next_task}
use multiverse_research.Mission.Claims.{record_task_claim-row}

-- The audit log takes the entry of a failure of the task, whatever the reason.
abbrev pub CanLogFailure : World → Stamp → String → Core → Type 0
CanLogFailure w s tid c =
    (reason : String)
    → append_audit w.digest s.audit_id s.time_text "TASK_FAILED"
        (w.digest.dumps (obj (field "task_id" (str tid) (field "reason" (str reason) end))))
        c.audit_logs
      ≢ none

-- How a run that answers so leaves a task.
abbrev pub IsSettled : String → Bool → Core → Type 0
IsSettled tid answer after =
    (t : CoreTask) × (select task_key tid after.tasks ≡ some t)
    × (((answer ≡ true) × (t.status ≡ success_claimed)) ⊎ ((answer ≡ false) × (t.status ≡ failed)))

module _ (w : World) (s : Stamp) where
  fetched_running :
      (task : CoreTask) (c : Core)
      → HasUniqueKeys task_key c.tasks
      → (fetch_next_task w.text_lt w.digest s c).0 ≡ some task
      → has_status task.id running (fetch_next_task w.text_lt w.digest s c).1 ≡ true
  unfolding fetch_next_task attempt with_audit
  fetched_running task c u h = elim (Option-cases (oldest w.text_lt (filterb is_queued c.tasks))) [
    | inl e ↦ cc (rw (e, fetch_next_task) at h)
    | inr (t, e) ↦
        let (found, here) =
          oldest-All w.text_lt _ _ t
            (All-filterb _ is_queued c.tasks (select_own task_key c.tasks u)) e in
        elim (Option-cases (
          append_audit w.digest s.audit_id s.time_text "TASK_STARTED"
            (w.digest.dumps (obj (field "task_id" (str t.id) end))) c.audit_logs)) [
              | inl refused ↦ cc (rw (e, fetch_next_task, refused, attempt, with_audit) at h)
              | inr (log, kept) ↦
                  let same : t ≡ task =
                    some-inj (rw (e, fetch_next_task, kept, attempt, with_audit) at h) in
                  let after : Core = record c {
                    tasks = update_where task_key t.id (start s.now) c.tasks;
                    audit_logs = log;
                  } in
                  rw (e, fetch_next_task, kept, attempt, with_audit)
                    (subst (λ (x : CoreTask). has_status x.id running after ≡ true) same
                      (row-has_status t.id running after (start s.now t)
                        (select-update_self task_key t.id (start s.now) (λ v. refl) c.tasks t found)
                        refl))
            ]
  ]

  failed-row :
      (tid reason : String) (c : Core)
      → has_status tid running c ≡ true
      → CanLogFailure w s tid c
      → IsSettled tid false (mark_task_failed w.digest s tid reason c).1
  unfolding mark_task_failed attempt with_audit
  failed-row tid reason c on logs =
      let (t, found, here) = has_status-row tid running c on in
      elim (Option-cases (
        append_audit w.digest s.audit_id s.time_text "TASK_FAILED"
          (w.digest.dumps (obj (field "task_id" (str tid) (field "reason" (str reason) end))))
          c.audit_logs)) [
            | inl refused ↦ absurd (logs reason refused)
            | inr (log, kept) ↦
                rw (on, mark_task_failed, kept, attempt, with_audit)
                  (
                    record t { status = failed; updated_at = s.now },
                    select-update_self task_key tid _ (λ v. refl) c.tasks t found,
                    inr (refl, refl),
                  )
          ]

  -- A claim that is not recorded changes nothing.
  refused_claim :
      (tid result provider : String) (c : Core)
      → (record_task_claim w.digest s tid result provider c).0 ≡ false
      → (record_task_claim w.digest s tid result provider c).1 ≡ c
  unfolding record_task_claim attempt with_audit
  refused_claim tid result provider c h = ground arith

module _ (w : World) (e : Executor) (q : RoutingRequest) (s : Stamps) where
  run_task-IsSettled :
      (task : CoreTask) (c : Core)
      → has_status task.id running c ≡ true
      → CanLogFailure w s.failed task.id c
      → IsSettled task.id (run_task w e q s task c).0 (run_task w e q s task c).1
  unfolding run_task
  run_task-IsSettled task c at logs =
      let given_up = λ (reason : String). failed-row w s.failed task.id reason c at logs in
      elim (Option-cases (route w.text_lt w.trust.trusted e.providers e.records q)) [
        | inl none_found ↦ rw (none_found, run_task) (given_up _)
        | inr ((p, r), found) ↦ elim (Bool-cases (is_provider_enabled p.provider_id c)) [
          | inr off ↦ rw (found, run_task, off) (given_up _)
          | inl on ↦ elim (Sum-cases (e.respond p task.title)) [
            | inl (error, answer) ↦ rw (found, run_task, on, answer) (given_up error)
            | inr (result, answer) ↦
                elim (Bool-cases
                  (record_task_claim w.digest s.claimed task.id result p.provider_id c).0) [
                    | inr lost ↦
                        rw
                          (
                            found,
                            run_task,
                            on,
                            answer,
                            lost,
                            refused_claim w s.claimed task.id result p.provider_id c lost,
                          )
                          (given_up _)
                    | inl kept ↦
                        let (t, row, state, _, _) =
                          record_task_claim-row w.digest s.claimed task.id result p.provider_id c
                            kept in
                        rw (found, run_task, on, answer, kept) (t, row, inl (refl, state))
                  ]
          ]
        ]
      ]

  -- A run of the executor that fetches a task settles it, if task ids are unique and the audit log
  -- takes the entry of a failure: behind a run that answers true the task has a claimed result, and
  -- behind one that answers false, for whatever reason, it has failed.
  pub run_next_task-IsSettled :
      (c : Core) (task : CoreTask)
      → HasUniqueKeys task_key c.tasks
      → (fetch_next_task w.text_lt w.digest s.fetched c).0 ≡ some task
      → CanLogFailure w s.failed task.id (fetch_next_task w.text_lt w.digest s.fetched c).1
      → IsSettled task.id (run_next_task w e q s c).0 (run_next_task w e q s c).1
  unfolding run_next_task
  run_next_task-IsSettled c task u found logs =
      rw (found, run_next_task)
        (run_task-IsSettled task _ (fetched_running w s.fetched task c u found) logs)
