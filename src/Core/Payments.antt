-- ===== src/Core/Payments.antt =====
-- The verification and payment of a task (core_state.py), and what holds after any history of calls.
use multiverse_research.Prelude.{
  ◌≡◌, refl, String, true, false, not, ◌||◌, none, some, List, [], ◌∷◌, arith, inl, inr, Bool-cases,
  Option-cases, sym, subst, All, All-append, All-map, ◌==◌, string_eq, some-inj, any,
}
use multiverse_research.Prelude.Value.{Fields}
use multiverse_research.Prelude.Int.{ℤ, pos, ltb_ℤ}
use multiverse_research.Prelude.Table.{
  select, HasUniqueKeys, append-HasUniqueKeys, select-update_self, select-key, All-select,
}
use multiverse_research.Core.Audit.{verify_audit_chain}
use multiverse_research.Core.Store.{
  verified, closed, status_beq, CoreTask, Revenue, Verification, Core, Stamp, task_key,
  verification_key, revenue_key, has_status, rewrite_task, insert_revenue, is_payable, close,
  realize_revenue_and_close, disable_provider, log_audit,
}
use multiverse_research.Core.Calls.{
  World, Call, adds, fetches, fails, reports, verifies, realizes, disables, logs, step, run,
  empty_core, kept,
}
use multiverse_research.Core.Backing.{
  IsExternal, IsBacked, Inv, empty-Inv, has_status-row, row-has_status, with_audit-Inv, attempt-Inv,
  rewrite-Inv,
}
use multiverse_research.Core.Upkeep.{
  no_revenue, add_task-Inv, fetch_next_task-Inv, mark_task_failed-Inv, record_task_claim-Inv,
}
use multiverse_research.Core.Verifying.{apply_verification_receipt-Inv}

module _ (w : World) (s : Stamp) where
  -- A verified task is closed.
  close-Inv :
      (tid : String) (c : Core)
      → has_status tid verified c ≡ true
      → Inv w c
      → Inv w (rewrite_task tid (close s.now) c)
        × (has_status tid closed (rewrite_task tid (close s.now) c) ≡ true)
  close-Inv tid c p v =
      let (t, found, here) = has_status-row tid verified c p in
      let own = select-key task_key tid c.tasks t found in
      let found' = subst (λ j. select task_key j c.tasks ≡ some t) (sym own) found in
      let (n, at, ext) =
        All-select task_key (IsBacked w c.verifications) tid c.tasks t v.backed found
          (ground arith) in
      (
        subst (λ j. Inv w (rewrite_task j (close s.now) c)) own
            (rewrite-Inv w c t (close s.now) (λ u. refl) found' (ground arith)
              (λ _. (
                n,
                at,
                record { trusted = ext.trusted; external = ext.external; signed = ext.signed },
              ))
              v),
        row-has_status tid closed (rewrite_task tid (close s.now) c) (close s.now t)
            (select-update_self task_key tid (close s.now) (λ u. refl) c.tasks t found) refl,
      )

  -- A closed task that has no revenue is paid.
  pay-Inv :
      (rid tid : String) (amount : ℤ) (rs : List Revenue) (c : Core)
      → has_status tid closed c ≡ true
      → insert_revenue rid amount tid s.now c.revenues ≡ some rs
      → Inv w c
      → Inv w (record c { revenues = rs })
  unfolding insert_revenue
  pay-Inv rid tid amount rs c p e v =
      let row : Revenue = record {
        id = rid;
        amount = amount;
        source_task_id = tid;
        timestamp = s.now;
      } in
      elim (Bool-cases (ltb_ℤ (pos 0) amount)) [
        | inr low ↦
            subst (λ x. Inv w (record c { revenues = x }))
              (some-inj (rw (insert_revenue, low) at e)) v
        | inl high ↦
            elim (Bool-cases (any (λ r. r.id == rid || r.source_task_id == tid) c.revenues)) [
              | inl clash ↦ cc (rw (insert_revenue, high, clash) at e)
              | inr fresh ↦
                  subst (λ x. Inv w (record c { revenues = x }))
                    (some-inj (rw (insert_revenue, high, fresh) at e))
                    (record {
                      unique = v.unique;
                      backed = v.backed;
                      paid = All-append _ c.revenues (row ∷ []) v.paid (p, tt);
                      paid_once =
                          append-HasUniqueKeys revenue_key c.revenues row v.paid_once
                            (no_revenue rid tid c.revenues fresh);
                      chained = v.chained;
                    })
            ]
      ]

  realize_revenue_and_close-Inv :
      (rid tid : String) (amount : ℤ) (c : Core)
      → Inv w c
      → Inv w (realize_revenue_and_close w.digest s rid tid amount c).1
  unfolding realize_revenue_and_close
  realize_revenue_and_close-Inv rid tid amount c v =
      elim (Bool-cases (ltb_ℤ amount (pos 0) || not (is_payable tid c))) [
        | inl e ↦ rw (e, realize_revenue_and_close) v
        | inr e ↦
            let verified_here : has_status tid verified c ≡ true = ground arith in
            let (done, here) = close-Inv tid c verified_here v in
            elim (Option-cases (insert_revenue rid amount tid s.now c.revenues)) [
              | inl e' ↦
                  rw (e, realize_revenue_and_close, e') (attempt-Inv w false c none v λ r h. cc)
              | inr (rs, e') ↦
                  rw (e, realize_revenue_and_close, e')
                    (attempt-Inv w false c _ v λ r h.
                      with_audit-Inv w s _ _ _ _ r h
                        (pay-Inv rid tid amount rs (rewrite_task tid (close s.now) c) here e' done))
            ]
      ]

  disable_provider-Inv :
      (provider reason : String) (c : Core)
      → Inv w c
      → Inv w (kept c (disable_provider w.digest s provider reason c))
  unfolding disable_provider
  disable_provider-Inv provider reason c v =
      elim (Option-cases (disable_provider w.digest s provider reason c)) [
        | inl e ↦ rw e v
        | inr (r, e) ↦ rw e (
            with_audit-Inv w s _ _ tt _ r e (record {
              unique = v.unique;
              backed = v.backed;
              paid = v.paid;
              paid_once = v.paid_once;
              chained = v.chained;
            }))
      ]

log_audit-Inv :
    (w : World) (s : Stamp) (event : String) (payload : Fields) (c : Core)
    → Inv w c
    → Inv w (kept c (log_audit w.digest s event payload c))
unfolding log_audit
log_audit-Inv w s event payload c v = elim (Option-cases (log_audit w.digest s event payload c)) [
  | inl e ↦ rw e v
  | inr (r, e) ↦ rw e (with_audit-Inv w s event payload tt c r e v)
]

step-Inv : (w : World) (c : Core) (x : Stamp × Call) → Inv w c → Inv w (step w c x)
unfolding step
step-Inv w c (s, adds tid title troop revenue key) v =
    add_task-Inv w s tid title troop revenue key c v
step-Inv w c (s, fetches) v = fetch_next_task-Inv w s c v
step-Inv w c (s, fails tid reason) v = mark_task_failed-Inv w s tid reason c v
step-Inv w c (s, reports tid result provider) v = record_task_claim-Inv w s tid result provider c v
step-Inv w c (s, verifies tid r) v = apply_verification_receipt-Inv w s tid r c v
step-Inv w c (s, realizes rid tid amount) v = realize_revenue_and_close-Inv w s rid tid amount c v
step-Inv w c (s, logs event payload) v = log_audit-Inv w s event payload c v
step-Inv w c (s, disables provider reason) v = disable_provider-Inv w s provider reason c v

run-Inv : (w : World) (xs : List (Stamp × Call)) (c : Core) → Inv w c → Inv w (run w c xs)
unfolding run
run-Inv w [] c v = v
run-Inv w (x ∷ xs) c v = run-Inv w xs (step w c x) (step-Inv w c x v)

-- After any history of calls on empty tables, each revenue row has a closed task, and that task has
-- a verification by a trusted verifier who is not the provider of its result and whose signature
-- covers the acceptance of this task with this evidence.
pub revenue_is_verified :
    (w : World) (xs : List (Stamp × Call))
    → All
        (λ r.
          (t : CoreTask) × (v : Verification) × (select task_key r.source_task_id
              (run w empty_core xs).tasks
            ≡ some t)
          × (status_beq t.status closed ≡ true)
          × (select verification_key t.id (run w empty_core xs).verifications ≡ some v)
          × IsExternal w t v)
        (run w empty_core xs).revenues
revenue_is_verified w xs =
    let c = run w empty_core xs in
    let v = run-Inv w xs empty_core (empty-Inv w) in
    All-map _ _ c.revenues
      (λ r h.
        let (t, found, here) = has_status-row r.source_task_id closed c h in
        let (n, at, ext) =
          All-select task_key (IsBacked w c.verifications) r.source_task_id c.tasks t v.backed found
            (ground arith) in
        (t, n, found, here, at, ext))
      v.paid

-- After any history of calls on empty tables no task is paid twice, and the audit log verifies.
pub paid_once_and_audited :
    (w : World) (xs : List (Stamp × Call))
    → HasUniqueKeys revenue_key (run w empty_core xs).revenues
      × (verify_audit_chain w.digest (run w empty_core xs).audit_logs ≡ true)
paid_once_and_audited w xs =
    let v = run-Inv w xs empty_core (empty-Inv w) in (v.paid_once, v.chained)
