-- ===== src/Engine/Gate.antt =====
-- What the bridge and the harness let through to the task store.
use multiverse_research.Prelude.{
  ℕ, ◌≡◌, ◌≢◌, refl, String, Bool, true, false, Option, none, some, if◌then◌else◌, string_eq, arith,
  sym, ◌∙◌, ap, subst, inl, inr, not-eq-false, some-inj,
}
use multiverse_research.Prelude.Value.{Value, Fields, obj}
use multiverse_research.Prelude.Table.{select, select-update_self, select-key, update_where}
use multiverse_research.Engine.States.{
  TaskState, done, in_audit, state_beq→eq, ok, unbind, unguard, ok-inj, IsErr, Result-cases,
}
use multiverse_research.Engine.Store.{
  Task, Db, Change, row_id, get_task, transition, write_transition, moved,
}
use multiverse_research.Engine.Lease.{or_key_error-eq-ok, found}
use multiverse_research.Prelude.Json.{item}
use multiverse_research.Engine.Bridge.{
  IntegrationBinding, Role, implement, lab, audit, role_of, role_expected_state, is_fix, asks_fix,
  target_of, receipt_change, or_shape_error-eq-ok, or_unknown_task, validate_receipt, apply_receipt,
}
use multiverse_research.Engine.Harness.{
  Engine, World, Clocks, validate_persisted_task, assert_role_precondition, execute_role, run_in,
}

-- What a successful transition leaves in the row.
transition-row :
    (tid : String) (s : TaskState) (c : Change) (now : ℕ) (db : Db) {s' : TaskState} {db' : Db}
    → transition tid s c now db ≡ ok (s', db')
    → (r r' : Task) × (select row_id tid db.tasks ≡ some r)
      × (select row_id tid db'.tasks ≡ some r')
      × (s' ≡ s)
      × (r'.state ≡ s)
      × (r'.claimed_by ≡ (if c.release then none else r.claimed_by))
unfolding transition write_transition
transition-row tid s c now db {s'} {db'} h = unbind _ _ h λ r row h. unguard _ _ _ h λ _ h.
    unguard _ _ _ h λ _ h. unbind _ _ h λ _ _ h. unbind _ _ h λ _ _ h. unbind _ _ h λ _ _ h.
      unbind _ _ h λ _ _ h.
        let at = or_key_error-eq-ok tid (select row_id tid db.tasks) row in
        let f = moved r s c now in
        let written =
          subst (λ k. select row_id k (update_where row_id r.id f db.tasks) ≡ some (f r))
            (select-key row_id tid db.tasks r at)
            (select-update_self row_id r.id f (λ _. refl) db.tasks r (found db tid row)) in
        let e = ok-inj h in
        (
          r,
          f r,
          at,
          subst (λ (d : Db). select row_id tid d.tasks ≡ some (f r)) (ap (λ p. p.1) e) written,
          sym (ap (λ p. p.0) e),
          refl,
          refl,
        )

-- Where a role takes a task to: done is only the end of an audit without a fix.
done_is_audit :
    (role : Role) (fix : Bool) → target_of role fix ≡ done → (role ≡ audit) × (fix ≡ false)
done_is_audit implement fix h = cc
done_is_audit lab true h = cc
done_is_audit lab false h = cc
done_is_audit audit true h = cc
done_is_audit audit false h = (refl, refl)

done_releases :
    (b : IntegrationBinding) (r result : Fields) (role : Role) (fix : Bool)
    (worker generation : Value)
    → target_of role fix ≡ done
    → (receipt_change b r result role fix worker generation).release ≡ true
done_releases b r result implement fix w g h = cc
done_releases b r result lab true w g h = cc
done_releases b r result lab false w g h = cc
done_releases b r result audit true w g h = cc
done_releases b r result audit false w g h = refl

or_unknown_task-eq-ok : (o : Option Task) {r : Task} → or_unknown_task o ≡ ok r → o ≡ some r
or_unknown_task-eq-ok none h = cc
or_unknown_task-eq-ok (some r) h = cc

-- When a receipt that is applied takes a task to done, it is a valid receipt of an audit that asks
-- for no fix, the task was in audit, and afterwards its row is done and has no owner.
pub done_needs_audit_pass :
    (tid : String) (receipt : Value) (b : IntegrationBinding) (worker generation : Value) (now : ℕ)
    (db : Db) (db' : Db)
    → apply_receipt tid receipt b worker generation now db ≡ ok (done, db')
    → (r : Fields) × (result : Fields) × (t t' : Task) × (validate_receipt b receipt ≡ ok r)
      × (role_of (item r "role") ≡ ok audit)
      × (item r "result" ≡ obj result)
      × (is_fix result ≡ false)
      × (select row_id tid db.tasks ≡ some t)
      × (t.state ≡ in_audit)
      × (select row_id tid db'.tasks ≡ some t')
      × (t'.state ≡ done)
      × (t'.claimed_by ≡ none)
unfolding apply_receipt
done_needs_audit_pass tid receipt b worker generation now db db' h = unbind _ _ h λ r valid h.
    unguard _ _ _ h λ _ h. unbind _ _ h λ t at h. unguard _ _ _ h λ _ h.
      unbind _ _ h λ role named h. unguard _ _ _ h λ state h. unbind _ _ h λ result shape h.
        let (u, u', at_u, at', same, moved_to, owner) = transition-row tid _ _ now db h in
        let (is_audit, no_fix) = done_is_audit role (asks_fix role result) (sym same) in
        let here = or_unknown_task-eq-ok (get_task tid db) at in
        (
          r,
          result,
          t,
          u',
          valid,
          named ∙ ap ok is_audit,
          or_shape_error-eq-ok (item r "result") _ shape,
          subst (λ x. asks_fix x result ≡ false) is_audit no_fix,
          here,
          subst (λ x. t.state ≡ role_expected_state x) is_audit
              (state_beq→eq t.state (role_expected_state role) (not-eq-false _ state)),
          at',
          moved_to ∙ sym same,
          rw (done_releases b r result role (asks_fix role result) worker generation (sym same)) at
              owner,
        )

precondition_due :
    (tid name : String) (role : Role) (worker claim_generation : Value) (now : ℕ) (db : Db)
    (t : Task) {task : Task}
    → role_of (Value.str name) ≡ ok role
    → select row_id tid db.tasks ≡ some t
    → t.state ≢ role_expected_state role
    → assert_role_precondition tid name worker claim_generation now db ≡ ok task
    → ⊥
unfolding assert_role_precondition validate_persisted_task
precondition_due tid name role worker claim_generation now db t {task} named at early h =
    unbind _ _ h λ _ _ h. unbind _ _ h λ u row h. unbind _ _ h λ r named' h.
      unguard _ _ _ h λ state h. unbind _ _ row λ v found row. unbind _ _ row λ _ _ row.
        let same_role : role ≡ r = ok-inj (sym named ∙ named') in
        let same_row : t ≡ u =
          some-inj (sym at ∙ or_unknown_task-eq-ok (get_task tid db) found) ∙ ok-inj row in
        early (
          subst (λ x. x.state ≡ role_expected_state role) (sym same_row)
            (subst (λ x. u.state ≡ role_expected_state x) (sym same_role)
              (state_beq→eq u.state (role_expected_state r) (not-eq-false _ state))))

-- Work that is not due, a role for which the task is not in its state, raises before anything is
-- written: no provider receipt, no bridge receipt and no change of the task.
pub execute_role_not_due :
    (e : Engine) (tid : String) (role : Role) (name key : String) (generation : ℕ)
    (worker claim_generation : Value) (result : Fields) (clocks : Clocks) (w : World) (t : Task)
    → role_of (Value.str name) ≡ ok role
    → select row_id tid w.db.tasks ≡ some t
    → t.state ≢ role_expected_state role
    → let (answer, w') =
        execute_role e tid name generation key worker claim_generation result clocks w in
      IsErr answer × (w' ≡ w)
unfolding execute_role
execute_role_not_due e tid role name key generation worker claim_generation result clocks w t named
      at early =
    elim (Result-cases
      (assert_role_precondition tid name worker claim_generation clocks.checked_at w.db)) [
        | inl (e1, stopped) ↦ rw (stopped, run_in) (tt, refl)
        | inr (task, passed) ↦
            absurd (
              precondition_due tid name role worker claim_generation _ w.db t named at early passed)
      ]

-- A role that raises, at whatever step, has not touched the task store.
pub execute_role_err-db :
    (e : Engine) (tid : String) (name key : String) (generation : ℕ)
    (worker claim_generation : Value) (result : Fields) (clocks : Clocks) (w : World)
    → IsErr (execute_role e tid name generation key worker claim_generation result clocks w).0
    → (execute_role e tid name generation key worker claim_generation result clocks w).1.db ≡ w.db
unfolding execute_role
execute_role_err-db e tid name key generation worker claim_generation result clocks w h =
    ground arith
