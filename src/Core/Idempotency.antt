-- ===== src/Core/Idempotency.antt =====
-- The idempotency key of `add_task` (core_state.py).
use multiverse_research.Prelude.{
  ◌≡◌, refl, String, true, false, not, ◌||◌, Option, none, some, List, [], ◌∷◌, ◌++◌, arith, inl,
  inr, Bool-cases, Option-cases, some-inj, str_eq_refl, ◌==◌, string_eq, ap, sym, subst, ◌∙◌,
  eq_iff,
}
use multiverse_research.Prelude.Int.{ℤ}
use multiverse_research.Prelude.Value.{Fields, obj}
use multiverse_research.Prelude.Text.{is_empty}
use multiverse_research.Prelude.Table.{select}
use multiverse_research.Core.Audit.{Digest, append_audit}
use multiverse_research.Core.Store.{
  Core, CoreTask, Stamp, task_key, attempt, with_audit, no_key, key_is, by_idempotency_key,
  request_fingerprint, new_task, insert_task, add_task,
}

by_key-append :
    (k : Option String) (ts : List CoreTask) (t : CoreTask)
    → by_idempotency_key k ts ≡ none
    → key_is t.idempotency_key k ≡ true
    → by_idempotency_key k (ts ++ t ∷ []) ≡ some t
unfolding by_idempotency_key
by_key-append k [] t e own = rw own refl
by_key-append k (u ∷ us) t e own = ground (arith, by_key-append k us t)

own_key : (k : Option String) → no_key k ≡ false → key_is k k ≡ true
own_key none h = cc
own_key (some s) h = str_eq_refl s

-- A transaction with an audit entry that has an answer.
audited-tasks {ℓ} :
    {A : Type ℓ} (d : Digest) (s : Stamp) (event : String) (payload : Fields) (a : A) (c : Core)
    (r : A × Core)
    → with_audit d s event payload a c ≡ some r
    → (r.0 ≡ a) × (r.1.tasks ≡ c.tasks)
unfolding with_audit
audited-tasks d s event payload a c r h =
    elim (Option-cases
      (append_audit d s.audit_id s.time_text event (d.dumps (obj payload)) c.audit_logs)) [
        | inl refused ↦ cc (rw (refused, with_audit) at h)
        | inr (log, kept) ↦
            let same = some-inj (rw (kept, with_audit) at h) in
            (sym (ap (λ x. x.0) same), sym (ap (λ x. x.1.tasks) same))
      ]

-- An insertion that succeeds adds the row at the end and answers with its id.
insert_task-tasks :
    (d : Digest) (s : Stamp) (t : CoreTask) (c : Core) (r : Option String × Core)
    → insert_task d s t c ≡ some r
    → (by_idempotency_key t.idempotency_key c.tasks ≡ none)
      × (r.0 ≡ some t.id)
      × (r.1.tasks ≡ c.tasks ++ t ∷ [])
unfolding insert_task
insert_task-tasks d s t c r h = elim (Option-cases (select task_key t.id c.tasks)) [
  | inr (u, e) ↦ cc (rw (e, insert_task) at h)
  | inl e ↦ elim (Option-cases (by_idempotency_key t.idempotency_key c.tasks)) [
    | inr (u, e') ↦ cc (rw (e, insert_task, e') at h)
    | inl e' ↦
        let (answer, tasks) = audited-tasks d s _ _ _ _ r (rw (e, insert_task, e') at h) in
        (e', answer, tasks)
  ]
]

module _ (d : Digest) (title troop : String) (revenue : ℤ) (key : Option String)
    (long : (s : String) → is_empty (d.sha256 s) ≡ false) (named : no_key key ≡ false) where
  -- A key whose task has the fingerprint of the request answers with that task.
  known_answer :
      (s : Stamp) (tid : String) (c : Core) (old : CoreTask)
      → by_idempotency_key key c.tasks ≡ some old
      → old.request_fingerprint ≡ request_fingerprint d title troop revenue
      → add_task d s tid title troop revenue key c ≡ (some old.id, c)
  unfolding add_task request_fingerprint attempt
  known_answer s tid c old known same =
      rw
        (
          named,
          add_task,
          known,
          same,
          long _,
          str_eq_refl (request_fingerprint d title troop revenue),
        )
        refl

  inserted_again :
      (s s' : Stamp) (tid tid' id : String) (c c' : Core)
      → attempt none c (
          insert_task d s
            (new_task tid title troop revenue key (request_fingerprint d title troop revenue) s.now)
            c)
        ≡ (some id, c')
      → add_task d s' tid' title troop revenue key c' ≡ (some id, c')
  unfolding attempt
  inserted_again s s' tid tid' id c c' h =
      let t =
        new_task tid title troop revenue key (request_fingerprint d title troop revenue) s.now in
      elim (Option-cases (insert_task d s t c)) [
        | inl refused ↦ cc (ap (λ x. x.0) (rw (refused, attempt) at h))
        | inr (r, done) ↦
            let same = rw (done, attempt) at h in
            let (fresh, answer, tasks) = insert_task-tasks d s t c r done in
            let stored : by_idempotency_key key c'.tasks ≡ some t =
              ap (λ x. by_idempotency_key key x) (ap (λ x. x.1.tasks) (sym same) ∙ tasks)
              ∙ by_key-append key c.tasks t fresh (own_key key named) in
            let id_ : some tid ≡ some id = sym answer ∙ ap (λ x. x.0) same in
            known_answer s' tid' c' t stored refl ∙ ap (λ i. (i, c')) id_
      ]

  -- The content mismatch of a known key has no task for an answer.
  mismatch_answer :
      (s : Stamp) (id : String) (payload : Fields) (c c' : Core)
      → attempt none c (with_audit d s "IDEMPOTENCY_CONTENT_MISMATCH" payload none c)
        ≡ (some id, c')
      → ⊥
  unfolding attempt
  mismatch_answer s id payload c c' h =
      elim (Option-cases
        (with_audit {A = Option String} d s "IDEMPOTENCY_CONTENT_MISMATCH" payload none c)) [
          | inl refused ↦ cc (ap (λ x. x.0) (rw (refused, attempt) at h))
          | inr (r, done) ↦
              let (answer, tasks) = audited-tasks d s _ payload none c r done in
              cc (answer, ap (λ x. x.0) (rw (done, attempt) at h))
        ]

  -- A task that was added under an idempotency key that is not empty is answered again: the same
  -- request under that key gets the same id from the tables that the first call left, at any later
  -- time, and changes nothing, provided that no digest is the empty text.
  pub add_task_again :
      (s s' : Stamp) (tid tid' id : String) (c c' : Core)
      → add_task d s tid title troop revenue key c ≡ (some id, c')
      → add_task d s' tid' title troop revenue key c' ≡ (some id, c')
  unfolding add_task attempt
  add_task_again s s' tid tid' id c c' h = elim (Option-cases (by_idempotency_key key c.tasks)) [
    | inl e ↦ inserted_again s s' tid tid' id c c' (rw (named, add_task, e) at h)
    | inr (old, e) ↦
        elim (Bool-cases (
          is_empty old.request_fingerprint
          || not (old.request_fingerprint == request_fingerprint d title troop revenue))) [
            | inl other ↦ absurd (mismatch_answer s id _ c c' (rw (named, add_task, e, other) at h))
            | inr same ↦
                let answer = rw (named, add_task, e, same, attempt) at h in
                let print : old.request_fingerprint ≡ request_fingerprint d title troop revenue =
                  (eq_iff _ _).0 (ground arith) in
                subst (λ x. add_task d s' tid' title troop revenue key x.1 ≡ x) answer
                  (known_answer s' tid' c old e print)
          ]
  ]
