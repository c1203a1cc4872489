-- ===== src/Core/Upkeep.antt =====
-- The calls on the core state (core_state.py, config/queue.py) that queue, start and report a task
-- keep what backs its payments.
use multiverse_research.Prelude.{
  ℕ, ◌≡◌, refl, String, Bool, true, false, not, ◌||◌, Option, none, some, List, [], ◌∷◌,
  if◌then◌else◌, arith, inl, inr, Bool-cases, Option-cases, sym, subst, All, All-filterb, filterb,
  ◌==◌, string_eq, eq_iff, some-inj, any,
}
use multiverse_research.Prelude.Int.{ℤ}
use multiverse_research.Prelude.Value.{Fields, field, str, end}
use multiverse_research.Prelude.Table.{select, select-key, select_own}
use multiverse_research.Prelude.Text.{is_empty}
use multiverse_research.Core.Audit.{Digest}
use multiverse_research.Core.Store.{
  running, CoreTask, Revenue, Verification, Core, Stamp, Receipt, task_key, verification_key,
  revenue_key, attempt, with_audit, has_status, rewrite_task, verification_payload, insert_task,
  add_task, fetch_next_task, mark_task_failed, record_task_claim, verification_of, is_complete,
  start, by_idempotency_key, no_key, request_fingerprint, new_task, number_or_null, oldest, older,
  is_queued,
}
use multiverse_research.Core.Calls.{World}
use multiverse_research.Core.Backing.{
  is_settled, receipt_of, Inv, has_status-row, with_audit-Inv, attempt-Inv, rewrite-Inv, insert-Inv,
}

pub oldest-All {κ} :
    (text_lt : String → String → Bool) (P : CoreTask → Type κ) (ts : List CoreTask) (t : CoreTask)
    → All P ts
    → oldest text_lt ts ≡ some t
    → P t
unfolding oldest
oldest-All text_lt P [] t h e = cc
oldest-All text_lt P (u ∷ us) t h e = elim (Option-cases (oldest text_lt us)) [
  | inl none_left ↦ subst P (some-inj (rw none_left at e)) h.0
  | inr (m, rest) ↦
      let chosen = some-inj (rw rest at e) in
      elim (Bool-cases (older text_lt m u)) [
        | inl before ↦ subst P (rw before at chosen) (oldest-All text_lt P us m h.1 rest)
        | inr after ↦ subst P (rw after at chosen) h.0
      ]
]

pub accepted_payload :
    (d : Digest) (j tid : String) (x : Receipt) (now : ℕ)
    → is_complete x ≡ true
    → verification_payload d j x ≡ verification_payload d j (receipt_of (verification_of tid x now))
unfolding verification_payload
accepted_payload d j tid x now e =
    let verdict : x.verdict ≡ "ACCEPT" = ground (arith, (eq_iff x.verdict "ACCEPT").0) in
    rw verdict refl

pub no_verification :
    (rid tid : String) (vs : List Verification)
    → any (λ y. y.receipt_id == rid || y.task_id == tid) vs ≡ false
    → select verification_key tid vs ≡ none
unfolding select
no_verification rid tid [] e = refl
no_verification rid tid (y ∷ ys) e = ground (arith, no_verification rid tid ys)

pub no_revenue :
    (rid tid : String) (rs : List Revenue)
    → any (λ y. y.id == rid || y.source_task_id == tid) rs ≡ false
    → select revenue_key tid rs ≡ none
unfolding select
no_revenue rid tid [] e = refl
no_revenue rid tid (y ∷ ys) e = ground (arith, no_revenue rid tid ys)

module _ (w : World) (s : Stamp) where
  insert_task-Inv :
      (t : CoreTask) (c : Core)
      → is_settled t ≡ false
      → Inv w c
      → (r : Option String × Core) → insert_task w.digest s t c ≡ some r
      → Inv w r.1
  unfolding insert_task
  insert_task-Inv t c new v r h = elim (Option-cases (select task_key t.id c.tasks)) [
    | inr (u, e) ↦ cc (rw (e, insert_task) at h)
    | inl e ↦ elim (Option-cases (by_idempotency_key t.idempotency_key c.tasks)) [
      | inr (u, e') ↦ cc (rw (e, insert_task, e') at h)
      | inl e' ↦
          with_audit-Inv w s _ _ _ _ r (rw (e, insert_task, e') at h) (insert-Inv w c t e new v)
    ]
  ]

  -- The answer of `add_task` when the key is in the table.
  known_key-Inv :
      (key : Option String) (old : CoreTask) (differs : Bool) (c : Core) (r : Option String × Core)
      → (if differs
          then with_audit w.digest s "IDEMPOTENCY_CONTENT_MISMATCH"
              (field "idempotency_key"
                (number_or_null key)
                (field "existing_task_id" (str old.id) end))
              none
              c
          else some (some old.id, c))
        ≡ some r
      → Inv w c
      → Inv w r.1
  known_key-Inv key old true c r h v = with_audit-Inv w s _ _ _ c r h v
  known_key-Inv key old false c r h v = subst (λ x. Inv w x.1) (some-inj h) v

  pub add_task-Inv :
      (tid title troop : String) (revenue : ℤ) (key : Option String) (c : Core)
      → Inv w c
      → Inv w (add_task w.digest s tid title troop revenue key c).1
  unfolding add_task
  add_task-Inv tid title troop revenue key c v =
      let print = request_fingerprint w.digest title troop revenue in
      let differs : CoreTask → Bool =
        λ old. is_empty old.request_fingerprint || not (old.request_fingerprint == print) in
      let insertion = insert_task-Inv (new_task tid title troop revenue key print s.now) c refl v in
      elim (Bool-cases (no_key key)) [
        | inl e ↦ rw (e, add_task) (attempt-Inv w none c _ v insertion)
        | inr e ↦ elim (Option-cases (by_idempotency_key key c.tasks)) [
          | inl e' ↦ rw (e, add_task, e') (attempt-Inv w none c _ v insertion)
          | inr (old, e') ↦
              rw (e, add_task, e')
                (attempt-Inv w none c _ v λ r h. known_key-Inv key old (differs old) c r h v)
        ]
      ]

  rewrite_audited-Inv :
      (event : String) (payload : Fields) (tid : String) (f : CoreTask → CoreTask) (c : Core)
      → ((u : CoreTask) → (f u).id ≡ u.id)
      → ((u : CoreTask) → is_settled (f u) ≡ false)
      → has_status tid running c ≡ true
      → Inv w c
      → Inv w (attempt false c (with_audit w.digest s event payload true (rewrite_task tid f c))).1
  rewrite_audited-Inv event payload tid f c same new at v =
      let (t, found, here) = has_status-row tid running c at in
      let own = select-key task_key tid c.tasks t found in
      attempt-Inv w false c _ v λ r h. with_audit-Inv w s event payload true _ r h (
        subst (λ j. Inv w (rewrite_task j f c)) own
          (rewrite-Inv w c t f same
            (subst (λ j. select task_key j c.tasks ≡ some t) (sym own) found) (ground arith)
            (λ e. cc (new t, e)) v))

  pub fetch_next_task-Inv : (c : Core) → Inv w c → Inv w (fetch_next_task w.text_lt w.digest s c).1
  unfolding fetch_next_task
  fetch_next_task-Inv c v = elim (Option-cases (oldest w.text_lt (filterb is_queued c.tasks))) [
    | inl e ↦ rw (e, fetch_next_task) v
    | inr (t, e) ↦
        let (found, here) =
          oldest-All w.text_lt _ _ t
            (All-filterb _ is_queued c.tasks (select_own task_key c.tasks v.unique)) e in
        rw (e, fetch_next_task)
          (attempt-Inv w none c _ v λ r h.
            with_audit-Inv w s _ _ _ _ r h (
              rewrite-Inv w c t (start s.now) (λ u. refl) found (ground arith) (λ live. cc live) v))
  ]

  pub mark_task_failed-Inv :
      (tid reason : String) (c : Core)
      → Inv w c
      → Inv w (mark_task_failed w.digest s tid reason c).1
  unfolding mark_task_failed
  mark_task_failed-Inv tid reason c v = elim (Bool-cases (has_status tid running c)) [
    | inl e ↦ rw e (rewrite_audited-Inv _ _ tid _ c (λ u. refl) (λ u. refl) e v)
    | inr e ↦ rw e v
  ]

  pub record_task_claim-Inv :
      (tid result provider : String) (c : Core)
      → Inv w c
      → Inv w (record_task_claim w.digest s tid result provider c).1
  unfolding record_task_claim
  record_task_claim-Inv tid result provider c v = elim (Bool-cases (has_status tid running c)) [
    | inl e ↦ rw e (rewrite_audited-Inv _ _ tid _ c (λ u. refl) (λ u. refl) e v)
    | inr e ↦ rw e v
  ]
