-- ===== src/Core/Backing.antt =====
-- What backs a payment in the core state (core_state.py): the invariant of its tables.
use multiverse_research.Prelude.{
  ◌≡◌, refl, String, Bool, true, false, ◌||◌, Option, none, some, List, [], ◌∷◌, ◌++◌, inl, inr,
  Bool-cases, Option-cases, ◌∙◌, subst, All, All-append, All-map, ◌==◌, string_eq, eq_iff,
  str_eq-ne, some-inj,
}
use multiverse_research.Prelude.Value.{Fields, obj}
use multiverse_research.Prelude.Table.{
  select, HasUniqueKeys, update-HasUniqueKeys, append-HasUniqueKeys, update-All, select-update_ne,
  select-append,
}
use multiverse_research.Core.Audit.{append_audit, verify_audit_chain, append_audit-verifies}
use multiverse_research.Core.Store.{
  Status, verified, closed, status_beq, CoreTask, Verification, Core, Stamp, Receipt, task_key,
  verification_key, revenue_key, attempt, with_audit, has_status, rewrite_task, is_provider,
  verification_payload,
}
use multiverse_research.Core.Calls.{World, empty_core}

abbrev pub is_settled : CoreTask → Bool
is_settled t = status_beq t.status verified || status_beq t.status closed

-- The receipt that a verification row was made from.
abbrev pub receipt_of : Verification → Receipt
receipt_of v = record {
  receipt_id = v.receipt_id;
  verifier_id = v.verifier_id;
  evidence_ref = v.evidence_ref;
  evidence_sha256 = v.evidence_sha256;
  verdict = "ACCEPT";
  request_integrity = v.request_integrity;
}

-- A verification by a trusted verifier who is not the task's provider, and who signed the
-- acceptance of this task with this evidence.
pub record IsExternal (w : World) (t : CoreTask) (v : Verification) : Type 0 where
  pub trusted : w.trust.trusted v.verifier_id ≡ true
  pub external : is_provider v.verifier_id t.result_provider ≡ false
  pub signed :
      w.trust.signed v.verifier_id
        (verification_payload w.digest t.id (receipt_of v))
        v.request_integrity
      ≡ true

-- A settled task has such a verification.
abbrev pub IsBacked : World → List Verification → CoreTask → Type 0
IsBacked w vs t =
    is_settled t ≡ true
    → (v : Verification) × (select verification_key t.id vs ≡ some v) × IsExternal w t v

pub record Inv (w : World) (c : Core) : Type 0 where
  pub unique : HasUniqueKeys task_key c.tasks
  pub backed : All (IsBacked w c.verifications) c.tasks
  pub paid : All (λ r. has_status r.source_task_id closed c ≡ true) c.revenues
  pub paid_once : HasUniqueKeys revenue_key c.revenues
  pub chained : verify_audit_chain w.digest c.audit_logs ≡ true

pub empty-Inv : (w : World) → Inv w empty_core
unfolding verify_audit_chain
empty-Inv w = record { unique = tt; backed = tt; paid = tt; paid_once = tt; chained = refl }

-- A task with a status is in the table.
pub has_status-row :
    (tid : String) (s : Status) (c : Core)
    → has_status tid s c ≡ true
    → (t : CoreTask) × (select task_key tid c.tasks ≡ some t) × (status_beq t.status s ≡ true)
has_status-row tid s c h = elim (Option-cases (select task_key tid c.tasks)) [
  | inl e ↦ cc (rw (e, has_status) at h)
  | inr (t, e) ↦ (t, e, rw (e, has_status) at h)
]

pub row-has_status :
    (tid : String) (s : Status) (c : Core) (t : CoreTask)
    → select task_key tid c.tasks ≡ some t
    → status_beq t.status s ≡ true
    → has_status tid s c ≡ true
row-has_status tid s c t e h = rw (e, has_status) h

module _ (w : World) where
  -- The audit entry at the end of a transaction keeps the invariant.
  pub with_audit-Inv {ℓ} :
      {A : Type ℓ} (s : Stamp) (event : String) (payload : Fields) (a : A) (c : Core) (r : A × Core)
      → with_audit w.digest s event payload a c ≡ some r
      → Inv w c
      → Inv w r.1
  unfolding with_audit
  with_audit-Inv s event payload a c r h v =
      let d = w.digest in
      let text = d.dumps (obj payload) in
      elim (Option-cases (append_audit d s.audit_id s.time_text event text c.audit_logs)) [
        | inl e ↦ cc (rw (e, with_audit) at h)
        | inr (log, e) ↦
            subst (λ x. Inv w (x.1)) (some-inj (rw (e, with_audit) at h))
              (record {
                unique = v.unique;
                backed = v.backed;
                paid = v.paid;
                paid_once = v.paid_once;
                chained = append_audit-verifies d _ _ _ _ _ log e v.chained;
              })
      ]

  pub attempt-Inv {ℓ} :
      {A : Type ℓ} (fallback : A) (c : Core) (o : Option (A × Core))
      → Inv w c
      → ((r : A × Core) → o ≡ some r → Inv w r.1)
      → Inv w (attempt fallback c o).1
  unfolding attempt
  attempt-Inv fallback c none v k = v
  attempt-Inv fallback c (some r) v k = k r refl

  -- A task that is not closed is rewritten, and stays backed.
  pub rewrite-Inv :
      (c : Core) (t : CoreTask) (f : CoreTask → CoreTask)
      → ((u : CoreTask) → (f u).id ≡ u.id)
      → select task_key t.id c.tasks ≡ some t
      → status_beq t.status closed ≡ false
      → IsBacked w c.verifications (f t)
      → Inv w c
      → Inv w (rewrite_task t.id f c)
  rewrite-Inv c t f same found live b v = record {
    unique = update-HasUniqueKeys task_key t.id f same c.tasks v.unique;
    backed =
        update-All task_key t.id f same (IsBacked w c.verifications) c.tasks t v.unique found b
          v.backed;
    paid =
        All-map _ _ c.revenues
          (λ r h.
            let (u, e, at) = has_status-row r.source_task_id closed c h in
            elim (Bool-cases (t.id == r.source_task_id)) [
              | inl hit ↦
                  let own =
                    subst (λ j. select task_key j c.tasks ≡ some t) ((eq_iff _ _).0 hit) found in
                  cc (live, own, e, at)
              | inr miss ↦
                  row-has_status r.source_task_id closed (rewrite_task t.id f c) u
                    (select-update_ne task_key t.id f same _ c.tasks (str_eq-ne _ _ miss) ∙ e) at
            ])
          v.paid;
    paid_once = v.paid_once;
    chained = v.chained;
  }

  -- A task that is new is inserted.
  pub insert-Inv :
      (c : Core) (t : CoreTask)
      → select task_key t.id c.tasks ≡ none
      → is_settled t ≡ false
      → Inv w c
      → Inv w (record c { tasks = c.tasks ++ t ∷ [] })
  insert-Inv c t fresh new v = record {
    unique = append-HasUniqueKeys task_key c.tasks t v.unique fresh;
    backed =
        All-append (IsBacked w c.verifications) c.tasks (t ∷ []) v.backed (λ h. cc (new, h), tt);
    paid =
        All-map _ _ c.revenues
          (λ r h.
            let (u, e, at) = has_status-row r.source_task_id closed c h in
            row-has_status r.source_task_id closed (record c { tasks = c.tasks ++ t ∷ [] }) u
              (rw (select-append task_key r.source_task_id c.tasks (t ∷ []), e) refl) at)
          v.paid;
    paid_once = v.paid_once;
    chained = v.chained;
  }
