-- ===== src/Core/Verifying.antt =====
-- What apply_verification_receipt keeps (core_state.py).
use multiverse_research.Prelude.{
  ◌≡◌, refl, String, Bool, true, false, ◌&&◌, ◌||◌, Option, none, some, [], ◌∷◌, ◌++◌, arith, inl,
  inr, Bool-cases, sym, ap, ◌∙◌, and-both, subst, All-map, ◌==◌, string_eq, any,
}
use multiverse_research.Prelude.Table.{select, select-append, select-append_new, select-key}
use multiverse_research.Core.Store.{
  success_claimed, status_beq, CoreTask, Verification, Core, Stamp, Receipt, task_key,
  verification_key, rewrite_task, is_provider, verification_payload, apply_verification_receipt,
  write_verification, verification_of, awaits, is_complete, admits, confirm,
}
use multiverse_research.Core.Calls.{World}
use multiverse_research.Core.Backing.{IsExternal, Inv, with_audit-Inv, attempt-Inv, rewrite-Inv}
use multiverse_research.Core.Upkeep.{accepted_payload, no_verification}

module _ (w : World) (s : Stamp) where
  -- A verification of a task that has none is filed.
  file-Inv :
      (n : Verification) (c : Core)
      → Inv w c
      → Inv w (record c { verifications = c.verifications ++ n ∷ [] })
  file-Inv n c v = record {
    unique = v.unique;
    backed =
        All-map _ _ c.tasks
          (λ t b e.
            let (x, at, ext) = b e in
            (x, rw (select-append verification_key t.id c.verifications (n ∷ []), at) refl, ext))
          v.backed;
    paid = v.paid;
    paid_once = v.paid_once;
    chained = v.chained;
  }

  write_verification-Inv :
      (tid : String) (x : Receipt) (c : Core) (r : Bool × Core) (t : CoreTask)
      → select task_key tid c.tasks ≡ some t
      → status_beq t.status success_claimed ≡ true
      → IsExternal w t (verification_of tid x s.now)
      → write_verification w.digest s tid x c ≡ some r
      → Inv w c
      → Inv w r.1
  unfolding write_verification
  write_verification-Inv tid x c r t found here ext h v =
      let n = verification_of tid x s.now in
      let own = select-key task_key tid c.tasks t found in
      elim (Bool-cases
        (any (λ y. y.receipt_id == x.receipt_id || y.task_id == tid) c.verifications)) [
          | inl e ↦ cc (rw (e, write_verification) at h)
          | inr e ↦
              let filed =
                select-append_new verification_key c.verifications n (no_verification _ tid _ e) in
              let found' = subst (λ j. select task_key j c.tasks ≡ some t) (sym own) found in
              with_audit-Inv w s _ _ _ _ r (rw (e, write_verification) at h) (
                subst
                  (λ j. Inv w (
                    rewrite_task j (confirm x s.now)
                      (record c { verifications = c.verifications ++ n ∷ [] })))
                  own
                  (rewrite-Inv w (record c { verifications = c.verifications ++ n ∷ [] }) t
                    (confirm x s.now) (λ u. refl) found' (ground arith)
                    (λ _. (
                      n,
                      rw own filed,
                      record {
                        trusted = ext.trusted;
                        external = ext.external;
                        signed = ext.signed;
                      },
                    ))
                    (file-Inv n c v)))
        ]

  awaits-row :
      (verifier : String) (o : Option CoreTask)
      → awaits verifier o ≡ true
      → (t : CoreTask) × (o ≡ some t)
        × (status_beq t.status success_claimed ≡ true)
        × (is_provider verifier t.result_provider ≡ false)
  awaits-row verifier none e = cc
  awaits-row verifier (some t) e = (t, refl, ground arith, ground arith)

  admits-IsExternal :
      (tid : String) (x : Receipt) (c : Core)
      → admits w.trust w.digest tid x c ≡ true
      → (t : CoreTask) × (select task_key tid c.tasks ≡ some t)
        × (status_beq t.status success_claimed ≡ true)
        × IsExternal w t (verification_of tid x s.now)
  unfolding admits
  admits-IsExternal tid x c e =
      let (e, waits) = and-both _ (awaits x.verifier_id (select task_key tid c.tasks)) e in
      let (e, signed) =
        and-both (is_complete x && w.trust.trusted x.verifier_id)
          (w.trust.signed x.verifier_id (verification_payload w.digest tid x) x.request_integrity)
          e in
      let (complete, trusted) = and-both (is_complete x) (w.trust.trusted x.verifier_id) e in
      let (t, found, here, other) = awaits-row x.verifier_id (select task_key tid c.tasks) waits in
      let own = select-key task_key tid c.tasks t found in
      (
        t,
        found,
        here,
        record {
          trusted = trusted;
          external = other;
          signed =
              subst (λ p. w.trust.signed x.verifier_id p x.request_integrity ≡ true)
                (ap (λ j. verification_payload w.digest j x) (sym own)
                  ∙ accepted_payload w.digest t.id tid x s.now complete)
                signed;
        },
      )

  pub apply_verification_receipt-Inv :
      (tid : String) (x : Receipt) (c : Core)
      → Inv w c
      → Inv w (apply_verification_receipt w.trust w.digest s tid x c).1
  unfolding apply_verification_receipt
  apply_verification_receipt-Inv tid x c v = elim (Bool-cases (admits w.trust w.digest tid x c)) [
    | inr e ↦ rw (e, apply_verification_receipt) v
    | inl e ↦
        let (t, found, here, ext) = admits-IsExternal tid x c e in
        rw (e, apply_verification_receipt)
          (attempt-Inv w false c _ v λ r h. write_verification-Inv tid x c r t found here ext h v)
  ]
