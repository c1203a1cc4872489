-- ===== src/Engine/Machine.antt =====
-- The store refines the lease machine: what happens to one row over a history of calls.
use multiverse_research.Prelude.{
  ℕ, ◌≡◌, refl, String, Bool, true, false, none, some, List, [], ◌∷◌, arith, ◌≤◌, ◌⊎◌, inl, inr,
  Bool-cases, sym, subst, ◌==◌, string_eq, eq_iff, str_eq-ne, ◌∙◌, some-inj,
}
use multiverse_research.Prelude.Table.{
  select, update_where, select-update_self, select-update_ne, select-append,
}
use multiverse_research.Engine.States.{
  TaskState, member, recoverable_active_states, allowed_transitions, failed_closed, owner_gate,
  done, rolled_back, pending, state_beq,
}
use multiverse_research.Engine.Store.{Task, Db, row_id}
use multiverse_research.Engine.Lease.{
  Move, claim, renew, reclaim, advance, Write, idle, insert, rewrite,
}
use multiverse_research.Engine.Calls.{Call, step, run, step-Write}
use multiverse_research.Engine.Invariant.{Inv, step-Inv}

-- A row's way through the machine.
pub data Moves : Task → Task → Type 0 where
  here : {r : Task} → Moves r r
  next : {r s t : Task} → Move r s → Moves s t → Moves r t

-- After one write a row is as it was, or one move further.
Write-row :
    {db db' : Db} (k : String) (r : Task)
    → Write db db'
    → select row_id k db.tasks ≡ some r
    → (r' : Task) × (select row_id k db'.tasks ≡ some r') × ((r' ≡ r) ⊎ Move r r')
Write-row k r (idle e) found = (r, rw e found, inl refl)
Write-row {db} k r (insert x ev p c l g fresh own at e) found =
    (r, rw (e, select-append row_id k db.tasks (x ∷ []), found) refl, inl refl)
Write-row {db} k r (rewrite x f ev at_x mv same own before at e) found =
    elim (Bool-cases (x.id == k)) [
      | inl hit ↦
          let here_x =
            subst (λ j. select row_id j db.tasks ≡ some x) ((eq_iff x.id k).0 hit) at_x in
          let same_row : x ≡ r = some-inj (sym here_x ∙ found) in
          (
            f x,
            rw e (
                subst (λ j. select row_id j (update_where row_id x.id f db.tasks) ≡ some (f x))
                  ((eq_iff x.id k).0 hit) (select-update_self row_id x.id f same db.tasks x at_x)),
            inr (subst (λ y. Move y (f x)) same_row mv),
          )
      | inr miss ↦ (
        r,
        rw (e, select-update_ne row_id x.id f same k db.tasks (str_eq-ne x.id k miss)) found,
        inl refl,
      )
    ]

extend : {r s t : Task} → (s ≡ r) ⊎ Move r s → Moves s t → Moves r t
extend {r} {s} {t} (inl e) m = subst (λ x. Moves x t) e m
extend (inr mv) m = next mv m

-- Over any history of calls, by any workers at any times, a task that is in the store stays in it,
-- and what happens to its row is a sequence of moves of the lease machine.
pub run-refines-Moves :
    (cs : List (ℕ × Call)) (db : Db) (k : String) (r : Task)
    → Inv db
    → select row_id k db.tasks ≡ some r
    → (r' : Task) × (select row_id k (run db cs).tasks ≡ some r') × Moves r r'
unfolding run
run-refines-Moves [] db k r v found = (r, found, here)
run-refines-Moves (c ∷ cs) db k r v found =
    let (s, at_s, moved) = Write-row k r (step-Write db c v.unique) found in
    let (t, at_t, rest) = run-refines-Moves cs (step db c) k s (step-Inv db c v) at_s in
    (t, at_t, extend moved rest)

-- States with no way out.
abbrev pub is_closed : TaskState → Bool
is_closed s = member s (failed_closed ∷ owner_gate ∷ done ∷ rolled_back ∷ [])

closed_inactive :
    (s : TaskState)
    → is_closed s ≡ true
    → (state_beq s pending ≡ false)
      × (member s recoverable_active_states ≡ false)
      × (allowed_transitions s ≡ [])
closed_inactive done h = (refl, refl, refl)
closed_inactive _ h = ground arith

closed_stuck : (r r' : Task) → is_closed r.state ≡ true → Move r r' → ⊥
closed_stuck r r' h (claim w until now p free e) = cc (rw p at h)
closed_stuck r r' h (renew until now a live e) = cc (a, (closed_inactive r.state h).1)
closed_stuck r r' h (reclaim w until now a old e) = cc (a, (closed_inactive r.state h).1)
closed_stuck r r' h (advance s release w g now result a safe held live e) =
    cc (rw ((closed_inactive r.state h).2) at a)

-- A task that is done, rolled back, failed closed or at the owner's gate is never written again: its
-- row is the same after any history of calls.
pub closed_row_frozen :
    (cs : List (ℕ × Call)) (db : Db) (k : String) (r : Task)
    → Inv db
    → select row_id k db.tasks ≡ some r
    → is_closed r.state ≡ true
    → select row_id k (run db cs).tasks ≡ some r
closed_row_frozen cs db k r v found closed =
    let (r', at, moves) = run-refines-Moves cs db k r v found in frozen r' at moves
  where
    frozen :
        (r' : Task)
        → select row_id k (run db cs).tasks ≡ some r'
        → Moves r r'
        → select row_id k (run db cs).tasks ≡ some r
    frozen r' at here = at
    frozen r' at (next mv rest) = absurd (closed_stuck r _ closed mv)

Move-generation-le : {r r' : Task} → Move r r' → r.claim_generation ≤ r'.claim_generation
Move-generation-le (claim w until now p free e) = rw e (omega arith)
Move-generation-le (renew until now a live e) = rw e (omega arith)
Move-generation-le (reclaim w until now a old e) = rw e (omega arith)
Move-generation-le (advance s release w g now result a safe held live e) = rw e (omega arith)

pub Moves-generation-le : {r r' : Task} → Moves r r' → r.claim_generation ≤ r'.claim_generation
Moves-generation-le here = omega arith
Moves-generation-le (next mv rest) = omega (arith, Move-generation-le mv, Moves-generation-le rest)

-- Within one generation a row keeps its owner or loses it.
abbrev pub KeepsOwner : Task → Task → Type 0
KeepsOwner r r' =
    r'.claim_generation ≡ r.claim_generation
    → (r'.claimed_by ≡ r.claimed_by) ⊎ (r'.claimed_by ≡ none)

Move-KeepsOwner : {r r' : Task} → Move r r' → KeepsOwner r r'
Move-KeepsOwner (claim w until now p free e) = rw e (λ g. absurd (omega arith))
Move-KeepsOwner (renew until now a live e) = rw e (λ g. inl refl)
Move-KeepsOwner (reclaim w until now a old e) = rw e (λ g. absurd (omega arith))
Move-KeepsOwner (advance s true w g now result a safe held live e) = rw e (λ g. inr refl)
Move-KeepsOwner (advance s false w g now result a safe held live e) = rw e (λ g. inl refl)

pub Moves-KeepsOwner : {r r' : Task} → Moves r r' → KeepsOwner r r'
Moves-KeepsOwner here g = inl refl
Moves-KeepsOwner (next mv rest) g = ground (
  arith,
  Move-generation-le mv,
  Moves-generation-le rest,
  Move-KeepsOwner mv,
  Moves-KeepsOwner rest,
)
