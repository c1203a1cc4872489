-- ===== src/Engine/Invariant.antt =====
-- What holds of the task store after any history of calls.
use multiverse_research.Prelude.{
  ℕ, ◌≡◌, refl, String, Bool, true, false, not, ◌&&◌, Option, none, some, List, [], ◌∷◌, ◌++◌,
  if◌then◌else◌, arith, ◌<◌, inl, inr, Bool-cases, sym, subst, All, All-append, ◌==◌, string_eq,
  eq_iff, str_eq_refl, str_eq-ne,
}
use multiverse_research.Prelude.Table.{
  select, update_where, HasUniqueKeys, update-HasUniqueKeys, append-HasUniqueKeys, update-All,
  select-update_self, select-update_ne, select-append, All-select,
}
use multiverse_research.Engine.States.{
  TaskState, member, recoverable_active_states, release_safe_states, pending,
}
use multiverse_research.Engine.Store.{Task, Event, Db, row_id, empty_db}
use multiverse_research.Engine.Lease.{
  Move, claim, renew, reclaim, advance, Write, idle, insert, rewrite,
}
use multiverse_research.Engine.Calls.{Call, step, run, step-Write}

abbrev pub is_some {ℓ} : {A : Type ℓ} → Option A → Bool
is_some none = false
is_some (some _) = true

-- A task has an owner exactly when it has a lease; an active task has an owner; and an owned task
-- has a fencing generation that the checks accept.
pub record IsSound (r : Task) : Type 0 where
  pub paired : is_some r.claimed_by ≡ is_some r.lease_until
  pub owned : member r.state recoverable_active_states ≡ true → is_some r.claimed_by ≡ true
  pub fenced : is_some r.claimed_by ≡ true → 0 < r.claim_generation

-- No state that a worker may release a task into is an active one.
release_safe_inactive :
    (s : TaskState)
    → (true && not (member s release_safe_states)) ≡ false
    → member s recoverable_active_states ≡ false
release_safe_inactive pending h = refl
release_safe_inactive _ h = ground arith

-- Every move of the lease machine keeps a row sound.
pub Move-IsSound : {r r' : Task} → Move r r' → IsSound r → IsSound r'
Move-IsSound (claim w until now p free e) v = rw e (ground arith)
Move-IsSound (renew until now a live e) v = rw e (ground arith)
Move-IsSound (reclaim w until now a old e) v = rw e (ground arith)
Move-IsSound (advance s true w g now result a safe held live e) v =
    let inactive = release_safe_inactive s safe in
    rw e (record { paired = refl; owned = λ active. cc (inactive, active); fenced = λ h. cc })
Move-IsSound {r} (advance s false w g now result a safe held live e) v =
    let owner : is_some r.claimed_by ≡ true = ground arith in
    rw e (record { paired = v.paired; owned = λ _. owner; fenced = v.fenced })

-- The state that the log gives a task: that of its newest event.
unfoldable pub replay : String → List Event → Option TaskState
replay k [] = none
replay k (e ∷ es) = let rest = replay k es in if e.task_id == k then some e.after_state else rest

abbrev pub state_of : Option Task → Option TaskState
state_of none = none
state_of (some r) = some r.state

pub record Inv (db : Db) : Type 0 where
  pub unique : HasUniqueKeys row_id db.tasks
  pub sound : All IsSound db.tasks
  pub logged : (k : String) → replay k db.events ≡ state_of (select row_id k db.tasks)

pub empty-Inv : Inv empty_db
unfolding replay select
empty-Inv = record { unique = tt; sound = tt; logged = λ k. refl }

module _ (db : Db) (r : Task) where
  insert_logged :
      (ev : Event) (k : String)
      → r.state ≡ pending
      → select row_id r.id db.tasks ≡ none
      → ev.task_id ≡ r.id
      → ev.after_state ≡ pending
      → replay k db.events ≡ state_of (select row_id k db.tasks)
      → replay k (ev ∷ db.events) ≡ state_of (select row_id k (db.tasks ++ r ∷ []))
  unfolding replay select
  insert_logged ev k p fresh own at before = ground (
    arith,
    select-append row_id k db.tasks (r ∷ []),
    (eq_iff ev.task_id k).0,
    (eq_iff r.id k).0,
    (eq_iff ev.task_id k).1,
    (eq_iff r.id k).1,
  )

  rewrite_logged :
      (f : Task → Task) (ev : Event) (k : String)
      → select row_id r.id db.tasks ≡ some r
      → ((s : Task) → (f s).id ≡ s.id)
      → ev.task_id ≡ r.id
      → ev.after_state ≡ (f r).state
      → replay k db.events ≡ state_of (select row_id k db.tasks)
      → replay k (ev ∷ db.events) ≡ state_of (select row_id k (update_where row_id r.id f db.tasks))
  unfolding replay
  rewrite_logged f ev k found same own at before = elim (Bool-cases (r.id == k)) [
    | inl hit ↦
        subst
          (λ j.
            replay j (ev ∷ db.events)
            ≡ state_of (select row_id j (update_where row_id r.id f db.tasks)))
          ((eq_iff r.id k).0 hit)
          (rw (own, str_eq_refl r.id, select-update_self row_id r.id f same db.tasks r found, at)
            refl)
    | inr miss ↦
        rw (own, miss, select-update_ne row_id r.id f same k db.tasks (str_eq-ne r.id k miss))
          before
  ]

pub Write-Inv : {db db' : Db} → Write db db' → Inv db → Inv db'
unfolding replay
Write-Inv (idle e) v = subst Inv (sym e) v
Write-Inv {db} (insert r ev p c l g fresh own at e) v = subst Inv (sym e) (record {
  unique = append-HasUniqueKeys row_id db.tasks r v.unique fresh;
  sound = All-append IsSound db.tasks (r ∷ []) v.sound (
    record { paired = rw (c, l); owned = λ h. cc (rw p at h); fenced = λ h. cc (rw c at h) },
    tt,
  );
  logged = λ k. insert_logged db r ev k p fresh own at (v.logged k);
})
Write-Inv {db} (rewrite r f ev found mv same own before at e) v = subst Inv (sym e) (record {
  unique = update-HasUniqueKeys row_id r.id f same db.tasks v.unique;
  sound =
      update-All row_id r.id f same IsSound db.tasks r v.unique found
        (Move-IsSound mv (All-select row_id IsSound r.id db.tasks r v.sound found)) v.sound;
  logged = λ k. rewrite_logged db r f ev k found same own at (v.logged k);
})

pub step-Inv : (db : Db) (c : ℕ × Call) → Inv db → Inv (step db c)
step-Inv db c v = Write-Inv (step-Write db c v.unique) v

pub run-Inv : (cs : List (ℕ × Call)) (db : Db) → Inv db → Inv (run db cs)
unfolding run
run-Inv [] db v = v
run-Inv (c ∷ cs) db v = run-Inv cs (step db c) (step-Inv db c v)

-- After any history of calls on an empty store the task ids are distinct, every row is sound (an
-- owner exactly when there is a lease, an owner whenever the task is active, a positive generation
-- under an owner), and the newest event of each task records the state that its row is in.
pub run-empty-Inv : (cs : List (ℕ × Call)) → Inv (run empty_db cs)
run-empty-Inv cs = run-Inv cs empty_db empty-Inv
