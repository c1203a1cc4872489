-- ===== src/Engine/Workflow.antt =====
-- The order in which a task passes through its states, as the event log tells it.
use multiverse_research.Prelude.{
  ℕ, ◌≡◌, refl, String, true, false, ◌||◌, Option, none, some, List, [], ◌∷◌, if◌then◌else◌, arith,
  inl, inr, Bool-cases, sym, subst, ◌==◌, string_eq, eq_iff, ◌∙◌, ap, some-inj,
}
use multiverse_research.Prelude.Table.{select}
use multiverse_research.Engine.States.{
  TaskState, pending, in_implement, in_lab, in_audit, done, state_beq, state_beq→eq, member,
  allowed_transitions,
}
use multiverse_research.Engine.Store.{Task, Event, Db, row_id, empty_db}
use multiverse_research.Engine.Lease.{
  Move, claim, renew, reclaim, advance, Write, idle, insert, rewrite,
}
use multiverse_research.Engine.Calls.{Call, step, run, step-Write}
use multiverse_research.Engine.Invariant.{Inv, step-Inv, empty-Inv, replay, state_of, run-Inv}

-- The states that the log gives a task, the newest first.
pub visited : String → List Event → List TaskState
visited k [] = []
visited k (e ∷ es) =
    let rest = visited k es in if e.task_id == k then e.after_state ∷ rest else rest

-- The newest entry of the states visited.
abbrev pub newest : List TaskState → Option TaskState
newest [] = none
newest (s ∷ l) = some s

-- A state is the one before it or an allowed successor of that; the first is pending.
abbrev pub Follows : TaskState → Option TaskState → Type 0
Follows s none = s ≡ pending
Follows s (some t) = (state_beq s t || member s (allowed_transitions t)) ≡ true

abbrev pub IsWorkflow : List TaskState → Type 0
IsWorkflow [] = Unit
IsWorkflow (s ∷ l) = Follows s (newest l) × IsWorkflow l

Move-allowed :
    {r r' : Task}
    → Move r r'
    → (state_beq r'.state r.state || member r'.state (allowed_transitions r.state)) ≡ true
Move-allowed (claim w until now p free e) = rw e (ground arith)
Move-allowed (renew until now a live e) = rw e (ground arith)
Move-allowed (reclaim w until now a old e) = rw e (ground arith)
Move-allowed (advance s release w g now result a safe held live e) = rw e (ground arith)

newest-visited : (k : String) (es : List Event) → newest (visited k es) ≡ replay k es
unfolding visited replay
newest-visited k [] = refl
newest-visited k (e ∷ es) = ground (arith, newest-visited k es)

abbrev pub HasWorkflows : Db → Type 0
HasWorkflows db = (k : String) → IsWorkflow (visited k db.events)

newest_logged :
    (db : Db) (k j : String) (o : Option Task)
    → Inv db
    → j ≡ k
    → select row_id j db.tasks ≡ o
    → newest (visited k db.events) ≡ state_of o
newest_logged db k j o v e found =
    newest-visited k db.events
    ∙ v.logged k
    ∙ ap state_of (subst (λ i. select row_id i db.tasks ≡ o) e found)

Write-HasWorkflows : {db db' : Db} → Write db db' → Inv db → HasWorkflows db → HasWorkflows db'
unfolding visited
Write-HasWorkflows (idle e) v h = subst HasWorkflows (sym e) h
Write-HasWorkflows {db} (insert r ev p c l g fresh own at e) v h = subst HasWorkflows (sym e) λ k.
    elim (Bool-cases (ev.task_id == k)) [
      | inl hit ↦
          let before =
            newest_logged db k r.id none v (sym own ∙ (eq_iff ev.task_id k).0 hit) fresh in
          rw hit (subst (Follows ev.after_state) (sym before) at, h k)
      | inr miss ↦ rw miss (h k)
    ]
Write-HasWorkflows {db} (rewrite r f ev found mv same own before at e) v h =
    subst HasWorkflows (sym e) λ k. elim (Bool-cases (ev.task_id == k)) [
      | inl hit ↦
          let last =
            newest_logged db k r.id (some r) v (sym own ∙ (eq_iff ev.task_id k).0 hit) found in
          rw hit (
            subst (Follows ev.after_state) (sym last)
                (subst (λ s. Follows s (some r.state)) (sym at) (Move-allowed mv)),
            h k,
          )
      | inr miss ↦ rw miss (h k)
    ]

run-HasWorkflows :
    (cs : List (ℕ × Call)) (db : Db) → Inv db → HasWorkflows db → HasWorkflows (run db cs)
unfolding run
run-HasWorkflows [] db v h = h
run-HasWorkflows (c ∷ cs) db v h =
    run-HasWorkflows cs (step db c) (step-Inv db c v)
      (Write-HasWorkflows (step-Write db c v.unique) v h)

-- In a workflow a state that is only entered from one place has that place behind it.
module _ (s t : TaskState) (start : state_beq s pending ≡ false)
    (only : (u : TaskState) → member s (allowed_transitions u) ≡ true → u ≡ t) where
  needs_before : (l : List TaskState) → IsWorkflow l → member s l ≡ true → member t l ≡ true
  needs_before [] w h = h
  needs_before (u ∷ []) w h = absurd (ground (arith, state_beq→eq s u))
  needs_before (u ∷ v ∷ l) w h = elim (Bool-cases (state_beq s u)) [
    | inl hit ↦
        let step = subst (λ x. Follows x (some v)) (sym (state_beq→eq s u hit)) w.0 in
        elim (Bool-cases (state_beq s v)) [
          | inl again ↦ deeper (needs_before (v ∷ l) w.1 (rw again refl))
          | inr fresh ↦ deeper (at_head (only v (rw fresh at step)))
        ]
    | inr miss ↦ deeper (needs_before (v ∷ l) w.1 (rw miss at h))
  ]
    where
      deeper : member t (v ∷ l) ≡ true → member t (u ∷ v ∷ l) ≡ true
      deeper m = ground arith

      at_head : v ≡ t → member t (v ∷ l) ≡ true
      at_head e = rw (← e) (ground arith)

only_from_audit : (u : TaskState) → member done (allowed_transitions u) ≡ true → u ≡ in_audit
only_from_audit in_audit h = refl
only_from_audit _ h = ground arith

only_from_lab : (u : TaskState) → member in_audit (allowed_transitions u) ≡ true → u ≡ in_lab
only_from_lab in_lab h = refl
only_from_lab _ h = ground arith

only_from_implement :
    (u : TaskState) → member in_lab (allowed_transitions u) ≡ true → u ≡ in_implement
only_from_implement in_implement h = refl
only_from_implement _ h = ground arith

newest-member : (s : TaskState) (l : List TaskState) → newest l ≡ some s → member s l ≡ true
newest-member s [] e = cc
newest-member s (t ∷ l) e = rw (some-inj e) (ground arith)

empty-HasWorkflows : HasWorkflows empty_db
unfolding visited
empty-HasWorkflows k = tt

-- After any history of calls on an empty store, a task whose row is done has been audited, tested
-- and implemented: the states that the log gives it start at pending, go on by allowed transitions
-- only, and contain the three states that lead to done.
pub done_was_audited :
    (cs : List (ℕ × Call)) (k : String) (r : Task)
    → select row_id k (run empty_db cs).tasks ≡ some r
    → r.state ≡ done
    → let l = visited k (run empty_db cs).events in
      IsWorkflow l
      × (member in_audit l ≡ true)
      × (member in_lab l ≡ true)
      × (member in_implement l ≡ true)
done_was_audited cs k r found e = (path, audited, tested, implemented)
  where
    db : Db
    db = run empty_db cs

    path : IsWorkflow (visited k db.events)
    path = run-HasWorkflows cs empty_db empty-Inv empty-HasWorkflows k

    finished : newest (visited k db.events) ≡ some done
    finished = newest_logged db k k (some r) (run-Inv cs empty_db empty-Inv) refl found ∙ ap some e

    audited : member in_audit (visited k db.events) ≡ true
    audited =
        needs_before done in_audit refl only_from_audit (visited k db.events) path
          (newest-member done (visited k db.events) finished)

    tested : member in_lab (visited k db.events) ≡ true
    tested = needs_before in_audit in_lab refl only_from_lab (visited k db.events) path audited

    implemented : member in_implement (visited k db.events) ≡ true
    implemented =
        needs_before in_lab in_implement refl only_from_implement (visited k db.events) path tested
