-- ===== src/Engine/Calls.antt =====
-- Histories of the store: calls with their clock readings, in the order in which they commit.
use multiverse_research.Prelude.{ℕ, ◌≡◌, refl, String, List, [], ◌∷◌}
use multiverse_research.Prelude.Int.{ℤ}
use multiverse_research.Prelude.Value.{Value}
use multiverse_research.Prelude.Table.{HasUniqueKeys}
use multiverse_research.Engine.States.{TaskState, Result, ok, err}
use multiverse_research.Engine.Store.{
  Db, Change, row_id, create_task, claim_next_task, claim_task, renew_lease, reclaim_expired_task,
  transition,
}
use multiverse_research.Engine.Lease.{
  Write, create_task-Write, claim_next_task-Write, claim_task-Write, renew_lease-Write,
  reclaim_expired_task-Write, transition-Write,
}

pub data Call : Type 0 where
  creates : (tid domain goal task_type : String) (priority : ℤ) → Call
  claims_next : (worker_id lease_seconds : Value) → Call
  claims : (tid : String) (worker_id lease_seconds : Value) → Call
  renews : (tid : String) (worker_id generation lease_seconds : Value) → Call
  reclaims : (tid : String) (worker_id lease_seconds : Value) → Call
  moves : (tid : String) (new_state : TaskState) (c : Change) → Call

-- A call that raises is rolled back.
abbrev pub after {ℓ} : {A : Type ℓ} → Db → Result (A × Db) → Db
after db (ok (_, db')) = db'
after db (err _) = db

unfoldable pub step : Db → ℕ × Call → Db
step db (now, creates tid domain goal task_type priority) =
    after db (create_task tid domain goal task_type priority now db)
step db (now, claims_next worker term) = after db (claim_next_task worker term now db)
step db (now, claims tid worker term) = after db (claim_task tid worker term now db)
step db (now, renews tid worker gen term) = after db (renew_lease tid worker gen term now db)
step db (now, reclaims tid worker term) = after db (reclaim_expired_task tid worker term now db)
step db (now, moves tid s c) = after db (transition tid s c now db)

unfoldable pub run : Db → List (ℕ × Call) → Db
run db [] = db
run db (c ∷ cs) = run (step db c) cs

after-Write :
    {A : Type 0} (db : Db) (r : Result (A × Db))
    → ((a : A) (db' : Db) → ◌≡◌ {A = Result (A × Db)} r (ok (a, db')) → Write db db')
    → Write db (after db r)
after-Write db (ok (a, db')) k = k a db' refl
after-Write db (err e) k = Write.idle refl

-- Every call is one write of the lease machine.
pub step-Write : (db : Db) (c : ℕ × Call) → HasUniqueKeys row_id db.tasks → Write db (step db c)
unfolding step
step-Write db (now, creates tid domain goal task_type priority) u =
    after-Write db _ λ _ _ h. create_task-Write tid domain goal task_type priority now db h
step-Write db (now, claims_next worker term) u =
    after-Write db _ λ _ _ h. claim_next_task-Write worker term now db u h
step-Write db (now, claims tid worker term) u =
    after-Write db _ λ _ _ h. claim_task-Write tid worker term now db h
step-Write db (now, renews tid worker gen term) u =
    after-Write db _ λ _ _ h. renew_lease-Write tid worker gen term now db h
step-Write db (now, reclaims tid worker term) u =
    after-Write db _ λ _ _ h. reclaim_expired_task-Write tid worker term now db h
step-Write db (now, moves tid s c) u = after-Write db _ λ _ _ h. transition-Write tid s c now db h
