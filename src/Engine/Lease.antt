-- ===== src/Engine/Lease.antt =====
-- The life of one task row, as an abstract machine: who may claim, renew, reclaim and move a task.
-- Every operation of the store is one of these moves on the row that it names, or inserts a row.
use multiverse_research.Prelude.{
  ℕ, ◌+◌, ◌≡◌, refl, String, Bool, true, false, not, ◌&&◌, Option, none, some, List, [], ◌∷◌, ◌++◌,
  if◌then◌else◌, arith, inl, inr, Option-cases, Bool-cases, sym, filterb, string_eq, All,
  All-filterb, some-inj, not-eq-false, subst,
}
use multiverse_research.Prelude.Int.{ℤ}
use multiverse_research.Prelude.Value.{Value, Fields}
use multiverse_research.Prelude.Table.{select, update_where, select-key, HasUniqueKeys, select_own}
use multiverse_research.Engine.States.{
  TaskState, pending, state_beq, member, allowed_transitions, recoverable_active_states,
  release_safe_states, Result, ok, ◌>>=◌, unbind, unguard, state_beq→eq,
}
use multiverse_research.Engine.Store.{
  Task, Event, Db, Change, row_id, or_key_error, new_task, create_task, is_held, is_unexpired,
  check_fence, holds_token, is_expired, take_claim, later, claim_next_task, claim_task, renew_lease,
  reclaim_expired_task, transition, write_claim, write_renewal, write_reclaim, write_transition,
  first_by_order, is_claimable, precedes,
}

-- One move of the lease machine from row r to row r'.
pub data Move (r r' : Task) : Type 0 where
  claim :
      (worker : String) (until now : ℕ)
      → r.state ≡ pending
      → is_held r now ≡ false
      → r' ≡ take_claim worker until now r
      → Move r r'
  renew :
      (until now : ℕ)
      → member r.state recoverable_active_states ≡ true
      → is_expired r now ≡ false
      → r' ≡ record r { lease_until = some (later r.lease_until until); updated_at = now }
      → Move r r'
  reclaim :
      (worker : String) (until now : ℕ)
      → member r.state recoverable_active_states ≡ true
      → is_unexpired r now ≡ false
      → r' ≡ take_claim worker until now r
      → Move r r'
  advance :
      (s : TaskState) (release : Bool) (worker : String) (generation now : ℕ) (result : Fields)
      → member s (allowed_transitions r.state) ≡ true
      → (release && not (member s release_safe_states)) ≡ false
      → holds_token r worker generation ≡ true
      → is_expired r now ≡ false
      → r' ≡ record r {
        state = s;
        claimed_by = if release then none else r.claimed_by;
        lease_until = if release then none else r.lease_until;
        result = result;
        updated_at = now;
      }
      → Move r r'

-- A row is rewritten by f, and one event tells of it.
abbrev pub rewritten : Db → Task → (Task → Task) → Event → Db
rewritten db r f e = record { tasks = update_where row_id r.id f db.tasks; events = e ∷ db.events }

-- What an operation of the store may do to it.
pub data Write (db db' : Db) : Type 0 where
  idle : db' ≡ db → Write db db'
  insert :
      (r : Task) (e : Event)
      → r.state ≡ pending
      → r.claimed_by ≡ none
      → r.lease_until ≡ none
      → r.claim_generation ≡ 0
      → select row_id r.id db.tasks ≡ none
      → e.task_id ≡ r.id
      → e.after_state ≡ pending
      → db' ≡ record { tasks = db.tasks ++ r ∷ []; events = e ∷ db.events }
      → Write db db'
  rewrite :
      (r : Task) (f : Task → Task) (e : Event)
      → select row_id r.id db.tasks ≡ some r
      → Move r (f r)
      → ((s : Task) → (f s).id ≡ s.id)
      → e.task_id ≡ r.id
      → e.before_state ≡ r.state
      → e.after_state ≡ (f r).state
      → db' ≡ rewritten db r f e
      → Write db db'

pub or_key_error-eq-ok :
    (tid : String) (o : Option Task) {r : Task} → or_key_error o tid ≡ ok r → o ≡ some r
or_key_error-eq-ok tid none h = cc
or_key_error-eq-ok tid (some a) h = cc

-- A row that is found goes by its own id.
pub found :
    (db : Db) (tid : String) {r : Task}
    → or_key_error (select row_id tid db.tasks) tid ≡ ok r
    → select row_id r.id db.tasks ≡ some r
found db tid {r} h =
    let e = or_key_error-eq-ok tid (select row_id tid db.tasks) h in
    simp (select-key row_id tid db.tasks r e) e

pub written {ℓ} :
    {A : Type ℓ} {a b : A} {d d' : Db} → ◌≡◌ {A = Result (A × Db)} (ok (a, d)) (ok (b, d')) → d' ≡ d
written h = cc

pub check_fence-eq-ok :
    (r : Task) (worker : String) (generation now : ℕ) {u : Unit {0}}
    → check_fence r worker generation now ≡ ok u
    → (holds_token r worker generation ≡ true) × (is_expired r now ≡ false)
unfolding check_fence ◌>>=◌
check_fence-eq-ok r worker generation now h = ground arith

pub first_by_order-All {ℓ} :
    (P : Task → Type ℓ) (rs : List Task) (r : Task) → All P rs → first_by_order rs ≡ some r → P r
unfolding first_by_order
first_by_order-All P [] r h e = cc
first_by_order-All P (x ∷ rs) r h e = elim (Option-cases (first_by_order rs)) [
  | inl last ↦ subst P (some-inj (rw (last, first_by_order) at e)) h.0
  | inr (b, more) ↦ elim (Bool-cases (precedes b x)) [
    | inl first ↦
        subst P (some-inj (rw (more, first_by_order, first) at e))
          (first_by_order-All P rs b h.1 more)
    | inr after ↦ subst P (some-inj (rw (more, first_by_order, after) at e)) h.0
  ]
]

-- The row that the queue offers is in the table, under its id, and may be claimed.
pub queue-Offered :
    (now : ℕ) (rs : List Task) (r : Task)
    → HasUniqueKeys row_id rs
    → first_by_order (filterb (is_claimable now) rs) ≡ some r
    → (select row_id r.id rs ≡ some r) × (is_claimable now r ≡ true)
queue-Offered now rs r u e =
    first_by_order-All _ (filterb (is_claimable now) rs) r
      (All-filterb _ (is_claimable now) rs (select_own row_id rs u)) e

claimable_free :
    (now : ℕ) (r : Task)
    → is_claimable now r ≡ true
    → (state_beq r.state pending ≡ true) × (is_held r now ≡ false)
claimable_free now r h = ground arith

pub claim_task-Write :
    (tid : String) (worker_id lease_seconds : Value) (now : ℕ) (db : Db) {g : ℕ} {db' : Db}
    → claim_task tid worker_id lease_seconds now db ≡ ok (g, db')
    → Write db db'
unfolding claim_task write_claim
claim_task-Write tid worker_id lease_seconds now db h = unbind _ _ h λ worker _ h.
    unbind _ _ h λ term _ h. unbind _ _ h λ r row h. unguard _ _ _ h λ waiting h.
      unguard _ _ _ h λ free h.
        let waits = state_beq→eq r.state pending (not-eq-false _ waiting) in
        rewrite r (take_claim worker (now + term) now) _ (found db tid row)
          (claim worker (now + term) now waits free refl) (λ s. refl) refl (sym waits) (sym waits)
          (written h)

pub renew_lease-Write :
    (tid : String) (worker_id generation lease_seconds : Value) (now : ℕ) (db : Db) {t : ℕ}
    {db' : Db}
    → renew_lease tid worker_id generation lease_seconds now db ≡ ok (t, db')
    → Write db db'
unfolding renew_lease write_renewal
renew_lease-Write tid worker_id generation lease_seconds now db h = unbind _ _ h λ worker _ h.
    unbind _ _ h λ gen _ h. unbind _ _ h λ term _ h. unbind _ _ h λ r row h.
      unguard _ _ _ h λ active h. unbind _ _ h λ _ fence h.
        rewrite r _ _ (found db tid row)
          (renew (now + term) now (not-eq-false _ active)
            (check_fence-eq-ok r worker gen now fence).1 refl)
          (λ s. refl) refl refl refl (written h)

pub reclaim_expired_task-Write :
    (tid : String) (worker_id lease_seconds : Value) (now : ℕ) (db : Db) {g : ℕ} {db' : Db}
    → reclaim_expired_task tid worker_id lease_seconds now db ≡ ok (g, db')
    → Write db db'
unfolding reclaim_expired_task write_reclaim
reclaim_expired_task-Write tid worker_id lease_seconds now db h = unbind _ _ h λ worker _ h.
    unbind _ _ h λ term _ h. unbind _ _ h λ r row h. unguard _ _ _ h λ active h.
      unguard _ _ _ h λ expired h.
        rewrite r _ _ (found db tid row)
          (reclaim worker (now + term) now (not-eq-false _ active) expired refl) (λ s. refl) refl
          refl refl (written h)

pub transition-Write :
    (tid : String) (new_state : TaskState) (c : Change) (now : ℕ) (db : Db) {s : TaskState}
    {db' : Db}
    → transition tid new_state c now db ≡ ok (s, db')
    → Write db db'
unfolding transition write_transition
transition-Write tid new_state c now db h = unbind _ _ h λ r row h. unguard _ _ _ h λ allowed h.
    unguard _ _ _ h λ safe h. unbind _ _ h λ token _ h. unbind _ _ h λ worker _ h.
      unbind _ _ h λ gen _ h. unbind _ _ h λ _ fence h.
        let held = check_fence-eq-ok r worker gen now fence in
        rewrite r _ _ (found db tid row)
          (advance new_state c.release worker gen now _ (not-eq-false _ allowed) safe held.0 held.1
            refl)
          (λ s. refl) refl refl refl (written h)

pub create_task-Write :
    (tid domain goal task_type : String) (priority : ℤ) (now : ℕ) (db : Db) {k : String} {db' : Db}
    → create_task tid domain goal task_type priority now db ≡ ok (k, db')
    → Write db db'
unfolding create_task
create_task-Write tid domain goal task_type priority now db h =
    elim (Option-cases (select row_id tid db.tasks)) [
      | inl e ↦
          insert (new_task tid domain goal task_type priority now) _ refl refl refl refl e refl refl
            (written (rw (e, create_task) at h))
      | inr (r, e) ↦ cc (rw (e, create_task) at h)
    ]

pub claim_next_task-Write :
    (worker_id lease_seconds : Value) (now : ℕ) (db : Db) {o : Option String} {db' : Db}
    → HasUniqueKeys row_id db.tasks
    → claim_next_task worker_id lease_seconds now db ≡ ok (o, db')
    → Write db db'
unfolding claim_next_task write_claim
claim_next_task-Write worker_id lease_seconds now db u h = unbind _ _ h λ worker _ h.
    unbind _ _ h λ term _ h.
      elim (Option-cases (first_by_order (filterb (is_claimable now) db.tasks))) [
        | inl e ↦ idle (written (rw e at h))
        | inr (r, e) ↦
            let offered = queue-Offered now db.tasks r u e in
            let free = claimable_free now r offered.1 in
            let waits = state_beq→eq r.state pending free.0 in
            rewrite r (take_claim worker (now + term) now) _ offered.0
              (claim worker (now + term) now waits free.1 refl) (λ s. refl) refl (sym waits)
              (sym waits) (written (rw e at h))
      ]
