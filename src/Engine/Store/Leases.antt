-- ===== src/Engine/Store/Leases.antt =====
-- Renewal and recovery of leases: renew_lease and reclaim_expired_task of automation/shared_engine/db.py.
use multiverse_research.Prelude.{
  ℕ, ◌+◌, String, Bool, true, false, not, ◌||◌, Option, none, some, leb, nat_eq, string_eq, max,
}
use multiverse_research.Prelude.Value.{Value, null, str, end, field}
use multiverse_research.Prelude.Table.{select, update_where}
use multiverse_research.Engine.States.{
  member, recoverable_active_states, lost_lease, renew_state, reclaim_state, Result, ok, ◌>>=◌,
  ◌>>◌, raise_if, validated_worker_id, validated_generation, validated_lease_seconds,
}
use multiverse_research.Engine.Store.Tables.{
  Task, Db, row_id, or_key_error, insert_event, number_of, time_of, lease_renewed, lease_reclaimed,
}
use multiverse_research.Engine.Store.Claims.{check_fence}

abbrev pub later : Option ℕ → ℕ → ℕ
later none t = t
later (some s) t = max s t

-- The row and the event of a renewal.
unfoldable pub write_renewal : Task → String → ℕ → ℕ → ℕ → Db → Db
write_renewal r worker generation until now db = record {
  tasks =
      update_where row_id r.id (λ s. record s { lease_until = some until; updated_at = now })
        db.tasks;
  events =
      insert_event r.id worker lease_renewed r.state r.state
        (field "generation" (number_of generation) (field "lease_until" (time_of until) end)) now
        db.events;
}

-- `renew_lease`
unfoldable pub renew_lease : String → Value → Value → Value → ℕ → Db → Result (ℕ × Db)
renew_lease tid worker_id generation lease_seconds now db = do
  worker ← validated_worker_id worker_id
  gen ← validated_generation generation
  term ← validated_lease_seconds lease_seconds
  r ← or_key_error (select row_id tid db.tasks) tid
  raise_if (not (member r.state recoverable_active_states)) (renew_state r.state)
  check_fence r worker gen now
  ok (
    later r.lease_until (now + term),
    write_renewal r worker gen (later r.lease_until (now + term)) now db,
  )

-- `claimed_by is None or lease_until is None or lease_until >= now`
abbrev pub is_unexpired : Task → ℕ → Bool
is_unexpired r now =
    (elim r.claimed_by [ none ↦ true | some _ ↦ false ])
    || (elim r.lease_until [ none ↦ true | some t ↦ leb now t ])

abbrev prior_worker : Option String → Value
prior_worker none = null
prior_worker (some w) = str w

-- The row and the event of a reclaim.
unfoldable pub write_reclaim : Task → String → ℕ → ℕ → Db → Db
write_reclaim r worker term now db = record {
  tasks =
      update_where row_id r.id
        (λ s. record s {
          claimed_by = some worker;
          claim_generation = r.claim_generation + 1;
          lease_until = some (now + term);
          updated_at = now;
        })
        db.tasks;
  events =
      insert_event r.id worker lease_reclaimed r.state r.state
        (field "prior_worker" (prior_worker r.claimed_by)
          (field "generation" (number_of (r.claim_generation + 1)) end))
        now db.events;
}

-- `reclaim_expired_task`
unfoldable pub reclaim_expired_task : String → Value → Value → ℕ → Db → Result (ℕ × Db)
reclaim_expired_task tid worker_id lease_seconds now db = do
  worker ← validated_worker_id worker_id
  term ← validated_lease_seconds lease_seconds
  r ← or_key_error (select row_id tid db.tasks) tid
  raise_if (not (member r.state recoverable_active_states)) (reclaim_state r.state)
  raise_if (is_unexpired r now) (lost_lease "task lease is not expired")
  ok (r.claim_generation + 1, write_reclaim r worker term now db)
