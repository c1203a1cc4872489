-- ===== src/Engine/Store/Claims.antt =====
-- Fences and claims: the check of a token, claim_next_task and claim_task of automation/shared_engine/db.py.
use multiverse_research.Prelude.{
  ℕ, ◌+◌, String, Bool, true, false, not, ◌&&◌, ◌||◌, Option, none, some, List, [], ◌∷◌, leb, ltb,
  if◌then◌else◌, ◌==◌, nat_eq, string_eq, filterb,
}
use multiverse_research.Prelude.Int.{ltb_ℤ, beq_ℤ}
use multiverse_research.Prelude.Value.{Value, Fields, str, end, field}
use multiverse_research.Prelude.Table.{select, update_where}
use multiverse_research.Engine.States.{
  pending, state_beq, lost_lease, claim_state, Result, ok, ◌>>=◌, ◌>>◌, raise_if,
  validated_worker_id, validated_generation, validated_lease_seconds,
}
use multiverse_research.Engine.Store.Tables.{
  Task, Db, row_id, or_key_error, insert_event, number_of, time_of, lease_claimed,
}

-- `claimed_by != worker_id or claim_generation != generation`
abbrev pub holds_token : Task → String → ℕ → Bool
holds_token r worker generation =
    (elim r.claimed_by [ none ↦ false | some w ↦ w == worker ]) && r.claim_generation == generation

-- `lease_until is None or lease_until <= now`
abbrev pub is_expired : Task → ℕ → Bool
is_expired r now = elim r.lease_until [ none ↦ true | some t ↦ leb t now ]

-- The two checks that every fenced operation makes on the row.
unfoldable pub check_fence : Task → String → ℕ → ℕ → Result (Unit {0})
check_fence r worker generation now = do
  raise_if (not (holds_token r worker generation)) (lost_lease "stale fencing token")
  raise_if (is_expired r now) (lost_lease "task lease expired")

-- `assert_unexpired_fence`
unfoldable pub assert_unexpired_fence : String → Value → Value → ℕ → Db → Result (Unit {0})
assert_unexpired_fence tid worker_id generation now db = do
  worker ← validated_worker_id worker_id
  gen ← validated_generation generation
  r ← or_key_error (select row_id tid db.tasks) tid
  check_fence r worker gen now

-- `claimed_by IS NULL OR lease_until<?`; a comparison with NULL is not true.
abbrev pub is_claimable : ℕ → Task → Bool
is_claimable now r =
    state_beq r.state pending
    && ((elim r.claimed_by [ none ↦ true | some _ ↦ false ])
        || (elim r.lease_until [ none ↦ false | some t ↦ ltb t now ]))

-- `ORDER BY priority DESC,created_at`
abbrev pub precedes : Task → Task → Bool
precedes r s =
    ltb_ℤ s.priority r.priority || (beq_ℤ r.priority s.priority && ltb r.created_at s.created_at)

-- The first row in that order; of rows that are level, the one that was inserted first.
unfoldable pub first_by_order : List Task → Option Task
first_by_order [] = none
first_by_order (r ∷ rs) = elim (first_by_order rs) [
  | none ↦ some r
  | some b ↦ some (if precedes b r then b else r)
]

-- `SET claimed_by=?,claim_generation=claim_generation+1,lease_until=?,updated_at=?`
abbrev pub take_claim : String → ℕ → ℕ → Task → Task
take_claim worker until now r = record r {
  claimed_by = some worker;
  claim_generation = r.claim_generation + 1;
  lease_until = some until;
  updated_at = now;
}

abbrev claim_detail : ℕ → ℕ → String → Fields
claim_detail generation until mode =
    field "generation" (number_of generation)
      (field "lease_until" (time_of until) (field "claim_mode" (str mode) end))

-- Both claims write the row and the event in this way.
unfoldable pub write_claim : Task → String → ℕ → ℕ → String → Db → Db
write_claim r worker term now mode db = record {
  tasks = update_where row_id r.id (take_claim worker (now + term) now) db.tasks;
  events =
      insert_event r.id worker lease_claimed pending pending
        (claim_detail (r.claim_generation + 1) (now + term) mode) now db.events;
}

-- `claim_next_task`
unfoldable pub claim_next_task : Value → Value → ℕ → Db → Result (Option String × Db)
claim_next_task worker_id lease_seconds now db = do
  worker ← validated_worker_id worker_id
  term ← validated_lease_seconds lease_seconds
  elim (first_by_order (filterb (is_claimable now) db.tasks)) [
    | none ↦ ok (none, db)
    | some r ↦ ok (some r.id, write_claim r worker term now "queue" db)
  ]

-- `claimed_by is not None and (lease_until is None or lease_until >= now)`
abbrev pub is_held : Task → ℕ → Bool
is_held r now =
    (elim r.claimed_by [ none ↦ false | some _ ↦ true ])
    && (elim r.lease_until [ none ↦ true | some t ↦ leb now t ])

-- `claim_task`
unfoldable pub claim_task : String → Value → Value → ℕ → Db → Result (ℕ × Db)
claim_task tid worker_id lease_seconds now db = do
  worker ← validated_worker_id worker_id
  term ← validated_lease_seconds lease_seconds
  r ← or_key_error (select row_id tid db.tasks) tid
  raise_if (not (state_beq r.state pending)) (claim_state r.state)
  raise_if (is_held r now) (lost_lease "task is already claimed")
  ok (r.claim_generation + 1, write_claim r worker term now "exact" db)
