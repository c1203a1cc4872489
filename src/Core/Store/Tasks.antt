-- ===== src/Core/Store/Tasks.antt =====
-- Tasks and their queue: add_task and record_task_claim of core_state.py, and config/queue.py.
use multiverse_research.Prelude.{
  ℕ, String, Bool, true, false, not, ◌&&◌, ◌||◌, Option, none, some, List, [], ◌∷◌, ◌++◌,
  if◌then◌else◌, ◌==◌, string_eq, nat_beq, ltb, filterb,
}
use multiverse_research.Prelude.Int.{ℤ}
use multiverse_research.Prelude.Value.{int, str, obj, end, field}
use multiverse_research.Prelude.Text.{is_empty}
use multiverse_research.Prelude.Table.{select}
use multiverse_research.Core.Audit.{Digest}
use multiverse_research.Core.Store.Tables.{
  status_beq, CoreTask, Core, task_key, Stamp, attempt, with_audit, has_status, rewrite_task,
  no_key, by_idempotency_key, number_or_null, queued, running, success_claimed, failed,
}

-- `_request_fingerprint`
unfoldable pub request_fingerprint : Digest → String → String → ℤ → String
request_fingerprint d title troop revenue = d.sha256 (
    d.dumps (
      obj (
        field "title" (str title) (field "troop" (str troop) (field "revenue" (int revenue) end)))))

abbrev pub new_task : String → String → String → ℤ → Option String → String → ℕ → CoreTask
new_task tid title troop revenue key print now = record {
  id = tid;
  title = title;
  troop = troop;
  claimed_revenue = revenue;
  status = queued;
  created_at = now;
  updated_at = now;
  result = none;
  result_provider = none;
  verification_note = none;
  idempotency_key = key;
  request_fingerprint = print;
}

-- The insertion of `add_task`: the id and a key that is not NULL must be new to the table.
unfoldable pub insert_task : Digest → Stamp → CoreTask → Core → Option (Option String × Core)
insert_task d s t c = elim (select task_key t.id c.tasks) [
  | some _ ↦ none
  | none ↦ elim (by_idempotency_key t.idempotency_key c.tasks) [
    | some _ ↦ none
    | none ↦
        with_audit d s "TASK_ADDED"
          (field "task_id" (str t.id) (
            field "title" (str t.title) (
              field "troop" (str t.troop)
                (field "request_fingerprint" (str t.request_fingerprint) end))))
          (some t.id) (record c { tasks = c.tasks ++ t ∷ [] })
  ]
]

-- `add_task`
unfoldable pub add_task :
    Digest → Stamp → String → String → String → ℤ → Option String → Core → Option String × Core
add_task d s tid title troop revenue key c =
    let print = request_fingerprint d title troop revenue in
    let insertion = insert_task d s (new_task tid title troop revenue key print s.now) c in
    attempt none c (
      if no_key key then insertion else elim (by_idempotency_key key c.tasks) [
        | none ↦ insertion
        | some old ↦
            if is_empty old.request_fingerprint || not (old.request_fingerprint == print)
            then with_audit d s "IDEMPOTENCY_CONTENT_MISMATCH"
                (field "idempotency_key" (number_or_null key)
                  (field "existing_task_id" (str old.id) end))
                none c
            else some (some old.id, c)
      ])

-- `DeterministicTaskQueue.fetch_next_task` takes the row that is first by creation, then id.
abbrev pub older : (String → String → Bool) → CoreTask → CoreTask → Bool
older text_lt t u =
    ltb t.created_at u.created_at || (nat_beq t.created_at u.created_at && text_lt t.id u.id)

unfoldable pub oldest : (String → String → Bool) → List CoreTask → Option CoreTask
oldest text_lt [] = none
oldest text_lt (t ∷ ts) = elim (oldest text_lt ts) [
  | none ↦ some t
  | some u ↦ some (if older text_lt u t then u else t)
]

abbrev pub start : ℕ → CoreTask → CoreTask
start now t = record t { status = running; updated_at = now }

abbrev pub is_queued : CoreTask → Bool
is_queued t = status_beq t.status queued

-- `fetch_next_task`; the order of texts is a parameter, and the answer is the row that was read, of
-- which the code hands out id, title and troop.
unfoldable pub fetch_next_task :
    (String → String → Bool) → Digest → Stamp → Core → Option CoreTask × Core
fetch_next_task text_lt d s c = elim (oldest text_lt (filterb is_queued c.tasks)) [
  | none ↦ (none, c)
  | some t ↦ attempt none c (
      with_audit d s "TASK_STARTED" (field "task_id" (str t.id) end) (some t)
        (rewrite_task t.id (start s.now) c))
]

-- `mark_task_failed`
unfoldable pub mark_task_failed : Digest → Stamp → String → String → Core → Bool × Core
mark_task_failed d s tid reason c =
    if has_status tid running c
    then attempt false c (
        with_audit d s "TASK_FAILED" (field "task_id" (str tid) (field "reason" (str reason) end))
          true (rewrite_task tid (λ u. record u { status = failed; updated_at = s.now }) c))
    else (false, c)

-- `record_task_claim`
unfoldable pub record_task_claim : Digest → Stamp → String → String → String → Core → Bool × Core
record_task_claim d s tid result provider c =
    if has_status tid running c
    then attempt false c (
        with_audit d s "TASK_RESULT_CLAIMED"
          (field "task_id" (str tid) (field "provider_id" (str provider) end)) true
          (rewrite_task tid
            (λ u. record u {
              status = success_claimed;
              result = some result;
              result_provider = some provider;
              updated_at = s.now;
            })
            c))
    else (false, c)
