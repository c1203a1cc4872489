-- ===== src/Core/Tests.antt =====
-- The core state at concrete inputs: a task that is queued, done, verified and paid.
use Prim.Native.String.{count}
use multiverse_research.Prelude.{
  ℕ, ◌≡◌, refl, String, true, false, some, List, [], ◌∷◌, All, ◌⊎◌, length, Option, if◌then◌else◌,
  ◌==◌, string_eq, Bool-cases, inl, inr,
}
use multiverse_research.Prelude.Int.{pos}
use multiverse_research.Prelude.Text.{is_hex_text}
use multiverse_research.Prelude.Value.{str, field, end}
use multiverse_research.Prelude.Table.{select, update_where, HasUniqueKeys}
use multiverse_research.Core.Audit.{
  Digest, LogRow, new_row, append_audit, verify_audit_chain, last_hash, SameMessages, Collides,
  chain_is_tamper_evident, message,
}
use multiverse_research.Core.Store.{
  Core, add_task, insert_task, by_idempotency_key, request_fingerprint, with_audit, attempt,
  log_audit, fetch_next_task, oldest, record_task_claim, apply_verification_receipt, admits,
  write_verification, verification_payload, realize_revenue_and_close, insert_revenue, CoreTask,
  Verification, Stamp, Receipt, task_key, verification_key, revenue_key, status_beq, closed,
}
use multiverse_research.Core.Calls.{
  World, Call, adds, fetches, reports, verifies, realizes, logs, empty_core, run, step,
}
use multiverse_research.Core.Backing.{IsExternal}
use multiverse_research.Core.Idempotency.{add_task_again}
use multiverse_research.Core.Payments.{revenue_is_verified, paid_once_and_audited}

-- A digest of 64 digits.
abbrev digest : Digest
digest = record {
  dumps = λ _. "{}";
  sha256 = λ _. "0000000000000000000000000000000000000000000000000000000000000000";
}

-- A digest of 64 digits that knows the text of the first entry only.
abbrev chain_digest : Digest
chain_digest = record {
  dumps = λ _. "{}";
  sha256 = λ s.
      if s == "GENESIS|a|TASK_ADDED|{}|t1"
      then "0000000000000000000000000000000000000000000000000000000000000000"
      else "1111111111111111111111111111111111111111111111111111111111111111";
}

chain_digest-wide : (s : String) → count (chain_digest.sha256 s) ≡ 64
chain_digest-wide s = elim (Bool-cases (s == "GENESIS|a|TASK_ADDED|{}|t1")) [
  | inl e ↦ rw e refl
  | inr e ↦ rw e refl
]

abbrev one_entry : List LogRow
one_entry = new_row chain_digest "a" "t1" "TASK_ADDED" "{}" [] ∷ []

one_entry-appended : append_audit chain_digest "a" "t1" "TASK_ADDED" "{}" [] ≡ some one_entry
unfolding append_audit
one_entry-appended = refl

-- A second entry, at one time and at another.
abbrev two_entries : String → List LogRow
two_entries ts = new_row chain_digest "b" ts "TASK_ADDED" "{}" one_entry ∷ one_entry

two_entries-verify : verify_audit_chain chain_digest (two_entries "t2") ≡ true
unfolding verify_audit_chain message
two_entries-verify = refl

other_entries-verify : verify_audit_chain chain_digest (two_entries "t3") ≡ true
unfolding verify_audit_chain message
other_entries-verify = refl

same_end : last_hash (two_entries "t2") ≡ last_hash (two_entries "t3")
unfolding message
same_end = refl

chain_is_tamper_evident_example :
    SameMessages (two_entries "t2") (two_entries "t3")
    ⊎ Collides chain_digest (two_entries "t2") (two_entries "t3")
chain_is_tamper_evident_example =
    chain_is_tamper_evident chain_digest (two_entries "t2") (two_entries "t3") chain_digest-wide
      two_entries-verify other_entries-verify refl same_end

-- A digest that names an entry by its text, a verifier that is trusted, and its signatures.
abbrev world : World
world = record {
  trust = record { trusted = λ _. true; signed = λ _ _ _. true };
  digest = record { dumps = λ _. "{}"; sha256 = λ s. s };
  text_lt = λ _ _. false;
}

abbrev stamp : ℕ → String → Stamp
stamp now audit_id = record { now = now; time_text = "now"; audit_id = audit_id }

abbrev receipt : Receipt
receipt = record {
  receipt_id = "r";
  verifier_id = "v";
  evidence_ref = "e";
  evidence_sha256 = "0000000000000000000000000000000000000000000000000000000000000000";
  verdict = "ACCEPT";
  request_integrity = "s";
}

abbrev paid_history : List (Stamp × Call)
paid_history =
    (stamp 0 "a0", logs "SYSTEM_START" (field "message" (str "CoreStateEngine booted") end))
    ∷ (stamp 1 "a1", adds "t" "title" "troop" (pos 10) (some "key"))
    ∷ (stamp 2 "a2", fetches)
    ∷ (stamp 3 "a3", reports "t" "result" "p")
    ∷ (stamp 4 "a4", verifies "t" receipt)
    ∷ (stamp 5 "a5", realizes "m" "t" (pos 10))
    ∷ (stamp 6 "a6", realizes "n" "t" (pos 10))
    ∷ []

revenue_is_verified_example :
    All
      (λ r.
        (t : CoreTask) × (v : Verification) × (select task_key r.source_task_id
            (run world empty_core paid_history).tasks
          ≡ some t)
        × (status_beq t.status closed ≡ true)
        × (select verification_key t.id (run world empty_core paid_history).verifications ≡ some v)
        × IsExternal world t v)
      (run world empty_core paid_history).revenues
revenue_is_verified_example = revenue_is_verified world paid_history

paid_once_and_audited_example :
    HasUniqueKeys revenue_key (run world empty_core paid_history).revenues
    × (verify_audit_chain world.digest (run world empty_core paid_history).audit_logs ≡ true)
paid_once_and_audited_example = paid_once_and_audited world paid_history

-- The history pays once.
paid-revenues : length (run world empty_core paid_history).revenues ≡ 1
unfolding run step log_audit add_task insert_task by_idempotency_key request_fingerprint with_audit
    append_audit message attempt fetch_next_task oldest record_task_claim apply_verification_receipt
    admits write_verification verification_payload realize_revenue_and_close insert_revenue select
    update_where is_hex_text
paid-revenues = refl

abbrev added : Option String × Core
added = add_task digest (stamp 1 "a1") "t" "title" "troop" (pos 10) (some "key") empty_core

added-answer :
    add_task digest (stamp 1 "a1") "t" "title" "troop" (pos 10) (some "key") empty_core
    ≡ (some "t", added.1)
unfolding add_task insert_task by_idempotency_key request_fingerprint with_audit append_audit
    message attempt select
added-answer = refl

add_task_again_example :
    add_task digest (stamp 2 "a2") "u" "title" "troop" (pos 10) (some "key") added.1
    ≡ (some "t", added.1)
add_task_again_example =
    add_task_again digest "title" "troop" (pos 10) (some "key") (λ _. refl) refl (stamp 1 "a1")
      (stamp 2 "a2") "t" "u" "t" empty_core added.1 added-answer
