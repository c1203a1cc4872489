-- ===== src/Core/Store/Tables.antt =====
-- The tables of `CoreStateEngine` and its transactions (core_state.py).
use multiverse_research.Prelude.{
  ℕ, String, Bool, true, false, Option, none, some, List, [], ◌∷◌, if◌then◌else◌, ◌==◌, string_eq,
  nat_beq,
}
use multiverse_research.Prelude.Int.{ℤ}
use multiverse_research.Prelude.Value.{Value, Fields, str, null, obj}
use multiverse_research.Prelude.Text.{is_empty}
use multiverse_research.Prelude.Table.{select, update_where}
use multiverse_research.Core.Audit.{Digest, LogRow, append_audit}

pub data Status : Type 0 where
  queued running success_claimed verified closed failed : Status

abbrev pub rank : Status → ℕ
rank queued = 0
rank running = 1
rank success_claimed = 2
rank verified = 3
rank closed = 4
rank failed = 5

abbrev pub status_beq : Status → Status → Bool
status_beq s t = nat_beq (rank s) (rank t)

pub record CoreTask : Type 0 where
  pub id : String
  pub title : String
  pub troop : String
  pub claimed_revenue : ℤ
  pub status : Status
  pub created_at : ℕ
  pub updated_at : ℕ
  pub result : Option String
  pub result_provider : Option String
  pub verification_note : Option (String × String × String)
  pub idempotency_key : Option String
  pub request_fingerprint : String

pub record Revenue : Type 0 where
  pub id : String
  pub amount : ℤ
  pub source_task_id : String
  pub timestamp : ℕ

pub record Verification : Type 0 where
  pub receipt_id : String
  pub task_id : String
  pub verifier_id : String
  pub evidence_ref : String
  pub evidence_sha256 : String
  pub request_integrity : String
  pub timestamp : ℕ

pub record Control : Type 0 where
  pub provider_id : String
  pub enabled : Bool
  pub reason : String
  pub updated_at : ℕ

pub record Core : Type 0 where
  pub tasks : List CoreTask
  pub revenues : List Revenue
  pub verifications : List Verification
  pub controls : List Control
  pub audit_logs : List LogRow

abbrev pub task_key : CoreTask → String
task_key t = t.id

-- One verification to a task, one revenue to a task, one control to a provider.
abbrev pub verification_key : Verification → String
verification_key v = v.task_id

abbrev pub revenue_key : Revenue → String
revenue_key r = r.source_task_id

abbrev pub control_key : Control → String
control_key c = c.provider_id

-- What a call draws from outside: the clock, as a number and as a text, and a fresh audit id.
pub record Stamp : Type 0 where
  pub now : ℕ
  pub time_text : String
  pub audit_id : String

-- A transaction with the answer of its `except` clause.
unfoldable pub attempt {ℓ} : {A : Type ℓ} → A → Core → Option (A × Core) → A × Core
attempt fallback c none = (fallback, c)
attempt fallback c (some r) = r

-- The audit entry as the last step of a transaction.
unfoldable pub with_audit {ℓ} :
    {A : Type ℓ} → Digest → Stamp → String → Fields → A → Core → Option (A × Core)
with_audit d s event payload a c =
    elim (append_audit d s.audit_id s.time_text event (d.dumps (obj payload)) c.audit_logs) [
      | none ↦ none
      | some log ↦ some (a, record c { audit_logs = log })
    ]

-- The status of a task, if it has one; `UPDATE … WHERE id=? AND status=?` writes one row when this
-- is the status asked for, and none otherwise.
abbrev pub has_status : String → Status → Core → Bool
has_status tid s c = elim (select task_key tid c.tasks) [
  | none ↦ false
  | some t ↦ status_beq t.status s
]

abbrev pub rewrite_task : String → (CoreTask → CoreTask) → Core → Core
rewrite_task tid f c = record c { tasks = update_where task_key tid f c.tasks }

abbrev pub no_key : Option String → Bool
no_key none = true
no_key (some k) = is_empty k

abbrev pub key_is : Option String → Option String → Bool
key_is (some j) (some k) = j == k
key_is _ _ = false

-- `SELECT … WHERE idempotency_key=?`
unfoldable pub by_idempotency_key : Option String → List CoreTask → Option CoreTask
by_idempotency_key k [] = none
by_idempotency_key k (t ∷ ts) =
    let rest = by_idempotency_key k ts in if key_is t.idempotency_key k then some t else rest

abbrev pub number_or_null : Option String → Value
number_or_null none = null
number_or_null (some k) = str k
