-- ===== src/Core/Store/Revenues.antt =====
-- Revenue and provider controls of core_state.py.
use multiverse_research.Prelude.{
  ℕ, String, Bool, true, false, not, ◌&&◌, ◌||◌, Option, none, some, List, [], ◌∷◌, ◌++◌,
  if◌then◌else◌, ◌==◌, string_eq, any,
}
use multiverse_research.Prelude.Int.{ℤ, pos, ltb_ℤ}
use multiverse_research.Prelude.Value.{Value, Fields, int, str, null, end, field}
use multiverse_research.Prelude.Table.{select, update_where}
use multiverse_research.Core.Audit.{Digest}
use multiverse_research.Core.Store.Tables.{
  CoreTask, Revenue, Control, Core, task_key, verification_key, control_key, Stamp, attempt,
  with_audit, has_status, verified, closed,
}

-- `INSERT INTO revenues`, of an amount above zero; a task can be paid once only.
unfoldable pub insert_revenue : String → ℤ → String → ℕ → List Revenue → Option (List Revenue)
insert_revenue rid amount tid now revenues =
    if not (ltb_ℤ (pos 0) amount)
    then some revenues
    else if any (λ r. r.id == rid || r.source_task_id == tid) revenues
    then none
    else some (
        revenues
        ++ (record { id = rid; amount = amount; source_task_id = tid; timestamp = now } ∷ []))

-- The receipt of the joined row.
abbrev receipt_value : String → Core → Value
receipt_value tid c = elim (select verification_key tid c.verifications) [
  | none ↦ null
  | some v ↦ str v.receipt_id
]

abbrev pub close : ℕ → CoreTask → CoreTask
close now t = record t { status = closed; updated_at = now }

-- The join of a task with its verification.
abbrev pub is_payable : String → Core → Bool
is_payable tid c =
    has_status tid verified c
    && (elim (select verification_key tid c.verifications) [ none ↦ false | some _ ↦ true ])

-- `realize_revenue_and_close`
unfoldable pub realize_revenue_and_close : Digest → Stamp → String → String → ℤ → Core → Bool × Core
realize_revenue_and_close d s rid tid amount c =
    if ltb_ℤ amount (pos 0) || not (is_payable tid c)
    then (false, c)
    else attempt false c (elim (insert_revenue rid amount tid s.now c.revenues) [
      | none ↦ none
      | some revenues ↦
          with_audit d s "TASK_CLOSED"
            (field "task_id" (str tid)
              (field "realized_amount" (int amount) (field "receipt_id" (receipt_value tid c) end)))
            true
            (record c {
              revenues = revenues;
              tasks = update_where task_key tid (close s.now) c.tasks;
            })
    ])

-- `log_audit`
unfoldable pub log_audit : Digest → Stamp → String → Fields → Core → Option (Unit {0} × Core)
log_audit d s event payload c = with_audit d s event payload tt c

abbrev disabled : String → String → ℕ → Control
disabled provider reason now = record {
  provider_id = provider;
  enabled = false;
  reason = reason;
  updated_at = now;
}

-- `disable_provider`: inserted, or written over the control that is there.
unfoldable pub disable_provider : Digest → Stamp → String → String → Core → Option (Unit {0} × Core)
disable_provider d s provider reason c =
    with_audit d s "FAIL_CLOSED_PROVIDER_DISABLE"
      (field "provider_id" (str provider) (field "reason" (str reason) end)) tt
      (record c {
        controls = elim (select control_key provider c.controls) [
          | none ↦ c.controls ++ disabled provider reason s.now ∷ []
          | some _ ↦
              update_where control_key provider
                (λ u. record u { enabled = false; reason = reason; updated_at = s.now }) c.controls
        ];
      })

-- `is_provider_enabled`
unfoldable pub is_provider_enabled : String → Core → Bool
is_provider_enabled provider c = elim (select control_key provider c.controls) [
  | none ↦ true
  | some k ↦ k.enabled
]
