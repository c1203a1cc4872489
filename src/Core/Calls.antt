-- ===== src/Core/Calls.antt =====
-- Histories of the core state (core_state.py): the calls that write, each in one transaction.
use multiverse_research.Prelude.{String, Bool, Option, none, some, List, [], ◌∷◌}
use multiverse_research.Prelude.Int.{ℤ}
use multiverse_research.Prelude.Value.{Fields}
use multiverse_research.Core.Audit.{Digest}
use multiverse_research.Core.Store.{
  Core, Stamp, Trust, Receipt, add_task, fetch_next_task, mark_task_failed, record_task_claim,
  apply_verification_receipt, realize_revenue_and_close, disable_provider, log_audit,
}

-- An insertion carries the fresh id that it draws.
pub data Call : Type 0 where
  adds : (tid title troop : String) (revenue : ℤ) (key : Option String) → Call
  fetches : Call
  fails : (tid reason : String) → Call
  reports : (tid result provider : String) → Call
  verifies : (tid : String) (r : Receipt) → Call
  realizes : (rid tid : String) (amount : ℤ) → Call
  disables : (provider reason : String) → Call
  logs : (event : String) (payload : Fields) → Call

-- The tables that hold nothing.
abbrev pub empty_core : Core
empty_core = record {
  tasks = [];
  revenues = [];
  verifications = [];
  controls = [];
  audit_logs = [];
}

-- What a deployment fixes: the verifiers and signatures it trusts, its digest, its order of texts.
pub record World : Type 0 where
  pub trust : Trust
  pub digest : Digest
  pub text_lt : String → String → Bool

abbrev pub kept {ℓ} : {A : Type ℓ} → Core → Option (A × Core) → Core
kept c none = c
kept c (some r) = r.1

unfoldable pub step : World → Core → Stamp × Call → Core
step w c (s, adds tid title troop revenue key) =
    (add_task w.digest s tid title troop revenue key c).1
step w c (s, fetches) = (fetch_next_task w.text_lt w.digest s c).1
step w c (s, fails tid reason) = (mark_task_failed w.digest s tid reason c).1
step w c (s, reports tid result provider) = (record_task_claim w.digest s tid result provider c).1
step w c (s, verifies tid r) = (apply_verification_receipt w.trust w.digest s tid r c).1
step w c (s, realizes rid tid amount) = (realize_revenue_and_close w.digest s rid tid amount c).1
step w c (s, logs event payload) = kept c (log_audit w.digest s event payload c)
step w c (s, disables provider reason) = kept c (disable_provider w.digest s provider reason c)

unfoldable pub run : World → Core → List (Stamp × Call) → Core
run w c [] = c
run w c (x ∷ xs) = run w (step w c x) xs
