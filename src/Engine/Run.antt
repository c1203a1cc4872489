-- ===== src/Engine/Run.antt =====
-- The rest of the harness: the calls that pass on to the store, and the whole path of a task
-- (automation/shared_engine/exact_v7_shared_engine.py).
use Prim.Native.String.{◌++◌}
use multiverse_research.Prelude.{ℕ, String}
use multiverse_research.Prelude.Int.{pos}
use multiverse_research.Prelude.Value.{Value, Fields, int, str, end, field}
use multiverse_research.Engine.States.{TaskState, Result, ok, err}
use multiverse_research.Engine.Store.{Db, renew_lease, reclaim_expired_task}
use multiverse_research.Engine.Harness.{Engine, World, Clocks, claim_and_start, execute_role}

-- `renew`
unfoldable renew : String → Value → Value → Value → ℕ → Db → Result (ℕ × Db)
renew tid worker generation lease_seconds now db =
    renew_lease tid worker generation lease_seconds now db

-- `reclaim_expired`
unfoldable reclaim_expired : String → Value → Value → ℕ → Db → Result (ℕ × Db)
reclaim_expired tid worker lease_seconds now db =
    reclaim_expired_task tid worker lease_seconds now db

abbrev evidence_of : String → String → Value
evidence_of tid step = str ("evidence:" ++ tid ++ step)

abbrev ready : String → String → Fields
ready tid head = field "status" (str "READY") (
    field "candidate_head" (str head) (
      field "diff_lines" (int (pos 1)) (
        field "cost_microusd" (int (pos 0))
          (field "evidence_ref" (evidence_of tid ":implement") end))))

abbrev pass : String → String → String → Fields
pass tid head step =
    field "verdict" (str "PASS")
      (field "reviewed_head" (str head) (field "evidence_ref" (evidence_of tid step) end))

-- A step, and the next one unless it raised.
abbrev then_in {ℓ} :
    {A : Type ℓ} {B : Type 0} → Result A × World → (A → World → Result B × World) → Result B × World
then_in (err e, w) k = (err e, w)
then_in (ok a, w) k = k a w

-- The clock readings of `run_happy_path`, in order.
pub record PathClocks : Type 0 where
  pub claimed_at : ℕ
  pub started_at : ℕ
  pub implement : Clocks
  pub lab : Clocks
  pub audit : Clocks

abbrev start_in : String → String → PathClocks → World → Result ℕ × World
start_in tid worker clocks w =
    let (answer, db) = claim_and_start tid (str worker) clocks.claimed_at clocks.started_at w.db in
    (answer, record w { db = db })

-- `run_happy_path`
unfoldable pub run_happy_path :
    Engine → String → String → PathClocks → World → Result TaskState × World
run_happy_path e tid worker clocks w =
    let head = e.binding.candidate_head in
    then_in (start_in tid worker clocks w) λ gen w.
      let token = int (pos gen) in
      then_in
        (execute_role e tid "IMPLEMENT" 0 (tid ++ ":implement") (str worker) token (ready tid head)
          clocks.implement w)
        λ _ w.
          then_in
            (execute_role e tid "LAB" 0 (tid ++ ":lab") (str worker) token (pass tid head ":lab")
              clocks.lab w)
            λ _ w.
              execute_role e tid "AUDIT" 0 (tid ++ ":audit") (str worker) token
                (pass tid head ":audit") clocks.audit w
