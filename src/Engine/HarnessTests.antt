-- ===== src/Engine/HarnessTests.antt =====
-- The local provider and the engine's roles at concrete inputs.
use multiverse_research.Prelude.{◌≡◌, refl, [], ◌∷◌}
use multiverse_research.Prelude.Int.{pos}
use multiverse_research.Prelude.Value.{Fields, int, str, obj, end, field, equals}
use multiverse_research.Prelude.Canonical.{canonical}
use multiverse_research.Engine.Evidence.{IsSameDict}
use multiverse_research.Prelude.Table.{select}
use multiverse_research.Engine.States.{◌>>=◌, ok, IsErr}
use multiverse_research.Engine.Store.{empty_db}
use multiverse_research.Engine.Calls.{run}
use multiverse_research.Engine.Bridge.{Codec, audit, role_of}
use multiverse_research.Engine.Provider.{
  ProviderDb, Script, execute, execute_local_once, validate_result_for_request, provider_adapter_id,
  provider_row,
}
use multiverse_research.Engine.Harness.{Engine, World, Clocks, execute_role}
use multiverse_research.Engine.Gate.{execute_role_not_due, execute_role_err-db}
use multiverse_research.Engine.Once.{execute_local_once_replay}
use multiverse_research.Engine.Tests.{started, started_row, started-row}
use multiverse_research.Engine.BridgeTests.{sha, binding, codec_of, audit_receipt, audit_result}

abbrev engine : Engine
engine = record {
  codec = codec_of (obj (audit_receipt "e"));
  binding = binding;
  manifest = record {
    adapter_id = provider_adapter_id;
    adapter_kind = "local";
    canonical_main = sha;
  };
}

abbrev world : World
world = record {
  db = run empty_db started;
  bridge_receipts = [];
  provider = record { receipts = []; executions = [] };
}

abbrev clocks : Clocks
clocks = record { checked_at = 4000000; provider_at = 4; recorded_at = 5; applied_at = 5000000 }

role_of-audit : role_of (str "AUDIT") ≡ ok audit
unfolding role_of
role_of-audit = refl

execute_role_not_due_example :
    IsErr
      (execute_role engine "t" "AUDIT" 0 "k" (str "w1") (int (pos 1)) audit_result clocks world).0
    × ((execute_role engine "t" "AUDIT" 0 "k" (str "w1") (int (pos 1)) audit_result clocks world).1
        ≡ world)
execute_role_not_due_example =
    execute_role_not_due engine "t" audit "AUDIT" "k" 0 (str "w1") (int (pos 1)) audit_result clocks
      world started_row role_of-audit started-row (λ e. cc)

execute_role_err-db_example :
    (execute_role engine "t" "AUDIT" 0 "k" (str "w1") (int (pos 1)) audit_result clocks world).1.db
    ≡ world.db
execute_role_err-db_example =
    execute_role_err-db engine "t" "AUDIT" "k" 0 (str "w1") (int (pos 1)) audit_result clocks world
      (execute_role_not_due engine "t" audit "AUDIT" "k" 0 (str "w1") (int (pos 1)) audit_result
        clocks world started_row role_of-audit started-row (λ e. cc)).0

abbrev audit_request : Fields
audit_request = field "adapter_id" (str provider_adapter_id) (
    field "role" (str "AUDIT")
      (field "semantic_generation" (int (pos 0)) (field "candidate_head" (str sha) end)))

abbrev scripted_result : Fields
scripted_result =
    field "verdict" (str "PASS")
      (field "reviewed_head" (str sha) (field "evidence_ref" (str "e") end))

abbrev script : Script
script = ("AUDIT", 1, obj scripted_result) ∷ []

abbrev result_codec : Codec
result_codec = codec_of (obj scripted_result)

abbrev executed : ProviderDb
executed = record {
  receipts = provider_row result_codec "k" audit_request scripted_result 3 ∷ [];
  executions = record { operation_key = "k"; times = 1 } ∷ [];
}

first-executed :
    execute_local_once result_codec "k" audit_request script 3
      (record { receipts = []; executions = [] })
    ≡ ok (scripted_result, executed)
unfolding execute_local_once execute validate_result_for_request equals ◌>>=◌ select
first-executed = refl

scripted_result-read_back :
    result_codec.loads (result_codec.dumps (obj scripted_result)) ≡ canonical (obj scripted_result)
unfolding equals
scripted_result-read_back = refl

execute_local_once_replay_example :
    (out' : Fields) × (execute_local_once result_codec "k" audit_request [] 8 executed
      ≡ ok (out', executed))
    × IsSameDict scripted_result out'
execute_local_once_replay_example =
    execute_local_once_replay result_codec "k" audit_request script [] 3 8
      (record { receipts = []; executions = [] }) executed scripted_result scripted_result-read_back
      first-executed
