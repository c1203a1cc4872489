-- ===== src/Research/Fixtures.antt =====
-- A research task, a source, findings and results to test with.
use multiverse_research.Prelude.{String, false, some, List, [], ◌∷◌, ◌&&◌, leb}
use multiverse_research.Prelude.Int.{pos}
use multiverse_research.Prelude.Value.{
  Value, Fields, bool, int, str, obj, arr, end, field, nil, cons,
}
use multiverse_research.Research.Contract.{Library, nonauthority_keys}

abbrev pub digest : String
digest = "0123456789abcdef0123456789abcdef0123456789abcdef0123456789abcdef"

abbrev pub lib : Library
lib = record {
  lower = λ s. s;
  is_decimal = λ c. leb b'0' c && leb c b'9';
  fromisoformat = λ _. some 7;
  sha256_json = λ _. digest;
  output_bytes = λ _. 900;
}

abbrev pub refusals : List String → Fields
refusals [] = end
refusals (k ∷ ks) = field k (bool false) (refusals ks)

abbrev pub moment : Value
moment = str "2026-01-02T03:04:05Z"

abbrev pub one : Value → Value
one v = arr (cons v nil)

abbrev pub source : Value
source = obj (
    field "kind" (str "paper")
      (field "ref" (str "doc") (field "sha256" (str digest) (field "observed_at" moment end))))

abbrev pub entry : Value
entry = obj (
    field "primitive" (str "SOURCE_REF")
      (field "ref" (str "doc") (field "sha256" (str digest) (field "observed_at" moment end))))

abbrev pub task : Fields
task = field "schema" (str "MULTIVERSE_RESEARCH_TASK_v2") (
    field "task_id" (str "task-1") (
      field "snapshot_id" (str "snap-1") (
        field "created_at" moment (
          field "domain" (str "physics") (
            field "objective" (str "why") (
              field "source_refs" (one source) (
                field "allowed_primitives" (one (str "SOURCE_REF")) (
                  field "constraints"
                    (obj (
                      field "network_access" (str "NONE") (
                        field "max_compute_seconds" (int (pos 60)) (
                          field "max_output_bytes" (int (pos 2048))
                            (field "max_findings" (int (pos 3)) end)))))
                    (field "requested_roles" (one (str "critic")) (
                      field "nonauthority" (obj (refusals nonauthority_keys))
                        (field "evidence_manifest" (one entry) end)))))))))))

abbrev pub finding : String → Value
finding position = obj (
    field "finding_id" (str "f-1") (
      field "claim_key" (str "claim") (
        field "position" (str position) (
          field "severity" (str "LOW") (
            field "assertion" (str "so") (
              field "evidence"
                (obj (
                  field "primitive" (str "SOURCE_REF")
                    (field "ref" (str "doc") (field "sha256" (str digest) end))))
                (field "confidence" (int (pos 1)) (
                  field "uncertainty" (str "some") (
                    field "recommendation" (str "go")
                      (field "validation_plan" (str "test") end))))))))))

abbrev pub result : String → String → String → Fields
result submission model position = field "schema" (str "MULTIVERSE_RESEARCH_RESULT_v1") (
    field "task_id" (str "task-1") (
      field "task_sha256" (str digest) (
        field "submission_id" (str submission) (
          field "snapshot_id" (str "snap-1") (
            field "produced_at" moment (
              field "model_identity"
                (obj (
                  field "provider" (str "local")
                    (field "model" (str model) (field "role" (str "critic") end))))
                (field "status" (str "COMPLETED") (
                  field "findings" (one (finding position)) (
                    field "uncertainty_factors" (arr nil)
                      (field "nonauthority" (obj (refusals nonauthority_keys)) end))))))))))

abbrev pub first : Fields
first = result "sub-2" "one" "SUPPORT"

-- The same content from the same model, and an opposing model.
abbrev pub again : Fields
again = result "sub-1" "one" "SUPPORT"

abbrev pub opposing : Fields
opposing = result "sub-3" "two" "OPPOSE"
