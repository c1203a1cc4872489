-- ===== src/Research/Task.antt =====
-- The contract of a research task: `validate_task` of automation/multimodel_research_v1/model.py.
use multiverse_research.Prelude.{
  ℕ, suc, String, Bool, true, false, not, ◌&&◌, ◌||◌, Option, none, some, List, [], ◌∷◌, ◌++◌,
  if◌then◌else◌, ◌==◌, string_eq, elem, leb, any,
}
use multiverse_research.Prelude.Value.{Value, Items, Fields, nil, cons, equals}
use multiverse_research.Prelude.Json.{
  item, is_str, is_null, is_string, is_object_of, text_in, items_in, fields_in, is_dict,
  is_filled_list, exact_keys, all_items, texts_in, has_repeat,
}
use multiverse_research.Prelude.Checked.{
  Checked, passed, refused, contract, require, ◌>>=◌, ◌>>◌, each, hashed, require_in,
}
use multiverse_research.Research.Contract.{
  Library, identifier, text, is_digest, is_optional_digest, parse_utc_timestamp, nonauthority,
  reject_dynamic_keys, is_within,
}

abbrev pub task_v1_keys : List String
task_v1_keys =
    "schema" ∷ "task_id" ∷ "snapshot_id" ∷ "created_at" ∷ "domain" ∷ "objective" ∷ "source_refs"
    ∷ "allowed_primitives" ∷ "constraints" ∷ "requested_roles" ∷ "nonauthority" ∷ []

abbrev pub task_v2_keys : List String
task_v2_keys = task_v1_keys ++ "evidence_manifest" ∷ []

abbrev pub is_v1 : Fields → Bool
is_v1 task = is_string (item task "schema") "MULTIVERSE_RESEARCH_TASK_v1"

abbrev pub is_v2 : Fields → Bool
is_v2 task = is_string (item task "schema") "MULTIVERSE_RESEARCH_TASK_v2"

abbrev pub allowed_primitives : List String
allowed_primitives =
    "SOURCE_REF" ∷ "SUBTREE_HASH" ∷ "NORMALIZED_JSON_SHA256" ∷ "EXACT_LINEAGE" ∷ "UNITTEST_RESULT"
    ∷ "VALIDATOR_RESULT" ∷ "PUBLIC_EVIDENCE_REF" ∷ "SYNTHETIC_FIXTURE" ∷ []

-- `primitive in {"SOURCE_REF", "PUBLIC_EVIDENCE_REF"}`
abbrev pub names_source : Value → Bool
names_source v = is_string v "SOURCE_REF" || is_string v "PUBLIC_EVIDENCE_REF"

abbrev pub count_items : Items → ℕ
count_items nil = 0
count_items (cons x xs) = suc (count_items xs)

-- `xs[ref]` of the declared sources; the texts are all different.
abbrev pub digest_of : String → List (String × Value) → Option Value
digest_of ref [] = none
digest_of ref ((r, d) ∷ more) = let rest = digest_of ref more in if r == ref then some d else rest

-- The check of a schema, with the keys that go with it.
unfoldable pub check_keys : Fields → Checked (Unit {0})
check_keys task =
    if is_v1 task
    then require (exact_keys task task_v1_keys) "TASK_SCHEMA_KEYS"
    else if is_v2 task
    then require (exact_keys task task_v2_keys) "TASK_SCHEMA_KEYS"
    else refused (contract "TASK_SCHEMA_VERSION")

-- The body of the loop over the source references.
unfoldable pub check_source_ref :
    Library → ℕ → List (String × Value) → Value → Checked (String × Value)
check_source_ref lib created seen v = do
  require (is_object_of ("kind" ∷ "ref" ∷ "sha256" ∷ "observed_at" ∷ []) v) "SOURCE_REF_SCHEMA"
  let d = fields_in v
  _ ← identifier (item d "kind") "SOURCE_REF_KIND"
  ref ← text (item d "ref") "SOURCE_REF_REF" 4000
  observed_at ← parse_utc_timestamp lib (item d "observed_at") "SOURCE_REF_OBSERVED_AT"
  require (leb observed_at created) "SOURCE_REF_OBSERVED_AFTER_TASK_CREATED"
  require (elim (digest_of ref seen) [ none ↦ true | some _ ↦ false ]) "DUPLICATE_SOURCE_REF"
  require (is_optional_digest (item d "sha256")) "SOURCE_REF_SHA256"
  passed (ref, item d "sha256")

-- The loop; it gives `source_ref_digests`, whose keys are `seen_source_refs`.
unfoldable pub check_source_refs :
    Library → ℕ → List (String × Value) → Items → Checked (List (String × Value))
check_source_refs lib created seen nil = passed seen
check_source_refs lib created seen (cons v xs) = do
  entry ← check_source_ref lib created seen v
  check_source_refs lib created (entry ∷ seen) xs

abbrev is_primitive : Value → Bool
is_primitive v = is_str v && elem (text_in v) allowed_primitives

unfoldable pub check_primitives : Value → Checked (Unit {0})
check_primitives v = do
  require (is_filled_list v) "ALLOWED_PRIMITIVES"
  hashed v
  require (all_items is_primitive (items_in v)) "UNKNOWN_PRIMITIVE"
  require (not (has_repeat (texts_in (items_in v)))) "DUPLICATE_PRIMITIVE"

-- `v in xs`, of a list of texts.
abbrev pub is_among : Value → Items → Bool
is_among v xs = is_str v && elem (text_in v) (texts_in xs)

-- What the manifest says of a declared source.
unfoldable pub check_declared : List (String × Value) → String → Value → Checked (Unit {0})
check_declared sources ref digest = elim (digest_of ref sources) [
  | none ↦ refused (contract "TASK_EVIDENCE_SOURCE_REF_NOT_DECLARED")
  | some source_digest ↦
      require (not (is_null source_digest)) "TASK_EVIDENCE_SOURCE_DIGEST_REQUIRED"
      >> require (equals digest source_digest) "TASK_EVIDENCE_SOURCE_SHA256_MISMATCH"
]

abbrev same_key : String × String → String × String → Bool
same_key (p, r) (q, s) = p == q && r == s

-- The body of the loop over the evidence manifest.
unfoldable pub check_manifest_entry :
    Library
    → ℕ
    → Items
    → List (String × Value)
    → List (String × String)
    → Value
    → Checked (String × String)
check_manifest_entry lib created primitives sources seen v = do
  require (is_object_of ("primitive" ∷ "ref" ∷ "sha256" ∷ "observed_at" ∷ []) v)
      "TASK_EVIDENCE_MANIFEST_SCHEMA"
  let d = fields_in v
  require (is_among (item d "primitive") primitives) "TASK_EVIDENCE_MANIFEST_PRIMITIVE_NOT_ALLOWED"
  ref ← text (item d "ref") "TASK_EVIDENCE_MANIFEST_REF" 4000
  require (not (any (same_key (text_in (item d "primitive"), ref)) seen))
      "DUPLICATE_TASK_EVIDENCE_MANIFEST_ENTRY"
  require (is_digest (item d "sha256")) "TASK_EVIDENCE_MANIFEST_SHA256_REQUIRED"
  observed_at ← parse_utc_timestamp lib (item d "observed_at") "TASK_EVIDENCE_MANIFEST_OBSERVED_AT"
  require (leb observed_at created) "TASK_EVIDENCE_MANIFEST_OBSERVED_AFTER_TASK_CREATED"
  if names_source (item d "primitive")
      then check_declared sources ref (item d "sha256")
      else passed tt
  passed (text_in (item d "primitive"), ref)

unfoldable pub check_manifest_entries :
    Library
    → ℕ
    → Items
    → List (String × Value)
    → List (String × String)
    → Items
    → Checked (Unit {0})
check_manifest_entries lib created primitives sources seen nil = passed tt
check_manifest_entries lib created primitives sources seen (cons v xs) = do
  entry ← check_manifest_entry lib created primitives sources seen v
  check_manifest_entries lib created primitives sources (entry ∷ seen) xs

unfoldable pub check_manifest :
    Library → ℕ → Items → List (String × Value) → Value → Checked (Unit {0})
check_manifest lib created primitives sources v = do
  require (is_filled_list v) "TASK_EVIDENCE_MANIFEST"
  require (leb (count_items (items_in v)) 500) "TASK_EVIDENCE_MANIFEST_LIMIT"
  check_manifest_entries lib created primitives sources [] (items_in v)

unfoldable pub check_constraints : Value → Checked (Unit {0})
check_constraints v = do
  require
      (is_object_of
        ("network_access" ∷ "max_compute_seconds" ∷ "max_output_bytes" ∷ "max_findings" ∷ []) v)
      "CONSTRAINT_SCHEMA"
  let d = fields_in v
  require_in (item d "network_access") ("NONE" ∷ "PUBLIC_READ_ONLY" ∷ []) "NETWORK_ACCESS"
  require (is_within 1 3600 (item d "max_compute_seconds")) "MAX_COMPUTE_SECONDS"
  require (is_within 1024 10000000 (item d "max_output_bytes")) "MAX_OUTPUT_BYTES"
  require (is_within 1 500 (item d "max_findings")) "MAX_FINDINGS"

unfoldable pub check_roles : Value → Checked (Unit {0})
check_roles v = do
  require (is_filled_list v) "REQUESTED_ROLES"
  require (leb (count_items (items_in v)) 16) "REQUESTED_ROLES_LIMIT"
  each (λ role. identifier role "REQUESTED_ROLE" >>= λ _. passed tt) (items_in v)
  require (not (has_repeat (texts_in (items_in v)))) "DUPLICATE_REQUESTED_ROLE"

-- `validate_task`; a task that passes is returned as it is.
unfoldable pub validate_task : Library → Value → Checked Fields
validate_task lib v = do
  require (is_dict v) "TASK_OBJECT"
  let task = fields_in v
  check_keys task
  _ ← identifier (item task "task_id") "TASK_ID"
  _ ← identifier (item task "snapshot_id") "SNAPSHOT_ID"
  created ← parse_utc_timestamp lib (item task "created_at") "TASK_CREATED_AT"
  _ ← identifier (item task "domain") "DOMAIN"
  _ ← text (item task "objective") "OBJECTIVE" 20000
  let refs = item task "source_refs"
  require (is_filled_list refs) "SOURCE_REFS"
  require (leb (count_items (items_in refs)) 100) "SOURCE_REFS_LIMIT"
  sources ← check_source_refs lib created [] (items_in refs)
  check_primitives (item task "allowed_primitives")
  if is_v2 task
      then check_manifest lib created (items_in (item task "allowed_primitives")) sources
          (item task "evidence_manifest")
      else passed tt
  check_constraints (item task "constraints")
  check_roles (item task "requested_roles")
  nonauthority (item task "nonauthority")
  reject_dynamic_keys lib v
  passed task
