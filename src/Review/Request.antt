-- ===== src/Review/Request.antt =====
-- The contract of a review request: `validate_request` of
-- automation/review_dispatcher_v1/model_legacy_v1.py.
use multiverse_research.Prelude.{
  ℕ, String, Bool, false, ◌&&◌, ◌||◌, List, [], ◌∷◌, if◌then◌else◌, string_eq, all, nat_beq, leb,
  length,
}
use multiverse_research.Prelude.Value.{Value, Fields, size}
use multiverse_research.Prelude.Json.{
  item, is_text, is_str, is_null, is_string, is_false, is_positive, is_object_of, is_dict, text_in,
  fields_in,
}
use multiverse_research.Prelude.Text.{codes, occurrences}
use multiverse_research.Prelude.Checked.{Checked, passed, require, ◌>>◌, each_field, require_in}
use multiverse_research.Review.Shapes.{sha40, sha256_hex}
use multiverse_research.Review.Paths.{Net}
use multiverse_research.Review.Recipe.{check_recipe, check_public_http}

abbrev pub request_keys : List String
request_keys =
    "schema" ∷ "request_id" ∷ "lane" ∷ "mode" ∷ "repo" ∷ "pr" ∷ "head" ∷ "tree" ∷ "base" ∷ "main"
    ∷ "proof_ceiling" ∷ "execution_state" ∷ "supersedes_request_sha256" ∷ "recipe" ∷ "upstream"
    ∷ "nonauthority" ∷ []

abbrev pub nonauthority_keys : List String
nonauthority_keys =
    "provider_resource_mutation" ∷ "deploy" ∷ "database_mutation" ∷ "provider_effect_enablement"
    ∷ "runtime_activation_bridge_enablement" ∷ "runtime_activation" ∷ "production_credentials"
    ∷ "production_deployment" ∷ "protected_data" ∷ "live_business_effect" ∷ "additional_spend"
    ∷ "merge" ∷ "main_mutation" ∷ "ruleset_mutation" ∷ "workflow_dispatch_rerun" ∷ []

abbrev is_low : ℕ → Bool
is_low c = (leb b'a' c && leb c b'z') || (leb b'0' c && leb c b'9')

abbrev is_id_char : ℕ → Bool
is_id_char c = is_low c || nat_beq c b'.' || nat_beq c b'_' || nat_beq c b'-'

-- `[a-z0-9][a-z0-9._-]{2,127}`
abbrev pub is_request_id : List ℕ → Bool
is_request_id [] = false
is_request_id (c ∷ s) = is_low c && leb 2 (length s) && leb (length s) 127 && all is_id_char s

-- The checks on the envelope: identity, lane, repository, bindings and supersession.
unfoldable pub check_envelope : Fields → Checked (Unit {0})
check_envelope r = do
  require (is_string (item r "schema") "MULTIVERSE_REVIEW_REQUEST_v1") "REQUEST_SCHEMA_VERSION"
  require (is_str (item r "request_id") && is_request_id (codes (text_in (item r "request_id"))))
      "REQUEST_ID"
  require_in (item r "lane") ("LAB" ∷ "AUDITOR" ∷ []) "REQUEST_LANE"
  require_in (item r "mode") ("REPOSITORY_ONLY" ∷ "PUBLIC_HTTP_NO_EFFECT" ∷ []) "REQUEST_MODE"
  require (is_str (item r "repo") && nat_beq (occurrences b'/' (codes (text_in (item r "repo")))) 1)
      "REQUEST_REPO"
  require (is_positive (item r "pr")) "REQUEST_PR"
  require (sha40 (item r "head")) "REQUEST_HEAD"
  require (sha40 (item r "tree")) "REQUEST_TREE"
  require (sha40 (item r "base")) "REQUEST_BASE"
  require (sha40 (item r "main")) "REQUEST_MAIN"
  require (is_text (item r "proof_ceiling")) "REQUEST_PROOF_CEILING"
  require (is_text (item r "execution_state")) "REQUEST_EXECUTION_STATE"
  require
      (is_null (item r "supersedes_request_sha256")
        || sha256_hex (item r "supersedes_request_sha256"))
      "REQUEST_SUPERSEDES_SHA256"

-- The checks on what the request gives no authority for.
unfoldable pub check_nonauthority : Value → Checked (Unit {0})
check_nonauthority v = do
  require (is_object_of nonauthority_keys v) "NONAUTHORITY_SCHEMA"
  each_field (λ k flag. require (is_false flag) "NONAUTHORITY_NOT_FALSE") (fields_in v)

-- The checks on the reviews that a request builds on.
unfoldable pub check_upstream : Bool → Value → Checked (Unit {0})
check_upstream is_lab v = do
  require (is_dict v) "UPSTREAM_OBJECT"
  if is_lab then require (nat_beq (size (fields_in v)) 0) "LAB_UPSTREAM_MUST_BE_EMPTY" else (do
    require (is_object_of ("lab_pass_comment" ∷ "lab_request_sha256" ∷ "t1_comment" ∷ []) v)
        "AUDITOR_UPSTREAM_SCHEMA"
    let d = fields_in v
    require (is_positive (item d "lab_pass_comment")) "AUDITOR_UPSTREAM_LAB_PASS_COMMENT"
    require (is_positive (item d "t1_comment")) "AUDITOR_UPSTREAM_T1_COMMENT"
    require (sha256_hex (item d "lab_request_sha256")) "AUDITOR_UPSTREAM_LAB_REQUEST_SHA256")

-- The check on the `http` part of the recipe, by the mode.
unfoldable pub check_http : Net → Bool → Value → Checked (Unit {0})
check_http net repository_only v =
    if repository_only
    then require (is_null v) "REPOSITORY_HTTP_MUST_BE_NULL"
    else check_public_http net v

-- `validate_request`; a request that passes is returned as it is.
unfoldable pub validate_request : Net → Value → Checked Fields
validate_request net request = do
  require (is_dict request) "REQUEST_OBJECT"
  require (is_object_of request_keys request) "REQUEST_SCHEMA_KEYS"
  let r = fields_in request
  check_envelope r
  check_nonauthority (item r "nonauthority")
  check_upstream (is_string (item r "lane") "LAB") (item r "upstream")
  check_recipe net (item r "recipe")
  check_http net (is_string (item r "mode") "REPOSITORY_ONLY")
      (item (fields_in (item r "recipe")) "http")
  passed r
