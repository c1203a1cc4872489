-- ===== src/Review/Recipe.antt =====
-- The recipe of a review request: the part of `validate_request` on it
-- (automation/review_dispatcher_v1/model_legacy_v1.py).
use multiverse_research.Prelude.{
  ℕ, String, Bool, false, not, ◌&&◌, ◌||◌, List, [], ◌∷◌, string_eq, elem, any, all, nat_beq, leb,
}
use multiverse_research.Prelude.Int.{pos}
use multiverse_research.Prelude.Value.{Value, int, str}
use multiverse_research.Prelude.Json.{
  item, is_text, is_str, is_null, is_positive, is_count, is_object_of, text_in, items_in, fields_in,
  is_dict, is_list, is_filled_list, all_items, texts_in, has_repeat,
}
use multiverse_research.Prelude.Text.{codes, is_empty, has_infix}
use multiverse_research.Prelude.Checked.{Checked, require, ◌>>◌, hashed, each, each_field}
use multiverse_research.Prelude.Keys.{reject_keys}
use multiverse_research.Review.Shapes.{sha40}
use multiverse_research.Review.Paths.{
  Net, safe_repo_path, validate_public_https_url, validate_http_path,
}

abbrev pub forbidden_recipe_key_fragments : List String
forbidden_recipe_key_fragments =
    "shell" ∷ "command" ∷ "yaml" ∷ "python" ∷ "script" ∷ "token" ∷ "password" ∷ "credential"
    ∷ "private_key" ∷ []

-- Whether a key, in lower case, contains a forbidden fragment.
unfoldable pub is_forbidden_key : Net → String → Bool
is_forbidden_key net key = any (λ f. has_infix f (net.lower key)) forbidden_recipe_key_fragments

-- `_scan_recipe_keys`
unfoldable pub scan_recipe_keys : Net → Value → Checked (Unit {0})
scan_recipe_keys net v = reject_keys (is_forbidden_key net) "FORBIDDEN_RECIPE_KEY" v

abbrev is_optional_str : Value → Bool
is_optional_str v = is_null v || is_str v

abbrev each_text : String → Value → Checked (Unit {0})
each_text code v = each (λ t. require (is_text t) code) (items_in v)

-- `_validate_json_equals`
unfoldable pub validate_json_equals : Value → String → String → Checked (Unit {0})
validate_json_equals v code key_code = do
  require (is_dict v) code
  each_field (λ k _. require (not (is_empty k)) key_code) (fields_in v)

unfoldable pub check_subtrees : Value → Checked (Unit {0})
check_subtrees v = do
  require (is_dict v) "SUBTREES_OBJECT"
  each_field (λ path expected. safe_repo_path (str path) >> require (sha40 expected) "SUBTREE_SHA")
      (fields_in v)

unfoldable pub check_comment_rule : Value → Checked (Unit {0})
check_comment_rule v = do
  require (is_object_of ("id" ∷ "login" ∷ "app_slug" ∷ "body_contains" ∷ []) v)
      "COMMENT_RULE_SCHEMA"
  let d = fields_in v
  require (is_positive (item d "id")) "COMMENT_ID"
  require (is_optional_str (item d "login")) "COMMENT_LOGIN"
  require (is_optional_str (item d "app_slug")) "COMMENT_APP_SLUG"
  require (is_list (item d "body_contains")) "COMMENT_BODY_CONTAINS"
  each_text "COMMENT_BODY_TOKEN" (item d "body_contains")

unfoldable pub check_source_rule : Value → Checked (Unit {0})
check_source_rule v = do
  require (is_object_of ("path" ∷ "contains" ∷ "not_contains" ∷ []) v) "SOURCE_RULE_SCHEMA"
  let d = fields_in v
  safe_repo_path (item d "path")
  require (is_list (item d "contains")) "SOURCE_CONTAINS"
  each_text "SOURCE_TOKEN" (item d "contains")
  require (is_list (item d "not_contains")) "SOURCE_NOT_CONTAINS"
  each_text "SOURCE_TOKEN" (item d "not_contains")

abbrev is_letter : ℕ → Bool
is_letter c = (leb b'A' c && leb c b'Z') || (leb b'a' c && leb c b'z')

abbrev is_digit : ℕ → Bool
is_digit c = leb b'0' c && leb c b'9'

-- `[A-Za-z_][A-Za-z0-9_.]*`
abbrev pub is_module_name : List ℕ → Bool
is_module_name [] = false
is_module_name (c ∷ s) =
    (is_letter c || nat_beq c b'_')
    && all (λ d. is_letter d || is_digit d || nat_beq d b'_' || nat_beq d b'.') s

unfoldable pub check_unittest_rule : Value → Checked (Unit {0})
check_unittest_rule v = do
  require (is_object_of ("module" ∷ "count" ∷ []) v) "UNITTEST_RULE_SCHEMA"
  let d = fields_in v
  require (is_str (item d "module") && is_module_name (codes (text_in (item d "module"))))
      "UNITTEST_MODULE"
  require (is_count (item d "count")) "UNITTEST_COUNT"

unfoldable pub check_validator_rule : Value → Checked (Unit {0})
check_validator_rule v = do
  require (is_object_of ("path" ∷ "expect" ∷ []) v) "VALIDATOR_RULE_SCHEMA"
  let d = fields_in v
  safe_repo_path (item d "path")
  require (is_dict (item d "expect")) "VALIDATOR_EXPECT"

-- A list whose members pass a check.
unfoldable pub check_list : String → (Value → Checked (Unit {0})) → Value → Checked (Unit {0})
check_list code check v = do require (is_list v) code; each check (items_in v)

abbrev pub recipe_keys : List String
recipe_keys =
    "subtrees" ∷ "durable_comments" ∷ "source_rules" ∷ "unittest_modules" ∷ "validators"
    ∷ "secret_scan_paths" ∷ "forbidden_patterns" ∷ "http" ∷ []

-- The checks on the recipe, up to its `http` part.
unfoldable pub check_recipe : Net → Value → Checked (Unit {0})
check_recipe net v = do
  require (is_dict v) "RECIPE_OBJECT"
  require (is_object_of recipe_keys v) "RECIPE_SCHEMA_KEYS"
  scan_recipe_keys net v
  let d = fields_in v
  check_subtrees (item d "subtrees")
  check_list "COMMENTS_LIST" check_comment_rule (item d "durable_comments")
  check_list "SOURCE_RULES_LIST" check_source_rule (item d "source_rules")
  check_list "UNITTEST_MODULES_LIST" check_unittest_rule (item d "unittest_modules")
  check_list "VALIDATORS_LIST" check_validator_rule (item d "validators")
  check_list "SECRET_SCAN_PATHS" safe_repo_path (item d "secret_scan_paths")
  check_list "FORBIDDEN_PATTERNS" (λ p. require (is_text p) "FORBIDDEN_PATTERN")
      (item d "forbidden_patterns")

-- `isinstance(v, int) and 100 <= v <= 599`; a bool is too small.
abbrev pub is_status : Value → Bool
is_status (int (pos n)) = leb 100 n && leb n 599
is_status _ = false

unfoldable pub check_get_rule : Value → Checked (Unit {0})
check_get_rule v = do
  require (is_object_of ("path" ∷ "status" ∷ "json_equals" ∷ "capture_digest_as" ∷ []) v)
      "HTTP_GET_SCHEMA"
  let d = fields_in v
  validate_http_path (item d "path")
  require (is_status (item d "status")) "HTTP_GET_STATUS"
  validate_json_equals (item d "json_equals") "HTTP_GET_JSON_EQUALS" "HTTP_GET_JSON_EQUALS_KEY"
  require (is_null (item d "capture_digest_as") || is_text (item d "capture_digest_as"))
      "HTTP_CAPTURE_DIGEST_AS"

abbrev pub allowed_methods : List String
allowed_methods = "POST" ∷ "PUT" ∷ "PATCH" ∷ "DELETE" ∷ []

abbrev is_allowed_method : Value → Bool
is_allowed_method v = is_str v && elem (text_in v) allowed_methods

unfoldable pub check_deny : Value → Checked (Unit {0})
check_deny v = do
  require
      (is_object_of ("path" ∷ "methods" ∷ "status" ∷ "json_equals" ∷ "evidence_unchanged_path" ∷ [])
        v)
      "HTTP_DENY_SCHEMA"
  let d = fields_in v
  validate_http_path (item d "path")
  require (is_filled_list (item d "methods")) "HTTP_DENY_METHODS"
  hashed (item d "methods")
  require (all_items is_allowed_method (items_in (item d "methods"))) "HTTP_DENY_METHOD_NOT_ALLOWED"
  require (not (has_repeat (texts_in (items_in (item d "methods"))))) "HTTP_DENY_METHOD_DUPLICATE"
  require (is_status (item d "status")) "HTTP_DENY_STATUS"
  validate_json_equals (item d "json_equals") "HTTP_DENY_JSON_EQUALS" "HTTP_DENY_JSON_EQUALS_KEY"
  validate_http_path (item d "evidence_unchanged_path")

-- The `http` part of a recipe in the mode that has one.
unfoldable pub check_public_http : Net → Value → Checked (Unit {0})
check_public_http net v = do
  require (is_dict v) "HTTP_OBJECT"
  require (is_object_of ("base_url" ∷ "get" ∷ "deny" ∷ []) v) "HTTP_SCHEMA_KEYS"
  let d = fields_in v
  validate_public_https_url net (item d "base_url")
  require (is_filled_list (item d "get")) "HTTP_GET_LIST"
  each check_get_rule (items_in (item d "get"))
  check_deny (item d "deny")
