-- ===== src/Review/Candidates.antt =====
-- The candidates of the request arbitration, from the comments of a pull request: the first half of
-- automation/review_dispatcher_v1/request_arbitration_v6.py, with parse_request_from_comment of
-- model_legacy_v1.py. The regular expression that finds the JSON block, the JSON codec and SHA-256
-- are the standard library's: the parameter `Host` stands for them.
use multiverse_research.Prelude.{
  ℕ, String, Bool, true, false, not, ◌&&◌, Option, none, some, List, [], ◌∷◌, if◌then◌else◌,
  string_eq, ltb, all, ◌⊎◌, inl, inr,
}
use multiverse_research.Prelude.Int.{ℤ}
use multiverse_research.Prelude.Value.{
  Value, Fields, null, int, str, arr, obj, nil, end, field, get, put, equals,
}
use multiverse_research.Prelude.Json.{item, is_falsy, text_in, all_items}
use multiverse_research.Prelude.Text.{has_infix}
use multiverse_research.Prelude.Checked.{
  contract, type_error, value_error, Checked, passed, refused, require, ◌>>=◌, ◌>>◌,
}
use multiverse_research.Review.Shapes.{
  required_object, github_comment_id, issue_comment_owner_trusted,
}
use multiverse_research.Review.Paths.{Net}
use multiverse_research.Review.Request.{validate_request}
use multiverse_research.Review.Arbitration.{Candidate, Fault, latest_exact_current_owner_request}

-- `find_block` is the text that the pattern of the JSON block captures; `loads` gives nothing where
-- it raises; `sha256_json` is the digest of the canonical JSON.
pub record Host : Type 0 where
  pub net : Net
  pub find_block : String → Option String
  pub loads : String → Option Value
  pub sha256_json : Value → String

abbrev pub request_marker : String
request_marker = "<!-- MULTIVERSE_REVIEW_REQUEST_V1 -->"

-- What the request must be about.
pub record Envelope : Type 0 where
  pub repo : String
  pub pr : ℤ
  pub lane : String
  pub head : String
  pub tree : String
  pub base : String
  pub main : String

abbrev has_key : Fields → String → Bool
has_key d k = elim (get d k) [ none ↦ false | some _ ↦ true ]

-- `REQUEST_MARKER in body`, of `comment.get("body") or ""`: a list and a dict can be asked too.
abbrev pub has_marker : Value → Checked Bool
has_marker (str s) = passed (has_infix request_marker s)
has_marker (arr xs) = passed (not (all_items (λ v. not (equals v (str request_marker))) xs))
has_marker (obj d) = passed (has_key d request_marker)
has_marker v = if is_falsy v then passed false else refused type_error

-- `parse_request_from_comment`
unfoldable pub parse_request_from_comment : Host → String → Checked (Option Fields)
parse_request_from_comment host body =
    if not (has_infix request_marker body) then passed none else elim (host.find_block body) [
      | none ↦ refused (contract "REQUEST_JSON_BLOCK_MISSING")
      | some block ↦ elim (host.loads block) [
        | none ↦ refused value_error
        | some v ↦ required_object v "REQUEST_OBJECT" >>= λ d. passed (some d)
      ]
    ]

abbrev envelope_keys : List String
envelope_keys = "lane" ∷ "repo" ∷ "pr" ∷ "head" ∷ "tree" ∷ "base" ∷ "main" ∷ []

-- The parse of a body that has the marker; `re.search` takes a text only.
abbrev pub parse_body : Host → Value → Checked (Option Fields)
parse_body host (str body) = parse_request_from_comment host body
parse_body host _ = refused type_error

-- The comparison of a request with the envelope.
unfoldable pub is_about : Envelope → Fields → Bool
is_about e r =
    equals (item r "lane") (str e.lane)
    && equals (item r "repo") (str e.repo)
    && equals (item r "pr") (int e.pr)
    && equals (item r "head") (str e.head)
    && equals (item r "tree") (str e.tree)
    && equals (item r "base") (str e.base)
    && equals (item r "main") (str e.main)

-- `_SAFE_RECIPE`
abbrev pub safe_recipe : Fields
safe_recipe = field "subtrees" (obj end) (
    field "durable_comments" (arr nil) (
      field "source_rules" (arr nil) (
        field "unittest_modules" (arr nil) (
          field "validators" (arr nil) (
            field "secret_scan_paths" (arr nil)
              (field "forbidden_patterns" (arr nil) (field "http" null end)))))))

-- `_recipe_only_invalid`
unfoldable pub recipe_only_invalid : Net → Fields → Checked Bool
recipe_only_invalid net r = elim (validate_request net (obj (put r "recipe" (obj safe_recipe)))) [
  | passed _ ↦ passed true
  | refused e ↦ elim e [ contract _ ↦ passed false | other ↦ refused other ]
]

-- The validation of a candidate: nothing, or the code of an error in its recipe alone.
unfoldable pub validation_error_of : Net → Fields → Checked (Option String)
validation_error_of net r = elim (validate_request net (obj r)) [
  | passed _ ↦ passed none
  | refused e ↦ elim e [
    | contract code ↦ do
      bridgeable ← recipe_only_invalid net r
      if bridgeable then passed (some code) else refused (contract code)
    | other ↦ refused other
  ]
]

abbrev optional_text : Value → Option String
optional_text (str s) = some s
optional_text _ = none

abbrev pub candidate_of : Host → Fields → Fields → Option String → ℕ → Candidate
candidate_of host r comment error id = record {
  comment_id = id;
  request_id = text_in (item r "request_id");
  supersedes = optional_text (item r "supersedes_request_sha256");
  sha256 = host.sha256_json (obj r);
  validation_error = error;
  request = r;
  comment = comment;
}

-- What a parsed request becomes.
unfoldable pub admit : Host → Envelope → Fields → Fields → Checked (Option Candidate)
admit host e comment r = do
  require (all (has_key r) envelope_keys) "OWNER_REQUEST_ENVELOPE_INCOMPLETE"
  if is_about e r
      then (do
        error ← validation_error_of host.net r
        id ← github_comment_id (obj comment) "OWNER_REQUEST_COMMENT_ID"
        passed (some (candidate_of host r comment error id)))
      else passed none

-- The body of the loop over the comments; `none` is a `continue`.
unfoldable pub candidate_in : Host → Envelope → Value → Checked (Option Candidate)
candidate_in host e raw = do
  comment ← required_object raw "COMMENT_RESPONSE_OBJECT"
  marked ← has_marker (item comment "body")
  if not marked then passed none else (do
    trusted ← issue_comment_owner_trusted comment e.repo
    if not trusted then passed none else (do
      request ← parse_body host (item comment "body")
      elim request [ none ↦ passed none | some r ↦ admit host e comment r ]))

unfoldable pub collect : Host → Envelope → List Value → Checked (List Candidate)
collect host e [] = passed []
collect host e (raw ∷ rest) = do
  found ← candidate_in host e raw
  others ← collect host e rest
  passed (elim found [ none ↦ others | some c ↦ c ∷ others ])

-- A stable insertion, of a candidate that stood before the others.
unfoldable pub place : Candidate → List Candidate → List Candidate
place c [] = c ∷ []
place c (d ∷ ds) =
    let rest = place c ds in if ltb d.comment_id c.comment_id then d ∷ rest else c ∷ d ∷ ds

-- `candidates.sort(key=…)`, which is stable.
unfoldable pub sort : List Candidate → List Candidate
sort [] = []
sort (c ∷ cs) = place c (sort cs)

-- `_exact_candidates`
unfoldable pub exact_candidates : Host → Envelope → List Value → Checked (List Candidate)
exact_candidates host e comments = do found ← collect host e comments; passed (sort found)

abbrev fault_code : Fault → String
fault_code Fault.duplicate_exact_request_id = "DUPLICATE_EXACT_REQUEST_ID"
fault_code Fault.historical_invalid_successor_count = "HISTORICAL_INVALID_EXACT_SUCCESSOR_COUNT"
fault_code Fault.historical_invalid_successor_not_valid =
    "HISTORICAL_INVALID_EXACT_SUCCESSOR_NOT_VALID"
fault_code Fault.supersession_predecessor_cycle = "SUPERSESSION_PREDECESSOR_CYCLE"
fault_code Fault.supersession_comment_order_invalid = "SUPERSESSION_COMMENT_ORDER_INVALID"
fault_code Fault.current_malformed_request_not_bridgeable =
    "CURRENT_MALFORMED_REQUEST_NOT_BRIDGEABLE"
fault_code Fault.orphaned_or_loser_derived_supersession = "ORPHANED_OR_LOSER_DERIVED_SUPERSESSION"
fault_code Fault.no_exact_current_request = "NO_EXACT_CURRENT_REQUEST"
fault_code Fault.out_of_fuel = ""

abbrev pub arbitrated {ℓ} : {A : Type ℓ} → Fault ⊎ A → Checked A
arbitrated (inl f) = refused (contract (fault_code f))
arbitrated (inr a) = passed a

-- `latest_exact_current_owner_request_v6`, from the comments on.
unfoldable pub latest_request : Host → Envelope → List Value → Checked Candidate
latest_request host e comments = do
  candidates ← exact_candidates host e comments
  arbitrated (latest_exact_current_owner_request candidates)
