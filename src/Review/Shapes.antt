-- ===== src/Review/Shapes.antt =====
-- The shapes of what the code host answers, and who is trusted as an author
-- (automation/review_dispatcher_v1/model_legacy_v1.py).
use multiverse_research.Prelude.{
  ℕ, suc, zero, ◌+◌, String, Bool, true, false, not, ◌&&◌, Option, none, some, List, [], ◌∷◌, ◌++◌,
  if◌then◌else◌, ◌==◌, string_eq, length, ltb,
}
use multiverse_research.Prelude.Int.{ℤ, pos, beq_ℤ}
use multiverse_research.Prelude.Value.{
  Value, Items, Fields, null, bool, str, arr, obj, nil, cons, end,
}
use multiverse_research.Prelude.Json.{
  item, is_text, is_string, is_positive, is_falsy, text_in, count_in,
}
use multiverse_research.Prelude.Text.{codes, is_hex_text, before, same_codes}
use multiverse_research.Prelude.Checked.{
  Checked, passed, refused, contract, attribute_error, require, ◌>>=◌, ◌>>◌,
}

-- `sha40` and `sha256_hex`
abbrev pub sha40 : Value → Bool
sha40 (str s) = is_hex_text 40 s
sha40 _ = false

abbrev pub sha256_hex : Value → Bool
sha256_hex (str s) = is_hex_text 64 s
sha256_hex _ = false

abbrev pub required_object : Value → String → Checked Fields
required_object (obj d) code = passed d
required_object _ code = refused (contract code)

abbrev pub required_positive_int : Value → String → Checked ℕ
required_positive_int v code =
    if is_positive v then passed (count_in v) else refused (contract code)

abbrev pub required_sha40 : Value → String → Checked String
required_sha40 v code = if sha40 v then passed (text_in v) else refused (contract code)

abbrev pub required_nonempty_str : Value → String → Checked String
required_nonempty_str v code = if is_text v then passed (text_in v) else refused (contract code)

abbrev required_bool : Value → String → Checked Bool
required_bool (bool b) code = passed b
required_bool _ code = refused (contract code)

pub record PrBinding : Type 0 where
  pub number : ℕ
  pub state : String
  pub draft : Bool
  pub merged : Bool
  pub head_sha : String
  pub head_ref : String
  pub base_sha : String

abbrev is_expected : Option ℤ → ℕ → Bool
is_expected none n = true
is_expected (some m) n = beq_ℤ (pos n) m

abbrev is_expected_text : Option String → String → Bool
is_expected_text none s = true
is_expected_text (some t) s = s == t

-- `github_full_pr_binding`
unfoldable pub github_full_pr_binding : Value → Option ℤ → Option String → Checked PrBinding
github_full_pr_binding payload expected_number expected_head = do
  pr ← required_object payload "PR_RESPONSE_OBJECT"
  number ← required_positive_int (item pr "number") "PR_NUMBER"
  require (is_expected expected_number number) "PR_NUMBER_DRIFT"
  state ← required_nonempty_str (item pr "state") "PR_STATE_STRING"
  require (state == "open") "PR_NOT_OPEN"
  draft ← required_bool (item pr "draft") "PR_DRAFT_BOOL"
  require draft "PR_NOT_DRAFT"
  merged ← required_bool (item pr "merged") "PR_MERGED_BOOL"
  require (not merged) "PR_ALREADY_MERGED"
  head_obj ← required_object (item pr "head") "PR_HEAD_OBJECT"
  head_sha ← required_sha40 (item head_obj "sha") "PR_HEAD_SHA"
  require (is_expected_text expected_head head_sha) "PR_HEAD_DRIFT"
  head_ref ← required_nonempty_str (item head_obj "ref") "PR_HEAD_REF"
  base_obj ← required_object (item pr "base") "PR_BASE_OBJECT"
  base_sha ← required_sha40 (item base_obj "sha") "PR_BASE_SHA"
  passed (record {
    number = number;
    state = state;
    draft = draft;
    merged = merged;
    head_sha = head_sha;
    head_ref = head_ref;
    base_sha = base_sha;
  })

-- `github_commit_tree_sha`
unfoldable pub github_commit_tree_sha : Value → Checked String
github_commit_tree_sha payload = do
  commit ← required_object payload "COMMIT_RESPONSE_OBJECT"
  commit_meta ← required_object (item commit "commit") "COMMIT_METADATA_OBJECT"
  tree_obj ← required_object (item commit_meta "tree") "COMMIT_TREE_OBJECT"
  required_sha40 (item tree_obj "sha") "COMMIT_TREE_SHA"

-- `github_branch_commit_sha`
unfoldable pub github_branch_commit_sha : Value → Checked String
github_branch_commit_sha payload = do
  branch ← required_object payload "BRANCH_RESPONSE_OBJECT"
  commit ← required_object (item branch "commit") "BRANCH_COMMIT_OBJECT"
  required_sha40 (item commit "sha") "BRANCH_COMMIT_SHA"

-- `github_comment_id`
unfoldable pub github_comment_id : Value → String → Checked ℕ
github_comment_id payload code = do
  comment ← required_object payload "COMMENT_RESPONSE_OBJECT"
  required_positive_int (item comment "id") code

-- `v or {}`, of which `get` is then called.
abbrev pub or_empty : Value → Checked Fields
or_empty (obj d) = passed d
or_empty v = if is_falsy v then passed end else refused attribute_error

-- `issue_comment_owner_trusted`: the login is the part of the repository's name before the slash.
unfoldable pub issue_comment_owner_trusted : Fields → String → Checked Bool
issue_comment_owner_trusted comment repo = do
  user ← or_empty (item comment "user")
  passed (elim (item user "login") [
    | str login ↦ same_codes (codes login) (before b'/' (codes repo))
    | _ ↦ false
  ])

abbrev pub app_slug_of : String → Option String
app_slug_of lane =
    if lane == "LAB"
    then some "multiverse-independent-lab"
    else if lane == "AUDITOR"
    then some "multiverse-independent-auditor"
    else none

abbrev pub login_of : String → Option String
login_of lane =
    if lane == "LAB"
    then some "multiverse-independent-lab[bot]"
    else if lane == "AUDITOR"
    then some "multiverse-independent-auditor[bot]"
    else none

abbrev slug_agrees : String → Value → Bool
slug_agrees expected null = true
slug_agrees expected (obj app) = is_string (item app "slug") expected
slug_agrees expected _ = false

-- `lane_result_outer_app_trusted`
unfoldable pub lane_result_outer_app_trusted : Fields → String → Bool
lane_result_outer_app_trusted comment lane = elim (app_slug_of lane) [
  | none ↦ false
  | some expected ↦ slug_agrees expected (item comment "performed_via_github_app")
]

-- `lane_result_comment_trusted`
unfoldable pub lane_result_comment_trusted : Fields → String → Checked Bool
lane_result_comment_trusted comment lane = elim (login_of lane) [
  | none ↦ passed false
  | some expected ↦ do
    user ← or_empty (item comment "user")
    passed (
        is_string (item user "login") expected
        && is_string (item user "type") "Bot"
        && lane_result_outer_app_trusted comment lane)
]

-- The items of a page, if all are objects.
abbrev pub objects : Items → Option (List Fields)
objects nil = some []
objects (cons (obj d) xs) = elim (objects xs) [ none ↦ none | some ds ↦ some (d ∷ ds) ]
objects (cons _ xs) = none

abbrev pub page_of : Value → Checked (List Fields)
page_of (arr xs) = elim (objects xs) [
  | none ↦ refused (contract "PAGINATED_RESPONSE_ITEM_NOT_OBJECT")
  | some ds ↦ passed ds
]
page_of _ = refused (contract "PAGINATED_RESPONSE_NOT_LIST")

-- The loop of `fetch_all_pages` from a page on, with the pages that may still be asked for.
unfoldable pub fetch_from : (ℕ → Value) → ℕ → ℕ → List Fields → Checked (List Fields)
fetch_from fetch zero page items = refused (contract "PAGINATION_LIMIT_EXCEEDED")
fetch_from fetch (suc left) page items = elim (page_of (fetch page)) [
  | refused e ↦ refused e
  | passed batch ↦
      let rest = fetch_from fetch left (page + 1) (items ++ batch) in
      if ltb (length batch) 100 then passed (items ++ batch) else rest
]

-- `fetch_all_pages`, by what the host answers for each page.
unfoldable pub fetch_all_pages : (ℕ → Value) → ℕ → Checked (List Fields)
fetch_all_pages fetch max_pages = fetch_from fetch max_pages 1 []
