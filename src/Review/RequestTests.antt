-- ===== src/Review/RequestTests.antt =====
-- The request contract, the current request and the pages at concrete inputs.
use Prim.Native.String.{◌++◌ as ◌+text◌}
use multiverse_research.Prelude.{
  ℕ, zero, suc, ◌≡◌, refl, String, true, false, none, some, List, [], ◌∷◌, ◌≤◌, ◌↔◌, string_eq,
  nat_beq, if◌then◌else◌, ◌==◌,
}
use multiverse_research.Prelude.Int.{pos}
use multiverse_research.Prelude.Value.{
  Value, Fields, Items, equals, null, bool, int, str, obj, arr, end, field, nil, cons, put,
}
use multiverse_research.Prelude.Json.{item, is_false, fields_in}
use multiverse_research.Prelude.Text.{has_infix, has_prefix, is_hex_text}
use multiverse_research.Prelude.Checked.{contract, passed, refused, ◌>>=◌, each, each_field}
use multiverse_research.Review.Shapes.{
  issue_comment_owner_trusted, github_comment_id, fetch_from, fetch_all_pages,
}
use multiverse_research.Review.Paths.{Net, safe_repo_path}
use multiverse_research.Review.Recipe.{
  is_forbidden_key, scan_recipe_keys, check_recipe, check_subtrees, check_list,
  check_validator_rule,
}
use multiverse_research.Review.Request.{
  nonauthority_keys, check_envelope, check_nonauthority, check_upstream, check_http,
  validate_request,
}
use multiverse_research.Review.Candidates.{
  safe_recipe, Host, Envelope, request_marker, candidate_of, latest_request, exact_candidates,
  collect, candidate_in, admit, is_about, validation_error_of, parse_request_from_comment, sort,
  place,
}
use multiverse_research.Review.Arbitration.{
  Candidate, has_duplicate, bridge_hashes, walk, exact_current_owner_requests,
  latest_exact_current_owner_request,
}
use multiverse_research.Review.Current.{IsInForce, current_request_is_contracted}
use multiverse_research.Review.Paging.{Gathers, fetch_all_pages-Gathers}
use multiverse_research.Review.Authority.{no_authority, recipe_is_clean}
use multiverse_research.Prelude.Keys.{
  Occurs, in_object, in_array, here, inside, later, member, reject_keys,
}

abbrev net : Net
net = record { urlparse = λ _. none; ip_address = λ _. none; lower = λ s. s }

abbrev commit : String
commit = "0123456789abcdef0123456789abcdef01234567"

abbrev refusals : List String → Fields
refusals [] = end
refusals (k ∷ ks) = field k (bool false) (refusals ks)

abbrev recipe : Fields
recipe = put safe_recipe "validators" (
    arr (
      cons
        (obj (
          field "path" (str "tools/check") (field "expect" (obj (field "ok" (bool true) end)) end)))
        nil))

abbrev request : Fields
request = field "schema" (str "MULTIVERSE_REVIEW_REQUEST_v1") (
    field "request_id" (str "lab-001") (
      field "lane" (str "LAB") (
        field "mode" (str "REPOSITORY_ONLY") (
          field "repo" (str "owner/repository") (
            field "pr" (int (pos 7)) (
              field "head" (str commit) (
                field "tree" (str commit) (
                  field "base" (str commit) (
                    field "main" (str commit) (
                      field "proof_ceiling" (str "LOCAL") (
                        field "execution_state" (str "DRAFT") (
                          field "supersedes_request_sha256" null (
                            field "recipe" (obj recipe) (
                              field "upstream" (obj end) (
                                field "nonauthority" (obj (refusals nonauthority_keys))
                                  end)))))))))))))))

request-passed : validate_request net (obj request) ≡ passed request
unfolding validate_request ◌>>=◌ check_envelope is_hex_text check_nonauthority each_field
    check_upstream check_recipe scan_recipe_keys reject_keys is_forbidden_key has_infix
    check_subtrees check_list each check_validator_rule safe_repo_path has_prefix check_http
request-passed = refl

no_authority_example : is_false (item (fields_in (item request "nonauthority")) "merge") ≡ true
no_authority_example = no_authority net (obj request) request "merge" request-passed refl

-- The key stands in what a validator is to answer.
abbrev nested : Occurs "ok" (item request "recipe")
nested = in_object (
    later (
      later
        (later (later (inside (in_array (member (in_object (later (inside (in_object here)))))))))))

recipe_is_clean_example : is_forbidden_key net "ok" ≡ false
recipe_is_clean_example = recipe_is_clean net (obj request) request "ok" request-passed nested

-- A key with a forbidden fragment deep in the recipe refuses the request.
abbrev with_token : Fields
with_token = put request "recipe" (obj (put recipe "subtrees" (obj (field "api_token" null end))))

with_token-refused :
    validate_request net (obj with_token) ≡ refused (contract "FORBIDDEN_RECIPE_KEY")
unfolding validate_request ◌>>=◌ check_envelope is_hex_text check_nonauthority each_field
    check_upstream check_recipe scan_recipe_keys reject_keys is_forbidden_key has_infix
    check_subtrees check_list each check_validator_rule safe_repo_path has_prefix check_http
with_token-refused = refl

abbrev request_body : String
request_body = request_marker +text "the request"

abbrev host : Host
host = record {
  net = net;
  find_block = λ s. if s == request_body then some "the request" else none;
  loads = λ s. if s == "the request" then some (obj request) else none;
  sha256_json = λ v. if equals v (obj request) then "its digest" else "another";
}

abbrev envelope : Envelope
envelope = record {
  repo = "owner/repository";
  pr = pos 7;
  lane = "LAB";
  head = commit;
  tree = commit;
  base = commit;
  main = commit;
}

abbrev comment : Fields
comment =
    field "id" (int (pos 31))
      (field "user" (obj (field "login" (str "owner") end)) (field "body" (str request_body) end))

abbrev stranger : Fields
stranger = put comment "user" (obj (field "login" (str "someone") end))

abbrev comments : List Value
comments = obj stranger ∷ obj comment ∷ []

abbrev current : Candidate
current = candidate_of host request comment none 31

current-answered : latest_request host envelope comments ≡ passed current
unfolding latest_request ◌>>=◌ exact_candidates collect candidate_in has_infix
    issue_comment_owner_trusted parse_request_from_comment admit is_about equals validation_error_of
    validate_request check_envelope is_hex_text check_nonauthority each_field check_upstream
    has_prefix bridge_hashes exact_current_owner_requests has_duplicate
    latest_exact_current_owner_request walk place sort each safe_repo_path check_list check_recipe
    check_subtrees check_validator_rule is_forbidden_key scan_recipe_keys reject_keys check_http
    github_comment_id
current-answered = refl

current_request_is_contracted_example : IsInForce host envelope comments current
current_request_is_contracted_example =
    current_request_is_contracted host envelope comments current current-answered

-- Two pages, the first full.
abbrev repeat : ℕ → Items
repeat zero = nil
repeat (suc n) = cons (obj end) (repeat n)

abbrev answers : ℕ → Value
answers page = arr (repeat (if nat_beq page 1 then 100 else 2))

abbrev entries : ℕ → List Fields
entries zero = []
entries (suc n) = end ∷ entries n

fetch_all_pages-Gathers_example :
    (fetch_all_pages answers 20 ≡ passed (entries 102))
    ↔ ((count : ℕ) × (count ≤ 20) × Gathers answers 1 count (entries 102))
fetch_all_pages-Gathers_example = fetch_all_pages-Gathers answers 20 (entries 102)

entries-fetched : fetch_all_pages answers 20 ≡ passed (entries 102)
unfolding fetch_all_pages fetch_from
entries-fetched = refl
