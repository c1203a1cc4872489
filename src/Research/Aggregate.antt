-- ===== src/Research/Aggregate.antt =====
-- The aggregation of results: `aggregate_results` of automation/multimodel_research_v1/aggregator.py.
-- A dict of lists that is filled in a loop is the list of what is put in, selected by key.
use multiverse_research.Prelude.{
  ℕ, String, Bool, false, not, ◌&&◌, List, [], ◌∷◌, ◌++◌, map, if◌then◌else◌, ◌==◌, string_eq, elem,
  ltb, length, filterb, all,
}
use multiverse_research.Prelude.Int.{pos}
use multiverse_research.Prelude.Value.{
  Value, Items, Fields, bool, int, str, arr, obj, nil, cons, end, field,
}
use multiverse_research.Prelude.Json.{item, text_in, items_in, fields_in}
use multiverse_research.Prelude.Checked.{Checked, passed, require, ◌>>=◌, ◌>>◌}
use multiverse_research.Prelude.Order.{list_eq, distinct, sort_by, sort_texts}
use multiverse_research.Research.Contract.{Library}
use multiverse_research.Research.Result.{
  is_completed, validate_result_for_task, result_content_digest,
}

-- A result with its content digest.
pub record Entry : Type 0 where
  pub digest : String
  pub result : Fields

abbrev pub text_at : String → Fields → String
text_at k d = text_in (item d k)

abbrev pub submission_id : Entry → String
submission_id e = text_at "submission_id" e.result

abbrev pub identity_of : Fields → Fields
identity_of d = fields_in (item d "model_identity")

-- `_identity_key`
abbrev pub identity_key : Fields → List String
identity_key r =
    text_at "provider" (identity_of r)
    ∷ text_at "model" (identity_of r)
    ∷ text_at "role" (identity_of r)
    ∷ []

-- The loop that validates the results; the entries of `grouped` in the order of their coming.
unfoldable pub collect : Library → Value → List String → Items → Checked (List Entry)
collect lib task seen nil = passed []
collect lib task seen (cons v xs) = do
  r ← validate_result_for_task lib task v
  require (not (elem (text_at "submission_id" r) seen)) "DUPLICATE_SUBMISSION_ID"
  digest ← result_content_digest lib v
  rest ← collect lib task (text_at "submission_id" r ∷ seen) xs
  passed (record { digest = digest; result = r } ∷ rest)

-- `grouped[identity]`
unfoldable pub group : List String → List Entry → List Entry
group identity entries = filterb (λ e. identity_key e.result == identity) entries

abbrev pub acknowledgement : Entry → Entry → Fields
acknowledgement canonical duplicate = field "submission_id" (str (submission_id duplicate)) (
    field "duplicate_of_submission_id" (str (submission_id canonical))
      (field "content_digest" (str canonical.digest) end))

-- What becomes of the entries of one identity, in order: an item, and the duplicates of it.
unfoldable pub unify : List Entry → Checked (List Entry × List Fields)
unify [] = passed ([], [])
unify (canonical ∷ duplicates) =
    require (all (λ e. e.digest == canonical.digest) duplicates) "MODEL_IDENTITY_CONTENT_CONFLICT"
    >> passed (canonical ∷ [], map (acknowledgement canonical) duplicates)

-- The loop over the identities.
unfoldable pub unify_all : List (List String) → List Entry → Checked (List Entry × List Fields)
unify_all [] entries = passed ([], [])
unify_all (identity ∷ identities) entries = do
  here ← unify (sort_by (λ e. submission_id e ∷ []) (group identity entries))
  rest ← unify_all identities entries
  passed (here.0 ++ rest.0, here.1 ++ rest.1)

-- `sorted(grouped)`
unfoldable pub identities : List Entry → List (List String)
identities entries =
    sort_by (λ identity. identity) (distinct (map (λ e. identity_key e.result) entries))

-- A finding under its claim and position, with what the aggregate says of it.
pub record Occurrence : Type 0 where
  pub claim_key : String
  pub position : String
  pub entry : Fields

abbrev pub occurrence : Entry → Fields → Occurrence
occurrence e finding = record {
  claim_key = text_at "claim_key" finding;
  position = text_at "position" finding;
  entry = field "submission_id" (item e.result "submission_id") (
      field "model_identity" (item e.result "model_identity") (
        field "produced_at" (item e.result "produced_at") (
          field "result_content_digest" (str e.digest) (
            field "finding_id" (item finding "finding_id") (
              field "severity" (item finding "severity") (
                field "assertion" (item finding "assertion") (
                  field "evidence" (item finding "evidence") (
                    field "confidence" (item finding "confidence") (
                      field "uncertainty" (item finding "uncertainty") (
                        field "recommendation" (item finding "recommendation")
                          (field "validation_plan" (item finding "validation_plan") end)))))))))));
}

abbrev occurrences_in : Entry → Items → List Occurrence
occurrences_in e nil = []
occurrences_in e (cons v xs) = occurrence e (fields_in v) ∷ occurrences_in e xs

-- The loops that fill `claim_positions`.
unfoldable pub occurrences_of : List Entry → List Occurrence
occurrences_of [] = []
occurrences_of (e ∷ es) =
    let rest = occurrences_of es in
    if is_completed e.result
    then occurrences_in e (items_in (item e.result "findings")) ++ rest
    else rest

-- `positions[position]` of a claim.
unfoldable pub at_position : String → String → List Occurrence → List Occurrence
at_position claim position os = filterb (λ o. o.claim_key == claim && o.position == position) os

abbrev pub count_at : String → String → List Occurrence → ℕ
count_at claim position os = length (at_position claim position os)

unfoldable pub descriptive_label : ℕ → ℕ → ℕ → String
descriptive_label support oppose unknown =
    if ltb 0 support && ltb 0 oppose
    then "DIVERGENT"
    else if ltb 0 support
    then (if ltb 0 unknown then "SUPPORT_WITH_UNKNOWN" else "SUPPORT_ONLY")
    else if ltb 0 oppose
    then (if ltb 0 unknown then "OPPOSE_WITH_UNKNOWN" else "OPPOSE_ONLY")
    else "UNKNOWN_ONLY"

abbrev pub label_of : String → List Occurrence → String
label_of claim os =
    descriptive_label (count_at claim "SUPPORT" os) (count_at claim "OPPOSE" os)
      (count_at claim "UNKNOWN" os)

-- `sorted(claim_positions)`
unfoldable pub claim_keys : List Occurrence → List String
claim_keys os = sort_texts (distinct (map (λ o. o.claim_key) os))

-- The keys of `sorted(positions.items())`.
abbrev pub positions_at : String → List Occurrence → List String
positions_at claim os =
    sort_texts (distinct (map (λ o. o.position) (filterb (λ o. o.claim_key == claim) os)))

abbrev pub number : ℕ → Value
number n = int (pos n)

abbrev pub object_of : (String → Value) → List String → Value
object_of f ks = obj (fields_by f ks)
  where
    fields_by : (String → Value) → List String → Fields
    fields_by f [] = end
    fields_by f (k ∷ ks) = field k (f k) (fields_by f ks)

abbrev items_of : List Fields → Items
items_of [] = nil
items_of (d ∷ ds) = cons (obj d) (items_of ds)

abbrev pub array_of : List Fields → Value
array_of ds = arr (items_of ds)

abbrev occurrence_order : Occurrence → List String
occurrence_order o =
    identity_key o.entry ++ text_at "finding_id" o.entry ∷ text_at "submission_id" o.entry ∷ []

unfoldable pub claim_of : List Occurrence → String → Fields
claim_of os claim = field "claim_key" (str claim) (
    field "descriptive_label" (str (label_of claim os)) (
      field "position_counts"
        (object_of (λ p. number (count_at claim p os)) (positions_at claim os))
        (field "positions"
          (object_of
            (λ p. array_of (map (λ o. o.entry) (sort_by occurrence_order (at_position claim p os))))
            (positions_at claim os))
          (field "vote_confers_authority" (bool false)
            (field "majority_confers_truth" (bool false) end)))))

abbrev pub is_divergent : List Occurrence → String → Bool
is_divergent os claim = label_of claim os == "DIVERGENT"

abbrev pub divergence_of : List Occurrence → String → Fields
divergence_of os claim = field "claim_key" (str claim) (
    field "support_count" (number (count_at claim "SUPPORT" os)) (
      field "oppose_count" (number (count_at claim "OPPOSE" os)) (
        field "unknown_count" (number (count_at claim "UNKNOWN" os)) (
          field "status" (str "UNRESOLVED_DIVERGENCE")
            (field "required_next_action" (str "MECHANICAL_FALSIFICATION_TASK") end)))))

-- The claims with an unresolved divergence, in order.
unfoldable pub divergent_claims : List Occurrence → List String
divergent_claims os = filterb (is_divergent os) (claim_keys os)
