-- ===== src/Research/Tests.antt =====
-- Research tasks, results and their aggregation at concrete inputs.
use multiverse_research.Prelude.{◌≡◌, refl, true, List, [], ◌∷◌, inl, inr, IsIn, map, ◌⊎◌, ◌↔◌}
use multiverse_research.Prelude.Value.{Fields, Items, equals, obj, nil, cons}
use multiverse_research.Prelude.Json.{item, fields_in}
use multiverse_research.Prelude.Text.{has_infix, is_hex_text}
use multiverse_research.Prelude.Checked.{contract, passed, refused, ◌>>=◌, each, each_field}
use multiverse_research.Prelude.Members.{NoRepeat}
use multiverse_research.Prelude.Keys.{reject_keys}
use multiverse_research.Prelude.Order.{sort_by, insert_by}
use multiverse_research.Research.Contract.{
  parse_utc_timestamp, nonauthority, reject_dynamic_keys, is_dynamic_key,
}
use multiverse_research.Research.Task.{
  check_keys, check_source_ref, check_source_refs, check_primitives, check_declared,
  check_manifest_entry, check_manifest_entries, check_manifest, check_constraints, check_roles,
  validate_task,
}
use multiverse_research.Research.Result.{
  check_identity, check_evidence, check_finding, check_findings, check_uncertainty, validate_result,
  check_against_manifest, check_against_source, check_finding_evidence, validate_result_for_task,
  result_content_digest,
}
use multiverse_research.Research.Evidence.{IsGrounded, finding_is_backed}
use multiverse_research.Research.Aggregate.{
  Entry, identity_key, collect, group, unify, unify_all, identities, acknowledgement,
  occurrences_of, claim_keys, at_position, is_divergent, divergent_claims, descriptive_label,
}
use multiverse_research.Research.Report.{gather}
use multiverse_research.Research.Groups.{StandsFor}
use multiverse_research.Research.Unique.{result_is_represented, one_item_per_identity}
use multiverse_research.Research.Backing.{kept_findings_are_backed}
use multiverse_research.Research.Divergence.{IsTaken, divergent_claims-IsTaken}
use multiverse_research.Research.Diversity.{
  provider_model, presence, cross_divergence, role_conditioned_divergence,
}
use multiverse_research.Research.Sides.{divergent-sides}
use multiverse_research.Research.Fixtures.{digest, lib, task, finding, first, again, opposing}

first-passed : validate_result_for_task lib (obj task) (obj first) ≡ passed first
unfolding validate_result_for_task ◌>>=◌ validate_task check_keys parse_utc_timestamp
    check_source_refs check_source_ref is_hex_text check_primitives check_manifest
    check_manifest_entries check_manifest_entry check_declared equals check_constraints check_roles
    each nonauthority each_field reject_keys has_infix is_dynamic_key reject_dynamic_keys
    check_against_manifest check_against_source check_evidence check_finding check_finding_evidence
    check_findings check_identity check_uncertainty validate_result
first-passed = refl

finding_is_backed_example :
    IsGrounded task (fields_in (item (fields_in (finding "SUPPORT")) "evidence"))
finding_is_backed_example =
    finding_is_backed lib (obj task) (obj first) first (finding "SUPPORT") first-passed (inl refl)

abbrev entry_of : Fields → Entry
entry_of r = record { digest = digest; result = r }

abbrev results : Items
results = cons (obj first) (cons (obj again) (cons (obj opposing) nil))

abbrev validated : List Entry
validated = entry_of first ∷ entry_of again ∷ entry_of opposing ∷ []

abbrev unique : List Entry
unique = entry_of again ∷ entry_of opposing ∷ []

abbrev duplicates : List Fields
duplicates = acknowledgement (entry_of again) (entry_of first) ∷ []

results-gathered : gather lib (obj task) results ≡ passed (validated, unique, duplicates)
unfolding gather collect identities unify_all unify group sort_by insert_by result_content_digest
    validate_result_for_task ◌>>=◌ validate_task check_keys parse_utc_timestamp check_source_refs
    check_source_ref is_hex_text check_primitives check_manifest check_manifest_entries
    check_manifest_entry check_declared equals check_constraints check_roles each nonauthority
    each_field reject_keys has_infix is_dynamic_key reject_dynamic_keys check_against_manifest
    check_against_source check_evidence check_finding check_finding_evidence check_findings
    check_identity check_uncertainty validate_result
results-gathered = refl

result_is_represented_example :
    (u : Entry) × IsIn u unique × IsIn u validated × StandsFor u (entry_of first)
result_is_represented_example =
    result_is_represented lib (obj task) results validated unique duplicates (entry_of first)
      results-gathered (inl refl)

one_item_per_identity_example : NoRepeat (map (λ u. identity_key u.result) unique)
one_item_per_identity_example =
    one_item_per_identity lib (obj task) results validated unique duplicates results-gathered

kept_findings_are_backed_example :
    IsGrounded task (fields_in (item (fields_in (finding "OPPOSE")) "evidence"))
kept_findings_are_backed_example =
    kept_findings_are_backed lib (obj task) results validated unique duplicates (entry_of opposing)
      (finding "OPPOSE") results-gathered (inr (inl refl)) (inl refl)

-- The same model under another content is refused.
conflict-refused :
    unify (entry_of again ∷ record { digest = "other"; result = first } ∷ [])
    ≡ refused (contract "MODEL_IDENTITY_CONTENT_CONFLICT")
unfolding unify ◌>>=◌
conflict-refused = refl

divergent_claims-IsTaken_example : IsIn "claim" (divergent_claims (occurrences_of unique)) ↔ (
    IsTaken "claim" "SUPPORT" (occurrences_of unique)
    × IsTaken "claim" "OPPOSE" (occurrences_of unique))
divergent_claims-IsTaken_example = divergent_claims-IsTaken (occurrences_of unique) "claim"

divergent-sides_example : (is_divergent (occurrences_of unique) "claim" ≡ true) ↔ (
    (cross_divergence provider_model "claim" (occurrences_of unique) ≡ true)
    ⊎ (role_conditioned_divergence "claim" (occurrences_of unique) ≡ true))
divergent-sides_example = divergent-sides (occurrences_of unique) "claim"

models-apart : cross_divergence provider_model "claim" (occurrences_of unique) ≡ true
unfolding cross_divergence presence occurrences_of at_position
models-apart = refl

claim-divergent : divergent_claims (occurrences_of unique) ≡ "claim" ∷ []
unfolding divergent_claims occurrences_of claim_keys descriptive_label at_position sort_by insert_by
claim-divergent = refl
