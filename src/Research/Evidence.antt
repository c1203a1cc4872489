-- ===== src/Research/Evidence.antt =====
-- What backs the findings of an accepted result (automation/multimodel_research_v1/model.py).
use multiverse_research.Prelude.{
  ◌≡◌, refl, sym, ap, ◌∙◌, subst, String, Bool, true, false, ◌&&◌, some, List, [], if◌then◌else◌,
  string_eq, inl, inr, ◌⊎◌, Bool-cases, Option-cases, some-inj, and-both, arith, ℕ,
}
use multiverse_research.Prelude.Value.{Value, Items, Fields, nil, cons, equals}
use multiverse_research.Prelude.Json.{item, is_null, items_in, fields_in}
use multiverse_research.Prelude.Checked.{
  passed, unbind, required, require-passed, passed-inj, each, IsItem, each-IsItem,
}
use multiverse_research.Research.Contract.{Library, is_digest}
use multiverse_research.Research.Task.{
  names_source, is_v2, is_among, check_manifest_entry, check_manifest_entries, check_manifest,
  validate_task,
}
use multiverse_research.Research.Result.{
  last_item, source_of, manifest_of, check_against_manifest, check_against_source,
  check_finding_evidence, validate_result_for_task,
}

-- What a search finds is in the list and passes the test.
last_item-IsItem :
    (p : Fields → Bool) (xs : Items) (d : Fields)
    → last_item p xs ≡ some d
    → (w : Value) × IsItem w xs × (d ≡ fields_in w) × (p (fields_in w) ≡ true)
last_item-IsItem p nil d h = cc
last_item-IsItem p (cons v xs) d h = elim (Option-cases (last_item p xs)) [
  | inr (found, e) ↦
      let (w, among, own, fits) = last_item-IsItem p xs found e in
      (w, inr among, sym (some-inj (rw e at h)) ∙ own, fits)
  | inl e ↦ elim (Bool-cases (p (fields_in v))) [
    | inl fits ↦ (v, inl refl, sym (some-inj (rw (e, fits) at h)), fits)
    | inr differs ↦ cc (rw (e, differs) at h)
  ]
]

-- The evidence stands in the manifest with the same digest.
abbrev pub IsDeclared : Fields → Fields → Type 0
IsDeclared task e =
    (w : Value) × IsItem w (items_in (item task "evidence_manifest"))
    × (equals (item (fields_in w) "primitive") (item e "primitive") ≡ true)
    × (equals (item (fields_in w) "ref") (item e "ref") ≡ true)
    × (equals (item e "sha256") (item (fields_in w) "sha256") ≡ true)
    × (is_digest (item (fields_in w) "sha256") ≡ true)

-- The evidence stands among the sources with the same digest.
abbrev pub IsSourced : Fields → Fields → Type 0
IsSourced task e =
    (w : Value) × IsItem w (items_in (item task "source_refs"))
    × (equals (item (fields_in w) "ref") (item e "ref") ≡ true)
    × (is_null (item (fields_in w) "sha256") ≡ false)
    × (equals (item e "sha256") (item (fields_in w) "sha256") ≡ true)

-- What backs one piece of evidence.
abbrev pub IsGrounded : Fields → Fields → Type 0
IsGrounded task e =
    (is_among (item e "primitive") (items_in (item task "allowed_primitives")) ≡ true)
    × ((is_v2 task ≡ false) ⊎ IsDeclared task e)
    × ((names_source (item e "primitive") ≡ false) ⊎ IsSourced task e)

sourced : (task e : Fields) → check_against_source task e ≡ passed tt → IsSourced task e
unfolding check_against_source
sourced task e h =
    elim (Option-cases (source_of (item e "ref") (items_in (item task "source_refs")))) [
      | inl missing ↦ cc (rw (missing, check_against_source) at h)
      | inr (d, found) ↦
          let (w, among, own, fits) =
            last_item-IsItem (λ x. equals (item x "ref") (item e "ref"))
              (items_in (item task "source_refs")) d found in
          required _ _ _ (rw (found, check_against_source) at h) λ filled same. (
            w,
            among,
            fits,
            subst (λ x. is_null (item x "sha256") ≡ false) own (ground arith),
            subst (λ x. equals (item e "sha256") (item x "sha256") ≡ true) own
                (require-passed _ _ same),
          )
    ]

-- Each entry of a manifest that passes has a digest.
manifest-digest :
    (lib : Library) (created : ℕ) (primitives : Items) (sources : List (String × Value))
    (seen : List (String × String)) (xs : Items) (w : Value)
    → check_manifest_entries lib created primitives sources seen xs ≡ passed tt
    → IsItem w xs
    → is_digest (item (fields_in w) "sha256") ≡ true
unfolding check_manifest_entries check_manifest_entry
manifest-digest lib created primitives sources seen nil w h among = elim among [ ]
manifest-digest lib created primitives sources seen (cons v xs) w h (inl here) =
    unbind _ _ h λ _ own _. required _ _ _ own λ _ own. required _ _ _ own λ _ own.
      unbind _ _ own λ _ _ own. required _ _ _ own λ _ own.
        required _ _ _ own
          λ digest _. subst (λ v. is_digest (item (fields_in v) "sha256") ≡ true) (sym here) digest
manifest-digest lib created primitives sources seen (cons v xs) w h (inr among) =
    unbind _ _ h λ entry _ rest. manifest-digest lib created primitives sources _ xs w rest among

declared :
    (task e : Fields)
    → ((w : Value)
        → IsItem w (items_in (item task "evidence_manifest"))
        → is_digest (item (fields_in w) "sha256") ≡ true)
    → check_against_manifest task e ≡ passed tt
    → IsDeclared task e
unfolding check_against_manifest
declared task e digests h =
    elim (Option-cases (
      manifest_of (item e "primitive") (item e "ref") (items_in (item task "evidence_manifest")))) [
        | inl missing ↦ cc (rw (missing, check_against_manifest) at h)
        | inr (d, found) ↦
            let (w, among, own, fits) =
              last_item-IsItem
                (λ x.
                  equals (item x "primitive") (item e "primitive")
                  && equals (item x "ref") (item e "ref"))
                (items_in (item task "evidence_manifest")) d found in
            let (primitive, ref) = and-both _ _ fits in
            (
              w,
              among,
              primitive,
              ref,
              subst (λ x. equals (item e "sha256") (item x "sha256") ≡ true) own
                  (require-passed _ _ (rw (found, check_against_manifest) at h)),
              digests w among,
            )
      ]

-- What a task that passes is, and the check of its manifest.
pub task-manifest :
    (lib : Library) (t : Value) (task : Fields)
    → validate_task lib t ≡ passed task
    → (fields_in t ≡ task)
      × ((created : ℕ) × (sources : List (String × Value)) × ((if is_v2 (fields_in t)
              then check_manifest lib created
                  (items_in (item (fields_in t) "allowed_primitives"))
                  sources
                  (item (fields_in t) "evidence_manifest")
              else passed tt)
            ≡ passed tt))
unfolding validate_task
task-manifest lib t task h = required _ _ _ h λ _ h. unbind _ _ h λ _ _ h. unbind _ _ h λ _ _ h.
    unbind _ _ h λ _ _ h. unbind _ _ h λ created _ h. unbind _ _ h λ _ _ h. unbind _ _ h λ _ _ h.
      required _ _ _ h λ _ h. required _ _ _ h λ _ h. unbind _ _ h λ sources _ h.
        unbind _ _ h λ _ _ h. unbind _ _ h λ _ listed h. unbind _ _ h λ _ _ h. unbind _ _ h λ _ _ h.
          unbind _ _ h λ _ _ h. unbind _ _ h λ _ _ h. (passed-inj h, (created, sources, listed))

-- A task of the second version that passes has a digest in each entry of its manifest.
task-digest :
    (lib : Library) (t : Value) (task : Fields) (w : Value)
    → validate_task lib t ≡ passed task
    → is_v2 task ≡ true
    → IsItem w (items_in (item task "evidence_manifest"))
    → is_digest (item (fields_in w) "sha256") ≡ true
unfolding check_manifest
task-digest lib t task w h v2 among =
    let (same, (created, sources, listed)) = task-manifest lib t task h in
    required _ _ _ (rw (ap is_v2 same ∙ v2) at listed) λ _ listed.
      required _ _ _ listed λ _ entries.
        manifest-digest lib created _ sources [] _ w entries
          (subst (λ x. IsItem w (items_in (item x "evidence_manifest"))) (sym same) among)

finding_backed :
    (lib : Library) (t : Value) (task : Fields) (finding : Value)
    → validate_task lib t ≡ passed task
    → check_finding_evidence task finding ≡ passed tt
    → IsGrounded task (fields_in (item (fields_in finding) "evidence"))
unfolding check_finding_evidence
finding_backed lib t task finding known h =
    let e = fields_in (item (fields_in finding) "evidence") in
    required _ _ _ h λ allowed h. unbind _ _ h λ _ manifest source. (
      allowed,
      (elim (Bool-cases (is_v2 task)) [
        | inr v1 ↦ inl v1
        | inl v2 ↦
            inr (declared task e (λ w. task-digest lib t task w known v2) (rw v2 at manifest))
      ]),
      (elim (Bool-cases (names_source (item e "primitive"))) [
        | inr no_source ↦ inl no_source
        | inl named ↦ inr (sourced task e (rw named at source))
      ]),
    )

-- What a result that passes has passed at the end.
result-evidence :
    (lib : Library) (t v : Value) (r : Fields)
    → validate_result_for_task lib t v ≡ passed r
    → (task : Fields) × (validate_task lib t ≡ passed task)
      × (each (check_finding_evidence task) (items_in (item r "findings")) ≡ passed tt)
unfolding validate_result_for_task
result-evidence lib t v r h = unbind _ _ h λ task known h. unbind _ _ h λ r' _ h.
    required _ _ _ h λ _ h. required _ _ _ h λ _ h. required _ _ _ h λ _ h. unbind _ _ h λ _ _ h.
      unbind _ _ h λ _ _ h. required _ _ _ h λ _ h. required _ _ _ h λ _ h. required _ _ _ h λ _ h.
        required _ _ _ h λ _ h. unbind _ _ h λ _ checked h. (
          task,
          known,
          subst (λ r. each (check_finding_evidence task) (items_in (item r "findings")) ≡ passed tt)
              (passed-inj h) checked,
        )

-- The evidence of each finding in an accepted result has an allowed primitive; under a task of the
-- second version it stands in the manifest with the same digest, which is there; and evidence that
-- names a source stands among the sources of the task with the same digest, which is there.
pub finding_is_backed :
    (lib : Library) (t v : Value) (r : Fields) (finding : Value)
    → validate_result_for_task lib t v ≡ passed r
    → IsItem finding (items_in (item r "findings"))
    → IsGrounded (fields_in t) (fields_in (item (fields_in finding) "evidence"))
finding_is_backed lib t v r finding h among =
    let (task, known, checked) = result-evidence lib t v r h in
    subst (λ x. IsGrounded x (fields_in (item (fields_in finding) "evidence")))
      (sym (task-manifest lib t task known).0)
      (finding_backed lib t task finding known (each-IsItem _ _ finding checked among))
