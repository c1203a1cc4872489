-- ===== src/Review/Authority.antt =====
-- What the contract of a review request guarantees (automation/review_dispatcher_v1/
-- model_legacy_v1.py): no authority, and no forbidden key at any depth of the recipe.
use multiverse_research.Prelude.{
  ◌≡◌, String, true, false, some, List, [], ◌∷◌, ◌==◌, string_eq, elem, arith, inl, inr, subst, sym,
  refl, Bool-cases, Option-cases, eq_iff,
}
use multiverse_research.Prelude.Value.{Value, Fields, get, has_keys, obj, end, field}
use multiverse_research.Prelude.Json.{item, is_false, is_string, fields_in}
use multiverse_research.Prelude.Checked.{passed, require, unbind, required, passed-inj, each_field}
use multiverse_research.Prelude.Keys.{Occurs, reject_keys-clean}
use multiverse_research.Review.Paths.{Net}
use multiverse_research.Review.Recipe.{is_forbidden_key, scan_recipe_keys, check_recipe}
use multiverse_research.Review.Request.{
  nonauthority_keys, check_envelope, check_nonauthority, check_upstream, check_http,
  validate_request,
}

-- The parts of a request that passes.
pub validate_request-parts :
    (net : Net) (v : Value) (r : Fields)
    → validate_request net v ≡ passed r
    → (v ≡ obj r)
      × (check_envelope r ≡ passed tt)
      × (check_nonauthority (item r "nonauthority") ≡ passed tt)
      × (check_upstream (is_string (item r "lane") "LAB") (item r "upstream") ≡ passed tt)
      × (check_recipe net (item r "recipe") ≡ passed tt)
      × (check_http net
            (is_string (item r "mode") "REPOSITORY_ONLY")
            (item (fields_in (item r "recipe")) "http")
          ≡ passed tt)
unfolding validate_request
validate_request-parts net (obj d) r h = required true "REQUEST_OBJECT" _ h λ _ h.
    required _ _ _ h λ _ h. unbind _ _ h λ _ envelope h. unbind _ _ h λ _ nonauthority h.
      unbind _ _ h λ _ upstream h. unbind _ _ h λ _ recipe h. unbind _ _ h λ _ http h.
        subst
          (λ r.
            (obj d ≡ obj r)
            × (check_envelope r ≡ passed tt)
            × (check_nonauthority (item r "nonauthority") ≡ passed tt)
            × (check_upstream (is_string (item r "lane") "LAB") (item r "upstream") ≡ passed tt)
            × (check_recipe net (item r "recipe") ≡ passed tt)
            × (check_http net (is_string (item r "mode") "REPOSITORY_ONLY")
                  (item (fields_in (item r "recipe")) "http")
                ≡ passed tt))
          (passed-inj h) (refl, envelope, nonauthority, upstream, recipe, http)
validate_request-parts net v r h = required false "REQUEST_OBJECT" _ h λ dict _. absurd (cc dict)

has_keys-elem :
    (d : Fields) (k : String) (ks : List String)
    → has_keys d ks ≡ true
    → elem k ks ≡ true
    → (v : Value) × (get d k ≡ some v)
has_keys-elem d k [] h e = cc
has_keys-elem d k (j ∷ ks) h e = elim (Option-cases (get d j)) [
  | inl missing ↦ cc (rw missing at h)
  | inr (v, found) ↦ elim (Bool-cases (k == j)) [
    | inl same ↦ (v, subst (λ i. get d i ≡ some v) (sym ((eq_iff k j).0 same)) found)
    | inr differ ↦ has_keys-elem d k ks (rw found at h) (rw differ at e)
  ]
]

flags-off :
    (k : String) (d : Fields) (v : Value)
    → each_field (λ _ flag. require (is_false flag) "NONAUTHORITY_NOT_FALSE") d ≡ passed tt
    → get d k ≡ some v
    → is_false v ≡ true
unfolding each_field
flags-off k end v h e = cc
flags-off k (field j w d) v h e = required _ _ _ h λ off h. elim (Bool-cases (j == k)) [
  | inl same ↦ cc (rw same at e, off)
  | inr differ ↦ flags-off k d v h (rw differ at e)
]

flag-item :
    (k : String) (d : Fields)
    → each_field (λ _ flag. require (is_false flag) "NONAUTHORITY_NOT_FALSE") d ≡ passed tt
    → ((v : Value) × (get d k ≡ some v))
    → is_false (item d k) ≡ true
flag-item k d h (v, found) = rw (found, item) (flags-off k d v h found)

all_off :
    (k : String) (v : Value)
    → check_nonauthority v ≡ passed tt
    → elem k nonauthority_keys ≡ true
    → is_false (item (fields_in v) k) ≡ true
unfolding check_nonauthority
all_off k (obj d) h e =
    required _ _ _ h
      λ keys h. flag-item k d h (has_keys-elem d k nonauthority_keys (ground arith) e)
all_off k v h e = required false "NONAUTHORITY_SCHEMA" _ h λ keys _. absurd (cc keys)

-- In a request that passes, each of the fifteen authorities is written out as `false`.
pub no_authority :
    (net : Net) (v : Value) (r : Fields) (k : String)
    → validate_request net v ≡ passed r
    → elem k nonauthority_keys ≡ true
    → is_false (item (fields_in (item r "nonauthority")) k) ≡ true
no_authority net v r k h e =
    all_off k (item r "nonauthority") (validate_request-parts net v r h).2 e

-- No key at any depth of the recipe of a request that passes contains a forbidden fragment.
pub recipe_is_clean :
    (net : Net) (v : Value) (r : Fields) (k : String)
    → validate_request net v ≡ passed r
    → Occurs k (item r "recipe")
    → is_forbidden_key net k ≡ false
unfolding check_recipe scan_recipe_keys
recipe_is_clean net v r k h o = required _ _ _ (validate_request-parts net v r h).4 λ _ h.
    required _ _ _ h λ _ h.
      unbind _ _ h
        λ _ clean _. reject_keys-clean (is_forbidden_key net) "FORBIDDEN_RECIPE_KEY" k o clean
