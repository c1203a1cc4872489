-- ===== src/Prelude/Table.antt =====
-- A table whose rows have a text for a primary key, in the order of insertion.
use Prim.Native.String.{String}
use mathlib.Core.Path.{◌≡◌, refl, sym, subst}
use mathlib.Core.Logic.{◌≢◌, inl, inr}
use mathlib.Core.List.{List, [], ◌∷◌, ◌++◌}
use mathlib.Core.Option.{Option, none, some}
use native.Mathlib.Omega.{arith}
use text.Mathlib.TextEquality.{eq_iff}
use multiverse_research.Prelude.Tests.{
  if◌then◌else◌, ◌==◌, string_eq, Bool-cases, some-inj, str_eq_refl,
}
use multiverse_research.Prelude.Lists.{All, All-map}

module _ {ℓ} {R : Type ℓ} (key : R → String) where
  -- `SELECT … WHERE id=?`, with `fetchone`.
  unfoldable pub select : String → List R → Option R
  select k [] = none
  select k (r ∷ rs) = let rest = select k rs in if key r == k then some r else rest

  -- `UPDATE … SET … WHERE id=?`
  unfoldable pub update_where : String → (R → R) → List R → List R
  update_where k f [] = []
  update_where k f (r ∷ rs) = (if key r == k then f r else r) ∷ update_where k f rs

  -- No key occurs twice.
  abbrev pub HasUniqueKeys : List R → Type ℓ
  HasUniqueKeys [] = Unit
  HasUniqueKeys (r ∷ rs) = (select (key r) rs ≡ none) × HasUniqueKeys rs

  pub select-key : (k : String) (rs : List R) (r : R) → select k rs ≡ some r → key r ≡ k
  unfolding select
  select-key k [] r e = cc
  select-key k (x ∷ rs) r e = ground (arith, (eq_iff (key x) k).0, select-key k rs r)

  pub select-append :
      (k : String) (rs ss : List R)
      → select k (rs ++ ss) ≡ (elim (select k rs) [ none ↦ select k ss | some r ↦ some r ])
  unfolding select
  select-append k [] ss = refl
  select-append k (r ∷ rs) ss = ground (arith, select-append k rs ss)

  -- A row that is found satisfies what all rows satisfy.
  pub All-select {κ} :
      (P : R → Type κ) (k : String) (rs : List R) (r : R) → All P rs → select k rs ≡ some r → P r
  unfolding select
  All-select P k [] r h e = cc
  All-select P k (x ∷ rs) r h e = elim (Bool-cases (key x == k)) [
    | inl hit ↦ subst P (some-inj (rw hit at e)) h.0
    | inr miss ↦ All-select P k rs r h.1 (rw miss at e)
  ]

  -- Updates that leave the key alone.
  module _ (k : String) (f : R → R) (same : (r : R) → key (f r) ≡ key r) where
    pub select-update_self :
        (rs : List R) (r : R) → select k rs ≡ some r → select k (update_where k f rs) ≡ some (f r)
    unfolding select update_where
    select-update_self [] r e = cc
    select-update_self (x ∷ rs) r e = ground (arith, same x, select-update_self rs r)

    pub select-update_ne :
        (j : String) (rs : List R) → k ≢ j → select j (update_where k f rs) ≡ select j rs
    unfolding select update_where
    select-update_ne j [] ne = refl
    select-update_ne j (x ∷ rs) ne =
        ground (arith, same x, eq_iff (key x) k, eq_iff (key x) j, select-update_ne j rs)

    pub update-missing : (rs : List R) → select k rs ≡ none → update_where k f rs ≡ rs
    unfolding select update_where
    update-missing [] e = refl
    update-missing (x ∷ rs) e = ground (arith, update-missing rs)

    pub select-update_none :
        (j : String) (rs : List R) → select j rs ≡ none → select j (update_where k f rs) ≡ none
    unfolding select update_where
    select-update_none j [] e = refl
    select-update_none j (x ∷ rs) e = ground (arith, same x, select-update_none j rs)

    pub update-HasUniqueKeys :
        (rs : List R) → HasUniqueKeys rs → HasUniqueKeys (update_where k f rs)
    unfolding update_where
    update-HasUniqueKeys [] u = tt
    update-HasUniqueKeys (x ∷ rs) u =
        ground (arith, same x, select-update_none (key x) rs u.0, update-HasUniqueKeys rs u.1)

    -- With unique keys, only the row that is found is rewritten.
    pub update-All {κ} :
        (P : R → Type κ) (rs : List R) (r : R)
        → HasUniqueKeys rs
        → select k rs ≡ some r
        → P (f r)
        → All P rs
        → All P (update_where k f rs)
    unfolding select update_where
    update-All P [] r u e p h = tt
    update-All P (x ∷ rs) r u e p h = elim (Bool-cases (key x == k)) [
      | inl hit ↦ rw hit (
        subst (λ y. P (f y)) (sym (some-inj (rw hit at e))) p,
        rw (update-missing rs (subst (λ j. select j rs ≡ none) ((eq_iff (key x) k).0 hit) u.0)) h.1,
      )
      | inr miss ↦ rw miss (h.0, update-All P rs r u.1 (rw miss at e) p h.1)
    ]

  pub append-HasUniqueKeys :
      (rs : List R) (r : R)
      → HasUniqueKeys rs
      → select (key r) rs ≡ none
      → HasUniqueKeys (rs ++ r ∷ [])
  unfolding select
  append-HasUniqueKeys [] r u e = (refl, tt)
  append-HasUniqueKeys (x ∷ rs) r u e = ground (
    arith,
    select-append (key x) rs (r ∷ []),
    append-HasUniqueKeys rs r u.1,
    eq_iff (key x) (key r),
    eq_iff (key r) (key x),
  )

  -- With unique keys every row is the one that its key finds.
  pub select_own : (rs : List R) → HasUniqueKeys rs → All (λ r. select (key r) rs ≡ some r) rs
  unfolding select
  select_own [] u = tt
  select_own (x ∷ rs) u = (
    simp (str_eq_refl (key x)),
    All-map _ _ rs
        (λ r e. elim (Bool-cases (key x == key r)) [
          | inl hit ↦ cc (subst (λ j. select j rs ≡ none) ((eq_iff (key x) (key r)).0 hit) u.0)
          | inr miss ↦ rw miss e
        ])
        (select_own rs u.1),
  )

  -- A row that is new to the table is found after it is inserted.
  pub select-append_new :
      (rs : List R) (r : R) → select (key r) rs ≡ none → select (key r) (rs ++ r ∷ []) ≡ some r
  unfolding select
  select-append_new [] r e = simp (str_eq_refl (key r))
  select-append_new (x ∷ rs) r e = ground (arith, select-append_new rs r)
