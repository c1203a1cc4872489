-- ===== src/Prelude/Order.antt =====
-- The order of texts and of tuples of texts, and stable sorting by it, as `sorted` does.
use Prim.Native.Nat.{ℕ}
use Prim.Native.String.{String}
use mathlib.Core.Path.{◌≡◌, refl}
use mathlib.Core.Logic.{◌↔◌}
use mathlib.Core.Bool.{Bool, true, false, not, ◌&&◌, ◌||◌}
use mathlib.Core.List.{List, [], ◌∷◌}
use multiverse_research.Prelude.Tests.{Eq, ◌==◌, string_eq, ltb, nat_beq, if◌then◌else◌, and-both}
use multiverse_research.Prelude.Lists.{filterb}
use multiverse_research.Prelude.Text.{codes}

-- `s < t`, by code points.
abbrev pub codes_lt : List ℕ → List ℕ → Bool
codes_lt [] [] = false
codes_lt [] (d ∷ t) = true
codes_lt (c ∷ s) [] = false
codes_lt (c ∷ s) (d ∷ t) = ltb c d || (nat_beq c d && codes_lt s t)

abbrev pub text_lt : String → String → Bool
text_lt s t = codes_lt (codes s) (codes t)

-- `a < b`, of tuples.
abbrev pub tuple_lt : List String → List String → Bool
tuple_lt [] [] = false
tuple_lt [] (t ∷ b) = true
tuple_lt (s ∷ a) [] = false
tuple_lt (s ∷ a) (t ∷ b) = text_lt s t || (s == t && tuple_lt a b)

module _ {A : Type 0} ⦃eq : Eq A⦄ where
  abbrev pub list_beq : List A → List A → Bool
  list_beq [] [] = true
  list_beq (x ∷ xs) (y ∷ ys) = x == y && list_beq xs ys
  list_beq _ _ = false

  pub list_beq_iff : (xs ys : List A) → (list_beq xs ys ≡ true) ↔ (xs ≡ ys)
  list_beq_iff [] [] = (λ _. refl, λ _. refl)
  list_beq_iff [] (y ∷ ys) = (λ h. cc, λ h. cc)
  list_beq_iff (x ∷ xs) [] = (λ h. cc, λ h. cc)
  list_beq_iff (x ∷ xs) (y ∷ ys) = (
    λ h.
        let both = and-both (x == y) (list_beq xs ys) h in
        cc ((eq.beq_iff x y).0 both.0, (list_beq_iff xs ys).0 both.1),
    λ h.
        let head : x ≡ y = cc h in
        let tail : xs ≡ ys = cc h in rw ((eq.beq_iff x y).1 head, (list_beq_iff xs ys).1 tail) refl,
  )

  instance abbrev pub list_eq : Eq (List A)
  list_eq = record { beq = list_beq; beq_iff = list_beq_iff }

  -- The entries without repeats, each where it stands first.
  abbrev pub distinct : List A → List A
  distinct [] = []
  distinct (x ∷ xs) = x ∷ filterb (λ y. not (y == x)) (distinct xs)

module _ {A : Type 0} (key : A → List String) where
  -- A stable insertion, of an entry that stood before the others.
  unfoldable pub insert_by : A → List A → List A
  insert_by x [] = x ∷ []
  insert_by x (y ∷ ys) =
      let rest = insert_by x ys in if tuple_lt (key y) (key x) then y ∷ rest else x ∷ y ∷ ys

  -- `sorted(xs, key=key)`
  unfoldable pub sort_by : List A → List A
  sort_by [] = []
  sort_by (x ∷ xs) = insert_by x (sort_by xs)

abbrev pub sort_texts : List String → List String
sort_texts = sort_by (λ s. s ∷ [])
