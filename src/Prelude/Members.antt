-- ===== src/Prelude/Members.antt =====
-- What is in a list that others were made into.
use Prim.Native.String.{String}
use mathlib.Core.Path.{◌≡◌, refl, sym, ap, ◌∙◌}
use mathlib.Core.Logic.{◌⊎◌, inl, inr}
use mathlib.Core.Bool.{Bool, true, false, not}
use mathlib.Core.List.{List, [], ◌∷◌, ◌++◌, map}
use native.Mathlib.Omega.{arith}
use multiverse_research.Prelude.Tests.{Eq, ◌==◌, Bool-cases, and-both}
use multiverse_research.Prelude.Lists.{filterb, all, elem, IsIn}
use multiverse_research.Prelude.Order.{distinct, tuple_lt, insert_by, sort_by}

module _ {A : Type 0} where
  pub IsIn-append_left : (x : A) (xs ys : List A) → IsIn x xs → IsIn x (xs ++ ys)
  IsIn-append_left x [] ys among = elim among [ ]
  IsIn-append_left x (y ∷ xs) ys (inl here) = inl here
  IsIn-append_left x (y ∷ xs) ys (inr among) = inr (IsIn-append_left x xs ys among)

  pub IsIn-append_right : (x : A) (xs ys : List A) → IsIn x ys → IsIn x (xs ++ ys)
  IsIn-append_right x [] ys among = among
  IsIn-append_right x (y ∷ xs) ys among = inr (IsIn-append_right x xs ys among)

  pub append-IsIn : (x : A) (xs ys : List A) → IsIn x (xs ++ ys) → IsIn x xs ⊎ IsIn x ys
  append-IsIn x [] ys among = inr among
  append-IsIn x (y ∷ xs) ys (inl here) = inl (inl here)
  append-IsIn x (y ∷ xs) ys (inr among) = elim (append-IsIn x xs ys among) [
    | inl front ↦ inl (inr front)
    | inr back ↦ inr back
  ]

  pub IsIn-map : {B : Type 0} (f : A → B) (x : A) (xs : List A) → IsIn x xs → IsIn (f x) (map f xs)
  IsIn-map f x [] among = elim among [ ]
  IsIn-map f x (y ∷ xs) (inl here) = inl (ap f here)
  IsIn-map f x (y ∷ xs) (inr among) = inr (IsIn-map f x xs among)

  pub map-IsIn :
      {B : Type 0} (f : A → B) (y : B) (xs : List A)
      → IsIn y (map f xs)
      → (x : A) × IsIn x xs × (f x ≡ y)
  map-IsIn f y [] among = elim among [ ]
  map-IsIn f y (x ∷ xs) (inl here) = (x, inl refl, sym here)
  map-IsIn f y (x ∷ xs) (inr later) =
      let (z, among, same) = map-IsIn f y xs later in (z, inr among, same)

  pub IsIn-all : (p : A → Bool) (x : A) (xs : List A) → all p xs ≡ true → IsIn x xs → p x ≡ true
  IsIn-all p x [] h among = elim among [ ]
  IsIn-all p x (y ∷ xs) h (inl here) = ap p here ∙ (and-both _ _ h).0
  IsIn-all p x (y ∷ xs) h (inr among) = IsIn-all p x xs (and-both _ _ h).1 among

  pub IsIn-filterb :
      (p : A → Bool) (x : A) (xs : List A) → p x ≡ true → IsIn x xs → IsIn x (filterb p xs)
  IsIn-filterb p x [] h among = elim among [ ]
  IsIn-filterb p x (y ∷ xs) h (inl here) = rw (sym (ap p here) ∙ h) (inl here)
  IsIn-filterb p x (y ∷ xs) h (inr among) = elim (Bool-cases (p y)) [
    | inl e ↦ rw e (inr (IsIn-filterb p x xs h among))
    | inr e ↦ rw e (IsIn-filterb p x xs h among)
  ]

  pub filterb-IsIn :
      (p : A → Bool) (x : A) (xs : List A) → IsIn x (filterb p xs) → IsIn x xs × (p x ≡ true)
  filterb-IsIn p x [] among = elim among [ ]
  filterb-IsIn p x (y ∷ xs) among = elim (Bool-cases (p y)) [
    | inl e ↦ elim (rw e at among) [
      | inl here ↦ (inl here, ap p here ∙ e)
      | inr later ↦ let (found, fits) = filterb-IsIn p x xs later in (inr found, fits)
    ]
    | inr e ↦ let (found, fits) = filterb-IsIn p x xs (rw e at among) in (inr found, fits)
  ]

  module _ (key : A → List String) where
    IsIn-insert_by : (x y : A) (ys : List A) → ((x ≡ y) ⊎ IsIn x ys) → IsIn x (insert_by key y ys)
    unfolding insert_by
    IsIn-insert_by x y [] among = among
    IsIn-insert_by x y (z ∷ zs) among = elim (Bool-cases (tuple_lt (key z) (key y))) [
      | inr e ↦ rw e among
      | inl e ↦ rw e (elim among [
        | inl here ↦ inr (IsIn-insert_by x y zs (inl here))
        | inr more ↦ elim more [
          | inl here ↦ inl here
          | inr later ↦ inr (IsIn-insert_by x y zs (inr later))
        ]
      ])
    ]

    insert_by-IsIn : (x y : A) (ys : List A) → IsIn x (insert_by key y ys) → (x ≡ y) ⊎ IsIn x ys
    unfolding insert_by
    insert_by-IsIn x y [] among = among
    insert_by-IsIn x y (z ∷ zs) among = elim (Bool-cases (tuple_lt (key z) (key y))) [
      | inr e ↦ rw e at among
      | inl e ↦ elim (rw e at among) [
        | inl here ↦ inr (inl here)
        | inr later ↦ elim (insert_by-IsIn x y zs later) [
          | inl here ↦ inl here
          | inr more ↦ inr (inr more)
        ]
      ]
    ]

    pub IsIn-sort_by : (x : A) (xs : List A) → IsIn x xs → IsIn x (sort_by key xs)
    unfolding sort_by
    IsIn-sort_by x [] among = among
    IsIn-sort_by x (y ∷ ys) (inl here) = IsIn-insert_by x y (sort_by key ys) (inl here)
    IsIn-sort_by x (y ∷ ys) (inr among) =
        IsIn-insert_by x y (sort_by key ys) (inr (IsIn-sort_by x ys among))

    pub sort_by-IsIn : (x : A) (xs : List A) → IsIn x (sort_by key xs) → IsIn x xs
    unfolding sort_by
    sort_by-IsIn x [] among = among
    sort_by-IsIn x (y ∷ ys) among = elim (insert_by-IsIn x y (sort_by key ys) among) [
      | inl here ↦ inl here
      | inr more ↦ inr (sort_by-IsIn x ys more)
    ]

module _ {A : Type 0} ⦃eq : Eq A⦄ where
  pub IsIn-distinct : (x : A) (xs : List A) → IsIn x xs → IsIn x (distinct xs)
  IsIn-distinct x [] among = among
  IsIn-distinct x (y ∷ ys) (inl here) = inl here
  IsIn-distinct x (y ∷ ys) (inr among) = elim (Bool-cases (x == y)) [
    | inl e ↦ inl ((eq.beq_iff x y).0 e)
    | inr e ↦
        inr
          (IsIn-filterb (λ z. not (z == y)) x (distinct ys) (rw e refl) (IsIn-distinct x ys among))
  ]

module _ {A : Type 0} where
  pub elem-IsIn : ⦃eq : Eq A⦄ (x : A) (xs : List A) → elem x xs ≡ true → IsIn x xs
  elem-IsIn x [] h = cc
  elem-IsIn ⦃eq⦄ x (y ∷ ys) h = elim (Bool-cases (x == y)) [
    | inl e ↦ inl ((eq.beq_iff x y).0 e)
    | inr e ↦ inr (elem-IsIn x ys (rw e at h))
  ]

  pub IsIn-elem : ⦃eq : Eq A⦄ (x : A) (xs : List A) → elem x xs ≡ false → ¬ IsIn x xs
  IsIn-elem x [] h among = among
  IsIn-elem ⦃eq⦄ x (y ∷ ys) h (inl here) = cc ((eq.beq_iff x y).1 here, h)
  IsIn-elem x (y ∷ ys) h (inr among) = IsIn-elem x ys (ground arith) among

-- No entry stands twice.
abbrev pub NoRepeat : {A : Type 0} → List A → Type 0
NoRepeat [] = Unit
NoRepeat (x ∷ xs) = ¬ IsIn x xs × NoRepeat xs

module _ {A : Type 0} where
  filterb-NoRepeat : (p : A → Bool) (xs : List A) → NoRepeat xs → NoRepeat (filterb p xs)
  filterb-NoRepeat p [] h = tt
  filterb-NoRepeat p (x ∷ xs) h = elim (Bool-cases (p x)) [
    | inl e ↦ rw e ((λ among. h.0 (filterb-IsIn p x xs among).0), filterb-NoRepeat p xs h.1)
    | inr e ↦ rw e (filterb-NoRepeat p xs h.1)
  ]

  pub distinct-NoRepeat : ⦃eq : Eq A⦄ (xs : List A) → NoRepeat (distinct xs)
  distinct-NoRepeat [] = tt
  distinct-NoRepeat ⦃eq⦄ (x ∷ xs) = (
    λ among.
        let off = (filterb-IsIn (λ y. not (y == x)) x (distinct xs) among).1 in
        cc (off, (eq.beq_iff x x).1 refl),
    filterb-NoRepeat (λ y. not (y == x)) (distinct xs) (distinct-NoRepeat xs),
  )

  insert_by-NoRepeat :
      (key : A → List String) (x : A) (xs : List A)
      → ¬ IsIn x xs
      → NoRepeat xs
      → NoRepeat (insert_by key x xs)
  unfolding insert_by
  insert_by-NoRepeat key x [] new h = (new, tt)
  insert_by-NoRepeat key x (y ∷ ys) new h = elim (Bool-cases (tuple_lt (key y) (key x))) [
    | inr e ↦ rw e (new, h)
    | inl e ↦ rw e (
      (λ among. elim (insert_by-IsIn key y x ys among) [
        | inl same ↦ new (inl (sym same))
        | inr later ↦ h.0 later
      ]),
      insert_by-NoRepeat key x ys (λ later. new (inr later)) h.1,
    )
  ]

  pub sort_by-NoRepeat :
      (key : A → List String) (xs : List A) → NoRepeat xs → NoRepeat (sort_by key xs)
  unfolding sort_by
  sort_by-NoRepeat key [] h = tt
  sort_by-NoRepeat key (x ∷ xs) h =
      insert_by-NoRepeat key x (sort_by key xs) (λ among. h.0 (sort_by-IsIn key x xs among))
        (sort_by-NoRepeat key xs h.1)
