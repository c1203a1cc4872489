-- ===== src/Prelude/Value.antt =====
-- The values of the dynamic language: what `json.loads` gives, and Python's `==` on it.
use Prim.Native.Nat.{ℕ, suc}
use Prim.Native.String.{String}
use mathlib.Core.Bool.{Bool, true, false, ◌&&◌}
use mathlib.Core.Option.{Option, none, some}
use mathlib.Core.List.{List, [], ◌∷◌}
use multiverse_research.Prelude.Tests.{if◌then◌else◌, nat_beq, ◌==◌, string_eq}
use multiverse_research.Prelude.Int.{ℤ, pos, scale, beq_ℤ}

-- A float: a whole number of millionths, or one of the three that are not finite.
pub data Real : Type 0 where
  finite : ℤ → Real
  nan inf neg_inf : Real

-- Millionths to the unit.
abbrev pub unit_scale : ℕ
unit_scale = 1000000

mutual
  pub data Value : Type 0 where
    null : Value
    bool : Bool → Value
    int : ℤ → Value
    float : Real → Value
    str : String → Value
    obj : Fields → Value
    arr : Items → Value

  pub data Fields : Type 0 where
    end : Fields
    field : String → Value → Fields → Fields

  pub data Items : Type 0 where
    nil : Items
    cons : Value → Items → Items

-- `d.get(k)`
abbrev pub get : Fields → String → Option Value
get end k = none
get (field j v d) k = let rest = get d k in if j == k then some v else rest

-- `d[k] = v`
abbrev pub put : Fields → String → Value → Fields
put end k v = field k v end
put (field j w d) k v = let rest = put d k v in if j == k then field j v d else field j w rest

-- `d.update(e)`
abbrev pub update : Fields → Fields → Fields
update d end = d
update d (field k v e) = update (put d k v) e

abbrev pub size : Fields → ℕ
size end = 0
size (field k v d) = suc (size d)

-- The keys of a dict are exactly those listed; neither side repeats one.
abbrev pub has_keys : Fields → List String → Bool
has_keys d [] = true
has_keys d (k ∷ ks) = (elim (get d k) [ none ↦ false | some _ ↦ true ]) && has_keys d ks

-- The number that a bool, an int or a float is compared as.
abbrev pub number : Value → Option Real
number (bool true) = some (finite (scale unit_scale (pos 1)))
number (bool false) = some (finite (pos 0))
number (int n) = some (finite (scale unit_scale n))
number (float x) = some x
number _ = none

abbrev pub beq_Real : Real → Real → Bool
beq_Real (finite a) (finite b) = beq_ℤ a b
beq_Real inf inf = true
beq_Real neg_inf neg_inf = true
beq_Real _ _ = false

abbrev pub beq_number : Option Real → Option Real → Bool
beq_number (some a) (some b) = beq_Real a b
beq_number _ _ = false

-- `a == b` of Python: numbers compare across their types, and dicts without regard to order.
unfoldable mutual
  pub equals : Value → Value → Bool
  equals null null = true
  equals (str s) (str t) = s == t
  equals (arr xs) (arr ys) = equals_items xs ys
  equals (obj d) (obj e) = nat_beq (size d) (size e) && contained d e
  equals a b = beq_number (number a) (number b)

  pub equals_items : Items → Items → Bool
  equals_items nil nil = true
  equals_items (cons x xs) (cons y ys) = equals x y && equals_items xs ys
  equals_items _ _ = false

  pub contained : Fields → Fields → Bool
  contained end e = true
  contained (field k v d) e =
      (elim (get e k) [ none ↦ false | some w ↦ equals v w ]) && contained d e
