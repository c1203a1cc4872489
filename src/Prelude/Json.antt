-- ===== src/Prelude/Json.antt =====
-- Tests on JSON values, as Python writes them with `isinstance`.
use Prim.Native.Nat.{ℕ, suc}
use Prim.Native.String.{String}
use mathlib.Core.Bool.{Bool, true, false, not, ◌&&◌, ◌||◌}
use mathlib.Core.List.{List, [], ◌∷◌}
use multiverse_research.Prelude.Lists.{length, elem}
use mathlib.Core.Option.{none, some}
use multiverse_research.Prelude.Tests.{◌==◌, string_eq, nat_beq}
use multiverse_research.Prelude.Int.{pos, beq_ℤ}
use multiverse_research.Prelude.Text.{is_empty}
use multiverse_research.Prelude.Value.{
  Value, Items, Fields, null, bool, int, float, finite, str, arr, obj, get, size, has_keys,
}

-- `d.get(k)`, which is `None` for a missing key; also `d[k]` where the key is known to be there.
abbrev pub item : Fields → String → Value
item d k = elim (get d k) [ none ↦ null | some v ↦ v ]

-- `isinstance(v, str) and v`
abbrev pub is_text : Value → Bool
is_text (str s) = not (is_empty s)
is_text _ = false

abbrev pub is_str : Value → Bool
is_str (str s) = true
is_str _ = false

-- `isinstance(v, int) and not isinstance(v, bool) and v >= 0`
abbrev pub is_count : Value → Bool
is_count (int (pos n)) = true
is_count _ = false

-- `isinstance(v, int) and not isinstance(v, bool) and v == 0`
abbrev pub is_zero : Value → Bool
is_zero (int (pos n)) = nat_beq n 0
is_zero _ = false

abbrev pub is_string : Value → String → Bool
is_string (str s) t = s == t
is_string _ t = false

-- `isinstance(v, int) and not isinstance(v, bool) and v > 0`
abbrev pub is_positive : Value → Bool
is_positive (int (pos (suc n))) = true
is_positive _ = false

-- `v is None`
abbrev pub is_null : Value → Bool
is_null null = true
is_null _ = false

-- `v is False`
abbrev pub is_false : Value → Bool
is_false (bool false) = true
is_false _ = false

-- The text in a value that is one; only used behind a test.
abbrev pub text_in : Value → String
text_in (str s) = s
text_in _ = ""

abbrev pub items_in : Value → Items
items_in (arr xs) = xs
items_in _ = Items.nil

abbrev pub fields_in : Value → Fields
fields_in (obj d) = d
fields_in _ = Fields.end

-- The number in a value that is a positive one.
abbrev pub count_in : Value → ℕ
count_in (int (pos n)) = n
count_in _ = 0

-- `not v`
abbrev pub is_falsy : Value → Bool
is_falsy null = true
is_falsy (bool b) = not b
is_falsy (int n) = beq_ℤ n (pos 0)
is_falsy (float (finite x)) = beq_ℤ x (pos 0)
is_falsy (float _) = false
is_falsy (str s) = is_empty s
is_falsy (arr Items.nil) = true
is_falsy (arr _) = false
is_falsy (obj Fields.end) = true
is_falsy (obj _) = false

-- `set(d) == {…}`, of keys that are listed once.
abbrev pub exact_keys : Fields → List String → Bool
exact_keys d ks = nat_beq (size d) (length ks) && has_keys d ks

-- A dict with exactly these keys.
abbrev pub is_object_of : List String → Value → Bool
is_object_of ks (obj d) = exact_keys d ks
is_object_of ks _ = false

-- A list or a dict has no hash.
abbrev pub is_hashable : Value → Bool
is_hashable (arr _) = false
is_hashable (obj _) = false
is_hashable _ = true

-- `isinstance(v, dict)` and `isinstance(v, list)`
abbrev pub is_dict : Value → Bool
is_dict (obj _) = true
is_dict _ = false

abbrev pub is_list : Value → Bool
is_list (arr _) = true
is_list _ = false

-- `isinstance(v, list) and v`
abbrev pub is_filled_list : Value → Bool
is_filled_list (arr Items.nil) = false
is_filled_list (arr _) = true
is_filled_list _ = false

abbrev pub all_items : (Value → Bool) → Items → Bool
all_items p Items.nil = true
all_items p (Items.cons x xs) = p x && all_items p xs

abbrev pub texts_in : Items → List String
texts_in Items.nil = []
texts_in (Items.cons v xs) = text_in v ∷ texts_in xs

-- `len(set(ss)) != len(ss)`
abbrev pub has_repeat : List String → Bool
has_repeat [] = false
has_repeat (s ∷ ss) = elem s ss || has_repeat ss
