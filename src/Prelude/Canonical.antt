-- ===== src/Prelude/Canonical.antt =====
-- The canonical form of a JSON value: `json.loads` of `json.dumps` with `sort_keys=True` gives the
-- dicts back with their keys sorted, and dicts do not show the order of their keys to a lookup, a
-- key set or `==`.
use Prim.Native.Nat.{ℕ, suc}
use Prim.Native.String.{String}
use mathlib.Core.Path.{◌≡◌, refl, sym, ◌∙◌, ap, subst}
use mathlib.Core.Logic.{inl, inr}
use mathlib.Core.Bool.{Bool, true, false, ◌&&◌}
use mathlib.Core.Option.{Option, none, some}
use mathlib.Core.List.{List, [], ◌∷◌}
use native.Mathlib.Omega.{arith}
use text.Mathlib.TextEquality.{eq_iff}
use multiverse_research.Prelude.Tests.{
  if◌then◌else◌, nat_beq, ◌==◌, string_eq, Bool-cases, Option-cases,
}
use multiverse_research.Prelude.Text.{codes}
use multiverse_research.Prelude.Order.{codes_lt, text_lt}
use multiverse_research.Prelude.Value.{
  Value, Fields, Items, null, bool, int, float, str, obj, arr, end, field, nil, cons, get, size,
  has_keys, equals, equals_items, contained,
}
use multiverse_research.Prelude.Json.{item, is_text, is_str, is_count, is_zero, is_string}

-- The field stands before the first key that is not less.
unfoldable pub place_key : String → Value → Fields → Fields
place_key k v end = field k v end
place_key k v (field j w d) =
    let rest = place_key k v d in if text_lt j k then field j w rest else field k v (field j w d)

unfoldable mutual
  pub canonical : Value → Value
  canonical (obj d) = obj (sort_keys d)
  canonical (arr xs) = arr (canonical_items xs)
  canonical null = null
  canonical (bool b) = bool b
  canonical (int n) = int n
  canonical (float x) = float x
  canonical (str s) = str s

  pub sort_keys : Fields → Fields
  sort_keys end = end
  sort_keys (field k v d) = place_key k (canonical v) (sort_keys d)

  pub canonical_items : Items → Items
  canonical_items nil = nil
  canonical_items (cons v xs) = cons (canonical v) (canonical_items xs)

codes_lt_irrefl : (cs : List ℕ) → codes_lt cs cs ≡ false
codes_lt_irrefl [] = refl
codes_lt_irrefl (c ∷ cs) = ground (arith, codes_lt_irrefl cs)

not_before : (j k : String) → text_lt j k ≡ true → j == k ≡ false
not_before j k h = elim (Bool-cases (j == k)) [
  | inr e ↦ e
  | inl e ↦ cc (subst (λ x. text_lt x k ≡ true) ((eq_iff j k).0 e) h, codes_lt_irrefl (codes k))
]

-- A lookup finds the placed field, or what it found before.
get-place_key :
    (k : String) (v : Value) (d : Fields) (x : String)
    → get (place_key k v d) x ≡ get (field k v d) x
unfolding place_key
get-place_key k v end x = refl
get-place_key k v (field j w d) x = elim (Bool-cases (text_lt j k)) [
  | inr e ↦ rw e refl
  | inl e ↦ rw e (elim (Bool-cases (j == x)) [
    | inr miss ↦ rw (miss, get-place_key k v d x) refl
    | inl hit ↦
        let other : k == x ≡ false =
          ground (arith, (eq_iff j x).0, (eq_iff k x), not_before j k e, eq_iff j k) in
        rw (hit, other) refl
  ])
]

size-place_key : (k : String) (v : Value) (d : Fields) → size (place_key k v d) ≡ suc (size d)
unfolding place_key
size-place_key k v end = refl
size-place_key k v (field j w d) = ground (arith, size-place_key k v d)

pub size-sort_keys : (d : Fields) → size (sort_keys d) ≡ size d
unfolding sort_keys
size-sort_keys end = refl
size-sort_keys (field k v d) =
    size-place_key k (canonical v) (sort_keys d) ∙ ap suc (size-sort_keys d)

abbrev canonical_at : Option Value → Option Value
canonical_at none = none
canonical_at (some v) = some (canonical v)

get-sort_keys : (d : Fields) (x : String) → get (sort_keys d) x ≡ canonical_at (get d x)
unfolding sort_keys
get-sort_keys end x = refl
get-sort_keys (field k v d) x =
    get-place_key k (canonical v) (sort_keys d) x
    ∙ elim (Bool-cases (k == x)) [ inl e ↦ rw e refl | inr e ↦ rw e (get-sort_keys d x) ]

abbrev or_null : Option Value → Value
or_null none = null
or_null (some v) = v

or_null-canonical_at : (o : Option Value) → or_null (canonical_at o) ≡ canonical (or_null o)
unfolding canonical
or_null-canonical_at none = refl
or_null-canonical_at (some v) = refl

or_null-get : (d : Fields) (x : String) → item d x ≡ or_null (get d x)
or_null-get d x = refl

pub item-sort_keys : (d : Fields) (x : String) → item (sort_keys d) x ≡ canonical (item d x)
item-sort_keys d x =
    or_null-get (sort_keys d) x
    ∙ (ap or_null (get-sort_keys d x)
        ∙ (or_null-canonical_at (get d x) ∙ ap canonical (sym (or_null-get d x))))

pub has_keys-sort_keys : (d : Fields) (ks : List String) → has_keys (sort_keys d) ks ≡ has_keys d ks
has_keys-sort_keys d [] = refl
has_keys-sort_keys d (k ∷ ks) = elim (Option-cases (get d k)) [
  | inl e ↦ rw (get-sort_keys d k, e) refl
  | inr (v, e) ↦ rw (get-sort_keys d k, e) (has_keys-sort_keys d ks)
]

-- A dict of so many keys, with these among them, is one in canonical form too.
pub shape-sort_keys :
    (d : Fields) (n : ℕ) (ks : List String)
    → nat_beq (size (sort_keys d)) n && has_keys (sort_keys d) ks
      ≡ nat_beq (size d) n && has_keys d ks
shape-sort_keys d n ks = rw (size-sort_keys d, has_keys-sort_keys d ks) refl

and_swap : (a b c : Bool) → a && (b && c) ≡ b && (a && c)
and_swap true b c = refl
and_swap false true c = refl
and_swap false false c = refl

abbrev held : Value → Option Value → Bool
held v none = false
held v (some w) = equals v w

contained-place_key :
    (k : String) (v : Value) (d e : Fields)
    → contained (place_key k v d) e ≡ contained (field k v d) e
unfolding place_key contained
contained-place_key k v end e = refl
contained-place_key k v (field j w d) e = elim (Bool-cases (text_lt j k)) [
  | inr at ↦ rw at refl
  | inl past ↦
      rw (past, contained-place_key k v d e)
        (and_swap (held w (get e j)) (held v (get e k)) (contained d e))
]

mutual
  unfolding equals equals_items contained canonical canonical_items sort_keys

  pub equals-canonical : (v w : Value) → equals (canonical v) w ≡ equals v w
  equals-canonical (obj d) (obj e) = rw (size-sort_keys d, contained-sort_keys d e) refl
  equals-canonical (obj d) w = refl
  equals-canonical (arr xs) (arr ys) = equals-canonical_items xs ys
  equals-canonical (arr xs) w = refl
  equals-canonical null w = refl
  equals-canonical (bool b) w = refl
  equals-canonical (int n) w = refl
  equals-canonical (float x) w = refl
  equals-canonical (str s) w = refl

  equals-canonical_items :
      (xs ys : Items) → equals_items (canonical_items xs) ys ≡ equals_items xs ys
  equals-canonical_items nil ys = refl
  equals-canonical_items (cons x xs) nil = refl
  equals-canonical_items (cons x xs) (cons y ys) =
      rw (equals-canonical x y, equals-canonical_items xs ys) refl

  contained-sort_keys : (d e : Fields) → contained (sort_keys d) e ≡ contained d e
  contained-sort_keys end e = refl
  contained-sort_keys (field k v d) e =
      contained-place_key k (canonical v) (sort_keys d) e ∙ elim (Option-cases (get e k)) [
        | inl at ↦ rw at refl
        | inr (w, at) ↦ rw (at, equals-canonical v w, contained-sort_keys d e) refl
      ]

pub is_text-canonical : (v : Value) → is_text (canonical v) ≡ is_text v
unfolding canonical
is_text-canonical null = refl
is_text-canonical (bool b) = refl
is_text-canonical (int n) = refl
is_text-canonical (float x) = refl
is_text-canonical (str s) = refl
is_text-canonical (arr xs) = refl
is_text-canonical (obj d) = refl

pub is_str-canonical : (v : Value) → is_str (canonical v) ≡ is_str v
unfolding canonical
is_str-canonical null = refl
is_str-canonical (bool b) = refl
is_str-canonical (int n) = refl
is_str-canonical (float x) = refl
is_str-canonical (str s) = refl
is_str-canonical (arr xs) = refl
is_str-canonical (obj d) = refl

pub is_count-canonical : (v : Value) → is_count (canonical v) ≡ is_count v
unfolding canonical
is_count-canonical null = refl
is_count-canonical (bool b) = refl
is_count-canonical (int n) = refl
is_count-canonical (float x) = refl
is_count-canonical (str s) = refl
is_count-canonical (arr xs) = refl
is_count-canonical (obj d) = refl

pub is_zero-canonical : (v : Value) → is_zero (canonical v) ≡ is_zero v
unfolding canonical
is_zero-canonical null = refl
is_zero-canonical (bool b) = refl
is_zero-canonical (int n) = refl
is_zero-canonical (float x) = refl
is_zero-canonical (str s) = refl
is_zero-canonical (arr xs) = refl
is_zero-canonical (obj d) = refl

pub is_string-canonical : (v : Value) (t : String) → is_string (canonical v) t ≡ is_string v t
unfolding canonical
is_string-canonical null t = refl
is_string-canonical (bool b) t = refl
is_string-canonical (int n) t = refl
is_string-canonical (float x) t = refl
is_string-canonical (str s) t = refl
is_string-canonical (arr xs) t = refl
is_string-canonical (obj d) t = refl
