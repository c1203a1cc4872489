-- ===== src/Engine/Canonical/Items.antt =====
-- -- The tests of an entry do not look at the order of keys.
use multiverse_research.Prelude.{◌≡◌, refl, ◌∙◌, String, false, string_eq, ap, Bool}
use multiverse_research.Prelude.Value.{Value, Fields, obj, equals}
use multiverse_research.Prelude.Canonical.{
  canonical, sort_keys, item-sort_keys, equals-canonical, is_text-canonical, is_str-canonical,
  is_count-canonical, is_zero-canonical, is_string-canonical,
}
use multiverse_research.Prelude.Json.{item, is_text, is_str, is_count, is_zero, is_string}
use multiverse_research.Engine.States.{Error, Result, ok, ◌>>=◌, ◌>>◌, ok-inj, raise_if}
use multiverse_research.Engine.Bridge.{role_of, or_shape_error}

role_of-canonical : (v : Value) → role_of (canonical v) ≡ role_of v
unfolding role_of canonical
role_of-canonical Value.null = refl
role_of-canonical (Value.bool b) = refl
role_of-canonical (Value.int n) = refl
role_of-canonical (Value.float x) = refl
role_of-canonical (Value.str s) = refl
role_of-canonical (Value.arr xs) = refl
role_of-canonical (Value.obj d) = refl

pub is_string-item :
    (d : Fields) (k t : String) → is_string (item (sort_keys d) k) t ≡ is_string (item d k) t
is_string-item d k t = rw (item-sort_keys d k) (is_string-canonical (item d k) t)

pub is_text-item : (d : Fields) (k : String) → is_text (item (sort_keys d) k) ≡ is_text (item d k)
is_text-item d k = rw (item-sort_keys d k) (is_text-canonical (item d k))

pub is_str-item : (d : Fields) (k : String) → is_str (item (sort_keys d) k) ≡ is_str (item d k)
is_str-item d k = rw (item-sort_keys d k) (is_str-canonical (item d k))

pub is_count-item :
    (d : Fields) (k : String) → is_count (item (sort_keys d) k) ≡ is_count (item d k)
is_count-item d k = rw (item-sort_keys d k) (is_count-canonical (item d k))

pub is_zero-item : (d : Fields) (k : String) → is_zero (item (sort_keys d) k) ≡ is_zero (item d k)
is_zero-item d k = rw (item-sort_keys d k) (is_zero-canonical (item d k))

pub equals-item :
    (d : Fields) (k : String) (w : Value) → equals (item (sort_keys d) k) w ≡ equals (item d k) w
equals-item d k w = rw (item-sort_keys d k) (equals-canonical (item d k) w)

pub role_of-item : (d : Fields) (k : String) → role_of (item (sort_keys d) k) ≡ role_of (item d k)
role_of-item d k = ap role_of (item-sort_keys d k) ∙ role_of-canonical (item d k)

-- A dict in canonical form is the dict of the canonical form.
or_shape_error-canonical :
    (v : Value) (e : Error) (d : Fields)
    → or_shape_error v e ≡ ok d
    → or_shape_error (canonical v) e ≡ ok (sort_keys d)
unfolding canonical
or_shape_error-canonical (obj d) e d' h = ap (λ x. ok (sort_keys x)) (ok-inj h)
or_shape_error-canonical v e d h = cc

pub or_shape_error-item :
    (d : Fields) (k : String) (e : Error) (r : Fields)
    → or_shape_error (item d k) e ≡ ok r
    → or_shape_error (item (sort_keys d) k) e ≡ ok (sort_keys r)
or_shape_error-item d k e r h =
    ap (λ v. or_shape_error v e) (item-sort_keys d k) ∙ or_shape_error-canonical (item d k) e r h

pub guarded {κ} :
    {B : Type κ} (c : Bool) (e : Error) (m : Result B) → c ≡ false → (raise_if c e >> m) ≡ m
unfolding ◌>>=◌
guarded c e m h = rw h refl
