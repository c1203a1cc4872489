-- ===== src/Prelude/Keys.antt =====
-- Keys that are refused at any depth of a value.
use Prim.Native.String.{String}
use mathlib.Core.Path.{◌≡◌}
use mathlib.Core.Bool.{Bool, false, not}
use native.Mathlib.Omega.{arith}
use multiverse_research.Prelude.Value.{Value, Items, Fields, arr, obj, nil, cons, end, field}
use multiverse_research.Prelude.Checked.{Checked, passed, require, ◌>>◌, unbind, required}

module _ (is_forbidden : String → Bool) (code : String) where
  unfoldable mutual
    pub reject_keys : Value → Checked (Unit {0})
    reject_keys (obj d) = reject_fields d
    reject_keys (arr xs) = reject_items xs
    reject_keys _ = passed tt

    pub reject_fields : Fields → Checked (Unit {0})
    reject_fields end = passed tt
    reject_fields (field k v d) =
        require (not (is_forbidden k)) code >> (reject_keys v >> reject_fields d)

    pub reject_items : Items → Checked (Unit {0})
    reject_items nil = passed tt
    reject_items (cons v xs) = reject_keys v >> reject_items xs

-- A key occurs in a value, at any depth.
mutual
  pub data Occurs (k : String) : Value → Type 0 where
    in_object : {d : Fields} → OccursField k d → Occurs k (obj d)
    in_array : {xs : Items} → OccursItem k xs → Occurs k (arr xs)

  pub data OccursField (k : String) : Fields → Type 0 where
    here : {v : Value} {d : Fields} → OccursField k (field k v d)
    inside : {j : String} {v : Value} {d : Fields} → Occurs k v → OccursField k (field j v d)
    later : {j : String} {v : Value} {d : Fields} → OccursField k d → OccursField k (field j v d)

  pub data OccursItem (k : String) : Items → Type 0 where
    member : {v : Value} {xs : Items} → Occurs k v → OccursItem k (cons v xs)
    other : {v : Value} {xs : Items} → OccursItem k xs → OccursItem k (cons v xs)

module _ (is_forbidden : String → Bool) (code : String) where
  mutual
    unfolding reject_keys

    pub reject_keys-clean :
        (k : String) {v : Value}
        → Occurs k v
        → reject_keys is_forbidden code v ≡ passed tt
        → is_forbidden k ≡ false
    reject_keys-clean k (in_object o) h = reject_fields-clean k o h
    reject_keys-clean k (in_array o) h = reject_items-clean k o h

    reject_fields-clean :
        (k : String) {d : Fields}
        → OccursField k d
        → reject_fields is_forbidden code d ≡ passed tt
        → is_forbidden k ≡ false
    reject_fields-clean k here h = required _ _ _ h λ fine _. ground arith
    reject_fields-clean k (inside o) h =
        required _ _ _ h λ _ h. unbind _ _ h λ _ first _. reject_keys-clean k o first
    reject_fields-clean k (later o) h =
        required _ _ _ h λ _ h. unbind _ _ h λ _ _ rest. reject_fields-clean k o rest

    reject_items-clean :
        (k : String) {xs : Items}
        → OccursItem k xs
        → reject_items is_forbidden code xs ≡ passed tt
        → is_forbidden k ≡ false
    reject_items-clean k (member o) h = unbind _ _ h λ _ first _. reject_keys-clean k o first
    reject_items-clean k (other o) h = unbind _ _ h λ _ _ rest. reject_items-clean k o rest
