-- ===== src/Prelude/Checked.antt =====
-- Checks that refuse: `require`, the contract errors and the other exceptions, of the review
-- dispatcher (automation/review_dispatcher_v1/model_legacy_v1.py) and of the research contract
-- (automation/multimodel_research_v1/model.py).
use Prim.Native.String.{String}
use mathlib.Core.Path.{◌≡◌, refl, ap, ◌∙◌}
use mathlib.Core.Logic.{◌⊎◌, inl, inr}
use mathlib.Core.Bool.{Bool, true, false, ◌&&◌}
use mathlib.Core.List.{List}
use multiverse_research.Prelude.Tests.{if◌then◌else◌, string_eq}
use multiverse_research.Prelude.Lists.{elem}
use multiverse_research.Prelude.Value.{Value, Items, Fields, nil, cons, end, field}
use multiverse_research.Prelude.Json.{is_str, is_hashable, text_in, items_in, all_items}

-- A `ReviewContractError` or a `ResearchContractError` with its code, or another exception of Python.
pub data Refusal : Type 0 where
  contract runtime_error : String → Refusal
  type_error value_error attribute_error : Refusal

pub data Checked {ℓ} (A : Type ℓ) : Type ℓ where
  refused : Refusal → Checked A
  passed : A → Checked A

infixl 5 ◌>>=◌ ◌>>◌
unfoldable pub ◌>>=◌ {ℓ κ} :
    {A : Type ℓ} {B : Type κ} (m : Checked A) (k : A → Checked B) → Checked B
refused e >>= k = refused e
passed a >>= k = k a

-- `require`
abbrev pub require : Bool → String → Checked (Unit {0})
require c code = if c then passed tt else refused (contract code)

abbrev pub ◌>>◌ {ℓ} : {B : Type ℓ} (m : Checked (Unit {0})) (k : Checked B) → Checked B
m >> k = m >>= λ _. k

-- A block that passes, taken apart.
pub unbind {ℓ κ μ} :
    {A : Type ℓ} {B : Type κ} {P : Type μ} (m : Checked A) (f : A → Checked B) {b : B}
    → (m >>= f) ≡ passed b
    → ((a : A) → m ≡ passed a → f a ≡ passed b → P)
    → P
unfolding ◌>>=◌
unbind (passed a) f h k = k a refl h
unbind (refused e) f h k = cc

pub required {κ μ} :
    {B : Type κ} {P : Type μ} (c : Bool) (code : String) (m : Checked B) {b : B}
    → (require c code >> m) ≡ passed b
    → (c ≡ true → m ≡ passed b → P)
    → P
unfolding ◌>>=◌
required true code m h k = k refl h
required false code m h k = cc

pub require-passed : (c : Bool) (code : String) → require c code ≡ passed tt → c ≡ true
require-passed true code h = refl
require-passed false code h = cc

pub goes_on {ℓ κ} :
    {A : Type ℓ} {B : Type κ} (m : Checked A) (f : A → Checked B) {a : A}
    → m ≡ passed a
    → (m >>= f) ≡ f a
unfolding ◌>>=◌
goes_on m f e = rw e

pub passed-inj {ℓ} : {A : Type ℓ} {a b : A} → passed a ≡ passed b → a ≡ b
passed-inj h = cc

pub Checked-cases {ℓ} :
    {A : Type ℓ} (m : Checked A) → ((e : Refusal) × (m ≡ refused e)) ⊎ ((a : A) × (m ≡ passed a))
Checked-cases (refused e) = inl (e, refl)
Checked-cases (passed a) = inr (a, refl)

-- `for x in xs: check(x)`
unfoldable pub each : (Value → Checked (Unit {0})) → Items → Checked (Unit {0})
each check nil = passed tt
each check (cons x xs) = check x >> each check xs

-- `for key, value in d.items(): check(key, value)`
unfoldable pub each_field : (String → Value → Checked (Unit {0})) → Fields → Checked (Unit {0})
each_field check end = passed tt
each_field check (field k v d) = check k v >> each_field check d

-- `v in {…}`, of texts; a value without a hash raises.
abbrev pub require_in : Value → List String → String → Checked (Unit {0})
require_in v options code =
    if is_hashable v
    then require (is_str v && elem (text_in v) options) code
    else refused type_error

-- `set(v)` of a list, which raises on a member that has no hash.
abbrev pub hashed : Value → Checked (Unit {0})
hashed v = if all_items is_hashable (items_in v) then passed tt else refused type_error

-- A value is in a list.
abbrev pub IsItem : Value → Items → Type 0
IsItem v nil = ⊥
IsItem v (cons w xs) = (v ≡ w) ⊎ IsItem v xs

pub each-IsItem :
    (check : Value → Checked (Unit {0})) (xs : Items) (v : Value)
    → each check xs ≡ passed tt
    → IsItem v xs
    → check v ≡ passed tt
unfolding each
each-IsItem check nil v h among = elim among [ ]
each-IsItem check (cons w xs) v h (inl here) =
    unbind {P = check v ≡ passed tt} _ _ h λ _ own _. ap check here ∙ own
each-IsItem check (cons w xs) v h (inr among) =
    unbind _ _ h λ _ _ rest. each-IsItem check xs v rest among
