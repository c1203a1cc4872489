-- ===== src/Engine/States.antt =====
-- The workflow states and limits of automation/shared_engine/config.py, and the two state sets and
-- argument checks at the top of db.py.
use multiverse_research.Prelude.{
  ℕ, ◌≡◌, refl, String, Bool, true, false, arith, ◌&&◌, ◌||◌, List, [], ◌∷◌, leb, ltb, nat_beq,
  if◌then◌else◌, length, ◌*◌, ◌⊎◌, inl, inr,
}
use multiverse_research.Prelude.Int.{ℤ, pos, scale}
use multiverse_research.Prelude.Value.{Value, null, int, float, str, finite, unit_scale}
use multiverse_research.Prelude.Text.{codes, is_blank}

pub data TaskState : Type 0 where
  pending in_implement in_lab lab_fix_required in_audit audit_fix_required : TaskState
  blocked_technical failed_closed owner_gate done rolled_back : TaskState

-- Its place in the list above, to compare states by.
abbrev pub index : TaskState → ℕ
index pending = 0
index in_implement = 1
index in_lab = 2
index lab_fix_required = 3
index in_audit = 4
index audit_fix_required = 5
index blocked_technical = 6
index failed_closed = 7
index owner_gate = 8
index done = 9
index rolled_back = 10

abbrev pub state_beq : TaskState → TaskState → Bool
state_beq s t = nat_beq (index s) (index t)

abbrev pub member : TaskState → List TaskState → Bool
member s [] = false
member s (t ∷ ts) = state_beq s t || member s ts

pub state_beq→eq : (s t : TaskState) → state_beq s t ≡ true → s ≡ t
state_beq→eq s t h = ground arith

-- The spelling in the database.
abbrev pub state_name : TaskState → String
state_name pending = "PENDING"
state_name in_implement = "IN_IMPLEMENT"
state_name in_lab = "IN_LAB"
state_name lab_fix_required = "LAB_FIX_REQUIRED"
state_name in_audit = "IN_AUDIT"
state_name audit_fix_required = "AUDIT_FIX_REQUIRED"
state_name blocked_technical = "BLOCKED_TECHNICAL"
state_name failed_closed = "FAILED_CLOSED"
state_name owner_gate = "OWNER_GATE"
state_name done = "DONE"
state_name rolled_back = "ROLLED_BACK"

-- What a worker may always fall back to.
abbrev gates : List TaskState
gates = blocked_technical ∷ failed_closed ∷ owner_gate ∷ []

abbrev pub allowed_transitions : TaskState → List TaskState
allowed_transitions pending = in_implement ∷ gates
allowed_transitions in_implement = in_lab ∷ gates
allowed_transitions in_lab = in_audit ∷ lab_fix_required ∷ gates
allowed_transitions lab_fix_required = in_implement ∷ gates
allowed_transitions in_audit = done ∷ audit_fix_required ∷ gates
allowed_transitions audit_fix_required = in_implement ∷ gates
allowed_transitions blocked_technical = pending ∷ failed_closed ∷ owner_gate ∷ []
allowed_transitions _ = []

abbrev pub recoverable_active_states : List TaskState
recoverable_active_states =
    in_implement ∷ in_lab ∷ lab_fix_required ∷ in_audit ∷ audit_fix_required ∷ blocked_technical
    ∷ []

abbrev pub release_safe_states : List TaskState
release_safe_states = pending ∷ failed_closed ∷ owner_gate ∷ done ∷ rolled_back ∷ []

-- Seconds; times and lease terms are counted in millionths of a second.
abbrev pub lease_seconds_default : ℕ
lease_seconds_default = 120

abbrev pub lease_max_seconds : ℕ
lease_max_seconds = 120

abbrev pub worker_id_max_length : ℕ
worker_id_max_length = 128

-- The exceptions of the engine, with their texts; a state in a text is a field.
pub data Error : Type 0 where
  value_error key_error lost_lease : String → Error
  invalid_transition : TaskState → TaskState → Error
  claim_state renew_state reclaim_state release_target : TaskState → Error
  integrity_error : Error
  bridge_error domain_policy_error orchestrator_error : String → Error
  type_error : Error
  role_state_mismatch : String → TaskState → Error

pub data Result {ℓ} (A : Type ℓ) : Type ℓ where
  ok : A → Result A
  err : Error → Result A

-- The call raised.
abbrev pub IsErr {ℓ} : {A : Type ℓ} → Result A → Type 0
IsErr (ok _) = ⊥
IsErr (err _) = Unit

infixl 5 ◌>>=◌ ◌>>◌
unfoldable pub ◌>>=◌ {ℓ κ} : {A : Type ℓ} {B : Type κ} → Result A → (A → Result B) → Result B
err e >>= k = err e
ok a >>= k = k a

-- `if c: raise e`
abbrev pub raise_if : Bool → Error → Result (Unit {0})
raise_if c e = if c then err e else ok tt

abbrev pub ◌>>◌ {ℓ} : {B : Type ℓ} → Result (Unit {0}) → Result B → Result B
m >> k = m >>= λ _. k

-- A successful block, taken apart step by step.
pub unbind {ℓ κ μ} :
    {A : Type ℓ} {B : Type κ} {P : Type μ} (m : Result A) (f : A → Result B) {b : B}
    → (m >>= f) ≡ ok b
    → ((a : A) → m ≡ ok a → f a ≡ ok b → P)
    → P
unfolding ◌>>=◌
unbind (ok a) f h k = k a refl h
unbind (err e) f h k = cc

pub unguard {κ μ} :
    {B : Type κ} {P : Type μ} (c : Bool) (e : Error) (m : Result B) {b : B}
    → (raise_if c e >> m) ≡ ok b
    → (c ≡ false → m ≡ ok b → P)
    → P
unfolding ◌>>=◌
unguard true e m h k = cc
unguard false e m h k = k refl h

-- A block goes on from a step that succeeds.
pub bound {ℓ κ} :
    {A : Type ℓ} {B : Type κ} (m : Result A) (f : A → Result B) {a : A} → m ≡ ok a → (m >>= f) ≡ f a
unfolding ◌>>=◌
bound m f e = rw e

pub ok-inj {ℓ} : {A : Type ℓ} {a b : A} → ok a ≡ ok b → a ≡ b
ok-inj h = cc

-- `_validated_worker_id`
unfoldable pub validated_worker_id : Value → Result String
validated_worker_id (str s) =
    if is_blank s || ltb worker_id_max_length (length (codes s))
    then err (value_error "WORKER_ID_BOUNDED_NONEMPTY_REQUIRED")
    else ok s
validated_worker_id _ = err (value_error "WORKER_ID_BOUNDED_NONEMPTY_REQUIRED")

-- `_validated_generation`: a bool is no generation, though Python counts it as an int.
unfoldable pub validated_generation : Value → Result ℕ
validated_generation (int (pos n)) =
    if ltb 0 n then ok n else err (lost_lease "invalid fencing generation")
validated_generation _ = err (lost_lease "invalid fencing generation")

-- A finite term, in millionths, if it is positive and not above the limit.
bounded_term : ℤ → Result ℕ
bounded_term (pos n) =
    if ltb 0 n && leb n (unit_scale * lease_max_seconds)
    then ok n
    else err (value_error "LEASE_SECONDS_BOUNDED_FINITE_REQUIRED")
bounded_term _ = err (value_error "LEASE_SECONDS_BOUNDED_FINITE_REQUIRED")

-- `_validated_lease_seconds`; `None` stands for the default.
unfoldable pub validated_lease_seconds : Value → Result ℕ
unfolding bounded_term
validated_lease_seconds null = bounded_term (scale unit_scale (pos lease_seconds_default))
validated_lease_seconds (int n) = bounded_term (scale unit_scale n)
validated_lease_seconds (float (finite x)) = bounded_term x
validated_lease_seconds _ = err (value_error "LEASE_SECONDS_BOUNDED_FINITE_REQUIRED")

pub Result-cases {ℓ} :
    {A : Type ℓ} (m : Result A) → ((e : Error) × (m ≡ err e)) ⊎ ((a : A) × (m ≡ ok a))
Result-cases (ok a) = inr (a, refl)
Result-cases (err e) = inl (e, refl)
