-- ===== src/Core/Audit.antt =====
-- The hash chain of the audit log: `_append_audit` and `verify_audit_chain` of core_state.py.
-- SHA-256 and `json.dumps` are the standard library's: the parameter `Digest` stands for them. A
-- log has its newest entry first.
use Prim.Native.String.{◌++◌ as ◌+text◌, count}
use text.Mathlib.TextLemmas.{append_inj}
use multiverse_research.Prelude.{
  ◌≡◌, ◌≢◌, refl, String, Bool, true, ◌&&◌, ◌||◌, Option, none, some, List, [], ◌∷◌, if◌then◌else◌,
  ◌==◌, string_eq, arith, eq_iff, length, any, ◌⊎◌, inl, inr, Bool-cases, str_eq-ne, str_eq_refl,
}
use multiverse_research.Prelude.Value.{Value}

pub record Digest : Type 0 where
  pub dumps : Value → String
  pub sha256 : String → String

pub record LogRow : Type 0 where
  pub id : String
  pub event_type : String
  pub payload : String
  pub timestamp : String
  pub prev_hash : String
  pub entry_hash : String

-- prev+"|"+rid+"|"+event+"|"+canonical+"|"+ts
unfoldable pub message : String → String → String → String → String → String
message prev rid event canonical ts =
    prev
    +text ("|"
        +text (rid +text ("|" +text (event +text ("|" +text (canonical +text ("|" +text ts)))))))

-- The hash that the next entry is chained to.
abbrev pub last_hash : List LogRow → String
last_hash [] = "GENESIS"
last_hash (e ∷ log) = e.entry_hash

abbrev pub new_row : Digest → String → String → String → String → List LogRow → LogRow
new_row d rid ts event payload log = record {
  id = rid;
  event_type = event;
  payload = payload;
  timestamp = ts;
  prev_hash = last_hash log;
  entry_hash = d.sha256 (message (last_hash log) rid event payload ts);
}

-- A row that breaks a uniqueness constraint of the table.
abbrev clashes : LogRow → LogRow → Bool
clashes e f = e.id == f.id || e.entry_hash == f.entry_hash

-- `_append_audit`; `none` is the exception of a broken constraint.
unfoldable pub append_audit :
    Digest → String → String → String → String → List LogRow → Option (List LogRow)
append_audit d rid ts event payload log =
    let row = new_row d rid ts event payload log in
    if any (clashes row) log then none else some (row ∷ log)

abbrev pub row_message : LogRow → List LogRow → String
row_message e log = message (last_hash log) e.id e.event_type e.payload e.timestamp

-- `verify_audit_chain`
unfoldable pub verify_audit_chain : Digest → List LogRow → Bool
verify_audit_chain d [] = true
verify_audit_chain d (e ∷ log) =
    verify_audit_chain d log
    && (e.prev_hash == last_hash log && e.entry_hash == d.sha256 (row_message e log))

-- Appending an entry to a log that verifies gives a log that verifies.
pub append_audit-verifies :
    (d : Digest) (rid ts event payload : String) (log log' : List LogRow)
    → append_audit d rid ts event payload log ≡ some log'
    → verify_audit_chain d log ≡ true
    → verify_audit_chain d log' ≡ true
unfolding append_audit verify_audit_chain
append_audit-verifies d rid ts event payload log log' h v = ground (
  arith,
  str_eq_refl (last_hash log),
  str_eq_refl (d.sha256 (message (last_hash log) rid event payload ts)),
)

-- At some entry the two logs hash different texts to one hash.
abbrev pub Collides : Digest → List LogRow → List LogRow → Type 0
Collides d (e ∷ l) (f ∷ m) =
    ((row_message e l ≢ row_message f m)
      × (d.sha256 (row_message e l) ≡ d.sha256 (row_message f m)))
    ⊎ Collides d l m
Collides d _ _ = ⊥

-- The two logs hash the same texts, entry by entry.
abbrev pub SameMessages : List LogRow → List LogRow → Type 0
SameMessages [] [] = Unit
SameMessages (e ∷ l) (f ∷ m) = (row_message e l ≡ row_message f m) × SameMessages l m
SameMessages _ _ = ⊥

-- Two logs that verify and are equally long end in hashes of one width.
width_agrees :
    (d : Digest) (l m : List LogRow)
    → ((s : String) → count (d.sha256 s) ≡ 64)
    → verify_audit_chain d l ≡ true
    → verify_audit_chain d m ≡ true
    → length l ≡ length m
    → count (last_hash l) ≡ count (last_hash m)
unfolding verify_audit_chain
width_agrees d [] [] wide v w n = refl
width_agrees d [] (f ∷ m) wide v w n = absurd (omega arith)
width_agrees d (e ∷ l) [] wide v w n = absurd (omega arith)
width_agrees d (e ∷ l) (f ∷ m) wide v w n = ground (
  arith,
  (eq_iff e.entry_hash (d.sha256 (row_message e l))).0,
  (eq_iff f.entry_hash (d.sha256 (row_message f m))).0,
  wide (row_message e l),
  wide (row_message f m),
)

-- The hash chain is tamper-evident, for a hash of 64 digits: of two logs that both verify, are
-- equally long and end in the same hash, either every entry hashes the same text in both, or at
-- some entry the texts of the two logs differ and have one hash.
pub chain_is_tamper_evident :
    (d : Digest) (l m : List LogRow)
    → ((s : String) → count (d.sha256 s) ≡ 64)
    → verify_audit_chain d l ≡ true
    → verify_audit_chain d m ≡ true
    → length l ≡ length m
    → last_hash l ≡ last_hash m
    → SameMessages l m ⊎ Collides d l m
unfolding verify_audit_chain message
chain_is_tamper_evident d [] [] wide v w n h = inl tt
chain_is_tamper_evident d [] (f ∷ m) wide v w n h = absurd (omega arith)
chain_is_tamper_evident d (e ∷ l) [] wide v w n h = absurd (omega arith)
chain_is_tamper_evident d (e ∷ l) (f ∷ m) wide v w n h =
    let v' : verify_audit_chain d l ≡ true = ground arith in
    let w' : verify_audit_chain d m ≡ true = ground arith in
    let n' : length l ≡ length m = omega arith in
    elim (Bool-cases (row_message e l == row_message f m)) [
      | inl same ↦
          let text = (eq_iff (row_message e l) (row_message f m)).0 same in
          let before = (append_inj text (width_agrees d l m wide v' w' n')).0 in
          elim (chain_is_tamper_evident d l m wide v' w' n' before) [
            | inl agree ↦ inl (text, agree)
            | inr clash ↦ inr (inr clash)
          ]
      | inr other ↦ inr (
          inl (
            str_eq-ne _ _ other,
            ground (
              arith,
              (eq_iff e.entry_hash (d.sha256 (row_message e l))).0,
              (eq_iff f.entry_hash (d.sha256 (row_message f m))).0,
            ),
          ))
    ]
