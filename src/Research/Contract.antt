-- ===== src/Research/Contract.antt =====
-- The shared parts of the research contract (automation/multimodel_research_v1/model.py). The parser
-- of times, the tables of characters and the JSON codec are the standard library's: the parameter
-- `Library` stands for them.
use multiverse_research.Prelude.{
  ℕ, zero, suc, String, Bool, true, false, ◌&&◌, ◌||◌, Option, none, some, List, [], ◌∷◌,
  if◌then◌else◌, string_eq, any, all, nat_beq, leb, length,
}
use multiverse_research.Prelude.Int.{pos}
use multiverse_research.Prelude.Value.{Value, bool, int, str, null}
use multiverse_research.Prelude.Json.{is_str, is_false, is_object_of, text_in, fields_in}
use multiverse_research.Prelude.Text.{codes, has_infix, is_hex_text}
use multiverse_research.Prelude.Checked.{
  Refusal, Checked, passed, refused, contract, require, ◌>>◌, each_field,
}
use multiverse_research.Prelude.Keys.{reject_keys}

-- `is_decimal` is the class `\d`; `fromisoformat` reads a time in UTC, in code points and without its
-- `Z`, and gives nothing where it raises; `output_bytes` is the length of the canonical JSON, encoded.
pub record Library : Type 0 where
  pub lower : String → String
  pub is_decimal : ℕ → Bool
  pub fromisoformat : List ℕ → Option ℕ
  pub sha256_json : Value → String
  pub output_bytes : Value → ℕ

abbrev is_alphanumeric : ℕ → Bool
is_alphanumeric c =
    (leb b'A' c && leb c b'Z') || (leb b'a' c && leb c b'z') || (leb b'0' c && leb c b'9')

abbrev is_mark : ℕ → Bool
is_mark c = nat_beq c b'.' || nat_beq c b'_' || nat_beq c b':' || nat_beq c b'-'

-- `[A-Za-z0-9][A-Za-z0-9._:-]{2,127}`
abbrev pub is_identifier : List ℕ → Bool
is_identifier [] = false
is_identifier (c ∷ s) =
    is_alphanumeric c
    && leb 2 (length s)
    && leb (length s) 127
    && all (λ d. is_alphanumeric d || is_mark d) s

-- `_identifier`
abbrev pub identifier : Value → String → Checked String
identifier v code =
    require (is_str v && is_identifier (codes (text_in v))) code >> passed (text_in v)

-- `_text`
abbrev pub text : Value → String → ℕ → Checked String
text v code max_len = do
  require (is_str v) code
  require (leb 1 (length (codes (text_in v))) && leb (length (codes (text_in v))) max_len) code
  passed (text_in v)

-- `re.fullmatch(r"[0-9a-f]{64}", v)`
abbrev pub is_digest : Value → Bool
is_digest (str s) = is_hex_text 64 s
is_digest _ = false

abbrev pub is_optional_digest : Value → Bool
is_optional_digest null = true
is_optional_digest v = is_digest v

-- A text of the pattern's form, in which `d` stands for a digit.
abbrev matches : (ℕ → Bool) → List ℕ → List ℕ → Bool
matches digit [] [] = true
matches digit (p ∷ ps) (c ∷ s) =
    (if nat_beq p b'd' then digit c else nat_beq c p) && matches digit ps s
matches digit _ _ = false

-- The text without its last character, if that is a `Z`.
abbrev without_z : List ℕ → Option (List ℕ)
without_z [] = none
without_z (c ∷ s) = elim s [
  | [] ↦ if nat_beq c b'Z' then some [] else none
  | _ ∷ _ ↦ elim (without_z s) [ none ↦ none | some t ↦ some (c ∷ t) ]
]

-- The first n code points, and what is left.
abbrev cut : ℕ → List ℕ → List ℕ × List ℕ
cut zero s = ([], s)
cut (suc n) [] = ([], [])
cut (suc n) (c ∷ s) = let (front, back) = cut n s in (c ∷ front, back)

-- `(?:\.\d+)?`
abbrev is_fraction : (ℕ → Bool) → List ℕ → Bool
is_fraction digit [] = true
is_fraction digit (c ∷ s) = nat_beq c b'.' && leb 1 (length s) && all digit s

-- `\d{4}-\d{2}-\d{2}T\d{2}:\d{2}:\d{2}(?:\.\d+)?`
abbrev pub is_time : (ℕ → Bool) → List ℕ → Bool
is_time digit s =
    matches digit (codes "dddd-dd-ddTdd:dd:dd") ((cut 19 s).0) && is_fraction digit ((cut 19 s).1)

-- A time of the pattern; `unreadable` is raised for one that is none.
abbrev pub parse_time : (String → Refusal) → Library → Value → String → Checked ℕ
parse_time unreadable lib v code = elim (without_z (codes (text_in v))) [
  | none ↦ refused (contract code)
  | some s ↦
      require (is_str v && is_time lib.is_decimal s) code
      >> elim (lib.fromisoformat s) [ none ↦ refused (unreadable code) | some t ↦ passed t ]
]

-- `_parse_utc_timestamp`
unfoldable pub parse_utc_timestamp : Library → Value → String → Checked ℕ
parse_utc_timestamp lib v code = parse_time contract lib v code

abbrev pub nonauthority_keys : List String
nonauthority_keys =
    "adoption" ∷ "merge" ∷ "main_mutation" ∷ "ruleset_mutation" ∷ "workflow_dispatch_rerun"
    ∷ "runtime_activation" ∷ "provider_effect" ∷ "production" ∷ "protected_data"
    ∷ "live_business_effect" ∷ "spend" ∷ []

-- `_nonauthority`
unfoldable pub nonauthority : Value → Checked (Unit {0})
nonauthority v = do
  require (is_object_of nonauthority_keys v) "NONAUTHORITY_SCHEMA"
  each_field (λ k flag. require (is_false flag) "NONAUTHORITY_NOT_FALSE") (fields_in v)

abbrev pub forbidden_dynamic_keys : List String
forbidden_dynamic_keys =
    "command" ∷ "shell" ∷ "script" ∷ "python" ∷ "yaml" ∷ "token" ∷ "password" ∷ "credential"
    ∷ "private_key" ∷ []

unfoldable pub is_dynamic_key : Library → String → Bool
is_dynamic_key lib key = any (λ f. has_infix f (lib.lower key)) forbidden_dynamic_keys

-- `_reject_dynamic_keys`
unfoldable pub reject_dynamic_keys : Library → Value → Checked (Unit {0})
reject_dynamic_keys lib v = reject_keys (is_dynamic_key lib) "FORBIDDEN_DYNAMIC_KEY" v

-- The number that a value is compared as, if it is an int; a bool is one.
abbrev pub integer : Value → Option ℕ
integer (int (pos n)) = some n
integer (bool b) = some (if b then 1 else 0)
integer _ = none

-- `isinstance(v, int) and low <= v <= high`
abbrev pub is_within : ℕ → ℕ → Value → Bool
is_within low high v = elim (integer v) [ none ↦ false | some n ↦ leb low n && leb n high ]
