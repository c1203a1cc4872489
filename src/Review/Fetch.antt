-- ===== src/Review/Fetch.antt =====
-- The bounded read of the code host's API (automation/review_dispatcher_v1/
-- github_read_resilience_v1.py). Clock readings and the limit of the waits are in millionths of
-- a second, waits in whole seconds: every wait of the code is one. Header texts are Latin-1, as HTTP
-- has them. A limit below zero acts as zero, since a wait is a second at least.
use multiverse_research.Prelude.{
  ℕ, suc, zero, ◌+◌, ◌-◌, ◌*◌, ◌/◌, max, String, Bool, true, false, not, ◌&&◌, ◌||◌, Option, none,
  some, List, [], ◌∷◌, if◌then◌else◌, ◌==◌, string_eq, all, ltb, leb, nat_beq,
}
use multiverse_research.Prelude.Value.{Value}
use multiverse_research.Prelude.Text.{codes, is_empty}

-- The fields of a `urllib.error.HTTPError` that are read; a header is stripped, `text` is in lower
-- case.
pub record HttpError : Type 0 where
  pub code : ℕ
  pub retry_after : Option String
  pub remaining : Option String
  pub reset : Option String
  pub names_rate_limit : Bool

abbrev pub read_max_attempts : ℕ
read_max_attempts = 3

abbrev pub read_max_total_wait_seconds : ℕ
read_max_total_wait_seconds = 60000000

abbrev pub same_build_cache_ttl : ℕ
same_build_cache_ttl = 5000000

abbrev is_digit : ℕ → Bool
is_digit c = leb 48 c && leb c 57

-- `int` of a text of digits.
unfoldable pub digits : ℕ → List ℕ → ℕ
digits n [] = n
digits n (c ∷ cs) = digits (10 * n + (c - 48)) cs

-- `_strict_nonnegative_int`
unfoldable pub strict_nonnegative_int : Option String → Option ℕ
strict_nonnegative_int none = none
strict_nonnegative_int (some s) =
    if not (is_empty s) && all is_digit (codes s) then some (digits 0 (codes s)) else none

-- `max(1, ceil(reset - now) + 1)`, of a reset in seconds.
abbrev pub reset_wait : ℕ → ℕ → ℕ
reset_wait reset now = max 1 ((reset * 1000000 - now + 999999) / 1000000 + 1)

-- The wait that the reset header asks for once nothing remains: `none` refuses to wait at all.
unfoldable pub reset_delay : HttpError → ℕ → Option (Option ℕ)
reset_delay e now =
    if (elim e.remaining [ none ↦ false | some r ↦ r == "0" ])
    then elim (strict_nonnegative_int e.reset) [
      | none ↦ none
      | some reset ↦ some (some (reset_wait reset now))
    ]
    else some none

-- The wait of a `Retry-After` header, with that of the reset.
abbrev pub retry_delay : HttpError → ℕ → Option ℕ → Option ℕ
retry_delay e retry reset =
    if not e.names_rate_limit && not (nat_beq e.code 429)
    then none
    else elim reset [ none ↦ some (max 1 retry) | some wait ↦ some (max (max 1 retry) wait) ]

-- `_mechanical_rate_limit_delay`
unfoldable pub mechanical_rate_limit_delay : HttpError → ℕ → Option ℕ
mechanical_rate_limit_delay e now =
    if not (nat_beq e.code 403) && not (nat_beq e.code 429) then none else elim e.retry_after [
      | none ↦ elim (reset_delay e now) [ none ↦ none | some reset ↦ reset ]
      | some raw ↦ elim (strict_nonnegative_int (some raw)) [
        | none ↦ none
        | some retry ↦ elim (reset_delay e now) [
          | none ↦ none
          | some reset ↦ retry_delay e retry reset
        ]
      ]
    ]

pub record CacheEntry : Type 0 where
  pub url : String
  pub fetched_at : ℕ
  pub payload : Option Value

-- `_valid_cache_entry`, of an entry whose fields have their types.
unfoldable pub valid_cache_entry : CacheEntry → String → ℕ → Bool
valid_cache_entry e url now =
    (e.url == url)
    && leb e.fetched_at now
    && leb (now - e.fetched_at) same_build_cache_ttl
    && (elim e.payload [ none ↦ false | some _ ↦ true ])

-- What one call of the opener gives: a payload, an `HTTPError` with the clock's reading behind it, or
-- another exception, which is not caught.
pub data Reply : Type 0 where
  answered : Value → Reply
  http_error : HttpError → ℕ → Reply
  failed : Reply

pub data Outcome : Type 0 where
  returned : Value → Outcome
  raised : HttpError → Outcome
  escaped : Outcome
  unreachable : Outcome

-- A request's outcome with what it did: the calls of the opener and the waits, in order.
pub record Trace : Type 0 where
  pub outcome : Outcome
  pub opened : ℕ
  pub sleeps : List ℕ

abbrev pub stop : Outcome → Trace
stop o = record { outcome = o; opened = 1; sleeps = [] }

abbrev pub resume : ℕ → Trace → Trace
resume delay t = record { outcome = t.outcome; opened = suc t.opened; sleeps = delay ∷ t.sleeps }

-- Whether an error ends the request: it is the last attempt, or the wait is too long.
abbrev pub gives_up : ℕ → ℕ → ℕ → ℕ → Bool
gives_up left limit total delay = nat_beq left 0 || ltb limit ((total + delay) * 1000000)

-- The loop over the attempts that are left, behind `attempt` calls of the opener.
unfoldable pub attempt_from : (ℕ → Reply) → Bool → ℕ → ℕ → ℕ → ℕ → Trace
attempt_from opener is_read limit zero attempt total = record {
  outcome = Outcome.unreachable;
  opened = 0;
  sleeps = [];
}
attempt_from opener is_read limit (suc left) attempt total =
    let rest = attempt_from opener is_read limit left (suc attempt) in
    elim (opener attempt) [
      | answered v ↦ stop (Outcome.returned v)
      | failed ↦ stop Outcome.escaped
      | http_error e now ↦
          if not is_read
          then stop (Outcome.raised e)
          else elim (mechanical_rate_limit_delay e now) [
            | none ↦ stop (Outcome.raised e)
            | some delay ↦
                if gives_up left limit total delay
                then stop (Outcome.raised e)
                else resume delay (rest (total + delay))
          ]
    ]

-- `method == "GET" and data is None`, of a method in upper case.
abbrev pub is_read : String → Option String → Bool
is_read method data_ = method == "GET" && (elim data_ [ none ↦ true | some _ ↦ false ])

-- `github_json_request`, of a method in upper case; `cached` is what `_cached_read` finds, which is
-- asked for reads only.
unfoldable pub github_json_request :
    (ℕ → Reply) → String → Option String → Option Value → Bool → ℕ → ℕ → Trace
github_json_request opener method data_ cached use_cache max_attempts limit =
    let fetched = attempt_from opener (is_read method data_) limit (max 1 max_attempts) 0 0 in
    if is_read method data_ && use_cache
    then elim cached [
      | none ↦ fetched
      | some v ↦ record { outcome = Outcome.returned v; opened = 0; sleeps = [] }
    ]
    else fetched
