-- ===== src/Review/Waiting.antt =====
-- How long the bounded read waits (automation/review_dispatcher_v1/github_read_resilience_v1.py).
use multiverse_research.Prelude.{
  ℕ, suc, zero, ◌+◌, ◌-◌, ◌*◌, ◌≤◌, ◌<◌, max, ◌≡◌, ◌≢◌, refl, String, Bool, false, ◌&&◌, Option,
  none, some, List, [], ◌∷◌, arith, inl, inr, ◌⊎◌, Bool-cases, Option-cases, subst, sym, length,
  string_eq, All,
}
use multiverse_research.Prelude.Value.{Value}
use multiverse_research.Review.Fetch.{
  HttpError, strict_nonnegative_int, reset_wait, reset_delay, mechanical_rate_limit_delay, Reply,
  answered, http_error, failed, Outcome, Trace, stop, resume, gives_up, attempt_from, is_read,
  github_json_request,
}

abbrev pub sum : List ℕ → ℕ
sum [] = 0
sum (n ∷ ns) = n + sum ns

-- A trace whose waits, of a second at least each, fit a limit in millionths, with one call more than
-- waits.
abbrev pub IsBounded : ℕ → ℕ → Trace → Type 0
IsBounded attempts limit t =
    (sum t.sleeps * 1000000 ≤ limit)
    × All (λ n. 1 ≤ n) t.sleeps
    × (t.opened ≤ attempts)
    × (t.opened ≡ suc (length t.sleeps))
    × (t.outcome ≢ Outcome.unreachable)

-- A rate limit is waited for by a second at least.
delay-positive :
    (e : HttpError) (now delay : ℕ) → mechanical_rate_limit_delay e now ≡ some delay → 1 ≤ delay
unfolding mechanical_rate_limit_delay reset_delay
delay-positive e now delay h = ground arith

reset_wait-past : (reset now : ℕ) → reset * 1000000 < now + reset_wait reset now * 1000000
reset_wait-past reset now = omega arith

reset_delay-known :
    (e : HttpError) (reset now : ℕ)
    → e.remaining ≡ some "0"
    → strict_nonnegative_int e.reset ≡ some reset
    → reset_delay e now ≡ some (some (reset_wait reset now))
unfolding reset_delay
reset_delay-known e reset now r n = rw (r, reset_delay, n) refl

-- A known reset is a lower bound of the wait.
delay-reset :
    (e : HttpError) (wait now delay : ℕ)
    → reset_delay e now ≡ some (some wait)
    → mechanical_rate_limit_delay e now ≡ some delay
    → wait ≤ delay
unfolding mechanical_rate_limit_delay
delay-reset e wait now delay r h = ground arith

-- When nothing remains and the reset is named, a wait for the rate limit ends behind the reset.
pub waits_past_reset :
    (e : HttpError) (reset now delay : ℕ)
    → e.remaining ≡ some "0"
    → strict_nonnegative_int e.reset ≡ some reset
    → mechanical_rate_limit_delay e now ≡ some delay
    → reset * 1000000 < now + delay * 1000000
waits_past_reset e reset now delay r n h = omega (
  arith,
  reset_wait-past reset now,
  delay-reset e (reset_wait reset now) now delay (reset_delay-known e reset now r n) h,
)

-- A wait is no shorter than the `Retry-After` header asks for.
waits_retry_after :
    (e : HttpError) (raw : String) (retry now delay : ℕ)
    → e.retry_after ≡ some raw
    → strict_nonnegative_int (some raw) ≡ some retry
    → mechanical_rate_limit_delay e now ≡ some delay
    → retry ≤ delay
unfolding mechanical_rate_limit_delay
waits_retry_after e raw retry now delay r n h = ground arith

Reply-cases :
    (r : Reply)
    → ((v : Value) × (r ≡ answered v))
      ⊎ (((e : HttpError) × (now : ℕ) × (r ≡ http_error e now)) ⊎ (r ≡ failed))
Reply-cases (answered v) = inl (v, refl)
Reply-cases (http_error e now) = inr (inl (e, now, refl))
Reply-cases failed = inr (inr refl)

module _ (opener : ℕ → Reply) (read_only : Bool) (limit : ℕ) where
  -- One attempt: it ends the request, or waits within the limit for another.
  attempt-pass :
      (left attempt total : ℕ)
      → ((o : Outcome) × (o ≢ Outcome.unreachable)
          × (attempt_from opener read_only limit (suc left) attempt total ≡ stop o))
        ⊎ ((delay : ℕ) × (1 ≤ delay)
            × ((total + delay) * 1000000 ≤ limit)
            × (1 ≤ left)
            × (attempt_from opener read_only limit (suc left) attempt total
                ≡ resume delay
                    (attempt_from opener read_only limit left (suc attempt) (total + delay))))
  unfolding attempt_from
  attempt-pass left attempt total = elim (Reply-cases (opener attempt)) [
    | inl (v, a) ↦ inl (Outcome.returned v, λ x. cc, rw (a, attempt_from) refl)
    | inr (inr a) ↦ inl (Outcome.escaped, λ x. cc, rw (a, attempt_from) refl)
    | inr (inl (e, now, a)) ↦ elim (Bool-cases read_only) [
      | inr write ↦ inl (Outcome.raised e, λ x. cc, rw (a, attempt_from, write) refl)
      | inl read ↦ elim (Option-cases (mechanical_rate_limit_delay e now)) [
        | inl other ↦ inl (Outcome.raised e, λ x. cc, rw (a, attempt_from, read, other) refl)
        | inr (delay, wait) ↦ elim (Bool-cases (gives_up left limit total delay)) [
          | inl last ↦ inl (Outcome.raised e, λ x. cc, rw (a, attempt_from, read, wait, last) refl)
          | inr again ↦ inr (
            delay,
            delay-positive e now delay wait,
            ground arith,
            ground arith,
            rw (a, attempt_from, read, wait, again) refl,
          )
        ]
      ]
    ]
  ]

  attempt-IsBounded :
      (left attempt total : ℕ)
      → total * 1000000 ≤ limit
      → IsBounded
          (suc left)
          (limit - total * 1000000)
          (attempt_from opener read_only limit (suc left) attempt total)
  attempt-IsBounded zero attempt total h = elim (attempt-pass zero attempt total) [
    | inl (o, good, e) ↦ rw e (omega arith, tt, omega arith, refl, good)
    | inr (delay, long, fits, more, e) ↦ absurd (omega arith)
  ]
  attempt-IsBounded (suc left) attempt total h = elim (attempt-pass (suc left) attempt total) [
    | inl (o, good, e) ↦ rw e (omega arith, tt, omega arith, refl, good)
    | inr (delay, long, fits, more, e) ↦
        let (slept, each, calls, paired, end) =
          attempt-IsBounded left (suc attempt) (total + delay) fits in
        rw e (omega arith, (long, each), omega arith, omega arith, end)
  ]

attempts-suc : (n : ℕ) → (m : ℕ) × (max 1 n ≡ suc m)
attempts-suc n = (max 1 n - 1, omega arith)

-- A request for which the cache holds nothing calls the opener once more than it waits and at most
-- `max 1 max_attempts` times; each wait is a second at least, all waits together fit the limit, and
-- the code behind the loop is not reached.
pub waiting_fits_limit :
    (opener : ℕ → Reply) (method : String) (data_ : Option String) (use_cache : Bool)
    (max_attempts limit : ℕ)
    → IsBounded
        (max 1 max_attempts)
        limit
        (github_json_request opener method data_ none use_cache max_attempts limit)
unfolding github_json_request
waiting_fits_limit opener method data_ use_cache max_attempts limit =
    let read_only = is_read method data_ in
    let (more, e) = attempts-suc max_attempts in
    let zero_less : limit - 0 * 1000000 ≡ limit = omega arith in
    let first =
      subst (λ n. IsBounded n (limit - 0 * 1000000) (attempt_from opener read_only limit n 0 0))
        (sym e) (attempt-IsBounded opener read_only limit more 0 0 (omega arith)) in
    let here =
      subst
        (λ n.
          IsBounded (max 1 max_attempts) n
            (attempt_from opener read_only limit (max 1 max_attempts) 0 0))
        zero_less first in
    elim (Bool-cases (is_read method data_ && use_cache)) [
      | inl look ↦ rw (look, github_json_request) here
      | inr skip ↦ rw (skip, github_json_request) here
    ]

write_sent :
    (opener : ℕ → Reply) (limit more : ℕ)
    → ((attempt_from opener false limit (suc more) 0 0).opened ≡ 1)
      × ((attempt_from opener false limit (suc more) 0 0).sleeps ≡ [])
unfolding attempt_from
write_sent opener limit more = elim (Reply-cases (opener 0)) [
  | inl (v, a) ↦ rw (a, attempt_from) (refl, refl)
  | inr (inl (f, now, a)) ↦ rw (a, attempt_from) (refl, refl)
  | inr (inr a) ↦ rw (a, attempt_from) (refl, refl)
]

-- A request that is not a GET without data calls the opener exactly once, whatever the cache holds,
-- and never waits.
pub writes_are_sent_once :
    (opener : ℕ → Reply) (method : String) (data_ : Option String) (cached : Option Value)
    (use_cache : Bool) (max_attempts limit : ℕ)
    → is_read method data_ ≡ false
    → ((github_json_request opener method data_ cached use_cache max_attempts limit).opened ≡ 1)
      × ((github_json_request opener method data_ cached use_cache max_attempts limit).sleeps ≡ [])
unfolding github_json_request
writes_are_sent_once opener method data_ cached use_cache max_attempts limit write =
    let (more, e) = attempts-suc max_attempts in
    rw (github_json_request, write, e) (write_sent opener limit more)
