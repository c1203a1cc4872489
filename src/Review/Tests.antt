-- ===== src/Review/Tests.antt =====
-- The review dispatcher at concrete inputs.
use multiverse_research.Prelude.{
  ℕ, zero, suc, ◌≡◌, ◌≢◌, refl, true, none, some, List, [], ◌∷◌, inl, inr, ◌<◌, ◌+◌, ◌*◌, max,
}
use multiverse_research.Prelude.Value.{null, end}
use multiverse_research.Review.Arbitration.{
  Candidate, Fault, is_valid, winner, has_duplicate, bridge_hashes, bridge_fault, walk,
  exact_current_owner_requests, latest_exact_current_owner_request,
}
use multiverse_research.Review.Walk.{Unsuperseded, IsChain}
use multiverse_research.Review.Lineage.{
  arbitration_has_fuel, accepted_lineage, latest_is_unsuperseded,
}
use multiverse_research.Review.Fetch.{
  HttpError, strict_nonnegative_int, digits, reset_delay, mechanical_rate_limit_delay, Reply,
  answered, http_error, github_json_request,
}
use multiverse_research.Review.Waiting.{
  IsBounded, waiting_fits_limit, writes_are_sent_once, waits_past_reset,
}

-- A first request, a malformed second one and the third that replaces it.
abbrev first : Candidate
first = record {
  comment_id = 3;
  request_id = "one";
  supersedes = none;
  sha256 = "h1";
  validation_error = none;
  request = end;
  comment = end;
}

abbrev malformed : Candidate
malformed = record {
  comment_id = 5;
  request_id = "two";
  supersedes = some "h1";
  sha256 = "h2";
  validation_error = some "RECIPE";
  request = end;
  comment = end;
}

abbrev third : Candidate
third = record {
  comment_id = 8;
  request_id = "three";
  supersedes = some "h2";
  sha256 = "h3";
  validation_error = none;
  request = end;
  comment = end;
}

abbrev candidates : List Candidate
candidates = first ∷ malformed ∷ third ∷ []

candidates-arbitrated : exact_current_owner_requests candidates ≡ inr (third ∷ first ∷ [])
unfolding exact_current_owner_requests has_duplicate bridge_hashes bridge_fault walk
candidates-arbitrated = refl

candidates-latest : latest_exact_current_owner_request candidates ≡ inr third
unfolding latest_exact_current_owner_request exact_current_owner_requests has_duplicate
    bridge_hashes bridge_fault walk
candidates-latest = refl

arbitration_has_fuel_example : exact_current_owner_requests candidates ≢ inl Fault.out_of_fuel
arbitration_has_fuel_example = arbitration_has_fuel candidates

accepted_lineage_example :
    Unsuperseded candidates (third ∷ first ∷ []) × ((m : ℕ) × IsChain m (third ∷ first ∷ []))
accepted_lineage_example = accepted_lineage candidates (third ∷ first ∷ []) candidates-arbitrated

latest_is_unsuperseded_example : (is_valid third ≡ true) × (winner (some "h3") candidates ≡ none)
latest_is_unsuperseded_example = latest_is_unsuperseded candidates third candidates-latest

-- A rate limit that names its reset.
abbrev limited : HttpError
limited = record {
  code = 403;
  retry_after = some "7";
  remaining = some "0";
  reset = some "100";
  names_rate_limit = true;
}

limited-delay : mechanical_rate_limit_delay limited 90000000 ≡ some 11
unfolding mechanical_rate_limit_delay reset_delay strict_nonnegative_int digits
limited-delay = refl

limited-reset : strict_nonnegative_int limited.reset ≡ some 100
unfolding strict_nonnegative_int digits
limited-reset = refl

limited-retry : strict_nonnegative_int (some "7") ≡ some 7
unfolding strict_nonnegative_int digits
limited-retry = refl

waits_past_reset_example : 100 * 1000000 < 90000000 + 11 * 1000000
waits_past_reset_example = waits_past_reset limited 100 90000000 11 refl limited-reset limited-delay

-- An opener that is limited at first and answers afterwards.
abbrev opener : ℕ → Reply
opener zero = http_error limited 90000000
opener (suc _) = answered null

waiting_fits_limit_example :
    IsBounded (max 1 3) 60000000 (github_json_request opener "GET" none none true 3 60000000)
waiting_fits_limit_example = waiting_fits_limit opener "GET" none true 3 60000000

writes_are_sent_once_example :
    ((github_json_request opener "POST" (some "{}") none true 3 60000000).opened ≡ 1)
    × ((github_json_request opener "POST" (some "{}") none true 3 60000000).sleeps ≡ [])
writes_are_sent_once_example =
    writes_are_sent_once opener "POST" (some "{}") none true 3 60000000 refl
