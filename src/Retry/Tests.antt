-- ===== src/Retry/Tests.antt =====
-- The theorems on retries at a source that refuses twice and then answers.
use book_data_pipeline.Base.{ℕ, zero, suc, ◌≤◌, ◌<◌, codes, true, none, some, [], ◌≡◌, refl, arith}
use book_data_pipeline.Identity.Document.{field, end, str}
use book_data_pipeline.Retry.{
  get, Runtime, Response, Reply, transport_error, response, Policy, returned, quota_exhausted,
  request_with_retries, quota_is_exhausted,
}
use book_data_pipeline.Retry.Bounds.{
  requests, waits, AllShort, IsBelow, request_with_retries-bounds,
}
use book_data_pipeline.Retry.Decision.{
  is_transient, IsThrottling, request_with_retries-first_success,
  request_with_retries-repeats_transient, request_with_retries-all_throttled,
}

-- The jitter waits for the ceiling.
abbrev runtime : Runtime
runtime = record {
  repr = λ v. [];
  lower = λ s. s;
  float = λ s. none;
  uniform = λ attempt ceiling. ceiling;
}

abbrev policy : Policy
policy = record { max_attempts = 5; base_delay = 1000; max_delay = 30000; before = true }

abbrev good : Response
good = record { status_code = 200; body = none; retry_after = none }

abbrev throttled : Response
throttled = record { status_code = 429; body = none; retry_after = none }

abbrev replies : ℕ → Reply
replies zero = transport_error
replies (suc zero) = response throttled
replies (suc (suc n)) = response good

below : IsBelow runtime
below attempt ceiling = omega arith

request_with_retries-bounds_example :
    (requests (request_with_retries runtime policy replies).effects ≤ 5)
    × (waits (request_with_retries runtime policy replies).effects ≤ 4)
    × AllShort 30000 (request_with_retries runtime policy replies).effects
request_with_retries-bounds_example = request_with_retries-bounds runtime policy replies below

first_two : (i : ℕ) → i < 2 → is_transient runtime (replies i) ≡ true
unfolding is_transient quota_is_exhausted
first_two zero h = refl
first_two (suc zero) h = refl
first_two (suc (suc n)) h = ground arith

request_with_retries-first_success_example :
    ((request_with_retries runtime policy replies).outcome ≡ returned good)
    × (requests (request_with_retries runtime policy replies).effects ≡ 3)
request_with_retries-first_success_example =
    request_with_retries-first_success runtime policy replies 2 good (omega arith) first_two refl
      (omega arith)

run_length : requests (request_with_retries runtime policy replies).effects ≡ 3
unfolding request_with_retries
run_length = refl

asked_twice : 2 < requests (request_with_retries runtime policy replies).effects
asked_twice = let e = run_length in omega arith

request_with_retries-repeats_transient_example : is_transient runtime (response throttled) ≡ true
request_with_retries-repeats_transient_example =
    request_with_retries-repeats_transient runtime policy replies 1 asked_twice

throttling : IsThrottling runtime (response throttled)
unfolding quota_is_exhausted
throttling = record { of = throttled; reply_eq = refl; status_eq = refl; not_spent = refl }

request_with_retries-all_throttled_example :
    ((request_with_retries runtime policy (λ i. response throttled)).outcome ≡ quota_exhausted 429)
    × (requests (request_with_retries runtime policy (λ i. response throttled)).effects ≡ 5)
request_with_retries-all_throttled_example =
    request_with_retries-all_throttled runtime policy (λ i. response throttled) (omega arith)
      (λ i h. throttling)

status_found : get (codes "status") (field (codes "status") (str []) end) ≡ some (str [])
unfolding get
status_found = refl
