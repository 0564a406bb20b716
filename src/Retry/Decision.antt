-- ===== src/Retry/Decision.antt =====
-- Which replies a call with retries repeats, and how it ends.
use book_data_pipeline.Base.{
  ℕ, zero, suc, ◌+◌, ◌<◌, Bool, true, false, not, ◌&&◌, ◌||◌, ◌==◌, ltb, any, if◌then◌else◌, Option,
  none, some, List, [], ◌∷◌, ◌++◌, ◌≡◌, ◌⊎◌, ◌∙◌, ap, refl, arith, inl, inr,
}
use book_data_pipeline.Retry.{
  Runtime, Policy, Response, Reply, transport_error, other_exception, response, Outcome, returned,
  quota_exhausted, Effect, waited, Run, Step, stop, again, asking, advance, spent, retry_delay,
  quota_is_exhausted, step, attempts_from, request_with_retries, http_error_threshold,
  retryable_status, too_many_requests,
}
use book_data_pipeline.Retry.Bounds.{requests}

abbrev pub is_false : Option Bool → Bool
is_false (some false) = true
is_false o = false

-- A reply that a later one may mend: a broken connection, or one of the retryable statuses, where a
-- 429 must not say that the allowance is spent.
unfoldable pub is_transient : Runtime → Reply → Bool
is_transient p transport_error = true
is_transient p other_exception = false
is_transient p (response r) =
    any (λ status. r.status_code == status) retryable_status
    && (not (r.status_code == too_many_requests) || is_false (quota_is_exhausted p r))

seen_after : Option ℕ → Reply → Option ℕ
seen_after last transport_error = last
seen_after last other_exception = last
seen_after last (response r) = some r.status_code

module _ (p : Runtime) (policy : Policy) where
  step-transient :
      (attempt : ℕ) (last : Option ℕ) (reply : Reply)
      → is_transient p reply ≡ true
      → (n : ℕ) × (step p policy attempt last reply ≡ again (seen_after last reply) n)
  unfolding step is_transient seen_after
  step-transient attempt last transport_error h = (_, refl)
  step-transient attempt last other_exception h = cc
  step-transient attempt last (response r) h = (retry_delay p policy attempt r, ground arith)

  step-again :
      (attempt : ℕ) (last seen : Option ℕ) (reply : Reply) (n : ℕ)
      → step p policy attempt last reply ≡ again seen n
      → is_transient p reply ≡ true
  unfolding step is_transient
  step-again attempt last seen transport_error n h = refl
  step-again attempt last seen other_exception n h = cc
  step-again attempt last seen (response r) n h = ground arith

  step-success :
      (attempt : ℕ) (last : Option ℕ) (r : Response)
      → r.status_code < http_error_threshold
      → step p policy attempt last (response r) ≡ stop (returned r)
  unfolding step
  step-success attempt last r h = ground arith

requests-asking :
    (before test : Bool) (n : ℕ) (es : List Effect)
    → requests (asking before ++ ((if test then waited n ∷ [] else []) ++ es)) ≡ suc (requests es)
unfolding asking
requests-asking true true n es = refl
requests-asking true false n es = refl
requests-asking false true n es = refl
requests-asking false false n es = refl

requests-stop : (before : Bool) → requests (asking before ++ []) ≡ 1
unfolding asking
requests-stop true = refl
requests-stop false = refl

-- One round that goes on.
round_again :
    (policy : Policy) (attempt n : ℕ) (seen : Option ℕ) (s : Step) (rest : Option ℕ → Run)
    → s ≡ again seen n
    → ((advance policy attempt s rest).outcome ≡ (rest seen).outcome)
      × (requests (asking policy.before ++ (advance policy attempt s rest).effects)
          ≡ suc (requests (rest seen).effects))
unfolding advance
round_again policy attempt n seen s rest e =
    rw (e, advance)
      (
        refl,
        requests-asking policy.before (ltb (suc attempt) policy.max_attempts) n (rest seen).effects,
      )

step-cases :
    (s : Step) → ((o : Outcome) × (s ≡ stop o)) ⊎ ((seen : Option ℕ) × (n : ℕ) × (s ≡ again seen n))
step-cases (stop o) = inl (o, refl)
step-cases (again seen n) = inr (seen, n, refl)

-- A 429 whose body does not say that the allowance is spent.
pub record IsThrottling (p : Runtime) (reply : Reply) : Type 0 where
  pub of : Response
  pub reply_eq : reply ≡ response of
  pub status_eq : of.status_code ≡ too_many_requests
  pub not_spent : quota_is_exhausted p of ≡ some false

throttling-transient :
    (p : Runtime) (reply : Reply) → IsThrottling p reply → is_transient p reply ≡ true
unfolding is_transient quota_is_exhausted
throttling-transient p reply h =
    let e = h.reply_eq in
    let s = h.status_eq in let q = h.not_spent in rw (e, is_transient, s, q) refl

module _ (p : Runtime) (policy : Policy) (reply : ℕ → Reply) where
  unfoldable loop : ℕ → ℕ → Option ℕ → Run
  loop = attempts_from p policy reply

  loop_again :
      (left attempt : ℕ) (last : Option ℕ)
      → is_transient p (reply attempt) ≡ true
      → ((loop (suc left) attempt last).outcome
          ≡ (loop left (suc attempt) (seen_after last (reply attempt))).outcome)
        × (requests (loop (suc left) attempt last).effects
            ≡ suc (requests (loop left (suc attempt) (seen_after last (reply attempt))).effects))
  unfolding loop attempts_from
  loop_again left attempt last h =
      let (n, e) = step-transient p policy attempt last (reply attempt) h in
      round_again policy attempt n _ (step p policy attempt last (reply attempt))
        (λ seen. attempts_from p policy reply left (suc attempt) seen) e

  loop_stop :
      (left attempt : ℕ) (last : Option ℕ) (o : Outcome)
      → step p policy attempt last (reply attempt) ≡ stop o
      → ((loop (suc left) attempt last).outcome ≡ o)
        × (requests (loop (suc left) attempt last).effects ≡ 1)
  unfolding loop attempts_from advance
  loop_stop left attempt last o e = rw (e, advance) (refl, requests-stop policy.before)

  first_success_from :
      (k left attempt : ℕ) (last : Option ℕ) (r : Response)
      → k < left
      → ((i : ℕ) → i < k → is_transient p (reply (attempt + i)) ≡ true)
      → reply (attempt + k) ≡ response r
      → r.status_code < http_error_threshold
      → ((loop left attempt last).outcome ≡ returned r)
        × (requests (loop left attempt last).effects ≡ suc k)
  first_success_from k zero attempt last r lt h e ok_status = ground arith
  first_success_from zero (suc left) attempt last r lt h e ok_status =
      let here : attempt + 0 ≡ attempt = omega arith in
      loop_stop left attempt last (returned r)
        (rw (rw here at e) (step-success p policy attempt last r ok_status))
  first_success_from (suc k) (suc left) attempt last r lt h e ok_status =
      let here : attempt + 0 ≡ attempt = omega arith in
      let (o, n) = loop_again left attempt last (rw here at (h 0 (omega arith))) in
      let later : (i : ℕ) → i < k → is_transient p (reply (suc attempt + i)) ≡ true = λ i below.
        let move : suc attempt + i ≡ attempt + suc i = omega arith in
        rw move (h (suc i) (omega arith)) in
      let move : suc attempt + k ≡ attempt + suc k = omega arith in
      let (o', n') =
        first_success_from k left (suc attempt) _ r (omega arith) later (rw move e) ok_status in
      (o ∙ o', n ∙ ap suc n')

  throttled_once :
      (left attempt : ℕ) (last : Option ℕ)
      → IsThrottling p (reply attempt)
      → ((loop (suc left) attempt last).outcome
          ≡ (loop left (suc attempt) (some too_many_requests)).outcome)
        × (requests (loop (suc left) attempt last).effects
            ≡ suc (requests (loop left (suc attempt) (some too_many_requests)).effects))
  unfolding seen_after
  throttled_once left attempt last h =
      let (o, n) = loop_again left attempt last (throttling-transient p (reply attempt) h) in
      let e = h.reply_eq in
      let e' = h.status_eq in
      let seen : seen_after last (reply attempt) ≡ some too_many_requests =
        rw (e, seen_after) (ap some e') in
      (rw seen at o, rw seen at n)

  throttled_now :
      (left attempt : ℕ)
      → ((i : ℕ) → i < suc left → IsThrottling p (reply (attempt + i)))
      → IsThrottling p (reply attempt)
  throttled_now left attempt h =
      let here : attempt + 0 ≡ attempt = omega arith in rw here at (h 0 (omega arith))

  throttled_later :
      (left attempt : ℕ)
      → ((i : ℕ) → i < suc left → IsThrottling p (reply (attempt + i)))
      → (i : ℕ) → i < left
      → IsThrottling p (reply (suc attempt + i))
  throttled_later left attempt h i below =
      let move : suc attempt + i ≡ attempt + suc i = omega arith in
      rw move (h (suc i) (omega arith))

  asked_again :
      (left attempt : ℕ) (last : Option ℕ)
      → 1 < requests (loop (suc left) attempt last).effects
      → is_transient p (reply attempt) ≡ true
  asked_again left attempt last h = elim (step-cases (step p policy attempt last (reply attempt))) [
    | inl (o, e) ↦ let (same, one) = loop_stop left attempt last o e in ground arith
    | inr (seen, n, e) ↦ step-again p policy attempt last seen (reply attempt) n e
  ]

  repeats_from :
      (k left attempt : ℕ) (last : Option ℕ)
      → suc k < requests (loop left attempt last).effects
      → is_transient p (reply (attempt + k)) ≡ true
  unfolding loop attempts_from
  repeats_from k zero attempt last h = ground arith
  repeats_from zero (suc left) attempt last h =
      let here : attempt ≡ attempt + 0 = omega arith in rw here at (asked_again left attempt last h)
  repeats_from (suc k) (suc left) attempt last h =
      let (o, n) = loop_again left attempt last (asked_again left attempt last (omega arith)) in
      let move : suc attempt + k ≡ attempt + suc k = omega arith in
      rw move at (repeats_from k left (suc attempt) (seen_after last (reply attempt)) (omega arith))

  -- Once a 429 is the last status, more of them end in a spent quota.
  throttled_from :
      (left attempt : ℕ)
      → ((i : ℕ) → i < left → IsThrottling p (reply (attempt + i)))
      → ((loop left attempt (some too_many_requests)).outcome ≡ quota_exhausted too_many_requests)
        × (requests (loop left attempt (some too_many_requests)).effects ≡ left)
  unfolding loop attempts_from spent
  throttled_from zero attempt h = (refl, refl)
  throttled_from (suc left) attempt h =
      let (o, n) =
        throttled_once left attempt (some too_many_requests) (throttled_now left attempt h) in
      let (o', n') = throttled_from left (suc attempt) (throttled_later left attempt h) in
      (o ∙ o', n ∙ ap suc n')

from_zero : (i : ℕ) → 0 + i ≡ i
from_zero i = omega arith

-- A response below 400 that only transient replies precede is returned, after one request for each of
-- them and one for itself, if the number of attempts allows for it.
pub request_with_retries-first_success :
    (p : Runtime) (policy : Policy) (reply : ℕ → Reply) (k : ℕ) (r : Response)
    → k < policy.max_attempts
    → ((i : ℕ) → i < k → is_transient p (reply i) ≡ true)
    → reply k ≡ response r
    → r.status_code < http_error_threshold
    → ((request_with_retries p policy reply).outcome ≡ returned r)
      × (requests (request_with_retries p policy reply).effects ≡ suc k)
unfolding request_with_retries loop
request_with_retries-first_success p policy reply k r lt h e good =
    first_success_from p policy reply k policy.max_attempts 0 none r lt
      (λ i below. rw (from_zero i) (h i below)) (rw (from_zero k) e) good

-- A call asks again only after a transient reply: where it issues more than `k + 1` requests, the
-- reply to attempt `k` was a broken connection or a retryable status that does not report a spent
-- allowance.
pub request_with_retries-repeats_transient :
    (p : Runtime) (policy : Policy) (reply : ℕ → Reply) (k : ℕ)
    → suc k < requests (request_with_retries p policy reply).effects
    → is_transient p (reply k) ≡ true
unfolding request_with_retries loop
request_with_retries-repeats_transient p policy reply k h =
    rw (from_zero k) at (repeats_from p policy reply k policy.max_attempts 0 none h)

-- Where every allowed attempt is answered by a 429 whose body does not report a spent allowance, the
-- call still ends in `QuotaExhaustedError`, after exactly `max_attempts` requests.
pub request_with_retries-all_throttled :
    (p : Runtime) (policy : Policy) (reply : ℕ → Reply)
    → 0 < policy.max_attempts
    → ((i : ℕ) → i < policy.max_attempts → IsThrottling p (reply i))
    → ((request_with_retries p policy reply).outcome ≡ quota_exhausted too_many_requests)
      × (requests (request_with_retries p policy reply).effects ≡ policy.max_attempts)
unfolding request_with_retries loop
request_with_retries-all_throttled p policy reply some_attempt h =
    elim policy.max_attempts
        as (λ n.
          0 < n
          → ((i : ℕ) → i < n → IsThrottling p (reply i))
          → ((loop p policy reply n 0 none).outcome ≡ quota_exhausted too_many_requests)
            × (requests (loop p policy reply n 0 none).effects ≡ n)) [
              | zero ↦ λ lt h'. ground arith
              | suc n ↦ λ lt h'.
                  let (o, m) = throttled_once p policy reply n 0 none (h' 0 lt) in
                  let (o', m') = throttled_from p policy reply n 1 (
                    throttled_later p policy reply n 0
                      (λ i below. rw (from_zero i) (h' i below))) in
                  (o ∙ o', m ∙ ap suc m')
            ]
      some_attempt h
