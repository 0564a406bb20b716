-- ===== src/Retry/Bounds.antt =====
-- How much a call with retries does.
use book_data_pipeline.Base.{
  ℕ, zero, suc, ◌+◌, ◌-◌, ◌*◌, ◌^◌, ◌≤◌, ◌<◌, Bool, true, false, ltb, if◌then◌else◌, Option, none,
  List, [], ◌∷◌, ◌++◌, ◌≡◌, refl, arith, inl, inr, Option-cases,
}
use book_data_pipeline.Retry.{
  Runtime, Policy, Response, Reply, transport_error, other_exception, response, Effect, requested,
  waited, Run, Step, stop, again, Delay, millis, forever, capped, asking, advance, backoff,
  retry_after_seconds, retry_delay, step, attempts_from, request_with_retries,
}

-- The requests among the effects.
abbrev pub requests : List Effect → ℕ
requests [] = 0
requests (requested ∷ es) = suc (requests es)
requests (e ∷ es) = requests es

-- The waits among the effects.
abbrev pub waits : List Effect → ℕ
waits [] = 0
waits (waited n ∷ es) = suc (waits es)
waits (e ∷ es) = waits es

-- Every wait is at most the bound.
abbrev pub AllShort : ℕ → List Effect → Type 0
AllShort bound [] = Unit
AllShort bound (waited n ∷ es) = (n ≤ bound) × AllShort bound es
AllShort bound (e ∷ es) = AllShort bound es

-- `random.uniform(0, ceiling)` does not exceed its ceiling.
abbrev pub IsBelow : Runtime → Type 0
IsBelow p = (attempt ceiling : ℕ) → p.uniform attempt ceiling ≤ ceiling

module _ (p : Runtime) (below : IsBelow p) where
  backoff-short : (attempt base top : ℕ) → backoff p attempt base top ≤ top
  unfolding backoff
  backoff-short attempt base top =
      let wanted = base * 2 ^ attempt in
      let h = below attempt (if ltb top wanted then top else wanted) in ground arith

  capped-short : (d : Delay) (top : ℕ) → capped d top ≤ top
  unfolding capped
  capped-short (millis n) top = ground arith
  capped-short forever top = omega arith

  retry_delay-short :
      (policy : Policy) (attempt : ℕ) (r : Response)
      → retry_delay p policy attempt r ≤ policy.max_delay
  unfolding retry_delay
  retry_delay-short policy attempt r = elim (Option-cases (retry_after_seconds p r)) [
    | inr (d, e) ↦ rw (e, retry_delay) (capped-short d policy.max_delay)
    | inl e ↦ rw (e, retry_delay) (backoff-short attempt policy.base_delay policy.max_delay)
  ]

  step-short :
      (policy : Policy) (attempt : ℕ) (last last' : Option ℕ) (reply : Reply) (n : ℕ)
      → step p policy attempt last reply ≡ again last' n
      → n ≤ policy.max_delay
  unfolding step
  step-short policy attempt last last' transport_error n h =
      let b = backoff-short attempt policy.base_delay policy.max_delay in ground arith
  step-short policy attempt last last' other_exception n h = cc
  step-short policy attempt last last' (response r) n h =
      let b = retry_delay-short policy attempt r in ground arith

-- The effects of a loop with the attempts left, whose waits have the bound.
record IsBounded (left top : ℕ) (effects : List Effect) : Type 0 where
  asked : requests effects ≤ left
  slept : waits effects ≤ left - 1
  short : AllShort top effects

asking-IsBounded :
    (before : Bool) (left top : ℕ) (es : List Effect)
    → requests es ≤ left
    → waits es ≤ left
    → AllShort top es
    → IsBounded (suc left) top (asking before ++ es)
unfolding asking
asking-IsBounded true left top es asked slept short = record {
  asked = omega arith;
  slept = omega arith;
  short = short;
}
asking-IsBounded false left top es asked slept short = record {
  asked = omega arith;
  slept = omega arith;
  short = short;
}

pause-bounds :
    (test : Bool) (delay left top : ℕ) (es : List Effect)
    → (test ≡ true → 0 < left)
    → delay ≤ top
    → IsBounded left top es
    → (requests ((if test then waited delay ∷ [] else []) ++ es) ≤ left)
      × (waits ((if test then waited delay ∷ [] else []) ++ es) ≤ left)
      × AllShort top ((if test then waited delay ∷ [] else []) ++ es)
pause-bounds true delay left top es more d h =
    let lt = more refl in let s = h.slept in (h.asked, omega arith, (d, h.short))
pause-bounds false delay left top es more d h = let s = h.slept in (h.asked, omega arith, h.short)

more_left :
    (attempt left top : ℕ) → attempt + suc left ≡ top → ltb (suc attempt) top ≡ true → 0 < left
more_left attempt left top h e = ground arith

advance-IsBounded :
    (policy : Policy) (attempt left : ℕ) (s : Step) (rest : Option ℕ → Run)
    → attempt + suc left ≡ policy.max_attempts
    → ((seen : Option ℕ) (n : ℕ) → s ≡ again seen n → n ≤ policy.max_delay)
    → ((seen : Option ℕ) → IsBounded left policy.max_delay (rest seen).effects)
    → IsBounded
        (suc left)
        policy.max_delay
        (asking policy.before ++ (advance policy attempt s rest).effects)
unfolding advance
advance-IsBounded policy attempt left (stop o) rest h short bounded =
    asking-IsBounded policy.before left policy.max_delay [] (omega arith) (omega arith) tt
advance-IsBounded policy attempt left (again seen n) rest h short bounded =
    let (a, b, c) =
      pause-bounds (ltb (suc attempt) policy.max_attempts) n left policy.max_delay
        (rest seen).effects (more_left attempt left policy.max_attempts h) (short seen n refl)
        (bounded seen) in
    asking-IsBounded policy.before left policy.max_delay _ a b c

module _ (p : Runtime) (below : IsBelow p) where
  attempts_from-IsBounded :
      (policy : Policy) (reply : ℕ → Reply) (left attempt : ℕ) (last : Option ℕ)
      → attempt + left ≡ policy.max_attempts
      → IsBounded left policy.max_delay (attempts_from p policy reply left attempt last).effects
  unfolding attempts_from
  attempts_from-IsBounded policy reply zero attempt last h = record {
    asked = omega arith;
    slept = omega arith;
    short = tt;
  }
  attempts_from-IsBounded policy reply (suc left) attempt last h =
      advance-IsBounded policy attempt left (step p policy attempt last (reply attempt)) _ h
        (λ seen n. step-short p below policy attempt last seen (reply attempt) n)
        (λ seen. attempts_from-IsBounded policy reply left (suc attempt) seen (omega arith))

-- Where the jitter stays below its ceiling, a call issues at most `max_attempts` requests whatever
-- the source replies, waits at most `max_attempts - 1` times, and no wait is longer than
-- `max_delay`.
pub request_with_retries-bounds :
    (p : Runtime) (policy : Policy) (reply : ℕ → Reply)
    → IsBelow p
    → (requests (request_with_retries p policy reply).effects ≤ policy.max_attempts)
      × (waits (request_with_retries p policy reply).effects ≤ policy.max_attempts - 1)
      × AllShort policy.max_delay (request_with_retries p policy reply).effects
unfolding request_with_retries
request_with_retries-bounds p policy reply below =
    let h = attempts_from-IsBounded p below policy reply policy.max_attempts 0 none (omega arith) in
    (h.asked, h.slept, h.short)
