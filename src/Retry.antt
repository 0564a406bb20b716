-- ===== src/Retry.antt =====
-- extract/base.py: `request_with_retries`. Times are milliseconds; the replies of the source, the
-- jitter and Python's reading of a float are parameters.
mod Tests
pub mod Bounds
pub mod Decision
use book_data_pipeline.Base.{
  ℕ, zero, suc, ◌*◌, ◌^◌, Text, codes, Bool, true, false, not, ◌&&◌, ◌==◌, ltb, leb, any, text_eq,
  if◌then◌else◌, Option, none, some, List, [], ◌∷◌, ◌++◌, strip, ℤ, pos, negsuc,
}
use book_data_pipeline.Identity.Document.{
  Json, null, bool, num, str, other, arr, obj, Items, nil, cons, Fields, end, field,
}

-- What `float(text)` gives, in milliseconds.
pub data Float : Type 0 where
  nan infinity minus_infinity : Float
  finite : ℤ → Float

pub record Runtime : Type 0 where
  -- `str(value)` of a value that is not a string
  pub repr : Json → Text
  -- `s.lower()`
  pub lower : Text → Text
  -- `float(s)`, `none` where it raises `ValueError`
  pub float : Text → Option Float
  -- `random.uniform(0, ceiling)` at the given attempt
  pub uniform : ℕ → ℕ → ℕ

-- `httpx.Response`: the body is what `response.json()` reads, `none` where it raises `ValueError`.
pub record Response : Type 0 where
  pub status_code : ℕ
  pub body : Option Json
  pub retry_after : Option Text

-- What `client.request` gives: an `httpx.TransportError`, which the loop catches, another exception,
-- which it does not, or a response.
pub data Reply : Type 0 where
  transport_error : Reply
  other_exception : Reply
  response : Response → Reply

-- How the call ends: the response, an exception with the last status, the `TypeError` of an error
-- body whose `errors` cannot be iterated, or the exception of the client that is not caught.
pub data Outcome : Type 0 where
  returned : Response → Outcome
  unavailable : Option ℕ → Outcome
  quota_exhausted : ℕ → Outcome
  type_error propagated : Outcome

-- What the call does on the way.
pub data Effect : Type 0 where
  prepared requested : Effect
  waited : ℕ → Effect

pub record Run : Type 0 where
  pub effects : List Effect
  pub outcome : Outcome

-- The arguments of the call; `before` tells whether there is a `before_attempt`.
pub record Policy : Type 0 where
  pub max_attempts : ℕ
  pub base_delay : ℕ
  pub max_delay : ℕ
  pub before : Bool

abbrev pub too_many_requests : ℕ
too_many_requests = 429

abbrev pub http_error_threshold : ℕ
http_error_threshold = 400

-- `RETRYABLE_STATUS`
abbrev pub retryable_status : List ℕ
retryable_status = 408 ∷ 425 ∷ 429 ∷ 500 ∷ 502 ∷ 503 ∷ 504 ∷ []

abbrev pub quota_exhausted_reasons : List Text
quota_exhausted_reasons =
    codes "dailylimitexceeded"
    ∷ codes "dailylimitexceededunreg"
    ∷ codes "quotaexceeded"
    ∷ codes "resource_exhausted"
    ∷ []

-- `document.get(key)`; the keys of a parsed object are distinct.
pub get : Text → Fields → Option Json
get key end = none
get key (field k v rest) = let found = get key rest in if text_eq k key then some v else found

-- A number of milliseconds to wait, or an infinite one.
pub data Delay : Type 0 where
  millis : ℕ → Delay
  forever : Delay

-- `min(requested, max_delay)`
pub capped : Delay → ℕ → ℕ
capped (millis n) max_delay = if ltb max_delay n then max_delay else n
capped forever max_delay = max_delay

-- What one round of the loop decides: to end, or to go on with the last status seen after a delay.
pub data Step : Type 0 where
  stop : Outcome → Step
  again : Option ℕ → ℕ → Step

-- The end of the loop: every attempt is spent.
pub spent : Option ℕ → Outcome
spent none = unavailable none
spent (some status) =
    if status == too_many_requests then quota_exhausted status else unavailable (some status)

-- The effects of one attempt before its reply.
pub asking : Bool → List Effect
asking before = if before then prepared ∷ requested ∷ [] else requested ∷ []

-- `run` after the effects.
abbrev pub after : List Effect → Run → Run
after effects run = record { effects = effects ++ run.effects; outcome = run.outcome }

-- What follows the reply to the given attempt: the end, or the rest of the loop after a pause, which
-- the last attempt leaves out.
pub advance : Policy → ℕ → Step → (Option ℕ → Run) → Run
advance policy attempt (stop outcome) rest = record { effects = []; outcome = outcome }
advance policy attempt (again last delay) rest =
    let pause = if ltb (suc attempt) policy.max_attempts then waited delay ∷ [] else [] in
    after pause (rest last)

module _ (p : Runtime) where
  -- `str(document.get(key, "")).lower()`
  reason : Text → Fields → Text
  reason key document = elim (get key document) [
    | none ↦ p.lower []
    | some (str s) ↦ p.lower s
    | some v ↦ p.lower (p.repr v)
  ]

  -- The reasons of the entries that are objects.
  reasons : Items → List Text
  unfolding reason
  reasons nil = []
  reasons (cons (obj fields) rest) = reason (codes "reason") fields ∷ reasons rest
  reasons (cons v rest) = reasons rest

  -- The reasons in `error.get("errors", [])`; `none` is the `TypeError` of what is not iterable. A
  -- string and the keys of an object hold no object.
  listed_reasons : Option Json → Option (List Text)
  unfolding reasons
  listed_reasons none = some []
  listed_reasons (some (arr items)) = some (reasons items)
  listed_reasons (some (obj fields)) = some []
  listed_reasons (some (str s)) = some []
  listed_reasons (some v) = none

  is_quota_reason : Text → Bool
  is_quota_reason r = any (text_eq r) quota_exhausted_reasons

  -- `quota_is_exhausted`; `none` where it raises `TypeError`.
  pub quota_is_exhausted : Response → Option Bool
  unfolding listed_reasons is_quota_reason reason
  quota_is_exhausted r = elim r.body [
    | some (obj body) ↦ elim (get (codes "error") body) [
      | some (obj error) ↦ elim (listed_reasons (get (codes "errors") error)) [
        | none ↦ none
        | some rs ↦ some (any is_quota_reason (reason (codes "status") error ∷ rs))
      ]
      | _ ↦ some false
    ]
    | _ ↦ some false
  ]

  -- `_retry_after_seconds`
  pub retry_after_seconds : Response → Option Delay
  retry_after_seconds r = elim r.retry_after [
    | none ↦ none
    | some raw ↦ elim (p.float (strip raw)) [
      | some (finite (pos n)) ↦ some (millis n)
      | some infinity ↦ some forever
      | _ ↦ none
    ]
  ]

  -- `_backoff`
  pub backoff : ℕ → ℕ → ℕ → ℕ
  backoff attempt base_delay max_delay =
      let wanted = base_delay * 2 ^ attempt in
      let ceiling = if ltb max_delay wanted then max_delay else wanted in
      if ltb 0 ceiling then p.uniform attempt ceiling else 0

  -- The delay after a reply that is tried again.
  pub retry_delay : Policy → ℕ → Response → ℕ
  unfolding retry_after_seconds backoff capped
  retry_delay policy attempt r = elim (retry_after_seconds r) [
    | some asked ↦ capped asked policy.max_delay
    | none ↦ backoff attempt policy.base_delay policy.max_delay
  ]

  -- The body of the loop once the reply to the given attempt is in.
  pub step : Policy → ℕ → Option ℕ → Reply → Step
  unfolding quota_is_exhausted retry_delay
  step policy attempt last transport_error =
      again last (backoff attempt policy.base_delay policy.max_delay)
  step policy attempt last other_exception = stop propagated
  step policy attempt last (response r) =
      let retried = again (some r.status_code) (retry_delay policy attempt r) in
      if ltb r.status_code http_error_threshold
      then stop (returned r)
      else if not (any (λ status. r.status_code == status) retryable_status)
      then stop (unavailable (some r.status_code))
      else if not (r.status_code == too_many_requests)
      then retried
      else elim (quota_is_exhausted r) [
        | none ↦ stop type_error
        | some true ↦ stop (quota_exhausted r.status_code)
        | some false ↦ retried
      ]

  -- The rest of the loop: the attempts left, the attempt, the last status.
  pub attempts_from : Policy → (ℕ → Reply) → ℕ → ℕ → Option ℕ → Run
  unfolding step spent asking advance
  attempts_from policy reply zero attempt last = record { effects = []; outcome = spent last }
  attempts_from policy reply (suc left) attempt last = after (asking policy.before) (
      advance policy attempt (step policy attempt last (reply attempt))
        (λ seen. attempts_from policy reply left (suc attempt) seen))

  -- `request_with_retries`: `reply n` is what the client gives at attempt `n`.
  pub request_with_retries : Policy → (ℕ → Reply) → Run
  unfolding attempts_from
  request_with_retries policy reply = attempts_from policy reply policy.max_attempts 0 none
