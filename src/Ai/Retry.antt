-- ===== src/Ai/Retry.antt =====
-- diagnose/aiclient/retry.go: calling a model again after a transient error.
pub mod Laws
pub mod Bounds
use digcore.Base.{
  ℕ, zero, suc, ◌+◌, ◌-◌, ◌*◌, ◌^◌, ◌%◌, Bool, true, false, String, Option, none, some, List, [],
  ◌∷◌, ltb, ◌==◌, ◌||◌, if◌then◌else◌,
}
use digcore.Base.Int.{ℤ, pos, negsuc}

-- Errors: APIError by its status code, the errors of the context, others, and `%w` wrapping.
pub data Error : Type 0 where
  api : ℕ → String → Error
  canceled : Error
  other : String → Error
  wrapped : String → Error → Error

-- errors.As with an APIError
unfoldable pub as_api : Error → Option ℕ
as_api (api status text) = some status
as_api canceled = none
as_api (other text) = none
as_api (wrapped text e) = as_api e

-- errors.Is with context.Canceled
unfoldable pub is_canceled : Error → Bool
is_canceled (api status text) = false
is_canceled canceled = true
is_canceled (other text) = false
is_canceled (wrapped text e) = is_canceled e

abbrev pub retried_status : ℕ → Bool
retried_status c = c == 429 || (c == 500 || (c == 502 || (c == 503 || c == 504)))

-- IsRetryable
unfoldable pub is_retryable : Error → Bool
unfolding as_api is_canceled
is_retryable e = elim (as_api e) [
  | some status ↦ retried_status status
  | none ↦ if is_canceled e then false else true
]

-- What a call gives: an answer, an error, or nil for both. A call on a nil client panics.
pub data Reply {ℓ} (A : Type ℓ) : Type ℓ where
  answer : A → Reply A
  failure : Error → Reply A
  nothing : Reply A
  panic : Reply A

pub record RetryConfig : Type 0 where
  pub max_retries : ℤ  -- MaxRetries
  pub retry_backoff : ℕ  -- RetryBackoff, in nanoseconds

-- int64
abbrev pub to_int64 : ℕ → ℤ
to_int64 n = let r = n % 2 ^ 64 in if ltb r (2 ^ 63) then pos r else negsuc (2 ^ 64 - r - 1)

abbrev pub max_backoff : ℕ
max_backoff = 30 * 1000000000

-- backoff > maxBackoff
abbrev pub over_max : ℤ → Bool
over_max (pos n) = ltb max_backoff n
over_max (negsuc n) = false

-- The wait before an attempt, which is at least 1. The product wraps around at 64 bits.
unfoldable pub backoff : ℕ → ℕ → ℤ
backoff retry_backoff attempt =
    let b = to_int64 (retry_backoff * 2 ^ (attempt - 1)) in
    if over_max b then pos max_backoff else b

-- The surroundings of one ChatWithRetry: what ctx.Done gives during the wait before an attempt, and
-- what Chat gives at an attempt.
pub record Calls {ℓ} (A : Type ℓ) : Type ℓ where
  pub done : ℕ → Option Error
  pub chat : ℕ → Reply A

-- The waits begun, in order, the number of calls of Chat, and the reply.
abbrev pub Trace {ℓ} : Type ℓ → Type ℓ
Trace A = List ℤ × ℕ × Reply A

-- The loop body from the call of Chat on; the function is the rest of the loop.
unfoldable pub called {ℓ} : {A : Type ℓ} → (Error → Trace A) → Reply A → Trace A
unfolding is_retryable
called go_on (failure e) =
    let (ws, n, r) = go_on e in if is_retryable e then (ws, suc n, r) else ([], 1, failure e)
called go_on (answer a) = ([], 1, answer a)
called go_on nothing = ([], 1, nothing)
called go_on panic = ([], 1, panic)

-- The select statement: the context is done, or the wait passes.
unfoldable pub waited {ℓ} : {A : Type ℓ} → ℤ → Option Error → Trace A → Trace A
waited wait (some e) t = (wait ∷ [], 0, failure e)
waited wait none t = (wait ∷ t.0, t.1, t.2)

-- The loop, with the attempts left.
unfoldable pub retry_loop {ℓ} : {A : Type ℓ} → Calls A → ℕ → ℕ → ℕ → Reply A → Trace A
unfolding called waited backoff
retry_loop c base zero attempt last = ([], 0, last)
retry_loop c base (suc left) attempt last =
    let t = called (λ e. retry_loop c base left (attempt + 1) (failure e)) (c.chat attempt) in
    if ltb 0 attempt then waited (backoff base attempt) (c.done attempt) t else t

abbrev pub attempts_of : ℤ → ℕ
attempts_of (pos n) = suc n
attempts_of (negsuc n) = 0

-- ChatWithRetry
unfoldable pub chat_with_retry {ℓ} : {A : Type ℓ} → Calls A → RetryConfig → Trace A
unfolding retry_loop
chat_with_retry c cfg = retry_loop c cfg.retry_backoff (attempts_of cfg.max_retries) 0 nothing
