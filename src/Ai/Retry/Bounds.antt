-- ===== src/Ai/Retry/Bounds.antt =====
-- How many calls ChatWithRetry makes at most, and how long it waits before each.
use digcore.Base.{
  ℕ, zero, suc, ◌+◌, ◌-◌, ◌*◌, ◌^◌, ◌%◌, ◌<◌, ◌≤◌, ◌≡◌, inl, inr, true, Option, none, some, ltb,
  Bool-cases, if-branch, arith, min,
}
use native.Mathlib.Nat.{mod-eq_of_lt}
use digcore.Base.Int.{ℤ, pos}
use digcore.Ai.Retry.{
  Error, Reply, answer, failure, nothing, panic, is_retryable, Calls, Trace, called, waited,
  backoff, max_backoff, retry_loop,
}

called_bound {ℓ} :
    {A : Type ℓ} (go_on : Error → Trace A) (left : ℕ) (r : Reply A)
    → ((e : Error) → (go_on e).1 ≤ left)
    → (called go_on r).1 ≤ suc left
unfolding called
called_bound go_on left (failure e) h = elim (Bool-cases (is_retryable e)) [
  | inl again ↦ rw again (omega (arith, h e))
  | inr settled ↦ rw settled (omega arith)
]
called_bound go_on left (answer a) h = omega arith
called_bound go_on left nothing h = omega arith
called_bound go_on left panic h = omega arith

waited_bound {ℓ} :
    {A : Type ℓ} {n : ℕ} (t : Trace A) (wait : ℤ) (d : Option Error)
    → t.1 ≤ n
    → (waited {A = A} wait d t).1 ≤ n
unfolding waited
waited_bound t wait none h = h
waited_bound t wait (some e) h = omega arith

module _ {ℓ} {A : Type ℓ} (c : Calls A) (base : ℕ) where
  -- The retry loop makes at most as many calls as it has attempts, whatever the replies and the context do.
  pub calls_bound : (left i : ℕ) (last : Reply A) → (retry_loop c base left i last).1 ≤ left
  unfolding retry_loop called waited
  calls_bound zero i last = omega arith
  calls_bound (suc left) i last =
      let t = called_bound _ left (c.chat i) (λ e. calls_bound left (i + 1) (failure e)) in
      if-branch {A = Trace A} (λ r. r.1 ≤ suc left) (ltb 0 i) (waited_bound _ _ (c.done i) t) t

-- While the doubled backoff stays below 2^63, the wait before an attempt is the smaller of it and 30
-- seconds.
pub backoff_exact :
    (retry_backoff attempt : ℕ)
    → retry_backoff * 2 ^ (attempt - 1) < 2 ^ 63
    → backoff retry_backoff attempt ≡ pos (min (retry_backoff * 2 ^ (attempt - 1)) max_backoff)
unfolding backoff
backoff_exact retry_backoff attempt h =
    let b = retry_backoff * 2 ^ (attempt - 1) in
    let e : b % 2 ^ 64 ≡ b = mod-eq_of_lt (omega arith) in
    let f : ltb b (2 ^ 63) ≡ true = ground arith in rw (e, f) (ground arith)
