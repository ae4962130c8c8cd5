-- ===== src/Notify/Laws.antt =====
-- How often a notifier asks, and what its answer is.
use digcore.Base.{
  ℕ, zero, suc, ◌+◌, ◌<◌, ◌≡◌, ◌≢◌, refl, ap, Bool, true, false, List, [], inl, inr, ◌⊎◌, arith,
  sym, ◌∙◌,
}
use digcore.Base.Int.{pos}
use digcore.Notify.{
  Reply, Verdict, unmade, sent, retryable, refused, attempted, forward_loop, forward,
}

abbrev pub was_sent : Verdict → Bool
was_sent unmade = false
was_sent sent = true
was_sent retryable = false
was_sent refused = false

-- The requests of an attempt.
abbrev pub requests : Verdict → ℕ
requests unmade = 0
requests sent = 1
requests retryable = 1
requests refused = 1

-- From an attempt on, all but the last of `k + 1` attempts are retried; the last is not, or no attempt
-- is left; and its verdict is the answer.
pub record IsAsked (verdict : ℕ → Verdict) (attempt left : ℕ) (k : ℕ) (r : Bool × List ℕ × ℕ)
    : Type 0 where
  pub few : k < left
  pub answer : r.0 ≡ was_sent (verdict (attempt + k))
  pub calls : r.2 ≡ k + requests (verdict (attempt + k))
  pub before : (j : ℕ) → j < k → verdict (attempt + j) ≡ retryable
  pub last : (verdict (attempt + k) ≢ retryable) ⊎ (suc k ≡ left)

not_below : (j : ℕ) → j < 0 → ⊥
not_below j l = omega arith

module _ (verdict : ℕ → Verdict) where
  here : (attempt : ℕ) (v : Verdict) → verdict attempt ≡ v → verdict (attempt + 0) ≡ v
  here attempt v e = ap verdict (omega arith) ∙ e

  -- A request that is not retried.
  sent-IsAsked :
      (attempt left : ℕ) (rest : Bool × List ℕ × ℕ)
      → verdict attempt ≡ sent
      → IsAsked verdict attempt (suc left) 0 (attempted sent attempt rest)
  unfolding attempted
  sent-IsAsked attempt left rest e = record {
    few = omega arith;
    answer = sym (ap was_sent (here attempt sent e));
    calls = omega (arith, ap requests (here attempt sent e));
    before = λ j l. elim (not_below j l) [ ];
    last = inl (λ r. cc (here attempt sent e, r));
  }

  refused-IsAsked :
      (attempt left : ℕ) (rest : Bool × List ℕ × ℕ)
      → verdict attempt ≡ refused
      → IsAsked verdict attempt (suc left) 0 (attempted refused attempt rest)
  unfolding attempted
  refused-IsAsked attempt left rest e = record {
    few = omega arith;
    answer = sym (ap was_sent (here attempt refused e));
    calls = omega (arith, ap requests (here attempt refused e));
    before = λ j l. elim (not_below j l) [ ];
    last = inl (λ r. cc (here attempt refused e, r));
  }

  unmade-IsAsked :
      (attempt left : ℕ) (rest : Bool × List ℕ × ℕ)
      → verdict attempt ≡ unmade
      → IsAsked verdict attempt (suc left) 0 (attempted unmade attempt rest)
  unfolding attempted
  unmade-IsAsked attempt left rest e = record {
    few = omega arith;
    answer = sym (ap was_sent (here attempt unmade e));
    calls = omega (arith, ap requests (here attempt unmade e));
    before = λ j l. elim (not_below j l) [ ];
    last = inl (λ r. cc (here attempt unmade e, r));
  }

  -- The last request, which would be retried.
  exhausted-IsAsked :
      (attempt : ℕ)
      → verdict attempt ≡ retryable
      → IsAsked verdict attempt 1 0 (attempted retryable attempt (false, [], 0))
  unfolding attempted
  exhausted-IsAsked attempt e = record {
    few = omega arith;
    answer = sym (ap was_sent (here attempt retryable e));
    calls = omega (arith, ap requests (here attempt retryable e));
    before = λ j l. elim (not_below j l) [ ];
    last = inr refl;
  }

  before_suc :
      (attempt k : ℕ)
      → verdict attempt ≡ retryable
      → ((j : ℕ) → j < k → verdict (suc attempt + j) ≡ retryable)
      → (j : ℕ) → j < suc k
      → verdict (attempt + j) ≡ retryable
  before_suc attempt k e h zero l = here attempt retryable e
  before_suc attempt k e h (suc j) l = ap verdict (omega arith) ∙ h j (omega arith)

  -- A request that is retried in front of others.
  retried-IsAsked :
      (attempt left k : ℕ) (rest : Bool × List ℕ × ℕ)
      → verdict attempt ≡ retryable
      → IsAsked verdict (suc attempt) left k rest
      → IsAsked verdict attempt (suc left) (suc k) (attempted retryable attempt rest)
  unfolding attempted
  retried-IsAsked attempt left k rest e h =
      let same : verdict (suc attempt + k) ≡ verdict (attempt + suc k) = ap verdict (omega arith) in
      record {
        few = let f = h.few in omega arith;
        answer = h.answer ∙ ap was_sent same;
        calls = omega (arith, h.calls, ap requests same);
        before = before_suc attempt k e h.before;
        last = elim h.last [ inl n ↦ inl (λ q. n (same ∙ q)) | inr l ↦ inr (ap suc l) ];
      }

  -- The attempt with its verdict, in front of the loop.
  step-IsAsked :
      (attempt left : ℕ) (v : Verdict)
      → verdict attempt ≡ v
      → (k : ℕ) × IsAsked verdict
          (suc attempt)
          (suc left)
          k
          (forward_loop verdict (suc attempt) (suc left))
      → (k : ℕ) × IsAsked verdict attempt
          (suc (suc left))
          k
          (attempted v attempt (forward_loop verdict (suc attempt) (suc left)))
  step-IsAsked attempt left unmade e h = (0, unmade-IsAsked attempt (suc left) _ e)
  step-IsAsked attempt left sent e h = (0, sent-IsAsked attempt (suc left) _ e)
  step-IsAsked attempt left refused e h = (0, refused-IsAsked attempt (suc left) _ e)
  step-IsAsked attempt left retryable e (k, h) = (suc k, retried-IsAsked attempt (suc left) k _ e h)

  last-IsAsked :
      (attempt : ℕ) (v : Verdict)
      → verdict attempt ≡ v
      → (k : ℕ) × IsAsked verdict attempt 1 k (attempted v attempt (false, [], 0))
  last-IsAsked attempt unmade e = (0, unmade-IsAsked attempt 0 _ e)
  last-IsAsked attempt sent e = (0, sent-IsAsked attempt 0 _ e)
  last-IsAsked attempt refused e = (0, refused-IsAsked attempt 0 _ e)
  last-IsAsked attempt retryable e = (0, exhausted-IsAsked attempt e)

  forward_loop-IsAsked :
      (left attempt : ℕ)
      → (k : ℕ) × IsAsked verdict attempt (suc left) k (forward_loop verdict attempt (suc left))
  unfolding forward_loop
  forward_loop-IsAsked zero attempt = last-IsAsked attempt (verdict attempt) refl
  forward_loop-IsAsked (suc left) attempt =
      step-IsAsked attempt left (verdict attempt) refl (forward_loop-IsAsked left (suc attempt))

-- With MaxRetries not negative, Forward of a notifier makes between 1 and MaxRetries + 1 attempts, each
-- but the last a request that has met an error that is retried; the last has met none such, or no more
-- may be made. The client is given one request in each attempt, but for a last one whose request could
-- not be made; and the answer is whether the last was sent.
pub forward-IsAsked :
    (verdict : Reply → Verdict) (max_retries : ℕ) (world : ℕ → Reply)
    → (k : ℕ) × IsAsked
        (λ attempt. verdict (world attempt))
        0
        (suc max_retries)
        k
        (forward verdict (pos max_retries) world)
unfolding forward
forward-IsAsked verdict max_retries world =
    forward_loop-IsAsked (λ attempt. verdict (world attempt)) max_retries 0
