-- ===== src/Ai/Retry/Laws.antt =====
-- What ChatWithRetry returns, how often it calls, and how long it waits.
use digcore.Base.{
  ℕ, zero, suc, ◌+◌, ◌-◌, ◌<◌, ◌≤◌, ◌≡◌, ◌⊎◌, inl, inr, refl, ◌∙◌, Bool, true, false, none, some,
  List, [], ◌∷◌, ltb, if◌then◌else◌, Bool-cases, arith,
}
use digcore.Base.Int.{ℤ, pos}
use digcore.Ai.Retry.{
  Error, Reply, answer, failure, nothing, panic, is_retryable, RetryConfig, Calls, Trace, called,
  waited, backoff, retry_loop, chat_with_retry,
}

-- The attempts behind which the loop goes on.
unfoldable pub retried {ℓ} : {A : Type ℓ} → Reply A → Bool
retried (failure e) = is_retryable e
retried (answer a) = false
retried nothing = false
retried panic = false

-- The waits before `n` attempts, from the attempt `i` on; there is none before the first.
unfoldable pub waits : ℕ → ℕ → ℕ → List ℤ
waits base i zero = []
waits base i (suc n) =
    if ltb 0 i then backoff base i ∷ waits base (i + 1) n else waits base (i + 1) n

Reply-cases {ℓ} :
    {A : Type ℓ} (r : Reply A)
    → retried r ≡ true
    → (e : Error) × (r ≡ failure e) × (is_retryable e ≡ true)
unfolding retried
Reply-cases (failure e) h = (e, refl, h)
Reply-cases (answer a) h = cc
Reply-cases nothing h = cc
Reply-cases panic h = cc

called_stop {ℓ} :
    {A : Type ℓ} (go_on : Error → Trace A) (r : Reply A)
    → retried r ≡ false
    → called go_on r ≡ ([], 1, r)
unfolding retried called
called_stop go_on (failure e) h = rw h
called_stop go_on (answer a) h = refl
called_stop go_on nothing h = refl
called_stop go_on panic h = refl

module _ {ℓ} {A : Type ℓ} (c : Calls A) (base : ℕ) where
  -- The attempts from `i` up to `k` are made, and those before `k` fail in a way that is retried.
  pub record Reached (i k : ℕ) : Type ℓ where
    pub retries : (j : ℕ) → i ≤ j → j < k → retried (c.chat j) ≡ true
    pub not_done : (j : ℕ) → i ≤ j → j < k → 0 < j → c.done j ≡ none

  step :
      (left i : ℕ) (last : Reply A)
      → retried (c.chat i) ≡ true
      → (0 < i → c.done i ≡ none)
      → (e : Error) × (c.chat i ≡ failure e)
        × (retry_loop c base (suc left) i last
            ≡ let rest = retry_loop c base left (i + 1) (failure e) in
              ((if ltb 0 i then backoff base i ∷ rest.0 else rest.0), suc rest.1, rest.2))
  unfolding retry_loop retried called waited
  step left i last r d =
      let (e, same, again) = Reply-cases (c.chat i) r in
      elim (Bool-cases (ltb 0 i)) [
        | inl later ↦ (e, same, rw (same, later, again, d (ground arith)))
        | inr first ↦ (e, same, rw (same, first, again))
      ]

  -- A step at an attempt where the loop ends with what Chat gives.
  stop :
      (left i : ℕ) (last : Reply A)
      → retried (c.chat i) ≡ false
      → (0 < i → c.done i ≡ none)
      → retry_loop c base (suc left) i last ≡ (waits base i 1, 1, c.chat i)
  unfolding retry_loop waited waits
  stop left i last r d = elim (Bool-cases (ltb 0 i)) [
    | inl later ↦ rw (later, d (ground arith), called_stop _ (c.chat i) r)
    | inr first ↦ rw (first, called_stop _ (c.chat i) r)
  ]

  finish :
      (left i : ℕ) (last : Reply A)
      → (0 < i → c.done i ≡ none)
      → (retried (c.chat i) ≡ false) ⊎ (left ≡ 0)
      → retry_loop c base (suc left) i last ≡ (waits base i 1, 1, c.chat i)
  unfolding retry_loop waits
  finish zero i last d e = elim (Bool-cases (retried (c.chat i))) [
    | inl again ↦ let (e', same, eq) = step 0 i last again d in eq ∙ rw same refl
    | inr settled ↦ stop 0 i last settled d
  ]
  finish (suc left) i last d e =
      stop (suc left) i last
        (elim e [ inl settled ↦ settled | inr none_left ↦ absurd (omega arith) ]) d

  later : {i k : ℕ} → Reached i k → Reached (i + 1) k
  later v = record {
    retries = λ j a b. v.retries j (omega arith) b;
    not_done = λ j a b. v.not_done j (omega arith) b;
  }

  -- One round that is retried, and then the attempts from the next one on.
  waits_step :
      (i k : ℕ)
      → i < k
      → waits base i (suc (k - i)) ≡ (
          if ltb 0 i
          then backoff base i ∷ waits base (i + 1) (suc (k - (i + 1)))
          else waits base (i + 1) (suc (k - (i + 1))))
  unfolding waits
  waits_step i k h = let e : k - i ≡ suc (k - (i + 1)) = omega arith in rw e refl

  retry_loop_lem :
      (left i k : ℕ) (last : Reply A)
      → i ≤ k
      → k < i + left
      → Reached i k
      → (0 < k → c.done k ≡ none)
      → (retried (c.chat k) ≡ false) ⊎ (suc k ≡ i + left)
      → retry_loop c base left i last ≡ (waits base i (suc (k - i)), suc (k - i), c.chat k)
  retry_loop_lem zero i k last a b v d e = absurd (omega arith)
  retry_loop_lem (suc left) i k last a b v d e = elim (Bool-cases (ltb i k)) [
    | inl before ↦
        let h : i < k = ground arith in
        let (e', same, eq) =
          step left i last (v.retries i (omega arith) h) (v.not_done i (omega arith) h) in
        let fewer : (retried (c.chat k) ≡ false) ⊎ (suc k ≡ i + 1 + left) = elim e [
          | inl x ↦ inl x
          | inr x ↦ inr (omega arith)
        ] in
        let ih =
          retry_loop_lem left (i + 1) k (failure e') (omega arith) (omega arith) (later v) d
            fewer in
        let n : k - i ≡ suc (k - (i + 1)) = omega arith in rw (eq, ih, waits_step i k h, n) refl
    | inr now ↦
        let same : k ≡ i = ground arith in
        let n : i - i ≡ 0 = omega arith in
        rw (same, n)
          (finish left i last (rw same at d)
            (elim e [ inl x ↦ inl (rw same at x) | inr x ↦ inr (omega arith) ]))
  ]

  interrupted :
      (left i : ℕ) (last : Reply A) (e : Error)
      → ltb 0 i ≡ true
      → c.done i ≡ some e
      → retry_loop c base (suc left) i last ≡ (backoff base i ∷ [], 0, failure e)
  unfolding retry_loop waited
  interrupted left i last e first end = rw (first, end) refl

  -- The context is done during the wait before the attempt `k`.
  cut_off :
      (left i k : ℕ) (last : Reply A) (e : Error)
      → i ≤ k
      → 0 < k
      → k < i + left
      → Reached i k
      → c.done k ≡ some e
      → retry_loop c base left i last ≡ (waits base i (suc (k - i)), k - i, failure e)
  unfolding waits
  cut_off zero i k last e a z b v d = absurd (omega arith)
  cut_off (suc left) i k last e a z b v d = elim (Bool-cases (ltb i k)) [
    | inl before ↦
        let h : i < k = ground arith in
        let (e', same, eq) =
          step left i last (v.retries i (omega arith) h) (v.not_done i (omega arith) h) in
        let ih = cut_off left (i + 1) k (failure e') e (omega arith) z (omega arith) (later v) d in
        let n : k - i ≡ suc (k - (i + 1)) = omega arith in rw (eq, ih, waits_step i k h, n) refl
    | inr now ↦
        let same : k ≡ i = ground arith in
        let n : i - i ≡ 0 = omega arith in
        let first : ltb 0 i ≡ true = ground arith in
        let end : c.done i ≡ some e = rw same at d in
        rw (same, n, first) (interrupted left i last e first end)
  ]

module _ {ℓ} {A : Type ℓ} (c : Calls A) (cfg : RetryConfig) (n k : ℕ) where
  -- With at most `n` retries: if the attempts before the attempt `k` fail with errors that are retried,
  -- the attempt `k` does not or is the last, and the context is not done up to then, ChatWithRetry
  -- returns what the attempt `k` gives, after `k + 1` calls and the waits before the attempts 1 to `k`.
  pub chat_with_retry_lem :
      cfg.max_retries ≡ pos n
      → k ≤ n
      → Reached c cfg.retry_backoff 0 k
      → (0 < k → c.done k ≡ none)
      → (retried (c.chat k) ≡ false) ⊎ (k ≡ n)
      → chat_with_retry c cfg ≡ (waits cfg.retry_backoff 0 (suc k), suc k, c.chat k)
  unfolding chat_with_retry
  chat_with_retry_lem m h v d e =
      let whole : k - 0 ≡ k = omega arith in
      rw m (
        rw whole at (
          retry_loop_lem c cfg.retry_backoff (suc n) 0 k nothing (omega arith) (omega arith) v d
            (elim e [ inl x ↦ inl x | inr x ↦ inr (omega arith) ])))

  -- If the attempts before the attempt `k` fail with errors that are retried, and the context is done
  -- during the wait before the attempt `k` and not before, ChatWithRetry makes no further call and
  -- returns the context's error.
  pub chat_with_retry_done :
      (e : Error)
      → cfg.max_retries ≡ pos n
      → k ≤ n
      → 0 < k
      → Reached c cfg.retry_backoff 0 k
      → c.done k ≡ some e
      → chat_with_retry c cfg ≡ (waits cfg.retry_backoff 0 (suc k), k, failure e)
  unfolding chat_with_retry
  chat_with_retry_done e m h z v d =
      let whole : k - 0 ≡ k = omega arith in
      rw m (
        rw whole at
          (cut_off c cfg.retry_backoff (suc n) 0 k nothing e (omega arith) z (omega arith) v d))
