-- ===== src/Config/Identity/Laws.antt =====
-- How old an identity is that AgentIP or AgentHostname gives.
use digcore.Base.{
  ℕ, ◌-◌, ◌<◌, ◌≡◌, refl, Bool, true, false, String, Option, List, [], ◌∷◌, str_eq, ltb, not, ◌&&◌,
  inl, inr, ◌⊎◌, Bool-cases, and-cases, subst, ltb→lt, All, arith,
}
use digcore.Base.Dict.{Dict}
use digcore.Config.Identity.{
  Env, Identity, ident_cache_ttl, label_text, cached_or_detected, agent_identity,
}

module _ (detect : ℕ → String) where
  -- What is cached was detected at the time that is noted, or nothing is.
  abbrev pub IsDetected : Identity → Type 0
  IsDetected i = (str_eq i.cached "" ≡ true) ⊎ (i.cached ≡ detect i.cached_at)

  -- An answer was detected less than a minute before.
  abbrev pub Recent : ℕ → String → Type 0
  Recent now answer = (t : ℕ) × (answer ≡ detect t) × (now - t < ident_cache_ttl)

  cached-Recent :
      (now : ℕ) (i : Identity)
      → ltb (now - i.cached_at) ident_cache_ttl ≡ true
      → not (str_eq i.cached "") ≡ true
      → IsDetected i
      → Recent now i.cached
  cached-Recent now i young full (inl empty) = cc
  cached-Recent now i young full (inr e) = (i.cached_at, e, ltb→lt _ _ young)

  cached_or_detected-Recent :
      (now : ℕ) (i : Identity)
      → IsDetected i
      → Recent now (cached_or_detected detect now i).0
        × IsDetected (cached_or_detected detect now i).1
        × ((cached_or_detected detect now i).1.auto_detect ≡ i.auto_detect)
  unfolding cached_or_detected
  cached_or_detected-Recent now i d =
      elim (Bool-cases (ltb (now - i.cached_at) ident_cache_ttl && not (str_eq i.cached ""))) [
        | inl e ↦
            let (young, full) =
              and-cases (ltb (now - i.cached_at) ident_cache_ttl) (not (str_eq i.cached "")) e in
            rw e (cached-Recent now i young full d, d, refl)
        | inr e ↦ rw e ((now, refl, omega arith), inr refl, refl)
      ]

not-true : (b : Bool) → not b ≡ true → b ≡ false
not-true true e = cc
not-true false e = refl

-- The answers of calls at these times, one after another.
abbrev pub answers :
    Env → (ℕ → String) → Option (Dict String) → String → List ℕ → Identity → List (ℕ × String)
answers env detect labels key [] i = []
answers env detect labels key (now ∷ times) i =
    let (answer, i') = agent_identity env detect labels key now i in
    (now, answer) ∷ answers env detect labels key times i'

module _ (env : Env) (detect : ℕ → String) (labels : Option (Dict String)) (key : String) where
  -- The answer is the label, when that is not to be detected, or it is recent.
  abbrev pub IsCurrent : Bool → ℕ → String → Type 0
  IsCurrent auto now answer =
      ((auto ≡ false) × (answer ≡ label_text env labels key)) ⊎ Recent detect now answer

  agent_identity-IsCurrent :
      (now : ℕ) (i : Identity)
      → IsDetected detect i
      → IsCurrent i.auto_detect now (agent_identity env detect labels key now i).0
        × IsDetected detect (agent_identity env detect labels key now i).1
        × ((agent_identity env detect labels key now i).1.auto_detect ≡ i.auto_detect)
  unfolding agent_identity
  agent_identity-IsCurrent now i d =
      let l = label_text env labels key in
      let (recent, detected, same) = cached_or_detected-Recent detect now i d in
      elim (Bool-cases (not i.auto_detect && not (str_eq l ""))) [
        | inl e ↦
            let (fixed, full) = and-cases (not i.auto_detect) (not (str_eq l "")) e in
            rw e (inl (not-true i.auto_detect fixed, refl), d, refl)
        | inr e ↦ rw e (inr recent, detected, same)
      ]

  -- Whenever AgentIP or AgentHostname is called, one call after another: from a cache that is empty or
  -- that holds what was detected at its time, each answer is the trimmed label, which is only so for a
  -- label that is not to be detected, or was detected less than a minute before.
  pub answers-IsCurrent :
      (times : List ℕ) (i : Identity)
      → IsDetected detect i
      → All (λ a. IsCurrent i.auto_detect a.0 a.1) (answers env detect labels key times i)
  answers-IsCurrent [] i d = tt
  answers-IsCurrent (now ∷ times) i d =
      let (current, detected, same) = agent_identity-IsCurrent now i d in
      let i' = (agent_identity env detect labels key now i).1 in
      (
        current,
        subst (λ auto. All (λ a. IsCurrent auto a.0 a.1) (answers env detect labels key times i'))
            same (answers-IsCurrent times i' detected),
      )
