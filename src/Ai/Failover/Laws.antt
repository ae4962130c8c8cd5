-- ===== src/Ai/Failover/Laws.antt =====
-- Which models Chat asks, and whose reply it returns.
use digcore.Base.{
  suc, ◌≡◌, refl, ap, ◌∙◌, Bool, true, false, String, append, Option, none, some, List, [], ◌∷◌,
  ◌++◌, ◌==◌, length, str_eq, eq_iff, arith,
}
use digcore.Ai.Retry.{Error, wrapped, Reply, answer, failure, nothing, panic, Calls}
use digcore.Ai.Failover.{
  FailoverClient, should_failover, ask, all_failed, chat_next, chat_loop, chat,
}

-- The replies behind which the next model is asked.
unfoldable pub passed_on {ℓ} : {A : Type ℓ} → Reply A → Bool
passed_on (failure e) = should_failover e
passed_on (answer a) = false
passed_on nothing = false
passed_on panic = false

abbrev pub error_of {ℓ} : {A : Type ℓ} → Reply A → Option Error
error_of (failure e) = some e
error_of r = none

module _ {ℓ ℓ'} {C : Type ℓ} {A : Type ℓ'} (calls : C → Calls A) (fc : FailoverClient C) where
  -- All models of a list give errors that are passed on.
  abbrev pub AllPassed : List String → Type 0
  AllPassed [] = Unit {0}
  AllPassed (name ∷ names) = (passed_on (ask calls fc name) ≡ true) × AllPassed names

  -- The last error behind a list of models, each with its model's name.
  unfoldable pub last_of : Option Error → List String → Option Error
  last_of last [] = last
  last_of last (name ∷ names) =
      last_of
        (elim (ask calls fc name) [
          | failure e ↦ some (wrapped (append "model " name) e)
          | _ ↦ none
        ])
        names

  chat_next_on :
      (name : String) (go_on : Error → Reply A × String × List String) (r : Reply A)
      → passed_on r ≡ true
      → (e : Error) × (r ≡ failure e)
        × (chat_next calls name go_on r
            ≡ let (q, by, asked) = go_on (wrapped (append "model " name) e) in
              (q, by, name ∷ asked))
  unfolding passed_on chat_next
  chat_next_on name go_on (failure e) h = (e, refl, rw h)
  chat_next_on name go_on (answer a) h = cc
  chat_next_on name go_on nothing h = cc
  chat_next_on name go_on panic h = cc

  chat_next_stop :
      (name : String) (go_on : Error → Reply A × String × List String) (r : Reply A)
      → passed_on r ≡ false
      → chat_next calls name go_on r ≡ (r, name, name ∷ [])
  unfolding passed_on chat_next
  chat_next_stop name go_on (failure e) h = rw h
  chat_next_stop name go_on (answer a) h = refl
  chat_next_stop name go_on nothing h = refl
  chat_next_stop name go_on panic h = refl

  chat_loop_first :
      (before after : List String) (name : String) (last : Option Error)
      → AllPassed before
      → passed_on (ask calls fc name) ≡ false
      → chat_loop calls fc last (before ++ (name ∷ after))
        ≡ (ask calls fc name, name, before ++ (name ∷ []))
  unfolding chat_loop
  chat_loop_first [] after name last p h =
      chat_next_stop name (λ e. chat_loop calls fc (some e) after) (ask calls fc name) h
  chat_loop_first (b ∷ before) after name last (p, ps) h =
      let rest = λ (e : Error). chat_loop calls fc (some e) (before ++ (name ∷ after)) in
      let (e, same, eq) = chat_next_on b rest (ask calls fc b) p in
      eq ∙ rw (chat_loop_first before after name (some (wrapped (append "model " b) e)) ps h) refl

  chat_loop_none :
      (names : List String) (last : Option Error)
      → AllPassed names
      → chat_loop calls fc last names
        ≡ (failure (all_failed calls (length fc.priority) (last_of last names)), "", names)
  unfolding chat_loop last_of
  chat_loop_none [] last p = refl
  chat_loop_none (b ∷ names) last (p, ps) =
      let rest = λ (e : Error). chat_loop calls fc (some e) names in
      let (e, same, eq) = chat_next_on b rest (ask calls fc b) p in
      eq ∙ rw (same, chat_loop_none names (some (wrapped (append "model " b) e)) ps) refl

  chat_free :
      (first : String) (names : List String)
      → fc.pinned ≡ ""
      → fc.priority ≡ first ∷ names
      → chat calls fc ≡ chat_loop calls fc none (first ∷ names)
  unfolding chat
  chat_free first names u q =
      let free : str_eq fc.pinned "" ≡ true = (eq_iff fc.pinned "").1 u in
      let nonempty : (length fc.priority == 0) ≡ false = ground (arith, ap length q) in
      rw (nonempty, free) (ap (chat_loop calls fc none) q)

  -- Without a pinned model, Chat asks the models in the order of priority: the first whose reply is not
  -- an error that is passed on gives the reply and its name, and no later model is asked.
  pub chat_lem :
      (before after : List String) (name : String)
      → fc.pinned ≡ ""
      → fc.priority ≡ before ++ (name ∷ after)
      → AllPassed before
      → passed_on (ask calls fc name) ≡ false
      → chat calls fc ≡ (ask calls fc name, name, before ++ (name ∷ []))
  chat_lem [] after name u q p h = chat_free name after u q ∙ chat_loop_first [] after name none p h
  chat_lem (b ∷ before) after name u q p h =
      chat_free b (before ++ (name ∷ after)) u q ∙ chat_loop_first (b ∷ before) after name none p h

  -- If no model is pinned and the replies of all models are errors that are passed on, Chat has asked
  -- each model once, in order, and fails with the last model's error under its name.
  pub chat_exhausted :
      (first : String) (names : List String)
      → fc.pinned ≡ ""
      → fc.priority ≡ first ∷ names
      → AllPassed (first ∷ names)
      → chat calls fc ≡ (
        failure (all_failed calls (suc (length names)) (last_of none (first ∷ names))),
        "",
        first ∷ names,
      )
  chat_exhausted first names u q p =
      let n : length fc.priority ≡ suc (length names) = ap length q in
      chat_free first names u q ∙ rw n at (chat_loop_none (first ∷ names) none p)
