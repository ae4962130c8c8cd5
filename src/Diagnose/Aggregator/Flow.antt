-- ===== src/Diagnose/Aggregator/Flow.antt =====
-- The events that pass through the aggregator's windows to the engine.
use digcore.Base.{
  ◌≡◌, refl, sym, ap, ◌∙◌, Bool, ◌&&◌, String, Option, none, some, List, [], ◌∷◌, ◌++◌,
  append_assoc, append-nil, str_eq, eq_iff, is_some, arith, if◌then◌else◌, Bool-cases, Option-cases,
  inl, inr,
}
use digcore.Base.Dict
use digcore.Base.Dict.{Dict}
use digcore.Types.Event.{Event}
use digcore.Diagnose.Aggregator.{
  CheckSnapshot, DiagnoseRequest, DiagnoseConfig, Aggregator, target_of, key_of, takes, submit,
  handed, fire, shutdown_loop, shutdown,
}
use digcore.Diagnose.Aggregator.Laws.{
  request_key, IsValid, events_of, waiting, waiting-enter, submit-IsValid, fire-IsValid,
}

-- A step is a call of Submit, or a timer that fires, be it one that was stopped too late.
pub data Step {ℓ} (R : Type ℓ) : Type ℓ where
  submits : Bool → Event → CheckSnapshot → String → R → DiagnoseConfig → Step R
  fires : String → Step R

module _ {ℓ} {R : Type ℓ} where
  -- The events given to the engine for a key, in order.
  unfoldable pub delivered : String → List (DiagnoseRequest R) → List Event
  delivered k [] = []
  delivered k (req ∷ reqs) =
      if str_eq (request_key req) k then req.events ++ delivered k reqs else delivered k reqs

  delivered_end :
      (k : String) (reqs : List (DiagnoseRequest R)) (req : DiagnoseRequest R)
      → delivered k (reqs ++ (req ∷ []))
        ≡ delivered k reqs ++ (if str_eq (request_key req) k then req.events else [])
  unfolding delivered
  delivered_end k [] req = elim (Bool-cases (str_eq (request_key req) k)) [
    | inl same ↦ rw same (append-nil req.events)
    | inr differ ↦ rw differ refl
  ]
  delivered_end k (r ∷ reqs) req = elim (Bool-cases (str_eq (request_key r) k)) [
    | inl same ↦
        rw (same, delivered_end k reqs req) (sym (append_assoc r.events (delivered k reqs) _))
    | inr differ ↦ rw differ (delivered_end k reqs req)
  ]

  -- The events of a key that were given to the engine or wait for it, in order.
  abbrev pub collected : Aggregator R → String → List Event
  collected a k = delivered k a.submitted ++ waiting a k

  waiting-fire :
      (a : Aggregator R) (key k : String)
      → waiting (fire a key) k ≡ (if str_eq key k then [] else waiting a k)
  unfolding fire waiting
  waiting-fire a key k = elim (Bool-cases (str_eq key k)) [
    | inl this ↦ rw this (ap events_of (rw this at (Dict.get-del a.pending key k)))
    | inr other ↦ rw other (ap events_of (rw other at (Dict.get-del a.pending key k)))
  ]

  delivered-handed :
      (reqs : List (DiagnoseRequest R)) (o : Option (DiagnoseRequest R)) (key k : String)
      → ((req : DiagnoseRequest R) → o ≡ some req → request_key req ≡ key)
      → delivered k (handed reqs o) ≡ delivered k reqs ++ (if str_eq key k then events_of o else [])
  unfolding handed
  delivered-handed reqs none key k h = elim (Bool-cases (str_eq key k)) [
    | inl this ↦ rw this (sym (append-nil (delivered k reqs)))
    | inr other ↦ rw other (sym (append-nil (delivered k reqs)))
  ]
  delivered-handed reqs (some req) key k h =
      delivered_end k reqs req
      ∙ ap (λ j. delivered k reqs ++ (if str_eq j k then req.events else [])) (h req refl)

  delivered-fire :
      (a : Aggregator R) (key k : String)
      → IsValid a
      → delivered k (fire a key).submitted
        ≡ delivered k a.submitted ++ (if str_eq key k then waiting a k else [])
  unfolding fire waiting
  delivered-fire a key k v =
      delivered-handed a.submitted (Dict.get a.pending key) key k (v.keyed key) ∙ same
    where
      same :
          delivered k a.submitted
            ++ (if str_eq key k then events_of (Dict.get a.pending key) else [])
          ≡ delivered k a.submitted ++ (if str_eq key k then waiting a k else [])
      same = elim (Bool-cases (str_eq key k)) [
        | inl this ↦ rw this (
            ap (λ j. delivered k a.submitted ++ events_of (Dict.get a.pending j))
              ((eq_iff key k).0 this))
        | inr other ↦ rw other refl
      ]

  collected-fire :
      (a : Aggregator R) (key k : String) → IsValid a → collected (fire a key) k ≡ collected a k
  collected-fire a key k v =
      ap (λ q. q ++ waiting (fire a key) k) (delivered-fire a key k v)
      ∙ ap (λ q. (delivered k a.submitted ++ (if str_eq key k then waiting a k else [])) ++ q)
          (waiting-fire a key k)
      ∙ elim (Bool-cases (str_eq key k)) [
        | inl this ↦ rw this (append-nil (delivered k a.submitted ++ waiting a k))
        | inr other ↦ rw other (ap (λ q. q ++ waiting a k) (append-nil (delivered k a.submitted)))
      ]

  unfoldable pub run : Aggregator R → List (Step R) → Aggregator R
  run a [] = a
  run a (submits ai event snapshot plugin ref cfg ∷ steps) =
      run (submit ai a event snapshot plugin ref cfg) steps
  run a (fires key ∷ steps) = run (fire a key) steps

  -- The events that Submit takes for a key.
  unfoldable pub taken : String → List (Step R) → List Event
  taken k [] = []
  taken k (submits ai event snapshot plugin ref cfg ∷ steps) =
      if takes ai event cfg && str_eq (key_of plugin (target_of event plugin)) k
      then event ∷ taken k steps
      else taken k steps
  taken k (fires key ∷ steps) = taken k steps

  collected-submit :
      (ai : Bool) (a : Aggregator R) (event : Event) (snapshot : CheckSnapshot) (plugin : String)
      (ref : R) (cfg : DiagnoseConfig) (k : String)
      → collected (submit ai a event snapshot plugin ref cfg) k
        ≡ collected a k
          ++ (if takes ai event cfg && str_eq (key_of plugin (target_of event plugin)) k
              then event ∷ []
              else [])
  unfolding submit
  collected-submit ai a event snapshot plugin ref cfg k = elim (Bool-cases (takes ai event cfg)) [
    | inr refused ↦ rw refused (sym (append-nil (collected a k)))
    | inl takes_it ↦ rw takes_it (
        ap (λ q. delivered k a.submitted ++ q) (waiting-enter a event snapshot plugin ref cfg k)
        ∙ sym (append_assoc (delivered k a.submitted) (waiting a k) _))
  ]

  -- From a valid state, whatever Submits and timers follow each other: for every key, the events given
  -- to the engine and then those that wait are the ones of before and then exactly the events that
  -- Submit took for the key, in their order; and the state stays valid.
  pub collected-run :
      (a : Aggregator R) (steps : List (Step R)) (k : String)
      → IsValid a
      → (collected (run a steps) k ≡ collected a k ++ taken k steps) × IsValid (run a steps)
  unfolding run taken
  collected-run a [] k v = (sym (append-nil (collected a k)), v)
  collected-run a (fires key ∷ steps) k v =
      let (c, w) = collected-run (fire a key) steps k (fire-IsValid a key v) in
      (c ∙ ap (λ q. q ++ taken k steps) (collected-fire a key k v), w)
  collected-run a (submits ai event snapshot plugin ref cfg ∷ steps) k v =
      let next = submit ai a event snapshot plugin ref cfg in
      let (c, w) =
        collected-run next steps k (submit-IsValid ai a event snapshot plugin ref cfg v) in
      (
        c
            ∙ ap (λ q. q ++ taken k steps) (collected-submit ai a event snapshot plugin ref cfg k)
            ∙ append_assoc (collected a k) _ (taken k steps)
            ∙ ap (◌++◌ (collected a k))
                (elim (Bool-cases
                  (takes ai event cfg && str_eq (key_of plugin (target_of event plugin)) k)) [
                    | inl mine ↦ rw mine refl
                    | inr other ↦ rw other refl
                  ]),
        w,
      )

  get-shutdown_loop :
      (pending : Dict (DiagnoseRequest R)) (timers : Dict Bool) (k : String)
      → Dict.get (shutdown_loop pending timers) k
        ≡ (if is_some (Dict.get timers k) then none else Dict.get pending k)
  unfolding shutdown_loop Dict.get
  get-shutdown_loop pending [] k = refl
  get-shutdown_loop pending ((key, t) ∷ timers) k =
      get-shutdown_loop (Dict.del pending key) timers k ∙ ground (arith, Dict.get-del pending key k)

  -- Behind Shutdown, from a valid state, no event waits for any key, and no timer, not even one that
  -- was stopped too late, gives the engine a request.
  pub shutdown_lem :
      (a : Aggregator R) (key k : String)
      → IsValid a
      → (waiting (shutdown a) k ≡ [])
        × ((shutdown a).submitted ≡ a.submitted)
        × ((fire (shutdown a) key).submitted ≡ a.submitted)
  unfolding shutdown waiting fire handed
  shutdown_lem a key k v = (ap events_of (gone k), refl, ap (handed a.submitted) (gone key))
    where
      gone : (j : String) → Dict.get (shutdown_loop a.pending a.timers) j ≡ none
      gone j =
          get-shutdown_loop a.pending a.timers j
          ∙ rw (v.timed j) (elim (Option-cases (Dict.get a.pending j)) [
            | inl absent ↦ rw absent refl
            | inr found ↦ rw found.1 refl
          ])
