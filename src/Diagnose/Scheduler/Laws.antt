-- ===== src/Diagnose/Scheduler/Laws.antt =====
-- The bound on diagnoses that run at once, and what Shutdown stops.
use digcore.Base.{
  ℕ, zero, suc, ◌+◌, ◌-◌, ◌≤◌, ◌<◌, ◌≡◌, refl, ap, ◌∙◌, true, String, Option, none, some, List, [],
  ◌∷◌, ◌++◌, ltb, ◌==◌, if-branch, arith, Bool-cases, inl, inr, length, length-append, ◌&&◌,
}
use digcore.Diagnose.State.{is_cooldown_active, is_daily_limit_reached}
use digcore.Diagnose.Scheduler.{
  Run, Stage, checks_cooldown, checks_limit, takes_slot, Submission, Engine, Action, submits,
  proceeds, registers, records, unregisters, leaves, tries, releases, stops, cancels, act, acts,
  start, submit, proceed, moved, submission_at, advanced, advance, try_sem, release_sem,
  register_in_flight, unregister_in_flight, record_usage, without, runs_with, leave, stop,
  cancel_in_flight,
}

-- Every token in the semaphore is held by one running diagnosis or one session, and there are at most
-- as many as slots.
pub record IsValid (e : Engine) : Type 0 where
  pub counted : e.held ≡ length e.runs + e.sessions
  pub bounded : e.held ≤ e.slots

length-without :
    (id : ℕ) (rs : List Run) → runs_with id rs ≡ true → suc (length (without id rs)) ≡ length rs
unfolding runs_with without
length-without id [] h = cc
length-without id (r ∷ rs) h = elim (Bool-cases (r.id == id)) [
  | inl this ↦ rw this refl
  | inr other ↦
      let later : runs_with id rs ≡ true = rw other at h in
      rw other (ap suc (length-without id rs later))
]

start-IsValid : (e : Engine) (r : Run) → IsValid e → IsValid (start e r)
unfolding start
start-IsValid e r v = record {
  counted = ground (arith, v.counted, length-append e.runs (r ∷ []));
  bounded = ground (arith, v.bounded);
}

-- The parts of an engine that count its slots.
abbrev pub SameSlots : Engine → Engine → Type 0
SameSlots e e' = (e'.slots ≡ e.slots) × (e'.sessions ≡ e.sessions)

start-SameSlots : (e : Engine) (r : Run) → SameSlots e (start e r)
unfolding start
start-SameSlots e r = (ground arith, ground arith)

proceed-IsValid :
    (now : ℕ) (today : String) (stage : Stage) (r : Run) (e : Engine)
    → IsValid e
    → IsValid (proceed now today stage r e).0 × SameSlots e (proceed now today stage r e).0
unfolding proceed
proceed-IsValid now today checks_cooldown r e v =
    (record { counted = v.counted; bounded = v.bounded }, (refl, refl))
proceed-IsValid now today checks_limit r e v =
    (record { counted = v.counted; bounded = v.bounded }, (refl, refl))
proceed-IsValid now today takes_slot r e v = (start-IsValid e r v, start-SameSlots e r)

pub advanced-IsValid :
    (now : ℕ) (today : String) (i : ℕ) (s : Option Submission) (e : Engine)
    → IsValid e
    → IsValid (advanced now today i s e) × SameSlots e (advanced now today i s e)
unfolding advanced
advanced-IsValid now today i none e v = (v, (refl, refl))
advanced-IsValid now today i (some s) e v =
    let (v', same) = proceed-IsValid now today s.stage s.run e v in
    (record { counted = v'.counted; bounded = v'.bounded }, same)

-- ReleaseSem is called by a session that holds a token.
abbrev pub Allowed : Engine → Action → Type 0
Allowed e releases = 0 < e.sessions
Allowed e (submits r) = Unit
Allowed e (proceeds now today i) = Unit
Allowed e (registers r) = Unit
Allowed e (records now today r input output) = Unit
Allowed e (unregisters r) = Unit
Allowed e (leaves id) = Unit
Allowed e tries = Unit
Allowed e stops = Unit
Allowed e cancels = Unit

-- Every action keeps the invariant and the number of slots.
pub act-IsValid :
    (e : Engine) (a : Action)
    → Allowed e a
    → IsValid e
    → IsValid (act e a) × ((act e a).slots ≡ e.slots)
unfolding act submit advance register_in_flight unregister_in_flight record_usage leave try_sem
    release_sem stop cancel_in_flight
act-IsValid e (submits r) ok v = (
  if-branch IsValid e.stopped v (record { counted = v.counted; bounded = v.bounded }),
  ground arith,
)
act-IsValid e (proceeds now today i) ok v =
    let (v', (same, _)) = advanced-IsValid now today i (submission_at i e.submissions) e v in
    (v', same)
act-IsValid e (registers r) ok v = (record { counted = v.counted; bounded = v.bounded }, refl)
act-IsValid e (unregisters r) ok v = (record { counted = v.counted; bounded = v.bounded }, refl)
act-IsValid e (records now today r input output) ok v =
    (record { counted = v.counted; bounded = v.bounded }, refl)
act-IsValid e (leaves id) ok v = elim (Bool-cases (runs_with id e.runs)) [
  | inl running ↦
      let shorter = length-without id e.runs running in
      let some_held : ltb 0 e.held ≡ true = ground (arith, v.counted, shorter) in
      rw (running, some_held)
        (
          record {
            counted = omega (arith, v.counted, shorter);
            bounded = omega (arith, v.bounded);
          },
          refl,
        )
  | inr gone ↦ rw gone (v, refl)
]
act-IsValid e tries ok v = (
  record { counted = ground (arith, v.counted); bounded = ground (arith, v.bounded) },
  ground arith,
)
act-IsValid e releases ok v =
    let some_held : ltb 0 e.held ≡ true = ground (arith, v.counted) in
    rw some_held
      (record { counted = omega (arith, v.counted); bounded = omega (arith, v.bounded) }, refl)
act-IsValid e stops ok v = (record { counted = v.counted; bounded = v.bounded }, refl)
act-IsValid e cancels ok v = (record { counted = v.counted; bounded = v.bounded }, refl)

abbrev pub AllAllowed : Engine → List Action → Type 0
AllAllowed e [] = Unit
AllAllowed e (a ∷ rest) = Allowed e a × AllAllowed (act e a) rest

-- Whatever steps the goroutines and callers take, in whatever order, where each call of ReleaseSem is
-- made while a token that TrySem took is not released: from a valid engine, the number of tokens held
-- stays that of the running diagnoses and of the tokens that TrySem took, and never exceeds the slots,
-- whose number stays the same.
pub acts-IsValid :
    (e : Engine) (actions : List Action)
    → AllAllowed e actions
    → IsValid e
    → IsValid (acts e actions) × ((acts e actions).slots ≡ e.slots)
unfolding acts
acts-IsValid e [] ok v = (v, refl)
acts-IsValid e (a ∷ rest) (this, ok) v =
    let (w, same) = act-IsValid e a this v in
    let (x, still) = acts-IsValid (act e a) rest ok w in (x, still ∙ same)

-- The runs, and the submissions that may become one.
abbrev pub begun : Engine → ℕ
begun e = length e.runs + length e.submissions

-- A submission that goes on counts.
abbrev kept : Option Stage → ℕ
kept none = 0
kept (some stage) = 1

length-moved :
    (i : ℕ) (next : Option Stage) (ss : List Submission) (s : Submission)
    → submission_at i ss ≡ some s
    → suc (length (moved i next ss)) ≡ length ss + kept next
unfolding moved submission_at
length-moved i next [] s e = cc
length-moved zero none (x ∷ ss) s e = omega arith
length-moved zero (some stage) (x ∷ ss) s e = omega arith
length-moved (suc i) next (x ∷ ss) s e = omega (arith, length-moved i next ss s e)

-- A step of Submit ends it or starts no run, or both.
proceed-kept :
    (now : ℕ) (today : String) (stage : Stage) (r : Run) (e : Engine)
    → let (e', next) = proceed now today stage r e in
      (e'.stopped ≡ e.stopped)
      × (e'.submissions ≡ e.submissions)
      × (length e'.runs + kept next ≤ suc (length e.runs))
unfolding proceed
proceed-kept now today checks_cooldown r e = (
  refl,
  refl,
  if-branch (λ o. length e.runs + kept o ≤ suc (length e.runs))
      (is_cooldown_active now e.state r.plugin r.target).1 (omega arith) (omega arith),
)
proceed-kept now today checks_limit r e = (
  refl,
  refl,
  if-branch (λ o. length e.runs + kept o ≤ suc (length e.runs))
      (is_daily_limit_reached today e.state e.daily_token_limit).1 (omega arith) (omega arith),
)
proceed-kept now today takes_slot r e =
    if-branch
      (λ e'.
        (e'.stopped ≡ e.stopped)
        × (e'.submissions ≡ e.submissions)
        × (length e'.runs + 0 ≤ suc (length e.runs)))
      (ltb e.held e.slots) {x = record e { held = suc e.held; runs = e.runs ++ (r ∷ []) }} {y = e}
      (refl, refl, omega (arith, length-append e.runs (r ∷ []))) (refl, refl, omega arith)

abbrev Stays : Engine → Engine → Type 0
Stays e e' = (e'.stopped ≡ true) × (begun e' ≤ begun e)

advanced-Stays :
    (now : ℕ) (today : String) (i : ℕ) (s : Option Submission) (e : Engine)
    → submission_at i e.submissions ≡ s
    → e.stopped ≡ true
    → Stays e (advanced now today i s e)
unfolding advanced
advanced-Stays now today i none e at h = (h, omega arith)
advanced-Stays now today i (some s) e at h =
    let (e', next) = proceed now today s.stage s.run e in
    let (same, waiting, few) = proceed-kept now today s.stage s.run e in
    let shorter = length-moved i next e.submissions s at in
    let those : length (moved i next e'.submissions) ≡ length (moved i next e.submissions) =
      ap (λ ss. length (moved i next ss)) waiting in
    (same ∙ h, omega (arith, few, shorter, those))

-- Once the engine is stopped, it stays stopped, and no step adds to the runs and the submissions.
act-Stays : (e : Engine) (a : Action) → e.stopped ≡ true → Stays e (act e a)
unfolding act submit advance register_in_flight unregister_in_flight record_usage leave try_sem
    release_sem stop cancel_in_flight
act-Stays e (submits r) h = (ground arith, ground arith)
act-Stays e (proceeds now today i) h =
    advanced-Stays now today i (submission_at i e.submissions) e refl h
act-Stays e (registers r) h = (h, omega arith)
act-Stays e (unregisters r) h = (h, omega arith)
act-Stays e (records now today r input output) h = (h, omega arith)
act-Stays e (leaves id) h = elim (Bool-cases (runs_with id e.runs)) [
  | inl running ↦
      if-branch (Stays e) (runs_with id e.runs && ltb 0 e.held)
        {x = record e { held = e.held - 1; runs = without id e.runs }} {y = e}
        (h, omega (arith, length-without id e.runs running)) (h, omega arith)
  | inr gone ↦ rw gone (h, omega arith)
]
act-Stays e tries h = (ground arith, ground arith)
act-Stays e releases h = (ground arith, ground arith)
act-Stays e stops h = (refl, omega arith)
act-Stays e cancels h = (h, omega arith)

-- Once Shutdown has stored `stopped`, whatever steps follow, those of calls of Submit under way
-- included, the engine stays stopped, and the diagnoses that run are at most those that ran then and one
-- for each call of Submit that had found the engine not stopped.
pub acts-stop :
    (e : Engine) (actions : List Action)
    → let e' = acts (stop e) actions in (e'.stopped ≡ true) × (length e'.runs ≤ begun e)
unfolding stop acts
acts-stop e actions = let (h, n) = stays (stop e) actions refl in (h, omega arith)
  where
    stays : (e : Engine) (actions : List Action) → e.stopped ≡ true → Stays e (acts e actions)
    stays e [] h = (h, omega arith)
    stays e (a ∷ rest) h =
        let (h', n) = act-Stays e a h in
        let (h'', m) = stays (act e a) rest h' in (h'', omega arith)
