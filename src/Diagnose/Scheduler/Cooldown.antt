-- ===== src/Diagnose/Scheduler/Cooldown.antt =====
-- What a cooldown keeps from starting, while calls of Submit and runs take their steps.
use digcore.Base.{
  ℕ, zero, suc, ◌+◌, ◌≤◌, ◌<◌, ◌≡◌, refl, sym, ap, subst, ◌∙◌, Bool, true, false, String, Option,
  none, some, List, [], ◌∷◌, ◌++◌, All, All-append, leb, ltb, str_eq, eq_iff, if◌then◌else◌,
  if-branch, arith, Bool-cases, inl, inr, ◌&&◌, lt→leb_false,
}
use digcore.Base.Dict
use digcore.Base.Dict.{Dict}
use digcore.Diagnose.State.{
  DiagnoseState, cooldown_key, add_tokens, update_cooldown, is_cooldown_active,
  is_daily_limit_reached, reset_if_new_day, total_tokens, unix,
}
use digcore.Diagnose.Scheduler.{
  Run, Stage, checks_cooldown, checks_limit, takes_slot, Submission, Engine, Action, submits,
  proceeds, registers, records, unregisters, leaves, tries, releases, stops, cancels, act, acts,
  start, submit, proceed, moved, submission_at, advanced, advance, try_sem, release_sem,
  register_in_flight, unregister_in_flight, record_usage, without, runs_with, leave, stop,
  cancel_in_flight,
}

-- Whether a run is of a target, known by the key of its cooldown.
abbrev pub is_of : String → Run → Bool
is_of key r = str_eq (cooldown_key r.plugin r.target) key

-- The number of runs of a target.
abbrev pub count_of : String → List Run → ℕ
count_of key [] = 0
count_of key (r ∷ rs) = if is_of key r then suc (count_of key rs) else count_of key rs

-- No call of Submit for the target has passed the check of the cooldown.
abbrev pub Waits : String → Submission → Type 0
Waits key s = is_of key s.run ≡ true → s.stage ≡ checks_cooldown

-- The step comes before the second `x`, if it is one of Submit's; and if a run of the target ends with
-- it, its cooldown lasts until `x` at least.
abbrev pub Timely : ℕ → String → Action → Type 0
Timely x key (proceeds now today i) = unix now < x
Timely x key (records now today r input output) =
    r.inspect ≡ false → is_of key r ≡ true → x ≤ unix (now + r.cooldown)
Timely x key (submits r) = Unit
Timely x key (registers r) = Unit
Timely x key (unregisters r) = Unit
Timely x key (leaves id) = Unit
Timely x key tries = Unit
Timely x key releases = Unit
Timely x key stops = Unit
Timely x key cancels = Unit

module _ (x : ℕ) (key : String) where
  -- The cooldown of the target is recorded until `x` at least.
  abbrev Cooled : DiagnoseState → Type 0
  Cooled s = (v : ℕ) × (Dict.get s.cooldowns key ≡ some v) × (x ≤ v)

  is_cooldown_active-Cooled :
      (now : ℕ) (s : DiagnoseState) (plugin target : String)
      → unix now < x
      → Cooled s
      → Cooled (is_cooldown_active now s plugin target).0
        × (str_eq (cooldown_key plugin target) key ≡ true
            → (is_cooldown_active now s plugin target).1 ≡ true)
  unfolding is_cooldown_active
  is_cooldown_active-Cooled now s plugin target h (v, e, le) =
      let k = cooldown_key plugin target in
      let late : leb v (unix now) ≡ false = lt→leb_false v (unix now) (omega arith) in
      (
        (v, ground (arith, e, late, Dict.get-del s.cooldowns k key, eq_iff k key), le),
        λ same. ground (arith, e, late, same, eq_iff k key),
      )

  add_tokens-Cooled :
      (today : String) (s : DiagnoseState) (input output : ℕ)
      → Cooled s
      → Cooled (add_tokens today s input output)
  unfolding add_tokens reset_if_new_day
  add_tokens-Cooled today s input output (v, e, le) = (v, ground (arith, e), le)

  is_daily_limit_reached-Cooled :
      (today : String) (e : Engine)
      → Cooled e.state
      → Cooled (is_daily_limit_reached today e.state e.daily_token_limit).0
  unfolding is_daily_limit_reached total_tokens reset_if_new_day
  is_daily_limit_reached-Cooled today e (v, g, le) = (v, ground (arith, g), le)

  update_cooldown-Cooled :
      (now : ℕ) (s : DiagnoseState) (plugin target : String) (duration : ℕ)
      → (str_eq (cooldown_key plugin target) key ≡ true → x ≤ unix (now + duration))
      → Cooled s
      → Cooled (update_cooldown now s plugin target duration)
  unfolding update_cooldown
  update_cooldown-Cooled now s plugin target duration h (v, e, le) =
      let k = cooldown_key plugin target in
      let get = Dict.get-put s.cooldowns k (unix (now + duration)) key in
      elim (Bool-cases (str_eq k key)) [
        | inl this ↦ (unix (now + duration), rw this at get, h this)
        | inr other ↦ (v, (rw other at get) ∙ e, le)
      ]

  count-append :
      (rs : List Run) (r : Run)
      → is_of key r ≡ false
      → count_of key (rs ++ (r ∷ [])) ≡ count_of key rs
  count-append [] r h = rw h refl
  count-append (q ∷ rs) r h = ap (λ n. if is_of key q then suc n else n) (count-append rs r h)

  count-without : (id : ℕ) (rs : List Run) → count_of key (without id rs) ≤ count_of key rs
  unfolding without
  count-without id [] = omega arith
  count-without id (r ∷ rs) = ground (arith, count-without id rs)

  -- A step of Submit leaves the target's cooldown and its runs, and for the target itself it ends.
  proceed-Cooled :
      (now : ℕ) (today : String) (stage : Stage) (r : Run) (e : Engine)
      → unix now < x
      → Cooled e.state
      → (is_of key r ≡ true → stage ≡ checks_cooldown)
      → let (e', next) = proceed now today stage r e in
        Cooled e'.state
        × (count_of key e'.runs ≡ count_of key e.runs)
        × (e'.submissions ≡ e.submissions)
        × (is_of key r ≡ true → next ≡ none)
  unfolding proceed start
  proceed-Cooled now today checks_cooldown r e h c w =
      let (c', active) = is_cooldown_active-Cooled now e.state r.plugin r.target h c in
      (c', refl, refl, λ k. ap (λ b. if b then none else some checks_limit) (active k))
  proceed-Cooled now today checks_limit r e h c w =
      (is_daily_limit_reached-Cooled today e c, refl, refl, λ k. cc (w k))
  proceed-Cooled now today takes_slot r e h c w = elim (Bool-cases (is_of key r)) [
    | inl this ↦ cc (w this)
    | inr other ↦
        if-branch
          (λ e'.
            Cooled e'.state
            × (count_of key e'.runs ≡ count_of key e.runs)
            × (e'.submissions ≡ e.submissions)
            × (is_of key r ≡ true → ◌≡◌ {A = Option Stage} none none))
          (ltb e.held e.slots) {x = record e { held = suc e.held; runs = e.runs ++ (r ∷ []) }}
          {y = e} (c, count-append e.runs r other, refl, λ k. refl) (c, refl, refl, λ k. refl)
  ]

  moved-Waits :
      (i : ℕ) (next : Option Stage) (ss : List Submission) (s : Submission)
      → submission_at i ss ≡ some s
      → (is_of key s.run ≡ true → next ≡ none)
      → All (Waits key) ss
      → All (Waits key) (moved i next ss)
  unfolding moved submission_at
  moved-Waits i next [] s e h a = tt
  moved-Waits zero none (y ∷ ss) s e h (w, a) = a
  moved-Waits zero (some stage) (y ∷ ss) s e h (w, a) =
      (λ k. cc (h (subst (λ z. is_of key z.run ≡ true) (same e) k)), a)
    where
      same : some y ≡ some s → y ≡ s
      same p = cc
  moved-Waits (suc i) next (y ∷ ss) s e h (w, a) = (w, moved-Waits i next ss s e h a)

  at-Waits :
      (i : ℕ) (ss : List Submission) (s : Submission)
      → submission_at i ss ≡ some s
      → All (Waits key) ss
      → Waits key s
  unfolding submission_at
  at-Waits i [] s e a = cc
  at-Waits zero (y ∷ ss) s e (w, a) = subst (Waits key) (same e) w
    where
      same : some y ≡ some s → y ≡ s
      same p = cc
  at-Waits (suc i) (y ∷ ss) s e (w, a) = at-Waits i ss s e a

  -- The cooldown is recorded, no call of Submit has passed it, and at most `n` runs are of the target.
  abbrev Blocks : ℕ → Engine → Type 0
  Blocks n e = Cooled e.state × All (Waits key) e.submissions × (count_of key e.runs ≤ n)

  advanced-Blocks :
      (n now : ℕ) (today : String) (i : ℕ) (s : Option Submission) (e : Engine)
      → submission_at i e.submissions ≡ s
      → unix now < x
      → Blocks n e
      → Blocks n (advanced now today i s e)
  unfolding advanced
  advanced-Blocks n now today i none e at h b = b
  advanced-Blocks n now today i (some s) e at h (c, a, m) =
      let (e', next) = proceed now today s.stage s.run e in
      let (c', runs, waiting, ends) =
        proceed-Cooled now today s.stage s.run e h c (at-Waits i e.submissions s at a) in
      (
        c',
        subst (λ ss. All (Waits key) (moved i next ss)) (sym waiting)
            (moved-Waits i next e.submissions s at ends a),
        omega (arith, runs),
      )

  act-Blocks : (n : ℕ) (e : Engine) (a : Action) → Timely x key a → Blocks n e → Blocks n (act e a)
  unfolding act submit advance register_in_flight unregister_in_flight record_usage leave try_sem
      release_sem stop cancel_in_flight
  act-Blocks n e (submits r) t (c, w, m) =
      if-branch (Blocks n) e.stopped {x = e} (c, w, m)
        (c, All-append (Waits key) e.submissions _ w ((λ k. refl), tt), m)
  act-Blocks n e (proceeds now today i) t b =
      advanced-Blocks n now today i (submission_at i e.submissions) e refl t b
  act-Blocks n e (registers r) t b = b
  act-Blocks n e (unregisters r) t b = b
  act-Blocks n e (records now today r input output) t (c, w, m) =
      let s = add_tokens today e.state input output in
      let d = add_tokens-Cooled today e.state input output c in
      (
        elim (Bool-cases r.inspect) [
          | inl cli ↦ rw cli d
          | inr alert ↦
              rw alert (update_cooldown-Cooled now s r.plugin r.target r.cooldown (t alert) d)
        ],
        w,
        m,
      )
  act-Blocks n e (leaves id) t (c, w, m) =
      if-branch (Blocks n) (runs_with id e.runs && ltb 0 e.held) {y = e}
        (c, w, omega (arith, count-without id e.runs)) (c, w, m)
  act-Blocks n e tries t b =
      if-branch {A = Engine × Bool} (λ r. Blocks n r.0) (ltb e.held e.slots) {y = (e, false)} b b
  act-Blocks n e releases t b = if-branch (Blocks n) (ltb 0 e.held) {y = e} b b
  act-Blocks n e stops t b = b
  act-Blocks n e cancels t b = b

  acts-Blocks :
      (n : ℕ) (e : Engine) (actions : List Action)
      → All (Timely x key) actions
      → Blocks n e
      → Blocks n (acts e actions)
  unfolding acts
  acts-Blocks n e [] t b = b
  acts-Blocks n e (a ∷ rest) (this, t) b = acts-Blocks n (act e a) rest t (act-Blocks n e a this b)

-- From the end of a diagnosis of an alert on, while no call of Submit for its target has passed the
-- check of the cooldown yet: whatever steps follow, those of Submit before the cooldown is over, and
-- with no run of the target whose end makes the cooldown shorter, the target never has more runs.
pub acts-record_usage :
    (now : ℕ) (today : String) (e : Engine) (r : Run) (input output : ℕ) (actions : List Action)
    → r.inspect ≡ false
    → let key = cooldown_key r.plugin r.target in
      All (Waits key) e.submissions
      → All (Timely (unix (now + r.cooldown)) key) actions
      → count_of key (acts (record_usage now today e r input output) actions).runs
        ≤ count_of key e.runs
unfolding record_usage update_cooldown
acts-record_usage now today e r input output actions alert w t =
    let key = cooldown_key r.plugin r.target in
    let x = unix (now + r.cooldown) in
    let s = add_tokens today e.state input output in
    let mine : str_eq key key ≡ true = (eq_iff key key).1 refl in
    let get = Dict.get-put s.cooldowns key x key in
    let cooled : Cooled x key (record_usage now today e r input output).state =
      rw alert (x, rw mine at get, omega arith) in
    (acts-Blocks x key (count_of key e.runs) (record_usage now today e r input output) actions t
      (cooled, w, omega arith)).2
