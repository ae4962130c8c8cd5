-- ===== src/Diagnose/Scheduler.antt =====
-- diagnose/engine.go: which diagnoses are started, how many run at once, and how they are stopped. A run
-- is a goroutine of RunDiagnose; it takes its steps one by one, between those of other runs. Submit and
-- Shutdown hold no mutex from one end to the other, so they take steps, too.
pub mod Laws
pub mod Cooldown
use digcore.Base.{
  ℕ, zero, suc, ◌+◌, ◌-◌, Bool, true, false, String, append, Option, none, some, List, [], ◌∷◌,
  ◌++◌, ltb, ◌==◌, ◌&&◌, if◌then◌else◌, is_some, map, not,
}
use digcore.Base.Dict
use digcore.Base.Dict.{Dict}
use digcore.Base.Int.{ℤ}
use digcore.Diagnose.State.{
  DiagnoseState, add_tokens, update_cooldown, is_cooldown_active, is_daily_limit_reached,
}

-- A running diagnosis, with the parts of its request that the engine reads.
pub record Run : Type 0 where
  pub id : ℕ
  pub plugin : String
  pub target : String
  pub inspect : Bool  -- Mode == ModeInspect
  pub cooldown : ℕ

abbrev pub run_key : Run → String
run_key r = append r.plugin (append "::" r.target)

-- What a call of Submit is about to do.
pub data Stage : Type 0 where
  checks_cooldown : Stage
  checks_limit : Stage
  takes_slot : Stage

-- A call of Submit that has found the engine not stopped.
pub record Submission : Type 0 where
  pub run : Run
  pub stage : Stage

-- DiagnoseEngine. `held` counts the tokens in the channel `sem` of capacity `slots`; `runs` are the
-- goroutines started, `submissions` the calls of Submit under way, and `sessions` counts the calls of
-- TrySem that took a token less those of ReleaseSem. A cancel function is known by its run's id, and
-- `cancelled` lists those that were called.
pub record Engine : Type 0 where
  pub stopped : Bool
  pub state : DiagnoseState
  pub daily_token_limit : ℤ
  pub slots : ℕ
  pub held : ℕ
  pub in_flight : Dict ℕ
  pub submissions : List Submission
  pub runs : List Run
  pub sessions : ℕ
  pub cancelled : List ℕ

-- TrySem
unfoldable pub try_sem : Engine → Engine × Bool
try_sem e =
    if ltb e.held e.slots
    then (record e { held = suc e.held; sessions = suc e.sessions }, true)
    else (e, false)

-- ReleaseSem: it takes a token from the channel, whoever put it there; it blocks while there is none.
unfoldable pub release_sem : Engine → Engine
release_sem e =
    if ltb 0 e.held then record e { held = e.held - 1; sessions = e.sessions - 1 } else e

-- The select statement of Submit.
unfoldable pub start : Engine → Run → Engine
start e r =
    if ltb e.held e.slots then record e { held = suc e.held; runs = e.runs ++ (r ∷ []) } else e

-- The look of Submit at `stopped`.
unfoldable pub submit : Engine → Run → Engine
submit e r = if e.stopped then e else record e {
  submissions = e.submissions ++ (record { run = r; stage = checks_cooldown } ∷ []);
}

-- A step of Submit behind it, and what comes next, if it does not return.
unfoldable pub proceed : ℕ → String → Stage → Run → Engine → Engine × Option Stage
unfolding is_cooldown_active is_daily_limit_reached start
proceed now today checks_cooldown r e =
    let (s, active) = is_cooldown_active now e.state r.plugin r.target in
    (record e { state = s }, if active then none else some checks_limit)
proceed now today checks_limit r e =
    let (s, reached) = is_daily_limit_reached today e.state e.daily_token_limit in
    (record e { state = s }, if reached then none else some takes_slot)
proceed now today takes_slot r e = (start e r, none)

unfoldable pub submission_at : ℕ → List Submission → Option Submission
submission_at i [] = none
submission_at zero (s ∷ ss) = some s
submission_at (suc i) (s ∷ ss) = submission_at i ss

-- The submissions when the one at a position goes on, or returns.
unfoldable pub moved : ℕ → Option Stage → List Submission → List Submission
moved i next [] = []
moved zero none (s ∷ ss) = ss
moved zero (some stage) (s ∷ ss) = record s { stage = stage } ∷ ss
moved (suc i) next (s ∷ ss) = s ∷ moved i next ss

-- The step of the submission at a position.
unfoldable pub advanced : ℕ → String → ℕ → Option Submission → Engine → Engine
unfolding proceed moved
advanced now today i none e = e
advanced now today i (some s) e =
    let (e', next) = proceed now today s.stage s.run e in
    record e' { submissions = moved i next e'.submissions }

unfoldable pub advance : ℕ → String → ℕ → Engine → Engine
unfolding advanced submission_at
advance now today i e = advanced now today i (submission_at i e.submissions) e

-- registerInFlight
unfoldable pub register_in_flight : Engine → Run → Engine
unfolding Dict.put
register_in_flight e r = record e { in_flight = Dict.put e.in_flight (run_key r) r.id }

-- unregisterInFlight
unfoldable pub unregister_in_flight : Engine → Run → Engine
unfolding Dict.del
unregister_in_flight e r = record e { in_flight = Dict.del e.in_flight (run_key r) }

-- The end of RunDiagnose's body: the tokens are counted, and an alert's target starts its cooldown.
unfoldable pub record_usage : ℕ → String → Engine → Run → ℕ → ℕ → Engine
unfolding add_tokens update_cooldown
record_usage now today e r input output =
    let s = add_tokens today e.state input output in
    record e {
      state = if not r.inspect then update_cooldown now s r.plugin r.target r.cooldown else s;
    }

unfoldable pub without : ℕ → List Run → List Run
without id [] = []
without id (r ∷ rs) = let rest = without id rs in if r.id == id then rs else r ∷ rest

unfoldable pub runs_with : ℕ → List Run → Bool
runs_with id [] = false
runs_with id (r ∷ rs) = let rest = runs_with id rs in if r.id == id then true else rest

-- The deferred receive from `sem`, the last step of a goroutine; it blocks while there is no token.
unfoldable pub leave : Engine → ℕ → Engine
unfolding without runs_with
leave e id =
    if runs_with id e.runs && ltb 0 e.held
    then record e { held = e.held - 1; runs = without id e.runs }
    else e

-- Shutdown: `stopped` is stored, and then the cancel functions in flight are called.
unfoldable pub stop : Engine → Engine
stop e = record e { stopped = true }

unfoldable pub cancel_in_flight : Engine → Engine
cancel_in_flight e = record e { cancelled = e.cancelled ++ map (λ entry. entry.1) e.in_flight }

unfoldable pub shutdown : Engine → Engine
unfolding stop cancel_in_flight
shutdown e = cancel_in_flight (stop e)

-- The steps that goroutines and callers take. A submission proceeds by its position.
pub data Action : Type 0 where
  submits : Run → Action
  proceeds : ℕ → String → ℕ → Action
  registers : Run → Action
  records : ℕ → String → Run → ℕ → ℕ → Action
  unregisters : Run → Action
  leaves : ℕ → Action
  tries : Action
  releases : Action
  stops : Action
  cancels : Action

unfoldable pub act : Engine → Action → Engine
unfolding submit advance register_in_flight record_usage unregister_in_flight leave try_sem
    release_sem stop cancel_in_flight
act e (submits r) = submit e r
act e (proceeds now today i) = advance now today i e
act e (registers r) = register_in_flight e r
act e (records now today r input output) = record_usage now today e r input output
act e (unregisters r) = unregister_in_flight e r
act e (leaves id) = leave e id
act e tries = (try_sem e).0
act e releases = release_sem e
act e stops = stop e
act e cancels = cancel_in_flight e

unfoldable pub acts : Engine → List Action → Engine
unfolding act
acts e [] = e
acts e (a ∷ rest) = acts (act e a) rest
