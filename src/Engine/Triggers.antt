-- ===== src/Engine/Triggers.antt =====
-- How often an alert key is handed to the diagnosis aggregator.
use digcore.Base.{
  ℕ, ◌+◌, ◌≤◌, ◌≡◌, refl, Bool, true, false, String, Option, none, some, List, [], ◌∷◌, str_eq,
  eq_iff, if◌then◌else◌, arith,
}
use digcore.Base.Dict
use digcore.Base.Dict.{get-put, get-del}
use digcore.Types.Event.{Event, status_ok}
use digcore.Engine.Clean.{Origin, clean}
use digcore.Engine.{
  Alerting, State, cache_get, write, forward, handle_alert_event, alert_by, first_alert,
  repeated_alert, handle_recovery_event, recovery_by, may_trigger_diagnose, dispatch, push_event,
  push_raw_events,
}
use digcore.Engine.Batch.{AllNew, Absent, push_event-AllNew, push_event-Untouched}

-- How many of the submitted events have the alert key `k`.
abbrev pub submissions : String → List Event → ℕ
submissions k [] = 0
submissions k (e ∷ es) = (if str_eq e.alert_key k then 1 else 0) + submissions k es

-- 1 while the key is marked as diagnosed.
abbrev pub marked : State → String → ℕ
marked s k = if Dict.has s.diagnosed k then 1 else 0

abbrev is_ok : Event → ℕ
is_ok e = if str_eq e.event_status status_ok then 1 else 0

-- How many events of a batch are recoveries.
abbrev pub recoveries : State → List (Option ℕ) → ℕ
recoveries s [] = 0
recoveries s (none ∷ rest) = recoveries s rest
recoveries s (some p ∷ rest) = is_ok (s.heap p) + recoveries s rest

-- What the new state owes to the old one: a submission is paid for by a new mark.
abbrev Budget : String → State → State → ℕ → Type 0
Budget k s s' n =
    submissions k s'.submitted + marked s k ≤ submissions k s.submitted + marked s' k + n

may_trigger_diagnose-Budget :
    (on : Bool) (k : String) (t : State) (p : ℕ) → Budget k t (may_trigger_diagnose on t p) 0
unfolding may_trigger_diagnose
may_trigger_diagnose-Budget on k t p =
    ground (arith, get-put t.diagnosed (t.heap p).alert_key tt k, eq_iff (t.heap p).alert_key k)

module _ (answer : ℕ → Bool) (cfg : Alerting) (s : State) (p : ℕ) where
  alert_by-marks :
      (o : Option ℕ)
      → ((alert_by answer cfg s p o).0.submitted ≡ s.submitted)
        × ((alert_by answer cfg s p o).0.diagnosed ≡ s.diagnosed)
  unfolding first_alert repeated_alert
  alert_by-marks none = ground arith
  alert_by-marks (some q) = ground arith

  handle_alert_event-marks :
      let s' = (handle_alert_event answer cfg s p).0 in
      (s'.submitted ≡ s.submitted) × (s'.diagnosed ≡ s.diagnosed)
  unfolding handle_alert_event
  handle_alert_event-marks = alert_by-marks (cache_get s (s.heap p).alert_key)

  recovery_by-marks :
      (o : Option ℕ) (t : State)
      → ((recovery_by answer cfg t p o).submitted ≡ t.submitted)
        × ((recovery_by answer cfg t p o).diagnosed ≡ t.diagnosed)
  unfolding forward
  recovery_by-marks none t = (refl, refl)
  recovery_by-marks (some q) t = ground arith

  handle_recovery_event-marks :
      let s' = handle_recovery_event answer cfg s p in
      (s'.submitted ≡ s.submitted) × (s'.diagnosed ≡ Dict.del s.diagnosed (s.heap p).alert_key)
  unfolding handle_recovery_event
  handle_recovery_event-marks = recovery_by-marks (cache_get s (s.heap p).alert_key) _

  alerted-Budget :
      (on sent : Bool) (k : String)
      → let t = (handle_alert_event answer cfg s p).0 in
        Budget k s (if sent then may_trigger_diagnose on t p else t) 0
  alerted-Budget on true k =
      let (subs, marks) = handle_alert_event-marks in
      let b = may_trigger_diagnose-Budget on k (handle_alert_event answer cfg s p).0 p in
      rw (subs, marks) at b
  alerted-Budget on false k =
      let (subs, marks) = handle_alert_event-marks in rw (subs, marks) (omega arith)

  dispatch_tests-Budget :
      (on disabled ok sent : Bool) (k : String)
      → let t = (handle_alert_event answer cfg s p).0 in
        let recovered = handle_recovery_event answer cfg s p in
        let alerted = if sent then may_trigger_diagnose on t p else t in
        Budget k s (if disabled then s else if ok then recovered else alerted) (if ok then 1 else 0)
  dispatch_tests-Budget on true ok sent k = omega arith
  dispatch_tests-Budget on false true sent k =
      let (subs, marks) = handle_recovery_event-marks in
      rw (subs, marks) (ground (arith, get-del s.diagnosed (s.heap p).alert_key k))
  dispatch_tests-Budget on false false sent k = alerted-Budget on sent k

  dispatch-Budget :
      (on : Bool) (k : String) → Budget k s (dispatch answer cfg on s p) (is_ok (s.heap p))
  unfolding dispatch
  dispatch-Budget on k =
      dispatch_tests-Budget on cfg.disabled (str_eq (s.heap p).event_status status_ok)
        (handle_alert_event answer cfg s p).1 k

module _ (answer : ℕ → Bool) (o : Origin) (cfg : Alerting) (on : Bool) (k : String) where
  clean_status : (e : Event) → (clean o e).0.event_status ≡ e.event_status
  unfolding clean
  clean_status e = ground arith

  push_event-Budget :
      (s : State) (p : ℕ) → Budget k s (push_event answer o cfg on s p) (is_ok (s.heap p))
  unfolding push_event
  push_event-Budget s p =
      valid-Budget (clean o (s.heap p)).1 (write s p (clean o (s.heap p)).0) refl refl
        (ground (arith, clean_status (s.heap p)))
    where
      valid-Budget :
          (b : Bool) (t : State)
          → t.submitted ≡ s.submitted
          → t.diagnosed ≡ s.diagnosed
          → (t.heap p).event_status ≡ (s.heap p).event_status
          → Budget k s (if b then dispatch answer cfg on t p else t) (is_ok (s.heap p))
      valid-Budget false t e f g = rw (e, f) (omega arith)
      valid-Budget true t e f g = rw (← e, ← f, ← g) (dispatch-Budget answer cfg t p on k)

  recoveries-push_event :
      (s : State) (p : ℕ) (rest : List (Option ℕ))
      → Absent p rest
      → AllNew s rest
      → recoveries (push_event answer o cfg on s p) rest ≡ recoveries s rest
  recoveries-push_event s p [] a n = refl
  recoveries-push_event s p (none ∷ rest) a n = recoveries-push_event s p rest a n
  recoveries-push_event s p (some r ∷ rest) a n =
      let (_, same) = push_event-Untouched answer o cfg on s p r a.0 n.0.unstored in
      rw same (omega (arith, recoveries-push_event s p rest a.1 n.2))

  -- Over a batch of new events, an alert key is handed to the aggregator at most as often as it gets
  -- marked anew: each submission but the first needs a recovery event in the batch before it.
  pub push_raw_events_budget :
      (s : State) (events : List (Option ℕ))
      → AllNew s events
      → let s' = push_raw_events answer o cfg on s events in
        submissions k s'.submitted + marked s k
        ≤ submissions k s.submitted + marked s' k + recoveries s events
  unfolding push_raw_events
  push_raw_events_budget s [] n = omega arith
  push_raw_events_budget s (none ∷ rest) n = push_raw_events_budget s rest n
  push_raw_events_budget s (some p ∷ rest) n = omega (
    arith,
    push_raw_events_budget (push_event answer o cfg on s p) rest
        (push_event-AllNew answer o cfg on s p rest n.1 n.2),
    recoveries-push_event s p rest n.1 n.2,
    push_event-Budget s p,
  )
