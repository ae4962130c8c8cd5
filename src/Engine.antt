-- ===== src/Engine.antt =====
-- engine/engine.go and engine/cache.go: what becomes of the events that a plugin pushes.
-- Events are shared by pointers: the cache holds the pointer of an alert's last stored event, and the
-- handler writes to an event after it was cached. So the state has a store of events by address, and
-- the cache maps an alert key to an address. The answer of notify.Forward is an oracle over the
-- calls made so far; MD5 is a function of the text.
pub mod Clean
pub mod Track
pub mod Refine
pub mod Invariant
pub mod Batch
pub mod Schedule
pub mod Triggers
mod Tests
use digcore.Base.Int.{second}
use digcore.Base.{
  ℕ, ◌+◌, ◌*◌, ◌/◌, Bool, true, false, not, ◌&&◌, ◌||◌, String, Option, none, some, List, [], ◌∷◌,
  ltb, leb, ◌==◌, str_eq, is_some, if◌then◌else◌, length,
}
use digcore.Base.Dict
use digcore.Base.Dict.{Dict}
use digcore.Base.Int.{ℤ, pos, negsuc, is_nonpos}
use digcore.Types.Event.{Event, status_ok}
use Clean.{Origin, clean}

-- config.Alerting; durations are in nanoseconds
pub record Alerting : Type 0 where
  pub disabled : Bool
  pub for_duration : ℤ
  pub repeat_interval : ℤ
  pub repeat_number : ℤ
  pub disable_recovery_notification : Bool

-- The state that a push works on. `forwarded` and `submitted` list, newest first, the events as they
-- were when they were handed to notify.Forward and to the aggregator.
pub record State : Type 0 where
  pub heap : ℕ → Event
  pub records : Dict ℕ
  pub diagnosed : Dict (Unit {0})
  pub forwarded : List Event
  pub submitted : List Event

-- A write through the pointer `p`.
abbrev pub store : (ℕ → Event) → ℕ → Event → ℕ → Event
store h p e q = if q == p then e else h q

abbrev pub write : State → ℕ → Event → State
write s p e = record s { heap = store s.heap p e }

-- EventCache: Get, Set, Del
abbrev pub cache_get : State → String → Option ℕ
cache_get s key = Dict.get s.records key

abbrev pub cache_set : State → ℕ → State
cache_set s p = record s { records = Dict.put s.records (s.heap p).alert_key p }

abbrev pub cache_del : State → String → State
cache_del s key = record s { records = Dict.del s.records key }

-- event.EventTime - t < int64(d / time.Second), when d > 0
abbrev pub too_soon : ℤ → ℕ → ℕ → Bool
too_soon (pos d) now t = ltb 0 d && ltb now (t + d / second)
too_soon (negsuc d) now t = false

-- RepeatNumber > 0 && count >= RepeatNumber
abbrev pub used_up : ℤ → ℕ → Bool
used_up (pos n) count = ltb 0 n && leb n count
used_up (negsuc n) count = false

-- alerting.ForDuration == 0
abbrev pub is_zero : ℤ → Bool
is_zero (pos n) = n == 0
is_zero (negsuc n) = false

-- mayTriggerDiagnose; the flag says whether there is a global aggregator
unfoldable pub may_trigger_diagnose : Bool → State → ℕ → State
may_trigger_diagnose aggregating s p =
    let event = s.heap p in
    if not aggregating then s else if Dict.has s.diagnosed event.alert_key then s else record s {
      submitted = event ∷ s.submitted;
      diagnosed = Dict.put s.diagnosed event.alert_key tt;
    }

module _ (answer : ℕ → Bool) where
  -- notify.Forward(event)
  unfoldable pub forward : State → ℕ → State × Bool
  forward s p = (record s { forwarded = s.heap p ∷ s.forwarded }, answer (length s.forwarded))

  -- the branch `old == nil` of handleAlertEvent
  unfoldable pub first_alert : Alerting → State → ℕ → State × Bool
  unfolding forward
  first_alert cfg s p =
      let event = s.heap p in
      let s1 = cache_set (write s p (record event { first_fire_time = event.event_time })) p in
      let (s2, sent) = forward s1 p in
      if is_zero cfg.for_duration
      then (if sent
          then (
            write s2 p (record (s2.heap p) {
              last_sent = (s2.heap p).event_time;
              notify_count = (s2.heap p).notify_count + 1;
            }),
            true,
          )
          else (s2, false))
      else (s1, false)

  -- the rest of handleAlertEvent, where `q` is the pointer `old`
  unfoldable pub repeated_alert : Alerting → State → ℕ → ℕ → State × Bool
  unfolding forward
  repeated_alert cfg s p q =
      let event = s.heap p in
      let old = s.heap q in
      let s1 = write s p (record event {
        first_fire_time = old.first_fire_time;
        notify_count = old.notify_count + 1;
      }) in
      let (s2, sent) = forward s1 p in
      if too_soon cfg.for_duration event.event_time old.first_fire_time
      then (s, false)
      else if used_up cfg.repeat_number old.notify_count
      then (s, false)
      else if too_soon cfg.repeat_interval event.event_time old.last_sent
      then (s, false)
      else if sent
      then (
        cache_set (write s2 p (record (s2.heap p) { last_sent = (s2.heap p).event_time })) p,
        true,
      )
      else (s2, false)

  abbrev pub alert_by : Alerting → State → ℕ → Option ℕ → State × Bool
  alert_by cfg s p none = first_alert cfg s p
  alert_by cfg s p (some q) = repeated_alert cfg s p q

  -- handleAlertEvent
  unfoldable pub handle_alert_event : Alerting → State → ℕ → State × Bool
  unfolding first_alert repeated_alert
  handle_alert_event cfg s p = alert_by cfg s p (cache_get s (s.heap p).alert_key)

  abbrev pub recovery_by : Alerting → State → ℕ → Option ℕ → State
  recovery_by cfg s p none = s
  recovery_by cfg s p (some q) =
      let s1 = cache_del s (s.heap q).alert_key in
      if not cfg.disable_recovery_notification && ltb 0 (s.heap q).last_sent
      then (forward s1 p).0
      else s1

  -- handleRecoveryEvent
  unfoldable pub handle_recovery_event : Alerting → State → ℕ → State
  unfolding forward
  handle_recovery_event cfg s p =
      let key = (s.heap p).alert_key in
      recovery_by cfg (record s { diagnosed = Dict.del s.diagnosed key }) p (cache_get s key)

  -- the end of the loop body of PushRawEvents, once the event is clean
  unfoldable pub dispatch : Alerting → Bool → State → ℕ → State
  dispatch cfg aggregating s p =
      let (s1, sent) = handle_alert_event cfg s p in
      if cfg.disabled
      then s
      else if str_eq (s.heap p).event_status status_ok
      then handle_recovery_event cfg s p
      else if sent
      then may_trigger_diagnose aggregating s1 p
      else s1

  -- the loop body of PushRawEvents at a pointer that is not nil
  unfoldable pub push_event : Origin → Alerting → Bool → State → ℕ → State
  push_event origin cfg aggregating s p =
      let (event, valid) = clean origin (s.heap p) in
      let s1 = write s p event in if valid then dispatch cfg aggregating s1 p else s1

  -- the loop of PushRawEvents over the popped pointers, nil ones included
  unfoldable pub push_raw_events : Origin → Alerting → Bool → State → List (Option ℕ) → State
  push_raw_events origin cfg aggregating s [] = s
  push_raw_events origin cfg aggregating s (none ∷ events) =
      push_raw_events origin cfg aggregating s events
  push_raw_events origin cfg aggregating s (some p ∷ events) =
      push_raw_events origin cfg aggregating (push_event origin cfg aggregating s p) events
