-- ===== src/Engine/Tests.antt =====
-- The alert handler on concrete events.
use digcore.Base.Int.{second}
use digcore.Base.{
  ℕ, ◌+◌, ◌*◌, ◌≤◌, ◌≡◌, ◌≢◌, refl, Bool, true, false, none, some, [], ◌∷◌, arith, if◌then◌else◌,
}
use digcore.Base.Dict
use digcore.Base.Dict.{Dict}
use digcore.Base.Int.{pos}
use digcore.Types.Event.{Event, status_critical, event_status_valid}
use digcore.Engine.{Alerting, State, handle_alert_event, handle_recovery_event, push_raw_events}
use digcore.Engine.Clean.{Origin, clean}
use digcore.Engine.Clean.Laws.{clean_lem}
use digcore.Engine.Track.{Track}
use digcore.Engine.Refine.{IsNew, view, handle_alert_event_refines, handle_recovery_event_lem}
use digcore.Engine.Invariant.{Inv}
use digcore.Engine.Batch.{push_raw_events-Inv}
use digcore.Engine.Schedule.{sent_times, Allowed, sent_times-Allowed}
use digcore.Engine.Triggers.{submissions, marked, push_raw_events_budget}

abbrev fired : Event
fired = record {
  event_time = 100;
  event_status = status_critical;
  alert_key = "disk";
  labels = ("check", "disk") ∷ [];
  attrs = [];
  description = "disk is full";
  description_format = "";
  first_fire_time = 0;
  notify_count = 0;
  last_sent = 0;
}

-- Event `q` is raised `q` minutes after the first.
abbrev idle : State
idle = record {
  heap = λ q. record fired { event_time = 100 + q * 60 };
  records = [];
  diagnosed = [];
  forwarded = [];
  submitted = [];
}

-- After one minute, every two minutes, twice.
abbrev slow : Alerting
slow = record {
  disabled = false;
  for_duration = pos (60 * second);
  repeat_interval = pos (120 * second);
  repeat_number = pos 2;
  disable_recovery_notification = false;
}

abbrev always : ℕ → Bool
always n = true

abbrev host : Origin
host = record {
  now = 500;
  plugin_name = "disk";
  plugin_labels = ("team", "storage") ∷ [];
  instance_labels = ("team", "db") ∷ [];
  global_labels = [];
  agent_ip = "10.0.0.1";
  agent_hostname = "db1";
  from_agent = "agent";
  md5 = λ s. s;
}

idle-IsNew : (q : ℕ) → IsNew idle q
unfolding Dict.get
idle-IsNew q = record { unstored = λ k h. cc; unsent = refl; never = refl }

slow_schedule : sent_times always slow idle (0 ∷ 1 ∷ 2 ∷ 3 ∷ 4 ∷ 5 ∷ []) ≡ 160 ∷ 280 ∷ []
unfolding sent_times handle_alert_event Dict.get Dict.put
slow_schedule = refl

handle_alert_event_refines_example :
    let (s', sent) = handle_alert_event always slow idle 0 in
    (view s' "disk" ≡ some (record { first = 100; count = 0; last = 0 })) × (sent ≡ false)
unfolding Dict.get
handle_alert_event_refines_example = handle_alert_event_refines always slow idle 0 (idle-IsNew 0)

-- The alert was stored, and was sent at 160.
abbrev alerting : State
alerting = record idle { heap = λ q. record fired { last_sent = 160 }; records = ("disk", 0) ∷ [] }

handle_recovery_event_lem_example :
    let s' = handle_recovery_event always slow alerting 1 in
    (view s' "disk" ≡ none)
    × (Dict.get s'.diagnosed "disk" ≡ none)
    × (s'.forwarded ≡ record fired { last_sent = 160 } ∷ [])
unfolding Dict.get
handle_recovery_event_lem_example =
    handle_recovery_event_lem always slow alerting 1 "disk" (λ q e. refl)

idle-Inv : Inv slow idle
unfolding Dict.get
idle-Inv = record { keyed = λ k q h. cc; capped = λ k q n h. cc }

push_raw_events-Inv_example :
    Inv slow (push_raw_events always host slow true idle (some 0 ∷ none ∷ some 1 ∷ []))
push_raw_events-Inv_example =
    push_raw_events-Inv always host slow true idle (some 0 ∷ none ∷ some 1 ∷ [])
      (idle-IsNew 0, (omega arith, tt), (idle-IsNew 1, tt, tt)) idle-Inv

push_raw_events_budget_example :
    let s' = push_raw_events always host slow true idle (some 0 ∷ some 1 ∷ []) in
    submissions "disk" s'.submitted + 0 ≤ 0 + marked s' "disk" + 0
unfolding Dict.get
push_raw_events_budget_example =
    push_raw_events_budget always host slow true "disk" idle (some 0 ∷ some 1 ∷ [])
      (idle-IsNew 0, (omega arith, tt), (idle-IsNew 1, tt, tt))

sent_times-Allowed_example :
    let (s', sent) = handle_alert_event always slow idle 0 in
    let k : Track = record {
      first = 100;
      count = if sent then 1 else 0;
      last = if sent then 100 else 0;
    } in
    (sent ≡ true → 60 * second ≡ 0)
    × Allowed (60 * second) (120 * second) 2 k (sent_times always slow s' (1 ∷ 2 ∷ 3 ∷ []))
unfolding Dict.get
sent_times-Allowed_example =
    sent_times-Allowed always slow (60 * second) (120 * second) 2 refl refl refl idle "disk" 0
      (1 ∷ 2 ∷ 3 ∷ []) refl
      (
        idle-IsNew 0,
        refl,
        (omega arith, (omega arith, (omega arith, tt))),
        (
          idle-IsNew 1,
          refl,
          (omega arith, (omega arith, tt)),
          (idle-IsNew 2, refl, (omega arith, tt), (idle-IsNew 3, refl, tt, tt)),
        ),
      )

clean_lem_example :
    let (e', valid) = clean host fired in
    (valid ≡ true)
    × (Dict.get e'.labels "team" ≡ some "db")
    × (e'.event_status ≡ status_critical)
    × (e'.description ≡ "disk is full")
    × (fired.event_time ≢ 0 → e'.event_time ≡ 100)
    × (fired.event_time ≡ 0 → e'.event_time ≡ 500)
unfolding Dict.get event_status_valid
clean_lem_example = clean_lem host fired "team" (refl, tt) (refl, tt) tt refl
