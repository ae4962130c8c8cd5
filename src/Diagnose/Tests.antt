-- ===== src/Diagnose/Tests.antt =====
-- Cooldowns, windows and the engine's schedule on concrete runs.
use digcore.Base.Int.{second}
use digcore.Base.{
  map, ℕ, ◌*◌, ◌≤◌, ◌≡◌, refl, true, false, String, List, [], ◌∷◌, ◌++◌, arith, if◌then◌else◌,
  length,
}
use digcore.Base.Dict
use digcore.Base.Int.{pos}
use digcore.Types.Event.{Event, status_critical}
use digcore.Diagnose.State.{DiagnoseState, cooldown_key, is_cooldown_active}
use digcore.Diagnose.State.Laws.{cooling, is_cooldown_active_lem}
use digcore.Diagnose.Aggregator.{
  CheckSnapshot, DiagnoseConfig, DiagnoseRequest, Aggregator, new_diagnose_aggregator,
  extract_check_snapshot, severity_rank, should_trigger, target_of, key_of, takes, submit, fire,
  shutdown, new_request, enter, entered, handed,
}
use digcore.Diagnose.Aggregator.Laws.{IsValid}
use digcore.Diagnose.Aggregator.Flow.{
  collected, delivered, submits, fires, run, taken, collected-run, shutdown_lem,
}
use digcore.Diagnose.Forward.{forward_report}
use digcore.Diagnose.Forward.Laws.{with_key, has_key, with_key-forward_report}
use digcore.Diagnose.Scheduler
use digcore.Diagnose.Scheduler.{
  Run, Engine, Action, proceeds, registers, leaves, tries, releases, stops, cancels, acts,
  record_usage,
}
use digcore.Diagnose.Scheduler.Laws
use digcore.Diagnose.Scheduler.Laws.{acts-IsValid, begun, acts-stop}
use digcore.Diagnose.Scheduler.Cooldown.{count_of, acts-record_usage}

abbrev fresh : DiagnoseState
fresh = record {
  date = "2026-01-02";
  input_tokens = 100;
  output_tokens = 20;
  cooldowns = ("disk::/data", 700) ∷ [];
}

is_cooldown_active_lem_example :
    let (s', active) = is_cooldown_active (800 * second) fresh "disk" "/data" in
    (active ≡ cooling fresh (800 * second) (cooldown_key "disk" "/data"))
    × (cooling s' (900 * second) "disk::/" ≡ cooling fresh (900 * second) "disk::/")
    × (s'.date ≡ fresh.date)
    × (s'.input_tokens ≡ fresh.input_tokens)
    × (s'.output_tokens ≡ fresh.output_tokens)
is_cooldown_active_lem_example =
    is_cooldown_active_lem (800 * second) (900 * second) fresh "disk" "/data" "disk::/"
      (omega arith)

abbrev alert : String → Event
alert key = record {
  event_time = 100;
  event_status = status_critical;
  alert_key = key;
  labels = ("target", "/data") ∷ [];
  attrs = [];
  description = "disk is full";
  description_format = "";
  first_fire_time = 0;
  notify_count = 0;
  last_sent = 0;
}

abbrev snapshot : CheckSnapshot
snapshot = record {
  check = "usage";
  status = status_critical;
  current_value = "95";
  threshold_desc = "";
  description = "disk is full";
}

abbrev on_warning : DiagnoseConfig
on_warning = record { enabled = true; min_severity = ""; timeout = 0; cooldown = 0 }

abbrev empty : Aggregator ℕ
empty = record { pending = []; timers = []; window = 5 * second; submitted = [] }

empty-IsValid : IsValid empty
unfolding Dict.get
empty-IsValid = record {
  timed = λ k. refl;
  keyed = λ k req h. absurd (cc h);
  paired = λ k req h. absurd (cc h);
}

abbrev two_alerts : List (digcore.Diagnose.Aggregator.Flow.Step ℕ)
two_alerts =
    submits true (alert "a") snapshot "disk" 0 on_warning
    ∷ submits true (alert "b") snapshot "disk" 0 on_warning
    ∷ fires "disk::/data"
    ∷ []

taken_example : taken "disk::/data" two_alerts ≡ alert "a" ∷ alert "b" ∷ []
unfolding taken takes should_trigger severity_rank target_of key_of Dict.get
taken_example = refl

collected-run_example :
    (collected (run empty two_alerts) "disk::/data"
      ≡ collected empty "disk::/data" ++ taken "disk::/data" two_alerts)
    × IsValid (run empty two_alerts)
collected-run_example = collected-run empty two_alerts "disk::/data" empty-IsValid

abbrev engine : Engine
engine = record {
  stopped = false;
  state = fresh;
  daily_token_limit = pos 1000;
  slots = 1;
  held = 0;
  in_flight = [];
  submissions = [];
  runs = [];
  sessions = 0;
  cancelled = [];
}

abbrev disk_run : Run
disk_run = record {
  id = 7;
  plugin = "disk";
  target = "/data";
  inspect = false;
  cooldown = 600 * second;
}

abbrev submitted : List Action
submitted =
    Scheduler.submits disk_run
    ∷ proceeds (800 * second) "2026-01-02" 0
    ∷ proceeds (800 * second) "2026-01-02" 0
    ∷ []

abbrev busy : List Action
busy =
    submitted
    ++ (proceeds (800 * second) "2026-01-02" 0
        ∷ tries
        ∷ registers disk_run
        ∷ leaves 7
        ∷ tries
        ∷ stops
        ∷ releases
        ∷ [])

acts-IsValid_example : Scheduler.Laws.IsValid (acts engine busy) × ((acts engine busy).slots ≡ 1)
unfolding acts
acts-IsValid_example =
    acts-IsValid engine busy (tt, (tt, (tt, (tt, (tt, (tt, (tt, (tt, (tt, (omega arith, tt))))))))))
      (record { counted = refl; bounded = omega arith })

-- A call of Submit that has found the engine not stopped starts its diagnosis behind Shutdown, which has
-- cancelled nothing then.
started_late :
    let e = acts engine (submitted ++ (stops ∷ cancels ∷ proceeds 0 "2026-01-02" 0 ∷ [])) in
    (map (λ r. r.id) e.runs ≡ 7 ∷ []) × (e.cancelled ≡ [])
unfolding acts Dict.get
started_late = (refl, refl)

acts-stop_example :
    let e' = acts (Scheduler.stop (acts engine submitted)) busy in
    (e'.stopped ≡ true) × (length e'.runs ≤ begun (acts engine submitted))
acts-stop_example = acts-stop (acts engine submitted) busy

acts-record_usage_example :
    count_of "disk::/data"
      (acts (record_usage (800 * second) "2026-01-02" engine disk_run 10 10) submitted).runs
    ≤ 0
acts-record_usage_example =
    acts-record_usage (800 * second) "2026-01-02" engine disk_run 10 10 submitted refl tt
      (tt, (omega arith, (omega arith, tt)))

with_key-forward_report_example :
    with_key "a" (forward_report 500 "report" (alert "a" ∷ alert "b" ∷ alert "a" ∷ []))
    ≡ (if has_key "a" (alert "a" ∷ alert "b" ∷ alert "a" ∷ []) then 1 else 0)
with_key-forward_report_example =
    with_key-forward_report 500 "report" (alert "a" ∷ alert "b" ∷ alert "a" ∷ []) "a"
