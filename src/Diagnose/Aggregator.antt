-- ===== src/Diagnose/Aggregator.antt =====
-- diagnose/aggregator.go, and the requests of diagnose/types.go: alerts of one target are collected for
-- a time before they are submitted. Each method runs under the mutex, and a timer's function is one
-- step of its own.
pub mod Laws
pub mod Flow
use digcore.Base.Int.{second}
use digcore.Base.{
  ℕ, ◌+◌, ◌*◌, Bool, true, false, String, append, Option, none, some, List, [], ◌∷◌, ◌++◌, leb,
  ◌==◌, str_eq, if◌then◌else◌, not, ◌||◌, is_some,
}
use digcore.Base.Dict
use digcore.Base.Dict.{Dict}
use digcore.Base.Int.{ℤ, is_nonpos, to_nat}
use digcore.Types.Event.{
  Event, status_ok, status_critical, status_warning, status_info, attr_current_value,
  attr_threshold_desc,
}

-- CheckSnapshot
pub record CheckSnapshot : Type 0 where
  pub check : String
  pub status : String
  pub current_value : String
  pub threshold_desc : String
  pub description : String

-- DiagnoseRequest: the fields that the aggregator sets. `R` is the type of instance references.
pub record DiagnoseRequest {ℓ} (R : Type ℓ) : Type ℓ where
  pub events : List Event
  pub plugin : String
  pub target : String
  pub checks : List CheckSnapshot
  pub instance_ref : R
  pub timeout : ℕ
  pub cooldown : ℕ

-- config.DiagnoseConfig
pub record DiagnoseConfig : Type 0 where
  pub enabled : Bool
  pub min_severity : String
  pub timeout : ℕ
  pub cooldown : ℕ

-- SeverityRank
unfoldable pub severity_rank : String → ℕ
severity_rank status =
    if str_eq status status_critical
    then 3
    else if str_eq status status_warning
    then 2
    else if str_eq status status_info
    then 1
    else 0

-- shouldTrigger
unfoldable pub should_trigger : DiagnoseConfig → String → Bool
unfolding severity_rank
should_trigger cfg event_status =
    let min_severity = if str_eq cfg.min_severity "" then status_warning else cfg.min_severity in
    if not cfg.enabled then false else leb (severity_rank min_severity) (severity_rank event_status)

-- extractAttr
unfoldable pub extract_attr : Event → String → String → String
unfolding Dict.get
extract_attr event key fallback = elim (Dict.get event.attrs key) [
  | some v ↦ if str_eq v "" then fallback else v
  | none ↦ fallback
]

-- A missing label reads as the empty text.
abbrev pub label_of : Event → String → String
label_of event key = elim (Dict.get event.labels key) [ some v ↦ v | none ↦ "" ]

-- ExtractCheckSnapshot
unfoldable pub extract_check_snapshot : Event → CheckSnapshot
unfolding Dict.get extract_attr
extract_check_snapshot event = record {
  check = label_of event "check";
  status = event.event_status;
  current_value = extract_attr event attr_current_value "";
  threshold_desc = extract_attr event attr_threshold_desc "";
  description = event.description;
}

-- DiagnoseAggregator. `timers` has the keys of the map of timers; `submitted` lists the requests given
-- to the engine, newest last.
pub record Aggregator {ℓ} (R : Type ℓ) : Type ℓ where
  pub pending : Dict (DiagnoseRequest R)
  pub timers : Dict Bool
  pub window : ℕ
  pub submitted : List (DiagnoseRequest R)

-- NewDiagnoseAggregator
unfoldable pub new_diagnose_aggregator {ℓ} : {R : Type ℓ} → ℤ → Aggregator R
new_diagnose_aggregator window = record {
  pending = [];
  timers = [];
  window = if is_nonpos window then 5 * second else to_nat window;
  submitted = [];
}

unfoldable pub target_of : Event → String → String
unfolding Dict.get
target_of event plugin =
    if str_eq (label_of event "target") "" then plugin else label_of event "target"

unfoldable pub key_of : String → String → String
key_of plugin target = append plugin (append "::" target)

abbrev pub or_default : ℕ → ℕ → ℕ
or_default d n = if n == 0 then d else n

-- Whether Submit takes an event; `ai` is config.Config.AI.Enabled.
unfoldable pub takes : Bool → Event → DiagnoseConfig → Bool
unfolding should_trigger
takes ai event cfg =
    if not ai
    then false
    else if str_eq event.event_status status_ok
    then false
    else should_trigger cfg event.event_status

module _ {ℓ} {R : Type ℓ} where
  unfoldable pub new_request :
      Event → CheckSnapshot → String → R → DiagnoseConfig → DiagnoseRequest R
  unfolding target_of
  new_request event snapshot plugin ref cfg = record {
    events = event ∷ [];
    plugin = plugin;
    target = target_of event plugin;
    checks = snapshot ∷ [];
    instance_ref = ref;
    timeout = or_default (60 * second) cfg.timeout;
    cooldown = or_default (600 * second) cfg.cooldown;
  }

  abbrev pub appended : DiagnoseRequest R → Event → CheckSnapshot → DiagnoseRequest R
  appended req event snapshot = record req {
    events = req.events ++ (event ∷ []);
    checks = req.checks ++ (snapshot ∷ []);
  }

  -- The request of a key with one more event; the argument is the one stored so far.
  unfoldable pub entered :
      Option (DiagnoseRequest R)
      → Event
      → CheckSnapshot
      → String
      → R
      → DiagnoseConfig
      → DiagnoseRequest R
  unfolding new_request
  entered (some req) event snapshot plugin ref cfg = appended req event snapshot
  entered none event snapshot plugin ref cfg = new_request event snapshot plugin ref cfg

  -- The part of Submit under the mutex.
  unfoldable pub enter :
      Aggregator R → Event → CheckSnapshot → String → R → DiagnoseConfig → Aggregator R
  unfolding Dict.get Dict.put key_of target_of entered
  enter a event snapshot plugin ref cfg =
      let key = key_of plugin (target_of event plugin) in
      let stored = Dict.get a.pending key in
      record a {
        pending = Dict.put a.pending key (entered stored event snapshot plugin ref cfg);
        timers = if is_some stored then a.timers else Dict.put a.timers key true;
      }

  -- Submit
  unfoldable pub submit :
      Bool → Aggregator R → Event → CheckSnapshot → String → R → DiagnoseConfig → Aggregator R
  unfolding takes enter
  submit ai a event snapshot plugin ref cfg =
      if takes ai event cfg then enter a event snapshot plugin ref cfg else a

  -- A request that is gone is not submitted.
  unfoldable pub handed :
      List (DiagnoseRequest R) → Option (DiagnoseRequest R) → List (DiagnoseRequest R)
  handed reqs (some req) = reqs ++ (req ∷ [])
  handed reqs none = reqs

  -- The function of a timer.
  unfoldable pub fire : Aggregator R → String → Aggregator R
  unfolding Dict.get Dict.del handed
  fire a key = record a {
    pending = Dict.del a.pending key;
    timers = Dict.del a.timers key;
    submitted = handed a.submitted (Dict.get a.pending key);
  }

  -- The loop of Shutdown over the timers.
  unfoldable pub shutdown_loop : Dict (DiagnoseRequest R) → Dict Bool → Dict (DiagnoseRequest R)
  unfolding Dict.del
  shutdown_loop pending [] = pending
  shutdown_loop pending ((key, t) ∷ timers) = shutdown_loop (Dict.del pending key) timers

  -- Shutdown
  unfoldable pub shutdown : Aggregator R → Aggregator R
  unfolding shutdown_loop
  shutdown a = record a { pending = shutdown_loop a.pending a.timers; timers = [] }
