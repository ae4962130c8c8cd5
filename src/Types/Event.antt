-- ===== src/Types/Event.antt =====
-- types/event.go. A label or attribute map that is nil reads as an empty one, and every write in
-- this program is behind a check for nil, so both are the empty dictionary here. Times and counts
-- are numbers that are not negative.
pub mod Labels
mod Tests
use digcore.Base.{ℕ, Bool, true, false, String, List, [], ◌∷◌, ◌&&◌, ◌||◌, str_eq, if◌then◌else◌}
use digcore.Base.Dict
use digcore.Base.Dict.{Dict}

pub record Event : Type 0 where
  pub event_time : ℕ
  pub event_status : String
  pub alert_key : String
  pub labels : Dict String
  pub attrs : Dict String
  pub description : String
  pub description_format : String
  pub first_fire_time : ℕ
  pub notify_count : ℕ
  pub last_sent : ℕ

abbrev pub status_critical : String
status_critical = "Critical"

abbrev pub status_warning : String
status_warning = "Warning"

abbrev pub status_info : String
status_info = "Info"

abbrev pub status_ok : String
status_ok = "Ok"

abbrev pub attr_current_value : String
attr_current_value = "current_value"

abbrev pub attr_threshold_desc : String
attr_threshold_desc = "threshold_desc"

-- EventStatusValid
unfoldable pub event_status_valid : String → Bool
event_status_valid status =
    str_eq status status_critical
    || str_eq status status_warning
    || str_eq status status_info
    || str_eq status status_ok

-- `for k, v := range m { d[k] = v }`, in the order in which the entries are stored.
unfoldable pub copy_into : Dict String → Dict String → Dict String
copy_into d [] = d
copy_into d ((k, v) ∷ m) = copy_into (Dict.put d k v) m

-- The loop of BuildEvent over its label maps.
unfoldable pub merge_all : Dict String → List (Dict String) → Dict String
merge_all d [] = d
merge_all d (m ∷ ms) = merge_all (copy_into d m) ms

-- BuildEvent
unfoldable pub build_event : List (Dict String) → Event
unfolding merge_all
build_event label_maps = record {
  event_time = 0;
  event_status = status_ok;
  alert_key = "";
  labels = merge_all [] label_maps;
  attrs = [];
  description = "";
  description_format = "";
  first_fire_time = 0;
  notify_count = 0;
  last_sent = 0;
}

-- SetAttrs, SetCurrentValue
unfoldable pub set_attrs : Event → Dict String → Event
set_attrs e attrs = record e { attrs = copy_into e.attrs attrs }

unfoldable pub set_current_value : Event → String → Event
set_current_value e v = record e { attrs = Dict.put e.attrs attr_current_value v }

-- SetEventStatus, SetEventTime, SetDescription
unfoldable pub set_event_status : Event → String → Event
set_event_status e status = record e { event_status = status }

unfoldable pub set_event_time : Event → ℕ → Event
set_event_time e t = record e { event_time = t }

unfoldable pub set_description : Event → String → Event
set_description e desc = record e { description = desc }

-- EvaluateGeThreshold, over a type of floats with its `>`, `>=` and 0.
module _ {F : Type 0} (gt ge : F → F → Bool) (zero_f : F) where
  unfoldable pub evaluate_ge_threshold : F → F → F → String
  evaluate_ge_threshold value warn_ge critical_ge =
      if gt critical_ge zero_f && ge value critical_ge
      then status_critical
      else if gt warn_ge zero_f && ge value warn_ge
      then status_warning
      else status_ok
