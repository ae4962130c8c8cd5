-- ===== src/Diagnose/Forward.antt =====
-- forwardReport of diagnose/engine.go: the report goes to the notifiers once for each alert key.
pub mod Laws
use digcore.Base.{ℕ, Bool, true, String, List, [], ◌∷◌, if◌then◌else◌}
use digcore.Base.Dict
use digcore.Base.Dict.{Dict}
use digcore.Types.Event.{Event, copy_into}

-- types.DescFormatMarkdown
abbrev pub desc_format_markdown : String
desc_format_markdown = "markdown"

-- The event made for an original one; `desc` is what FormatReportDescription gives. The fields that are
-- not set are zero.
unfoldable pub report_event : ℕ → String → Event → Event
unfolding copy_into
report_event now desc original = record {
  event_time = now;
  event_status = original.event_status;
  alert_key = original.alert_key;
  labels = copy_into [] original.labels;
  attrs = copy_into [] original.attrs;
  description = desc;
  description_format = desc_format_markdown;
  first_fire_time = 0;
  notify_count = 0;
  last_sent = 0;
}

-- The loop of forwardReport, with the keys seen: the events given to notify.Forward, in order.
unfoldable pub forward_loop : ℕ → String → Dict Bool → List Event → List Event
unfolding report_event Dict.get Dict.put
forward_loop now desc seen [] = []
forward_loop now desc seen (original ∷ rest) =
    let skipped = forward_loop now desc seen rest in
    let sent =
      report_event now desc original
      ∷ forward_loop now desc (Dict.put seen original.alert_key true) rest in
    if Dict.has seen original.alert_key then skipped else sent

-- forwardReport
unfoldable pub forward_report : ℕ → String → List Event → List Event
unfolding forward_loop
forward_report now desc events = forward_loop now desc [] events
