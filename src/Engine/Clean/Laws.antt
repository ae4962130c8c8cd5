-- ===== src/Engine/Clean/Laws.antt =====
-- What `clean` makes of the labels of an event.
use digcore.Base.{true, String, Option, some, ◌≡◌, ◌≢◌, arith, str_eq, if◌then◌else◌}
use digcore.Base.Dict
use digcore.Base.Dict.{Dict, IsMap, get-put}
use digcore.Types.Event.{Event, event_status_valid}
use digcore.Types.Event.Labels.{or_else, get-copy_into}
use digcore.Engine.Clean.{Origin, stamped, clean}

-- Who decides a label, strongest first.
abbrev pub label_of : Origin → Dict String → String → Option String
label_of o d k =
    if str_eq "from_agent" k
    then some o.from_agent
    else if str_eq "from_hostname" k
    then some o.agent_hostname
    else if str_eq "from_hostip" k
    then some o.agent_ip
    else or_else (Dict.get o.global_labels k) (
        or_else (Dict.get o.instance_labels k) (
          or_else (Dict.get o.plugin_labels k)
            (if str_eq "from_plugin" k then some o.plugin_name else Dict.get d k)))

get-stamped :
    (o : Origin) (d : Dict String) (k : String)
    → IsMap o.plugin_labels
    → IsMap o.instance_labels
    → IsMap o.global_labels
    → Dict.get (stamped o d) k ≡ label_of o d k
unfolding stamped
get-stamped o d k p i g =
    simp (get-put, get-copy_into _ _ k g, get-copy_into _ _ k i, get-copy_into _ _ k p)

-- An event with a valid status keeps its status and description and gets, for each key, the label of
-- the strongest source that has it: the agent's identity, the global labels, the instance's, the
-- plugin's, the plugin's name, and last its own. An event with no time gets the clock's.
pub clean_lem :
    (o : Origin) (e : Event) (k : String)
    → IsMap o.plugin_labels
    → IsMap o.instance_labels
    → IsMap o.global_labels
    → event_status_valid e.event_status ≡ true
    → let (e', valid) = clean o e in
      (valid ≡ true)
      × (Dict.get e'.labels k ≡ label_of o e.labels k)
      × (e'.event_status ≡ e.event_status)
      × (e'.description ≡ e.description)
      × (e.event_time ≢ 0 → e'.event_time ≡ e.event_time)
      × (e.event_time ≡ 0 → e'.event_time ≡ o.now)
unfolding clean
clean_lem o e k p i g v = ground (arith, get-stamped o e.labels k p i g)
