-- ===== src/Engine/Clean.antt =====
-- engine/engine.go: `clean`, which completes an event and computes its alert key.
pub mod Laws
use digcore.Base.{
  ℕ, Bool, true, false, String, append, Option, none, some, List, [], ◌∷◌, ◌==◌, str_eq,
  if◌then◌else◌, map,
}
use Prim.Native.String.{compare}
use text.Mathlib.Text.{is_le}
use digcore.Base.Dict
use digcore.Base.Dict.{Dict}
use digcore.Types.Event.{Event, event_status_valid, copy_into}

-- What `clean` reads besides the event: the clock, the plugin, the instance, the global
-- configuration and the identity of the agent. `md5` is str.MD5.
pub record Origin : Type 0 where
  pub now : ℕ
  pub plugin_name : String
  pub plugin_labels : Dict String
  pub instance_labels : Dict String
  pub global_labels : Dict String
  pub agent_ip : String
  pub agent_hostname : String
  pub from_agent : String
  pub md5 : String → String

-- The labels after every source has been written over those of the event.
unfoldable pub stamped : Origin → Dict String → Dict String
stamped o labels =
    let d = Dict.put labels "from_plugin" o.plugin_name in
    let d = copy_into (copy_into (copy_into d o.plugin_labels) o.instance_labels) o.global_labels in
    Dict.put (Dict.put (Dict.put d "from_hostip" o.agent_ip) "from_hostname" o.agent_hostname)
      "from_agent" o.from_agent

-- sort.Strings, by insertion
unfoldable pub insert_sorted : String → List String → List String
insert_sorted k [] = k ∷ []
insert_sorted k (j ∷ ks) = if is_le (compare k j) then k ∷ j ∷ ks else j ∷ insert_sorted k ks

unfoldable pub sort_strings : List String → List String
unfolding insert_sorted
sort_strings [] = []
sort_strings (k ∷ ks) = insert_sorted k (sort_strings ks)

abbrev pub value_of : Dict String → String → String
value_of d k = elim (Dict.get d k) [ none ↦ "" | some v ↦ v ]

-- The text of which the alert key is the digest: `key:value:` for each label, by key.
unfoldable pub key_text : Dict String → List String → String
key_text d [] = ""
key_text d (k ∷ ks) = append (append (append (append k ":") (value_of d k)) ":") (key_text d ks)

unfoldable pub alert_key_of : Origin → Dict String → String
unfolding sort_strings key_text
alert_key_of o d = o.md5 (key_text d (sort_strings (map (λ e. e.0) d)))

-- clean: the event as it is left, and whether it is valid; an invalid one has only got its time.
unfoldable pub clean : Origin → Event → Event × Bool
unfolding stamped alert_key_of event_status_valid
clean o e =
    let t = if e.event_time == 0 then o.now else e.event_time in
    let labels = stamped o e.labels in
    if event_status_valid e.event_status
    then (record e { event_time = t; labels = labels; alert_key = alert_key_of o labels }, true)
    else (record e { event_time = t }, false)
