-- ===== src/Config/Identity.antt =====
-- config/config.go: the labels from_hostname and from_hostip, and the identity that AgentIP and
-- AgentHostname give from them or detect, with its cache.
pub mod Laws
mod Tests
use text.Mathlib.Text.{find?}
use digcore.Base.{
  ℕ, ◌-◌, ◌*◌, Bool, true, false, String, append, Option, none, some, List, [], ◌∷◌, str_eq, ltb,
  not, ◌&&◌, ◌||◌, if◌then◌else◌, is_some,
}
use digcore.Base.Int.{second}
use digcore.Base.Dict
use digcore.Base.Dict.{Dict}

-- What the code uses of its surroundings: strings.TrimSpace, os.Getenv, where "" stands for a variable
-- that is not set, and os.Expand.
pub record Env : Type 0 where
  pub trim : String → String
  pub getenv : String → String
  pub expand : String → (String → String) → String

-- identCacheTTL
abbrev pub ident_cache_ttl : ℕ
ident_cache_ttl = 60 * second

-- The identity of a kind: ipAutoDetect, ipCached and ipCachedAt, or those of the host.
pub record Identity : Type 0 where
  pub auto_detect : Bool
  pub cached : String
  pub cached_at : ℕ

abbrev pub text_at : Dict String → String → String
text_at d k = elim (Dict.get d k) [ none ↦ "" | some v ↦ v ]

abbrev contains : String → String → Bool
contains s t = is_some (find? s t)

-- needsAutoDetect
unfoldable pub needs_auto_detect : Env → String → String → Bool
needs_auto_detect env raw var_name =
    if not (contains raw "$")
    then false
    else if not (contains raw (append "${" (append var_name "}")))
        && not (contains raw (append "$" var_name))
    then false
    else str_eq (env.getenv var_name) ""

-- The label's text, trimmed; a Config that is nil has none.
unfoldable pub label_text : Env → Option (Dict String) → String → String
label_text env none key = ""
label_text env (some labels) key = env.trim (text_at labels key)

-- The part of AgentIP and AgentHostname under the mutex, at a time; `detect` is DetectIP or
-- DetectHostname.
unfoldable pub cached_or_detected : (ℕ → String) → ℕ → Identity → String × Identity
cached_or_detected detect now i =
    if ltb (now - i.cached_at) ident_cache_ttl && not (str_eq i.cached "")
    then (i.cached, i)
    else (detect now, record i { cached = detect now; cached_at = now })

-- AgentIP for the key "from_hostip", AgentHostname for "from_hostname".
unfoldable pub agent_identity :
    Env → (ℕ → String) → Option (Dict String) → String → ℕ → Identity → String × Identity
unfolding cached_or_detected label_text
agent_identity env detect labels key now i =
    if not i.auto_detect && not (str_eq (label_text env labels key) "")
    then (label_text env labels key, i)
    else cached_or_detected detect now i

-- AgentLabels
unfoldable pub agent_labels :
    Env
    → (ℕ → String)
    → (ℕ → String)
    → Option (Dict String)
    → ℕ
    → Identity
    → Identity
    → Option (Dict String) × (Identity × Identity)
unfolding agent_identity Dict.put
agent_labels env ip host none now i h = (none, (i, h))
agent_labels env ip host (some labels) now i h =
    let (address, i') = agent_identity env ip (some labels) "from_hostip" now i in
    let (hostname, h') = agent_identity env host (some labels) "from_hostname" now h in
    (some (Dict.put (Dict.put labels "from_hostip" address) "from_hostname" hostname), (i', h'))

-- The variable of a builtin, or of the environment.
unfoldable pub builtin_or_env : Env → Dict String → String → String
unfolding Dict.get
builtin_or_env env builtins key = elim (Dict.get builtins key) [
  | none ↦ env.getenv key
  | some v ↦ v
]

-- The mapping of resolveConfiguredHostname and resolveConfiguredHostIP for their own variable.
unfoldable pub own_variable : Env → Dict String → String → String → String
unfolding Dict.get
own_variable env builtins detected key =
    if not (str_eq (env.getenv key) "")
    then env.getenv key
    else if not (str_eq (text_at builtins key) "")
    then text_at builtins key
    else detected

-- resolveConfiguredHostname for the variable HOSTNAME, resolveConfiguredHostIP for IP; `detected` is
-- what detection gives.
unfoldable pub resolve_configured : Env → String → String → String → Dict String → String
unfolding builtin_or_env own_variable
resolve_configured env own detected raw builtins =
    if str_eq raw "" || not (contains raw "$")
    then raw
    else env.expand raw (λ key.
      if str_eq key own
      then own_variable env builtins detected key
      else builtin_or_env env builtins key)

-- The block of resolveGlobalLabels for a label that is there, with its text.
unfoldable pub resolve_label :
    Env
    → String
    → String
    → String
    → String
    → ℕ
    → Dict String × (Dict String × Identity)
    → Dict String × (Dict String × Identity)
unfolding resolve_configured needs_auto_detect Dict.put
resolve_label env key own detected raw now (labels, (builtins, i)) =
    let resolved = resolve_configured env own detected raw builtins in
    let auto = needs_auto_detect env raw own in
    (
      if str_eq resolved "" then labels else Dict.put labels key resolved,
      (
        if str_eq resolved "" then builtins else Dict.put builtins own resolved,
        if auto
            then record { auto_detect = auto; cached = resolved; cached_at = now }
            else record i { auto_detect = auto },
      ),
    )

unfoldable pub resolve_if :
    Env
    → String
    → String
    → String
    → ℕ
    → Option String
    → Dict String × (Dict String × Identity)
    → Dict String × (Dict String × Identity)
unfolding resolve_label
resolve_if env key own detected now none s = s
resolve_if env key own detected now (some raw) s = resolve_label env key own detected raw now s

-- expandLabels, with ExpandWithBuiltins.
unfoldable pub expand_labels : Env → Dict String → Dict String → Dict String
unfolding builtin_or_env
expand_labels env builtins [] = []
expand_labels env builtins ((k, v) ∷ rest) =
    let expanded = env.expand v (builtin_or_env env builtins) in
    (k, if contains v "$" then expanded else v) ∷ expand_labels env builtins rest

-- resolveGlobalLabels: the labels, and the identities of the host and of the address. `host` and `ip`
-- are what detection gives.
unfoldable pub resolve_global_labels :
    Env
    → String
    → String
    → ℕ
    → Dict String
    → Dict String
    → Identity
    → Identity
    → Dict String × (Identity × Identity)
unfolding resolve_if expand_labels Dict.get
resolve_global_labels env host ip now labels builtins h i =
    let (labels, (builtins, h)) =
      resolve_if env "from_hostname" "HOSTNAME" host now (Dict.get labels "from_hostname")
        (labels, (builtins, h)) in
    let (labels, (builtins, i)) =
      resolve_if env "from_hostip" "IP" ip now (Dict.get labels "from_hostip")
        (labels, (builtins, i)) in
    (expand_labels env builtins labels, (h, i))
