-- ===== src/Config/Ai.antt =====
-- config/config.go: the AI section, with its defaults and its validation.
pub mod Laws
use digcore.Base.{
  ℕ, ◌+◌, ◌*◌, ◌/◌, Bool, true, false, String, append, Option, none, some, List, [], ◌∷◌, str_eq,
  leb, ltb, not, ◌&&◌, ◌||◌, ◌==◌, if◌then◌else◌, length, is_some,
}
use digcore.Base.Int.{ℤ, pos, negsuc, is_nonpos, to_nat, second}
use digcore.Base.Dict
use digcore.Base.Dict.{Dict}

-- ModelConfig; of ExtraBody, the values that are texts.
pub record ModelConfig : Type 0 where
  pub provider : String
  pub base_url : String
  pub api_key : String
  pub model : String
  pub max_tokens : ℤ
  pub max_completion_tokens : ℤ
  pub context_window : ℤ
  pub extra_body : Dict String

-- GatewayConfig
pub record GatewayConfig : Type 0 where
  pub enabled : Bool
  pub base_url : String
  pub agent_token : String
  pub request_timeout : ℤ
  pub max_retries : ℤ
  pub fallback_to_direct : Bool

-- AIConfig; durations are in nanoseconds.
pub record AiConfig : Type 0 where
  pub enabled : Bool
  pub model_priority : List String
  pub models : Dict ModelConfig
  pub gateway : GatewayConfig
  pub max_rounds : ℤ
  pub request_timeout : ℤ
  pub max_retries : ℤ
  pub retry_backoff : ℤ
  pub max_concurrent_diagnoses : ℤ
  pub queue_full_policy : String
  pub daily_token_limit : ℤ
  pub tool_timeout : ℤ
  pub aggregate_window : ℤ
  pub diagnose_retention : ℤ
  pub diagnose_max_count : ℤ
  pub language : String

abbrev pub is_zero : ℤ → Bool
is_zero (pos n) = n == 0
is_zero (negsuc n) = false

-- `if x == 0 { x = d }`, `if x <= 0 { x = d }` and `if s == "" { s = d }`.
abbrev pub or_zero : ℤ → ℕ → ℤ
or_zero x d = if is_zero x then pos d else x

abbrev pub or_nonpos : ℤ → ℕ → ℤ
or_nonpos x d = if is_nonpos x then pos d else x

abbrev pub or_empty : String → String → String
or_empty s d = if str_eq s "" then d else s

-- The loop body of applyDefaults over the models.
unfoldable pub model_defaults : ModelConfig → ModelConfig
model_defaults m = record m {
  max_tokens =
      if is_nonpos m.max_tokens && is_nonpos m.max_completion_tokens
      then pos 4000
      else m.max_tokens;
  context_window = or_nonpos m.context_window 128000;
}

unfoldable pub models_defaults : Dict ModelConfig → Dict ModelConfig
unfolding model_defaults
models_defaults [] = []
models_defaults ((name, m) ∷ ms) = (name, model_defaults m) ∷ models_defaults ms

-- applyDefaults
unfoldable pub apply_defaults : AiConfig → AiConfig
unfolding models_defaults
apply_defaults c = record c {
  gateway = record c.gateway {
    request_timeout = or_zero c.gateway.request_timeout (30 * second);
    max_retries =
        if c.gateway.enabled && is_zero c.gateway.max_retries then pos 1 else c.gateway.max_retries;
  };
  max_rounds = or_nonpos c.max_rounds 15;
  request_timeout = or_zero c.request_timeout (60 * second);
  max_retries = if is_zero c.max_retries && c.enabled then pos 2 else c.max_retries;
  retry_backoff = or_zero c.retry_backoff (2 * second);
  max_concurrent_diagnoses = or_nonpos c.max_concurrent_diagnoses 3;
  queue_full_policy = or_empty c.queue_full_policy "drop";
  tool_timeout = or_zero c.tool_timeout (10 * second);
  aggregate_window = or_zero c.aggregate_window (5 * second);
  diagnose_retention = or_zero c.diagnose_retention (7 * 24 * 3600 * second);
  diagnose_max_count = or_nonpos c.diagnose_max_count 1000;
  language = or_empty c.language "zh";
  models = models_defaults c.models;
}

-- ExtraStr
unfoldable pub extra_str : ModelConfig → String → String
unfolding Dict.get
extra_str m key = elim (Dict.get m.extra_body key) [ none ↦ "" | some s ↦ s ]

-- PrimaryModelName
unfoldable pub primary_model_name : AiConfig → String
primary_model_name c = first c.model_priority
  where
    first : List String → String
    first [] = ""
    first (name ∷ names) = if length c.models == 0 then "" else name

-- PrimaryModel, as far as ContextWindowLimit reads it; a name that is missing reads as the zero value.
unfoldable pub window_of : Option ModelConfig → ℤ
window_of none = pos 0
window_of (some m) = m.context_window

-- ContextWindowLimit
unfoldable pub context_window_limit : AiConfig → ℕ
unfolding window_of Dict.get
context_window_limit c = limit c.model_priority
  where
    limit : List String → ℕ
    limit [] = 0
    limit (name ∷ names) =
        let cw = to_nat (or_nonpos (window_of (Dict.get c.models name)) 128000) in
        if length c.models == 0 then 0 else cw * 80 / 100

-- What Validate says of a configuration that it refuses; the number of a gateway's retries and the names
-- of models are kept.
pub data ConfigError : Type 0 where
  gateway_base_url : ConfigError
  gateway_max_retries : ℤ → ConfigError
  no_model_priority : ConfigError
  no_models : ConfigError
  unknown_model : String → ConfigError
  bedrock_model : String → ConfigError
  bedrock_region : String → ConfigError
  model_base_url : String → ConfigError
  model_api_key : String → ConfigError
  queue_policy : String → ConfigError

-- The loop body of Validate over the priority list, for the model of a name.
unfoldable pub check_model : String → Option ModelConfig → Option ConfigError
unfolding extra_str
check_model name none = some (unknown_model name)
check_model name (some m) =
    if str_eq m.provider "bedrock"
    then if str_eq m.model ""
      then some (bedrock_model name)
      else if str_eq (extra_str m "aws_region") ""
      then some (bedrock_region name)
      else none
    else if str_eq m.base_url ""
    then some (model_base_url name)
    else if str_eq m.api_key ""
    then some (model_api_key name)
    else none

abbrev pub first_error : Option ConfigError → Option ConfigError → Option ConfigError
first_error none rest = rest
first_error (some e) rest = some e

unfoldable pub check_models : Dict ModelConfig → List String → Option ConfigError
unfolding check_model Dict.get
check_models models [] = none
check_models models (name ∷ names) =
    first_error (check_model name (Dict.get models name)) (check_models models names)

-- x < 0 || x > 2
abbrev pub outside_retries : ℤ → Bool
outside_retries (pos n) = ltb 2 n
outside_retries (negsuc n) = true

-- The part of Validate on the gateway, that on local models, and that on the queue.
unfoldable pub check_gateway : GatewayConfig → Option ConfigError
check_gateway g =
    if not g.enabled
    then none
    else if str_eq g.base_url ""
    then some gateway_base_url
    else if outside_retries g.max_retries
    then some (gateway_max_retries g.max_retries)
    else none

unfoldable pub check_local : AiConfig → Option ConfigError
unfolding check_models
check_local c =
    let required =
      not c.gateway.enabled || (c.gateway.fallback_to_direct || ltb 0 (length c.models)) in
    if not required
    then none
    else if length c.model_priority == 0
    then some no_model_priority
    else if length c.models == 0
    then some no_models
    else check_models c.models c.model_priority

unfoldable pub check_queue : AiConfig → Option ConfigError
check_queue c =
    if not (str_eq c.queue_full_policy "drop") && not (str_eq c.queue_full_policy "wait")
    then some (queue_policy c.queue_full_policy)
    else none

-- Validate; `none` is a nil error.
unfoldable pub validate : AiConfig → Option ConfigError
unfolding check_gateway check_local check_queue
validate c =
    if not c.enabled
    then none
    else first_error (check_gateway c.gateway) (first_error (check_local c) (check_queue c))
