-- ===== src/Config/Tests.antt =====
-- Configurations with one model.
use digcore.Base.{◌≡◌, refl, true, false, String, some, [], ◌∷◌}
use digcore.Base.Int.{pos}
use digcore.Base.Dict
use digcore.Config.Ai.{
  ModelConfig, GatewayConfig, AiConfig, unknown_model, apply_defaults, validate,
  context_window_limit,
}
use digcore.Config.Ai.Laws.{Usable, validate-Usable}

abbrev no_gateway : GatewayConfig
no_gateway = record {
  enabled = false;
  base_url = "";
  agent_token = "";
  request_timeout = pos 0;
  max_retries = pos 0;
  fallback_to_direct = false;
}

abbrev gpt : ModelConfig
gpt = record {
  provider = "";
  base_url = "https://example.com";
  api_key = "k";
  model = "gpt";
  max_tokens = pos 0;
  max_completion_tokens = pos 0;
  context_window = pos 0;
  extra_body = [];
}

abbrev written : String → AiConfig
written name = record {
  enabled = true;
  model_priority = name ∷ [];
  models = ("gpt", gpt) ∷ [];
  gateway = no_gateway;
  max_rounds = pos 0;
  request_timeout = pos 0;
  max_retries = pos 0;
  retry_backoff = pos 0;
  max_concurrent_diagnoses = pos 0;
  queue_full_policy = "";
  daily_token_limit = pos 0;
  tool_timeout = pos 0;
  aggregate_window = pos 0;
  diagnose_retention = pos 0;
  diagnose_max_count = pos 0;
  language = "";
}

misspelt : validate (apply_defaults (written "gpt4")) ≡ some (unknown_model "gpt4")
unfolding validate apply_defaults Dict.get
misspelt = refl

window : context_window_limit (apply_defaults (written "gpt")) ≡ 102400
unfolding context_window_limit apply_defaults Dict.get
window = refl

validate-Usable_example : Usable (apply_defaults (written "gpt"))
unfolding validate apply_defaults Dict.get
validate-Usable_example = validate-Usable (written "gpt") refl refl
