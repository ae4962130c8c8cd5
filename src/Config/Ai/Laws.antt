-- ===== src/Config/Ai/Laws.antt =====
-- What the defaults and the validation of the AI section give the diagnose engine.
use digcore.Base.{
  ℕ, ◌*◌, ◌<◌, ◌≡◌, refl, ◌⊎◌, inl, inr, Bool, true, false, String, Option, none, some, List, [],
  ◌∷◌, str_eq, ltb, not, ◌&&◌, ◌||◌, ◌==◌, if◌then◌else◌, length, All, arith, Bool-cases,
}
use digcore.Base.Int.{ℤ, pos, is_nonpos, second}
use digcore.Base.Dict
use digcore.Base.Dict.{Dict}
use digcore.Config.Ai.{
  ModelConfig, AiConfig, is_zero, or_zero, or_nonpos, or_empty, model_defaults, models_defaults,
  apply_defaults, extra_str, ConfigError, check_model, first_error, check_models, check_gateway,
  check_local, validate,
}

or_zero_idem : (x : ℤ) (d : ℕ) → or_zero (or_zero x d) d ≡ or_zero x d
or_zero_idem x d = ground arith

or_nonpos_idem : (x : ℤ) (d : ℕ) → or_nonpos (or_nonpos x d) d ≡ or_nonpos x d
or_nonpos_idem x d = ground arith

or_empty_idem : (s d : String) → or_empty (or_empty s d) d ≡ or_empty s d
or_empty_idem s d = ground arith

or_when_idem :
    (p : ℤ → Bool) (x : ℤ) (d : ℕ)
    → (if p (if p x then pos d else x) then pos d else (if p x then pos d else x))
      ≡ (if p x then pos d else x)
or_when_idem p x d = elim (Bool-cases (p x)) [
  | inr kept ↦ rw (kept, kept) refl
  | inl filled ↦ rw filled (same (p (pos d)))
]
  where
    same : (b : Bool) → (if b then pos d else pos d) ≡ pos d
    same true = refl
    same false = refl

model_defaults_idem : (m : ModelConfig) → model_defaults (model_defaults m) ≡ model_defaults m
unfolding model_defaults
model_defaults_idem m = λ i. record m {
  max_tokens =
      or_when_idem (λ x. is_nonpos x && is_nonpos m.max_completion_tokens) m.max_tokens 4000 i;
  context_window = or_nonpos_idem m.context_window 128000 i;
}

models_defaults_idem :
    (ms : Dict ModelConfig) → models_defaults (models_defaults ms) ≡ models_defaults ms
unfolding models_defaults
models_defaults_idem [] = refl
models_defaults_idem ((name, m) ∷ ms) = cc (model_defaults_idem m, models_defaults_idem ms)

-- Applying the defaults a second time changes nothing.
pub apply_defaults_idem : (c : AiConfig) → apply_defaults (apply_defaults c) ≡ apply_defaults c
unfolding apply_defaults
apply_defaults_idem c = λ i. record c {
  gateway = record c.gateway {
    request_timeout = or_zero_idem c.gateway.request_timeout (30 * second) i;
    max_retries = or_when_idem (λ x. c.gateway.enabled && is_zero x) c.gateway.max_retries 1 i;
  };
  max_rounds = or_nonpos_idem c.max_rounds 15 i;
  request_timeout = or_zero_idem c.request_timeout (60 * second) i;
  max_retries = or_when_idem (λ x. is_zero x && c.enabled) c.max_retries 2 i;
  retry_backoff = or_zero_idem c.retry_backoff (2 * second) i;
  max_concurrent_diagnoses = or_nonpos_idem c.max_concurrent_diagnoses 3 i;
  queue_full_policy = or_empty_idem c.queue_full_policy "drop" i;
  tool_timeout = or_zero_idem c.tool_timeout (10 * second) i;
  aggregate_window = or_zero_idem c.aggregate_window (5 * second) i;
  diagnose_retention = or_zero_idem c.diagnose_retention (7 * 24 * 3600 * second) i;
  diagnose_max_count = or_nonpos_idem c.diagnose_max_count 1000 i;
  language = or_empty_idem c.language "zh" i;
  models = models_defaults_idem c.models i;
}

-- A model that Chat can be asked through: for the provider bedrock it has a model's name and a region,
-- and for any other an address and a key.
abbrev pub Callable : Option ModelConfig → Type 0
Callable none = ⊥
Callable (some m) =
    ((str_eq m.provider "bedrock" ≡ true)
      × (str_eq m.model "" ≡ false)
      × (str_eq (extra_str m "aws_region") "" ≡ false))
    ⊎ ((str_eq m.provider "bedrock" ≡ false)
        × (str_eq m.base_url "" ≡ false)
        × (str_eq m.api_key "" ≡ false))

check_model-Callable :
    (name : String) (o : Option ModelConfig) → check_model name o ≡ none → Callable o
unfolding check_model
check_model-Callable name none h = cc
check_model-Callable name (some m) h = ground arith

first_error-none : (a b : Option ConfigError) → first_error a b ≡ none → (a ≡ none) × (b ≡ none)
first_error-none none b h = (refl, h)
first_error-none (some e) b h = cc

check_models-Callable :
    (models : Dict ModelConfig) (names : List String)
    → check_models models names ≡ none
    → All (λ name. Callable (Dict.get models name)) names
unfolding check_models
check_models-Callable models [] h = tt
check_models-Callable models (name ∷ names) h =
    let (here, rest) = first_error-none (check_model name (Dict.get models name)) _ h in
    (check_model-Callable name (Dict.get models name) here, check_models-Callable models names rest)

-- Whether a configuration needs models of its own.
abbrev pub needs_models : AiConfig → Bool
needs_models c = not c.gateway.enabled || (c.gateway.fallback_to_direct || ltb 0 (length c.models))

-- A configuration that the engine can run with.
abbrev pub Usable : AiConfig → Type 0
Usable c =
    (is_nonpos c.max_rounds ≡ false)
    × (is_nonpos c.max_concurrent_diagnoses ≡ false)
    × (((needs_models c ≡ true)
          × (0 < length c.model_priority)
          × All (λ name. Callable (Dict.get c.models name)) c.model_priority)
        ⊎ ((needs_models c ≡ false)
            × (c.gateway.enabled ≡ true)
            × (str_eq c.gateway.base_url "" ≡ false)))

check_local-cases :
    (c : AiConfig)
    → check_local c ≡ none
    → ((needs_models c ≡ true)
        × (0 < length c.model_priority)
        × All (λ name. Callable (Dict.get c.models name)) c.model_priority)
      ⊎ (needs_models c ≡ false)
unfolding check_local
check_local-cases c h = elim (Bool-cases (needs_models c)) [
  | inr free ↦ inr free
  | inl needed ↦ elim (Bool-cases (length c.model_priority == 0)) [
    | inl no_names ↦ cc (rw (needed, no_names) at h)
    | inr names ↦ elim (Bool-cases (length c.models == 0)) [
      | inl no_models_left ↦ cc (rw (needed, names, no_models_left) at h)
      | inr models ↦ inl (
        needed,
        ground (arith, names),
        check_models-Callable c.models c.model_priority (rw (needed, names, models) at h),
      )
    ]
  ]
]

check_gateway-url :
    (c : AiConfig)
    → needs_models c ≡ false
    → check_gateway c.gateway ≡ none
    → (c.gateway.enabled ≡ true) × (str_eq c.gateway.base_url "" ≡ false)
unfolding check_gateway
check_gateway-url c free h = elim (Bool-cases c.gateway.enabled) [
  | inr off ↦ cc (rw off at free)
  | inl on ↦ elim (Bool-cases (str_eq c.gateway.base_url "")) [
    | inl no_url ↦ cc (rw (on, no_url) at h)
    | inr url ↦ (on, url)
  ]
]

-- With the defaults applied, a configuration that is enabled and that Validate accepts is usable.
pub validate-Usable :
    (c : AiConfig)
    → c.enabled ≡ true
    → validate (apply_defaults c) ≡ none
    → Usable (apply_defaults c)
unfolding validate apply_defaults
validate-Usable c on h =
    let d = apply_defaults c in
    let (gateway, rest) = first_error-none (check_gateway d.gateway) _ (rw on at h) in
    let (local, queue) = first_error-none (check_local d) _ rest in
    (
      ground arith,
      ground arith,
      elim (check_local-cases d local) [
        | inl needed ↦ inl needed
        | inr free ↦ let (on', url) = check_gateway-url d free gateway in inr (free, on', url)
      ],
    )
