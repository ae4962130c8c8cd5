-- ===== src/Ai/Failover.antt =====
-- diagnose/aiclient/failover.go: routing a request over the configured models.
pub mod Laws
pub mod Clients
use digcore.Base.{
  ℕ, zero, suc, ◌+◌, Bool, true, false, String, append, Option, none, some, List, [], ◌∷◌, ◌++◌,
  leb, ◌==◌, ◌||◌, ◌&&◌, not, if◌then◌else◌, length, str_eq, is_some,
}
use digcore.Base.Dict
use digcore.Base.Dict.{Dict}
use digcore.Base.Int.{ℤ, pos, negsuc}
use digcore.Ai.Retry.{
  Error, api, canceled, other, wrapped, as_api, is_canceled, Reply, answer, failure, nothing, panic,
  RetryConfig, Calls, chat_with_retry,
}

-- shouldFailover
unfoldable pub should_failover : Error → Bool
unfolding as_api is_canceled
should_failover e =
    let by_status : Bool = elim (as_api e) [
      | some status ↦ leb 500 status || status == 429
      | none ↦ true
    ] in
    if is_canceled e then false else by_status

-- FailoverClient. `C` is the type of the clients; a nil error is `none`.
pub record FailoverClient {ℓ} (C : Type ℓ) : Type ℓ where
  pub priority : List String
  pub clients : Dict C
  pub retry_cfg : RetryConfig
  pub pinned : String
  pub gateway : Bool
  pub init_err : Option Error

-- The part of config.AIConfig that the constructors read; `M` is the type of a model's settings.
pub record AiConfig {ℓ} (M : Type ℓ) : Type ℓ where
  pub model_priority : List String
  pub models : Dict M
  pub max_retries : ℤ
  pub retry_backoff : ℕ
  pub gateway_enabled : Bool
  pub gateway_fallback : Bool  -- FallbackToDirect
  pub gateway_max_retries : ℤ

module _ {ℓ ℓ'} {C : Type ℓ} {M : Type ℓ'} (no_model : M) (new_chat_client : M → C) where
  -- A missing model reads as the zero ModelConfig.
  abbrev pub model_of : AiConfig M → String → M
  model_of cfg name = elim (Dict.get cfg.models name) [ some m ↦ m | none ↦ no_model ]

  -- The loops over ModelPriority that fill the clients.
  unfoldable pub add_clients : AiConfig M → Dict C → List String → Dict C
  unfolding Dict.get Dict.put
  add_clients cfg clients [] = clients
  add_clients cfg clients (name ∷ names) =
      add_clients cfg (Dict.put clients name (new_chat_client (model_of cfg name))) names

  -- newGatewayFailoverClient; the argument is what NewServerClient gives.
  unfoldable pub new_gateway_failover_client : AiConfig M → String → Reply C → FailoverClient C
  unfolding add_clients Dict.put
  new_gateway_failover_client cfg scene made =
      let name = append "server:" scene in
      let err : Option Error = elim made [ failure e ↦ some e | _ ↦ none ] in
      let first : Dict C = elim made [ answer c ↦ Dict.put [] name c | _ ↦ [] ] in
      let order : List String = elim made [ answer c ↦ name ∷ [] | _ ↦ [] ] in
      record {
        priority = if cfg.gateway_fallback then order ++ cfg.model_priority else order;
        clients = if cfg.gateway_fallback then add_clients cfg first cfg.model_priority else first;
        retry_cfg = record {
          max_retries = cfg.gateway_max_retries;
          retry_backoff = cfg.retry_backoff;
        };
        pinned = "";
        gateway = true;
        init_err = err;
      }

  -- NewFailoverClientForScene
  unfoldable pub new_failover_client_for_scene : AiConfig M → String → Reply C → FailoverClient C
  unfolding new_gateway_failover_client
  new_failover_client_for_scene cfg scene made =
      let direct : FailoverClient C = record {
        priority = cfg.model_priority;
        clients = add_clients cfg [] cfg.model_priority;
        retry_cfg = record { max_retries = cfg.max_retries; retry_backoff = cfg.retry_backoff };
        pinned = "";
        gateway = false;
        init_err = none;
      } in
      if cfg.gateway_enabled then new_gateway_failover_client cfg scene made else direct

module _ {ℓ ℓ'} {C : Type ℓ} {A : Type ℓ'} (calls : C → Calls A) where
  -- ChatWithRetry on the client of a name. A name without a client has a nil client, whose Chat panics
  -- when it is called.
  abbrev pub ask : FailoverClient C → String → Reply A
  ask fc name = elim (Dict.get fc.clients name) [
    | some c ↦ (chat_with_retry (calls c) fc.retry_cfg).2
    | none ↦ (chat_with_retry (record { done = λ n. none; chat = λ n. panic }) fc.retry_cfg).2
  ]

  -- The last error of Chat, with the models' number.
  abbrev pub all_failed : ℕ → Option Error → Error
  all_failed n (some e) = wrapped "all models failed, last" e
  all_failed n none = other "all models failed"

  -- The loop body behind ChatWithRetry; the function is the rest of the loop, which gets the error of
  -- this model. The last component lists the models asked.
  unfoldable pub chat_next :
      String → (Error → Reply A × String × List String) → Reply A → Reply A × String × List String
  unfolding should_failover
  chat_next name go_on (failure e) =
      let (r, by, asked) = go_on (wrapped (append "model " name) e) in
      if should_failover e then (r, by, name ∷ asked) else (failure e, name, name ∷ [])
  chat_next name go_on (answer a) = (answer a, name, name ∷ [])
  chat_next name go_on nothing = (nothing, name, name ∷ [])
  chat_next name go_on panic = (panic, name, name ∷ [])

  -- The loop of Chat over the names.
  unfoldable pub chat_loop :
      FailoverClient C → Option Error → List String → Reply A × String × List String
  unfolding Dict.get chat_with_retry chat_next
  chat_loop fc last [] = (failure (all_failed (length fc.priority) last), "", [])
  chat_loop fc last (name ∷ names) = chat_next name (λ e. chat_loop fc (some e) names) (ask fc name)

  abbrev pub no_clients : Option Error → Error
  no_clients (some e) = e
  no_clients none = other "no ai clients configured"

  -- Chat: the reply, the name of the model it is from, and the models asked.
  unfoldable pub chat : FailoverClient C → Reply A × String × List String
  unfolding Dict.get chat_loop
  chat fc =
      let by_pin : Reply A × String × List String =
        if is_some (Dict.get fc.clients fc.pinned)
        then (ask fc fc.pinned, fc.pinned, fc.pinned ∷ [])
        else (failure (other (append "pinned model not found " fc.pinned)), fc.pinned, []) in
      if length fc.priority == 0
      then (failure (no_clients fc.init_err), "", [])
      else if not (str_eq fc.pinned "")
      then by_pin
      else chat_loop fc none fc.priority

module _ {ℓ} {C : Type ℓ} where
  -- PinModel: whether there was no error, and the client after it.
  unfoldable pub pin_model : FailoverClient C → String → Bool × FailoverClient C
  unfolding Dict.get
  pin_model fc name =
      if not (str_eq name "") && not (is_some (Dict.get fc.clients name))
      then (false, fc)
      else (true, record fc { pinned = name })

  -- PinnedModel
  abbrev pub pinned_model : FailoverClient C → String
  pinned_model fc = fc.pinned

  -- ModelNames
  abbrev pub model_names : FailoverClient C → List String
  model_names fc = fc.priority

  -- ModelClient
  unfoldable pub model_client : FailoverClient C → String → Option C
  unfolding Dict.get
  model_client fc name = Dict.get fc.clients name

  -- IsGateway
  abbrev pub is_gateway : FailoverClient C → Bool
  is_gateway fc = fc.gateway
