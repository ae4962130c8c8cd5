-- ===== src/Ai/Tests.antt =====
-- Retries, failover and compaction on concrete conversations.
use digcore.Base.{
  ℕ, zero, suc, ◌+◌, ◌≤◌, ◌<◌, ◌≡◌, ◌⊎◌, inl, refl, true, false, String, none, some, List, [], ◌∷◌,
  arith, drop, ◌-◌,
}
use digcore.Base.Dict
use digcore.Base.Dict.{Dict}
use digcore.Base.Int.{pos}
use digcore.Ai.Message.{
  Message, estimate_message_tokens, estimate_messages_tokens, call_tokens, estimate_tokens_chinese,
}
use digcore.Ai.Compact.{parse_message_groups, compact_messages, groups_from, tool_run}
use digcore.Ai.Compact.Groups.{group_tokens, Answered}
use digcore.Ai.Compact.Budget.{compact_messages_lem, compact_messages-Answered}
use digcore.Ai.Retry.{
  api, canceled, answer, failure, RetryConfig, Calls, is_retryable, backoff, retry_loop,
  chat_with_retry, called, waited,
}
use digcore.Ai.Failover.Clients.{IsValid}
use digcore.Ai.Retry.Laws.{retried, waits, Reached, chat_with_retry_lem}
use digcore.Ai.Failover.{FailoverClient, AiConfig, ask, chat, should_failover}
use digcore.Ai.Failover.Laws.{passed_on, chat_lem}

abbrev says : String → String → Message
says who text = record { role = who; content = text; tool_call_id = ""; tool_calls = [] }

abbrev asks_tool : Message
asks_tool = record {
  role = "assistant";
  content = "";
  tool_call_id = "";
  tool_calls = record { id = "1"; kind = "function"; name = "disk"; arguments = "{}" } ∷ [];
}

abbrev talk : List Message
talk =
    says "user" "why is it slow"
    ∷ asks_tool
    ∷ says "tool" "95 percent full"
    ∷ says "assistant" "disk"
    ∷ []

compacted :
    compact_messages (says "system" "help" ∷ talk) (pos 14)
    ≡ says "system" "help" ∷ says "assistant" "disk" ∷ []
unfolding compact_messages parse_message_groups groups_from tool_run estimate_messages_tokens
    estimate_message_tokens call_tokens estimate_tokens_chinese
compacted = refl

compact_messages_lem_example :
    let out = compact_messages (says "system" "help" ∷ talk) (pos 14) in
    let rounds = parse_message_groups (says "system" "help" ∷ talk) in
    (k d : ℕ) × (out ≡ says "system" "help" ∷ drop d talk)
    × (estimate_messages_tokens out ≤ 14)
    × (estimate_messages_tokens out
        ≡ estimate_message_tokens (says "system" "help") + group_tokens (drop k rounds))
    × ((k ≡ 0)
        ⊎ (14
            < estimate_message_tokens (says "system" "help") + group_tokens (drop (k - 1) rounds)))
unfolding estimate_message_tokens call_tokens estimate_tokens_chinese
compact_messages_lem_example = compact_messages_lem (says "system" "help") talk 14 (omega arith)

compact_messages-Answered_example :
    Answered false (compact_messages (says "system" "help" ∷ talk) (pos 14))
compact_messages-Answered_example =
    compact_messages-Answered (says "system" "help") talk (pos 14) refl
      (λ x. cc, (λ x. cc, (λ x. cc, (λ x. refl, (λ x. cc, tt)))))

-- The first attempt meets a rate limit, and the second succeeds.
abbrev limited : Calls ℕ
limited = record {
  done = λ n. none;
  chat = λ n. elim n [ zero ↦ failure (api 429 "rate limit") | suc m ↦ answer 7 ];
}

abbrev broken : Calls ℕ
broken = record { done = λ n. none; chat = λ n. failure (api 503 "unavailable") }

abbrev thrice : RetryConfig
thrice = record { max_retries = pos 3; retry_backoff = 1000000000 }

limited_first : (j : ℕ) → j < 1 → retried (limited.chat j) ≡ true
unfolding retried is_retryable
limited_first zero b = refl
limited_first (suc m) b = absurd (omega arith)

limited-Reached : Reached limited 1000000000 0 1
limited-Reached = record { retries = λ j a b. limited_first j b; not_done = λ j a b c. refl }

chat_with_retry_lem_example : chat_with_retry limited thrice ≡ (waits 1000000000 0 2, 2, answer 7)
unfolding retried
chat_with_retry_lem_example =
    chat_with_retry_lem limited thrice 3 1 refl (omega arith) limited-Reached (λ z. refl) (inl refl)

-- The context is done during the second wait.
abbrev stopped : Calls ℕ
stopped = record {
  done = λ n. elim n [ zero ↦ none | suc m ↦ elim m [ zero ↦ none | suc k ↦ some canceled ] ];
  chat = λ n. failure (api 503 "unavailable");
}

stopped_before : (j : ℕ) → j < 2 → stopped.done j ≡ none
stopped_before zero b = refl
stopped_before (suc zero) b = refl
stopped_before (suc (suc m)) b = absurd (omega arith)

stopped-Reached : Reached stopped 1000000000 0 2
unfolding retried is_retryable
stopped-Reached = record { retries = λ j a b. refl; not_done = λ j a b c. stopped_before j b }

-- One model is out of order, and the next answers.
abbrev by_name : Calls ℕ → Calls ℕ
by_name c = c

abbrev two : FailoverClient (Calls ℕ)
two = record {
  priority = "big" ∷ "small" ∷ [];
  clients = ("big", broken) ∷ ("small", limited) ∷ [];
  retry_cfg = thrice;
  pinned = "";
  gateway = false;
  init_err = none;
}

chat_lem_example : chat by_name two ≡ (ask by_name two "small", "small", "big" ∷ "small" ∷ [])
unfolding Dict.get chat_with_retry retry_loop called waited is_retryable backoff passed_on
    should_failover
chat_lem_example = chat_lem by_name two ("big" ∷ []) [] "small" refl refl (refl, tt) refl

abbrev both_broken : FailoverClient (Calls ℕ)
both_broken = record two { clients = ("big", broken) ∷ ("small", broken) ∷ [] }

two-IsValid : IsValid two
unfolding Dict.get
two-IsValid = record { listed = (refl, (refl, tt)); pin = inl refl }

abbrev settings : AiConfig ℕ
settings = record {
  model_priority = "big" ∷ "small" ∷ [];
  models = ("big", 1) ∷ [];
  max_retries = pos 2;
  retry_backoff = 1000000000;
  gateway_enabled = true;
  gateway_fallback = true;
  gateway_max_retries = pos 1;
}
