-- ===== src/Ai/Message.antt =====
-- diagnose/aiclient/types.go, token.go and compact.go: messages, and estimates of their size in tokens.
use Prim.Native.String.{count}
use digcore.Base.{
  ℕ, ◌+◌, ◌/◌, Bool, String, List, [], ◌∷◌, ◌==◌, ltb, str_eq, ◌&&◌, if◌then◌else◌, length,
}

-- ToolCall, with the fields of its FunctionCall
pub record ToolCall : Type 0 where
  pub id : String
  pub kind : String  -- Type
  pub name : String
  pub arguments : String

pub record Message : Type 0 where
  pub role : String
  pub content : String
  pub tool_call_id : String
  pub tool_calls : List ToolCall

-- EstimateTokensChinese; `count` counts characters
unfoldable pub estimate_tokens_chinese : String → ℕ
estimate_tokens_chinese text = let n = count text in if n == 0 then 0 else (n + 1) / 2

abbrev pub per_message_overhead : ℕ
per_message_overhead = 4

-- The loop of EstimateMessageTokens over the tool calls.
unfoldable pub call_tokens : ℕ → List ToolCall → ℕ
unfolding estimate_tokens_chinese
call_tokens tokens [] = tokens
call_tokens tokens (tc ∷ tcs) =
    call_tokens
      (tokens + estimate_tokens_chinese tc.name + estimate_tokens_chinese tc.arguments + 10) tcs

-- EstimateMessageTokens
unfoldable pub estimate_message_tokens : Message → ℕ
unfolding call_tokens
estimate_message_tokens m =
    call_tokens (estimate_tokens_chinese m.content + per_message_overhead) m.tool_calls

-- The loop of EstimateMessagesTokens.
unfoldable pub messages_tokens_from : ℕ → List Message → ℕ
messages_tokens_from total [] = total
messages_tokens_from total (m ∷ ms) = messages_tokens_from (total + estimate_message_tokens m) ms

-- EstimateMessagesTokens
unfoldable pub estimate_messages_tokens : List Message → ℕ
unfolding messages_tokens_from
estimate_messages_tokens ms = messages_tokens_from 0 ms

-- An assistant message that asks for tools, and a tool's answer.
abbrev pub is_call : Message → Bool
is_call m = str_eq m.role "assistant" && ltb 0 (length m.tool_calls)

abbrev pub is_tool : Message → Bool
is_tool m = str_eq m.role "tool"
