-- ===== src/Diagnose/Chat.antt =====
-- diagnose/streaming.go: a chat with its history, ChatStream.
pub mod Laws
pub mod Rollback
mod Tests
use digcore.Base.{
  ℕ, zero, suc, ◌+◌, ◌-◌, ◌*◌, Bool, true, false, String, Option, none, some, List, [], ◌∷◌, ◌++◌,
  leb, ltb, str_eq, ◌||◌, if◌then◌else◌, length, take, drop, map,
}
use digcore.Base.Int.{ℤ, is_nonpos}
use digcore.Ai.Message.{ToolCall, Message, is_call, is_tool}
use digcore.Ai.Compact.{compact_messages}

abbrev pub max_history_messages : ℕ
max_history_messages = 40

abbrev pub chat_max_rounds : ℕ
chat_max_rounds = 20

-- The loop of trimHistory; `i` is the index of the first message of the list.
unfoldable pub safe_cut : ℕ → List Message → ℕ
safe_cut i [] = i
safe_cut i (m ∷ ms) = let rest = safe_cut (suc i) ms in if is_tool m || is_call m then rest else i

-- trimHistory
unfoldable pub trim_history : List Message → List Message
unfolding safe_cut
trim_history messages =
    let cut = length messages - max_history_messages in
    let safe = safe_cut cut (drop cut messages) in
    if leb (length messages) (max_history_messages + 1)
    then messages
    else if ltb safe (length messages)
    then take 1 messages ++ drop safe messages
    else if ltb (max_history_messages * 2) (length messages)
    then take 1 messages ++ drop cut messages
    else messages

-- What one round gets from the context and the model; a text and tool calls, or none of the choices.
pub data Turn : Type 0 where
  expired : Turn
  failed : Turn
  empty : Turn
  says : String → List ToolCall → Turn

-- The surroundings of a conversation: the model's turn in a round, given the messages sent, and the
-- truncated text that a tool call of a round ends with, be it a result or an error.
pub record Talk : Type 0 where
  pub turn : ℕ → List Message → Turn
  pub result : ℕ → ToolCall → String

abbrev pub assistant : String → List ToolCall → Message
assistant content calls = record {
  role = "assistant";
  content = content;
  tool_call_id = "";
  tool_calls = calls;
}

abbrev pub user : String → Message
user input = record { role = "user"; content = input; tool_call_id = ""; tool_calls = [] }

abbrev pub answer_to : Talk → ℕ → ToolCall → Message
answer_to t round tc = record {
  role = "tool";
  content = t.result round tc;
  tool_call_id = tc.id;
  tool_calls = [];
}

-- What the compaction at the start of a round makes of the history.
unfoldable pub compacted : ℤ → List Message → List Message
unfolding compact_messages
compacted limit messages = if is_nonpos limit then messages else compact_messages messages limit

-- The loop body behind the compaction: `go_on` is the rest of the loop, which gets the history. No
-- reply stands for an error.
unfoldable pub respond :
    Talk
    → ℕ
    → List Message
    → List Message
    → (List Message → Option String × List Message)
    → Turn
    → Option String × List Message
respond t round messages sent go_on expired = (none, messages)
respond t round messages sent go_on failed = (none, sent)
respond t round messages sent go_on empty = (none, sent)
respond t round messages sent go_on (says content []) =
    (some content, sent ++ (assistant content [] ∷ []))
respond t round messages sent go_on (says content (c ∷ cs)) =
    go_on (sent ++ (assistant content (c ∷ cs) ∷ map (answer_to t round) (c ∷ cs)))

-- The loop of conversationLoop, with the rounds left.
unfoldable pub conversation_loop : Talk → ℤ → ℕ → ℕ → List Message → Option String × List Message
unfolding compacted respond
conversation_loop t limit zero round messages =
    (some "[incomplete] max tool-calling rounds reached", messages)
conversation_loop t limit (suc left) round messages =
    let sent = compacted limit messages in
    respond t round messages sent (λ h. conversation_loop t limit left (suc round) h)
      (t.turn round sent)

-- `messages[:n]`. Beyond the length, Go reads what the slice has in its spare capacity, or panics; this
-- is `none` here.
unfoldable pub reslice : ℕ → List Message → Option (List Message)
reslice n messages = if leb n (length messages) then some (take n messages) else none

-- The end of HandleMessage; `n` is one less than the length before the conversation.
unfoldable pub settle : ℕ → Option String × List Message → Option String × Option (List Message)
unfolding reslice
settle n (some text, after) = (some text, some after)
settle n (none, after) = (none, reslice n after)

-- HandleMessage: the reply, or none for an error, and the history after it.
unfoldable pub handle_message :
    Talk → ℤ → List Message → String → Option String × Option (List Message)
unfolding trim_history conversation_loop settle
handle_message t limit messages input =
    let trimmed = trim_history (messages ++ (user input ∷ [])) in
    settle (length trimmed - 1) (conversation_loop t limit chat_max_rounds 0 trimmed)

-- Reset
unfoldable pub reset : List Message → List Message
reset [] = []
reset (m ∷ ms) = if str_eq m.role "system" then m ∷ [] else []
