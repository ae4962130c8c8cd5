-- ===== src/Diagnose/Rounds.antt =====
-- diagnose/engine.go: the rounds of a diagnosis, diagnose, and RunDiagnose around them.
pub mod Laws
pub mod Books
pub mod Counts
pub mod Trace
pub mod Answers
pub mod Matched
pub mod Tokens
mod Tests
use digcore.Base.{
  ℕ, zero, suc, ◌+◌, ◌-◌, ◌*◌, ◌/◌, Bool, true, false, String, append, Option, none, some, List, [],
  ◌∷◌, ◌++◌, ltb, leb, str_eq, not, ◌==◌, ◌&&◌, if◌then◌else◌, length,
}
use digcore.Base.Int.{ℤ, is_nonpos, to_nat}
use digcore.Base.Dict.{Dict}
use digcore.Ai.Message.{ToolCall, Message, estimate_message_tokens, estimate_messages_tokens}
use digcore.Ai.Compact.{compact_messages}
use digcore.Diagnose.Chat.{assistant, user}
use digcore.Diagnose.Executor.{Outcome, output, failed}

-- AIRecord
pub record AiRecord : Type 0 where
  pub model : String
  pub total_rounds : ℕ
  pub input_tokens : ℕ
  pub output_tokens : ℕ

-- ToolCallRecord and RoundRecord, without durations.
pub record ToolCallRecord : Type 0 where
  pub name : String
  pub args : Dict String
  pub result : String

pub record RoundRecord : Type 0 where
  pub round : ℕ
  pub tool_calls : List ToolCallRecord
  pub ai_reasoning : String

-- ProgressEvent, by its type; durations and the length of a result are left out.
pub data ProgressEvent : Type 0 where
  ai_start : ℕ → ProgressEvent
  ai_done : ℕ → String → Bool → ProgressEvent
  tool_start : ℕ → String → String → ProgressEvent
  tool_done : ℕ → String → String → Bool → String → ProgressEvent

-- Usage, and what Chat gives: an error's text, or a response with the message of its first choice.
pub record Usage : Type 0 where
  pub prompt_tokens : ℕ
  pub completion_tokens : ℕ
  pub total_tokens : ℕ

pub data ChatReply : Type 0 where
  chat_error : String → ChatReply
  response : String → Usage → Option (String × List ToolCall) → ChatReply

-- What surrounds a diagnosis: the context's error at the start of a round; the reply of Chat in a round;
-- what executeTool gives for the call at a position of a round; and the functions of executor.go on texts.
pub record World : Type 0 where
  pub context_error : ℕ → Option String
  pub chat : ℕ → List Message → ChatReply
  pub execute : ℕ → ℕ → ToolCall → Outcome
  pub truncate_output : String → String
  pub truncate_for_record : String → String
  pub parse_args : String → Dict String
  pub args_display : String → String → String

-- The engine's settings that diagnose reads.
pub record RoundConfig : Type 0 where
  pub max_rounds : ℕ
  pub context_window_limit : ℤ
  pub language : String

-- The variables of diagnose; `requests` are the messages that Chat was given, and `events` those that
-- emitProgress was.
pub record Dialogue : Type 0 where
  pub messages : List Message
  pub estimated_tokens : ℕ
  pub context_warned : Bool
  pub ai : AiRecord
  pub rounds : List RoundRecord
  pub requests : List (List Message)
  pub events : List ProgressEvent

abbrev pub context_warning : Message
context_warning = user "上下文空间即将耗尽。请基于目前收集到的信息，立即输出最终诊断报告。不要再调用任何工具。"

abbrev pub last_round_warning : Message
last_round_warning = user "你已使用了所有可用的工具调用轮次。请基于目前收集到的信息，立即输出最终诊断报告。不要再调用任何工具。"

-- x > limit, for a limit that is positive
abbrev pub exceeds : ℕ → ℤ → Bool
exceeds x limit = not (is_nonpos limit) && ltb (to_nat limit) x

abbrev pub emit : ProgressEvent → Dialogue → Dialogue
emit e d = record d { events = d.events ++ (e ∷ []) }

abbrev pub say : Message → Dialogue → Dialogue
say m d = record d { messages = d.messages ++ (m ∷ []) }

-- The compaction at the start of a round.
unfoldable pub compacted : ℤ → Dialogue → Dialogue
compacted limit d =
    let kept = compact_messages d.messages limit in
    if exceeds d.estimated_tokens limit
    then record d { messages = kept; estimated_tokens = estimate_messages_tokens kept }
    else d

-- The message that asks for a report, when the context is nearly full or the round is the last.
unfoldable pub warned : RoundConfig → ℕ → Dialogue → Dialogue
warned cfg round d =
    if not (is_nonpos cfg.context_window_limit)
      && (not d.context_warned
          && ltb (to_nat cfg.context_window_limit * 90 / 100) d.estimated_tokens)
    then say context_warning (record d { context_warned = true })
    else if round == cfg.max_rounds - 1
    then say last_round_warning d
    else d

-- The call of Chat.
unfoldable pub asked : ℕ → Dialogue → Dialogue
asked round d = record (emit (ai_start (round + 1)) d) {
  requests = d.requests ++ (d.messages ∷ []);
}

-- The usage of a response.
unfoldable pub used : String → Usage → Dialogue → Dialogue
used model u d = record d {
  estimated_tokens = if ltb 0 u.total_tokens then u.total_tokens else d.estimated_tokens;
  ai = record d.ai {
    model = model;
    input_tokens = d.ai.input_tokens + u.prompt_tokens;
    output_tokens = d.ai.output_tokens + u.completion_tokens;
  };
}

-- A message that is sent from the next round on, and counted.
unfoldable pub added : Message → Dialogue → Dialogue
added m d = record d {
  messages = d.messages ++ (m ∷ []);
  estimated_tokens = d.estimated_tokens + estimate_message_tokens m;
}

abbrev pub result_text : Outcome → String
result_text (output s) = s
result_text (failed e) = append "error: " e

abbrev pub is_error : Outcome → Bool
is_error (output s) = false
is_error (failed e) = true

abbrev pub tool_message : World → ToolCall → Outcome → Message
tool_message w tc o = record {
  role = "tool";
  content = w.truncate_output (result_text o);
  tool_call_id = tc.id;
  tool_calls = [];
}

-- The body of the loop over the tool calls, without the record.
unfoldable pub ran : World → ℕ → ToolCall → Outcome → Dialogue → Dialogue
unfolding added
ran w round tc o d =
    let shown = w.args_display tc.name tc.arguments in
    let d = emit (tool_start (round + 1) tc.name shown) d in
    let d =
      emit (tool_done (round + 1) tc.name shown (is_error o) (w.truncate_output (result_text o)))
        d in
    added (tool_message w tc o) d

abbrev pub call_record : World → ToolCall → Outcome → ToolCallRecord
call_record w tc o = record {
  name = tc.name;
  args = w.parse_args tc.arguments;
  result = w.truncate_for_record (result_text o);
}

-- The loop over the tool calls; `i` is the position of the next call.
unfoldable pub call_loop :
    World → ℕ → ℕ → Dialogue → List ToolCallRecord → List ToolCall → Dialogue × List ToolCallRecord
unfolding ran
call_loop w round i d records [] = (d, records)
call_loop w round i d records (tc ∷ tcs) =
    let o = w.execute round i tc in
    call_loop w round (suc i) (ran w round tc o d) (records ++ (call_record w tc o ∷ [])) tcs

-- The round with tool calls, up to its end.
unfoldable pub called : World → ℕ → String → List ToolCall → Dialogue → Dialogue
unfolding call_loop added
called w round content calls d =
    let (d', records) = call_loop w round 0 (added (assistant content calls) d) [] calls in
    record d' {
      rounds =
          d'.rounds
          ++ (record { round = round + 1; tool_calls = records; ai_reasoning = content } ∷ []);
    }

-- How a diagnosis ends.
pub data Ending : Type 0 where
  report : String → Ending
  context_over : String → Ending
  api_error : ℕ → String → Ending

abbrev pub content_of : Option (String × List ToolCall) → String
content_of none = ""
content_of (some (content, calls)) = content

abbrev pub calls_of : Option (String × List ToolCall) → List ToolCall
calls_of none = []
calls_of (some (content, calls)) = calls

-- The end of a round whose response has no tool calls, or else the next round, `go_on`.
unfoldable pub answered :
    World
    → ℕ
    → String
    → List ToolCall
    → (Dialogue → Ending × Dialogue)
    → Dialogue
    → Ending × Dialogue
unfolding called
answered w round content [] go_on d =
    (report content, record d { ai = record d.ai { total_rounds = round + 1 } })
answered w round content (c ∷ cs) go_on d = go_on (called w round content (c ∷ cs) d)

-- The round behind the call of Chat.
unfoldable pub received :
    World → ℕ → (Dialogue → Ending × Dialogue) → ChatReply → Dialogue → Ending × Dialogue
unfolding used answered
received w round go_on (chat_error e) d =
    (api_error (round + 1) e, emit (ai_done (round + 1) "" true) d)
received w round go_on (response model u choice) d =
    answered w round (content_of choice) (calls_of choice) go_on
      (emit (ai_done (round + 1) (content_of choice) false) (used model u d))

-- A round whose context is alive.
unfoldable pub round_body :
    World → RoundConfig → ℕ → (Dialogue → Ending × Dialogue) → Dialogue → Ending × Dialogue
unfolding compacted warned asked received
round_body w cfg round go_on d =
    let d' = warned cfg round (compacted cfg.context_window_limit d) in
    received w round go_on (w.chat round d'.messages) (asked round d')

abbrev pub incomplete : RoundConfig → String
incomplete cfg =
    if str_eq cfg.language "zh"
    then "[诊断未完成] 已达到最大轮次限制，AI 未能在限定轮次内输出最终报告。"
    else "[Incomplete] Max round limit reached, AI did not produce a final report."

unfoldable pub one_round :
    World
    → RoundConfig
    → ℕ
    → (Dialogue → Ending × Dialogue)
    → Option String
    → Dialogue
    → Ending × Dialogue
unfolding round_body
one_round w cfg round go_on (some e) d = (context_over e, d)
one_round w cfg round go_on none d = round_body w cfg round go_on d

-- The loop of diagnose, with the rounds left.
unfoldable pub round_loop : World → RoundConfig → ℕ → ℕ → Dialogue → Ending × Dialogue
unfolding one_round
round_loop w cfg zero round d =
    (report (incomplete cfg), record d { ai = record d.ai { total_rounds = cfg.max_rounds } })
round_loop w cfg (suc left) round d =
    one_round w cfg round (λ d. round_loop w cfg left (suc round) d) (w.context_error round) d

abbrev pub system : String → Message
system prompt = record { role = "system"; content = prompt; tool_call_id = ""; tool_calls = [] }

-- The state in front of the loop, for a prompt and the primary model's name.
unfoldable pub opened : String → String → Dialogue
opened prompt model = record {
  messages = system prompt ∷ [];
  estimated_tokens = estimate_message_tokens (system prompt);
  context_warned = false;
  ai = record { model = model; total_rounds = 0; input_tokens = 0; output_tokens = 0 };
  rounds = [];
  requests = [];
  events = [];
}

-- diagnose, for an accessor that could be made.
unfoldable pub diagnose : World → RoundConfig → String → String → Ending × Dialogue
unfolding opened round_loop
diagnose w cfg prompt model = round_loop w cfg cfg.max_rounds 0 (opened prompt model)
