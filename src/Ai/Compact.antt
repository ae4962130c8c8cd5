-- ===== src/Ai/Compact.antt =====
-- diagnose/aiclient/compact.go: dropping the oldest rounds of a conversation to meet a token budget.
pub mod Groups
pub mod Budget
use digcore.Base.{
  ℕ, zero, suc, ◌+◌, ◌-◌, Bool, List, [], ◌∷◌, ltb, leb, ◌==◌, if◌then◌else◌, length, get_or, drop,
  take, ◌++◌,
}
use digcore.Base.Int.{ℤ, pos, negsuc, is_nonpos, to_nat}
use digcore.Ai.Message.{
  Message, estimate_message_tokens, estimate_messages_tokens, is_call, is_tool,
}

-- messageGroup
pub record Group : Type 0 where
  pub start_idx : ℕ
  pub tokens : ℕ

-- The inner loop of parseMessageGroups: the tokens and the number of the tool answers that follow.
unfoldable pub tool_run : ℕ → ℕ → List Message → ℕ × ℕ
tool_run t n [] = (t, n)
tool_run t n (m ∷ ms) =
    let rest = tool_run (t + estimate_message_tokens m) (n + 1) ms in
    if is_tool m then rest else (t, n)

-- The outer loop: `i` is the index of the first message of the list. Each round takes a message off
-- the list, so as much fuel as there are messages is enough.
unfoldable pub groups_from : ℕ → ℕ → List Message → List Group
groups_from zero i ms = []
groups_from (suc fuel) i [] = []
groups_from (suc fuel) i (m ∷ ms) =
    let (t, n) = tool_run (estimate_message_tokens m) 0 ms in
    let round = record { start_idx = i; tokens = t } ∷ groups_from fuel (i + 1 + n) (drop n ms) in
    let single =
      record { start_idx = i; tokens = estimate_message_tokens m } ∷ groups_from fuel (i + 1) ms in
    if is_call m then round else single

-- parseMessageGroups
unfoldable pub parse_message_groups : List Message → List Group
unfolding groups_from
parse_message_groups ms = groups_from (length ms) 1 (drop 1 ms)

abbrev pub no_group : Group
no_group = record { start_idx = 0; tokens = 0 }

-- The loop over j from the last group down; `j` here is the number of groups not yet looked at.
unfoldable pub keep_loop : ℕ → List Group → ℕ → ℕ → ℕ → ℕ
keep_loop budget groups zero sum keep_from = keep_from
keep_loop budget groups (suc j) sum keep_from =
    let t = sum + (get_or groups j no_group).tokens in
    let rest = keep_loop budget groups j t j in if ltb budget t then keep_from else rest

-- The tail of CompactMessages, for a positive budget of what follows the first message.
unfoldable pub compact_within : ℕ → List Message → List Message
unfolding keep_loop
compact_within budget messages =
    let groups = parse_message_groups messages in
    let keep_from = keep_loop budget groups (length groups) 0 (length groups) in
    if keep_from == 0
    then messages
    else if leb (length groups) keep_from
    then take 1 messages
    else take 1 messages ++ drop (get_or groups keep_from no_group).start_idx messages

-- CompactMessages
unfoldable pub compact_messages : List Message → ℤ → List Message
unfolding compact_within
compact_messages [] budget = []
compact_messages (m ∷ ms) budget =
    if leb (length (m ∷ ms)) 1
    then m ∷ ms
    else if is_nonpos budget
    then m ∷ ms
    else if leb (estimate_messages_tokens (m ∷ ms)) (to_nat budget)
    then m ∷ ms
    else if leb (to_nat budget) (estimate_message_tokens m)
    then m ∷ []
    else compact_within (to_nat budget - estimate_message_tokens m) (m ∷ ms)
