-- ===== src/Diagnose/Chat/Tests.antt =====
-- A chat on concrete histories.
use digcore.Base.{zero, suc, ◌+◌, ◌≤◌, ◌≡◌, refl, false, some, [], ◌∷◌, ◌++◌, length, arith}
use digcore.Base.Int.{pos}
use digcore.Ai.Message.{Message}
use digcore.Ai.Compact.Groups.{Answered}
use digcore.Diagnose.Chat.{
  failed, says, Talk, user, max_history_messages, trim_history, handle_message, conversation_loop,
  compacted, respond, settle,
}
use digcore.Diagnose.Chat.Laws.{trim_history-Answered}
use digcore.Diagnose.Chat.Rollback.{handle_message-failed}

abbrev system : Message
system = record { role = "system"; content = "help"; tool_call_id = ""; tool_calls = [] }

trim_history-Answered_example :
    Answered false (trim_history (system ∷ (user "hello" ∷ []) ++ (user "again" ∷ [])))
    × (length (trim_history (system ∷ (user "hello" ∷ []) ++ (user "again" ∷ [])))
        ≤ max_history_messages + 1)
trim_history-Answered_example =
    trim_history-Answered system (user "again") (user "hello" ∷ []) refl refl refl
      (λ x. cc, (λ x. cc, (λ x. cc, tt)))

-- The model calls a tool, and then cannot be reached.
abbrev unlucky : Talk
unlucky = record {
  turn = λ round sent. elim round [
    | zero ↦ says "" (record { id = "1"; kind = "function"; name = "disk"; arguments = "{}" } ∷ [])
    | suc n ↦ failed
  ];
  result = λ round tc. "95 percent";
}

handle_message-failed_example :
    (handle_message unlucky (pos 0) (system ∷ []) "hello").1 ≡ some (system ∷ [])
unfolding handle_message settle conversation_loop respond compacted trim_history
handle_message-failed_example =
    handle_message-failed unlucky (pos 0) refl (system ∷ []) "hello" (omega arith) refl
