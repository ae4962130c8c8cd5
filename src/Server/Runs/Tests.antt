-- ===== src/Server/Runs/Tests.antt =====
-- A chat of two turns.
use digcore.Base.{◌≡◌, refl, none, some, [], ◌∷◌, true, false}
use digcore.Server.Runs.{
  session_output, StartPayload, RunWorld, chat_opened, replied, turn_failed, run_remote_session,
}
use digcore.Server.Runs.Laws.{Ended, run_remote_session-Ended}

abbrev payload : StartPayload
payload = record {
  session_id = "s1";
  session_type = "chat";
  plugin = "";
  target = "";
  allow_shell = false;
  message = "hello";
}

abbrev two_turns : RunWorld
two_turns = record {
  done_at_start = false;
  diagnose_runner = none;
  chat_runner = some (λ shell. chat_opened);
  first_turn = λ message. (("hm", "thinking") ∷ [], replied message);
  turns = ([], turn_failed "timeout") ∷ [];
}

sent_by_chat :
    run_remote_session two_turns payload
    ≡ session_output "s1" "hm" "thinking" false "" false
      ∷ session_output "s1" "hello" "answer" false "" true
      ∷ session_output "s1" "timeout" "error" false "" true
      ∷ session_output "s1" "" "" true "" false
      ∷ []
unfolding run_remote_session
sent_by_chat = refl

run_remote_session-Ended_example : Ended "s1" (run_remote_session two_turns payload)
run_remote_session-Ended_example = run_remote_session-Ended two_turns payload
