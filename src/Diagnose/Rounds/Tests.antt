-- ===== src/Diagnose/Rounds/Tests.antt =====
-- A diagnosis of two rounds.
use digcore.Base.{ℕ, zero, suc, ◌≡◌, refl, true, none, some, [], ◌∷◌, All, false}
use digcore.Base.Int.{pos}
use digcore.Ai.Message.{ToolCall}
use digcore.Diagnose.Executor.{failed}
use digcore.Diagnose.Rounds.{
  Usage, response, World, RoundConfig, report, ai_start, ai_done, tool_start, tool_done, diagnose,
  incomplete,
}
use digcore.Diagnose.Rounds.Counts.{Accounts, diagnose-Accounts}
use digcore.Diagnose.Rounds.Trace.{Settled, diagnose-Settled}
use digcore.Diagnose.Rounds.Matched.{IsMatched, diagnose-IsMatched}

abbrev disk_call : ToolCall
disk_call = record { id = "1"; kind = "function"; name = "disk"; arguments = "{}" }

abbrev usage : ℕ → ℕ → Usage
usage i o = record { prompt_tokens = i; completion_tokens = o; total_tokens = 0 }

-- The model calls a tool, which fails, and then writes its report.
abbrev two_rounds : World
two_rounds = record {
  context_error = λ round. none;
  chat = λ round sent. elim round [
    | zero ↦ response "m" (usage 20 7) (some ("look", disk_call ∷ []))
    | suc n ↦ response "m" (usage 40 9) (some ("full", []))
  ];
  execute = λ round i tc. failed "no disk";
  truncate_output = λ s. s;
  truncate_for_record = λ s. s;
  parse_args = λ s. [];
  args_display = λ name args. "";
}

abbrev config : ℕ → RoundConfig
config n = record { max_rounds = n; context_window_limit = pos 0; language = "en" }

reported : (diagnose two_rounds (config 3) "p" "m").0 ≡ report "full"
unfolding diagnose
reported = refl

cut_short : (diagnose two_rounds (config 1) "p" "m").0 ≡ report (incomplete (config 1))
unfolding diagnose
cut_short = refl

shown :
    (diagnose two_rounds (config 3) "p" "m").1.events
    ≡ ai_start 1
      ∷ ai_done 1 "look" false
      ∷ tool_start 1 "disk" ""
      ∷ tool_done 1 "disk" "" true "error: no disk"
      ∷ ai_start 2
      ∷ ai_done 2 "full" false
      ∷ []
unfolding diagnose
shown = refl

diagnose-Accounts_example : Accounts (config 3) (diagnose two_rounds (config 3) "p" "m")
diagnose-Accounts_example = diagnose-Accounts two_rounds (config 3) "p" "m"

diagnose-Settled_example : Settled (diagnose two_rounds (config 3) "p" "m").1.events
diagnose-Settled_example = diagnose-Settled two_rounds (config 3) "p" "m"

diagnose-IsMatched_example : All IsMatched (diagnose two_rounds (config 3) "p" "m").1.requests
diagnose-IsMatched_example = diagnose-IsMatched two_rounds (config 3) "p" "m"
