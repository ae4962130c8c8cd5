-- ===== src/Diagnose/Streaming/Tests.antt =====
-- What a diagnosis of two rounds streams.
use digcore.Base.{ℕ, zero, suc, ◌≡◌, refl, Option, none, some, [], ◌∷◌}
use digcore.Base.Int.{pos}
use digcore.Ai.Message.{ToolCall}
use digcore.Diagnose.Catalog.{Printer}
use digcore.Diagnose.Executor.{output}
use digcore.Diagnose.Rounds.{Usage, response, World, RoundConfig, diagnose}
use digcore.Diagnose.Run.{ok}
use digcore.Diagnose.Streaming.{run_diagnose_streaming}

abbrev plain : Printer
plain = record { to_lower = λ s. s; decimal = λ n. "n"; quote = λ s. s; pad_12 = λ s. s }

abbrev disk_call : ToolCall
disk_call = record { id = "1"; kind = "function"; name = "disk"; arguments = "{}" }

abbrev usage : Usage
usage = record { prompt_tokens = 1; completion_tokens = 1; total_tokens = 0 }

abbrev two_rounds : World
two_rounds = record {
  context_error = λ round. none;
  chat = λ round sent. elim round [
    | zero ↦ response "m" usage (some ("", disk_call ∷ []))
    | suc n ↦ response "m" usage (some ("full", []))
  ];
  execute = λ round i tc. output "99%";
  truncate_output = λ s. s;
  truncate_for_record = λ s. s;
  parse_args = λ s. [];
  args_display = λ name args. "/";
}

abbrev limits : RoundConfig
limits = record { max_rounds = 3; context_window_limit = pos 0; language = "en" }

streamed_once :
    run_diagnose_streaming plain
      (λ e. "3B, 1s")
      (λ (a : Option ℕ). two_rounds)
      limits
      "p"
      "m"
      (ok none)
    ≡ (
      ("[Round n] AI thinking...", "thinking")
          ∷ ("[Tool] disk /", "tool_call")
          ∷ ("[Tool done] disk (ok, 3B, 1s)", "tool_result")
          ∷ ("[Round n] AI thinking...", "thinking")
          ∷ ("full", "answer")
          ∷ [],
      ok "full",
    )
unfolding run_diagnose_streaming diagnose
streamed_once = refl
