-- ===== src/Diagnose/Run/Tests.antt =====
-- A run whose model cannot be reached in the second round.
use digcore.Base.{ℕ, zero, suc, ◌+◌, ◌≡◌, refl, String, Option, none, some, [], ◌∷◌, ◌⊎◌, false}
use digcore.Base.Int.{pos}
use digcore.Diagnose.Catalog.{Printer}
use digcore.Diagnose.State.{reset_if_new_day}
use digcore.Diagnose.Scheduler.{Engine, Run}
use digcore.Diagnose.Executor.{output}
use digcore.Diagnose.Rounds.{Usage, chat_error, response, World, RoundConfig, diagnose}
use digcore.Diagnose.Rounds.Tokens.{spent}
use digcore.Diagnose.Run.{DiagnoseRecord, ok, diagnose_with, concluded}
use digcore.Diagnose.Run.Laws.{concluded-diagnose_with}

abbrev plain : Printer
plain = record { to_lower = λ s. s; decimal = λ n. "n"; quote = λ s. s; pad_12 = λ s. s }

abbrev first_usage : Usage
first_usage = record { prompt_tokens = 20; completion_tokens = 7; total_tokens = 27 }

abbrev world : Option ℕ → World
world accessor = record {
  context_error = λ round. none;
  chat = λ round sent. elim round [
    | zero ↦
        response "m" first_usage
          (some ("", record { id = "1"; kind = "function"; name = "df"; arguments = "" } ∷ []))
    | suc n ↦ chat_error "unreachable"
  ];
  execute = λ round i tc. output "95%";
  truncate_output = λ s. s;
  truncate_for_record = λ s. s;
  parse_args = λ s. [];
  args_display = λ name args. "";
}

abbrev config : RoundConfig
config = record { max_rounds = 3; context_window_limit = pos 8000; language = "en" }

abbrev engine : Engine
engine = record {
  stopped = false;
  state = record { date = "2026-01-01"; input_tokens = 5; output_tokens = 1; cooldowns = [] };
  daily_token_limit = pos 1000;
  slots = 1;
  held = 0;
  in_flight = [];
  submissions = [];
  runs = [];
  sessions = 0;
  cancelled = [];
}

abbrev disk_run : Run
disk_run = record { id = 7; plugin = "disk"; target = "/data"; inspect = false; cooldown = 600 }

abbrev desc : DiagnoseRecord → String
desc rec = rec.text

unreachable :
    (diagnose_with plain world config "p" "m" (ok none)).error
    ≡ "AI API error at round n: unreachable"
unfolding diagnose_with diagnose
unreachable = refl

concluded-diagnose_with_example :
    let rec = diagnose_with plain world config "p" "m" (ok none) in
    let out = concluded 900 "2026-01-01" desc [] engine disk_run rec in
    let requests = (diagnose (world none) config "p" "m").1.requests in
    (out.1.state.input_tokens
      ≡ (reset_if_new_day "2026-01-01" engine.state).input_tokens
        + spent (λ u. u.prompt_tokens) (world none) 0 requests)
    × (out.1.state.output_tokens
        ≡ (reset_if_new_day "2026-01-01" engine.state).output_tokens
          + spent (λ u. u.completion_tokens) (world none) 0 requests)
    × ((rec.status ≡ "success") ⊎ (out.0 ≡ []))
concluded-diagnose_with_example =
    concluded-diagnose_with plain world config "p" "m" none 900 "2026-01-01" desc [] engine disk_run
