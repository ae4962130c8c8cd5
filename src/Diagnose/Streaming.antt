-- ===== src/Diagnose/Streaming.antt =====
-- RunDiagnoseStreaming of diagnose/engine.go: what a remote diagnosis streams, and what it returns.
-- Panics are left out.
pub mod Laws
mod Tests
use digcore.Base.{
  ℕ, Bool, true, false, String, append, Option, List, [], ◌∷◌, ◌++◌, str_eq, if◌then◌else◌,
}
use digcore.Diagnose.Catalog.{Printer, concat}
use digcore.Diagnose.Rounds.{
  ProgressEvent, ai_start, ai_done, tool_start, tool_done, World, RoundConfig, Dialogue, Ending,
  report, context_over, api_error, diagnose,
}
use digcore.Diagnose.Run.{Result, ok, err}

-- What emitStream gives to the callback, a delta and its stage; no piece is the last one, and none has
-- metadata.
abbrev pub Pieces : Type 0
Pieces = List (String × String)

-- OnProgress; `measured` is the length of a tool's result and its duration, which an event leaves out.
unfoldable pub on_progress : Printer → (ProgressEvent → String) → ProgressEvent → Pieces
unfolding concat
on_progress p measured (ai_start n) =
    (concat ("[Round " ∷ p.decimal n ∷ "] AI thinking..." ∷ []), "thinking") ∷ []
on_progress p measured (ai_done n text error) = if str_eq text "" then [] else (text, "answer") ∷ []
on_progress p measured (tool_start n name args) =
    (concat ("[Tool] " ∷ name ∷ " " ∷ args ∷ []), "tool_call") ∷ []
on_progress p measured (tool_done n name args error text) =
    (
      concat (
          "[Tool done] "
          ∷ name
          ∷ " ("
          ∷ (if error then "error" else "ok")
          ∷ ", "
          ∷ measured (tool_done n name args error text)
          ∷ ")"
          ∷ []),
      "tool_result",
    )
    ∷ []

unfoldable pub streamed_events : Printer → (ProgressEvent → String) → List ProgressEvent → Pieces
unfolding on_progress
streamed_events p measured [] = []
streamed_events p measured (e ∷ es) = on_progress p measured e ++ streamed_events p measured es

-- The report that diagnose gives, or its error.
unfoldable pub returned : Printer → Ending → Result String
unfolding concat
returned p (report text) = ok text
returned p (context_over e) = err e
returned p (api_error n e) = err (concat ("AI API error at round " ∷ p.decimal n ∷ ": " ∷ e ∷ []))

module _ {C : Type 0} where
  -- RunDiagnoseStreaming behind initSessionAccessor, with the pieces streamed.
  unfoldable pub run_diagnose_streaming :
      Printer
      → (ProgressEvent → String)
      → (Option C → World)
      → RoundConfig
      → String
      → String
      → Result (Option C)
      → Pieces × Result String
  unfolding streamed_events returned
  run_diagnose_streaming p measured world cfg prompt model (err e) =
      ([], err (append "create accessor: " e))
  run_diagnose_streaming p measured world cfg prompt model (ok accessor) =
      let (end, d) = diagnose (world accessor) cfg prompt model in
      (streamed_events p measured d.events, returned p end)
