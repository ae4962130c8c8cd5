-- ===== src/Diagnose/Streaming/Laws.antt =====
-- The order of the pieces of a remote diagnosis, and the report among them.
use digcore.Base.{ℕ, ◌≡◌, true, false, String, List, [], ◌∷◌, ◌++◌, str_eq, ◌⊎◌}
use digcore.Diagnose.Rounds.{
  ProgressEvent, ai_done, RoundConfig, Dialogue, Ending, report, context_over, api_error,
  incomplete,
}
use digcore.Diagnose.Run.{Result, ok, err}
use digcore.Diagnose.Streaming.{Pieces}

-- A note that the model thinks, with its answer behind it if that is not empty; or a tool's call with
-- its result behind it.
pub data Ordered : Pieces → Type 0 where
  silent : Ordered []
  thought : (note : String) {ps : Pieces} → Ordered ps → Ordered ((note, "thinking") ∷ ps)
  spoken :
      (note answer : String) {ps : Pieces}
      → str_eq answer "" ≡ false
      → Ordered ps
      → Ordered ((note, "thinking") ∷ ((answer, "answer") ∷ ps))
  tool_run :
      (call result : String) {ps : Pieces}
      → Ordered ps
      → Ordered ((call, "tool_call") ∷ ((result, "tool_result") ∷ ps))

-- The report that is returned is empty, or the incomplete one, or the last piece, as an answer.
abbrev pub Told : RoundConfig → Pieces × Result String → Type 0
Told cfg (ps, err e) = Unit
Told cfg (ps, ok text) =
    (str_eq text "" ≡ true)
    ⊎ (text ≡ incomplete cfg)
    ⊎ (qs : Pieces) × (ps ≡ qs ++ ((text, "answer") ∷ []))

-- The last event of a diagnosis that gives a report of the model.
abbrev Heard : RoundConfig → Ending × Dialogue → Type 0
Heard cfg (report text, d) =
    (text ≡ incomplete cfg)
    ⊎ (n : ℕ) × (es : List ProgressEvent) × (d.events ≡ es ++ (ai_done n text false ∷ []))
Heard cfg (context_over e, d) = Unit
Heard cfg (api_error n e, d) = Unit
