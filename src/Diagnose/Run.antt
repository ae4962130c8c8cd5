-- ===== src/Diagnose/Run.antt =====
-- RunDiagnose of diagnose/engine.go: a diagnosis, its record, the report and the engine's state. Panics
-- are left out.
pub mod Laws
mod Tests
use digcore.Base.{
  ℕ, ◌/◌, Bool, true, false, String, append, Option, none, some, List, [], ◌∷◌, ltb, str_eq, not,
  ◌&&◌, if◌then◌else◌, length,
}
use digcore.Base.Int.{second}
use digcore.Base.Dict
use digcore.Types.Event.{Event}
use digcore.Diagnose.Registry.{ToolRegistry}
use digcore.Diagnose.Catalog.{Printer, has_accessor_factory}
use digcore.Diagnose.Forward.{forward_report}
use digcore.Diagnose.Rounds.{
  AiRecord, RoundRecord, World, RoundConfig, Dialogue, Ending, report, context_over, api_error,
  diagnose,
}
use digcore.Diagnose.Scheduler.{Engine, Run, record_usage}

-- A value or an error's text.
pub data Result {ℓ} (A : Type ℓ) : Type ℓ where
  ok : A → Result A
  err : String → Result A

-- The end of initSessionAccessor.
unfoldable pub stored {ℓ} : {C : Type ℓ} → String → String → Result C → Result (Option C)
stored plugin target (ok c) = ok (some c)
stored plugin target (err e) =
    err
      (append "create accessor for " (append plugin (append "::" (append target (append ": " e)))))

module _ {A I C : Type 0} where
  -- CreateAccessor, for the factory found.
  unfoldable pub created : Printer → (A → I → Result C) → String → Option A → I → Result C
  created p make plugin none ref =
      err (append "no accessor factory registered for plugin " (p.quote plugin))
  created p make plugin (some factory) ref = make factory ref

module _ {F A I C : Type 0} where
  -- CreateAccessor; `make` calls a factory.
  unfoldable pub create_accessor :
      Printer → (A → I → Result C) → ToolRegistry F A → String → I → Result C
  unfolding created Dict.get
  create_accessor p make r plugin ref =
      created p make plugin (Dict.get r.accessor_factory plugin) ref

  -- initSessionAccessor: the session's accessor, if it gets one.
  unfoldable pub init_session_accessor :
      Printer
      → (A → I → Result C)
      → ToolRegistry F A
      → String
      → String
      → Option I
      → Result (Option C)
  unfolding create_accessor stored has_accessor_factory
  init_session_accessor p make r plugin target none = ok none
  init_session_accessor p make r plugin target (some ref) =
      if not (has_accessor_factory r plugin)
      then ok none
      else stored plugin target (create_accessor p make r plugin ref)

-- DiagnoseRecord, with the parts that a run sets.
pub record DiagnoseRecord : Type 0 where
  pub status : String
  pub error : String
  pub text : String  -- Report
  pub ai : AiRecord
  pub rounds : List RoundRecord

abbrev pub no_usage : AiRecord
no_usage = record { model = ""; total_rounds = 0; input_tokens = 0; output_tokens = 0 }

-- The record behind diagnose.
unfoldable pub recorded : Printer → Ending × Dialogue → DiagnoseRecord
recorded p (report text, d) = record {
  status = "success";
  error = "";
  text = text;
  ai = d.ai;
  rounds = d.rounds;
}
recorded p (context_over e, d) = record {
  status = "failed";
  error = e;
  text = "";
  ai = d.ai;
  rounds = d.rounds;
}
recorded p (api_error n e, d) = record {
  status = "failed";
  error = append "AI API error at round " (append (p.decimal n) (append ": " e));
  text = "";
  ai = d.ai;
  rounds = d.rounds;
}

-- diagnose, from the session's accessor on: `world` gives the surroundings for an accessor.
unfoldable pub diagnose_with {ℓ} :
    {C : Type ℓ}
    → Printer
    → (Option C → World)
    → RoundConfig
    → String
    → String
    → Result (Option C)
    → DiagnoseRecord
unfolding recorded
diagnose_with p world cfg prompt model (err e) = record {
  status = "failed";
  error = append "create accessor: " e;
  text = "";
  ai = no_usage;
  rounds = [];
}
diagnose_with p world cfg prompt model (ok accessor) =
    recorded p (diagnose (world accessor) cfg prompt model)

-- The end of RunDiagnose: what the notifiers get, and the engine with the usage and the cooldown. `desc`
-- is what FormatReportDescription makes of the record.
unfoldable pub concluded :
    ℕ
    → String
    → (DiagnoseRecord → String)
    → List Event
    → Engine
    → Run
    → DiagnoseRecord
    → List Event × Engine
unfolding forward_report record_usage
concluded now today desc events e r rec = (
  if not (str_eq rec.text "") && ltb 0 (length events)
      then forward_report (now / second) (desc rec) events
      else [],
  record_usage now today e r rec.ai.input_tokens rec.ai.output_tokens,
)
