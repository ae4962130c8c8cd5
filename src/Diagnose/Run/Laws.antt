-- ===== src/Diagnose/Run/Laws.antt =====
-- What a run of RunDiagnose leaves in the engine, and what it sends.
use digcore.Base.{
  ℕ, ◌+◌, ◌≡◌, refl, ap, ◌∙◌, String, Option, List, [], ◌⊎◌, inl, inr, not, if-branch,
}
use digcore.Types.Event.{Event}
use digcore.Diagnose.Catalog.{Printer}
use digcore.Diagnose.State.{reset_if_new_day, add_tokens, update_cooldown}
use digcore.Diagnose.Scheduler.{Engine, Run, record_usage}
use digcore.Diagnose.Rounds.{
  World, RoundConfig, Dialogue, Ending, report, context_over, api_error, diagnose,
}
use digcore.Diagnose.Rounds.Tokens.{spent, diagnose-Balanced}
use digcore.Diagnose.Run.{DiagnoseRecord, ok, recorded, diagnose_with, concluded}

record_usage-tokens :
    (now : ℕ) (today : String) (e : Engine) (r : Run) (input output : ℕ)
    → ((record_usage now today e r input output).state.input_tokens
        ≡ (reset_if_new_day today e.state).input_tokens + input)
      × ((record_usage now today e r input output).state.output_tokens
          ≡ (reset_if_new_day today e.state).output_tokens + output)
unfolding record_usage add_tokens update_cooldown
record_usage-tokens now today e r input output =
    let s = add_tokens today e.state input output in
    if-branch (λ x. (x.input_tokens ≡ s.input_tokens) × (x.output_tokens ≡ s.output_tokens))
      (not r.inspect) {x = update_cooldown now s r.plugin r.target r.cooldown} {y = s} (refl, refl)
      (refl, refl)

-- A record has the usage of its diagnosis; and one that failed has no report, and sends nothing.
recorded-ai : (p : Printer) (end : Ending × Dialogue) → (recorded p end).ai ≡ end.1.ai
unfolding recorded
recorded-ai p (report text, d) = refl
recorded-ai p (context_over e, d) = refl
recorded-ai p (api_error n e, d) = refl

concluded-recorded :
    (p : Printer) (now : ℕ) (today : String) (desc : DiagnoseRecord → String) (events : List Event)
    (e : Engine) (r : Run) (end : Ending × Dialogue)
    → ((recorded p end).status ≡ "success")
      ⊎ ((concluded now today desc events e r (recorded p end)).0 ≡ [])
unfolding recorded concluded
concluded-recorded p now today desc events e r (report text, d) = inl refl
concluded-recorded p now today desc events e r (context_over x, d) = inr refl
concluded-recorded p now today desc events e r (api_error n x, d) = inr refl

-- RunDiagnose, behind the session's accessor, adds to the engine's tokens of the day the sums of the
-- prompt and the completion tokens that Chat reported for the requests of the diagnosis; and the
-- diagnosis was a success, or no event goes to the notifiers.
pub concluded-diagnose_with {ℓ} :
    {C : Type ℓ} (p : Printer) (world : Option C → World) (cfg : RoundConfig)
    (prompt model : String) (accessor : Option C) (now : ℕ) (today : String)
    (desc : DiagnoseRecord → String) (events : List Event) (e : Engine) (r : Run)
    → let rec = diagnose_with p world cfg prompt model (ok accessor) in
      let out = concluded now today desc events e r rec in
      let requests = (diagnose (world accessor) cfg prompt model).1.requests in
      (out.1.state.input_tokens
        ≡ (reset_if_new_day today e.state).input_tokens
          + spent (λ u. u.prompt_tokens) (world accessor) 0 requests)
      × (out.1.state.output_tokens
          ≡ (reset_if_new_day today e.state).output_tokens
            + spent (λ u. u.completion_tokens) (world accessor) 0 requests)
      × ((rec.status ≡ "success") ⊎ (out.0 ≡ []))
unfolding diagnose_with concluded
concluded-diagnose_with p world cfg prompt model accessor now today desc events e r =
    let end = diagnose (world accessor) cfg prompt model in
    let rec = recorded p end in
    let usage = record_usage-tokens now today e r rec.ai.input_tokens rec.ai.output_tokens in
    let same = recorded-ai p end in
    let (i, o) = diagnose-Balanced (world accessor) cfg prompt model in
    let s = reset_if_new_day today e.state in
    (
      usage.0 ∙ ap (λ n. s.input_tokens + n) (ap (λ a. a.input_tokens) same ∙ i),
      usage.1 ∙ ap (λ n. s.output_tokens + n) (ap (λ a. a.output_tokens) same ∙ o),
      concluded-recorded p now today desc events e r end,
    )
