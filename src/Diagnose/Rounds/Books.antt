-- ===== src/Diagnose/Rounds/Books.antt =====
-- What the steps of a round leave as it is.
use digcore.Base.{
  ℕ, suc, ◌-◌, ◌*◌, ◌/◌, ◌≡◌, refl, List, [], ◌∷◌, ◌++◌, not, true, ltb, ◌==◌, ◌&&◌, if-branch,
}
use digcore.Base.Int.{is_nonpos, to_nat}
use digcore.Ai.Message.{ToolCall}
use digcore.Diagnose.Rounds.{
  ToolCallRecord, World, RoundConfig, Dialogue, context_warning, last_round_warning, exceeds, say,
  compacted, warned, ran, call_loop, call_record, added,
}

-- The books of one state are those of another.
abbrev pub SameBooks : Dialogue → Dialogue → Type 0
SameBooks d e =
    (e.requests ≡ d.requests) × (e.rounds ≡ d.rounds) × (e.ai ≡ d.ai) × (e.events ≡ d.events)

pub prepared-SameBooks :
    (cfg : RoundConfig) (round : ℕ) (d : Dialogue)
    → SameBooks d (warned cfg round (compacted cfg.context_window_limit d))
unfolding compacted warned
prepared-SameBooks cfg round d = warn (compacted cfg.context_window_limit d) (
    if-branch (SameBooks d) (exceeds d.estimated_tokens cfg.context_window_limit)
      (refl, refl, refl, refl) (refl, refl, refl, refl))
  where
    warn : (e : Dialogue) → SameBooks d e → SameBooks d (warned cfg round e)
    warn e s =
        if-branch (SameBooks d)
          (not (is_nonpos cfg.context_window_limit)
            && (not e.context_warned
                && ltb (to_nat cfg.context_window_limit * 90 / 100) e.estimated_tokens))
          {x = say context_warning (record e { context_warned = true })} s
          (if-branch (SameBooks d) (round == cfg.max_rounds - 1) {x = say last_round_warning e} s s)

-- The loop over the tool calls keeps the requests, the records of rounds and the usage.
pub call_loop-Same :
    (w : World) (round i : ℕ) (d : Dialogue) (records : List ToolCallRecord) (calls : List ToolCall)
    → ((call_loop w round i d records calls).0.requests ≡ d.requests)
      × ((call_loop w round i d records calls).0.rounds ≡ d.rounds)
      × ((call_loop w round i d records calls).0.ai ≡ d.ai)
unfolding call_loop ran added
call_loop-Same w round i d records [] = (refl, refl, refl)
call_loop-Same w round i d records (tc ∷ tcs) =
    call_loop-Same w round (suc i) (ran w round tc (w.execute round i tc) d)
      (records ++ (call_record w tc (w.execute round i tc) ∷ [])) tcs
