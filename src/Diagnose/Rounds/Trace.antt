-- ===== src/Diagnose/Rounds/Trace.antt =====
-- What a diagnosis shows of its progress, and the conversations that it sends.
use digcore.Base.{ℕ, suc, sym, subst, Bool, String, List, [], ◌∷◌, ◌++◌, append_assoc}
use digcore.Ai.Message.{ToolCall}
use digcore.Diagnose.Chat.{assistant}
use digcore.Diagnose.Rounds.{
  ToolCallRecord, ProgressEvent, ai_start, ai_done, tool_start, tool_done, World, RoundConfig,
  Dialogue, asked, used, ran, called, call_loop, call_record, added, content_of, calls_of, opened,
  diagnose,
}
use digcore.Diagnose.Rounds.Laws.{heard, Rules, diagnose-rule}
use digcore.Diagnose.Rounds.Books.{prepared-SameBooks}

-- Each start is directly followed by the end of the same call.
pub data Settled : List ProgressEvent → Type 0 where
  at_rest : Settled []
  model_call :
      (n : ℕ) (text : String) (error : Bool) {es : List ProgressEvent}
      → Settled es
      → Settled (ai_start n ∷ (ai_done n text error ∷ es))
  tool_call :
      (n : ℕ) (name args : String) (error : Bool) (text : String) {es : List ProgressEvent}
      → Settled es
      → Settled (tool_start n name args ∷ (tool_done n name args error text ∷ es))

Settled-append : {xs ys : List ProgressEvent} → Settled xs → Settled ys → Settled (xs ++ ys)
Settled-append at_rest g = g
Settled-append (model_call n text error h) g = model_call n text error (Settled-append h g)
Settled-append (tool_call n name args error text h) g =
    tool_call n name args error text (Settled-append h g)

-- Two events behind others.
Settled-two :
    (es : List ProgressEvent) (a b : ProgressEvent)
    → Settled es
    → Settled (a ∷ (b ∷ []))
    → Settled (es ++ (a ∷ []) ++ (b ∷ []))
Settled-two es a b h g =
    subst Settled (sym (append_assoc es (a ∷ []) (b ∷ []))) (Settled-append h g)

call_loop-Settled :
    (w : World) (round i : ℕ) (d : Dialogue) (records : List ToolCallRecord) (calls : List ToolCall)
    → Settled d.events
    → Settled (call_loop w round i d records calls).0.events
unfolding call_loop ran added
call_loop-Settled w round i d records [] h = h
call_loop-Settled w round i d records (tc ∷ tcs) h =
    call_loop-Settled w round (suc i) (ran w round tc (w.execute round i tc) d)
      (records ++ (call_record w tc (w.execute round i tc) ∷ [])) tcs
      (Settled-two d.events _ _ h (tool_call _ _ _ _ _ at_rest))

Settled-Rules :
    (w : World) (cfg : RoundConfig)
    → Rules w cfg (λ round d. Settled d.events) (λ end. Settled end.1.events)
unfolding asked used called added
Settled-Rules w cfg = record {
  prepare = λ round d i. subst Settled (sym (prepared-SameBooks cfg round d).3) i;
  over = λ round d e i. i;
  stop = λ d i. i;
  fails = λ round d e h i r. Settled-two d.events _ _ i (model_call _ _ _ at_rest);
  final = λ round d model u choice h i r. Settled-two d.events _ _ i (model_call _ _ _ at_rest);
  next = λ round d model u choice h i r.
      call_loop-Settled w round 0
        (added (assistant (content_of choice) (calls_of choice)) (heard round model u choice d)) []
        (calls_of choice) (Settled-two d.events _ _ i (model_call _ _ _ at_rest));
}

-- However a diagnosis ends, of the events it has reported each start of a model's or a tool's call is
-- directly followed by the end of the same call, and nothing else is reported.
pub diagnose-Settled :
    (w : World) (cfg : RoundConfig) (prompt model : String)
    → Settled (diagnose w cfg prompt model).1.events
unfolding opened
diagnose-Settled w cfg prompt model = diagnose-rule w cfg (Settled-Rules w cfg) prompt model at_rest
