-- ===== src/Diagnose/Rounds/Laws.antt =====
-- Induction over the rounds of a diagnosis, and the count of its rounds.
use digcore.Base.{
  ℕ, zero, suc, ◌+◌, ◌<◌, ◌≡◌, refl, true, false, String, Option, none, some, List, [], ◌∷◌, arith,
  subst,
}
use digcore.Ai.Message.{ToolCall}
use digcore.Diagnose.Rounds.{
  ai_done, Usage, ChatReply, chat_error, response, World, RoundConfig, Dialogue, emit, compacted,
  warned, asked, used, called, Ending, report, context_over, api_error, content_of, calls_of,
  answered, received, round_body, incomplete, one_round, round_loop, opened, diagnose,
}

-- The state of a round whose Chat has given a response.
abbrev pub heard : ℕ → String → Usage → Option (String × List ToolCall) → Dialogue → Dialogue
heard round model u choice d =
    emit (ai_done (round + 1) (content_of choice) false) (used model u (asked round d))

-- What an invariant `I` of the state at the start of a round has to meet, for `Q` to hold of the end.
pub record Rules {ℓ} (w : World) (cfg : RoundConfig) (I : ℕ → Dialogue → Type ℓ)
    (Q : Ending × Dialogue → Type ℓ) : Type ℓ where
  pub prepare :
      (round : ℕ) (d : Dialogue)
      → I round d
      → I round (warned cfg round (compacted cfg.context_window_limit d))
  pub over : (round : ℕ) (d : Dialogue) (e : String) → I round d → Q (context_over e, d)
  pub stop :
      (d : Dialogue)
      → I cfg.max_rounds d
      → Q (report (incomplete cfg), record d { ai = record d.ai { total_rounds = cfg.max_rounds } })
  pub fails :
      (round : ℕ) (d : Dialogue) (e : String)
      → round < cfg.max_rounds
      → I round d
      → w.chat round d.messages ≡ chat_error e
      → Q (api_error (round + 1) e, emit (ai_done (round + 1) "" true) (asked round d))
  pub final :
      (round : ℕ) (d : Dialogue) (model : String) (u : Usage)
      (choice : Option (String × List ToolCall))
      → round < cfg.max_rounds
      → I round d
      → w.chat round d.messages ≡ response model u choice
      → Q (
        report (content_of choice),
        record (heard round model u choice d) {
          ai = record (heard round model u choice d).ai { total_rounds = round + 1 };
        },
      )
  pub next :
      (round : ℕ) (d : Dialogue) (model : String) (u : Usage)
      (choice : Option (String × List ToolCall))
      → round < cfg.max_rounds
      → I round d
      → w.chat round d.messages ≡ response model u choice
      → I
          (suc round)
          (called w round (content_of choice) (calls_of choice) (heard round model u choice d))

module _ {ℓ} {I : ℕ → Dialogue → Type ℓ} {Q : Ending × Dialogue → Type ℓ} (w : World)
    (cfg : RoundConfig) (rules : Rules w cfg I Q) where
  answered-rule :
      (round : ℕ) (content : String) (calls : List ToolCall) (go_on : Dialogue → Ending × Dialogue)
      (d : Dialogue)
      → Q (report content, record d { ai = record d.ai { total_rounds = round + 1 } })
      → Q (go_on (called w round content calls d))
      → Q (answered w round content calls go_on d)
  unfolding answered
  answered-rule round content [] go_on d done more = done
  answered-rule round content (c ∷ cs) go_on d done more = more

  received-rule :
      (round : ℕ) (go_on : Dialogue → Ending × Dialogue) (reply : ChatReply) (d : Dialogue)
      → round < cfg.max_rounds
      → I round d
      → w.chat round d.messages ≡ reply
      → ((d' : Dialogue) → I (suc round) d' → Q (go_on d'))
      → Q (received w round go_on reply (asked round d))
  unfolding received
  received-rule round go_on (chat_error e) d h i r more = rules.fails round d e h i r
  received-rule round go_on (response model u choice) d h i r more =
      answered-rule round (content_of choice) (calls_of choice) go_on (heard round model u choice d)
        (rules.final round d model u choice h i r)
        (more _ (rules.next round d model u choice h i r))

  one_round-rule :
      (round : ℕ) (go_on : Dialogue → Ending × Dialogue) (over : Option String) (d : Dialogue)
      → round < cfg.max_rounds
      → I round d
      → ((d' : Dialogue) → I (suc round) d' → Q (go_on d'))
      → Q (one_round w cfg round go_on over d)
  unfolding one_round round_body
  one_round-rule round go_on (some e) d h i more = rules.over round d e i
  one_round-rule round go_on none d h i more =
      let d' = warned cfg round (compacted cfg.context_window_limit d) in
      received-rule round go_on (w.chat round d'.messages) d' h (rules.prepare round d i) refl more

  pub round_loop-rule :
      (left round : ℕ) (d : Dialogue)
      → left + round ≡ cfg.max_rounds
      → I round d
      → Q (round_loop w cfg left round d)
  unfolding round_loop
  round_loop-rule zero round d e i = rules.stop d (subst (λ n. I n d) (omega (arith, e)) i)
  round_loop-rule (suc left) round d e i =
      one_round-rule round (λ d. round_loop w cfg left (suc round) d) (w.context_error round) d
        (omega arith) i (λ d' i'. round_loop-rule left (suc round) d' (omega arith) i')

  pub diagnose-rule :
      (prompt model : String) → I 0 (opened prompt model) → Q (diagnose w cfg prompt model)
  unfolding diagnose
  diagnose-rule prompt model i =
      round_loop-rule cfg.max_rounds 0 (opened prompt model) (omega arith) i
