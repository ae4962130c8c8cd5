-- ===== src/Diagnose/Rounds/Counts.antt =====
-- How often a diagnosis asks the model, and what its record says of it.
use digcore.Base.{
  ℕ, ◌+◌, ◌≤◌, ◌≡◌, refl, ap, ◌∙◌, ◌⊎◌, inl, inr, String, [], ◌∷◌, length, length-append, arith,
}
use digcore.Diagnose.Chat.{assistant}
use digcore.Diagnose.Rounds.{
  World, RoundConfig, Dialogue, asked, used, called, call_loop, added, Ending, report, context_over,
  api_error, content_of, calls_of, incomplete, opened, diagnose,
}
use digcore.Diagnose.Rounds.Laws.{heard, Rules, diagnose-rule}
use digcore.Diagnose.Rounds.Books.{prepared-SameBooks, call_loop-Same}

-- At the start of a round, each round before has made a request and a record.
abbrev Even : RoundConfig → ℕ → Dialogue → Type 0
Even cfg round d =
    (round ≤ cfg.max_rounds) × (length d.requests ≡ round) × (length d.rounds ≡ round)

-- What the end of a diagnosis says of the requests made and the rounds recorded.
abbrev pub Accounts : RoundConfig → Ending × Dialogue → Type 0
Accounts cfg (report text, d) =
    (d.ai.total_rounds ≡ length d.requests)
    × (((text ≡ incomplete cfg)
          × (length d.requests ≡ cfg.max_rounds)
          × (length d.rounds ≡ cfg.max_rounds))
        ⊎ ((length d.requests ≤ cfg.max_rounds) × (length d.rounds + 1 ≡ length d.requests)))
Accounts cfg (context_over e, d) =
    (length d.requests ≤ cfg.max_rounds) × (length d.rounds ≡ length d.requests)
Accounts cfg (api_error n e, d) =
    (length d.requests ≤ cfg.max_rounds)
    × (n ≡ length d.requests)
    × (length d.rounds + 1 ≡ length d.requests)

Accounts-Rules : (w : World) (cfg : RoundConfig) → Rules w cfg (Even cfg) (Accounts cfg)
unfolding asked used called added
Accounts-Rules w cfg = record {
  prepare = λ round d i.
      let same = prepared-SameBooks cfg round d in
      (i.0, ap length same.0 ∙ i.1, ap length same.1 ∙ i.2);
  over = λ round d e i. (omega arith, omega arith);
  stop = λ d i. (omega arith, inl (refl, i.1, i.2));
  fails = λ round d e h i r.
      let more = length-append d.requests (d.messages ∷ []) in
      (omega (arith, more), omega (arith, more), omega (arith, more));
  final = λ round d model u choice h i r.
      let more = length-append d.requests (d.messages ∷ []) in
      (omega (arith, more), inr (omega (arith, more), omega (arith, more)));
  next = λ round d model u choice h i r.
      let start =
        added (assistant (content_of choice) (calls_of choice)) (heard round model u choice d) in
      let loop = call_loop w round 0 start [] (calls_of choice) in
      let same = call_loop-Same w round 0 start [] (calls_of choice) in
      let asks = ap length same.0 ∙ length-append d.requests (d.messages ∷ []) in
      (
        omega arith,
        omega (arith, asks),
        omega (
          arith,
          ap length same.1,
          length-append loop.0.rounds (
              record { round = round + 1; tool_calls = loop.1; ai_reasoning = content_of choice }
              ∷ []),
        ),
      );
}

-- However a diagnosis ends, it has asked the model at most maxRounds times. With a report, TotalRounds
-- is the number of requests, and each request but the last has a recorded round; or the report says
-- that the rounds were not enough, and there are maxRounds requests and records. With an error of the
-- model, the error names the round of the last request; and with an error of the context, each request
-- has a record.
pub diagnose-Accounts :
    (w : World) (cfg : RoundConfig) (prompt model : String)
    → Accounts cfg (diagnose w cfg prompt model)
unfolding opened
diagnose-Accounts w cfg prompt model =
    diagnose-rule w cfg (Accounts-Rules w cfg) prompt model (omega arith, refl, refl)
