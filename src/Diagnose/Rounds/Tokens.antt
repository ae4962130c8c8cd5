-- ===== src/Diagnose/Rounds/Tokens.antt =====
-- The usage that a diagnosis records.
use digcore.Base.{
  ℕ, suc, ◌+◌, ◌≡◌, refl, ap, ◌∙◌, String, Option, List, [], ◌∷◌, ◌++◌, length, length-append,
  arith,
}
use digcore.Ai.Message.{ToolCall, Message}
use digcore.Diagnose.Chat.{assistant}
use digcore.Diagnose.Rounds.{
  Usage, ChatReply, chat_error, response, World, RoundConfig, AiRecord, Dialogue, asked, used,
  called, added, content_of, calls_of, opened, diagnose,
}
use digcore.Diagnose.Rounds.Laws.{heard, Rules, diagnose-rule}
use digcore.Diagnose.Rounds.Books.{prepared-SameBooks, call_loop-Same}

abbrev pub tokens_of : (Usage → ℕ) → ChatReply → ℕ
tokens_of f (chat_error e) = 0
tokens_of f (response model u choice) = f u

-- The tokens that the replies to some requests used, from a round on.
unfoldable pub spent : (Usage → ℕ) → World → ℕ → List (List Message) → ℕ
spent f w round [] = 0
spent f w round (m ∷ ms) = tokens_of f (w.chat round m) + spent f w (suc round) ms

spent-append :
    (f : Usage → ℕ) (w : World) (round : ℕ) (ms : List (List Message)) (m : List Message)
    → spent f w round (ms ++ (m ∷ []))
      ≡ spent f w round ms + tokens_of f (w.chat (round + length ms) m)
unfolding spent
spent-append f w round [] m = let e : round + 0 ≡ round = omega arith in rw e (omega arith)
spent-append f w round (k ∷ ms) m =
    let e : suc round + length ms ≡ round + suc (length ms) = omega arith in
    omega (arith, spent-append f w (suc round) ms m, ap (λ n. tokens_of f (w.chat n m)) e)

-- The recorded usage is that of the requests made.
abbrev pub Balanced : World → AiRecord → List (List Message) → Type 0
Balanced w a requests =
    (a.input_tokens ≡ spent (λ u. u.prompt_tokens) w 0 requests)
    × (a.output_tokens ≡ spent (λ u. u.completion_tokens) w 0 requests)

abbrev Kept : World → ℕ → Dialogue → Type 0
Kept w round d = (length d.requests ≡ round) × Balanced w d.ai d.requests

-- A request that got a reply, behind those of the rounds before.
asked-spent :
    (f : Usage → ℕ) (w : World) (round : ℕ) (d : Dialogue)
    → length d.requests ≡ round
    → spent f w 0 (d.requests ++ (d.messages ∷ []))
      ≡ spent f w 0 d.requests + tokens_of f (w.chat round d.messages)
asked-spent f w round d e =
    spent-append f w 0 d.requests d.messages
    ∙ ap (λ n. spent f w 0 d.requests + tokens_of f (w.chat n d.messages)) (omega (arith, e))

Balanced-heard :
    (w : World) (round : ℕ) (d : Dialogue) (model : String) (u : Usage)
    (choice : Option (String × List ToolCall))
    → Kept w round d
    → w.chat round d.messages ≡ response model u choice
    → Balanced w (used model u d).ai (d.requests ++ (d.messages ∷ []))
unfolding used
Balanced-heard w round d model u choice (n, (i, o)) r =
    let inputs = asked-spent (λ u. u.prompt_tokens) w round d n in
    let outputs = asked-spent (λ u. u.completion_tokens) w round d n in
    (
      omega (arith, inputs, ap (tokens_of (λ u. u.prompt_tokens)) r),
      omega (arith, outputs, ap (tokens_of (λ u. u.completion_tokens)) r),
    )

Balanced-Rules :
    (w : World) (cfg : RoundConfig)
    → Rules w cfg (Kept w) (λ end. Balanced w end.1.ai end.1.requests)
unfolding asked used called added
Balanced-Rules w cfg = record {
  prepare = λ round d (n, b).
      let same = prepared-SameBooks cfg round d in (rw (same.0) n, rw (same.0, same.2) b);
  over = λ round d e i. i.1;
  stop = λ d i. i.1;
  fails = λ round d e h (n, b) r.
      let inputs = asked-spent (λ u. u.prompt_tokens) w round d n in
      let outputs = asked-spent (λ u. u.completion_tokens) w round d n in
      (
        omega (arith, inputs, ap (tokens_of (λ u. u.prompt_tokens)) r),
        omega (arith, outputs, ap (tokens_of (λ u. u.completion_tokens)) r),
      );
  final = λ round d model u choice h i r. Balanced-heard w round d model u choice i r;
  next = λ round d model u choice h i r.
      let start =
        added (assistant (content_of choice) (calls_of choice)) (heard round model u choice d) in
      let same = call_loop-Same w round 0 start [] (calls_of choice) in
      (
        ap length same.0 ∙ length-append d.requests (d.messages ∷ []) ∙ omega (arith, i.0),
        rw (same.0, same.2) (Balanced-heard w round d model u choice i r),
      );
}

-- However a diagnosis ends, the input and output tokens of its record are the sums of the prompt and
-- the completion tokens that Chat reported in the replies to its requests.
pub diagnose-Balanced :
    (w : World) (cfg : RoundConfig) (prompt model : String)
    → Balanced w (diagnose w cfg prompt model).1.ai (diagnose w cfg prompt model).1.requests
unfolding opened spent
diagnose-Balanced w cfg prompt model =
    diagnose-rule w cfg (Balanced-Rules w cfg) prompt model (refl, (refl, refl))
