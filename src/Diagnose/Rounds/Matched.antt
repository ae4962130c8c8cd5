-- ===== src/Diagnose/Rounds/Matched.antt =====
-- In each request of a diagnosis, the answers of tools carry the ids of the calls in front of them.
use digcore.Base.{
  ℕ, suc, ◌*◌, ◌/◌, ◌≡◌, refl, sym, ap, subst, ◌∙◌, true, false, not, ◌&&◌, Option, none, some,
  String, List, [], ◌∷◌, ◌++◌, map, str_eq, if◌then◌else◌, ltb, leb, length, All, All-append,
  Bool-cases, inl, inr, if-branch, take, drop, drop_all, take-append-drop, arith, ◌==◌, ◌-◌,
}
use text.Mathlib.TextPositions.{eq_refl}
use digcore.Base.Int.{ℤ, pos, negsuc, is_nonpos, to_nat}
use digcore.Ai.Message.{
  ToolCall, Message, is_call, is_tool, estimate_message_tokens, estimate_messages_tokens,
}
use digcore.Ai.Compact.{compact_messages}
use digcore.Ai.Compact.Groups.{Answered, Answered-tail}
use digcore.Ai.Compact.Budget.{compact_messages_lem, compact_messages-Answered}
use digcore.Diagnose.Chat.{assistant}
use digcore.Diagnose.Rounds.{
  World, RoundConfig, Dialogue, ToolCallRecord, asked, used, ran, called, call_loop, call_record,
  added, say, content_of, calls_of, opened, diagnose, compacted, warned, exceeds, tool_message,
  context_warning, last_round_warning,
}
use digcore.Diagnose.Rounds.Laws.{heard, Rules, diagnose-rule}
use digcore.Diagnose.Rounds.Books.{call_loop-Same}
use digcore.Diagnose.Rounds.Answers.{Headed, Sound, Sound-Rules}

-- The ids of the calls that a message makes.
abbrev call_ids : Message → List String
call_ids m = if is_call m then map (λ c. c.id) m.tool_calls else []

-- An answer takes the first of the ids that are due; any other message may come when none is, and its
-- calls are due then.
abbrev settled : String → List String → Option (List String)
settled id [] = none
settled id (p ∷ ps) = if str_eq id p then some ps else none

abbrev begun : Message → List String → Option (List String)
begun m [] = some (call_ids m)
begun m (p ∷ ps) = none

abbrev expect : Option (List String) → Message → Option (List String)
expect none m = none
expect (some ps) m = if is_tool m then settled m.tool_call_id ps else begun m ps

-- The ids that are due behind a conversation, if it is well formed.
abbrev pub due : Option (List String) → List Message → Option (List String)
due o [] = o
due o (m ∷ ms) = due (expect o m) ms

-- Each message that calls tools has the answers to all its calls directly behind it, in the order of
-- the calls and with their ids; and there are no other answers.
abbrev pub IsMatched : List Message → Type 0
IsMatched ms = due (some []) ms ≡ some []

due-none : (ms : List Message) → due none ms ≡ none
due-none [] = refl
due-none (m ∷ ms) = due-none ms

due-append :
    (o : Option (List String)) (xs ys : List Message) → due o (xs ++ ys) ≡ due (due o xs) ys
due-append o [] ys = refl
due-append o (x ∷ xs) ys = due-append (expect o x) xs ys

-- A conversation that does not begin with an answer is matched if it is in its place.
due-suffix :
    (ps : List String) (ms : List Message)
    → Answered false ms
    → due (some ps) ms ≡ some []
    → IsMatched ms
due-suffix ps [] a h = refl
due-suffix [] (m ∷ ms) a h = h
due-suffix (p ∷ ps) (m ∷ ms) a h = elim (Bool-cases (is_tool m)) [
  | inl tool ↦ cc (a.0 tool)
  | inr plain ↦ cc (due-none ms, rw plain at h)
]

due-drop :
    (o : Option (List String)) (ms : List Message)
    → Answered false ms
    → due o ms ≡ some []
    → IsMatched ms
due-drop none ms a h = cc (due-none ms, h)
due-drop (some ps) ms a h = due-suffix ps ms a h

-- The first message makes no call and is no answer.
head-free :
    (m : Message) (ms : List Message)
    → is_call m ≡ false
    → IsMatched (m ∷ ms)
    → expect (some []) m ≡ some []
head-free m ms c h = elim (Bool-cases (is_tool m)) [
  | inl tool ↦ cc (due-none ms, rw tool at h)
  | inr plain ↦ rw (plain, c) refl
]

module _ (m : Message) (ms : List Message) where
  abbrev Suffix : List Message → Type 0
  Suffix out = (d : ℕ) × (out ≡ m ∷ drop d ms)

  -- CompactMessages keeps the first message and a suffix of the rest.
  compact_messages-Suffix : (budget : ℤ) → Suffix (compact_messages (m ∷ ms) budget)
  unfolding compact_messages
  compact_messages-Suffix (negsuc n) =
      if-branch Suffix (leb (length (m ∷ ms)) 1) {x = m ∷ ms} (0, refl) (0, refl)
  compact_messages-Suffix (pos n) = elim (Bool-cases (ltb (estimate_message_tokens m) n)) [
    | inl room ↦ let (k, d, e, _, _, _) = compact_messages_lem m ms n (ground arith) in (d, e)
    | inr tight ↦
        let head_alone : leb n (estimate_message_tokens m) ≡ true = ground arith in
        let gone : Suffix (m ∷ []) =
          (length ms, ap (λ x. m ∷ x) (sym (drop_all (length ms) ms (omega arith)))) in
        rw head_alone (
          if-branch Suffix (leb (length (m ∷ ms)) 1) {x = m ∷ ms} (0, refl)
            (if-branch Suffix (is_nonpos (pos n)) {x = m ∷ ms} (0, refl)
              (if-branch Suffix (leb (estimate_messages_tokens (m ∷ ms)) n) {x = m ∷ ms}
                {y = m ∷ []} (0, refl) gone)))
  ]

  suffix-IsMatched :
      (d : ℕ)
      → is_call m ≡ false
      → Answered false (m ∷ drop d ms)
      → IsMatched (m ∷ ms)
      → IsMatched (m ∷ drop d ms)
  suffix-IsMatched d c a h =
      let free = head-free m ms c h in
      let whole : due (due (some []) (take d ms)) (drop d ms) ≡ some [] =
        sym (due-append (some []) (take d ms) (drop d ms))
        ∙ ap (due (some [])) (take-append-drop d ms)
        ∙ ap (λ o. due o ms) (sym free)
        ∙ h in
      ap (λ o. due o (drop d ms)) free
      ∙ due-drop (due (some []) (take d ms)) (drop d ms) (Answered-tail m (drop d ms) c a) whole

compact_messages-IsMatched :
    (ms : List Message) (budget : ℤ)
    → Headed ms
    → Answered false ms
    → IsMatched ms
    → IsMatched (compact_messages ms budget)
compact_messages-IsMatched [] budget h a i = elim h [ ]
compact_messages-IsMatched (m ∷ ms) budget h a i =
    let (d, e) = compact_messages-Suffix m ms budget in
    let kept = subst (Answered false) e (compact_messages-Answered m ms budget h a) in
    subst IsMatched (sym e) (suffix-IsMatched m ms d h kept i)

-- The conversation that the next request sends, and those sent so far.
abbrev AllMatched : Dialogue → Type 0
AllMatched d = IsMatched d.messages × All IsMatched d.requests

due-snoc :
    (ms : List Message) (m : Message) (ps : List String)
    → due (some []) ms ≡ some ps
    → due (some []) (ms ++ (m ∷ [])) ≡ expect (some ps) m
due-snoc ms m ps h = due-append (some []) ms (m ∷ []) ∙ ap (λ o. expect o m) h

prepared-AllMatched :
    (cfg : RoundConfig) (round : ℕ) (d : Dialogue)
    → Sound d
    → AllMatched d
    → AllMatched (warned cfg round (compacted cfg.context_window_limit d))
unfolding compacted warned
prepared-AllMatched cfg round d (h, a, _) (i, r) = warn (compacted cfg.context_window_limit d) kept
  where
    kept : AllMatched (compacted cfg.context_window_limit d)
    kept =
        if-branch AllMatched (exceeds d.estimated_tokens cfg.context_window_limit)
          (compact_messages-IsMatched d.messages cfg.context_window_limit h a i, r) (i, r)

    warn : (e : Dialogue) → AllMatched e → AllMatched (warned cfg round e)
    warn e (j, s) =
        if-branch AllMatched
          (not (is_nonpos cfg.context_window_limit)
            && (not e.context_warned
                && ltb (to_nat cfg.context_window_limit * 90 / 100) e.estimated_tokens))
          {x = say context_warning (record e { context_warned = true })}
          (due-snoc e.messages context_warning [] j, s)
          (if-branch AllMatched (round == cfg.max_rounds - 1) {x = say last_round_warning e}
            (due-snoc e.messages last_round_warning [] j, s) (j, s))

-- The loop over the calls that are due answers them all.
call_loop-IsMatched :
    (w : World) (round i : ℕ) (d : Dialogue) (records : List ToolCallRecord) (calls : List ToolCall)
    → due (some []) d.messages ≡ some (map (λ c. c.id) calls)
    → IsMatched (call_loop w round i d records calls).0.messages
unfolding call_loop ran added
call_loop-IsMatched w round i d records [] h = h
call_loop-IsMatched w round i d records (tc ∷ tcs) h =
    let o = w.execute round i tc in
    let ids = map (λ c. c.id) tcs in
    let this : expect (some (tc.id ∷ ids)) (tool_message w tc o) ≡ some ids =
      ap (λ b. if b then some ids else none) (eq_refl tc.id) in
    call_loop-IsMatched w round (suc i) (ran w round tc o d) (records ++ (call_record w tc o ∷ []))
      tcs (due-snoc d.messages (tool_message w tc o) (tc.id ∷ ids) h ∙ this)

expect-assistant :
    (content : String) (calls : List ToolCall)
    → expect (some []) (assistant content calls) ≡ some (map (λ c. c.id) calls)
expect-assistant content [] = refl
expect-assistant content (c ∷ cs) = ground arith

called-AllMatched :
    (w : World) (round : ℕ) (content : String) (calls : List ToolCall) (d : Dialogue)
    → AllMatched d
    → AllMatched (called w round content calls d)
unfolding called added call_loop
called-AllMatched w round content calls d (i, r) =
    let m = assistant content calls in
    let same = call_loop-Same w round 0 (added m d) [] calls in
    (
      call_loop-IsMatched w round 0 (added m d) [] calls
          (due-snoc d.messages m [] i ∙ expect-assistant content calls),
      rw (same.0) r,
    )

Matched-Rules :
    (w : World) (cfg : RoundConfig)
    → Rules w cfg (λ round d. Sound d × AllMatched d) (λ end. All IsMatched end.1.requests)
unfolding asked used called added
Matched-Rules w cfg =
    let sound = Sound-Rules w cfg in
    record {
      prepare = λ round d (s, i). (sound.prepare round d s, prepared-AllMatched cfg round d s i);
      over = λ round d e (s, i). i.1;
      stop = λ d (s, i). i.1;
      fails = λ round d e h (s, i) r. sent d i;
      final = λ round d model u choice h (s, i) r. sent d i;
      next = λ round d model u choice h (s, i) r. (
        sound.next round d model u choice h s r,
        called-AllMatched w round (content_of choice) (calls_of choice)
            (heard round model u choice d) (i.0, sent d i),
      );
    }
  where
    sent : (d : Dialogue) → AllMatched d → All IsMatched (d.requests ++ (d.messages ∷ []))
    sent d (i, r) = All-append IsMatched d.requests (d.messages ∷ []) r (i, tt)

-- In each conversation that a diagnosis sends to the model, however often it was compacted, each message
-- that calls tools has the answers to all its calls directly behind it, in the order of the calls and
-- with their ids; and there are no other answers.
pub diagnose-IsMatched :
    (w : World) (cfg : RoundConfig) (prompt model : String)
    → All IsMatched (diagnose w cfg prompt model).1.requests
unfolding opened
diagnose-IsMatched w cfg prompt model =
    diagnose-rule w cfg (Matched-Rules w cfg) prompt model ((refl, (λ t. cc, tt), tt), (refl, tt))
