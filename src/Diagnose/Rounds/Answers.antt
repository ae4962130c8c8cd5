-- ===== src/Diagnose/Rounds/Answers.antt =====
-- In the conversation of a diagnosis, answers of tools stand behind calls: what compaction needs.
use digcore.Base.{
  ℕ, suc, ◌-◌, ◌*◌, ◌/◌, ◌≡◌, refl, ◌∙◌, Bool, true, false, ◌||◌, ◌&&◌, String, List, [], ◌∷◌, ◌++◌,
  All, All-append, Bool-cases, inl, inr, arith, if-branch, drop, get_or, leb, ltb, length, ◌==◌,
  not,
}
use digcore.Base.Int.{ℤ, is_nonpos, to_nat}
use digcore.Ai.Message.{
  ToolCall, Message, is_call, is_tool, estimate_message_tokens, estimate_messages_tokens,
}
use digcore.Ai.Compact.{compact_within, compact_messages, parse_message_groups, keep_loop, no_group}
use digcore.Ai.Compact.Groups.{Answered}
use digcore.Ai.Compact.Budget.{compact_messages-Answered}
use digcore.Diagnose.Chat.{assistant}
use digcore.Diagnose.Rounds.{
  World, RoundConfig, Dialogue, ToolCallRecord, asked, used, ran, called, call_loop, call_record,
  added, say, content_of, calls_of, compacted, warned, exceeds, tool_message, context_warning,
  last_round_warning,
}
use digcore.Diagnose.Rounds.Laws.{heard, Rules}
use digcore.Diagnose.Rounds.Books.{call_loop-Same}

-- A conversation that may stand alone may stand behind a call.
Answered-weaken : (ready : Bool) (ms : List Message) → Answered false ms → Answered ready ms
Answered-weaken ready [] a = tt
Answered-weaken ready (m ∷ ms) (f, a) = elim (Bool-cases (is_tool m)) [
  | inl tool ↦ cc (f tool)
  | inr plain ↦ (λ t. cc, rw plain (rw plain at a))
]

Answered-append :
    (ready : Bool) (ms ns : List Message)
    → Answered ready ms
    → Answered false ns
    → Answered ready (ms ++ ns)
Answered-append ready [] ns a b = Answered-weaken ready ns b
Answered-append ready (m ∷ ms) ns (f, a) b =
    (f, Answered-append (is_call m || (is_tool m && ready)) ms ns a b)

-- Whether an answer may come behind a conversation.
ready_after : Bool → List Message → Bool
ready_after ready [] = ready
ready_after ready (m ∷ ms) = ready_after (is_call m || (is_tool m && ready)) ms

Answered-snoc :
    (ready : Bool) (ms : List Message) (m : Message)
    → Answered ready ms
    → (is_tool m ≡ true → ready_after ready ms ≡ true)
    → Answered ready (ms ++ (m ∷ []))
unfolding ready_after
Answered-snoc ready [] m a h = (h, tt)
Answered-snoc ready (k ∷ ms) m (f, a) h =
    (f, Answered-snoc (is_call k || (is_tool k && ready)) ms m a h)

ready_after-snoc :
    (ready : Bool) (ms : List Message) (m : Message)
    → ready_after ready (ms ++ (m ∷ [])) ≡ (is_call m || (is_tool m && ready_after ready ms))
unfolding ready_after
ready_after-snoc ready [] m = refl
ready_after-snoc ready (k ∷ ms) m = ready_after-snoc (is_call k || (is_tool k && ready)) ms m

-- The first message asks for no tools.
abbrev pub Headed : List Message → Type 0
Headed [] = ⊥
Headed (m ∷ ms) = is_call m ≡ false

Headed-append : (ms ns : List Message) → Headed ms → Headed (ms ++ ns)
Headed-append [] ns h = elim h [ ]
Headed-append (m ∷ ms) ns h = h

compact_within-Headed :
    (budget : ℕ) (ms : List Message) → Headed ms → Headed (compact_within budget ms)
unfolding compact_within
compact_within-Headed budget [] h = elim h [ ]
compact_within-Headed budget (m ∷ ms) h =
    let groups = parse_message_groups (m ∷ ms) in
    let keep_from = keep_loop budget groups (length groups) 0 (length groups) in
    if-branch Headed (keep_from == 0) {x = m ∷ ms} h (
      if-branch Headed (leb (length groups) keep_from) {x = m ∷ []}
        {y = m ∷ drop (get_or groups keep_from no_group).start_idx (m ∷ ms)} h h)

-- CompactMessages keeps the first message.
compact_messages-Headed :
    (ms : List Message) (budget : ℤ) → Headed ms → Headed (compact_messages ms budget)
unfolding compact_messages
compact_messages-Headed [] budget h = h
compact_messages-Headed (m ∷ ms) budget h =
    if-branch Headed (leb (length (m ∷ ms)) 1) {x = m ∷ ms} h (
      if-branch Headed (is_nonpos budget) {x = m ∷ ms} h (
        if-branch Headed (leb (estimate_messages_tokens (m ∷ ms)) (to_nat budget)) {x = m ∷ ms} h (
          if-branch Headed (leb (to_nat budget) (estimate_message_tokens m)) {x = m ∷ []} h
            (compact_within-Headed (to_nat budget - estimate_message_tokens m) (m ∷ ms) h))))

compact_messages-kept :
    (ms : List Message) (budget : ℤ)
    → Headed ms
    → Answered false ms
    → Answered false (compact_messages ms budget)
compact_messages-kept [] budget h a = elim h [ ]
compact_messages-kept (m ∷ ms) budget h a = compact_messages-Answered m ms budget h a

-- The conversation that the next request sends, and those sent so far.
abbrev pub Sound : Dialogue → Type 0
Sound d = Headed d.messages × Answered false d.messages × All (Answered false) d.requests

say-Sound : (m : Message) (d : Dialogue) → is_tool m ≡ false → Sound d → Sound (say m d)
say-Sound m d plain (h, a, r) = (
  Headed-append d.messages (m ∷ []) h,
  Answered-append false d.messages (m ∷ []) a (λ t. cc, tt),
  r,
)

prepared-Sound :
    (cfg : RoundConfig) (round : ℕ) (d : Dialogue)
    → Sound d
    → Sound (warned cfg round (compacted cfg.context_window_limit d))
unfolding compacted warned
prepared-Sound cfg round d (h, a, r) = warn (compacted cfg.context_window_limit d) kept
  where
    kept : Sound (compacted cfg.context_window_limit d)
    kept =
        if-branch Sound (exceeds d.estimated_tokens cfg.context_window_limit)
          (
            compact_messages-Headed d.messages cfg.context_window_limit h,
            compact_messages-kept d.messages cfg.context_window_limit h a,
            r,
          )
          (h, a, r)

    warn : (e : Dialogue) → Sound e → Sound (warned cfg round e)
    warn e s =
        let flagged = record e { context_warned = true } in
        if-branch Sound
          (not (is_nonpos cfg.context_window_limit)
            && (not e.context_warned
                && ltb (to_nat cfg.context_window_limit * 90 / 100) e.estimated_tokens))
          {x = say context_warning flagged} (say-Sound context_warning flagged refl s)
          (if-branch Sound (round == cfg.max_rounds - 1) {x = say last_round_warning e}
            (say-Sound last_round_warning e refl s) s)

-- The answers of a round stand behind its calls.
call_loop-Answered :
    (w : World) (round i : ℕ) (d : Dialogue) (records : List ToolCallRecord) (calls : List ToolCall)
    → Headed d.messages × Answered false d.messages
    → ready_after false d.messages ≡ true
    → Headed (call_loop w round i d records calls).0.messages
      × Answered false (call_loop w round i d records calls).0.messages
unfolding call_loop ran added
call_loop-Answered w round i d records [] s ready = s
call_loop-Answered w round i d records (tc ∷ tcs) (h, a) ready =
    let o = w.execute round i tc in
    let m = tool_message w tc o in
    call_loop-Answered w round (suc i) (ran w round tc o d) (records ++ (call_record w tc o ∷ []))
      tcs (Headed-append d.messages (m ∷ []) h, Answered-snoc false d.messages m a (λ t. ready))
      (ready_after-snoc false d.messages m ∙ ground (arith, ready))

called-Sound :
    (w : World) (round : ℕ) (content : String) (calls : List ToolCall) (d : Dialogue)
    → Sound d
    → Sound (called w round content calls d)
unfolding called added call_loop
called-Sound w round content calls d (h, a, q) =
    let m = assistant content calls in
    let start = added m d in
    let same = call_loop-Same w round 0 start [] calls in
    let (h', a') =
      around calls start
        (
          Headed-append d.messages (m ∷ []) h,
          Answered-append false d.messages (m ∷ []) a (λ t. cc, tt),
        )
        (λ some_calls. ready_after-snoc false d.messages m ∙ ground (arith, some_calls)) in
    (h', a', rw (same.0) q)
  where
    around :
        (cs : List ToolCall) (s : Dialogue)
        → Headed s.messages × Answered false s.messages
        → (ltb 0 (length cs) ≡ true → ready_after false s.messages ≡ true)
        → Headed (call_loop w round 0 s [] cs).0.messages
          × Answered false (call_loop w round 0 s [] cs).0.messages
    around [] s i ready = i
    around (c ∷ cs) s i ready = call_loop-Answered w round 0 s [] (c ∷ cs) i (ready (ground arith))

pub Sound-Rules :
    (w : World) (cfg : RoundConfig)
    → Rules w cfg (λ round d. Sound d) (λ end. All (Answered false) end.1.requests)
unfolding asked used called added
Sound-Rules w cfg = record {
  prepare = λ round d i. prepared-Sound cfg round d i;
  over = λ round d e i. i.2;
  stop = λ d i. i.2;
  fails = λ round d e h i r. sent d i;
  final = λ round d model u choice h i r. sent d i;
  next = λ round d model u choice h (t, a, q) r.
      let e = heard round model u choice d in
      called-Sound w round (content_of choice) (calls_of choice) e (t, a, sent d (t, a, q));
}
  where
    sent : (d : Dialogue) → Sound d → All (Answered false) (d.requests ++ (d.messages ∷ []))
    sent d (h, a, r) = All-append (Answered false) d.requests (d.messages ∷ []) r (a, tt)
