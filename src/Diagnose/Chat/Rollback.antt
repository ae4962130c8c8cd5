-- ===== src/Diagnose/Chat/Rollback.antt =====
-- What an error leaves of the history when no context limit is set.
use digcore.Base.{
  ℕ, zero, suc, ◌-◌, ◌≤◌, ◌≡◌, refl, sym, ap, ◌∙◌, true, String, Option, none, some, List, [], ◌∷◌,
  ◌++◌, append_assoc, append-nil, leb, length, length-append, take-append_length, arith, map,
}
use digcore.Base.Int.{ℤ, is_nonpos}
use digcore.Ai.Message.{Message}
use digcore.Diagnose.Chat.{
  Turn, expired, failed, empty, says, Talk, assistant, user, answer_to, compacted, respond,
  conversation_loop, reslice, settle, handle_message, trim_history, max_history_messages,
  chat_max_rounds,
}
use digcore.Diagnose.Chat.Laws.{trim_history-short}

settle_failed :
    (n : ℕ) (r : Option String × List Message)
    → (settle n r).0 ≡ none
    → (settle n r).1 ≡ reslice n r.1
unfolding settle
settle_failed n (none, after) h = refl
settle_failed n (some text, after) h = cc

reslice-append : (ms more : List Message) → reslice (length ms) (ms ++ more) ≡ some ms
unfolding reslice
reslice-append ms more =
    let inside : leb (length ms) (length (ms ++ more)) ≡ true =
      ground (arith, length-append ms more) in
    rw (inside, take-append_length ms more) refl

module _ (t : Talk) (limit : ℤ) (off : is_nonpos limit ≡ true) where
  -- The history after a step has that before it as a prefix.
  abbrev Grows : List Message → Option String × List Message → Type 0
  Grows messages r = (more : List Message) × (r.1 ≡ messages ++ more)

  respond-Grows :
      (round : ℕ) (messages : List Message) (go_on : List Message → Option String × List Message)
      (turn : Turn)
      → ((h : List Message) → Grows h (go_on h))
      → Grows messages (respond t round messages messages go_on turn)
  unfolding respond
  respond-Grows round messages go_on expired g = ([], sym (append-nil messages))
  respond-Grows round messages go_on failed g = ([], sym (append-nil messages))
  respond-Grows round messages go_on empty g = ([], sym (append-nil messages))
  respond-Grows round messages go_on (says content []) g = (assistant content [] ∷ [], refl)
  respond-Grows round messages go_on (says content (c ∷ cs)) g =
      let new = assistant content (c ∷ cs) ∷ map (answer_to t round) (c ∷ cs) in
      let (more, e) = g (messages ++ new) in (new ++ more, e ∙ append_assoc messages new more)

  conversation_loop-Grows :
      (left round : ℕ) (messages : List Message)
      → Grows messages (conversation_loop t limit left round messages)
  unfolding conversation_loop compacted
  conversation_loop-Grows zero round messages = ([], sym (append-nil messages))
  conversation_loop-Grows (suc left) round messages =
      let whole : compacted limit messages ≡ messages = uncompacted messages in
      rw whole (
        respond-Grows round messages (λ h. conversation_loop t limit left (suc round) h)
          (t.turn round messages) (λ h. conversation_loop-Grows left (suc round) h))
    where
      uncompacted : (messages : List Message) → compacted limit messages ≡ messages
      uncompacted messages = rw off refl

  -- Without a context limit, and with a history of at most 40 messages: if HandleMessage ends with an
  -- error, in whatever round, the history is what it was before the message.
  pub handle_message-failed :
      (messages : List Message) (input : String)
      → length messages ≤ max_history_messages
      → (handle_message t limit messages input).0 ≡ none
      → (handle_message t limit messages input).1 ≡ some messages
  unfolding handle_message
  handle_message-failed messages input h fails =
      let asked = messages ++ (user input ∷ []) in
      let size = length-append messages (user input ∷ []) in
      let short : trim_history asked ≡ asked = trim_history-short asked (ground (arith, size)) in
      let r = conversation_loop t limit chat_max_rounds 0 asked in
      let n : length asked - 1 ≡ length messages = omega (arith, size) in
      let (more, e) = conversation_loop-Grows chat_max_rounds 0 asked in
      let e' : r.1 ≡ messages ++ (user input ∷ more) =
        e ∙ append_assoc messages (user input ∷ []) more in
      let failed_here : (settle (length messages) r).0 ≡ none = rw (short, n) at fails in
      rw (short, n)
        (settle_failed (length messages) r failed_here
          ∙ ap (reslice (length messages)) e'
          ∙ reslice-append messages (user input ∷ more))
