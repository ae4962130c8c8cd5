-- ===== src/Diagnose/Chat/Laws.antt =====
-- What trimHistory keeps.
use digcore.Base.{
  ℕ, zero, suc, ◌+◌, ◌-◌, ◌≤◌, ◌<◌, ◌≡◌, refl, sym, ap, ◌∙◌, Bool, true, false, ◌||◌, ◌&&◌, List,
  [], ◌∷◌, ◌++◌, leb, ltb, length, length-append, length-drop, drop, drop-drop, drop-append, arith,
  Bool-cases, inl, inr,
}
use digcore.Ai.Message.{Message, is_call, is_tool}
use digcore.Ai.Compact.Groups.{Answered, Answered-cons_call_free}
use digcore.Diagnose.Chat.{max_history_messages, safe_cut, trim_history}

-- Behind the messages that the loop skips, the next one is neither a call nor an answer, if there is
-- such a message.
safe_cut_lem :
    (i : ℕ) (ms : List Message) (u : Message)
    → is_tool u ≡ false
    → is_call u ≡ false
    → (n : ℕ) × (x : Message) × (rest : List Message) × (safe_cut i (ms ++ (u ∷ [])) ≡ i + n)
      × (n ≤ length ms)
      × (drop n (ms ++ (u ∷ [])) ≡ x ∷ rest)
      × (is_tool x ≡ false)
unfolding safe_cut
safe_cut_lem i [] u t c = (0, u, [], rw (t, c) (omega arith), omega arith, refl, t)
safe_cut_lem i (m ∷ ms) u t c = elim (Bool-cases (is_tool m || is_call m)) [
  | inl skipped ↦
      let (n, x, rest, e, h, d, p) = safe_cut_lem (suc i) ms u t c in
      (suc n, x, rest, rw skipped (omega (arith, e)), omega arith, d, p)
  | inr kept ↦ (0, m, ms ++ (u ∷ []), rw kept (omega arith), omega arith, refl, ground arith)
]

-- Any suffix of an answered conversation is answered, once it starts with a message that is no answer.
Answered-drop :
    (ready : Bool) (ms : List Message) (n : ℕ) (x : Message) (rest : List Message)
    → Answered ready ms
    → drop n ms ≡ x ∷ rest
    → is_tool x ≡ false
    → Answered false (drop n ms)
Answered-drop ready [] zero x rest a e p = tt
Answered-drop ready (m ∷ ms) zero x rest a e p =
    let same : is_tool m ≡ false = cc in rw same (λ b. cc, rw same at (a.1))
Answered-drop ready [] (suc n) x rest a e p = tt
Answered-drop ready (m ∷ ms) (suc n) x rest a e p =
    Answered-drop (is_call m || (is_tool m && ready)) ms n x rest a.1 e p

-- What trimHistory keeps of a history that ends with a user's message: all of it if it is short, and
-- else the first message and a suffix that starts with a message that is no answer.
trim_history-cut :
    (m u : Message) (ms : List Message)
    → is_tool u ≡ false
    → is_call u ≡ false
    → max_history_messages < length (ms ++ (u ∷ []))
    → (k : ℕ) × (x : Message) × (rest : List Message) × (trim_history (m ∷ (ms ++ (u ∷ [])))
        ≡ m ∷ drop k (m ∷ (ms ++ (u ∷ []))))
      × (length (ms ++ (u ∷ [])) ≤ k + (max_history_messages - 1))
      × (k ≤ length (ms ++ (u ∷ [])))
      × (drop k (m ∷ (ms ++ (u ∷ []))) ≡ x ∷ rest)
      × (is_tool x ≡ false)
unfolding trim_history
trim_history-cut m u ms t c h =
    let all = m ∷ (ms ++ (u ∷ [])) in
    let size = length-append ms (u ∷ []) in
    let j = length (ms ++ (u ∷ [])) - max_history_messages in
    let cut : length all - max_history_messages ≡ suc j = omega arith in
    let behind : drop j (ms ++ (u ∷ [])) ≡ drop j ms ++ (u ∷ []) =
      drop-append j ms (u ∷ []) (omega (arith, size)) in
    let (n, x, rest, e, b, d, p) = safe_cut_lem (suc j) (drop j ms) u t c in
    let here : safe_cut (suc j) (drop j (ms ++ (u ∷ []))) ≡ suc j + n = rw behind e in
    let inside : suc j + n < length all = omega (arith, size, length-drop j ms) in
    let long : leb (length all) (max_history_messages + 1) ≡ false = ground arith in
    let safe : ltb (suc j + n) (length all) ≡ true = ground arith in
    let tail : drop (suc j + n) all ≡ x ∷ rest =
      sym (drop-drop n (suc j) all) ∙ ap (drop n) behind ∙ d in
    (suc j + n, x, rest, rw (cut, here, long, safe) refl, omega arith, omega arith, tail, p)

pub trim_history-short :
    (all : List Message)
    → leb (length all) (max_history_messages + 1) ≡ true
    → trim_history all ≡ all
unfolding trim_history
trim_history-short all h = rw h refl

-- If the first message asks for no tools, each tool answer follows its call, and the last message is
-- neither, then trimHistory keeps each tool answer behind its call, and at most 41 messages.
pub trim_history-Answered :
    (m u : Message) (ms : List Message)
    → is_call m ≡ false
    → is_tool u ≡ false
    → is_call u ≡ false
    → Answered false (m ∷ (ms ++ (u ∷ [])))
    → Answered false (trim_history (m ∷ (ms ++ (u ∷ []))))
      × (length (trim_history (m ∷ (ms ++ (u ∷ [])))) ≤ max_history_messages + 1)
trim_history-Answered m u ms f t c a =
    let all = m ∷ (ms ++ (u ∷ [])) in
    elim (Bool-cases (leb (length all) (max_history_messages + 1))) [
      | inl short ↦ rw (trim_history-short all short) (a, ground arith)
      | inr long ↦
          let (k, x, rest, e, b, h, d, p) = trim_history-cut m u ms t c (ground arith) in
          rw e (
            Answered-cons_call_free m (ms ++ (u ∷ [])) (drop k all) f a
                (Answered-drop false all k x rest a d p),
            omega (arith, length-drop k all),
          )
    ]
