-- ===== src/Ai/Compact/Budget.antt =====
-- What CompactMessages keeps: the first message and the longest suffix of whole rounds in the budget.
use digcore.Base.{
  ℕ, zero, suc, ◌+◌, ◌-◌, ◌≤◌, ◌<◌, ◌≡◌, ◌⊎◌, refl, sym, ap, true, false, List, [], ◌∷◌, ltb, leb,
  ◌==◌, if◌then◌else◌, length, get_or, drop, drop_all, arith, Bool-cases, if-branch, inl, inr,
}
use digcore.Base.Int.{ℤ, pos, negsuc, is_nonpos}
use digcore.Ai.Message.{Message, estimate_message_tokens, estimate_messages_tokens, is_call}
use digcore.Ai.Compact.{
  Group, parse_message_groups, no_group, keep_loop, compact_within, compact_messages,
}
use digcore.Ai.Compact.Groups.{
  tokens_of, group_tokens, estimate-tokens_of, Answered, Cuts-at, Cuts-tokens, parse-Cuts,
  Answered-tail, Answered-cons_call_free,
}

group_tokens-drop :
    (gs : List Group) (j : ℕ)
    → j < length gs
    → group_tokens (drop j gs) ≡ (get_or gs j no_group).tokens + group_tokens (drop (suc j) gs)
group_tokens-drop [] j h = absurd (omega arith)
group_tokens-drop (g ∷ gs) zero h = refl
group_tokens-drop (g ∷ gs) (suc j) h = group_tokens-drop gs j (omega arith)

-- `k` is the first of the last groups that fit into the budget together.
abbrev pub Fits : ℕ → List Group → ℕ → Type 0
Fits budget gs k =
    (group_tokens (drop k gs) ≤ budget) × ((k ≡ 0) ⊎ (budget < group_tokens (drop (k - 1) gs)))

keep_loop-Fits :
    (budget : ℕ) (gs : List Group) (j sum : ℕ)
    → j ≤ length gs
    → sum ≡ group_tokens (drop j gs)
    → sum ≤ budget
    → Fits budget gs (keep_loop budget gs j sum j) × (keep_loop budget gs j sum j ≤ j)
unfolding keep_loop
keep_loop-Fits budget gs zero sum h s b = ((omega arith, inl refl), omega arith)
keep_loop-Fits budget gs (suc j) sum h s b =
    let t = sum + (get_or gs j no_group).tokens in
    let more : t ≡ group_tokens (drop j gs) = omega (arith, group_tokens-drop gs j (omega arith)) in
    elim (Bool-cases (ltb budget t)) [
      | inl over ↦ rw over ((omega arith, inr (ground arith)), omega arith)
      | inr under ↦
          let ih = keep_loop-Fits budget gs j t (omega arith) more (ground arith) in
          rw under (ih.0, omega (arith, ih.1))
    ]

-- The result keeps the first message and a suffix of the rest that starts with the group `k`.
abbrev pub Keeps : ℕ → Message → List Message → List Message → Type 0
Keeps budget m ms out =
    (k d : ℕ) × (out ≡ m ∷ drop d ms)
    × (tokens_of (drop d ms) ≡ group_tokens (drop k (parse_message_groups (m ∷ ms))))
    × (Answered false ms → Answered false (drop d ms))
    × Fits budget (parse_message_groups (m ∷ ms)) k

compact_within-Keeps :
    (budget : ℕ) (m : Message) (ms : List Message)
    → Keeps budget m ms (compact_within budget (m ∷ ms))
unfolding compact_within
compact_within-Keeps budget m ms =
    let gs = parse_message_groups (m ∷ ms) in
    let k = keep_loop budget gs (length gs) 0 (length gs) in
    let none_yet : 0 ≡ group_tokens (drop (length gs) gs) =
      sym (ap group_tokens (drop_all (length gs) gs (omega arith))) in
    let (fits, h) = keep_loop-Fits budget gs (length gs) 0 (omega arith) none_yet (omega arith) in
    let cuts = parse-Cuts m ms in
    elim (Bool-cases (k == 0)) [
      | inl all ↦
          let z : k ≡ 0 = ground arith in
          rw all (0, 0, refl, Cuts-tokens 1 ms gs cuts, λ a. a, rw z at fits)
      | inr not_all ↦ elim (Bool-cases (leb (length gs) k)) [
        | inl no_more ↦
            let end : drop k gs ≡ [] = drop_all k gs (ground arith) in
            let out : drop (length ms) ms ≡ [] = drop_all (length ms) ms (omega arith) in
            rw (not_all, no_more)
              (k, length ms, rw out refl, rw (out, end) refl, λ a. rw out tt, fits)
        | inr more ↦
            let (d, from, same, answered) = Cuts-at 1 ms gs k cuts (ground arith) in
            let from' : (get_or gs k no_group).start_idx ≡ suc d = omega (arith, from) in
            rw (not_all, more, from') (k, d, refl, same, answered, fits)
      ]
    ]

module _ (m : Message) (ms : List Message) where
  compact_messages-Keeps :
      (n : ℕ)
      → estimate_message_tokens m < n
      → Keeps (n - estimate_message_tokens m) m ms (compact_messages (m ∷ ms) (pos n))
  unfolding compact_messages
  compact_messages-Keeps n h =
      let gs = parse_message_groups (m ∷ ms) in
      let b = n - estimate_message_tokens m in
      let same : tokens_of ms ≡ group_tokens gs = Cuts-tokens 1 ms gs (parse-Cuts m ms) in
      let positive : is_nonpos (pos n) ≡ false = ground arith in
      let whole : tokens_of ms ≤ b → Keeps b m ms (m ∷ ms) =
        λ f. (0, 0, refl, same, λ a. a, (omega (arith, f), inl refl)) in
      let head_fits : leb n (estimate_message_tokens m) ≡ false = ground arith in
      elim (Bool-cases (leb (length (m ∷ ms)) 1)) [
        | inl single ↦ rw single (whole (alone single))
        | inr several ↦ elim (Bool-cases (leb (estimate_messages_tokens (m ∷ ms)) n)) [
          | inl fits ↦
              rw (several, positive, fits) (whole (ground (arith, estimate-tokens_of (m ∷ ms))))
          | inr over ↦ rw (several, positive, over, head_fits) (compact_within-Keeps b m ms)
        ]
      ]
    where
      alone : leb (length (m ∷ ms)) 1 ≡ true → tokens_of ms ≤ n - estimate_message_tokens m
      alone single =
          let none_left : drop 0 ms ≡ [] = drop_all 0 ms (ground arith) in
          rw none_left (omega arith)

  -- With a budget above the estimate of the first message, CompactMessages keeps the first message and
  -- a suffix of the rest; the result's estimate is within the budget, and the suffix is that of the
  -- rounds from some round `k` on, where `k` is the first round or the round before it would exceed
  -- the budget.
  pub compact_messages_lem :
      (n : ℕ)
      → estimate_message_tokens m < n
      → let out = compact_messages (m ∷ ms) (pos n) in
        let rounds = parse_message_groups (m ∷ ms) in
        (k d : ℕ) × (out ≡ m ∷ drop d ms)
        × (estimate_messages_tokens out ≤ n)
        × (estimate_messages_tokens out ≡ estimate_message_tokens m + group_tokens (drop k rounds))
        × ((k ≡ 0) ⊎ (n < estimate_message_tokens m + group_tokens (drop (k - 1) rounds)))
  compact_messages_lem n h =
      let (k, d, e, t, a, (fits, most)) = compact_messages-Keeps n h in
      let size = estimate-tokens_of (m ∷ drop d ms) in
      (
        k,
        d,
        e,
        rw e (omega (arith, size)),
        rw e (omega (arith, size)),
        elim most [ inl z ↦ inl z | inr o ↦ inr (omega arith) ],
      )

  -- If the first message asks for no tools and each tool answer follows its call, that is so as well
  -- after CompactMessages, for any budget.
  pub compact_messages-Answered :
      (budget : ℤ)
      → is_call m ≡ false
      → Answered false (m ∷ ms)
      → Answered false (compact_messages (m ∷ ms) budget)
  unfolding compact_messages
  compact_messages-Answered (negsuc n) c a = elim (Bool-cases (leb (length (m ∷ ms)) 1)) [
    | inl single ↦ rw single a
    | inr several ↦ rw several a
  ]
  compact_messages-Answered (pos n) c a = elim (Bool-cases (ltb (estimate_message_tokens m) n)) [
    | inl room ↦
        let (k, d, e, t, f, _) = compact_messages-Keeps n (ground arith) in
        rw e (Answered-cons_call_free m ms (drop d ms) c a (f (Answered-tail m ms c a)))
    | inr tight ↦
        let head_alone : leb n (estimate_message_tokens m) ≡ true = ground arith in
        rw (head_alone) (
          if-branch (Answered false) (leb (length (m ∷ ms)) 1) {x = m ∷ ms}
            {y = if is_nonpos (pos n) then m ∷ ms else over_budget} a
            (if-branch (Answered false) (is_nonpos (pos n)) {x = m ∷ ms} {y = over_budget} a (
              if-branch (Answered false) (leb (estimate_messages_tokens (m ∷ ms)) n) {x = m ∷ ms}
                {y = m ∷ []} a (Answered-cons_call_free m ms [] c a tt))))
  ]
    where
      over_budget : List Message
      over_budget = if leb (estimate_messages_tokens (m ∷ ms)) n then m ∷ ms else m ∷ []
