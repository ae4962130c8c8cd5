-- ===== src/Ai/Compact/Groups.antt =====
-- What parseMessageGroups finds: consecutive rounds that make up the whole conversation.
use digcore.Base.{
  ℕ, zero, suc, ◌+◌, ◌≤◌, ◌<◌, ◌≡◌, refl, ◌∙◌, Bool, true, false, ◌&&◌, ◌||◌, List, [], ◌∷◌,
  if◌then◌else◌, length, get_or, drop, take, length-drop, drop-drop, eq_iff, subst, arith,
  Bool-cases, inl, inr,
}
use digcore.Ai.Message.{
  Message, estimate_message_tokens, messages_tokens_from, estimate_messages_tokens, is_call,
  is_tool,
}
use digcore.Ai.Compact.{Group, tool_run, groups_from, parse_message_groups, no_group}

-- The estimates of all messages, added up.
abbrev pub tokens_of : List Message → ℕ
tokens_of [] = 0
tokens_of (m ∷ ms) = estimate_message_tokens m + tokens_of ms

abbrev pub group_tokens : List Group → ℕ
group_tokens [] = 0
group_tokens (g ∷ gs) = g.tokens + group_tokens gs

messages_tokens_from-tokens_of :
    (t : ℕ) (ms : List Message) → messages_tokens_from t ms ≡ t + tokens_of ms
unfolding messages_tokens_from
messages_tokens_from-tokens_of t [] = omega arith
messages_tokens_from-tokens_of t (m ∷ ms) =
    omega (arith, messages_tokens_from-tokens_of (t + estimate_message_tokens m) ms)

pub estimate-tokens_of : (ms : List Message) → estimate_messages_tokens ms ≡ tokens_of ms
unfolding estimate_messages_tokens
estimate-tokens_of ms = omega (arith, messages_tokens_from-tokens_of 0 ms)

-- Each tool answer follows its call, with only other answers between. The flag says whether an
-- answer may come next.
abbrev pub Answered : Bool → List Message → Type 0
Answered ready [] = Unit {0}
Answered ready (m ∷ ms) =
    (is_tool m ≡ true → ready ≡ true) × Answered (is_call m || (is_tool m && ready)) ms

-- The length of the run of tool answers at the front.
run_length : List Message → ℕ
run_length [] = 0
run_length (m ∷ ms) = if is_tool m then suc (run_length ms) else 0

tool_run_lem :
    (t n : ℕ) (ms : List Message)
    → tool_run t n ms ≡ (t + tokens_of (take (run_length ms) ms), n + run_length ms)
unfolding tool_run run_length
tool_run_lem t n [] = ground arith
tool_run_lem t n (m ∷ ms) = elim (Bool-cases (is_tool m)) [
  | inl tool ↦ rw tool (tool_run_lem (t + estimate_message_tokens m) (n + 1) ms ∙ ground arith)
  | inr other ↦ rw other (ground arith)
]

tool_run_zero :
    (t : ℕ) (ms : List Message)
    → tool_run t 0 ms ≡ (t + tokens_of (take (run_length ms) ms), run_length ms)
tool_run_zero t ms = tool_run_lem t 0 ms ∙ ground arith

-- A call is no answer.
call_no_tool : (m : Message) → is_call m ≡ true → is_tool m ≡ false
call_no_tool m h =
    ground (arith, eq_iff m.role "assistant", eq_iff m.role "tool", eq_iff "assistant" "tool")

-- Behind a run of answers no answer is due.
Answered-run_length :
    (ready : Bool) (ms : List Message)
    → Answered ready ms
    → Answered false (drop (run_length ms) ms)
unfolding run_length
Answered-run_length ready [] a = tt
Answered-run_length ready (m ∷ ms) (ok, a) = elim (Bool-cases (is_tool m)) [
  | inl tool ↦ rw tool (Answered-run_length (is_call m || (is_tool m && ready)) ms a)
  | inr other ↦ rw other (λ x. cc, rw other (rw other at (a)))
]

-- The groups cover the messages from index `i` on, one after another, each with its tokens; and no
-- group begins with an answer whose call stands before it.
abbrev pub Cuts : ℕ → List Message → List Group → Type 0
Cuts i ms [] = ms ≡ []
Cuts i ms (g ∷ gs) =
    (n : ℕ) × (g.start_idx ≡ i)
    × (g.tokens + tokens_of (drop n ms) ≡ tokens_of ms)
    × (Answered false ms → Answered false (drop n ms))
    × Cuts (i + n) (drop n ms) gs

tokens_of-take-drop :
    (n : ℕ) (ms : List Message) → tokens_of (take n ms) + tokens_of (drop n ms) ≡ tokens_of ms
tokens_of-take-drop zero ms = omega arith
tokens_of-take-drop (suc n) [] = omega arith
tokens_of-take-drop (suc n) (m ∷ ms) = omega (arith, tokens_of-take-drop n ms)

-- In front of a conversation, a message that is no call.
pub Answered-tail :
    (m : Message) (ms : List Message)
    → is_call m ≡ false
    → Answered false (m ∷ ms)
    → Answered false ms
Answered-tail m ms c a = elim (Bool-cases (is_tool m)) [
  | inl tool ↦ cc (a.0 tool)
  | inr plain ↦ rw (c, plain) at (a.1)
]

groups_from-Cuts :
    (fuel i : ℕ) (ms : List Message) → length ms ≤ fuel → Cuts i ms (groups_from fuel i ms)
unfolding groups_from
groups_from-Cuts zero i [] h = refl
groups_from-Cuts zero i (m ∷ ms) h = absurd (omega arith)
groups_from-Cuts (suc fuel) i [] h = refl
groups_from-Cuts (suc fuel) i (m ∷ ms) h = elim (Bool-cases (is_call m)) [
  | inl call ↦
      let r = run_length ms in
      let next : i + 1 + r ≡ i + suc r = omega arith in
      let short : length (drop r ms) ≤ fuel = omega (arith, length-drop r ms) in
      rw (call, tool_run_zero (estimate_message_tokens m) ms)
        (
          suc r,
          refl,
          omega (arith, tokens_of-take-drop r ms),
          λ a. Answered-run_length _ ms a.1,
          subst (λ j. Cuts j (drop r ms) (groups_from fuel (i + 1 + r) (drop r ms))) next
              (groups_from-Cuts fuel (i + 1 + r) (drop r ms) short),
        )
  | inr other ↦ rw other (
    1,
    refl,
    omega arith,
    λ a. Answered-tail m ms other a,
    groups_from-Cuts fuel (i + 1) ms (omega arith),
  )
]

pub Cuts-tokens :
    (i : ℕ) (ms : List Message) (gs : List Group) → Cuts i ms gs → tokens_of ms ≡ group_tokens gs
Cuts-tokens i ms [] c = rw c
Cuts-tokens i ms (g ∷ gs) (n, s, t, a, c) = omega (arith, Cuts-tokens (i + n) (drop n ms) gs c)

-- A group found at position `k` starts a stretch of the conversation that has the tokens of the
-- groups from `k` on.
pub Cuts-at :
    (i : ℕ) (ms : List Message) (gs : List Group) (k : ℕ)
    → Cuts i ms gs
    → k < length gs
    → (d : ℕ) × ((get_or gs k no_group).start_idx ≡ i + d)
      × (tokens_of (drop d ms) ≡ group_tokens (drop k gs))
      × (Answered false ms → Answered false (drop d ms))
Cuts-at i ms [] k c h = absurd (omega arith)
Cuts-at i ms (g ∷ gs) zero c h = (0, omega (arith, c.1), Cuts-tokens i ms (g ∷ gs) c, λ a. a)
Cuts-at i ms (g ∷ gs) (suc k) (n, s, t, a, c) h =
    let (d, from, same, answered) = Cuts-at (i + n) (drop n ms) gs k c (omega arith) in
    (
      n + d,
      omega arith,
      rw (← drop-drop d n ms) same,
      λ x. rw (← drop-drop d n ms) (answered (a x)),
    )

pub parse-Cuts : (m : Message) (ms : List Message) → Cuts 1 ms (parse_message_groups (m ∷ ms))
unfolding parse_message_groups
parse-Cuts m ms = groups_from-Cuts (suc (length ms)) 1 ms (omega arith)

pub Answered-cons_call_free :
    (m : Message) (ms rest : List Message)
    → is_call m ≡ false
    → Answered false (m ∷ ms)
    → Answered false rest
    → Answered false (m ∷ rest)
Answered-cons_call_free m ms rest c a r = elim (Bool-cases (is_tool m)) [
  | inl tool ↦ cc (a.0 tool)
  | inr plain ↦ (a.0, rw (c, plain) r)
]
