-- ===== src/Server/Handler/Slots.antt =====
-- The slots that remote sessions hold, over any sequence of messages and ends of goroutines.
use digcore.Base.{
  ℕ, suc, ◌≡◌, refl, sym, ap, ◌∙◌, Bool, true, false, String, Option, none, some, List, [], ◌∷◌,
  str_eq, ltb, length, length-append, arith, Bool-cases, inl, inr, if-branch, if◌then◌else◌, ◌==◌,
  subst,
}
use digcore.Server.Session.{RemoteSession, SessionManager, add, get}
use digcore.Server.Runs.{Sent, StartPayload}
use digcore.Diagnose.Scheduler.{
  Engine, Action, submits, proceeds, registers, records, unregisters, leaves, tries, releases,
  stops, cancels, act, submit, advance, submission_at, register_in_flight, record_usage,
  unregister_in_flight, leave, stop, cancel_in_flight, try_sem, release_sem,
}
use digcore.Diagnose.Scheduler.Laws.{IsValid, act-IsValid, advanced-IsValid}
use digcore.Server.Handler.{
  Goroutine, Node, unavailable_error, session_of, started, slotted, limited, handle_session_start,
  handle_session_input, input_to, input_for, given_back, handle_session_cancel, ServerMessage,
  disconnect, other, session_start, session_input, session_cancel, handle_server_message, running,
  without, ended,
}

-- What a node does: it handles a message of the server; a goroutine ends, with the messages that it has
-- sent; or a local diagnosis takes a step. TrySem and ReleaseSem are called by sessions alone.
pub data Step : Type 0 where
  receives : Bool → ServerMessage → Step
  ends : ℕ → List Sent → Step
  diagnoses : Action → Step

unfoldable pub local_act : Action → Engine → Engine
local_act tries e = e
local_act releases e = e
local_act (submits r) e = act e (submits r)
local_act (proceeds now today i) e = act e (proceeds now today i)
local_act (registers r) e = act e (registers r)
local_act (records now today r input output) e = act e (records now today r input output)
local_act (unregisters r) e = act e (unregisters r)
local_act (leaves id) e = act e (leaves id)
local_act stops e = act e stops
local_act cancels e = act e cancels

unfoldable pub on_engine : Action → Option Engine → Option Engine
on_engine a none = none
on_engine a (some e) = some (local_act a e)

unfoldable pub step : Node → Step → Node
unfolding handle_server_message ended running on_engine
step n (receives taken m) = handle_server_message taken m n
step n (ends number sent) = ended (running number n.goroutines) sent n
step n (diagnoses a) = record n { limiter = on_engine a n.limiter }

unfoldable pub steps : Node → List Step → Node
unfolding step
steps n [] = n
steps n (s ∷ rest) = steps (step n s) rest

-- The slots of the engine are held by its diagnoses and by the goroutines of sessions, each by one; and
-- without an engine no session runs.
abbrev pub Held : List Goroutine → Option Engine → Type 0
Held gs none = gs ≡ []
Held gs (some e) = IsValid e × (e.sessions ≡ length gs)

abbrev pub IsHeld : Node → Type 0
IsHeld n = Held n.goroutines n.limiter

sessions-leave : (e : Engine) (id : ℕ) → (leave e id).sessions ≡ e.sessions
unfolding leave
sessions-leave e id = ground arith

local_act-Held :
    (gs : List Goroutine) (a : Action) (e : Engine)
    → Held gs (some e)
    → Held gs (some (local_act a e))
unfolding local_act act submit advance register_in_flight unregister_in_flight record_usage stop
    cancel_in_flight
local_act-Held gs tries e h = h
local_act-Held gs releases e h = h
local_act-Held gs (submits r) e (v, h) = ((act-IsValid e (submits r) tt v).0, ground (arith, h))
local_act-Held gs (proceeds now today i) e (v, h) =
    let (v', (_, same)) = advanced-IsValid now today i (submission_at i e.submissions) e v in
    (v', same ∙ h)
local_act-Held gs (registers r) e (v, h) = ((act-IsValid e (registers r) tt v).0, h)
local_act-Held gs (records now today r input output) e (v, h) =
    ((act-IsValid e (records now today r input output) tt v).0, h)
local_act-Held gs (unregisters r) e (v, h) = ((act-IsValid e (unregisters r) tt v).0, h)
local_act-Held gs (leaves id) e (v, h) =
    ((act-IsValid e (leaves id) tt v).0, sessions-leave e id ∙ h)
local_act-Held gs stops e (v, h) = ((act-IsValid e stops tt v).0, h)
local_act-Held gs cancels e (v, h) = ((act-IsValid e cancels tt v).0, h)

on_engine-Held :
    (gs : List Goroutine) (a : Action) (limiter : Option Engine)
    → Held gs limiter
    → Held gs (on_engine a limiter)
unfolding on_engine
on_engine-Held gs a none h = h
on_engine-Held gs a (some e) h = local_act-Held gs a e h

-- The engine of a slot that was taken, for goroutines that do not hold it yet.
abbrev Taken : List Goroutine → Engine × Bool → Type 0
Taken gs (e, true) = IsValid e × (e.sessions ≡ suc (length gs))
Taken gs (e, false) = IsValid e × (e.sessions ≡ length gs)

try_sem-Taken : (gs : List Goroutine) (e : Engine) → Held gs (some e) → Taken gs (try_sem e)
unfolding try_sem
try_sem-Taken gs e (v, h) = pick (ltb e.held e.slots) refl
  where
    pick :
        (b : Bool)
        → ltb e.held e.slots ≡ b
        → Taken gs (
            if b
            then (record e { held = suc e.held; sessions = suc e.sessions }, true)
            else (e, false))
    pick true free = (
      record { counted = omega (arith, v.counted); bounded = ground (arith, v.bounded, free) },
      omega (arith, h),
    )
    pick false full = (v, h)

release_sem-Held :
    (n : ℕ) (e : Engine)
    → IsValid e
    → e.sessions ≡ suc n
    → IsValid (release_sem e) × ((release_sem e).sessions ≡ n)
unfolding release_sem
release_sem-Held n e v h =
    let some_held : ltb 0 e.held ≡ true = ground (arith, v.counted, h) in
    rw some_held (
      record { counted = omega (arith, v.counted, h); bounded = omega (arith, v.bounded) },
      omega (arith, h),
    )

started-Held :
    (taken : Bool) (ref : String) (p : StartPayload) (e : Engine) (r : SessionManager × Bool)
    (n : Node)
    → IsValid e
    → e.sessions ≡ suc (length n.goroutines)
    → IsHeld (started taken ref p e r n)
unfolding started
started-Held taken ref p e (m, false) n v h = release_sem-Held (length n.goroutines) e v h
started-Held taken ref p e (m, true) n v h = (v, omega (arith, h, length-append n.goroutines _))

slotted-Held :
    (taken : Bool) (ref : String) (p : StartPayload) (r : Engine × Bool) (n : Node)
    → Taken n.goroutines r
    → IsHeld (slotted taken ref p r n)
unfolding slotted
slotted-Held taken ref p (e, false) n t = t
slotted-Held taken ref p (e, true) n (v, h) =
    started-Held taken ref p e (add n.sessions (session_of n.next p)) n v h

limited-Held :
    (taken : Bool) (ref : String) (p : StartPayload) (limiter : Option Engine) (n : Node)
    → n.limiter ≡ limiter
    → IsHeld n
    → IsHeld (limited taken ref p limiter n)
unfolding limited
limited-Held taken ref p none n l h = h
limited-Held taken ref p (some e) n l h =
    if-branch IsHeld
      (str_eq (unavailable_error n.has_chat_runner n.has_diagnose_runner p.session_type) "")
      (slotted-Held taken ref p (try_sem e) n
        (try_sem-Taken n.goroutines e (subst (Held n.goroutines) l h)))
      h

start-Held :
    (taken : Bool) (ref : String) (p : Option StartPayload) (n : Node)
    → IsHeld n
    → IsHeld (handle_session_start taken ref p n)
unfolding handle_session_start
start-Held taken ref none n h = h
start-Held taken ref (some p) n h =
    if-branch IsHeld (str_eq p.session_id "") h (limited-Held taken ref p n.limiter n refl h)

input_to-Held :
    (number : Option ℕ) (text : String) (n : Node) → IsHeld n → IsHeld (input_to number text n)
unfolding input_to
input_to-Held none text n h = h
input_to-Held (some number) text n h = if-branch IsHeld (str_eq text "") h h

input_for-Held :
    (s : Option RemoteSession) (text : String) (n : Node) → IsHeld n → IsHeld (input_for s text n)
unfolding input_for
input_for-Held none text n h = h
input_for-Held (some s) text n h = input_to-Held s.cancel text n h

receives-Held :
    (taken : Bool) (n : Node) (m : ServerMessage)
    → IsHeld n
    → IsHeld (handle_server_message taken m n)
unfolding handle_server_message handle_session_input handle_session_cancel
receives-Held taken n (disconnect none) h = h
receives-Held taken n (disconnect (some after)) h = h
receives-Held taken n other h = h
receives-Held taken n (session_start ref p) h = start-Held taken ref p n h
receives-Held taken n (session_input none) h = h
receives-Held taken n (session_input (some p)) h =
    input_for-Held (get n.sessions p.session_id) p.message n h
receives-Held taken n (session_cancel none) h = h
receives-Held taken n (session_cancel (some id)) h = h

length-without :
    (number : ℕ) (gs : List Goroutine) (g : Goroutine)
    → running number gs ≡ some g
    → suc (length (without g.number gs)) ≡ length gs
unfolding running without
length-without number [] g e = cc
length-without number (x ∷ gs) g e = elim (Bool-cases (x.number == number)) [
  | inl this ↦
      let same : x ≡ g = cc (rw this at e) in
      let found : (x.number == g.number) ≡ true = ground (arith, ap (λ y. y.number) same) in
      rw found refl
  | inr differ ↦
      let later : running number gs ≡ some g = rw differ at e in
      elim (Bool-cases (x.number == g.number)) [
        | inl this ↦ rw this refl
        | inr other_one ↦ rw other_one (ap suc (length-without number gs g later))
      ]
]

ended-Held :
    (number : ℕ) (g : Option Goroutine) (sent : List Sent) (n : Node)
    → running number n.goroutines ≡ g
    → IsHeld n
    → IsHeld (ended g sent n)
unfolding ended
ended-Held number none sent n r h = h
ended-Held number (some g) sent n r h = give_back n.limiter h
  where
    fewer : suc (length (without g.number n.goroutines)) ≡ length n.goroutines
    fewer = length-without number n.goroutines g r

    give_back :
        (limiter : Option Engine)
        → Held n.goroutines limiter
        → Held (without g.number n.goroutines) (given_back limiter)
    give_back none h = absurd (none_run (length n.goroutines) fewer (ap length h))
      where
        none_run : (k : ℕ) → suc (length (without g.number n.goroutines)) ≡ k → k ≡ 0 → ⊥
        none_run k e z = absurd (omega arith)
    give_back (some e) (v, h) = release_sem-Held _ e v (h ∙ sym fewer)

-- Whatever messages the server sends, and whenever goroutines of sessions end and local diagnoses take
-- steps: from a state in which the engine's slots are held by its diagnoses and by the goroutines of
-- sessions, each by one, and without an engine no session runs, that stays so, and no more slots are
-- held than there are.
pub steps-IsHeld : (n : Node) (ss : List Step) → IsHeld n → IsHeld (steps n ss)
unfolding steps step
steps-IsHeld n [] h = h
steps-IsHeld n (receives taken m ∷ ss) h =
    steps-IsHeld (step n (receives taken m)) ss (receives-Held taken n m h)
steps-IsHeld n (ends number sent ∷ ss) h =
    steps-IsHeld (step n (ends number sent)) ss
      (ended-Held number (running number n.goroutines) sent n refl h)
steps-IsHeld n (diagnoses a ∷ ss) h =
    steps-IsHeld (step n (diagnoses a)) ss (on_engine-Held n.goroutines a n.limiter h)
