-- ===== src/Server/Handler/Laws.antt =====
-- Slots and acknowledgements of remote sessions.
use digcore.Base.{
  ◌≡◌, refl, sym, ap, ◌∙◌, ◌⊎◌, inl, inr, Bool, true, false, String, Option, none, some, [], ◌∷◌,
  ◌++◌, str_eq, ltb, arith, Option-cases, if-branch, if◌then◌else◌, is_some, subst,
}
use text.Mathlib.TextPositions.{eq_refl}
use digcore.Base.Dict
use digcore.Server.Session.{RemoteSession, SessionManager, add}
use digcore.Server.Runs.{ack, StartPayload}
use digcore.Diagnose.Scheduler.{Engine, try_sem, release_sem}
use digcore.Server.Handler.{
  Node, if_taken, send_ack, unavailable_error, session_of, started, slotted, limited,
  handle_session_start,
}

-- What handleSessionStart did to a node: it acknowledged the start, and a goroutine runs; or it refused
-- it, and no session, no goroutine and no slot has changed.
abbrev pub Replied : Bool → String → Option StartPayload → Node → Node → Type 0
Replied taken ref payload n n' =
    ((p : StartPayload) × (payload ≡ some p)
      × (n'.sent ≡ n.sent ++ if_taken taken (ack ref true ""))
      × (n'.goroutines
          ≡ n.goroutines ++ (record { number = n.next; session_id = p.session_id } ∷ []))
      × (Dict.get n.sessions.sessions p.session_id ≡ none)
      × (is_some (Dict.get n'.sessions.sessions p.session_id) ≡ true))
    ⊎ ((error : String) × (n'.sent ≡ n.sent ++ if_taken taken (ack ref false error))
        × (n'.goroutines ≡ n.goroutines)
        × (n'.sessions.sessions ≡ n.sessions.sessions)
        × (n'.limiter ≡ n.limiter))

-- What TrySem gives: a slot that ReleaseSem gives back, or nothing.
abbrev Tried : Engine → Engine × Bool → Type 0
Tried e (e', true) = release_sem e' ≡ e
Tried e (e', false) = e' ≡ e

try_sem-Tried : (e : Engine) → Tried e (try_sem e)
unfolding try_sem release_sem
try_sem-Tried e = if-branch (Tried e) (ltb e.held e.slots) (ground arith) refl

-- What add gives: a session where there was none, or nothing.
abbrev Added : SessionManager → RemoteSession → SessionManager × Bool → Type 0
Added m s (m', true) =
    (Dict.get m.sessions s.session_id ≡ none) × (m'.sessions ≡ Dict.put m.sessions s.session_id s)
Added m s (m', false) = m' ≡ m

add-Added : (m : SessionManager) (s : RemoteSession) → Added m s (add m s)
unfolding add
add-Added m s = elim (Option-cases (Dict.get m.sessions s.session_id)) [
  | inl free ↦
      let new = record m { sessions = Dict.put m.sessions s.session_id s } in
      let e : add m s ≡ (new, true) = rw (add, free) refl in subst (Added m s) (sym e) (free, refl)
  | inr (old, taken) ↦
      let e : add m s ≡ (m, false) = rw (add, taken) refl in subst (Added m s) (sym e) refl
]

started-Replied :
    (taken : Bool) (ref : String) (p : StartPayload) (e : Engine) (r : SessionManager × Bool)
    (n : Node)
    → Added n.sessions (session_of n.next p) r
    → some (release_sem e) ≡ n.limiter
    → Replied taken ref (some p) n (started taken ref p e r n)
unfolding started send_ack
started-Replied taken ref p e (m, false) n a l =
    inr ("duplicate session_id", refl, refl, ap (λ x. x.sessions) a, l)
started-Replied taken ref p e (m, true) n (free, put) l =
    let here =
      Dict.get-put n.sessions.sessions p.session_id (session_of n.next p) p.session_id
      ∙ ap
          (λ b. if b then some (session_of n.next p) else Dict.get n.sessions.sessions p.session_id)
          (eq_refl p.session_id) in
    inl
      (p, refl, refl, refl, free, ap (λ d. is_some (Dict.get d p.session_id)) put ∙ ap is_some here)

slotted-Replied :
    (taken : Bool) (ref : String) (p : StartPayload) (e : Engine) (r : Engine × Bool) (n : Node)
    → Tried e r
    → n.limiter ≡ some e
    → Replied taken ref (some p) n (slotted taken ref p r n)
unfolding slotted send_ack
slotted-Replied taken ref p e (e', false) n t l =
    inr ("max concurrent sessions reached", refl, refl, refl, ap some t ∙ sym l)
slotted-Replied taken ref p e (e', true) n t l =
    started-Replied taken ref p e' (add n.sessions (session_of n.next p)) n
      (add-Added n.sessions (session_of n.next p)) (ap some t ∙ sym l)

limited-Replied :
    (taken : Bool) (ref : String) (p : StartPayload) (limiter : Option Engine) (n : Node)
    → n.limiter ≡ limiter
    → Replied taken ref (some p) n (limited taken ref p limiter n)
unfolding limited send_ack
limited-Replied taken ref p none n l = inr (_, refl, refl, refl, refl)
limited-Replied taken ref p (some e) n l =
    let error = unavailable_error n.has_chat_runner n.has_diagnose_runner p.session_type in
    if-branch (Replied taken ref (some p) n) (str_eq error "")
      (slotted-Replied taken ref p e (try_sem e) n (try_sem-Tried e) l)
      (inr (error, refl, refl, refl, refl))

-- For a start of a session exactly one acknowledgement is offered to sendCh, which takes it or drops it
-- with a connection that is done, whatever its payload, one that cannot be decoded included: either the
-- start is accepted, its id was free and is registered now, and a goroutine of its own runs it; or it is
-- refused, and the registered sessions, the goroutines and the engine with its slots are as before.
pub handle_session_start-Replied :
    (taken : Bool) (ref : String) (payload : Option StartPayload) (n : Node)
    → Replied taken ref payload n (handle_session_start taken ref payload n)
unfolding handle_session_start send_ack
handle_session_start-Replied taken ref none n = inr ("invalid payload", refl, refl, refl, refl)
handle_session_start-Replied taken ref (some p) n =
    if-branch (Replied taken ref (some p) n) (str_eq p.session_id "")
      (inr ("missing session_id", refl, refl, refl, refl))
      (limited-Replied taken ref p n.limiter n refl)
