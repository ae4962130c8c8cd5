-- ===== src/Server/Handler.antt =====
-- server/session_handler.go and handleServerMessage of server/conn.go: the messages of the server. The
-- slots of sessions are those of the diagnose engine, and a session is a goroutine that ends some time.
pub mod Laws
pub mod Slots
mod Tests
use digcore.Base.{
  ℕ, zero, suc, ◌+◌, ◌-◌, Bool, true, false, String, append, Option, none, some, List, [], ◌∷◌,
  ◌++◌, str_eq, ◌==◌, ltb, ◌||◌, if◌then◌else◌, length, map,
}
use digcore.Base.Int.{ℤ}
use digcore.Server.Session.{RemoteSession, SessionManager, add, remove, get, cancel_all}
use digcore.Server.Runs.{Sent, ack, StartPayload}
use digcore.Diagnose.Scheduler.{Engine, Action, tries, releases, act, try_sem, release_sem}

-- A goroutine of handleSessionStart, known by a number, as its cancel function is.
pub record Goroutine : Type 0 where
  pub number : ℕ
  pub session_id : String

-- An input channel, by the number of its session, and what waits in it; `make(chan string, 8)`.
pub record Channel : Type 0 where
  pub number : ℕ
  pub waiting : List String

abbrev pub channel_size : ℕ
channel_size = 8

-- Conn, with the package's variables: the limiter, which may be nil, and whether the runners are set.
-- `next` numbers the next session, and `sent` lists the messages that sendCh took.
pub record Node : Type 0 where
  pub limiter : Option Engine
  pub has_chat_runner : Bool
  pub has_diagnose_runner : Bool
  pub sessions : SessionManager
  pub channels : List Channel
  pub goroutines : List Goroutine
  pub next : ℕ
  pub sent : List Sent
  pub retry_after_sec : ℤ
  pub cancelled : Bool

-- The select statement of sendACK: `taken` tells whether sendCh takes the message or it is dropped, the
-- connection being done.
abbrev pub if_taken : Bool → Sent → List Sent
if_taken taken m = if taken then m ∷ [] else []

-- sendACK
unfoldable pub send_ack : Bool → String → Bool → String → Node → Node
send_ack taken ref ok error n = record n { sent = n.sent ++ if_taken taken (ack ref ok error) }

-- sessionStartUnavailableError, when there is a limiter.
unfoldable pub unavailable_error : Bool → Bool → String → String
unavailable_error has_chat has_diagnose session_type =
    if str_eq session_type "chat"
    then if has_chat then "" else "chat engine not available"
    else if str_eq session_type "inspect" || str_eq session_type "diagnose"
    then if has_diagnose then "" else "diagnose engine not available"
    else ""

-- sessionStartUnavailableError, when there is none.
abbrev pub no_limiter_error : String → String
no_limiter_error session_type =
    if str_eq session_type "chat"
    then "chat engine not available"
    else "diagnose engine not available"

-- The session made for a start.
abbrev pub session_of : ℕ → StartPayload → RemoteSession
session_of number p = record {
  session_id = p.session_id;
  session_type = p.session_type;
  cancel = some number;
}

-- The channel made for a start.
abbrev pub channel_of : ℕ → StartPayload → List Channel
channel_of number p =
    if str_eq p.session_type "chat" then record { number = number; waiting = [] } ∷ [] else []

-- The end of handleSessionStart, behind TrySem: `e` is the engine with the slot taken.
unfoldable pub started : Bool → String → StartPayload → Engine → SessionManager × Bool → Node → Node
unfolding release_sem send_ack
started taken ref p e (m, false) n = send_ack taken ref false "duplicate session_id" (record n {
  limiter = some (release_sem e);
  sessions = record m { cancelled = m.cancelled ++ (n.next ∷ []) };
  next = suc n.next;
})
started taken ref p e (m, true) n = send_ack taken ref true "" (record n {
  limiter = some e;
  sessions = m;
  channels = n.channels ++ channel_of n.next p;
  goroutines = n.goroutines ++ (record { number = n.next; session_id = p.session_id } ∷ []);
  next = suc n.next;
})

-- handleSessionStart behind the look at the engines, for what TrySem gives.
unfoldable pub slotted : Bool → String → StartPayload → Engine × Bool → Node → Node
unfolding started add send_ack
slotted taken ref p (e, false) n =
    send_ack taken ref false "max concurrent sessions reached" (record n { limiter = some e })
slotted taken ref p (e, true) n = started taken ref p e (add n.sessions (session_of n.next p)) n

-- handleSessionStart behind the check of the session's id, for the limiter.
unfoldable pub limited : Bool → String → StartPayload → Option Engine → Node → Node
unfolding slotted unavailable_error try_sem send_ack
limited taken ref p none n = send_ack taken ref false (no_limiter_error p.session_type) n
limited taken ref p (some e) n =
    let error = unavailable_error n.has_chat_runner n.has_diagnose_runner p.session_type in
    if str_eq error "" then slotted taken ref p (try_sem e) n else send_ack taken ref false error n

-- handleSessionStart; a payload that cannot be decoded is `none`.
unfoldable pub handle_session_start : Bool → String → Option StartPayload → Node → Node
unfolding limited send_ack
handle_session_start taken ref none n = send_ack taken ref false "invalid payload" n
handle_session_start taken ref (some p) n =
    if str_eq p.session_id ""
    then send_ack taken ref false "missing session_id" n
    else limited taken ref p n.limiter n

-- The send on a channel in handleSessionInput: a full one drops the message.
unfoldable pub delivered : ℕ → String → List Channel → List Channel
delivered number text [] = []
delivered number text (c ∷ cs) =
    let rest = delivered number text cs in
    if c.number == number
    then (if ltb (length c.waiting) channel_size
        then record c { waiting = c.waiting ++ (text ∷ []) }
        else c)
      ∷ cs
    else c ∷ rest

-- The end of handleSessionInput, for a session that is known by its cancel function's number.
unfoldable pub input_to : Option ℕ → String → Node → Node
unfolding delivered
input_to none text n = n
input_to (some number) text n =
    if str_eq text "" then n else record n { channels = delivered number text n.channels }

-- handleSessionInput for the session found.
unfoldable pub input_for : Option RemoteSession → String → Node → Node
unfolding input_to
input_for none text n = n
input_for (some s) text n = input_to s.cancel text n

-- sessionInputPayload
pub record InputPayload : Type 0 where
  pub session_id : String
  pub message : String

-- handleSessionInput
unfoldable pub handle_session_input : Option InputPayload → Node → Node
unfolding input_for get
handle_session_input none n = n
handle_session_input (some p) n = input_for (get n.sessions p.session_id) p.message n

-- handleSessionCancel, by the session's id
unfoldable pub handle_session_cancel : Option String → Node → Node
unfolding remove
handle_session_cancel none n = n
handle_session_cancel (some id) n = record n { sessions = remove n.sessions id }

-- A message of the server, by its type, with its id and its payload as decodePayload gives it.
pub data ServerMessage : Type 0 where
  disconnect : Option ℤ → ServerMessage
  other : ServerMessage
  session_start : String → Option StartPayload → ServerMessage
  session_input : Option InputPayload → ServerMessage
  session_cancel : Option String → ServerMessage

-- handleServerMessage; `taken` is for the acknowledgement of a start.
unfoldable pub handle_server_message : Bool → ServerMessage → Node → Node
unfolding handle_session_start handle_session_input handle_session_cancel
handle_server_message taken (disconnect none) n = record n { cancelled = true }
handle_server_message taken (disconnect (some after)) n = record n {
  retry_after_sec = after;
  cancelled = true;
}
handle_server_message taken other n = n
handle_server_message taken (session_start ref p) n = handle_session_start taken ref p n
handle_server_message taken (session_input p) n = handle_session_input p n
handle_server_message taken (session_cancel id) n = handle_session_cancel id n

-- The goroutine of a number, and the goroutines without it.
unfoldable pub running : ℕ → List Goroutine → Option Goroutine
running number [] = none
running number (g ∷ gs) =
    let rest = running number gs in if g.number == number then some g else rest

unfoldable pub without : ℕ → List Goroutine → List Goroutine
without number [] = []
without number (g ∷ gs) =
    let rest = without number gs in if g.number == number then gs else g ∷ rest

-- The deferred ReleaseSem.
unfoldable pub given_back : Option Engine → Option Engine
unfolding release_sem
given_back none = none
given_back (some e) = some (release_sem e)

-- The end of a goroutine: its messages are sent, its session is removed, and its slot is released.
unfoldable pub ended : Option Goroutine → List Sent → Node → Node
unfolding remove given_back without
ended none out n = n
ended (some g) out n = record n {
  sent = n.sent ++ out;
  sessions = remove n.sessions g.session_id;
  limiter = given_back n.limiter;
  goroutines = without g.number n.goroutines;
}
