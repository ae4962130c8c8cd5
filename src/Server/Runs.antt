-- ===== src/Server/Runs.antt =====
-- server/session_handler.go: what a remote session sends while it runs. Its outputs are listed in order.
pub mod Laws
mod Tests
use digcore.Base.{
  ℕ, Bool, true, false, String, append, Option, none, some, List, [], ◌∷◌, ◌++◌, map, str_eq, not,
  ◌||◌, ◌&&◌, if◌then◌else◌,
}

-- A message to the server: sendACK, sendSessionOutput and sendSessionError. Of an output's metadata, the
-- mark that a turn is done is kept.
pub data Sent : Type 0 where
  ack : String → Bool → String → Sent
  session_output : String → String → String → Bool → String → Bool → Sent
  session_error : String → String → String → Sent

-- sessionStartPayload; a parameter that is missing, or has another type, reads as "" or false.
pub record StartPayload : Type 0 where
  pub session_id : String
  pub session_type : String
  pub plugin : String
  pub target : String
  pub allow_shell : Bool
  pub message : String

-- What a callback was given to stream, a delta and its stage.
abbrev pub Streamed : Type 0
Streamed = List (String × String)

abbrev pub streamed : String → Streamed → List Sent
streamed sid ps = map (λ p. session_output sid p.0 p.1 false "" false) ps

-- How RunStreaming ends, given the mode, the plugin and the target; how NewSession does; and how a turn
-- of HandleMessage does.
pub data StreamEnd : Type 0 where
  reported : String → StreamEnd
  stream_failed : String → StreamEnd
  stream_cancelled : StreamEnd

pub data ChatStart : Type 0 where
  chat_opened : ChatStart
  chat_failed : String → ChatStart
  chat_cancelled : ChatStart

pub data TurnEnd : Type 0 where
  replied : String → TurnEnd
  turn_failed : String → TurnEnd
  turn_cancelled : TurnEnd
  turn_panic : TurnEnd

-- The surroundings of a run: whether its context is done at once; the runners, which may be nil; and the
-- turns of a chat, first that of the start's message, then those of the inputs, until the context is
-- done.
pub record RunWorld : Type 0 where
  pub done_at_start : Bool
  pub diagnose_runner : Option (String → String → String → Streamed × StreamEnd)
  pub chat_runner : Option (Bool → ChatStart)
  pub first_turn : String → Streamed × TurnEnd
  pub turns : List (Streamed × TurnEnd)

-- The callback's output and the end of RunStreaming.
unfoldable pub stream_end : String → Streamed × StreamEnd → List Sent × String
stream_end sid (ps, reported report) = (streamed sid ps, report)
stream_end sid (ps, stream_cancelled) = (streamed sid ps, "")
stream_end sid (ps, stream_failed e) =
    (streamed sid ps ++ (session_error sid e "diagnose_failed" ∷ []), "")

abbrev pub or_default : String → String → String
or_default s d = if str_eq s "" then d else s

-- runInspectOrDiagnose: what it sends, and the report.
unfoldable pub run_inspect_or_diagnose :
    Option (String → String → String → Streamed × StreamEnd) → StartPayload → List Sent × String
unfolding stream_end
run_inspect_or_diagnose none p =
    (session_error p.session_id "diagnose engine not available" "engine_unavailable" ∷ [], "")
run_inspect_or_diagnose (some run) p =
    if str_eq p.session_type "inspect" && str_eq p.plugin ""
    then (session_error p.session_id "plugin is required for inspect" "missing_plugin" ∷ [], "")
    else stream_end p.session_id (
        run (if str_eq p.session_type "diagnose" then "alert" else "inspect")
          (or_default p.plugin "system") (or_default p.target "localhost"))

abbrev pub turn_done : String → String → String → Sent
turn_done sid delta stage = session_output sid delta stage false "" true

-- processTurn: what it sends, and whether the chat goes on.
unfoldable pub process_turn : String → Streamed × TurnEnd → List Sent × Bool
process_turn sid (ps, replied reply) =
    (streamed sid ps ++ (turn_done sid reply "answer" ∷ []), true)
process_turn sid (ps, turn_failed e) = (streamed sid ps ++ (turn_done sid e "error" ∷ []), true)
process_turn sid (ps, turn_cancelled) = (streamed sid ps, false)
process_turn sid (ps, turn_panic) =
    (streamed sid ps ++ (turn_done sid "internal error" "error" ∷ []), true)

-- The loop of runChat.
unfoldable pub turn_loop : String → List (Streamed × TurnEnd) → List Sent
unfolding process_turn
turn_loop sid [] = []
turn_loop sid (t ∷ ts) =
    let rest = turn_loop sid ts in
    let (sent, goes_on) = process_turn sid t in if goes_on then sent ++ rest else sent

-- runChat behind NewSession.
unfoldable pub chat_started : RunWorld → StartPayload → ChatStart → List Sent
unfolding turn_loop
chat_started w p chat_opened =
    turn_loop p.session_id
      (if not (str_eq p.message "") then w.first_turn p.message ∷ w.turns else w.turns)
chat_started w p (chat_failed e) = session_error p.session_id e "chat_init_failed" ∷ []
chat_started w p chat_cancelled = []

-- runChat, whose context is not done yet.
unfoldable pub run_chat : RunWorld → StartPayload → Option (Bool → ChatStart) → List Sent
unfolding chat_started
run_chat w p none = session_error p.session_id "chat engine not available" "engine_unavailable" ∷ []
run_chat w p (some open_chat) = chat_started w p (open_chat p.allow_shell)

abbrev pub done_output : String → String → Sent
done_output sid report = session_output sid "" "" true report false

-- runRemoteSession, with the output of its deferred function.
unfoldable pub run_remote_session : RunWorld → StartPayload → List Sent
unfolding run_inspect_or_diagnose run_chat
run_remote_session w p =
    let (sent, report) = run_inspect_or_diagnose w.diagnose_runner p in
    if w.done_at_start
    then done_output p.session_id "" ∷ []
    else if str_eq p.session_type "inspect" || str_eq p.session_type "diagnose"
    then if not (str_eq report "")
      then sent ++ (done_output p.session_id report ∷ [])
      else sent ++ (done_output p.session_id "" ∷ [])
    else if str_eq p.session_type "chat"
    then run_chat w p w.chat_runner ++ (done_output p.session_id "" ∷ [])
    else session_error p.session_id (append "unknown session type: " p.session_type) "invalid_type"
      ∷ done_output p.session_id ""
      ∷ []
