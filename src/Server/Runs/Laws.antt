-- ===== src/Server/Runs/Laws.antt =====
-- A remote session sends one last output.
use digcore.Base.{
  ◌≡◌, refl, Bool, false, String, append, Option, none, some, List, [], ◌∷◌, ◌++◌, All, All-append,
  str_eq, not, ◌||◌, ◌&&◌, if◌then◌else◌, if-branch,
}
use digcore.Server.Runs.{
  Sent, ack, session_output, session_error, StartPayload, Streamed, streamed, StreamEnd, reported,
  stream_failed, stream_cancelled, ChatStart, chat_opened, chat_failed, chat_cancelled, TurnEnd,
  replied, turn_failed, turn_cancelled, turn_panic, RunWorld, stream_end, run_inspect_or_diagnose,
  process_turn, turn_loop, chat_started, run_chat, done_output, run_remote_session, or_default,
}

-- A message of a session that does not end it.
abbrev pub Open : String → Sent → Type 0
Open sid (ack ref ok error) = ⊥
Open sid (session_output s delta stage done report turn) =
    (s ≡ sid) × (done ≡ false) × (report ≡ "")
Open sid (session_error s error code) = s ≡ sid

abbrev pub AllOpen : String → List Sent → Type 0
AllOpen sid sent = All (Open sid) sent

streamed-Open : (sid : String) (ps : Streamed) → AllOpen sid (streamed sid ps)
streamed-Open sid [] = tt
streamed-Open sid (p ∷ ps) = ((refl, refl, refl), streamed-Open sid ps)

-- One message behind what was streamed.
streamed-Open_snoc :
    (sid : String) (ps : Streamed) (m : Sent)
    → Open sid m
    → AllOpen sid (streamed sid ps ++ (m ∷ []))
streamed-Open_snoc sid ps m o =
    All-append (Open sid) (streamed sid ps) (m ∷ []) (streamed-Open sid ps) (o, tt)

stream_end-Open : (sid : String) (r : Streamed × StreamEnd) → AllOpen sid (stream_end sid r).0
unfolding stream_end
stream_end-Open sid (ps, reported text) = streamed-Open sid ps
stream_end-Open sid (ps, stream_cancelled) = streamed-Open sid ps
stream_end-Open sid (ps, stream_failed e) = streamed-Open_snoc sid ps _ refl

inspect-Open :
    (runner : Option (String → String → String → Streamed × StreamEnd)) (p : StartPayload)
    → AllOpen p.session_id (run_inspect_or_diagnose runner p).0
unfolding run_inspect_or_diagnose
inspect-Open none p = (refl, tt)
inspect-Open (some run) p =
    if-branch {A = List Sent × String} (λ r. AllOpen p.session_id r.0)
      (str_eq p.session_type "inspect" && str_eq p.plugin "") (refl, tt)
      (stream_end-Open p.session_id (
        run (if str_eq p.session_type "diagnose" then "alert" else "inspect")
          (or_default p.plugin "system") (or_default p.target "localhost")))

process_turn-Open : (sid : String) (t : Streamed × TurnEnd) → AllOpen sid (process_turn sid t).0
unfolding process_turn
process_turn-Open sid (ps, replied reply) = streamed-Open_snoc sid ps _ (refl, refl, refl)
process_turn-Open sid (ps, turn_failed e) = streamed-Open_snoc sid ps _ (refl, refl, refl)
process_turn-Open sid (ps, turn_cancelled) = streamed-Open sid ps
process_turn-Open sid (ps, turn_panic) = streamed-Open_snoc sid ps _ (refl, refl, refl)

turn_loop-Open : (sid : String) (ts : List (Streamed × TurnEnd)) → AllOpen sid (turn_loop sid ts)
unfolding turn_loop
turn_loop-Open sid [] = tt
turn_loop-Open sid (t ∷ ts) =
    let sent = (process_turn sid t).0 in
    let open_turn = process_turn-Open sid t in
    if-branch (AllOpen sid) (process_turn sid t).1
      (All-append (Open sid) sent (turn_loop sid ts) open_turn (turn_loop-Open sid ts)) open_turn

chat_started-Open :
    (w : RunWorld) (p : StartPayload) (start : ChatStart)
    → AllOpen p.session_id (chat_started w p start)
unfolding chat_started
chat_started-Open w p chat_opened = turn_loop-Open p.session_id _
chat_started-Open w p (chat_failed e) = (refl, tt)
chat_started-Open w p chat_cancelled = tt

run_chat-Open :
    (w : RunWorld) (p : StartPayload) (runner : Option (Bool → ChatStart))
    → AllOpen p.session_id (run_chat w p runner)
unfolding run_chat
run_chat-Open w p none = (refl, tt)
run_chat-Open w p (some open_chat) = chat_started-Open w p (open_chat p.allow_shell)

-- The messages of a session that has ended: the last is its only output that is done.
abbrev pub Ended : String → List Sent → Type 0
Ended sid sent =
    (before : List Sent) × (report : String) × (sent ≡ before ++ (done_output sid report ∷ []))
    × AllOpen sid before

-- Whatever the runners and the context do, runRemoteSession sends messages of its session only, and
-- ends with an output that is done, the only one that is, and that alone has a report.
pub run_remote_session-Ended :
    (w : RunWorld) (p : StartPayload) → Ended p.session_id (run_remote_session w p)
unfolding run_remote_session
run_remote_session-Ended w p =
    let sid = p.session_id in
    let (sent, report) = run_inspect_or_diagnose w.diagnose_runner p in
    let quiet = inspect-Open w.diagnose_runner p in
    if-branch (Ended sid) w.done_at_start ([], "", refl, tt)
      (if-branch (Ended sid) (str_eq p.session_type "inspect" || str_eq p.session_type "diagnose")
        (if-branch (Ended sid) (not (str_eq report "")) (sent, report, refl, quiet)
          (sent, "", refl, quiet))
        (if-branch (Ended sid) (str_eq p.session_type "chat")
          (run_chat w p w.chat_runner, "", refl, run_chat-Open w p w.chat_runner)
          (
            session_error sid (append "unknown session type: " p.session_type) "invalid_type" ∷ [],
            "",
            refl,
            (refl, tt),
          )))
