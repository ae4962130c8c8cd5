-- ===== src/Server/Handler/Tests.antt =====
-- A node with two slots.
use digcore.Base.{◌≡◌, refl, true, false, some, List, [], ◌∷◌, arith}
use digcore.Base.Dict
use digcore.Base.Int.{pos}
use digcore.Server.Session.{new_session_manager}
use digcore.Server.Runs.{ack, StartPayload}
use digcore.Diagnose.Scheduler.{Engine, stops}
use digcore.Server.Handler.{Node, handle_session_start, session_start, session_cancel}
use digcore.Server.Handler.Laws.{Replied, handle_session_start-Replied}
use digcore.Server.Handler.Slots.{Step, receives, ends, diagnoses, steps, IsHeld, steps-IsHeld}

abbrev engine : Engine
engine = record {
  stopped = false;
  state = record { date = "2026-01-01"; input_tokens = 0; output_tokens = 0; cooldowns = [] };
  daily_token_limit = pos 1000;
  slots = 2;
  held = 0;
  in_flight = [];
  submissions = [];
  runs = [];
  sessions = 0;
  cancelled = [];
}

abbrev node : Node
node = record {
  limiter = some engine;
  has_chat_runner = true;
  has_diagnose_runner = true;
  sessions = new_session_manager;
  channels = [];
  goroutines = [];
  next = 0;
  sent = [];
  retry_after_sec = pos 0;
  cancelled = false;
}

abbrev chat : StartPayload
chat = record {
  session_id = "s1";
  session_type = "chat";
  plugin = "";
  target = "";
  allow_shell = false;
  message = "";
}

refused :
    (handle_session_start true "m2"
      (some chat)
      (handle_session_start true "m1" (some chat) node)).sent
    ≡ ack "m1" true "" ∷ ack "m2" false "duplicate session_id" ∷ []
unfolding handle_session_start Dict.get Dict.put
refused = refl

-- A session is cancelled, and another is started with its id; the end of the first one's goroutine then
-- removes the second session and cancels it.
removed :
    (steps node (
      receives true (session_start "m1" (some chat))
      ∷ receives true (session_cancel (some "s1"))
      ∷ receives true (session_start "m2" (some chat))
      ∷ ends 0 []
      ∷ [])).sessions
    ≡ record { sessions = []; cancelled = 0 ∷ 1 ∷ [] }
unfolding steps Dict.get Dict.put Dict.del
removed = refl

handle_session_start-Replied_example :
    Replied true "m1" (some chat) node (handle_session_start true "m1" (some chat) node)
handle_session_start-Replied_example = handle_session_start-Replied true "m1" (some chat) node

abbrev events : List Step
events =
    receives true (session_start "m1" (some chat))
    ∷ receives true (session_cancel (some "s1"))
    ∷ receives true (session_start "m2" (some chat))
    ∷ diagnoses stops
    ∷ ends 0 []
    ∷ []

steps-IsHeld_example : IsHeld (steps node events)
steps-IsHeld_example =
    steps-IsHeld node events (record { counted = refl; bounded = omega arith }, refl)
