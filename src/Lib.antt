-- ===== src/Lib.antt =====
-- digcore: the framework of an agent that watches a host, sends alert events and lets a language
-- model diagnose them.
--
-- The parts that are modelled, and the files that model them (paths from the repository's root):
--
-- - config/config.go: Config/Ai.antt, the AI section with its defaults and its validation.
--   Config/Identity.antt, the labels from_hostname and from_hostip, and AgentIP and
--   AgentHostname with their caches; the environment, the expansion of texts and detection are
--   parameters.
-- - types/event.go: Types/Event.antt, with Types/Event/Labels.antt on merged label maps.
-- - engine/engine.go, engine/cache.go and the alerting settings of config/inline.go: Engine.antt
--   is PushRawEvents with its recovery and alert handlers over the event cache;
--   Engine/Clean.antt is clean. Events are shared by pointers, so the state has a store of
--   events by address and the cache holds addresses. Engine/Track.antt is the machine that the
--   handler refines, for each alert key.
-- - diagnose/registry.go: Diagnose/Registry.antt, the registration of tools and categories.
--   forwardReport of diagnose/engine.go: Diagnose/Forward.antt.
-- - diagnose/registry.go as well: Diagnose/Catalog.antt, what the registry offers on an
--   operating system. diagnose/executor.go: Diagnose/Executor.antt, the routing of tool calls,
--   over a JSON decoder. diagnose/report.go: Diagnose/Report.antt, on bytes; Base/Utf8.antt has
--   the encoding of characters.
-- - diagnose of diagnose/engine.go: Diagnose/Rounds.antt, its rounds of asking the model and
--   running tools, with the model, the tools and the context as an oracle;
--   Diagnose/Rounds/Laws.antt has the induction over the rounds. RunDiagnose: Diagnose/Run.antt;
--   RunDiagnoseStreaming: Diagnose/Streaming.antt.
-- - server/session_handler.go: Server/Handler.antt, the messages of the server and the
--   goroutines of sessions, and Server/Runs.antt, what a session sends. flushAlertEvents of
--   server/conn.go: Server/Flush.antt, over the ring buffer.
-- - diagnose/streaming.go: Diagnose/Chat.antt, the history of a chat through HandleMessage; the
--   model's turns and the results of tools are an oracle. Its router of tool calls is in
--   Diagnose/Executor.antt, beside that of a diagnosis.
-- - diagnose/record.go and diagnose/cleanup.go: Diagnose/Record.antt, the names of records and
--   the records that CleanupRecords removes, with sort.Slice as a parameter.
-- - diagnose/toolconv.go and buildChatToolSet: Diagnose/Toolset.antt, the definitions of tools
--   that the model gets.
-- - nextReconnectState and RunForever of server/conn.go: Server/Reconnect.antt. The session
--   manager of server/session.go: Server/Session.antt.
-- - notify/: Notify.antt, the requests and retries of the notifiers over HTTP, the payload of
--   flashduty.go, and Forward of notify.go; the replies of the servers are an oracle for each
--   attempt.
-- - pkg/safe/queue.go: Pkg/Queue.antt.
-- - server/ringbuf.go: Server/Ring.antt; Server/Ring/Window.antt and Server/Ring/Refine.antt
--   show that it is a bounded FIFO.
-- - diagnose/aiclient/: Ai.antt. Ai/Message.antt has the messages and the estimates of token.go
--   and compact.go; Ai/Compact.antt is compact.go, where a message group is an index and a
--   number of tokens; Ai/Retry.antt is retry.go, with the answers of the model and of the
--   context as an oracle for each attempt; Ai/Failover.antt is failover.go, over a type of
--   clients. Retries end since MaxRetries bounds them; a round of parseMessageGroups takes off a
--   message, so its fuel is the number of messages.
-- - diagnose/state.go, diagnose/aggregator.go and the scheduling of diagnose/engine.go:
--   Diagnose/State.antt, Diagnose/Aggregator.antt and Diagnose/Scheduler.antt. The clock is an
--   argument. Timers and goroutines are steps that may come in any order; what a diagnosis does
--   is in Diagnose/Rounds.antt.
--
-- A method that changes its receiver is a function that returns the new state; where it runs
-- under its mutex in the source it is one step here. Submit and Shutdown of diagnose/engine.go
-- hold none and take several steps, between which others may run, and so do the rounds of
-- flushAlertEvents; the handlers of engine/engine.go are modelled for events that are pushed one
-- after another. Times and counts are numbers without bound that are not negative; a signed
-- setting is an integer. Logging is left out.
--
-- Base.antt and its children hold what the files share: lists, maps with text keys, signed
-- numbers and Boolean tests over the native numbers. A loop over a list or a number is
-- structural; conversationLoop runs its chatMaxRounds rounds, and diagnose its maxRounds.
-- flushAlertEvents takes its fuel as an argument; once no more events are pushed, each round but
-- the last drains one, so as many rounds as were needed until then, the capacity and one more
-- are enough. Not modelled: the HTTP, WebSocket and MCP clients, the notifier for the console
-- and the payload for PagerDuty, the loading of configuration, prompts and terminal output,
-- which are I/O or text; nor panics inside a diagnosis.
pub mod Ai
pub mod Base
pub mod Config
pub mod Diagnose
pub mod Engine
pub mod Notify
pub mod Pkg
pub mod Server
pub mod Types
