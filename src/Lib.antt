-- ===== src/Lib.antt =====
-- A model of zcoms-agent, the daemon that lets allow-listed people drive agent CLIs from chat apps,
-- with the theorems that make its parts correct.
--
-- The program's parts. internal/store keeps agent.db, a SQLite file with the workspaces, sessions,
-- personas, allowlist, settings, triage groups and reminders; every write names its caller, the owner
-- or the agent, and the store guards what an agent may change. internal/runner holds the roles, the
-- keys of the allowlist, the choice of the agent CLI and the way a CLI is run. internal/bridge keeps
-- one session per user of a chat app: it reads each message as a command, as a choice in a menu or as a
-- prompt, and starts agent turns with a role that the location's ceiling caps. internal/errands has an
-- agent question one contact for the owner, now or at a later time. internal/reminders wakes an agent
-- at the time of a reminder; it writes to the one who is reminded, reads the reply and decides on the
-- next time. The package scheduler runs jobs by the clock. internal/agentd joins them.
--
-- The files.
--   Prelude, Prelude/...   tests, lists, texts and integers: what the models use of Go's language and
--                          of its packages strings and strconv.
--   Store/Types            the rows, the callers and the errors (internal/store/*.go); a table is the
--                          list of its rows in the order of their ids' creation.
--   Store/Db, Store/Rows   the statements of internal/store as a state monad over the tables, with a
--                          list of faults that says which statement fails in the driver; SELECT,
--                          UPDATE, DELETE, INSERT and ORDER BY on lists.
--   Store/Checks           requireOwner, validateRole, validateBackend (internal/store/store.go).
--   Store/Settings, Allow, Personas, Workspaces, Sessions, Triage, Reminders
--                          one function per method of the file of that name in internal/store
--                          (Triage: triagegroups.go), with its guards, errors and statements in order.
--   Store/Requests         the writes as one type, so that a theorem ranges over any sequence of them.
--   Store/Preserves, Guard, WellFormed, Atomic and their children
--                          proofs: relations between the tables before and after, what an agent cannot
--                          change, the invariant of the tables, and writes that fail.
--   Runner/Roles, AllowKeys, Agents, Buffer, Claims, Locations
--                          internal/runner/config.go, agents.go, runner.go and claims.go; proofs in the
--                          children.
--   Bridge/State           userState and what a handler does to the world outside, as a list of effects
--                          (internal/bridge/bridge.go, comp.go).
--   Bridge/Runs            runAgent up to the goroutine, dispatchAgentTurn, and the end of a turn.
--   Bridge/Menus           listLocations, listSessions, selectNumber, startChat, startNew, the command
--                          `end`, startTriageReply and resetTriageBrain.
--   Bridge/Forwards        the commands that other components answer (internal/bridge/comp.go).
--   Bridge/Files           handleIncomingFile (internal/bridge/files.go).
--   Bridge/Handle          handle: the dispatch of one message, all its branches in order.
--   Bridge/Sessions        stateFor, lookupAllow and SetAllow (internal/bridge/runtime.go).
--   Bridge/Chunks          chunk: the splitting of a long reply (internal/bridge/bridge.go).
--   Agentd/Adapter         buildAllow, buildLocations, buildAgents (internal/agentd/adapter.go): what the
--                          bridge and the runner read of the store.
--   Errands/Errand         an errand, its statuses, markSeen and pendingErrand (internal/errands/errand.go,
--                          comp.go); a walk of the map of errands is a list.
--   Errands/Directives     the lines by which the agents act: errandDirective, errandHandoff,
--                          extractRecordBlock (internal/errands/errand_run.go), splitFileArg.
--   Errands/Task           an errand with the turn in flight for it and its effects on the world outside:
--                          what is sent, saved and written (errand_run.go).
--   Errands/Interview      runInterviewTurn, applyInterviewDirectives and beginProducing.
--   Errands/Producer       runWorkerTurn, applyWorkerDirectives and finishErrand.
--   Errands/Drive          driveErrand: the loop over the turns, cut at the calls of RunAgent, and what
--                          starts it (kickErrand, approveErrand, feedErrand, cancelErrand).
--   Errands/Steps          the life of one errand as a relation: the owner, the contact and the ends of
--                          the turns in any order; proofs in the children.
--   Errands/Specs          parseErrandStart, parseErrandSchedule, resolveErrandTarget (comp.go,
--                          scheduled.go).
--   Errands/Commands       startErrand, scheduleErrand, fireDueScheduled and handleErrandCommand.
--   Errands/Ownership      syncClaims, Owns and OwnsWA (comp.go, runtime.go).
--   Errands/Scheduled      claimDueScheduled and unschedule (internal/errands/scheduled.go).
--   Reminders/Config       configFromMap and SettingKey (internal/reminders/config.go).
--   Reminders/Fields       fieldRe and parseFields: the fields of an agent's answer, as an automaton over
--                          its characters (internal/reminders/run.go).
--   Reminders/Run          runReminder with its two turns as a list of effects, and the claims of runs by
--                          FireDue, claimRun and releaseRun (run.go); proofs in the children.
--   Reminders/Waiting      waitReply, ownsKey and feed (run.go); a channel is a number.
--   Reminders/Words        Requester, ParseRemind and isSelf (internal/reminders/parse.go).
--   Reminders/Requests     createReply and cancelReply: whom one may remind, who may cancel
--                          (internal/reminders/create.go); proofs in the child.
--   Reminders/Handle       HandleCommand and the replies of its commands, over the statements of the store
--                          (create.go); proofs in the children.
--   Scheduler              the jobs and their guards, evaluate and Run (scheduler/scheduler.go); proofs in the
--                          children.
--   Bridge/Turns, Ceiling, Approved, StoredCaps and their children
--                          proofs: which turns a message starts, sessions as sequences of messages,
--                          files and ends of turns in any order, and the role of a session.
--   Witnesses, Witnesses/...
--                          the theorems at concrete inputs.
--
-- Bounds and fuel. Numbers are the native naturals; Atoi checks the bounds of a 64-bit int, and ids are
-- not bounded. `digits_of` runs on one more than the number it prints, which has fewer digits than that.
-- `chunk` runs on the length of the text, of which every cut takes at least one byte; there a text is
-- its bytes. All other recursion is structural: the loop of an errand recurs on the prompts that are
-- buffered, and stops at each call of an agent, whose answer is the next event.
--
-- Conventions. A text is a list of code points. Letter case is ASCII's, white space is Unicode's. A
-- NULL column is read as the empty text, as the COALESCE of the queries does. A statement that fails
-- changes no row; the clock is read where the code reads it, and does not advance within a request. A
-- reply of the bridge with a fixed wording is a constructor that names it, with the values it prints.
-- A Go map is an association list. The goroutines of an errand interleave where an agent is called:
-- there the owner and the contact act, and what stands between two calls runs at once. What may fail in
-- an errand's turn, to send, to read or to write, is said by its list of faults. An instant of the
-- reminders is its text in the store, and one of the scheduler is a number; the calendar and the parser
-- of times are arguments.
--
-- Not modelled. The SQL engine, the network, the files and the processes: what the bridge gets from them
-- is a field of Machine (the CLIs that are installed, a reload of the locations, the answers of the other
-- components). The rounds of READ directives in a triage turn, and the lock on the triage brain. The
-- packages internal/triage, morning, reschedule, sessions, workspaces, personas, bootstrap, timeexpr and
-- client, and the rest of agentd. Of errands: the logs, the wording
-- of the prompts, the recovery from a panic, the standup interviews, and parseWhen, which is an argument.
-- The flags of the codex CLI. Of reminders: the wording of the prompts and of the replies, the events around a moment,
-- and the parser of times, which is an argument.
pub mod Prelude
pub mod Store
pub mod Runner
pub mod Bridge
pub mod Errands
pub mod Reminders
pub mod Scheduler
pub mod Agentd
pub mod Witnesses
