-- ===== src/Lib.antt =====
-- The backend of wecom-ai-agent: robots, which are Android phones with WeCom, answer customers. The
-- backend keeps messages and device tasks in a database, decides whom to answer next, drives each
-- phone through one queue, and tells web clients what has changed.
--
-- The parts, and how they work together:
--   An inbound message is stored as waiting. The auto-reply scheduler (AutoReply) picks a
--   conversation, asks the AI workflow for a decision and hands its texts to the send orchestrator
--   (SendOrchestrator), which stores each as a message and a task and puts the task in the queue of
--   the robot (TaskQueue). The queue runs one task of a robot at a time; the runner of a send drives
--   the phone, with retries, and writes the result back. The hub (WsHub) carries the commands to the
--   phones and the events to the web clients. Ingest takes an observed message, drops noise and
--   repetitions, stores it and wakes the scheduler. The handlers (Routers) serve the web clients, and
--   a sweep (Retention) deletes old messages. On the phone, the ReAct agent (React) reads the screen
--   and chooses one action after another until a goal, such as a send, is reached. The chunks of the
--   documents (Chunker) and the knowledge graph (GraphStore) serve retrieval.
--
-- The files:
--   Prelude           Boolean tests, lists, tables with a primary key, dicts, ORDER BY, Python text
--   Store             backend/app/models.py and core/config.py: the rows, and the state Db of all
--                     tables, the clock, and what was sent to web clients, Celery and the scheduler
--   TaskQueue         backend/app/services/task_queue.py: enqueue, cancel, claim_next (_claim_next),
--                     audit, mark_cancelled, mark_failed, broadcast_task; Labels has snapshot, Drain has
--                     drain_robot and recover_pending_tasks; the other children are about them
--   SendOrchestrator  backend/app/services/send_orchestrator.py: the writes around a send; Create has
--                     create_and_dispatch_send_text and _media, Run has run_send_task
--   Serial            the services as steps on one database, in any order
--   AutoReply         backend/app/services/auto_reply_scheduler.py: the choice of a conversation and
--                     the marks on messages; Turn has _process_conversation, Dispatcher has _run_robot
--                     and _run_worker as steps, States has _STATES and recover_pending
--   Ingest            backend/app/services/conversation.py: the tests for messages that are stored
--                     already; Noise has the texts that are no message, Observed the rows of contact
--                     and conversation, Harvest the tasks that read a chat from the device, Inbound
--                     ingest_inbound_message and its caller in backend/app/ws/android.py
--   WsHub             backend/app/core/ws_manager.py
--   GraphStore        backend/app/kb/graphstore/memory.py and base.py
--   Chunker           backend/app/kb/chunker.py
--   Routers           backend/app/routers: Conversations has the handlers of conversations.py
--   Retention         backend/app/services/retention.py: sweep_once
--   React             backend/app/ai/react_agent.py, react_locators.py and react_playbooks.py: what is
--                     read from a screen (Tree, Nodes, Echo) and from a goal (Goals); FastDecide has
--                     _fast_decide, Locators the LocatorStore, Verdicts what the agent says of its last
--                     step and _guard_decision, Execute _execute and _wait_ui, Loop _run_react_inner
--   Tests             concrete states and runs
--
-- How the code is read. A function of a service maps a state to a state, with the result beside it
-- where there is one; a query is a filter of the table, and ORDER BY is a stable sort. The place of
-- NULL under ORDER BY, which differs between databases, is a field of Settings. A name of a private
-- function loses its underscore. Log output is not part of the state; the rows of robot_task_logs
-- and the events for the web clients are. The phone is an argument of the runner of sends (Run.Phone): what
-- each call of the ReAct agent gives, an exception or a cancellation included; React models the agent
-- itself, whose phone and language models are functions on a state of the world. Arguments too are the queue's runners,
-- the AI workflow (Turn.Workflow), and whether a send on a socket succeeds. JSON payloads are text,
-- or records of the keys that the code reads.
--
-- Loops. The retry loop of a send runs on fuel, and react_send_max_attempts + 1 rounds are enough.
-- The drain of a queue runs on fuel too, and no bound is given: a runner may queue its task again, and
-- others may queue more. The loop that cuts a long piece of a text needs a size above 0, and the length
-- of the piece and one more rounds. The wait for a text polls on fuel, and 61 looks are enough for the
-- longest wait of 15 seconds. Everything else is structural.
--
-- Sessions. An exception, or a return before the commit, leaves the tables as they were; the constraints
-- of the database that the code can run into are checks before the write (Ingest.Inbound has the
-- unique external ids); what else the database may refuse of a message is a field of Settings. A regular expression is a sequence of runs of a class, literals and the end
-- (Prelude.Pattern); only whether it matches is modelled, except for the one prefix that is cut off.
--
-- Interleavings. Serial has one step for each transaction of the queue, of the services that produce
-- tasks and of the runner of sends, except that a send is created, and finished, in one step each, which
-- the code commits in several sessions; the enqueue and the cancellation among them are steps of their
-- own too, and so is the write of a cancel that was checked before. The HTTP handlers that produce tasks and the runner of agent goals
-- are not among them. AutoReply.Dispatcher has one step for what runs between two awaits. What other
-- parts do in between is any change that keeps the task table, or, at a look of the dispatcher, any
-- tables at all.
--
-- The agent. Python's str.lower, \w and repr are arguments (React.Python); products and ratios with
-- decimals are exact, where the code has floats. A decision has the arguments that the code reads, and
-- the text of them all; an answer of a model that has not the types of a decision is an answer of its own
-- (Loop.IllTyped). The thoughts, the screenshots, the prompts, the playbooks and the files of the
-- locator cache are left out, and so is run_react, which takes the lock of the device around a run.
--
-- Not modelled: the AI workflow, the retrieval, the other HTTP and WebSocket
-- endpoints, the external stores and providers, the Android app and the web
-- client. Of task_queue.py, shutdown is empty and snapshot_all maps snapshot over the robots; the lock
-- of drain_robot is a Boolean argument. Of auto_reply_scheduler.py, shutdown is left out, and so is the
-- end of a dispatcher by an exception. The updated_at columns are left out, so snapshot shows the first
-- running task and not the last touched one.
pub mod Prelude
pub mod Store
pub mod TaskQueue
pub mod SendOrchestrator
pub mod Serial
pub mod AutoReply
pub mod Ingest
pub mod WsHub
pub mod GraphStore
pub mod Chunker
pub mod Routers
pub mod Retention
pub mod React
pub mod Tests
