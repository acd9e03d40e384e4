-- ===== src/Lib.antt =====
-- The agents' control plane of DevOps-Agent-Swarm: messages, incidents and the decisions on actions.
--
-- The program is a set of Python agents that talk over NATS. The observer reports anomalies, the
-- orchestrator opens an incident for each and drives it through a state machine, the diagnoser, the
-- remediator and the safety agent answer requests on their subjects, and operators answer approvals.
--
-- Base holds what the other modules share: Booleans and tests on the native naturals (Tests), lists
-- (Lists), insertion-ordered dictionaries with lookup, insert and delete (Dicts), integers over the
-- native naturals (Int), Python's exceptions as values (Result), JSON values (Value), their == and >=
-- (Compare), in and replace on texts (Text), and for, len and in on values (Iteration). A formatted
-- text (an f-string) is the list of its parts. Of the JSON numbers only integers have a value.
--
-- Messaging models shared/messaging: the subjects (subjects.py), the envelope and its expiry
-- (schema.py), its form on the wire (Wire: to_dict and from_dict) and the client (nats_client.py:
-- build_message, publish with its three retries, and the acknowledgement of a delivered message).
-- Client also has the monad M of the handlers: a computation changes the agent's fields and the bus,
-- and an exception leaves the changes made before it in place. Keeps has the rules by which a
-- computation keeps a predicate on the agent's fields, Frame those by which it leaves something
-- alone, Sends those for the messages it publishes, Delivery and Healthy the lemmas on deliveries and
-- on a bus that refuses nothing.
--
-- Orchestrator models agents/orchestrator/src: Fsm is incident_fsm.py, Router is agent_router.py,
-- Timeline is timeline_builder.py, Escalation is escalation_manager.py, and State, Routes, Agent,
-- Handlers and Loop are orchestrator_agent.py: the fields with the rows of shared/db/models.py that
-- the code reads or writes, the requests of the router, each handler, the recovery and a round of the
-- loop. Graph, History and Timeout (below Fsm), Health (below Router), Durations (below Timeline),
-- Pass (below Escalation), Invariant and Outcomes hold the proofs.
--
-- Safety models agents/safety/src: RateLimiter is rate_limiter.py, Policy is policy_engine.py,
-- BlastRadius is blast_radius.py, and Agent is _evaluate_action of main.py with the request of
-- approval_gateway.py, and Handler is its handler with the decision's message. Spacing, Rules,
-- Review, Reviews, Raising, Core, Service and Silent hold the proofs.
--
-- Remediator models agents/remediator/src: Runbooks is runbook_engine.py, Executor is
-- action_executor.py and rollback_manager.py, Verification is verification_engine.py, State and Agent
-- are main.py. Matching, Silence, Gate, Publishing and Unfinished hold the proofs.
--
-- Diagnoser models agents/diagnoser/src: Correlation is correlation_engine.py, Context is
-- context_collector.py, Hypothesis is hypothesis_generator.py, Rubric and Debate are
-- debate_engine.py, State and Engine are rca_engine.py. It keeps the tables of incidents and
-- anomalies that the orchestrator has, by the same rows. Severity, Bounds, Collected, Winner, Losses
-- and Handoff hold the proofs; Handoff joins the diagnoser to the remediator.
--
-- Learner models agents/learner/src: Optimizer is runbook_optimizer.py (record and get_stats),
-- Vectorizer is incident_vectorizer.py, Recognizer is pattern_recognizer.py and Agent the two handlers
-- of main.py. Tally (below Optimizer), Counts and Best (below Recognizer) and Feedback hold the proofs.
--
-- Observer models agents/observer/src: Anomaly and Detector are detector.py, Deduplicator is
-- deduplicator.py, Predictor is predictor.py, and Health, Logs, Synthetic and Metrics are the rounds
-- of health_observer.py, log_observer.py, synthetic_prober.py and metrics_observer.py, of which State
-- has what the four share: the report of an anomaly that is no duplicate, and its message. Numbers is
-- the interface of the floats that Detector, Predictor and Metrics compute with, and IsOrdered what the
-- theorems on the detector ask of their comparison. Window and Severity (below Detector), Window
-- (below Deduplicator), Suppression, Rounds and Accepted hold the proofs; Accepted joins the observers
-- to the diagnoser.
--
-- BaseAgent models shared/agents/base.py: start, the main loop, stop, the heartbeat and the counters.
-- Rounds and Registered hold the proofs; Registered joins the heartbeat to the orchestrator's router.
--
-- Dashboard.Connections models dashboard/api/websocket/manager.py (Broadcast holds the proofs), and
-- Dashboard.Approvals the approve and reject routes of dashboard/api/routes/approvals.py (Answers
-- holds the proofs). Dashboard.Bridge is dashboard/api/websocket/handlers.py, from the messages on NATS
-- to the events of the websockets; Unheard (below it) joins it to the routes.
--
-- Services.Payment models services/payment-service/app/main.py: its routes and their events. Refunds
-- holds the proofs, and joins the service's health check to the health observer's probe.
-- Services.Notifications models services/notification-worker/app/main.py: its handlers and the
-- acknowledgement. Refunded (below it) joins the payment service's events to it.
--
-- Tests holds the theorems at concrete inputs.
--
-- What the model takes for granted, and its bounds:
--   * a time is a number of microseconds since the epoch, and a handler reads the clock once;
--   * handlers run one after the other: an await does not let another handler of the agent run;
--   * the bus and the database are given by lists that say of each coming call whether it fails. An
--     empty list stands for calls that all succeed. No loop needs fuel: all are structural;
--   * a column that a session assigns is stored at its commit. A timeline that was changed in place
--     and is assigned again is the same list, which SQLAlchemy takes for unchanged and does not write;
--   * rate_limiter.py and the remediator's main.py do not import timezone. Their definitions take what
--     the clock's expression gives as an argument; check, record and _publish_completion of the
--     program are the instances at utc_now with the names that the module imports;
--   * whether a send to a dashboard's client raises is a parameter, and the connections do not change
--     during a broadcast;
--   * UUIDs are a parameter of the bus; sha256, str, int on a value that is no integer, and
--     networkx's ancestors are parameters of the definitions that use them, without hypotheses; so
--     are Docker, the HTTP client and str of an exception, and isoformat and fromisoformat, of which
--     the round trip says that one reads what the other writes;
--   * the rubric's scores are counted in tenths of a point, and the rounding of a quotient times a
--     weight is a parameter; the sums of the binary floats are taken to be exact. Of the diagnoser, str and split
--     of a value, lower, the language model's replies and the responses of Loki and Prometheus are
--     parameters;
--   * of the observers, the arithmetic of the floats, the texts of keys and fingerprints, the
--     responses to their requests, a prefix of a log line, the test of raise_for_status and the
--     rendering of seconds are parameters. A default of 0.0 is written as the integer 0. The
--     predictors are filed under the text of their metric and service, and the queries of the metrics
--     observer are an argument; an observer's calls of one round read the clock once;
--   * of the learner, the collection of ChromaDB, the embedding of a text, the threshold of similarity,
--     and str, int, join and the truncation of a quotient are parameters. A query gives back the
--     metadata as upsert wrote them. The lexicographic order of a rate and a time takes two rates as
--     equal that are below each other. Whether the optimizer's session commits is given;
--   * of the payment service, the rounding of an amount's column and the texts of times are parameters,
--     and of the notification worker the formatting of an amount;
--     a service is given with whether its pool is there, its database answers, its connection to NATS
--     is open and publishing returns;
--   * a run of an agent is given as far as a list of calls of run_loop takes it. The loop is left only
--     where the agent no longer runs, and the calls after that are not made. What a call of run_loop
--     does is a parameter;
--   * the columns' types and constraints are not checked, and each agent's handler finds the tables
--     as that agent left them;
--   * a heartbeat's agent_id is text, and a date is given as parsed.
-- Not modelled: the JSON text of a message, request and the reconnection of the NATS client, logging,
-- settings, signals and the scheduling of the heartbeat, the loading of runbooks, SQLAlchemy and
-- migrations, the command lines, the list of all runbook statistics, the read-only routes of the
-- dashboard, the chaos scripts and the other demonstration microservices.
pub mod Base
pub mod BaseAgent
pub mod Dashboard
pub mod Diagnoser
pub mod Learner
pub mod Messaging
pub mod Observer
pub mod Orchestrator
pub mod Remediator
pub mod Safety
pub mod Services
pub mod Tests
