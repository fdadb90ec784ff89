-- ===== src/Lib.antt =====
-- The core of the AI sales orchestrator: the harness that runs every agent, the qualification of
-- leads, the filter of emails, the envelopes of messages, the sequences of emails and other
-- messages, the dead letters, the progress of workflows, and the token budgets of the prompts.
--
-- The program is a set of agents in three tiers (tiers/), which the harness of core/harness
-- executes: it checks a quota, resumes from a checkpoint, runs the agent under a retry strategy and
-- records the outcome. Calls of outside services go through a circuit breaker. The leads
-- orchestrator scores each lead by rules, and asks a language model where the score is ambiguous.
-- Emails pass a filter without a model first. Workers exchange envelopes over streams, with a count
-- of retries. Texts and histories that go into a prompt are cut to a budget of tokens. A sequence
-- of messages is sent step by step, under hard stops, limits and approvals; a task that fails too
-- often goes to the dead letters of its stream, and a workflow of several steps reports its
-- progress.
--
-- Files and code:
--   Prelude: texts, integers, lists and tests that the parts share.
--   Harness.CircuitBreaker: core/harness/circuit_breaker.py. `CircuitBreaker` has the fields of the
--     class. `admit` is the block of `call` under the lock, `settle` what follows the function;
--     `call` composes them, and `run` takes blocks of several calls in any order.
--   Harness.Retry: core/harness/retry_strategies. `attempts` is the loop of `execute_with_retry`.
--   Harness.Quota: core/harness/quota_management/in_memory_quota.py, `InMemoryQuota`.
--   Harness.AgentHarness: core/harness/agent_harness.py, `AgentHarness.execute`, in a monad of
--     results and a world (AgentHarness.Outcome). The end of the tracing span has no action of its own: it
--     is part of recording a success or a failure, and is not there after an interruption. It uses the strategies of Harness.Retry as they
--     are; Unmetered joins it with Harness.Quota.
--   Qualification: tiers/tier_2/leads_orchestrator/qualification/scorer.py. Data has the
--     configuration and the result, Input the normalisation, Rules the five scores, Decision the
--     fast-track rules and the decision, Scorer `score` and `score_lead_sync`.
--   Tokens: core/tokens.py.
--   PreFilter: services/email/pre_filter.py. Checks are the tests of the filter, Tables its constants;
--     `decide` has the rules in their order. Float is the addition of binary64 numbers.
--   Envelope: core/envelope/typed_envelope.py, with `result` as `result_of` and `error` as `error_of`.
--   TokenBucket: core/utils/rate_limiter.py, `TokenBucket`. `take_tokens` is the block under the lock,
--     `acquire` the loop over the readings of the clock that it makes.
--   RateLimit: api/gateway/middleware/rate_limit.py, `InMemoryRateLimiter`.
--   Sequencer: tiers/tier_3/channel_sequencer_agent, with the requests of its validators.py. Guards has
--     the hard stops and the throttle of channel_sequencer_agent.py, Agent its steps and
--     `build_sequence`, Harness the retries of channel_sequencer_agent_harness.py. The agent's file
--     ends in lines that do not parse, which are left out.
--   Consumer: consumer.py of the same directory. `handle` takes one message through the harness, with the
--     answer or the dead letter that it writes; it uses Sequencer.Harness, Envelope and Dlq.
--   Dlq: core/dlq.py. A dead letter is written by `to_dict` and read by `from_dict`, Streams has the
--     operations of `DeadLetterQueue`, and Moves the abstract queues that they refine.
--   Workflow: core/utils/workflow_progress.py. `started` and `update_hash` are what `start_workflow` and
--     `update_step` write of a workflow; Says describes what a status says of the steps, Details their
--     dictionary; Active has `get_progress` and `list_active_workflows`.
--   Persistence: services/persistence. Value has the values of rows, Memory adapters/in_memory_adapter.py,
--     Service the guarded operations of service.py over an adapter, and its read-only facade, and Metrics
--     metrics.py. Requests has the calls as values, Relaying describes what the service does to one, and
--     Guarding and Facade state what is let through.
--   Compound: tiers/tier_3/persistence_agent/compound_handler.py. References has `resolve_value` and
--     `resolve_references`, Conditions `evaluate_condition`, Data the schemas of core/schemas/persistence.py,
--     Execution `execute_step`, Whole `rollback_step` and `execute_compound`, Builders the two builders.
--   InboxPoller: services/email/inbox_poller.py. `process_event` is a round of the loop over the emails,
--     `poll` the try of a round of `run_poller`; it uses PreFilter. Event has the events of
--     services/email/providers.py, and Once what the poller relies on.
--   Routing: tiers/tier_1/manager/policy/router.py, with the request and the decision of
--     core/schemas/manager.py. What reading a file of the routing gives is a value of `Reading`.
--     A file that is read is well typed, and is read anew each time: the cache is left out.
--   Effects passes on the monad of actions that may raise, which Sequencer declares.
-- Each module's children hold its theorems, and its Tests child runs and applications of them.
--
-- Bounds and fuel: the retry loop is recursion on the rounds of its `range`, and their number is
-- the one that the code gives. The loop of `acquire` is recursion on the readings of the clock, and
-- it says `waiting` where they end. `decimal` writes a number with one round more than the number
-- counts, which is more than its digits. The rounds of the sequencer's harness are its retries and
-- one. An upsert is tried three times at most, as in the code, and `run_poller` is given a number of
-- rounds, since its loop has no end. Everything else is recursion on lists, on the values of JSON or on texts. Integers are unbounded, as in the language. Times and
-- delays are natural numbers of one unit, where the code has floating point; the scores of leads
-- are integers, and those of the email filter are binary64 numbers.
--
-- Parameters: the language model, the random draw, the search of a regular expression, the wrapped
-- function, the agent, the checkpointer, the metrics, JSON texts, the percentages of floats, and
-- the commands of Redis, the mail server and the webhooks, each of which may raise. A text is a
-- list of code points; lower-casing and stripping are those of ASCII. The values of JSON have integers
-- for numbers. The adapter of a database, the sorting of rows, `repr`, and the provider of emails are
-- parameters too.
--
-- Not modelled: logs; the handlers of signals (core/shutdown.py); the wiring of a harness from its configuration and its health check; the
-- loading of the qualification file; the endless loop of a consumer and the other consumers; the
-- expiry of the tracker's hashes and its statistics of a step; changes of a row in place behind the
-- adapter in memory; the persistence agent around the compound operations; and the parts that call outside
-- services (Redis, databases, mail, web), the rest of the gateway and the front ends, which are
-- mostly input and output.
pub mod Prelude
pub mod Harness
pub mod Qualification
pub mod Tokens
pub mod PreFilter
pub mod Envelope
pub mod TokenBucket
pub mod RateLimit
pub mod Sequencer
pub mod Dlq
pub mod Workflow
pub mod Consumer
pub mod Effects
pub mod Persistence
pub mod Compound
pub mod InboxPoller
pub mod Routing
