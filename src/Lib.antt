-- ===== src/Lib.antt =====
-- A verification library of santi, a service that keeps sessions of messages with a soul, runs
-- turns against a model provider, and compacts and forks sessions. It models the data of
-- santi-core, the standalone store of santi-db, the in-process lock of santi-lock, the services of
-- santi-runtime that work on them, and of santi-api the operations behind the HTTP handlers and
-- the protocol of replies.
--
-- The parts. A session is a list of messages that the session ledger numbers from 1. A soul
-- session is the soul's view of a session: a list of entries (messages, tool calls, tool results,
-- compacts) that the soul runtime numbers from 1 on with a counter of its own, and the turns that
-- wrote them. A message changes by events, which the ledger applies to the stored message. The
-- assembly of a soul session is what a provider is sent. The services hold the lock of a session
-- while they call the ports; here they are composed with the standalone adapters, as the
-- standalone mode wires them.
--
-- Which file models which part:
--   Base: lists, texts, integers, and `Exec`, an action on a state that may fail. What was
--     written before a failure stays written unless a transaction undoes it.
--   Model: crates/santi-core/src/model (message.rs, session.rs, runtime.rs, effect.rs) and
--     error.rs, and JSON values.
--   MessageEvents: crates/santi-db/src/message_events.rs, `apply_message_event` with its
--     guards (Apply, Guards), and its payloads: patch (Patch, Merge), insert (Insert), remove
--     (Remove).
--   Assembly: crates/santi-core/src/service/session/kernel/transcript.rs and
--     crates/santi-runtime/src/session/send/assembly.rs, `assembly_to_provider_input`.
--   Prompt: crates/santi-core/src/service/session/kernel/runtime_prompt.rs, the prompt and its
--     text.
--   Store: crates/santi-db/src/adapter/standalone. A table is the list of its rows in the
--     order of insertion, a query a search of it, a constraint a test before the insertion.
--     Mapping and Sessions are session_store.rs with mapping.rs and schema.rs; Souls, Turns,
--     Items and Forks are soul_runtime (bootstrap.rs, helpers.rs, mod.rs, runtime_port.rs,
--     compact.rs, fork.rs); Effects is effect_ledger.rs. Steps makes one machine of the
--     operations. Appends, Events and Deletes are about the ledger; Counters, Entries, Valid,
--     Growth, Turning and Reach about the soul runtime; ForkSteps and Forked about forks;
--     Untouched and Ended about what an operation leaves alone and about the rows of turns.
--     SoulStore is soul_store.rs; Listings has the lists of effect_ledger.rs, compact.rs and
--     query_port.rs, and Listed is about the first.
--   Lock: crates/santi-lock/src/adapter/standalone.rs.
--   Runtime: crates/santi-runtime/src/session: the state that the services share, Channel
--     (send/mod.rs), Watch (watch/shapes.rs), Compacts (compact.rs), Forking (fork.rs),
--     Handoff (effect.rs), Memory (memory.rs), Query (query.rs), Projection
--     (watch/projection.rs, watch/mod.rs) and HookRuntime (hook_runtime.rs). Compacted,
--     Writing, Compacting, Reforking, Finishing, Handed, HookRecords and Calls are about them.
--   Tools: crates/santi-runtime/src/runtime/tools.rs with tools/dispatch_result.rs (Results,
--     BashResults) and tools/catalog.rs (Catalog), tools/bash_stream.rs and
--     tools/github_https_git_env.rs (Capture). Kept, Answers and Captured are about them.
--   Send: crates/santi-runtime/src/session/send, a turn: Startup (turn.rs, assembly.rs),
--     Instructions (runtime/prompt.rs), Body and Ending (turn/body.rs), Worker (turn.rs,
--     mod.rs), Streams (mod.rs). Terminates, Held, Closing, Starting, Settled, Released, Said,
--     Reply and Outputs are about it.
--   Hooks: crates/santi-core/src/hook.rs and crates/santi-runtime/src/hooks.rs, the evaluators
--     and what their actions ask for.
--   Api: crates/santi-api/src: surface/error.rs, surface/session.rs and surface/soul.rs
--     (Session), the operations that the HTTP handlers call, and http/protocol_reply.rs
--     (Replies), the replies that clients of the protocol follow, and handler/stim.rs, the
--     envelopes of the protocol (Stim, Operations) with their handlers and the task that fills
--     a reply (Submissions). Log, Replayed, Fresh, Later, Followed, Concluded and Submitted
--     are about them.
--
-- Bounds. Sequence numbers are natural numbers: the store counts them up from 1, by one for each
-- message or entry, so that 2 ^ 63 of them are out of reach. A number that a caller gives may be
-- negative and is an integer. The version of a message is the bit pattern of its i64 and wraps as
-- the code's does. The printing of a decimal number has as much fuel as the number itself. The
-- loop of a turn has fuel for each request to the provider, and gives none when that was not
-- enough; it is enough as soon as an answer asks for no tool.
--
-- Left out: the text that SQLite and serde add to an error message; connections, migrations,
-- timeouts; the Postgres and Redis adapters, which are clients of a service; the HTTP handlers of
-- sessions and souls, and the routes. The types of stim_proto, which is not in the repository, are
-- as http/protocol_reply.rs and handler/stim.rs fill and read them. A UUID that the code draws is
-- an argument, and the name-based UUID of a fork is a parameter. The provider and a run of bash
-- are arguments; the hand-off of a hook takes its two executors as arguments, and the hook runtime
-- its two services. The stream of a provider is a finite list, and nothing else runs while a turn
-- reads it. A broadcast channel is the list of what was sent on it, and stays open; that it drops
-- events for a receiver that lags behind is left out, and so are the file that keeps the output of
-- a command and its errors. The task that fills a reply is a value that waits, and runs to its end
-- in one step. The reading of a hook's parameters by serde is an argument.
mod Base
pub mod Model
pub mod MessageEvents
pub mod Assembly
pub mod Prompt
pub mod Store
pub mod Lock
pub mod Runtime
pub mod Hooks
pub mod Tools
pub mod Send
pub mod Api
