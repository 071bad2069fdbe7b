-- ===== src/Lib.antt =====
-- The agent manager's broker (crates/agent-manager-broker): one process that runs coding agents for an
-- editor. Provider sessions send events; the broker numbers and keeps them, brings each agent's state
-- and transcript up to date, tells the client, and maps the client's decisions to the providers' forms.
--
-- The files, each with its code under crates/agent-manager-broker/src:
--   Protocol            protocol.rs: requests' ids, agents, events; and the JSON values (`Value`).
--   Replay              replay.rs: `ReplayBuffer` with `new`, `push`, `bounds`, `replay_after`.
--     Replay/History    the buffer against the list of every event that was pushed.
--   Framing             framing.rs: `read_bounded_line`, over a reader with tokio's laws.
--     Framing/Line      what a bounded line of the whole stream is.
--   Transcript          transcript.rs: `Transcript`, `push_user`, `apply_event`, `replace_history`.
--     Transcript/Lines, Messages, Markdown (with Inline), Splice
--                       the lines and their styles, rendering, `mod markdown`, patches.
--     Transcript/Splice/Trim, Styled, Rendered, Mirror, Session
--                       trimmed patches; the lines are the messages' rendering; a client that applies
--                       the patches.
--   Human               human.rs: requests for approval and questions, and their responses.
--     Human/Payload     what the client is shown; Human/Answers and Human/Paths: the proofs.
--   Projection          projection.rs: `provider_models`; Projection/Catalog: the proofs.
--   Codex, Worker       codex.rs, worker.rs: the events that human.rs reads.
--   Registry            registry.rs: the document, and `restore`, the part of `load` after reading it.
--     Registry/Store    `open`, `load`, `persist`, over a file system; Registry/Persisted, Roundtrip: the proofs.
--   Workspace           workspace.rs: identifiers, and the reasons of a refusal.
--     Workspace/Receipt, Inventory (with Sorting), Lifecycle
--                       receipts, `project_inventory`, and `claim`, `audit` and `handoff`.
--     Workspace/Identifiers, Projected, Settled
--                       the proofs.
--   Broker              embedded.rs, the broker's core:
--     Broker/Agents     `ManagedAgent`, the commands of runtime.rs, the table of agents, `Services`.
--     Broker/State      `apply_event_state`, `restore_waiting_state`.
--     Broker/Core       `Broker`, `send`, `summaries`, `notify_state`.
--     Broker/Connection `connect`, `disconnect`, `initialize`, `handle_notification`.
--     Broker/Events     `handle_provider_event`, `dispatch_queued_prompt`, `cancel_queued_prompts`,
--                       `handle_provider_failure`.
--     Broker/Requests   `runtime_request`, `send_runtime_response`, `handle_runtime_event`.
--     Broker/Dispatch   `handle_request`, with the match on the methods.
--     Broker/Commands, Views
--                       the requests for an agent that is there: `history`, `respond_approval`,
--                       `respond_question`, `interrupt_agent`, and what is only shown.
--     Broker/Checkout, Launch, Sessions
--                       checkouts, `launch_agent` and what resolves a workspace, and `start_agent`,
--                       `resume_agent`, `fork_agent`, `archive_agent`, `handoff_workspace`.
--     Broker/Answered, Replied, Shown, Launched, Served
--                       the replies that requests have and are owed.
--     Broker/Exclusive  when an agent is launched, and the writers of a checkout.
--     Broker/Restored   `Broker::new` with restored agents.
--     Broker/Inputs     `send_agent_input`, `dispatch_agent_input`.
--     Broker/Context    `merge_input_contexts`, `validate_context`.
--     Broker/Sound, Recorded, Cancelled, Handled, Reported, Runtime
--                       an agent's invariant, and that whatever a runtime reports keeps it.
--     Broker/Prompted, Outcome, Treated
--                       that an input keeps it, and what becomes of the input.
--     Broker/Reconnect, Generations, Earlier
--                       reconnecting, responses that are sent twice, and responses to requests of earlier
--                       connections.
--   Text, Prelude       lists of code points, and what the modules share.
--   Tests               the theorems applied to concrete inputs.
--
-- Conventions. State is passed explicitly. `none` of an operation is a panic (a slice out of range,
-- `expect`) or fuel that is used up. A `u64` is a number below 2 ^ 64 with its saturation, its check
-- or its wrap-around written out. A hash map is the list of its entries. Offsets in a text are counted
-- in code points while the text is walked, and in bytes in the spans. The order of `str` is that of its
-- code points. One reading of the clock serves one operation.
--
-- Fuel. `read_bounded_line` takes one unit for each round, and more units than the stream has bytes are
-- enough. `handle_provider_event` takes one unit for an event and one for the notice of a cancellation,
-- which is followed by nothing: two are enough. Both are proved.
--
-- Parameters: the buffered reader, `char::is_alphanumeric`, the last part of a path, decimal digits, a
-- channel's `try_send`, the clock, questions about paths, JSON lengths, the registry's and the status's
-- stores as the broker calls them, the file system and the JSON of registry.rs, the processes that workspace.rs runs, and
-- for a launch a new UUID, the spawned runtime's channel, and the file system and git of `Host`.
--
-- Not modelled: the lists of workspaces, models and sessions and the deletion of a session (one parameter of
-- `handle_request`), the checks of a message's frame, the runtimes' session loops, sockets, files and
-- locks, waiting for room in a channel, the names of the methods (a request is a constructor), slices of a text
-- that are not at a character's boundary, the process and the timeout of a lifecycle command, session listings, the status's document, the serde attributes,
-- the editor plugin (lua), the Claude worker (python), and the operations' scripts.
pub mod Prelude
pub mod Protocol
pub mod Text
pub mod Transcript
pub mod Replay
pub mod Framing
pub mod Codex
pub mod Worker
pub mod Human
pub mod Projection
pub mod Registry
pub mod Workspace
pub mod Broker
mod Tests
