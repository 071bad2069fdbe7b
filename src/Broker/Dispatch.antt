-- ===== src/Broker/Dispatch.antt =====
-- embedded.rs: the dispatch of the client's requests and notifications. The parameters of each method have been
-- parsed: `none` is a failure to parse them. The handlers that ask a provider, and the worktrees, are one parameter.
use nvim_agents_zzz.Prelude.{
  ℕ, String, Bool, true, false, Option, none, some, List, [], ◌∷◌, if◌then◌else◌, ◌>>=◌,
}
use nvim_agents_zzz.Protocol.{Value, RequestId, fields}
use nvim_agents_zzz.Broker.Agents.{Services}
use nvim_agents_zzz.Broker.Core.{
  State, ConnectionPhase, await_initialize, await_initialized, ready, is_durable, response, error,
  send,
}
use nvim_agents_zzz.Broker.Connection.{Reported, InitializeParams, initialize, invalid_params}
use nvim_agents_zzz.Broker.Context.{Paths}
use nvim_agents_zzz.Broker.Events.{cancel_queued_prompts, handle_provider_event}
use nvim_agents_zzz.Broker.Inputs.{InputKind, TurnInputParams, send_agent_input}
use nvim_agents_zzz.Broker.Checkout.{start, canonical_directory}
use nvim_agents_zzz.Broker.Launch.{Launching, StartParams, ManagedWorkspaceParams}
use nvim_agents_zzz.Broker.Sessions.{
  Closing, ResumeParams, start_agent, resume_agent, fork_agent, archive_agent, handoff_workspace,
}
use nvim_agents_zzz.Broker.Commands.{
  HistoryParams, ApprovalResponseParams, QuestionResponseParams, history, respond_approval,
  respond_question, interrupt_agent,
}
use nvim_agents_zzz.Broker.Views.{
  ContextParams, DiffOutput, list_agents, attach_agent, transcript, replay, add_context, diff,
  workspace_diff,
}

-- The requests, by their methods.
pub data Request : Type 0 where
  initialize_with : Option InitializeParams → Request
  agent_list : Request
  workspace_handoff : Option ManagedWorkspaceParams → Request
  diff_of_workspace : Option String → Request
  agent_start : Option StartParams → Request
  agent_attach : Option String → Request
  agent_history : Option HistoryParams → Request
  agent_transcript : Option String → Request
  agent_input : InputKind → Option TurnInputParams → Request
  agent_interrupt : Option String → Request
  agent_resume : Option ResumeParams → Request
  agent_fork : Option String → Request
  agent_archive : Option String → Request
  approval_respond : Option ApprovalResponseParams → Request
  question_respond : Option QuestionResponseParams → Request
  context_add : Option ContextParams → Request
  agent_diff : Option String → Request
  agent_replay : Option ℕ → Request
  -- whether the parameters are an empty object
  broker_shutdown : Bool → Request
  -- workspace/list, provider/model/list, provider/session/list, provider/session/delete
  provider_request : Value → Request
  unknown : Request

abbrev pub is_initialize : Request → Option (Option InitializeParams)
is_initialize (initialize_with params) = some params
is_initialize request = none

module _ (services : Services) where
  -- What the handlers use beside the broker's state.
  pub record Surroundings : Type 1 where
    pub now : String
    pub paths : Paths
    pub reported : Reported
    pub launching : Launching services
    pub closing : Closing
    pub from_utf8_lossy : List ℕ → String
    pub run_diff : String → Option DiffOutput
    pub fuel : ℕ
    pub provider : Value → RequestId → State services → Option (State services)

  module _ (around : Surroundings) where
    open around use {now, paths, launching}

    -- The `match` on the method, for a client that is ready; and whether the broker ends.
    unfoldable pub serve : RequestId → Request → State services → Option (State services)
    unfolding send list_agents attach_agent transcript replay add_context diff workspace_diff
        history respond_approval respond_question interrupt_agent cancel_queued_prompts
        handle_provider_event start_agent resume_agent fork_agent archive_agent handoff_workspace
        send_agent_input
    serve id (initialize_with params) broker =
        some (send services broker (error (some id) 32004 "Broker is already initialized" none))
    serve id agent_list broker = list_agents services id broker
    serve id (workspace_handoff params) broker =
        handoff_workspace services launching now around.closing id params broker
    serve id (diff_of_workspace params) broker =
        workspace_diff services (canonical_directory launching.host) around.from_utf8_lossy
          around.run_diff id params broker
    serve id (agent_start params) broker = start_agent services launching now id params start broker
    serve id (agent_attach params) broker = attach_agent services id params broker
    serve id (agent_history params) broker = history services now id params broker
    serve id (agent_transcript params) broker = transcript services id params broker
    serve id (agent_input kind params) broker =
        send_agent_input services paths now id params kind broker
    serve id (agent_interrupt params) broker =
        interrupt_agent services now
          (cancel_queued_prompts services (handle_provider_event services around.fuel now) now) id
          params broker
    serve id (agent_resume params) broker = resume_agent services launching now id params broker
    serve id (agent_fork params) broker = fork_agent services launching now id params broker
    serve id (agent_archive params) broker = archive_agent services now id params broker
    serve id (approval_respond params) broker = respond_approval services now id params broker
    serve id (question_respond params) broker = respond_question services now id params broker
    serve id (context_add params) broker = add_context services paths id params broker
    serve id (agent_diff params) broker =
        diff services around.from_utf8_lossy around.run_diff id params broker
    serve id (agent_replay params) broker = replay services id params broker
    serve id (broker_shutdown false) broker =
        some (send services broker (invalid_params id "params must be empty"))
    serve id (broker_shutdown true) broker =
        if is_durable broker.mode
        then some (
            send services broker (
              error (some id) 32010 "Durable broker shutdown is owned by the lifecycle manager"
                none))
        else some (
            send services broker
              (response id (Value.object (fields (("shutdown", Value.bool true) ∷ [])))))
    serve id (provider_request params) broker = around.provider params id broker
    serve id unknown broker =
        some (send services broker (error (some id) 32601 "Method not found" none))

    -- Whether the broker ends with the request.
    abbrev pub ends : Request → State services → Bool
    ends (broker_shutdown true) broker = if is_durable broker.mode then false else true
    ends request broker = false

    abbrev pub before_initialize : RequestId → Request → State services → State services
    before_initialize id request broker = elim (is_initialize request) [
      | some params ↦ initialize services around.reported id params broker
      | none ↦ send services broker (error (some id) 32002 "Broker is not initialized" none)
    ]

    unfoldable pub handle_in :
        ConnectionPhase → RequestId → Request → State services → Option (State services × Bool)
    unfolding serve initialize send
    handle_in await_initialize id request broker = some (before_initialize id request broker, false)
    handle_in await_initialized id request broker = some (
      send services broker (error (some id) 32003 "Broker is waiting for initialized" none),
      false,
    )
    handle_in ready id request broker =
        serve id request broker >>= λ after. some (after, ends request broker)

    unfoldable pub handle_request :
        RequestId → Request → State services → Option (State services × Bool)
    unfolding handle_in
    handle_request id request broker = handle_in broker.phase id request broker
