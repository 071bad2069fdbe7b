-- ===== src/Broker/Sessions.antt =====
-- embedded.rs: starting, resuming, forking, retiring and archiving agents, and handing their tasks off. The parameters have been parsed: `none` is a failure to parse them. A result of `none` is a panic.
use nvim_agents_zzz.Prelude.{
  String, Bool, true, false, ◌&&◌, ◌||◌, not, Option, none, some, List, [], ◌∷◌, any, filter,
  str_eq, if◌then◌else◌, ◌>>=◌, ltb, unwrap_or, Result, ok, err,
}
use nvim_agents_zzz.Protocol.{
  Value, RequestId, ProviderOptions, AgentState, starting, idle, running, waiting_input,
  waiting_approval, completed, interrupted, disconnected, fields,
}
use nvim_agents_zzz.Broker.Agents.{Services, ManagedAgent, shutdown, find, put}
use nvim_agents_zzz.Broker.State.{same_state}
use nvim_agents_zzz.Broker.Core.{State, Outgoing, response, error, send, notify_state}
use nvim_agents_zzz.Broker.Connection.{invalid_params}
use nvim_agents_zzz.Broker.Inputs.{validate_provider_options}
use nvim_agents_zzz.Broker.Commands.{with_agent_id}
use nvim_agents_zzz.Broker.Checkout.{SessionLaunch, resume, fork}
use nvim_agents_zzz.Broker.Launch.{
  Launching, StartParams, ManagedWorkspaceParams, is_live, owns_task, refusal_message,
  resolve_launch_workspace, launch_agent,
}

pub record ResumeParams : Type 0 where
  pub session_id : String
  pub launched : StartParams

-- `handoff` of workspace.rs, with the text of an error, if the lifecycle is enabled.
pub record Closing : Type 0 where
  pub handoff : Option (String → String → Result (Unit {0}) String)

abbrev pub default_options : ProviderOptions
default_options = record { model = none; effort = none }

abbrev pub is_at_rest : AgentState → Bool
is_at_rest state =
    same_state state idle || same_state state completed || same_state state interrupted

abbrev pub is_active : AgentState → Bool
is_active state =
    same_state state starting
    || same_state state running
    || same_state state waiting_input
    || same_state state waiting_approval

module _ (services : Services) where
  abbrev pub has_request : ManagedAgent services → Bool
  has_request agent = ltb 0 agent.summary.pending_approvals || ltb 0 agent.pending_questions

  abbrev pub told_shutdown : ManagedAgent services → services.Sender
  told_shutdown agent = elim (services.send_wait agent.commands shutdown) [
    | none ↦ agent.commands
    | some commands ↦ commands
  ]

  -- The agent that is told to shut down and has no task any more.
  abbrev pub retired : String → ManagedAgent services → ManagedAgent services
  retired now agent = record agent {
    commands = told_shutdown agent;
    task = false;
    pending_questions = 0;
    pending_contexts = [];
    summary = record agent.summary {
      state = disconnected;
      active_turn_id = none;
      pending_approvals = 0;
      updated_at = now;
    };
  }

  unfoldable pub retire_agent : String → String → State services → State services
  unfolding notify_state
  retire_agent now agent_id broker = elim (find agent_id broker.agents) [
    | none ↦ broker
    | some agent ↦
        notify_state services
          (record broker { agents = put agent_id (retired now agent) broker.agents })
  ]

  abbrev pub without_agents : List String → State services → State services
  without_agents ids broker = record broker {
    agents = filter (λ entry. not (any (str_eq entry.0) ids)) broker.agents;
    agent_order = filter (λ id. not (any (str_eq id) ids)) broker.agent_order;
  }

  abbrev pub archived_reply : RequestId → String → Outgoing
  archived_reply request_id agent_id = response request_id (
      Value.object
        (fields (("archived", Value.bool true) ∷ ("agent_id", Value.string agent_id) ∷ [])))

  -- The broker that has forgotten an agent.
  unfoldable pub archived : RequestId → String → State services → State services
  unfolding send notify_state
  archived request_id agent_id broker =
      notify_state services
        (send services (without_agents (agent_id ∷ []) broker) (archived_reply request_id agent_id))

  unfoldable pub archive_agent :
      String → RequestId → Option String → State services → Option (State services)
  unfolding retire_agent send archived
  archive_agent now request_id params broker =
      with_agent_id services broker request_id params (λ agent_id agent.
        if is_active agent.summary.state || has_request agent
        then some (
            send services broker (
              error (some request_id) 32013
                "Only an inactive agent with no pending human request can be archived" none))
        else if agent.task
        then some (archived request_id agent_id (retire_agent now agent_id broker))
        else some (archived request_id agent_id broker))

  module _ (launching : Launching services) (now : String) where
    abbrev pub launched_state : Option (State services × Option String) → Option (State services)
    launched_state r = r >>= λ pair. some pair.0

    unfoldable pub start_agent :
        RequestId → Option StartParams → SessionLaunch → State services → Option (State services)
    unfolding validate_provider_options resolve_launch_workspace launch_agent send
    start_agent request_id none launch broker =
        some (send services broker (invalid_params request_id "invalid start parameters"))
    start_agent request_id (some parsed) launch broker =
        let options = unwrap_or parsed.provider_options default_options in
        elim (validate_provider_options parsed.provider options) [
          | err message ↦ some (send services broker (invalid_params request_id message))
          | ok valid ↦ elim (resolve_launch_workspace services launching now broker parsed) [
            | err refusal ↦ some (send services broker (refusal_message request_id refusal))
            | ok workspace ↦ launched_state (
                launch_agent services launching now request_id parsed.provider workspace options
                  launch broker)
          ]
        ]

    unfoldable pub resume_agent :
        RequestId → Option ResumeParams → State services → Option (State services)
    unfolding start_agent send
    resume_agent request_id none broker =
        some (send services broker (invalid_params request_id "invalid resume parameters"))
    resume_agent request_id (some parsed) broker =
        if str_eq parsed.session_id ""
        then some (
            send services broker
              (invalid_params request_id "provider session id must not be empty"))
        else start_agent request_id (some parsed.launched) (resume parsed.session_id) broker

    abbrev pub with_contexts : List Value → State services × Option String → State services
    with_contexts contexts (broker, none) = broker
    with_contexts contexts (broker, some id) = elim (find id broker.agents) [
      | none ↦ broker
      | some agent ↦ record broker {
        agents = put id (record agent { pending_contexts = contexts }) broker.agents;
      }
    ]

    unfoldable pub fork_agent : RequestId → Option String → State services → Option (State services)
    unfolding retire_agent launch_agent send
    fork_agent request_id params broker =
        with_agent_id services broker request_id params (λ source_id source.
          if not (is_at_rest source.summary.state) || has_request source
          then some (
              send services broker (
                error (some request_id) 32013
                  "Agent must be idle with no pending human request before it can be forked" none))
          else elim source.summary.provider_session_id [
            | none ↦ some (
                send services broker (
                  error (some request_id) 32013 "Agent has no provider session identity to fork"
                    none))
            | some session ↦
                launch_agent services launching now request_id source.summary.provider
                  (record {
                    cwd = source.summary.cwd;
                    strategy = source.summary.workspace_strategy;
                    worktree_path = source.summary.worktree_path;
                    managed = source.summary.managed_workspace;
                  })
                  source.summary.provider_options (fork session) (retire_agent now source_id broker)
                >>= λ launched. some (with_contexts source.pending_contexts launched)
          ])

    unfoldable pub handoff_workspace :
        Closing
        → RequestId
        → Option ManagedWorkspaceParams
        → State services
        → Option (State services)
    unfolding send
    handoff_workspace closing request_id none broker =
        some
          (send services broker (invalid_params request_id "invalid managed workspace parameters"))
    handoff_workspace closing request_id (some parsed) broker =
        if any
          (λ entry.
            is_live services launching now entry
            && owns_task parsed.repository parsed.task_id entry.1.summary.managed_workspace)
          broker.agents
        then some (
            send services broker
              (error (some request_id) 32013 "A live agent still owns this managed task" none))
        else elim closing.handoff [
          | none ↦ some (
              send services broker
                (error (some request_id) 32030 "Managed workspace lifecycle is disabled" none))
          | some handoff ↦ elim (handoff parsed.repository parsed.task_id) [
            | err message ↦ some (send services broker (error (some request_id) 32030 message none))
            | ok done ↦ some (
                send services broker (
                  response request_id (
                    Value.object (
                      fields (
                        ("handed_off", Value.bool true)
                        ∷ ("repository", Value.string parsed.repository)
                        ∷ ("task_id", Value.string parsed.task_id)
                        ∷ [])))))
          ]
        ]
