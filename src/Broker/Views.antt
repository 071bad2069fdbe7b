-- ===== src/Broker/Views.antt =====
-- embedded.rs: what the client is shown of the agents, and the contexts that it adds. The parameters have been
-- parsed: `none` is a failure to parse them. The output of `git diff` is an argument.
use nvim_agents_zzz.Prelude.{
  ℕ, String, Bool, true, ◌||◌, not, Option, none, some, List, [], ◌∷◌, ◌++◌, length, take,
  if◌then◌else◌, ltb, Result, ok, err,
}
use nvim_agents_zzz.Protocol.{Value, RequestId, disconnected, fields}
use nvim_agents_zzz.Replay.{events, resync_required, replay_after}
use nvim_agents_zzz.Broker.Agents.{Services, put}
use nvim_agents_zzz.Broker.State.{same_state}
use nvim_agents_zzz.Broker.Core.{
  State, response, agent_response, agents_response, transcript_response, events_response, error,
  send, summaries,
}
use nvim_agents_zzz.Broker.Connection.{invalid_params, natural}
use nvim_agents_zzz.Broker.Context.{Paths, validate_context, validate_context_collection}
use nvim_agents_zzz.Broker.Commands.{with_agent, with_agent_id}

pub record ContextParams : Type 0 where
  pub agent_id : String
  pub context : Value

-- The output of `git diff`, or none when it could not be started or took too long.
pub record DiffOutput : Type 0 where
  pub success : Bool
  pub stdout : List ℕ

abbrev pub max_diff_bytes : ℕ
max_diff_bytes = 2097152

module _ (services : Services) where
  unfoldable pub list_agents : RequestId → State services → Option (State services)
  unfolding send summaries
  list_agents request_id broker =
      some (send services broker (agents_response request_id (summaries services broker)))

  unfoldable pub attach_agent : RequestId → Option String → State services → Option (State services)
  unfolding send
  attach_agent request_id params broker =
      with_agent_id services broker request_id params
        (λ agent_id agent. some (send services broker (agent_response request_id agent.summary)))

  unfoldable pub transcript : RequestId → Option String → State services → Option (State services)
  unfolding send
  transcript request_id params broker =
      with_agent_id services broker request_id params (λ agent_id agent. some (
        send services broker (
          transcript_response request_id agent_id agent.transcript.revision
            agent.transcript.lines)))

  unfoldable pub replay : RequestId → Option ℕ → State services → Option (State services)
  unfolding send
  replay request_id none broker =
      some (send services broker (invalid_params request_id "invalid replay parameters"))
  replay request_id (some after_sequence) broker =
      elim (replay_after broker.replay after_sequence) [
        | events es ↦ some (send services broker (events_response request_id es))
        | resync_required oldest latest ↦ some (
            send services broker (
              error (some request_id) 32014 "Replay cursor is outside the retained window" (
                some (
                  Value.object
                    (fields (("oldest", natural oldest) ∷ ("latest", natural latest) ∷ []))))))
      ]

  unfoldable pub add_context :
      Paths → RequestId → Option ContextParams → State services → Option (State services)
  unfolding send validate_context validate_context_collection
  add_context paths request_id none broker =
      some (send services broker (invalid_params request_id "invalid editor context"))
  add_context paths request_id (some parsed) broker =
      with_agent services broker request_id parsed.agent_id (λ agent.
        if not agent.task || same_state agent.summary.state disconnected
        then some (
            send services broker
              (error (some request_id) 32013 "Editor context requires a live agent" none))
        else elim (validate_context paths parsed.context agent.summary.cwd) [
          | err message ↦ some (send services broker (invalid_params request_id message))
          | ok context ↦
              let contexts = agent.pending_contexts ++ context ∷ [] in
              elim (validate_context_collection paths contexts) [
                | err message ↦ some (send services broker (invalid_params request_id message))
                | ok valid ↦ some (
                    send services
                      (record broker {
                        agents =
                            put parsed.agent_id (record agent { pending_contexts = contexts })
                              broker.agents;
                      })
                      (response request_id (
                        Value.object (
                          fields (
                            ("queued", Value.bool true)
                            ∷ ("count", natural (length contexts))
                            ∷ ("context", context)
                            ∷ [])))))
              ]
        ])

  unfoldable pub diff_directory :
      (List ℕ → String)
      → (String → Option DiffOutput)
      → RequestId
      → String
      → State services
      → Option (State services)
  unfolding send
  diff_directory from_utf8_lossy run_diff request_id cwd broker = elim (run_diff cwd) [
    | none ↦ some (
        send services broker
          (error (some request_id) 32020 "Workspace diff timed out or could not be started" none))
    | some output ↦
        if not output.success
        then some (
            send services broker (
              error (some request_id) 32020 "Workspace diff is unavailable for this directory"
                none))
        else some (
            send services broker (
              response request_id (
                Value.object (
                  fields (
                    ("cwd", Value.string cwd)
                    ∷ ("diff", Value.string (from_utf8_lossy (take max_diff_bytes output.stdout)))
                    ∷ ("truncated", Value.bool (ltb max_diff_bytes (length output.stdout)))
                    ∷ [])))))
  ]

  unfoldable pub diff :
      (List ℕ → String)
      → (String → Option DiffOutput)
      → RequestId
      → Option String
      → State services
      → Option (State services)
  unfolding diff_directory
  diff from_utf8_lossy run_diff request_id params broker =
      with_agent_id services broker request_id params (λ agent_id agent.
        diff_directory from_utf8_lossy run_diff request_id agent.summary.cwd broker)

  unfoldable pub workspace_diff :
      (String → Result String String)
      → (List ℕ → String)
      → (String → Option DiffOutput)
      → RequestId
      → Option String
      → State services
      → Option (State services)
  unfolding diff_directory
  workspace_diff canonical_directory from_utf8_lossy run_diff request_id none broker =
      some (send services broker (invalid_params request_id "invalid workspace diff parameters"))
  workspace_diff canonical_directory from_utf8_lossy run_diff request_id (some raw) broker =
      elim (canonical_directory raw) [
        | err message ↦ some (send services broker (invalid_params request_id message))
        | ok cwd ↦ diff_directory from_utf8_lossy run_diff request_id cwd broker
      ]
