-- ===== src/Broker/Connection.antt =====
-- embedded.rs: connecting, and the two steps of initialization. The parameters have been parsed:
-- `none` is a failure to parse them. Of the configuration the two flags that are reported are arguments.
use nvim_agents_zzz.Prelude.{
  ℕ, String, Bool, true, false, ◌&&◌, not, Option, none, some, List, [], ◌∷◌, map, filter, str_eq,
  if◌then◌else◌, ◌>>=◌, ◌==◌, leb, unwrap_or,
}
use nvim_agents_zzz.Protocol.{
  Value, RequestId, EventEnvelope, pos_int, protocol_version, fields, optional,
}
use nvim_agents_zzz.Replay.{ReplayResult, events, resync_required, replay_after, bounds}
use nvim_agents_zzz.Broker.Agents.{Services}
use nvim_agents_zzz.Broker.Core.{
  State, BrokerMode, embedded, durable, Outgoing, agent_event, response, error, await_initialize,
  await_initialized, ready, is_durable, is_await_initialized, send, notify_state,
}
use nvim_agents_zzz.Broker.Events.{queue_client_disconnect}

pub record ClientIdentity : Type 0 where
  pub name : String
  pub version : String

pub record InitializeParams : Type 0 where
  pub client : ClientIdentity
  pub protocol_version : ℕ
  pub last_sequence : Option ℕ

-- What the configuration and the build say.
pub record Reported : Type 0 where
  pub broker_version : String
  pub registry_path : Option String
  pub managed_tasks : Bool
  pub shared_starts : Bool

abbrev pub invalid_params : RequestId → String → Outgoing
invalid_params id reason =
    error (some id) 32602 "Invalid params"
      (some (Value.object (fields (("reason", Value.string reason) ∷ []))))

abbrev pub natural : ℕ → Value
natural n = Value.number (pos_int n)

abbrev mode_name : BrokerMode → String
mode_name embedded = "embedded"
mode_name durable = "durable"

abbrev is_resync : ReplayResult → Bool
is_resync (events es) = false
is_resync (resync_required oldest latest) = true

module _ (services : Services) where
  unfoldable pub connect : State services → ℕ → State services
  connect broker generation =
      if leb generation broker.connection_generation then broker else record broker {
        connection_generation = generation;
        phase = await_initialize;
        reconnect_cursor = 0;
        output = some [];
      }

  unfoldable pub disconnect : State services → ℕ → State services
  unfolding queue_client_disconnect
  disconnect broker generation =
      if not (generation == broker.connection_generation) then broker else record broker {
        output = none;
        phase = await_initialize;
        reconnect_cursor = 0;
        pending_runtime_requests =
            filter (λ entry. not (entry.1.generation == generation))
              broker.pending_runtime_requests;
        agents = map (λ entry. (entry.0, queue_client_disconnect services entry.1)) broker.agents;
      }

  abbrev providers : Value
  providers = Value.object (
      fields (
        (
          "codex",
          Value.object (
              fields (
                ("compatibility_profile", Value.string "codex-app-server-stable-v1")
                ∷ ("schema_baseline_version", Value.string "0.152.0")
                ∷ [])),
        )
        ∷ (
          "claude",
          Value.object (
              fields (
                ("compatibility_profile", Value.string "claude-agent-sdk-v1")
                ∷ ("tested_agent_sdk_version", Value.string "0.2.158")
                ∷ ("tested_claude_code_version", Value.string "2.1.280")
                ∷ [])),
        )
        ∷ []))

  abbrev optional_number : Option ℕ → Value
  optional_number none = Value.null
  optional_number (some n) = natural n

  -- Whether a client with this cursor has to start anew.
  unfoldable pub needs_resync : State services → ℕ → Bool
  needs_resync broker cursor =
      is_durable broker.mode && is_resync (replay_after broker.replay cursor)

  unfoldable pub initialize_result : Reported → State services → Bool → Value
  initialize_result reported broker resync =
      let limits = bounds broker.replay in
      Value.object (
        fields (
          ("protocol_version", natural protocol_version)
          ∷ ("protocol_revision", natural 2)
          ∷ ("broker_version", Value.string reported.broker_version)
          ∷ ("mode", Value.string (mode_name broker.mode))
          ∷ ("providers", providers)
          ∷ (
            "replay",
            Value.object (
                fields (
                  ("capacity", natural broker.replay.capacity)
                  ∷ ("oldest", optional_number (limits >>= λ l. some l.0))
                  ∷ ("latest", optional_number (limits >>= λ l. some l.1))
                  ∷ ("resync_required", Value.bool resync)
                  ∷ [])),
          )
          ∷ (
            "registry",
            Value.object (
                fields (
                  ("path", optional reported.registry_path)
                  ∷ ("metadata_only", Value.bool true)
                  ∷ [])),
          )
          ∷ (
            "workspaces",
            Value.object (
                fields (
                  ("managed_tasks", Value.bool reported.managed_tasks)
                  ∷ ("shared_starts", Value.bool reported.shared_starts)
                  ∷ ("authority", Value.string "external_lifecycle")
                  ∷ ("destructive_controls", Value.bool false)
                  ∷ [])),
          )
          ∷ (
            "provider_sessions",
            Value.object (
                fields
                  (("delete", Value.bool true) ∷ ("worktree_preserved", Value.bool true) ∷ [])),
          )
          ∷ []))

  abbrev pub is_supported : InitializeParams → Bool
  is_supported parsed =
      parsed.protocol_version == protocol_version
      && not (str_eq parsed.client.name "")
      && not (str_eq parsed.client.version "")

  unfoldable pub initialize :
      Reported → RequestId → Option InitializeParams → State services → State services
  unfolding needs_resync initialize_result send
  initialize reported request_id none broker =
      send services broker (invalid_params request_id "invalid initialize parameters")
  initialize reported request_id (some parsed) broker =
      let cursor = unwrap_or parsed.last_sequence 0 in
      let resync = needs_resync broker cursor in
      let latest = bounds broker.replay >>= λ l. some l.1 in
      if not (is_supported parsed)
      then send services broker
          (invalid_params request_id "unsupported protocol or empty client identity")
      else send services
          (record broker {
            phase = await_initialized;
            reconnect_cursor = if resync then unwrap_or latest cursor else cursor;
          })
          (response request_id (initialize_result reported broker resync))

  -- A message for each event in turn.
  unfoldable pub send_events : State services → List EventEnvelope → State services
  unfolding send
  send_events broker [] = broker
  send_events broker (e ∷ es) = send_events (send services broker (agent_event e)) es

  abbrev pub replayed : State services → ReplayResult → State services
  replayed broker (events es) = send_events broker es
  replayed broker (resync_required oldest latest) = broker

  -- The events that a client of the durable broker has not seen.
  unfoldable pub replay_missed : State services → State services
  unfolding send_events
  replay_missed broker =
      if is_durable broker.mode
      then replayed broker (replay_after broker.replay broker.reconnect_cursor)
      else broker

  -- `handle_notification`: the method, and whether the parameters are an empty object
  unfoldable pub handle_notification : String → Bool → State services → State services
  unfolding replay_missed notify_state
  handle_notification method no_params broker =
      if is_await_initialized broker.phase && str_eq method "initialized" && no_params
      then notify_state services (replay_missed (record broker { phase = ready }))
      else broker
