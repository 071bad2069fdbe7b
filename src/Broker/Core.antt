-- ===== src/Broker/Core.antt =====
-- embedded.rs: the broker's state, its connection, and what it tells the client and the stores.
use nvim_agents_zzz.Prelude.{
  ℕ, String, Bool, true, false, Option, none, some, List, [], ◌∷◌, ◌++◌, map, if◌then◌else◌, length,
  unwrap_or,
}
use nvim_agents_zzz.Protocol.{
  Value, RequestId, EventEnvelope, AgentSummary, Provider, codex, claude,
}
use nvim_agents_zzz.Replay.{ReplayBuffer}
use nvim_agents_zzz.Transcript.Lines.{Line}
use nvim_agents_zzz.Transcript.Splice.{Patch}
use nvim_agents_zzz.Broker.Agents.{Services, ManagedAgent, find}

pub data ConnectionPhase : Type 0 where
  await_initialize await_initialized ready : ConnectionPhase

pub data BrokerMode : Type 0 where
  embedded durable : BrokerMode

abbrev pub is_ready : ConnectionPhase → Bool
is_ready ready = true
is_ready phase = false

abbrev pub is_await_initialized : ConnectionPhase → Bool
is_await_initialized await_initialized = true
is_await_initialized phase = false

abbrev pub is_durable : BrokerMode → Bool
is_durable durable = true
is_durable embedded = false

-- The messages to the client; Those with an agent's summary, a list, or a transcript have it for their result. An error's code is the negative of its number.
pub data Outgoing : Type 0 where
  agent_event : EventEnvelope → Outgoing
  transcript_patch : String → Patch → Outgoing
  broker_state : List AgentSummary → Outgoing
  response : RequestId → Value → Outgoing
  agent_response : RequestId → AgentSummary → Outgoing
  agents_response : RequestId → List AgentSummary → Outgoing
  transcript_response : RequestId → String → ℕ → List Line → Outgoing
  events_response : RequestId → List EventEnvelope → Outgoing
  error : Option RequestId → ℕ → String → Option Value → Outgoing

pub record PendingRuntimeRequest : Type 0 where
  pub generation : ℕ
  pub public_id : RequestId
  pub history_agent : Option String

module _ (services : Services) where
  -- `Broker`, without the configuration and the runtimes' sender. `agent_order` names the agents in
  -- order. `output` holds what was sent on the current connection.
  pub record State : Type 0 where
    pub phase : ConnectionPhase
    pub mode : BrokerMode
    pub connection_generation : ℕ
    pub reconnect_cursor : ℕ
    pub agents : List (String × ManagedAgent services)
    pub agent_order : List String
    pub replay : ReplayBuffer
    pub output : Option (List Outgoing)
    pub next_runtime_request : ℕ
    pub pending_runtime_requests : List (RequestId × PendingRuntimeRequest)
    pub queued_runtime_requests : List RequestId
    pub registry : Option services.Registry
    pub status : Option services.Status

  unfoldable pub send : State → Outgoing → State
  send broker message = record broker {
    output = elim broker.output as (λ _. Option (List Outgoing)) [
      | none ↦ none
      | some sent ↦ some (sent ++ message ∷ [])
    ];
  }

  unfoldable pub send_ready : State → Outgoing → State
  unfolding send
  send_ready broker message = if is_ready broker.phase then send broker message else broker

  -- `filter_map(|agent_id| self.agents.get(agent_id))`
  unfoldable pub ordered :
      List String → List (String × ManagedAgent services) → List (ManagedAgent services)
  ordered [] agents = []
  ordered (id ∷ ids) agents =
      let rest = ordered ids agents in
      elim (find id agents) [ none ↦ rest | some agent ↦ agent ∷ rest ]

  unfoldable pub summaries : State → List AgentSummary
  unfolding ordered
  summaries broker = map (λ agent. agent.summary) (ordered broker.agent_order broker.agents)

  abbrev provider_text : Provider → String
  provider_text codex = "codex"
  provider_text claude = "claude"

  unfoldable pub directory_title : String → Provider → String
  directory_title cwd provider = unwrap_or (services.file_name cwd) (provider_text provider)

  -- What the registry keeps of an agent: no title that was made from a prompt.
  unfoldable pub registry_summary : ManagedAgent services → AgentSummary
  unfolding directory_title
  registry_summary agent =
      if agent.title_from_prompt
      then record agent.summary { title = directory_title agent.summary.cwd agent.summary.provider }
      else agent.summary

  unfoldable pub persist_agents : State → Bool × Option services.Registry
  unfolding registry_summary
  persist_agents broker = elim broker.registry [
    | none ↦ (true, none)
    | some registry ↦
        let (done, after) =
          services.persist registry
            (map registry_summary (ordered broker.agent_order broker.agents)) in
        (done, some after)
  ]

  abbrev registry_bytes : Option services.Registry → ℕ
  registry_bytes none = 0
  registry_bytes (some registry) = services.bytes registry

  unfoldable pub notify_state : State → State
  unfolding summaries persist_agents send_ready
  notify_state broker =
      let shown = summaries broker in
      let (done, registry) = persist_agents broker in
      let status = elim broker.status as (λ _. Option services.Status) [
        | none ↦ none
        | some status ↦ some (
            if done
            then services.success status "running" (length shown) (registry_bytes registry)
            else services.failure status "registry_persistence_failed" (length shown)
                (registry_bytes registry))
      ] in
      send_ready (record broker { registry = registry; status = status }) (broker_state shown)
