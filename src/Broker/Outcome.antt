-- ===== src/Broker/Outcome.antt =====
-- embedded.rs: what can become of an input for an agent.
use nvim_agents_zzz.Prelude.{
  ℕ, ◌≤◌, ◌<◌, ◌≡◌, String, true, false, Option, none, some, [], ◌∷◌, ◌++◌, length, ok, err,
}
use nvim_agents_zzz.Protocol.{Value, RequestId, disconnected, pos_int, fields}
use nvim_agents_zzz.Broker.Agents.{Services, ManagedAgent, QueuedPrompt, find}
use nvim_agents_zzz.Broker.Core.{State, Outgoing, response, error, send}
use nvim_agents_zzz.Broker.Context.{Paths, merge_input_contexts}
use nvim_agents_zzz.Broker.Requests.{runtime_id, pending_of}
use nvim_agents_zzz.Broker.Inputs.{
  InputKind, TurnInputParams, input_provider_options, queues, is_allowed, begun, command_of,
  unavailable,
}

module _ (services : Services) (paths : Paths) where
  -- What a dispatched input leaves: its agent is lost with the channel and the request is refused, or the command is in
  -- the channel, the request waits for the runtime, and the agent has begun.
  pub data Dispatched (now : String) (id : RequestId) (agent_id : String)
      (agent working : ManagedAgent services) (input : QueuedPrompt) (kind : InputKind)
      (broker : State services) : Option (State services) → Type 0 where
    lost :
        (before : State services) (gone : ManagedAgent services)
        → services.send_wait agent.commands
            (command_of services paths kind (runtime_id services broker) input)
          ≡ none
        → find agent_id before.agents ≡ some gone
        → gone.summary.state ≡ disconnected
        → pending_of (runtime_id services broker) before.pending_runtime_requests ≡ none
        → before.output ≡ broker.output
        → Dispatched now id agent_id agent working input kind broker
            (some (unavailable services paths id before))
    sent :
        {after : State services} (told : ManagedAgent services)
        → services.send_wait agent.commands
            (command_of services paths kind (runtime_id services broker) input)
          ≡ some told.commands
        → find agent_id after.agents ≡ some told
        → told.summary ≡ working.summary
        → told.queued_prompts ≡ agent.queued_prompts
        → told.pending_contexts ≡ []
        → pending_of (runtime_id services broker) after.pending_runtime_requests
          ≡ some (record {
            generation = broker.connection_generation;
            public_id = id;
            history_agent = none;
          })
        → Dispatched now id agent_id agent working input kind broker (some after)

  -- Why an input is refused, and with what message.
  pub data IsRefusal (id : RequestId) (kind : InputKind) (broker : State services)
      : Option TurnInputParams → Outgoing → Type 0 where
    unparsed :
        (details : Option Value)
        → IsRefusal id kind broker none (error (some id) 32602 "Invalid params" details)
    empty_text :
        {parsed : TurnInputParams} (details : Option Value)
        → parsed.text ≡ ""
        → IsRefusal id kind broker (some parsed) (error (some id) 32602 "Invalid params" details)
    unknown_agent :
        {parsed : TurnInputParams}
        → find parsed.agent_id broker.agents ≡ none
        → IsRefusal id kind broker (some parsed) (error (some id) 32015 "Agent was not found" none)
    bad_options :
        {parsed : TurnInputParams} (agent : ManagedAgent services) (message : String)
        (details : Option Value)
        → find parsed.agent_id broker.agents ≡ some agent
        → input_provider_options services paths agent parsed.provider_options kind ≡ err message
        → IsRefusal id kind broker (some parsed) (error (some id) 32602 "Invalid params" details)
    not_now :
        {parsed : TurnInputParams} (agent : ManagedAgent services) (message : String)
        → find parsed.agent_id broker.agents ≡ some agent
        → is_allowed services paths parsed kind agent.summary.state ≡ false
        → IsRefusal id kind broker (some parsed) (error (some id) 32013 message none)
    full :
        {parsed : TurnInputParams} (agent : ManagedAgent services) (message : String)
        → find parsed.agent_id broker.agents ≡ some agent
        → queues services paths parsed kind agent.summary.state ≡ true
        → 32 ≤ length agent.queued_prompts
        → IsRefusal id kind broker (some parsed) (error (some id) 32013 message none)
    bad_contexts :
        {parsed : TurnInputParams} (agent : ManagedAgent services) (message : String)
        (details : Option Value)
        → find parsed.agent_id broker.agents ≡ some agent
        → merge_input_contexts paths agent.pending_contexts parsed.attachments agent.summary.cwd
          ≡ err message
        → IsRefusal id kind broker (some parsed) (error (some id) 32602 "Invalid params" details)

  -- An input that is taken: of an agent that is there and may take it, with its text, valid options and the contexts.
  pub record IsTaken (parsed : TurnInputParams) (kind : InputKind) (broker : State services)
      (agent : ManagedAgent services) (input : QueuedPrompt) : Type 0 where
    pub there : find parsed.agent_id broker.agents ≡ some agent
    pub allowed : is_allowed services paths parsed kind agent.summary.state ≡ true
    pub texted : input.text ≡ parsed.text
    pub optioned :
        input_provider_options services paths agent parsed.provider_options kind
        ≡ ok input.provider_options
    pub attached :
        merge_input_contexts paths agent.pending_contexts parsed.attachments agent.summary.cwd
        ≡ ok input.attachments

  abbrev pub position_of : ℕ → Value
  position_of n = Value.object (
      fields (
        ("accepted", Value.bool true)
        ∷ ("queued", Value.bool true)
        ∷ ("position", Value.number (pos_int n))
        ∷ []))

  -- What becomes of an input: refused, queued or dispatched.
  pub data Treated (now : String) (id : RequestId) (kind : InputKind) (broker : State services)
      : Option TurnInputParams → Option (State services) → Type 0 where
    refused :
        {params : Option TurnInputParams} {message : Outgoing}
        → IsRefusal id kind broker params message
        → Treated now id kind broker params (some (send services broker message))
    queued :
        {parsed : TurnInputParams} {after : State services} (agent waiting : ManagedAgent services)
        (input : QueuedPrompt)
        → IsTaken parsed kind broker agent input
        → queues services paths parsed kind agent.summary.state ≡ true
        → length agent.queued_prompts < 32
        → find parsed.agent_id after.agents ≡ some waiting
        → waiting.queued_prompts ≡ agent.queued_prompts ++ input ∷ []
        → waiting.pending_contexts ≡ []
        → after.output
          ≡ (send services broker
              (response id (position_of (length waiting.queued_prompts)))).output
        → Treated now id kind broker (some parsed) (some after)
    dispatched :
        {parsed : TurnInputParams} {result : Option (State services)}
        (agent : ManagedAgent services) (input : QueuedPrompt)
        → IsTaken parsed kind broker agent input
        → queues services paths parsed kind agent.summary.state ≡ false
        → Dispatched now id parsed.agent_id agent
            (begun services paths now kind (record agent { pending_contexts = [] }) input)
            input
            kind
            broker
            result
        → Treated now id kind broker (some parsed) result
