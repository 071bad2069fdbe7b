-- ===== src/Broker/Events.antt =====
-- embedded.rs: what a provider's event does to the broker. `none` is a panic, or that the fuel is used up:
-- the event of a cancellation is handled with one unit less.
use nvim_agents_zzz.Prelude.{
  ℕ, zero, suc, ◌+◌, String, Bool, true, false, ◌&&◌, ◌||◌, not, Option, none, some, List, [], ◌∷◌,
  str_eq, if◌then◌else◌, ◌>>=◌, ◌==◌, leb, length,
}
use Prim.Native.String.{◌++◌ as str_append}
use nvim_agents_zzz.Protocol.{
  Value, RequestId, EventEnvelope, new_event, fields, disconnected, completed, running,
}
use nvim_agents_zzz.Replay.{push, u64_max}
use nvim_agents_zzz.Transcript.{apply_event}
use nvim_agents_zzz.Broker.Agents.{
  Services, ManagedAgent, QueuedPrompt, prompt, client_disconnected, find, put,
}
use nvim_agents_zzz.Broker.State.{apply_event_state, same_state}
use nvim_agents_zzz.Broker.Core.{
  State, send_ready, notify_state, agent_event, transcript_patch, is_ready, is_durable,
}

-- An event of the broker itself.
abbrev pub broker_event :
    (services : Services)
    → String
    → String
    → ManagedAgent services
    → String
    → String
    → EventEnvelope
broker_event services now agent_id agent kind message =
    new_event now agent_id agent.summary.provider kind
      (Value.object (fields (("message", Value.string message) ∷ [])))
      (Value.object (fields (("kind", Value.string "broker") ∷ ("redacted", Value.bool true) ∷ [])))

abbrev pub cancel_notice :
    (services : Services) → String → String → ManagedAgent services → ℕ → EventEnvelope
cancel_notice services now agent_id agent count =
    broker_event services now agent_id agent "broker.notice"
      (str_append (str_append "Cancelled " (services.decimal count)) " queued prompt(s)")

module _ (services : Services) where
  abbrev with_agent : State services → String → ManagedAgent services → State services
  with_agent broker id agent = record broker { agents = put id agent broker.agents }

  -- `queue_client_disconnect`: when the channel is full, a task of its own sends the command later.
  unfoldable pub queue_client_disconnect : ManagedAgent services → ManagedAgent services
  queue_client_disconnect agent = elim (services.try_send agent.commands client_disconnected) [
    | none ↦ agent
    | some commands ↦ record agent { commands = commands }
  ]

  unfoldable pub needs_client : State services → EventEnvelope → Bool
  needs_client broker event =
      is_durable broker.mode
      && not (is_ready broker.phase)
      && (str_eq event.event_type "approval.requested"
          || str_eq event.event_type "question.requested")

  -- A request that no client can see is given up.
  unfoldable pub give_up : State services → EventEnvelope → State services
  unfolding needs_client queue_client_disconnect
  give_up broker event = elim (find event.agent_id broker.agents) [
    | none ↦ broker
    | some agent ↦
        if needs_client broker event
        then with_agent broker event.agent_id (queue_client_disconnect agent)
        else broker
  ]

  -- The event's effect on the agent's state, and whether there was one.
  unfoldable pub change_state : String → State services → EventEnvelope → State services × Bool
  change_state now broker event = elim (find event.agent_id broker.agents) [
    | none ↦ (broker, false)
    | some agent ↦
        let (after, changed) = apply_event_state services now agent event in
        (with_agent broker event.agent_id after, changed)
  ]

  -- The event's effect on the agent's transcript, and the patch that is sent.
  unfoldable pub change_transcript : State services → EventEnvelope → Option (State services)
  unfolding send_ready
  change_transcript broker event = elim (find event.agent_id broker.agents) [
    | none ↦ some broker
    | some agent ↦ do
      changed ←
          apply_event services.is_alphanumeric agent.transcript event
            agent.summary.provider_options.model
      let after = with_agent broker event.agent_id (record agent { transcript = changed.0 })
      some (elim changed.1 as (λ _. State services) [
        | none ↦ after
        | some patch ↦ send_ready services after (transcript_patch event.agent_id patch)
      ])
  ]

  -- The event is recorded, sent to a client that is ready, and applied; then its state has changed or not.
  unfoldable pub record_event :
      String → State services → EventEnvelope → Option (State services × Bool)
  unfolding give_up change_state change_transcript send_ready
  record_event now broker event = do
    let noticed = give_up broker event
    pushed ← push noticed.replay event
    let numbered = record event { sequence = pushed.1 }
    let (changed, state_changed) = change_state now (record noticed { replay = pushed.0 }) numbered
    let sent = send_ready services changed (agent_event numbered)
    shown ← change_transcript sent numbered
    some (shown, state_changed)

  -- The agent has completed its turn, and waits for nobody.
  unfoldable pub is_free : ManagedAgent services → Bool
  is_free agent =
      same_state agent.summary.state completed
      && agent.summary.pending_approvals == 0
      && agent.pending_questions == 0

  -- An agent whose provider is gone: nothing of it is pending any more.
  abbrev pub disconnect_agent : String → ManagedAgent services → ManagedAgent services
  disconnect_agent now agent = record agent {
    summary = record agent.summary {
      state = disconnected;
      active_turn_id = none;
      pending_approvals = 0;
      updated_at = now;
    };
    pending_questions = 0;
    pending_contexts = [];
  }

  -- The part of `handle_provider_failure` after the cancellation.
  unfoldable pub fail_agent : String → String → String → State services → Option (State services)
  fail_agent now agent_id message broker = elim (find agent_id broker.agents) [
    | none ↦ some broker
    | some agent ↦ do
      let failed = with_agent broker agent_id (disconnect_agent now agent)
      let event = broker_event services now agent_id agent "broker.error" message
      pushed ← push failed.replay event
      some (
          notify_state services (
            send_ready services (record failed { replay = pushed.0 })
              (agent_event (record event { sequence = pushed.1 }))))
  ]

  unfoldable pub free_agent : String → State services → Bool
  unfolding is_free
  free_agent agent_id broker = elim (find agent_id broker.agents) [
    | none ↦ false
    | some agent ↦ is_free agent
  ]

  -- Operations that handle a further event by `handle`.
  module _ (handle : EventEnvelope → State services → Option (State services)) (now : String) where
    unfoldable pub cancel_queued_prompts : String → State services → Option (State services)
    cancel_queued_prompts agent_id broker = elim (find agent_id broker.agents) [
      | none ↦ some broker
      | some agent ↦
          let count = length agent.queued_prompts in
          let cleared = with_agent broker agent_id (record agent { queued_prompts = [] }) in
          if count == 0
          then some cleared
          else handle (cancel_notice services now agent_id agent count) cleared
    ]

    unfoldable pub handle_provider_failure :
        String → String → State services → Option (State services)
    unfolding cancel_queued_prompts fail_agent
    handle_provider_failure agent_id message broker =
        cancel_queued_prompts agent_id broker >>= λ cancelled.
        fail_agent now agent_id message cancelled

    -- The oldest prompt that waits is given to the agent.
    abbrev pub queued_id : State services → RequestId
    queued_id broker =
        RequestId.text (str_append "queued:" (services.decimal broker.next_runtime_request))

    -- A prompt taken from the front of an agent's queue, and those that stay.
    unfoldable pub start_prompt :
        String
        → State services
        → ManagedAgent services
        → QueuedPrompt
        → List QueuedPrompt
        → Option (State services)
    unfolding handle_provider_failure
    start_prompt agent_id broker agent queued later =
        let request_id = queued_id broker in
        let taken = record (with_agent broker agent_id (record agent { queued_prompts = later })) {
          next_runtime_request = broker.next_runtime_request + 1;
        } in
        if leb u64_max broker.next_runtime_request
        then none
        else elim (services.try_send agent.commands
            (prompt request_id queued.text queued.attachments queued.provider_options)) [
              | none ↦
                  handle_provider_failure agent_id
                    "Queued prompt could not start; provider command channel unavailable" taken
              | some commands ↦
                  some
                    (record (with_agent taken agent_id (record agent {
                      commands = commands;
                      queued_prompts = later;
                      summary = record agent.summary {
                        state = running;
                        provider_options = queued.provider_options;
                        updated_at = now;
                      };
                    })) { queued_runtime_requests = request_id ∷ broker.queued_runtime_requests })
            ]

    unfoldable pub dispatch_queued_prompt : String → State services → Option (State services)
    unfolding start_prompt
    dispatch_queued_prompt agent_id broker = elim (find agent_id broker.agents) [
      | none ↦ some broker
      | some agent ↦ elim agent.queued_prompts [
        | [] ↦ some broker
        | queued ∷ later ↦ start_prompt agent_id broker agent queued later
      ]
    ]

    -- What follows an event: the next prompt, or no prompt at all.
    unfoldable pub follow_up : EventEnvelope → State services → Option (State services)
    unfolding dispatch_queued_prompt free_agent
    follow_up event broker =
        if str_eq event.event_type "turn.completed"
        then (if free_agent event.agent_id broker
            then dispatch_queued_prompt event.agent_id broker
            else cancel_queued_prompts event.agent_id broker)
        else if str_eq event.event_type "turn.failed"
        then cancel_queued_prompts event.agent_id broker
        else some broker

  unfoldable pub handle_provider_event :
      ℕ → String → EventEnvelope → State services → Option (State services)
  unfolding record_event follow_up
  handle_provider_event zero now event broker = none
  handle_provider_event (suc fuel) now event broker = do
    recorded ← record_event now broker event
    followed ← follow_up (handle_provider_event fuel now) now event recorded.0
    some (if recorded.1 then notify_state services followed else followed)
