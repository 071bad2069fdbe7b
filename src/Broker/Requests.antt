-- ===== src/Broker/Requests.antt =====
-- embedded.rs: the requests that wait for a runtime, and what the runtimes report. `none` is a panic, or
-- that the fuel is used up. An error's code is the negative of its number.
use Prim.Native.String.{◌++◌ as str_append}
use nvim_agents_zzz.Prelude.{
  ℕ, ◌+◌, ◌==◌, String, Bool, true, false, ◌&&◌, not, Option, none, some, List, [], ◌∷◌, any,
  filter, str_eq, if◌then◌else◌, ◌>>=◌, is_some, leb,
}
use nvim_agents_zzz.Protocol.{
  Value, RequestId, EventEnvelope, Provider, codex, claude, ProviderRuntime, idle, failed,
  disconnected, same_id, get, as_array, list_of,
}
use nvim_agents_zzz.Replay.{u64_max}
use nvim_agents_zzz.Transcript.{replace_history}
use nvim_agents_zzz.Broker.Agents.{Services, ManagedAgent, shutdown, find, put}
use nvim_agents_zzz.Broker.State.{same_state}
use nvim_agents_zzz.Broker.Core.{
  State, Outgoing, PendingRuntimeRequest, response, agent_response, error, transcript_patch, send,
  send_ready, notify_state,
}
use nvim_agents_zzz.Broker.Events.{
  handle_provider_event, cancel_queued_prompts, handle_provider_failure,
}

pub data RuntimeEvent : Type 0 where
  started : RequestId → String → String → ProviderRuntime → RuntimeEvent
  answered : RequestId → Value → RuntimeEvent
  request_failed : RequestId → String → ℕ → String → Bool → RuntimeEvent
  provider_event : EventEnvelope → RuntimeEvent
  provider_failed : String → String → RuntimeEvent
  stopped : String → RuntimeEvent

abbrev pub has_id : RequestId → List RequestId → Bool
has_id id = any (λ other. same_id other id)

abbrev pub same_provider : Provider → Provider → Bool
same_provider codex codex = true
same_provider claude claude = true
same_provider a b = false

abbrev pub is_session : Option String → String → Bool
is_session none session = false
is_session (some id) session = str_eq id session

-- `pending_runtime_requests`, by id
unfoldable pub pending_of :
    RequestId → List (RequestId × PendingRuntimeRequest) → Option PendingRuntimeRequest
pending_of id [] = none
pending_of id (entry ∷ rest) = if same_id entry.0 id then some entry.1 else pending_of id rest

unfoldable pub without_pending :
    RequestId → List (RequestId × PendingRuntimeRequest) → List (RequestId × PendingRuntimeRequest)
without_pending id = filter (λ entry. not (same_id entry.0 id))

module _ (services : Services) where
  abbrev pub runtime_id : State services → RequestId
  runtime_id broker = RequestId.text (
      str_append "broker:" (
        str_append (services.decimal broker.connection_generation)
          (str_append ":" (services.decimal broker.next_runtime_request))))

  -- The broker that waits for the request of a client.
  unfoldable pub asking : State services → RequestId → State services
  unfolding without_pending
  asking broker public_id = record broker {
    next_runtime_request = broker.next_runtime_request + 1;
    pending_runtime_requests =
        (
          runtime_id broker,
          record {
            generation = broker.connection_generation;
            public_id = public_id;
            history_agent = none;
          },
        )
        ∷ without_pending (runtime_id broker) broker.pending_runtime_requests;
  }

  -- That broker and the id, or the panic of a counter that is used up.
  unfoldable pub runtime_request : State services → RequestId → Option (State services × RequestId)
  unfolding asking
  runtime_request broker public_id =
      if leb u64_max broker.next_runtime_request
      then none
      else some (asking broker public_id, runtime_id broker)

  unfoldable pub send_runtime_response :
      State services → RequestId → (RequestId → Outgoing) → State services
  unfolding pending_of without_pending send
  send_runtime_response broker request_id message =
      elim (pending_of request_id broker.pending_runtime_requests) [
        | none ↦ broker
        | some pending ↦
            let answered = record broker {
              pending_runtime_requests = without_pending request_id broker.pending_runtime_requests;
            } in
            if pending.generation == broker.connection_generation && is_some broker.output
            then send services answered (message pending.public_id)
            else answered
      ]

  unfoldable pub history_result : State services → RequestId → Value → Option (String × List Value)
  unfolding pending_of
  history_result broker request_id result = do
    pending ← pending_of request_id broker.pending_runtime_requests
    agent_id ← pending.history_agent
    messages ← get result "messages" >>= as_array
    some (agent_id, list_of messages)

  unfoldable pub replace_transcript_history :
      State services → String → List Value → Option (State services)
  unfolding send_ready
  replace_transcript_history broker agent_id messages = elim (find agent_id broker.agents) [
    | none ↦ some broker
    | some agent ↦ do
      replaced ←
          replace_history services.is_alphanumeric agent.transcript messages agent.summary.provider
            agent.summary.provider_options.model
      some (
          send_ready services
            (record broker {
              agents = put agent_id (record agent { transcript = replaced.0 }) broker.agents;
            })
            (transcript_patch agent_id replaced.1))
  ]

  unfoldable pub handle_runtime_response :
      State services → RequestId → Value → Option (State services)
  unfolding send_runtime_response history_result replace_transcript_history
  handle_runtime_response broker request_id result =
      let noted = record broker {
        queued_runtime_requests =
            filter (λ id. not (same_id id request_id)) broker.queued_runtime_requests;
      } in
      let sent = send_runtime_response noted request_id (λ id. response id result) in
      elim (history_result noted request_id result) [
        | none ↦ some sent
        | some (agent_id, messages) ↦ replace_transcript_history sent agent_id messages
      ]

  -- A disconnected agent without a task that has the same session of the same provider.
  unfoldable pub is_stale :
      Option Provider → String → String → String × ManagedAgent services → Bool
  is_stale provider agent_id session entry =
      not (str_eq entry.0 agent_id)
      && not entry.1.task
      && same_state entry.1.summary.state disconnected
      && elim provider as (λ _. Bool) [
        | none ↦ false
        | some p ↦ same_provider entry.1.summary.provider p
      ]
      && is_session entry.1.summary.provider_session_id session

  unfoldable pub remove_stale : State services → String → String → State services
  unfolding is_stale
  remove_stale broker agent_id session =
      let provider = find agent_id broker.agents >>= λ agent. some agent.summary.provider in
      let stale = filter (is_stale provider agent_id session) broker.agents in
      record broker {
        agents = filter (λ entry. not (is_stale provider agent_id session entry)) broker.agents;
        agent_order =
            filter (λ id. not (any (λ entry. str_eq entry.0 id) stale)) broker.agent_order;
      }

  unfoldable pub handle_started :
      String → RequestId → String → String → ProviderRuntime → State services → State services
  unfolding remove_stale send_runtime_response
  handle_started now request_id agent_id session runtime broker =
      let kept = remove_stale broker agent_id session in
      elim (find agent_id kept.agents) [
        | none ↦ kept
        | some agent ↦
            let summary = record agent.summary {
              provider_session_id = some session;
              runtime = some runtime;
              state = idle;
              updated_at = now;
            } in
            notify_state services (
              send_runtime_response
                (record kept {
                  agents = put agent_id (record agent { summary = summary }) kept.agents;
                })
                request_id (λ id. agent_response id summary))
      ]

  -- An agent that failed, and is told to shut down if its channel takes the command.
  unfoldable pub shut_down : String → ManagedAgent services → ManagedAgent services
  shut_down now agent =
      let summary = record agent.summary {
        state = failed;
        active_turn_id = none;
        updated_at = now;
      } in
      elim (services.try_send agent.commands shutdown) [
        | none ↦ record agent { summary = summary }
        | some commands ↦ record agent { summary = summary; commands = commands }
      ]

  unfoldable pub fail_request : String → String → State services → State services
  unfolding shut_down
  fail_request now agent_id broker = elim (find agent_id broker.agents) [
    | none ↦ broker
    | some agent ↦ record broker { agents = put agent_id (shut_down now agent) broker.agents }
  ]

  unfoldable pub stop_agent : String → String → State services → State services
  stop_agent now agent_id broker = elim (find agent_id broker.agents) [
    | none ↦ broker
    | some agent ↦
        let idle_agent = record agent { task = false; pending_contexts = [] } in
        let summary = record agent.summary {
          state = disconnected;
          active_turn_id = none;
          updated_at = now;
        } in
        if same_state agent.summary.state disconnected
        then record broker { agents = put agent_id idle_agent broker.agents }
        else notify_state services (record broker {
          agents = put agent_id (record idle_agent { summary = summary }) broker.agents;
        })
  ]

  module _ (fuel : ℕ) (now : String) where
    abbrev pub handle : EventEnvelope → State services → Option (State services)
    handle = handle_provider_event services fuel now

    unfoldable pub handle_request_failed :
        RequestId → String → ℕ → String → Bool → State services → Option (State services)
    unfolding fail_request send_runtime_response
    handle_request_failed request_id agent_id code message fail_agent broker =
        let told = λ (b : State services).
          send_runtime_response b request_id (λ id. error (some id) code message none) in
        if has_id request_id broker.queued_runtime_requests
        then handle_provider_failure services handle now agent_id
            "Queued prompt could not start; queued follow-ups were cancelled"
            (record broker {
              queued_runtime_requests =
                  filter (λ id. not (same_id id request_id)) broker.queued_runtime_requests;
            })
        else if fail_agent
        then (cancel_queued_prompts services handle now agent_id broker >>= λ cancelled.
            some (notify_state services (told (fail_request now agent_id cancelled))))
        else some (told broker)

    unfoldable pub handle_runtime_event : RuntimeEvent → State services → Option (State services)
    unfolding handle_started handle_runtime_response handle_request_failed stop_agent
    handle_runtime_event (started request_id agent_id session runtime) broker =
        some (handle_started now request_id agent_id session runtime broker)
    handle_runtime_event (answered request_id result) broker =
        handle_runtime_response broker request_id result
    handle_runtime_event (request_failed request_id agent_id code message fail_agent) broker =
        handle_request_failed request_id agent_id code message fail_agent broker
    handle_runtime_event (provider_event event) broker = handle event broker
    handle_runtime_event (provider_failed agent_id message) broker =
        handle_provider_failure services handle now agent_id message broker
    handle_runtime_event (stopped agent_id) broker =
        cancel_queued_prompts services handle now agent_id broker >>= λ cancelled.
        some (stop_agent now agent_id cancelled)
