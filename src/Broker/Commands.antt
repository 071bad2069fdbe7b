-- ===== src/Broker/Commands.antt =====
-- embedded.rs: what the client asks of an agent that is there. The parameters have been parsed: `none` is
-- a failure to parse them. A result of `none` is a panic.
use nvim_agents_zzz.Prelude.{
  ℕ, String, Bool, true, false, ◌&&◌, ◌||◌, not, Option, none, some, List, [], ◌∷◌, all, length,
  str_eq, if◌then◌else◌, ◌>>=◌, leb,
}
use nvim_agents_zzz.Text.{codes}
use nvim_agents_zzz.Protocol.{Value, Fields, RequestId, disconnected, same_id, list_of, as_str}
use nvim_agents_zzz.Broker.Agents.{Services, ManagedAgent, AgentCommand, find, put}
use nvim_agents_zzz.Broker.Core.{State, Outgoing, PendingRuntimeRequest, error, send, notify_state}
use nvim_agents_zzz.Broker.Connection.{invalid_params}
use nvim_agents_zzz.Broker.Requests.{runtime_request, without_pending}

pub record HistoryParams : Type 0 where
  pub agent_id : String
  pub cursor : Option String
  pub limit : Option ℕ

pub record ApprovalResponseParams : Type 0 where
  pub agent_id : String
  pub approval_id : String
  pub decision : String
  pub updated_input : Option Value
  pub message : Option String

pub record QuestionResponseParams : Type 0 where
  pub agent_id : String
  pub question_id : String
  pub decision : String
  pub answers : Fields
  pub message : Option String

abbrev pub agent_not_found : RequestId → Outgoing
agent_not_found id = error (some id) 32015 "Agent was not found" none

abbrev entries : Fields → List (String × Value)
entries Fields.end = []
entries (Fields.field k v fs) = (k, v) ∷ entries fs

-- `answer.chars().count() <= limit`
abbrev is_short : ℕ → Option String → Bool
is_short limit none = false
is_short limit (some s) = leb (length (codes s)) limit

abbrev is_answer : Value → Bool
is_answer (Value.string s) = is_short 16384 (some s)
is_answer (Value.array vs) =
    leb (length (list_of vs)) 32 && all (λ v. is_short 4096 (as_str v)) (list_of vs)
is_answer v = false

unfoldable pub valid_question_answers : Fields → Bool
valid_question_answers answers =
    leb (length (entries answers)) 32
    && all (λ (entry : String × Value). is_answer entry.1) (entries answers)

abbrev pub is_object_or_none : Option Value → Bool
is_object_or_none none = true
is_object_or_none (some (Value.object fs)) = true
is_object_or_none v = false

-- No message, or one of at most 4096 characters.
abbrev pub is_message : Option String → Bool
is_message none = true
is_message (some s) = leb (length (codes s)) 4096

abbrev pub is_approval_decision : String → Bool
is_approval_decision decision =
    str_eq decision "allow" || str_eq decision "deny" || str_eq decision "defer"

abbrev pub is_question_decision : String → Bool
is_question_decision decision = str_eq decision "answer" || str_eq decision "deny"

-- What the pending entry of a history request notes.
unfoldable pub with_history :
    RequestId
    → String
    → List (RequestId × PendingRuntimeRequest)
    → List (RequestId × PendingRuntimeRequest)
with_history id agent_id [] = []
with_history id agent_id (entry ∷ rest) =
    let others = with_history id agent_id rest in
    if same_id entry.0 id
    then (entry.0, record entry.1 { history_agent = some agent_id }) ∷ rest
    else entry ∷ others

module _ (services : Services) where
  -- `parse_agent_id`, after the parameters were parsed
  abbrev pub parse_agent_id : Option String → Option String
  parse_agent_id none = none
  parse_agent_id (some id) = if str_eq id "" then none else some id

  -- What is done with the agent that is named, or the refusal.
  abbrev pub with_agent :
      State services
      → RequestId
      → String
      → (ManagedAgent services → Option (State services))
      → Option (State services)
  with_agent broker request_id agent_id k = elim (find agent_id broker.agents) [
    | none ↦ some (send services broker (agent_not_found request_id))
    | some agent ↦ k agent
  ]

  -- The same for the parameters that hold an agent's id alone.
  abbrev pub with_agent_id :
      State services
      → RequestId
      → Option String
      → (String → ManagedAgent services → Option (State services))
      → Option (State services)
  with_agent_id broker request_id params k = elim (parse_agent_id params) [
    | none ↦ some (send services broker (invalid_params request_id "invalid agent id parameters"))
    | some agent_id ↦ with_agent broker request_id agent_id (k agent_id)
  ]

  abbrev lost : String → ManagedAgent services → ManagedAgent services
  lost now agent = record agent {
    pending_contexts = [];
    summary = record agent.summary { state = disconnected; updated_at = now };
  }

  -- The agent that is lost with its channel.
  unfoldable pub mark_lost : String → String → State services → State services
  mark_lost now agent_id broker = elim (find agent_id broker.agents) as (λ o. State services) [
    | none ↦ broker
    | some agent ↦ record broker { agents = put agent_id (lost now agent) broker.agents }
  ]

  unfoldable pub command_channel_failed :
      String → String → RequestId → State services → State services
  unfolding send notify_state mark_lost
  command_channel_failed now agent_id request_id broker = notify_state services (
      send services (mark_lost now agent_id broker)
        (error (some request_id) 32020 "Provider command channel is unavailable" none))

  -- A command for an agent, and what happens when its channel is closed.
  unfoldable pub tell_agent :
      RequestId
      → (RequestId → AgentCommand)
      → (List (RequestId × PendingRuntimeRequest)
          → RequestId
          → List (RequestId × PendingRuntimeRequest))
      → (State services → State services)
      → String
      → ManagedAgent services
      → State services
      → Option (State services)
  unfolding runtime_request without_pending
  tell_agent request_id command note failed agent_id agent broker = do
    (asked, id) ← runtime_request services broker request_id
    elim (services.send_wait agent.commands (command id)) as (λ o. Option (State services)) [
      | none ↦ some (
          failed (record asked {
            pending_runtime_requests = without_pending id (note asked.pending_runtime_requests id);
          }))
      | some commands ↦ some (record asked {
        pending_runtime_requests = note asked.pending_runtime_requests id;
        agents = put agent_id (record agent { commands = commands }) asked.agents;
      })
    ]

  unfoldable pub history :
      String → RequestId → Option HistoryParams → State services → Option (State services)
  unfolding send tell_agent with_history command_channel_failed
  history now request_id none broker =
      some (send services broker (invalid_params request_id "invalid history parameters"))
  history now request_id (some parsed) broker =
      with_agent broker request_id parsed.agent_id (λ agent.
        if not agent.task
        then some (
            send services broker (
              error (some request_id) 32013
                "Agent is not live; resume the provider session before reading history" none))
        else tell_agent request_id (λ id. AgentCommand.history id parsed.cursor parsed.limit)
            (λ pending id. with_history id parsed.agent_id pending)
            (command_channel_failed now parsed.agent_id request_id) parsed.agent_id agent broker)

  unfoldable pub respond_approval :
      String → RequestId → Option ApprovalResponseParams → State services → Option (State services)
  unfolding send tell_agent command_channel_failed
  respond_approval now request_id none broker =
      some (send services broker (invalid_params request_id "invalid approval response"))
  respond_approval now request_id (some parsed) broker =
      if not (is_approval_decision parsed.decision)
      then some (send services broker (invalid_params request_id "invalid approval decision"))
      else if str_eq parsed.agent_id ""
          || str_eq parsed.approval_id ""
          || not (is_object_or_none parsed.updated_input)
          || not (is_message parsed.message)
      then some (send services broker (invalid_params request_id "invalid approval response"))
      else with_agent broker request_id parsed.agent_id (λ agent.
        tell_agent request_id
          (λ id.
            AgentCommand.approval id parsed.approval_id parsed.decision parsed.updated_input
              parsed.message)
          (λ pending id. pending) (command_channel_failed now parsed.agent_id request_id)
          parsed.agent_id agent broker)

  unfoldable pub respond_question :
      String → RequestId → Option QuestionResponseParams → State services → Option (State services)
  unfolding send tell_agent command_channel_failed valid_question_answers
  respond_question now request_id none broker =
      some (send services broker (invalid_params request_id "invalid question response"))
  respond_question now request_id (some parsed) broker =
      if not (is_question_decision parsed.decision)
      then some (send services broker (invalid_params request_id "invalid question decision"))
      else if str_eq parsed.agent_id ""
          || str_eq parsed.question_id ""
          || not (valid_question_answers parsed.answers)
          || not (is_message parsed.message)
      then some (send services broker (invalid_params request_id "invalid question response"))
      else with_agent broker request_id parsed.agent_id (λ agent.
        tell_agent request_id
          (λ id.
            AgentCommand.question id parsed.question_id parsed.decision parsed.answers
              parsed.message)
          (λ pending id. pending) (command_channel_failed now parsed.agent_id request_id)
          parsed.agent_id agent broker)

  -- The agent after its queued prompts were cancelled by `cancel`.
  unfoldable pub interrupt_agent :
      String
      → (String → State services → Option (State services))
      → RequestId
      → Option String
      → State services
      → Option (State services)
  unfolding send tell_agent notify_state
  interrupt_agent now cancel request_id params broker = elim (parse_agent_id params) [
    | none ↦ some (send services broker (invalid_params request_id "invalid agent id parameters"))
    | some agent_id ↦ do
      cancelled ← cancel agent_id broker
      with_agent cancelled request_id agent_id (λ agent.
          tell_agent request_id AgentCommand.interrupt (λ pending id. pending)
            (λ asked. notify_state services (
              send services
                (record asked {
                  agents =
                      put agent_id
                        (record agent {
                          summary = record agent.summary { state = disconnected; updated_at = now };
                        })
                        asked.agents;
                })
                (error (some request_id) 32020 "Provider command channel is unavailable" none)))
            agent_id agent cancelled)
  ]
