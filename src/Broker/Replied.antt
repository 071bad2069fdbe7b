-- ===== src/Broker/Replied.antt =====
-- embedded.rs: every request for an agent is replied to once, at once or by the agent's runtime.
use nvim_agents_zzz.Prelude.{
  ◌+◌, ◌<◌, ◌≡◌, refl, ◌∙◌, String, false, ◌||◌, not, Option, none, some, List, ◌∷◌, str_eq, leb,
  Bool-cases, Option-cases, inl, inr, arith, ==_iff,
}
use nvim_agents_zzz.Protocol.{RequestId, same_id}
use nvim_agents_zzz.Replay.{u64_max}
use nvim_agents_zzz.Broker.Agents.{Services, ManagedAgent, AgentCommand, find}
use nvim_agents_zzz.Broker.Core.{State, Outgoing, PendingRuntimeRequest, error, send}
use nvim_agents_zzz.Broker.Connection.{invalid_params}
use nvim_agents_zzz.Broker.Requests.{
  runtime_request, runtime_id, asking, pending_of, without_pending,
}
use nvim_agents_zzz.Broker.Commands.{
  HistoryParams, ApprovalResponseParams, QuestionResponseParams, agent_not_found, with_history,
  parse_agent_id, with_agent, with_agent_id, mark_lost, command_channel_failed, tell_agent, history,
  respond_approval, respond_question, is_approval_decision, is_question_decision, is_message,
  is_object_or_none, valid_question_answers,
}
use nvim_agents_zzz.Broker.Answered.{
  one_if, replies, same_id_refl, without_pending-none, owed, Keeps, owed-Keeps, owed-send,
  owed-notify_state,
}

module _ (services : Services) where
  -- There is a result, in which the request has one reply more, at hand or owed by a runtime, and every other
  -- request as many as before.
  pub record RepliesOnce (before : State services) (other request_id : RequestId)
      (result : Option (State services)) : Type 0 where
    pub after : State services
    pub reached : result ≡ some after
    pub counts :
        owed services other after ≡ owed services other before + one_if (same_id other request_id)

  -- What the requests of a connected client can count on: room for one more request, under a new id.
  pub record IsServing (broker : State services) (sent : List Outgoing) : Type 0 where
    pub connected : broker.output ≡ some sent
    pub room : broker.next_runtime_request < u64_max
    pub fresh : pending_of (runtime_id services broker) broker.pending_runtime_requests ≡ none

  pub changed-RepliesOnce :
      (broker changed : State services) (sent : List Outgoing) (other request_id : RequestId)
      (message : Outgoing)
      → IsServing broker sent
      → Keeps services broker changed
      → replies other message ≡ same_id other request_id
      → RepliesOnce broker other request_id (some (send services changed message))
  changed-RepliesOnce broker changed sent other request_id message s k r = record {
    after = send services changed message;
    reached = refl;
    counts =
        owed-send services other changed message sent (k.output ∙ s.connected)
        ∙ rw (owed-Keeps services other broker changed k, r) refl;
  }

  pub told-RepliesOnce :
      (broker : State services) (sent : List Outgoing) (other request_id : RequestId)
      (message : Outgoing)
      → IsServing broker sent
      → replies other message ≡ same_id other request_id
      → RepliesOnce broker other request_id (some (send services broker message))
  told-RepliesOnce broker sent other request_id message s r =
      changed-RepliesOnce broker broker sent other request_id message s
        (record { output = refl; generation = refl; pending = refl }) r

  pub with_agent-RepliesOnce :
      (broker : State services) (sent : List Outgoing) (other request_id : RequestId)
      (agent_id : String) (k : ManagedAgent services → Option (State services))
      → IsServing broker sent
      → ((agent : ManagedAgent services) → RepliesOnce broker other request_id (k agent))
      → RepliesOnce broker other request_id (with_agent services broker request_id agent_id k)
  with_agent-RepliesOnce broker sent other request_id agent_id k s each =
      elim (Option-cases (find agent_id broker.agents)) [
        | inl e ↦
            rw (e, with_agent)
              (told-RepliesOnce broker sent other request_id (agent_not_found request_id) s refl)
        | inr (agent, e) ↦ rw (e, with_agent) (each agent)
      ]

  pub with_agent_id-RepliesOnce :
      (broker : State services) (sent : List Outgoing) (other request_id : RequestId)
      (params : Option String) (k : String → ManagedAgent services → Option (State services))
      → IsServing broker sent
      → ((agent_id : String) (agent : ManagedAgent services)
          → RepliesOnce broker other request_id (k agent_id agent))
      → RepliesOnce broker other request_id (with_agent_id services broker request_id params k)
  with_agent_id-RepliesOnce broker sent other request_id params k s each =
      elim (Option-cases (parse_agent_id services params)) [
        | inl e ↦
            rw (e, with_agent_id)
              (told-RepliesOnce broker sent other request_id
                (invalid_params request_id "invalid agent id parameters") s refl)
        | inr (agent_id, e) ↦
            rw (e, with_agent_id)
              (with_agent-RepliesOnce broker sent other request_id agent_id (k agent_id) s
                (each agent_id))
      ]

  mark_lost-Keeps :
      (now agent_id : String) (broker : State services)
      → Keeps services broker (mark_lost services now agent_id broker)
  unfolding mark_lost
  mark_lost-Keeps now agent_id broker = elim (Option-cases (find agent_id broker.agents)) [
    | inl e ↦ rw (e, mark_lost) (record { output = refl; generation = refl; pending = refl })
    | inr (agent, e) ↦
        rw (e, mark_lost) (record { output = refl; generation = refl; pending = refl })
  ]

  pub command_channel_failed-owed :
      (now agent_id : String) (request_id other : RequestId) (broker : State services)
      (sent : List Outgoing)
      → broker.output ≡ some sent
      → owed services other (command_channel_failed services now agent_id request_id broker)
        ≡ owed services other broker + one_if (same_id other request_id)
  unfolding command_channel_failed
  command_channel_failed-owed now agent_id request_id other broker sent h =
      let k = mark_lost-Keeps now agent_id broker in
      let message = error (some request_id) 32020 "Provider command channel is unavailable" none in
      owed-notify_state services other
        (send services (mark_lost services now agent_id broker) message)
      ∙ owed-send services other (mark_lost services now agent_id broker) message sent
          (k.output ∙ h)
      ∙ rw (owed-Keeps services other broker (mark_lost services now agent_id broker) k) refl

  -- A note on the entry of a request changes neither the client's id nor the connection.
  abbrev Notes :
      (List (RequestId × PendingRuntimeRequest)
        → RequestId
        → List (RequestId × PendingRuntimeRequest))
      → Type 0
  Notes note =
      (id : RequestId) (entry : PendingRuntimeRequest)
      (rest : List (RequestId × PendingRuntimeRequest))
      → (noted : PendingRuntimeRequest) × (note ((id, entry) ∷ rest) id ≡ (id, noted) ∷ rest)
        × (noted.generation ≡ entry.generation)
        × (noted.public_id ≡ entry.public_id)

  pub no_note-Notes : Notes (λ pending id. pending)
  no_note-Notes id entry rest = (entry, refl, refl, refl)

  pub with_history-Notes :
      (agent_id : String) → Notes (λ pending id. with_history id agent_id pending)
  unfolding with_history
  with_history-Notes agent_id id entry rest =
      (record entry { history_agent = some agent_id }, rw (same_id_refl id) refl, refl, refl)

  pub tell_agent-RepliesOnce :
      (broker : State services) (sent : List Outgoing) (other request_id : RequestId)
      (command : RequestId → AgentCommand)
      (note : List (RequestId × PendingRuntimeRequest)
        → RequestId
        → List (RequestId × PendingRuntimeRequest))
      (failed : State services → State services) (agent_id : String) (agent : ManagedAgent services)
      → IsServing broker sent
      → Notes note
      → ((b : State services)
          → b.output ≡ some sent
          → owed services other (failed b)
            ≡ owed services other b + one_if (same_id other request_id))
      → RepliesOnce broker other request_id
          (tell_agent services request_id command note failed agent_id agent broker)
  unfolding tell_agent runtime_request asking without_pending
  tell_agent-RepliesOnce broker sent other request_id command note failed agent_id agent s n f =
      let id = runtime_id services broker in
      let room : leb u64_max broker.next_runtime_request ≡ false = ground (arith, s.room) in
      let entry : PendingRuntimeRequest = record {
        generation = broker.connection_generation;
        public_id = request_id;
        history_agent = none;
      } in
      let (noted, e, generation, public_id) = n id entry broker.pending_runtime_requests in
      let same = without_pending-none id broker.pending_runtime_requests s.fresh in
      elim (Option-cases (services.send_wait agent.commands (command id))) [
        | inl c ↦
            rw (room, tell_agent, c)
              (record {
                after = _;
                reached = refl;
                counts = f _ s.connected ∙ rw (same, e, same_id_refl id, same) refl;
              })
        | inr (commands, c) ↦
            rw (room, tell_agent, c)
              (record {
                after = _;
                reached = refl;
                counts =
                    rw
                      (
                        same,
                        e,
                        generation,
                        public_id,
                        (==_iff broker.connection_generation broker.connection_generation).1 refl,
                      )
                      (omega arith);
              })
      ]

  -- A command that is lost with the channel is refused.
  command-RepliesOnce :
      (broker : State services) (sent : List Outgoing) (other request_id : RequestId) (now : String)
      (command : RequestId → AgentCommand)
      (note : List (RequestId × PendingRuntimeRequest)
        → RequestId
        → List (RequestId × PendingRuntimeRequest))
      (agent_id : String) (agent : ManagedAgent services)
      → IsServing broker sent
      → Notes note
      → RepliesOnce broker other request_id (
          tell_agent services request_id command note
            (command_channel_failed services now agent_id request_id)
            agent_id
            agent
            broker)
  command-RepliesOnce broker sent other request_id now command note agent_id agent s n =
      tell_agent-RepliesOnce broker sent other request_id command note
        (command_channel_failed services now agent_id request_id) agent_id agent s n
        (λ b h. command_channel_failed-owed now agent_id request_id other b sent h)

  pub history-RepliesOnce :
      (broker : State services) (sent : List Outgoing) (other request_id : RequestId) (now : String)
      (params : Option HistoryParams)
      → IsServing broker sent
      → RepliesOnce broker other request_id (history services now request_id params broker)
  unfolding history
  history-RepliesOnce broker sent other request_id now none s =
      told-RepliesOnce broker sent other request_id _ s refl
  history-RepliesOnce broker sent other request_id now (some parsed) s =
      with_agent-RepliesOnce broker sent other request_id parsed.agent_id _ s (λ agent.
        elim (Bool-cases agent.task) [
          | inr e ↦ rw e (told-RepliesOnce broker sent other request_id _ s refl)
          | inl e ↦ rw e (
              command-RepliesOnce broker sent other request_id now _
                (λ pending id. with_history id parsed.agent_id pending) parsed.agent_id agent s
                (with_history-Notes parsed.agent_id))
        ])

  pub respond_approval-RepliesOnce :
      (broker : State services) (sent : List Outgoing) (other request_id : RequestId) (now : String)
      (params : Option ApprovalResponseParams)
      → IsServing broker sent
      → RepliesOnce broker other request_id (respond_approval services now request_id params broker)
  unfolding respond_approval
  respond_approval-RepliesOnce broker sent other request_id now none s =
      told-RepliesOnce broker sent other request_id _ s refl
  respond_approval-RepliesOnce broker sent other request_id now (some parsed) s =
      elim (Bool-cases (is_approval_decision parsed.decision)) [
        | inr d ↦ rw d (told-RepliesOnce broker sent other request_id _ s refl)
        | inl d ↦
            elim (Bool-cases (
              str_eq parsed.agent_id ""
              || str_eq parsed.approval_id ""
              || not (is_object_or_none parsed.updated_input)
              || not (is_message parsed.message))) [
                | inl e ↦ rw (d, e) (told-RepliesOnce broker sent other request_id _ s refl)
                | inr e ↦
                    rw (d, e)
                      (with_agent-RepliesOnce broker sent other request_id parsed.agent_id _ s
                        (λ agent.
                          command-RepliesOnce broker sent other request_id now _
                            (λ pending id. pending) parsed.agent_id agent s no_note-Notes))
              ]
      ]

  pub respond_question-RepliesOnce :
      (broker : State services) (sent : List Outgoing) (other request_id : RequestId) (now : String)
      (params : Option QuestionResponseParams)
      → IsServing broker sent
      → RepliesOnce broker other request_id (respond_question services now request_id params broker)
  unfolding respond_question
  respond_question-RepliesOnce broker sent other request_id now none s =
      told-RepliesOnce broker sent other request_id _ s refl
  respond_question-RepliesOnce broker sent other request_id now (some parsed) s =
      elim (Bool-cases (is_question_decision parsed.decision)) [
        | inr d ↦ rw d (told-RepliesOnce broker sent other request_id _ s refl)
        | inl d ↦
            elim (Bool-cases (
              str_eq parsed.agent_id ""
              || str_eq parsed.question_id ""
              || not (valid_question_answers parsed.answers)
              || not (is_message parsed.message))) [
                | inl e ↦ rw (d, e) (told-RepliesOnce broker sent other request_id _ s refl)
                | inr e ↦
                    rw (d, e)
                      (with_agent-RepliesOnce broker sent other request_id parsed.agent_id _ s
                        (λ agent.
                          command-RepliesOnce broker sent other request_id now _
                            (λ pending id. pending) parsed.agent_id agent s no_note-Notes))
              ]
      ]
