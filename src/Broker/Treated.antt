-- ===== src/Broker/Treated.antt =====
-- embedded.rs: what becomes of an input for an agent.
use nvim_agents_zzz.Prelude.{
  ◌<◌, ◌≡◌, refl, sym, ap, ◌∙◌, String, false, ◌&&◌, Option, none, some, List, [], ◌∷◌, ◌++◌,
  length, leb, Bool-cases, Option-cases, Result-cases, inl, inr, arith, str_eq, eq_iff,
}
use nvim_agents_zzz.Text.{codes}
use nvim_agents_zzz.Protocol.{RequestId, disconnected}
use nvim_agents_zzz.Replay.{u64_max}
use nvim_agents_zzz.Transcript.Mirror.{push_user-Updates}
use nvim_agents_zzz.Broker.Agents.{Services, ManagedAgent, QueuedPrompt, find, put}
use nvim_agents_zzz.Broker.Core.{
  PendingRuntimeRequest, State, send, notify_state, send_ready, transcript_patch,
}
use nvim_agents_zzz.Broker.Context.{Paths, merge_input_contexts}
use nvim_agents_zzz.Broker.Requests.{
  runtime_request, asking, runtime_id, pending_of, without_pending,
}
use nvim_agents_zzz.Broker.Inputs.{
  InputKind, as_prompt, as_steer, TurnInputParams, input_provider_options, queues, is_allowed,
  begin_prompt, begun, command_of, record_user_input, dispatch_working, dispatch_agent_input,
  accept_input, send_agent_input, is_steer,
}
use nvim_agents_zzz.Broker.Sound.{IsSound}
use nvim_agents_zzz.Broker.Answered.{same_id_refl}
use nvim_agents_zzz.Broker.Generations.{pending_of-without_pending}
use nvim_agents_zzz.Broker.Recorded.{
  AreSound, Reaches, find-AreSound, send_ready-Tells, notify_state-Tells, send_ready-pending,
  notify_state-pending,
}
use nvim_agents_zzz.Broker.Prompted.{send_agent_input-Reaches, begun-IsSound}
use nvim_agents_zzz.Broker.Outcome.{
  Dispatched, lost, sent, unparsed, empty_text, unknown_agent, bad_options, not_now, full,
  bad_contexts, IsTaken, Treated, refused, queued, dispatched,
}

-- `get_mut` of a key that is there, and then `get`.
find-put :
    {A : Type 0} (key : String) (value old : A) (xs : List (String × A))
    → find key xs ≡ some old
    → find key (put key value xs) ≡ some value
unfolding find put
find-put key value old [] h = cc
find-put key value old (x ∷ xs) h = elim (Bool-cases (str_eq x.0 key)) [
  | inl e ↦ rw (e, e) refl
  | inr e ↦ rw (e, e) (find-put key value old xs (rw e at h))
]

module _ (services : Services) (paths : Paths) where
  -- The text is shown in the transcript of an agent that is there, and nothing else of it changes.
  record_user_input-shown :
      (broker : State services) (agent_id text : String) (agent : ManagedAgent services)
      → IsSound services agent
      → find agent_id broker.agents ≡ some agent
      → (after : State services) × (told : ManagedAgent services) × (record_user_input services
            paths broker agent_id text
          ≡ some after)
        × (find agent_id after.agents ≡ some told)
        × (record told { transcript = agent.transcript } ≡ agent)
        × (after.pending_runtime_requests ≡ broker.pending_runtime_requests)
  unfolding record_user_input
  record_user_input-shown broker agent_id text agent s e =
      let (t', p, f, u) =
        push_user-Updates services.is_alphanumeric agent.transcript (codes text) s.rendered in
      let shown = record agent { transcript = t' } in
      let after = record broker { agents = put agent_id shown broker.agents } in
      let t = send_ready-Tells services after (transcript_patch agent_id p) in
      (
        send_ready services after (transcript_patch agent_id p),
        shown,
        rw (e, record_user_input, f) refl,
        ap (find agent_id) t.agents ∙ find-put agent_id shown agent broker.agents e,
        refl,
        send_ready-pending services after (transcript_patch agent_id p),
      )

  dispatch_working-Dispatched :
      (now : String) (id : RequestId) (agent_id : String)
      (agent working here : ManagedAgent services) (input : QueuedPrompt) (kind : InputKind)
      (broker : State services)
      → IsSound services working
      → find agent_id broker.agents ≡ some here
      → working.commands ≡ agent.commands
      → working.queued_prompts ≡ agent.queued_prompts
      → working.pending_contexts ≡ []
      → broker.next_runtime_request < u64_max
      → Dispatched services paths now id agent_id agent working input kind broker
          (dispatch_working services paths now id agent_id working input kind broker)
  unfolding dispatch_working runtime_request asking pending_of
  dispatch_working-Dispatched now id agent_id agent working here input kind broker s h c q x more =
      let room : leb u64_max broker.next_runtime_request ≡ false = ground (arith, more) in
      let rid = runtime_id services broker in
      let placed = record broker { agents = put agent_id working broker.agents } in
      let asked = asking services placed id in
      let there = find-put agent_id working here broker.agents h in
      let reached = λ (channel : services.Sender).
        services.send_wait channel (command_of services paths kind rid input) in
      let entry : PendingRuntimeRequest = record {
        generation = broker.connection_generation;
        public_id = id;
        history_agent = none;
      } in
      let waits : pending_of rid asked.pending_runtime_requests ≡ some entry =
        rw (same_id_refl rid) refl in
      elim (Option-cases
        (services.send_wait working.commands (command_of services paths kind rid input))) [
          | inl f ↦
              let gone = record working {
                summary = record working.summary { state = disconnected; updated_at = now };
              } in
              let removed = record asked {
                pending_runtime_requests = without_pending rid asked.pending_runtime_requests;
                agents = put agent_id gone asked.agents;
              } in
              rw (room, f)
                (lost removed gone (ap reached (sym c) ∙ f)
                  (find-put agent_id gone working asked.agents there) refl
                  (pending_of-without_pending rid asked.pending_runtime_requests) refl)
          | inr (commands, f) ↦
              let noted = record asked {
                agents = put agent_id (record working { commands = commands }) asked.agents;
              } in
              let (told, agent', g, e, same, pending) =
                record_user_input-shown noted agent_id input.text
                  (record working { commands = commands })
                  (record {
                    approvals = s.approvals;
                    questions = s.questions;
                    queue = s.queue;
                    rendered = s.rendered;
                  })
                  (find-put agent_id (record working { commands = commands }) working asked.agents
                    there) in
              let taken =
                ap reached (sym c)
                ∙ f
                ∙ ap (λ (o : services.Sender). some o)
                    (sym (ap (λ (a : ManagedAgent services). a.commands) same)) in
              let summary = ap (λ (a : ManagedAgent services). a.summary) same in
              let queue = ap (λ (a : ManagedAgent services). a.queued_prompts) same ∙ q in
              let contexts = ap (λ (a : ManagedAgent services). a.pending_contexts) same ∙ x in
              let owed = ap (pending_of rid) pending ∙ waits in
              elim (Bool-cases (is_steer kind)) [
                | inl steers ↦
                    rw (room, f, g, steers)
                      (sent {after = told} agent' taken e summary queue contexts owed)
                | inr prompts ↦
                    rw (room, f, g, prompts)
                      (sent {after = notify_state services told} agent' taken
                        (ap (find agent_id) (notify_state-Tells services told).agents ∙ e) summary
                        queue contexts
                        (ap (pending_of rid) (notify_state-pending services told) ∙ owed))
              ]
        ]

  begun-kept :
      (now : String) (kind : InputKind) (agent : ManagedAgent services) (input : QueuedPrompt)
      → ((begun services paths now kind agent input).commands ≡ agent.commands)
        × ((begun services paths now kind agent input).queued_prompts ≡ agent.queued_prompts)
        × ((begun services paths now kind agent input).pending_contexts ≡ agent.pending_contexts)
  unfolding begin_prompt
  begun-kept now as_prompt agent input = (refl, refl, refl)
  begun-kept now as_steer agent input = (refl, refl, refl)

  -- The table of agents does not matter to what is dispatched.
  placed-Dispatched :
      (agents : List (String × ManagedAgent services)) (now : String) (id : RequestId)
      (agent_id : String) (agent working : ManagedAgent services) (input : QueuedPrompt)
      (kind : InputKind) (broker : State services) (result : Option (State services))
      → Dispatched services paths now id agent_id agent working input kind
          (record broker { agents = agents })
          result
      → Dispatched services paths now id agent_id agent working input kind broker result
  placed-Dispatched agents now id agent_id agent working input kind broker result
        (lost before gone c f d p o) =
      lost before gone c f d p o
  placed-Dispatched agents now id agent_id agent working input kind broker result
        (sent told c f s q x p) =
      sent told c f s q x p

  accept_input-Treated :
      (now : String) (id : RequestId) (parsed : TurnInputParams) (kind : InputKind)
      (agent : ManagedAgent services) (input : QueuedPrompt) (broker : State services)
      → IsSound services agent
      → IsTaken services paths parsed kind broker agent input
      → (queues services paths parsed kind agent.summary.state
          && leb 32 (length agent.queued_prompts))
        ≡ false
      → broker.next_runtime_request < u64_max
      → Treated services paths now id kind broker
          (some parsed)
          (accept_input services paths now id parsed kind agent input broker)
  unfolding accept_input dispatch_agent_input send
  accept_input-Treated now id parsed kind agent input broker s t room more =
      let cleared = record agent { pending_contexts = [] } in
      let waiting = record cleared { queued_prompts = agent.queued_prompts ++ input ∷ [] } in
      let agents = put parsed.agent_id cleared broker.agents in
      elim (Bool-cases (queues services paths parsed kind agent.summary.state)) [
        | inl q ↦
            let few : leb 32 (length agent.queued_prompts) ≡ false = rw q at room in
            rw q (
              queued agent waiting input t q (ground (arith, few))
                (find-put parsed.agent_id waiting agent broker.agents t.there) refl refl refl)
        | inr q ↦
            let working = begun services paths now kind cleared input in
            let (c, p, x) = begun-kept now kind cleared input in
            rw q (
              dispatched agent input t q (
                placed-Dispatched agents now id parsed.agent_id agent working input kind broker _ (
                  dispatch_working-Dispatched now id parsed.agent_id agent working cleared input
                    kind (record broker { agents = agents })
                    (begun-IsSound services paths now kind cleared input (record {
                      approvals = s.approvals;
                      questions = s.questions;
                      queue = s.queue;
                      rendered = s.rendered;
                    }))
                    (find-put parsed.agent_id cleared agent broker.agents t.there) c p x more)))
      ]

  input-Treated :
      (now : String) (id : RequestId) (params : Option TurnInputParams) (kind : InputKind)
      (broker : State services)
      → AreSound services broker.agents
      → broker.next_runtime_request < u64_max
      → Treated services paths now id kind broker params
          (send_agent_input services paths now id params kind broker)
  unfolding send_agent_input
  input-Treated now id none kind broker v more = refused (unparsed _)
  input-Treated now id (some parsed) kind broker v more =
      elim (Bool-cases (str_eq parsed.text "")) [
        | inl e ↦ rw e (refused (empty_text _ ((eq_iff parsed.text "").0 e)))
        | inr e ↦ rw e (elim (Option-cases (find parsed.agent_id broker.agents)) [
          | inl f ↦ rw f (refused (unknown_agent f))
          | inr (agent, f) ↦
              let state = agent.summary.state in
              let s = find-AreSound services parsed.agent_id broker.agents agent f v in
              let is_full =
                queues services paths parsed kind state && leb 32 (length agent.queued_prompts) in
              rw f
                (elim (Result-cases
                  (input_provider_options services paths agent parsed.provider_options kind)) [
                    | inr (message, g) ↦ rw g (refused (bad_options agent message _ f g))
                    | inl (options, g) ↦
                        rw g (elim (Bool-cases (is_allowed services paths parsed kind state)) [
                          | inr a ↦ rw a (refused (not_now agent _ f a))
                          | inl a ↦ rw a (elim (Bool-cases is_full) [
                            | inl b ↦
                                rw b
                                  (refused (full agent _ f (ground (arith, b)) (ground (arith, b))))
                            | inr b ↦
                                rw b
                                  (elim (Result-cases (
                                    merge_input_contexts paths agent.pending_contexts
                                      parsed.attachments agent.summary.cwd)) [
                                        | inr (message, c) ↦
                                            rw c (refused (bad_contexts agent message _ f c))
                                        | inl (attachments, c) ↦
                                            let input : QueuedPrompt = record {
                                              text = parsed.text;
                                              attachments = attachments;
                                              provider_options = options;
                                            } in
                                            rw c (
                                              accept_input-Treated now id parsed kind agent input
                                                broker s
                                                (record {
                                                  there = f;
                                                  allowed = a;
                                                  texted = refl;
                                                  optioned = g;
                                                  attached = c;
                                                })
                                                b more)
                                      ])
                          ])
                        ])
                  ])
        ])
      ]

  -- When every agent is sound and the request counter has room, an input has a result without a panic, every agent is
  -- sound again with at most 32 prompts in its queue, and no event is recorded. The input is refused with an
  -- error, for its parameters, its text, agent, options or contexts, the agent's state or a full queue, and nothing else
  -- changes; or an agent that may take it is there, the options and contexts are valid,
  -- and it is queued behind fewer than 32 prompts, with its position told; or its command is in the agent's channel
  -- and the request waits for the runtime; or, when the channel takes no command, the agent is lost and the request refused.
  pub send_agent_input-Treated :
      (now : String) (id : RequestId) (params : Option TurnInputParams) (kind : InputKind)
      (broker : State services)
      → AreSound services broker.agents
      → broker.next_runtime_request < u64_max
      → Reaches services broker 0 1 (send_agent_input services paths now id params kind broker)
        × Treated services paths now id kind broker params
            (send_agent_input services paths now id params kind broker)
  send_agent_input-Treated now id params kind broker v more = (
    send_agent_input-Reaches services paths now id params kind broker v more,
    input-Treated now id params kind broker v more,
  )
