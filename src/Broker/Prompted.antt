-- ===== src/Broker/Prompted.antt =====
-- embedded.rs: an input for an agent is always handled, and no queue of prompts outgrows its bound.
use nvim_agents_zzz.Prelude.{
  Result-cases, ◌+◌, ◌≤◌, ◌<◌, ◌≡◌, refl, ap, ◌∙◌, String, false, ◌&&◌, Option, none, some, [], ◌∷◌,
  ◌++◌, length, length-append, leb, Bool-cases, Option-cases, inl, inr, arith, str_eq,
}
use nvim_agents_zzz.Text.{codes}
use nvim_agents_zzz.Protocol.{RequestId, disconnected}
use nvim_agents_zzz.Replay.{u64_max}
use nvim_agents_zzz.Transcript.Mirror.{push_user-Updates}
use nvim_agents_zzz.Broker.Agents.{Services, ManagedAgent, QueuedPrompt, find, put}
use nvim_agents_zzz.Broker.Core.{
  State, Outgoing, error, send, send_ready, notify_state, transcript_patch,
}
use nvim_agents_zzz.Broker.Context.{Paths, merge_input_contexts}
use nvim_agents_zzz.Broker.Requests.{runtime_request, asking, runtime_id, without_pending}
use nvim_agents_zzz.Broker.Inputs.{
  InputKind, as_prompt, as_steer, TurnInputParams, input_provider_options, queues, is_allowed,
  begin_prompt, begun, command_of, record_user_input, dispatch_working, dispatch_agent_input,
  accept_input, send_agent_input, is_steer,
}
use nvim_agents_zzz.Broker.Sound.{IsSound}
use nvim_agents_zzz.Broker.Recorded.{
  AreSound, Reaches, Tells, find-AreSound, put-AreSound, send_ready-Tells, notify_state-Tells,
}

module _ (services : Services) (paths : Paths) where
  send-Tells :
      (broker : State services) (message : Outgoing)
      → Tells services broker (send services broker message)
  unfolding send
  send-Tells broker message = record { agents = refl; replay = refl; requests = refl }

  -- A message to the client after a change that records no event.
  changed-Reaches :
      (broker changed : State services) (message : Outgoing)
      → AreSound services changed.agents
      → changed.replay ≡ broker.replay
      → changed.next_runtime_request ≡ broker.next_runtime_request
      → Reaches services broker 0 1 (some (send services changed message))
  changed-Reaches broker changed message v replay requests =
      let t = send-Tells changed message in
      record {
        after = send services changed message;
        reached = refl;
        sound = rw t.agents v;
        sequences = omega (arith, ap (λ r. r.next_sequence) (t.replay ∙ replay));
        requests = omega (arith, t.requests ∙ requests);
      }

  told-Reaches :
      (broker : State services) (message : Outgoing)
      → AreSound services broker.agents
      → Reaches services broker 0 1 (some (send services broker message))
  told-Reaches broker message v = changed-Reaches broker broker message v refl refl

  pub begun-IsSound :
      (now : String) (kind : InputKind) (agent : ManagedAgent services) (input : QueuedPrompt)
      → IsSound services agent
      → IsSound services (begun services paths now kind agent input)
  unfolding begin_prompt
  begun-IsSound now as_prompt agent input s = record {
    approvals = λ h. cc;
    questions = λ h. cc;
    queue = s.queue;
    rendered = s.rendered;
  }
  begun-IsSound now as_steer agent input s = s

  record_user_input-AreSound :
      (broker : State services) (agent_id text : String)
      → AreSound services broker.agents
      → (after : State services) × (record_user_input services paths broker agent_id text
          ≡ some after)
        × AreSound services after.agents
        × (after.replay ≡ broker.replay)
        × (after.next_runtime_request ≡ broker.next_runtime_request)
  unfolding record_user_input
  record_user_input-AreSound broker agent_id text v =
      elim (Option-cases (find agent_id broker.agents)) [
        | inl e ↦ (broker, rw (e, record_user_input) refl, v, refl, refl)
        | inr (agent, e) ↦
            let s = find-AreSound services agent_id broker.agents agent e v in
            let (t', p, f, u) =
              push_user-Updates services.is_alphanumeric agent.transcript (codes text) s.rendered in
            let shown = record agent { transcript = t' } in
            let after = record broker { agents = put agent_id shown broker.agents } in
            let t = send_ready-Tells services after (transcript_patch agent_id p) in
            (
              send_ready services after (transcript_patch agent_id p),
              rw (e, record_user_input, f) refl,
              rw t.agents (
                  put-AreSound services agent_id shown broker.agents
                    (record {
                      approvals = s.approvals;
                      questions = s.questions;
                      queue = s.queue;
                      rendered = u.rendered;
                    })
                    v),
              t.replay,
              t.requests,
            )
      ]

  runtime_request-total :
      (broker : State services) (id : RequestId)
      → broker.next_runtime_request < u64_max
      → (asked : State services) × (runtime_id : RequestId) × (runtime_request services broker id
          ≡ some (asked, runtime_id))
        × (asked.agents ≡ broker.agents)
        × (asked.replay ≡ broker.replay)
        × (asked.next_runtime_request ≡ broker.next_runtime_request + 1)
  unfolding runtime_request asking
  runtime_request-total broker id more =
      let room : leb u64_max broker.next_runtime_request ≡ false = ground (arith, more) in
      (asking services broker id, runtime_id services broker, rw room refl, refl, refl, refl)

  dispatch_working-Reaches :
      (now : String) (id : RequestId) (agent_id : String) (working : ManagedAgent services)
      (input : QueuedPrompt) (kind : InputKind) (broker : State services)
      → IsSound services working
      → AreSound services broker.agents
      → broker.next_runtime_request < u64_max
      → Reaches services broker 0 1
          (dispatch_working services paths now id agent_id working input kind broker)
  unfolding dispatch_working
  dispatch_working-Reaches now id agent_id working input kind broker s v more =
      let placed = record broker { agents = put agent_id working broker.agents } in
      let w = put-AreSound services agent_id working broker.agents s v in
      let (asked, runtime_id, e, agents, replay, requests) = runtime_request-total placed id more in
      let w' : AreSound services asked.agents = rw agents w in
      elim (Option-cases
        (services.send_wait working.commands (command_of services paths kind runtime_id input))) [
          | inl f ↦
              let gone = record working {
                summary = record working.summary { state = disconnected; updated_at = now };
              } in
              let removed = record asked {
                pending_runtime_requests =
                    without_pending runtime_id asked.pending_runtime_requests;
                agents = put agent_id gone asked.agents;
              } in
              let message = error (some id) 32020 "Provider command channel is unavailable" none in
              let t = send-Tells removed message in
              let n = notify_state-Tells services (send services removed message) in
              record {
                after = notify_state services (send services removed message);
                reached = rw (e, f) refl;
                sound =
                    rw (n.agents, t.agents)
                      (put-AreSound services agent_id gone asked.agents
                        (record {
                          approvals = λ h. cc;
                          questions = λ h. cc;
                          queue = s.queue;
                          rendered = s.rendered;
                        })
                        w');
                sequences = omega (arith, ap (λ r. r.next_sequence) (n.replay ∙ t.replay ∙ replay));
                requests = omega (arith, n.requests ∙ t.requests ∙ requests);
              }
          | inr (commands, f) ↦
              let sent = record working { commands = commands } in
              let noted = record asked { agents = put agent_id sent asked.agents } in
              let sound =
                put-AreSound services agent_id sent asked.agents
                  (record {
                    approvals = s.approvals;
                    questions = s.questions;
                    queue = s.queue;
                    rendered = s.rendered;
                  })
                  w' in
              let (told, g, x, replay', requests') =
                record_user_input-AreSound noted agent_id input.text sound in
              let n = notify_state-Tells services told in
              elim (Bool-cases (is_steer kind)) [
                | inl steers ↦ record {
                  after = told;
                  reached = rw (e, f, g, steers) refl;
                  sound = x;
                  sequences = omega (arith, ap (λ r. r.next_sequence) (replay' ∙ replay));
                  requests = omega (arith, requests' ∙ requests);
                }
                | inr prompts ↦ record {
                  after = notify_state services told;
                  reached = rw (e, f, g, prompts) refl;
                  sound = rw n.agents x;
                  sequences =
                      omega (arith, ap (λ r. r.next_sequence) (n.replay ∙ replay' ∙ replay));
                  requests = omega (arith, n.requests ∙ requests' ∙ requests);
                }
              ]
        ]

  accept_input-Reaches :
      (now : String) (id : RequestId) (parsed : TurnInputParams) (kind : InputKind)
      (agent : ManagedAgent services) (input : QueuedPrompt) (broker : State services)
      → IsSound services agent
      → (queues services paths parsed kind agent.summary.state
          && leb 32 (length agent.queued_prompts))
        ≡ false
      → AreSound services broker.agents
      → broker.next_runtime_request < u64_max
      → Reaches services broker 0 1
          (accept_input services paths now id parsed kind agent input broker)
  unfolding accept_input dispatch_agent_input
  accept_input-Reaches now id parsed kind agent input broker s room v more =
      let cleared = record agent { pending_contexts = [] } in
      let s' : IsSound services cleared = record {
        approvals = s.approvals;
        questions = s.questions;
        queue = s.queue;
        rendered = s.rendered;
      } in
      elim (Bool-cases (queues services paths parsed kind agent.summary.state)) [
        | inl q ↦
            let few : leb 32 (length agent.queued_prompts) ≡ false = rw q at room in
            let small : length (agent.queued_prompts ++ input ∷ []) ≤ 32 =
              ground (arith, few, length-append agent.queued_prompts (input ∷ [])) in
            let queued = record cleared { queued_prompts = agent.queued_prompts ++ input ∷ [] } in
            rw q (
              changed-Reaches broker
                (record broker { agents = put parsed.agent_id queued broker.agents }) _
                (put-AreSound services parsed.agent_id queued broker.agents
                  (record {
                    approvals = s.approvals;
                    questions = s.questions;
                    queue = small;
                    rendered = s.rendered;
                  })
                  v)
                refl refl)
        | inr q ↦
            let r =
              dispatch_working-Reaches now id parsed.agent_id
                (begun services paths now kind cleared input) input kind
                (record broker { agents = put parsed.agent_id cleared broker.agents })
                (begun-IsSound now kind cleared input s')
                (put-AreSound services parsed.agent_id cleared broker.agents s' v) more in
            rw q (record {
              after = r.after;
              reached = r.reached;
              sound = r.sound;
              sequences = r.sequences;
              requests = r.requests;
            })
      ]

  -- When every agent is sound and the counter of requests has room, any prompt or steering text with
  -- any parameters is answered or dispatched without a panic and every agent is sound again: its queue
  -- holds at most 32 prompts, and no event is recorded.
  pub send_agent_input-Reaches :
      (now : String) (id : RequestId) (params : Option TurnInputParams) (kind : InputKind)
      (broker : State services)
      → AreSound services broker.agents
      → broker.next_runtime_request < u64_max
      → Reaches services broker 0 1 (send_agent_input services paths now id params kind broker)
  unfolding send_agent_input
  send_agent_input-Reaches now id none kind broker v more = told-Reaches broker _ v
  send_agent_input-Reaches now id (some parsed) kind broker v more =
      elim (Bool-cases (str_eq parsed.text "")) [
        | inl e ↦ rw e (told-Reaches broker _ v)
        | inr e ↦ rw e (elim (Option-cases (find parsed.agent_id broker.agents)) [
          | inl f ↦ rw f (told-Reaches broker _ v)
          | inr (agent, f) ↦
              let s = find-AreSound services parsed.agent_id broker.agents agent f v in
              let full =
                queues services paths parsed kind agent.summary.state
                && leb 32 (length agent.queued_prompts) in
              rw f
                (elim (Result-cases
                  (input_provider_options services paths agent parsed.provider_options kind)) [
                    | inr (message, g) ↦ rw g (told-Reaches broker _ v)
                    | inl (options, g) ↦
                        rw g
                          (elim (Bool-cases
                            (is_allowed services paths parsed kind agent.summary.state)) [
                              | inr a ↦ rw a (told-Reaches broker _ v)
                              | inl a ↦ rw a (elim (Bool-cases full) [
                                | inl b ↦ rw b (told-Reaches broker _ v)
                                | inr b ↦
                                    rw b
                                      (elim (Result-cases (
                                        merge_input_contexts paths agent.pending_contexts
                                          parsed.attachments agent.summary.cwd)) [
                                            | inr (message, c) ↦ rw c (told-Reaches broker _ v)
                                            | inl (attachments, c) ↦ rw c (
                                                accept_input-Reaches now id parsed kind agent
                                                  (record {
                                                    text = parsed.text;
                                                    attachments = attachments;
                                                    provider_options = options;
                                                  })
                                                  broker s b v more)
                                          ])
                              ])
                            ])
                  ])
        ])
      ]
