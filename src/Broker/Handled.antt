-- ===== src/Broker/Handled.antt =====
-- embedded.rs: a provider's event is always handled: no panic, and two units of fuel are enough.
use nvim_agents_zzz.Prelude.{
  ℕ, suc, ◌+◌, ◌≤◌, ◌<◌, ◌≡◌, refl, ap, ◌∙◌, ◌⊎◌, String, false, Option, List, [], ◌∷◌, str_eq, leb,
  length, Bool-cases, Option-cases, inl, inr, arith,
}
use nvim_agents_zzz.Protocol.{EventEnvelope, running}
use nvim_agents_zzz.Replay.{u64_max, append_event}
use nvim_agents_zzz.Replay.History.{push_total}
use nvim_agents_zzz.Broker.Agents.{Services, ManagedAgent, QueuedPrompt, prompt, find, put}
use nvim_agents_zzz.Broker.Core.{State, send_ready, notify_state, agent_event}
use nvim_agents_zzz.Broker.Events.{
  cancel_queued_prompts, handle_provider_failure, start_prompt, queued_id, dispatch_queued_prompt,
  follow_up, free_agent, handle_provider_event, broker_event, fail_agent, disconnect_agent,
}
use nvim_agents_zzz.Broker.Sound.{IsSound}
use nvim_agents_zzz.Broker.Recorded.{
  AreSound, Reaches, find-AreSound, put-AreSound, send_ready-Tells, notify_state-Tells,
}
use nvim_agents_zzz.Broker.Cancelled.{record_event-Reaches, cancel_queued_prompts-Reaches}

List-cases {ℓ} :
    {A : Type ℓ} (xs : List A) → (xs ≡ []) ⊎ ((x : A) × (rest : List A) × (xs ≡ x ∷ rest))
List-cases [] = inl refl
List-cases (x ∷ xs) = inr (x, xs, refl)

module _ (services : Services) where
  fail_agent-Reaches :
      (now agent_id message : String) (broker : State services)
      → AreSound services broker.agents
      → broker.replay.next_sequence < u64_max
      → Reaches services broker 1 0 (fail_agent services now agent_id message broker)
  unfolding fail_agent append_event
  fail_agent-Reaches now agent_id message broker v room =
      elim (Option-cases (find agent_id broker.agents)) [
        | inl e ↦ record {
          after = broker;
          reached = rw (e, fail_agent) refl;
          sound = v;
          sequences = omega arith;
          requests = omega arith;
        }
        | inr (agent, e) ↦
            let s = find-AreSound services agent_id broker.agents agent e v in
            let gone = disconnect_agent services now agent in
            let event = broker_event services now agent_id agent "broker.error" message in
            let sequence = broker.replay.next_sequence in
            let pushed = record broker {
              agents = put agent_id gone broker.agents;
              replay = append_event broker.replay event;
            } in
            let t =
              send_ready-Tells services pushed
                (agent_event (record event { sequence = sequence })) in
            let sent =
              send_ready services pushed (agent_event (record event { sequence = sequence })) in
            let u = notify_state-Tells services sent in
            record {
              after = notify_state services sent;
              reached = rw (e, fail_agent, push_total broker.replay event room) refl;
              sound =
                  rw (u.agents, t.agents)
                    (put-AreSound services agent_id gone broker.agents
                      (record {
                        approvals = λ h. cc;
                        questions = λ h. cc;
                        queue = s.queue;
                        rendered = s.rendered;
                      })
                      v);
              sequences = omega (arith, ap (λ r. r.next_sequence) (u.replay ∙ t.replay));
              requests = omega (arith, u.requests ∙ t.requests);
            }
      ]

  -- The handler that the follow-ups use, with fuel for one event more.
  module _ (fuel : ℕ) (now : String) where
    abbrev handle : EventEnvelope → State services → Option (State services)
    handle = handle_provider_event services (suc fuel) now

    pub handle_provider_failure-Reaches :
        (agent_id message : String) (broker : State services)
        → AreSound services broker.agents
        → broker.replay.next_sequence + 1 < u64_max
        → Reaches services broker 2 0
            (handle_provider_failure services handle now agent_id message broker)
    unfolding handle_provider_failure
    handle_provider_failure-Reaches agent_id message broker v room =
        let c = cancel_queued_prompts-Reaches services fuel now agent_id broker v (omega arith) in
        let f =
          fail_agent-Reaches now agent_id message c.after c.sound (omega (arith, c.sequences)) in
        record {
          after = f.after;
          reached = rw c.reached f.reached;
          sound = f.sound;
          sequences = omega (arith, c.sequences, f.sequences);
          requests = omega (arith, c.requests, f.requests);
        }

    start_prompt-Reaches :
        (agent_id : String) (broker : State services) (agent : ManagedAgent services)
        (queued : QueuedPrompt) (later : List QueuedPrompt)
        → IsSound services agent
        → length later ≤ 32
        → AreSound services broker.agents
        → broker.replay.next_sequence + 1 < u64_max
        → broker.next_runtime_request < u64_max
        → Reaches services broker 2 1
            (start_prompt services handle now agent_id broker agent queued later)
    unfolding start_prompt
    start_prompt-Reaches agent_id broker agent queued later s small v room more =
        let full : leb u64_max broker.next_runtime_request ≡ false = ground (arith, more) in
        let popped = record agent { queued_prompts = later } in
        let taken = record broker {
          agents = put agent_id popped broker.agents;
          next_runtime_request = broker.next_runtime_request + 1;
        } in
        let sound =
          put-AreSound services agent_id popped broker.agents
            (record {
              approvals = s.approvals;
              questions = s.questions;
              queue = small;
              rendered = s.rendered;
            })
            v in
        let request =
          prompt (queued_id services handle now broker) queued.text queued.attachments
            queued.provider_options in
        elim (Option-cases (services.try_send agent.commands request)) [
          | inl e ↦
              let r =
                handle_provider_failure-Reaches agent_id
                  "Queued prompt could not start; provider command channel unavailable" taken sound
                  room in
              record {
                after = r.after;
                reached = rw (full, start_prompt, e) r.reached;
                sound = r.sound;
                sequences = r.sequences;
                requests = omega (arith, r.requests);
              }
          | inr (commands, e) ↦
              let begun = record agent {
                commands = commands;
                queued_prompts = later;
                summary = record agent.summary {
                  state = running;
                  provider_options = queued.provider_options;
                  updated_at = now;
                };
              } in
              record {
                after = record taken {
                  agents = put agent_id begun (put agent_id popped broker.agents);
                  queued_runtime_requests =
                      queued_id services handle now broker ∷ broker.queued_runtime_requests;
                };
                reached = rw (full, start_prompt, e) refl;
                sound =
                    put-AreSound services agent_id begun (put agent_id popped broker.agents)
                      (record {
                        approvals = λ h. cc;
                        questions = λ h. cc;
                        queue = small;
                        rendered = s.rendered;
                      })
                      sound;
                sequences = omega arith;
                requests = omega arith;
              }
        ]

    dispatch_queued_prompt-Reaches :
        (agent_id : String) (broker : State services)
        → AreSound services broker.agents
        → broker.replay.next_sequence + 1 < u64_max
        → broker.next_runtime_request < u64_max
        → Reaches services broker 2 1 (dispatch_queued_prompt services handle now agent_id broker)
    unfolding dispatch_queued_prompt
    dispatch_queued_prompt-Reaches agent_id broker v room more =
        elim (Option-cases (find agent_id broker.agents)) [
          | inl e ↦ record {
            after = broker;
            reached = rw (e, dispatch_queued_prompt) refl;
            sound = v;
            sequences = omega arith;
            requests = omega arith;
          }
          | inr (agent, e) ↦
              let s = find-AreSound services agent_id broker.agents agent e v in
              elim (List-cases agent.queued_prompts) [
                | inl q ↦ record {
                  after = broker;
                  reached = rw (e, dispatch_queued_prompt, q) refl;
                  sound = v;
                  sequences = omega arith;
                  requests = omega arith;
                }
                | inr (queued, later, q) ↦
                    let small : length later ≤ 32 = omega (arith, ap length q, s.queue) in
                    let r =
                      start_prompt-Reaches agent_id broker agent queued later s small v room more in
                    record {
                      after = r.after;
                      reached = rw (e, dispatch_queued_prompt, q) r.reached;
                      sound = r.sound;
                      sequences = r.sequences;
                      requests = r.requests;
                    }
              ]
        ]

    follow_up-Reaches :
        (event : EventEnvelope) (broker : State services)
        → AreSound services broker.agents
        → broker.replay.next_sequence + 1 < u64_max
        → broker.next_runtime_request < u64_max
        → Reaches services broker 2 1 (follow_up services handle now event broker)
    unfolding follow_up
    follow_up-Reaches event broker v room more =
        let c =
          cancel_queued_prompts-Reaches services fuel now event.agent_id broker v (omega arith) in
        let cancelled : Reaches services broker 2 1
            (cancel_queued_prompts services handle now event.agent_id broker) =
          record {
            after = c.after;
            reached = c.reached;
            sound = c.sound;
            sequences = omega (arith, c.sequences);
            requests = omega (arith, c.requests);
          } in
        elim (Bool-cases (str_eq event.event_type "turn.completed")) [
          | inl e ↦ elim (Bool-cases (free_agent services event.agent_id broker)) [
            | inl f ↦ rw (e, f) (dispatch_queued_prompt-Reaches event.agent_id broker v room more)
            | inr f ↦ rw (e, f) cancelled
          ]
          | inr e ↦ elim (Bool-cases (str_eq event.event_type "turn.failed")) [
            | inl f ↦ rw (e, f) cancelled
            | inr f ↦
                rw (e, f)
                  (record {
                    after = broker;
                    reached = refl;
                    sound = v;
                    sequences = omega arith;
                    requests = omega arith;
                  })
          ]
        ]

  -- When every agent is sound and the buffer has room for three more events and the counter of
  -- requests for one more, a provider's event of any kind is handled: with two units of fuel or more
  -- there is a result, nothing panics, every agent is sound again, and at most three events are
  -- recorded and at most one prompt is begun.
  pub handle_provider_event-Reaches :
      (fuel : ℕ) (now : String) (event : EventEnvelope) (broker : State services)
      → AreSound services broker.agents
      → broker.replay.next_sequence + 2 < u64_max
      → broker.next_runtime_request < u64_max
      → Reaches services broker 3 1
          (handle_provider_event services (suc (suc fuel)) now event broker)
  unfolding handle_provider_event
  handle_provider_event-Reaches fuel now event broker v room more =
      let (recorded, changed, e, s, sequences, requests) =
        record_event-Reaches services now broker event v (omega arith) in
      let r =
        follow_up-Reaches fuel now event recorded s (omega (arith, sequences))
          (omega (arith, requests)) in
      let t = notify_state-Tells services r.after in
      elim (Bool-cases changed) [
        | inl c ↦ record {
          after = notify_state services r.after;
          reached = rw (e, r.reached, c) refl;
          sound = rw t.agents r.sound;
          sequences = omega (arith, ap (λ r. r.next_sequence) t.replay, r.sequences, sequences);
          requests = omega (arith, t.requests, r.requests, requests);
        }
        | inr c ↦ record {
          after = r.after;
          reached = rw (e, r.reached, c) refl;
          sound = r.sound;
          sequences = omega (arith, r.sequences, sequences);
          requests = omega (arith, r.requests, requests);
        }
      ]
