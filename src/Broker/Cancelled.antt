-- ===== src/Broker/Cancelled.antt =====
-- embedded.rs: recording one event, and cancelling the prompts that wait, always succeed.
use nvim_agents_zzz.Prelude.{
  ℕ, suc, ◌+◌, ◌≤◌, ◌<◌, ◌≡◌, refl, ap, ◌∙◌, String, Bool, false, Option, some, [], str_eq, ◌==◌,
  length, Bool-cases, Option-cases, inl, inr, arith,
}
use nvim_agents_zzz.Protocol.{EventEnvelope}
use nvim_agents_zzz.Replay.{u64_max, append_event}
use nvim_agents_zzz.Replay.History.{push_total}
use nvim_agents_zzz.Broker.Agents.{Services, QueuedPrompt, find, put}
use nvim_agents_zzz.Broker.Core.{State, send_ready, notify_state, agent_event}
use nvim_agents_zzz.Broker.Events.{
  give_up, change_state, record_event, cancel_queued_prompts, follow_up, handle_provider_event,
  cancel_notice,
}
use nvim_agents_zzz.Broker.Recorded.{
  AreSound, Reaches, find-AreSound, put-AreSound, send_ready-Tells, notify_state-Tells,
  give_up-AreSound, change_state-AreSound, change_transcript-AreSound,
}

module _ (services : Services) where
  -- The event takes one sequence; what is left is sound.
  pub record_event-Reaches :
      (now : String) (broker : State services) (event : EventEnvelope)
      → AreSound services broker.agents
      → broker.replay.next_sequence < u64_max
      → (after : State services) × (changed : Bool) × (record_event services now broker event
          ≡ some (after, changed))
        × AreSound services after.agents
        × (after.replay.next_sequence ≡ broker.replay.next_sequence + 1)
        × (after.next_runtime_request ≡ broker.next_runtime_request)
  unfolding record_event append_event
  record_event-Reaches now broker event v room =
      let noticed = give_up services broker event in
      let (v1, replay1, requests1) = give_up-AreSound services broker event v in
      let numbered = record event { sequence = noticed.replay.next_sequence } in
      let pushed = record noticed { replay = append_event noticed.replay event } in
      let (v2, replay2, requests2) = change_state-AreSound services now pushed numbered v1 in
      let changed = change_state services now pushed numbered in
      let t = send_ready-Tells services changed.0 (agent_event numbered) in
      let sent = send_ready services changed.0 (agent_event numbered) in
      let (after, shown, v3, replay3, requests3) =
        change_transcript-AreSound services sent numbered (rw t.agents v2) in
      let space : noticed.replay.next_sequence < u64_max = rw replay1 room in
      (
        after,
        changed.1,
        rw (push_total noticed.replay event space, shown) refl,
        v3,
        ap (λ r. r.next_sequence) (replay3 ∙ t.replay ∙ replay2)
            ∙ ap (λ r. r.next_sequence + 1) replay1,
        requests3 ∙ t.requests ∙ requests2 ∙ requests1,
      )

  -- An event that ends no turn is followed by nothing.
  handle_provider_event-other :
      (fuel : ℕ) (now : String) (event : EventEnvelope) (broker : State services)
      → str_eq event.event_type "turn.completed" ≡ false
      → str_eq event.event_type "turn.failed" ≡ false
      → AreSound services broker.agents
      → broker.replay.next_sequence < u64_max
      → Reaches services broker 1 0 (handle_provider_event services (suc fuel) now event broker)
  unfolding handle_provider_event follow_up
  handle_provider_event-other fuel now event broker completed failed v room =
      let (after, changed, e, s, sequences, requests) =
        record_event-Reaches now broker event v room in
      let t = notify_state-Tells services after in
      elim (Bool-cases changed) [
        | inl c ↦ record {
          after = notify_state services after;
          reached = rw (e, completed, failed, c) refl;
          sound = rw t.agents s;
          sequences = omega (arith, ap (λ r. r.next_sequence) t.replay, sequences);
          requests = omega (arith, t.requests, requests);
        }
        | inr c ↦ record {
          after = after;
          reached = rw (e, completed, failed, c) refl;
          sound = s;
          sequences = omega (arith, sequences);
          requests = omega (arith, requests);
        }
      ]

  -- The handler that the follow-ups use, with fuel for one event more.
  module _ (fuel : ℕ) (now : String) where
    abbrev handle : EventEnvelope → State services → Option (State services)
    handle = handle_provider_event services (suc fuel) now

    pub cancel_queued_prompts-Reaches :
        (agent_id : String) (broker : State services)
        → AreSound services broker.agents
        → broker.replay.next_sequence < u64_max
        → Reaches services broker 1 0 (cancel_queued_prompts services handle now agent_id broker)
    unfolding cancel_queued_prompts
    cancel_queued_prompts-Reaches agent_id broker v room =
        elim (Option-cases (find agent_id broker.agents)) [
          | inl e ↦ record {
            after = broker;
            reached = rw (e, cancel_queued_prompts) refl;
            sound = v;
            sequences = omega arith;
            requests = omega arith;
          }
          | inr (agent, e) ↦
              let s = find-AreSound services agent_id broker.agents agent e v in
              let emptied = record agent { queued_prompts = [] } in
              let cleared = record broker { agents = put agent_id emptied broker.agents } in
              let small : length {A = QueuedPrompt} [] ≤ 32 = omega arith in
              let sound =
                put-AreSound services agent_id emptied broker.agents
                  (record {
                    approvals = s.approvals;
                    questions = s.questions;
                    queue = small;
                    rendered = s.rendered;
                  })
                  v in
              elim (Bool-cases (length agent.queued_prompts == 0)) [
                | inl z ↦ record {
                  after = cleared;
                  reached = rw (e, cancel_queued_prompts, z) refl;
                  sound = sound;
                  sequences = omega arith;
                  requests = omega arith;
                }
                | inr z ↦
                    let r =
                      handle_provider_event-other fuel now
                        (cancel_notice services now agent_id agent (length agent.queued_prompts))
                        cleared refl refl sound room in
                    record {
                      after = r.after;
                      reached = rw (e, cancel_queued_prompts, z) r.reached;
                      sound = r.sound;
                      sequences = r.sequences;
                      requests = r.requests;
                    }
              ]
        ]
