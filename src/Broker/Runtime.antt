-- ===== src/Broker/Runtime.antt =====
-- embedded.rs: whatever a runtime reports is handled, and every agent stays sound.
use nvim_agents_zzz.Prelude.{
  ℕ, suc, ◌+◌, ◌<◌, ◌≡◌, refl, ap, ◌∙◌, String, Bool, false, not, none, some, [], filter,
  Bool-cases, Option-cases, inl, inr, arith,
}
use nvim_agents_zzz.Protocol.{RequestId, disconnected, same_id}
use nvim_agents_zzz.Replay.{u64_max}
use nvim_agents_zzz.Broker.Agents.{Services, ManagedAgent, shutdown, find, put}
use nvim_agents_zzz.Broker.State.{same_state}
use nvim_agents_zzz.Broker.Core.{State, notify_state, error}
use nvim_agents_zzz.Broker.Requests.{
  RuntimeEvent, started, answered, request_failed, provider_event, provider_failed, stopped,
  send_runtime_response, shut_down, fail_request, stop_agent, has_id, handle_request_failed,
  handle_runtime_event,
}
use nvim_agents_zzz.Broker.Sound.{IsSound}
use nvim_agents_zzz.Broker.Recorded.{
  AreSound, Reaches, find-AreSound, put-AreSound, notify_state-Tells,
}
use nvim_agents_zzz.Broker.Cancelled.{cancel_queued_prompts-Reaches}
use nvim_agents_zzz.Broker.Handled.{handle_provider_failure-Reaches, handle_provider_event-Reaches}
use nvim_agents_zzz.Broker.Reported.{
  send_runtime_response-Tells, quiet, within, handle_started-Reaches,
  handle_runtime_response-Reaches,
}

module _ (services : Services) where
  shut_down-IsSound :
      (now : String) (agent : ManagedAgent services)
      → IsSound services agent
      → IsSound services (shut_down services now agent)
  unfolding shut_down
  shut_down-IsSound now agent s = elim (Option-cases (services.try_send agent.commands shutdown)) [
    | inl e ↦
        rw (e, shut_down)
          (record {
            approvals = λ h. cc;
            questions = λ h. cc;
            queue = s.queue;
            rendered = s.rendered;
          })
    | inr (commands, e) ↦
        rw (e, shut_down)
          (record {
            approvals = λ h. cc;
            questions = λ h. cc;
            queue = s.queue;
            rendered = s.rendered;
          })
  ]

  fail_request-AreSound :
      (now agent_id : String) (broker : State services)
      → AreSound services broker.agents
      → AreSound services (fail_request services now agent_id broker).agents
        × ((fail_request services now agent_id broker).replay ≡ broker.replay)
        × ((fail_request services now agent_id broker).next_runtime_request
            ≡ broker.next_runtime_request)
  unfolding fail_request
  fail_request-AreSound now agent_id broker v = elim (Option-cases (find agent_id broker.agents)) [
    | inl e ↦ rw (e, fail_request) (v, refl, refl)
    | inr (agent, e) ↦
        let s = find-AreSound services agent_id broker.agents agent e v in
        rw (e, fail_request)
          (
            put-AreSound services agent_id (shut_down services now agent) broker.agents
                (shut_down-IsSound now agent s) v,
            refl,
            refl,
          )
  ]

  stop_agent-AreSound :
      (now agent_id : String) (broker : State services)
      → AreSound services broker.agents
      → AreSound services (stop_agent services now agent_id broker).agents
        × ((stop_agent services now agent_id broker).replay ≡ broker.replay)
        × ((stop_agent services now agent_id broker).next_runtime_request
            ≡ broker.next_runtime_request)
  unfolding stop_agent
  stop_agent-AreSound now agent_id broker v = elim (Option-cases (find agent_id broker.agents)) [
    | inl e ↦ rw (e, stop_agent) (v, refl, refl)
    | inr (agent, e) ↦
        let s = find-AreSound services agent_id broker.agents agent e v in
        let quiet_agent = record agent { task = false; pending_contexts = [] } in
        let summary = record agent.summary {
          state = disconnected;
          active_turn_id = none;
          updated_at = now;
        } in
        let gone = record quiet_agent { summary = summary } in
        let n =
          notify_state-Tells services
            (record broker { agents = put agent_id gone broker.agents }) in
        elim (Bool-cases (same_state agent.summary.state disconnected)) [
          | inl f ↦
              rw (e, stop_agent, f)
                (
                  put-AreSound services agent_id quiet_agent broker.agents
                      (record {
                        approvals = s.approvals;
                        questions = s.questions;
                        queue = s.queue;
                        rendered = s.rendered;
                      })
                      v,
                  refl,
                  refl,
                )
          | inr f ↦
              rw (e, stop_agent, f)
                (
                  rw n.agents (
                      put-AreSound services agent_id gone broker.agents
                        (record {
                          approvals = λ h. cc;
                          questions = λ h. cc;
                          queue = s.queue;
                          rendered = s.rendered;
                        })
                        v),
                  n.replay,
                  n.requests,
                )
        ]
  ]

  handle_request_failed-Reaches :
      (fuel : ℕ) (now : String) (id : RequestId) (agent_id : String) (code : ℕ) (message : String)
      (fails : Bool) (broker : State services)
      → AreSound services broker.agents
      → broker.replay.next_sequence + 2 < u64_max
      → Reaches services broker 3 1
          (handle_request_failed services (suc fuel) now id agent_id code message fails broker)
  unfolding handle_request_failed
  handle_request_failed-Reaches fuel now id agent_id code message fails broker v room =
      let told = λ (b : State services).
        send_runtime_response services b id (λ other. error (some other) code message none) in
      let tells = λ (b : State services).
        send_runtime_response-Tells services b id (λ other. error (some other) code message none) in
      elim (Bool-cases (has_id id broker.queued_runtime_requests)) [
        | inl q ↦
            let noted = record broker {
              queued_runtime_requests =
                  filter (λ other. not (same_id other id)) broker.queued_runtime_requests;
            } in
            let r =
              handle_provider_failure-Reaches services fuel now agent_id
                "Queued prompt could not start; queued follow-ups were cancelled" noted v
                (omega arith) in
            rw (q, handle_request_failed)
              (record {
                after = r.after;
                reached = r.reached;
                sound = r.sound;
                sequences = omega (arith, r.sequences);
                requests = omega (arith, r.requests);
              })
        | inr q ↦ elim (Bool-cases fails) [
          | inr f ↦
              rw (q, f, handle_request_failed)
                (quiet services broker (told broker) (rw (tells broker).agents v)
                  (tells broker).replay (tells broker).requests)
          | inl f ↦
              let c =
                cancel_queued_prompts-Reaches services fuel now agent_id broker v (omega arith) in
              let (w, replay, requests) = fail_request-AreSound now agent_id c.after c.sound in
              let t = tells (fail_request services now agent_id c.after) in
              let n =
                notify_state-Tells services (told (fail_request services now agent_id c.after)) in
              record {
                after = notify_state services (told (fail_request services now agent_id c.after));
                reached = rw (q, f, handle_request_failed, c.reached) refl;
                sound = rw (n.agents, t.agents) w;
                sequences =
                    omega (
                      arith,
                      ap (λ b. b.next_sequence) (n.replay ∙ t.replay ∙ replay),
                      c.sequences,
                    );
                requests = omega (arith, n.requests ∙ t.requests ∙ requests, c.requests);
              }
        ]
      ]

  -- When every agent is sound, the buffer has room for three more events and the counter of requests
  -- for one more, whatever a runtime reports (a session that started, a response, a failed request, a
  -- provider's event or failure, an end) is handled: with two units of fuel or more there is a result,
  -- nothing panics, every agent is sound again, and at most three events are recorded and at most one
  -- prompt is begun.
  pub handle_runtime_event-Reaches :
      (fuel : ℕ) (now : String) (event : RuntimeEvent) (broker : State services)
      → AreSound services broker.agents
      → broker.replay.next_sequence + 2 < u64_max
      → broker.next_runtime_request < u64_max
      → Reaches services broker 3 1
          (handle_runtime_event services (suc (suc fuel)) now event broker)
  unfolding handle_runtime_event
  handle_runtime_event-Reaches fuel now (started id agent_id session runtime) broker v room more =
      handle_started-Reaches services now id agent_id session runtime broker v
  handle_runtime_event-Reaches fuel now (answered id result) broker v room more =
      handle_runtime_response-Reaches services broker id result v
  handle_runtime_event-Reaches fuel now (request_failed id agent_id code message fails) broker v
        room more =
      handle_request_failed-Reaches (suc fuel) now id agent_id code message fails broker v room
  handle_runtime_event-Reaches fuel now (provider_event event) broker v room more =
      handle_provider_event-Reaches services fuel now event broker v room more
  handle_runtime_event-Reaches fuel now (provider_failed agent_id message) broker v room more =
      within services broker 2 0 _ (omega arith) (omega arith) (
        handle_provider_failure-Reaches services (suc fuel) now agent_id message broker v
          (omega arith))
  handle_runtime_event-Reaches fuel now (stopped agent_id) broker v room more =
      let c =
        cancel_queued_prompts-Reaches services (suc fuel) now agent_id broker v (omega arith) in
      let (w, replay, requests) = stop_agent-AreSound now agent_id c.after c.sound in
      record {
        after = stop_agent services now agent_id c.after;
        reached = rw c.reached refl;
        sound = w;
        sequences = omega (arith, ap (λ b. b.next_sequence) replay, c.sequences);
        requests = omega (arith, requests, c.requests);
      }
