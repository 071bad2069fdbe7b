-- ===== src/Broker/Reported.antt =====
-- embedded.rs: a session that has started and a response leave every agent sound.
use nvim_agents_zzz.Prelude.{
  ℕ, ◌≤◌, ◌≡◌, refl, ap, ◌∙◌, String, Bool, ◌&&◌, not, Option, some, List, [], ◌∷◌, filter, ◌==◌,
  is_some, Bool-cases, Option-cases, inl, inr, arith,
}
use nvim_agents_zzz.Protocol.{Value, RequestId, ProviderRuntime, idle, same_id}
use nvim_agents_zzz.Transcript.Mirror.{replace_history-Updates}
use nvim_agents_zzz.Broker.Agents.{Services, ManagedAgent, find, put}
use nvim_agents_zzz.Broker.Core.{
  State, Outgoing, send, notify_state, response, agent_response, transcript_patch, send_ready,
}
use nvim_agents_zzz.Broker.Requests.{
  pending_of, send_runtime_response, history_result, replace_transcript_history,
  handle_runtime_response, remove_stale, handle_started,
}
use nvim_agents_zzz.Broker.Recorded.{
  AreSound, Reaches, Tells, find-AreSound, put-AreSound, send_ready-Tells, notify_state-Tells,
}

module _ (services : Services) where
  pub send_runtime_response-Tells :
      (broker : State services) (id : RequestId) (message : RequestId → Outgoing)
      → Tells services broker (send_runtime_response services broker id message)
  unfolding send_runtime_response send
  send_runtime_response-Tells broker id message =
      elim (Option-cases (pending_of id broker.pending_runtime_requests)) [
        | inl e ↦
            rw (e, send_runtime_response) (record { agents = refl; replay = refl; requests = refl })
        | inr (pending, e) ↦
            elim (Bool-cases
              (pending.generation == broker.connection_generation && is_some broker.output)) [
                | inl f ↦
                    rw (e, send_runtime_response, f)
                      (record { agents = refl; replay = refl; requests = refl })
                | inr f ↦
                    rw (e, send_runtime_response, f)
                      (record { agents = refl; replay = refl; requests = refl })
              ]
      ]

  filter-AreSound :
      (p : String × ManagedAgent services → Bool) (agents : List (String × ManagedAgent services))
      → AreSound services agents
      → AreSound services (filter p agents)
  filter-AreSound p [] v = tt
  filter-AreSound p (entry ∷ agents) v = elim (Bool-cases (p entry)) [
    | inl e ↦ rw e (v.0, filter-AreSound p agents v.1)
    | inr e ↦ rw e (filter-AreSound p agents v.1)
  ]

  -- A state reached without an event of its own.
  pub quiet :
      (broker after : State services)
      → AreSound services after.agents
      → after.replay ≡ broker.replay
      → after.next_runtime_request ≡ broker.next_runtime_request
      → Reaches services broker 3 1 (some after)
  quiet broker after v replay requests = record {
    after = after;
    reached = refl;
    sound = v;
    sequences = omega (arith, ap (λ r. r.next_sequence) replay);
    requests = omega (arith, requests);
  }

  -- Fewer events than are allowed.
  pub within :
      (broker : State services) (count extra : ℕ) (result : Option (State services))
      → count ≤ 3
      → extra ≤ 1
      → Reaches services broker count extra result
      → Reaches services broker 3 1 result
  within broker count extra result h k r = record {
    after = r.after;
    reached = r.reached;
    sound = r.sound;
    sequences = omega (arith, r.sequences);
    requests = omega (arith, r.requests);
  }

  pub handle_started-Reaches :
      (now : String) (id : RequestId) (agent_id session : String) (runtime : ProviderRuntime)
      (broker : State services)
      → AreSound services broker.agents
      → Reaches services broker 3 1
          (some (handle_started services now id agent_id session runtime broker))
  unfolding handle_started remove_stale
  handle_started-Reaches now id agent_id session runtime broker v =
      let kept = remove_stale services broker agent_id session in
      let w : AreSound services kept.agents = filter-AreSound _ broker.agents v in
      elim (Option-cases (find agent_id kept.agents)) [
        | inl e ↦ rw (e, handle_started) (quiet broker kept w refl refl)
        | inr (agent, e) ↦
            let s = find-AreSound services agent_id kept.agents agent e w in
            let summary = record agent.summary {
              provider_session_id = some session;
              runtime = some runtime;
              state = idle;
              updated_at = now;
            } in
            let begun = record agent { summary = summary } in
            let placed = record kept { agents = put agent_id begun kept.agents } in
            let told =
              send_runtime_response services placed id
                (λ public_id. agent_response public_id summary) in
            let t =
              send_runtime_response-Tells placed id
                (λ public_id. agent_response public_id summary) in
            let n = notify_state-Tells services told in
            rw (e, handle_started)
              (quiet broker (notify_state services told)
                (rw (n.agents, t.agents)
                  (put-AreSound services agent_id begun kept.agents
                    (record {
                      approvals = λ h. cc;
                      questions = λ h. cc;
                      queue = s.queue;
                      rendered = s.rendered;
                    })
                    w))
                (n.replay ∙ t.replay) (n.requests ∙ t.requests))
      ]

  replace_transcript_history-Reaches :
      (broker : State services) (agent_id : String) (messages : List Value)
      → AreSound services broker.agents
      → Reaches services broker 3 1 (replace_transcript_history services broker agent_id messages)
  unfolding replace_transcript_history
  replace_transcript_history-Reaches broker agent_id messages v =
      elim (Option-cases (find agent_id broker.agents)) [
        | inl e ↦ rw (e, replace_transcript_history) (quiet broker broker v refl refl)
        | inr (agent, e) ↦
            let s = find-AreSound services agent_id broker.agents agent e v in
            let (t', p, f, u, _) =
              replace_history-Updates services.is_alphanumeric agent.transcript messages
                agent.summary.provider agent.summary.provider_options.model in
            let shown = record agent { transcript = t' } in
            let after = record broker { agents = put agent_id shown broker.agents } in
            let t = send_ready-Tells services after (transcript_patch agent_id p) in
            rw (e, replace_transcript_history, f)
              (quiet broker (send_ready services after (transcript_patch agent_id p))
                (rw t.agents (
                  put-AreSound services agent_id shown broker.agents
                    (record {
                      approvals = s.approvals;
                      questions = s.questions;
                      queue = s.queue;
                      rendered = u.rendered;
                    })
                    v))
                t.replay t.requests)
      ]

  pub handle_runtime_response-Reaches :
      (broker : State services) (id : RequestId) (result : Value)
      → AreSound services broker.agents
      → Reaches services broker 3 1 (handle_runtime_response services broker id result)
  unfolding handle_runtime_response
  handle_runtime_response-Reaches broker id result v =
      let noted = record broker {
        queued_runtime_requests =
            filter (λ other. not (same_id other id)) broker.queued_runtime_requests;
      } in
      let sent = send_runtime_response services noted id (λ public_id. response public_id result) in
      let t = send_runtime_response-Tells noted id (λ public_id. response public_id result) in
      let w : AreSound services sent.agents = rw t.agents v in
      elim (Option-cases (history_result services noted id result)) [
        | inl e ↦ rw (e, handle_runtime_response) (quiet broker sent w t.replay t.requests)
        | inr ((agent_id, messages), e) ↦
            let r = replace_transcript_history-Reaches sent agent_id messages w in
            record {
              after = r.after;
              reached = rw (e, handle_runtime_response) r.reached;
              sound = r.sound;
              sequences = omega (arith, r.sequences, ap (λ b. b.next_sequence) t.replay);
              requests = omega (arith, r.requests, t.requests);
            }
      ]
