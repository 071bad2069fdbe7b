-- ===== src/Broker/Recorded.antt =====
-- embedded.rs: an event is recorded, sent and applied, and every agent stays sound.
use nvim_agents_zzz.Prelude.{
  ℕ, ◌+◌, ◌≤◌, ◌≡◌, refl, subst, String, Option, some, List, [], ◌∷◌, str_eq, All, Bool-cases,
  Option-cases, inl, inr, arith,
}
use nvim_agents_zzz.Protocol.{EventEnvelope}
use nvim_agents_zzz.Transcript.Mirror.{apply_event-Succeeds, Succeeds-cases}
use nvim_agents_zzz.Broker.Agents.{Services, ManagedAgent, find, put, client_disconnected}
use nvim_agents_zzz.Broker.State.{apply_event_state}
use nvim_agents_zzz.Broker.Core.{
  State, Outgoing, send, send_ready, notify_state, transcript_patch, is_ready,
}
use nvim_agents_zzz.Broker.Events.{
  give_up, needs_client, queue_client_disconnect, change_state, change_transcript,
}
use nvim_agents_zzz.Broker.Sound.{IsSound, apply_event_state-IsSound}

module _ {A : Type 0} (P : A → Type 0) where
  find-All :
      (key : String) (xs : List (String × A)) (a : A)
      → find key xs ≡ some a
      → All (λ entry. P entry.1) xs
      → P a
  unfolding find
  find-All key [] a h v = cc
  find-All key (entry ∷ xs) a h v = elim (Bool-cases (str_eq entry.0 key)) [
    | inl e ↦ let same : entry.1 ≡ a = ground (arith, e, h) in subst P same v.0
    | inr e ↦ find-All key xs a (rw e at h) v.1
  ]

  put-All :
      (key : String) (a : A) (xs : List (String × A))
      → P a
      → All (λ entry. P entry.1) xs
      → All (λ entry. P entry.1) (put key a xs)
  unfolding put
  put-All key a [] p v = tt
  put-All key a (entry ∷ xs) p v = elim (Bool-cases (str_eq entry.0 key)) [
    | inl e ↦ rw e (p, v.1)
    | inr e ↦ rw e (v.0, put-All key a xs p v.1)
  ]

module _ (services : Services) where
  abbrev pub AreSound : List (String × ManagedAgent services) → Type 0
  AreSound = All (λ entry. IsSound services entry.1)

  pub find-AreSound :
      (key : String) (agents : List (String × ManagedAgent services))
      (agent : ManagedAgent services)
      → find key agents ≡ some agent
      → AreSound agents
      → IsSound services agent
  find-AreSound = find-All (IsSound services)

  pub put-AreSound :
      (key : String) (agent : ManagedAgent services)
      (agents : List (String × ManagedAgent services))
      → IsSound services agent
      → AreSound agents
      → AreSound (put key agent agents)
  put-AreSound = put-All (IsSound services)

  -- What a message to the client leaves as it is.
  pub record Tells (before after : State services) : Type 0 where
    pub agents : after.agents ≡ before.agents
    pub replay : after.replay ≡ before.replay
    pub requests : after.next_runtime_request ≡ before.next_runtime_request

  pub send_ready-Tells :
      (broker : State services) (message : Outgoing)
      → Tells broker (send_ready services broker message)
  unfolding send_ready send
  send_ready-Tells broker message = elim (Bool-cases (is_ready broker.phase)) [
    | inl e ↦ rw e (record { agents = refl; replay = refl; requests = refl })
    | inr e ↦ rw e (record { agents = refl; replay = refl; requests = refl })
  ]

  pub send_ready-pending :
      (broker : State services) (message : Outgoing)
      → (send_ready services broker message).pending_runtime_requests
        ≡ broker.pending_runtime_requests
  unfolding send_ready send
  send_ready-pending broker message = elim (Bool-cases (is_ready broker.phase)) [
    | inl e ↦ rw e refl
    | inr e ↦ rw e refl
  ]

  pub notify_state-pending :
      (broker : State services)
      → (notify_state services broker).pending_runtime_requests ≡ broker.pending_runtime_requests
  unfolding notify_state send_ready send
  notify_state-pending broker = elim (Bool-cases (is_ready broker.phase)) [
    | inl e ↦ rw e refl
    | inr e ↦ rw e refl
  ]

  pub notify_state-Tells : (broker : State services) → Tells broker (notify_state services broker)
  unfolding notify_state
  notify_state-Tells broker =
      let t = send_ready-Tells _ _ in
      record { agents = t.agents; replay = t.replay; requests = t.requests }

  queue_client_disconnect-IsSound :
      (agent : ManagedAgent services)
      → IsSound services agent
      → IsSound services (queue_client_disconnect services agent)
  unfolding queue_client_disconnect
  queue_client_disconnect-IsSound agent s =
      elim (Option-cases (services.try_send agent.commands client_disconnected)) [
        | inl e ↦ rw (e, queue_client_disconnect) s
        | inr (commands, e) ↦
            rw (e, queue_client_disconnect)
              (record {
                approvals = s.approvals;
                questions = s.questions;
                queue = s.queue;
                rendered = s.rendered;
              })
      ]

  pub give_up-AreSound :
      (broker : State services) (event : EventEnvelope)
      → AreSound broker.agents
      → AreSound (give_up services broker event).agents
        × ((give_up services broker event).replay ≡ broker.replay)
        × ((give_up services broker event).next_runtime_request ≡ broker.next_runtime_request)
  unfolding give_up queue_client_disconnect
  give_up-AreSound broker event v = elim (Option-cases (find event.agent_id broker.agents)) [
    | inl e ↦ rw (e, give_up) (v, refl, refl)
    | inr (agent, e) ↦
        let s = find-AreSound event.agent_id broker.agents agent e v in
        elim (Bool-cases (needs_client services broker event)) [
          | inr f ↦ rw (e, give_up, f) (v, refl, refl)
          | inl f ↦
              rw (e, give_up, f)
                (
                  put-AreSound event.agent_id (queue_client_disconnect services agent) broker.agents
                      (queue_client_disconnect-IsSound agent s) v,
                  refl,
                  refl,
                )
        ]
  ]

  pub change_state-AreSound :
      (now : String) (broker : State services) (event : EventEnvelope)
      → AreSound broker.agents
      → AreSound (change_state services now broker event).0.agents
        × ((change_state services now broker event).0.replay ≡ broker.replay)
        × ((change_state services now broker event).0.next_runtime_request
            ≡ broker.next_runtime_request)
  unfolding change_state
  change_state-AreSound now broker event v =
      elim (Option-cases (find event.agent_id broker.agents)) [
        | inl e ↦ rw (e, change_state) (v, refl, refl)
        | inr (agent, e) ↦
            let s = find-AreSound event.agent_id broker.agents agent e v in
            rw (e, change_state)
              (
                put-AreSound event.agent_id (apply_event_state services now agent event).0
                    broker.agents (apply_event_state-IsSound services now agent event s) v,
                refl,
                refl,
              )
      ]

  -- A result that was reached, with every agent sound, up to so many events and requests later.
  pub record Reaches (before : State services) (count extra : ℕ) (result : Option (State services))
      : Type 0 where
    pub after : State services
    pub reached : result ≡ some after
    pub sound : AreSound after.agents
    pub sequences : after.replay.next_sequence ≤ before.replay.next_sequence + count
    pub requests : after.next_runtime_request ≤ before.next_runtime_request + extra

  pub change_transcript-AreSound :
      (broker : State services) (event : EventEnvelope)
      → AreSound broker.agents
      → (after : State services) × (change_transcript services broker event ≡ some after)
        × AreSound after.agents
        × (after.replay ≡ broker.replay)
        × (after.next_runtime_request ≡ broker.next_runtime_request)
  unfolding change_transcript
  change_transcript-AreSound broker event v =
      elim (Option-cases (find event.agent_id broker.agents)) [
        | inl e ↦ (broker, rw (e, change_transcript) refl, v, refl, refl)
        | inr (agent, e) ↦
            let s = find-AreSound event.agent_id broker.agents agent e v in
            let model = agent.summary.provider_options.model in
            elim (Succeeds-cases services.is_alphanumeric agent.transcript _ (
              apply_event-Succeeds services.is_alphanumeric agent.transcript event model
                s.rendered)) [
                  | inl f ↦ (
                    record broker { agents = put event.agent_id agent broker.agents },
                    rw (e, change_transcript, f) refl,
                    put-AreSound event.agent_id agent broker.agents s v,
                    refl,
                    refl,
                  )
                  | inr (t', p, f, u) ↦
                      let after = record broker {
                        agents =
                            put event.agent_id (record agent { transcript = t' }) broker.agents;
                      } in
                      let t = send_ready-Tells after (transcript_patch event.agent_id p) in
                      (
                        send_ready services after (transcript_patch event.agent_id p),
                        rw (e, change_transcript, f) refl,
                        rw t.agents (
                            put-AreSound event.agent_id (record agent { transcript = t' })
                              broker.agents
                              (record {
                                approvals = s.approvals;
                                questions = s.questions;
                                queue = s.queue;
                                rendered = u.rendered;
                              })
                              v),
                        t.replay,
                        t.requests,
                      )
                ]
      ]
