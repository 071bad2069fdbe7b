-- ===== src/Broker/Sound.antt =====
-- embedded.rs: what holds of every agent, and that each event's steps keep it.
use nvim_agents_zzz.Prelude.{
  ℕ, ◌-◌, ◌≤◌, ◌<◌, ◌≡◌, refl, ◌∙◌, String, true, Option, none, str_eq, ◌==◌, length, Bool-cases,
  inl, inr, arith,
}
use nvim_agents_zzz.Protocol.{
  EventEnvelope, running, interrupted, completed, failed, waiting_input, waiting_approval,
}
use nvim_agents_zzz.Transcript.Rendered.{IsRendered}
use nvim_agents_zzz.Broker.Agents.{Services, ManagedAgent}
use nvim_agents_zzz.Broker.State.{
  advance, restore_waiting_state, apply_event_state, turn_id, was_interrupted, with_turn,
  with_state, with_approvals, saturating_suc, has_changed,
}

module _ (services : Services) where
  -- An agent that waits for an approval or an answer has one pending; its queue is bounded, and its
  -- transcript's lines are its messages'.
  pub record IsSound (agent : ManagedAgent services) : Type 0 where
    pub approvals : agent.summary.state ≡ waiting_approval → 0 < agent.summary.pending_approvals
    pub questions : agent.summary.state ≡ waiting_input → 0 < agent.pending_questions
    pub queue : length agent.queued_prompts ≤ 32
    pub rendered : IsRendered services.is_alphanumeric agent.transcript

  abbrev Waits : ManagedAgent services → Type 0
  Waits agent =
      (agent.summary.state ≡ waiting_approval → 0 < agent.summary.pending_approvals)
      × (agent.summary.state ≡ waiting_input → 0 < agent.pending_questions)

  restore_waiting_state-Waits :
      (agent : ManagedAgent services) → Waits (restore_waiting_state services agent)
  unfolding restore_waiting_state
  restore_waiting_state-Waits agent = (λ h. ground (arith, h), λ h. ground (arith, h))

  -- What holds of each outcome of an event holds of the agent after any event.
  advance-cases :
      (P : ManagedAgent services → Type 0) (agent : ManagedAgent services) (event : EventEnvelope)
      → ((turn : Option String) → P (with_turn services agent running turn))
      → P (with_turn services agent interrupted none)
      → P (with_turn services agent completed none)
      → P (with_turn services agent failed none)
      → P (
          with_state services
            (with_approvals services agent (saturating_suc agent.summary.pending_approvals))
            waiting_approval)
      → ((agent.summary.pending_approvals == 0) ≡ true
          → P (
              with_state services
                (record agent { pending_questions = saturating_suc agent.pending_questions })
                waiting_input))
      → P (record agent { pending_questions = saturating_suc agent.pending_questions })
      → ((other : ManagedAgent services)
          → (other.queued_prompts ≡ agent.queued_prompts) × (other.transcript ≡ agent.transcript)
          → P (restore_waiting_state services other))
      → P agent
      → P (advance services agent event)
  unfolding advance
  advance-cases P agent event started ended done broken approval question more resolved same =
      elim (Bool-cases (str_eq event.event_type "turn.started")) [
        | inl e ↦ rw e (started (turn_id services event.payload))
        | inr e ↦ rw e (elim (Bool-cases (str_eq event.event_type "turn.completed")) [
          | inl f ↦ rw f (elim (Bool-cases (was_interrupted services event.payload)) [
            | inl g ↦ rw g ended
            | inr g ↦ rw g done
          ])
          | inr f ↦ rw f (elim (Bool-cases (str_eq event.event_type "turn.failed")) [
            | inl g ↦ rw g broken
            | inr g ↦ rw g (elim (Bool-cases (str_eq event.event_type "approval.requested")) [
              | inl h ↦ rw h approval
              | inr h ↦ rw h (elim (Bool-cases (str_eq event.event_type "question.requested")) [
                | inl i ↦ rw i (elim (Bool-cases (agent.summary.pending_approvals == 0)) [
                  | inl j ↦ rw j (question j)
                  | inr j ↦ rw j more
                ])
                | inr i ↦ rw i (elim (Bool-cases (str_eq event.event_type "approval.resolved")) [
                  | inl j ↦ rw j (
                      resolved (with_approvals services agent (agent.summary.pending_approvals - 1))
                        (refl, refl))
                  | inr j ↦ rw j (elim (Bool-cases (str_eq event.event_type "question.resolved")) [
                    | inl k ↦ rw k (
                        resolved (record agent { pending_questions = agent.pending_questions - 1 })
                          (refl, refl))
                    | inr k ↦ rw k same
                  ])
                ])
              ])
            ])
          ])
        ])
      ]

  saturating_suc-pos : (n : ℕ) → 0 < saturating_suc n
  saturating_suc-pos n = omega arith

  advance-Waits :
      (agent : ManagedAgent services) (event : EventEnvelope)
      → Waits agent
      → Waits (advance services agent event)
  advance-Waits agent event (w, v) =
      let approvals = saturating_suc-pos agent.summary.pending_approvals in
      let questions = saturating_suc-pos agent.pending_questions in
      advance-cases Waits agent event (λ turn. (λ h. cc, λ h. cc)) (λ h. cc, λ h. cc)
        (λ h. cc, λ h. cc) (λ h. cc, λ h. cc) (λ h. approvals, λ h. cc)
        (λ _. (λ h. cc, λ h. questions)) (w, λ h. questions)
        (λ other _. restore_waiting_state-Waits other) (w, v)

  -- Only the state, the turn and the two counts are changed.
  abbrev Keeps : ManagedAgent services → ManagedAgent services → Type 0
  Keeps before after =
      (after.queued_prompts ≡ before.queued_prompts) × (after.transcript ≡ before.transcript)

  restore_waiting_state-Keeps :
      (agent : ManagedAgent services) → Keeps agent (restore_waiting_state services agent)
  unfolding restore_waiting_state
  restore_waiting_state-Keeps agent = (ground arith, ground arith)

  advance-Keeps :
      (agent : ManagedAgent services) (event : EventEnvelope)
      → Keeps agent (advance services agent event)
  advance-Keeps agent event =
      advance-cases (Keeps agent) agent event (λ _. (refl, refl)) (refl, refl) (refl, refl)
        (refl, refl) (refl, refl) (λ _. (refl, refl)) (refl, refl)
        (λ other (q, t). let (r, s) = restore_waiting_state-Keeps other in (r ∙ q, s ∙ t))
        (refl, refl)

  -- A provider's event leaves a sound agent sound.
  pub apply_event_state-IsSound :
      (now : String) (agent : ManagedAgent services) (event : EventEnvelope)
      → IsSound agent
      → IsSound (apply_event_state services now agent event).0
  unfolding apply_event_state
  apply_event_state-IsSound now agent event v =
      let (w, q) = advance-Waits agent event (v.approvals, v.questions) in
      let (queue, transcript) = advance-Keeps agent event in
      elim (Bool-cases (has_changed services agent (advance services agent event))) [
        | inl e ↦ rw e (record {
          approvals = w;
          questions = q;
          queue = rw queue v.queue;
          rendered = rw transcript v.rendered;
        })
        | inr e ↦ rw e (record {
          approvals = w;
          questions = q;
          queue = rw queue v.queue;
          rendered = rw transcript v.rendered;
        })
      ]
