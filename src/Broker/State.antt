-- ===== src/Broker/State.antt =====
-- embedded.rs: an agent's state, as the provider's events change it.
use nvim_agents_zzz.Prelude.{
  ℕ, ◌+◌, ◌-◌, String, Bool, true, false, ◌||◌, not, Option, none, some, min, str_eq, if◌then◌else◌,
  ◌>>=◌, ◌==◌, ltb, is_some, or_else,
}
use nvim_agents_zzz.Protocol.{
  Value, EventEnvelope, AgentState, get, index, as_str, is_text, starting, idle, running,
  waiting_input, waiting_approval, completed, interrupted, failed, disconnected,
}
use nvim_agents_zzz.Replay.{u64_max}
use nvim_agents_zzz.Broker.Agents.{Services, ManagedAgent}

abbrev state_code : AgentState → ℕ
state_code starting = 0
state_code idle = 1
state_code running = 2
state_code waiting_input = 3
state_code waiting_approval = 4
state_code completed = 5
state_code interrupted = 6
state_code failed = 7
state_code disconnected = 8

-- `==` on states and on optional texts
abbrev pub same_state : AgentState → AgentState → Bool
same_state a b = state_code a == state_code b

abbrev same_text : Option String → Option String → Bool
same_text none none = true
same_text (some a) (some b) = str_eq a b
same_text a b = false

-- `saturating_add(1)` on a `u64`
abbrev pub saturating_suc : ℕ → ℕ
saturating_suc n = min (n + 1) u64_max

module _ (services : Services) where
  -- The state of an agent that waits for as many answers as it says.
  abbrev waiting_state : ManagedAgent services → AgentState
  waiting_state agent =
      if ltb 0 agent.summary.pending_approvals
      then waiting_approval
      else if ltb 0 agent.pending_questions
      then waiting_input
      else if is_some agent.summary.active_turn_id
      then running
      else idle

  unfoldable pub restore_waiting_state : ManagedAgent services → ManagedAgent services
  restore_waiting_state agent =
      if same_state agent.summary.state disconnected || same_state agent.summary.state failed
      then agent
      else record agent { summary = record agent.summary { state = waiting_state agent } }

  -- `summary.state` and `active_turn_id`, set together
  abbrev pub with_turn : ManagedAgent services → AgentState → Option String → ManagedAgent services
  with_turn agent state turn = record agent {
    summary = record agent.summary { state = state; active_turn_id = turn };
  }

  abbrev pub with_approvals : ManagedAgent services → ℕ → ManagedAgent services
  with_approvals agent n = record agent { summary = record agent.summary { pending_approvals = n } }

  abbrev pub with_state : ManagedAgent services → AgentState → ManagedAgent services
  with_state agent state = record agent { summary = record agent.summary { state = state } }

  -- The turn that a payload names.
  unfoldable pub turn_id : Value → Option String
  turn_id payload =
      or_else (get payload "turn" >>= λ turn. get turn "id") (get payload "turnId") >>= as_str

  unfoldable pub was_interrupted : Value → Bool
  was_interrupted payload =
      is_text (index (index payload "turn") "status") "interrupted"
      || is_text (index payload "subtype") "interrupted"

  -- The `match` of `apply_event_state`.
  unfoldable pub advance : ManagedAgent services → EventEnvelope → ManagedAgent services
  unfolding restore_waiting_state turn_id was_interrupted
  advance agent event =
      let approvals = agent.summary.pending_approvals in
      let questions = agent.pending_questions in
      if str_eq event.event_type "turn.started"
      then with_turn agent running (turn_id event.payload)
      else if str_eq event.event_type "turn.completed"
      then with_turn agent (if was_interrupted event.payload then interrupted else completed) none
      else if str_eq event.event_type "turn.failed"
      then with_turn agent failed none
      else if str_eq event.event_type "approval.requested"
      then with_state (with_approvals agent (saturating_suc approvals)) waiting_approval
      else if str_eq event.event_type "question.requested"
      then (let asked = record agent { pending_questions = saturating_suc questions } in
          if approvals == 0 then with_state asked waiting_input else asked)
      else if str_eq event.event_type "approval.resolved"
      then restore_waiting_state (with_approvals agent (approvals - 1))
      else if str_eq event.event_type "question.resolved"
      then restore_waiting_state (record agent { pending_questions = questions - 1 })
      else agent

  unfoldable pub has_changed : ManagedAgent services → ManagedAgent services → Bool
  has_changed before after =
      not (same_state before.summary.state after.summary.state)
      || not (same_text before.summary.active_turn_id after.summary.active_turn_id)
      || not (before.summary.pending_approvals == after.summary.pending_approvals)
      || not (before.pending_questions == after.pending_questions)

  -- `apply_event_state` on an agent that is there, and whether it changed.
  unfoldable pub apply_event_state :
      String → ManagedAgent services → EventEnvelope → ManagedAgent services × Bool
  unfolding advance has_changed
  apply_event_state now agent event =
      let after = advance agent event in
      if has_changed agent after
      then (record after { summary = record after.summary { updated_at = now } }, true)
      else (after, false)
