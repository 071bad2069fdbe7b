-- ===== src/Broker/Served.antt =====
-- embedded.rs: every request of a client is replied to once.
use nvim_agents_zzz.Prelude.{
  ◌+◌, ◌≡◌, refl, Bool, true, false, Option, none, some, List, ◌>>=◌, Bool-cases, Option-cases, inl,
  inr, true-false,
}
use nvim_agents_zzz.Protocol.{RequestId, same_id}
use nvim_agents_zzz.Broker.Agents.{Services}
use nvim_agents_zzz.Broker.Core.{
  State, Outgoing, ConnectionPhase, await_initialize, await_initialized, ready, is_durable, error,
}
use nvim_agents_zzz.Broker.Connection.{InitializeParams, initialize, is_supported}
use nvim_agents_zzz.Broker.Checkout.{start}
use nvim_agents_zzz.Broker.Answered.{one_if, owed}
use nvim_agents_zzz.Broker.Replied.{
  RepliesOnce, IsServing, told-RepliesOnce, changed-RepliesOnce, history-RepliesOnce,
  respond_approval-RepliesOnce, respond_question-RepliesOnce,
}
use nvim_agents_zzz.Broker.Shown.{
  list_agents-RepliesOnce, attach_agent-RepliesOnce, transcript-RepliesOnce, replay-RepliesOnce,
  add_context-RepliesOnce, diff-RepliesOnce, workspace_diff-RepliesOnce,
}
use nvim_agents_zzz.Broker.Launched.{
  archive_agent-RepliesOnce, start_agent-RepliesOnce, resume_agent-RepliesOnce,
  fork_agent-RepliesOnce, handoff_workspace-RepliesOnce,
}
use nvim_agents_zzz.Broker.Dispatch.{
  Request, initialize_with, agent_list, workspace_handoff, diff_of_workspace, agent_start,
  agent_attach, agent_history, agent_transcript, agent_input, agent_interrupt, agent_resume,
  agent_fork, agent_archive, approval_respond, question_respond, context_add, agent_diff,
  agent_replay, broker_shutdown, provider_request, unknown, is_initialize, Surroundings, serve,
  ends, before_initialize, handle_in, handle_request,
}

-- All but inputs, interruptions and the requests that ask a provider.
abbrev pub is_covered : Request → Bool
is_covered (agent_input kind params) = false
is_covered (agent_interrupt params) = false
is_covered (provider_request params) = false
is_covered request = true

module _ (services : Services) (around : Surroundings services) where
  serve-RepliesOnce :
      (broker : State services) (sent : List Outgoing) (other id : RequestId) (request : Request)
      → IsServing services broker sent
      → is_covered request ≡ true
      → RepliesOnce services broker other id (serve services around id request broker)
  unfolding serve
  serve-RepliesOnce broker sent other id (initialize_with params) s h =
      told-RepliesOnce services broker sent other id _ s refl
  serve-RepliesOnce broker sent other id agent_list s h =
      list_agents-RepliesOnce services broker sent other id s
  serve-RepliesOnce broker sent other id (workspace_handoff params) s h =
      handoff_workspace-RepliesOnce services broker sent other id s around.launching around.now
        around.closing params
  serve-RepliesOnce broker sent other id (diff_of_workspace params) s h =
      workspace_diff-RepliesOnce services broker sent other id s around.from_utf8_lossy
        around.run_diff _ params
  serve-RepliesOnce broker sent other id (agent_start params) s h =
      start_agent-RepliesOnce services broker sent other id s around.launching around.now params
        start
  serve-RepliesOnce broker sent other id (agent_attach params) s h =
      attach_agent-RepliesOnce services broker sent other id s params
  serve-RepliesOnce broker sent other id (agent_history params) s h =
      history-RepliesOnce services broker sent other id around.now params s
  serve-RepliesOnce broker sent other id (agent_transcript params) s h =
      transcript-RepliesOnce services broker sent other id s params
  serve-RepliesOnce broker sent other id (agent_input kind params) s h = absurd (true-false h)
  serve-RepliesOnce broker sent other id (agent_interrupt params) s h = absurd (true-false h)
  serve-RepliesOnce broker sent other id (agent_resume params) s h =
      resume_agent-RepliesOnce services broker sent other id s around.launching around.now params
  serve-RepliesOnce broker sent other id (agent_fork params) s h =
      fork_agent-RepliesOnce services broker sent other id s around.launching around.now params
  serve-RepliesOnce broker sent other id (agent_archive params) s h =
      archive_agent-RepliesOnce services broker sent other id s around.now params
  serve-RepliesOnce broker sent other id (approval_respond params) s h =
      respond_approval-RepliesOnce services broker sent other id around.now params s
  serve-RepliesOnce broker sent other id (question_respond params) s h =
      respond_question-RepliesOnce services broker sent other id around.now params s
  serve-RepliesOnce broker sent other id (context_add params) s h =
      add_context-RepliesOnce services broker sent other id s around.paths params
  serve-RepliesOnce broker sent other id (agent_diff params) s h =
      diff-RepliesOnce services broker sent other id s around.from_utf8_lossy around.run_diff params
  serve-RepliesOnce broker sent other id (agent_replay params) s h =
      replay-RepliesOnce services broker sent other id s params
  serve-RepliesOnce broker sent other id (broker_shutdown false) s h =
      told-RepliesOnce services broker sent other id _ s refl
  serve-RepliesOnce broker sent other id (broker_shutdown true) s h =
      elim (Bool-cases (is_durable broker.mode)) [
        | inl e ↦ rw e (told-RepliesOnce services broker sent other id _ s refl)
        | inr e ↦ rw e (told-RepliesOnce services broker sent other id _ s refl)
      ]
  serve-RepliesOnce broker sent other id (provider_request params) s h = absurd (true-false h)
  serve-RepliesOnce broker sent other id unknown s h =
      told-RepliesOnce services broker sent other id _ s refl

  initialize-RepliesOnce :
      (broker : State services) (sent : List Outgoing) (other id : RequestId)
      (params : Option InitializeParams)
      → IsServing services broker sent
      → RepliesOnce services broker other id
          (some (initialize services around.reported id params broker))
  unfolding initialize
  initialize-RepliesOnce broker sent other id none s =
      told-RepliesOnce services broker sent other id _ s refl
  initialize-RepliesOnce broker sent other id (some parsed) s =
      elim (Bool-cases (is_supported services parsed)) [
        | inr e ↦ rw e (told-RepliesOnce services broker sent other id _ s refl)
        | inl e ↦ rw e (
            changed-RepliesOnce services broker _ sent other id _ s
              (record { output = refl; generation = refl; pending = refl }) refl)
      ]

  before_initialize-RepliesOnce :
      (broker : State services) (sent : List Outgoing) (other id : RequestId) (request : Request)
      → IsServing services broker sent
      → RepliesOnce services broker other id
          (some (before_initialize services around id request broker))
  before_initialize-RepliesOnce broker sent other id request s =
      elim (Option-cases (is_initialize request)) [
        | inl e ↦
            rw (e, before_initialize) (told-RepliesOnce services broker sent other id _ s refl)
        | inr (params, e) ↦
            rw (e, before_initialize) (initialize-RepliesOnce broker sent other id params s)
      ]

  -- The result of a request, with whether the broker ends.
  pub record Replied (before : State services) (other request_id : RequestId)
      (result : Option (State services × Bool)) : Type 0 where
    pub after : State services
    pub ending : Bool
    pub reached : result ≡ some (after, ending)
    pub counts :
        owed services other after ≡ owed services other before + one_if (same_id other request_id)

  ending_Replied :
      (broker : State services) (other id : RequestId) (result : Option (State services))
      (ending : Bool)
      → RepliesOnce services broker other id result
      → Replied broker other id (result >>= λ after. some (after, ending))
  ending_Replied broker other id result ending r = record {
    after = r.after;
    ending = ending;
    reached = rw r.reached refl;
    counts = r.counts;
  }

  handle_in-Replied :
      (phase : ConnectionPhase) (broker : State services) (sent : List Outgoing)
      (other id : RequestId) (request : Request)
      → IsServing services broker sent
      → is_covered request ≡ true
      → Replied broker other id (handle_in services around phase id request broker)
  unfolding handle_in
  handle_in-Replied await_initialize broker sent other id request s h =
      ending_Replied broker other id _ false
        (before_initialize-RepliesOnce broker sent other id request s)
  handle_in-Replied await_initialized broker sent other id request s h =
      ending_Replied broker other id _ false (
        told-RepliesOnce services broker sent other id
          (error (some id) 32003 "Broker is waiting for initialized" none) s refl)
  handle_in-Replied ready broker sent other id request s h =
      ending_Replied broker other id _ (ends services around request broker)
        (serve-RepliesOnce broker sent other id request s h)

  -- In every phase of the connection, a request that is covered has a result in which it has one reply more, at
  -- hand or owed by a runtime, and every other request has as many as before.
  pub handle_request-Replied :
      (broker : State services) (sent : List Outgoing) (other id : RequestId) (request : Request)
      → IsServing services broker sent
      → is_covered request ≡ true
      → Replied broker other id (handle_request services around id request broker)
  unfolding handle_request
  handle_request-Replied broker sent other id request s h =
      handle_in-Replied broker.phase broker sent other id request s h
