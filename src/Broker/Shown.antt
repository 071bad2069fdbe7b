-- ===== src/Broker/Shown.antt =====
-- embedded.rs: a request for a view of the agents, or with a context for one, is replied to once.
use nvim_agents_zzz.Prelude.{
  ℕ, ◌≡◌, refl, String, ◌||◌, not, Option, none, some, List, [], ◌∷◌, ◌++◌, Result, Bool-cases,
  Option-cases, Result-cases, inl, inr, ◌⊎◌,
}
use nvim_agents_zzz.Protocol.{RequestId, EventEnvelope, disconnected}
use nvim_agents_zzz.Replay.{ReplayResult, events, resync_required, replay_after}
use nvim_agents_zzz.Broker.Agents.{Services, put}
use nvim_agents_zzz.Broker.State.{same_state}
use nvim_agents_zzz.Broker.Core.{State, Outgoing}
use nvim_agents_zzz.Broker.Context.{Paths, validate_context, validate_context_collection}
use nvim_agents_zzz.Broker.Views.{
  ContextParams, DiffOutput, list_agents, attach_agent, transcript, replay, add_context,
  diff_directory, diff, workspace_diff,
}
use nvim_agents_zzz.Broker.Replied.{
  RepliesOnce, IsServing, told-RepliesOnce, changed-RepliesOnce, with_agent-RepliesOnce,
  with_agent_id-RepliesOnce,
}

module _ (services : Services) (broker : State services) (sent : List Outgoing)
    (other request_id : RequestId) (s : IsServing services broker sent) where
  abbrev Once : Option (State services) → Type 0
  Once = RepliesOnce services broker other request_id

  pub list_agents-RepliesOnce : Once (list_agents services request_id broker)
  unfolding list_agents
  list_agents-RepliesOnce = told-RepliesOnce services broker sent other request_id _ s refl

  pub attach_agent-RepliesOnce :
      (params : Option String) → Once (attach_agent services request_id params broker)
  unfolding attach_agent
  attach_agent-RepliesOnce params =
      with_agent_id-RepliesOnce services broker sent other request_id params _ s
        (λ agent_id agent. told-RepliesOnce services broker sent other request_id _ s refl)

  pub transcript-RepliesOnce :
      (params : Option String) → Once (transcript services request_id params broker)
  unfolding transcript
  transcript-RepliesOnce params =
      with_agent_id-RepliesOnce services broker sent other request_id params _ s
        (λ agent_id agent. told-RepliesOnce services broker sent other request_id _ s refl)

  ReplayResult-cases :
      (r : ReplayResult)
      → ((es : List EventEnvelope) × (r ≡ events es))
        ⊎ ((oldest : ℕ) × (latest : ℕ) × (r ≡ resync_required oldest latest))
  ReplayResult-cases (events es) = inl (es, refl)
  ReplayResult-cases (resync_required oldest latest) = inr (oldest, latest, refl)

  pub replay-RepliesOnce : (params : Option ℕ) → Once (replay services request_id params broker)
  unfolding replay
  replay-RepliesOnce none = told-RepliesOnce services broker sent other request_id _ s refl
  replay-RepliesOnce (some cursor) = elim (ReplayResult-cases (replay_after broker.replay cursor)) [
    | inl (es, e) ↦ rw (e, replay) (told-RepliesOnce services broker sent other request_id _ s refl)
    | inr (oldest, latest, e) ↦
        rw (e, replay) (told-RepliesOnce services broker sent other request_id _ s refl)
  ]

  pub add_context-RepliesOnce :
      (paths : Paths) (params : Option ContextParams)
      → Once (add_context services paths request_id params broker)
  unfolding add_context
  add_context-RepliesOnce paths none =
      told-RepliesOnce services broker sent other request_id _ s refl
  add_context-RepliesOnce paths (some parsed) =
      with_agent-RepliesOnce services broker sent other request_id parsed.agent_id _ s (λ agent.
        elim (Bool-cases (not agent.task || same_state agent.summary.state disconnected)) [
          | inl e ↦ rw e (told-RepliesOnce services broker sent other request_id _ s refl)
          | inr e ↦ elim (Result-cases (validate_context paths parsed.context agent.summary.cwd)) [
            | inr (message, f) ↦
                rw (e, f) (told-RepliesOnce services broker sent other request_id _ s refl)
            | inl (context, f) ↦
                elim (Result-cases
                  (validate_context_collection paths (agent.pending_contexts ++ context ∷ []))) [
                    | inr (message, g) ↦
                        rw (e, f, g)
                          (told-RepliesOnce services broker sent other request_id _ s refl)
                    | inl (valid, g) ↦
                        rw (e, f, g)
                          (changed-RepliesOnce services broker
                            (record broker {
                              agents =
                                  put parsed.agent_id
                                    (record agent {
                                      pending_contexts = agent.pending_contexts ++ context ∷ [];
                                    })
                                    broker.agents;
                            })
                            sent other request_id _ s
                            (record { output = refl; generation = refl; pending = refl }) refl)
                  ]
          ]
        ])

  module _ (from_utf8_lossy : List ℕ → String) (run_diff : String → Option DiffOutput) where
    diff_directory-RepliesOnce :
        (cwd : String)
        → Once (diff_directory services from_utf8_lossy run_diff request_id cwd broker)
    unfolding diff_directory
    diff_directory-RepliesOnce cwd = elim (Option-cases (run_diff cwd)) [
      | inl e ↦
          rw (e, diff_directory) (told-RepliesOnce services broker sent other request_id _ s refl)
      | inr (output, e) ↦ elim (Bool-cases output.success) [
        | inr f ↦
            rw (e, diff_directory, f)
              (told-RepliesOnce services broker sent other request_id _ s refl)
        | inl f ↦
            rw (e, diff_directory, f)
              (told-RepliesOnce services broker sent other request_id _ s refl)
      ]
    ]

    pub diff-RepliesOnce :
        (params : Option String)
        → Once (diff services from_utf8_lossy run_diff request_id params broker)
    unfolding diff
    diff-RepliesOnce params =
        with_agent_id-RepliesOnce services broker sent other request_id params _ s
          (λ agent_id agent. diff_directory-RepliesOnce agent.summary.cwd)

    pub workspace_diff-RepliesOnce :
        (canonical_directory : String → Result String String) (params : Option String)
        → Once (
            workspace_diff services canonical_directory from_utf8_lossy run_diff request_id params
              broker)
    unfolding workspace_diff
    workspace_diff-RepliesOnce canonical_directory none =
        told-RepliesOnce services broker sent other request_id _ s refl
    workspace_diff-RepliesOnce canonical_directory (some raw) =
        elim (Result-cases (canonical_directory raw)) [
          | inr (message, e) ↦
              rw (e, workspace_diff)
                (told-RepliesOnce services broker sent other request_id _ s refl)
          | inl (cwd, e) ↦ rw (e, workspace_diff) (diff_directory-RepliesOnce cwd)
        ]
