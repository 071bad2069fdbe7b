-- ===== src/Broker/Launched.antt =====
-- embedded.rs: a request that starts, resumes, forks, archives or hands off an agent is replied to once.
use nvim_agents_zzz.Prelude.{
  ◌+◌, ◌≡◌, refl, ◌∙◌, String, false, ◌&&◌, ◌||◌, not, Option, none, some, List, [], ◌∷◌, ◌++◌, any,
  str_eq, ◌>>=◌, leb, unwrap_or, Bool-cases, Option-cases, Result-cases, inl, inr, arith, ==_iff,
}
use nvim_agents_zzz.Protocol.{Value, RequestId, same_id, Provider, ProviderOptions}
use nvim_agents_zzz.Replay.{u64_max}
use nvim_agents_zzz.Broker.Agents.{Services, find, put, remove}
use nvim_agents_zzz.Broker.Core.{
  State, Outgoing, is_durable, is_ready, summaries, send, send_ready, notify_state, broker_state,
}
use nvim_agents_zzz.Broker.Inputs.{validate_provider_options}
use nvim_agents_zzz.Broker.Requests.{runtime_request, runtime_id, asking}
use nvim_agents_zzz.Broker.Checkout.{SessionLaunch, resume, checkout_identity}
use nvim_agents_zzz.Broker.Launch.{
  Launching, StartParams, ManagedWorkspaceParams, ResolvedWorkspace, is_live, is_writer, owns_task,
  resolve_launch_workspace, workspace_launch_allowed, launched, launch_agent,
}
use nvim_agents_zzz.Broker.Sessions.{
  Closing, ResumeParams, default_options, is_active, is_at_rest, has_request, retired,
  without_agents, archived, archived_reply, retire_agent, with_contexts, archive_agent, start_agent,
  resume_agent, fork_agent, handoff_workspace,
}
use nvim_agents_zzz.Broker.Answered.{
  one_if, replies, without_pending-none, owed, Keeps, owed-Keeps, owed-send, owed-notify_state,
}
use nvim_agents_zzz.Broker.Replied.{
  RepliesOnce, IsServing, told-RepliesOnce, with_agent_id-RepliesOnce,
}

module _ (services : Services) where
  -- A change that no request notices, after which the client is still served.
  pub record Serves (before after : State services) (other : RequestId) : Type 0 where
    pub sent : List Outgoing
    pub serving : IsServing services after sent
    pub owes : owed services other after ≡ owed services other before

  notify_state-Serves :
      (before broker : State services) (sent : List Outgoing) (other : RequestId)
      → IsServing services broker sent
      → owed services other broker ≡ owed services other before
      → Serves before (notify_state services broker) other
  unfolding notify_state send_ready send
  notify_state-Serves before broker sent other s h = elim (Bool-cases (is_ready broker.phase)) [
    | inr e ↦ record {
      sent = sent;
      serving = rw e (record { connected = s.connected; room = s.room; fresh = s.fresh });
      owes = owed-notify_state services other broker ∙ h;
    }
    | inl e ↦ record {
      sent = sent ++ broker_state (summaries services broker) ∷ [];
      serving = rw (e, s.connected) (record { connected = refl; room = s.room; fresh = s.fresh });
      owes = owed-notify_state services other broker ∙ h;
    }
  ]

  retire_agent-Serves :
      (now agent_id : String) (broker : State services) (sent : List Outgoing) (other : RequestId)
      → IsServing services broker sent
      → Serves broker (retire_agent services now agent_id broker) other
  unfolding retire_agent
  retire_agent-Serves now agent_id broker sent other s =
      elim (Option-cases (find agent_id broker.agents)) [
        | inl e ↦ rw (e, retire_agent) (record { sent = sent; serving = s; owes = refl })
        | inr (agent, e) ↦
            rw (e, retire_agent)
              (notify_state-Serves broker
                (record broker { agents = put agent_id (retired services now agent) broker.agents })
                sent other (record { connected = s.connected; room = s.room; fresh = s.fresh })
                refl)
      ]

  -- What follows such a change.
  after-RepliesOnce :
      (before broker : State services) (other request_id : RequestId)
      (result : Option (State services))
      → owed services other broker ≡ owed services other before
      → RepliesOnce services broker other request_id result
      → RepliesOnce services before other request_id result
  after-RepliesOnce before broker other request_id result h r = record {
    after = r.after;
    reached = r.reached;
    counts = r.counts ∙ rw h refl;
  }

  kept-RepliesOnce :
      (before after kept : State services) (other request_id : RequestId)
      → owed services other after ≡ owed services other before + one_if (same_id other request_id)
      → Keeps services after kept
      → RepliesOnce services before other request_id (some kept)
  kept-RepliesOnce before after kept other request_id h k = record {
    after = kept;
    reached = refl;
    counts = owed-Keeps services other after kept k ∙ h;
  }

  refused-RepliesOnce :
      (broker : State services) (sent : List Outgoing) (other request_id : RequestId)
      (message : Outgoing) (k : State services × Option String → State services)
      → IsServing services broker sent
      → ((r : State services × Option String) → Keeps services r.0 (k r))
      → replies other message ≡ same_id other request_id
      → RepliesOnce services broker other request_id (some (k (send services broker message, none)))
  refused-RepliesOnce broker sent other request_id message k s keeps h =
      kept-RepliesOnce broker (send services broker message)
        (k (send services broker message, none)) other request_id
        (owed-send services other broker message sent s.connected ∙ rw h refl)
        (keeps (send services broker message, none))

  launch_agent-RepliesOnce :
      (launching : Launching services) (now : String) (broker : State services)
      (sent : List Outgoing) (other request_id : RequestId) (provider : Provider)
      (workspace : ResolvedWorkspace) (options : ProviderOptions) (launch : SessionLaunch)
      (k : State services × Option String → State services)
      → IsServing services broker sent
      → ((r : State services × Option String) → Keeps services r.0 (k r))
      → RepliesOnce services broker other request_id (
          launch_agent services launching now request_id provider workspace options launch broker
          >>= λ r. some (k r))
  unfolding launch_agent runtime_request asking
  launch_agent-RepliesOnce launching now broker sent other request_id provider workspace options
        launch k s keeps =
      let identity = checkout_identity launching.host workspace.strategy workspace.cwd in
      let room : leb u64_max broker.next_runtime_request ≡ false = ground (arith, s.room) in
      let same =
        without_pending-none (runtime_id services broker) broker.pending_runtime_requests s.fresh in
      let one = (==_iff broker.connection_generation broker.connection_generation).1 refl in
      let asked = asking services broker request_id in
      let agent =
        launched services launching now provider workspace options launch
          (runtime_id services broker) in
      let added = record asked {
        agent_order = asked.agent_order ++ launching.new_id ∷ [];
        agents = (launching.new_id, agent) ∷ remove launching.new_id asked.agents;
      } in
      elim (Bool-cases
        (workspace_launch_allowed services launching now provider workspace launch)) [
          | inr a ↦ rw a (refused-RepliesOnce broker sent other request_id _ k s keeps refl)
          | inl a ↦
              elim (Bool-cases (
                not (is_durable broker.mode)
                && any (is_live services launching now) broker.agents)) [
                  | inl l ↦
                      rw (a, l) (refused-RepliesOnce broker sent other request_id _ k s keeps refl)
                  | inr l ↦
                      elim (Bool-cases (
                        any
                          (λ entry.
                            is_writer services launching now entry.1
                            && str_eq entry.1.workspace_identity identity)
                          broker.agents)) [
                            | inl w ↦
                                rw (a, l, w)
                                  (refused-RepliesOnce broker sent other request_id _ k s keeps
                                    refl)
                            | inr w ↦
                                rw (a, l, w, room)
                                  (kept-RepliesOnce broker (notify_state services added) _ other
                                    request_id
                                    (owed-notify_state services other added
                                      ∙ rw (same, one) (omega arith))
                                    (keeps (notify_state services added, some launching.new_id)))
                          ]
                ]
        ]

  launched_state-Keeps : (r : State services × Option String) → Keeps services r.0 r.0
  launched_state-Keeps r = record { output = refl; generation = refl; pending = refl }

  with_contexts-Keeps :
      (launching : Launching services) (now : String) (contexts : List Value)
      (r : State services × Option String)
      → Keeps services r.0 (with_contexts services launching now contexts r)
  with_contexts-Keeps launching now contexts (broker, none) = record {
    output = refl;
    generation = refl;
    pending = refl;
  }
  with_contexts-Keeps launching now contexts (broker, some id) =
      elim (Option-cases (find id broker.agents)) [
        | inl e ↦
            rw (e, with_contexts) (record { output = refl; generation = refl; pending = refl })
        | inr (agent, e) ↦
            rw (e, with_contexts) (record { output = refl; generation = refl; pending = refl })
      ]

  archived-RepliesOnce :
      (broker : State services) (sent : List Outgoing) (other request_id : RequestId)
      (agent_id : String)
      → IsServing services broker sent
      → RepliesOnce services broker other request_id
          (some (archived services request_id agent_id broker))
  unfolding archived
  archived-RepliesOnce broker sent other request_id agent_id s =
      let forgotten = without_agents services (agent_id ∷ []) broker in
      let told = send services forgotten (archived_reply services request_id agent_id) in
      record {
        after = notify_state services told;
        reached = refl;
        counts =
            owed-notify_state services other told
            ∙ owed-send services other forgotten _ sent s.connected;
      }

  module _ (broker : State services) (sent : List Outgoing) (other request_id : RequestId)
      (s : IsServing services broker sent) where
    abbrev Once : Option (State services) → Type 0
    Once = RepliesOnce services broker other request_id

    pub archive_agent-RepliesOnce :
        (now : String) (params : Option String)
        → Once (archive_agent services now request_id params broker)
    unfolding archive_agent
    archive_agent-RepliesOnce now params =
        with_agent_id-RepliesOnce services broker sent other request_id params _ s
          (λ agent_id agent.
            elim (Bool-cases (is_active agent.summary.state || has_request services agent)) [
              | inl e ↦ rw e (told-RepliesOnce services broker sent other request_id _ s refl)
              | inr e ↦ elim (Bool-cases agent.task) [
                | inl t ↦
                    let r = retire_agent-Serves now agent_id broker sent other s in
                    rw (e, t)
                      (after-RepliesOnce broker (retire_agent services now agent_id broker) other
                        request_id _ r.owes
                        (archived-RepliesOnce (retire_agent services now agent_id broker) r.sent
                          other request_id agent_id r.serving))
                | inr t ↦ rw (e, t) (archived-RepliesOnce broker sent other request_id agent_id s)
              ]
            ])

    module _ (launching : Launching services) (now : String) where
      pub start_agent-RepliesOnce :
          (params : Option StartParams) (launch : SessionLaunch)
          → Once (start_agent services launching now request_id params launch broker)
      unfolding start_agent
      start_agent-RepliesOnce none launch =
          told-RepliesOnce services broker sent other request_id _ s refl
      start_agent-RepliesOnce (some parsed) launch =
          elim (Result-cases (
            validate_provider_options parsed.provider
              (unwrap_or parsed.provider_options default_options))) [
                | inr (message, e) ↦
                    rw (e, start_agent)
                      (told-RepliesOnce services broker sent other request_id _ s refl)
                | inl (valid, e) ↦
                    elim (Result-cases
                      (resolve_launch_workspace services launching now broker parsed)) [
                        | inr (refusal, f) ↦
                            rw (e, start_agent, f)
                              (told-RepliesOnce services broker sent other request_id _ s refl)
                        | inl (workspace, f) ↦
                            rw (e, start_agent, f)
                              (launch_agent-RepliesOnce launching now broker sent other request_id
                                parsed.provider workspace _ launch (λ r. r.0) s
                                launched_state-Keeps)
                      ]
              ]

      pub resume_agent-RepliesOnce :
          (params : Option ResumeParams)
          → Once (resume_agent services launching now request_id params broker)
      unfolding resume_agent
      resume_agent-RepliesOnce none =
          told-RepliesOnce services broker sent other request_id _ s refl
      resume_agent-RepliesOnce (some parsed) = elim (Bool-cases (str_eq parsed.session_id "")) [
        | inl e ↦ rw e (told-RepliesOnce services broker sent other request_id _ s refl)
        | inr e ↦ rw e (start_agent-RepliesOnce (some parsed.launched) (resume parsed.session_id))
      ]

      pub fork_agent-RepliesOnce :
          (params : Option String)
          → Once (fork_agent services launching now request_id params broker)
      unfolding fork_agent
      fork_agent-RepliesOnce params =
          with_agent_id-RepliesOnce services broker sent other request_id params _ s
            (λ source_id source.
              elim (Bool-cases
                (not (is_at_rest source.summary.state) || has_request services source)) [
                  | inl e ↦ rw e (told-RepliesOnce services broker sent other request_id _ s refl)
                  | inr e ↦ elim (Option-cases source.summary.provider_session_id) [
                    | inl f ↦
                        rw (e, f) (told-RepliesOnce services broker sent other request_id _ s refl)
                    | inr (session, f) ↦
                        let t = retire_agent-Serves now source_id broker sent other s in
                        rw (e, f)
                          (after-RepliesOnce broker (retire_agent services now source_id broker)
                            other request_id _ t.owes
                            (launch_agent-RepliesOnce launching now
                              (retire_agent services now source_id broker) t.sent other request_id _
                              _ _ _ (with_contexts services launching now source.pending_contexts)
                              t.serving
                              (with_contexts-Keeps launching now source.pending_contexts)))
                  ]
                ])

      pub handoff_workspace-RepliesOnce :
          (closing : Closing) (params : Option ManagedWorkspaceParams)
          → Once (handoff_workspace services launching now closing request_id params broker)
      unfolding handoff_workspace
      handoff_workspace-RepliesOnce closing none =
          told-RepliesOnce services broker sent other request_id _ s refl
      handoff_workspace-RepliesOnce closing (some parsed) =
          elim (Bool-cases (
            any
              (λ entry.
                is_live services launching now entry
                && owns_task parsed.repository parsed.task_id entry.1.summary.managed_workspace)
              broker.agents)) [
                | inl e ↦ rw e (told-RepliesOnce services broker sent other request_id _ s refl)
                | inr e ↦ elim (Option-cases closing.handoff) [
                  | inl h ↦
                      rw (e, h) (told-RepliesOnce services broker sent other request_id _ s refl)
                  | inr (handoff, h) ↦
                      elim (Result-cases (handoff parsed.repository parsed.task_id)) [
                        | inr (message, r) ↦
                            rw (e, handoff_workspace, h, r)
                              (told-RepliesOnce services broker sent other request_id _ s refl)
                        | inl (done, r) ↦
                            rw (e, handoff_workspace, h, r)
                              (told-RepliesOnce services broker sent other request_id _ s refl)
                      ]
                ]
              ]
