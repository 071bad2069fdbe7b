-- ===== src/Broker/Exclusive.antt =====
-- embedded.rs: when an agent is launched, and the writers of a checkout.
use nvim_agents_zzz.Prelude.{
  ◌<◌, ◌≡◌, refl, ◌∙◌, ap, String, Bool, true, false, ◌&&◌, not, Option, none, some, List, [], ◌∷◌,
  ◌++◌, any, str_eq, leb, All, Bool-cases, inl, inr, arith,
}
use nvim_agents_zzz.Protocol.{Value, RequestId, Provider, ProviderOptions}
use nvim_agents_zzz.Replay.{u64_max}
use nvim_agents_zzz.Broker.Agents.{Services, ManagedAgent, remove}
use nvim_agents_zzz.Broker.Core.{State, error, is_durable, send}
use nvim_agents_zzz.Broker.Recorded.{notify_state-Tells, notify_state-pending}
use nvim_agents_zzz.Broker.Answered.{same_id_refl}
use nvim_agents_zzz.Broker.Requests.{runtime_request, asking, runtime_id, pending_of}
use nvim_agents_zzz.Broker.Checkout.{SessionLaunch, checkout_identity}
use nvim_agents_zzz.Broker.Launch.{
  Launching, ResolvedWorkspace, is_live, is_writer, workspace_launch_allowed, launched,
  launch_agent,
}

module _ {A : Type 0} where
  pub remove-All :
      (P : String × A → Type 0) (key : String) (xs : List (String × A))
      → All P xs
      → All P (remove key xs)
  unfolding remove
  remove-All P key [] h = tt
  remove-All P key (entry ∷ rest) h = elim (Bool-cases (str_eq entry.0 key)) [
    | inl e ↦ rw e (remove-All P key rest h.1)
    | inr e ↦ rw e (h.0, remove-All P key rest h.1)
  ]

  any-All :
      (p : String × A → Bool) (xs : List (String × A))
      → any p xs ≡ false
      → All (λ x. p x ≡ false) xs
  any-All p [] h = tt
  any-All p (x ∷ xs) h = (ground (arith, h), any-All p xs (ground (arith, h)))

module _ (services : Services) (launching : Launching services) (now : String) where
  abbrev writes : ManagedAgent services → Bool
  writes = is_writer services launching now

  -- Two agents may both write to one checkout.
  abbrev pub clash : ManagedAgent services → ManagedAgent services → Bool
  clash a b = writes a && writes b && str_eq b.workspace_identity a.workspace_identity

  abbrev pub AreExclusive : List (String × ManagedAgent services) → Type 0
  AreExclusive [] = Unit
  AreExclusive (entry ∷ rest) =
      All (λ other. clash entry.1 other.1 ≡ false) rest × AreExclusive rest

  -- An agent of the table that may write to this checkout.
  abbrev pub occupies : String → String × ManagedAgent services → Bool
  occupies identity entry = writes entry.1 && str_eq entry.1.workspace_identity identity

  module _ (request_id : RequestId) (provider : Provider) (workspace : ResolvedWorkspace)
      (options : ProviderOptions) (launch : SessionLaunch) (broker : State services) where
    abbrev pub checkout : String
    checkout = checkout_identity launching.host workspace.strategy workspace.cwd

    abbrev pub embedded_live : Bool
    embedded_live =
        not (is_durable broker.mode) && any (is_live services launching now) broker.agents

    -- How a launch ends. It is refused by the policy, by an embedded broker with a live agent, or for another
    -- writer of the checkout: then nothing but the refusal is sent.
    pub data Launched : Option (State services × Option String) → Type 0 where
      forbidden :
          (message : String)
          → workspace_launch_allowed services launching now provider workspace launch ≡ false
          → Launched
              (some (send services broker (error (some request_id) 32031 message none), none))
      limited :
          (message : String)
          → embedded_live ≡ true
          → Launched
              (some (send services broker (error (some request_id) 32011 message none), none))
      occupied :
          (message : String) (details : Option Value)
          → any (occupies checkout) broker.agents ≡ true
          → Launched
              (some (send services broker (error (some request_id) 32012 message details), none))
      started :
          {after : State services} (agent : ManagedAgent services)
          → workspace_launch_allowed services launching now provider workspace launch ≡ true
          → embedded_live ≡ false
          → All (λ other. occupies checkout other ≡ false) broker.agents
          → after.agents ≡ (launching.new_id, agent) ∷ remove launching.new_id broker.agents
          → agent.workspace_identity ≡ checkout
          → agent.task ≡ true
          → pending_of (runtime_id services broker) after.pending_runtime_requests
            ≡ some (record {
              generation = broker.connection_generation;
              public_id = request_id;
              history_agent = none;
            })
          → Launched (some (after, some launching.new_id))

    -- While the request counter has room, a launch has a result. It is refused, with every agent as before, by the
    -- policy, by an embedded broker that has a live agent, or for another writer of the checkout; else the
    -- new agent is live in its checkout, in which no other agent may write, an embedded broker had no live
    -- agent, and the request waits for the runtime.
    pub launch_agent-Launched :
        broker.next_runtime_request < u64_max
        → Launched (
            launch_agent services launching now request_id provider workspace options launch broker)
    unfolding launch_agent runtime_request asking launched pending_of
    launch_agent-Launched room =
        let asked = asking services broker request_id in
        let agent =
          launched services launching now provider workspace options launch
            (runtime_id services broker) in
        let added = record asked {
          agent_order = asked.agent_order ++ launching.new_id ∷ [];
          agents = (launching.new_id, agent) ∷ remove launching.new_id asked.agents;
        } in
        let here : pending_of (runtime_id services broker) added.pending_runtime_requests
            ≡ some (record {
              generation = broker.connection_generation;
              public_id = request_id;
              history_agent = none;
            }) =
          rw (same_id_refl (runtime_id services broker)) refl in
        let counted : leb u64_max broker.next_runtime_request ≡ false = ground (arith, room) in
        elim (Bool-cases
          (workspace_launch_allowed services launching now provider workspace launch)) [
            | inr a ↦ rw a (forbidden _ a)
            | inl a ↦ elim (Bool-cases embedded_live) [
              | inl l ↦ rw (a, l) (limited _ l)
              | inr l ↦ elim (Bool-cases (any (occupies checkout) broker.agents)) [
                | inl w ↦ rw (a, l, w) (occupied _ _ w)
                | inr w ↦
                    rw (a, l, w, counted)
                      (started agent a l (any-All (occupies checkout) broker.agents w)
                        (notify_state-Tells services added).agents refl refl
                        (ap (pending_of (runtime_id services broker))
                            (notify_state-pending services added)
                          ∙ here))
              ]
            ]
          ]
