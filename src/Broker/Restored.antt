-- ===== src/Broker/Restored.antt =====
-- embedded.rs: the broker as it starts, with the agents that registry.rs has restored.
-- The replay buffer is an argument.
use nvim_agents_zzz.Prelude.{
  str_eq, Bool-cases, inr, inl, sym, some, eq_iff, ◌≢◌, ok, ◌≡◌, refl, ap, ◌∙◌, String, true, false,
  Option, none, List, [], ◌∷◌, filter, All, arith,
}
use nvim_agents_zzz.Protocol.{AgentSummary, disconnected, waiting_input, waiting_approval}
use nvim_agents_zzz.Replay.{ReplayBuffer}
use nvim_agents_zzz.Transcript.{empty}
use nvim_agents_zzz.Registry.Roundtrip.{as_disconnected, AreDistinct, load-AreDistinct}
use nvim_agents_zzz.Registry.Store.{FileSystem, Codec, load}
use nvim_agents_zzz.Broker.Agents.{Services, ManagedAgent, find, remove}
use nvim_agents_zzz.Broker.Core.{State, BrokerMode, await_initialize}
use nvim_agents_zzz.Broker.Sound.{IsSound}
use nvim_agents_zzz.Broker.Recorded.{AreSound}
use nvim_agents_zzz.Broker.Checkout.{Host, checkout_identity}
use nvim_agents_zzz.Broker.Launch.{Launching, capabilities, is_live}
use nvim_agents_zzz.Broker.Exclusive.{AreExclusive, clash, remove-All}

module _ (services : Services) where
  -- An agent without a runtime: its channel is closed.
  unfoldable pub restored_agent : Host → services.Sender → AgentSummary → ManagedAgent services
  unfolding capabilities checkout_identity
  restored_agent host closed summary = record {
    summary = record summary { capabilities = capabilities summary.provider };
    workspace_identity = checkout_identity host summary.workspace_strategy summary.cwd;
    commands = closed;
    task = false;
    pending_contexts = [];
    queued_prompts = [];
    pending_questions = 0;
    has_prompted = true;
    title_from_prompt = false;
    transcript = empty;
  }

  -- The loop of `Broker::new`.
  unfoldable pub insert_agents :
      Host
      → services.Sender
      → List (String × ManagedAgent services)
      → List AgentSummary
      → List (String × ManagedAgent services)
  unfolding restored_agent
  insert_agents host closed agents [] = agents
  insert_agents host closed agents (summary ∷ rest) =
      insert_agents host closed
        ((summary.id, restored_agent host closed summary) ∷ remove summary.id agents) rest

  abbrev ids : List AgentSummary → List String
  ids [] = []
  ids (summary ∷ rest) = summary.id ∷ ids rest

  -- `Broker::new`
  unfoldable pub new_broker :
      Host
      → services.Sender
      → BrokerMode
      → ReplayBuffer
      → Option services.Registry
      → List AgentSummary
      → Option services.Status
      → State services
  unfolding insert_agents
  new_broker host closed mode replay registry restored status = record {
    phase = await_initialize;
    mode = mode;
    connection_generation = 0;
    reconnect_cursor = 0;
    agents = insert_agents host closed [] restored;
    agent_order = ids restored;
    replay = replay;
    output = none;
    next_runtime_request = 1;
    pending_runtime_requests = [];
    queued_runtime_requests = [];
    registry = registry;
    status = status;
  }

  module _ (launching : Launching services) (now : String) (host : Host)
      (closed : services.Sender) where
    -- Sound, and without a task.
    abbrev IsAtRest : String × ManagedAgent services → Type 0
    IsAtRest entry = IsSound services entry.1 × (entry.1.task ≡ false)

    restored_agent-IsAtRest :
        (summary : AgentSummary)
        → as_disconnected summary ≡ summary
        → IsAtRest (summary.id, restored_agent host closed summary)
    unfolding restored_agent as_disconnected
    restored_agent-IsAtRest summary h =
        let rests : disconnected ≡ summary.state = ap (λ (s : AgentSummary). s.state) h in
        (
          record {
            approvals = λ w. absurd (disconnected-waiting_approval (rests ∙ w));
            questions = λ w. absurd (disconnected-waiting_input (rests ∙ w));
            queue = omega arith;
            rendered = record { shown = refl; counted = tt };
          },
          refl,
        )
      where
        disconnected-waiting_approval : disconnected ≡ waiting_approval → ⊥
        disconnected-waiting_approval h = cc

        disconnected-waiting_input : disconnected ≡ waiting_input → ⊥
        disconnected-waiting_input h = cc

    insert_agents-IsAtRest :
        (agents : List (String × ManagedAgent services)) (restored : List AgentSummary)
        → All IsAtRest agents
        → All (λ summary. as_disconnected summary ≡ summary) restored
        → All IsAtRest (insert_agents host closed agents restored)
    unfolding insert_agents
    insert_agents-IsAtRest agents [] h r = h
    insert_agents-IsAtRest agents (summary ∷ rest) h r =
        insert_agents-IsAtRest
          ((summary.id, restored_agent host closed summary) ∷ remove summary.id agents) rest
          (restored_agent-IsAtRest summary r.0, remove-All IsAtRest summary.id agents h) r.1

    at_rest-AreSound :
        (agents : List (String × ManagedAgent services))
        → All IsAtRest agents
        → AreSound services agents
    at_rest-AreSound [] h = tt
    at_rest-AreSound (entry ∷ rest) h = (h.0.0, at_rest-AreSound rest h.1)

    at_rest-AreExclusive :
        (agents : List (String × ManagedAgent services))
        → All IsAtRest agents
        → AreExclusive services launching now agents
    at_rest-AreExclusive [] h = tt
    at_rest-AreExclusive (entry ∷ rest) h = (alone rest, at_rest-AreExclusive rest h.1)
      where
        alone :
            (others : List (String × ManagedAgent services))
            → All (λ other. clash services launching now entry.1 other.1 ≡ false) others
        alone [] = tt
        alone (other ∷ others) = (rw (h.0.1) refl, alone others)

    at_rest-filter :
        (agents : List (String × ManagedAgent services))
        → All IsAtRest agents
        → filter (is_live services launching now) agents ≡ []
    at_rest-filter [] h = refl
    at_rest-filter (entry ∷ rest) h = rw (h.0.1, at_rest-filter rest h.1) refl

    apart-str_eq : (a b : String) → a ≢ b → str_eq a b ≡ false
    apart-str_eq a b apart = elim (Bool-cases (str_eq a b)) [
      | inl e ↦ absurd (apart ((eq_iff a b).0 e))
      | inr e ↦ e
    ]

    find-remove :
        (key other : String) (agents : List (String × ManagedAgent services))
        → key ≢ other
        → find other (remove key agents) ≡ find other agents
    unfolding find remove
    find-remove key other [] apart = refl
    find-remove key other (entry ∷ rest) apart = elim (Bool-cases (str_eq entry.0 key)) [
      | inl e ↦
          let same = (eq_iff entry.0 key).0 e in
          let no : str_eq entry.0 other ≡ false = rw same (apart-str_eq key other apart) in
          rw (e, no) (find-remove key other rest apart)
      | inr e ↦ rw e (elim (Bool-cases (str_eq entry.0 other)) [
        | inl f ↦ rw f refl
        | inr f ↦ rw f (find-remove key other rest apart)
      ])
    ]

    -- The agents that come later leave an agent with another id alone.
    find-insert_agents :
        (id : String) (agents : List (String × ManagedAgent services)) (rest : List AgentSummary)
        → All (λ other. id ≢ other.id) rest
        → find id (insert_agents host closed agents rest) ≡ find id agents
    unfolding insert_agents find
    find-insert_agents id agents [] h = refl
    find-insert_agents id agents (other ∷ rest) h =
        find-insert_agents id
          ((other.id, restored_agent host closed other) ∷ remove other.id agents) rest h.1
        ∙ rw (apart-str_eq other.id id (λ e. h.0 (sym e)))
            (find-remove other.id id agents (λ e. h.0 (sym e)))

    find-here :
        (id : String) (agent : ManagedAgent services)
        (agents : List (String × ManagedAgent services))
        → find id ((id, agent) ∷ agents) ≡ some agent
    unfolding find
    find-here id agent agents = rw ((eq_iff id id).1 refl) refl

    -- What is restored of a summary: all of it but the capabilities, which are the provider's of now, without a process,
    -- prompts, contexts or questions.
    pub record IsRestored (summary : AgentSummary) (agent : ManagedAgent services) : Type 0 where
      pub kept : record agent.summary { capabilities = summary.capabilities } ≡ summary
      pub offered : agent.summary.capabilities ≡ capabilities summary.provider
      pub stopped : agent.task ≡ false
      pub prompted : agent.has_prompted ≡ true
      pub no_prompts : agent.queued_prompts ≡ []
      pub no_contexts : agent.pending_contexts ≡ []
      pub placed :
          agent.workspace_identity ≡ checkout_identity host summary.workspace_strategy summary.cwd

    restored_agent-IsRestored :
        (summary : AgentSummary) → IsRestored summary (restored_agent host closed summary)
    unfolding restored_agent
    restored_agent-IsRestored summary = record {
      kept = refl;
      offered = refl;
      stopped = refl;
      prompted = refl;
      no_prompts = refl;
      no_contexts = refl;
      placed = refl;
    }

    -- The agent of a summary is in the table, under the summary's id.
    abbrev pub IsKept : List (String × ManagedAgent services) → AgentSummary → Type 0
    IsKept agents summary =
        (agent : ManagedAgent services) × (find summary.id agents ≡ some agent)
        × IsRestored summary agent

    insert_agents-IsKept :
        (agents : List (String × ManagedAgent services)) (restored : List AgentSummary)
        → AreDistinct restored
        → All (IsKept (insert_agents host closed agents restored)) restored
    unfolding insert_agents
    insert_agents-IsKept agents [] d = tt
    insert_agents-IsKept agents (summary ∷ rest) d =
        let agent = restored_agent host closed summary in
        let placed = (summary.id, agent) ∷ remove summary.id agents in
        (
          (
            agent,
            find-insert_agents summary.id placed rest d.0
                ∙ find-here summary.id agent (remove summary.id agents),
            restored_agent-IsRestored summary,
          ),
          insert_agents-IsKept placed rest d.1,
        )

    -- How a broker starts with what was restored.
    pub record StartsWith (restored : List AgentSummary) (broker : State services) : Type 0 where
      pub ordered : broker.agent_order ≡ ids restored
      pub kept : All (IsKept broker.agents) restored
      pub sound : AreSound services broker.agents
      pub exclusive : AreExclusive services launching now broker.agents
      pub at_rest : filter (is_live services launching now) broker.agents ≡ []

    -- A broker that starts with the agents that the registry's file gave has each of them, in their order and under
    -- its id, with all that was restored of it but the capabilities, which are its provider's, and none has a
    -- process: all are sound, no two are writers of a checkout, and none is live.
    pub new_broker-StartsWith :
        (files : FileSystem) (codec : Codec) (disk : files.Disk) (path : String) (mode : BrokerMode)
        (replay : ReplayBuffer) (registry : Option services.Registry) (restored : List AgentSummary)
        (status : Option services.Status)
        → load files codec disk path ≡ ok restored
        → StartsWith restored (new_broker host closed mode replay registry restored status)
    unfolding new_broker
    new_broker-StartsWith files codec disk path mode replay registry restored status loaded =
        let (distinct, stopped) = load-AreDistinct files codec disk path restored loaded in
        let h = insert_agents-IsAtRest [] restored tt stopped in
        record {
          ordered = refl;
          kept = insert_agents-IsKept [] restored distinct;
          sound = at_rest-AreSound _ h;
          exclusive = at_rest-AreExclusive _ h;
          at_rest = at_rest-filter _ h;
        }
