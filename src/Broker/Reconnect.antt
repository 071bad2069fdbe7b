-- ===== src/Broker/Reconnect.antt =====
-- embedded.rs: what a client of the durable broker gets when it connects again.
use nvim_agents_zzz.Prelude.{
  ℕ, ◌-◌, ◌≤◌, ◌<◌, ◌≡◌, refl, sym, ap, ◌∙◌, true, ◌&&◌, Option, some, List, [], ◌∷◌, ◌++◌, map,
  append_assoc, append-nil, if◌then◌else◌, le→leb, length, unwrap_or,
}
use nvim_agents_zzz.Protocol.{EventEnvelope}
use nvim_agents_zzz.Replay.{events, replay_after, u64_max}
use nvim_agents_zzz.Replay.History.{recorded, replay_after-recorded, after, stamped}
use nvim_agents_zzz.Broker.Agents.{Services}
use nvim_agents_zzz.Broker.Core.{
  State, ConnectionPhase, BrokerMode, is_await_initialized, is_durable, Outgoing, agent_event,
  broker_state, durable, await_initialized, ready, send, send_ready, notify_state, summaries,
}
use nvim_agents_zzz.Broker.Connection.{send_events, replay_missed, replayed, handle_notification}

module _ (services : Services) where
  send-output :
      (broker : State services) (message : Outgoing) (sent : List Outgoing)
      → broker.output ≡ some sent
      → send services broker message ≡ record broker { output = some (sent ++ message ∷ []) }
  unfolding send
  send-output broker message sent h = rw (h, send) refl

  -- Everything but what was sent stays.
  send_events-output :
      (es : List EventEnvelope) (broker : State services) (sent : List Outgoing)
      → broker.output ≡ some sent
      → send_events services broker es
        ≡ record broker { output = some (sent ++ map agent_event es) }
  unfolding send_events
  send_events-output [] broker sent h =
      ap (λ (o : Option (List Outgoing)). record broker { output = o })
        (h ∙ ap some (sym (append-nil sent)))
  send_events-output (e ∷ es) broker sent h =
      ap (λ (b : State services). send_events services b es)
        (send-output broker (agent_event e) sent h)
      ∙ send_events-output es (record broker { output = some (sent ++ agent_event e ∷ []) })
          (sent ++ agent_event e ∷ []) refl
      ∙ ap (λ (o : List Outgoing). record broker { output = some o })
          (append_assoc sent (agent_event e ∷ []) (map agent_event es))

  -- The registry and the status are told, and then a client that is ready.
  notify_state-output :
      (broker : State services) (sent : List Outgoing)
      → broker.output ≡ some sent
      → broker.phase ≡ ready
      → ((notify_state services broker).output
          ≡ some (sent ++ broker_state (summaries services broker) ∷ []))
        × ((notify_state services broker).phase ≡ ready)
  unfolding notify_state send_ready send
  notify_state-output broker sent h r = (rw (r, h) refl, rw r refl)

  -- A client of the durable broker that goes on at a cursor still held gets, when it says that it is
  -- initialized, every recorded event after the cursor, in order and once, and then the agents' state;
  -- from then on the broker is ready.
  pub initialized-replays :
      (broker : State services) (capacity : ℕ) (es : List EventEnvelope) (sent : List Outgoing)
      → broker.mode ≡ durable
      → broker.phase ≡ await_initialized
      → broker.output ≡ some sent
      → 0 < capacity
      → length es < u64_max
      → broker.reconnect_cursor ≤ u64_max
      → recorded capacity es ≡ some broker.replay
      → length es - capacity ≤ broker.reconnect_cursor
      → ((handle_notification services "initialized" true broker).output
          ≡ some (
              sent
              ++ map agent_event (after broker.reconnect_cursor (stamped 1 es))
              ++ broker_state (summaries services broker) ∷ []))
        × ((handle_notification services "initialized" true broker).phase ≡ ready)
  unfolding handle_notification replay_missed summaries
  initialized-replays broker capacity es sent mode awaits output positive room fits held kept =
      let cursor = broker.reconnect_cursor in
      let (b, e, _, replay) = replay_after-recorded capacity es cursor positive room fits in
      let same : b ≡ broker.replay = ap (λ o. unwrap_or o b) (sym e ∙ held) in
      let found : replay_after broker.replay cursor ≡ events (after cursor (stamped 1 es)) =
        ap (λ r. replay_after r cursor) (sym same) ∙ rw (le→leb _ _ kept) at replay in
      let begun = record broker { phase = ready } in
      let told = record begun {
        output = some (sent ++ map agent_event (after cursor (stamped 1 es)));
      } in
      let heard : handle_notification services "initialized" true broker
          ≡ notify_state services (replay_missed services begun) =
        ap
          (λ (p : ConnectionPhase).
            if is_await_initialized p && true && true
            then notify_state services (replay_missed services begun)
            else broker)
          awaits in
      let whole =
        heard
        ∙ ap (notify_state services) (
            ap
              (λ (m : BrokerMode).
                if is_durable m
                then replayed services begun (replay_after broker.replay cursor)
                else begun)
              mode
            ∙ ap (replayed services begun) found
            ∙ send_events-output (after cursor (stamped 1 es)) begun sent output) in
      let (shown, phase) = notify_state-output told _ refl refl in
      (
        ap (λ (b : State services). b.output) whole ∙ shown,
        ap (λ (b : State services). b.phase) whole ∙ phase,
      )
