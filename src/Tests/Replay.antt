-- ===== src/Tests/Replay.antt =====
-- The replay buffer at concrete inputs.
use nvim_agents_zzz.Prelude.{◌≤◌, ◌≡◌, String, some, List, [], ◌∷◌, length, arith}
use nvim_agents_zzz.Protocol.{EventEnvelope, codex, Fields, Value, new_event}
use nvim_agents_zzz.Replay.{ReplayBuffer, resync_required, replay_after}
use nvim_agents_zzz.Replay.History.{recorded, replay_after-recorded}

abbrev event : String → EventEnvelope
event kind =
    new_event "2026-08-31T18:00:00Z" "agent-1" codex kind (Value.object Fields.end)
      (Value.object Fields.end)

abbrev three : List EventEnvelope
three = event "turn.started" ∷ event "message.delta" ∷ event "turn.completed" ∷ []

replay_after-recorded_example :
    (b : ReplayBuffer) × (recorded 2 three ≡ some b)
    × (length b.events ≤ 2)
    × (replay_after b 0 ≡ resync_required 2 3)
replay_after-recorded_example =
    replay_after-recorded 2 three 0 (omega arith) (omega arith) (omega arith)
