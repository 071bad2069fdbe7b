-- ===== src/Replay.antt =====
-- replay.rs: the bounded buffer of public events. A `u64` is a number below `2 ^ 64`; `none` is the
-- panic of `assert!` or `expect`.
pub mod History
use nvim_agents_zzz.Prelude.{
  ℕ, ◌+◌, ◌^◌, ◌<◌, ◌-◌, Option, none, some, List, [], ◌∷◌, ◌++◌, ltb, leb, if◌then◌else◌, ◌>>=◌,
  length, drop, filter, get_last?, min,
}
use nvim_agents_zzz.Protocol.{EventEnvelope}

pub data ReplayResult : Type 0 where
  events : List EventEnvelope → ReplayResult
  resync_required : ℕ → ℕ → ReplayResult

pub record ReplayBuffer : Type 0 where
  pub capacity : ℕ
  pub next_sequence : ℕ
  pub events : List EventEnvelope

abbrev pub u64_max : ℕ
u64_max = 18446744073709551615

unfoldable pub new : ℕ → Option ReplayBuffer
new capacity =
    if ltb 0 capacity
    then some (record { capacity = capacity; next_sequence = 1; events = [] })
    else none

-- The part of `push` after the sequence is taken.
unfoldable pub append_event : ReplayBuffer → EventEnvelope → ReplayBuffer
append_event b event =
    let pushed = b.events ++ record event { sequence = b.next_sequence } ∷ [] in
    record b {
      next_sequence = b.next_sequence + 1;
      events = if ltb b.capacity (length pushed) then drop 1 pushed else pushed;
    }

-- The new buffer, and the sequence that the event got.
unfoldable pub push : ReplayBuffer → EventEnvelope → Option (ReplayBuffer × ℕ)
push b event =
    if leb u64_max b.next_sequence then none else some (append_event b event, b.next_sequence)

abbrev bounds_of : List EventEnvelope → Option (ℕ × ℕ)
bounds_of [] = none
bounds_of (front ∷ rest) = elim (get_last? (front ∷ rest)) [
  | none ↦ none
  | some back ↦ some (front.sequence, back.sequence)
]

unfoldable pub bounds : ReplayBuffer → Option (ℕ × ℕ)
bounds b = bounds_of b.events

abbrev saturating_add : ℕ → ℕ → ℕ
saturating_add a b = min (a + b) u64_max

unfoldable pub replay_after : ReplayBuffer → ℕ → ReplayResult
unfolding bounds
replay_after b after_sequence = elim (bounds b) [
  | none ↦ events []
  | some (oldest, latest) ↦
      if ltb (saturating_add after_sequence 1) oldest
      then resync_required oldest latest
      else events (filter (λ event. ltb after_sequence event.sequence) b.events)
]
