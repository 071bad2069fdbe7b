-- ===== src/Replay/History.antt =====
-- The replay buffer against the full history of the events that were pushed.
use nvim_agents_zzz.Prelude.{
  ℕ, zero, suc, ◌+◌, ◌-◌, ◌≤◌, ◌<◌, ◌≡◌, refl, ap, sym, ◌∙◌, subst, append-nil, >>=-eq-some, Option,
  some, false, List, [], ◌∷◌, ◌++◌, ltb, leb, if◌then◌else◌, ◌>>=◌, length, length-append,
  length-drop, drop, drop-append, drop-suc, filter, get_last?, arith, inl, inr, Bool-cases, le→ltb,
  leb→le,
}
use mathlib.Core.Path.{subst₂}
use mathlib.Core.List.{append_assoc}
use nvim_agents_zzz.Protocol.{EventEnvelope}
use nvim_agents_zzz.Replay.{
  ReplayBuffer, events, resync_required, new, push, append_event, replay_after, u64_max,
}

-- The events of a list carry the sequences n, n + 1, …
abbrev pub Numbered : ℕ → List EventEnvelope → Type 0
Numbered n [] = Unit
Numbered n (e ∷ es) = (e.sequence ≡ n) × Numbered (suc n) es

-- How many events of the history the buffer has let go.
abbrev pub evicted : ReplayBuffer → List EventEnvelope → ℕ
evicted b history = length history - b.capacity

-- The buffer is the end of the history, and the next sequence follows it.
pub record Retains (b : ReplayBuffer) (history : List EventEnvelope) : Type 0 where
  pub positive : 0 < b.capacity
  pub numbered : Numbered 1 history
  pub next : b.next_sequence ≡ length history + 1
  pub window : b.events ≡ drop (evicted b history) history

Numbered-append :
    (n : ℕ) (es : List EventEnvelope) (e : EventEnvelope)
    → Numbered n es
    → e.sequence ≡ n + length es
    → Numbered n (es ++ e ∷ [])
Numbered-append n [] e h q = (omega arith, tt)
Numbered-append n (x ∷ es) e h q = (h.0, Numbered-append (suc n) es e h.1 (omega arith))

Numbered-drop : (k n : ℕ) (es : List EventEnvelope) → Numbered n es → Numbered (n + k) (drop k es)
Numbered-drop zero n es h = let e : n + 0 ≡ n = omega arith in rw e h
Numbered-drop (suc k) n [] h = tt
Numbered-drop (suc k) n (x ∷ es) h =
    let e : n + suc k ≡ suc n + k = omega arith in rw e (Numbered-drop k (suc n) es h.1)

get_last?-Numbered :
    (n : ℕ) (e : EventEnvelope) (es : List EventEnvelope)
    → Numbered n (e ∷ es)
    → (back : EventEnvelope) × (get_last? (e ∷ es) ≡ some back) × (back.sequence ≡ n + length es)
get_last?-Numbered n e [] h = (e, refl, omega arith)
get_last?-Numbered n e (x ∷ es) h =
    let (back, p, q) = get_last?-Numbered (suc n) x es h.1 in (back, p, omega arith)

-- The events after a cursor.
abbrev pub after : ℕ → List EventEnvelope → List EventEnvelope
after cursor = filter (λ event. ltb cursor event.sequence)

after-drop :
    (k n c : ℕ) (es : List EventEnvelope)
    → Numbered n es
    → n + k ≤ c + 1
    → after c (drop k es) ≡ after c es
after-drop zero n c es h q = refl
after-drop (suc k) n c [] h q = refl
after-drop (suc k) n c (x ∷ es) h q =
    let skip : ltb c x.sequence ≡ false = le→ltb c x.sequence (omega arith) in
    rw skip (after-drop k (suc n) c es h.1 (omega arith))

new-Retains : (capacity : ℕ) {b : ReplayBuffer} → new capacity ≡ some b → Retains b []
unfolding new
new-Retains capacity {b} h = record {
  positive = ground arith;
  numbered = tt;
  next = ground arith;
  window = ground arith;
}

abbrev pub stamp : EventEnvelope → ℕ → EventEnvelope
stamp e sequence = record e { sequence = sequence }

-- What is kept of one more event is the end of one more history.
kept_window :
    (cap : ℕ) (history : List EventEnvelope) (e : EventEnvelope)
    → 0 < cap
    → (if ltb cap (length (drop (length history - cap) history ++ e ∷ []))
        then drop 1 (drop (length history - cap) history ++ e ∷ [])
        else drop (length history - cap) history ++ e ∷ [])
      ≡ drop (length (history ++ e ∷ []) - cap) (history ++ e ∷ [])
kept_window cap history e pos =
    let n = length history - cap in
    let joined = sym (drop-append n history (e ∷ []) (omega arith)) in
    let size =
      length-append (drop n history) (e ∷ []) ∙ ap (λ (k : ℕ). k + 1) (length-drop n history) in
    let total = length-append history (e ∷ []) in
    elim (Bool-cases (ltb cap (length (drop n history ++ e ∷ [])))) [
      | inl full ↦
          let one_more : length (history ++ e ∷ []) - cap ≡ suc n = ground arith in
          rw (full, joined, one_more) (sym (drop-suc n (history ++ e ∷ [])))
      | inr room ↦
          let same : length (history ++ e ∷ []) - cap ≡ n = ground arith in rw (room, joined, same)
    ]

append_event-Retains :
    {b : ReplayBuffer} {history : List EventEnvelope} (e : EventEnvelope)
    → Retains b history
    → Retains (append_event b e) (history ++ stamp e b.next_sequence ∷ [])
unfolding append_event
append_event-Retains {b} {history} e v =
    let e' = stamp e b.next_sequence in
    record {
      positive = v.positive;
      numbered = Numbered-append 1 history e' v.numbered (omega arith);
      next = omega (arith, length-append history (e' ∷ []));
      window = rw v.window (kept_window b.capacity history e' v.positive);
    }

-- An accepted event gets the next sequence, and the buffer goes on holding the end of the history.
pub push-Retains :
    {b b' : ReplayBuffer} {history : List EventEnvelope} {s : ℕ} (e : EventEnvelope)
    → Retains b history
    → push b e ≡ some (b', s)
    → (s ≡ length history + 1) × Retains b' (history ++ stamp e s ∷ [])
unfolding push
push-Retains {b} {b'} {history} {s} e v h =
    let at : b.next_sequence ≡ s = ground arith in
    let same : append_event b e ≡ b' = ground arith in
    (
      omega arith,
      subst₂ (λ c k. Retains c (history ++ stamp e k ∷ [])) same at (append_event-Retains e v),
    )

pub push_total :
    (b : ReplayBuffer) (e : EventEnvelope)
    → b.next_sequence < u64_max
    → push b e ≡ some (append_event b e, b.next_sequence)
unfolding push
push_total b e h = ground arith

-- Pushing a list of events in turn.
unfoldable pub push_all : ReplayBuffer → List EventEnvelope → Option ReplayBuffer
push_all b [] = some b
push_all b (e ∷ es) = push b e >>= λ r. push_all r.0 es

-- The events as they are numbered from n on.
abbrev pub stamped : ℕ → List EventEnvelope → List EventEnvelope
stamped n [] = []
stamped n (e ∷ es) = stamp e n ∷ stamped (suc n) es

push_all-Retains :
    (es : List EventEnvelope) {b b' : ReplayBuffer} {history : List EventEnvelope}
    → Retains b history
    → push_all b es ≡ some b'
    → Retains b' (history ++ stamped (suc (length history)) es)
unfolding push_all
push_all-Retains [] {b} {b'} {history} v h =
    rw append-nil (subst (λ c. Retains c history) (ground arith) v)
push_all-Retains (e ∷ es) {b} {b'} {history} v h =
    let (r, pushed, rest) = >>=-eq-some (push b e) (λ r. push_all r.0 es) h in
    let (at, kept) = push-Retains {b' = r.0} {s = r.1} e v pushed in
    let e' = stamp e (suc (length history)) in
    let grown : suc (length (history ++ e' ∷ [])) ≡ suc (suc (length history)) =
      omega (arith, length-append history (e' ∷ [])) in
    let number : r.1 ≡ suc (length history) = omega arith in
    let whole =
      push_all-Retains es {b = r.0} {b' = b'} {history = history ++ e' ∷ []} (rw number at kept)
        rest in
    rw (← append_assoc history (e' ∷ []) (stamped (suc (suc (length history))) es), ← grown) whole

nil_of_length : (es : List EventEnvelope) → length es ≡ 0 → es ≡ []
nil_of_length [] h = refl
nil_of_length (e ∷ es) h = absurd (omega arith)

window_result :
    (b : ReplayBuffer) (k cursor : ℕ) (e : EventEnvelope) (es : List EventEnvelope)
    → Numbered (1 + k) (e ∷ es)
    → cursor ≤ u64_max
    → 1 + k ≤ u64_max
    → b.events ≡ e ∷ es
    → replay_after b cursor ≡ (
        if leb k cursor
        then events (after cursor (e ∷ es))
        else resync_required (k + 1) (k + length (e ∷ es)))
unfolding replay_after
window_result b k cursor e es n fits small w =
    let (back, p, q) = get_last?-Numbered (1 + k) e es n in ground (arith, w, p)

replay_after-Retains :
    {b : ReplayBuffer} {history : List EventEnvelope} (cursor : ℕ)
    → Retains b history
    → cursor ≤ u64_max
    → length history ≤ u64_max
    → replay_after b cursor ≡ (
        if leb (evicted b history) cursor
        then events (after cursor history)
        else resync_required (evicted b history + 1) (length history))
replay_after-Retains {b} {history} cursor v fits small = go (drop k history) refl
  where
    k : ℕ
    k = evicted b history

    numbers : Numbered (1 + k) (drop k history)
    numbers = Numbered-drop k 1 history v.numbered

    go :
        (w : List EventEnvelope)
        → drop k history ≡ w
        → replay_after b cursor ≡ (
            if leb k cursor
            then events (after cursor history)
            else resync_required (k + 1) (length history))
    go [] e =
        let none_left : length history ≡ 0 =
          omega (arith, ap length e, length-drop k history, v.positive) in
        let empty = nil_of_length history none_left in
        unfold replay_after in ground (arith, v.window, e, empty)
    go (x ∷ xs) e =
        let whole : k + length (x ∷ xs) ≡ length history =
          omega (arith, ap length e, length-drop k history) in
        let result =
          window_result b k cursor x xs (rw e at numbers) fits (omega arith) (v.window ∙ e) in
        elim (Bool-cases (leb k cursor)) [
          | inl kept ↦
              let same : after cursor (drop k history) ≡ after cursor history =
                after-drop k 1 cursor history v.numbered (omega (arith, leb→le k cursor kept)) in
              rw kept (rw kept at result ∙ ap events (ap (after cursor) (sym e) ∙ same))
          | inr lost ↦ rw lost (rw (lost, whole) at result)
        ]

push_all_total :
    (es : List EventEnvelope) (b : ReplayBuffer)
    → b.next_sequence + length es ≤ u64_max
    → (b' : ReplayBuffer) × (push_all b es ≡ some b')
unfolding push_all append_event
push_all_total [] b h = (b, refl)
push_all_total (e ∷ es) b h =
    let (b', p) = push_all_total es (append_event b e) (omega arith) in
    (b', rw (push_total b e (omega arith)) p)

capacity-push_all :
    (es : List EventEnvelope) (b : ReplayBuffer) {b' : ReplayBuffer}
    → push_all b es ≡ some b'
    → b'.capacity ≡ b.capacity
unfolding push_all push append_event
capacity-push_all [] b h = ground arith
capacity-push_all (e ∷ es) b {b'} h =
    let (r, pushed, rest) = >>=-eq-some (push b e) (λ r. push_all r.0 es) h in
    let tail = capacity-push_all es r.0 {b' = b'} rest in ground arith

length-stamped : (n : ℕ) (es : List EventEnvelope) → length (stamped n es) ≡ length es
length-stamped n [] = refl
length-stamped n (e ∷ es) = ap suc (length-stamped (suc n) es)

-- A buffer of the given capacity after the events were pushed in turn.
unfoldable pub recorded : ℕ → List EventEnvelope → Option ReplayBuffer
recorded capacity es = new capacity >>= λ b. push_all b es

-- Up to 2 ^ 64 - 2 events can be recorded in a buffer of positive capacity. It then holds at most
-- `capacity` events, and a replay after a cursor gives either every event of the whole history with
-- a later sequence, or, exactly when the cursor lies before the evicted events, the demand for a
-- resync with the oldest and the latest sequence held.
pub replay_after-recorded :
    (capacity : ℕ) (es : List EventEnvelope) (cursor : ℕ)
    → 0 < capacity
    → length es < u64_max
    → cursor ≤ u64_max
    → (b : ReplayBuffer) × (recorded capacity es ≡ some b)
      × (length b.events ≤ capacity)
      × (replay_after b cursor ≡ (
          if leb (length es - capacity) cursor
          then events (after cursor (stamped 1 es))
          else resync_required (length es - capacity + 1) (length es)))
unfolding recorded new
replay_after-recorded capacity es cursor positive room fits =
    let b0 : ReplayBuffer = record { capacity = capacity; next_sequence = 1; events = [] } in
    let started : new capacity ≡ some b0 = ground arith in
    let (b, p) = push_all_total es b0 (omega arith) in
    let kept =
      push_all-Retains es {b = b0} {b' = b} {history = []} (new-Retains capacity started) p in
    let same_capacity : b.capacity ≡ capacity = capacity-push_all es b0 p in
    let size = length-stamped 1 es in
    (
      b,
      rw started p,
      omega (arith, ap length kept.window, length-drop (evicted b (stamped 1 es)) (stamped 1 es)),
      rw (same_capacity, size) at (replay_after-Retains cursor kept fits (omega arith)),
    )
