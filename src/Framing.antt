-- ===== src/Framing.antt =====
-- framing.rs: newline framing with a bound. The reader is tokio's `AsyncBufRead`, so it is a
-- parameter: its two operations, the bytes that it still has to give, and what is documented of them.
pub mod Line
use nvim_agents_zzz.Prelude.{
  ℕ, zero, suc, ◌+◌, ◌≤◌, ◌≡◌, Bool, Option, none, some, List, [], ◌∷◌, ◌++◌, ltb, ◌==◌,
  if◌then◌else◌, length, drop, take, unwrap_or,
}

pub record BufRead : Type 1 where
  pub Reader : Type 0
  -- `none` is an I/O error
  pub fill_buf : Reader → Option (List ℕ × Reader)
  pub consume : ℕ → Reader → Reader
  pub contents : Reader → List ℕ
  -- what is filled is the front of what is left, and is empty at the end only
  pub fill_buf_front :
      (r : Reader) (available : List ℕ) (r' : Reader)
      → fill_buf r ≡ some (available, r')
      → (rest : List ℕ) × (contents r ≡ available ++ rest) × (contents r' ≡ available ++ rest)
  pub fill_buf_end : (r : Reader) (r' : Reader) → fill_buf r ≡ some ([], r') → contents r ≡ []
  pub consume_drop :
      (r : Reader) (available : List ℕ) (r' : Reader) (n : ℕ)
      → fill_buf r ≡ some (available, r')
      → n ≤ length available
      → contents (consume n r') ≡ drop n (contents r')

pub data BoundedFrame : Type 0 where
  closed : BoundedFrame
  frame : List ℕ → BoundedFrame
  too_large : BoundedFrame

-- `exhausted` is a loop that used up its fuel.
pub data Outcome (Reader : Type 0) : Type 0 where
  ok : BoundedFrame → Reader → Outcome Reader
  io_failed : Outcome Reader
  exhausted : Outcome Reader

abbrev pub newline : ℕ
newline = 10

-- `iter().position(..)`
unfoldable pub position : (ℕ → Bool) → List ℕ → Option ℕ
position p [] = none
position p (b ∷ bs) =
    let rest = position p bs in
    if p b then some 0 else elim rest [ none ↦ none | some i ↦ some (suc i) ]

abbrev is_newline : ℕ → Bool
is_newline b = b == newline

-- `newline.map_or(available.len(), |position| position + 1)`
abbrev pub consumed_bytes : Option ℕ → ℕ → ℕ
consumed_bytes none available = available
consumed_bytes (some i) available = i + 1

-- The stream is at its end: what was gathered is the last frame, if there is any.
abbrev pub at_end : List ℕ → BoundedFrame
at_end [] = closed
at_end (b ∷ bs) = frame (b ∷ bs)

module _ (io : BufRead) where
  open io use {Reader, fill_buf, consume}

  -- The loop of `read_bounded_line`, each round on the bytes gathered so far.
  unfoldable pub gather : ℕ → ℕ → List ℕ → Reader → Outcome Reader
  gather zero max_payload_bytes gathered reader = exhausted
  gather (suc fuel) max_payload_bytes gathered reader = elim (fill_buf reader) [
    | none ↦ io_failed
    | some ([], reader') ↦ ok (at_end gathered) reader'
    | some (c ∷ cs, reader') ↦
        let available = c ∷ cs in
        let found = position is_newline available in
        let payload_bytes = unwrap_or found (length available) in
        let consumed = consumed_bytes found (length available) in
        let gathered' = gathered ++ take consumed available in
        let rest = consume consumed reader' in
        let more = gather fuel max_payload_bytes gathered' rest in
        if ltb max_payload_bytes (length gathered + payload_bytes)
        then ok too_large reader'
        else elim found [ none ↦ more | some i ↦ ok (frame gathered') rest ]
  ]

  unfoldable pub read_bounded_line : ℕ → ℕ → Reader → Outcome Reader
  read_bounded_line fuel max_payload_bytes reader = gather fuel max_payload_bytes [] reader
