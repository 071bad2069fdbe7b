-- ===== src/Transcript/Markdown/Inline.antt =====
-- transcript.rs: the spans inside a line. `char::is_alphanumeric` is a parameter.
use nvim_agents_zzz.Prelude.{
  ℕ, zero, suc, ◌+◌, min, Bool, false, ◌&&◌, ◌||◌, not, Option, none, some, List, [], ◌∷◌, ◌++◌,
  ltb, ◌==◌, if◌then◌else◌, length, take, drop, replicate, get_last?,
}
use nvim_agents_zzz.Text.{Text, len, run_of, starts_with, contains, find, ends_with}
use nvim_agents_zzz.Transcript.Lines.{Style, Span, code_span, strong, emphasis, link}

-- `n + o`, where there is an `o`
abbrev shift : ℕ → Option ℕ → Option ℕ
shift n none = none
shift n (some o) = some (n + o)

-- Offset of a backtick run of exactly `run` characters. Each round drops a character.
unfoldable pub find_backtick_run : ℕ → Text → ℕ → Option ℕ
unfolding run_of
find_backtick_run zero text run = none
find_backtick_run (suc fuel) [] run = none
find_backtick_run (suc fuel) (c ∷ cs) run =
    let here = run_of b'`' (c ∷ cs) in
    let past_run = shift here (find_backtick_run fuel (drop here (c ∷ cs)) run) in
    let past_char = shift 1 (find_backtick_run fuel cs run) in
    if c == b'`' then if here == run then some 0 else past_run else past_char

module _ (is_alphanumeric : ℕ → Bool) where
  unfoldable pub starts_word : Text → Bool
  starts_word [] = false
  starts_word (c ∷ cs) = is_alphanumeric c

  -- The loop of `find_emphasis_close`, from the character `search` of `content` on.
  unfoldable pub close_from : ℕ → Text → Text → ℕ → Bool → ℕ → Option ℕ
  unfolding starts_word starts_with find ends_with
  close_from zero content delimiter mark word_bound search = none
  close_from (suc fuel) content delimiter mark word_bound search =
      elim (find delimiter (drop search content)) [
        | none ↦ none
        | some found ↦
            let at = search + found in
            let inner = take at content in
            let after = drop (at + length delimiter) content in
            let closes_run = starts_with (mark ∷ []) after in
            let right_ok = not word_bound || not (starts_word after) in
            let later = close_from fuel content delimiter mark word_bound (at + length delimiter) in
            if ltb 0 at && not (ends_with b' ' inner) && not closes_run && right_ok
            then some (length delimiter + at + length delimiter)
            else later
      ]

  -- Length of an emphasis span that opens with `run` of `mark` at the start of `rest`.
  unfoldable pub find_emphasis_close : Text → ℕ → ℕ → Bool → Option ℕ
  unfolding close_from
  find_emphasis_close rest mark run word_bound =
      let content = drop run rest in
      let delimiter = replicate run mark in
      let closed = close_from (length content) content delimiter mark word_bound 0 in
      if starts_with (b' ' ∷ []) content || length content == 0 then none else closed

-- Length of a `[text](target)` link that opens at the start of `rest`.
unfoldable pub find_link_end : Text → Option ℕ
unfolding find contains starts_with
find_link_end rest = elim (find (b']' ∷ b'(' ∷ []) rest) [
  | none ↦ none
  | some close ↦
      let target = drop (close + 2) rest in
      if close == 1 || contains b'[' (drop 1 (take close rest))
      then none
      else elim (find (b')' ∷ []) target) [
        | none ↦ none
        | some end ↦
            if end == 0 || contains b' ' (take end target) then none else some (close + 2 + end + 1)
      ]
]

module _ (is_alphanumeric : ℕ → Bool) where
  unfoldable pub after_word : Option ℕ → Bool
  after_word none = false
  after_word (some c) = is_alphanumeric c

  -- One round of the loop of `inline_spans` at `rest`, behind the character `previous`: how many
  -- characters it takes, and the style of the span over them, if it finds one.
  unfoldable pub item_at : Option ℕ → Text → ℕ × Option Style
  unfolding after_word find_backtick_run find_emphasis_close find_link_end run_of
  item_at previous [] = (0, none)
  item_at previous (c ∷ cs) =
      let rest = c ∷ cs in
      let ticks = run_of b'`' rest in
      let closing_ticks = find_backtick_run (length rest) (drop ticks rest) ticks in
      let marks = min (run_of c rest) 2 in
      let word_bound = c == b'_' in
      let left_ok = not word_bound || not (after_word previous) in
      let closing_marks = find_emphasis_close is_alphanumeric rest c marks word_bound in
      let unmarked : ℕ × Option Style = (marks, none) in
      if c == b'`'
      then elim closing_ticks [
        | none ↦ (ticks, none)
        | some close ↦ (ticks + close + ticks, some code_span)
      ]
      else if c == b'*' || c == b'_'
      then if left_ok
        then elim closing_marks [
          | none ↦ unmarked
          | some end ↦ (end, some (if marks == 2 then strong else emphasis))
        ]
        else unmarked
      else if c == b'['
      then elim (find_link_end rest) [ none ↦ (1, none) | some end ↦ (end, some link) ]
      else (1, none)

  abbrev pub span_over : ℕ → ℕ → Option Style → List Span
  span_over index size none = []
  span_over index size (some style) =
      record { start = index; end = index + size; style = style } ∷ []

  -- The loop of `inline_spans` from byte `index` on. A round takes a character or more, so the
  -- length of `rest` is enough fuel.
  unfoldable pub spans_from : ℕ → Option ℕ → ℕ → Text → List Span
  unfolding item_at len
  spans_from zero previous index rest = []
  spans_from (suc fuel) previous index [] = []
  spans_from (suc fuel) previous index (c ∷ cs) =
      let (taken, style) = item_at previous (c ∷ cs) in
      let piece = take taken (c ∷ cs) in
      span_over index (len piece) style
      ++ spans_from fuel (get_last? piece) (index + len piece) (drop taken (c ∷ cs))

  -- `inline_spans(text, from, spans)`, where `from` characters stand before.
  unfoldable pub inline_spans : Text → ℕ → List Span
  unfolding spans_from
  inline_spans text from =
      let before = take from text in
      spans_from (length text) (get_last? before) (len before) (drop from text)
