-- ===== src/Transcript/Markdown.antt =====
-- transcript.rs, `mod markdown`: line-local Markdown styling. `char::is_alphanumeric` is a
-- parameter.
mod Inline
use nvim_agents_zzz.Prelude.{
  ℕ, zero, suc, ◌+◌, Bool, true, false, ◌&&◌, ◌||◌, not, Option, none, some, List, [], ◌∷◌, ◌++◌,
  ltb, leb, ◌==◌, if◌then◌else◌, length, take, drop, is_some,
}
use nvim_agents_zzz.Text.{Text, len, len_utf8, run_of, starts_with, contains, is_blank}
use nvim_agents_zzz.Transcript.Lines.{
  Style, Span, Line, styled, heading, code_fence, code, rule, quote, table_border, list_marker,
}
use Inline.{inline_spans}

pub record Fence : Type 0 where
  pub marker : ℕ
  pub length : ℕ

-- How many spaces stand in front.
unfoldable pub split_indent : Text → ℕ
unfolding run_of
split_indent text = run_of b' ' text

unfoldable pub fence_run : Text → Option Fence
unfolding run_of
fence_run [] = none
fence_run (c ∷ cs) =
    let run = run_of c (c ∷ cs) in
    if (c == b'`' || c == b'~') && leb 3 run
    then some (record { marker = c; length = run })
    else none

unfoldable pub is_heading : Text → Bool
unfolding run_of starts_with
is_heading body =
    let hashes = run_of b'#' body in
    let text = drop hashes body in
    leb 1 hashes && leb hashes 6 && (length text == 0 || starts_with (b' ' ∷ []) text)

-- The loop of `is_rule`, with the marker seen so far and how often it was seen.
unfoldable pub rule_from : Option ℕ → ℕ → Text → Bool
rule_from marker count [] = leb 3 count
rule_from marker count (c ∷ cs) =
    let skip = rule_from marker count cs in
    let marked = rule_from (some c) (count + 1) cs in
    let same = elim marker as (λ o. Bool) [ none ↦ true | some m ↦ m == c ] in
    if c == b' ' || c == b'\t'
    then skip
    else if c == b'-' || c == b'*' || c == b'_'
    then if same then marked else false
    else false

unfoldable pub is_rule : Text → Bool
unfolding rule_from
is_rule body = rule_from none 0 body

unfoldable pub separator_from : ℕ → Text → Bool
separator_from dashes [] = leb 3 dashes
separator_from dashes (c ∷ cs) =
    let rest = separator_from (if c == b'-' then dashes + 1 else dashes) cs in
    if c == b'|' || c == b':' || c == b' ' || c == b'-' then rest else false

unfoldable pub is_table_separator : Text → Bool
unfolding separator_from
is_table_separator body = separator_from 0 body

unfoldable pub digits_of : Text → ℕ
digits_of [] = 0
digits_of (c ∷ cs) = let rest = digits_of cs in if leb b'0' c && leb c b'9' then suc rest else 0

abbrev is_bullet : ℕ → Bool
is_bullet c = c == b'-' || c == b'*' || c == b'+'

-- The second of two characters is a space.
unfoldable pub marker_then_space : (ℕ → Bool) → Text → Bool
marker_then_space is_marker [] = false
marker_then_space is_marker (c ∷ []) = false
marker_then_space is_marker (c ∷ d ∷ ds) = is_marker c && d == b' '

-- Length of a list marker with its trailing space, or zero.
unfoldable pub marker_length : Text → ℕ
unfolding digits_of marker_then_space
marker_length body =
    let digits = digits_of body in
    let ordered = marker_then_space (λ c. c == b'.' || c == b')') (drop digits body) in
    if marker_then_space is_bullet body
    then 2
    else if leb 1 digits && leb digits 9 && ordered
    then digits + 2
    else 0

-- The borders of a table row, from byte `index` on.
unfoldable pub border_spans : ℕ → Text → List Span
unfolding len_utf8
border_spans index [] = []
border_spans index (c ∷ cs) =
    let rest = border_spans (index + len_utf8 c) cs in
    if c == b'|'
    then record { start = index; end = index + 1; style = table_border } ∷ rest
    else rest

-- `spans.sort_by_key(|span| span.start)`, a stable sort.
unfoldable pub insert_span : Span → List Span → List Span
insert_span s [] = s ∷ []
insert_span s (t ∷ ts) =
    let rest = insert_span s ts in if leb s.start t.start then s ∷ t ∷ ts else t ∷ rest

unfoldable pub sort_spans : List Span → List Span
unfolding insert_span
sort_spans [] = []
sort_spans (s ∷ ss) = insert_span s (sort_spans ss)

module _ (is_alphanumeric : ℕ → Bool) where
  -- `style_line` outside a fence, where no fence opens.
  unfoldable pub style_prose : Text → Line
  unfolding split_indent is_heading is_rule is_table_separator marker_length border_spans sort_spans
      inline_spans styled starts_with
  style_prose text =
      let indent = split_indent text in
      let body = drop indent text in
      let row = border_spans indent body ++ inline_spans is_alphanumeric text indent in
      let marker = marker_length body in
      let content_start = indent + marker in
      let markers : List Span =
        if ltb indent content_start
        then record { start = indent; end = content_start; style = list_marker } ∷ []
        else [] in
      if is_heading body
      then styled text heading
      else if is_rule body
      then styled text rule
      else if starts_with (b'>' ∷ []) body
      then styled text quote
      else if starts_with (b'|' ∷ []) body
      then if is_table_separator body
        then styled text table_border
        else record { text = text; spans = sort_spans row }
      else record {
        text = text;
        spans = markers ++ inline_spans is_alphanumeric text content_start;
      }

  -- Whether the fence that a line begins with closes an open one, or may open one.
  unfoldable pub closes : Fence → Option Fence → Text → Bool
  unfolding is_blank
  closes open_fence none body = false
  closes open_fence (some run) body =
      run.marker == open_fence.marker
      && leb open_fence.length run.length
      && is_blank (drop run.length body)

  unfoldable pub opens : Option Fence → Text → Bool
  unfolding contains
  opens none body = false
  opens (some run) body = run.marker == b'~' || not (contains b'`' (drop run.length body))

  -- The styled line, and the fence that is open after it.
  unfoldable pub style_line : Option Fence → Text → Line × Option Fence
  unfolding style_prose closes opens fence_run split_indent styled
  style_line (some open_fence) text =
      let body = drop (split_indent text) text in
      if closes open_fence (fence_run body) body
      then (styled text code_fence, none)
      else (styled text code, some open_fence)
  style_line none text =
      let body = drop (split_indent text) text in
      if opens (fence_run body) body
      then (styled text code_fence, fence_run body)
      else (style_prose text, none)

  unfoldable pub style_from : Option Fence → List Text → List Line
  unfolding style_line
  style_from fence [] = []
  style_from fence (text ∷ texts) =
      let (line, fence') = style_line fence text in line ∷ style_from fence' texts

  unfoldable pub style_lines : List Text → List Line
  unfolding style_from
  style_lines texts = style_from none texts
