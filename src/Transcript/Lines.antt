-- ===== src/Transcript/Lines.antt =====
-- transcript.rs: the styled lines of a transcript.
use nvim_agents_zzz.Prelude.{ℕ, ℕ_discrete, List, [], ◌∷◌}
use nvim_agents_zzz.Text.{Text, len}

pub data Style : Type 0 where
  label_assistant label_system message_user streaming heading code_fence code code_span : Style
  strong emphasis list_marker quote link rule table_border : Style

-- A half-open byte range inside one line's text.
pub record Span : Type 0 where
  pub start : ℕ
  pub end : ℕ
  pub style : Style

pub record Line : Type 0 where
  pub text : Text
  pub spans : List Span

abbrev pub plain : Text → Line
plain text = record { text = text; spans = [] }

unfoldable pub styled : Text → Style → Line
styled [] style = record { text = []; spans = [] }
styled (c ∷ cs) style = record {
  text = c ∷ cs;
  spans = record { start = 0; end = len (c ∷ cs); style = style } ∷ [];
}

-- `before == after` of the derived `PartialEq`.
unfoldable pub Line-discrete : Discrete Line
unfolding ℕ_discrete
Line-discrete = hlevel ℕ_discrete
