-- ===== src/Transcript.antt =====
-- transcript.rs: the broker's transcript of one agent and its patches. `none` is a panic: a slice out
-- of range. `char::is_alphanumeric` is a parameter.
pub mod Lines
pub mod Markdown
pub mod Splice
pub mod Messages
pub mod Rendered
pub mod Mirror
pub mod Session
pub mod Styled
use nvim_agents_zzz.Prelude.{
  ℕ, zero, suc, ◌+◌, ◌-◌, ◌%◌, ◌^◌, String, Bool, true, false, ◌&&◌, not, Option, none, some, List,
  [], ◌∷◌, ◌++◌, ltb, leb, ◌==◌, str_eq, if◌then◌else◌, ◌>>=◌, length, take, set, get_elem?,
  unwrap_or, sum_by, get_last?,
}
use nvim_agents_zzz.Text.{Text, len, codes}
use nvim_agents_zzz.Protocol.{Value, EventEnvelope, Provider}
use Lines.{Line, Style, Span, Line-discrete}
use Splice.{Patch, splice_lines, patch_of}
use Messages.{Message, Role, user, assistant, render_message, text_from, label_of, project_history}

pub record Transcript : Type 0 where
  pub messages : List Message
  pub lines : List Line
  pub revision : ℕ

abbrev pub empty : Transcript
empty = record { messages = []; lines = []; revision = 0 }

-- `self.revision += 1` on a `u64` without overflow checks
abbrev pub next_revision : ℕ → ℕ
next_revision r = (r + 1) % 18446744073709551616

-- `self.splice(start, end, lines)`
unfoldable pub splice : Transcript → ℕ → ℕ → List Line → Option (Transcript × Patch)
unfolding patch_of splice_lines
splice t start end lines =
    let revision = next_revision t.revision in
    let patch = patch_of Line-discrete revision t.lines start end lines in
    if leb start end && leb end (length t.lines)
    then some (record t { lines = splice_lines t.lines patch; revision = revision }, patch)
    else none

-- The index of the last message, if an assistant is streaming it.
unfoldable pub streaming_assistant : Transcript → Option ℕ
streaming_assistant t = elim (get_last? t.messages) [
  | none ↦ none
  | some last ↦ elim last.role [
    | assistant ↦ if last.streaming then some (length t.messages - 1) else none
    | _ ↦ none
  ]
]

module _ (is_alphanumeric : ℕ → Bool) where
  unfoldable pub push_message : Transcript → Message → Option (Transcript × Patch)
  push_message t message =
      let rendered = render_message is_alphanumeric message in
      let counted = record message { line_count = length rendered } in
      let end = length t.lines in
      splice (record t { messages = t.messages ++ counted ∷ [] }) end end rendered

  unfoldable pub set_message : Transcript → ℕ → Message → Option (Transcript × Patch)
  set_message t at message = do
    old ← get_elem? t.messages at
    let start = sum_by (λ m. m.line_count) (take at t.messages)
    let rendered = render_message is_alphanumeric message
    let counted = record message { line_count = length rendered }
    splice (record t { messages = set t.messages at counted }) start (start + old.line_count)
        rendered

  unfoldable pub push_user : Transcript → Text → Option (Transcript × Patch)
  push_user t text =
      push_message t
        (record { role = user; label = none; text = text; streaming = false; line_count = 0 })

  abbrev changed : Option (Transcript × Patch) → Option (Transcript × Option Patch)
  changed o = o >>= λ r. some (r.0, some r.1)

  unfoldable pub on_delta :
      Transcript → EventEnvelope → Option String → Option (Transcript × Option Patch)
  on_delta t event default_model =
      let delta = unwrap_or (text_from event.payload) [] in
      elim (streaming_assistant t) [
        | some at ↦ if length delta == 0 then some (t, none) else do
          message ← get_elem? t.messages at
          changed (set_message t at (record message { text = message.text ++ delta }))
        | none ↦ changed (
            push_message t (record {
              role = assistant;
              label = some (label_of event default_model);
              text = delta;
              streaming = true;
              line_count = 0;
            }))
      ]

  -- The provider's final text replaces what was streamed unless it is shorter.
  abbrev pub completed_text : Message → Option Text → Text
  completed_text message none = message.text
  completed_text message (some text) =
      if leb (len message.text) (len text) then text else message.text

  unfoldable pub on_completed :
      Transcript → EventEnvelope → Option String → Option (Transcript × Option Patch)
  on_completed t event default_model = elim (streaming_assistant t) [
    | some at ↦ do
      message ← get_elem? t.messages at
      changed (
          set_message t at (record message {
            text = completed_text message (text_from event.payload);
            streaming = false;
          }))
    | none ↦ elim (text_from event.payload) [
      | none ↦ some (t, none)
      | some text ↦ changed (
          push_message t (record {
            role = assistant;
            label = some (label_of event default_model);
            text = text;
            streaming = false;
            line_count = 0;
          }))
    ]
  ]

  unfoldable pub on_turn_end : Transcript → Option (Transcript × Option Patch)
  on_turn_end t = elim (streaming_assistant t) [
    | none ↦ some (t, none)
    | some at ↦ do
      message ← get_elem? t.messages at
      changed (set_message t at (record message { streaming = false }))
  ]

  unfoldable pub apply_event :
      Transcript → EventEnvelope → Option String → Option (Transcript × Option Patch)
  apply_event t event default_model =
      if str_eq event.event_type "message.delta"
      then on_delta t event default_model
      else if str_eq event.event_type "message.completed"
      then on_completed t event default_model
      else if str_eq event.event_type "turn.completed"
      then on_turn_end t
      else if str_eq event.event_type "turn.failed"
      then on_turn_end t
      else some (t, none)

  -- Each message rendered in turn: the messages with their counts, and all their lines.
  unfoldable pub render_all : List Message → List Message × List Line
  render_all [] = ([], [])
  render_all (m ∷ ms) =
      let (counted, lines) = render_all ms in
      let rendered = render_message is_alphanumeric m in
      (record m { line_count = length rendered } ∷ counted, rendered ++ lines)

  unfoldable pub replace_history :
      Transcript → List Value → Provider → Option String → Option (Transcript × Patch)
  unfolding render_all
  replace_history t messages provider default_model =
      let (counted, rendered) = render_all (project_history provider default_model messages) in
      splice (record t { messages = counted }) 0 (length t.lines) rendered
