-- ===== src/Transcript/Messages.antt =====
-- transcript.rs: messages, the texts that they are made from, and how they are rendered.
use nvim_agents_zzz.Prelude.{
  ℕ, zero, suc, String, Bool, false, ◌&&◌, not, Option, none, some, List, [], ◌∷◌, ◌++◌, map,
  filter, ◌==◌, str_eq, if◌then◌else◌, ◌>>=◌, length, unwrap_or, or_else,
}
use nvim_agents_zzz.Text.{Text, codes}
use nvim_agents_zzz.Protocol.{
  Value, Values, nil, cons, Provider, codex, claude, EventEnvelope, get, as_str, as_array,
}
use nvim_agents_zzz.Transcript.Lines.{
  Line, styled, plain, message_user, label_assistant, label_system, streaming,
}
use nvim_agents_zzz.Transcript.Markdown.{style_lines}

pub data Role : Type 0 where
  user assistant system : Role

pub record Message : Type 0 where
  pub role : Role
  pub label : Option Text
  pub text : Text
  pub streaming : Bool
  pub line_count : ℕ

abbrev provider_name : Provider → String
provider_name codex = "Codex"
provider_name claude = "Claude"

-- `.filter(|model| !model.is_empty())`
abbrev pub non_empty : Option String → Option String
non_empty none = none
non_empty (some s) = if str_eq s "" then none else some s

abbrev default_label : Provider → Text
default_label provider = codes (provider_name provider) ++ codes " (default model)"

-- The label of a message with the given model, or the default one.
unfoldable pub label_from : Option String → Option String → Provider → Text
label_from model default_model provider =
    elim (or_else (non_empty model) (non_empty default_model)) [
      | none ↦ default_label provider
      | some name ↦ codes name
    ]

unfoldable pub label_of : EventEnvelope → Option String → Text
unfolding label_from
label_of event default_model =
    label_from (get event.payload "model" >>= as_str) default_model event.provider

abbrev str_at : Value → String → Option Text
str_at value key = (get value key >>= as_str) >>= λ s. some (codes s)

-- The texts of the parts that have one, joined; nothing if no part has one.
unfoldable pub join_parts : (Value → Option Text) → Values → Option Text
join_parts text_of nil = none
join_parts text_of (cons v vs) =
    let rest = join_parts text_of vs in
    elim (text_of v) [ none ↦ rest | some t ↦ some (t ++ unwrap_or rest []) ]

-- `text_from_depth`, on the depth that is left: 13 at depth 0.
unfoldable pub text_from_depth : ℕ → Value → Option Text
unfolding join_parts
text_from_depth zero value = none
text_from_depth (suc left) (Value.string text) = some (codes text)
text_from_depth (suc left) (Value.object fields) =
    let value = Value.object fields in
    let parts = (get value "content" >>= as_array) >>= join_parts (text_from_depth left) in
    or_else (str_at value "delta") (
      or_else (str_at value "text")
        (or_else (str_at value "content") (or_else (str_at value "message") parts)))
text_from_depth (suc left) value = none

unfoldable pub text_from : Value → Option Text
unfolding text_from_depth
text_from value = text_from_depth 13 value

abbrev replacement_character : ℕ
replacement_character = 0xfffd

abbrev pub visible : ℕ → ℕ
visible c = if c == 0 then replacement_character else c

-- `split('\n')`: one more piece than there are newlines.
unfoldable pub split_lines : Text → List Text
split_lines [] = [] ∷ []
split_lines (c ∷ cs) = elim (split_lines cs) [
  | [] ↦ []
  | line ∷ lines ↦ if c == b'\n' then [] ∷ line ∷ lines else (c ∷ line) ∷ lines
]

unfoldable pub text_lines : Text → List Text
unfolding split_lines
text_lines text = split_lines (filter (λ c. not (c == b'\r')) (map visible text))

unfoldable pub inline_label : Text → Text
inline_label label =
    map (λ c. if c == b'\r' then b' ' else if c == b'\n' then b' ' else visible c) label

module _ (is_alphanumeric : ℕ → Bool) where
  -- The lines between the label and the closing blank line.
  unfoldable pub render_body : Message → List Line
  unfolding text_lines styled
  render_body message =
      let text = style_lines is_alphanumeric (text_lines message.text) in
      (if message.streaming && length message.text == 0 then [] else text)
      ++ (if message.streaming then styled (0x2026 ∷ []) streaming ∷ [] else [])

  unfoldable pub render_labelled : Message → Line → List Line
  unfolding render_body
  render_labelled message label = label ∷ plain [] ∷ render_body message

  unfoldable pub render_message : Message → List Line
  unfolding render_labelled text_lines inline_label
  render_message message =
      let label = inline_label (unwrap_or message.label []) in
      elim message.role as (λ r. List Line) [
        | user ↦ map (λ text. styled text message_user) (text_lines message.text)
        | assistant ↦ render_labelled message (styled label label_assistant)
        | system ↦ render_labelled message (styled label label_system)
      ]
      ++ plain [] ∷ []

abbrev role_of : String → Option Role
role_of name =
    if str_eq name "user"
    then some user
    else if str_eq name "assistant"
    then some assistant
    else if str_eq name "system"
    then some system
    else none

-- One message of a projected history.
unfoldable pub project_message : Provider → Option String → Value → Option Message
unfolding label_from
project_message provider default_model message = do
  name ← get message "role" >>= as_str
  role ← role_of name
  text ← get message "text" >>= as_str
  let label : Option Text = elim role [
    | user ↦ none
    | system ↦ some (codes "SYSTEM")
    | assistant ↦ some (label_from (get message "model" >>= as_str) default_model provider)
  ]
  some (record { role = role; label = label; text = codes text; streaming = false; line_count = 0 })

unfoldable pub project_history : Provider → Option String → List Value → List Message
unfolding project_message
project_history provider default_model [] = []
project_history provider default_model (v ∷ vs) =
    let rest = project_history provider default_model vs in
    elim (project_message provider default_model v) [ none ↦ rest | some m ↦ m ∷ rest ]
