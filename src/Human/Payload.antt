-- ===== src/Human/Payload.antt =====
-- human.rs: what a client is shown of a provider's request.
use nvim_agents_zzz.Prelude.{
  ℕ, suc, ◌+◌, String, Bool, true, false, ◌&&◌, ◌||◌, Option, none, some, List, [], ◌∷◌, ◌++◌, map,
  ltb, leb, ◌==◌, str_eq, if◌then◌else◌, ◌>>=◌, length, take, unwrap_or, or_else,
}
use nvim_agents_zzz.Text.{Text, codes}
use nvim_agents_zzz.Protocol.{
  Value, Values, Fields, nil, cons, end, field, pos_int, get, as_str, as_bool, as_array, fields,
  values, optional, optional_value,
}

pub data HumanRequestKind : Type 0 where
  approval question : HumanRequestKind

unfoldable pub approval_tool_name : String → String
approval_tool_name method =
    if str_eq method "item/commandExecution/requestApproval" || str_eq method "execCommandApproval"
    then "Command"
    else if str_eq method "item/fileChange/requestApproval" || str_eq method "applyPatchApproval"
    then "File change"
    else if str_eq method "item/permissions/requestApproval"
    then "Permissions"
    else "Tool"

-- `str` is ordered by its bytes, which is the order of its code points.
unfoldable pub text_leb : Text → Text → Bool
text_leb [] bs = true
text_leb (a ∷ rest) [] = false
text_leb (a ∷ rest) (b ∷ bs) = ltb a b || (a == b && text_leb rest bs)

abbrev pub str_leb : String → String → Bool
str_leb a b = text_leb (codes a) (codes b)

unfoldable pub insert : String → List String → List String
insert p [] = p ∷ []
insert p (q ∷ qs) = let rest = insert p qs in if str_leb p q then p ∷ q ∷ qs else q ∷ rest

-- `paths.sort()`
unfoldable pub sort : List String → List String
unfolding insert
sort [] = []
sort (p ∷ ps) = insert p (sort ps)

-- `paths.dedup()`: of equal neighbours the first stays.
unfoldable pub dedup : List String → List String
dedup [] = []
dedup (p ∷ []) = p ∷ []
dedup (p ∷ q ∷ qs) = let rest = dedup (q ∷ qs) in if str_eq p q then rest else p ∷ rest

unfoldable pub is_path_key : String → Bool
is_path_key key =
    str_eq key "path"
    || str_eq key "file_path"
    || str_eq key "filePath"
    || str_eq key "blocked_path"
    || str_eq key "grantRoot"

-- The path that a field names, put at the end.
unfoldable pub with_path : String → Value → List String → List String
unfolding is_path_key
with_path key value paths =
    if is_path_key key
    then elim (as_str value) [ none ↦ paths | some path ↦ paths ++ path ∷ [] ]
    else paths

-- `collect_paths_into`, and its loops over fields and over elements.
mutual
  pub collect_paths_into : Value → List String → ℕ → List String
  collect_paths_into (Value.object fs) paths depth =
      if ltb 8 depth || leb 64 (length paths) then paths else collect_fields fs paths depth
  collect_paths_into (Value.array vs) paths depth =
      if ltb 8 depth || leb 64 (length paths) then paths else collect_values vs paths depth
  collect_paths_into v paths depth = paths

  collect_fields : Fields → List String → ℕ → List String
  collect_fields end paths depth = paths
  collect_fields (field key value fs) paths depth =
      collect_fields fs (collect_paths_into value (with_path key value paths) (depth + 1)) depth

  collect_values : Values → List String → ℕ → List String
  collect_values nil paths depth = paths
  collect_values (cons v vs) paths depth =
      collect_values vs (collect_paths_into v paths (depth + 1)) depth

unfoldable pub collect_paths : Value → List String
unfolding sort dedup
collect_paths value = take 64 (dedup (sort (collect_paths_into value [] 0)))

-- The first of some keys that the value has, null included.
unfoldable pub first_of : Value → List String → Option Value
first_of value [] = none
first_of value (k ∷ ks) = or_else (get value k) (first_of value ks)

abbrev context : Value → String → Option Value
context params key = get params "context" >>= λ c. get c key

unfoldable pub approval_payload : String → String → Value → Value
unfolding collect_paths first_of approval_tool_name
approval_payload action_id method params =
    let tool_name =
      unwrap_or (first_of params ("tool_name" ∷ "toolName" ∷ []) >>= as_str)
        (approval_tool_name method) in
    let input = unwrap_or (get params "input") params in
    let command = or_else (get input "command") (get params "command") >>= as_str in
    let cwd = or_else (get params "cwd") (context params "cwd") >>= as_str in
    let reason = or_else (get params "reason") (context params "description") >>= as_str in
    let summary = unwrap_or (or_else reason command) tool_name in
    let risk =
      or_else (first_of params ("risk" ∷ "risk_level" ∷ "riskLevel" ∷ []))
        (context params "decision_reason") in
    let permission_suggestions =
      or_else
        (first_of params ("permissions" ∷ "permission_suggestions" ∷ "permissionSuggestions" ∷ []))
        (context params "suggestions") in
    Value.object (
      fields (
        ("id", Value.string action_id)
        ∷ ("kind", Value.string "approval")
        ∷ ("tool_name", Value.string tool_name)
        ∷ ("summary", Value.string summary)
        ∷ ("command", optional command)
        ∷ ("cwd", optional cwd)
        ∷ ("paths", Value.array (values (map Value.string (collect_paths params))))
        ∷ ("risk", optional_value risk)
        ∷ ("permission_suggestions", optional_value permission_suggestions)
        ∷ ("choices", Value.array (values (Value.string "allow" ∷ Value.string "deny" ∷ [])))
        ∷ ("deferrable", Value.bool false)
        ∷ []))

-- One option of a question: a text, or an object with a label.
unfoldable pub option_of : Value → Option Value
option_of choice = elim (as_str choice) [
  | some label ↦ some (
      Value.object (fields (("label", Value.string label) ∷ ("description", Value.string "") ∷ [])))
  | none ↦ do
    label ← get choice "label" >>= as_str
    some (
        Value.object (
          fields (
            ("label", Value.string label)
            ∷ ("description", Value.string (unwrap_or (get choice "description" >>= as_str) ""))
            ∷ [])))
]

unfoldable pub options_of : Values → List Value
unfolding option_of
options_of nil = []
options_of (cons v vs) =
    let rest = options_of vs in elim (option_of v) [ none ↦ rest | some o ↦ o ∷ rest ]

unfoldable pub question_of : ℕ → Value → Option Value
unfolding options_of first_of
question_of index asked = do
  prompt ← get asked "question" >>= as_str
  let id = unwrap_or (get asked "id" >>= as_str) prompt
  let options = elim (get asked "options" >>= as_array) as (λ _. List Value) [
    | none ↦ []
    | some vs ↦ options_of vs
  ]
  let multi = first_of asked ("multiSelect" ∷ "multi_select" ∷ []) >>= as_bool
  let secret = first_of asked ("isSecret" ∷ "is_secret" ∷ "secret" ∷ []) >>= as_bool
  some (
      Value.object (
        fields (
          ("id", Value.string id)
          ∷ ("index", Value.number (pos_int index))
          ∷ ("header", Value.string (unwrap_or (get asked "header" >>= as_str) "Question"))
          ∷ ("question", Value.string prompt)
          ∷ ("options", Value.array (values options))
          ∷ ("multi_select", Value.bool (unwrap_or multi false))
          ∷ ("secret", Value.bool (unwrap_or secret false))
          ∷ [])))

-- The questions that have a text, each with its place among all.
unfoldable pub questions_of : ℕ → Values → List Value
unfolding question_of
questions_of index nil = []
questions_of index (cons v vs) =
    let rest = questions_of (suc index) vs in
    elim (question_of index v) [ none ↦ rest | some q ↦ q ∷ rest ]

unfoldable pub question_payload : String → Value → Value
unfolding questions_of
question_payload action_id params =
    let input = unwrap_or (get params "input") params in
    let questions = elim (get input "questions" >>= as_array) as (λ _. List Value) [
      | none ↦ []
      | some vs ↦ questions_of 0 vs
    ] in
    Value.object (
      fields (
        ("id", Value.string action_id)
        ∷ ("kind", Value.string "question")
        ∷ ("questions", Value.array (values questions))
        ∷ ("choices", Value.array (values (Value.string "answer" ∷ Value.string "deny" ∷ [])))
        ∷ ("deferrable", Value.bool false)
        ∷ []))

unfoldable pub normalized_payload : HumanRequestKind → String → String → Value → Value
unfolding approval_payload question_payload
normalized_payload approval action_id method params = approval_payload action_id method params
normalized_payload question action_id method params = question_payload action_id params
