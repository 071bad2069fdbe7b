-- ===== src/Human.antt =====
-- human.rs: a provider's requests for a human, and what is answered. The time is a parameter.
pub mod Payload
pub mod Answers
pub mod Paths
use nvim_agents_zzz.Prelude.{
  String, Bool, true, false, ◌&&◌, ◌||◌, not, Option, none, some, List, [], ◌∷◌, str_eq,
  if◌then◌else◌, ◌>>=◌, unwrap_or, Result, ok, err, is_some,
}
use nvim_agents_zzz.Protocol.{
  Value, Values, Fields, nil, cons, end, field, get, as_str, fields, optional, optional_value,
  EventEnvelope, new_event, Provider, codex, claude, id_value, RequestId,
}
use nvim_agents_zzz.Codex.{ProviderEvent, ProviderEventKind, notification, server_request}
use nvim_agents_zzz.Worker.{WorkerInbound, is_callback}
use Payload.{HumanRequestKind, approval, question, normalized_payload}

abbrev pub requested_event : HumanRequestKind → String
requested_event approval = "approval.requested"
requested_event question = "question.requested"

abbrev pub resolved_name : HumanRequestKind → String
resolved_name approval = "approval.resolved"
resolved_name question = "question.resolved"

pub record HumanRequest : Type 0 where
  pub id : String
  pub kind : HumanRequestKind
  pub envelope : EventEnvelope

-- The kind of a Codex request, by its method.
unfoldable pub codex_kind : String → Option HumanRequestKind
codex_kind method =
    if str_eq method "item/commandExecution/requestApproval"
      || str_eq method "item/fileChange/requestApproval"
      || str_eq method "item/permissions/requestApproval"
      || str_eq method "execCommandApproval"
      || str_eq method "applyPatchApproval"
    then some approval
    else if str_eq method "item/tool/requestUserInput"
    then some question
    else none

unfoldable pub claude_kind : String → Option HumanRequestKind
claude_kind method =
    if str_eq method "approval/request"
    then some approval
    else if str_eq method "question/request"
    then some question
    else none

-- The request as the provider sent it, without its contents.
abbrev pub redacted_request : Option Value → String → Value
redacted_request request_id method = Value.object (
    fields (
      ("kind", Value.string "request")
      ∷ ("request_id", optional_value request_id)
      ∷ ("response_required", Value.bool true)
      ∷ ("method", Value.string method)
      ∷ ("redacted", Value.bool true)
      ∷ []))

abbrev pub is_server_request : ProviderEventKind → Bool
is_server_request server_request = true
is_server_request notification = false

unfoldable pub codex_request : String → String → String → ProviderEvent → Option HumanRequest
unfolding codex_kind normalized_payload
codex_request timestamp agent_id action_id event =
    if not (is_server_request event.kind) || not event.response_required then none else do
      kind ← codex_kind event.method
      some (record {
        id = action_id;
        kind = kind;
        envelope =
            new_event timestamp agent_id codex (requested_event kind)
              (normalized_payload kind action_id event.method event.params)
              (redacted_request event.request_id event.method);
      })

unfoldable pub claude_request : String → String → String → WorkerInbound → Option HumanRequest
unfolding claude_kind normalized_payload
claude_request timestamp agent_id action_id inbound = if not (is_callback inbound) then none else do
  kind ← claude_kind inbound.method
  some (record {
    id = action_id;
    kind = kind;
    envelope =
        new_event timestamp agent_id claude (requested_event kind)
          (normalized_payload kind action_id inbound.method inbound.params)
          (redacted_request (inbound.id >>= λ i. some (id_value i)) inbound.method);
  })

unfoldable pub resolved_event :
    String → String → Provider → HumanRequestKind → String → String → Option String → EventEnvelope
resolved_event timestamp agent_id provider kind action_id decision reason =
    new_event timestamp agent_id provider (resolved_name kind)
      (Value.object (
        fields (
          ("id", Value.string action_id)
          ∷ ("decision", Value.string decision)
          ∷ ("reason", optional reason)
          ∷ [])))
      (Value.object (fields (("kind", Value.string "broker") ∷ ("redacted", Value.bool true) ∷ [])))

abbrev one : String → Value → Value
one key value = Value.object (fields ((key, value) ∷ []))

abbrev denied_text : Option String → String → Value
denied_text message default = Value.string (unwrap_or message default)

-- What Codex is sent for an approval, by the method that asked and whether it is allowed.
unfoldable pub codex_decision : ProviderEvent → Bool → Option String → Result Value String
codex_decision event allow message =
    let method = event.method in
    if str_eq method "item/commandExecution/requestApproval"
      || str_eq method "item/fileChange/requestApproval"
    then ok (one "decision" (Value.string (if allow then "accept" else "decline")))
    else if str_eq method "execCommandApproval" || str_eq method "applyPatchApproval"
    then ok (
        if allow
        then one "decision" (Value.string "approved")
        else one "decision"
            (one "denied" (one "rejection" (denied_text message "User denied the request"))))
    else if str_eq method "item/permissions/requestApproval"
    then ok (
        Value.object (
          fields (
            (
              "permissions",
              if allow
                  then unwrap_or (get event.params "permissions") (Value.object end)
                  else Value.object end,
            )
            ∷ ("scope", Value.string "turn")
            ∷ [])))
    else err "provider request is not an approval"

unfoldable pub codex_approval_response :
    ProviderEvent → String → Option String → Result Value String
unfolding codex_decision
codex_approval_response event decision message =
    if str_eq decision "defer"
    then err "this provider request cannot be deferred"
    else if str_eq decision "allow"
    then codex_decision event true message
    else if str_eq decision "deny"
    then codex_decision event false message
    else err "invalid approval decision"

abbrev is_string : Value → Bool
is_string (Value.string s) = true
is_string v = false

abbrev all_strings : Values → Bool
all_strings nil = true
all_strings (cons v vs) = is_string v && all_strings vs

-- The texts of one answer; anything else is no answer.
abbrev pub answer_values : Value → Values
answer_values (Value.string s) = cons (Value.string s) nil
answer_values (Value.array vs) = if all_strings vs then vs else nil
answer_values v = nil

unfoldable pub encoded_answers : Fields → Fields
encoded_answers end = end
encoded_answers (field key value fs) =
    field key (one "answers" (Value.array (answer_values value))) (encoded_answers fs)

unfoldable pub codex_question_response : ProviderEvent → String → Fields → Result Value String
unfolding encoded_answers
codex_question_response event decision answers =
    if not (str_eq event.method "item/tool/requestUserInput")
    then err "provider request is not a question"
    else if not (str_eq decision "answer" || str_eq decision "deny")
    then err "invalid question decision"
    else ok (
        one "answers"
          (Value.object (if str_eq decision "deny" then end else encoded_answers answers)))

-- A denial of Claude's: with a message, and without an interrupt.
abbrev claude_denial : Value → Value
claude_denial message = Value.object (
    fields (
      ("decision", Value.string "deny")
      ∷ ("message", message)
      ∷ ("interrupt", Value.bool false)
      ∷ []))

unfoldable pub claude_approval_response :
    String → Option Value → Option String → Result Value String
claude_approval_response decision updated_input message =
    if str_eq decision "allow"
    then ok (
        Value.object (
          field "decision" (Value.string "allow")
            (elim updated_input [ none ↦ end | some v ↦ field "updated_input" v end ])))
    else if str_eq decision "deny"
    then ok (claude_denial (denied_text message "User denied the request"))
    else if str_eq decision "defer"
    then err "this provider request cannot be deferred"
    else err "invalid approval decision"

unfoldable pub claude_question_response : String → Fields → Option String → Result Value String
claude_question_response decision answers message =
    if str_eq decision "answer"
    then ok (
        Value.object
          (fields (("decision", Value.string "answer") ∷ ("answers", Value.object answers) ∷ [])))
    else if str_eq decision "deny"
    then ok (claude_denial (denied_text message "User declined to answer"))
    else err "invalid question decision"
