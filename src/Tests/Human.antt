-- ===== src/Tests/Human.antt =====
-- Requests for a human and their answers at concrete inputs.
use nvim_agents_zzz.Prelude.{
  ◌≡◌, ◌≢◌, refl, String, true, false, none, some, [], ◌∷◌, eq_iff, is_ok, ok, length, ◌≤◌,
}
use nvim_agents_zzz.Protocol.{Value, Fields, Number, RequestId, codex, claude, new_event, fields}
use nvim_agents_zzz.Codex.{ProviderEvent, server_request}
use nvim_agents_zzz.Worker.{WorkerInbound}
use nvim_agents_zzz.Human.{
  HumanRequest, codex_request, claude_request, claude_approval_response, codex_kind, claude_kind,
  redacted_request,
}
use nvim_agents_zzz.Human.Payload.{approval, normalized_payload, collect_paths}
use nvim_agents_zzz.Human.Paths.{Ascending, collect_paths-Ascending}
use nvim_agents_zzz.Human.Answers.{
  offers, codex_response, claude_response, codex_request-answerable, claude_request-answerable,
  denies, claude_approval_response-denies,
}

abbrev params : Value
params = Value.object (
    Fields.field "command" (Value.string "rm -r build")
      (Fields.field "path" (Value.string "/work/build") Fields.end))

abbrev command : ProviderEvent
command = record {
  kind = server_request;
  request_id = none;
  response_required = true;
  method = "item/commandExecution/requestApproval";
  params = params;
}

abbrev callback : WorkerInbound
callback = record { id = some (RequestId.integer 7); method = "approval/request"; params = params }

abbrev shown : HumanRequest
shown = record {
  id = "action-1";
  kind = approval;
  envelope =
      new_event "now" "agent-1" codex "approval.requested"
        (normalized_payload approval "action-1" "item/commandExecution/requestApproval" params)
        (redacted_request none "item/commandExecution/requestApproval");
}

abbrev shown_back : HumanRequest
shown_back = record {
  id = "action-1";
  kind = approval;
  envelope =
      new_event "now" "agent-1" claude "approval.requested"
        (normalized_payload approval "action-1" "approval/request" params)
        (redacted_request (some (Value.number (Number.pos_int 7))) "approval/request");
}

command-shown : codex_request "now" "agent-1" "action-1" command ≡ some shown
unfolding codex_request codex_kind
command-shown = refl

callback-shown : claude_request "now" "agent-1" "action-1" callback ≡ some shown_back
unfolding claude_request claude_kind
callback-shown = refl

codex_request-answerable_example :
    is_ok (codex_response approval command "allow" Fields.end none)
    ≡ offers shown.envelope.payload "allow"
codex_request-answerable_example =
    codex_request-answerable "now" "agent-1" "action-1" command shown "allow" Fields.end none
      command-shown

claude_request-answerable_example :
    is_ok (claude_response approval "defer" none Fields.end none)
    ≡ offers shown_back.envelope.payload "defer"
claude_request-answerable_example =
    claude_request-answerable "now" "agent-1" "action-1" callback shown_back "defer" none Fields.end
      none callback-shown

deny-allow : ◌≢◌ {A = String} "deny" "allow"
deny-allow same = cc ((eq_iff "deny" "allow").1 same)

callback-denied :
    claude_approval_response "deny" none (some "no")
    ≡ ok (
        Value.object (
          fields (
            ("decision", Value.string "deny")
            ∷ ("message", Value.string "no")
            ∷ ("interrupt", Value.bool false)
            ∷ [])))
unfolding claude_approval_response
callback-denied = refl

claude_approval_response-denies_example :
    denies (
      Value.object (
        fields (
          ("decision", Value.string "deny")
          ∷ ("message", Value.string "no")
          ∷ ("interrupt", Value.bool false)
          ∷ [])))
    ≡ true
claude_approval_response-denies_example =
    claude_approval_response-denies "deny" none (some "no") _ callback-denied deny-allow

collect_paths-Ascending_example :
    (length (collect_paths params) ≤ 64) × Ascending (collect_paths params)
collect_paths-Ascending_example = collect_paths-Ascending params
