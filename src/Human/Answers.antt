-- ===== src/Human/Answers.antt =====
-- human.rs: what a human may answer, and what a provider is told.
use nvim_agents_zzz.Prelude.{
  ◌≡◌, ◌≢◌, refl, ap, subst, unwrap_or, String, Bool, true, false, ◌&&◌, ◌||◌, not, Option, none,
  some, str_eq, eq_iff, ◌>>=◌, >>=-eq-some, Bool-cases, inl, inr, Result, ok, err, is_ok, is_some,
  arith,
}
use nvim_agents_zzz.Protocol.{Value, Values, Fields, nil, cons, end, get, index, is_text, as_array}
use nvim_agents_zzz.Codex.{ProviderEvent}
use nvim_agents_zzz.Worker.{WorkerInbound, is_callback}
use nvim_agents_zzz.Human.Payload.{
  HumanRequestKind, approval, question, normalized_payload, approval_payload, question_payload,
}
use nvim_agents_zzz.Human.{
  HumanRequest, codex_kind, claude_kind, codex_request, claude_request, codex_decision,
  codex_approval_response, is_server_request, codex_question_response, claude_approval_response,
  claude_question_response,
}

abbrev has_text : Values → String → Bool
has_text nil s = false
has_text (cons (Value.string t) vs) s = str_eq s t || has_text vs s
has_text (cons v vs) s = has_text vs s

-- Whether a payload offers a decision.
abbrev pub offers : Value → String → Bool
offers payload decision = elim (get payload "choices" >>= as_array) [
  | none ↦ false
  | some vs ↦ has_text vs decision
]

-- What the broker sends Codex for the decision on a request of a kind.
abbrev pub codex_response :
    HumanRequestKind → ProviderEvent → String → Fields → Option String → Result Value String
codex_response approval event decision answers message =
    codex_approval_response event decision message
codex_response question event decision answers message =
    codex_question_response event decision answers

abbrev pub claude_response :
    HumanRequestKind → String → Option Value → Fields → Option String → Result Value String
claude_response approval decision input answers message =
    claude_approval_response decision input message
claude_response question decision input answers message =
    claude_question_response decision answers message

-- A decision on an approval that grants nothing.
abbrev pub withholds : Value → Bool
withholds v =
    is_text (index v "decision") "decline"
    || is_some (get (index v "decision") "denied")
    || is_text (index v "decision") "deny"
    || is_empty_grant (get v "permissions")
  where
    is_empty_grant : Option Value → Bool
    is_empty_grant (some (Value.object end)) = true
    is_empty_grant o = false

codex_decision-is_ok :
    (event : ProviderEvent) (allow : Bool) (message : Option String)
    → codex_kind event.method ≡ some approval
    → is_ok (codex_decision event allow message) ≡ true
unfolding codex_kind codex_decision
codex_decision-is_ok event allow message h = ground (arith, h)

codex_kind-question :
    (method : String)
    → codex_kind method ≡ some question
    → str_eq method "item/tool/requestUserInput" ≡ true
unfolding codex_kind
codex_kind-question method h = ground (arith, h)

-- A decision that is one of two texts is not a third.
str_eq-other : (d a b : String) → str_eq a b ≡ false → str_eq d a ≡ true → str_eq d b ≡ false
str_eq-other d a b apart h = rw ((eq_iff d a).0 h) apart

codex_approval_response-is_ok :
    (event : ProviderEvent) (decision : String) (message : Option String)
    → codex_kind event.method ≡ some approval
    → is_ok (codex_approval_response event decision message)
      ≡ (str_eq decision "allow" || (str_eq decision "deny" || false))
unfolding codex_approval_response
codex_approval_response-is_ok event decision message h =
    let granted = codex_decision-is_ok event true message h in
    let denied = codex_decision-is_ok event false message h in
    let no_defer = str_eq-other decision "defer" "allow" refl in
    let no_deny = str_eq-other decision "defer" "deny" refl in
    ground (arith, granted, denied, no_defer, no_deny)

codex_question_response-is_ok :
    (event : ProviderEvent) (decision : String) (answers : Fields)
    → codex_kind event.method ≡ some question
    → is_ok (codex_question_response event decision answers)
      ≡ (str_eq decision "answer" || (str_eq decision "deny" || false))
unfolding codex_question_response
codex_question_response-is_ok event decision answers h =
    let asked = codex_kind-question event.method h in ground (arith, asked)

some-injective {ℓ} : {A : Type ℓ} {a b : A} → some a ≡ some b → a ≡ b
some-injective {a = a} h = ap (λ o. unwrap_or o a) h

-- What a request for a human is made of.
codex_request-made :
    (timestamp agent_id action_id : String) (event : ProviderEvent) (request : HumanRequest)
    → codex_request timestamp agent_id action_id event ≡ some request
    → (codex_kind event.method ≡ some request.kind)
      × (request.envelope.payload
          ≡ normalized_payload request.kind action_id event.method event.params)
unfolding codex_request
codex_request-made timestamp agent_id action_id event request h =
    elim (Bool-cases (not (is_server_request event.kind) || not event.response_required)) [
      | inl e ↦ absurd (ground (arith, e, h))
      | inr e ↦
          let (kind, found, made) = >>=-eq-some (codex_kind event.method) _ (rw e at h) in
          subst
            (λ (r : HumanRequest).
              (codex_kind event.method ≡ some r.kind)
              × (r.envelope.payload
                  ≡ normalized_payload r.kind action_id event.method event.params))
            (some-injective made) (found, refl)
    ]

offers-codex :
    (kind : HumanRequestKind) (event : ProviderEvent) (id decision : String) (answers : Fields)
    (message : Option String)
    → codex_kind event.method ≡ some kind
    → is_ok (codex_response kind event decision answers message)
      ≡ offers (normalized_payload kind id event.method event.params) decision
unfolding normalized_payload approval_payload question_payload
offers-codex approval event id decision answers message h =
    codex_approval_response-is_ok event decision message h
offers-codex question event id decision answers message h =
    codex_question_response-is_ok event decision answers h

-- Codex is sent an answer for exactly the decisions that the request's payload offers.
pub codex_request-answerable :
    (timestamp agent_id action_id : String) (event : ProviderEvent) (request : HumanRequest)
    (decision : String) (answers : Fields) (message : Option String)
    → codex_request timestamp agent_id action_id event ≡ some request
    → is_ok (codex_response request.kind event decision answers message)
      ≡ offers request.envelope.payload decision
codex_request-answerable timestamp agent_id action_id event request decision answers message h =
    let (kind, payload) = codex_request-made timestamp agent_id action_id event request h in
    rw payload (offers-codex request.kind event action_id decision answers message kind)

claude_response-is_ok :
    (kind : HumanRequestKind) (id method : String) (params : Value) (decision : String)
    (input : Option Value) (answers : Fields) (message : Option String)
    → is_ok (claude_response kind decision input answers message)
      ≡ offers (normalized_payload kind id method params) decision
unfolding normalized_payload approval_payload question_payload claude_approval_response
    claude_question_response
claude_response-is_ok approval id method params decision input answers message =
    let no_defer = str_eq-other decision "defer" "allow" refl in
    let no_deny = str_eq-other decision "defer" "deny" refl in ground (arith, no_defer, no_deny)
claude_response-is_ok question id method params decision input answers message = ground arith

-- Claude is sent an answer for exactly the decisions that the request's payload offers.
pub claude_request-answerable :
    (timestamp agent_id action_id : String) (inbound : WorkerInbound) (request : HumanRequest)
    (decision : String) (input : Option Value) (answers : Fields) (message : Option String)
    → claude_request timestamp agent_id action_id inbound ≡ some request
    → is_ok (claude_response request.kind decision input answers message)
      ≡ offers request.envelope.payload decision
unfolding claude_request
claude_request-answerable timestamp agent_id action_id inbound request decision input answers
      message h =
    elim (Bool-cases (not (is_callback inbound))) [
      | inl e ↦ absurd (ground (arith, e, h))
      | inr e ↦
          let (kind, found, made) = >>=-eq-some (claude_kind inbound.method) _ (rw e at h) in
          subst
            (λ (r : HumanRequest).
              is_ok (claude_response r.kind decision input answers message)
              ≡ offers r.envelope.payload decision)
            (some-injective made)
            (claude_response-is_ok kind action_id inbound.method inbound.params decision input
              answers message)
    ]

-- A response, if there is one, withholds.
abbrev none_granted : Result Value String → Bool
none_granted (ok v) = withholds v
none_granted (err e) = true

-- A denial of Claude's, which names no input to go on with and no permissions.
abbrev pub denies : Value → Bool
denies v =
    is_text (index v "decision") "deny"
    && not (is_some (get v "updated_input"))
    && not (is_some (get v "permissions"))

abbrev only_denies : Result Value String → Bool
only_denies (ok v) = denies v
only_denies (err e) = true

-- Unless the human's decision is to allow it, a response to Claude has the decision "deny", and names no
-- input and no permissions.
pub claude_approval_response-denies :
    (decision : String) (input : Option Value) (message : Option String) (response : Value)
    → claude_approval_response decision input message ≡ ok response
    → decision ≢ "allow"
    → denies response ≡ true
unfolding claude_approval_response
claude_approval_response-denies decision input message response h refused =
    let no_allow : str_eq decision "allow" ≡ false = elim (Bool-cases (str_eq decision "allow")) [
      | inl e ↦ absurd (refused ((eq_iff decision "allow").0 e))
      | inr e ↦ e
    ] in
    let all : only_denies (claude_approval_response decision input message) ≡ true =
      ground (arith, no_allow) in
    rw h at all
