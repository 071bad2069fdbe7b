-- ===== src/Broker/Inputs.antt =====
-- embedded.rs: a prompt or a steering text for an agent. The parameters have been parsed: `none` is a
-- failure to parse them. A result of `none` is a panic.
use Prim.Native.Char.{code}
use Prim.Native.String.{◌++◌ as str_append}
use nvim_agents_zzz.Prelude.{
  ℕ, zero, suc, String, Bool, true, false, ◌&&◌, ◌||◌, not, Option, none, some, List, [], ◌∷◌, ◌++◌,
  any, length, str_eq, if◌then◌else◌, ◌>>=◌, leb, ltb, is_some, take, Result, ok, err, and_then,
}
use nvim_agents_zzz.Text.{codes, len, is_whitespace, is_control}
use nvim_agents_zzz.Protocol.{
  Value, RequestId, ProviderOptions, Provider, codex, claude, AgentState, pos_int, fields, idle,
  running, completed, interrupted, waiting_input, waiting_approval, disconnected,
}
use nvim_agents_zzz.Transcript.{push_user}
use nvim_agents_zzz.Broker.Agents.{
  Services, ManagedAgent, AgentCommand, prompt, steer, QueuedPrompt, find, put,
}
use nvim_agents_zzz.Broker.State.{same_state}
use nvim_agents_zzz.Broker.Core.{
  State, response, error, send, send_ready, notify_state, transcript_patch,
}
use nvim_agents_zzz.Broker.Context.{Paths, merge_input_contexts}
use nvim_agents_zzz.Broker.Requests.{runtime_request, without_pending}

pub data InputKind : Type 0 where
  as_prompt as_steer : InputKind

pub record TurnInputParams : Type 0 where
  pub queue : Bool
  pub agent_id : String
  pub text : String
  pub attachments : List Value
  pub provider_options : Option ProviderOptions

-- A text that is given and empty, too long, or has a control character.
abbrev is_invalid : Option String → ℕ → Bool
is_invalid none limit = false
is_invalid (some s) limit = str_eq s "" || ltb limit (len (codes s)) || any is_control (codes s)

abbrev is_claude_effort : Option String → Bool
is_claude_effort none = true
is_claude_effort (some s) =
    str_eq s "low" || str_eq s "medium" || str_eq s "high" || str_eq s "xhigh" || str_eq s "max"

abbrev is_claude : Provider → Bool
is_claude claude = true
is_claude codex = false

unfoldable pub validate_provider_options :
    Provider → ProviderOptions → Result ProviderOptions String
validate_provider_options provider options =
    if is_invalid options.model 256
    then err "provider model is invalid"
    else if is_invalid options.effort 64
    then err "provider effort is invalid"
    else if is_claude provider && not (is_claude_effort options.effort)
    then err "Claude effort must be low, medium, high, xhigh, or max"
    else ok options

abbrev same_option : Option String → Option String → Bool
same_option none none = true
same_option (some a) (some b) = str_eq a b
same_option a b = false

abbrev same_options : ProviderOptions → ProviderOptions → Bool
same_options a b = same_option a.model b.model && same_option a.effort b.effort

abbrev pub is_steer : InputKind → Bool
is_steer as_steer = true
is_steer as_prompt = false

-- The first word of a text and what follows it are gathered from the end.
unfoldable pub split_whitespace : String → List String
split_whitespace text = finish (words text)
  where
    words : String → String × List String
    words String.[] = ("", [])
    words (String.◌∷◌ c s) =
        let (word, rest) = words s in
        if is_whitespace (code c)
        then ("", if str_eq word "" then rest else word ∷ rest)
        else (String.◌∷◌ c word, rest)

    finish : String × List String → List String
    finish (word, rest) = if str_eq word "" then rest else word ∷ rest

abbrev join_words : List String → String
join_words [] = ""
join_words (w ∷ []) = w
join_words (w ∷ v ∷ ws) = str_append w (str_append " " (join_words (v ∷ ws)))

abbrev take_chars : ℕ → String → String
take_chars zero s = ""
take_chars (suc n) String.[] = ""
take_chars (suc n) (String.◌∷◌ c s) = String.◌∷◌ c (take_chars n s)

unfoldable pub prompt_title : String → String
unfolding split_whitespace
prompt_title text =
    let title = take_chars 96 (join_words (take 6 (split_whitespace text))) in
    if str_eq title "" then "session" else title

module _ (services : Services) (paths : Paths) where
  -- The options of an input: those asked for, or the agent's own.
  unfoldable pub input_provider_options :
      ManagedAgent services → Option ProviderOptions → InputKind → Result ProviderOptions String
  unfolding validate_provider_options
  input_provider_options agent requested kind =
      let current = agent.summary.provider_options in
      let options = elim requested as (λ _. ProviderOptions) [
        | none ↦ current
        | some given ↦ given
      ] in
      and_then (validate_provider_options agent.summary.provider options) (λ valid.
        if is_steer kind && not (same_options valid current)
        then err "provider options apply to ordinary prompts, not active-turn steering"
        else ok valid)

  abbrev is_busy : AgentState → Bool
  is_busy state =
      same_state state running
      || same_state state waiting_input
      || same_state state waiting_approval

  abbrev takes_prompt : AgentState → Bool
  takes_prompt state =
      same_state state idle || same_state state completed || same_state state interrupted

  unfoldable pub queues : TurnInputParams → InputKind → AgentState → Bool
  queues parsed kind state = parsed.queue && not (is_steer kind) && is_busy state

  unfoldable pub is_allowed : TurnInputParams → InputKind → AgentState → Bool
  unfolding queues
  is_allowed parsed as_prompt state = queues parsed as_prompt state || takes_prompt state
  is_allowed parsed as_steer state = same_state state running

  -- The agent that a prompt sets to work.
  unfoldable pub begin_prompt :
      String → ManagedAgent services → QueuedPrompt → ManagedAgent services
  unfolding prompt_title
  begin_prompt now agent input =
      let titled = not agent.has_prompted && not (is_some agent.summary.managed_workspace) in
      record agent {
        has_prompted = true;
        title_from_prompt = if titled then true else agent.title_from_prompt;
        summary = record agent.summary {
          state = running;
          provider_options = input.provider_options;
          title = if titled then prompt_title input.text else agent.summary.title;
          updated_at = now;
        };
      }

  abbrev pub begun :
      String → InputKind → ManagedAgent services → QueuedPrompt → ManagedAgent services
  begun now as_prompt agent input = begin_prompt now agent input
  begun now as_steer agent input = agent

  abbrev pub command_of : InputKind → RequestId → QueuedPrompt → AgentCommand
  command_of as_prompt id input = prompt id input.text input.attachments input.provider_options
  command_of as_steer id input = steer id input.text input.attachments

  unfoldable pub record_user_input : State services → String → String → Option (State services)
  unfolding send_ready
  record_user_input broker agent_id text = elim (find agent_id broker.agents) [
    | none ↦ some broker
    | some agent ↦ do
      shown ← push_user services.is_alphanumeric agent.transcript (codes text)
      some (
          send_ready services
            (record broker {
              agents = put agent_id (record agent { transcript = shown.0 }) broker.agents;
            })
            (transcript_patch agent_id shown.1))
  ]

  abbrev pub unavailable : RequestId → State services → State services
  unavailable request_id broker = notify_state services (
      send services broker
        (error (some request_id) 32020 "Provider command channel is unavailable" none))

  -- The input is sent to an agent that is set to work.
  unfoldable pub dispatch_working :
      String
      → RequestId
      → String
      → ManagedAgent services
      → QueuedPrompt
      → InputKind
      → State services
      → Option (State services)
  unfolding runtime_request record_user_input without_pending send
  dispatch_working now request_id agent_id working input kind broker = do
    (asked, runtime_id) ←
        runtime_request services (record broker { agents = put agent_id working broker.agents })
          request_id
    elim (services.send_wait working.commands (command_of kind runtime_id input)) [
      | none ↦
          let gone = record working {
            summary = record working.summary { state = disconnected; updated_at = now };
          } in
          some (
            unavailable request_id (record asked {
              pending_runtime_requests = without_pending runtime_id asked.pending_runtime_requests;
              agents = put agent_id gone asked.agents;
            }))
      | some commands ↦ do
        told ←
            record_user_input
              (record asked {
                agents = put agent_id (record working { commands = commands }) asked.agents;
              })
              agent_id input.text
        some (if is_steer kind then told else notify_state services told)
    ]

  unfoldable pub dispatch_agent_input :
      String
      → RequestId
      → String
      → ManagedAgent services
      → QueuedPrompt
      → InputKind
      → State services
      → Option (State services)
  unfolding begin_prompt dispatch_working
  dispatch_agent_input now request_id agent_id agent input kind broker =
      dispatch_working now request_id agent_id (begun now kind agent input) input kind broker

  abbrev reason : String → Option Value
  reason text = some (Value.object (fields (("reason", Value.string text) ∷ [])))

  abbrev pub refuse : State services → RequestId → String → Option (State services)
  refuse broker id text =
      some (send services broker (error (some id) 32602 "Invalid params" (reason text)))

  -- A prompt goes to the end of the queue; any other input is dispatched.
  unfoldable pub accept_input :
      String
      → RequestId
      → TurnInputParams
      → InputKind
      → ManagedAgent services
      → QueuedPrompt
      → State services
      → Option (State services)
  unfolding dispatch_agent_input queues send
  accept_input now id parsed kind agent input broker =
      let cleared = record agent { pending_contexts = [] } in
      let queued = agent.queued_prompts ++ input ∷ [] in
      if queues parsed kind agent.summary.state
      then some (
          send services
            (record broker {
              agents =
                  put parsed.agent_id (record cleared { queued_prompts = queued }) broker.agents;
            })
            (response id (
              Value.object (
                fields (
                  ("accepted", Value.bool true)
                  ∷ ("queued", Value.bool true)
                  ∷ ("position", Value.number (pos_int (length queued)))
                  ∷ [])))))
      else dispatch_agent_input now id parsed.agent_id cleared input kind
          (record broker { agents = put parsed.agent_id cleared broker.agents })

  unfoldable pub send_agent_input :
      String
      → RequestId
      → Option TurnInputParams
      → InputKind
      → State services
      → Option (State services)
  unfolding accept_input input_provider_options queues is_allowed merge_input_contexts send
  send_agent_input now id none kind broker = refuse broker id "invalid turn input parameters"
  send_agent_input now id (some parsed) kind broker =
      if str_eq parsed.text ""
      then refuse broker id "input text must not be empty"
      else elim (find parsed.agent_id broker.agents) [
        | none ↦ some (send services broker (error (some id) 32015 "Agent was not found" none))
        | some agent ↦ elim (input_provider_options agent parsed.provider_options kind) [
          | err message ↦ refuse broker id message
          | ok options ↦
              if not (is_allowed parsed kind agent.summary.state)
              then some (
                  send services broker
                    (error (some id) 32013 "Agent state does not allow this input" none))
              else if queues parsed kind agent.summary.state && leb 32 (length agent.queued_prompts)
              then some (
                  send services broker
                    (error (some id) 32013 "Prompt queue is full (32 pending)" none))
              else elim (merge_input_contexts paths agent.pending_contexts parsed.attachments
                  agent.summary.cwd) [
                    | err message ↦ refuse broker id message
                    | ok attachments ↦
                        accept_input now id parsed kind agent
                          (record {
                            text = parsed.text;
                            attachments = attachments;
                            provider_options = options;
                          })
                          broker
                  ]
        ]
      ]
