-- ===== src/Broker/Agents.antt =====
-- embedded.rs: the agents that the broker manages, and what they are told. The channel to an agent's
-- runtime is a parameter.
use nvim_agents_zzz.Prelude.{
  ℕ, String, Bool, Option, none, some, List, [], ◌∷◌, str_eq, if◌then◌else◌,
}
use nvim_agents_zzz.Protocol.{Value, Fields, RequestId, AgentSummary, ProviderOptions}
use nvim_agents_zzz.Transcript.{Transcript}

pub data AgentCommand : Type 0 where
  prompt : RequestId → String → List Value → ProviderOptions → AgentCommand
  steer : RequestId → String → List Value → AgentCommand
  interrupt : RequestId → AgentCommand
  history : RequestId → Option String → Option ℕ → AgentCommand
  approval : RequestId → String → String → Option Value → Option String → AgentCommand
  question : RequestId → String → String → Fields → Option String → AgentCommand
  client_disconnected shutdown : AgentCommand

pub record QueuedPrompt : Type 0 where
  pub text : String
  pub attachments : List Value
  pub provider_options : ProviderOptions

-- What the broker uses of the outside: the sending half of a channel, whose `try_send` takes a
-- command or refuses it, and whose `send` waits for room and is refused by a closed channel; the characters that are alphanumeric; the last part of a path; a number's
-- digits; and the stores of registry.rs and status.rs. `persist` says whether it succeeded, `bytes` is the registry's size,
-- and the two updates of the status take a word, the number of agents and that size.
pub record Services : Type 1 where
  pub Sender : Type 0
  pub try_send : Sender → AgentCommand → Option Sender
  pub send_wait : Sender → AgentCommand → Option Sender
  pub is_alphanumeric : ℕ → Bool
  pub file_name : String → Option String
  pub decimal : ℕ → String
  pub Registry : Type 0
  pub persist : Registry → List AgentSummary → Bool × Registry
  pub bytes : Registry → ℕ
  pub Status : Type 0
  pub failure : Status → String → ℕ → ℕ → Status
  pub success : Status → String → ℕ → ℕ → Status

pub record ManagedAgent (services : Services) : Type 0 where
  pub summary : AgentSummary
  pub workspace_identity : String
  pub commands : services.Sender
  pub task : Bool
  pub pending_contexts : List Value
  pub queued_prompts : List QueuedPrompt
  pub pending_questions : ℕ
  pub has_prompted : Bool
  pub title_from_prompt : Bool
  pub transcript : Transcript

-- `HashMap<String, _>`, as the list of its entries.
module _ {ℓ} {A : Type ℓ} where
  -- `get`
  unfoldable pub find : String → List (String × A) → Option A
  find key [] = none
  find key (entry ∷ rest) = if str_eq entry.0 key then some entry.1 else find key rest

  -- What `get_mut` leaves: another value of a key that is there.
  unfoldable pub put : String → A → List (String × A) → List (String × A)
  put key value [] = []
  put key value (entry ∷ rest) =
      let others = put key value rest in
      if str_eq entry.0 key then (entry.0, value) ∷ rest else entry ∷ others

  -- `remove`
  unfoldable pub remove : String → List (String × A) → List (String × A)
  remove key [] = []
  remove key (entry ∷ rest) =
      let others = remove key rest in if str_eq entry.0 key then others else entry ∷ others
