-- ===== src/Protocol.antt =====
-- protocol.rs: the public protocol's data, and the JSON values that it carries.
-- `Value` is the documented shape of serde_json's value: an object is read by its first entry of a
-- key. A float is kept as its text.
use nvim_agents_zzz.Prelude.{
  ◌==◌, ℕ, String, Bool, false, Option, none, some, List, [], ◌∷◌, str_eq, if◌then◌else◌,
}

pub data Number : Type 0 where
  pos_int : ℕ → Number
  neg_int : ℕ → Number
  float : String → Number

mutual
  pub data Value : Type 0 where
    null : Value
    bool : Bool → Value
    number : Number → Value
    string : String → Value
    array : Values → Value
    object : Fields → Value

  pub data Values : Type 0 where
    nil : Values
    cons : Value → Values → Values

  pub data Fields : Type 0 where
    end : Fields
    field : String → Value → Fields → Fields

abbrev pub find_field : String → Fields → Option Value
find_field k end = none
find_field k (field j v fs) = if str_eq j k then some v else find_field k fs

-- `value.get(key)`
abbrev pub get : Value → String → Option Value
get (object fs) k = find_field k fs
get v k = none

-- `value[key]`
abbrev pub index : Value → String → Value
index v k = elim (get v k) [ none ↦ null | some w ↦ w ]

abbrev pub as_str : Value → Option String
as_str (string s) = some s
as_str v = none

abbrev pub as_bool : Value → Option Bool
as_bool (bool b) = some b
as_bool v = none

abbrev pub as_array : Value → Option Values
as_array (array vs) = some vs
as_array v = none

-- The fields of `json!`, in the order in which they are written.
abbrev pub fields : List (String × Value) → Fields
fields [] = end
fields (f ∷ fs) = field f.0 f.1 (fields fs)

-- An optional text in `json!`: null when there is none.
abbrev pub optional : Option String → Value
optional none = null
optional (some s) = string s

abbrev pub optional_value : Option Value → Value
optional_value none = null
optional_value (some v) = v

abbrev pub list_of : Values → List Value
list_of nil = []
list_of (cons v vs) = v ∷ list_of vs

abbrev pub values : List Value → Values
values [] = nil
values (v ∷ vs) = cons v (values vs)

-- `value == "text"` and `value == true`
abbrev pub is_text : Value → String → Bool
is_text (string s) t = str_eq s t
is_text v t = false

abbrev pub is_true : Value → Bool
is_true (bool b) = b
is_true v = false

pub data RequestId : Type 0 where
  integer : ℕ → RequestId
  negative : ℕ → RequestId
  text : String → RequestId

-- `==` on ids
abbrev pub same_id : RequestId → RequestId → Bool
same_id (integer m) (integer n) = m == n
same_id (negative m) (negative n) = m == n
same_id (text s) (text t) = str_eq s t
same_id a b = false

-- How a request's id is written.
abbrev pub id_value : RequestId → Value
id_value (integer n) = number (pos_int n)
id_value (negative n) = number (neg_int n)
id_value (text s) = string s

pub data Provider : Type 0 where
  codex claude : Provider

pub data WorkspaceStrategy : Type 0 where
  shared worktree : WorkspaceStrategy

pub record ProviderOptions : Type 0 where
  pub model : Option String
  pub effort : Option String

pub record ManagedWorkspace : Type 0 where
  pub repository : String
  pub task_id : String
  pub branch : String
  pub base_branch : String

pub record ProviderRuntime : Type 0 where
  pub compatibility_profile : String
  pub provider_version : String
  pub adapter_version : Option String
  pub executable : Option String

pub data AgentState : Type 0 where
  starting idle running waiting_input waiting_approval completed interrupted failed : AgentState
  disconnected : AgentState

pub data CapabilityName : Type 0 where
  streaming multi_turn history resume fork interrupt steer approvals questions : CapabilityName
  usage file_changes diff replay : CapabilityName

pub record Capability : Type 0 where
  pub name : CapabilityName
  pub available : Bool
  pub reason : Option String

pub record AgentSummary : Type 0 where
  pub id : String
  pub provider : Provider
  pub provider_session_id : Option String
  pub cwd : String
  pub workspace_strategy : WorkspaceStrategy
  pub worktree_path : Option String
  pub managed_workspace : Option ManagedWorkspace
  pub runtime : Option ProviderRuntime
  pub provider_options : ProviderOptions
  pub title : String
  pub state : AgentState
  pub active_turn_id : Option String
  pub pending_approvals : ℕ
  pub unread_events : ℕ
  pub capabilities : List Capability
  pub created_at : String
  pub updated_at : String

abbrev pub protocol_version : ℕ
protocol_version = 1

pub record EventEnvelope : Type 0 where
  pub protocol_version : ℕ
  pub sequence : ℕ
  pub timestamp : String
  pub agent_id : String
  pub provider : Provider
  pub event_type : String
  pub payload : Value
  pub provider_event : Value

-- EventEnvelope::new
abbrev pub new_event : String → String → Provider → String → Value → Value → EventEnvelope
new_event timestamp agent_id provider event_type payload provider_event = record {
  protocol_version = protocol_version;
  sequence = 0;
  timestamp = timestamp;
  agent_id = agent_id;
  provider = provider;
  event_type = event_type;
  payload = payload;
  provider_event = provider_event;
}
