-- ===== src/Registry.antt =====
-- registry.rs: the document that the durable broker keeps of its agents. `Path::is_absolute` and the
-- JSON of a document are parameters.
pub mod Store
pub mod Persisted
pub mod Roundtrip
use nvim_agents_zzz.Prelude.{
  ℕ, ◌+◌, ◌≡◌, String, Bool, true, false, ◌&&◌, ◌||◌, not, Option, none, some, List, [], ◌∷◌, map,
  any, str_eq, if◌then◌else◌, ltb, leb, length, ◌==◌, Result, ok, err, and_then,
}
use Prim.Native.String.{◌++◌ as str_append}
use nvim_agents_zzz.Text.{codes, len, is_control}
use nvim_agents_zzz.Protocol.{
  AgentSummary, Provider, WorkspaceStrategy, shared, worktree, ManagedWorkspace, ProviderRuntime,
  ProviderOptions, AgentState, disconnected,
}

pub record RegistryAgent : Type 0 where
  pub id : String
  pub provider : Provider
  pub provider_session_id : Option String
  pub cwd : String
  pub workspace_strategy : WorkspaceStrategy
  pub worktree_path : Option String
  pub managed_workspace : Option ManagedWorkspace
  pub runtime : Option ProviderRuntime
  pub provider_options : ProviderOptions
  pub title : String
  pub state : AgentState
  pub created_at : String
  pub updated_at : String
  pub legacy_provider_runtime_version : Option String

pub record RegistryDocument : Type 0 where
  pub schema_version : ℕ
  pub updated_at : String
  pub agents : List RegistryAgent

pub data RegistryError : Type 0 where
  io : RegistryError
  json : RegistryError
  unsafe : String → RegistryError

abbrev pub registry_schema_version : ℕ
registry_schema_version = 1

abbrev pub max_registry_bytes : ℕ
max_registry_bytes = 8388608

abbrev pub max_registry_agents : ℕ
max_registry_agents = 10000

-- `impl From<&AgentSummary> for RegistryAgent`
unfoldable pub registry_agent : AgentSummary → RegistryAgent
registry_agent summary = record {
  id = summary.id;
  provider = summary.provider;
  provider_session_id = summary.provider_session_id;
  cwd = summary.cwd;
  workspace_strategy = summary.workspace_strategy;
  worktree_path = summary.worktree_path;
  managed_workspace = summary.managed_workspace;
  runtime = summary.runtime;
  provider_options = summary.provider_options;
  title = summary.title;
  state = summary.state;
  created_at = summary.created_at;
  updated_at = summary.updated_at;
  legacy_provider_runtime_version = none;
}

abbrev bytes : String → ℕ
bytes s = len (codes s)

-- A text that is given is not empty and at most so long.
abbrev fits : ℕ → String → Bool
fits limit s = not (str_eq s "") && leb (bytes s) limit

abbrev is_none_or : Option String → (String → Bool) → Bool
is_none_or none p = true
is_none_or (some s) p = p s

unfoldable pub valid_managed_workspace : Option ManagedWorkspace → Bool
valid_managed_workspace none = true
valid_managed_workspace (some w) =
    fits 128 w.repository
    && fits 128 w.task_id
    && str_eq w.branch (str_append "agent/" w.task_id)
    && fits 256 w.base_branch

unfoldable pub valid_provider_options : ProviderOptions → Bool
valid_provider_options options =
    is_none_or options.model (λ model. fits 256 model && not (any is_control (codes model)))
    && is_none_or options.effort (λ effort. fits 64 effort && not (any is_control (codes effort)))

module _ (is_absolute : String → Bool) where
  unfoldable pub valid_runtime : Option ProviderRuntime → Bool
  valid_runtime none = true
  valid_runtime (some r) =
      fits 256 r.compatibility_profile
      && fits 256 r.provider_version
      && is_none_or r.adapter_version (fits 256)
      && is_none_or r.executable (λ path. fits 8192 path && is_absolute path)

  unfoldable pub valid_metadata : RegistryAgent → Bool
  unfolding valid_managed_workspace valid_runtime valid_provider_options
  valid_metadata agent =
      fits 256 agent.id
      && fits 8192 agent.cwd
      && is_absolute agent.cwd
      && leb (bytes agent.title) 4096
      && is_none_or agent.provider_session_id (fits 1024)
      && is_none_or agent.legacy_provider_runtime_version (λ version. leb (bytes version) 1024)
      && valid_managed_workspace agent.managed_workspace
      && valid_runtime agent.runtime
      && valid_provider_options agent.provider_options

  abbrev is_unmanaged : Option ManagedWorkspace → Bool
  is_unmanaged none = true
  is_unmanaged (some w) = false

  unfoldable pub consistent_workspace : RegistryAgent → Bool
  consistent_workspace agent = elim agent.workspace_strategy [
    | shared ↦ elim agent.worktree_path [
      | none ↦ is_unmanaged agent.managed_workspace
      | some path ↦ false
    ]
    | worktree ↦ elim agent.worktree_path [
      | none ↦ false
      | some path ↦ fits 8192 path && is_absolute path
    ]
  ]

  unfoldable pub into_disconnected_summary : RegistryAgent → Result AgentSummary RegistryError
  unfolding valid_metadata consistent_workspace
  into_disconnected_summary agent =
      if not (valid_metadata agent)
      then err (unsafe "agent metadata is invalid")
      else if not (consistent_workspace agent)
      then err (unsafe "workspace metadata is inconsistent")
      else ok (record {
        id = agent.id;
        provider = agent.provider;
        provider_session_id = agent.provider_session_id;
        cwd = agent.cwd;
        workspace_strategy = agent.workspace_strategy;
        worktree_path = agent.worktree_path;
        managed_workspace = agent.managed_workspace;
        runtime = agent.runtime;
        provider_options = agent.provider_options;
        title = agent.title;
        state = disconnected;
        active_turn_id = none;
        pending_approvals = 0;
        unread_events = 0;
        capabilities = [];
        created_at = agent.created_at;
        updated_at = agent.updated_at;
      })

  -- The agents in turn, with the ids that were seen.
  unfoldable pub restore_from :
      List String → List RegistryAgent → Result (List AgentSummary) RegistryError
  unfolding into_disconnected_summary
  restore_from seen [] = ok []
  restore_from seen (agent ∷ agents) =
      if any (str_eq agent.id) seen
      then err (unsafe "agent IDs must be unique")
      else and_then (into_disconnected_summary agent) (λ summary.
        and_then (restore_from (agent.id ∷ seen) agents) (λ summaries. ok (summary ∷ summaries)))

  -- The part of `load` after the document was read.
  unfoldable pub restore : RegistryDocument → Result (List AgentSummary) RegistryError
  unfolding restore_from
  restore document =
      if not (document.schema_version == registry_schema_version)
      then err (unsafe "schema version is unsupported")
      else if ltb max_registry_agents (length document.agents)
      then err (unsafe "agent count exceeds the limit")
      else restore_from [] document.agents
