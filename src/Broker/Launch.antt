-- ===== src/Broker/Launch.antt =====
-- embedded.rs: starting, resuming, forking, retiring and archiving agents. The parameters of a request have
-- been parsed: `none` is a failure to parse them. A result of `none` is a panic.
use nvim_agents_zzz.Prelude.{
  ℕ, String, Bool, true, false, ◌&&◌, ◌||◌, not, Option, none, some, List, [], ◌∷◌, ◌++◌, any,
  str_eq, if◌then◌else◌, ◌>>=◌, is_some, Result, ok, err,
}
use nvim_agents_zzz.Protocol.{
  Value, RequestId, Provider, codex, claude, ProviderOptions, WorkspaceStrategy, shared, worktree,
  ManagedWorkspace, starting, failed, disconnected, CapabilityName, Capability, streaming,
  multi_turn, history, steer, approvals, questions, usage, file_changes, diff, replay, fields,
}
use nvim_agents_zzz.Transcript.{empty}
use nvim_agents_zzz.Broker.Agents.{Services, ManagedAgent, remove}
use nvim_agents_zzz.Broker.State.{same_state}
use nvim_agents_zzz.Broker.Core.{
  State, Outgoing, durable, is_durable, error, send, notify_state, directory_title,
}
use nvim_agents_zzz.Broker.Requests.{runtime_request}
use nvim_agents_zzz.Broker.Checkout.{
  SessionLaunch, start, Host, canonical_directory, validate_workspace, checkout_identity,
  is_codex_directory_resume,
}

pub record ManagedWorkspaceParams : Type 0 where
  pub repository : String
  pub task_id : String
  pub resume : Bool

-- `StartParams`, and `ResumeParams` beside the session.
pub record StartParams : Type 0 where
  pub provider : Provider
  pub cwd : Option String
  pub workspace_strategy : Option WorkspaceStrategy
  pub worktree_path : Option String
  pub managed_workspace : Option ManagedWorkspaceParams
  pub provider_options : Option ProviderOptions

pub record ResolvedWorkspace : Type 0 where
  pub cwd : String
  pub strategy : WorkspaceStrategy
  pub worktree_path : Option String
  pub managed : Option ManagedWorkspace

-- Why a workspace is refused.
pub record Refusal : Type 0 where
  pub code : ℕ
  pub message : String
  pub details : Option Value

abbrev refused : ℕ → String → Refusal
refused code message = record { code = code; message = message; details = none }

abbrev invalid : String → Refusal
invalid reason = record {
  code = 32602;
  message = "Invalid params";
  details = some (Value.object (fields (("reason", Value.string reason) ∷ [])));
}

abbrev pub refusal_message : RequestId → Refusal → Outgoing
refusal_message id refusal = error (some id) refusal.code refusal.message refusal.details

abbrev available : CapabilityName → Capability
available name = record { name = name; available = true; reason = none }

abbrev projected : Provider → Option String
projected claude = some "Projected from Claude tool and hook events when paths are supplied"
projected codex = none

unfoldable pub capabilities : Provider → List Capability
capabilities provider =
    available streaming
    ∷ available multi_turn
    ∷ available history
    ∷ available CapabilityName.resume
    ∷ available CapabilityName.fork
    ∷ available CapabilityName.interrupt
    ∷ available steer
    ∷ available approvals
    ∷ available questions
    ∷ available usage
    ∷ record { name = file_changes; available = true; reason = projected provider }
    ∷ available diff
    ∷ available replay
    ∷ []

-- What a launch uses of the configuration and the outside: `claim` of workspace.rs with an error's text, a new
-- UUID, and the channel to a runtime that is spawned.
pub record Launching (services : Services) : Type 0 where
  pub host : Host
  pub allow_shared_workspaces : Bool
  pub claim : Option (ManagedWorkspaceParams → Result (String × ManagedWorkspace) String)
  pub new_id : String
  pub spawn :
      Provider → String → String → RequestId → SessionLaunch → ProviderOptions → services.Sender

abbrev is_shared : WorkspaceStrategy → Bool
is_shared shared = true
is_shared worktree = false

abbrev is_start : SessionLaunch → Bool
is_start start = true
is_start launch = false

abbrev pub owns_task : String → String → Option ManagedWorkspace → Bool
owns_task repository task_id none = false
owns_task repository task_id (some workspace) =
    str_eq workspace.repository repository && str_eq workspace.task_id task_id

module _ (services : Services) (launching : Launching services) (now : String) where
  open launching use {host}

  abbrev pub is_live : String × ManagedAgent services → Bool
  is_live entry = entry.1.task

  -- An agent that may write to its checkout.
  abbrev pub is_writer : ManagedAgent services → Bool
  is_writer agent =
      agent.task
      && not (same_state agent.summary.state disconnected || same_state agent.summary.state failed)

  abbrev pub refusal : RequestId → ℕ → String → Outgoing
  refusal id code message = error (some id) code message none

  unfoldable pub resolve_explicit_workspace :
      State services
      → Option String
      → Option WorkspaceStrategy
      → Option String
      → Result ResolvedWorkspace Refusal
  unfolding canonical_directory validate_workspace
  resolve_explicit_workspace broker (some raw) (some strategy) worktree_path =
      elim (canonical_directory host raw) as (λ r. Result ResolvedWorkspace Refusal) [
        | err message ↦ err (invalid message)
        | ok cwd ↦
            elim (validate_workspace host strategy worktree_path cwd broker.mode)
              as (λ r. Result ResolvedWorkspace Refusal) [
                | err message ↦ err (invalid message)
                | ok path ↦ ok (record {
                  cwd = cwd;
                  strategy = strategy;
                  worktree_path = path;
                  managed = none;
                })
              ]
      ]
  resolve_explicit_workspace broker cwd strategy worktree_path =
      err (invalid "explicit launches require cwd and workspace_strategy")

  unfoldable pub resolve_managed_workspace :
      State services → ManagedWorkspaceParams → Result ResolvedWorkspace Refusal
  unfolding canonical_directory validate_workspace
  resolve_managed_workspace broker managed =
      if not (is_durable broker.mode) && any is_live broker.agents
      then err (refused 32011 "M2 embedded mode supports one live agent")
      else if any
          (λ entry.
            is_live entry
            && owns_task managed.repository managed.task_id entry.1.summary.managed_workspace)
          broker.agents
      then err (refused 32012 "A writable agent already owns this managed task")
      else elim launching.claim as (λ o. Result ResolvedWorkspace Refusal) [
        | none ↦ err (refused 32030 "Managed workspace lifecycle is disabled")
        | some claim ↦ elim (claim managed) as (λ r. Result ResolvedWorkspace Refusal) [
          | err message ↦ err (refused 32030 message)
          | ok (path, metadata) ↦
              elim (canonical_directory host path) as (λ r. Result ResolvedWorkspace Refusal) [
                | err message ↦ err (invalid message)
                | ok cwd ↦
                    elim (validate_workspace host worktree (some path) cwd durable)
                      as (λ r. Result ResolvedWorkspace Refusal) [
                        | err message ↦ err (invalid message)
                        | ok worktree_path ↦ ok (record {
                          cwd = cwd;
                          strategy = worktree;
                          worktree_path = worktree_path;
                          managed = some metadata;
                        })
                      ]
              ]
        ]
      ]

  unfoldable pub resolve_launch_workspace :
      State services → StartParams → Result ResolvedWorkspace Refusal
  unfolding resolve_explicit_workspace resolve_managed_workspace
  resolve_launch_workspace broker parsed =
      elim parsed.managed_workspace as (λ o. Result ResolvedWorkspace Refusal) [
        | none ↦
            resolve_explicit_workspace broker parsed.cwd parsed.workspace_strategy
              parsed.worktree_path
        | some managed ↦
            if is_some parsed.cwd
              || is_some parsed.workspace_strategy
              || is_some parsed.worktree_path
            then err (invalid "managed_workspace cannot be combined with explicit workspace fields")
            else resolve_managed_workspace broker managed
      ]

  unfoldable pub workspace_launch_allowed : Provider → ResolvedWorkspace → SessionLaunch → Bool
  unfolding is_codex_directory_resume
  workspace_launch_allowed provider workspace launch = not (
      is_shared workspace.strategy
      && not launching.allow_shared_workspaces
      && not (is_codex_directory_resume host provider launch workspace.cwd))

  abbrev strategy_name : WorkspaceStrategy → String
  strategy_name shared = "shared"
  strategy_name worktree = "worktree"

  -- The agent that is launched.
  unfoldable pub launched :
      Provider
      → ResolvedWorkspace
      → ProviderOptions
      → SessionLaunch
      → RequestId
      → ManagedAgent services
  unfolding capabilities checkout_identity directory_title
  launched provider workspace options launch id = record {
    summary = record {
      id = launching.new_id;
      provider = provider;
      provider_session_id = none;
      cwd = workspace.cwd;
      workspace_strategy = workspace.strategy;
      worktree_path = workspace.worktree_path;
      managed_workspace = workspace.managed;
      runtime = none;
      provider_options = options;
      title = directory_title services workspace.cwd provider;
      state = starting;
      active_turn_id = none;
      pending_approvals = 0;
      unread_events = 0;
      capabilities = capabilities provider;
      created_at = now;
      updated_at = now;
    };
    workspace_identity = checkout_identity host workspace.strategy workspace.cwd;
    commands = launching.spawn provider launching.new_id workspace.cwd id launch options;
    task = true;
    pending_contexts = [];
    queued_prompts = [];
    pending_questions = 0;
    has_prompted = not (is_start launch);
    title_from_prompt = false;
    transcript = empty;
  }

  -- The broker after the launch, and the agent's id; or the refusal.
  unfoldable pub launch_agent :
      RequestId
      → Provider
      → ResolvedWorkspace
      → ProviderOptions
      → SessionLaunch
      → State services
      → Option (State services × Option String)
  unfolding workspace_launch_allowed launched runtime_request send notify_state
  launch_agent request_id provider workspace options launch broker =
      let identity = checkout_identity host workspace.strategy workspace.cwd in
      if not (workspace_launch_allowed provider workspace launch)
      then some (
        send services broker
            (refusal request_id 32031 "Shared-checkout starts are disabled by broker policy"),
        none,
      )
      else if not (is_durable broker.mode) && any is_live broker.agents
      then some (
        send services broker (refusal request_id 32011 "M2 embedded mode supports one live agent"),
        none,
      )
      else if any (λ entry. is_writer entry.1 && str_eq entry.1.workspace_identity identity)
          broker.agents
      then some (
        send services broker (
            error (some request_id) 32012
              "A writable agent already owns this checkout; select an isolated worktree"
              (some (
                Value.object (
                  fields (
                    ("reason", Value.string "shared_checkout_writer_conflict")
                    ∷ ("cwd", Value.string workspace.cwd)
                    ∷ ("workspace_strategy", Value.string (strategy_name workspace.strategy))
                    ∷ []))))),
        none,
      )
      else (runtime_request services broker request_id >>= λ asked. some (
        notify_state services (record asked.0 {
          agent_order = asked.0.agent_order ++ launching.new_id ∷ [];
          agents =
              (launching.new_id, launched provider workspace options launch asked.1)
              ∷ remove launching.new_id asked.0.agents;
        }),
        some launching.new_id,
      ))
