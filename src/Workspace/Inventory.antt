-- ===== src/Workspace/Inventory.antt =====
-- workspace.rs: the inventory that is projected from an audit. `Path` is a parameter.
use nvim_agents_zzz.Prelude.{
  ℕ, String, Bool, false, ◌&&◌, ◌||◌, not, Option, none, some, List, [], ◌∷◌, str_eq, if◌then◌else◌,
  ◌==◌, is_ok, Result, ok, err, and_then,
}
use nvim_agents_zzz.Workspace.{
  WorkspaceError, unsupported_schema, unsafe_repository, TaskSummary, RepositorySummary,
  WorkspaceInventory, validate_repository, validate_task,
}
use nvim_agents_zzz.Workspace.Sorting.{sort_by}
use nvim_agents_zzz.Workspace.Receipt.{agent_branch}

pub record AuditCanonical : Type 0 where
  pub path : String
  pub base_branch : String
  pub branch : Option String
  pub clean : Bool

pub record AuditWorktree : Type 0 where
  pub task_id : Option String
  pub branch : Option String
  pub path : String
  pub head : Option String
  pub upstream : Option String
  pub lease_identity : List String
  pub lease_keep : Option String
  pub lease_transition : Option String
  pub cleanup_candidate : Bool
  pub reasons : List String

pub record AuditRepository : Type 0 where
  pub slug : String
  pub github : String
  pub canonical : AuditCanonical
  pub worktree_root : String
  pub worktrees : List AuditWorktree

pub record AuditDocument : Type 0 where
  pub schema_version : ℕ
  pub generated_at : String
  pub registry : String
  pub repositories : List AuditRepository

abbrev pub audit_schema_version : ℕ
audit_schema_version = 1

-- What the code asks of a path. `parent` and `file_name` are texts that are equal when the paths are.
pub record PathNames : Type 0 where
  pub is_absolute : String → Bool
  pub parent : String → Option String
  pub file_name : String → Option String

abbrev pub same_name : Option String → String → Bool
same_name none name = false
same_name (some s) name = str_eq s name

module _ (paths : PathNames) where
  open paths use {is_absolute, parent, file_name}

  -- The conditions under which a worktree is a task of the repository.
  unfoldable pub is_task : String → String → String → String → Bool
  is_task worktree_root task_id branch path =
      is_ok (validate_task task_id)
      && str_eq branch (agent_branch task_id)
      && is_absolute path
      && same_name (parent path) worktree_root
      && same_name (file_name path) task_id

  abbrev task_of : String → String → AuditWorktree → TaskSummary
  task_of task_id branch worktree = record {
    task_id = task_id;
    branch = branch;
    path = worktree.path;
    head = worktree.head;
    upstream = worktree.upstream;
    lease_identity = worktree.lease_identity;
    lease_keep = worktree.lease_keep;
    lease_transition = worktree.lease_transition;
    cleanup_candidate = worktree.cleanup_candidate;
    reasons = worktree.reasons;
  }

  unfoldable pub project_tasks : String → List AuditWorktree → List TaskSummary
  unfolding is_task
  project_tasks worktree_root [] = []
  project_tasks worktree_root (worktree ∷ rest) =
      let others = project_tasks worktree_root rest in
      elim worktree.task_id as (λ o. List TaskSummary) [
        | none ↦ others
        | some task_id ↦ elim worktree.branch as (λ o. List TaskSummary) [
          | none ↦ others
          | some branch ↦
              if is_task worktree_root task_id branch worktree.path
              then task_of task_id branch worktree ∷ others
              else others
        ]
      ]

  abbrev pub is_unsafe : AuditRepository → Bool
  is_unsafe repository =
      str_eq repository.github ""
      || str_eq repository.canonical.base_branch ""
      || not (is_absolute repository.canonical.path)
      || not (is_absolute repository.worktree_root)

  abbrev summary_of : AuditRepository → RepositorySummary
  summary_of repository = record {
    slug = repository.slug;
    github = repository.github;
    canonical_path = repository.canonical.path;
    base_branch = repository.canonical.base_branch;
    canonical_branch = repository.canonical.branch;
    canonical_clean = repository.canonical.clean;
    worktree_root = repository.worktree_root;
    tasks =
        sort_by (λ (task : TaskSummary). task.task_id)
          (project_tasks repository.worktree_root repository.worktrees);
  }

  unfoldable pub project_repositories :
      List AuditRepository → Result (List RepositorySummary) WorkspaceError
  unfolding project_tasks sort_by
  project_repositories [] = ok []
  project_repositories (repository ∷ rest) = and_then (validate_repository repository.slug) (λ _.
      if is_unsafe repository
      then err unsafe_repository
      else and_then (project_repositories rest) (λ others. ok (summary_of repository ∷ others)))

  unfoldable pub project_inventory : AuditDocument → Result WorkspaceInventory WorkspaceError
  unfolding project_repositories sort_by
  project_inventory document =
      if not (document.schema_version == audit_schema_version)
      then err unsupported_schema
      else if str_eq document.registry "" || not (is_absolute document.registry)
      then err unsafe_repository
      else and_then (project_repositories document.repositories) (λ repositories. ok (record {
        schema_version = document.schema_version;
        generated_at = document.generated_at;
        registry = document.registry;
        repositories = sort_by (λ (repository : RepositorySummary). repository.slug) repositories;
      }))
