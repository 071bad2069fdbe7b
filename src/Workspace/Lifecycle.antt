-- ===== src/Workspace/Lifecycle.antt =====
-- workspace.rs: claims, audits and handoffs. Running the lifecycle command and git, the file system, and the
-- decoding of UTF-8 and of an audit's JSON are parameters.
use Prim.Native.Char.{code}
use Prim.Native.String.{◌++◌ as str_append}
use nvim_agents_zzz.Prelude.{
  ℕ, String, Bool, false, ◌&&◌, ◌||◌, not, Option, none, some, List, [], ◌∷◌, ◌++◌, str_eq,
  if◌then◌else◌, ltb, leb, ◌>>=◌, is_ok, length, Result, ok, err, and_then, ok_or,
}
use nvim_agents_zzz.Text.{is_whitespace}
use nvim_agents_zzz.Protocol.{ManagedWorkspace}
use nvim_agents_zzz.Workspace.{
  WorkspaceError, too_large, invalid_json, unsafe_repository, missing_task, TaskSummary,
  RepositorySummary, WorkspaceInventory, validate_repository, validate_task, strip_prefix,
}
use nvim_agents_zzz.Workspace.Receipt.{ClaimReceipt, agent_branch, parse_claim_receipt}
use nvim_agents_zzz.Workspace.Inventory.{PathNames, same_name, AuditDocument, project_inventory}

-- What a `git` command that ended has given.
pub record GitOutput : Type 0 where
  pub success : Bool
  pub stdout : List ℕ

pub record Marker : Type 0 where
  pub is_file : Bool
  pub len : ℕ

-- `run` gives the world after the command, and its output or the reason of its failure.
pub record Outside : Type 1 where
  pub World : Type 0
  pub run : World → List String → World × Result (List ℕ) WorkspaceError
  pub git : World → String → List String → Result GitOutput WorkspaceError
  pub paths : PathNames
  pub canonicalize : World → String → Option String
  pub is_dir : World → String → Bool
  pub join : String → String → String
  pub symlink_metadata : World → String → Option Marker
  pub from_utf8 : List ℕ → Option String
  pub decode : List ℕ → Option AuditDocument
  pub owner_pid : String

abbrev pub max_audit_bytes : ℕ
max_audit_bytes = 8388608

-- `str::trim`
unfoldable pub trim : String → String
trim s = trim_end (trim_start s)
  where
    trim_start : String → String
    trim_start String.[] = ""
    trim_start (String.◌∷◌ c s) =
        let rest = trim_start s in if is_whitespace (code c) then rest else String.◌∷◌ c s

    trim_end : String → String
    trim_end String.[] = ""
    trim_end (String.◌∷◌ c s) =
        let rest = trim_end s in
        if is_whitespace (code c) && str_eq rest "" then "" else String.◌∷◌ c rest

unfoldable pub find_by {ℓ} : {A : Type ℓ} → (A → Bool) → List A → Option A
find_by p [] = none
find_by p (a ∷ rest) = let later = find_by p rest in if p a then some a else later

module _ (outside : Outside) where
  open outside use {World, run, paths, from_utf8}

  unfoldable pub git_value : World → String → List String → Result String WorkspaceError
  unfolding trim
  git_value world cwd arguments = and_then (outside.git world cwd arguments) (λ output.
      if not output.success || ltb 8192 (length output.stdout)
      then err unsafe_repository
      else and_then (ok_or (from_utf8 output.stdout) unsafe_repository) (λ text.
        let value = trim text in if str_eq value "" then err unsafe_repository else ok value))

  unfoldable pub git_path : World → String → String → Result String WorkspaceError
  unfolding git_value
  git_path world cwd argument = and_then (git_value world cwd ("rev-parse" ∷ argument ∷ [])) (λ raw.
      ok_or
        (outside.canonicalize world (if paths.is_absolute raw then raw else outside.join cwd raw))
        unsafe_repository)

  -- The path names a task of the repository.
  abbrev pub is_named : String → String → String → Bool
  is_named path repository task_id =
      paths.is_absolute path
      && same_name (paths.file_name path) task_id
      && same_name (paths.parent path >>= paths.file_name) repository

  abbrev is_marker : Option Marker → Bool
  is_marker none = false
  is_marker (some marker) = marker.is_file && leb marker.len 8192

  unfoldable valid_base : String → Option String
  valid_base merge = strip_prefix "refs/heads/" merge >>= λ value.
      if is_ok (validate_repository value) then some value else none

  unfoldable pub validate_claim_receipt :
      World → ClaimReceipt → String → String → Result String WorkspaceError
  unfolding git_value git_path valid_base
  validate_claim_receipt world receipt repository task_id =
      if not (is_named receipt.path repository task_id)
      then err unsafe_repository
      else and_then (ok_or (outside.canonicalize world receipt.path) unsafe_repository)
          (λ canonical.
            if not (str_eq canonical receipt.path) || not (outside.is_dir world canonical)
            then err unsafe_repository
            else if not (is_marker (outside.symlink_metadata world (outside.join canonical ".git")))
            then err unsafe_repository
            else and_then (git_value world canonical ("rev-parse" ∷ "--show-toplevel" ∷ [])) (λ raw.
              and_then (ok_or (outside.canonicalize world raw) unsafe_repository) (λ top_level.
                and_then (git_path world canonical "--git-dir") (λ git_directory.
                  and_then (git_path world canonical "--git-common-dir") (λ common_directory.
                    if not (str_eq top_level canonical) || str_eq git_directory common_directory
                    then err unsafe_repository
                    else and_then
                        (git_value world canonical
                          ("symbolic-ref" ∷ "--quiet" ∷ "--short" ∷ "HEAD" ∷ []))
                        (λ branch.
                          if not (str_eq branch receipt.branch)
                          then err missing_task
                          else and_then
                              (git_value world canonical (
                                "config"
                                ∷ "--get"
                                ∷ str_append "branch." (str_append receipt.branch ".merge")
                                ∷ []))
                              (λ merge. ok_or (valid_base merge) unsafe_repository)))))))

  abbrev pub audit_arguments : Option String → List String
  audit_arguments none = "audit" ∷ "--json" ∷ []
  audit_arguments (some repository) = "audit" ∷ repository ∷ "--json" ∷ []

  abbrev valid_scope : Option String → Result (Unit {0}) WorkspaceError
  valid_scope none = ok tt
  valid_scope (some repository) = validate_repository repository

  -- What an audit's output says.
  unfoldable pub read_audit : List ℕ → Result WorkspaceInventory WorkspaceError
  unfolding project_inventory
  read_audit output =
      if ltb max_audit_bytes (length output)
      then err too_large
      else and_then (ok_or (outside.decode output) invalid_json) (project_inventory paths)

  unfoldable pub audit : World → Option String → World × Result WorkspaceInventory WorkspaceError
  unfolding read_audit
  audit world repository = elim (valid_scope repository) [
    | err e ↦ (world, err e)
    | ok valid ↦
        let (after, output) = run world (audit_arguments repository) in
        (after, and_then output read_audit)
  ]

  unfoldable pub inventory : World → World × Result WorkspaceInventory WorkspaceError
  unfolding audit
  inventory world = audit world none

  abbrev pub valid_names : String → String → Result (Unit {0}) WorkspaceError
  valid_names repository task_id =
      and_then (validate_repository repository) (λ _. validate_task task_id)

  abbrev pub handoff_arguments : String → String → List String
  handoff_arguments repository task_id =
      "handoff" ∷ repository ∷ task_id ∷ "--owner-pid" ∷ outside.owner_pid ∷ []

  unfoldable pub handoff : World → String → String → World × Result (Unit {0}) WorkspaceError
  handoff world repository task_id = elim (valid_names repository task_id) [
    | err e ↦ (world, err e)
    | ok valid ↦
        let (after, output) = run world (handoff_arguments repository task_id) in
        (after, and_then output (λ _. ok tt))
  ]

  abbrev pub claim_arguments : String → String → Bool → List String
  claim_arguments repository task_id resume =
      ("claim" ∷ repository ∷ task_id ∷ "--owner-pid" ∷ outside.owner_pid ∷ [])
      ++ (if resume then "--resume" ∷ [] else [])

  abbrev pub Claim : Type 0
  Claim = String × ManagedWorkspace

  abbrev managed : String → String → String → String → ManagedWorkspace
  managed repository task_id branch base_branch = record {
    repository = repository;
    task_id = task_id;
    branch = branch;
    base_branch = base_branch;
  }

  -- The claim by its receipt, when that is read and valid.
  unfoldable pub by_receipt : World → List ℕ → String → String → Result Claim WorkspaceError
  unfolding validate_claim_receipt parse_claim_receipt
  by_receipt world output repository task_id =
      and_then (parse_claim_receipt from_utf8 output repository task_id) (λ receipt.
        and_then (validate_claim_receipt world receipt repository task_id)
          (λ base_branch. ok (receipt.path, managed repository task_id receipt.branch base_branch)))

  -- The claim in the inventory of an audit.
  unfoldable pub by_inventory : WorkspaceInventory → String → String → Result Claim WorkspaceError
  unfolding find_by
  by_inventory inventory repository task_id =
      and_then
        (ok_or
          (find_by (λ (r : RepositorySummary). str_eq r.slug repository) inventory.repositories)
          unsafe_repository)
        (λ summary.
          and_then
            (ok_or (find_by (λ (t : TaskSummary). str_eq t.task_id task_id) summary.tasks)
              missing_task)
            (λ task.
              if not (str_eq task.branch (agent_branch task_id))
                || not (paths.is_absolute task.path)
              then err missing_task
              else ok (task.path, managed summary.slug task_id task.branch summary.base_branch)))

  unfoldable pub claim : World → String → String → Bool → World × Result Claim WorkspaceError
  unfolding handoff audit by_receipt by_inventory
  claim world repository task_id resume = elim (valid_names repository task_id) [
    | err e ↦ (world, err e)
    | ok valid ↦
        let (taken, output) = run world (claim_arguments repository task_id resume) in
        elim output [
          | err e ↦ (taken, err e)
          | ok bytes ↦ elim (by_receipt taken bytes repository task_id) [
            | ok claimed ↦ (taken, ok claimed)
            | err _ ↦
                let (audited, inventory) = audit taken (some repository) in
                elim (and_then inventory (λ i. by_inventory i repository task_id)) [
                  | ok claimed ↦ (audited, ok claimed)
                  | err e ↦ ((handoff audited repository task_id).0, err e)
                ]
          ]
        ]
  ]
