-- ===== src/Broker/Checkout.antt =====
-- embedded.rs: the directories in which agents work. The file system, git and the environment are parameters.
use nvim_agents_zzz.Prelude.{
  ℕ, String, Bool, true, false, ◌&&◌, not, Option, none, some, List, any, str_eq, if◌then◌else◌,
  ◌>>=◌, leb, Result, ok, err, and_then, ok_or, unwrap_or, is_some,
}
use nvim_agents_zzz.Text.{codes, starts_with}
use nvim_agents_zzz.Protocol.{Provider, codex, WorkspaceStrategy, shared, worktree}
use nvim_agents_zzz.Registry.Store.{FileType, regular, Lookup, found, not_found}
use nvim_agents_zzz.Workspace.Lifecycle.{trim, GitOutput}
use nvim_agents_zzz.Broker.Core.{BrokerMode, is_durable}

pub data SessionLaunch : Type 0 where
  start : SessionLaunch
  resume fork : String → SessionLaunch

-- `rev_parse` runs `git -C path rev-parse argument`; `is_under` is `Path::starts_with`.
pub record Host : Type 0 where
  pub is_absolute : String → Bool
  pub canonicalize : String → Option String
  pub is_dir : String → Bool
  pub join : String → String → String
  pub ancestors : String → List String
  pub is_under : String → String → Bool
  pub symlink_metadata : String → Lookup
  pub read_to_string : String → Option String
  pub rev_parse : String → String → Option GitOutput
  pub from_utf8_lossy : List ℕ → String
  pub home : Option String

module _ (host : Host) where
  unfoldable pub canonical_directory : String → Result String String
  canonical_directory raw =
      if not (host.is_absolute raw)
      then err "cwd must be absolute"
      else and_then (ok_or (host.canonicalize raw) "cwd does not exist") (λ canonical.
        if not (host.is_dir canonical) then err "cwd must identify a directory" else ok canonical)

  unfoldable pub git_rev_parse_path : String → String → Option String
  unfolding trim
  git_rev_parse_path cwd argument = host.rev_parse cwd argument >>= λ output.
      if not output.success
      then none
      else (let raw = trim (host.from_utf8_lossy output.stdout) in
          host.canonicalize (if host.is_absolute raw then raw else host.join cwd raw))

  unfoldable pub git_top_level : String → Option String
  unfolding git_rev_parse_path
  git_top_level cwd = git_rev_parse_path cwd "--show-toplevel"

  abbrev is_small_file : Lookup → Bool
  is_small_file (found metadata) = is_regular metadata.file_type && leb metadata.len 8192
    where
      is_regular : FileType → Bool
      is_regular regular = true
      is_regular t = false
  is_small_file lookup = false

  unfoldable pub is_linked_git_worktree : String → Bool
  unfolding git_top_level
  is_linked_git_worktree path =
      let marker = host.join path ".git" in
      if not (is_small_file (host.symlink_metadata marker))
      then false
      else elim (host.read_to_string marker) [
        | none ↦ false
        | some contents ↦
            if not (starts_with (codes "gitdir: ") (codes contents))
            then false
            else elim (git_top_level path) [
              | none ↦ false
              | some root ↦ elim (git_rev_parse_path path "--git-dir") [
                | none ↦ false
                | some git_directory ↦ elim (git_rev_parse_path path "--git-common-dir") [
                  | none ↦ false
                  | some common_directory ↦
                      str_eq root path && not (str_eq git_directory common_directory)
                ]
              ]
            ]
      ]

  unfoldable pub validate_workspace :
      WorkspaceStrategy → Option String → String → BrokerMode → Result (Option String) String
  unfolding canonical_directory is_linked_git_worktree
  validate_workspace shared none cwd mode = ok none
  validate_workspace shared (some path) cwd mode =
      err "shared strategy cannot specify worktree_path"
  validate_workspace worktree none cwd mode = err "worktree strategy requires worktree_path"
  validate_workspace worktree (some raw) cwd mode = and_then (canonical_directory raw) (λ path.
      if not (str_eq path cwd)
      then err "worktree_path must equal the agent cwd"
      else if is_durable mode && not (is_linked_git_worktree path)
      then err "durable worktree strategy requires a linked Git worktree"
      else ok (some path))

  unfoldable pub checkout_identity : WorkspaceStrategy → String → String
  unfolding git_top_level
  checkout_identity worktree cwd = cwd
  checkout_identity shared cwd = unwrap_or (git_top_level cwd) cwd

  abbrev is_not_found : Lookup → Bool
  is_not_found not_found = true
  is_not_found lookup = false

  abbrev in_worktrees : String → Bool
  in_worktrees cwd = elim host.home [
    | none ↦ false
    | some home ↦ host.is_under cwd (host.join home "worktrees")
  ]

  unfoldable pub is_codex_directory_resume : Provider → SessionLaunch → String → Bool
  unfolding git_top_level
  is_codex_directory_resume codex (resume session) cwd =
      if in_worktrees cwd
      then false
      else if any (λ path. not (is_not_found (host.symlink_metadata (host.join path ".git"))))
          (host.ancestors cwd)
      then false
      else not (is_some (git_top_level cwd))
  is_codex_directory_resume provider launch cwd = false
