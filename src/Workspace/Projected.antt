-- ===== src/Workspace/Projected.antt =====
-- workspace.rs: what an audit that is accepted holds.
use nvim_agents_zzz.Prelude.{
  ◌≡◌, refl, ap, subst, eq_iff, true-false, String, true, Option, none, some, Result, err, is_ok,
  ◌||◌, not, List, [], ◌∷◌, str_eq, ◌==◌, ok, and_then-eq-ok, ok-injective, err-ok, All, Bool-cases,
  Option-cases, inl, inr, arith,
}
use nvim_agents_zzz.Workspace.{
  WorkspaceError, TaskSummary, RepositorySummary, WorkspaceInventory, validate_repository,
  validate_task,
}
use nvim_agents_zzz.Workspace.Receipt.{agent_branch}
use nvim_agents_zzz.Workspace.Sorting.{IsSorted, sort_by-All, sort_by-IsSorted}
use nvim_agents_zzz.Workspace.Inventory.{
  PathNames, AuditWorktree, AuditRepository, AuditDocument, audit_schema_version, is_task,
  is_unsafe, same_name, project_tasks, project_repositories, project_inventory,
}

module _ (paths : PathNames) where
  open paths use {is_absolute, parent, file_name}

  -- A task of a repository with this root: it has a valid name and that name's branch, and stands at an absolute
  -- path whose parent is the root and whose last part is the name.
  pub record IsTaskOf (worktree_root : String) (task : TaskSummary) : Type 0 where
    pub valid : validate_task task.task_id ≡ ok tt
    pub branched : task.branch ≡ agent_branch task.task_id
    pub absolute : is_absolute task.path ≡ true
    pub under : parent task.path ≡ some worktree_root
    pub named : file_name task.path ≡ some task.task_id

  same_name-some : (o : Option String) (s : String) → same_name o s ≡ true → o ≡ some s
  same_name-some none s h = absurd (true-false h)
  same_name-some (some t) s h = ap (λ (x : String). some x) ((eq_iff t s).0 h)

  is_ok-ok : (r : Result (Unit {0}) WorkspaceError) → is_ok r ≡ true → r ≡ ok tt
  is_ok-ok (ok u) h = refl
  is_ok-ok (err e) h = absurd (true-false h)

  is_task-IsTaskOf :
      (root : String) (task : TaskSummary)
      → is_task paths root task.task_id task.branch task.path ≡ true
      → IsTaskOf root task
  unfolding is_task
  is_task-IsTaskOf root task h = record {
    valid = is_ok-ok (validate_task task.task_id) (ground (arith, h));
    branched = (eq_iff task.branch (agent_branch task.task_id)).0 (ground (arith, h));
    absolute = ground (arith, h);
    under = same_name-some (parent task.path) root (ground (arith, h));
    named = same_name-some (file_name task.path) task.task_id (ground (arith, h));
  }

  abbrev pub IsProjected : RepositorySummary → Type 0
  IsProjected repository =
      (validate_repository repository.slug ≡ ok tt)
      × (is_absolute repository.worktree_root ≡ true)
      × All (IsTaskOf repository.worktree_root) repository.tasks
      × IsSorted (λ (task : TaskSummary). task.task_id) repository.tasks

  project_tasks-All :
      (root : String) (worktrees : List AuditWorktree)
      → All (IsTaskOf root) (project_tasks paths root worktrees)
  unfolding project_tasks
  project_tasks-All root [] = tt
  project_tasks-All root (w ∷ rest) = elim (Option-cases w.task_id) [
    | inl e ↦ rw e (project_tasks-All root rest)
    | inr (task_id, e) ↦ elim (Option-cases w.branch) [
      | inl f ↦ rw (e, f) (project_tasks-All root rest)
      | inr (branch, f) ↦ elim (Bool-cases (is_task paths root task_id branch w.path)) [
        | inl g ↦ rw (e, f, g) (is_task-IsTaskOf root _ g, project_tasks-All root rest)
        | inr g ↦ rw (e, f, g) (project_tasks-All root rest)
      ]
    ]
  ]

  project_repositories-All :
      (repositories : List AuditRepository) (summaries : List RepositorySummary)
      → project_repositories paths repositories ≡ ok summaries
      → All IsProjected summaries
  unfolding project_repositories
  project_repositories-All [] summaries h = subst (All IsProjected) (ok-injective h) tt
  project_repositories-All (r ∷ rest) summaries h = elim (Bool-cases (is_unsafe paths r)) [
    | inl e ↦
        let (_, _, h1) = and_then-eq-ok (validate_repository r.slug) _ summaries h in
        absurd (err-ok (rw e at h1))
    | inr e ↦
        let (_, valid, h1) = and_then-eq-ok (validate_repository r.slug) _ summaries h in
        let (others, e2, h2) =
          and_then-eq-ok (project_repositories paths rest) _ summaries (rw e at h1) in
        subst (All IsProjected) (ok-injective h2) (
          (
            valid,
            ground (arith, e),
            sort_by-All (λ (task : TaskSummary). task.task_id) (IsTaskOf r.worktree_root) _
                (project_tasks-All r.worktree_root r.worktrees),
            sort_by-IsSorted (λ (task : TaskSummary). task.task_id)
                (project_tasks paths r.worktree_root r.worktrees),
          ),
          project_repositories-All rest others e2,
        )
  ]

  -- An audit that is accepted has an absolute registry and lists, in order, repositories with valid names and
  -- an absolute root, each with, in order, tasks: each has a valid name and its branch, and stands directly
  -- under the root at an absolute path that ends in its name.
  pub project_inventory-IsProjected :
      (document : AuditDocument) (inventory : WorkspaceInventory)
      → project_inventory paths document ≡ ok inventory
      → (is_absolute inventory.registry ≡ true)
        × All IsProjected inventory.repositories
        × IsSorted (λ (repository : RepositorySummary). repository.slug) inventory.repositories
  unfolding project_inventory
  project_inventory-IsProjected document inventory h =
      elim (Bool-cases (document.schema_version == audit_schema_version)) [
        | inr e ↦ absurd (err-ok (rw e at h))
        | inl e ↦
            elim (Bool-cases (str_eq document.registry "" || not (is_absolute document.registry))) [
              | inl f ↦ absurd (err-ok (rw (e, f) at h))
              | inr f ↦
                  let (repositories, e2, h2) =
                    and_then-eq-ok (project_repositories paths document.repositories) _ inventory
                      (rw (e, f) at h) in
                  subst
                    (λ (i : WorkspaceInventory).
                      (is_absolute i.registry ≡ true)
                      × All IsProjected i.repositories
                      × IsSorted (λ (repository : RepositorySummary). repository.slug)
                          i.repositories)
                    (ok-injective h2)
                    (
                      ground (arith, f),
                      sort_by-All (λ (repository : RepositorySummary). repository.slug) IsProjected
                          repositories
                          (project_repositories-All document.repositories repositories e2),
                      sort_by-IsSorted (λ (repository : RepositorySummary). repository.slug)
                          repositories,
                    )
            ]
      ]
