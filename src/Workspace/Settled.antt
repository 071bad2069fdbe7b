-- ===== src/Workspace/Settled.antt =====
-- workspace.rs: how a claim ends.
use nvim_agents_zzz.Prelude.{ℕ, ◌≡◌, String, Bool, true, List, some, Result, ok, err, and_then}
use nvim_agents_zzz.Workspace.{WorkspaceError}
use nvim_agents_zzz.Workspace.Receipt.{agent_branch}
use nvim_agents_zzz.Workspace.Inventory.{same_name}
use nvim_agents_zzz.Workspace.Lifecycle.{
  Outside, Claim, read_audit, audit_arguments, valid_names, handoff_arguments, claim_arguments,
  by_receipt, by_inventory,
}

module _ (outside : Outside) where
  open outside use {World, run, paths}

  -- The workspace of this task: an absolute path that ends in the task's name, on the task's branch.
  pub record IsClaimOf (repository task_id : String) (claimed : Claim outside) : Type 0 where
    pub absolute : paths.is_absolute claimed.0 ≡ true
    pub named : same_name (paths.file_name claimed.0) task_id ≡ true
    pub repository_kept : claimed.1.repository ≡ repository
    pub task_kept : claimed.1.task_id ≡ task_id
    pub branch_kept : claimed.1.branch ≡ agent_branch task_id

  abbrev pub after_claim : World → String → String → Bool → World
  after_claim world repository task_id resume =
      (run world (claim_arguments outside repository task_id resume)).0

  abbrev pub after_audit : World → String → World
  after_audit world repository = (run world (audit_arguments outside (some repository))).0

  -- The claim in what an audit gave.
  abbrev audited :
      Result (List ℕ) WorkspaceError → String → String → Result (Claim outside) WorkspaceError
  audited output repository task_id =
      and_then (and_then output (read_audit outside))
        (λ i. by_inventory outside i repository task_id)

  -- How a claim ends: in what world, and with what result.
  pub data Settled (world : World) (repository task_id : String) (resume : Bool)
      : World × Result (Claim outside) WorkspaceError → Type 0 where
    refused :
        {e : WorkspaceError}
        → valid_names outside repository task_id ≡ err e
        → Settled world repository task_id resume (world, err e)
    not_claimed :
        {e : WorkspaceError}
        → (run world (claim_arguments outside repository task_id resume)).1 ≡ err e
        → Settled world repository task_id resume
            (after_claim world repository task_id resume, err e)
    by_line :
        {output : List ℕ} {claimed : Claim outside}
        → (run world (claim_arguments outside repository task_id resume)).1 ≡ ok output
        → by_receipt outside (after_claim world repository task_id resume) output repository task_id
          ≡ ok claimed
        → IsClaimOf repository task_id claimed
        → Settled world repository task_id resume
            (after_claim world repository task_id resume, ok claimed)
    by_audit :
        {output : List ℕ} {e : WorkspaceError} {claimed : Claim outside}
        → (run world (claim_arguments outside repository task_id resume)).1 ≡ ok output
        → by_receipt outside (after_claim world repository task_id resume) output repository task_id
          ≡ err e
        → IsClaimOf repository task_id claimed
        → Settled world repository task_id resume
            (after_audit (after_claim world repository task_id resume) repository, ok claimed)
    handed_off :
        {output : List ℕ} {e f : WorkspaceError}
        → (run world (claim_arguments outside repository task_id resume)).1 ≡ ok output
        → by_receipt outside (after_claim world repository task_id resume) output repository task_id
          ≡ err f
        → audited
            (run
              (after_claim world repository task_id resume)
              (audit_arguments outside (some repository))).1
            repository
            task_id
          ≡ err e
        → Settled world repository task_id resume (
          (run
              (after_audit (after_claim world repository task_id resume) repository)
              (handoff_arguments outside repository task_id)).0,
          err e,
        )
