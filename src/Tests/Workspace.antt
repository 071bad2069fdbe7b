-- ===== src/Tests/Workspace.antt =====
-- Concrete runs of the workspace lifecycle.
use nvim_agents_zzz.Prelude.{
  ℕ, zero, suc, ◌+◌, ◌≡◌, ◌≢◌, ◌≤◌, ◌↔◌, refl, String, true, false, Option, none, some, List, [],
  ◌∷◌, str_eq, if◌then◌else◌, ◌>>=◌, All, ok, err,
}
use nvim_agents_zzz.Text.{codes, len, len_utf8}
use nvim_agents_zzz.Workspace.{
  refused, refused_reason, missing_task, valid_identifier, validate_repository, validate_task,
  WorkspaceInventory, RepositorySummary, lines, refusal_error,
}
use nvim_agents_zzz.Workspace.Identifiers.{IsIdentifier, valid_identifier-IsIdentifier}
use nvim_agents_zzz.Workspace.Receipt.{
  agent_branch, receipt_line, first, parse_claim_receipt, parse_claim_receipt-receipt_line,
}
use nvim_agents_zzz.Workspace.Sorting.{IsSorted}
use nvim_agents_zzz.Workspace.Inventory.{PathNames, AuditWorktree, AuditDocument, project_inventory}
use nvim_agents_zzz.Workspace.Projected.{IsProjected, project_inventory-IsProjected}
use nvim_agents_zzz.Workspace.Lifecycle.{Outside, claim}
use nvim_agents_zzz.Workspace.Settled.{Settled}

valid_identifier-IsIdentifier_example :
    (valid_identifier "nvim-agents.zzz" true ≡ true)
    ↔ (IsIdentifier true (codes "nvim-agents.zzz") × (len (codes "nvim-agents.zzz") ≤ 128))
valid_identifier-IsIdentifier_example = valid_identifier-IsIdentifier "nvim-agents.zzz" true

dotted_repository : valid_identifier "nvim-agents.zzz" true ≡ true
unfolding valid_identifier len len_utf8
dotted_repository = refl

dotted_task : valid_identifier "nvim-agents.zzz" false ≡ false
unfolding valid_identifier len len_utf8
dotted_task = refl

doubled_separator : valid_identifier "a--b" true ≡ false
unfolding valid_identifier len len_utf8
doubled_separator = refl

-- Output number 0 is a claim's receipt and 1 is a refusal.
abbrev decoded : List ℕ → Option String
decoded (zero ∷ []) = some "claimed: r/t: /w/r/t branch=agent/t lease=held\n"
decoded (suc zero ∷ []) = some "fatal\nREFUSE lock_busy: somewhere\n"
decoded bytes = none

receipt_read :
    (decoded (0 ∷ []) >>= λ text. first (lines text)) ≡ some (receipt_line "r" "t" "/w/r/t")
unfolding lines
receipt_read = refl

parse_claim_receipt-receipt_line_example :
    (parse_claim_receipt decoded (0 ∷ []) "r" "t"
      ≡ ok (record { path = "/w/r/t"; branch = agent_branch "t" }))
    ↔ ((◌≢◌ {A = String} "/w/r/t" "")
        × ((decoded (0 ∷ []) >>= λ text. first (lines text))
            ≡ some (receipt_line "r" "t" "/w/r/t")))
parse_claim_receipt-receipt_line_example =
    parse_claim_receipt-receipt_line decoded (0 ∷ []) "r" "t" "/w/r/t"

lock_busy :
    refusal_error decoded (1 ∷ [])
    ≡ refused_reason "workspace lifecycle is busy; retry after the current operation finishes"
unfolding refusal_error
lock_busy = refl

abbrev names : PathNames
names = record {
  is_absolute = λ path. true;
  parent = λ path. if str_eq path "/w/r/t" then some "/w/r" else some "/w";
  file_name = λ path. if str_eq path "/w/r/t" then some "t" else some "r";
}

abbrev worktree_of : Option String → AuditWorktree
worktree_of task = record {
  task_id = task;
  branch = some "agent/t";
  path = "/w/r/t";
  head = none;
  upstream = none;
  lease_identity = [];
  lease_keep = none;
  lease_transition = none;
  cleanup_candidate = false;
  reasons = [];
}

abbrev document : AuditDocument
document = record {
  schema_version = 1;
  generated_at = "now";
  registry = "/w/registry";
  repositories =
      record {
        slug = "r";
        github = "o/r";
        canonical = record {
          path = "/c/r";
          base_branch = "main";
          branch = some "main";
          clean = true;
        };
        worktree_root = "/w/r";
        worktrees = worktree_of (some "t") ∷ worktree_of (some "other") ∷ worktree_of none ∷ [];
      }
      ∷ [];
}

abbrev shown : WorkspaceInventory
shown = record {
  schema_version = 1;
  generated_at = "now";
  registry = "/w/registry";
  repositories =
      record {
        slug = "r";
        github = "o/r";
        canonical_path = "/c/r";
        base_branch = "main";
        canonical_branch = some "main";
        canonical_clean = true;
        worktree_root = "/w/r";
        tasks =
            record {
              task_id = "t";
              branch = "agent/t";
              path = "/w/r/t";
              head = none;
              upstream = none;
              lease_identity = [];
              lease_keep = none;
              lease_transition = none;
              cleanup_candidate = false;
              reasons = [];
            }
            ∷ [];
      }
      ∷ [];
}

projected : project_inventory names document ≡ ok shown
unfolding project_inventory validate_repository validate_task len len_utf8
projected = refl

project_inventory-IsProjected_example :
    (names.is_absolute shown.registry ≡ true)
    × All (IsProjected names) shown.repositories
    × IsSorted (λ (repository : RepositorySummary). repository.slug) shown.repositories
project_inventory-IsProjected_example = project_inventory-IsProjected names document shown projected

-- The world counts the commands that were run. None of them reports a claim.
abbrev outside : Outside
outside = record {
  World = ℕ;
  run = λ world arguments. (world + 1, ok (1 ∷ []));
  git = λ world cwd arguments. err refused;
  paths = names;
  canonicalize = λ world path. some path;
  is_dir = λ world path. true;
  join = λ path name. path;
  symlink_metadata = λ world path. none;
  from_utf8 = decoded;
  decode = λ bytes. some document;
  owner_pid = "7";
}

-- The claim, the audit and the handoff.
absent_task : claim outside 0 "r" "absent" false ≡ (3, err missing_task)
unfolding claim validate_repository validate_task len len_utf8
absent_task = refl
