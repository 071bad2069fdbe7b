-- ===== src/Workspace.antt =====
-- workspace.rs: the data of the workspace lifecycle, identifiers, and the reasons of a refusal. Decoding
-- UTF-8 is a parameter.
pub mod Identifiers
pub mod Receipt
pub mod Sorting
pub mod Inventory
pub mod Projected
pub mod Lifecycle
pub mod Settled
use Prim.Native.Char.{Char, code}
use nvim_agents_zzz.Prelude.{
  ℕ, String, Bool, true, false, ◌&&◌, ◌||◌, not, Option, none, some, List, [], ◌∷◌, str_eq,
  if◌then◌else◌, ltb, leb, ◌==◌, ◌>>=◌, Result, ok, err,
}
use nvim_agents_zzz.Text.{Text, codes, len}

pub data WorkspaceError : Type 0 where
  spawn timeout refused too_large invalid_json unsupported_schema invalid_identifier
        unsafe_repository missing_task :
      WorkspaceError
  refused_reason : String → WorkspaceError

pub record TaskSummary : Type 0 where
  pub task_id : String
  pub branch : String
  pub path : String
  pub head : Option String
  pub upstream : Option String
  pub lease_identity : List String
  pub lease_keep : Option String
  pub lease_transition : Option String
  pub cleanup_candidate : Bool
  pub reasons : List String

pub record RepositorySummary : Type 0 where
  pub slug : String
  pub github : String
  pub canonical_path : String
  pub base_branch : String
  pub canonical_branch : Option String
  pub canonical_clean : Bool
  pub worktree_root : String
  pub tasks : List TaskSummary

pub record WorkspaceInventory : Type 0 where
  pub schema_version : ℕ
  pub generated_at : String
  pub registry : String
  pub repositories : List RepositorySummary

abbrev pub is_lower_or_digit : ℕ → Bool
is_lower_or_digit c = (leb 0x61 c && leb c 0x7a) || (leb 0x30 c && leb c 0x39)

-- The characters in turn, after a separator or not. A byte of a character beyond ASCII is refused as the character is.
unfoldable pub scan_identifier : Bool → Bool → Text → Bool
scan_identifier allow_dot previous_separator [] = not previous_separator
scan_identifier allow_dot previous_separator (c ∷ cs) =
    let after_word = scan_identifier allow_dot false cs in
    let after_separator = scan_identifier allow_dot true cs in
    let separator = c == 0x2d || (allow_dot && c == 0x2e) in
    if is_lower_or_digit c
    then after_word
    else if separator && not previous_separator
    then after_separator
    else false

unfoldable pub valid_identifier : String → Bool → Bool
unfolding scan_identifier
valid_identifier value allow_dot =
    if str_eq value "" || ltb 128 (len (codes value))
    then false
    else scan_identifier allow_dot true (codes value)

unfoldable pub validate_repository : String → Result (Unit {0}) WorkspaceError
unfolding valid_identifier
validate_repository value = if valid_identifier value true then ok tt else err invalid_identifier

unfoldable pub validate_task : String → Result (Unit {0}) WorkspaceError
unfolding valid_identifier
validate_task value = if valid_identifier value false then ok tt else err invalid_identifier

abbrev push_front : Char → List String → List String
push_front c [] = String.◌∷◌ c "" ∷ []
push_front c (line ∷ rest) = String.◌∷◌ c line ∷ rest

abbrev begins_line_feed : String → Bool
begins_line_feed String.[] = false
begins_line_feed (String.◌∷◌ c s) = code c == 10

-- `str::lines`
unfoldable pub lines : String → List String
lines String.[] = []
lines (String.◌∷◌ c s) =
    let rest = lines s in
    if code c == 10
    then "" ∷ rest
    else if code c == 13 && begins_line_feed s
    then rest
    else push_front c rest

-- `str::strip_prefix`
unfoldable pub strip_prefix : String → String → Option String
strip_prefix String.[] s = some s
strip_prefix (String.◌∷◌ p ps) String.[] = none
strip_prefix (String.◌∷◌ p ps) (String.◌∷◌ c s) =
    if code p == code c then strip_prefix ps s else none

-- `str::strip_suffix`
unfoldable pub strip_suffix : String → String → Option String
strip_suffix suffix String.[] = if str_eq "" suffix then some "" else none
strip_suffix suffix (String.◌∷◌ c s) =
    let rest = strip_suffix suffix s in
    if str_eq (String.◌∷◌ c s) suffix then some "" else rest >>= λ front. some (String.◌∷◌ c front)

-- What stands before the first colon with a space after it: `split_once(": ")`
unfoldable pub before_colon : String → Option String
before_colon String.[] = none
before_colon (String.◌∷◌ c s) =
    let rest = before_colon s in
    if code c == 58 && begins_space s then some "" else rest >>= λ front. some (String.◌∷◌ c front)
  where
    begins_space : String → Bool
    begins_space String.[] = false
    begins_space (String.◌∷◌ d t) = code d == 32

unfoldable pub reason_message : String → Option String
reason_message code =
    if str_eq code "dirty_canonical"
    then some "canonical checkout has uncommitted changes; preserve or commit them before starting"
    else if str_eq code "canonical_wrong_branch"
    then some "canonical checkout is not on its registered base branch"
    else if str_eq code "canonical_base_diverged"
    then some "canonical checkout has diverged from the broker base; reconcile it before starting"
    else if str_eq code "canonical_missing"
    then some "registered canonical checkout is unavailable"
    else if str_eq code "unapproved_transport"
    then some "repository remote does not use its approved broker transport"
    else if str_eq code "lock_busy"
    then some "workspace lifecycle is busy; retry after the current operation finishes"
    else if str_eq code "duplicate_task" || str_eq code "parallel_retry"
    then some "task mapping already exists; resume the existing task"
    else if str_eq code "lease_owned" || str_eq code "not_claim_owner"
    then some
        "task lease is held by another session or keep; release it through the lifecycle owner"
    else if str_eq code "ambiguous_resume"
    then some "saved task mapping does not match its worktree; lifecycle recovery is required"
    else if str_eq code "mise_untrusted"
    then some "project Mise configuration requires reviewed trust; the worktree has been preserved"
    else if str_eq code "broker_unavailable"
    then some "Git broker is unavailable; check broker access before retrying"
    else if str_eq code "command_failed"
    then some
        "a lifecycle dependency command failed; inspect the lifecycle command directly for details"
    else if str_eq code "command_unavailable"
    then some "a lifecycle dependency command could not start or timed out"
    else if str_eq code "worktree_create_failed"
    then some "Git could not create the worktree; the task mapping has been preserved"
    else none

abbrev refusal_of_code : String → WorkspaceError
refusal_of_code code = elim (reason_message code) [
  | none ↦ refused
  | some message ↦ refused_reason message
]

-- The first line that is a refusal with a code says what is reported.
unfoldable pub refusal_of_lines : List String → WorkspaceError
unfolding strip_prefix before_colon reason_message
refusal_of_lines [] = refused
refusal_of_lines (line ∷ rest) =
    let later = refusal_of_lines rest in
    elim (strip_prefix "REFUSE " line >>= before_colon) as (λ o. WorkspaceError) [
      | none ↦ later
      | some code ↦ refusal_of_code code
    ]

unfoldable pub refusal_error : (List ℕ → Option String) → List ℕ → WorkspaceError
unfolding refusal_of_lines lines
refusal_error from_utf8 stderr = elim (from_utf8 stderr) [
  | none ↦ refused
  | some text ↦ refusal_of_lines (lines text)
]
