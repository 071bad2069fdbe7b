-- ===== src/Workspace/Receipt.antt =====
-- workspace.rs: the receipt of a claim.
use Prim.Native.Char.{Char, code}
use Prim.Native.String.{◌++◌ as str_append}
use Prim.Native.String.append
use text.Mathlib.TextLemmas.{append_cancel_right}
use nvim_agents_zzz.Prelude.{
  ℕ, ◌≡◌, ◌≢◌, refl, sym, ap, ◌∙◌, String, true, false, Option, none, some, List, [], ◌∷◌, str_eq,
  eq_iff, if◌then◌else◌, ◌==◌, ◌>>=◌, >>=-eq-some, Result, ok, and_then, and_then-eq-ok,
  ok-injective, ok_or, ok_or-eq-ok, Bool-cases, inl, inr, arith, true-false, ==_iff, some-injective,
  none-some, subst, ◌↔◌,
}
use text.Mathlib.TextEquality.{Char-path}
use nvim_agents_zzz.Text.{codes}
use nvim_agents_zzz.Workspace.{
  WorkspaceError, unsafe_repository, missing_task, lines, strip_prefix, strip_suffix,
}

pub record ClaimReceipt : Type 0 where
  pub path : String
  pub branch : String

abbrev pub agent_branch : String → String
agent_branch task_id = str_append "agent/" task_id

abbrev pub receipt_prefix : String → String → String
receipt_prefix repository task_id =
    str_append "claimed: " (str_append repository (str_append "/" (str_append task_id ": ")))

abbrev pub receipt_suffix : String → String
receipt_suffix task_id = str_append " branch=" (str_append (agent_branch task_id) " lease=held")

abbrev pub first : List String → Option String
first [] = none
first (line ∷ rest) = some line

abbrev not_empty : String → Option String
not_empty s = if str_eq s "" then none else some s

-- The path in the line that reports a claim.
unfoldable receipt_path : String → String → String → Option String
unfolding strip_prefix strip_suffix
receipt_path repository task_id line =
    strip_prefix (receipt_prefix repository task_id) line >>= λ tail.
    strip_suffix (receipt_suffix task_id) tail >>= not_empty

unfoldable pub parse_claim_receipt :
    (List ℕ → Option String) → List ℕ → String → String → Result ClaimReceipt WorkspaceError
unfolding lines receipt_path
parse_claim_receipt from_utf8 output repository task_id =
    and_then (ok_or (from_utf8 output) unsafe_repository) (λ text.
      and_then (ok_or (first (lines text)) missing_task) (λ line.
        and_then (ok_or (receipt_path repository task_id line) missing_task)
          (λ path. ok (record { path = path; branch = agent_branch task_id }))))

strip_prefix-append : (p s : String) → strip_prefix p (str_append p s) ≡ some s
unfolding strip_prefix
strip_prefix-append String.[] s = ap some (append.nil s)
strip_prefix-append (String.◌∷◌ c p) s =
    let same : (code c == code c) ≡ true = (==_iff (code c) (code c)).1 refl in
    rw (append.cons c p s, same) (strip_prefix-append p s)

strip_prefix_sound : (p s t : String) → strip_prefix p s ≡ some t → s ≡ str_append p t
unfolding strip_prefix
strip_prefix_sound String.[] s t h = some-injective h ∙ sym (append.nil t)
strip_prefix_sound (String.◌∷◌ c p) String.[] t h = cc
strip_prefix_sound (String.◌∷◌ c p) (String.◌∷◌ d s) t h = elim (Bool-cases (code c == code d)) [
  | inr e ↦ absurd (none-some (rw e at h))
  | inl e ↦
      let same = sym (Char-path c d ((==_iff (code c) (code d)).0 e)) in
      rw (append.cons c p t)
        (ap (λ x. String.◌∷◌ x s) same ∙ ap (String.◌∷◌ c) (strip_prefix_sound p s t (rw e at h)))
]

cons-append-suffix :
    (c : Char) (s suffix : String) → str_eq (String.◌∷◌ c (str_append s suffix)) suffix ≡ false
cons-append-suffix c s suffix =
    elim (Bool-cases (str_eq (String.◌∷◌ c (str_append s suffix)) suffix)) [
      | inr e ↦ e
      | inl e ↦
          let same =
            append.cons c s suffix
            ∙ (eq_iff (String.◌∷◌ c (str_append s suffix)) suffix).0 e
            ∙ sym (append.nil suffix) in
          let bad : (code c ∷ codes s) ≡ [] =
            ap codes (append_cancel_right (String.◌∷◌ c s) "" suffix same) in
          cc
    ]

strip_suffix-append : (suffix s : String) → strip_suffix suffix (str_append s suffix) ≡ some s
unfolding strip_suffix
strip_suffix-append suffix String.[] = rw (append.nil suffix) (strip_suffix-self suffix)
  where
    strip_suffix-self : (suffix : String) → strip_suffix suffix suffix ≡ some ""
    strip_suffix-self String.[] = refl
    strip_suffix-self (String.◌∷◌ c s) = rw ((eq_iff (String.◌∷◌ c s) (String.◌∷◌ c s)).1 refl) refl
strip_suffix-append suffix (String.◌∷◌ c s) =
    rw (append.cons c s suffix, cons-append-suffix c s suffix, strip_suffix-append suffix s) refl

strip_suffix_sound :
    (suffix s t : String) → strip_suffix suffix s ≡ some t → s ≡ str_append t suffix
unfolding strip_suffix
strip_suffix_sound suffix String.[] t h = elim (Bool-cases (str_eq "" suffix)) [
  | inr e ↦ absurd (none-some (rw e at h))
  | inl e ↦
      subst (λ x. "" ≡ str_append x suffix) (some-injective (rw e at h))
        ((eq_iff "" suffix).0 e ∙ sym (append.nil suffix))
]
strip_suffix_sound suffix (String.◌∷◌ c s) t h =
    elim (Bool-cases (str_eq (String.◌∷◌ c s) suffix)) [
      | inl e ↦
          subst (λ x. String.◌∷◌ c s ≡ str_append x suffix) (some-injective (rw e at h))
            ((eq_iff (String.◌∷◌ c s) suffix).0 e ∙ sym (append.nil suffix))
      | inr e ↦
          let (front, k, f) =
            >>=-eq-some (strip_suffix suffix s) (λ front. some (String.◌∷◌ c front)) (rw e at h) in
          subst (λ x. String.◌∷◌ c s ≡ str_append x suffix) (some-injective f)
            (rw (append.cons c front suffix)
              (ap (String.◌∷◌ c) (strip_suffix_sound suffix s front k)))
    ]

-- The line that reports a claim.
abbrev pub receipt_line : String → String → String → String
receipt_line repository task_id path =
    str_append (receipt_prefix repository task_id) (str_append path (receipt_suffix task_id))

not_empty_sound : (s t : String) → not_empty s ≡ some t → (t ≢ "") × (s ≡ t)
not_empty_sound s t h = elim (Bool-cases (str_eq s "")) [
  | inl e ↦ absurd (none-some (rw e at h))
  | inr e ↦
      let same : s ≡ t = some-injective (rw e at h) in
      ((λ bad. true-false (sym e ∙ (eq_iff s "").1 (same ∙ bad))), same)
]

receipt_path_sound :
    (repository task_id line path : String)
    → receipt_path repository task_id line ≡ some path
    → (path ≢ "") × (line ≡ receipt_line repository task_id path)
unfolding receipt_path
receipt_path_sound repository task_id line path h =
    let (tail, e1, h1) = >>=-eq-some (strip_prefix (receipt_prefix repository task_id) line) _ h in
    let (found, e2, h2) = >>=-eq-some (strip_suffix (receipt_suffix task_id) tail) _ h1 in
    let (some_path, same) = not_empty_sound found path h2 in
    (
      some_path,
      strip_prefix_sound (receipt_prefix repository task_id) line tail e1
          ∙ ap (str_append (receipt_prefix repository task_id)) (
              strip_suffix_sound (receipt_suffix task_id) tail found e2
              ∙ ap (λ x. str_append x (receipt_suffix task_id)) same),
    )

receipt_path-receipt_line :
    (repository task_id path : String)
    → path ≢ ""
    → receipt_path repository task_id (receipt_line repository task_id path) ≡ some path
unfolding receipt_path
receipt_path-receipt_line repository task_id path h =
    let given : str_eq path "" ≡ false = ground (arith, eq_iff path "", h) in
    rw
      (
        strip_prefix-append (receipt_prefix repository task_id)
            (str_append path (receipt_suffix task_id)),
        strip_suffix-append (receipt_suffix task_id) path,
        given,
      )
      refl

-- A receipt is read just when the first line of the output is the line that reports a claim of this
-- task at a path that is not empty.
pub parse_claim_receipt-receipt_line :
    (from_utf8 : List ℕ → Option String) (output : List ℕ) (repository task_id path : String)
    → (parse_claim_receipt from_utf8 output repository task_id
        ≡ ok (record { path = path; branch = agent_branch task_id }))
      ↔ ((path ≢ "")
          × ((from_utf8 output >>= λ text. first (lines text))
              ≡ some (receipt_line repository task_id path)))
unfolding parse_claim_receipt
parse_claim_receipt-receipt_line from_utf8 output repository task_id path = (there, back)
  where
    there :
        parse_claim_receipt from_utf8 output repository task_id
          ≡ ok (record { path = path; branch = agent_branch task_id })
        → (path ≢ "")
          × ((from_utf8 output >>= λ text. first (lines text))
              ≡ some (receipt_line repository task_id path))
    there h =
        let (text, e1, h1) = and_then-eq-ok (ok_or (from_utf8 output) unsafe_repository) _ _ h in
        let (line, e2, h2) = and_then-eq-ok (ok_or (first (lines text)) missing_task) _ _ h1 in
        let (found, e3, h3) =
          and_then-eq-ok (ok_or (receipt_path repository task_id line) missing_task) _ _ h2 in
        let same : found ≡ path = ap (λ (r : ClaimReceipt). r.path) (ok-injective h3) in
        let (given, read) =
          receipt_path_sound repository task_id line path
            (ok_or-eq-ok _ missing_task _ e3 ∙ ap some same) in
        (
          given,
          rw (ok_or-eq-ok _ unsafe_repository _ e1)
              (ok_or-eq-ok _ missing_task _ e2 ∙ ap some read),
        )

    back :
        (path ≢ "")
          × ((from_utf8 output >>= λ text. first (lines text))
              ≡ some (receipt_line repository task_id path))
        → parse_claim_receipt from_utf8 output repository task_id
          ≡ ok (record { path = path; branch = agent_branch task_id })
    back h =
        let (text, e1, e2) = >>=-eq-some (from_utf8 output) (λ text. first (lines text)) h.1 in
        rw (e1, e2, receipt_path-receipt_line repository task_id path h.0) refl

-- The branch of a receipt is the task's.
pub parse_claim_receipt-branch :
    (from_utf8 : List ℕ → Option String) (output : List ℕ) (repository task_id : String)
    (receipt : ClaimReceipt)
    → parse_claim_receipt from_utf8 output repository task_id ≡ ok receipt
    → receipt.branch ≡ agent_branch task_id
unfolding parse_claim_receipt
parse_claim_receipt-branch from_utf8 output repository task_id receipt h =
    let (text, e1, h1) = and_then-eq-ok (ok_or (from_utf8 output) unsafe_repository) _ _ h in
    let (line, e2, h2) = and_then-eq-ok (ok_or (first (lines text)) missing_task) _ _ h1 in
    let (found, e3, h3) =
      and_then-eq-ok (ok_or (receipt_path repository task_id line) missing_task) _ _ h2 in
    sym (ap (λ (r : ClaimReceipt). r.branch) (ok-injective h3))
