-- ===== src/Workspace/Identifiers.antt =====
-- workspace.rs: the names that `valid_identifier` takes, as a grammar.
use Prim.Native.Char.{Char, code}
use nvim_agents_zzz.Prelude.{
  ℕ, ◌≡◌, ◌≤◌, ◌↔◌, refl, ap, String, Bool, true, false, ◌&&◌, ◌||◌, [], ◌∷◌, str_eq, eq_iff, ltb,
  ◌==◌, Bool-cases, inl, inr, arith, true-false,
}
use nvim_agents_zzz.Text.{Text, codes, len}
use nvim_agents_zzz.Workspace.{is_lower_or_digit, scan_identifier, valid_identifier}

abbrev pub is_separator : Bool → ℕ → Bool
is_separator allow_dot c = c == 0x2d || (allow_dot && c == 0x2e)

-- What may follow a lower-case letter or digit: more of them, each with at most one separator before it.
pub data Follows (allow_dot : Bool) : Text → Type 0 where
  finished : Follows allow_dot []
  letter :
      {c : ℕ} {cs : Text}
      → is_lower_or_digit c ≡ true
      → Follows allow_dot cs
      → Follows allow_dot (c ∷ cs)
  separated :
      {s c : ℕ} {cs : Text}
      → is_lower_or_digit s ≡ false
      → is_separator allow_dot s ≡ true
      → is_lower_or_digit c ≡ true
      → Follows allow_dot cs
      → Follows allow_dot (s ∷ c ∷ cs)

pub data IsIdentifier (allow_dot : Bool) : Text → Type 0 where
  identifier :
      {c : ℕ} {cs : Text}
      → is_lower_or_digit c ≡ true
      → Follows allow_dot cs
      → IsIdentifier allow_dot (c ∷ cs)

-- After a separator only a letter or digit is taken.
scan_identifier-fresh :
    (allow_dot : Bool) (c : ℕ) (cs : Text)
    → scan_identifier allow_dot true (c ∷ cs) ≡ true
    → (is_lower_or_digit c ≡ true) × (scan_identifier allow_dot false cs ≡ true)
unfolding scan_identifier
scan_identifier-fresh allow_dot c cs h = elim (Bool-cases (is_lower_or_digit c)) [
  | inl e ↦ (e, rw e at h)
  | inr e ↦ elim (Bool-cases (is_separator allow_dot c)) [
    | inl s ↦ absurd (true-false (rw (e, s) at h))
    | inr s ↦ absurd (true-false (rw (e, s) at h))
  ]
]

scan_identifier-Follows :
    (allow_dot : Bool) (cs : Text)
    → scan_identifier allow_dot false cs ≡ true
    → Follows allow_dot cs
unfolding scan_identifier
scan_identifier-Follows allow_dot [] h = finished
scan_identifier-Follows allow_dot (c ∷ []) h = elim (Bool-cases (is_lower_or_digit c)) [
  | inl e ↦ letter e finished
  | inr e ↦ elim (Bool-cases (is_separator allow_dot c)) [
    | inl s ↦ absurd (true-false (rw (e, s) at h))
    | inr s ↦ absurd (true-false (rw (e, s) at h))
  ]
]
scan_identifier-Follows allow_dot (c ∷ d ∷ cs) h = elim (Bool-cases (is_lower_or_digit c)) [
  | inl e ↦ letter e (scan_identifier-Follows allow_dot (d ∷ cs) (rw e at h))
  | inr e ↦ elim (Bool-cases (is_separator allow_dot c)) [
    | inl s ↦
        let (f, k) = scan_identifier-fresh allow_dot d cs (rw (e, s) at h) in
        separated e s f (scan_identifier-Follows allow_dot cs k)
    | inr s ↦ absurd (true-false (rw (e, s) at h))
  ]
]

Follows-scan_identifier :
    (allow_dot : Bool) (cs : Text)
    → Follows allow_dot cs
    → scan_identifier allow_dot false cs ≡ true
unfolding scan_identifier
Follows-scan_identifier allow_dot _ finished = refl
Follows-scan_identifier allow_dot _ (letter {cs = cs} e f) =
    rw e (Follows-scan_identifier allow_dot cs f)
Follows-scan_identifier allow_dot _ (separated {cs = cs} e s l f) =
    rw (e, s, l) (Follows-scan_identifier allow_dot cs f)

scan_identifier-IsIdentifier :
    (allow_dot : Bool) (cs : Text)
    → (scan_identifier allow_dot true cs ≡ true) ↔ IsIdentifier allow_dot cs
unfolding scan_identifier
scan_identifier-IsIdentifier allow_dot cs = (there cs, back cs)
  where
    there : (cs : Text) → scan_identifier allow_dot true cs ≡ true → IsIdentifier allow_dot cs
    there [] h = absurd (true-false h)
    there (c ∷ cs) h =
        let (e, k) = scan_identifier-fresh allow_dot c cs h in
        identifier e (scan_identifier-Follows allow_dot cs k)

    back : (cs : Text) → IsIdentifier allow_dot cs → scan_identifier allow_dot true cs ≡ true
    back _ (identifier {cs = cs} e f) = rw e (Follows-scan_identifier allow_dot cs f)

pub cons-empty : (c : Char) (s : String) → str_eq (String.◌∷◌ c s) "" ≡ false
cons-empty c s = elim (Bool-cases (str_eq (String.◌∷◌ c s) "")) [
  | inr e ↦ e
  | inl e ↦ let bad : (code c ∷ codes s) ≡ [] = ap codes ((eq_iff (String.◌∷◌ c s) "").0 e) in cc
]

IsIdentifier-empty : (allow_dot : Bool) → IsIdentifier allow_dot [] → ⊥
IsIdentifier-empty allow_dot h = absurd (empty [] h refl)
  where
    empty : (cs : Text) → IsIdentifier allow_dot cs → cs ≡ [] → ⊥
    empty _ (identifier e f) h = cc

-- A name is valid just when it has at most 128 bytes and is letters and digits with single separators between them.
pub valid_identifier-IsIdentifier :
    (value : String) (allow_dot : Bool)
    → (valid_identifier value allow_dot ≡ true)
      ↔ (IsIdentifier allow_dot (codes value) × (len (codes value) ≤ 128))
unfolding valid_identifier
valid_identifier-IsIdentifier String.[] allow_dot =
    ((λ h. absurd (true-false h)), (λ h. absurd (IsIdentifier-empty allow_dot h.0)))
valid_identifier-IsIdentifier (String.◌∷◌ c s) allow_dot =
    let text = codes (String.◌∷◌ c s) in
    elim (Bool-cases (ltb 128 (len text))) [
      | inl long ↦ (
        (λ h. absurd (true-false (rw (cons-empty c s, long) at h))),
        (λ h. absurd (ground (arith, long, h.1))),
      )
      | inr short ↦ (
        (λ h. (
          (scan_identifier-IsIdentifier allow_dot text).0 (rw (cons-empty c s, short) at h),
          ground (arith, short),
        )),
        (λ h. rw (cons-empty c s, short) ((scan_identifier-IsIdentifier allow_dot text).1 h.0)),
      )
    ]
