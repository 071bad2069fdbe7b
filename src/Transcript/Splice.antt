-- ===== src/Transcript/Splice.antt =====
-- transcript.rs: patches. Generic in the lines, whose equality is decided.
pub mod Trim
use nvim_agents_zzz.Prelude.{ℕ, zero, suc, ◌+◌, ◌-◌, List, [], ◌∷◌, ◌++◌, length, take, drop}
use mathlib.Core.Logic.{ite}
use mathlib.Core.List.{reverse}
use nvim_agents_zzz.Transcript.Lines.{Line}

-- Replace lines `[start, end)` of revision `revision - 1` with `lines`.
pub record Edit {ℓ} (A : Type ℓ) : Type ℓ where
  pub revision : ℕ
  pub start : ℕ
  pub end : ℕ
  pub lines : List A

abbrev pub Patch : Type 0
Patch = Edit Line

module _ {ℓ} {A : Type ℓ} where
  -- What the receiver of a patch does with it.
  unfoldable pub splice_lines : List A → Edit A → List A
  splice_lines lines patch = take patch.start lines ++ patch.lines ++ drop patch.end lines

  -- `zip(..).take_while(|(before, after)| before == after).count()`
  unfoldable pub common : Discrete A → List A → List A → ℕ
  common dec [] ys = 0
  common dec (x ∷ xs) [] = 0
  common dec (x ∷ xs) (y ∷ ys) = let rest = common dec xs ys in ite (dec x y) (suc rest) 0

  -- The patch of `splice`, which names only the lines that differ.
  unfoldable pub patch_of : Discrete A → ℕ → List A → ℕ → ℕ → List A → Edit A
  unfolding common
  patch_of dec revision all start end lines =
      let old = take (end - start) (drop start all) in
      let prefix = common dec old lines in
      let suffix = common dec (reverse (drop prefix old)) (reverse (drop prefix lines)) in
      record {
        revision = revision;
        start = start + prefix;
        end = end - suffix;
        lines = take (length lines - suffix - prefix) (drop prefix lines);
      }
