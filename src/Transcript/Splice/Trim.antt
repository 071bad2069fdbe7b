-- ===== src/Transcript/Splice/Trim.antt =====
-- A trimmed patch replaces the whole range.
use nvim_agents_zzz.Prelude.{
  ℕ, ◌+◌, ◌-◌, ◌≤◌, ◌≡◌, refl, sym, ap, ◌∙◌, List, [], ◌∷◌, ◌++◌, length, take, drop, length-take,
  length-drop, length-reverse, take-take, take_sum, drop_sum, take-append, take-append-drop,
  drop-append, append_assoc, arith,
}
use mathlib.Core.Path.{◌≡⟨◌⟩◌, ◌∎}
use mathlib.Core.List.{reverse, reverse-append, reverse-reverse}
use nvim_agents_zzz.Transcript.Splice.{common, patch_of, splice_lines}

module _ {ℓ} {A : Type ℓ} where
  regroup : (a b c d e : List A) → (a ++ b ++ c) ++ (d ++ e) ≡ a ++ (b ++ (c ++ d)) ++ e
  regroup a b c d e = simp append_assoc

  -- The last n of a list, from its reverse.
  take-reverse :
      (n : ℕ) (xs : List A)
      → n ≤ length xs
      → take n (reverse xs) ≡ reverse (drop (length xs - n) xs)
  take-reverse n xs h =
      let m = length xs - n in
      let size : length (reverse (drop m xs)) ≡ n =
        omega (arith, length-reverse (drop m xs), length-drop m xs) in
      take n (reverse xs)
      ≡⟨ ap (λ l. take n (reverse l)) (sym (take-append-drop m xs)) ⟩
        take n (reverse (take m xs ++ drop m xs))
      ≡⟨ ap (take n) (reverse-append (take m xs) (drop m xs)) ⟩
        take n (reverse (drop m xs) ++ reverse (take m xs))
      ≡⟨ ap (λ k. take k (reverse (drop m xs) ++ reverse (take m xs))) (sym size) ⟩
        take (length (reverse (drop m xs))) (reverse (drop m xs) ++ reverse (take m xs))
      ≡⟨ take-append (reverse (drop m xs)) (reverse (take m xs)) ⟩ reverse (drop m xs) ∎

module _ {ℓ} {A : Type ℓ} (dec : Discrete A) where
  common-le : (xs ys : List A) → (common dec xs ys ≤ length xs) × (common dec xs ys ≤ length ys)
  unfolding common
  common-le [] ys = omega arith
  common-le (x ∷ xs) [] = omega arith
  common-le (x ∷ xs) (y ∷ ys) = ground (arith, common-le xs ys)

  take-common : (xs ys : List A) → take (common dec xs ys) xs ≡ take (common dec xs ys) ys
  unfolding common
  take-common [] ys = refl
  take-common (x ∷ xs) [] = refl
  take-common (x ∷ xs) (y ∷ ys) = ground (arith, take-common xs ys)

  -- The common end of two lists, as the trimming counts it.
  abbrev common_end : List A → List A → ℕ
  common_end xs ys = common dec (reverse xs) (reverse ys)

  common_end-le : (xs ys : List A) → (common_end xs ys ≤ length xs) × (common_end xs ys ≤ length ys)
  common_end-le xs ys =
      omega (arith, common-le (reverse xs) (reverse ys), length-reverse xs, length-reverse ys)

  drop-common_end :
      (xs ys : List A)
      → drop (length xs - common_end xs ys) xs ≡ drop (length ys - common_end xs ys) ys
  drop-common_end xs ys =
      let k = common_end xs ys in
      let (kx, ky) = common_end-le xs ys in
      let a = take-reverse k xs kx in
      let b = take-reverse k ys ky in
      let same = sym a ∙ take-common (reverse xs) (reverse ys) ∙ b in
      sym (reverse-reverse (drop (length xs - k) xs))
      ∙ ap reverse same
      ∙ reverse-reverse (drop (length ys - k) ys)

  -- The patch, applied to the lines that it was made from, puts `lines` in the place of the whole
  -- range.
  pub splice_lines-patch_of :
      (revision : ℕ) (all : List A) (start end : ℕ) (lines : List A)
      → start ≤ end
      → end ≤ length all
      → splice_lines all (patch_of dec revision all start end lines)
        ≡ take start all ++ lines ++ drop end all
  unfolding splice_lines patch_of
  splice_lines-patch_of revision all start end lines h k =
      let old = take (end - start) (drop start all) in
      let p = common dec old lines in
      let o = drop p old in
      let n = drop p lines in
      let s = common_end o n in
      let (po, pl) = common-le old lines in
      let (so, sn) = common_end-le o n in
      let old_size : length old ≡ end - start =
        omega (arith, length-take (end - start) (drop start all), length-drop start all) in
      let o_size : length o ≡ end - start - p = omega (arith, length-drop p old, old_size) in
      let n_size = length-drop p lines in
      let front : take (start + p) all ≡ take start all ++ take p lines =
        take_sum start p all
        ∙ ap (λ l. take start all ++ l)
            (sym (take-take p (end - start) (drop start all) (omega arith))
              ∙ take-common old lines) in
      let tail : drop (end - start) (drop start all) ≡ drop end all =
        sym (drop_sum start (end - start) all) ∙ ap (λ (m : ℕ). drop m all) (omega arith) in
      let rest : drop (start + p) all ≡ o ++ drop end all =
        drop_sum start p all
        ∙ ap (drop p) (sym (take-append-drop (end - start) (drop start all)))
        ∙ drop-append p old (drop (end - start) (drop start all)) po
        ∙ ap (λ l. o ++ l) tail in
      let back : drop (end - s) all ≡ drop (length n - s) n ++ drop end all =
        ap (λ (m : ℕ). drop m all) (omega arith)
        ∙ drop_sum (start + p) (length o - s) all
        ∙ ap (drop (length o - s)) rest
        ∙ drop-append (length o - s) o (drop end all) (omega arith)
        ∙ ap (λ l. l ++ drop end all) (drop-common_end o n) in
      let cut : length lines - s - p ≡ length n - s = omega arith in
      let whole : take p lines ++ (take (length n - s) n ++ drop (length n - s) n) ≡ lines =
        ap (λ l. take p lines ++ l) (take-append-drop (length n - s) n)
        ∙ take-append-drop p lines in
      (λ i. (front i ++ take (cut i) n) ++ back i)
      ∙ regroup (take start all) (take p lines) (take (length n - s) n) (drop (length n - s) n)
          (drop end all)
      ∙ ap (λ l. take start all ++ l ++ drop end all) whole
