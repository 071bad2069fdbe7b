-- ===== src/Human/Paths.antt =====
-- human.rs: the paths of a request, sorted and without repetitions.
use nvim_agents_zzz.Prelude.{
  ℕ, zero, suc, ◌≤◌, ◌≡◌, ◌≢◌, refl, sym, ap, subst, ◌∙◌, String, true, false, List, [], ◌∷◌,
  str_eq, eq_iff, length, take, length-take, Bool-cases, inl, inr, arith,
}
use nvim_agents_zzz.Text.{Text, codes}
use nvim_agents_zzz.Protocol.{Value}
use nvim_agents_zzz.Human.Payload.{
  text_leb, str_leb, insert, sort, dedup, collect_paths, collect_paths_into,
}

-- Each is at most the next.
abbrev Sorted : List String → Type 0
Sorted [] = Unit
Sorted (p ∷ []) = Unit
Sorted (p ∷ q ∷ qs) = (str_leb p q ≡ true) × Sorted (q ∷ qs)

-- Each is less than the next.
abbrev pub Ascending : List String → Type 0
Ascending [] = Unit
Ascending (p ∷ []) = Unit
Ascending (p ∷ q ∷ qs) = (str_leb p q ≡ true) × (p ≢ q) × Ascending (q ∷ qs)

pub text_leb-total : (a b : Text) → text_leb a b ≡ false → text_leb b a ≡ true
unfolding text_leb
text_leb-total [] b h = cc
text_leb-total (x ∷ a) [] h = refl
text_leb-total (x ∷ a) (y ∷ b) h = let rest = text_leb-total a b in ground (arith, rest, h)

insert-Sorted-under :
    (o p : String) (qs : List String)
    → Sorted (o ∷ qs)
    → str_leb o p ≡ true
    → Sorted (o ∷ insert p qs)
unfolding insert
insert-Sorted-under o p [] v h = (h, tt)
insert-Sorted-under o p (q ∷ qs) v h = elim (Bool-cases (str_leb p q)) [
  | inl e ↦ rw e (h, (e, v.1))
  | inr e ↦ rw e (v.0, insert-Sorted-under q p qs v.1 (text_leb-total (codes p) (codes q) e))
]

insert-Sorted : (p : String) (qs : List String) → Sorted qs → Sorted (insert p qs)
unfolding insert
insert-Sorted p [] v = tt
insert-Sorted p (q ∷ qs) v = elim (Bool-cases (str_leb p q)) [
  | inl e ↦ rw e (e, v)
  | inr e ↦ rw e (insert-Sorted-under q p qs v (text_leb-total (codes p) (codes q) e))
]

sort-Sorted : (ps : List String) → Sorted (sort ps)
unfolding sort
sort-Sorted [] = tt
sort-Sorted (p ∷ ps) = insert-Sorted p (sort ps) (sort-Sorted ps)

-- The first of the neighbours that are equal stays at the front.
dedup-front : (p : String) (ps : List String) → (rest : List String) × (dedup (p ∷ ps) ≡ p ∷ rest)
unfolding dedup
dedup-front p [] = ([], refl)
dedup-front p (q ∷ qs) = elim (Bool-cases (str_eq p q)) [
  | inl e ↦
      let (rest, h) = dedup-front q qs in
      (rest, rw e (h ∙ ap (λ (r : String). r ∷ rest) (sym ((eq_iff p q).0 e))))
  | inr e ↦ (dedup (q ∷ qs), rw e refl)
]

dedup-Ascending : (ps : List String) → Sorted ps → Ascending (dedup ps)
unfolding dedup
dedup-Ascending [] v = tt
dedup-Ascending (p ∷ []) v = tt
dedup-Ascending (p ∷ q ∷ qs) v = elim (Bool-cases (str_eq p q)) [
  | inl e ↦ rw e (dedup-Ascending (q ∷ qs) v.1)
  | inr e ↦
      let (rest, h) = dedup-front q qs in
      let tail : Ascending (q ∷ rest) = subst Ascending h (dedup-Ascending (q ∷ qs) v.1) in
      let apart : p ≢ q = λ same. cc (e, (eq_iff p q).1 same) in rw (e, h) (v.0, apart, tail)
]

take-Ascending : (n : ℕ) (ps : List String) → Ascending ps → Ascending (take n ps)
take-Ascending zero ps v = tt
take-Ascending (suc n) [] v = tt
take-Ascending (suc zero) (p ∷ []) v = tt
take-Ascending (suc (suc n)) (p ∷ []) v = tt
take-Ascending (suc zero) (p ∷ q ∷ qs) v = tt
take-Ascending (suc (suc n)) (p ∷ q ∷ qs) (a, b, v) = (a, b, take-Ascending (suc n) (q ∷ qs) v)

-- The paths that a request shows are at most 64, in ascending order, each once.
pub collect_paths-Ascending :
    (value : Value) → (length (collect_paths value) ≤ 64) × Ascending (collect_paths value)
unfolding collect_paths
collect_paths-Ascending value =
    let paths = dedup (sort (collect_paths_into value [] 0)) in
    (
      omega (arith, length-take 64 paths),
      take-Ascending 64 paths (dedup-Ascending _ (sort-Sorted (collect_paths_into value [] 0))),
    )
