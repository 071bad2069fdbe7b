-- ===== src/Tests/Framing.antt =====
-- Bounded lines over a reader that delivers its bytes in pieces.
use nvim_agents_zzz.Prelude.{
  ℕ, ◌≤◌, ◌≡◌, refl, sym, ◌∙◌, Option, some, List, [], ◌∷◌, ◌++◌, length, drop, drop-append, arith,
}
use nvim_agents_zzz.Framing.{BufRead, frame, ok, read_bounded_line, gather, position}
use nvim_agents_zzz.Framing.Line.{Reads, read_bounded_line-Reads}

-- The pieces that are still to come.
abbrev flat : List (List ℕ) → List ℕ
flat [] = []
flat (p ∷ ps) = p ++ flat ps

abbrev refill : List (List ℕ) → List (List ℕ)
refill [] = []
refill ([] ∷ ps) = refill ps
refill ((b ∷ bs) ∷ ps) = (b ∷ bs) ∷ ps

abbrev front : List (List ℕ) → List ℕ
front [] = []
front (p ∷ ps) = p

abbrev drop_front : ℕ → List (List ℕ) → List (List ℕ)
drop_front n [] = []
drop_front n (p ∷ ps) = drop n p ∷ ps

abbrev fill : List (List ℕ) → Option (List ℕ × List (List ℕ))
fill ps = some (front (refill ps), refill ps)

refill-flat : (ps : List (List ℕ)) → flat (refill ps) ≡ flat ps
refill-flat [] = refl
refill-flat ([] ∷ ps) = refill-flat ps
refill-flat ((b ∷ bs) ∷ ps) = refl

front-flat : (ps : List (List ℕ)) → (rest : List ℕ) × (flat ps ≡ front ps ++ rest)
front-flat [] = ([], refl)
front-flat (p ∷ ps) = (flat ps, refl)

refill_end : (ps : List (List ℕ)) → front (refill ps) ≡ [] → flat ps ≡ []
refill_end [] h = refl
refill_end ([] ∷ ps) h = refill_end ps h
refill_end ((b ∷ bs) ∷ ps) h = cc

filled :
    (ps : List (List ℕ)) (available : List ℕ) (ps' : List (List ℕ))
    → fill ps ≡ some (available, ps')
    → (front (refill ps) ≡ available) × (refill ps ≡ ps')
filled ps available ps' h = (cc, cc)

pieces_front :
    (ps : List (List ℕ)) (available : List ℕ) (ps' : List (List ℕ))
    → fill ps ≡ some (available, ps')
    → (rest : List ℕ) × (flat ps ≡ available ++ rest) × (flat ps' ≡ available ++ rest)
pieces_front ps available ps' h =
    let (e, e') = filled ps available ps' h in
    let (rest, p) = front-flat (refill ps) in
    (rest, rw (← e) (sym (refill-flat ps) ∙ p), rw (← e', ← e) p)

pieces_drop :
    (ps : List (List ℕ)) (n : ℕ) → n ≤ length (front ps) → flat (drop_front n ps) ≡ drop n (flat ps)
pieces_drop [] n h = let z : n ≡ 0 = omega arith in rw z
pieces_drop (p ∷ ps) n h = sym (drop-append n p (flat ps) h)

abbrev pieces : BufRead
pieces = record {
  Reader = List (List ℕ);
  fill_buf = fill;
  consume = drop_front;
  contents = flat;
  fill_buf_front = pieces_front;
  fill_buf_end = λ ps ps' h. refill_end ps (filled ps [] ps' h).0;
  consume_drop = λ ps available ps' n h fits.
      let (e, e') = filled ps available ps' h in pieces_drop ps' n (rw (← e', e) fits);
}

-- "12", "34⏎ne", "xt⏎"
abbrev arriving : List (List ℕ)
arriving = (49 ∷ 50 ∷ []) ∷ (51 ∷ 52 ∷ 10 ∷ 110 ∷ 101 ∷ []) ∷ (120 ∷ 116 ∷ 10 ∷ []) ∷ []

read_bounded_line-Reads_example :
    Reads pieces 4 [] (flat arriving) (read_bounded_line pieces 20 4 arriving)
read_bounded_line-Reads_example = read_bounded_line-Reads pieces 20 4 arriving (omega arith)

exact_limit :
    read_bounded_line pieces 20 4 arriving
    ≡ ok (frame (49 ∷ 50 ∷ 51 ∷ 52 ∷ 10 ∷ [])) ((110 ∷ 101 ∷ []) ∷ (120 ∷ 116 ∷ 10 ∷ []) ∷ [])
unfolding read_bounded_line gather position
exact_limit = refl
