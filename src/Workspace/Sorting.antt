-- ===== src/Workspace/Sorting.antt =====
-- workspace.rs: sorting by a text of each item.
use nvim_agents_zzz.Prelude.{
  ◌≡◌, String, true, List, [], ◌∷◌, if◌then◌else◌, All, Bool-cases, inl, inr,
}
use nvim_agents_zzz.Text.{codes}
use nvim_agents_zzz.Human.Payload.{str_leb}
use nvim_agents_zzz.Human.Paths.{text_leb-total}

-- `sort_by` on a text of each item, which is stable.
module _ {A : Type 0} (key : A → String) where
  unfoldable pub insert_by : A → List A → List A
  insert_by a [] = a ∷ []
  insert_by a (b ∷ bs) =
      let rest = insert_by a bs in if str_leb (key a) (key b) then a ∷ b ∷ bs else b ∷ rest

  unfoldable pub sort_by : List A → List A
  unfolding insert_by
  sort_by [] = []
  sort_by (a ∷ rest) = insert_by a (sort_by rest)

  abbrev pub IsSorted : List A → Type 0
  IsSorted [] = Unit
  IsSorted (a ∷ []) = Unit
  IsSorted (a ∷ b ∷ bs) = (str_leb (key a) (key b) ≡ true) × IsSorted (b ∷ bs)

  insert_by-All : (P : A → Type 0) (a : A) (bs : List A) → P a → All P bs → All P (insert_by a bs)
  unfolding insert_by
  insert_by-All P a [] h hs = (h, tt)
  insert_by-All P a (b ∷ bs) h hs = elim (Bool-cases (str_leb (key a) (key b))) [
    | inl e ↦ rw e (h, hs)
    | inr e ↦ rw e (hs.0, insert_by-All P a bs h hs.1)
  ]

  pub sort_by-All : (P : A → Type 0) (bs : List A) → All P bs → All P (sort_by bs)
  unfolding sort_by
  sort_by-All P [] hs = tt
  sort_by-All P (b ∷ bs) hs = insert_by-All P b (sort_by bs) hs.0 (sort_by-All P bs hs.1)

  insert_by-under :
      (o a : A) (bs : List A)
      → IsSorted (o ∷ bs)
      → str_leb (key o) (key a) ≡ true
      → IsSorted (o ∷ insert_by a bs)
  unfolding insert_by
  insert_by-under o a [] v h = (h, tt)
  insert_by-under o a (b ∷ bs) v h = elim (Bool-cases (str_leb (key a) (key b))) [
    | inl e ↦ rw e (h, (e, v.1))
    | inr e ↦
        rw e (v.0, insert_by-under b a bs v.1 (text_leb-total (codes (key a)) (codes (key b)) e))
  ]

  pub sort_by-IsSorted : (bs : List A) → IsSorted (sort_by bs)
  unfolding sort_by
  sort_by-IsSorted [] = tt
  sort_by-IsSorted (b ∷ bs) = insert_by-IsSorted b (sort_by bs) (sort_by-IsSorted bs)
    where
      insert_by-IsSorted : (a : A) (bs : List A) → IsSorted bs → IsSorted (insert_by a bs)
      insert_by-IsSorted a [] v = tt
      insert_by-IsSorted a (b ∷ bs) v = elim (Bool-cases (str_leb (key a) (key b))) [
        | inl e ↦ rw e (e, v)
        | inr e ↦ rw e (insert_by-under b a bs v (text_leb-total (codes (key a)) (codes (key b)) e))
      ]
