-- ===== src/Projection/Catalog.antt =====
-- projection.rs: which models are listed.
use nvim_agents_zzz.Prelude.{
  ℕ, ◌≤◌, ◌≡◌, refl, sym, ap, ◌∙◌, subst, String, Bool, true, false, ◌||◌, Option, none, some, List,
  [], ◌∷◌, take, any, length, min, length-take, leb, str_eq, eq_iff, unwrap_or, ◌>>=◌, All,
  some-injective, none-some, Bool-cases, Option-cases, inl, inr, ◌⊎◌, zero, suc, leb→le, arith,
  >>=-eq-some,
}
use nvim_agents_zzz.Protocol.{Value, Provider}
use nvim_agents_zzz.Projection.{
  Model, keep, is_within, is_id, first_string, model_id, model_of, listed, models_from, model_list,
  visible_of, provider_models,
}

-- A model that may be shown.
pub record IsModel (model : Model) : Type 0 where
  pub named : is_id model.id ≡ true
  pub titled : is_within 256 model.display_name ≡ true
  pub described : (text : String) → model.description ≡ some text → is_within 4096 text ≡ true

abbrev pub Unlisted : List String → Model → Type 0
Unlisted seen model = any (str_eq model.id) seen ≡ false

abbrev pub AreDistinct : List Model → Type 0
AreDistinct [] = Unit
AreDistinct (model ∷ models) =
    All (λ other. str_eq other.id model.id ≡ false) models × AreDistinct models

abbrev pub is_listed : String → List Model → Bool
is_listed id = any (λ model. str_eq id model.id)

keep-eq-some :
    (p : String → Bool) (o : Option String) (s : String) → (o >>= keep p) ≡ some s → p s ≡ true
keep-eq-some p o s h =
    let (t, _, k) = >>=-eq-some o (keep p) h in
    elim (Bool-cases (p t)) [
      | inl e ↦ subst (λ u. p u ≡ true) (some-injective (rw e at k)) e
      | inr e ↦ absurd (none-some (rw e at k))
    ]

unwrap_or-keep :
    (p : String → Bool) (o : Option String) (s : String)
    → p s ≡ true
    → p (unwrap_or (o >>= keep p) s) ≡ true
unwrap_or-keep p none s h = h
unwrap_or-keep p (some t) s h = elim (Bool-cases (p t)) [ inl e ↦ rw e e | inr e ↦ rw e h ]

is_id-is_within : (id : String) → is_id id ≡ true → is_within 256 id ≡ true
is_id-is_within id h = ground (arith, h)

model_of-IsModel : (r : Value) (id : String) → is_id id ≡ true → IsModel (model_of r id)
unfolding model_of
model_of-IsModel r id h = record {
  named = h;
  titled =
      unwrap_or-keep (is_within 256) (first_string r ("displayName" ∷ "display_name" ∷ "name" ∷ []))
        id (is_id-is_within id h);
  described = λ text e. keep-eq-some (is_within 4096) (first_string r ("description" ∷ [])) text e;
}

model_id-is_id : (r : Value) (id : String) → model_id r ≡ some id → is_id id ≡ true
unfolding model_id
model_id-is_id r id h = keep-eq-some is_id (first_string r ("model" ∷ "id" ∷ [])) id h

model_of-id : (r : Value) (id : String) → (model_of r id).id ≡ id
unfolding model_of
model_of-id r id = refl

listed-IsModel :
    (seen : List String) (r : Value) (model : Model)
    → listed seen r ≡ some model
    → IsModel model × Unlisted seen model × (model_id r ≡ some model.id)
unfolding listed
listed-IsModel seen r model h =
    let (id, e, k) = >>=-eq-some (model_id r) _ h in
    elim (Bool-cases (any (str_eq id) seen)) [
      | inl twice ↦ absurd (none-some (rw twice at k))
      | inr once ↦
          subst (λ m. IsModel m × Unlisted seen m × (model_id r ≡ some m.id))
            (some-injective (rw once at k))
            (
              model_of-IsModel r id (model_id-is_id r id e),
              rw (model_of-id r id) once,
              rw (model_of-id r id) e,
            )
    ]

Unlisted-uncons :
    (id : String) (seen : List String) (models : List Model)
    → All (Unlisted (id ∷ seen)) models
    → All (Unlisted seen) models × All (λ other. str_eq other.id id ≡ false) models
Unlisted-uncons id seen [] h = (tt, tt)
Unlisted-uncons id seen (m ∷ ms) h =
    let (u, d) = Unlisted-uncons id seen ms h.1 in ((ground (arith, h), u), (ground (arith, h), d))

models_from-none :
    (seen : List String) (r : Value) (rest : List Value)
    → listed seen r ≡ none
    → models_from seen rest ≡ models_from seen (r ∷ rest)
unfolding models_from
models_from-none seen r rest e = rw (e, models_from) refl

models_from-some :
    (seen : List String) (r : Value) (rest : List Value) (model : Model)
    → listed seen r ≡ some model
    → ◌≡◌ {A = List Model}
        (model ∷ models_from (model.id ∷ seen) rest)
        (models_from seen (r ∷ rest))
unfolding models_from
models_from-some seen r rest model e = rw (e, models_from) refl

-- Every model may be shown, none was listed before, and none comes twice.
abbrev AreListable : List String → List Model → Type 0
AreListable seen models = All IsModel models × All (Unlisted seen) models × AreDistinct models

models_from-AreListable :
    (seen : List String) (records : List Value) → AreListable seen (models_from seen records)
unfolding models_from
models_from-AreListable seen [] = (tt, tt, tt)
models_from-AreListable seen (r ∷ rest) = elim (Option-cases (listed seen r)) [
  | inl e ↦
      subst (AreListable seen) (models_from-none seen r rest e) (models_from-AreListable seen rest)
  | inr (model, e) ↦
      let (m, u, _) = listed-IsModel seen r model e in
      let (ms, us, ds) = models_from-AreListable (model.id ∷ seen) rest in
      let (us', ds') = Unlisted-uncons model.id seen _ us in
      subst (AreListable seen) (models_from-some seen r rest model e) ((m, ms), (u, us'), (ds', ds))
]

abbrev pub Known : List String → List Model → Value → Type 0
Known seen models r =
    (id : String) → model_id r ≡ some id → (any (str_eq id) seen || is_listed id models) ≡ true

or_swap : (a s l : Bool) → ((a || s) || l) ≡ true → (s || (a || l)) ≡ true
or_swap a s l h = ground (arith, h)

or_left : (s l : Bool) → s ≡ true → (s || l) ≡ true
or_left s l h = ground (arith, h)

or_middle : (s a l : Bool) → a ≡ true → (s || (a || l)) ≡ true
or_middle s a l h = ground (arith, h)

-- A valid name whose record is left out was listed before.
unlisted-seen :
    (seen : List String) (r : Value) (id : String)
    → listed seen r ≡ none
    → model_id r ≡ some id
    → any (str_eq id) seen ≡ true
unfolding listed
unlisted-seen seen r id e h = elim (Bool-cases (any (str_eq id) seen)) [
  | inl t ↦ t
  | inr f ↦ absurd (none-some (sym (rw (h, f) at e)))
]

cons-Known :
    (seen : List String) (model : Model) (models : List Model) (records : List Value)
    → All (Known (model.id ∷ seen) models) records
    → All (Known seen (model ∷ models)) records
cons-Known seen model models [] h = tt
cons-Known seen model models (r ∷ rest) h =
    (λ id e. or_swap (str_eq id model.id) _ _ (h.0 id e), cons-Known seen model models rest h.1)

models_from-Known :
    (seen : List String) (records : List Value)
    → All (Known seen (models_from seen records)) records
unfolding models_from
models_from-Known seen [] = tt
models_from-Known seen (r ∷ rest) = elim (Option-cases (listed seen r)) [
  | inl e ↦
      subst (λ models. All (Known seen models) (r ∷ rest)) (models_from-none seen r rest e)
        (λ id h. or_left _ _ (unlisted-seen seen r id e h), models_from-Known seen rest)
  | inr (model, e) ↦
      let (_, _, named) = listed-IsModel seen r model e in
      subst (λ models. All (Known seen models) (r ∷ rest)) (models_from-some seen r rest model e)
        (
          λ id h. or_middle _ _ _ ((eq_iff id model.id).1 (some-injective (sym h ∙ named))),
          cons-Known seen model _ rest (models_from-Known (model.id ∷ seen) rest),
        )
]

take-All : (P : Model → Type 0) (n : ℕ) (models : List Model) → All P models → All P (take n models)
take-All P zero models h = tt
take-All P (suc n) [] h = tt
take-All P (suc n) (m ∷ ms) h = (h.0, take-All P n ms h.1)

take-AreDistinct : (n : ℕ) (models : List Model) → AreDistinct models → AreDistinct (take n models)
take-AreDistinct zero models h = tt
take-AreDistinct (suc n) [] h = tt
take-AreDistinct (suc n) (m ∷ ms) h =
    (take-All (λ other. str_eq other.id m.id ≡ false) n ms h.0, take-AreDistinct n ms h.1)

min_many : (n : ℕ) → leb 1000 n ≡ true → min 1000 n ≡ 1000
min_many n h = omega (arith, leb→le 1000 n h)

at_most : (n : ℕ) → leb 1000 n ≡ false → n ≤ 1000
at_most n h = ground (arith, h)

take_short : (n : ℕ) (models : List Model) → length models ≤ n → take n models ≡ models
take_short zero [] h = refl
take_short (suc n) [] h = refl
take_short zero (m ∷ ms) h = absurd (omega (arith, h))
take_short (suc n) (m ∷ ms) h = ap (λ l. m ∷ l) (take_short n ms (omega (arith, h)))

-- The models that are shown: at most 1000, each fit to be shown and with an id of its own; every record that is not
-- hidden and names a model is among them, unless there are 1000.
pub record IsCatalog (result : Value) (models : List Model) : Type 0 where
  pub few : length models ≤ 1000
  pub fit : All IsModel models
  pub distinct : AreDistinct models
  pub complete : (length models ≡ 1000) ⊎ All (Known [] models) (visible_of result)

-- A provider's models are shown as at most 1000 models, each with a valid id, title and description, no id twice; and
-- every record that is not hidden and has a valid id is among them, unless there are 1000.
pub provider_models-IsCatalog :
    (provider : Provider) (result : Value)
    → (models : List Model) × (provider_models provider result ≡ model_list provider models)
      × IsCatalog result models
unfolding provider_models
provider_models-IsCatalog provider result =
    let all = models_from [] (visible_of result) in
    let (fit, _, distinct) = models_from-AreListable [] (visible_of result) in
    (
      take 1000 all,
      refl,
      record {
        few = rw (length-take 1000 all) (omega arith);
        fit = take-All IsModel 1000 all fit;
        distinct = take-AreDistinct 1000 all distinct;
        complete = elim (Bool-cases (leb 1000 (length all))) [
          | inl many ↦ inl (rw (length-take 1000 all) (min_many (length all) many))
          | inr short ↦ inr (
              subst (λ models. All (Known [] models) (visible_of result))
                (sym (take_short 1000 all (at_most (length all) short)))
                (models_from-Known [] (visible_of result)))
        ];
      },
    )
